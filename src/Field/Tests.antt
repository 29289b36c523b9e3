-- ===== src/Field/Tests.antt =====
-- The backend of the FIELD application as its tests start it.
use igrisv.Base.{
  ℕ, String, map, length, String_discrete, ◌≡◌, refl, true, false, Option, none, some, List, [],
  ◌∷◌, ◌==◌, if◌then◌else◌, err, ℕ_discrete, nat_key, string_key, lookup, insert, update,
}
use igrisv.Policy.{Flags, PolicyError, check, autonomous, PermissionLevel}
use igrisv.Policy.Approvals
use igrisv.Policy.Approvals.{check_with_approval, request, list_pending, is_pending}
use igrisv.Orchestrator.{
  ready_tasks, checkpoint, add, is_ready, deps_satisfied, begin, record_success, refresh_state,
  is_done, progress_pct,
}
use igrisv.Field.{FieldBackend, Ambient, demo_step, approve, kill}
use igrisv.Field.Calls.{Call, steps, run, approves, denies, sets_autonomy}
use igrisv.Memory.{upsert, count, is_live, is_expired}
use igrisv.Field.Views.{
  boot, mission_progress, seed_mission, seed_memory, mission_nodes, pending_approvals, memory_count,
}
use igrisv.Field.Stopped.{kill-check}
use igrisv.Field.Honest.{run-IsHonest, IsHonest}

abbrev name_of : ℕ → String
name_of id = if id == 7 then "seven" else "other"

abbrev at : ℕ → Ambient
at t = record { now = t; noted_at = t; sent_at = t; event_id = "e"; receivers = none }

abbrev no_flags : Flags
no_flags a = false

abbrev booted : FieldBackend ℕ
booted = boot 80 50 70 no_flags 4 ("u", "v", "w") (0, 1, 2) 7 30 (at 1)

seeded :
    (map (λ n. n.state) (mission_nodes booted) ≡ "Pending" ∷ "Pending" ∷ "Pending" ∷ [])
    × (length (pending_approvals booted) ≡ 1)
    × (memory_count booted 9 ≡ 3)
    × (mission_progress booted ≡ 0)
unfolding boot seed_mission seed_memory mission_nodes list_pending Approvals.request upsert count
    is_live is_expired checkpoint add lookup update insert ℕ_discrete String_discrete progress_pct
    is_done Approvals.is_pending
seeded = (refl, refl, refl, refl)

-- Three steps complete the mission, and the fourth finds no task.
abbrev stepped_once : Option String × FieldBackend ℕ
stepped_once = demo_step name_of booted (at 2)

abbrev stepped_thrice : Option String × FieldBackend ℕ
stepped_thrice = demo_step name_of (demo_step name_of stepped_once.1 (at 3)).1 (at 4)

all_three :
    (stepped_thrice.0 ≡ some "verify panels")
    × (mission_progress stepped_thrice.1 ≡ 100)
    × ((demo_step name_of stepped_thrice.1 (at 5)).0 ≡ none)
unfolding boot seed_mission demo_step ready_tasks checkpoint add lookup update insert ℕ_discrete
    is_ready deps_satisfied begin record_success refresh_state is_done progress_pct
all_three = (refl, refl, refl)

-- The pending approval is granted once; the second call tells of a refusal that is none.
granted_once :
    ((approve name_of booted (at 2) 7).0 ≡ true)
    × ((approve name_of (approve name_of booted (at 2) 7).1 (at 3) 7).0 ≡ false)
unfolding boot approve Approvals.approve Approvals.request lookup insert update ℕ_discrete
granted_once = (refl, refl)

abbrev later_calls : List (Ambient × Call ℕ)
later_calls = (at 3, approves 7) ∷ (at 4, sets_autonomy autonomous) ∷ []

abbrev afterwards : FieldBackend ℕ
afterwards = run name_of 80 50 60 (kill booted (at 2)) later_calls

kill-check_example :
    (check afterwards.flags afterwards.policy PermissionLevel.l0_read false
      ≡ err (PolicyError.killed "kill-switch engaged"))
    × (check_with_approval afterwards.flags afterwards.policy PermissionLevel.l0_read false
          afterwards.approvals 5 7
        ≡ (err (PolicyError.killed "kill-switch engaged"), afterwards.approvals))
kill-check_example =
    kill-check name_of 80 50 60 booted (at 2) later_calls PermissionLevel.l0_read false 5 7
      (tt, (tt, tt))

booted-IsHonest : IsHonest name_of booted
unfolding boot
booted-IsHonest = (tt, tt)

run-IsHonest_example :
    IsHonest name_of
      (run name_of 80 50 60 booted ((at 2, approves 7) ∷ (at 3, denies 7) ∷ (at 4, steps) ∷ []))
run-IsHonest_example =
    run-IsHonest name_of 80 50 60 booted
      ((at 2, approves 7) ∷ (at 3, denies 7) ∷ (at 4, steps) ∷ []) booted-IsHonest
