-- ===== src/Cli/Tests.antt =====
-- The demonstration of apps/cli/src/main.rs.
use igrisv.Base.{
  ℕ, ◌+◌, String, ◌≡◌, refl, inl, true, false, Option, none, some, List, [], ◌∷◌, arith, ℕ_discrete,
  all, nat_key, string_key, values, lookup, insert, update,
}
use igrisv.Orchestrator.{
  Mission, add, deps_satisfied, is_ready, ready_tasks, begin, refresh_state, record_success,
  progress_pct, new_node, with_deps, is_done, MissionState, is_complete,
}
use igrisv.Policy.Approvals
use igrisv.Cli.{drive, demo, ended, round, Driven}
use igrisv.Cli.Commands.{
  run, Draws, Printed, mission, approval, empty_text, unknown_command, approve_demo, mission_demo,
}
use igrisv.Reflex.Tests.{hundredths as float}
use igrisv.Memory.Search.Tests.{hundredths, matching}
use igrisv.Cli.Drive.{waiting}
use igrisv.Cli.Completion.{CanRun, drive_completes}

abbrev name_of : ℕ → String
name_of id = "node"

abbrev of_log : Driven → Option (List String × ℕ)
of_log (ended m log) = some (log, progress_pct m)
of_log d = none

demo_log :
    of_log (drive name_of 4 (demo 0 1 2) [])
    ≡ some ("research -> 33%" ∷ "implement -> 66%" ∷ "verify -> 100%" ∷ [], 100)
unfolding demo drive round begin record_success refresh_state progress_pct ready_tasks is_ready
    deps_satisfied is_done add insert lookup update ℕ_discrete
demo_log = refl

demo-CanRun : CanRun (demo 0 1 2)
unfolding demo add insert lookup ℕ_discrete is_done
demo-CanRun = record {
  unique = omega arith;
  plain = λ id n e. ground arith;
  back = (
    (new_node 0 "research", refl, refl),
    (
      (with_deps (new_node 1 "implement") (0 ∷ []), refl, refl),
      ((with_deps (new_node 2 "verify") (1 ∷ []), refl, refl), tt),
    ),
  );
  status = inl (refl, refl);
}

drive_completes_example :
    (m' : Mission) × (log' : List String) × (drive name_of
        (waiting (demo 0 1 2).nodes (demo 0 1 2).order + 1)
        (demo 0 1 2)
        []
      ≡ ended m' log')
    × (m'.state ≡ MissionState.completed)
    × (all is_done (values m'.nodes) ≡ true)
drive_completes_example = drive_completes name_of (demo 0 1 2) [] demo-CanRun

abbrev drawn : Draws
drawn = record { now = 5; note = "n"; seeds = ("u", "v", "w"); nodes = (0, 1, 2); request = 7 }

abbrev called : List String → Option (ℕ × Printed ℕ ℕ)
called =
    run float hundredths matching name_of 80 50
      (record { mic_count = 0; mic_names = []; tts_binary_present = false; wake_phrase = "arise" })
      300 drawn

exit_codes :
    (called ("decide" ∷ " " ∷ []) ≡ some (2, empty_text))
    × (called ("mission" ∷ []) ≡ some (2, unknown_command))
    × (called ("approve-demo" ∷ []) ≡ some (0, approval true 0))
    × (called ("mission-demo" ∷ [])
        ≡ some
            (0, mission ("research -> 33%" ∷ "implement -> 66%" ∷ "verify -> 100%" ∷ []) 100 true))
unfolding run demo drive round begin record_success refresh_state progress_pct ready_tasks is_ready
    deps_satisfied is_done add insert lookup update ℕ_discrete approve_demo mission_demo is_complete
    Approvals.approve Approvals.request Approvals.settle Approvals.list_pending
exit_codes = (refl, refl, refl, refl)
