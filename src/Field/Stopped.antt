-- ===== src/Field/Stopped.antt =====
-- apps/field-dioxus/src/backend.rs: what the kill switch stops stays stopped.
use igrisv.Base.{ℕ, String, ◌≡◌, Bool, true, List, [], ◌∷◌, arith, Each, ok, err}
use igrisv.Policy.{PolicyError, engage, is_engaged, check, PermissionLevel}
use igrisv.Policy.Approvals.{check_with_approval}
use igrisv.Field.{
  killed, FieldBackend, Ambient, demo_step, approve, deny, set_autonomy, kill, revive,
  memory_search, memory_put, merge_devices, run_lan_scan,
}
use igrisv.Field.Calls.{
  Call, steps, sets_autonomy, searches, puts, merges, scans, step, run, approves, denies, kills,
  revives,
}

-- A call other than `revive`.
abbrev pub Keeps : {F : Type 0} → Ambient × Call F → Type 0
Keeps (a, revives) = ⊥
Keeps _ = Unit {0}

module _ {F : Type 0} (to_string : ℕ → String) (four_fifths half three_fifths : F) where
  step_stopped :
      (b : FieldBackend F) (c : Ambient × Call F)
      → Keeps c
      → killed b ≡ true
      → killed (step to_string four_fifths half three_fifths b c) ≡ true
  unfolding killed is_engaged demo_step approve deny set_autonomy kill revive memory_search
      memory_put merge_devices run_lan_scan engage
  step_stopped b (a, steps) k h = ground arith
  step_stopped b (a, approves id) k h = h
  step_stopped b (a, denies id) k h = h
  step_stopped b (a, sets_autonomy autonomy) k h = h
  step_stopped b (a, kills) k h = ground arith
  step_stopped b (a, revives) k h = absurd k
  step_stopped b (a, searches query (ok hits)) k h = h
  step_stopped b (a, searches query (err e)) k h = h
  step_stopped b (a, puts uuid content accepted) k h = ground arith
  step_stopped b (a, merges fresh) k h = h
  step_stopped b (a, scans (ok found)) k h = h
  step_stopped b (a, scans (err e)) k h = h

  run_stopped :
      (b : FieldBackend F) (cs : List (Ambient × Call F))
      → Each Keeps cs
      → killed b ≡ true
      → killed (run to_string four_fifths half three_fifths b cs) ≡ true
  unfolding run
  run_stopped b [] k h = h
  run_stopped b (c ∷ cs) k h =
      run_stopped (step to_string four_fifths half three_fifths b c) cs k.1 (step_stopped b c k.0 h)

  -- After the kill switch is engaged, and as long as no call revives the backend, whatever the panels
  -- call: the policy refuses every action of any level, and a live approval does not help.
  pub kill-check :
      (b : FieldBackend F) (a : Ambient) (cs : List (Ambient × Call F)) (level : PermissionLevel)
      (risky : Bool) (now id : ℕ)
      → Each Keeps cs
      → let after = run to_string four_fifths half three_fifths (kill b a) cs in
        (check after.flags after.policy level risky
          ≡ err (PolicyError.killed "kill-switch engaged"))
        × (check_with_approval after.flags after.policy level risky after.approvals now id
            ≡ (err (PolicyError.killed "kill-switch engaged"), after.approvals))
  unfolding check check_with_approval kill engage killed is_engaged
  kill-check b a cs level risky now id k =
      let off = run_stopped (kill b a) cs k (ground arith) in
      (ground (arith, off), ground (arith, off))
