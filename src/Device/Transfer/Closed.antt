-- ===== src/Device/Transfer/Closed.antt =====
-- transfer.rs: any sequence of calls follows the diagram.
use igrisv.Base.{
  ℕ, String, ◌≡◌, refl, ap, ◌∙◌, ◌≢◌, inl, inr, none, some, List, [], ◌∷◌, Option-cases, Each,
  nat_key, string_key, Unique,
}
use igrisv.Device.Transfer.{
  SessionState, state, stale_ids, sweep_expired, preparing, awaiting_approval, transferring,
  SessionManager,
}
use igrisv.Device.Transfer.States.{
  ◌⟶◌, stay, accept, refuse, fail, lapse, abandon, time_out, approve-⟶, deny-⟶, note_bytes-⟶,
  complete-⟶, conclude,
}
use igrisv.Device.Transfer.Sweep.{sweep_expired-⟶}
use igrisv.Device.Transfer.Calls.{
  Call, prepares, notes, completes, sweeps, step, run, Fresh, expire_all-Unique, prepare-Unique,
  prepare-⟶, approve-Unique, deny-Unique, note_bytes-Unique, complete-Unique, approve_keeps,
  deny_keeps, note_bytes_keeps, complete_keeps, prepare_keeps, sweep_expired_keeps, approves,
  denies,
}

-- The states that no edge leaves.
abbrev pub IsClosed : SessionState → Type 0
IsClosed preparing = ⊥
IsClosed awaiting_approval = ⊥
IsClosed transferring = ⊥
IsClosed _ = Unit {0}

⟶-closed : {s t : SessionState} → s ⟶ t → IsClosed s → t ≡ s
⟶-closed stay c = refl
⟶-closed accept c = absurd c
⟶-closed refuse c = absurd c
⟶-closed conclude c = absurd c
⟶-closed fail c = absurd c
⟶-closed lapse c = absurd c
⟶-closed abandon c = absurd c
⟶-closed time_out c = absurd c

module _ (sha256_hex : List ℕ → String) where
  step-Unique :
      (m : SessionManager) (c : ℕ × Call)
      → Unique m.sessions
      → Unique (step sha256_hex m c).sessions
  unfolding step
  step-Unique m (now, prepares uuid from_device files) u =
      prepare-Unique m uuid now from_device files u
  step-Unique m (now, approves id) u = approve-Unique m id u
  step-Unique m (now, denies id) u = deny-Unique m id u
  step-Unique m (now, notes id file token n) u = note_bytes-Unique m id file token n u
  step-Unique m (now, completes id file bytes) u = complete-Unique sha256_hex m id file bytes u
  step-Unique m (now, sweeps) u =
      unfold sweep_expired in expire_all-Unique (stale_ids now m.sessions) m.sessions u

  -- In a manager with one session for an id at most, every call that does not draw a session's id again
  -- moves the session along an edge of the diagram, or leaves its state.
  pub step-⟶ :
      (m : SessionManager) (c : ℕ × Call) (id : String) {s t : SessionState}
      → Unique m.sessions
      → Fresh id c
      → state m id ≡ some s
      → state (step sha256_hex m c) id ≡ some t
      → s ⟶ t
  unfolding step
  step-⟶ m (now, prepares uuid from_device files) id u f before after =
      prepare-⟶ m uuid now from_device files id f before after
  step-⟶ m (now, approves i) id u f before after = approve-⟶ m i id before after
  step-⟶ m (now, denies i) id u f before after = deny-⟶ m i id before after
  step-⟶ m (now, notes i file token n) id u f before after =
      note_bytes-⟶ m i id before file token n after
  step-⟶ m (now, completes i file bytes) id u f before after =
      complete-⟶ m i id before sha256_hex file bytes after
  step-⟶ m (now, sweeps) id u f before after = sweep_expired-⟶ m now id u before after

  step_keeps :
      (m : SessionManager) (c : ℕ × Call) (id : String) {s : SessionState}
      → Unique m.sessions
      → Fresh id c
      → state m id ≡ some s
      → state (step sha256_hex m c) id ≢ none
  unfolding step
  step_keeps m (now, prepares uuid from_device files) id u f before =
      prepare_keeps m uuid now from_device files id f before
  step_keeps m (now, approves i) id u f before = approve_keeps m i id before
  step_keeps m (now, denies i) id u f before = deny_keeps m i id before
  step_keeps m (now, notes i file token n) id u f before =
      note_bytes_keeps m i id before file token n
  step_keeps m (now, completes i file bytes) id u f before =
      complete_keeps m i id before sha256_hex file bytes
  step_keeps m (now, sweeps) id u f before = sweep_expired_keeps m now id u before

  step-closed :
      (m : SessionManager) (c : ℕ × Call) (id : String) (s : SessionState)
      → Unique m.sessions
      → Fresh id c
      → state m id ≡ some s
      → IsClosed s
      → state (step sha256_hex m c) id ≡ some s
  step-closed m c id s u f before closed = elim (Option-cases (state (step sha256_hex m c) id)) [
    | inl e ↦ absurd (step_keeps m c id u f before e)
    | inr (t, e) ↦ e ∙ ap some (⟶-closed (step-⟶ m c id u f before e) closed)
  ]

  -- In a manager with one session for an id at most, a session that is completed, denied, expired or
  -- failed stays so, whatever calls follow, as long as its id is not drawn again.
  pub closed_for_good :
      (m : SessionManager) (cs : List (ℕ × Call)) (id : String) (s : SessionState)
      → Unique m.sessions
      → Each (Fresh id) cs
      → state m id ≡ some s
      → IsClosed s
      → state (run sha256_hex m cs) id ≡ some s
  unfolding run
  closed_for_good m [] id s u f before c = before
  closed_for_good m (call ∷ cs) id s u f before c =
      closed_for_good (step sha256_hex m call) cs id s (step-Unique m call u) f.1
        (step-closed m call id s u f.0 before c) c
