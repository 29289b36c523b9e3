-- ===== src/Device/Transfer/States.antt =====
-- transfer.rs: the life of a session, as a diagram that every call of the manager follows.
use igrisv.Base.{String, ◌≡◌, some, arith, nat_key, string_key, lookup-update, ℕ, List, update}
use igrisv.Device.Transfer.{
  SessionState, preparing, awaiting_approval, transferring, completed, denied, expired, failed,
  SessionManager, approve, deny, state, set_state, note_bytes, close, finish_file, complete,
  note_progress,
}

infix 40 ◌⟶◌
pub data ◌⟶◌ : SessionState → SessionState → Type 0 where
  stay : {s : SessionState} → s ⟶ s
  accept : awaiting_approval ⟶ transferring
  refuse : awaiting_approval ⟶ denied
  conclude : transferring ⟶ completed
  fail : transferring ⟶ failed
  lapse : awaiting_approval ⟶ expired
  abandon : preparing ⟶ expired
  time_out : transferring ⟶ expired

pub ruleset edges = (stay, accept, refuse, conclude, fail, lapse, abandon, time_out)

module _ (m : SessionManager) (i id : String) {s t : SessionState}
    (before : state m id ≡ some s) where
  pub approve-⟶ : state (approve m i).1 id ≡ some t → s ⟶ t
  unfolding approve state
  approve-⟶ after = grind (arith, edges, lookup-update i id (set_state transferring) m.sessions)

  pub deny-⟶ : state (deny m i).1 id ≡ some t → s ⟶ t
  unfolding deny state
  deny-⟶ after = grind (arith, edges, lookup-update i id (set_state denied) m.sessions)

  pub note_bytes-⟶ :
      (file token : String) (n : ℕ) → state (note_bytes m i file token n).1 id ≡ some t → s ⟶ t
  unfolding note_bytes state
  note_bytes-⟶ file token n after = grind (
    arith,
    edges,
    lookup-update i id (λ x. record x { files = update file (note_progress n) x.files }) m.sessions,
  )

  pub complete-⟶ :
      (sha256_hex : List ℕ → String) (file : String) (bytes : List ℕ)
      → state (complete sha256_hex m i file bytes).1 id ≡ some t
      → s ⟶ t
  unfolding complete state
  complete-⟶ sha256_hex file bytes after = grind (
    arith,
    edges,
    lookup-update i id (λ x. close (finish_file file x)) m.sessions,
    lookup-update i id (set_state failed) m.sessions,
  )
