-- ===== src/Device/Transfer/Calls.antt =====
-- transfer.rs: the calls on a manager, none of which removes a session.
use igrisv.Base.{
  ℕ, String, ◌≡◌, refl, ◌≢◌, none, some, List, [], ◌∷◌, arith, nat_key, string_key, Assoc, lookup,
  update, Unique, lookup-update, insert-Unique, update-Unique, lookup-insert_ne,
}
use igrisv.Device.Transfer.{
  SessionState, set_state, prepare, approve, deny, note_bytes, close, finish_file, complete, state,
  expire_all, sweep_expired, transferring, denied, expired, failed, TransferSession, SessionManager,
  FileSpec, note_progress,
}
use igrisv.Device.Transfer.States.{◌⟶◌, edges}
use igrisv.Device.Transfer.Sweep.{lookup-sweep_expired}

-- The calls that the device service makes, each at an instant. `prepares` carries the fresh ids of
-- the session and its tokens.
pub data Call : Type 0 where
  prepares : (ℕ → String) → String → List FileSpec → Call
  approves denies : String → Call
  notes : String → String → String → ℕ → Call
  completes : String → String → List ℕ → Call
  sweeps : Call

module _ (sha256_hex : List ℕ → String) where
  unfoldable pub step : SessionManager → ℕ × Call → SessionManager
  step m (now, prepares uuid from_device files) = (prepare m uuid now from_device files).1
  step m (now, approves id) = (approve m id).1
  step m (now, denies id) = (deny m id).1
  step m (now, notes id file token n) = (note_bytes m id file token n).1
  step m (now, completes id file bytes) = (complete sha256_hex m id file bytes).1
  step m (now, sweeps) = (sweep_expired m now).1

  unfoldable pub run : SessionManager → List (ℕ × Call) → SessionManager
  run m [] = m
  run m (c ∷ cs) = run (step m c) cs

-- A call that does not draw `id` for a new session: v4 ids do not repeat.
abbrev pub Fresh : String → ℕ × Call → Type 0
Fresh id (now, prepares uuid from_device files) = uuid 0 ≢ id
Fresh id _ = Unit {0}

pub expire_all-Unique :
    (ids : List String) (m : Assoc String TransferSession) → Unique m → Unique (expire_all ids m)
unfolding expire_all
expire_all-Unique [] m u = u
expire_all-Unique (x ∷ xs) m u = expire_all-Unique xs _ (update-Unique x (set_state expired) m u)

pub prepare-Unique :
    (m : SessionManager) (uuid : ℕ → String) (now : ℕ) (from_device : String)
    (files : List FileSpec)
    → Unique m.sessions
    → Unique (prepare m uuid now from_device files).1.sessions
unfolding prepare
prepare-Unique m uuid now from_device [] u = u
prepare-Unique m uuid now from_device (f ∷ fs) u = insert-Unique (uuid 0) _ m.sessions u

pub lookup-prepare :
    (m : SessionManager) (uuid : ℕ → String) (now : ℕ) (from_device : String)
    (files : List FileSpec) (id : String)
    → uuid 0 ≢ id
    → lookup id (prepare m uuid now from_device files).1.sessions ≡ lookup id m.sessions
unfolding prepare
lookup-prepare m uuid now from_device [] id n = refl
lookup-prepare m uuid now from_device (f ∷ fs) id n = lookup-insert_ne (uuid 0) id _ m.sessions n

pub prepare-⟶ :
    (m : SessionManager) (uuid : ℕ → String) (now : ℕ) (from_device : String)
    (files : List FileSpec) (id : String) {s t : SessionState}
    → uuid 0 ≢ id
    → state m id ≡ some s
    → state (prepare m uuid now from_device files).1 id ≡ some t
    → s ⟶ t
unfolding state
prepare-⟶ m uuid now from_device files id n before after =
    grind (arith, edges, lookup-prepare m uuid now from_device files id n)

pub approve-Unique :
    (m : SessionManager) (id : String) → Unique m.sessions → Unique (approve m id).1.sessions
unfolding approve
approve-Unique m id u = ground (arith, u, update-Unique id (set_state transferring) m.sessions u)

pub deny-Unique :
    (m : SessionManager) (id : String) → Unique m.sessions → Unique (deny m id).1.sessions
unfolding deny
deny-Unique m id u = ground (arith, u, update-Unique id (set_state denied) m.sessions u)

pub note_bytes-Unique :
    (m : SessionManager) (id file token : String) (n : ℕ)
    → Unique m.sessions
    → Unique (note_bytes m id file token n).1.sessions
unfolding note_bytes
note_bytes-Unique m id file token n u = ground (
  arith,
  u,
  update-Unique id (λ x. record x { files = update file (note_progress n) x.files }) m.sessions u,
)

pub complete-Unique :
    (sha256_hex : List ℕ → String) (m : SessionManager) (id file : String) (bytes : List ℕ)
    → Unique m.sessions
    → Unique (complete sha256_hex m id file bytes).1.sessions
unfolding complete
complete-Unique sha256_hex m id file bytes u = ground (
  arith,
  u,
  update-Unique id (λ x. close (finish_file file x)) m.sessions u,
  update-Unique id (set_state failed) m.sessions u,
)

-- No call removes a session.
module _ (m : SessionManager) (i id : String) {s : SessionState}
    (before : state m id ≡ some s) where
  pub approve_keeps : state (approve m i).1 id ≢ none
  unfolding approve state
  approve_keeps e = ground (arith, lookup-update i id (set_state transferring) m.sessions)

  pub deny_keeps : state (deny m i).1 id ≢ none
  unfolding deny state
  deny_keeps e = ground (arith, lookup-update i id (set_state denied) m.sessions)

  pub note_bytes_keeps :
      (file token : String) (n : ℕ) → state (note_bytes m i file token n).1 id ≢ none
  unfolding note_bytes state
  note_bytes_keeps file token n e = ground (
    arith,
    lookup-update i id (λ x. record x { files = update file (note_progress n) x.files }) m.sessions,
  )

  pub complete_keeps :
      (sha256_hex : List ℕ → String) (file : String) (bytes : List ℕ)
      → state (complete sha256_hex m i file bytes).1 id ≢ none
  unfolding complete state
  complete_keeps sha256_hex file bytes e = ground (
    arith,
    lookup-update i id (λ x. close (finish_file file x)) m.sessions,
    lookup-update i id (set_state failed) m.sessions,
  )

pub prepare_keeps :
    (m : SessionManager) (uuid : ℕ → String) (now : ℕ) (from_device : String)
    (files : List FileSpec) (id : String) {s : SessionState}
    → uuid 0 ≢ id
    → state m id ≡ some s
    → state (prepare m uuid now from_device files).1 id ≢ none
unfolding state
prepare_keeps m uuid now from_device files id n before e =
    ground (arith, lookup-prepare m uuid now from_device files id n)

pub sweep_expired_keeps :
    (m : SessionManager) (now : ℕ) (id : String) {s : SessionState}
    → Unique m.sessions
    → state m id ≡ some s
    → state (sweep_expired m now).1 id ≢ none
unfolding state
sweep_expired_keeps m now id u before e = ground (arith, lookup-sweep_expired m now id u)
