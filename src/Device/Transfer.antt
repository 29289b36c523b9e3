-- ===== src/Device/Transfer.antt =====
-- crates/igris-device/src/transfer.rs: transfer sessions (prepare, approve or deny, upload, verify).
-- Instants and durations are counted in nanoseconds and the clock is an argument; `usize` is `u64`.
mod Chunks
pub mod Progress
pub mod States
pub mod Sweep
pub mod Calls
pub mod Closed
pub mod Completion
pub mod Tests
pub use Chunks.{chunk_size, u64, FileSpec, FileProgress}
unfoldable pub use Chunks.{
  chunks_of, fresh_progress, confirm, note_progress, missing_from, missing_chunks, finish,
}
use igrisv.Base.{
  ℕ, ◌+◌, ◌-◌, ◌*◌, String, ite, Bool, false, Option, none, some, List, [], ◌∷◌, ltb, if◌then◌else◌,
  String_discrete, length, is_empty, all, nat_key, string_key, Assoc, values, lookup, insert,
  update, Result, ok, err, ◌>>=◌,
}

pub data SessionState : Type 0 where
  preparing awaiting_approval transferring completed denied expired failed : SessionState

unfoldable pub SessionState_discrete : Discrete SessionState
SessionState_discrete = hlevel

pub record TransferSession : Type 0 where
  pub id : String
  pub from_device : String
  pub files : Assoc String FileProgress
  pub state : SessionState
  pub created : ℕ

pub data TransferError : Type 0 where
  unknown_session bad_token : TransferError
  unknown_file : String → TransferError
  wrong_state : SessionState → SessionState → TransferError
  checksum_mismatch : String → String → String → TransferError

pub record SessionManager : Type 0 where
  pub sessions : Assoc String TransferSession

abbrev pub session_ttl : ℕ
session_ttl = 600 * 1000000000

abbrev pub pending_ttl : ℕ
pending_ttl = 120 * 1000000000

abbrev pub new : SessionManager
new = record { sessions = [] }

-- `&mut self` with a result: the result, and the manager afterwards.
abbrev pub Outcome : Type 0 → Type 0
Outcome A = Result TransferError A × SessionManager

-- A write to the session found by `get_mut`.
abbrev pub modify : SessionManager → String → (TransferSession → TransferSession) → SessionManager
modify m id f = record m { sessions = update id f m.sessions }

abbrev pub set_state : SessionState → TransferSession → TransferSession
set_state st s = record s { state = st }

-- The loop of `prepare`. The tokens are the results of `Uuid::new_v4`, in the order of the calls.
offer : (ℕ → String) → ℕ → List FileSpec → Assoc String FileProgress → Assoc String FileProgress
offer uuid i [] files = files
offer uuid i (f ∷ fs) files =
    offer uuid (i + 1) fs (insert f.name (fresh_progress f (uuid i)) files)

tokens_of : (ℕ → String) → ℕ → List FileSpec → Assoc String String → Assoc String String
tokens_of uuid i [] tokens = tokens
tokens_of uuid i (f ∷ fs) tokens = tokens_of uuid (i + 1) fs (insert f.name (uuid i) tokens)

unfoldable pub prepare :
    SessionManager
    → (ℕ → String)
    → ℕ
    → String
    → List FileSpec
    → Outcome (String × Assoc String String)
unfolding offer tokens_of
prepare m uuid now from_device [] = (err (unknown_file "empty offer"), m)
prepare m uuid now from_device (f ∷ fs) =
    let id = uuid 0 in
    (
      ok (id, tokens_of uuid 1 (f ∷ fs) []),
      record m {
        sessions =
            insert id
              (record {
                id = id;
                from_device = from_device;
                files = offer uuid 1 (f ∷ fs) [];
                state = awaiting_approval;
                created = now;
              })
              m.sessions;
      },
    )

-- `approve` and `deny` differ in the state that they set.
decide : SessionManager → String → SessionState → Option TransferSession → Outcome (Unit {0})
decide m id to none = (err unknown_session, m)
decide m id to (some s) =
    ite (SessionState_discrete s.state awaiting_approval) (ok tt, modify m id (set_state to))
      (err (wrong_state awaiting_approval s.state), m)

unfoldable pub approve : SessionManager → String → Outcome (Unit {0})
unfolding decide
approve m id = decide m id transferring (lookup id m.sessions)

unfoldable pub deny : SessionManager → String → Outcome (Unit {0})
unfolding decide
deny m id = decide m id denied (lookup id m.sessions)

-- `ok_or`
abbrev or_err : {A : Type 0} → Option A → TransferError → Result TransferError A
or_err none e = err e
or_err (some a) e = ok a

unfoldable pub check_token :
    SessionManager → String → String → String → Result TransferError (Unit {0})
check_token m id file token = do
  s ← or_err (lookup id m.sessions) unknown_session
  f ← or_err (lookup file s.files) (unknown_file file)
  ite (String_discrete f.token token) (ok tt) (err bad_token)

-- `note_bytes` after its token check; the file is there, since the check found it.
note_checked : SessionManager → String → String → ℕ → Option TransferSession → Outcome (Unit {0})
note_checked m id file n none = (err unknown_session, m)
note_checked m id file n (some s) =
    ite (SessionState_discrete s.state transferring)
      (elim (lookup file s.files) [
        | none ↦ (err (unknown_file file), m)
        | some f ↦
            (ok tt, modify m id (λ x. record x { files = update file (note_progress n) x.files }))
      ])
      (err (wrong_state transferring s.state), m)

unfoldable pub note_bytes : SessionManager → String → String → String → ℕ → Outcome (Unit {0})
unfolding note_checked check_token
note_bytes m id file token n = elim (check_token m id file token) [
  | err e ↦ (err e, m)
  | ok _ ↦ note_checked m id file n (lookup id m.sessions)
]

unfoldable pub missing : SessionManager → String → String → Result TransferError (List ℕ)
missing m id file = do
  s ← or_err (lookup id m.sessions) unknown_session
  f ← or_err (lookup file s.files) (unknown_file file)
  ok (missing_chunks f)

-- The end of `complete`: every file's chunks confirmed closes the session.
close : TransferSession → TransferSession
close s =
    if all (λ f. is_empty (missing_chunks f)) (values s.files) then set_state completed s else s

finish_file : String → TransferSession → TransferSession
finish_file file s = record s { files = update file finish s.files }

-- `complete` in a transferring session. `got` is the SHA-256 of the bytes, in hexadecimal.
verify_file : SessionManager → String → String → String → Option String → Outcome (Unit {0})
verify_file m id file got none = (ok tt, modify m id (λ s. close (finish_file file s)))
verify_file m id file got (some want) =
    ite (String_discrete got want) (ok tt, modify m id (λ s. close (finish_file file s)))
      (err (checksum_mismatch file want got), modify m id (set_state failed))

complete_in :
    SessionManager → String → String → String → Option TransferSession → Outcome (Unit {0})
unfolding verify_file
complete_in m id file got none = (err unknown_session, m)
complete_in m id file got (some s) = elim (lookup file s.files) [
  | none ↦ (err (unknown_file file), m)
  | some f ↦
      ite (SessionState_discrete s.state transferring) (verify_file m id file got f.checksum)
        (err (wrong_state transferring s.state), m)
]

-- `sha256_hex` hashes with the sha2 package.
unfoldable pub complete :
    (List ℕ → String) → SessionManager → String → String → List ℕ → Outcome (Unit {0})
unfolding complete_in close finish_file
complete sha256_hex m id file bytes =
    complete_in m id file (sha256_hex bytes) (lookup id m.sessions)

unfoldable pub state : SessionManager → String → Option SessionState
state m id = elim (lookup id m.sessions) [ none ↦ none | some s ↦ some s.state ]

-- The filter of `sweep_expired`; an instant before `created` counts as no time passed.
unfoldable pub is_stale : ℕ → TransferSession → Bool
is_stale now s = elim s.state [
  | awaiting_approval ↦ ltb pending_ttl (now - s.created)
  | preparing ↦ ltb session_ttl (now - s.created)
  | transferring ↦ ltb session_ttl (now - s.created)
  | _ ↦ false
]

pub stale_ids : ℕ → Assoc String TransferSession → List String
stale_ids now [] = []
stale_ids now ((id, s) ∷ m) =
    let rest = stale_ids now m in if is_stale now s then id ∷ rest else rest

pub expire_all : List String → Assoc String TransferSession → Assoc String TransferSession
expire_all [] m = m
expire_all (id ∷ ids) m = expire_all ids (update id (set_state expired) m)

unfoldable pub sweep_expired : SessionManager → ℕ → ℕ × SessionManager
unfolding stale_ids expire_all
sweep_expired m now =
    let stale = stale_ids now m.sessions in
    (length stale, record m { sessions = expire_all stale m.sessions })
