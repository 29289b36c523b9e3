-- ===== src/Device/Transfer/Completion.antt =====
-- transfer.rs: the two calls that carry a file's bytes. Both leave all but their session alone.
use igrisv.Base.{
  ℕ, String, ◌≡◌, ◌≢◌, ◌⊎◌, none, some, List, arith, if◌then◌else◌, is_empty, all, nat_key,
  string_key, values, lookup, update, lookup-update, ok, err,
}
use igrisv.Device.Transfer.{
  SessionManager, checksum_mismatch, set_state, note_bytes, close, finish_file, complete,
  transferring, completed, failed, TransferError, TransferSession, FileProgress, note_progress,
  missing_chunks, finish, check_token, state,
}

-- `note_bytes` counts only bytes that come with the file's own token and in a transferring session;
-- any other call is an error that changes nothing.
pub note_bytes_guards :
    (m : SessionManager) (id file token : String) (n : ℕ)
    → ((note_bytes m id file token n).0 ≡ ok tt
        → (check_token m id file token ≡ ok tt) × (state m id ≡ some transferring))
      × ((e : TransferError)
          → (note_bytes m id file token n).0 ≡ err e
          → (note_bytes m id file token n).1 ≡ m)
unfolding note_bytes state
note_bytes_guards m id file token n = (λ h. ground arith, λ e h. ground arith)

-- Counted bytes change the progress of their file, and nothing else in the session.
pub note_bytes_progress :
    (m : SessionManager) (id file token : String) (n : ℕ) (s : TransferSession)
    → lookup id m.sessions ≡ some s
    → (note_bytes m id file token n).0 ≡ ok tt
    → lookup id (note_bytes m id file token n).1.sessions
      ≡ some (record s { files = update file (note_progress n) s.files })
unfolding note_bytes
note_bytes_progress m id file token n s e h = ground (
  arith,
  lookup-update id id (λ x. record x { files = update file (note_progress n) x.files }) m.sessions,
)

-- `complete` fails closed: if the file carries a checksum other than the digest of the bytes, the
-- session is failed, with its files as they were, and the error names both digests.
pub complete_mismatch :
    (sha256_hex : List ℕ → String) (m : SessionManager) (id file want : String) (bytes : List ℕ)
    (s : TransferSession) (f : FileProgress)
    → lookup id m.sessions ≡ some s
    → lookup file s.files ≡ some f
    → s.state ≡ transferring
    → f.checksum ≡ some want
    → sha256_hex bytes ≢ want
    → ((complete sha256_hex m id file bytes).0
        ≡ err (checksum_mismatch file want (sha256_hex bytes)))
      × (lookup id (complete sha256_hex m id file bytes).1.sessions
          ≡ some (record s { state = failed }))
unfolding complete
complete_mismatch sha256_hex m id file want bytes s f es ef et ec ne =
    ground (arith, lookup-update id id (set_state failed) m.sessions)

-- A file whose digest matches, or that carries no checksum, is marked whole; the session is completed
-- exactly if then no file of it misses a chunk, and goes on transferring otherwise.
pub complete_match :
    (sha256_hex : List ℕ → String) (m : SessionManager) (id file : String) (bytes : List ℕ)
    (s : TransferSession) (f : FileProgress)
    → lookup id m.sessions ≡ some s
    → lookup file s.files ≡ some f
    → s.state ≡ transferring
    → (f.checksum ≡ none) ⊎ (f.checksum ≡ some (sha256_hex bytes))
    → ((complete sha256_hex m id file bytes).0 ≡ ok tt)
      × (lookup id (complete sha256_hex m id file bytes).1.sessions
          ≡ some (record s {
            files = update file finish s.files;
            state =
                if all (λ g. is_empty (missing_chunks g)) (values (update file finish s.files))
                then completed
                else transferring;
          }))
unfolding complete
complete_match sha256_hex m id file bytes s f es ef et ec =
    ground (arith, lookup-update id id (λ x. close (finish_file file x)) m.sessions)
