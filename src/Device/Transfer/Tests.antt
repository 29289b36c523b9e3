-- ===== src/Device/Transfer/Tests.antt =====
-- transfer.rs at a concrete manager: one session that transfers one file of two chunks.
use text.Mathlib.TextEquality.{eq_iff}
use igrisv.Base.{
  ℕ, String, ◌≡◌, refl, ◌≢◌, some, List, [], ◌∷◌, arith, String_discrete, nat_key, string_key,
  lookup, update, ok,
}
use igrisv.Device.Transfer.{
  SessionManager, SessionState_discrete, approve, note_bytes, state, SessionState,
  awaiting_approval, transferring, denied, TransferSession, FileSpec, chunks_of, fresh_progress,
  missing_chunks,
}
use igrisv.Device.Transfer.Progress.{missing_chunks-uploads, range, uploads}
use igrisv.Device.Transfer.Calls.{sweeps, step, run, approves}
use igrisv.Device.Transfer.Closed.{closed_for_good}

abbrev spec : FileSpec
spec = record { name = "a.bin"; size = 2000000; checksum = some "cafe" }

-- Half of the file has arrived: one chunk of two is whole.
missing_chunks-uploads_example :
    missing_chunks (uploads (500000 ∷ 700000 ∷ []) (fresh_progress spec "t")) ≡ range 1 1
unfolding chunks_of
missing_chunks-uploads_example =
    missing_chunks-uploads (500000 ∷ 700000 ∷ []) spec "t" (omega arith) (omega arith)

abbrev session : SessionState → TransferSession
session st = record {
  id = "s";
  from_device = "laptop";
  files = ("a.bin", fresh_progress spec "t") ∷ [];
  state = st;
  created = 0;
}

abbrev manager : SessionState → SessionManager
manager st = record { sessions = ("s", session st) ∷ [] }

found : (st : SessionState) → lookup "s" (manager st).sessions ≡ some (session st)
unfolding lookup String_discrete
found st = refl

state_of : (st : SessionState) → state (manager st) "s" ≡ some st
unfolding state
state_of st = ground (arith, found st)

abbrev hash : List ℕ → String
hash bytes = "beef"

approved : state (step hash (manager awaiting_approval) (5, approves "s")) "s" ≡ some transferring
unfolding step approve state lookup update String_discrete SessionState_discrete
approved = refl

closed_for_good_example :
    state (run hash (manager denied) ((5, approves "s") ∷ (6, sweeps) ∷ [])) "s" ≡ some denied
closed_for_good_example =
    closed_for_good hash (manager denied) ((5, approves "s") ∷ (6, sweeps) ∷ []) "s" denied (tt, tt)
      (tt, (tt, tt)) (state_of denied) tt

counted : (note_bytes (manager transferring) "s" "a.bin" "t" 10).0 ≡ ok tt
unfolding note_bytes lookup String_discrete SessionState_discrete fresh_progress
counted = refl

found_file : lookup "a.bin" (session transferring).files ≡ some (fresh_progress spec "t")
unfolding lookup String_discrete
found_file = refl

other_digest : hash (1 ∷ 2 ∷ []) ≢ "cafe"
other_digest = ground (arith, eq_iff "beef" "cafe")

abbrev right_hash : List ℕ → String
right_hash bytes = "cafe"
