-- ===== src/Device/Server/Tests.antt =====
-- Tests of the service, and instances of its theorems.
use igrisv.Base.{
  ℕ, String, ◌≡◌, refl, ◌⊎◌, true, some, List, [], ◌∷◌, ◌++◌, ◌==◌, if◌then◌else◌, String_discrete,
  is_empty, nat_key, string_key, lookup, insert, ok, err, update,
}
use igrisv.Device.Info.{DeviceInfo, compute_score}
use igrisv.Device.Transfer.{
  FileSpec, SessionState_discrete, new, check_token, note_bytes, missing, state, transferring,
  fresh_progress, approve, chunks_of, note_progress, missing_chunks,
}
use igrisv.Device.Transfer as Transfer
use igrisv.Device.Server.{upload, complete, confirm, prepare, part_path, Disk, AppState}
use igrisv.Device.Server.Gates.{upload_gate, complete_honest, has_code, Checked}

-- A disk with one file, whose bytes are the state.
abbrev one_file : Disk (List ℕ)
one_file = record {
  create_dir_all = λ w p. (ok tt, w);
  open_append = λ w p. (ok tt, w);
  write_all = λ w p bytes. (ok tt, w ++ bytes);
  read = λ w p. ok w;
}

abbrev full_disk : Disk (List ℕ)
full_disk = record one_file { write_all = λ w p bytes. (err "disk full", w) }

abbrev laptop : DeviceInfo
laptop = record {
  id = "d1";
  name = "Laptop";
  platform = "linux";
  caps = record { cpu_cores = 8; ram_mb = 16384; has_gpu = true; storage_mb = 512000; models = [] };
  trusted = true;
}

scored : compute_score laptop ≡ 162
unfolding compute_score
scored = refl

abbrev digest : List ℕ → String
digest bytes = if is_empty bytes then "none" else "some"

abbrev drawn : ℕ → String
drawn n = if n == 0 then "s1" else "t1"

abbrev started : AppState (List ℕ)
started = record {
  info = laptop;
  sessions = Transfer.new;
  chunk_dir = "chunks" ∷ [];
  sent = [];
  files = [];
}

abbrev offered_file : AppState (List ℕ)
offered_file =
    (prepare started drawn 0 "phone"
      ((record { name = "a"; size = 2; checksum = some "some" }) ∷ [])).1

abbrev confirmed : AppState (List ℕ)
confirmed = (confirm offered_file "s1").1

abbrev uploaded : AppState (List ℕ)
uploaded = (upload one_file confirmed "s1" "a" "t1" (1 ∷ 2 ∷ [])).1

too_early : (upload one_file offered_file "s1" "a" "t1" (1 ∷ 2 ∷ [])).0.0 ≡ 409
unfolding upload prepare Transfer.prepare Transfer.note_bytes Transfer.check_token lookup insert
    String_discrete Transfer.SessionState_discrete Transfer.fresh_progress
too_early = refl

stored_bytes : uploaded.files ≡ 1 ∷ 2 ∷ []
unfolding upload prepare confirm Transfer.prepare Transfer.approve Transfer.note_bytes
    Transfer.check_token lookup insert update String_discrete Transfer.SessionState_discrete
    Transfer.fresh_progress
stored_bytes = refl

is_complete : (complete one_file digest uploaded "s1" "a").0.0 ≡ 200
unfolding upload prepare confirm Transfer.prepare Transfer.approve Transfer.note_bytes
    Transfer.check_token lookup insert update String_discrete Transfer.SessionState_discrete
    Transfer.fresh_progress complete Transfer.complete Transfer.note_progress
is_complete = refl

-- Bytes that could not be written are counted all the same.
counted_unwritten :
    let after = upload full_disk confirmed "s1" "a" "t1" (1 ∷ 2 ∷ []) in
    (after.0.0 ≡ 500) × (Transfer.missing after.1.sessions "s1" "a" ≡ ok []) × (after.1.files ≡ [])
unfolding upload prepare confirm Transfer.prepare Transfer.approve Transfer.note_bytes
    Transfer.check_token lookup insert update String_discrete Transfer.SessionState_discrete
    Transfer.fresh_progress Transfer.missing Transfer.missing_chunks Transfer.note_progress
    Transfer.confirm Transfer.chunks_of
counted_unwritten = (refl, refl, refl)

complete_honest_example :
    (bytes : List ℕ) × (one_file.read uploaded.files (part_path one_file uploaded "s1" "a")
      ≡ ok bytes)
    × Checked digest uploaded.sessions "s1" "a" bytes
complete_honest_example = complete_honest one_file digest uploaded "s1" "a" is_complete

upload_gate_example :
    let s = confirmed in
    ((upload one_file s "s1" "a" "t2" (1 ∷ [])).1 ≡ s)
      × (has_code (upload one_file s "s1" "a" "t2" (1 ∷ [])).0.0 ≡ true)
    ⊎ (Transfer.check_token s.sessions "s1" "a" "t2" ≡ ok tt)
      × (Transfer.state s.sessions "s1" ≡ some Transfer.transferring)
upload_gate_example = upload_gate one_file confirmed "s1" "a" "t2" (1 ∷ [])
