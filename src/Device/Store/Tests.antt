-- ===== src/Device/Store/Tests.antt =====
-- store.rs over a disk that is a list of files.
use text.Mathlib.TextEquality.{eq_iff}
use igrisv.Base.{
  ℕ, zero, suc, String, ◌≡◌, refl, Bool, true, false, ◌&&◌, List, [], ◌∷◌, arith, if◌then◌else◌,
  Result, ok, err, same, PathBuf, ◌⊎◌, inl, inr, none, some, Bool-cases, parts, sym, ap,
}
use igrisv.Device.Identity.{Identity}
use igrisv.Device.Store.{
  FileSystem, DeviceStore, bytes, not_found, failed, Found, dest_of, write_atomic, read_file,
  save_identity, load_identity, identity_or_create, Coding,
}
use igrisv.Device.Store.Crash.{Keeps, Crash, in_write, Crash-whole, in_write}
use igrisv.Device.Store.Restart.{identity_stable}

-- The files, the latest first.
abbrev Files : Type 0
Files = List (PathBuf × List ℕ)

abbrev same_path : PathBuf → PathBuf → Bool
same_path [] [] = true
same_path (a ∷ p) (b ∷ q) = same a b && same_path p q
same_path p q = false

same_path_eq : (p q : PathBuf) → same_path p q ≡ true → p ≡ q
same_path_eq [] [] h = refl
same_path_eq (a ∷ p) (b ∷ q) h = ground (arith, eq_iff a b, same_path_eq p q)
same_path_eq [] (b ∷ q) h = absurd (ground arith)
same_path_eq (a ∷ p) [] h = absurd (ground arith)

same_path_refl : (p : PathBuf) → same_path p p ≡ true
same_path_refl [] = refl
same_path_refl (a ∷ p) = ground (arith, eq_iff a a, same_path_refl p)

abbrev look : Files → PathBuf → Found
look [] p = not_found
look ((q, b) ∷ fs) p = if same_path q p then bytes b else look fs p

abbrev moved : Files → PathBuf → Found → Result String (Unit {0}) × Files
moved d q (bytes b) = (ok tt, (q, b) ∷ d)
moved d q f = (err "no such file", d)

abbrev list_files : FileSystem
list_files = record {
  Disk = Files;
  create_dir_all = λ d p. (ok tt, d);
  write = λ d p b. (ok tt, (p, b) ∷ d);
  rename = λ d p q. moved d q (look d p);
  read = look;
}

-- A crash in a write leaves the front of it.
abbrev front : List ℕ → ℕ → List ℕ
front [] n = []
front (x ∷ xs) zero = []
front (x ∷ xs) (suc n) = x ∷ front xs n

abbrev torn_files : Files → PathBuf → List ℕ → ℕ → Files
torn_files d p b n = (p, front b n) ∷ d

moved-look :
    (d : Files) (p q : PathBuf) (b : List ℕ)
    → look d p ≡ bytes b
    → look (moved d q (look d p)).1 q ≡ bytes b
moved-look d p q b h = rw h (ground (arith, same_path_refl q))

moved_fails :
    (d : Files) (q : PathBuf) (f : Found) (e : String)
    → (moved d q f).0 ≡ err e
    → (moved d q f).1 ≡ d
moved_fails d q (bytes b) e h = absurd (ground arith)
moved_fails d q not_found e h = refl
moved_fails d q (failed t) e h = refl

list_files-Keeps : Keeps list_files torn_files
list_files-Keeps = record {
  create_keeps = λ d p q b h. h;
  write_keeps = λ d p q b c ne h. ground (arith, h, same_path_eq p q, ne);
  torn_keeps = λ d p q b c n ne h. ground (arith, h, same_path_eq p q, ne);
  write_reads = λ d p b h. ground (arith, same_path_refl p);
  rename_moves = λ d p q b h r. moved-look d p q b r;
  rename_fails = λ d p q r e b h f. rw (moved_fails d q (look d p) e h) f;
}

abbrev laptop : Identity
laptop = record { device_id = "d1"; name = "laptop"; platform = "linux"; secret = "s" }

abbrev is_laptop : Identity → Bool
is_laptop i =
    same i.device_id "d1" && same i.name "laptop" && same i.platform "linux" && same i.secret "s"

is_laptop_eq : (i : Identity) → is_laptop i ≡ true → i ≡ laptop
is_laptop_eq i h = ground (
  arith,
  eq_iff i.device_id "d1",
  eq_iff i.name "laptop",
  eq_iff i.platform "linux",
  eq_iff i.secret "s",
)

-- One identity has a text; the pins have none.
abbrev coding : Coding
coding = record {
  to_string_pretty = λ i. if is_laptop i then ok "{}" else err "no text";
  from_slice = λ b. elim b [ [] ↦ err "end of input" | _ ∷ _ ↦ ok laptop ];
  as_bytes = λ s. elim s [ String.[] ↦ [] | String.◌∷◌ _ _ ↦ 123 ∷ 125 ∷ [] ];
  from_utf8 = λ b. ok "{}";
  pins = record { to_string = λ m. none; from_str = λ s. some [] };
}

abbrev store : DeviceStore
store = record { dir = "data" ∷ [] }

reads_back :
    (i : Identity) (json : String)
    → coding.to_string_pretty i ≡ ok json
    → coding.from_slice (coding.as_bytes json) ≡ ok i
reads_back i json h = elim (Bool-cases (is_laptop i)) [
  | inl y ↦ (let j : json ≡ "{}" = ground (arith, y) in rw j (ap ok (sym (is_laptop_eq i y))))
  | inr n ↦ absurd (ground arith)
]

abbrev saved : Files
saved = (identity_or_create list_files coding store [] "laptop" "linux" "d1" "s" "").1

first_start :
    identity_or_create list_files coding store [] "laptop" "linux" "d1" "s" ""
    ≡ (ok (laptop, true), saved)
unfolding identity_or_create load_identity read_file save_identity write_atomic parts
first_start = refl

identity_stable_example :
    identity_or_create list_files coding store saved "other" "windows" "d2" "t" "u"
    ≡ (ok (laptop, false), saved)
identity_stable_example =
    identity_stable list_files coding torn_files list_files-Keeps store [] saved "laptop" "linux"
      "d1" "s" "" laptop true reads_back first_start "other" "windows" "d2" "t" "u"

abbrev before : Files
before = ("data" ∷ "identity.json" ∷ [], 1 ∷ 2 ∷ []) ∷ []

found_before : look before (dest_of list_files coding store "identity.json") ≡ bytes (1 ∷ 2 ∷ [])
unfolding parts
found_before = refl

half_written :
    Crash list_files coding torn_files store before "identity.json"
      (3 ∷ 4 ∷ [])
      (torn_files before ("data" ∷ "identity.json.tmp" ∷ []) (3 ∷ 4 ∷ []) 1)
unfolding parts
half_written = in_write 1 refl refl

Crash-whole_example :
    (look
        (torn_files before ("data" ∷ "identity.json.tmp" ∷ []) (3 ∷ 4 ∷ []) 1)
        (dest_of list_files coding store "identity.json")
      ≡ bytes (1 ∷ 2 ∷ []))
    ⊎ (look
          (torn_files before ("data" ∷ "identity.json.tmp" ∷ []) (3 ∷ 4 ∷ []) 1)
          (dest_of list_files coding store "identity.json")
        ≡ bytes (3 ∷ 4 ∷ []))
Crash-whole_example =
    Crash-whole list_files coding torn_files list_files-Keeps store before "identity.json"
      (3 ∷ 4 ∷ []) (1 ∷ 2 ∷ [])
      (torn_files before ("data" ∷ "identity.json.tmp" ∷ []) (3 ∷ 4 ∷ []) 1) (inl refl) found_before
      half_written
