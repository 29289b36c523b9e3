-- ===== src/Device/Store.antt =====
-- crates/igris-device/src/store.rs: identity and trust as files under a data directory. The file system,
-- serde_json and the coding of texts in bytes are parameters; `default_dir` only names a directory.
pub mod Crash
pub mod Restart
pub mod Tests
use igrisv.Base.{
  ℕ, String, Bool, true, false, Option, none, some, List, Result, ok, err, ◌>>=◌, ◌⁀◌, PathBuf,
  join_path,
}
use igrisv.Device.Identity.{Identity, generate}
use igrisv.Device.Trust.{
  TrustStore, mismatch, unknown, new, export_json, import_json, TrustError, Json,
}

pub data StoreError : Type 0 where
  io : String → StoreError
  corrupt : String → String → StoreError

-- What `std::fs::read` gives: the bytes, the error kind `NotFound`, or another error.
pub data Found : Type 0 where
  bytes : List ℕ → Found
  not_found : Found
  failed : String → Found

-- What the store uses of `std::fs`, over a state of the disk. An error is its text.
pub record FileSystem : Type 1 where
  pub Disk : Type 0
  pub create_dir_all : Disk → PathBuf → Result String (Unit {0}) × Disk
  pub write : Disk → PathBuf → List ℕ → Result String (Unit {0}) × Disk
  pub rename : Disk → PathBuf → PathBuf → Result String (Unit {0}) × Disk
  pub read : Disk → PathBuf → Found

-- What the store uses of serde_json and of the coding of texts.
pub record Coding : Type 0 where
  pub to_string_pretty : Identity → Result String String
  pub from_slice : List ℕ → Result String Identity
  pub as_bytes : String → List ℕ
  pub from_utf8 : List ℕ → Result String String
  pub pins : Json

pub record DeviceStore : Type 0 where
  pub dir : PathBuf

-- `to_string` of the error.
abbrev trust_text : TrustError → String
trust_text (mismatch device) =
    "fingerprint mismatch for " ⁀ device ⁀ ": possible MITM, re-pair required"
trust_text (unknown s) = "unknown device: " ⁀ s

-- `map_err`
abbrev pub map_err : {E G A : Type 0} → (E → G) → Result E A → Result G A
map_err f (ok a) = ok a
map_err f (err e) = err (f e)

module _ (fs : FileSystem) (c : Coding) where
  open fs use {Disk, create_dir_all, write, rename, read}

  abbrev pub dest_of : DeviceStore → String → PathBuf
  dest_of s name = join_path s.dir name

  abbrev pub tmp_of : DeviceStore → String → PathBuf
  tmp_of s name = join_path s.dir (name ⁀ ".tmp")

  -- The `rename`, and the `write` before it.
  abbrev pub renamed : DeviceStore → Disk → String → Result StoreError (Unit {0}) × Disk
  renamed s d name = let r = rename d (tmp_of s name) (dest_of s name) in (map_err io r.0, r.1)

  abbrev pub written : DeviceStore → Disk → String → List ℕ → Result StoreError (Unit {0}) × Disk
  written s d name b =
      let w = write d (tmp_of s name) b in
      elim w.0 [ ok _ ↦ renamed s w.1 name | err e ↦ (err (io e), w.1) ]

  unfoldable pub write_atomic :
      DeviceStore → Disk → String → List ℕ → Result StoreError (Unit {0}) × Disk
  write_atomic s d name b =
      let m = create_dir_all d s.dir in
      elim m.0 [ ok _ ↦ written s m.1 name b | err e ↦ (err (io e), m.1) ]

  unfoldable pub read_file : DeviceStore → Disk → String → Result StoreError (Option (List ℕ))
  read_file s d name = elim (read d (dest_of s name)) [
    | bytes b ↦ ok (some b)
    | not_found ↦ ok none
    | failed e ↦ err (io e)
  ]

  unfoldable pub save_identity : DeviceStore → Disk → Identity → Result StoreError (Unit {0}) × Disk
  save_identity s d i = elim (c.to_string_pretty i) [
    | ok json ↦ write_atomic s d "identity.json" (c.as_bytes json)
    | err e ↦ (err (corrupt "identity.json" e), d)
  ]

  abbrev pub parsed : Option (List ℕ) → Result StoreError (Option Identity)
  parsed none = ok none
  parsed (some b) = elim (c.from_slice b) [
    | ok i ↦ ok (some i)
    | err e ↦ err (corrupt "identity.json" e)
  ]

  unfoldable pub load_identity : DeviceStore → Disk → Result StoreError (Option Identity)
  load_identity s d = read_file s d "identity.json" >>= parsed

  abbrev pub created : DeviceStore → Disk → Identity → Result StoreError (Identity × Bool) × Disk
  created s d i = let saved = save_identity s d i in (saved.0 >>= λ _. ok (i, true), saved.1)

  -- The last three are what `Identity::generate` draws.
  unfoldable pub identity_or_create :
      DeviceStore
      → Disk
      → String
      → String
      → String
      → String
      → String
      → Result StoreError (Identity × Bool) × Disk
  identity_or_create s d name platform uuid first second = elim (load_identity s d) [
    | err e ↦ (err e, d)
    | ok (some i) ↦ (ok (i, false), d)
    | ok none ↦ created s d (generate name platform uuid first second)
  ]

  unfoldable pub save_trust : DeviceStore → Disk → TrustStore → Result StoreError (Unit {0}) × Disk
  save_trust s d t = write_atomic s d "trusted_devices.json" (c.as_bytes (export_json c.pins t))

  abbrev pub imported : String → Result StoreError TrustStore
  imported text =
      let r = import_json c.pins new text in
      elim r.0 [ ok n ↦ ok r.1 | err e ↦ err (corrupt "trusted_devices.json" (trust_text e)) ]

  abbrev pub pinned : Option (List ℕ) → Result StoreError TrustStore
  pinned none = ok new
  pinned (some b) = map_err (corrupt "trusted_devices.json") (c.from_utf8 b) >>= imported

  unfoldable pub load_trust : DeviceStore → Disk → Result StoreError TrustStore
  load_trust s d = read_file s d "trusted_devices.json" >>= pinned
