-- ===== src/Device/Store/Crash.antt =====
-- crates/igris-device/src/store.rs: a crash never leaves half a file.
use text.Mathlib.TextEquality.{eq_iff}
use mathlib.Core.List.{append_cancel_left, head-eq_of_cons-eq}
use mathlib.Core.Path.{subst}
use igrisv.Base.{
  ℕ, String, ◌≡◌, ◌≢◌, List, ok, err, PathBuf, ◌⊎◌, inl, inr, arith, parts, Result-cases, [], ◌∷◌,
  ◌++◌,
}
use igrisv.Device.Store.{
  FileSystem, DeviceStore, bytes, tmp_of, write_atomic, Coding, dest_of, StoreError,
}

-- What the store relies on of a file system. `torn d p b n` is the disk when a crash stops the write of
-- `b` to `p` at the moment `n`: the other files stand as they were.
pub record Keeps (fs : FileSystem) (torn : fs.Disk → PathBuf → List ℕ → ℕ → fs.Disk) : Type 0 where
  pub create_keeps :
      (d : fs.Disk) (p q : PathBuf) (b : List ℕ)
      → fs.read d q ≡ bytes b
      → fs.read (fs.create_dir_all d p).1 q ≡ bytes b
  pub write_keeps :
      (d : fs.Disk) (p q : PathBuf) (b c : List ℕ)
      → p ≢ q
      → fs.read d q ≡ bytes c
      → fs.read (fs.write d p b).1 q ≡ bytes c
  pub torn_keeps :
      (d : fs.Disk) (p q : PathBuf) (b c : List ℕ) (n : ℕ)
      → p ≢ q
      → fs.read d q ≡ bytes c
      → fs.read (torn d p b n) q ≡ bytes c
  pub write_reads :
      (d : fs.Disk) (p : PathBuf) (b : List ℕ)
      → (fs.write d p b).0 ≡ ok tt
      → fs.read (fs.write d p b).1 p ≡ bytes b
  pub rename_moves :
      (d : fs.Disk) (p q : PathBuf) (b : List ℕ)
      → (fs.rename d p q).0 ≡ ok tt
      → fs.read d p ≡ bytes b
      → fs.read (fs.rename d p q).1 q ≡ bytes b
  pub rename_fails :
      (d : fs.Disk) (p q r : PathBuf) (e : String) (b : List ℕ)
      → (fs.rename d p q).0 ≡ err e
      → fs.read d r ≡ bytes b
      → fs.read (fs.rename d p q).1 r ≡ bytes b

module _ (fs : FileSystem) (coding : Coding) where
  -- The two files of the store.
  abbrev pub IsFile : String → Type 0
  IsFile name = (name ≡ "identity.json") ⊎ (name ≡ "trusted_devices.json")

  pub tmp-ne-dest :
      (s : DeviceStore) (name : String)
      → IsFile name
      → tmp_of fs coding s name ≢ dest_of fs coding s name
  unfolding parts
  tmp-ne-dest s name (inl e) q =
      (let at_name : s.dir ++ ("identity.json.tmp" ∷ []) ≡ s.dir ++ ("identity.json" ∷ []) =
          subst (λ n. tmp_of fs coding s n ≡ dest_of fs coding s n) e q in
        let last = append_cancel_left s.dir _ _ at_name in
        cc ((eq_iff _ _).1 (head-eq_of_cons-eq last)))
  tmp-ne-dest s name (inr e) q =
      (let at_name : s.dir ++ ("trusted_devices.json.tmp" ∷ [])
            ≡ s.dir ++ ("trusted_devices.json" ∷ []) =
          subst (λ n. tmp_of fs coding s n ≡ dest_of fs coding s n) e q in
        let last = append_cancel_left s.dir _ _ at_name in
        cc ((eq_iff _ _).1 (head-eq_of_cons-eq last)))

  module _ (torn : fs.Disk → PathBuf → List ℕ → ℕ → fs.Disk) where
    -- The disks that a crash can leave while `write_atomic` writes `b` to the file of a name.
    pub data Crash (s : DeviceStore) (d : fs.Disk) (name : String) (b : List ℕ) (d' : fs.Disk)
        : Type 0 where
      at_once : d' ≡ d → Crash s d name b d'
      at_directory : d' ≡ (fs.create_dir_all d s.dir).1 → Crash s d name b d'
      in_write :
          (n : ℕ)
          → (fs.create_dir_all d s.dir).0 ≡ ok tt
          → d' ≡ torn (fs.create_dir_all d s.dir).1 (tmp_of fs coding s name) b n
          → Crash s d name b d'
      at_write :
          (fs.create_dir_all d s.dir).0 ≡ ok tt
          → d' ≡ (fs.write (fs.create_dir_all d s.dir).1 (tmp_of fs coding s name) b).1
          → Crash s d name b d'
      at_end : d' ≡ (write_atomic fs coding s d name b).1 → Crash s d name b d'

    module _ (k : Keeps fs torn) where
      -- A write that succeeds is read back.
      pub write_atomic-read :
          (s : DeviceStore) (d : fs.Disk) (name : String) (b : List ℕ)
          → (write_atomic fs coding s d name b).0 ≡ ok tt
          → fs.read (write_atomic fs coding s d name b).1 (dest_of fs coding s name) ≡ bytes b
      unfolding write_atomic
      write_atomic-read s d name b h =
          let tmp = tmp_of fs coding s name in
          let dest = dest_of fs coding s name in
          let m = fs.create_dir_all d s.dir in
          let w = fs.write m.1 tmp b in
          ground (arith, k.write_reads m.1 tmp b, k.rename_moves w.1 tmp dest b)

      -- A write that fails leaves the file as it was.
      pub write_atomic-keep :
          (s : DeviceStore) (d : fs.Disk) (name : String) (b old : List ℕ) (e : StoreError)
          → IsFile name
          → fs.read d (dest_of fs coding s name) ≡ bytes old
          → (write_atomic fs coding s d name b).0 ≡ err e
          → fs.read (write_atomic fs coding s d name b).1 (dest_of fs coding s name) ≡ bytes old
      unfolding write_atomic
      write_atomic-keep s d name b old e f r h =
          let tmp = tmp_of fs coding s name in
          let dest = dest_of fs coding s name in
          let m = fs.create_dir_all d s.dir in
          let w = fs.write m.1 tmp b in
          let kept =
            k.write_keeps m.1 tmp dest b old (tmp-ne-dest s name f)
              (k.create_keeps d s.dir dest old r) in
          elim (Result-cases (fs.rename w.1 tmp dest).0) [
            | inl moved ↦ ground (arith, moved.1, kept, k.create_keeps d s.dir dest old r)
            | inr (t, q) ↦ ground (
              arith,
              kept,
              k.create_keeps d s.dir dest old r,
              k.rename_fails w.1 tmp dest dest t old q kept,
            )
          ]

      -- Whenever a crash stops the write of one of the two files, the file is read back as it was or as it
      -- was to be, if it was there before: never half of it.
      pub Crash-whole :
          (s : DeviceStore) (d : fs.Disk) (name : String) (b old : List ℕ) (d' : fs.Disk)
          → IsFile name
          → fs.read d (dest_of fs coding s name) ≡ bytes old
          → Crash s d name b d'
          → (fs.read d' (dest_of fs coding s name) ≡ bytes old)
            ⊎ (fs.read d' (dest_of fs coding s name) ≡ bytes b)
      Crash-whole s d name b old d' f r (at_once e) = inl (rw e r)
      Crash-whole s d name b old d' f r (at_directory e) =
          inl (rw e (k.create_keeps d s.dir (dest_of fs coding s name) old r))
      Crash-whole s d name b old d' f r (in_write n m e) = inl (
          rw e (
            k.torn_keeps _ _ _ b old n (tmp-ne-dest s name f)
              (k.create_keeps d s.dir (dest_of fs coding s name) old r)))
      Crash-whole s d name b old d' f r (at_write m e) = inl (
          rw e (
            k.write_keeps _ _ _ b old (tmp-ne-dest s name f)
              (k.create_keeps d s.dir (dest_of fs coding s name) old r)))
      Crash-whole s d name b old d' f r (at_end e) =
          elim (Result-cases (write_atomic fs coding s d name b).0) [
            | inl (u, q) ↦ inr (rw e (write_atomic-read s d name b q))
            | inr (t, q) ↦ inl (rw e (write_atomic-keep s d name b old t f r q))
          ]
