-- ===== src/Device/Store/Restart.antt =====
-- crates/igris-device/src/store.rs: what is saved is what the next start loads.
use igrisv.Base.{
  ℕ, String, ◌≡◌, inl, inr, Bool, false, some, List, arith, nat_key, string_key, Assoc, lookup, ok,
  same, PathBuf, Result-cases, Option-cases,
}
use igrisv.Device.Identity.{Identity, generate}
use igrisv.Device.Trust.{TrustStore, new, is_trusted, export_json, import_json}
use igrisv.Device.Trust.Laws.{import_json-export_json}
use igrisv.Device.Store.{
  FileSystem, DeviceStore, read_file, save_identity, load_identity, identity_or_create, save_trust,
  load_trust, Coding,
}
use igrisv.Device.Store.Crash.{Keeps, write_atomic-read}

module _ (fs : FileSystem) (c : Coding) (torn : fs.Disk → PathBuf → List ℕ → ℕ → fs.Disk)
    (k : Keeps fs torn) where
  -- serde_json reads an identity back from what it printed.
  abbrev pub ReadsBack : Type 0
  ReadsBack =
      (i : Identity) (json : String)
      → c.to_string_pretty i ≡ ok json
      → c.from_slice (c.as_bytes json) ≡ ok i

  load_identity-save_identity :
      (s : DeviceStore) (d : fs.Disk) (i : Identity)
      → ReadsBack
      → (save_identity fs c s d i).0 ≡ ok tt
      → load_identity fs c s (save_identity fs c s d i).1 ≡ ok (some i)
  unfolding save_identity load_identity read_file
  load_identity-save_identity s d i back h = elim (Result-cases (c.to_string_pretty i)) [
    | inl (json, e) ↦ ground (
      arith,
      e,
      back i json e,
      write_atomic-read fs c torn k s d "identity.json" (c.as_bytes json),
    )
    | inr (t, e) ↦ absurd (ground (arith, e))
  ]

  loads_later :
      (s : DeviceStore) (d d' : fs.Disk) (name platform uuid first second : String) (i : Identity)
      (made : Bool)
      → ReadsBack
      → identity_or_create fs c s d name platform uuid first second ≡ (ok (i, made), d')
      → load_identity fs c s d' ≡ ok (some i)
  unfolding identity_or_create
  loads_later s d d' name platform uuid first second i made back h =
      elim (Result-cases (load_identity fs c s d)) [
        | inr (e, q) ↦ absurd (ground (arith, q))
        | inl (o, q) ↦
            (let new_one = generate name platform uuid first second in
              elim (Option-cases o) [
                | inr (j, e) ↦ ground (arith, q, e)
                | inl e ↦ ground (
                  arith,
                  q,
                  e,
                  load_identity-save_identity s d new_one back,
                  Result-cases (save_identity fs c s d new_one).0,
                )
              ])
      ]

  -- If serde_json reads back what it prints, then the identity that a start gives is the one that every
  -- later start gives, whatever name and platform it asks for, and no later start writes the disk.
  pub identity_stable :
      (s : DeviceStore) (d d' : fs.Disk) (name platform uuid first second : String) (i : Identity)
      (made : Bool)
      → ReadsBack
      → identity_or_create fs c s d name platform uuid first second ≡ (ok (i, made), d')
      → (name' platform' uuid' first' second' : String)
      → identity_or_create fs c s d' name' platform' uuid' first' second' ≡ (ok (i, false), d')
  unfolding identity_or_create
  identity_stable s d d' name platform uuid first second i made back h name' platform' uuid' first'
        second' =
      rw (loads_later s d d' name platform uuid first second i made back h, identity_or_create)

  -- If the printed pins are read back with the same entries and UTF-8 is decoded to what was coded, then
  -- the pins that are saved are those that the next start trusts, and no others.
  pub load_trust-save_trust :
      (s : DeviceStore) (d : fs.Disk) (t : TrustStore) (json : String) (m : Assoc String String)
      → c.pins.to_string t.pins ≡ some json
      → c.pins.from_str json ≡ some m
      → ((x : String) → lookup x m ≡ lookup x t.pins)
      → ((x : String) → c.from_utf8 (c.as_bytes x) ≡ ok x)
      → (save_trust fs c s d t).0 ≡ ok tt
      → (u : TrustStore) × (load_trust fs c s (save_trust fs c s d t).1 ≡ ok u)
        × ((device fp : String) → is_trusted u device fp ≡ is_trusted t device fp)
  unfolding save_trust load_trust read_file
  load_trust-save_trust s d t json m p q same decodes h =
      let text = export_json c.pins t in
      let r = import_json-export_json c.pins t new json m p q same in
      (
        (import_json c.pins new text).1,
        ground (
          arith,
          r.0,
          decodes text,
          write_atomic-read fs c torn k s d "trusted_devices.json" (c.as_bytes text) h,
        ),
        r.1,
      )
