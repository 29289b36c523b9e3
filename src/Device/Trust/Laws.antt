-- ===== src/Device/Trust/Laws.antt =====
-- trust.rs: a pin is set once, and only a revocation takes it away.
use igrisv.Base.{
  String, ◌⊎◌, ◌≡◌, ◌≢◌, true, false, none, some, lookup, ok, err, arith, List, [], ◌∷◌, Each,
  lookup-insert, lookup-remove, Assoc, length, nat_key, string_key,
}
use igrisv.Device.Trust.{
  TrustStore, mismatch, verify_or_pin, is_trusted, revoke, Call, verifies, revokes, step, run, Json,
  export_json, import_json,
}

-- The whole contract of `verify_or_pin`: an unknown device is pinned, a known one is matched against
-- its pin, and a changed fingerprint is an error that leaves the store as it was.
pub verify_or_pin_cases :
    (t : TrustStore) (d fp : String)
    → ((lookup d t.pins ≡ none)
        × ((verify_or_pin t d fp).0 ≡ ok true)
        × (is_trusted (verify_or_pin t d fp).1 d fp ≡ true))
      ⊎ ((lookup d t.pins ≡ some fp) × (verify_or_pin t d fp ≡ (ok false, t)))
      ⊎ ((p : String) × (lookup d t.pins ≡ some p)
          × (p ≢ fp)
          × (verify_or_pin t d fp ≡ (err (mismatch d), t)))
unfolding verify_or_pin is_trusted
verify_or_pin_cases t d fp = ground (arith, lookup-insert d d fp t.pins)

-- A call other than the revocation of `d`.
abbrev pub Spares : String → Call → Type 0
Spares d (verifies e fp) = Unit {0}
Spares d (revokes e) = e ≢ d

step_keeps_pin :
    (t : TrustStore) (c : Call) (d fp : String)
    → Spares d c
    → lookup d t.pins ≡ some fp
    → lookup d (step t c).pins ≡ some fp
unfolding step verify_or_pin revoke
step_keeps_pin t (verifies e x) d fp h p = ground (arith, lookup-insert e d x t.pins)
step_keeps_pin t (revokes e) d fp h p = ground (arith, lookup-remove e d t.pins)

-- Whatever calls of `verify_or_pin` and `revoke` arrive, as long as `d` is not revoked, its pin stays,
-- and any other fingerprint for it is refused.
pub run_keeps_pin :
    (t : TrustStore) (cs : List Call) (d fp : String)
    → lookup d t.pins ≡ some fp
    → Each (Spares d) cs
    → (is_trusted (run t cs) d fp ≡ true)
      × ((other : String) → fp ≢ other → (verify_or_pin (run t cs) d other).0 ≡ err (mismatch d))
unfolding run is_trusted verify_or_pin
run_keeps_pin t [] d fp p h = (ground arith, λ other n. ground arith)
run_keeps_pin t (c ∷ cs) d fp p h =
    run_keeps_pin (step t c) cs d fp (step_keeps_pin t c d fp h.0 p) h.1

-- After a revocation the device is unknown, and the next fingerprint is pinned.
pub verify_or_pin-revoke :
    (t : TrustStore) (d fp : String)
    → ((verify_or_pin (revoke t d).1 d fp).0 ≡ ok true)
      × (is_trusted (verify_or_pin (revoke t d).1 d fp).1 d fp ≡ true)
unfolding verify_or_pin revoke is_trusted
verify_or_pin-revoke t d fp =
    ground (arith, lookup-remove d d t.pins, lookup-insert d d fp (revoke t d).1.pins)

-- If the text that serde_json prints for the pins is read back to a map with the same entries, the
-- imported store trusts what the exported one trusted, and nothing else.
pub import_json-export_json :
    (j : Json) (t u : TrustStore) (s : String) (m : Assoc String String)
    → j.to_string t.pins ≡ some s
    → j.from_str s ≡ some m
    → ((k : String) → lookup k m ≡ lookup k t.pins)
    → ((import_json j u (export_json j t)).0 ≡ ok (length m))
      × ((d fp : String)
          → is_trusted (import_json j u (export_json j t)).1 d fp ≡ is_trusted t d fp)
unfolding import_json export_json is_trusted
import_json-export_json j t u s m p q same = (ground arith, λ d fp. ground (arith, same d))
