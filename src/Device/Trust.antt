-- ===== src/Device/Trust.antt =====
-- crates/igris-device/src/trust.rs: the store of pinned fingerprints (trust on first use).
pub mod Laws
pub mod Tests
use igrisv.Base.{
  ℕ, String, Bool, true, false, Option, none, some, Assoc, lookup, insert, remove, length, Result,
  ok, err, ite, String_discrete, List, [], ◌∷◌, nat_key, string_key,
}

pub data TrustError : Type 0 where
  mismatch : String → TrustError
  unknown : String → TrustError

pub record TrustStore : Type 0 where
  pub pins : Assoc String String

-- `Default`
abbrev pub new : TrustStore
new = record { pins = [] }

check_pin : TrustStore → String → String → Option String → Result TrustError Bool × TrustStore
check_pin t device_id fingerprint none =
    (ok true, record t { pins = insert device_id fingerprint t.pins })
check_pin t device_id fingerprint (some pinned) =
    ite (String_discrete pinned fingerprint) (ok false, t) (err (mismatch device_id), t)

unfoldable pub verify_or_pin : TrustStore → String → String → Result TrustError Bool × TrustStore
unfolding check_pin
verify_or_pin t device_id fingerprint = check_pin t device_id fingerprint (lookup device_id t.pins)

-- `.map(|p| p == fingerprint).unwrap_or(false)`
matches : String → Option String → Bool
matches fingerprint none = false
matches fingerprint (some p) = ite (String_discrete p fingerprint) true false

unfoldable pub is_trusted : TrustStore → String → String → Bool
unfolding matches
is_trusted t device_id fingerprint = matches fingerprint (lookup device_id t.pins)

is_some : Option String → Bool
is_some none = false
is_some (some x) = true

unfoldable pub revoke : TrustStore → String → Bool × TrustStore
unfolding is_some
revoke t device_id =
    (is_some (lookup device_id t.pins), record t { pins = remove device_id t.pins })

unfoldable pub trusted_count : TrustStore → ℕ
trusted_count t = length t.pins

-- What the store takes from serde_json: a printer that can fail and a parser.
pub record Json : Type 0 where
  pub to_string : Assoc String String → Option String
  pub from_str : String → Option (Assoc String String)

or_braces : Option String → String
or_braces none = "{}"
or_braces (some s) = s

unfoldable pub export_json : Json → TrustStore → String
unfolding or_braces
export_json j t = or_braces (j.to_string t.pins)

load : TrustStore → Option (Assoc String String) → Result TrustError ℕ × TrustStore
load t none = (err (unknown "bad trust export"), t)
load t (some pins) = (ok (length pins), record t { pins = pins })

unfoldable pub import_json : Json → TrustStore → String → Result TrustError ℕ × TrustStore
unfolding load
import_json j t json = load t (j.from_str json)

-- The calls that reach a store while it is in use.
pub data Call : Type 0 where
  verifies : String → String → Call
  revokes : String → Call

pub step : TrustStore → Call → TrustStore
step t (verifies d fp) = (verify_or_pin t d fp).1
step t (revokes d) = (revoke t d).1

pub run : TrustStore → List Call → TrustStore
run t [] = t
run t (c ∷ cs) = run (step t c) cs
