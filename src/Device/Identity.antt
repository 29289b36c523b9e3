-- ===== src/Device/Identity.antt =====
-- crates/igris-device/src/identity.rs: what a device is known by. SHA-256 is a parameter, and so are the
-- printed uuids that are drawn and the bytes of a text.
use Prim.Native.Char.{Char}
use igrisv.Base.{ℕ, ◌/◌, ◌%◌, String, List, [], ◌∷◌, ◌++◌, ◌⁀◌, get_or}

abbrev pub hex : List Char
hex =
    "0" ∷ "1" ∷ "2" ∷ "3" ∷ "4" ∷ "5" ∷ "6" ∷ "7" ∷ "8" ∷ "9" ∷ "a" ∷ "b" ∷ "c" ∷ "d" ∷ "e" ∷ "f"
    ∷ []

-- A byte has no digit out of the table.
abbrev pub hex_digit : ℕ → Char
hex_digit d = get_or hex d "0"

unfoldable pub hex_encode : List ℕ → String
hex_encode [] = ""
hex_encode (b ∷ bytes) =
    String.◌∷◌ (hex_digit (b / 16)) (String.◌∷◌ (hex_digit (b % 16)) (hex_encode bytes))

pub record Identity : Type 0 where
  pub device_id : String
  pub name : String
  pub platform : String
  pub secret : String

abbrev pub generate : String → String → String → String → String → Identity
generate name platform uuid first second = record {
  device_id = uuid;
  name = name;
  platform = platform;
  secret = first ⁀ second;
}

module _ (as_bytes : String → List ℕ) (sha256 : List ℕ → List ℕ) where
  unfoldable pub sha256_hex : List ℕ → String
  sha256_hex bytes = hex_encode (sha256 bytes)

  unfoldable pub fingerprint : Identity → String
  fingerprint i = sha256_hex (as_bytes (i.device_id ⁀ ":" ⁀ i.secret))

  unfoldable pub pairing_key : Identity → String → List ℕ
  pairing_key i peer_id = sha256 (as_bytes i.secret ++ as_bytes "|" ++ as_bytes peer_id)
