-- ===== src/Device/Message.antt =====
-- crates/igris-device/src/message.rs: the signed envelope. HMAC-SHA256 and the bytes of a text are
-- parameters. An `i64` is its 64 bits as a number, on which the arithmetic wraps, as in a release build.
pub mod Authentic
pub mod Tests
use igrisv.Base.{
  ℕ, zero, suc, ◌+◌, ◌-◌, ◌*◌, ◌/◌, ◌%◌, ◌^◌, String, Bool, not, ◌&&◌, Option, none, some, List, [],
  ◌∷◌, ◌++◌, ltb, if◌then◌else◌, Result, ok, err, same,
}
use igrisv.Device.Identity.{hex_encode}

abbrev pub protocol_version : String
protocol_version = "1.0.0"

abbrev pub max_skew_secs : ℕ
max_skew_secs = 300

pub data MessageType : Type 0 where
  announcement clipboard_sync pair_request heartbeat task_dispatch task_result file_chunk_offer :
      MessageType

pub record EcoMessage : Type 0 where
  pub version : String
  pub msg_type : MessageType
  pub sender_id : String
  pub sender_name : String
  pub payload : List ℕ
  pub timestamp_ms : ℕ
  pub signature : Option String

pub data MessageError : Type 0 where
  bad_signature stale : MessageError
  other_version : String → MessageError

abbrev pub new : MessageType → String → String → List ℕ → ℕ → EcoMessage
new msg_type sender_id sender_name payload now_ms = record {
  version = protocol_version;
  msg_type = msg_type;
  sender_id = sender_id;
  sender_name = sender_name;
  payload = payload;
  timestamp_ms = now_ms;
  signature = none;
}

-- `to_le_bytes`
abbrev pub le_bytes : ℕ → ℕ → List ℕ
le_bytes zero n = []
le_bytes (suc k) n = n % 256 ∷ le_bytes k (n / 256)

-- `(a - b).abs()`
unfoldable pub distance : ℕ → ℕ → ℕ
distance a b = let d = (a + (2 ^ 64 - b)) % 2 ^ 64 in if ltb d (2 ^ 63) then d else 2 ^ 64 - d

-- `a > b` for a limit that is not negative.
abbrev pub above : ℕ → ℕ → Bool
above a limit = ltb a (2 ^ 63) && ltb limit a

module _ (as_bytes : String → List ℕ) (hmac : List ℕ → List ℕ → List ℕ) where
  unfoldable pub mac_input : EcoMessage → List ℕ
  mac_input m = as_bytes m.sender_id ++ (0 ∷ (le_bytes 8 m.timestamp_ms ++ (0 ∷ m.payload)))

  unfoldable pub sign : EcoMessage → List ℕ → EcoMessage
  sign m key = record m { signature = some (hex_encode (hmac key (mac_input m))) }

  unfoldable pub verify : EcoMessage → List ℕ → ℕ → Result MessageError (Unit {0})
  verify m key now_ms =
      if not (same m.version protocol_version)
      then err (other_version m.version)
      else if above (distance now_ms m.timestamp_ms) (max_skew_secs * 1000)
      then err stale
      else elim m.signature [
        | none ↦ err bad_signature
        | some sig ↦
            if same (hex_encode (hmac key (mac_input m))) sig then ok tt else err bad_signature
      ]
