-- ===== src/Device/Pairing.antt =====
-- crates/igris-device/src/pairing.rs: one-time pairing codes. The clock and the random source are
-- arguments; instants and durations are counted in nanoseconds.
pub mod Laws
pub mod Tries
pub mod Codes
pub mod Tests
use Prim.Native.Nat.{bit_xor}
use Prim.Native.String
use igrisv.Base.{
  ℕ, zero, suc, ◌+◌, ◌*◌, ◌/◌, ◌%◌, String, ite, Bool, true, false, Option, none, some, List, [],
  ◌∷◌, ◌++◌, ltb, leb, if◌then◌else◌, String_discrete, length, get_or, nat_key, string_key, Assoc,
  lookup, insert, remove, update, retain,
}

-- `Duration::from_secs`
abbrev pub from_secs : ℕ → ℕ
from_secs s = s * 1000000000

abbrev pub otp_ttl : ℕ
otp_ttl = from_secs 120

abbrev pub otp_max_attempts : ℕ
otp_max_attempts = 3

pub record Pending : Type 0 where
  pub code : String
  pub expires : ℕ
  pub attempts : ℕ

pub record OtpManager : Type 0 where
  pub pending : Assoc String Pending

abbrev pub new : OtpManager
new = record { pending = [] }

digit : ℕ → String
digit n = get_or ("0" ∷ "1" ∷ "2" ∷ "3" ∷ "4" ∷ "5" ∷ "6" ∷ "7" ∷ "8" ∷ []) n "9"

-- The last `w` decimal digits of `n`.
last_digits : ℕ → ℕ → String
last_digits zero n = ""
last_digits (suc w) n = String.◌++◌ (last_digits w (n / 10)) (digit (n % 10))

-- `format!("{:06}", (nanos ^ 0x9e3779b9) % 1_000_000)`; the number has at most six digits.
unfoldable pub code_of : ℕ → String
unfolding digit last_digits
code_of nanos = last_digits 6 (bit_xor nanos 0x9e3779b9 % 1000000)

-- `nanos` is `none` where the system clock stands before 1970.
subsec : Option ℕ → ℕ
subsec none = 123456
subsec (some nanos) = nanos

unfoldable pub issue : OtpManager → Option ℕ → ℕ → String → String × OtpManager
unfolding subsec
issue m nanos now device_id =
    let code = code_of (subsec nanos) in
    (
      code,
      record m {
        pending =
            insert device_id (record { code = code; expires = now + otp_ttl; attempts = 0 })
              m.pending;
      },
    )

-- `p.attempts += 1`
abbrev pub tried : Pending → Pending
tried p = record p { attempts = p.attempts + 1 }

-- The rest of `verify` once the entry is found.
attempt : OtpManager → String → String → ℕ → Pending → Bool × OtpManager
attempt m device_id code now p =
    if ltb p.expires now
    then (false, record m { pending = remove device_id m.pending })
    else ite (String_discrete p.code code) (true, record m { pending = remove device_id m.pending })
        (if leb otp_max_attempts (p.attempts + 1)
          then (false, record m { pending = remove device_id m.pending })
          else (false, record m { pending = update device_id tried m.pending }))

unfoldable pub verify : OtpManager → ℕ → String → String → Bool × OtpManager
unfolding attempt
verify m now device_id code = elim (lookup device_id m.pending) [
  | none ↦ (false, m)
  | some p ↦ attempt m device_id code now p
]

unfoldable pub pending_count : OtpManager → ℕ
pending_count m = length m.pending

unfoldable pub sweep_expired : OtpManager → ℕ → OtpManager
sweep_expired m now = record m { pending = retain (λ p. leb now p.expires) m.pending }

-- The calls that reach a manager, each with the instant at which it runs.
pub data Call : Type 0 where
  issues : Option ℕ → String → Call
  verifies : String → String → Call
  sweeps : Call

unfoldable pub step : OtpManager → ℕ × Call → OtpManager
step m (now, issues nanos d) = (issue m nanos now d).1
step m (now, verifies d code) = (verify m now d code).1
step m (now, sweeps) = sweep_expired m now

unfoldable pub run : OtpManager → List (ℕ × Call) → OtpManager
run m [] = m
run m (c ∷ cs) = run (step m c) cs
