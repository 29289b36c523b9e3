-- ===== src/Device/Message/Tests.antt =====
-- Tests of the signed envelope, and instances of its theorems.
use Prim.Native.Char.{code}
use igrisv.Base.{ℕ, ◌+◌, ◌%◌, ◌^◌, String, ◌≡◌, refl, List, [], ◌∷◌, ◌++◌, map, arith, ok, err}
use igrisv.Device.Identity.{hex_encode}
use igrisv.Device.Message.{
  verify, new, distance, mac_input, sign, heartbeat, task_dispatch, bad_signature, stale,
  EcoMessage,
}
use igrisv.Device.Message.Authentic.{AreBytes, HasNoNul, same_signature}

abbrev letters : String → List ℕ
letters String.[] = []
letters (String.◌∷◌ c s) = code c ∷ letters s

abbrev low_bytes : List ℕ → List ℕ → List ℕ
low_bytes key xs = map (λ x. x % 256) (key ++ xs)

abbrev beat : EcoMessage
beat = new heartbeat "laptop" "Laptop" (1 ∷ 2 ∷ []) 1000

abbrev signed : EcoMessage
signed = sign letters low_bytes beat (7 ∷ [])

hexadecimal : hex_encode (0 ∷ 171 ∷ 255 ∷ []) ≡ "00abff"
unfolding hex_encode
hexadecimal = refl

accepted : verify letters low_bytes signed (7 ∷ []) 2000 ≡ ok tt
unfolding verify sign distance hex_encode mac_input
accepted = refl

other_key : verify letters low_bytes signed (8 ∷ []) 2000 ≡ err bad_signature
unfolding verify sign distance hex_encode mac_input
other_key = refl

too_old : verify letters low_bytes signed (7 ∷ []) 301001 ≡ err stale
unfolding verify sign distance
too_old = refl

-- The code says nothing of the type and the sender's name.
other_type :
    verify letters low_bytes
      (record signed { msg_type = task_dispatch; sender_name = "Phone" })
      (7 ∷ [])
      2000
    ≡ ok tt
unfolding verify sign distance hex_encode mac_input
other_type = refl

-- At half the range of an `i64` the distance wraps to the least one, which is not above the limit.
half_way : verify letters low_bytes signed (7 ∷ []) (1000 + 2 ^ 63) ≡ ok tt
unfolding verify sign distance hex_encode mac_input
half_way = refl

in_bytes : AreBytes (low_bytes (7 ∷ []) (mac_input letters low_bytes signed))
unfolding mac_input sign
in_bytes = ground arith

no_nul : HasNoNul (letters "laptop")
no_nul = ground arith

same_signature_example :
    (letters "laptop" ≡ letters "laptop")
    × (signed.timestamp_ms ≡ signed.timestamp_ms)
    × (signed.payload ≡ signed.payload)
unfolding sign hex_encode mac_input verify distance
same_signature_example =
    same_signature letters low_bytes signed
      (record signed { msg_type = task_dispatch; sender_name = "Phone" }) (7 ∷ []) 2000 2000
      (λ e. refl) in_bytes in_bytes no_nul no_nul (omega arith) (omega arith) refl accepted
      other_type
