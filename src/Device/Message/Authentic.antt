-- ===== src/Device/Message/Authentic.antt =====
-- message.rs: what a verified message proves.
use Prim.Native.Char.{Char, code}
use text.Mathlib.TextEquality.{eq_iff}
use igrisv.Base.{
  ℕ, zero, suc, ◌^◌, ◌<◌, ◌≡◌, refl, List, [], arith, Each, ◌+◌, ◌-◌, ◌*◌, String, sym, ap, ◌∙◌,
  Bool, true, ◌&&◌, ◌∷◌, ℕ_discrete, ltb, ◌==◌, if◌then◌else◌, ◌/◌, ◌%◌, ◌↔◌, false, some, ◌++◌, ok,
  inl, inr, Option-cases,
}
use igrisv.Device.Identity.{hex_encode, hex_digit}
use igrisv.Device.Message.{
  verify, le_bytes, protocol_version, distance, above, mac_input, sign, EcoMessage,
}

abbrev pub AreBytes : List ℕ → Type 0
AreBytes = Each (λ b. b < 256)

-- Hexadecimal digits read back.
abbrev digit_of : Char → ℕ
digit_of c = if ltb (code c) 58 then code c - 48 else code c - 87

abbrev bytes_of : String → List ℕ
bytes_of String.[] = []
bytes_of (String.◌∷◌ c String.[]) = []
bytes_of (String.◌∷◌ c (String.◌∷◌ d s)) = (digit_of c * 16 + digit_of d) ∷ bytes_of s

abbrev all_below : (ℕ → Bool) → ℕ → Bool
all_below p zero = true
all_below p (suc n) = p n && all_below p n

at_below : (p : ℕ → Bool) (n d : ℕ) → all_below p n ≡ true → d < n → p d ≡ true
at_below p zero d h l = absurd (omega arith)
at_below p (suc n) d h l = elim (ℕ_discrete d n) [
  | yes e ↦ rw e (ground arith)
  | no ne ↦ at_below p n d (ground arith) (omega (arith, ne))
]

digit_of-hex_digit : (d : ℕ) → d < 16 → digit_of (hex_digit d) ≡ d
digit_of-hex_digit d l = ground (arith, at_below (λ k. digit_of (hex_digit k) == k) 16 d refl l)

bytes_of-hex_encode : (xs : List ℕ) → AreBytes xs → bytes_of (hex_encode xs) ≡ xs
unfolding hex_encode
bytes_of-hex_encode [] h = refl
bytes_of-hex_encode (b ∷ xs) h =
    let byte : digit_of (hex_digit (b / 16)) * 16 + digit_of (hex_digit (b % 16)) ≡ b = omega (
      arith,
      h.0,
      digit_of-hex_digit (b / 16) (omega (arith, h.0)),
      digit_of-hex_digit (b % 16) (omega arith),
    ) in
    ap (λ c. c ∷ bytes_of (hex_encode xs)) byte ∙ ap (λ t. b ∷ t) (bytes_of-hex_encode xs h.1)

hex_encode-Injective :
    (xs ys : List ℕ) → AreBytes xs → AreBytes ys → hex_encode xs ≡ hex_encode ys → xs ≡ ys
hex_encode-Injective xs ys h k e =
    sym (bytes_of-hex_encode xs h) ∙ ap bytes_of e ∙ bytes_of-hex_encode ys k

-- What `k` bytes can hold, and their number read back.
abbrev capacity : ℕ → ℕ
capacity zero = 1
capacity (suc k) = 256 * capacity k

abbrev number_of : List ℕ → ℕ
number_of [] = 0
number_of (b ∷ bytes) = b + 256 * number_of bytes

number_of-le_bytes : (k n : ℕ) → n < capacity k → number_of (le_bytes k n) ≡ n
number_of-le_bytes zero n h = omega (arith, h)
number_of-le_bytes (suc k) n h = omega (arith, number_of-le_bytes k (n / 256) (omega (arith, h)))

le_bytes_split :
    (k m n : ℕ) (r s : List ℕ)
    → le_bytes k m ++ r ≡ le_bytes k n ++ s
    → (le_bytes k m ≡ le_bytes k n) × (r ≡ s)
le_bytes_split zero m n r s e = (refl, e)
le_bytes_split (suc k) m n r s e =
    let rest = le_bytes_split k (m / 256) (n / 256) r s (ground arith) in (ground arith, rest.1)

abbrev pub HasNoNul : List ℕ → Type 0
HasNoNul = Each (λ b. 0 < b)

at_nul :
    (xs ys r s : List ℕ)
    → HasNoNul xs
    → HasNoNul ys
    → xs ++ (0 ∷ r) ≡ ys ++ (0 ∷ s)
    → (xs ≡ ys) × (r ≡ s)
at_nul [] [] r s h k e = (refl, ground arith)
at_nul [] (y ∷ ys) r s h k e = absurd (ground (arith, k.0))
at_nul (x ∷ xs) [] r s h k e = absurd (ground (arith, h.0))
at_nul (x ∷ xs) (y ∷ ys) r s h k e =
    let rest = at_nul xs ys r s h.1 k.1 (ground arith) in (ground arith, rest.1)

module _ (as_bytes : String → List ℕ) (hmac : List ℕ → List ℕ → List ℕ) where
  mac_input-Injective :
      (m n : EcoMessage)
      → HasNoNul (as_bytes m.sender_id)
      → HasNoNul (as_bytes n.sender_id)
      → m.timestamp_ms < 2 ^ 64
      → n.timestamp_ms < 2 ^ 64
      → mac_input as_bytes hmac m ≡ mac_input as_bytes hmac n
      → (as_bytes m.sender_id ≡ as_bytes n.sender_id)
        × (m.timestamp_ms ≡ n.timestamp_ms)
        × (m.payload ≡ n.payload)
  unfolding mac_input
  mac_input-Injective m n h k t u e =
      let cut =
        at_nul (as_bytes m.sender_id) (as_bytes n.sender_id)
          (le_bytes 8 m.timestamp_ms ++ (0 ∷ m.payload))
          (le_bytes 8 n.timestamp_ms ++ (0 ∷ n.payload)) h k e in
      let rest =
        le_bytes_split 8 m.timestamp_ms n.timestamp_ms (0 ∷ m.payload) (0 ∷ n.payload) cut.1 in
      (
        cut.0,
        sym (number_of-le_bytes 8 m.timestamp_ms (omega (arith, t)))
            ∙ ap number_of rest.0
            ∙ number_of-le_bytes 8 n.timestamp_ms (omega (arith, u)),
        ground (arith, rest.1),
      )

  -- What `verify` asks, all of it.
  verify-ok :
      (m : EcoMessage) (key : List ℕ) (now_ms : ℕ)
      → (verify as_bytes hmac m key now_ms ≡ ok tt) ↔ (
          (m.version ≡ protocol_version)
          × (above (distance now_ms m.timestamp_ms) 300000 ≡ false)
          × (m.signature ≡ some (hex_encode (hmac key (mac_input as_bytes hmac m)))))
  unfolding verify
  verify-ok m key now_ms = elim (Option-cases m.signature) [
    | inl n ↦ (λ h. absurd (ground arith), λ h. absurd (ground arith))
    | inr s ↦ (
      λ h. ground (
        arith,
        eq_iff m.version protocol_version,
        eq_iff (hex_encode (hmac key (mac_input as_bytes hmac m))) s.0,
      ),
      λ h. ground (
        arith,
        eq_iff m.version protocol_version,
        eq_iff (hex_encode (hmac key (mac_input as_bytes hmac m))) s.0,
      ),
    )
  ]

  -- A message of this version that is signed with a key verifies under the key exactly if the distance
  -- between the two times, as the wrapping arithmetic gives it, is not above 300,000 milliseconds.
  pub verify-sign :
      (m : EcoMessage) (key : List ℕ) (now_ms : ℕ)
      → m.version ≡ protocol_version
      → (verify as_bytes hmac (sign as_bytes hmac m key) key now_ms ≡ ok tt)
        ↔ (above (distance now_ms m.timestamp_ms) 300000 ≡ false)
  unfolding sign mac_input
  verify-sign m key now_ms v =
      let asks = verify-ok (sign as_bytes hmac m key) key now_ms in
      ((λ h. (asks.0 h).1), λ h. asks.1 (v, h, refl))

  -- Of two messages that verify under a key with the same signature, whose inputs are no collision of
  -- the code, which is made of bytes, the senders, times and payloads are the same, if no byte of a
  -- sender's id is zero: none of these can be changed under a signature.
  pub same_signature :
      (m n : EcoMessage) (key : List ℕ) (now later : ℕ)
      → (hmac key (mac_input as_bytes hmac m) ≡ hmac key (mac_input as_bytes hmac n)
          → mac_input as_bytes hmac m ≡ mac_input as_bytes hmac n)
      → AreBytes (hmac key (mac_input as_bytes hmac m))
      → AreBytes (hmac key (mac_input as_bytes hmac n))
      → HasNoNul (as_bytes m.sender_id)
      → HasNoNul (as_bytes n.sender_id)
      → m.timestamp_ms < 2 ^ 64
      → n.timestamp_ms < 2 ^ 64
      → m.signature ≡ n.signature
      → verify as_bytes hmac m key now ≡ ok tt
      → verify as_bytes hmac n key later ≡ ok tt
      → (as_bytes m.sender_id ≡ as_bytes n.sender_id)
        × (m.timestamp_ms ≡ n.timestamp_ms)
        × (m.payload ≡ n.payload)
  same_signature m n key now later free b c h k t u e f g =
      let ours = ((verify-ok m key now).0 f).2 in
      let theirs = ((verify-ok n key later).0 g).2 in
      let codes : hex_encode (hmac key (mac_input as_bytes hmac m))
          ≡ hex_encode (hmac key (mac_input as_bytes hmac n)) =
        ground (arith, ours, theirs, e) in
      mac_input-Injective m n h k t u (
        free (
          hex_encode-Injective (hmac key (mac_input as_bytes hmac m))
            (hmac key (mac_input as_bytes hmac n)) b c codes))
