-- ===== src/Device/Pairing/Codes.antt =====
-- pairing.rs: the codes that are drawn.
use Prim.Native.String.{count}
use text.Mathlib.TextLemmas.{length-append as text_append}
use igrisv.Base.{ℕ, zero, suc, ◌/◌, ◌%◌, String, ◌≡◌, refl, List, [], ◌∷◌, arith, get_or, Each}
use igrisv.Device.Pairing.{digit, last_digits, code_of}

count-get_or :
    (xs : List String) (n : ℕ) (d : String)
    → count d ≡ 1
    → Each (λ s. count s ≡ 1) xs
    → count (get_or xs n d) ≡ 1
count-get_or [] n d h e = h
count-get_or (x ∷ xs) zero d h e = e.0
count-get_or (x ∷ xs) (suc n) d h e = count-get_or xs n d h e.1

count-digit : (n : ℕ) → count (digit n) ≡ 1
unfolding digit
count-digit n =
    count-get_or ("0" ∷ "1" ∷ "2" ∷ "3" ∷ "4" ∷ "5" ∷ "6" ∷ "7" ∷ "8" ∷ []) n "9" refl
      (refl, (refl, (refl, (refl, (refl, (refl, (refl, (refl, (refl, tt)))))))))

count-last_digits : (w n : ℕ) → count (last_digits w n) ≡ w
unfolding last_digits
count-last_digits zero n = refl
count-last_digits (suc w) n = omega (
  arith,
  text_append (last_digits w (n / 10)) (digit (n % 10)),
  count-last_digits w (n / 10),
  count-digit (n % 10),
)

-- Every issued code has six characters.
pub count-code_of : (nanos : ℕ) → count (code_of nanos) ≡ 6
unfolding code_of
count-code_of nanos = count-last_digits 6 _
