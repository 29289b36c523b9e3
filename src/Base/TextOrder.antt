-- ===== src/Base/TextOrder.antt =====
-- The order of texts.
use Prim.Native.Char.{code}
use Prim.Native.String.{String}
use mathlib.Core.Bool.{Bool, true, false, ◌&&◌, ◌||◌}
use mathlib.Core.Path.{◌≡◌, refl}
use native.Mathlib.Omega.{arith}
use text.Mathlib.TextEquality.{Char-path}
use igrisv.Base.Tests.{ltb, ◌==◌}

-- `<` on texts: the order of their bytes in UTF-8 is that of their characters.
unfoldable pub text_ltb : String → String → Bool
text_ltb String.[] String.[] = false
text_ltb String.[] (String.◌∷◌ d t) = true
text_ltb (String.◌∷◌ c s) String.[] = false
text_ltb (String.◌∷◌ c s) (String.◌∷◌ d t) =
    ltb (code c) (code d) || (code c == code d && text_ltb s t)

pub text_ltb-trans_false :
    (r s t : String) → text_ltb r s ≡ false → text_ltb s t ≡ false → text_ltb r t ≡ false
unfolding text_ltb
text_ltb-trans_false String.[] String.[] String.[] h k = refl
text_ltb-trans_false String.[] String.[] (String.◌∷◌ d t) h k = k
text_ltb-trans_false String.[] (String.◌∷◌ c s) t h k = absurd (ground arith)
text_ltb-trans_false (String.◌∷◌ b r) String.[] String.[] h k = refl
text_ltb-trans_false (String.◌∷◌ b r) String.[] (String.◌∷◌ d t) h k = absurd (ground arith)
text_ltb-trans_false (String.◌∷◌ b r) (String.◌∷◌ c s) String.[] h k = refl
text_ltb-trans_false (String.◌∷◌ b r) (String.◌∷◌ c s) (String.◌∷◌ d t) h k =
    ground (arith, text_ltb-trans_false r s t)

pub text_ltb-antisym : (s t : String) → text_ltb s t ≡ false → text_ltb t s ≡ false → s ≡ t
unfolding text_ltb
text_ltb-antisym String.[] String.[] h k = refl
text_ltb-antisym String.[] (String.◌∷◌ d t) h k = absurd (ground arith)
text_ltb-antisym (String.◌∷◌ c s) String.[] h k = absurd (ground arith)
text_ltb-antisym (String.◌∷◌ c s) (String.◌∷◌ d t) h k =
    ground (arith, Char-path c d, text_ltb-antisym s t)

pub text_ltb_irrefl : (s : String) → text_ltb s s ≡ false
unfolding text_ltb
text_ltb_irrefl String.[] = refl
text_ltb_irrefl (String.◌∷◌ c s) = ground (arith, text_ltb_irrefl s)

pub text_ltb-asym : (s t : String) → text_ltb s t ≡ true → text_ltb t s ≡ false
unfolding text_ltb
text_ltb-asym String.[] String.[] h = absurd (ground arith)
text_ltb-asym String.[] (String.◌∷◌ d t) h = refl
text_ltb-asym (String.◌∷◌ c s) String.[] h = absurd (ground arith)
text_ltb-asym (String.◌∷◌ c s) (String.◌∷◌ d t) h = ground (arith, text_ltb-asym s t)
