-- ===== src/Base/Text.antt =====
-- Texts: the comparison of whole texts, and the blanks that `trim` cuts off.
use Prim.Native.Char.{code}
use Prim.Native.Nat.{ℕ, ◌+◌, ◌/◌, ◌%◌, zero, suc}
use Prim.Native.String.{String, slice, ◌++◌ as append}
use mathlib.Core.Bool.{Bool, true, false, ◌&&◌, ◌||◌}
use mathlib.Core.Option.{Option, none, some}
use mathlib.Core.List.{List, [], ◌∷◌}
use text.Mathlib.Text.{find?, ◌==◌ as str_eq}
use igrisv.Base.Tests.{leb, ◌==◌, if◌then◌else◌}
use igrisv.Base.Lists.{any}

infixr 60 ◌⁀◌
abbrev pub ◌⁀◌ : String → String → String
s ⁀ t = append s t

abbrev pub same : String → String → Bool
same s t = str_eq s t

-- `slice::contains`
abbrev pub has : String → List String → Bool
has t xs = any (λ x. same x t) xs

-- `char::is_whitespace`
abbrev pub is_whitespace : ℕ → Bool
is_whitespace c =
    leb 9 c && leb c 13
    || c == 32
    || c == 133
    || c == 160
    || c == 5760
    || leb 8192 c && leb c 8202
    || c == 8232
    || c == 8233
    || c == 8239
    || c == 8287
    || c == 12288

-- `s.trim().is_empty()`
abbrev pub is_blank : String → Bool
is_blank String.[] = true
is_blank (String.◌∷◌ c s) = is_whitespace (code c) && is_blank s

-- `[s].join(sep)`
abbrev pub join : String → List String → String
join sep [] = ""
join sep (s ∷ []) = s
join sep (s ∷ t ∷ rest) = s ⁀ sep ⁀ join sep (t ∷ rest)

-- The decimal digits of a number; the fuel is more than their count.
abbrev decimal_on : ℕ → ℕ → String
decimal_on zero n = ""
decimal_on (suc fuel) n =
    let rest = decimal_on fuel (n / 10) in
    (if leb 10 n then rest else "") ⁀ slice "0123456789" (n % 10) (n % 10 + 1)

abbrev pub decimal : ℕ → String
decimal n = decimal_on (n + 1) n

-- The words of `split_whitespace`: the word that the text begins with, and those after it.
abbrev and_word : String → List String → List String
and_word String.[] ws = ws
and_word (String.◌∷◌ c s) ws = String.◌∷◌ c s ∷ ws

abbrev words_from : String → String × List String
words_from String.[] = ("", [])
words_from (String.◌∷◌ c s) =
    let rest = words_from s in
    if is_whitespace (code c) then ("", and_word rest.0 rest.1) else (String.◌∷◌ c rest.0, rest.1)

unfoldable pub split_whitespace : String → List String
split_whitespace s = let found = words_from s in and_word found.0 found.1

abbrev found : Option ℕ → Bool
found none = false
found (some i) = true

-- `t.contains(w)`
abbrev pub contains : String → String → Bool
contains t w = found (find? t w)

-- `trim`
abbrev trim_start : String → String
trim_start String.[] = ""
trim_start (String.◌∷◌ c s) =
    let rest = trim_start s in if is_whitespace (code c) then rest else String.◌∷◌ c s

abbrev trim_end : String → String
trim_end String.[] = ""
trim_end (String.◌∷◌ c s) =
    let rest = trim_end s in
    if is_whitespace (code c) && str_eq rest "" then "" else String.◌∷◌ c rest

abbrev pub trim : String → String
trim s = trim_start (trim_end s)
