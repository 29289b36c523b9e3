-- ===== src/Voice/Wake.antt =====
-- wake.rs: the wake word, up to two edits. A text's characters are their codes.
use Prim.Native.Char.{code}
use igrisv.Base.{
  ℕ, ◌+◌, min, String, Bool, true, List, [], ◌∷◌, leb, ◌==◌, if◌then◌else◌, length, get_or,
  is_empty, any, contains, split_whitespace,
}

pub record WakeMatcher : Type 0 where
  pub phrase : String
  pub max_distance : ℕ

abbrev pub arise : WakeMatcher
arise = record { phrase = "arise"; max_distance = 2 }

abbrev pub new_matcher : (String → String) → String → WakeMatcher
new_matcher to_lowercase phrase = record { phrase = to_lowercase phrase; max_distance = 2 }

abbrev pub chars : String → List ℕ
chars String.[] = []
chars (String.◌∷◌ c s) = code c ∷ chars s

-- `usize::from(ca != cb)`
abbrev pub cost : ℕ → ℕ → ℕ
cost ca cb = if ca == cb then 0 else 1

-- The inner loop: what it adds to `cur`, whose last entry is `left`; `prev` begins at `prev[j]`.
abbrev pub next_row : ℕ → ℕ → List ℕ → List ℕ → List ℕ
next_row ca left (diagonal ∷ up ∷ prev) (cb ∷ b) =
    let entry = min (up + 1) (min (left + 1) (diagonal + cost ca cb)) in
    entry ∷ next_row ca entry (up ∷ prev) b
next_row ca left _ _ = []

-- The outer loop, from the row `i`.
unfoldable pub rows : ℕ → List ℕ → List ℕ → List ℕ → List ℕ
rows i [] b prev = prev
rows i (ca ∷ a) b prev = rows (i + 1) a b ((i + 1) ∷ next_row ca (i + 1) prev b)

-- `(i..=i + b.len()).collect()`
abbrev pub count_from : ℕ → List ℕ → List ℕ
count_from i [] = i ∷ []
count_from i (c ∷ b) = i ∷ count_from (i + 1) b

unfoldable pub levenshtein : List ℕ → List ℕ → ℕ
levenshtein a b =
    if is_empty a
    then length b
    else if is_empty b
    then length a
    else get_or (rows 0 a b (count_from 0 b)) (length b) 0

unfoldable pub wakes : (String → String) → WakeMatcher → String → Bool
wakes to_lowercase m transcript =
    let t = to_lowercase transcript in
    if contains t m.phrase
    then true
    else any (λ w. leb (levenshtein (chars w) (chars m.phrase)) m.max_distance) (split_whitespace t)
