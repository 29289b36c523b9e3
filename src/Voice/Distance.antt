-- ===== src/Voice/Distance.antt =====
-- wake.rs: the table of `levenshtein` holds the least costs of edit scripts.
use mathlib.Core.List.{append-nil}
use mathlib.Core.Path.{subst}
use igrisv.Base.{
  ℕ, ◌+◌, ◌≤◌, min, ◌≡◌, refl, ap, ◌∙◌, ◌⊎◌, inl, inr, List, [], ◌∷◌, ◌++◌, arith, dec_le, length,
  get_or,
}
use igrisv.Voice.Wake.{levenshtein, cost, next_row, rows, count_from}

-- A script that edits a text into another, with its cost.
pub data Edit : List ℕ → List ℕ → ℕ → Type 0 where
  nothing_left : Edit [] [] 0
  delete : {a b : List ℕ} {n : ℕ} (x : ℕ) → Edit a b n → Edit (x ∷ a) b (n + 1)
  add : {a b : List ℕ} {n : ℕ} (y : ℕ) → Edit a b n → Edit a (y ∷ b) (n + 1)
  change : {a b : List ℕ} {n : ℕ} (x y : ℕ) → Edit a b n → Edit (x ∷ a) (y ∷ b) (n + cost x y)

-- The distance by recursion on the texts.
abbrev dist : List ℕ → List ℕ → ℕ
dist [] b = length b
dist (x ∷ a) [] = length (x ∷ a)
dist (x ∷ a) (y ∷ b) = min (dist a (y ∷ b) + 1) (min (dist (x ∷ a) b + 1) (dist a b + cost x y))

dist-nil : (a : List ℕ) → dist a [] ≡ length a
dist-nil [] = refl
dist-nil (x ∷ a) = refl

-- A script of that cost.

min_cases : (m n : ℕ) → (min m n ≡ m) ⊎ (min m n ≡ n)
min_cases m n = elim (dec_le m n) [ yes h ↦ inl (omega arith) | no h ↦ inr (omega arith) ]

at_cost : {a b : List ℕ} {m n : ℕ} → n ≡ m → Edit a b m → Edit a b n
at_cost e s = rw e s

script : (a b : List ℕ) → Edit a b (dist a b)
script [] [] = nothing_left
script [] (y ∷ b) = at_cost (omega arith) (add y (script [] b))
script (x ∷ a) [] = at_cost (omega (arith, dist-nil a)) (delete x (script a []))
script (x ∷ a) (y ∷ b) =
    let u = delete x (script a (y ∷ b)) in
    let l = add y (script (x ∷ a) b) in
    let d = change x y (script a b) in
    elim (min_cases (dist a (y ∷ b) + 1) (min (dist (x ∷ a) b + 1) (dist a b + cost x y))) [
      | inl e ↦ at_cost e u
      | inr e ↦ (elim (min_cases (dist (x ∷ a) b + 1) (dist a b + cost x y)) [
        | inl f ↦ at_cost (e ∙ f) l
        | inr f ↦ at_cost (e ∙ f) d
      ])
    ]

-- No script costs less.

dist-delete : (x : ℕ) (a b : List ℕ) → dist (x ∷ a) b ≤ dist a b + 1
dist-delete x a [] = omega (arith, dist-nil a)
dist-delete x a (y ∷ b) = omega arith

dist-add : (y : ℕ) (a b : List ℕ) → dist a (y ∷ b) ≤ dist a b + 1
dist-add y [] b = omega arith
dist-add y (x ∷ a) b = omega arith

dist-le : {a b : List ℕ} {n : ℕ} → Edit a b n → dist a b ≤ n
dist-le nothing_left = omega arith
dist-le (delete {a = a} {b = b} x e) = omega (arith, dist-le e, dist-delete x a b)
dist-le (add {a = a} {b = b} y e) = omega (arith, dist-le e, dist-add y a b)
dist-le (change x y e) = omega (arith, dist-le e)

-- Scripts read backwards.

abbrev rev_onto : List ℕ → List ℕ → List ℕ
rev_onto [] back = back
rev_onto (x ∷ a) back = rev_onto a (x ∷ back)

rev_onto-rev_onto : (a b c : List ℕ) → rev_onto (rev_onto a b) c ≡ rev_onto b (a ++ c)
rev_onto-rev_onto [] b c = refl
rev_onto-rev_onto (x ∷ a) b c = rev_onto-rev_onto a (x ∷ b) c

backwards :
    {a b c d : List ℕ} {m n : ℕ}
    → Edit a b m
    → Edit c d n
    → Edit (rev_onto a c) (rev_onto b d) (m + n)
backwards nothing_left f = at_cost (omega arith) f
backwards (delete x e) f = at_cost (omega arith) (backwards e (delete x f))
backwards (add y e) f = at_cost (omega arith) (backwards e (add y f))
backwards (change x y e) f = at_cost (omega arith) (backwards e (change x y f))

twice : (a : List ℕ) → rev_onto (rev_onto a []) [] ≡ a
twice a = rev_onto-rev_onto a [] [] ∙ append-nil a

script_back : (a b : List ℕ) {n : ℕ} → Edit (rev_onto a []) (rev_onto b []) n → Edit a b n
script_back a b {n} e =
    let turned : Edit (rev_onto (rev_onto a []) []) (rev_onto (rev_onto b []) []) (n + 0) =
      backwards e nothing_left in
    at_cost (omega arith) (
      subst (λ t. Edit t b (n + 0)) (twice a)
        (subst (λ t. Edit (rev_onto (rev_onto a []) []) t (n + 0)) (twice b) turned))

length-rev_onto : (a back : List ℕ) → length (rev_onto a back) ≡ length a + length back
length-rev_onto [] back = omega arith
length-rev_onto (x ∷ a) back = omega (arith, length-rev_onto a (x ∷ back))

-- The rows of the table.

abbrev more : List ℕ → List ℕ → List ℕ → List ℕ
more a b [] = []
more a b (c ∷ rest) = dist a (c ∷ b) ∷ more a (c ∷ b) rest

next_row_lem :
    (x : ℕ) (a b rest : List ℕ)
    → next_row x (dist (x ∷ a) b) (dist a b ∷ more a b rest) rest ≡ more (x ∷ a) b rest
next_row_lem x a b [] = refl
next_row_lem x a b (c ∷ rest) = ap (λ r. dist (x ∷ a) (c ∷ b) ∷ r) (next_row_lem x a (c ∷ b) rest)

rows_lem :
    (i : ℕ) (a back b : List ℕ)
    → i ≡ length back
    → rows i a b (dist back [] ∷ more back [] b)
      ≡ dist (rev_onto a back) [] ∷ more (rev_onto a back) [] b
unfolding rows
rows_lem i [] back b e = refl
rows_lem i (x ∷ a) back b e =
    let row = dist back [] ∷ more back [] b in
    let count : i + 1 ≡ dist (x ∷ back) [] = omega (arith, e) in
    ap (λ k. rows (i + 1) a b (k ∷ next_row x k row b)) count
    ∙ ap (λ r. rows (i + 1) a b (dist (x ∷ back) [] ∷ r)) (next_row_lem x back [] b)
    ∙ rows_lem (i + 1) a (x ∷ back) b count

first_row :
    (i : ℕ) (back b : List ℕ) → i ≡ length back → count_from i b ≡ dist [] back ∷ more [] back b
first_row i back [] e = ap (λ n. n ∷ []) e
first_row i back (c ∷ b) e =
    rw e (ap (λ r. length back ∷ r) (first_row (length back + 1) (c ∷ back) b (omega arith)))

last_entry :
    (a back b : List ℕ)
    → get_or (dist a back ∷ more a back b) (length b) 0 ≡ dist a (rev_onto b back)
last_entry a back [] = refl
last_entry a back (c ∷ b) = last_entry a (c ∷ back) b

levenshtein-dist : (a b : List ℕ) → levenshtein a b ≡ dist (rev_onto a []) (rev_onto b [])
unfolding levenshtein
levenshtein-dist [] b = omega (arith, length-rev_onto b [])
levenshtein-dist (x ∷ a) [] =
    omega (arith, length-rev_onto (x ∷ a) [], dist-nil (rev_onto (x ∷ a) []))
levenshtein-dist (x ∷ a) (y ∷ b) =
    ap (λ r. get_or (rows 0 (x ∷ a) (y ∷ b) r) (length (y ∷ b)) 0) (first_row 0 [] (y ∷ b) refl)
    ∙ ap (λ r. get_or r (length (y ∷ b)) 0) (rows_lem 0 (x ∷ a) [] (y ∷ b) refl)
    ∙ last_entry (rev_onto (x ∷ a) []) [] (y ∷ b)

-- The distance that the two rolling rows compute is the least cost of a script of deletions, additions
-- and changes that edits the one text into the other: some script has that cost, and none has less.
pub levenshtein_least :
    (a b : List ℕ) → Edit a b (levenshtein a b) × ((n : ℕ) → Edit a b n → levenshtein a b ≤ n)
levenshtein_least a b = (
  at_cost (levenshtein-dist a b) (script_back a b (script (rev_onto a []) (rev_onto b []))),
  λ n e. omega (arith, levenshtein-dist a b, dist-le (backwards e nothing_left)),
)
