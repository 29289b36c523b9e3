-- ===== src/Base/Sorting.antt =====
-- The standard stable sort, as insertion.
use mathlib.Core.Bool.{Bool, true, false, ◌&&◌, ◌||◌}
use mathlib.Core.Logic.{inl, inr}
use mathlib.Core.List.{List, [], ◌∷◌}
use mathlib.Core.Path.{◌≡◌, refl, ap, ◌∙◌}
use native.Mathlib.Omega.{arith}
use igrisv.Base.Tests.{if◌then◌else◌, Bool-cases}
use igrisv.Base.Lists.{Each, all, any, keep, length}
use Prim.Native.Nat.{suc}

-- Stable insertion: behind the entries that go strictly before `x`.
abbrev pub insert_by {ℓ} : {A : Type ℓ} → (A → A → Bool) → A → List A → List A
insert_by before x [] = x ∷ []
insert_by before x (y ∷ ys) =
    let rest = insert_by before x ys in if before y x then y ∷ rest else x ∷ y ∷ ys

-- `sort_by`, by whether the first of two entries goes strictly before the second.
unfoldable pub sort_by {ℓ} : {A : Type ℓ} → (A → A → Bool) → List A → List A
sort_by before [] = []
sort_by before (x ∷ xs) = insert_by before x (sort_by before xs)

module _ {A : Type 0} where
  pub all-insert_by :
      (p : A → Bool) (before : A → A → Bool) (x : A) (ys : List A)
      → all p (insert_by before x ys) ≡ (p x && all p ys)
  all-insert_by p before x [] = refl
  all-insert_by p before x (y ∷ ys) = ground (arith, all-insert_by p before x ys)

  pub all-sort_by :
      (p : A → Bool) (before : A → A → Bool) (xs : List A) → all p (sort_by before xs) ≡ all p xs
  unfolding sort_by
  all-sort_by p before [] = refl
  all-sort_by p before (x ∷ xs) =
      all-insert_by p before x (sort_by before xs) ∙ ap (λ b. p x && b) (all-sort_by p before xs)

  any-insert_by :
      (p : A → Bool) (before : A → A → Bool) (x : A) (ys : List A)
      → any p (insert_by before x ys) ≡ (p x || any p ys)
  any-insert_by p before x [] = refl
  any-insert_by p before x (y ∷ ys) = ground (arith, any-insert_by p before x ys)

  pub any-sort_by :
      (p : A → Bool) (before : A → A → Bool) (xs : List A) → any p (sort_by before xs) ≡ any p xs
  unfolding sort_by
  any-sort_by p before [] = refl
  any-sort_by p before (x ∷ xs) =
      any-insert_by p before x (sort_by before xs) ∙ ap (λ b. p x || b) (any-sort_by p before xs)

  length-insert_by :
      (before : A → A → Bool) (x : A) (ys : List A)
      → length (insert_by before x ys) ≡ suc (length ys)
  length-insert_by before x [] = refl
  length-insert_by before x (y ∷ ys) = ground (arith, length-insert_by before x ys)

  pub length-sort_by :
      (before : A → A → Bool) (xs : List A) → length (sort_by before xs) ≡ length xs
  unfolding sort_by
  length-sort_by before [] = refl
  length-sort_by before (x ∷ xs) =
      length-insert_by before x (sort_by before xs) ∙ ap suc (length-sort_by before xs)

  -- How many entries pass is not changed by the sort.
  length-keep-insert_by :
      (p : A → Bool) (before : A → A → Bool) (x : A) (ys : List A)
      → length (keep p (insert_by before x ys)) ≡ length (keep p (x ∷ ys))
  length-keep-insert_by p before x [] = refl
  length-keep-insert_by p before x (y ∷ ys) = ground (arith, length-keep-insert_by p before x ys)

  pub length-keep-sort_by :
      (p : A → Bool) (before : A → A → Bool) (xs : List A)
      → length (keep p (sort_by before xs)) ≡ length (keep p xs)
  unfolding sort_by
  length-keep-sort_by p before [] = refl
  length-keep-sort_by p before (x ∷ xs) =
      ground (
        arith,
        length-keep-insert_by p before x (sort_by before xs),
        length-keep-sort_by p before xs,
      )

  -- No entry would go strictly before the one in front of it.
  abbrev pub IsSorted : (A → A → Bool) → List A → Type 0
  IsSorted before [] = Unit {0}
  IsSorted before (x ∷ []) = Unit {0}
  IsSorted before (x ∷ y ∷ ys) = (before y x ≡ false) × IsSorted before (y ∷ ys)

  insert_by-IsSorted :
      (before : A → A → Bool) (x : A) (ys : List A)
      → ((a b : A) → before a b ≡ true → before b a ≡ false)
      → IsSorted before ys
      → IsSorted before (insert_by before x ys)
  insert_by-IsSorted before x [] asym h = tt
  insert_by-IsSorted before x (y ∷ []) asym h = elim (Bool-cases (before y x)) [
    | inl e ↦ rw e (asym y x e, tt)
    | inr e ↦ rw e (e, tt)
  ]
  insert_by-IsSorted before x (y ∷ z ∷ ys) asym h =
      let later = insert_by-IsSorted before x (z ∷ ys) asym h.1 in
      elim (Bool-cases (before y x)) [
        | inr e ↦ rw e (e, h)
        | inl e ↦ elim (Bool-cases (before z x)) [
          | inl f ↦ rw (e, f) (h.0, rw f at later)
          | inr f ↦ rw (e, f) (asym y x e, (f, h.1))
        ]
      ]

  pub sort_by-IsSorted :
      (before : A → A → Bool) (xs : List A)
      → ((a b : A) → before a b ≡ true → before b a ≡ false)
      → IsSorted before (sort_by before xs)
  unfolding sort_by
  sort_by-IsSorted before [] asym = tt
  sort_by-IsSorted before (x ∷ xs) asym =
      insert_by-IsSorted before x (sort_by before xs) asym (sort_by-IsSorted before xs asym)

  Each-insert_by :
      (P : A → Type 0) (before : A → A → Bool) (x : A) (ys : List A)
      → P x
      → Each P ys
      → Each P (insert_by before x ys)
  Each-insert_by P before x [] h k = (h, tt)
  Each-insert_by P before x (y ∷ ys) h k = elim (Bool-cases (before y x)) [
    | inl e ↦ rw e (k.0, Each-insert_by P before x ys h k.1)
    | inr e ↦ rw e (h, k)
  ]

  pub Each-sort_by :
      (P : A → Type 0) (before : A → A → Bool) (xs : List A)
      → Each P xs
      → Each P (sort_by before xs)
  unfolding sort_by
  Each-sort_by P before [] h = tt
  Each-sort_by P before (x ∷ xs) h =
      Each-insert_by P before x (sort_by before xs) h.0 (Each-sort_by P before xs h.1)
