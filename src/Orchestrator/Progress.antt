-- ===== src/Orchestrator/Progress.antt =====
-- igris-orchestrator: the numbers that a mission reports.
use native.Mathlib.Nat.{div-lt_iff_lt-mul, le-div_iff_mul-le, pow-le-pow_right}
use igrisv.Base.{
  ℕ, zero, suc, ◌^◌, ◌≤◌, ◌≡◌, ◌↔◌, true, arith, leb, ◌==◌, if◌then◌else◌, all, nat_key, string_key,
  lookup, ◌-◌, ◌*◌, ◌/◌, ◌%◌, ◌<◌, min, max, refl, Bool, List, [], ◌∷◌, dec_lt, length, is_empty,
  keep, length-keep-le,
}
use igrisv.Orchestrator.{Mission, retry_delay, is_done, found_and, progress_pct, TaskNode}

module _ {A : Type 0} (p : A → Bool) where
  -- A filter keeps everything exactly if everything passes.
  length-keep-eq_iff : (xs : List A) → (length (keep p xs) ≡ length xs) ↔ (all p xs ≡ true)
  length-keep-eq_iff [] = (λ e. refl, λ e. refl)
  length-keep-eq_iff (x ∷ xs) = ground (arith, length-keep-eq_iff xs, length-keep-le p xs)

percent : (d o : ℕ) → d ≤ o → 0 < o → (d * 100 / o ≤ 100) × ((d * 100 / o ≡ 100) ↔ (d ≡ o))
percent d o h pos =
    let most : d * 100 / o < 101 =
      (div-lt_iff_lt-mul {x = d * 100} {y = 101} pos).1 (omega arith) in
    (
      omega (arith, most),
      (
        λ e.
            let least : 100 * o ≤ d * 100 =
              (le-div_iff_mul-le {x = 100} {y = d * 100} pos).0 (omega arith) in
            omega (arith, least),
        λ e.
            let least : 100 ≤ d * 100 / o =
              (le-div_iff_mul-le {x = 100} {y = d * 100} pos).1 (omega arith) in
            omega (arith, least, most),
      ),
    )

late_delay : (e : ℕ) → 5 ≤ e → max (min (min (2 ^ e) (2 ^ 64 - 1)) 30) 1 ≡ 30
late_delay e h = omega (arith, pow-le-pow_right {n = 2} (omega arith) h)

early_delay :
    (a : ℕ)
    → a < 6
    → max (min (min (2 ^ (a - 1)) (2 ^ 64 - 1)) 30) 1 ≡ (
        if leb a 1
        then 1
        else if a == 2
        then 2
        else if a == 3
        then 4
        else if a == 4
        then 8
        else if a == 5
        then 16
        else 30)
early_delay zero h = refl
early_delay (suc zero) h = refl
early_delay (suc (suc zero)) h = refl
early_delay (suc (suc (suc zero))) h = refl
early_delay (suc (suc (suc (suc zero)))) h = refl
early_delay (suc (suc (suc (suc (suc zero))))) h = refl
early_delay (suc (suc (suc (suc (suc (suc k)))))) h = absurd (omega arith)

-- The delay doubles from one second and stays at thirty from the sixth attempt on.
pub retry_delay_lem :
    (n : TaskNode)
    → retry_delay n ≡ (
        if leb n.attempts 1
        then 1
        else if n.attempts == 2
        then 2
        else if n.attempts == 3
        then 4
        else if n.attempts == 4
        then 8
        else if n.attempts == 5
        then 16
        else 30)
unfolding retry_delay
retry_delay_lem n = elim (dec_lt n.attempts 6) [
  | yes h ↦ early_delay n.attempts h
  | no h ↦ ground (arith, late_delay (n.attempts - 1))
]

in_order :
    (p : ℕ → Bool) (xs : List ℕ)
    → ((if is_empty xs then 100 else (length (keep p xs) * 100 / length xs) % 2 ^ 8) ≤ 100)
      × (((if is_empty xs then 100 else (length (keep p xs) * 100 / length xs) % 2 ^ 8) ≡ 100)
          ↔ (all p xs ≡ true))
in_order p [] = (omega arith, (λ e. refl, λ e. refl))
in_order p (x ∷ xs) =
    let whole = length-keep-eq_iff p (x ∷ xs) in
    let parts =
      percent (length (keep p (x ∷ xs))) (suc (length xs)) (length-keep-le p (x ∷ xs))
        (omega arith) in
    let small : (length (keep p (x ∷ xs)) * 100 / suc (length xs)) % 2 ^ 8
        ≡ length (keep p (x ∷ xs)) * 100 / suc (length xs) =
      omega (arith, parts.0) in
    rw small (parts.0, (λ e. whole.0 (parts.1.0 e), λ e. parts.1.1 (whole.1 e)))

-- The reported percentage is one: at most 100, and 100 exactly if every task of the order is done.
pub progress_pct_range :
    (m : Mission)
    → (progress_pct m ≤ 100)
      × ((progress_pct m ≡ 100)
          ↔ (all (λ id. found_and is_done (lookup id m.nodes)) m.order ≡ true))
unfolding progress_pct
progress_pct_range m = in_order (λ id. found_and is_done (lookup id m.nodes)) m.order
