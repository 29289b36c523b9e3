-- ===== src/Context/Budget.antt =====
-- igris-context: what a bundle holds.
use Prim.Native.String.{len}
use igrisv.Base.{
  ℕ, ◌+◌, ◌≤◌, ◌<◌, ◌≡◌, Bool, List, [], ◌∷◌, arith, inl, inr, ltb, Bool-cases, true, false, ltb→lt,
}
use igrisv.Memory.{MemoryRecord}
use igrisv.Context.{compile, fill, candidates}

module _ {F : Type 0} where
  -- The bytes of the contents.
  abbrev pub size : List (MemoryRecord F) → ℕ
  size [] = 0
  size (r ∷ rs) = len r.content + size rs

  -- The records that are taken stand among the candidates in their order, and no other would still fit.
  pub data Chosen (budget used : ℕ) : List (MemoryRecord F) → List (MemoryRecord F) → Type 0 where
    all_done : Chosen budget used [] []
    takes :
        {rs items : List (MemoryRecord F)} (r : MemoryRecord F)
        → Chosen budget used rs items
        → Chosen budget used (r ∷ rs) (r ∷ items)
    skips :
        {rs items : List (MemoryRecord F)} (r : MemoryRecord F)
        → budget < used + len r.content
        → Chosen budget used rs items
        → Chosen budget used (r ∷ rs) items

  fill_skips :
      (budget used : ℕ) (r : MemoryRecord F) (rs : List (MemoryRecord F))
      → ltb budget (used + len r.content) ≡ true
      → fill budget used (r ∷ rs) ≡ fill budget used rs
  unfolding fill
  fill_skips budget used r rs l = ground arith

  fill_takes :
      (budget used : ℕ) (r : MemoryRecord F) (rs : List (MemoryRecord F))
      → ltb budget (used + len r.content) ≡ false
      → let rest = fill budget (used + len r.content) rs in
        fill budget used (r ∷ rs) ≡ (r ∷ rest.0, rest.1)
  unfolding fill
  fill_takes budget used r rs l = ground arith

  fill-Chosen :
      (budget used : ℕ) (rs : List (MemoryRecord F))
      → used ≤ budget
      → let out = fill budget used rs in
        (out.1 ≡ used + size out.0) × (out.1 ≤ budget) × Chosen budget out.1 rs out.0
  unfolding fill
  fill-Chosen budget used [] h = (omega arith, h, all_done)
  fill-Chosen budget used (r ∷ rs) h = elim (Bool-cases (ltb budget (used + len r.content))) [
    | inl l ↦
        (let rest = fill-Chosen budget used rs h in
          rw (fill_skips budget used r rs l) (
            rest.0,
            rest.1,
            skips r (omega (arith, rest.0, ltb→lt budget (used + len r.content) l)) rest.2,
          ))
    | inr l ↦
        (let rest = fill-Chosen budget (used + len r.content) rs (ground arith) in
          rw (fill_takes budget used r rs l) (omega (arith, rest.0), rest.1, takes r rest.2))
  ]

  -- A bundle uses as many bytes as its contents have, and no more than the budget; it keeps the order of
  -- the candidates, and a candidate that is left out would not fit into what is left.
  pub compile-Chosen :
      (less : F → F → Bool) (records : List (MemoryRecord F)) (budget_chars : ℕ)
      → let bundle = compile less records budget_chars in
        (bundle.used_chars ≡ size bundle.items)
        × (bundle.used_chars ≤ budget_chars)
        × Chosen budget_chars bundle.used_chars (candidates less records) bundle.items
  unfolding compile
  compile-Chosen less records budget_chars =
      let out = fill-Chosen budget_chars 0 (candidates less records) (omega arith) in
      (omega (arith, out.0), out.1, out.2)
