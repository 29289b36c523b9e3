-- ===== src/Context.antt =====
-- crates/igris-context/src/lib.rs: memories put into a bundle of a bounded size. `F` is `f32`, and
-- `less` its comparison, false where one side is no number.
pub mod Budget
pub mod Tests
use Prim.Native.String.{len}
use igrisv.Base.{ℕ, ◌+◌, Bool, List, [], ◌∷◌, ltb, if◌then◌else◌, same, sort_by, true, false}
use igrisv.Memory.{MemoryRecord}

pub record ContextBundle (F : Type 0) : Type 0 where
  pub items : List (MemoryRecord F)
  pub budget_chars : ℕ
  pub used_chars : ℕ

module _ {F : Type 0} where
  -- `dedup_by`: a record goes if its id is that of the last that stays.
  abbrev pub dedup_after : MemoryRecord F → List (MemoryRecord F) → List (MemoryRecord F)
  dedup_after last [] = []
  dedup_after last (r ∷ rs) = elim (same r.id last.id) [
    | true ↦ dedup_after last rs
    | false ↦ r ∷ dedup_after r rs
  ]

  abbrev pub dedup : List (MemoryRecord F) → List (MemoryRecord F)
  dedup [] = []
  dedup (r ∷ rs) = r ∷ dedup_after r rs

  -- The loop, with what is used so far: the records it takes, and what is used in the end.
  unfoldable pub fill : ℕ → ℕ → List (MemoryRecord F) → List (MemoryRecord F) × ℕ
  fill budget used [] = ([], used)
  fill budget used (r ∷ rs) = elim (ltb budget (used + len r.content)) [
    | true ↦ fill budget used rs
    | false ↦ let rest = fill budget (used + len r.content) rs in (r ∷ rest.0, rest.1)
  ]

  abbrev pub candidates : (F → F → Bool) → List (MemoryRecord F) → List (MemoryRecord F)
  candidates less records = dedup (sort_by (λ a b. less b.importance a.importance) records)

  unfoldable pub compile : (F → F → Bool) → List (MemoryRecord F) → ℕ → ContextBundle F
  compile less records budget_chars =
      let filled = fill budget_chars 0 (candidates less records) in
      record { items = filled.0; budget_chars = budget_chars; used_chars = filled.1 }
