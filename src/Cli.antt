-- ===== src/Cli.antt =====
-- apps/cli/src/main.rs: the command that runs a mission to its end.
pub mod Drive
pub mod Completion
pub mod Commands
pub mod Tests
use igrisv.Base.{
  ℕ, zero, suc, String, Option, none, some, List, [], ◌∷◌, ◌++◌, nat_key, string_key, lookup, ok,
  err, ◌⁀◌, decimal,
}
use igrisv.Orchestrator.{
  Mission, new, add, ready_tasks, begin, record_success, progress_pct, new_node, with_deps,
}

-- How the loop ends: a call of `unwrap` on an error is a panic.
pub data Driven : Type 0 where
  ended : Mission → List String → Driven
  panicked out_of_fuel : Driven

module _ (to_string : ℕ → String) where
  -- The body of the loop, with the line that it logs.
  unfoldable pub round : Mission → ℕ → Option (Mission × String)
  round m id =
      let b = begin to_string m id in
      elim b.0 [
        | err e ↦ none
        | ok _ ↦ elim (lookup id b.1.nodes) [
          | none ↦ none
          | some n ↦
              (let after = record_success b.1 id (some "cli-demo") in
                some (after, n.name ⁀ " -> " ⁀ decimal (progress_pct after) ⁀ "%"))
        ]
      ]

  -- `while let Some(id) = m.ready_tasks().into_iter().next()`
  unfoldable pub drive : ℕ → Mission → List String → Driven
  drive zero m log = out_of_fuel
  drive (suc fuel) m log = elim (ready_tasks m) [
    | [] ↦ ended m log
    | id ∷ _ ↦ elim (round m id) [ none ↦ panicked | some r ↦ drive fuel r.0 (log ++ r.1 ∷ []) ]
  ]

-- The mission of the demonstration, with the ids that are drawn for its tasks.
unfoldable pub demo : ℕ → ℕ → ℕ → Mission
demo a b c =
    (add (add (add new (new_node a "research")).1 (with_deps (new_node b "implement") (a ∷ []))).1
      (with_deps (new_node c "verify") (b ∷ []))).1
