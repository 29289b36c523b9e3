-- ===== src/Memory/Graph.antt =====
-- igris-memory: the edges between memories and the walk over them. The rows of a query stand in the
-- order of the table.
use mathlib.Core.Option
use igrisv.Base.{
  ℕ, zero, suc, ◌+◌, ◌*◌, min, String, Bool, ◌&&◌, Option, none, some, List, [], ◌∷◌, ◌++◌, leb,
  if◌then◌else◌, length, nat_key, string_key, lookup, same, has,
}
use igrisv.Memory.{Memories, is_live, MemoryRecord}

pub record Edge (F : Type 0) : Type 0 where
  pub from_id : String
  pub to_id : String
  pub relation : String
  pub weight : F

abbrev add_row : String → List String → List String
add_row n rows = if has n rows then rows else n ∷ rows

module _ {F : Type 0} where
  abbrev same_key : Edge F → Edge F → Bool
  same_key a b = same a.from_id b.from_id && same a.to_id b.to_id && same a.relation b.relation

  unfoldable pub add_edge : List (Edge F) → Edge F → List (Edge F)
  add_edge [] e = e ∷ []
  add_edge (x ∷ xs) e = let rest = add_edge xs e in if same_key x e then e ∷ xs else x ∷ rest

  -- The `UNION` of the edges from an id and to it.
  unfoldable pub linked : List (Edge F) → String → List String
  linked [] id = []
  linked (e ∷ es) id =
      let rest = linked es id in
      let from = if same e.from_id id then add_row e.to_id rest else rest in
      if same e.to_id id then add_row e.from_id from else from

-- What the walk has seen, what it has still to visit, and what it has found.
pub record Walk : Type 0 where
  pub seen : List String
  pub queue : List (String × ℕ)
  pub out_ids : List String

-- The loop over the rows of a visited id at distance `d - 1`.
unfoldable pub visit : ℕ → List String → Walk → Walk
visit d [] w = w
visit d (n ∷ ns) w = visit d ns (
    if has n w.seen then w else record {
      seen = n ∷ w.seen;
      queue = w.queue ++ (n, d) ∷ [];
      out_ids = w.out_ids ++ n ∷ [];
    })

abbrev pub start : String → Walk
start id = record { seen = id ∷ []; queue = (id, 0) ∷ []; out_ids = [] }

module _ {F : Type 0} where
  -- What the loop does with the first of its queue.
  abbrev pub pop_front : List (Edge F) → ℕ → Walk → String × ℕ → List (String × ℕ) → Walk
  pop_front edges depth w (cur, d) rest =
      let left = record w { queue = rest } in
      if leb depth d then left else visit (d + 1) (linked edges cur) left

  -- `while let`; `none` if the fuel does not suffice.
  unfoldable pub walk : ℕ → List (Edge F) → ℕ → Walk → Option (List String)
  walk zero edges depth w = none
  walk (suc fuel) edges depth w = elim w.queue [
    | [] ↦ some w.out_ids
    | first ∷ rest ↦ walk fuel edges depth (pop_front edges depth w first rest)
  ]

  unfoldable pub neighbor_ids : List (Edge F) → String → ℕ → Option (List String)
  neighbor_ids edges id depth = walk (2 * length edges + 2) edges (min depth 3) (start id)

  -- The records of the ids that are there and live.
  abbrev pub found : Memories F → ℕ → List String → List (MemoryRecord F)
  found m now [] = []
  found m now (n ∷ ns) =
      let rest = found m now ns in
      elim (lookup n m) [ none ↦ rest | some r ↦ (if is_live now r then r ∷ rest else rest) ]

  unfoldable pub neighbors :
      Memories F → List (Edge F) → ℕ → String → ℕ → Option (List (MemoryRecord F))
  neighbors m edges now id depth = Option.map (found m now) (neighbor_ids edges id depth)
