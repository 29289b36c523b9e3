-- ===== src/Memory/Tests.antt =====
-- Tests of the memories, and instances of their theorems.
use mathlib.Core.Option
use text.Mathlib.TextEquality.{eq_iff}
use igrisv.Base.{
  ℕ, min, String, ◌≡◌, refl, some, List, [], ◌∷◌, String_discrete, Each, nat_key, string_key,
  lookup, insert, true, arith, has, ◌↔◌,
}
use igrisv.Memory.{upsert, new_record, import_all, semantic, MemoryRecord}
use igrisv.Memory.Graph.{Edge, linked, visit, walk, neighbor_ids}
use igrisv.Memory.Merge.{import-HasFrom, HasFrom}
use igrisv.Memory.Walk.{neighbor_ids_terminates}
use igrisv.Memory.Near.{Near}
use igrisv.Memory.Complete.{neighbor_ids_exact}

abbrev noted : String → ℕ → String → MemoryRecord ℕ
noted id now content = new_record 80 50 id now semantic content "test" "d1"

abbrev two_writes : List (MemoryRecord ℕ)
two_writes = noted "m" 5 "new" ∷ noted "m" 3 "old" ∷ []

newer_stays : Option.map (λ r. r.content) (lookup "m" (import_all [] two_writes).1) ≡ some "new"
unfolding import_all upsert lookup insert String_discrete
newer_stays = refl

-- At equal times the later write wins, whatever the devices are.
later_wins :
    Option.map
      (λ r. r.content)
      (lookup "m" (import_all [] (noted "m" 5 "first" ∷ noted "m" 5 "second" ∷ [])).1)
    ≡ some "second"
unfolding import_all upsert lookup insert String_discrete
later_wins = refl

abbrev joins : String → String → Edge ℕ
joins a b = record { from_id = a; to_id = b; relation = "about"; weight = 100 }

abbrev chain : List (Edge ℕ)
chain = joins "a" "b" ∷ joins "c" "b" ∷ joins "c" "d" ∷ joins "d" "e" ∷ joins "e" "a" ∷ []

two_steps : neighbor_ids chain "a" 1 ≡ some ("b" ∷ "e" ∷ [])
unfolding neighbor_ids walk visit linked
two_steps = refl

import-HasFrom_example :
    Each (λ r. HasFrom (import_all [] two_writes).1 r.id r.updated_at) two_writes
    × ((id : String) (time : ℕ)
        → HasFrom {F = ℕ} [] id time
        → HasFrom (import_all [] two_writes).1 id time)
import-HasFrom_example = import-HasFrom two_writes []

neighbor_ids_terminates_example : (out : List String) × (neighbor_ids chain "a" 2 ≡ some out)
neighbor_ids_terminates_example = neighbor_ids_terminates chain "a" 2

neighbor_ids_exact_example : Near chain "a" (min 1 3) "b" ↔ (has "b" ("b" ∷ "e" ∷ []) ≡ true)
neighbor_ids_exact_example =
    neighbor_ids_exact chain "a" 1 ("b" ∷ "e" ∷ []) "b" two_steps
      (λ e. absurd (ground (arith, eq_iff "a" "b", e)))
