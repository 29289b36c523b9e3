-- ===== src/Memory/Export.antt =====
-- igris-memory: the counts by kind, and the JSON form, which an empty store reads back. serde_json is a
-- parameter.
pub mod Tests
use igrisv.Base.{
  ℕ, String, Bool, ◌≡◌, ◌≢◌, refl, ap, sym, ◌∙◌, not, Option, none, some, List, [], ◌∷◌, ◌+◌, arith,
  unwrap_or, Each, nat_key, string_key, Assoc, lookup, insert, lookup-insert, Absent, Unique,
  values, keep, length, retain, kept, lookup-retain, retain-Unique, insert-Unique, lookup-Absent,
  Bool-cases, inl, inr,
}
use igrisv.Memory.{MemoryRecord, Memories, upsert, import_all, is_live, as_str, count, get}

abbrev pub total : Assoc String ℕ → ℕ
total [] = 0
total ((k, n) ∷ rest) = n + total rest

total-insert :
    (k : String) (n : ℕ) (m : Assoc String ℕ)
    → total (insert k (unwrap_or 0 (lookup k m) + n) m) ≡ total m + n
unfolding insert lookup
total-insert k n [] = omega arith
total-insert k n ((j, w) ∷ m) = ground (arith, total-insert k n m)

module _ {F : Type 0} where
  -- The rows of the statement, grouped by the text of their kind.
  unfoldable pub tally : List (MemoryRecord F) → Assoc String ℕ
  tally [] = []
  tally (r ∷ rs) =
      let rest = tally rs in
      insert (as_str r.kind) (unwrap_or 0 (lookup (as_str r.kind) rest) + 1) rest

  unfoldable pub count_by_type : Memories F → ℕ → Assoc String ℕ
  count_by_type m now = tally (keep (is_live now) (values m))

  -- `WHERE deleted = 0`
  abbrev pub exported : Memories F → List (MemoryRecord F)
  exported m = keep (λ r. not r.deleted) (values m)

  -- `none` is a serialization error.
  unfoldable pub export_json : (List (MemoryRecord F) → Option String) → Memories F → Option String
  export_json to_string_pretty m = to_string_pretty (exported m)

  abbrev pub import_parsed : Memories F → Option (List (MemoryRecord F)) → Option (ℕ × Memories F)
  import_parsed m none = none
  import_parsed m (some rs) = some (import_all m rs)

  unfoldable pub import_json :
      (String → Option (List (MemoryRecord F))) → Memories F → String → Option (ℕ × Memories F)
  import_json from_str m json = import_parsed m (from_str json)

  total-tally : (rs : List (MemoryRecord F)) → total (tally rs) ≡ length rs
  unfolding tally
  total-tally [] = refl
  total-tally (r ∷ rs) =
      let rest = total-tally rs in
      let more = total-insert (as_str r.kind) 1 (tally rs) in omega arith

  -- The counts by kind add up to the count of the live records.
  pub total-count_by_type : (m : Memories F) (now : ℕ) → total (count_by_type m now) ≡ count m now
  unfolding count_by_type count
  total-count_by_type m now = total-tally (keep (is_live now) (values m))

  -- The table's primary key is the id of the record.
  abbrev pub IsKeyed : Memories F → Type 0
  IsKeyed m = Unique m × Each (λ e. e.1.id ≡ e.0) m

  Each-insert :
      (r : MemoryRecord F) (m : Memories F)
      → Each (λ e. e.1.id ≡ e.0) m
      → Each (λ e. e.1.id ≡ e.0) (insert r.id r m)
  unfolding insert
  Each-insert r [] h = (refl, tt)
  Each-insert r ((j, w) ∷ m) h = ground (arith, Each-insert r m h.1)

  upsert-IsKeyed : (m : Memories F) (r : MemoryRecord F) → IsKeyed m → IsKeyed (upsert m r)
  unfolding upsert
  upsert-IsKeyed m r h =
      (ground (arith, h.0, insert-Unique r.id r m h.0), ground (arith, h.1, Each-insert r m h.1))

  -- An import leaves every record under its own id, once.
  pub import_all-IsKeyed :
      (rs : List (MemoryRecord F)) (m : Memories F) → IsKeyed m → IsKeyed (import_all m rs).1
  unfolding import_all
  import_all-IsKeyed [] m h = h
  import_all-IsKeyed (r ∷ rs) m h = import_all-IsKeyed rs (upsert m r) (upsert-IsKeyed m r h)

  Each-retain :
      (p : MemoryRecord F → Bool) (m : Memories F)
      → Each (λ e. e.1.id ≡ e.0) m
      → Each (λ e. e.1.id ≡ e.0) (retain p m)
  unfolding retain
  Each-retain p [] h = tt
  Each-retain p ((j, r) ∷ m) h = ground (arith, Each-retain p m h.1)

  values-retain :
      (p : MemoryRecord F → Bool) (m : Memories F) → keep p (values m) ≡ values (retain p m)
  unfolding retain
  values-retain p [] = refl
  values-retain p ((j, r) ∷ m) = ground (arith, values-retain p m)

  retain-IsKeyed : (p : MemoryRecord F → Bool) (m : Memories F) → IsKeyed m → IsKeyed (retain p m)
  unfolding retain
  retain-IsKeyed p m h = (retain-Unique p m h.0, Each-retain p m h.1)

  -- The key of a record of the table, or of one that is imported.
  abbrev found_in : Option (MemoryRecord F) → Option (MemoryRecord F) → Option (MemoryRecord F)
  found_in none old = old
  found_in (some r) old = some r

  still_apart :
      (j : String) (r : MemoryRecord F) (m acc : Memories F)
      → Absent j m
      → Each (λ e. lookup e.0 acc ≡ none) m
      → Each (λ e. lookup e.0 (insert j r acc) ≡ none) m
  still_apart j r [] acc h n = tt
  still_apart j r ((i, w) ∷ m) acc h n = (
    ground (arith, n.0, lookup-insert j i r acc, λ (e : j ≡ i). h.0 (sym e)),
    still_apart j r m acc h.1 n.1,
  )

  -- An import of a table's records into one that has none of their ids adds them as they are.
  lookup-import_all :
      (m acc : Memories F) (id : String)
      → IsKeyed m
      → Each (λ e. lookup e.0 acc ≡ none) m
      → lookup id (import_all acc (values m)).1 ≡ found_in (lookup id m) (lookup id acc)
  unfolding import_all lookup upsert
  lookup-import_all [] acc id h n = refl
  lookup-import_all ((j, r) ∷ m) acc id h n =
      let key : r.id ≡ j = h.1.0 in
      let fresh : lookup r.id acc ≡ none = rw key n.0 in
      let first : upsert acc r ≡ insert j r acc = ground (arith, fresh, key) in
      let later =
        lookup-import_all m (insert j r acc) id (h.0.1, h.1.1) (still_apart j r m acc h.0.0 n.1) in
      ap (λ a. lookup id (import_all a (values m)).1) first
      ∙ ground (arith, later, lookup-insert j id r acc, λ (e : j ≡ id). lookup-Absent j m h.0.0)

  imported-length :
      (rs : List (MemoryRecord F)) (acc : Memories F) → (import_all acc rs).0 ≡ length rs
  unfolding import_all
  imported-length [] acc = refl
  imported-length (r ∷ rs) acc =
      let rest = imported-length rs (upsert acc r) in ground (arith, rest)

  apart_empty : (m : Memories F) → Each (λ e. lookup {V = MemoryRecord F} e.0 [] ≡ none) m
  unfolding lookup
  apart_empty [] = tt
  apart_empty (e ∷ m) = (refl, apart_empty m)

  found_none : (o : Option (MemoryRecord F)) → found_in o none ≡ o
  found_none none = refl
  found_none (some r) = refl

  import_exported :
      (m : Memories F) (id : String)
      → IsKeyed m
      → lookup id (import_all [] (exported m)).1 ≡ kept (λ r. not r.deleted) (lookup id m)
  unfolding lookup
  import_exported m id h =
      let live = retain (λ r. not r.deleted) m in
      let e = lookup-import_all live [] id (retain-IsKeyed _ m h) (apart_empty live) in
      let k = lookup-retain (λ r. not r.deleted) id m h.0 in
      rw (values-retain (λ r. not r.deleted) m) (e ∙ ap (λ o. found_in o none) k ∙ found_none _)

  -- What an export prints, an empty store reads back: each id has the record that it had, except for
  -- those that were deleted, and the import returns their count.
  pub import_json-exported :
      (to_string_pretty : List (MemoryRecord F) → Option String)
      (from_str : String → Option (List (MemoryRecord F))) (m : Memories F) (json : String)
      → ((rs : List (MemoryRecord F)) (s : String)
          → to_string_pretty rs ≡ some s
          → from_str s ≡ some rs)
      → IsKeyed m
      → export_json to_string_pretty m ≡ some json
      → (m' : Memories F) × (import_json from_str [] json ≡ some (length (exported m), m'))
        × ((id : String) → get m' id ≡ kept (λ r. not r.deleted) (get m id))
  unfolding export_json import_json
  import_json-exported to_string_pretty from_str m json back keyed h =
      let rs = exported m in
      (
        (import_all [] rs).1,
        ground (arith, back rs json h, imported-length rs []),
        λ id. import_exported m id keyed,
      )
