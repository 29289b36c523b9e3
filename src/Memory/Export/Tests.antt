-- ===== src/Memory/Export/Tests.antt =====
-- A table that is exported, and read into an empty one.
use text.Mathlib.TextEquality.{eq_iff}
use igrisv.Base.{
  ℕ, String, ◌≡◌, refl, ap, inl, inr, Bool, true, false, not, ◌&&◌, Option, none, some, List, [],
  ◌∷◌, arith, ◌==◌, if◌then◌else◌, Bool-cases, same, length, kept, nat_key, string_key, lookup,
  insert, String_discrete,
}
use igrisv.Memory.{
  MemoryRecord, Memories, MemoryType, PrivacyScope, new_record, semantic, local_only, Provenance,
  get, import_all, upsert,
}
use igrisv.Memory.Export.{
  export_json, import_json, exported, import_json-exported, IsKeyed, import_all-IsKeyed,
}

abbrev noted : MemoryRecord ℕ
noted = new_record 80 50 "m" 5 semantic "build" "test" "d1"

abbrev is_semantic : MemoryType → Bool
is_semantic semantic = true
is_semantic _ = false

is_semantic_eq : (k : MemoryType) → is_semantic k ≡ true → semantic ≡ k
is_semantic_eq k h = ground arith

abbrev stays_local : PrivacyScope → Bool
stays_local local_only = true
stays_local _ = false

stays_local_eq : (p : PrivacyScope) → stays_local p ≡ true → local_only ≡ p
stays_local_eq k h = ground arith

abbrev is_none : {A : Type 0} → Option A → Bool
is_none none = true
is_none (some s) = false

abbrev is_nil : List String → Bool
is_nil [] = true
is_nil _ = false

abbrev is_origin : Provenance ℕ → Bool
is_origin p =
    same p.source "test"
    && same p.device_id "d1"
    && is_none p.agent
    && is_none p.tool
    && is_none p.model
    && p.confidence == 80

is_origin_eq : (p : Provenance ℕ) → is_origin p ≡ true → noted.provenance ≡ p
is_origin_eq p h = ground (arith, eq_iff p.source "test", eq_iff p.device_id "d1")

abbrev is_noted : MemoryRecord ℕ → Bool
is_noted r =
    same r.id "m"
    && is_semantic r.kind
    && same r.content "build"
    && same r.source "test"
    && r.created_at == 5
    && r.updated_at == 5
    && r.confidence == 80
    && r.importance == 50
    && stays_local r.privacy
    && same r.owner noted.owner
    && is_origin r.provenance
    && is_nil r.tags
    && same r.device_id "d1"
    && is_none r.expires_at
    && not r.deleted

is_noted_eq : (r : MemoryRecord ℕ) → is_noted r ≡ true → noted ≡ r
is_noted_eq r h = ground (
  arith,
  eq_iff r.id "m",
  eq_iff r.content "build",
  eq_iff r.source "test",
  eq_iff r.owner noted.owner,
  eq_iff r.device_id "d1",
  is_semantic_eq r.kind,
  stays_local_eq r.privacy,
  is_origin_eq r.provenance,
)

abbrev prints : List (MemoryRecord ℕ) → Option String
prints (r ∷ []) = if is_noted r then some "[m]" else none
prints _ = none

abbrev reads : String → Option (List (MemoryRecord ℕ))
reads s = some (noted ∷ [])

reads-prints : (rs : List (MemoryRecord ℕ)) (s : String) → prints rs ≡ some s → reads s ≡ some rs
reads-prints [] s h = absurd (ground arith)
reads-prints (r ∷ []) s h = elim (Bool-cases (is_noted r)) [
  | inl y ↦ ap (λ x. some (x ∷ [])) (is_noted_eq r y)
  | inr n ↦ absurd (ground arith)
]
reads-prints (r ∷ q ∷ rs) s h = absurd (ground arith)

abbrev table : Memories ℕ
table = (import_all [] (record noted { id = "gone"; deleted = true } ∷ noted ∷ [])).1

table-IsKeyed : IsKeyed table
table-IsKeyed =
    import_all-IsKeyed (record noted { id = "gone"; deleted = true } ∷ noted ∷ []) [] (tt, tt)

printed : export_json prints table ≡ some "[m]"
unfolding export_json import_all upsert lookup insert String_discrete
printed = refl

import_json-exported_example :
    (m' : Memories ℕ) × (import_json reads [] "[m]" ≡ some (length (exported table), m'))
    × ((id : String) → get m' id ≡ kept (λ r. not r.deleted) (get table id))
import_json-exported_example =
    import_json-exported prints reads table "[m]" reads-prints table-IsKeyed printed
