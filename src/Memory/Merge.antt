-- ===== src/Memory/Merge.antt =====
-- igris-memory: what the table keeps of the writes to it.
use text.Mathlib.TextEquality.{eq_iff}
use igrisv.Base.{
  ℕ, ◌≤◌, String, ◌≡◌, refl, ◌⊎◌, inl, inr, true, some, List, [], ◌∷◌, arith, ltb, Bool-cases,
  Option-cases, String_discrete, Each, nat_key, string_key, lookup, lookup-insert,
  lookup-insert_self, same,
}
use igrisv.Memory.{
  upsert, as_str, parse, scope_str, parse_scope, may_sync, Memories, import_all, MemoryType,
  working, episodic, semantic, procedural, preference, goal, relationship, device, project, skill,
  PrivacyScope, local_only, hybrid, cloud_allowed, MemoryRecord,
}

parse-kind : (k : MemoryType) → parse (as_str k) ≡ k
unfolding parse
parse-kind working = refl
parse-kind episodic = refl
parse-kind semantic = refl
parse-kind procedural = refl
parse-kind preference = refl
parse-kind goal = refl
parse-kind relationship = refl
parse-kind device = refl
parse-kind project = refl
parse-kind skill = refl

parse-scope : (p : PrivacyScope) → parse_scope (scope_str p) ≡ p
unfolding parse_scope
parse-scope local_only = refl
parse-scope hybrid = refl
parse-scope cloud_allowed = refl

-- The kinds and scopes that are written as texts read back as they were; a scope that may leave the
-- device is read only from its own text, so a text that is damaged or unknown stays local.
pub parse-as_str :
    ((k : MemoryType) → parse (as_str k) ≡ k)
    × ((p : PrivacyScope) → parse_scope (scope_str p) ≡ p)
    × ((s : String) → may_sync (parse_scope s) ≡ true → (s ≡ "hybrid") ⊎ (s ≡ "cloud_allowed"))
unfolding parse parse_scope
parse-as_str = (
  parse-kind,
  parse-scope,
  λ s h. elim (Bool-cases (same s "hybrid")) [
    | inl e ↦ inl ((eq_iff s "hybrid").0 e)
    | inr n ↦ inr ((eq_iff s "cloud_allowed").0 (ground arith))
  ],
)

module _ {F : Type 0} where
  -- A row under the id that is at least as new as a time.
  abbrev pub HasFrom : Memories F → String → ℕ → Type 0
  HasFrom m id time = (r : MemoryRecord F) × (lookup id m ≡ some r) × (time ≤ r.updated_at)

  upsert-HasFrom : (m : Memories F) (r : MemoryRecord F) → HasFrom (upsert m r) r.id r.updated_at
  unfolding upsert
  upsert-HasFrom m r = elim (Option-cases (lookup r.id m)) [
    | inl n ↦ (r, ground (arith, lookup-insert_self r.id r m), omega arith)
    | inr o ↦ (elim (Bool-cases (ltb r.updated_at o.0.updated_at)) [
      | inl l ↦ (o.0, ground arith, ground arith)
      | inr l ↦ (r, ground (arith, lookup-insert_self r.id r m), omega arith)
    ])
  ]

  upsert_keeps :
      (m : Memories F) (r : MemoryRecord F) (id : String) (time : ℕ)
      → HasFrom m id time
      → HasFrom (upsert m r) id time
  unfolding upsert
  upsert_keeps m r id time h = elim (String_discrete r.id id) [
    | yes e ↦ (elim (Bool-cases (ltb r.updated_at h.0.updated_at)) [
      | inl l ↦ (h.0, ground (arith, h.1), h.2)
      | inr l ↦ (r, ground (arith, h.1, lookup-insert r.id id r m), ground (arith, h.2))
    ])
    | no n ↦ (h.0, ground (arith, h.1, lookup-insert r.id id r m), h.2)
  ]

  import_keeps :
      (rs : List (MemoryRecord F)) (m : Memories F) (id : String) (time : ℕ)
      → HasFrom m id time
      → HasFrom (import_all m rs).1 id time
  unfolding import_all
  import_keeps [] m id time h = h
  import_keeps (r ∷ rs) m id time h =
      import_keeps rs (upsert m r) id time (upsert_keeps m r id time h)

  -- No write is lost to an older one: after an import, each record's id has a row that is at least as new
  -- as the record, and each row that was there has one at least as new as it was.
  pub import-HasFrom :
      (rs : List (MemoryRecord F)) (m : Memories F)
      → Each (λ r. HasFrom (import_all m rs).1 r.id r.updated_at) rs
        × ((id : String) (time : ℕ) → HasFrom m id time → HasFrom (import_all m rs).1 id time)
  unfolding import_all
  import-HasFrom [] m = (tt, λ id time h. h)
  import-HasFrom (r ∷ rs) m = (
    (
      import_keeps rs (upsert m r) r.id r.updated_at (upsert-HasFrom m r),
      (import-HasFrom rs (upsert m r)).0,
    ),
    λ id time h. import_keeps rs (upsert m r) id time (upsert_keeps m r id time h),
  )
