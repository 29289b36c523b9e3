-- ===== src/Tools/Visibility.antt =====
-- igris-tools: which definitions a caller sees.
use text.Mathlib.TextEquality.{eq_iff}
use igrisv.Base.{
  String, ◌≡◌, refl, ap, inl, inr, Bool, true, false, ◌&&◌, ◌||◌, none, some, List, [], ◌∷◌, ◌++◌,
  arith, Option-cases, nat_key, string_key, Assoc, lookup, same, has, any-append, sym, ◌∙◌,
  any-sort_by, insert, remove, lookup-insert, lookup-remove,
}
use igrisv.Tools.{found_defs, ToolDef, Tool, by_name, register, knows, definitions_for}
use igrisv.Tools.Catalog.{Catalog, named, add_missing, ensure_loaded, described, visible}

abbrev is_known : {V : Type 0} → String → Assoc String V → Bool
is_known k m = elim (lookup k m) [ none ↦ false | some v ↦ true ]

named-append : (n : String) (xs ys : List ToolDef) → named n (xs ++ ys) ≡ (named n xs || named n ys)
named-append n xs ys = any-append (λ d. same d.name n) xs ys

add_missing-named :
    (n : String) (out ds : List ToolDef)
    → named n (add_missing out ds) ≡ (named n out || named n ds)
add_missing-named n out [] = ground arith
add_missing-named n out (d ∷ ds) = ground (
  arith,
  add_missing-named n out ds,
  add_missing-named n (out ++ d ∷ []) ds,
  named-append n out (d ∷ []),
  λ (e : d.name ≡ n). ap (λ k. named k out) e,
  eq_iff d.name n,
)

module _ {W : Type 0} where
  -- Tools and descriptions stand under the name that they bear.
  abbrev pub WellNamed : Catalog W → Type 0
  WellNamed c =
      ((k : String) (t : Tool W) → lookup k c.registry.inner ≡ some t → t.definition.name ≡ k)
      × ((k : String) (f : ToolDef × Tool W)
          → lookup k c.factories ≡ some f
          → (f.0.name ≡ k) × (f.1.definition.name ≡ k))

  -- Whether a tool is loaded or can be.
  abbrev pub offers : Catalog W → String → Bool
  offers c n = is_known n c.registry.inner || is_known n c.factories

  found_defs-named :
      (inner : Assoc String (Tool W))
      → ((k : String) (t : Tool W) → lookup k inner ≡ some t → t.definition.name ≡ k)
      → (n : String) (allowed : List String)
      → named n (found_defs inner allowed) ≡ (has n allowed && is_known n inner)
  found_defs-named inner h n [] = refl
  found_defs-named inner h n (a ∷ rest) = elim (Option-cases (lookup a inner)) [
    | inl e ↦ ground (arith, found_defs-named inner h n rest, eq_iff a n)
    | inr f ↦ ground (arith, found_defs-named inner h n rest, eq_iff a n, h a f.0 f.1)
  ]

  described-named :
      (factories : Assoc String (ToolDef × Tool W))
      → ((k : String) (f : ToolDef × Tool W) → lookup k factories ≡ some f → f.0.name ≡ k)
      → (n : String) (allowed : List String)
      → named n (described factories allowed) ≡ (has n allowed && is_known n factories)
  described-named factories h n [] = refl
  described-named factories h n (a ∷ rest) = elim (Option-cases (lookup a factories)) [
    | inl e ↦ ground (arith, described-named factories h n rest, eq_iff a n)
    | inr f ↦ ground (arith, described-named factories h n rest, eq_iff a n, h a f.0 f.1)
  ]

  -- In a catalog whose tools stand under their own names, a caller sees a definition of a name exactly
  -- if the name is allowed and its tool is loaded or can be.
  pub named-visible :
      (c : Catalog W) (allowed : List String) (n : String)
      → WellNamed c
      → named n (visible c allowed) ≡ (has n allowed && offers c n)
  unfolding visible definitions_for
  named-visible c allowed n h = ground (
    arith,
    any-sort_by (λ d. same d.name n) by_name
        (add_missing (described c.factories allowed) (definitions_for c.registry allowed)),
    add_missing-named n (described c.factories allowed) (definitions_for c.registry allowed),
    any-sort_by (λ d. same d.name n) by_name (found_defs c.registry.inner allowed),
    found_defs-named c.registry.inner h.0 n allowed,
    described-named c.factories (λ k f e. (h.1 k f e).0) n allowed,
  )

  -- What first use makes of a catalog, in each case.
  load_known :
      (c : Catalog W) (m : String) (t : Tool W)
      → lookup m c.registry.inner ≡ some t
      → ensure_loaded c m ≡ (true, c)
  unfolding ensure_loaded knows
  load_known c m t e = ground arith

  load_unknown :
      (c : Catalog W) (m : String)
      → lookup m c.registry.inner ≡ none
      → lookup m c.factories ≡ none
      → ensure_loaded c m ≡ (false, record c { factories = remove m c.factories })
  unfolding ensure_loaded knows
  load_unknown c m e g = ground arith

  load_made :
      (c : Catalog W) (m : String) (f : ToolDef × Tool W)
      → lookup m c.registry.inner ≡ none
      → lookup m c.factories ≡ some f
      → f.1.definition.name ≡ m
      → ensure_loaded c m ≡ (
        true,
        record {
          registry = record c.registry { inner = insert m f.1 c.registry.inner };
          factories = remove m c.factories;
        },
      )
  unfolding ensure_loaded knows register
  load_made c m f e g n = ground arith

  loaded-WellNamed : (c : Catalog W) (m : String) → WellNamed c → WellNamed (ensure_loaded c m).1
  loaded-WellNamed c m h = elim (Option-cases (lookup m c.registry.inner)) [
    | inr t ↦ rw (load_known c m t.0 t.1) h
    | inl e ↦ (elim (Option-cases (lookup m c.factories)) [
      | inl g ↦
          rw (load_unknown c m e g)
            (h.0, λ k f q. h.1 k f (ground (arith, lookup-remove m k c.factories)))
      | inr f ↦ rw (load_made c m f.0 e f.1 (h.1 m f.0 f.1).1) (
        (λ k t q. ground (arith, lookup-insert m k f.0.1 c.registry.inner, h.0 k t, h.1 m f.0 f.1)),
        λ k g q. h.1 k g (ground (arith, lookup-remove m k c.factories)),
      )
    ])
  ]

  loaded-offers :
      (c : Catalog W) (m n : String) → WellNamed c → offers (ensure_loaded c m).1 n ≡ offers c n
  loaded-offers c m n h = elim (Option-cases (lookup m c.registry.inner)) [
    | inr t ↦ ap (λ x. offers x.1 n) (load_known c m t.0 t.1)
    | inl e ↦ (elim (Option-cases (lookup m c.factories)) [
      | inl g ↦
          ap (λ x. offers x.1 n) (load_unknown c m e g)
          ∙ ground (arith, lookup-remove m n c.factories)
      | inr f ↦
          ap (λ x. offers x.1 n) (load_made c m f.0 e f.1 (h.1 m f.0 f.1).1)
          ∙ ground (arith, lookup-remove m n c.factories, lookup-insert m n f.0.1 c.registry.inner)
    ])
  ]

  -- Making a tool on first use is not observable in what a caller sees: in a catalog whose tools stand
  -- under their own names, the names of the visible definitions are the same before and after.
  pub visible-ensure_loaded :
      (c : Catalog W) (allowed : List String) (m n : String)
      → WellNamed c
      → named n (visible (ensure_loaded c m).1 allowed) ≡ named n (visible c allowed)
  visible-ensure_loaded c allowed m n h =
      named-visible (ensure_loaded c m).1 allowed n (loaded-WellNamed c m h)
      ∙ ap (λ b. has n allowed && b) (loaded-offers c m n h)
      ∙ sym (named-visible c allowed n h)
