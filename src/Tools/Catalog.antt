-- ===== src/Tools/Catalog.antt =====
-- igris-tools, `Catalog`: tools are described first and made on first use. A factory is its product.
use igrisv.Base.{
  String, Bool, true, false, not, none, some, List, [], ◌∷◌, ◌++◌, if◌then◌else◌, any, nat_key,
  string_key, Assoc, lookup, insert, remove, same, sort_by,
}
use igrisv.Tools.{
  Registry, by_name, new, register, knows, names, execute, execute_async, definitions_for, Ended,
  unknown, Finish, ToolDef, Tool,
}

pub record Catalog (W : Type 0) : Type 0 where
  pub registry : Registry W
  pub factories : Assoc String (ToolDef × Tool W)

abbrev pub named : String → List ToolDef → Bool
named n = any (λ d. same d.name n)

-- The second loop.
abbrev pub add_missing : List ToolDef → List ToolDef → List ToolDef
add_missing out [] = out
add_missing out (d ∷ ds) =
    if named d.name out then add_missing out ds else add_missing (out ++ d ∷ []) ds

module _ {W : Type 0} where
  abbrev pub empty_catalog : Catalog W
  empty_catalog = record { registry = new; factories = [] }

  unfoldable pub register_factory : Catalog W → ToolDef → Tool W → Catalog W
  register_factory c def t = record c { factories = insert def.name (def, t) c.factories }

  unfoldable pub ensure_loaded : Catalog W → String → Bool × Catalog W
  ensure_loaded c name =
      if knows c.registry name then (true, c) else elim (lookup name c.factories) [
        | none ↦ (false, record c { factories = remove name c.factories })
        | some f ↦ (
          true,
          record { registry = register c.registry f.1; factories = remove name c.factories },
        )
      ]

  abbrev with_registry : Catalog W → Ended × Registry W × W → Ended × Catalog W × W
  with_registry c (e, r, w) = (e, record c { registry = r }, w)

  unfoldable pub execute_loaded : Catalog W → String → String → W → Ended × Catalog W × W
  execute_loaded c name args w =
      let loaded = ensure_loaded c name in
      if not loaded.0
      then (unknown, loaded.1, w)
      else with_registry loaded.1 (execute loaded.1.registry name args w)

  unfoldable pub execute_loaded_async :
      Catalog W → String → String → Finish → String → W → Ended × Catalog W × W
  execute_loaded_async c name args finish panic_text w =
      let loaded = ensure_loaded c name in
      if not loaded.0
      then (unknown, loaded.1, w)
      else with_registry loaded.1 (execute_async loaded.1.registry name args finish panic_text w)

  -- The first loop: descriptions of the tools that are not made yet.
  abbrev pub described : Assoc String (ToolDef × Tool W) → List String → List ToolDef
  described factories [] = []
  described factories (n ∷ ns) =
      let rest = described factories ns in
      elim (lookup n factories) [ none ↦ rest | some f ↦ f.0 ∷ rest ]

  unfoldable pub visible : Catalog W → List String → List ToolDef
  visible c allowed =
      sort_by by_name
        (add_missing (described c.factories allowed) (definitions_for c.registry allowed))

  unfoldable pub loaded_names : Catalog W → List String
  loaded_names c = names c.registry
