-- ===== src/Reflex/Cache.antt =====
-- igris-reflex: the bounded cache of decisions and the engine over it. The map's entries stand in the
-- order of their insertion.
use igrisv.Base.{
  ℕ, ◌+◌, ◌%◌, ◌^◌, String, true, false, Option, none, some, List, [], ◌∷◌, ◌++◌, ltb,
  if◌then◌else◌, length, nat_key, string_key, Assoc, lookup, insert, remove,
}
use igrisv.Reflex.{normalize, default_policy, apply, Float, ReflexDecision, EscalationPolicy}
use igrisv.Reflex.Rules.{classify}

abbrev pub cache_cap : ℕ
cache_cap = 256

pub record DecisionCache (F : Type 0) : Type 0 where
  pub map : Assoc String (ReflexDecision F)
  pub order : List String
  pub hits : ℕ
  pub misses : ℕ

-- The loop that drops the oldest keys while there are too many.
unfoldable pub evict : {V : Type 0} → Assoc String V → List String → Assoc String V × List String
evict m [] = (m, [])
evict m (old ∷ rest) =
    let smaller = evict (remove old m) rest in
    if ltb cache_cap (length (old ∷ rest)) then smaller else (m, old ∷ rest)

module _ (float : Float) where
  abbrev pub new : DecisionCache float.f32
  new = record { map = []; order = []; hits = 0; misses = 0 }

  unfoldable pub get :
      DecisionCache float.f32 → String → Option (ReflexDecision float.f32) × DecisionCache float.f32
  get cache key = elim (lookup key cache.map) [
    | some d ↦ (some record d { cached = true }, record cache { hits = (cache.hits + 1) % 2 ^ 64 })
    | none ↦ (none, record cache { misses = (cache.misses + 1) % 2 ^ 64 })
  ]

  unfoldable pub put :
      DecisionCache float.f32 → String → ReflexDecision float.f32 → DecisionCache float.f32
  put cache key decision =
      let stored = record decision { cached = false } in
      elim (lookup key cache.map) [
        | some d ↦ record cache { map = insert key stored cache.map }
        | none ↦
            let left = evict cache.map (cache.order ++ key ∷ []) in
            record cache { map = insert key stored left.0; order = left.1 }
      ]

  unfoldable pub len : DecisionCache float.f32 → ℕ
  len cache = length cache.map

  pub record Reflex : Type 0 where
    pub policy : EscalationPolicy float.f32
    pub cache : DecisionCache float.f32

  abbrev pub new_reflex : Reflex
  new_reflex = record { policy = default_policy float; cache = new }

  -- The case of a key that the cache does not have.
  abbrev pub decided : EscalationPolicy float.f32 → String → ReflexDecision float.f32
  decided policy key = apply float policy (classify float key)

  unfoldable pub decide : (String → String) → Reflex → String → ReflexDecision float.f32 × Reflex
  decide to_lowercase r text =
      let key = normalize to_lowercase text in
      let seen = get r.cache key in
      elim seen.0 [
        | some hit ↦ (hit, record r { cache = seen.1 })
        | none ↦ let d = decided r.policy key in (d, record r { cache = put seen.1 key d })
      ]

  -- The function `decide` of the module, without a cache.
  unfoldable pub decide_once : (String → String) → String → ReflexDecision float.f32
  decide_once to_lowercase text = decided (default_policy float) (normalize to_lowercase text)
