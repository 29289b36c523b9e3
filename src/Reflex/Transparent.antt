-- ===== src/Reflex/Transparent.antt =====
-- igris-reflex: the cache is bounded and does not change the decisions.
use igrisv.Base.{
  ◌≤◌, String, ◌≡◌, sym, ap, ◌∙◌, inl, inr, false, none, some, [], ◌∷◌, ◌++◌, arith, Option-cases,
  String_discrete, length, nat_key, string_key, lookup, insert, Unique, insert-Unique,
  lookup-insert_ne, lookup-insert_self, ◌+◌, ◌%◌, ◌^◌, refl, true, List, Bool,
}
use igrisv.Reflex.{apply, Float, ReflexDecision, EscalationPolicy, normalize, default_policy}
use igrisv.Reflex.Rules.{classify}
use igrisv.Reflex.Cache.{
  get, cache_cap, evict, put, decided, DecisionCache, decide, Reflex, len, new_reflex, decide_once,
  cache_cap, new,
}
use igrisv.Reflex.Eviction.{keys, keys-insert_known, keys-insert_new, length-keys, Left, evict-Left}

module _ (float : Float) where
  -- The keys of the map are those of the queue, each once, and no more than the capacity.
  abbrev pub Valid : DecisionCache float.f32 → Type 0
  Valid c = (keys c.map ≡ c.order) × Unique c.map × (length c.map ≤ cache_cap)

  -- Each entry is the decision that its key gets without the cache.
  abbrev pub Coherent : EscalationPolicy float.f32 → DecisionCache float.f32 → Type 0
  Coherent limits c =
      (k : String) (d : ReflexDecision float.f32)
      → lookup k c.map ≡ some d
      → d ≡ decided float limits k

  apply-cached :
      (limits : EscalationPolicy float.f32) (d : ReflexDecision float.f32)
      → d.cached ≡ false
      → (apply float limits d).cached ≡ false
  unfolding apply
  apply-cached limits d h = ground arith

  classify-cached : (t : String) → (classify float t).cached ≡ false
  unfolding classify
  classify-cached t = ground arith

  uncached : (d : ReflexDecision float.f32) → d.cached ≡ false → record d { cached = false } ≡ d
  uncached d h = λ i. record d { cached = sym h i }

  pub stored-decided :
      (limits : EscalationPolicy float.f32) (k : String)
      → record (decided float limits k) { cached = false } ≡ decided float limits k
  stored-decided limits k =
      uncached (decided float limits k) (apply-cached limits (classify float k) (classify-cached k))

  put_hit :
      (c : DecisionCache float.f32) (k : String) (d e : ReflexDecision float.f32)
      → lookup k c.map ≡ some e
      → put float c k d ≡ record c { map = insert k (record d { cached = false }) c.map }
  unfolding put
  put_hit c k d e h = ground arith

  put_miss :
      (c : DecisionCache float.f32) (k : String) (d : ReflexDecision float.f32)
      → lookup k c.map ≡ none
      → put float c k d ≡ (
          let left = evict c.map (c.order ++ k ∷ []) in
          record c { map = insert k (record d { cached = false }) left.0; order = left.1 })
  unfolding put
  put_miss c k d h = ground arith

  -- What `evict` leaves, for the queue of a valid cache.
  left_lem :
      (c : DecisionCache float.f32) (k : String)
      → Valid c
      → lookup k c.map ≡ none
      → Left k c.map (evict c.map (c.order ++ k ∷ []))
  left_lem c k v n = rw (← v.0) (evict-Left k c.map v.1 v.2 n)

  pub put-Valid :
      (c : DecisionCache float.f32) (k : String) (d : ReflexDecision float.f32)
      → Valid c
      → Valid (put float c k d)
  put-Valid c k d v = elim (Option-cases (lookup k c.map)) [
    | inl n ↦
        let stored = record d { cached = false } in
        let left = evict c.map (c.order ++ k ∷ []) in
        let l = left_lem c k v n in
        let ks = keys-insert_new k stored left.0 l.3 ∙ l.0 in
        rw (put_miss c k d n) (
          ks,
          insert-Unique k stored left.0 l.1,
          omega (arith, length-keys (insert k stored left.0), ap length ks, l.2),
        )
    | inr f ↦
        let stored = record d { cached = false } in
        let same_keys = keys-insert_known k stored f.0 c.map f.1 in
        rw (put_hit c k d f.0 f.1) (
          same_keys ∙ v.0,
          insert-Unique k stored c.map v.1,
          omega (
            arith,
            length-keys (insert k stored c.map),
            length-keys c.map,
            ap length same_keys,
            v.2,
          ),
        )
  ]

  pub put-Coherent :
      (limits : EscalationPolicy float.f32) (c : DecisionCache float.f32) (k : String)
      → Valid c
      → Coherent limits c
      → lookup k c.map ≡ none
      → Coherent limits (put float c k (decided float limits k))
  put-Coherent limits c k v h n j d e =
      let left = evict c.map (c.order ++ k ∷ []) in
      let l = left_lem c k v n in
      let at : lookup j (insert k (record (decided float limits k) { cached = false }) left.0)
          ≡ some d =
        rw (put_miss c k (decided float limits k) n) at e in
      elim (String_discrete k j) [
        | yes p ↦
            let stored = record (decided float limits k) { cached = false } in
            ground (arith, lookup-insert_self k stored left.0, at, p, stored-decided limits k)
        | no q ↦ h j d (l.4 j d (sym (lookup-insert_ne k j _ left.0 q) ∙ at))
      ]

  -- What the cache gives back of a decision.
  abbrev flagged : Bool → ReflexDecision float.f32 → ReflexDecision float.f32
  flagged b d = record d { cached = b }

  abbrev hit_cache : DecisionCache float.f32 → DecisionCache float.f32
  hit_cache c = record c { hits = (c.hits + 1) % 2 ^ 64 }

  abbrev miss_cache : DecisionCache float.f32 → DecisionCache float.f32
  miss_cache c = record c { misses = (c.misses + 1) % 2 ^ 64 }

  decide_hit :
      (to_lowercase : String → String) (r : Reflex float) (text : String)
      (d : ReflexDecision float.f32)
      → lookup (normalize to_lowercase text) r.cache.map ≡ some d
      → decide float to_lowercase r text
        ≡ (record d { cached = true }, record r { cache = hit_cache r.cache })
  unfolding decide get
  decide_hit to_lowercase r text d h = ground arith

  decide_miss :
      (to_lowercase : String → String) (r : Reflex float) (text : String)
      → lookup (normalize to_lowercase text) r.cache.map ≡ none
      → let key = normalize to_lowercase text in
        let d = decided float r.policy key in
        decide float to_lowercase r text
        ≡ (d, record r { cache = put float (miss_cache r.cache) key d })
  unfolding decide get
  decide_miss to_lowercase r text h = ground arith

  -- A decision of the engine is the one that the text gets without the cache, except that one from the
  -- cache says so; the cache stays bounded and coherent.
  pub decide_step :
      (to_lowercase : String → String) (r : Reflex float) (text : String)
      → Valid r.cache
      → Coherent r.policy r.cache
      → let d = decided float r.policy (normalize to_lowercase text) in
        let out = decide float to_lowercase r text in
        (out.0 ≡ record d { cached = out.0.cached })
        × (out.1.policy ≡ r.policy)
        × Valid out.1.cache
        × Coherent r.policy out.1.cache
  decide_step to_lowercase r text v h =
      let key = normalize to_lowercase text in
      elim (Option-cases (lookup key r.cache.map)) [
        | inl n ↦
            let d = decided float r.policy key in
            let c = miss_cache r.cache in
            rw (decide_miss to_lowercase r text n)
              (refl, refl, put-Valid c key d v, put-Coherent r.policy c key v h n)
        | inr f ↦
            rw (decide_hit to_lowercase r text f.0 f.1)
              (ap (flagged true) (h key f.0 f.1), refl, v, h)
      ]

  -- The texts of a list, decided in turn.
  unfoldable pub after : (String → String) → Reflex float → List String → Reflex float
  after to_lowercase r [] = r
  after to_lowercase r (t ∷ ts) = after to_lowercase (decide float to_lowercase r t).1 ts

  after-keeps :
      (to_lowercase : String → String) (r : Reflex float) (ts : List String)
      → r.policy ≡ default_policy float
      → Valid r.cache
      → Coherent r.policy r.cache
      → let out = after to_lowercase r ts in
        (out.policy ≡ default_policy float) × Valid out.cache × Coherent out.policy out.cache
  unfolding after
  after-keeps to_lowercase r [] p v h = (p, v, h)
  after-keeps to_lowercase r (t ∷ ts) p v h =
      let s = decide_step to_lowercase r t v h in
      after-keeps to_lowercase (decide float to_lowercase r t).1 ts (s.1 ∙ p) s.2 (rw s.1 s.3)

  new-Valid : Valid (new float)
  new-Valid = (refl, tt, omega arith)

  new-Coherent : Coherent (default_policy float) (new float)
  unfolding lookup
  new-Coherent k d e = absurd (ground (arith, e))

  -- A new engine that has decided any texts holds at most 256 decisions, and its next decision is that
  -- of the stateless `decide`, except for the flag that says it comes from the cache.
  pub decide-after :
      (to_lowercase : String → String) (ts : List String) (text : String)
      → let r = after to_lowercase (new_reflex float) ts in
        let out = decide float to_lowercase r text in
        (len float r.cache ≤ 256)
        × (out.0 ≡ record (decide_once float to_lowercase text) { cached = out.0.cached })
  unfolding len decide_once
  decide-after to_lowercase ts text =
      let kept = after-keeps to_lowercase (new_reflex float) ts refl new-Valid new-Coherent in
      let s =
        decide_step to_lowercase (after to_lowercase (new_reflex float) ts) text kept.1 kept.2 in
      let key = normalize to_lowercase text in
      let b =
        (decide float to_lowercase (after to_lowercase (new_reflex float) ts) text).0.cached in
      (kept.1.2, s.0 ∙ ap (λ limits. flagged b (decided float limits key)) kept.0)
