-- ===== src/Reflex/Eviction.antt =====
-- igris-reflex: what dropping the oldest keys leaves of the cache.
use igrisv.Base.{
  ◌≤◌, String, ◌≡◌, refl, inl, inr, none, some, List, [], ◌∷◌, ◌++◌, map, arith, ltb, Bool-cases,
  length, nat_key, string_key, Assoc, lookup, insert, remove, Absent, Unique, lookup-Absent, true,
  length-append,
}
use igrisv.Reflex.Cache.{cache_cap, evict}

abbrev pub keys : {V : Type 0} → Assoc String V → List String
keys = map (λ e. e.0)

module _ {V : Type 0} where
  pub keys-insert_known :
      (k : String) (v w : V) (m : Assoc String V)
      → lookup k m ≡ some w
      → keys (insert k v m) ≡ keys m
  unfolding lookup insert
  keys-insert_known k v w [] h = absurd (ground (arith, h))
  keys-insert_known k v w ((j, x) ∷ m) h = ground (arith, keys-insert_known k v w m)

  pub keys-insert_new :
      (k : String) (v : V) (m : Assoc String V)
      → lookup k m ≡ none
      → keys (insert k v m) ≡ keys m ++ k ∷ []
  unfolding lookup insert
  keys-insert_new k v [] h = refl
  keys-insert_new k v ((j, x) ∷ m) h = ground (arith, keys-insert_new k v m)

  remove-Absent : (k : String) (m : Assoc String V) → Absent k m → remove k m ≡ m
  unfolding remove
  remove-Absent k [] h = refl
  remove-Absent k ((j, w) ∷ m) h = ground (arith, remove-Absent k m h.1)

  pub length-keys : (m : Assoc String V) → length (keys m) ≡ length m
  length-keys [] = refl
  length-keys (e ∷ m) = omega (arith, length-keys m)

  evict_few : (m : Assoc String V) (ks : List String) → length ks ≤ cache_cap → evict m ks ≡ (m, ks)
  unfolding evict
  evict_few m [] h = refl
  evict_few m (k ∷ ks) h = ground arith

  evict_full :
      (m : Assoc String V) (k : String) (ks : List String)
      → ltb cache_cap (length (k ∷ ks)) ≡ true
      → evict m (k ∷ ks) ≡ evict (remove k m) ks
  unfolding evict
  evict_full m k ks h = ground arith

  remove-head : (j : String) (w : V) (m : Assoc String V) → Absent j m → remove j ((j, w) ∷ m) ≡ m
  unfolding remove
  remove-head j w m h = ground (arith, remove-Absent j m h)

  lookup-tail :
      (j k : String) (w d : V) (m : Assoc String V)
      → Absent j m
      → lookup k m ≡ some d
      → lookup k ((j, w) ∷ m) ≡ some d
  unfolding lookup
  lookup-tail j k w d m a e = ground (arith, λ (p : j ≡ k). lookup-Absent j m a)

  -- What is left of the map when a key has been put behind the others.
  abbrev pub Left : String → Assoc String V → Assoc String V × List String → Type 0
  Left key m left =
      (keys left.0 ++ key ∷ [] ≡ left.1)
      × Unique left.0
      × (length left.1 ≤ cache_cap)
      × (lookup key left.0 ≡ none)
      × ((k : String) (d : V) → lookup k left.0 ≡ some d → lookup k m ≡ some d)

  lookup_tail_none :
      (j k : String) (w : V) (m : Assoc String V) → lookup k ((j, w) ∷ m) ≡ none → lookup k m ≡ none
  unfolding lookup
  lookup_tail_none j k w m h = ground arith

  pub evict-Left :
      (key : String) (m : Assoc String V)
      → Unique m
      → length m ≤ cache_cap
      → lookup key m ≡ none
      → Left key m (evict m (keys m ++ key ∷ []))
  evict-Left key [] u s n =
      rw (evict_few [] (key ∷ []) (omega arith)) (refl, tt, omega arith, n, λ k d e. e)
  evict-Left key ((j, w) ∷ m) u s n =
      elim (Bool-cases (ltb cache_cap (length (keys ((j, w) ∷ m) ++ key ∷ [])))) [
        | inl full ↦
            let rest = keys m ++ key ∷ [] in
            let few : length rest ≤ cache_cap =
              omega (arith, length-append (keys m) (key ∷ []), length-keys m) in
            rw (evict_full ((j, w) ∷ m) j rest full, remove-head j w m u.0, evict_few m rest few)
              (refl, u.1, few, lookup_tail_none j key w m n, λ k d e. lookup-tail j k w d m u.0 e)
        | inr room ↦
            rw (evict_few ((j, w) ∷ m) (keys ((j, w) ∷ m) ++ key ∷ []) (ground arith))
              (refl, u, ground arith, n, λ k d e. e)
      ]
