-- ===== src/Base/Maps.antt =====
-- `std::collections::HashMap` as an association list. A key's entry keeps its place when it is
-- written again. The program never relies on the order in which a map is walked.
use Prim.Native.Nat.{ℕ}
use Prim.Native.String.{String}
use mathlib.Core.Bool.{Bool, true, false}
use mathlib.Core.List.{List, [], ◌∷◌, map}
use mathlib.Core.Logic.{◌≢◌, ite, if_pos, if_neg}
use mathlib.Core.Option
use mathlib.Core.Option.{Option, none, some}
use mathlib.Core.Path.{◌≡◌, refl, sym, ap}
use native.Mathlib.Decide.{ℕ_discrete}
use native.Mathlib.Omega.{arith}
use igrisv.Base.Lists.{any, all}
use igrisv.Base.Tests.{String_discrete, if◌then◌else◌}

-- What a type needs to serve as a key.
pub record Key (K : Type 0) : Type 0 where
  pub dec : Discrete K

instance abbrev pub nat_key : Key ℕ
nat_key = record { dec = ℕ_discrete }

instance abbrev pub string_key : Key String
string_key = record { dec = String_discrete }

abbrev pub Assoc : Type 0 → Type 0 → Type 0
Assoc K V = List (K × V)

abbrev pub values : {K V : Type 0} → Assoc K V → List V
values = map (λ e. e.1)

-- What `retain` leaves of an entry.
abbrev pub kept : {V : Type 0} → (V → Bool) → Option V → Option V
kept p none = none
kept p (some v) = if p v then some v else none

module _ {K V : Type 0} ⦃key : Key K⦄ where
  -- `get`
  unfoldable pub lookup : K → Assoc K V → Option V
  lookup k [] = none
  lookup k ((j, v) ∷ m) = ite (key.dec j k) (some v) (lookup k m)

  -- `insert`
  unfoldable pub insert : K → V → Assoc K V → Assoc K V
  insert k v [] = (k, v) ∷ []
  insert k v ((j, w) ∷ m) = ite (key.dec j k) ((k, v) ∷ m) ((j, w) ∷ insert k v m)

  -- `remove`
  unfoldable pub remove : K → Assoc K V → Assoc K V
  remove k [] = []
  remove k ((j, w) ∷ m) = let rest = remove k m in ite (key.dec j k) rest ((j, w) ∷ rest)

  -- A write through `get_mut`.
  unfoldable pub update : K → (V → V) → Assoc K V → Assoc K V
  update k f [] = []
  update k f ((j, w) ∷ m) = ite (key.dec j k) ((j, f w) ∷ m) ((j, w) ∷ update k f m)

  -- `k` is no key of the map.
  abbrev pub Absent : K → Assoc K V → Type 0
  Absent k [] = Unit {0}
  Absent k ((j, v) ∷ m) = (j ≢ k) × Absent k m

  -- No key has two entries.
  abbrev pub Unique : Assoc K V → Type 0
  Unique [] = Unit {0}
  Unique ((k, v) ∷ m) = Absent k m × Unique m

  pub lookup-insert :
      (k j : K) (v : V) (m : Assoc K V)
      → lookup j (insert k v m) ≡ ite (key.dec k j) (some v) (lookup j m)
  unfolding lookup insert
  lookup-insert k j v [] = refl
  lookup-insert k j v ((i, w) ∷ m) = ground (arith, lookup-insert k j v m)

  pub lookup-insert_self : (k : K) (v : V) (m : Assoc K V) → lookup k (insert k v m) ≡ some v
  lookup-insert_self k v m = ground (arith, lookup-insert k k v m)

  pub lookup-insert_ne :
      (k j : K) (v : V) (m : Assoc K V) → k ≢ j → lookup j (insert k v m) ≡ lookup j m
  lookup-insert_ne k j v m n = ground (arith, lookup-insert k j v m)

  pub lookup-remove :
      (k j : K) (m : Assoc K V) → lookup j (remove k m) ≡ ite (key.dec k j) none (lookup j m)
  unfolding lookup remove
  lookup-remove k j [] = ground arith
  lookup-remove k j ((i, w) ∷ m) = ground (arith, lookup-remove k j m)

  pub lookup-update :
      (k j : K) (f : V → V) (m : Assoc K V)
      → lookup j (update k f m) ≡ ite (key.dec k j) (Option.map f (lookup j m)) (lookup j m)
  unfolding lookup update
  lookup-update k j f [] = ground arith
  lookup-update k j f ((i, w) ∷ m) = ground (arith, lookup-update k j f m)

  -- `retain`, by the values.
  unfoldable pub retain : (V → Bool) → Assoc K V → Assoc K V
  retain p [] = []
  retain p ((j, w) ∷ m) = let rest = retain p m in if p w then (j, w) ∷ rest else rest

  pub lookup-Absent : (k : K) (m : Assoc K V) → Absent k m → lookup k m ≡ none
  unfolding lookup
  lookup-Absent k [] h = refl
  lookup-Absent k ((j, w) ∷ m) h = ground (arith, lookup-Absent k m h.1)

  pub Absent-lookup : (k : K) (m : Assoc K V) → lookup k m ≡ none → Absent k m
  unfolding lookup
  Absent-lookup k [] h = tt
  Absent-lookup k ((j, w) ∷ m) h = ground (arith, Absent-lookup k m)

  Absent-retain : (p : V → Bool) (k : K) (m : Assoc K V) → Absent k m → Absent k (retain p m)
  unfolding retain
  Absent-retain p k [] h = tt
  Absent-retain p k ((j, w) ∷ m) h = ground (arith, Absent-retain p k m h.1)

  pub lookup-retain :
      (p : V → Bool) (k : K) (m : Assoc K V)
      → Unique m
      → lookup k (retain p m) ≡ kept p (lookup k m)
  unfolding lookup retain
  lookup-retain p k [] h = refl
  lookup-retain p k ((j, w) ∷ m) h = ground (
    arith,
    lookup-retain p k m h.1,
    λ (e : j ≡ k). lookup-Absent j m h.0,
    lookup-Absent j (retain p m) (Absent-retain p j m h.0),
  )

  pub retain-Unique : (p : V → Bool) (m : Assoc K V) → Unique m → Unique (retain p m)
  unfolding retain
  retain-Unique p [] h = tt
  retain-Unique p ((j, w) ∷ m) h = ground (arith, retain-Unique p m h.1, Absent-retain p j m h.0)

  Absent-insert : (k j : K) (v : V) (m : Assoc K V) → j ≢ k → Absent k m → Absent k (insert j v m)
  unfolding insert
  Absent-insert k j v [] n h = (n, tt)
  Absent-insert k j v ((i, w) ∷ m) n h = ground (arith, Absent-insert k j v m n h.1)

  pub insert-Unique : (k : K) (v : V) (m : Assoc K V) → Unique m → Unique (insert k v m)
  unfolding insert
  insert-Unique k v [] h = (tt, tt)
  insert-Unique k v ((i, w) ∷ m) h = elim (key.dec i k) [
    | yes e ↦ rw (if_pos _ e) (let e' : k ≡ i = sym e in rw e' h)
    | no n ↦ rw (if_neg _ n) (Absent-insert i k v m (λ e. n (sym e)) h.0, insert-Unique k v m h.1)
  ]

  Absent-remove : (k j : K) (m : Assoc K V) → Absent k m → Absent k (remove j m)
  unfolding remove
  Absent-remove k j [] h = tt
  Absent-remove k j ((i, w) ∷ m) h = ground (arith, Absent-remove k j m h.1)

  pub remove-Unique : (k : K) (m : Assoc K V) → Unique m → Unique (remove k m)
  unfolding remove
  remove-Unique k [] h = tt
  remove-Unique k ((i, w) ∷ m) h = ground (arith, remove-Unique k m h.1, Absent-remove i k m h.0)

  Absent-update : (k j : K) (f : V → V) (m : Assoc K V) → Absent k m → Absent k (update j f m)
  unfolding update
  Absent-update k j f [] h = tt
  Absent-update k j f ((i, w) ∷ m) h = ground (arith, Absent-update k j f m h.1)

  pub update-Unique : (k : K) (f : V → V) (m : Assoc K V) → Unique m → Unique (update k f m)
  unfolding update
  update-Unique k f [] h = tt
  update-Unique k f ((i, w) ∷ m) h =
      ground (arith, update-Unique k f m h.1, Absent-update i k f m h.0)

  -- A write through `values_mut`.
  unfoldable pub map_values : (V → V) → Assoc K V → Assoc K V
  map_values f [] = []
  map_values f ((j, w) ∷ m) = (j, f w) ∷ map_values f m

  pub lookup-map_values :
      (f : V → V) (k : K) (m : Assoc K V) → lookup k (map_values f m) ≡ Option.map f (lookup k m)
  unfolding lookup map_values
  lookup-map_values f k [] = ground arith
  lookup-map_values f k ((j, w) ∷ m) = ground (arith, lookup-map_values f k m)

  -- What holds of all values holds of each that a lookup finds, and the other way round.
  pub all-lookup :
      (p : V → Bool) (k : K) (v : V) (m : Assoc K V)
      → all p (values m) ≡ true
      → lookup k m ≡ some v
      → p v ≡ true
  unfolding lookup
  all-lookup p k v [] h e = cc
  all-lookup p k v ((j, w) ∷ m) h e = ground (arith, all-lookup p k v m)

  pub any-lookup :
      (p : V → Bool) (k : K) (v : V) (m : Assoc K V)
      → any p (values m) ≡ false
      → lookup k m ≡ some v
      → p v ≡ false
  unfolding lookup
  any-lookup p k v [] h e = cc
  any-lookup p k v ((j, w) ∷ m) h e = ground (arith, any-lookup p k v m)

  pub any-update :
      (p : V → Bool) (k : K) (f : V → V) (v : V) (m : Assoc K V)
      → any p (values m) ≡ false
      → lookup k m ≡ some v
      → any p (values (update k f m)) ≡ p (f v)
  unfolding lookup update
  any-update p k f v [] h e = cc
  any-update p k f v ((j, w) ∷ m) h e = ground (arith, any-update p k f v m)

  lookup-tail :
      (k j : K) (v w : V) (m : Assoc K V)
      → Absent k m
      → lookup j m ≡ some v
      → lookup j ((k, w) ∷ m) ≡ some v
  unfolding lookup
  lookup-tail k j v w m u e = elim (key.dec k j) [
    | yes same ↦ absurd (cc (lookup-Absent k m u, e, ap (λ i. lookup i m) same))
    | no other ↦ rw (if_neg _ other _ _) e
  ]

  -- If the value of every key passes, then all values pass.
  pub lookup-all :
      (p : V → Bool) (m : Assoc K V)
      → Unique m
      → ((k : K) (v : V) → lookup k m ≡ some v → p v ≡ true)
      → all p (values m) ≡ true
  unfolding lookup
  lookup-all p [] u h = refl
  lookup-all p ((j, w) ∷ m) u h =
      let here : p w ≡ true = h j w (ground arith) in
      let later : all p (values m) ≡ true =
        lookup-all p m u.1 (λ k v e. h k v (lookup-tail j k v w m u.0 e)) in
      ground (arith, here, later)

  pub lookup-any :
      (p : V → Bool) (m : Assoc K V)
      → Unique m
      → ((k : K) (v : V) → lookup k m ≡ some v → p v ≡ false)
      → any p (values m) ≡ false
  unfolding lookup
  lookup-any p [] u h = refl
  lookup-any p ((j, w) ∷ m) u h =
      let here : p w ≡ false = h j w (ground arith) in
      let later : any p (values m) ≡ false =
        lookup-any p m u.1 (λ k v e. h k v (lookup-tail j k v w m u.0 e)) in
      ground (arith, here, later)

pub ruleset assoc_laws = (lookup-insert, lookup-remove, lookup-update)
