-- ===== src/Memory/Walk.antt =====
-- igris-memory: the walk over the edges ends.
use text.Mathlib.TextEquality.{eq_iff}
use igrisv.Base.{
  ℕ, zero, suc, ◌+◌, ◌*◌, ◌≤◌, ◌<◌, String, ◌≡◌, inl, inr, true, false, not, some, List, [], ◌∷◌,
  arith, Bool-cases, length, keep, has, min, refl, ap, ◌∙◌, ◌⊎◌, ◌++◌, leb, length-append,
  length-keep-le,
}
use igrisv.Memory.Graph.{walk, linked, visit, neighbor_ids, Edge, Walk, start, pop_front}

module _ {F : Type 0} where
  -- The ids at the ends of edges.
  abbrev endpoints : List (Edge F) → List String
  endpoints [] = []
  endpoints (e ∷ es) = e.from_id ∷ e.to_id ∷ endpoints es

  length-endpoints : (es : List (Edge F)) → length (endpoints es) ≡ 2 * length es
  length-endpoints [] = omega arith
  length-endpoints (e ∷ es) = omega (arith, length-endpoints es)

  linked-endpoints :
      (es : List (Edge F)) (id n : String)
      → has n (linked es id) ≡ true
      → has n (endpoints es) ≡ true
  unfolding linked
  linked-endpoints [] id n h = absurd (ground arith)
  linked-endpoints (e ∷ es) id n h =
      ground (arith, linked-endpoints es id n, eq_iff e.from_id n, eq_iff e.to_id n)

-- The ids that are not seen yet.
abbrev unseen : List String → List String → List String
unseen seen = keep (λ n. not (has n seen))

unseen_le :
    (n : String) (seen ids : List String)
    → length (unseen (n ∷ seen) ids) ≤ length (unseen seen ids)
unseen_le n seen [] = omega arith
unseen_le n seen (x ∷ ids) = ground (arith, unseen_le n seen ids)

-- To see an id that is there leaves fewer unseen.
unseen_lt :
    (n : String) (seen ids : List String)
    → has n ids ≡ true
    → has n seen ≡ false
    → length (unseen (n ∷ seen) ids) + 1 ≤ length (unseen seen ids)
unseen_lt n seen [] h k = absurd (ground arith)
unseen_lt n seen (x ∷ ids) h k =
    ground (arith, unseen_le n seen ids, unseen_lt n seen ids, eq_iff x n, eq_iff n x)

-- What is left to do, at most.
abbrev left_of : List String → Walk → ℕ
left_of ids w = length w.queue + length (unseen w.seen ids)

-- The walk when an id is new at a distance.
abbrev pub entered : ℕ → String → Walk → Walk
entered d n w = record {
  seen = n ∷ w.seen;
  queue = w.queue ++ (n, d) ∷ [];
  out_ids = w.out_ids ++ n ∷ [];
}

pub visit_old :
    (d : ℕ) (n : String) (ns : List String) (w : Walk)
    → has n w.seen ≡ true
    → visit d (n ∷ ns) w ≡ visit d ns w
unfolding visit
visit_old d n ns w h = ap (visit d ns) (ground arith)

pub visit_new :
    (d : ℕ) (n : String) (ns : List String) (w : Walk)
    → has n w.seen ≡ false
    → visit d (n ∷ ns) w ≡ visit d ns (entered d n w)
unfolding visit
visit_new d n ns w h = ap (visit d ns) (ground arith)

visit_le :
    (ids : List String) (d : ℕ) (ns : List String) (w : Walk)
    → ((n : String) → has n ns ≡ true → has n ids ≡ true)
    → left_of ids (visit d ns w) ≤ left_of ids w
unfolding visit
visit_le ids d [] w h = omega arith
visit_le ids d (n ∷ ns) w h = elim (Bool-cases (has n w.seen)) [
  | inl s ↦ rw (visit_old d n ns w s) (visit_le ids d ns w (λ k e. h k (ground arith)))
  | inr s ↦ rw (visit_new d n ns w s) (
      omega (
        arith,
        visit_le ids d ns (entered d n w) (λ k e. h k (ground arith)),
        unseen_lt n w.seen ids (h n (ground (arith, eq_iff n n))) s,
        length-append w.queue ((n, d) ∷ []),
      ))
]

pub List-cases :
    {A : Type 0} (xs : List A) → (xs ≡ []) ⊎ ((x : A) × (rest : List A) × (xs ≡ x ∷ rest))
List-cases [] = inl refl
List-cases (x ∷ rest) = inr (x, rest, refl)

module _ {F : Type 0} where
  pop_front_lt :
      (edges : List (Edge F)) (depth : ℕ) (w : Walk) (first : String × ℕ) (rest : List (String × ℕ))
      → w.queue ≡ first ∷ rest
      → left_of (endpoints edges) (pop_front edges depth w first rest) + 1
        ≤ left_of (endpoints edges) w
  pop_front_lt edges depth w (cur, d) rest q =
      let left = record w { queue = rest } in
      elim (Bool-cases (leb depth d)) [
        | inl l ↦ rw l (omega (arith, ap length q))
        | inr l ↦ rw l (
            omega (
              arith,
              ap length q,
              visit_le (endpoints edges) (d + 1) (linked edges cur) left
                  (linked-endpoints edges cur),
            ))
      ]

  pub walk_done :
      (fuel : ℕ) (edges : List (Edge F)) (depth : ℕ) (w : Walk)
      → w.queue ≡ []
      → walk (suc fuel) edges depth w ≡ some w.out_ids
  unfolding walk
  walk_done fuel edges depth w q = ground arith

  pub walk_on :
      (fuel : ℕ) (edges : List (Edge F)) (depth : ℕ) (w : Walk) (first : String × ℕ)
      (rest : List (String × ℕ))
      → w.queue ≡ first ∷ rest
      → walk (suc fuel) edges depth w ≡ walk fuel edges depth (pop_front edges depth w first rest)
  unfolding walk
  walk_on fuel edges depth w first rest q = ground arith

  walk_ends :
      (fuel : ℕ) (edges : List (Edge F)) (depth : ℕ) (w : Walk)
      → left_of (endpoints edges) w < fuel
      → (out : List String) × (walk fuel edges depth w ≡ some out)
  walk_ends zero edges depth w h = absurd (omega arith)
  walk_ends (suc fuel) edges depth w h = elim (List-cases w.queue) [
    | inl q ↦ (w.out_ids, walk_done fuel edges depth w q)
    | inr q ↦
        (let next = pop_front edges depth w q.0 q.1 in
          let later =
            walk_ends fuel edges depth next
              (omega (arith, pop_front_lt edges depth w q.0 q.1 q.2)) in
          (later.0, walk_on fuel edges depth w q.0 q.1 q.2 ∙ later.1))
  ]

  -- The walk over the edges ends, whatever edges there are: each id is put into the queue at most once,
  -- so that twice the count of the edges and two more rounds are enough.
  pub neighbor_ids_terminates :
      (edges : List (Edge F)) (id : String) (depth : ℕ)
      → (out : List String) × (neighbor_ids edges id depth ≡ some out)
  unfolding neighbor_ids
  neighbor_ids_terminates edges id depth =
      walk_ends (2 * length edges + 2) edges (min depth 3) (start id) (
        omega (
          arith,
          length-endpoints edges,
          length-keep-le (λ n. not (has n (id ∷ []))) (endpoints edges),
        ))
