-- ===== src/Memory/Near.antt =====
-- igris-memory: what the walk over the edges finds is near.
use mathlib.Core.Path.{subst}
use text.Mathlib.TextEquality.{eq_iff}
use igrisv.Base.{
  ℕ, zero, suc, ◌+◌, ◌*◌, ◌≤◌, min, String, ◌≡◌, inl, inr, true, some, List, [], ◌∷◌, arith,
  Bool-cases, length, Each, has, sym, ◌∙◌, leb, Each-append,
}
use igrisv.Memory.Graph.{walk, linked, neighbor_ids, visit, start, Edge, Walk, pop_front}
use igrisv.Memory.Walk.{walk_on, walk_done, List-cases, visit_old, visit_new, entered}

-- A path of `k` edges, in either direction of each.
pub data Leads {F : Type 0} (edges : List (Edge F)) (a : String) : ℕ → String → Type 0 where
  stay : Leads edges a 0 a
  on :
      {k : ℕ} {b : String} (c : String)
      → Leads edges a k b
      → has c (linked edges b) ≡ true
      → Leads edges a (k + 1) c

module _ {F : Type 0} where
  -- An id that some path reaches in so many edges.
  abbrev pub Near : List (Edge F) → String → ℕ → String → Type 0
  Near edges a depth b = (k : ℕ) × (k ≤ depth) × Leads edges a k b

  -- What holds of the walk from `a`.
  abbrev Sound : List (Edge F) → String → ℕ → Walk → Type 0
  Sound edges a depth w =
      Each (λ e. (e.1 ≤ depth) × Leads edges a e.1 e.0) w.queue
      × Each (Near edges a depth) w.out_ids

  visit-Sound :
      (edges : List (Edge F)) (a : String) (depth d : ℕ) (cur : String) (ns : List String)
      (w : Walk)
      → d + 1 ≤ depth
      → Leads edges a d cur
      → ((n : String) → has n ns ≡ true → has n (linked edges cur) ≡ true)
      → Sound edges a depth w
      → Sound edges a depth (visit (d + 1) ns w)
  unfolding visit
  visit-Sound edges a depth d cur [] w le p h s = s
  visit-Sound edges a depth d cur (n ∷ ns) w le p h s = elim (Bool-cases (has n w.seen)) [
    | inl o ↦
        rw (visit_old (d + 1) n ns w o)
          (visit-Sound edges a depth d cur ns w le p (λ k e. h k (ground arith)) s)
    | inr o ↦
        (let step : Leads edges a (d + 1) n = on n p (h n (ground (arith, eq_iff n n))) in
          rw (visit_new (d + 1) n ns w o) (
            visit-Sound edges a depth d cur ns (entered (d + 1) n w) le p
              (λ k e. h k (ground arith))
              (
                Each-append _ w.queue ((n, d + 1) ∷ []) s.0 ((le, step), tt),
                Each-append _ w.out_ids (n ∷ []) s.1 ((d + 1, le, step), tt),
              )))
  ]

  pop_front-Sound :
      (edges : List (Edge F)) (a : String) (depth : ℕ) (w : Walk) (first : String × ℕ)
      (rest : List (String × ℕ))
      → w.queue ≡ first ∷ rest
      → Sound edges a depth w
      → Sound edges a depth (pop_front edges depth w first rest)
  pop_front-Sound edges a depth w (cur, d) rest q s =
      let queued : Each (λ e. (e.1 ≤ depth) × Leads edges a e.1 e.0) ((cur, d) ∷ rest) =
        subst (Each (λ e. (e.1 ≤ depth) × Leads edges a e.1 e.0)) q s.0 in
      elim (Bool-cases (leb depth d)) [
        | inl l ↦ rw l (queued.1, s.1)
        | inr l ↦ rw l (
            visit-Sound edges a depth d cur (linked edges cur) (record w { queue = rest })
              (ground arith) queued.0.1 (λ n e. e) (queued.1, s.1))
      ]

  walk-Sound :
      (fuel : ℕ) (edges : List (Edge F)) (a : String) (depth : ℕ) (w : Walk) (out : List String)
      → Sound edges a depth w
      → walk fuel edges depth w ≡ some out
      → Each (Near edges a depth) out
  unfolding walk
  walk-Sound zero edges a depth w out s h = absurd (ground arith)
  walk-Sound (suc fuel) edges a depth w out s h = elim (List-cases w.queue) [
    | inl q ↦ subst (Each (Near edges a depth)) (ground (arith, walk_done fuel edges depth w q)) s.1
    | inr q ↦
        walk-Sound fuel edges a depth (pop_front edges depth w q.0 q.1) out
          (pop_front-Sound edges a depth w q.0 q.1 q.2 s)
          (sym (walk_on fuel edges depth w q.0 q.1 q.2) ∙ h)
  ]

  -- Every id that the walk finds is reached from the start by a path of edges that is no longer than the
  -- depth asked for, and never longer than three.
  pub neighbor_ids-Near :
      (edges : List (Edge F)) (id : String) (depth : ℕ) (out : List String)
      → neighbor_ids edges id depth ≡ some out
      → Each (Near edges id (min depth 3)) out
  unfolding neighbor_ids
  neighbor_ids-Near edges id depth out h =
      walk-Sound (2 * length edges + 2) edges id (min depth 3) (start id) out
        (((omega arith, stay), tt), tt) h
