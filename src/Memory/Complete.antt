-- ===== src/Memory/Complete.antt =====
-- igris-memory: the walk over the edges misses nothing near.
use text.Mathlib.TextEquality.{eq_iff}
use mathlib.Core.List.{append-nil, append_assoc}
use igrisv.Base.{
  ℕ, ◌+◌, ◌≤◌, String, ◌≡◌, refl, sym, ap, ◌∙◌, inl, inr, true, ◌||◌, List, [], ◌∷◌, ◌++◌, arith,
  Bool-cases, same, has, zero, suc, ◌<◌, Each, ◌≢◌, ◌↔◌, ◌⊎◌, some, dec_lt, ◌*◌, min, false, leb,
  length,
}
use igrisv.Memory.Graph.{Walk, linked, visit, Edge, pop_front, walk, start, neighbor_ids}
use igrisv.Memory.Walk.{visit_old, visit_new, entered, List-cases, walk_on, walk_done}
use igrisv.Memory.Near.{Leads, stay, on, Near, neighbor_ids-Near}

-- Entries of the queue at one distance.
abbrev at : ℕ → List String → List (String × ℕ)
at d [] = []
at d (x ∷ xs) = (x, d) ∷ at d xs

at-append : (d : ℕ) (xs ys : List String) → at d (xs ++ ys) ≡ at d xs ++ at d ys
at-append d [] ys = refl
at-append d (x ∷ xs) ys = ap (◌∷◌ (x, d)) (at-append d xs ys)

has-append : (x : String) (xs ys : List String) → has x (xs ++ ys) ≡ (has x xs || has x ys)
has-append x [] ys = refl
has-append x (z ∷ xs) ys = ground (arith, has-append x xs ys)

-- What a visit of the rows `ns` at distance `d` makes of `w`.
record Visited (d : ℕ) (ns : List String) (w v : Walk) : Type 0 where
  new : List String
  queue : v.queue ≡ w.queue ++ at d new
  out : v.out_ids ≡ w.out_ids ++ new
  seen : (x : String) → has x v.seen ≡ (has x new || has x w.seen)
  all_seen : (x : String) → has x ns ≡ true → has x v.seen ≡ true

visit-Visited : (d : ℕ) (ns : List String) (w : Walk) → Visited d ns w (visit d ns w)
unfolding visit
visit-Visited d [] w = record {
  new = [];
  queue = sym (append-nil w.queue);
  out = sym (append-nil w.out_ids);
  seen = λ x. refl;
  all_seen = λ x h. ground arith;
}
visit-Visited d (n ∷ ns) w = elim (Bool-cases (has n w.seen)) [
  | inl o ↦ rw (visit_old d n ns w o) (
      let r = visit-Visited d ns w in
      record {
        new = r.new;
        queue = r.queue;
        out = r.out;
        seen = r.seen;
        all_seen = λ x h. ground (arith, r.seen x, r.all_seen x, eq_iff n x);
      })
  | inr o ↦ rw (visit_new d n ns w o) (
      let r = visit-Visited d ns (entered d n w) in
      record {
        new = n ∷ r.new;
        queue = r.queue ∙ append_assoc w.queue ((n, d) ∷ []) (at d r.new);
        out = r.out ∙ append_assoc w.out_ids (n ∷ []) r.new;
        seen = λ x. ground (arith, r.seen x);
        all_seen = λ x h. ground (arith, r.seen x, r.all_seen x);
      })
]

module _ {F : Type 0} (edges : List (Edge F)) (a : String) where
  -- Between two rounds: `here` waits at distance `d`, `beyond` at the next one.
  record Level (d : ℕ) (here beyond : List String) (w : Walk) : Type 0 where
    queue : w.queue ≡ at d here ++ at (d + 1) beyond
    near : (k : ℕ) (x : String) → k ≤ d → Leads edges a k x → has x w.seen ≡ true
    shut :
        (x y : String)
        → has x w.seen ≡ true
        → has y (linked edges x) ≡ true
        → (has x here || has x beyond || has y w.seen) ≡ true
    inner :
        (k : ℕ) (x y : String)
        → k ≤ d
        → Leads edges a k x
        → has y (linked edges x) ≡ true
        → (has x here || has y w.seen) ≡ true

  -- All that is near is seen.
  abbrev Full : ℕ → Walk → Type 0
  Full depth w = (k : ℕ) (x : String) → k ≤ depth → Leads edges a k x → has x w.seen ≡ true

  -- What is seen is found, but for the start.
  abbrev Listed : Walk → Type 0
  Listed w = (x : String) → has x w.seen ≡ true → (same a x || has x w.out_ids) ≡ true

  linked-same :
      (cur x y : String)
      → has y (linked edges x) ≡ true
      → same cur x ≡ true
      → has y (linked edges cur) ≡ true
  linked-same cur x y l e = rw ((eq_iff cur x).0 e) l

  visit-Level :
      (d : ℕ) (cur : String) (here beyond : List String) (w : Walk)
      → Level d (cur ∷ here) beyond w
      → (more : List String) × Level d here
          (beyond ++ more)
          (visit (d + 1) (linked edges cur) (record w { queue = at d here ++ at (d + 1) beyond }))
  visit-Level d cur here beyond w h =
      let left = record w { queue = at d here ++ at (d + 1) beyond } in
      let r = visit-Visited (d + 1) (linked edges cur) left in
      (
        r.new,
        record {
          queue =
              r.queue
              ∙ append_assoc (at d here) (at (d + 1) beyond) (at (d + 1) r.new)
              ∙ ap (λ q. at d here ++ q) (sym (at-append (d + 1) beyond r.new));
          near = λ k x le p. ground (arith, h.near k x le p, r.seen x);
          shut = λ x y s l. ground (
            arith,
            h.shut x y,
            r.seen x,
            r.seen y,
            r.all_seen y,
            linked-same cur x y l,
            has-append x beyond r.new,
          );
          inner = λ k x y le p l.
              ground (arith, h.inner k x y le p l, r.seen y, r.all_seen y, linked-same cur x y l);
        },
      )

  -- The next level, when nothing waits at this one.
  advance :
      (d : ℕ) (beyond : List String) (w : Walk) → Level d [] beyond w → Level (d + 1) beyond [] w
  advance d beyond w h = record {
    queue = h.queue ∙ sym (append-nil (at (d + 1) beyond));
    near = reached d beyond w h;
    shut = λ x y s l. ground (arith, h.shut x y s l);
    inner = λ k x y le p l. ground (arith, h.shut x y (reached d beyond w h k x le p) l);
  }
    where
      reached : (d : ℕ) (beyond : List String) (w : Walk) → Level d [] beyond w → Full (d + 1) w
      reached d beyond w h k x le stay = h.near 0 a (omega arith) stay
      reached d beyond w h k x le (on {k = j} {b = b} c p l) =
          ground (arith, h.inner j b c (omega arith) p l)

  -- With an empty queue all is seen that any path leads to.
  closed :
      (d : ℕ) (w : Walk) {k : ℕ} {x : String}
      → Level d [] [] w
      → Leads edges a k x
      → has x w.seen ≡ true
  closed d w h stay = h.near 0 a (omega arith) stay
  closed d w h (on {b = b} c p l) = ground (arith, h.shut b c (closed d w h p) l)

  -- What holds between two rounds, while something near may still be unseen.
  abbrev Waits : ℕ → Walk → Type 0
  Waits depth w =
      (d : ℕ) × (cur : String) × (here : List String) × (beyond : List String) × (d < depth)
      × Level d (cur ∷ here) beyond w

  settle :
      (depth d : ℕ) (here beyond : List String) (w : Walk)
      → d < depth
      → Level d here beyond w
      → Full depth w ⊎ Waits depth w
  settle depth d (c ∷ here) beyond w lt h = inr (d, c, here, beyond, lt, h)
  settle depth d [] [] w lt h = inl (λ k x le p. closed d w h p)
  settle depth d [] (b ∷ beyond) w lt h = elim (dec_lt (d + 1) depth) [
    | yes more ↦ inr (d + 1, b, beyond, [], more, advance d (b ∷ beyond) w h)
    | no last ↦ inl (λ k x le p. (advance d (b ∷ beyond) w h).near k x (omega arith) p)
  ]

  pop_front-Full :
      (depth : ℕ) (w : Walk) (first : String × ℕ) (rest : List (String × ℕ))
      → Full depth w
      → Full depth (pop_front edges depth w first rest)
  pop_front-Full depth w (cur, d) rest f k x le p = ground (
    arith,
    f k x le p,
    (visit-Visited (d + 1) (linked edges cur) (record w { queue = rest })).seen x,
  )

  pop_front-Listed :
      (depth : ℕ) (w : Walk) (first : String × ℕ) (rest : List (String × ℕ))
      → Listed w
      → Listed (pop_front edges depth w first rest)
  pop_front-Listed depth w (cur, d) rest l x =
      let r = visit-Visited (d + 1) (linked edges cur) (record w { queue = rest }) in
      ground (arith, l x, r.seen x, r.out, has-append x w.out_ids r.new)

  pop_front-Level :
      (depth d : ℕ) (cur : String) (here beyond : List String) (w : Walk) (first : String × ℕ)
      (rest : List (String × ℕ))
      → d < depth
      → w.queue ≡ first ∷ rest
      → Level d (cur ∷ here) beyond w
      → Full depth (pop_front edges depth w first rest)
        ⊎ Waits depth (pop_front edges depth w first rest)
  pop_front-Level depth d cur here beyond w first rest lt q h =
      let e : first ≡ (cur, d) = cc (h.queue, q) in
      let e' : rest ≡ at d here ++ at (d + 1) beyond = cc (h.queue, q) in
      let far : leb depth d ≡ false = ground arith in
      let v = visit-Level d cur here beyond w h in
      rw (e, e') (rw far (settle depth d here (beyond ++ v.0) _ lt v.1))

  walk-Full :
      (fuel depth : ℕ) (w : Walk) (out : List String)
      → Full depth w ⊎ Waits depth w
      → Listed w
      → walk fuel edges depth w ≡ some out
      → (k : ℕ) (x : String) → k ≤ depth
      → Leads edges a k x
      → (same a x || has x out) ≡ true
  unfolding walk
  walk-Full zero depth w out s l e k x le p = absurd (ground arith)
  walk-Full (suc fuel) depth w out s l e k x le p = elim (List-cases w.queue) [
    | inl q ↦
        (let done : w.out_ids ≡ out = ground (arith, walk_done fuel edges depth w q) in
          let seen : has x w.seen ≡ true = elim s [
            | inl f ↦ f k x le p
            | inr (d, cur, here, beyond, lt, h) ↦ absurd (cc (h.queue, q))
          ] in
          rw (← done) (l x seen))
    | inr q ↦
        walk-Full fuel depth (pop_front edges depth w q.0 q.1) out
          (elim s [
            | inl f ↦ inl (pop_front-Full depth w q.0 q.1 f)
            | inr (d, cur, here, beyond, lt, h) ↦
                pop_front-Level depth d cur here beyond w q.0 q.1 lt q.2 h
          ])
          (pop_front-Listed depth w q.0 q.1 l) (sym (walk_on fuel edges depth w q.0 q.1 q.2) ∙ e) k
          x le p
  ]

  Leads-zero : (k : ℕ) (x : String) → k ≤ 0 → Leads edges a k x → has x (a ∷ []) ≡ true
  Leads-zero k x le stay = ground (arith, eq_iff a a)
  Leads-zero k x le (on {k = j} c p l) = absurd (omega arith)

  initial : (depth : ℕ) → Full depth (start a) ⊎ Waits depth (start a)
  initial zero = inl Leads-zero
  initial (suc n) = inr (
    0,
    a,
    [],
    [],
    omega arith,
    record {
      queue = refl;
      near = Leads-zero;
      shut = λ x y s l. ground arith;
      inner = λ k x y le p l. ground (arith, Leads-zero k x le p);
    },
  )

  neighbor_ids_complete :
      (depth : ℕ) (out : List String)
      → neighbor_ids edges a depth ≡ some out
      → (k : ℕ) (x : String) → k ≤ min depth 3
      → Leads edges a k x
      → (same a x || has x out) ≡ true
  unfolding neighbor_ids
  neighbor_ids_complete depth out e =
      walk-Full (2 * length edges + 2) (min depth 3) (start a) out (initial (min depth 3))
        (λ x h. ground arith) e

  has-Near :
      (depth : ℕ) (x : String) (out : List String)
      → Each (Near edges a depth) out
      → has x out ≡ true
      → Near edges a depth x
  has-Near depth x [] n h = absurd (ground (arith, h))
  has-Near depth x (y ∷ out) n h = elim (Bool-cases (same y x)) [
    | inl e ↦ (let e' : x ≡ y = sym ((eq_iff y x).0 e) in rw e' n.0)
    | inr f ↦ has-Near depth x out n.1 (ground (arith, f, h))
  ]

  -- The walk finds what is near, and nothing else: an id other than the start is found if and only if a
  -- path of at most so many edges as the depth asked for, and at most three, leads to it.
  pub neighbor_ids_exact :
      (depth : ℕ) (out : List String) (x : String)
      → neighbor_ids edges a depth ≡ some out
      → a ≢ x
      → Near edges a (min depth 3) x ↔ (has x out ≡ true)
  neighbor_ids_exact depth out x e n = (
    λ (k, le, p).
        (let found = neighbor_ids_complete depth out e k x le p in
          ground (arith, found, eq_iff a x, n)),
    has-Near (min depth 3) x out (neighbor_ids-Near edges a depth out e),
  )
