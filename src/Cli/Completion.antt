-- ===== src/Cli/Completion.antt =====
-- apps/cli/src/main.rs: a mission whose dependencies point back is run to its completion.
use igrisv.Base.{
  ℕ, ◌≡◌, refl, ◌⊎◌, true, false, some, List, [], ◌∷◌, arith, ℕ_discrete, all, nat_key, string_key,
  Assoc, values, lookup, Unique, same, inl, inr, Bool-cases, Option-cases, is_empty, any,
  update-Unique, lookup-any, sym, ap, ◌∙◌, Bool, ◌+◌, String, lookup-all, all_mono,
}
use igrisv.Orchestrator.{
  Mission, ready_tasks, is_done, NodeState, MissionState, TaskNode, modify, begun, refresh_state,
  succeeded, node_eq, found_and, deps_satisfied, is_ready,
}
use igrisv.Orchestrator.Begin.{listed, listed-ready_tasks}
use igrisv.Orchestrator.Outcomes.{refresh_nodes}
use igrisv.Cli.{drive, ended}
use igrisv.Cli.Drive.{
  after_round, lookup-after_round, ready_state, ready_node, finished, waiting, drive_rule,
}

-- Each task of the order is known, and its dependencies stand in the order before it.
abbrev pub Backwards : Assoc ℕ TaskNode → List ℕ → List ℕ → Type 0
Backwards nodes earlier [] = Unit {0}
Backwards nodes earlier (id ∷ order) =
    ((n : TaskNode) × (lookup id nodes ≡ some n)
      × (all (λ d. listed d earlier) n.depends_on ≡ true))
    × Backwards nodes (id ∷ earlier) order

-- A mission that can be run to its end without verification.
pub record CanRun (m : Mission) : Type 0 where
  pub unique : Unique m.nodes
  pub plain :
      (id : ℕ) (n : TaskNode)
      → lookup id m.nodes ≡ some n
      → (n.requires_verification ≡ false)
        × ((n.state ≡ NodeState.pending) ⊎ (n.state ≡ NodeState.completed))
        × (listed id m.order ≡ true)
  pub back : Backwards m.nodes [] m.order
  pub status :
      ((m.state ≡ MissionState.running) × (all is_done (values m.nodes) ≡ false))
      ⊎ ((m.state ≡ MissionState.completed) × (all is_done (values m.nodes) ≡ true))

Backwards-after_round :
    (m : Mission) (id : ℕ) (earlier order : List ℕ)
    → Backwards m.nodes earlier order
    → Backwards (after_round m id).nodes earlier order
Backwards-after_round m id earlier [] h = tt
Backwards-after_round m id earlier (j ∷ order) ((n, e, b), rest) = (
  elim (ℕ_discrete id j) [
    | yes same ↦ (finished n, ground (arith, lookup-after_round m id j, e), b)
    | no other ↦ (n, ground (arith, lookup-after_round m id j, e), b)
  ],
  Backwards-after_round m id (j ∷ earlier) order rest,
)

-- A task after a round is the one before it, or the finished one.
after_round_cases :
    (m : Mission) (id j : ℕ) (n : TaskNode)
    → lookup j (after_round m id).nodes ≡ some n
    → (o : TaskNode) × (lookup j m.nodes ≡ some o) × ((n ≡ o) ⊎ (n ≡ finished o))
after_round_cases m id j n e = elim (Option-cases (lookup j m.nodes)) [
  | inl q ↦ absurd (ground (arith, lookup-after_round m id j, q))
  | inr (o, q) ↦ (o, q, ground (arith, lookup-after_round m id j, q))
]

found-is_empty :
    (id : ℕ) (n : TaskNode) (nodes : Assoc ℕ TaskNode)
    → lookup id nodes ≡ some n
    → is_empty nodes ≡ false
unfolding lookup
found-is_empty id n [] e = absurd (ground arith)
found-is_empty id n (x ∷ nodes) e = refl

-- What refreshing makes of a mission in which nothing has failed.
refresh_status :
    (m : Mission)
    → m.state ≡ MissionState.running
    → any (λ n. node_eq n.state NodeState.failed) (values m.nodes) ≡ false
    → is_empty m.nodes ≡ false
    → (((refresh_state m).state ≡ MissionState.running) × (all is_done (values m.nodes) ≡ false))
      ⊎ (((refresh_state m).state ≡ MissionState.completed) × (all is_done (values m.nodes) ≡ true))
unfolding refresh_state
refresh_status m r f e = elim (Bool-cases (all is_done (values m.nodes))) [
  | inl d ↦ inr (ground (arith, d), d)
  | inr d ↦ inl (ground (arith, d), d)
]

after_round_order : (m : Mission) (id : ℕ) → (after_round m id).order ≡ m.order
unfolding refresh_state
after_round_order m id = ground arith

-- The tasks of the mission before it is refreshed.
abbrev updated : Mission → ℕ → Mission
updated m id = modify (modify m id begun) id (succeeded (some "cli-demo"))

-- What a task of a mission that can be run is like.
abbrev Plain : Mission → ℕ → TaskNode → Type 0
Plain m j x =
    (x.requires_verification ≡ false)
    × ((x.state ≡ NodeState.pending) ⊎ (x.state ≡ NodeState.completed))
    × (listed j m.order ≡ true)

updated-Plain :
    (m : Mission) (id j : ℕ) (x : TaskNode)
    → CanRun m
    → lookup j (updated m id).nodes ≡ some x
    → Plain (after_round m id) j x
updated-Plain m id j x c q =
    let (o, found, change) =
      after_round_cases m id j x (ap (lookup j) (refresh_nodes (updated m id)) ∙ q) in
    let was = c.plain j o found in
    rw (after_round_order m id)
      (elim change [ inl e ↦ rw e was | inr e ↦ rw e (was.0, inr refl, was.2) ])

CanRun-after_round :
    (m : Mission) (id : ℕ) → listed id (ready_tasks m) ≡ true → CanRun m → CanRun (after_round m id)
CanRun-after_round m id l c =
    let same_nodes = refresh_nodes (updated m id) in
    let unique : Unique (updated m id).nodes =
      update-Unique id (succeeded (some "cli-demo")) (modify m id begun).nodes
        (update-Unique id begun m.nodes c.unique) in
    let (n, e, r) = ready_node m id l in
    let here : lookup id (updated m id).nodes ≡ some (finished n) =
      ground (arith, lookup-after_round m id id, same_nodes, e) in
    record {
      unique = rw same_nodes unique;
      plain = λ j x q. updated-Plain m id j x c (ap (lookup j) (sym same_nodes) ∙ q);
      back = rw (after_round_order m id) (Backwards-after_round m id [] m.order c.back);
      status = rw same_nodes (
          refresh_status (updated m id) (ready_state m id l)
            (lookup-any (λ x. node_eq x.state NodeState.failed) (updated m id).nodes unique
              (λ j x q. ground (arith, (updated-Plain m id j x c q).1)))
            (found-is_empty id (finished n) (updated m id).nodes here));
    }

-- Whether an id is that of a task that is done.
abbrev done_at : Mission → ℕ → Bool
done_at m d = found_and is_done (lookup d m.nodes)

module _ (m : Mission) (c : CanRun m) (running : m.state ≡ MissionState.running)
    (idle : ready_tasks m ≡ []) where
  -- With its dependencies done a task is done, since it would be ready otherwise.
  done_here :
      (id : ℕ) (n : TaskNode)
      → listed id m.order ≡ true
      → lookup id m.nodes ≡ some n
      → all (done_at m) n.depends_on ≡ true
      → is_done n ≡ true
  unfolding is_ready deps_satisfied is_done
  done_here id n w e deps =
      let unready = listed-ready_tasks m id running in
      ground (arith, unready, c.plain id n e, ap (listed id) idle)

  extend :
      (earlier : List ℕ) (id : ℕ)
      → ((d : ℕ) → listed d earlier ≡ true → done_at m d ≡ true)
      → done_at m id ≡ true
      → (d : ℕ) → listed d (id ∷ earlier) ≡ true
      → done_at m d ≡ true
  extend earlier id before h d l = elim (ℕ_discrete id d) [
    | yes s ↦ rw (← s) h
    | no o ↦ before d (ground arith)
  ]

  done_all :
      (earlier order : List ℕ)
      → ((d : ℕ) → listed d earlier ≡ true → done_at m d ≡ true)
      → Backwards m.nodes earlier order
      → (d : ℕ) → listed d order ≡ true
      → done_at m d ≡ true
  done_all earlier [] before b d h = absurd (ground arith)
  done_all earlier (id ∷ order) before ((n, e, deps), rest) d h =
      let w : listed id m.order ≡ true = (c.plain id n e).2 in
      let here : is_done n ≡ true =
        done_here id n w e
          (all_mono (λ x. listed x earlier) (done_at m) n.depends_on deps before) in
      let at_id : done_at m id ≡ true = ground (arith, e, here) in
      elim (ℕ_discrete id d) [
        | yes s ↦ rw (← s) at_id
        | no o ↦
            done_all (id ∷ earlier) order (extend earlier id before at_id) rest d (ground arith)
      ]

  -- So the mission is completed after all.
  all_are_done : all is_done (values m.nodes) ≡ true
  all_are_done = lookup-all is_done m.nodes c.unique (λ id n e.
      let d = done_all [] m.order (λ k l. absurd (ground arith)) c.back id (c.plain id n e).2 in
      ground (arith, d, e))

-- When no task is ready, a mission that can be run is completed.
idle-completed : (m : Mission) → CanRun m → ready_tasks m ≡ [] → m.state ≡ MissionState.completed
idle-completed m c idle = elim c.status [
  | inl (going, some_left) ↦ absurd (ground (arith, all_are_done m c going idle))
  | inr (over, all_done) ↦ over
]

-- Take a mission whose ids have one entry each, in which no task requires verification, each task is
-- pending or completed and stands in the order behind its dependencies, and which runs with some task not
-- done or is completed with all done. The loop over its ready tasks ends without a panic, within one
-- round more than there are pending tasks, with the mission completed and all tasks done.
pub drive_completes :
    (to_string : ℕ → String) (m : Mission) (log : List String)
    → CanRun m
    → (m' : Mission) × (log' : List String) × (drive to_string (waiting m.nodes m.order + 1) m log
        ≡ ended m' log')
      × (m'.state ≡ MissionState.completed)
      × (all is_done (values m'.nodes) ≡ true)
drive_completes to_string m log c =
    let (m', log', ends, idle, c') =
      drive_rule to_string CanRun (CanRun-after_round) (waiting m.nodes m.order + 1) m log
        (omega arith) c in
    let complete = idle-completed m' c' idle in
    let done : all is_done (values m'.nodes) ≡ true = elim c'.status [
      | inl (going, some_left) ↦ absurd (ground (arith, complete))
      | inr (over, all_done) ↦ all_done
    ] in
    (m', log', ends, complete, done)
