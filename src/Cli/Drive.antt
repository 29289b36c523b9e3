-- ===== src/Cli/Drive.antt =====
-- apps/cli/src/main.rs: the loop over the ready tasks ends and never panics.
use mathlib.Core.Option
use igrisv.Base.{
  ℕ, String, ◌≡◌, Bool, true, Option, some, List, length, keep, nat_key, string_key, Assoc, lookup,
  inl, inr, arith, Option-cases, lookup-update, ◌≤◌, ◌<◌, ite, [], ◌∷◌, ℕ_discrete, zero, suc, refl,
  ◌⊎◌, ◌++◌, ◌⁀◌, decimal,
}
use igrisv.Orchestrator.{
  Mission, modify, found_and, is_ready, ready_tasks, begun, begin, refresh_state, succeeded,
  record_success, node_eq, NodeState, TaskNode, MissionState, progress_pct,
}
use igrisv.Orchestrator.Outcomes.{refresh_nodes}
use igrisv.Orchestrator.Begin.{listed, begin-ready_tasks, listed-ready_tasks}
use igrisv.Cli.{round, ended, drive}

-- What the first of the ready tasks becomes.
abbrev pub finished : TaskNode → TaskNode
finished n = succeeded (some "cli-demo") (begun n)

abbrev is_pending : Option TaskNode → Bool
is_pending o = found_and (λ n. node_eq n.state NodeState.pending) o

-- How often an id of the order is one of a pending task.
abbrev pub waiting : Assoc ℕ TaskNode → List ℕ → ℕ
waiting nodes order = length (keep (λ id. is_pending (lookup id nodes)) order)

abbrev pub after_round : Mission → ℕ → Mission
after_round m id = refresh_state (modify (modify m id begun) id (succeeded (some "cli-demo")))

pub ready_state :
    (m : Mission) (id : ℕ) → listed id (ready_tasks m) ≡ true → m.state ≡ MissionState.running
unfolding ready_tasks
ready_state m id h = ground arith

-- A ready task is known, and pending with its dependencies done.
pub ready_node :
    (m : Mission) (id : ℕ)
    → listed id (ready_tasks m) ≡ true
    → (n : TaskNode) × (lookup id m.nodes ≡ some n) × (is_ready m n ≡ true)
ready_node m id h =
    let facts = listed-ready_tasks m id (ready_state m id h) in
    elim (Option-cases (lookup id m.nodes)) [
      | inl e ↦ absurd (ground (arith, facts, e))
      | inr (n, e) ↦ (n, e, ground (arith, facts, e))
    ]

module _ (to_string : ℕ → String) where
  -- The round of a ready task does not panic.
  pub round-ready_tasks :
      (m : Mission) (id : ℕ)
      → listed id (ready_tasks m) ≡ true
      → (line : String) × (round to_string m id ≡ some (after_round m id, line))
  unfolding round begin record_success
  round-ready_tasks m id h =
      let (n, e, r) = ready_node m id h in
      let k = begin-ready_tasks to_string m id h in
      let l = lookup-update id id begun m.nodes in
      (n.name ⁀ " -> " ⁀ decimal (progress_pct (after_round m id)) ⁀ "%", ground (arith, e, k, l))

-- The tasks after a round.
pub lookup-after_round :
    (m : Mission) (id j : ℕ)
    → lookup j (after_round m id).nodes
      ≡ ite (ℕ_discrete id j) (Option.map finished (lookup j m.nodes)) (lookup j m.nodes)
lookup-after_round m id j =
    let b = modify m id begun in
    ground (
      arith,
      refresh_nodes (modify b id (succeeded (some "cli-demo"))),
      lookup-update id j (succeeded (some "cli-demo")) b.nodes,
      lookup-update id j begun m.nodes,
    )

waiting_le :
    (m : Mission) (id : ℕ) (order : List ℕ)
    → waiting (after_round m id).nodes order ≤ waiting m.nodes order
waiting_le m id [] = omega arith
waiting_le m id (j ∷ order) = ground (arith, waiting_le m id order, lookup-after_round m id j)

waiting_lt :
    (m : Mission) (id : ℕ) (order : List ℕ)
    → listed id order ≡ true
    → is_pending (lookup id m.nodes) ≡ true
    → waiting (after_round m id).nodes order < waiting m.nodes order
waiting_lt m id [] h p = absurd (ground arith)
waiting_lt m id (j ∷ order) h p = elim (ℕ_discrete id j) [
  | yes e ↦ rw (← e) (ground (arith, waiting_le m id order, lookup-after_round m id id, p))
  | no n ↦ ground (arith, waiting_lt m id order, waiting_le m id order, lookup-after_round m id j)
]

-- The ids of the ready tasks, taken apart.
List-cases : (xs : List ℕ) → (xs ≡ []) ⊎ ((x : ℕ) × (rest : List ℕ) × (xs ≡ x ∷ rest))
List-cases [] = inl refl
List-cases (x ∷ rest) = inr (x, rest, refl)

-- The first of the ready tasks is ready.
pub first_listed :
    (m : Mission) (id : ℕ) (rest : List ℕ)
    → ready_tasks m ≡ id ∷ rest
    → listed id (ready_tasks m) ≡ true
first_listed m id rest e = rw e (ground arith)

after_round_order : (m : Mission) (id : ℕ) → (after_round m id).order ≡ m.order
unfolding refresh_state
after_round_order m id = ground arith

waiting-after_round :
    (m : Mission) (id : ℕ)
    → listed id (ready_tasks m) ≡ true
    → waiting (after_round m id).nodes (after_round m id).order < waiting m.nodes m.order
unfolding is_ready
waiting-after_round m id h =
    let (n, e, r) = ready_node m id h in
    let within : listed id m.order ≡ true =
      ground (arith, listed-ready_tasks m id (ready_state m id h)) in
    rw (after_round_order m id) (waiting_lt m id m.order within (ground (arith, e)))

module _ (to_string : ℕ → String) where
  -- An invariant that each round of a ready task keeps holds at the end, where no task is ready, and the
  -- end comes: enough fuel is one round more than there are pending tasks.
  pub drive_rule {ℓ} :
      (P : Mission → Type ℓ)
      → ((m : Mission) (id : ℕ) → listed id (ready_tasks m) ≡ true → P m → P (after_round m id))
      → (fuel : ℕ) (m : Mission) (log : List String) → waiting m.nodes m.order < fuel
      → P m
      → (m' : Mission) × (log' : List String) × (drive to_string fuel m log ≡ ended m' log')
        × (ready_tasks m' ≡ [])
        × P m'
  unfolding drive
  drive_rule P keeps zero m log f p = absurd (omega arith)
  drive_rule P keeps (suc fuel) m log f p = elim (List-cases (ready_tasks m)) [
    | inl e ↦ (m, log, ground (arith, e), e, p)
    | inr (id, rest, e) ↦
        (let l = first_listed m id rest e in
          let (line, r) = round-ready_tasks to_string m id l in
          let (m', log', ends, none_left, q) =
            drive_rule P keeps fuel (after_round m id) (log ++ line ∷ [])
              (omega (arith, waiting-after_round m id l)) (keeps m id l p) in
          (m', log', ground (arith, e, r, ends), none_left, q))
  ]
