-- ===== src/Orchestrator.antt =====
-- crates/igris-orchestrator/src/lib.rs: missions, graphs of tasks with dependencies, retries and
-- verification. Node ids are numbers; `u32` counters wrap around as in a release build.
mod Tasks
unfoldable pub use Tasks.*
pub mod Begin
pub mod Durable
pub mod Outcomes
pub mod Lifecycle
pub mod Progress
pub mod Tests
use igrisv.Base.{
  ℕ, ◌+◌, ◌-◌, ◌*◌, ◌/◌, ◌%◌, ◌^◌, min, max, String, Bool, true, false, not, ◌&&◌, ◌||◌, Option,
  none, some, List, [], ◌∷◌, ◌++◌, ltb, leb, ◌==◌, if◌then◌else◌, length, is_empty, any, all, keep,
  nat_key, string_key, Assoc, values, lookup, insert, update, Result, ok, err, map_values,
}

pub record Mission : Type 0 where
  pub nodes : Assoc ℕ TaskNode
  pub order : List ℕ
  pub state : MissionState

-- `Default`
abbrev pub new : Mission
new = record { nodes = []; order = []; state = MissionState.running }

unfoldable pub add : Mission → TaskNode → ℕ × Mission
add m node =
    (node.id, record m { order = m.order ++ node.id ∷ []; nodes = insert node.id node m.nodes })

abbrev pub modify : Mission → ℕ → (TaskNode → TaskNode) → Mission
modify m id f = record m { nodes = update id f m.nodes }

unfoldable pub mark : Mission → ℕ → NodeState → Mission
mark m id state = modify m id (λ n. record n { state = state })

unfoldable pub checkpoint : Mission → ℕ → String → Mission
checkpoint m id text = modify m id (λ n. record n { checkpoint = some text })

unfoldable pub start : Mission → Mission
start m = record m { state = MissionState.running }

unfoldable pub pause : Mission → Mission
pause m = record m { state = MissionState.paused }

unfoldable pub resume : Mission → Mission
resume m =
    if mission_eq m.state MissionState.paused then record m { state = MissionState.running } else m

unfoldable pub cancel_node : TaskNode → TaskNode
cancel_node n =
    if node_eq n.state NodeState.pending || node_eq n.state NodeState.running
    then record n { state = NodeState.cancelled }
    else n

unfoldable pub cancel : Mission → Mission
unfolding cancel_node
cancel m = record m { state = MissionState.cancelled; nodes = map_values cancel_node m.nodes }

-- `.map(|x| test(x)).unwrap_or(false)`
abbrev pub found_and : (TaskNode → Bool) → Option TaskNode → Bool
found_and test none = false
found_and test (some n) = test n

unfoldable pub deps_satisfied : Mission → TaskNode → Bool
deps_satisfied m n = all (λ d. found_and is_done (lookup d m.nodes)) n.depends_on

unfoldable pub is_ready : Mission → TaskNode → Bool
is_ready m n = node_eq n.state NodeState.pending && deps_satisfied m n

unfoldable pub ready_tasks : Mission → List ℕ
ready_tasks m =
    if not (mission_eq m.state MissionState.running)
    then []
    else keep (λ id. found_and (is_ready m) (lookup id m.nodes)) m.order

abbrev pub begun : TaskNode → TaskNode
begun n = record n { state = NodeState.running; attempts = u32 (n.attempts + 1); last_error = none }

-- `to_string` of an id is the uuid package's.
unfoldable pub begin : (ℕ → String) → Mission → ℕ → Result OrchestratorError (Unit {0}) × Mission
begin to_string m id =
    if not (mission_eq m.state MissionState.running)
    then (err not_running, m)
    else elim (lookup id m.nodes) [
      | none ↦ (err (unknown_node (to_string id)), m)
      | some n ↦
          if not (deps_satisfied m n)
          then (err (dependency_blocked n.name), m)
          else (ok tt, modify m id begun)
    ]

unfoldable pub refresh_state : Mission → Mission
refresh_state m =
    if not (mission_eq m.state MissionState.running)
    then m
    else if any (λ n. node_eq n.state NodeState.failed) (values m.nodes)
    then record m { state = MissionState.failed }
    else if not (is_empty m.nodes) && all is_done (values m.nodes)
    then record m { state = MissionState.completed }
    else m

abbrev pub succeeded : Option String → TaskNode → TaskNode
succeeded saved n = record n {
  state = NodeState.completed;
  checkpoint = elim saved [ none ↦ n.checkpoint | some c ↦ some c ];
  verified = if not n.requires_verification then true else n.verified;
}

unfoldable pub record_success : Mission → ℕ → Option String → Mission
record_success m id saved = refresh_state (modify m id (succeeded saved))

abbrev pub failed_with : String → TaskNode → TaskNode
failed_with e n = record n {
  last_error = some e;
  state = if leb n.attempts n.max_retries then NodeState.pending else NodeState.failed;
}

unfoldable pub record_failure : Mission → ℕ → String → Bool × Mission
record_failure m id e = elim (lookup id m.nodes) [
  | none ↦ (false, m)
  | some n ↦ (leb n.attempts n.max_retries, refresh_state (modify m id (failed_with e)))
]

abbrev pub now_verified : TaskNode → TaskNode
now_verified n = record n { verified = true }

unfoldable pub verify_node : Mission → ℕ → Bool × Mission
verify_node m id = elim (lookup id m.nodes) [
  | none ↦ (false, m)
  | some n ↦
      if node_eq n.state NodeState.completed
      then (true, refresh_state (modify m id now_verified))
      else (false, m)
]

unfoldable pub is_complete : Mission → Bool
is_complete m = mission_eq m.state MissionState.completed

-- `Iterator::find`
abbrev pub find : (ℕ → Bool) → List ℕ → Option ℕ
find p [] = none
find p (x ∷ xs) = if p x then some x else find p xs

unfoldable pub can_resume : Mission → TaskNode → Bool
can_resume m n =
    node_eq n.state NodeState.pending && deps_satisfied m n || node_eq n.state NodeState.running

unfoldable pub resume_point : Mission → Option ℕ
resume_point m = find (λ id. found_and (can_resume m) (lookup id m.nodes)) m.order

unfoldable pub reclaim_node : TaskNode → TaskNode
reclaim_node n =
    if node_eq n.state NodeState.running then record n { state = NodeState.pending } else n

unfoldable pub reclaim_running : Mission → Mission
reclaim_running m = record m { nodes = map_values reclaim_node m.nodes }

-- `as u8` keeps the low eight bits.
unfoldable pub progress_pct : Mission → ℕ
progress_pct m =
    if is_empty m.order
    then 100
    else (length (keep (λ id. found_and is_done (lookup id m.nodes)) m.order)
        * 100
        / length m.order)
      % 2 ^ 8
