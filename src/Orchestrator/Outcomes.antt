-- ===== src/Orchestrator/Outcomes.antt =====
-- igris-orchestrator: how tasks end, and when the mission ends with them.
use igrisv.Base.{
  ℕ, String, ◌≡◌, true, false, Option, some, arith, all, nat_key, string_key, values, lookup,
  all-lookup, ◌≢◌, leb, if◌then◌else◌, any, update, lookup-update, any-update,
}
use igrisv.Orchestrator.{
  Mission, node_eq, is_done, modify, refresh_state, succeeded, record_success, record_failure,
  verify_node, NodeState, MissionState, TaskNode, failed_with, now_verified,
}

-- Every node of the mission is done.
abbrev pub AllDone : Mission → Type 0
AllDone m = (id : ℕ) (n : TaskNode) → lookup id m.nodes ≡ some n → is_done n ≡ true

-- No node of the mission has failed.
abbrev pub NoneFailed : Mission → Type 0
NoneFailed m =
    (id : ℕ) (n : TaskNode) → lookup id m.nodes ≡ some n → node_eq n.state NodeState.failed ≡ false

refresh-completed :
    (m : Mission)
    → m.state ≡ MissionState.running
    → (refresh_state m).state ≡ MissionState.completed
    → all is_done (values m.nodes) ≡ true
unfolding refresh_state
refresh-completed m r h = ground arith

pub refresh_nodes : (m : Mission) → (refresh_state m).nodes ≡ m.nodes
unfolding refresh_state
refresh_nodes m = ground arith

-- A call that ends the work on a task.
pub data Outcome : Type 0 where
  succeeds : Option String → Outcome
  fails : String → Outcome
  verifies : Outcome

unfoldable pub settle : Mission → ℕ → Outcome → Mission
settle m id (succeeds saved) = record_success m id saved
settle m id (fails e) = (record_failure m id e).1
settle m id verifies = (verify_node m id).1

refreshed_done :
    (m : Mission) (id : ℕ) (n : TaskNode)
    → m.state ≡ MissionState.running
    → (refresh_state m).state ≡ MissionState.completed
    → lookup id (refresh_state m).nodes ≡ some n
    → is_done n ≡ true
refreshed_done m id n r h e =
    all-lookup is_done id n m.nodes (refresh-completed m r h) (rw refresh_nodes at e)

-- A running mission is completed by the outcome of a task only when every node of it is done, which
-- for a node that requires verification means that it has been verified.
pub completed-AllDone :
    (m : Mission) (id : ℕ) (o : Outcome)
    → m.state ≡ MissionState.running
    → (settle m id o).state ≡ MissionState.completed
    → AllDone (settle m id o)
unfolding settle record_success record_failure verify_node
completed-AllDone m id (succeeds saved) r h k n found =
    refreshed_done (modify m id (succeeded saved)) k n r h found
completed-AllDone m id (fails e) r h k n found =
    ground (arith, refreshed_done (modify m id (failed_with e)) k n)
completed-AllDone m id verifies r h k n found =
    ground (arith, refreshed_done (modify m id now_verified) k n)

-- A failed attempt of a task, in a running mission of which no node has failed: while the counter of
-- attempts is at most the limit, the task is pending again and the mission keeps running; beyond it,
-- the task is failed, and so is the mission.
pub record_failure_budget :
    (m : Mission) (id : ℕ) (e : String) (n : TaskNode)
    → m.state ≡ MissionState.running
    → any (λ x. node_eq x.state NodeState.failed) (values m.nodes) ≡ false
    → lookup id m.nodes ≡ some n
    → ((record_failure m id e).0 ≡ leb n.attempts n.max_retries)
      × (lookup id (record_failure m id e).1.nodes ≡ some (failed_with e n))
      × ((record_failure m id e).1.state
          ≡ (if leb n.attempts n.max_retries then MissionState.running else MissionState.failed))
unfolding record_failure refresh_state is_done
record_failure_budget m id e n r none_failed found =
    let after = update id (failed_with e) m.nodes in
    let here = lookup-update id id (failed_with e) m.nodes in
    let no_other =
      any-update (λ x. node_eq x.state NodeState.failed) id (failed_with e) n m.nodes in
    let not_all = all-lookup is_done id (failed_with e n) after in
    (ground arith, ground arith, ground arith)

-- The verification gate: recording the success of a task that requires verification, and has not been
-- verified, never completes a running mission.
pub success_awaits_verification :
    (m : Mission) (id : ℕ) (saved : Option String) (n : TaskNode)
    → m.state ≡ MissionState.running
    → lookup id m.nodes ≡ some n
    → n.requires_verification ≡ true
    → n.verified ≡ false
    → (record_success m id saved).state ≢ MissionState.completed
unfolding record_success is_done
success_awaits_verification m id saved n r found req unv h =
    let after = modify m id (succeeded saved) in
    let done = refreshed_done after id (succeeded saved n) r h in
    ground (arith, done, lookup-update id id (succeeded saved) m.nodes, refresh_nodes after)

-- Verifying a completed task makes it done; a task in any other state is refused and nothing changes.
pub verify_node_gate :
    (m : Mission) (id : ℕ) (n : TaskNode)
    → lookup id m.nodes ≡ some n
    → ((n.state ≡ NodeState.completed
        → ((verify_node m id).0 ≡ true)
          × (lookup id (verify_node m id).1.nodes ≡ some (now_verified n))
          × (is_done (now_verified n) ≡ true)))
      × (n.state ≢ NodeState.completed → verify_node m id ≡ (false, m))
unfolding verify_node is_done
verify_node_gate m id n found = (
  (λ d.
      ground (
        arith,
        lookup-update id id now_verified m.nodes,
        refresh_nodes (modify m id now_verified),
      )),
  λ nd. ground arith,
)
