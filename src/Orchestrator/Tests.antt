-- ===== src/Orchestrator/Tests.antt =====
-- igris-orchestrator on a small mission: build (0), test after build (1), ship after test (2), which
-- requires verification.
use igrisv.Base.{
  ◌+◌, ◌%◌, ◌^◌, none, ℕ, String, ◌≡◌, refl, ◌≢◌, ◌↔◌, true, some, [], ◌∷◌, arith, nat_key,
  string_key, lookup, insert, update, ok, err, ℕ_discrete,
}
use igrisv.Orchestrator.{
  Mission, not_running, new_node, with_deps, with_timeout, with_verification, is_done, new, add,
  resume, deps_satisfied, is_ready, ready_tasks, begin, refresh_state, record_success, progress_pct,
  NodeState, MissionState, OrchestratorError, dependency_blocked, TaskNode, pause,
}
use igrisv.Orchestrator.Begin.{begin_guards}
use igrisv.Orchestrator.Outcomes.{settle, AllDone, succeeds, completed-AllDone}
use igrisv.Orchestrator.Lifecycle.{run, settles, begins, Ended, over_for_good, resumes}

abbrev build_node : TaskNode
build_node = new_node 0 "build"

abbrev test_node : TaskNode
test_node = with_deps (new_node 1 "test") (0 ∷ [])

abbrev ship_node : TaskNode
ship_node = with_verification (with_deps (with_timeout (new_node 2 "ship") 500) (1 ∷ []))

abbrev release : Mission
release = record {
  nodes = (0, build_node) ∷ (1, test_node) ∷ (2, ship_node) ∷ [];
  order = 0 ∷ 1 ∷ 2 ∷ [];
  state = MissionState.running;
}

abbrev with_build : NodeState → Mission
with_build s = record release {
  nodes = (0, record build_node { state = s; attempts = 1 }) ∷ (1, test_node) ∷ (2, ship_node) ∷ [];
}

abbrev name_of : ℕ → String
name_of id = "node"

release_lem : (add (add (add new build_node).1 test_node).1 ship_node).1 ≡ release
unfolding add insert ℕ_discrete
release_lem = refl

test_blocked : begin name_of release 1 ≡ (err (dependency_blocked "test"), release)
unfolding begin deps_satisfied is_done lookup ℕ_discrete
test_blocked = refl

test_ready : ready_tasks (with_build NodeState.completed) ≡ 1 ∷ []
unfolding ready_tasks is_ready deps_satisfied is_done lookup ℕ_discrete
test_ready = refl

two_thirds_rounds_down : progress_pct (with_build NodeState.completed) ≡ 33
unfolding progress_pct is_done lookup ℕ_discrete
two_thirds_rounds_down = refl

begin_guards_example :
    ((begin name_of release 0).0 ≡ ok tt ↔ (
      (release.state ≡ MissionState.running)
      × ((n : TaskNode) × (lookup 0 release.nodes ≡ some n) × (deps_satisfied release n ≡ true))))
    × ((n : TaskNode)
        → (begin name_of release 0).0 ≡ ok tt
        → lookup 0 release.nodes ≡ some n
        → lookup 0 (begin name_of release 0).1.nodes
          ≡ some record n {
            state = NodeState.running;
            attempts = (n.attempts + 1) % 2 ^ 32;
            last_error = none;
          })
    × ((k : ℕ) → k ≢ 0 → lookup k (begin name_of release 0).1.nodes ≡ lookup k release.nodes)
    × ((e : OrchestratorError)
        → (begin name_of release 0).0 ≡ err e
        → (begin name_of release 0).1 ≡ release)
begin_guards_example = begin_guards name_of release 0

abbrev last_step : Mission
last_step = record {
  nodes = (0, record build_node { state = NodeState.running; attempts = 1 }) ∷ [];
  order = 0 ∷ [];
  state = MissionState.running;
}

completed-AllDone_example : AllDone (settle last_step 0 (succeeds (some "done")))
unfolding settle record_success refresh_state update is_done ℕ_discrete
completed-AllDone_example = completed-AllDone last_step 0 (succeeds (some "done")) refl refl

abbrev built : TaskNode
built = record build_node { state = NodeState.completed; attempts = 1 }

abbrev crashed : Mission
crashed = with_build NodeState.running

abbrev reclaimed : TaskNode
reclaimed = record build_node { attempts = 1 }

abbrev shut : Mission
shut = record release { state = MissionState.failed }

over_for_good_example :
    Ended (run name_of shut (resumes ∷ begins 0 ∷ settles 0 (succeeds none) ∷ []))
    × ((id : ℕ)
        → begin name_of (run name_of shut (resumes ∷ begins 0 ∷ settles 0 (succeeds none) ∷ [])) id
          ≡ (
            err not_running,
            run name_of shut (resumes ∷ begins 0 ∷ settles 0 (succeeds none) ∷ []),
          ))
over_for_good_example =
    over_for_good name_of shut (resumes ∷ begins 0 ∷ settles 0 (succeeds none) ∷ [])
      (λ p. ground arith) (λ p. ground arith)

-- A task added after the cancellation is still pending.
abbrev revived : Mission
revived = record release { state = MissionState.cancelled }

revived_runs : (resume (pause revived)).state ≡ MissionState.running
unfolding pause resume
revived_runs = refl
