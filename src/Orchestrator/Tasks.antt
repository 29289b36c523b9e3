-- ===== src/Orchestrator/Tasks.antt =====
-- crates/igris-orchestrator/src/lib.rs: the states of tasks and missions, and `TaskNode`.
use igrisv.Base.{
  ℕ, ◌-◌, ◌*◌, ◌%◌, ◌^◌, min, max, String, Bool, true, false, not, ◌&&◌, ◌||◌, Option, none, some,
  List, [], ltb, ◌==◌,
}

pub data NodeState : Type 0 where
  pending running paused completed failed cancelled : NodeState

pub data MissionState : Type 0 where
  running paused cancelled completed failed : MissionState

abbrev pub node_index : NodeState → ℕ
node_index NodeState.pending = 0
node_index NodeState.running = 1
node_index NodeState.paused = 2
node_index NodeState.completed = 3
node_index NodeState.failed = 4
node_index NodeState.cancelled = 5

abbrev pub mission_index : MissionState → ℕ
mission_index MissionState.running = 0
mission_index MissionState.paused = 1
mission_index MissionState.cancelled = 2
mission_index MissionState.completed = 3
mission_index MissionState.failed = 4

-- The derived `==` of the two enums.
abbrev pub node_eq : NodeState → NodeState → Bool
node_eq a b = node_index a == node_index b

abbrev pub mission_eq : MissionState → MissionState → Bool
mission_eq a b = mission_index a == mission_index b

pub data OrchestratorError : Type 0 where
  unknown_node dependency_blocked : String → OrchestratorError
  not_running : OrchestratorError

pub record TaskNode : Type 0 where
  pub id : ℕ
  pub name : String
  pub state : NodeState
  pub attempts : ℕ
  pub max_retries : ℕ
  pub timeout_ms : Option ℕ
  pub depends_on : List ℕ
  pub requires_verification : Bool
  pub verified : Bool
  pub last_error : Option String
  pub checkpoint : Option String

abbrev pub u32 : ℕ → ℕ
u32 n = n % 2 ^ 32

-- `TaskNode::new`, with the fresh id.
abbrev pub new_node : ℕ → String → TaskNode
new_node id name = record {
  id = id;
  name = name;
  state = NodeState.pending;
  attempts = 0;
  max_retries = 3;
  timeout_ms = none;
  depends_on = [];
  requires_verification = false;
  verified = false;
  last_error = none;
  checkpoint = none;
}

abbrev pub with_deps : TaskNode → List ℕ → TaskNode
with_deps n deps = record n { depends_on = deps }

abbrev pub with_timeout : TaskNode → ℕ → TaskNode
with_timeout n ms = record n { timeout_ms = some ms }

abbrev pub with_verification : TaskNode → TaskNode
with_verification n = record n { requires_verification = true }

-- `2u64.saturating_pow(e)`
saturating_pow : ℕ → ℕ
saturating_pow e = min (2 ^ e) (2 ^ 64 - 1)

-- In seconds; `-` on ℕ is `saturating_sub`.
unfoldable pub retry_delay : TaskNode → ℕ
unfolding saturating_pow
retry_delay n = max (min (saturating_pow (n.attempts - 1)) 30) 1

unfoldable pub is_done : TaskNode → Bool
is_done n = node_eq n.state NodeState.completed && (not n.requires_verification || n.verified)

-- Instants in nanoseconds.
unfoldable pub is_timed_out : TaskNode → ℕ → ℕ → Bool
is_timed_out n started now = elim n.timeout_ms [
  | none ↦ false
  | some ms ↦ ltb (ms * 1000000) (now - started)
]
