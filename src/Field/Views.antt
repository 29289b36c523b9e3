-- ===== src/Field/Views.antt =====
-- apps/field-dioxus/src/backend.rs: the start of the backend, and what its panels read.
use igrisv.Base.{
  ℕ, String, Bool, true, false, Option, none, some, List, [], ◌∷◌, map, if◌then◌else◌, nat_key,
  string_key, Assoc, lookup, ◌⁀◌, decimal,
}
use igrisv.Memory.{Memories, new_record, upsert, count, MemoryType}
use igrisv.Orchestrator
use igrisv.Orchestrator.{
  Mission, new, add, progress_pct, new_node, with_deps, NodeState, pending, running, paused,
  completed, failed, cancelled, TaskNode,
}
use igrisv.Policy
use igrisv.Policy.{
  Policy, Flags, write_flag, default, PermissionLevel, l1_write, approval_required, Autonomy,
}
use igrisv.Policy.Approvals
use igrisv.Policy.Approvals.{Approval, list_pending, request, approved}
use igrisv.Telemetry
use igrisv.Device.Discovery.{DiscoveredDevice, known}
use igrisv.Events
use igrisv.Events.{
  Event, task_started, task_progress, task_completed, task_failed, approval_resolved, tool_started,
  tool_completed, memory_updated, agent_created, agent_failed, system_warning, heartbeat,
  user_input, voice_detected, device_online, device_offline,
}
use igrisv.Reflex.Cache.{decide_once}
use igrisv.Reflex.{
  Float, Intent, Risk, device_transfer, device_status, memory_query, tool_exec, communication,
  risky_op, general, low, medium, high, critical,
}
use igrisv.Field.{FieldBackend, Ambient, noting, emitting}

pub record NodeView : Type 0 where
  pub name : String
  pub state : String
  pub checkpoint : Option String

pub record DecideView (F : Type 0) : Type 0 where
  pub intent : String
  pub risk : String
  pub confidence : F
  pub requires_reasoning : Bool
  pub approval : Bool

pub record DeviceView : Type 0 where
  pub name : String
  pub platform : String
  pub ip : String

-- `{:?}` of the states, the intents and the risks.
abbrev pub debug_state : NodeState → String
debug_state NodeState.pending = "Pending"
debug_state NodeState.running = "Running"
debug_state NodeState.paused = "Paused"
debug_state NodeState.completed = "Completed"
debug_state NodeState.failed = "Failed"
debug_state NodeState.cancelled = "Cancelled"

abbrev pub debug_intent : Intent → String
debug_intent device_transfer = "DeviceTransfer"
debug_intent device_status = "DeviceStatus"
debug_intent memory_query = "MemoryQuery"
debug_intent tool_exec = "ToolExec"
debug_intent communication = "Communication"
debug_intent risky_op = "RiskyOp"
debug_intent general = "General"

abbrev pub debug_risk : Risk → String
debug_risk low = "Low"
debug_risk medium = "Medium"
debug_risk high = "High"
debug_risk critical = "Critical"

abbrev pub view_node : TaskNode → NodeView
view_node n = record { name = n.name; state = debug_state n.state; checkpoint = n.checkpoint }

-- `filter_map` over the ids.
abbrev pub nodes_of : Assoc ℕ TaskNode → List ℕ → List NodeView
nodes_of nodes [] = []
nodes_of nodes (id ∷ order) =
    let rest = nodes_of nodes order in
    elim (lookup id nodes) [ none ↦ rest | some n ↦ view_node n ∷ rest ]

abbrev pub view_device : DiscoveredDevice → DeviceView
view_device d = record { name = d.name; platform = d.platform; ip = d.ip }

-- The ids that the three tasks draw.
unfoldable pub seed_mission : ℕ → ℕ → ℕ → Mission
seed_mission research implement verify =
    Orchestrator.checkpoint
      (Orchestrator.add
        (Orchestrator.add
          (Orchestrator.add Orchestrator.new (new_node research "Research panel data sources")).1
          (with_deps (new_node implement "implement") (research ∷ []))).1
        (with_deps (new_node verify "verify panels") (implement ∷ []))).1
      research "sources mapped"

module _ {F : Type 0} where
  -- The literals 0.8, 0.5 and 0.7, and the ids that the three records draw.
  unfoldable pub seed_memory : F → F → F → ℕ → String → String → String → Memories F
  seed_memory four_fifths half seven_tenths now u v w =
      let note = λ (id : String) (kind : MemoryType) (content : String).
        record (new_record four_fifths half id now kind content "field-boot" "local") {
          importance = seven_tenths;
        } in
      upsert
        (upsert
          (upsert [] (
            note u MemoryType.episodic
              "FIELD command-center online. Missions, memory, approvals live."))
          (note v MemoryType.preference "User prefers concise status briefs over verbose reports."))
        (note w MemoryType.goal "Goal: ship IGRIS v5 Phase 11 with all panels wired.")

  -- `flag` is the address of the policy's flag, `minutes` the half hour in the unit of the clock; the
  -- ids are those that the seeds draw.
  unfoldable pub boot :
      F
      → F
      → F
      → Flags
      → ℕ
      → String × String × String
      → ℕ × ℕ × ℕ
      → ℕ
      → ℕ
      → Ambient
      → FieldBackend F
  boot four_fifths half seven_tenths flags flag (u, v, w) (research, implement, verify) approval
        minutes a =
      let bare : FieldBackend F = record {
        events = Events.new;
        memory = seed_memory four_fifths half seven_tenths a.now u v w;
        mission = seed_mission research implement verify;
        approvals =
            (Approvals.request Approvals.new a.now approval
              "Enable Operate autonomy for low-risk tasks" PermissionLevel.l1_write minutes).1;
        policy = Policy.default flag;
        flags = Policy.write_flag flags flag false;
        telemetry = Telemetry.new;
        discovery = record { devices = [] };
      } in
      emitting (noting bare a "boot" "FIELD backend online" true) a (Event.heartbeat "field")

  abbrev pub mission_progress : FieldBackend F → ℕ
  mission_progress b = Orchestrator.progress_pct b.mission

  unfoldable pub mission_nodes : FieldBackend F → List NodeView
  mission_nodes b = nodes_of b.mission.nodes b.mission.order

  abbrev pub memory_count : FieldBackend F → ℕ → ℕ
  memory_count b now = count b.memory now

  abbrev pub autonomy : FieldBackend F → Policy.Autonomy
  autonomy b = b.policy.autonomy

  abbrev pub timeline : FieldBackend F → ℕ → List Telemetry.TimelineEntry
  timeline b n = Telemetry.recent b.telemetry n

  abbrev pub event_totals : FieldBackend F → ℕ × ℕ
  event_totals b = Telemetry.totals b.telemetry

  abbrev pub pending_approvals : FieldBackend F → List Approval
  pending_approvals b = list_pending b.approvals

  unfoldable pub known_devices : FieldBackend F → List DeviceView
  known_devices b = map view_device (known b.discovery)

-- `two_digits` prints `{:.2}`.
unfoldable pub decide_summary :
    (float : Float)
    → (float.f32 → String)
    → (String → String)
    → FieldBackend float.f32
    → Ambient
    → String
    → DecideView float.f32 × FieldBackend float.f32
decide_summary float two_digits to_lowercase b a text =
    let d = decide_once float to_lowercase text in
    (
      record {
        intent = debug_intent d.intent;
        risk = debug_risk d.risk;
        confidence = d.confidence;
        requires_reasoning = d.requires_reasoning;
        approval = d.approval;
      },
      noting b a "reflex" ("intent=" ⁀ debug_intent d.intent ⁀ " conf=" ⁀ two_digits d.confidence)
          true,
    )

unfoldable pub summarize_event : Event → String
summarize_event (Event.user_input text) = "you: " ⁀ text
summarize_event (Event.voice_detected transcript) = "heard: " ⁀ transcript
summarize_event (Event.device_online device_id) = "device online: " ⁀ device_id
summarize_event (Event.device_offline device_id) = "device offline: " ⁀ device_id
summarize_event (Event.task_started task_id) = "started " ⁀ task_id
summarize_event (Event.task_progress task_id pct) = task_id ⁀ " " ⁀ decimal pct ⁀ "%"
summarize_event (Event.task_completed task_id) = "done " ⁀ task_id
summarize_event (Event.task_failed task_id reason) = task_id ⁀ " failed: " ⁀ reason
summarize_event (Event.approval_required request_id summary) = "approval needed: " ⁀ summary
summarize_event (Event.approval_resolved request_id given) =
    "approval " ⁀ request_id ⁀ " -> " ⁀ (if given then "granted" else "denied")
summarize_event (Event.tool_started tool) = "tool " ⁀ tool ⁀ "…"
summarize_event (Event.tool_completed tool fine) =
    "tool " ⁀ tool ⁀ " " ⁀ (if fine then "ok" else "failed")
summarize_event (Event.memory_updated kind) = "memory updated (" ⁀ kind ⁀ ")"
summarize_event (Event.agent_created agent) = "agent up: " ⁀ agent
summarize_event (Event.agent_failed agent reason) = "agent " ⁀ agent ⁀ " failed: " ⁀ reason
summarize_event (Event.system_warning msg) = "warning: " ⁀ msg
summarize_event (Event.heartbeat from) = "heartbeat"
