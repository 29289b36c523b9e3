-- ===== src/Field.antt =====
-- apps/field-dioxus/src/backend.rs: the backend of the FIELD application, which composes the mission, the
-- memory, the approvals, the policy, the telemetry, the discovery and the event bus.
pub mod Views
pub mod Ptt
pub mod Calls
pub mod Honest
pub mod Stopped
pub mod Tests
use igrisv.Base.{
  ℕ, String, Bool, true, false, Option, none, some, List, [], ◌∷◌, if◌then◌else◌, length, nat_key,
  string_key, lookup, Result, ok, err, ◌⁀◌, same, decimal, trim, not,
}
use igrisv.Memory.{Memories, MemoryRecord, new_record, upsert, MemoryType, episodic}
use igrisv.Orchestrator.{
  OrchestratorError, TaskNode, Mission, ready_tasks, begin, record_success, progress_pct, start,
}
use igrisv.Policy.{
  Policy, Flags, Autonomy, engage, disengage, is_engaged, assist, operate, autonomous,
}
use igrisv.Policy.Approvals.{ApprovalStore}
use igrisv.Policy.Approvals
use igrisv.Telemetry.{Telemetry, record_event}
use igrisv.Device.Discovery.{Discovery, DiscoveredDevice, merge_many, accepted}
use igrisv.Events.{
  EventBus, Event, emit, task_progress, approval_resolved, memory_updated, system_warning,
}

-- The flags of the process stand with the backend, since its policy holds an address of one.
pub record FieldBackend (F : Type 0) : Type 0 where
  pub events : EventBus
  pub memory : Memories F
  pub mission : Mission
  pub approvals : ApprovalStore
  pub policy : Policy
  pub flags : Flags
  pub telemetry : Telemetry
  pub discovery : Discovery

-- What a call reads of the clock, for the operation, the telemetry and the bus, and what it draws for its
-- event, with the channel's answer.
pub record Ambient : Type 0 where
  pub now : ℕ
  pub noted_at : ℕ
  pub sent_at : ℕ
  pub event_id : String
  pub receivers : Option ℕ

abbrev pub first : List ℕ → Option ℕ
first [] = none
first (x ∷ xs) = some x

abbrev pub debug_bool : Bool → String
debug_bool true = "true"
debug_bool false = "false"

abbrev pub debug_autonomy : Autonomy → String
debug_autonomy assist = "Assist"
debug_autonomy operate = "Operate"
debug_autonomy autonomous = "Autonomous"

module _ {F : Type 0} where
  abbrev pub noting : FieldBackend F → Ambient → String → String → Bool → FieldBackend F
  noting b a kind summary fine = record b {
    telemetry = record_event b.telemetry a.noted_at kind summary none (some fine);
  }

  abbrev pub emitting : FieldBackend F → Ambient → Event → FieldBackend F
  emitting b a e = record b { events = (emit b.events a.receivers a.event_id a.sent_at e).1 }

  -- `demo_step` behind `begin`, by the task that is found there.
  abbrev pub recorded :
      FieldBackend F → Ambient → Mission → ℕ → Option TaskNode → Option String × FieldBackend F
  recorded b a m id none = (none, record b { mission = m })
  recorded b a m id (some n) =
      let after = record_success m id (some "stepped from FIELD") in
      let told = noting (record b { mission = after }) a "mission" ("completed " ⁀ n.name) true in
      (some n.name, emitting told a (Event.task_progress n.name (progress_pct after)))

  abbrev pub after_begin :
      FieldBackend F
      → Ambient
      → ℕ
      → Result OrchestratorError (Unit {0})
      → Mission
      → Option String × FieldBackend F
  after_begin b a id (err e) m = (none, record b { mission = m })
  after_begin b a id (ok _) m = recorded b a m id (lookup id m.nodes)

  abbrev pub stepped :
      (ℕ → String) → FieldBackend F → Ambient → Option ℕ → Option String × FieldBackend F
  stepped to_string b a none = (none, b)
  stepped to_string b a (some id) =
      let start = begin to_string b.mission id in after_begin b a id start.0 start.1

  unfoldable pub demo_step :
      (ℕ → String) → FieldBackend F → Ambient → Option String × FieldBackend F
  demo_step to_string b a = stepped to_string b a (first (ready_tasks b.mission))

  -- `to_string` of an approval's id is the uuid package's.
  unfoldable pub approve : (ℕ → String) → FieldBackend F → Ambient → ℕ → Bool × FieldBackend F
  approve to_string b a id =
      let done = Approvals.approve b.approvals a.now id in
      let told =
        noting (record b { approvals = done.1 }) a "approval"
          ("approved " ⁀ to_string id ⁀ ": " ⁀ debug_bool done.0) done.0 in
      (done.0, emitting told a (Event.approval_resolved (to_string id) done.0))

  unfoldable pub deny : (ℕ → String) → FieldBackend F → Ambient → ℕ → Bool × FieldBackend F
  deny to_string b a id =
      let done = Approvals.deny b.approvals a.now id in
      let told =
        noting (record b { approvals = done.1 }) a "approval"
          ("denied " ⁀ to_string id ⁀ ": " ⁀ debug_bool done.0) done.0 in
      (done.0, emitting told a (Event.approval_resolved (to_string id) false))

  unfoldable pub set_autonomy : FieldBackend F → Ambient → Autonomy → FieldBackend F
  set_autonomy b a autonomy =
      let set = record b { policy = record (b.policy) { autonomy = autonomy } } in
      noting set a "policy" ("autonomy -> " ⁀ debug_autonomy autonomy) true

  unfoldable pub kill : FieldBackend F → Ambient → FieldBackend F
  kill b a =
      let off = record b { flags = engage b.flags b.policy.kill } in
      emitting (noting off a "policy" "kill-switch ENGAGED" true) a
        (Event.system_warning "kill-switch engaged")

  unfoldable pub revive : FieldBackend F → Ambient → FieldBackend F
  revive b a =
      let on = record b { flags = disengage b.flags b.policy.kill } in
      noting on a "policy" "kill-switch released" true

  unfoldable pub killed : FieldBackend F → Bool
  killed b = is_engaged b.flags b.policy.kill

  -- The search's answer is that of the store; an error is its text.
  unfoldable pub memory_search :
      FieldBackend F
      → Ambient
      → String
      → Result String (List (MemoryRecord F))
      → List (MemoryRecord F) × FieldBackend F
  memory_search b a query (ok hits) = (
    hits,
    noting b a "memory" ("search '" ⁀ query ⁀ "' -> " ⁀ decimal (length hits) ⁀ " hits") true,
  )
  memory_search b a query (err e) = ([], noting b a "memory" ("search failed: " ⁀ e) false)

  -- The literals 0.8, 0.5 and 0.6 come first; `accepted` is whether the table takes the row.
  unfoldable pub memory_put :
      F → F → F → FieldBackend F → Ambient → String → String → Bool → Option String × FieldBackend F
  memory_put four_fifths half three_fifths b a uuid content accepted =
      let text = trim content in
      if same text ""
      then (none, b)
      else if not accepted
      then (none, b)
      else (let r =
            new_record four_fifths half uuid a.now MemoryType.episodic text "field-ui" "local" in
          let stored = record b {
            memory = upsert b.memory (record r { importance = three_fifths });
          } in
          (
            some uuid,
            emitting (noting stored a "memory" "stored note from FIELD" true) a
                (Event.memory_updated "episodic"),
          ))

  unfoldable pub merge_devices : FieldBackend F → Ambient → List DiscoveredDevice → FieldBackend F
  merge_devices b a fresh = record b { discovery = (merge_many b.discovery a.now fresh).1 }

  -- The sweep's answer is that of a scanner of its own; an error is its text.
  unfoldable pub run_lan_scan :
      FieldBackend F → Ambient → Result String (List DiscoveredDevice) → FieldBackend F
  run_lan_scan b a (ok found) = merge_devices b a found
  run_lan_scan b a (err e) =
      merge_devices (noting b a "discovery" ("scan client failed: " ⁀ e) false) a []
