-- ===== src/Events.antt =====
-- crates/igris-events/src/lib.rs: the event bus. What its channel has been handed stands in a list; how
-- many receivers an event reaches is the channel's.
use igrisv.Base.{ℕ, String, Bool, Option, List, [], ◌∷◌, ◌++◌, unwrap_or}

abbrev pub bus_capacity : ℕ
bus_capacity = 1024

pub data Event : Type 0 where
  user_input voice_detected : String → Event
  device_online device_offline : String → Event
  task_started : String → Event
  task_progress : String → ℕ → Event
  task_completed : String → Event
  task_failed : String → String → Event
  approval_required : String → String → Event
  approval_resolved : String → Bool → Event
  tool_started : String → Event
  tool_completed : String → Bool → Event
  memory_updated : String → Event
  agent_created : String → Event
  agent_failed : String → String → Event
  system_warning : String → Event
  heartbeat : String → Event

pub record Envelope : Type 0 where
  pub id : String
  pub at : ℕ
  pub event : Event

pub record EventBus : Type 0 where
  pub handed : List Envelope

abbrev pub new : EventBus
new = record { handed = [] }

-- `send`'s result is `none` where nobody listens.
abbrev pub emit : EventBus → Option ℕ → String → ℕ → Event → ℕ × EventBus
emit bus receivers id at event = (
  unwrap_or 0 receivers,
  record { handed = bus.handed ++ record { id = id; at = at; event = event } ∷ [] },
)
