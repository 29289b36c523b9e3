-- ===== src/Gateway.antt =====
-- crates/igris-gateway/src/lib.rs: Gateway. The bus behind its Arc stands in the gateway; what others emit
-- on it between two calls is not part of the model.
pub mod Tests
use igrisv.Base.{
  ℕ, String, Option, none, some, List, [], ◌∷◌, length, string_key, Assoc, insert, nat_key,
}
use igrisv.Events.{EventBus, Event, emit, agent_created, heartbeat}

pub record Session : Type 0 where
  pub id : String
  pub device_id : String

pub record Gateway : Type 0 where
  pub bus : Option EventBus
  pub sessions : Assoc String Session

-- What an event draws: its id, its time, and the channel's answer.
pub record Draw : Type 0 where
  pub event_id : String
  pub at : ℕ
  pub receivers : Option ℕ

abbrev pub new : Gateway
new = record { bus = none; sessions = [] }

abbrev pub attach_bus : Gateway → EventBus → Gateway
attach_bus g bus = record g { bus = some bus }

-- An event on the bus, if there is one.
abbrev pub told : Option EventBus → Draw → Event → Option EventBus
told none d e = none
told (some bus) d e = some (emit bus d.receivers d.event_id d.at e).1

unfoldable pub register_session : Gateway → Draw → String → String → Gateway
register_session g d id device_id = record {
  bus = told g.bus d (Event.agent_created id);
  sessions = insert id (record { id = id; device_id = device_id }) g.sessions;
}

abbrev pub session_count : Gateway → ℕ
session_count g = length g.sessions

-- What the loop does in as many ticks, each with what its event draws; it breaks where there is no bus.
unfoldable pub heartbeat_forever : Gateway → String → List Draw → Gateway
heartbeat_forever g from [] = g
heartbeat_forever g from (d ∷ ds) = elim g.bus [
  | none ↦ g
  | some bus ↦
      heartbeat_forever (record g { bus = told (some bus) d (Event.heartbeat from) }) from ds
]
