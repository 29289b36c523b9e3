-- ===== src/Cli/Commands.antt =====
-- apps/cli/src/main.rs: the commands and their exit codes. What a command prints is its value before it is
-- written as a text, which is serde_json's and the printer's.
use igrisv.Base.{
  ℕ, String, Bool, Option, none, some, List, [], ◌∷◌, if◌then◌else◌, join, trim, same, length, true,
}
use igrisv.Reflex.{Float, ReflexDecision}
use igrisv.Reflex.Cache.{decide_once}
use igrisv.Memory.{Memories, MemoryRecord, new_record, upsert, MemoryType}
use igrisv.Memory.Search.{Scores, Matching, search}
use igrisv.Orchestrator.{is_complete, progress_pct}
use igrisv.Policy.{PermissionLevel}
use igrisv.Policy.Approvals
use igrisv.Telemetry
use igrisv.Telemetry.{TimelineEntry, record_event, recent, Telemetry}
use igrisv.Voice.Tts.{VoiceBackendStatus}
use igrisv.Cli.{Driven, drive, demo, ended}

pub data Printed (F G : Type 0) : Type 0 where
  usage unknown_command empty_text : Printed F G
  decision : ReflexDecision F → Printed F G
  stored_id : String → Printed F G
  hits : List (MemoryRecord G) → Printed F G
  mission : List String → ℕ → Bool → Printed F G
  approval : Bool → ℕ → Printed F G
  timeline : List TimelineEntry → Printed F G
  voice : VoiceBackendStatus → Printed F G

-- The instant at which a command runs, and the ids that it draws.
pub record Draws : Type 0 where
  pub now : ℕ
  pub note : String
  pub seeds : String × String × String
  pub nodes : ℕ × ℕ × ℕ
  pub request : ℕ

-- `minutes` is five minutes in the unit of the clock.
unfoldable pub approve_demo : ℕ → ℕ → ℕ → Bool × ℕ
approve_demo now request minutes =
    let asked =
      (Approvals.request Approvals.new now request "cli demo approval" PermissionLevel.l1_write
        minutes).1 in
    let given = Approvals.approve asked now request in
    (given.0, length (Approvals.list_pending given.1))

-- Two records on the timeline, read back; the event between them goes to a bus that nobody hears.
unfoldable pub timeline_demo : ℕ → List TimelineEntry
timeline_demo now =
    recent
      (record_event (record_event Telemetry.new now "cli" "demo start" none (some true)) now "cli"
        "demo end" (some 3) (some true))
      5

-- A panic, or a mission that does not end, prints nothing.
abbrev pub told : {F G : Type 0} → Driven → Option (ℕ × Printed F G)
told (ended m log) = some (0, mission log (progress_pct m) (is_complete m))
told d = none

unfoldable pub mission_demo : {F G : Type 0} → (ℕ → String) → ℕ × ℕ × ℕ → Option (ℕ × Printed F G)
mission_demo to_string (a, b, c) = told (drive to_string 4 (demo a b c) [])

module _ {G : Type 0} (four_fifths half : G) where
  unfoldable pub seed_store : ℕ → String × String × String → Memories G
  seed_store now (u, v, w) =
      let seed = λ (drawn content : String).
        new_record four_fifths half drawn now MemoryType.semantic content "cli-seed" "local" in
      upsert
        (upsert (upsert [] (seed u "FIELD shell boots with live backends"))
          (seed v "user prefers concise briefs"))
        (seed w "router keeps secrets local")

-- What `run` is given from outside: the printing of node ids, the literals of a record, what the search
-- uses, and the state of the voice.
module _ (float : Float) (s : Scores) (q : Matching) (to_string : ℕ → String)
    (four_fifths half : s.f32) (status : VoiceBackendStatus) (minutes : ℕ) where
  abbrev pub decide_command : String → Option (ℕ × Printed float.f32 s.f32)
  decide_command text =
      if same (trim text) ""
      then some (2, empty_text)
      else some (0, decision (decide_once float q.to_lowercase text))

  abbrev pub approve_command : Bool × ℕ → Option (ℕ × Printed float.f32 s.f32)
  approve_command (given, left) = some (0, approval given left)

  -- The arguments without the program's name; `none` is a panic.
  unfoldable pub run : Draws → List String → Option (ℕ × Printed float.f32 s.f32)
  run d [] = some (2, usage)
  run d (command ∷ rest) =
      if same command "decide"
      then decide_command (join " " rest)
      else if same command "memory-put"
      then some (0, stored_id d.note)
      else if same command "memory-find"
      then some (
        0,
        hits
            (search s q (seed_store four_fifths half d.now d.seeds) d.now d.now (join " " rest) 10),
      )
      else if same command "mission-demo"
      then mission_demo to_string d.nodes
      else if same command "approve-demo"
      then approve_command (approve_demo d.now d.request minutes)
      else if same command "timeline-demo"
      then some (0, timeline (timeline_demo d.now))
      else if same command "voice-status"
      then some (0, voice status)
      else some (2, unknown_command)
