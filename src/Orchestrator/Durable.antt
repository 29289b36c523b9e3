-- ===== src/Orchestrator/Durable.antt =====
-- crates/igris-orchestrator/src/lib.rs: a mission as a text, and the timer around a task. serde_json and
-- tokio's timer are parameters.
use igrisv.Base.{String, Option, none, some, Result, ok, err, ◌≡◌, arith, ap}
use igrisv.Orchestrator.{Mission, OrchestratorError, unknown_node}

-- The parameters print and parse a mission, with the text of their error.
abbrev pub map_err : {A : Type 0} → Result String A → Result OrchestratorError A
map_err (ok a) = ok a
map_err (err e) = err (unknown_node e)

unfoldable pub to_json :
    (Mission → Result String String) → Mission → Result OrchestratorError String
to_json to_string_pretty m = map_err (to_string_pretty m)

unfoldable pub from_json :
    (String → Result String Mission) → String → Result OrchestratorError Mission
from_json from_str json = map_err (from_str json)

-- `timed` is the timer's answer: `err` where the time was over first.
abbrev pub run_with_timeout : {T : Type 0} → Result (Unit {0}) T → Option T
run_with_timeout (ok t) = some t
run_with_timeout (err _) = none

ok_text : (r : Result String String) (json : String) → map_err r ≡ ok json → r ≡ ok json
ok_text (ok a) json h = ground (arith, h)
ok_text (err e) json h = absurd (ground (arith, h))

-- If the package reads back what it prints, a mission that is saved is restored as it was.
pub from_json-to_json :
    (to_string_pretty : Mission → Result String String) (from_str : String → Result String Mission)
    (m : Mission) (json : String)
    → ((m : Mission) (s : String) → to_string_pretty m ≡ ok s → from_str s ≡ ok m)
    → to_json to_string_pretty m ≡ ok json
    → from_json from_str json ≡ ok m
unfolding to_json from_json
from_json-to_json to_string_pretty from_str m json back h =
    ap map_err (back m json (ok_text (to_string_pretty m) json h))
