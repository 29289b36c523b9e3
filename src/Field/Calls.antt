-- ===== src/Field/Calls.antt =====
-- apps/field-dioxus/src/backend.rs: the calls of the panels, one after the other.
use igrisv.Base.{ℕ, String, List, [], ◌∷◌, Result, Bool}
use igrisv.Memory.{MemoryRecord}
use igrisv.Policy.{Autonomy}
use igrisv.Device.Discovery.{DiscoveredDevice, accepted}
use igrisv.Field.{
  FieldBackend, Ambient, demo_step, approve, deny, set_autonomy, kill, revive, memory_search,
  memory_put, merge_devices, run_lan_scan,
}

-- A call with what it is given from outside the backend.
pub data Call (F : Type 0) : Type 0 where
  steps : Call F
  approves denies : ℕ → Call F
  sets_autonomy : Autonomy → Call F
  kills revives : Call F
  searches : String → Result String (List (MemoryRecord F)) → Call F
  puts : String → String → Bool → Call F
  merges : List DiscoveredDevice → Call F
  scans : Result String (List DiscoveredDevice) → Call F

module _ {F : Type 0} (to_string : ℕ → String) (four_fifths half three_fifths : F) where
  abbrev pub step : FieldBackend F → Ambient × Call F → FieldBackend F
  step b (a, steps) = (demo_step to_string b a).1
  step b (a, approves id) = (approve to_string b a id).1
  step b (a, denies id) = (deny to_string b a id).1
  step b (a, sets_autonomy autonomy) = set_autonomy b a autonomy
  step b (a, kills) = kill b a
  step b (a, revives) = revive b a
  step b (a, searches query answer) = (memory_search b a query answer).1
  step b (a, puts uuid content accepted) =
      (memory_put four_fifths half three_fifths b a uuid content accepted).1
  step b (a, merges fresh) = merge_devices b a fresh
  step b (a, scans answer) = run_lan_scan b a answer

  unfoldable pub run : FieldBackend F → List (Ambient × Call F) → FieldBackend F
  run b [] = b
  run b (c ∷ cs) = run (step b c) cs
