-- ===== src/Telemetry/Tests.antt =====
-- Tests of the telemetry, and an instance of its theorem.
use igrisv.Base.{◌≡◌, refl, true, false, none, some, List, [], ◌∷◌}
use igrisv.Telemetry.{new, note, entry, recent, totals, TimelineEntry}
use igrisv.Telemetry.Timeline.{note_all-Tells, note_all, Tells}

abbrev two : List TimelineEntry
two = entry 1 "tool" "ran" (some 5) (some true) ∷ entry 2 "tool" "broke" none (some false) ∷ []

counted : totals (note_all new two) ≡ (2, 1)
unfolding note_all note
counted = refl

last_first : recent (note_all new two) 1 ≡ entry 2 "tool" "broke" none (some false) ∷ []
unfolding recent note_all note
last_first = refl

note_all-Tells_example : Tells two (note_all new two)
note_all-Tells_example = note_all-Tells two [] new (refl, refl, refl)
