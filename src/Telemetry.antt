-- ===== src/Telemetry.antt =====
-- crates/igris-telemetry/src/lib.rs: counters and a bounded timeline. The clock is an argument.
pub mod Timeline
pub mod Tests
use mathlib.Core.List.{reverse}
use igrisv.Base.{
  ℕ, zero, suc, ◌+◌, ◌%◌, ◌^◌, String, Bool, false, not, Option, none, some, List, [], ◌∷◌, ◌++◌,
  leb, if◌then◌else◌, length, drop,
}

pub record TimelineEntry : Type 0 where
  pub at : ℕ
  pub kind : String
  pub summary : String
  pub latency_ms : Option ℕ
  pub ok : Option Bool

pub record Telemetry : Type 0 where
  pub timeline : List TimelineEntry
  pub events_total : ℕ
  pub errors_total : ℕ

abbrev pub new : Telemetry
new = record { timeline = []; events_total = 0; errors_total = 0 }

-- `chars().take(n).collect()`
abbrev pub take_chars : ℕ → String → String
take_chars zero s = ""
take_chars (suc n) String.[] = ""
take_chars (suc n) (String.◌∷◌ c s) = String.◌∷◌ c (take_chars n s)

abbrev pub is_error : Option Bool → Bool
is_error none = false
is_error (some b) = not b

abbrev pub entry : ℕ → String → String → Option ℕ → Option Bool → TimelineEntry
entry now kind summary latency_ms ok = record {
  at = now;
  kind = kind;
  summary = take_chars 240 summary;
  latency_ms = latency_ms;
  ok = ok;
}

unfoldable pub note : Telemetry → TimelineEntry → Telemetry
note t e = record {
  timeline = (if leb 1000 (length t.timeline) then drop 1 t.timeline else t.timeline) ++ e ∷ [];
  events_total = (t.events_total + 1) % 2 ^ 64;
  errors_total = if is_error e.ok then (t.errors_total + 1) % 2 ^ 64 else t.errors_total;
}

unfoldable pub record_event : Telemetry → ℕ → String → String → Option ℕ → Option Bool → Telemetry
record_event t now kind summary latency_ms ok = note t (entry now kind summary latency_ms ok)

abbrev take_rows : ℕ → List TimelineEntry → List TimelineEntry
take_rows zero es = []
take_rows (suc n) [] = []
take_rows (suc n) (e ∷ es) = e ∷ take_rows n es

unfoldable pub recent : Telemetry → ℕ → List TimelineEntry
recent t n = take_rows n (reverse t.timeline)

abbrev pub totals : Telemetry → ℕ × ℕ
totals t = (t.events_total, t.errors_total)
