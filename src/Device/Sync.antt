-- ===== src/Device/Sync.antt =====
-- crates/igris-device/src/sync.rs: the records that devices exchange, merged by the later stamp. A
-- timestamp, an `i64`, stands as its distance from the least one: timestamps are only compared.
pub mod Order
pub mod Merge
pub mod Tests
use igrisv.Base.{
  ℕ, ◌+◌, String, Bool, true, false, not, ◌&&◌, ◌||◌, Option, none, some, List, [], ◌∷◌, ltb, ◌==◌,
  if◌then◌else◌, keep, nat_key, string_key, Assoc, values, lookup, insert, same, text_ltb,
}

pub record SyncRecord : Type 0 where
  pub id : String
  pub updated_ms : ℕ
  pub device_id : String
  pub deleted : Bool
  pub payload : List ℕ

-- `>` on pairs compares the second components only if the first are equal.
unfoldable pub superseded_by : SyncRecord → SyncRecord → Bool
superseded_by cur other =
    ltb cur.updated_ms other.updated_ms
    || (cur.updated_ms == other.updated_ms && text_ltb cur.device_id other.device_id)

-- The engine is its map.
abbrev pub SyncEngine : Type 0
SyncEngine = Assoc String SyncRecord

pub record MergeReport : Type 0 where
  pub applied : ℕ
  pub skipped_stale : ℕ
  pub tombstones_applied : ℕ

abbrev pub blank_report : MergeReport
blank_report = record { applied = 0; skipped_stale = 0; tombstones_applied = 0 }

unfoldable pub put_local : SyncEngine → SyncRecord → SyncEngine
put_local local r = insert r.id r local

unfoldable pub get : SyncEngine → String → Option SyncRecord
get local id = lookup id local

unfoldable pub live : SyncEngine → List SyncRecord
live local = keep (λ r. not r.deleted) (values local)

abbrev pub note_applied : MergeReport → SyncRecord → MergeReport
note_applied report r =
    if r.deleted
    then record report { tombstones_applied = report.tombstones_applied + 1 }
    else record report { applied = report.applied + 1 }

abbrev pub note_skipped : MergeReport → MergeReport
note_skipped report = record report { skipped_stale = report.skipped_stale + 1 }

-- The body of the loop.
unfoldable pub absorb : SyncEngine → MergeReport → SyncRecord → SyncEngine × MergeReport
absorb local report r = elim (lookup r.id local) [
  | none ↦ (insert r.id r local, note_applied report r)
  | some cur ↦
      if same cur.id r.id && not (superseded_by cur r) && not (superseded_by r cur)
      then (local, note_skipped report)
      else if superseded_by cur r
      then (insert r.id r local, note_applied report r)
      else (local, note_skipped report)
]

unfoldable pub merge_from : SyncEngine → MergeReport → List SyncRecord → SyncEngine × MergeReport
merge_from local report [] = (local, report)
merge_from local report (r ∷ rs) = let next = absorb local report r in merge_from next.0 next.1 rs

unfoldable pub merge : SyncEngine → List SyncRecord → SyncEngine × MergeReport
merge local remote = merge_from local blank_report remote

unfoldable pub delta_since : SyncEngine → ℕ → List SyncRecord
delta_since local since_ms = keep (λ r. ltb since_ms r.updated_ms) (values local)
