-- ===== src/Memory.antt =====
-- crates/igris-memory/src/lib.rs: typed memories that merge by their time. A table is the list of its
-- rows, on which the statements of the source do what they say; ids are the texts of their uuids, instants
-- are numbers, and `F` is `f32`. The full-text index, the embeddings and serde_json are not modelled.
pub mod Merge
pub mod Graph
pub mod Walk
pub mod Near
pub mod Complete
pub mod Rows
pub mod Export
pub mod Search
pub mod Tests
use igrisv.Base.{
  ℕ, ◌+◌, String, Bool, true, false, not, ◌&&◌, Option, none, some, List, [], ◌∷◌, ltb, leb,
  if◌then◌else◌, length, keep, nat_key, string_key, Assoc, values, lookup, insert, update,
  map_values, same,
}

pub data MemoryType : Type 0 where
  working episodic semantic procedural preference goal relationship device project skill :
      MemoryType

abbrev pub as_str : MemoryType → String
as_str working = "working"
as_str episodic = "episodic"
as_str semantic = "semantic"
as_str procedural = "procedural"
as_str preference = "preference"
as_str goal = "goal"
as_str relationship = "relationship"
as_str device = "device"
as_str project = "project"
as_str skill = "skill"

unfoldable pub parse : String → MemoryType
parse s =
    if same s "working"
    then working
    else if same s "episodic"
    then episodic
    else if same s "procedural"
    then procedural
    else if same s "preference"
    then preference
    else if same s "goal"
    then goal
    else if same s "relationship"
    then relationship
    else if same s "device"
    then device
    else if same s "project"
    then project
    else if same s "skill"
    then skill
    else semantic

pub data PrivacyScope : Type 0 where
  local_only hybrid cloud_allowed : PrivacyScope

abbrev pub scope_str : PrivacyScope → String
scope_str local_only = "local_only"
scope_str hybrid = "hybrid"
scope_str cloud_allowed = "cloud_allowed"

unfoldable pub parse_scope : String → PrivacyScope
parse_scope s =
    if same s "hybrid" then hybrid else if same s "cloud_allowed" then cloud_allowed else local_only

abbrev pub may_sync : PrivacyScope → Bool
may_sync local_only = false
may_sync _ = true

pub record Provenance (F : Type 0) : Type 0 where
  pub source : String
  pub device_id : String
  pub agent : Option String
  pub tool : Option String
  pub model : Option String
  pub confidence : F

pub record MemoryRecord (F : Type 0) : Type 0 where
  pub id : String
  pub kind : MemoryType
  pub content : String
  pub source : String
  pub created_at : ℕ
  pub updated_at : ℕ
  pub confidence : F
  pub importance : F
  pub privacy : PrivacyScope
  pub owner : String
  pub provenance : Provenance F
  pub tags : List String
  pub device_id : String
  pub expires_at : Option ℕ
  pub deleted : Bool

-- The rows of the table, by their primary key.
abbrev pub Memories : Type 0 → Type 0
Memories F = Assoc String (MemoryRecord F)

module _ {F : Type 0} where
  -- `four_fifths` and `half` are the literals 0.8 and 0.5.
  abbrev pub new_record :
      F → F → String → ℕ → MemoryType → String → String → String → MemoryRecord F
  new_record four_fifths half uuid now kind content source device_id = record {
    id = uuid;
    kind = kind;
    content = content;
    source = source;
    created_at = now;
    updated_at = now;
    confidence = four_fifths;
    importance = half;
    privacy = local_only;
    owner = "user";
    provenance = record {
      source = source;
      device_id = device_id;
      agent = none;
      tool = none;
      model = none;
      confidence = four_fifths;
    };
    tags = [];
    device_id = device_id;
    expires_at = none;
    deleted = false;
  }

  unfoldable pub is_expired : ℕ → MemoryRecord F → Bool
  is_expired now r = elim r.expires_at [ none ↦ false | some e ↦ leb e now ]

  unfoldable pub is_live : ℕ → MemoryRecord F → Bool
  is_live now r = not r.deleted && not (is_expired now r)

  unfoldable pub upsert : Memories F → MemoryRecord F → Memories F
  upsert m r = elim (lookup r.id m) [
    | none ↦ insert r.id r m
    | some old ↦ (if ltb r.updated_at old.updated_at then m else insert r.id r m)
  ]

  abbrev pub get : Memories F → String → Option (MemoryRecord F)
  get m id = lookup id m

  abbrev is_some : Option (MemoryRecord F) → Bool
  is_some none = false
  is_some (some r) = true

  unfoldable pub soft_delete : Memories F → ℕ → String → Bool × Memories F
  soft_delete m now id =
      (is_some (lookup id m), update id (λ r. record r { deleted = true; updated_at = now }) m)

  unfoldable pub restore : Memories F → ℕ → String → Bool × Memories F
  restore m now id =
      (is_some (lookup id m), update id (λ r. record r { deleted = false; updated_at = now }) m)

  abbrev forgotten : (MemoryRecord F → Bool) → MemoryRecord F → MemoryRecord F
  forgotten p r = if p r && not r.deleted then record r { deleted = true } else r

  -- An `UPDATE` with the count of the rows that it changed.
  abbrev forget : (MemoryRecord F → Bool) → Memories F → ℕ × Memories F
  forget p m = (length (keep (λ r. p r && not r.deleted) (values m)), map_values (forgotten p) m)

  unfoldable pub forget_by_type : Memories F → MemoryType → ℕ × Memories F
  forget_by_type m kind = forget (λ r. same (as_str r.kind) (as_str kind)) m

  unfoldable pub forget_expired : Memories F → ℕ → ℕ × Memories F
  forget_expired m now = forget (is_expired now) m

  unfoldable pub count : Memories F → ℕ → ℕ
  count m now = length (keep (is_live now) (values m))

  -- The import of records that are parsed.
  unfoldable pub import_all : Memories F → List (MemoryRecord F) → ℕ × Memories F
  import_all m [] = (0, m)
  import_all m (r ∷ rs) = let rest = import_all (upsert m r) rs in (rest.0 + 1, rest.1)
