-- ===== src/Memory/Rows.antt =====
-- igris-memory: the row of a record in the table, which `upsert` writes and `row_to_record` reads. The
-- uuid package, chrono and serde_json are parameters.
pub mod Tests
use mathlib.Core.Option
use igrisv.Base.{
  ℕ, String, ◌≡◌, refl, not, Option, none, some, List, [], ◌==◌, if◌then◌else◌, unwrap_or, inl, inr,
  arith, Option-cases, map,
}
use igrisv.Memory.{MemoryRecord, as_str, parse, scope_str, parse_scope, Provenance}
use igrisv.Memory.Merge.{parse-as_str}

-- What the table uses of those: printers, and parsers that can fail.
pub record Codec (F : Type 0) : Type 0 where
  pub parse_uuid : String → Option String
  pub to_rfc3339 : ℕ → String
  pub parse_time : String → Option ℕ
  pub provenance_to_string : Provenance F → Option String
  pub provenance_from_str : String → Option (Provenance F)
  pub tags_to_string : List String → Option String
  pub tags_from_str : String → Option (List String)

pub record Row (F : Type 0) : Type 0 where
  pub id : String
  pub kind : String
  pub content : String
  pub source : String
  pub created_at : String
  pub updated_at : String
  pub confidence : F
  pub importance : F
  pub privacy : String
  pub owner : String
  pub provenance_json : String
  pub tags_json : String
  pub device_id : String
  pub expires_at : Option String
  pub deleted : ℕ

module _ {F : Type 0} (c : Codec F) where
  -- The values that `upsert` binds, with the printed provenance and tags.
  abbrev pub bound : MemoryRecord F → String → String → Row F
  bound r prov tags = record {
    id = r.id;
    kind = as_str r.kind;
    content = r.content;
    source = r.source;
    created_at = c.to_rfc3339 r.created_at;
    updated_at = c.to_rfc3339 r.updated_at;
    confidence = r.confidence;
    importance = r.importance;
    privacy = scope_str r.privacy;
    owner = r.owner;
    provenance_json = prov;
    tags_json = tags;
    device_id = r.device_id;
    expires_at = Option.map c.to_rfc3339 r.expires_at;
    deleted = if r.deleted then 1 else 0;
  }

  -- `none` is a serialization error.
  unfoldable pub row_of : MemoryRecord F → Option (Row F)
  row_of r = elim (c.provenance_to_string r.provenance) [
    | none ↦ none
    | some prov ↦ elim (c.tags_to_string r.tags) [
      | none ↦ none
      | some tags ↦ some (bound r prov tags)
    ]
  ]

  abbrev parsed_time : Option String → Option ℕ
  parsed_time none = none
  parsed_time (some s) = c.parse_time s

  -- `drawn`, `now` and `later` are the fresh id and the instants of the fallbacks.
  unfoldable pub row_to_record : F → String → ℕ → ℕ → Row F → MemoryRecord F
  row_to_record half drawn now later row = record {
    id = unwrap_or drawn (c.parse_uuid row.id);
    kind = parse row.kind;
    content = row.content;
    source = row.source;
    created_at = unwrap_or now (c.parse_time row.created_at);
    updated_at = unwrap_or later (c.parse_time row.updated_at);
    confidence = row.confidence;
    importance = row.importance;
    privacy = parse_scope row.privacy;
    owner = row.owner;
    provenance =
        unwrap_or
          (record {
            source = row.source;
            device_id = "";
            agent = none;
            tool = none;
            model = none;
            confidence = half;
          })
          (c.provenance_from_str row.provenance_json);
    tags = unwrap_or [] (c.tags_from_str row.tags_json);
    device_id = row.device_id;
    expires_at = parsed_time row.expires_at;
    deleted = not (row.deleted == 0);
  }

  -- What is read back is what was printed.
  pub record ReadsBack : Type 0 where
    pub time : (t : ℕ) → c.parse_time (c.to_rfc3339 t) ≡ some t
    pub provenance :
        (p : Provenance F) (s : String)
        → c.provenance_to_string p ≡ some s
        → c.provenance_from_str s ≡ some p
    pub tags :
        (t : List String) (s : String) → c.tags_to_string t ≡ some s → c.tags_from_str s ≡ some t

  read_expiry : ReadsBack → (e : Option ℕ) → parsed_time (Option.map c.to_rfc3339 e) ≡ e
  read_expiry back none = refl
  read_expiry back (some t) = back.time t

  read_bound :
      (half : F) (drawn : String) (now later : ℕ) (r : MemoryRecord F) (prov tags : String)
      → ReadsBack
      → c.parse_uuid r.id ≡ some r.id
      → c.provenance_to_string r.provenance ≡ some prov
      → c.tags_to_string r.tags ≡ some tags
      → row_to_record half drawn now later (bound r prov tags) ≡ r
  unfolding row_to_record
  read_bound half drawn now later r prov tags back known p t = ground (
    arith,
    parse-as_str.0 r.kind,
    parse-as_str.1 r.privacy,
    back.time r.created_at,
    back.time r.updated_at,
    back.provenance r.provenance prov p,
    back.tags r.tags tags t,
    read_expiry back r.expires_at,
  )

  -- If the packages read back what they print, and the record's id is the text of a uuid, then the row
  -- that is written for a record is read as that record, whatever the fallbacks are.
  pub row_to_record-row_of :
      (half : F) (drawn : String) (now later : ℕ) (r : MemoryRecord F) (row : Row F)
      → ReadsBack
      → c.parse_uuid r.id ≡ some r.id
      → row_of r ≡ some row
      → row_to_record half drawn now later row ≡ r
  unfolding row_of row_to_record
  row_to_record-row_of half drawn now later r row back known h =
      elim (Option-cases (c.provenance_to_string r.provenance)) [
        | inl p ↦ absurd (ground (arith, p))
        | inr (prov, p) ↦ elim (Option-cases (c.tags_to_string r.tags)) [
          | inl t ↦ absurd (ground (arith, p, t))
          | inr (tags, t) ↦
              (let e : row ≡ bound r prov tags = ground (arith, p, t) in
                rw e (read_bound half drawn now later r prov tags back known p t))
        ]
      ]
