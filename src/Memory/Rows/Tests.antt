-- ===== src/Memory/Rows/Tests.antt =====
-- A row of the table, written and read.
use text.Mathlib.TextEquality.{eq_iff}
use igrisv.Base.{
  ℕ, zero, suc, String, ◌≡◌, refl, ap, inl, inr, Bool, true, false, ◌&&◌, Option, none, some, List,
  [], ◌∷◌, arith, ◌==◌, if◌then◌else◌, Bool-cases, same,
}
use igrisv.Memory.{MemoryRecord, parse_scope, new_record, semantic, local_only, Provenance}
use igrisv.Memory.Rows.{Codec, bound, row_of, row_to_record, row_to_record-row_of, ReadsBack}

-- An instant as so many strokes.
abbrev strokes : ℕ → String
strokes zero = ""
strokes (suc n) = String.◌∷◌ "i" (strokes n)

abbrev count : String → ℕ
count String.[] = 0
count (String.◌∷◌ c s) = suc (count s)

count-strokes : (n : ℕ) → count (strokes n) ≡ n
count-strokes zero = refl
count-strokes (suc n) = ap suc (count-strokes n)

abbrev origin : Provenance ℕ
origin = record {
  source = "test";
  device_id = "d1";
  agent = none;
  tool = none;
  model = none;
  confidence = 80;
}

abbrev is_none : Option String → Bool
is_none none = true
is_none (some s) = false

abbrev is_origin : Provenance ℕ → Bool
is_origin p =
    same p.source "test"
    && same p.device_id "d1"
    && is_none p.agent
    && is_none p.tool
    && is_none p.model
    && p.confidence == 80

is_origin_eq : (p : Provenance ℕ) → is_origin p ≡ true → origin ≡ p
is_origin_eq p h = ground (arith, eq_iff p.source "test", eq_iff p.device_id "d1")

abbrev tags_text : List String → Option String
tags_text [] = some "[]"
tags_text (t ∷ ts) = none

abbrev codec : Codec ℕ
codec = record {
  parse_uuid = λ s. some s;
  to_rfc3339 = strokes;
  parse_time = λ s. some (count s);
  provenance_to_string = λ p. if is_origin p then some "{}" else none;
  provenance_from_str = λ s. some origin;
  tags_to_string = tags_text;
  tags_from_str = λ s. some [];
}

read_origin :
    (p : Provenance ℕ) (s : String)
    → codec.provenance_to_string p ≡ some s
    → codec.provenance_from_str s ≡ some p
read_origin p s h = elim (Bool-cases (is_origin p)) [
  | inl y ↦ ap some (is_origin_eq p y)
  | inr n ↦ absurd (ground arith)
]

read_tags : (t : List String) (s : String) → tags_text t ≡ some s → codec.tags_from_str s ≡ some t
read_tags [] s h = refl
read_tags (x ∷ t) s h = absurd (ground arith)

reads_back : ReadsBack codec
reads_back = record {
  time = λ t. ap some (count-strokes t);
  provenance = read_origin;
  tags = read_tags;
}

abbrev noted : MemoryRecord ℕ
noted = new_record 80 50 "m" 5 semantic "build" "test" "d1"

written : row_of codec noted ≡ some (bound codec noted "{}" "[]")
unfolding row_of
written = refl

row_to_record-row_of_example :
    row_to_record codec 50 "drawn" 8 9 (bound codec noted "{}" "[]") ≡ noted
row_to_record-row_of_example =
    row_to_record-row_of codec 50 "drawn" 8 9 noted (bound codec noted "{}" "[]") reads_back refl
      written

damaged :
    (row_to_record codec 50 "drawn" 8 9 (record (bound codec noted "{}" "[]") {
      privacy = "cloud";
      kind = "old";
      expires_at = none;
    })).privacy
    ≡ local_only
unfolding row_to_record parse_scope
damaged = refl
