-- ===== src/Memory/Search.antt =====
-- igris-memory: the search and its ranking. The matching of the full-text index and of `LIKE` is
-- SQLite's, and rows of one importance stand in the order of the table; `f32` is a parameter. A clock is
-- read for the statement and another time for the filter.
pub mod Hits
pub mod Ranking
pub mod Tests
use Prim.Native.Char.{Char, code}
use igrisv.Base.{
  ℕ, zero, suc, ◌+◌, max, String, Bool, not, ◌&&◌, ◌||◌, Option, none, some, List, [], ◌∷◌, map,
  leb, ◌==◌, if◌then◌else◌, length, is_empty, keep, values, ◌⁀◌, join, contains, split_whitespace,
  sort_by, ◌%◌, replicate,
}
use igrisv.Memory.{MemoryRecord, Memories, is_live}

-- What the search uses of SQLite. `fts` is `none` on a query that the index refuses.
pub record Matching : Type 0 where
  pub fts : String → Option (String → Bool)
  pub like : String → String → Bool
  pub lower : String → String
  pub to_lowercase : String → String

-- What the ranking uses of `f32`; `lit n` is the literal of `n` hundredths, `least_norm` is 1e-6, and `more a b` says that
-- `partial_cmp` finds `a` greater than `b`.
pub record Scores : Type 1 where
  pub f32 : Type 0
  pub lit : ℕ → f32
  pub plus : f32 → f32 → f32
  pub times : f32 → f32 → f32
  pub over : f32 → f32 → f32
  pub sqrt : f32 → f32
  pub maximum : f32 → f32 → f32
  pub least_norm : f32
  pub more : f32 → f32 → Bool

-- `replace('"', "")`
abbrev pub unquoted : String → String
unquoted String.[] = ""
unquoted (String.◌∷◌ c s) = if code c == 34 then unquoted s else String.◌∷◌ c (unquoted s)

abbrev pub take_rows : {A : Type 0} → ℕ → List A → List A
take_rows zero xs = []
take_rows (suc n) [] = []
take_rows (suc n) (x ∷ xs) = x ∷ take_rows n xs

unfoldable pub fts_query : String → String
fts_query query =
    join " OR " (map (λ t. "\"" ⁀ unquoted t ⁀ "\"") (take_rows 8 (split_whitespace query)))

module _ (s : Scores) (q : Matching) where
  -- `deleted = 0 AND (expires_at IS NULL OR expires_at > now)` is that of a live record.
  abbrev pub by_importance : MemoryRecord s.f32 → MemoryRecord s.f32 → Bool
  by_importance a b = s.more a.importance b.importance

  -- A statement: its `WHERE`, `ORDER BY` and `LIMIT`.
  unfoldable pub select : (String → Bool) → Memories s.f32 → ℕ → ℕ → List (MemoryRecord s.f32)
  select matches m now limit =
      take_rows limit
        (sort_by by_importance (keep (λ r. matches r.content && is_live now r) (values m)))

  -- The loop of the fallback, which stops at the limit after a row.
  abbrev pub until : ℕ → ℕ → ℕ → List (MemoryRecord s.f32) → List (MemoryRecord s.f32)
  until later limit n [] = []
  until later limit n (r ∷ rs) =
      let on = until later limit (n + 1) rs in
      let skip = until later limit n rs in
      if is_live later r
      then r ∷ (if leb limit (n + 1) then [] else on)
      else if leb limit n
      then []
      else skip

  abbrev pub fallback : Memories s.f32 → ℕ → ℕ → String → ℕ → List (MemoryRecord s.f32)
  fallback m now later query limit =
      until later limit 0
        (select (λ text. q.like ("%" ⁀ q.to_lowercase query ⁀ "%") (q.lower text)) m now limit)

  abbrev pub fts_hits : Option (String → Bool) → Memories s.f32 → ℕ → ℕ → List (MemoryRecord s.f32)
  fts_hits none m now limit = []
  fts_hits (some matches) m now limit = select matches m now limit

  -- The hits of the index, if there are any, and else those of the fallback.
  abbrev pub first_hits :
      ℕ → ℕ → List (MemoryRecord s.f32) → List (MemoryRecord s.f32) → List (MemoryRecord s.f32)
  first_hits later limit [] others = others
  first_hits later limit (hit ∷ hits) others = take_rows limit (keep (is_live later) (hit ∷ hits))

  unfoldable pub search : Memories s.f32 → ℕ → ℕ → String → ℕ → List (MemoryRecord s.f32)
  search m now later query limit =
      first_hits later limit (fts_hits (q.fts (fts_query query)) m now limit)
        (fallback m now later query limit)

  -- `zip`, then the sum of the products.
  abbrev pub dot : s.f32 → List s.f32 → List s.f32 → s.f32
  dot acc [] ys = acc
  dot acc (x ∷ xs) [] = acc
  dot acc (x ∷ xs) (y ∷ ys) = dot (s.plus acc (s.times x y)) xs ys

  unfoldable pub cosine_similarity : List s.f32 → List s.f32 → s.f32
  cosine_similarity a b =
      if not (length a == length b) || is_empty a then s.lit 0 else dot (s.lit 0) a b

  -- `v[i] += x`
  abbrev pub add_at : ℕ → s.f32 → List s.f32 → List s.f32
  add_at i x [] = []
  add_at zero x (v ∷ vs) = s.plus v x ∷ vs
  add_at (suc i) x (v ∷ vs) = v ∷ add_at i x vs

  -- The loops over the words and over the windows of three characters. `hash` is that of DefaultHasher.
  abbrev pub add_words : (String → ℕ) → List String → List s.f32 → List s.f32
  add_words hash [] v = v
  add_words hash (w ∷ ws) v = add_words hash ws (add_at (hash w % 64) (s.lit 100) v)

  abbrev pub three : Char → Char → Char → String
  three a b c = String.◌∷◌ a (String.◌∷◌ b (String.◌∷◌ c ""))

  abbrev pub add_windows : (String → ℕ) → String → List s.f32 → List s.f32
  add_windows hash (String.◌∷◌ a (String.◌∷◌ b (String.◌∷◌ c rest))) v =
      add_windows hash (String.◌∷◌ b (String.◌∷◌ c rest))
        (add_at (hash (three a b c) % 64) (s.lit 50) v)
  add_windows hash _ v = v

  abbrev pub sum_squares : s.f32 → List s.f32 → s.f32
  sum_squares acc [] = acc
  sum_squares acc (x ∷ xs) = sum_squares (s.plus acc (s.times x x)) xs

  -- `SimpleEmbeddingProvider::embed`
  unfoldable pub embed_simple : (String → ℕ) → String → List s.f32
  embed_simple hash text =
      let lowered = q.to_lowercase text in
      let v =
        add_windows hash lowered
          (add_words hash (split_whitespace lowered) (replicate 64 (s.lit 0))) in
      let norm = s.maximum (s.sqrt (sum_squares (s.lit 0) v)) s.least_norm in
      map (λ x. s.over x norm) v

  abbrev pub score :
      (String → List s.f32) → String → MemoryRecord s.f32 → s.f32 × MemoryRecord s.f32
  score embed query r =
      let hit =
        if contains (q.to_lowercase r.content) (q.to_lowercase query) then s.lit 100 else s.lit 0 in
      let cos = cosine_similarity (embed query) (embed r.content) in
      (
        s.plus (s.plus (s.times (s.lit 60) hit) (s.times (s.lit 25) cos))
            (s.times (s.lit 15) r.importance),
        r,
      )

  -- The stable sort by the score, the greatest first.
  unfoldable pub rank_memories :
      (String → List s.f32) → List (MemoryRecord s.f32) → String → List (MemoryRecord s.f32)
  rank_memories embed records query =
      map (λ e. e.1) (sort_by (λ a b. s.more a.0 b.0) (map (score embed query) records))

  unfoldable pub search_ranked :
      (String → List s.f32) → Memories s.f32 → ℕ → ℕ → String → ℕ → List (MemoryRecord s.f32)
  search_ranked embed m now later query limit =
      take_rows limit (rank_memories embed (search m now later query (max limit 20)) query)
