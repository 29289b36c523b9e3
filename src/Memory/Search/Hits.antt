-- ===== src/Memory/Search/Hits.antt =====
-- igris-memory: what a search finds.
use igrisv.Base.{
  ℕ, zero, suc, ◌+◌, ◌≤◌, String, ◌≡◌, refl, ◌∙◌, Bool, true, ◌&&◌, List, [], ◌∷◌, arith, length,
  all, keep, values, sort_by, all-sort_by, ◌||◌, none, some, ◌⁀◌, Option, all_mono,
}
use igrisv.Memory.{MemoryRecord, Memories, is_live}
use igrisv.Memory.Search.{
  Scores, Matching, take_rows, by_importance, select, until, fts_query, fallback, fts_hits, search,
  first_hits,
}

all-take_rows :
    {A : Type 0} (p : A → Bool) (n : ℕ) (xs : List A)
    → all p xs ≡ true
    → all p (take_rows n xs) ≡ true
all-take_rows p zero xs h = refl
all-take_rows p (suc n) [] h = refl
all-take_rows p (suc n) (x ∷ xs) h = ground (arith, all-take_rows p n xs)

length-take_rows : {A : Type 0} (n : ℕ) (xs : List A) → length (take_rows n xs) ≤ n
length-take_rows zero xs = omega arith
length-take_rows (suc n) [] = omega arith
length-take_rows (suc n) (x ∷ xs) = omega (arith, length-take_rows n xs)

-- What passes two tests passes both of them.
all_and :
    {A : Type 0} (p q : A → Bool) (xs : List A)
    → all p xs ≡ true
    → all (λ x. p x && q x) (keep q xs) ≡ true
all_and p q [] h = refl
all_and p q (x ∷ xs) h = ground (arith, all_and p q xs)

module _ (s : Scores) (q : Matching) where
  -- Whether the index, or the pattern of the fallback, matches a text.
  abbrev pub matched : Option (String → Bool) → String → String → Bool
  matched none query text = q.like ("%" ⁀ q.to_lowercase query ⁀ "%") (q.lower text)
  matched (some matches) query text =
      matches text || q.like ("%" ⁀ q.to_lowercase query ⁀ "%") (q.lower text)

  all-select :
      (p : MemoryRecord s.f32 → Bool) (matches : String → Bool) (m : Memories s.f32) (now limit : ℕ)
      → all p (values m) ≡ true
      → all (λ r. p r && (matches r.content && is_live now r)) (select s q matches m now limit)
        ≡ true
  unfolding select
  all-select p matches m now limit h =
      let rows = keep (λ r. matches r.content && is_live now r) (values m) in
      all-take_rows _ limit (sort_by (by_importance s q) rows) (
        all-sort_by _ (by_importance s q) rows
        ∙ all_and p (λ r. matches r.content && is_live now r) (values m) h)

  all-until :
      (p : MemoryRecord s.f32 → Bool) (later limit n : ℕ) (rows : List (MemoryRecord s.f32))
      → all p rows ≡ true
      → all (λ r. p r && is_live later r) (until s q later limit n rows) ≡ true
  all-until p later limit n [] h = refl
  all-until p later limit n (r ∷ rows) h =
      ground (arith, all-until p later limit (n + 1) rows, all-until p later limit n rows)

  length-until :
      (later limit n : ℕ) (rows : List (MemoryRecord s.f32))
      → length (until s q later limit n rows) ≤ length rows
  length-until later limit n [] = omega arith
  length-until later limit n (r ∷ rows) =
      ground (arith, length-until later limit (n + 1) rows, length-until later limit n rows)

  length-select :
      (matches : String → Bool) (m : Memories s.f32) (now limit : ℕ)
      → length (select s q matches m now limit) ≤ limit
  unfolding select
  length-select matches m now limit = length-take_rows limit _

  -- What a hit of a search is like, at the instants of the statement and of the filter.
  abbrev pub hit :
      (MemoryRecord s.f32 → Bool)
      → Option (String → Bool)
      → ℕ
      → ℕ
      → String
      → MemoryRecord s.f32
      → Bool
  hit p index now later query r =
      p r && matched index query r.content && is_live now r && is_live later r

  all-fallback :
      (p : MemoryRecord s.f32 → Bool) (index : Option (String → Bool)) (m : Memories s.f32)
      (now later : ℕ) (query : String) (limit : ℕ)
      → all p (values m) ≡ true
      → all (hit p index now later query) (fallback s q m now later query limit) ≡ true
  all-fallback p index m now later query limit h =
      let like = λ (text : String). q.like ("%" ⁀ q.to_lowercase query ⁀ "%") (q.lower text) in
      let found = select s q like m now limit in
      all_mono _ (hit p index now later query) (until s q later limit 0 found)
        (all-until _ later limit 0 found (all-select p like m now limit h))
        (λ r t. either index p now later query r t)
    where
      either :
          (index : Option (String → Bool)) (p : MemoryRecord s.f32 → Bool) (now later : ℕ)
          (query : String) (r : MemoryRecord s.f32)
          → (p r
              && (q.like ("%" ⁀ q.to_lowercase query ⁀ "%") (q.lower r.content) && is_live now r)
              && is_live later r)
            ≡ true
          → hit p index now later query r ≡ true
      either none p now later query r t = ground arith
      either (some f) p now later query r t = ground arith

  all-first_hits :
      (p : MemoryRecord s.f32 → Bool) (now later : ℕ) (query : String) (limit : ℕ)
      (matches : String → Bool) (hits others : List (MemoryRecord s.f32))
      → all (λ r. p r && (matches r.content && is_live now r)) hits ≡ true
      → all (hit p (some matches) now later query) others ≡ true
      → all (hit p (some matches) now later query) (first_hits s q later limit hits others) ≡ true
  all-first_hits p now later query limit matches [] others h k = k
  all-first_hits p now later query limit matches (x ∷ hits) others h k =
      all_mono _ (hit p (some matches) now later query)
        (take_rows limit (keep (is_live later) (x ∷ hits)))
        (all-take_rows _ limit (keep (is_live later) (x ∷ hits))
          (all_and _ (is_live later) (x ∷ hits) h))
        (λ (r : MemoryRecord s.f32)
            (t : (p r && (matches r.content && is_live now r) && is_live later r) ≡ true).
          ground arith)

  length-first_hits :
      (later limit : ℕ) (hits others : List (MemoryRecord s.f32))
      → length others ≤ limit
      → length (first_hits s q later limit hits others) ≤ limit
  length-first_hits later limit [] others k = k
  length-first_hits later limit (x ∷ hits) others k = length-take_rows limit _

  length-fallback :
      (m : Memories s.f32) (now later : ℕ) (query : String) (limit : ℕ)
      → length (fallback s q m now later query limit) ≤ limit
  length-fallback m now later query limit =
      let like = λ (text : String). q.like ("%" ⁀ q.to_lowercase query ⁀ "%") (q.lower text) in
      let found = select s q like m now limit in
      omega (arith, length-until later limit 0 found, length-select like m now limit)

  all-search :
      (index : Option (String → Bool)) (p : MemoryRecord s.f32 → Bool) (m : Memories s.f32)
      (now later : ℕ) (query : String) (limit : ℕ)
      → all p (values m) ≡ true
      → all (hit p index now later query) (
          first_hits s q later limit
            (fts_hits s q index m now limit)
            (fallback s q m now later query limit))
        ≡ true
  all-search none p m now later query limit h = all-fallback p none m now later query limit h
  all-search (some f) p m now later query limit h =
      all-first_hits p now later query limit f (select s q f m now limit)
        (fallback s q m now later query limit) (all-select p f m now limit h)
        (all-fallback p (some f) m now later query limit h)

  -- Each hit of a search is a row of the table whose text the index or the pattern matches, and is live
  -- both when the statement runs and when its rows are filtered; and there are at most so many hits as the
  -- limit. That a hit is a row is said by any test that all rows pass.
  pub search_hits :
      (p : MemoryRecord s.f32 → Bool) (m : Memories s.f32) (now later : ℕ) (query : String)
      (limit : ℕ)
      → all p (values m) ≡ true
      → (all (hit p (q.fts (fts_query query)) now later query) (search s q m now later query limit)
          ≡ true)
        × (length (search s q m now later query limit) ≤ limit)
  unfolding search
  search_hits p m now later query limit h = (
    all-search (q.fts (fts_query query)) p m now later query limit h,
    length-first_hits later limit (fts_hits s q (q.fts (fts_query query)) m now limit)
        (fallback s q m now later query limit) (length-fallback m now later query limit),
  )
