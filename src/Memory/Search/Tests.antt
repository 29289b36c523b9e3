-- ===== src/Memory/Search/Tests.antt =====
-- A search over three memories, with hundredths for `f32` and texts that match where they contain.
use igrisv.Base.{
  ℕ, ◌+◌, ◌*◌, ◌/◌, ◌≤◌, max, String, ◌≡◌, refl, Bool, true, false, none, List, [], ◌∷◌, arith, ltb,
  length, all, ◌⁀◌, same, contains, split_whitespace, sort_by,
}
use igrisv.Memory.{MemoryRecord, Memories, new_record, is_expired, is_live, semantic}
use igrisv.Memory.Search.{Scores, Matching, fts_query, select, search}
use igrisv.Memory.Search.Hits.{search_hits, hit}

abbrev pub hundredths : Scores
hundredths = record {
  f32 = ℕ;
  lit = λ n. n;
  plus = λ a b. a + b;
  times = λ a b. a * b / 100;
  over = λ a b. a * 100 / b;
  sqrt = λ a. a;
  maximum = max;
  least_norm = 1;
  more = λ a b. ltb b a;
}

abbrev pub matching : Matching
matching = record {
  fts = λ s. none;
  like = λ pattern text. contains ("%" ⁀ text ⁀ "%") pattern;
  lower = λ s. s;
  to_lowercase = λ s. s;
}

abbrev noted : String → ℕ → String → MemoryRecord ℕ
noted id importance content = new_record 80 importance id 5 semantic content "test" "d1"

abbrev forgotten : MemoryRecord ℕ → MemoryRecord ℕ
forgotten r = record r { deleted = true }

abbrev table : Memories ℕ
table =
    ("a", noted "a" 10 "build")
    ∷ ("b", noted "b" 90 "build")
    ∷ ("c", forgotten (noted "c" 99 "build"))
    ∷ []

abbrev found : List (MemoryRecord ℕ)
found = noted "b" 90 "build" ∷ noted "a" 10 "build" ∷ []

live_by_importance : search hundredths matching table 6 7 "build" 5 ≡ found
unfolding search select sort_by is_live is_expired
live_by_importance = refl

quoted_words : fts_query "say \"hi\" now" ≡ "\"say\" OR \"hi\" OR \"now\""
unfolding fts_query split_whitespace
quoted_words = refl

abbrev is_build : MemoryRecord ℕ → Bool
is_build r = same r.content "build"

search_hits_example :
    (all
        (hit hundredths matching is_build none 6 7 "build")
        (search hundredths matching table 6 7 "build" 5)
      ≡ true)
    × (length (search hundredths matching table 6 7 "build" 5) ≤ 5)
search_hits_example = search_hits hundredths matching is_build table 6 7 "build" 5 refl

abbrev by_length : String → List ℕ
by_length s = 1 ∷ []

more_asym : (a b : ℕ) → ltb b a ≡ true → ltb a b ≡ false
more_asym a b h = ground arith
