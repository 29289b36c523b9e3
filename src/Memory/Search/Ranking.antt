-- ===== src/Memory/Search/Ranking.antt =====
-- igris-memory: the order in which memories are ranked.
use igrisv.Base.{
  String, ◌≡◌, refl, ◌∙◌, Bool, true, false, List, [], ◌∷◌, map, arith, length, keep, Each, sort_by,
  IsSorted, sort_by-IsSorted, length-keep-sort_by, Each-sort_by, sym,
}
use igrisv.Memory.{MemoryRecord}
use igrisv.Memory.Search.{Scores, Matching, score, rank_memories}

module _ (s : Scores) (q : Matching) (embed : String → List s.f32) (query : String) where
  keep-scored :
      (p : MemoryRecord s.f32 → Bool) (records : List (MemoryRecord s.f32))
      → length (keep (λ e. p e.1) (map (score s q embed query) records)) ≡ length (keep p records)
  keep-scored p [] = refl
  keep-scored p (r ∷ records) = ground (arith, keep-scored p records)

  keep-unscored :
      (p : MemoryRecord s.f32 → Bool) (es : List (s.f32 × MemoryRecord s.f32))
      → length (keep p (map (λ e. e.1) es)) ≡ length (keep (λ e. p e.1) es)
  keep-unscored p [] = refl
  keep-unscored p (e ∷ es) = ground (arith, keep-unscored p es)

  abbrev before : s.f32 × MemoryRecord s.f32 → s.f32 × MemoryRecord s.f32 → Bool
  before a b = s.more a.0 b.0

  -- The score of a record.
  abbrev pub score_of : MemoryRecord s.f32 → s.f32
  score_of r = (score s q embed query r).0

  abbrev IsScored : s.f32 × MemoryRecord s.f32 → Type 0
  IsScored e = e.0 ≡ score_of e.1

  map-IsScored :
      (records : List (MemoryRecord s.f32)) → Each IsScored (map (score s q embed query) records)
  map-IsScored [] = tt
  map-IsScored (r ∷ records) = (refl, map-IsScored records)

  abbrev pub ranks_before : MemoryRecord s.f32 → MemoryRecord s.f32 → Bool
  ranks_before a b = s.more (score_of a) (score_of b)

  unscored-IsSorted :
      (es : List (s.f32 × MemoryRecord s.f32))
      → Each IsScored es
      → IsSorted before es
      → IsSorted ranks_before (map (λ e. e.1) es)
  unscored-IsSorted [] c h = tt
  unscored-IsSorted (e ∷ []) c h = tt
  unscored-IsSorted (e ∷ f ∷ es) c h =
      (sym (λ i. s.more (c.1.0 i) (c.0 i)) ∙ h.0, unscored-IsSorted (f ∷ es) c.1 h.1)

  -- If no two scores are each greater than the other, then the ranking is a rearrangement of the records
  -- in which no record has a greater score than the one in front of it: every test passes as many records
  -- after the ranking as before.
  pub rank_memories-IsSorted :
      (records : List (MemoryRecord s.f32))
      → ((a b : s.f32) → s.more a b ≡ true → s.more b a ≡ false)
      → IsSorted ranks_before (rank_memories s q embed records query)
        × ((p : MemoryRecord s.f32 → Bool)
            → length (keep p (rank_memories s q embed records query)) ≡ length (keep p records))
  unfolding rank_memories
  rank_memories-IsSorted records asym =
      let scored = map (score s q embed query) records in
      (
        unscored-IsSorted (sort_by before scored)
            (Each-sort_by IsScored before scored (map-IsScored records))
            (sort_by-IsSorted before scored (λ a b h. asym a.0 b.0 h)),
        λ p.
            keep-unscored p (sort_by before scored)
            ∙ length-keep-sort_by (λ e. p e.1) before scored
            ∙ keep-scored p records,
      )
