-- ===== src/Context/Tests.antt =====
-- Tests of the bundles, and an instance of their theorem.
use igrisv.Base.{ℕ, ◌≤◌, String, ◌≡◌, refl, List, [], ◌∷◌, ltb, length, sort_by}
use igrisv.Memory.{MemoryRecord, new_record, semantic}
use igrisv.Context.{compile, fill, candidates}
use igrisv.Context.Budget.{compile-Chosen, size, Chosen}

abbrev said : String → ℕ → String → MemoryRecord ℕ
said id weight content = record (new_record 80 50 id 0 semantic content "test" "d1") {
  importance = weight;
}

abbrev three : List (MemoryRecord ℕ)
three = said "a" 10 "abc" ∷ said "b" 90 "abcd" ∷ said "c" 50 "ab" ∷ []

fits : (compile ltb three 6).used_chars ≡ 6
unfolding compile fill sort_by
fits = refl

-- A record that stands twice, with another of an importance between, is taken twice.
taken_twice :
    length (compile ltb (said "a" 10 "abc" ∷ said "b" 50 "ab" ∷ said "a" 90 "abc" ∷ []) 100).items
    ≡ 3
unfolding compile fill sort_by
taken_twice = refl

compile-Chosen_example :
    let bundle = compile ltb three 6 in
    (bundle.used_chars ≡ size bundle.items)
    × (bundle.used_chars ≤ 6)
    × Chosen 6 bundle.used_chars (candidates ltb three) bundle.items
compile-Chosen_example = compile-Chosen ltb three 6
