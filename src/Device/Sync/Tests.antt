-- ===== src/Device/Sync/Tests.antt =====
-- igris-device, sync.rs, on two versions of a note.
use igrisv.Base.{
  ◌≡◌, refl, sym, ◌∙◌, ◌↔◌, ◌⊎◌, inl, inr, true, false, some, [], ◌∷◌, arith, String_discrete,
  nat_key, string_key, lookup, insert, text_ltb,
}
use igrisv.Device.Sync.{
  SyncRecord, superseded_by, put_local, live, absorb, merge_from, merge, delta_since,
}
use igrisv.Device.Sync.Merge.{Candidate, merge_converges}

abbrev old : SyncRecord
old = record {
  id = "note";
  updated_ms = 5;
  device_id = "laptop";
  deleted = false;
  payload = 1 ∷ [];
}

abbrev gone : SyncRecord
gone = record { id = "note"; updated_ms = 9; device_id = "phone"; deleted = true; payload = [] }

abbrev fork : SyncRecord
fork = record old { payload = 2 ∷ [] }

-- The same stamp with another payload: what is there stays.
fork_ignored : lookup "note" (merge (put_local [] old) (fork ∷ [])).0 ≡ some old
unfolding merge merge_from absorb put_local lookup insert superseded_by text_ltb String_discrete
fork_ignored = refl

-- The later tombstone wins, whichever arrives first, and the note is not live.
gone_wins : lookup "note" (merge [] (old ∷ gone ∷ [])).0 ≡ some gone
unfolding merge merge_from absorb lookup insert superseded_by text_ltb String_discrete
gone_wins = refl

gone_first : live (merge [] (gone ∷ old ∷ [])).0 ≡ []
unfolding merge merge_from absorb lookup insert superseded_by text_ltb live String_discrete
gone_first = refl

newer_only :
    delta_since (put_local (put_local [] old) (record gone { id = "list" })) 5
    ≡ record gone { id = "list" } ∷ []
unfolding delta_since put_local insert String_discrete
newer_only = refl

-- The candidates of two batches that hold both versions.
abbrev Version : SyncRecord → Type 0
Version c = (old ≡ c) ⊎ (gone ≡ c)

versions :
    (c : SyncRecord)
    → Candidate "note" [] (old ∷ gone ∷ []) c ↔ Candidate "note" [] (gone ∷ old ∷ []) c
unfolding lookup
versions c = (
  (λ o. elim o [
    | inl e ↦ inl e
    | inr (inl a) ↦ inr (inr (inl a))
    | inr (inr (inl b)) ↦ inr (inl b)
    | inr (inr (inr x)) ↦ inr (inr (inr x))
  ]),
  (λ o. elim o [
    | inl e ↦ inl e
    | inr (inl a) ↦ inr (inr (inl a))
    | inr (inr (inl b)) ↦ inr (inl b)
    | inr (inr (inr x)) ↦ inr (inr (inr x))
  ]),
)

in_batch : (c : SyncRecord) → Candidate "note" [] (old ∷ gone ∷ []) c → Version c
unfolding lookup
in_batch c (inl e) = absurd (ground (arith, e))
in_batch c (inr (inl a)) = inl a.1
in_batch c (inr (inr (inl b))) = inr b.1
in_batch c (inr (inr (inr x))) = absurd x

one_stamp : (c d : SyncRecord) → Version c → Version d → c.updated_ms ≡ d.updated_ms → c ≡ d
one_stamp c d (inl a) (inl b) h = sym a ∙ b
one_stamp c d (inl a) (inr b) h = absurd (ground (arith, a, b, h))
one_stamp c d (inr a) (inl b) h = absurd (ground (arith, a, b, h))
one_stamp c d (inr a) (inr b) h = sym a ∙ b

merge_converges_example :
    lookup "note" (merge [] (old ∷ gone ∷ [])).0 ≡ lookup "note" (merge [] (gone ∷ old ∷ [])).0
merge_converges_example =
    merge_converges "note" [] [] (old ∷ gone ∷ []) (gone ∷ old ∷ []) versions
      (λ c d a b h k. one_stamp c d (in_batch c a) (in_batch d b) h)
