-- ===== src/Device/Sync/Merge.antt =====
-- igris-device, sync.rs: what a merge leaves in the map.
use igrisv.Base.{
  ◌+◌, String, ◌≡◌, ◌⊎◌, Option, none, some, List, [], ◌∷◌, if◌then◌else◌, String_discrete, length,
  nat_key, string_key, lookup, refl, sym, ap, ◌∙◌, ◌≢◌, ◌↔◌, inl, inr, false, arith, Bool-cases,
  Option-cases, lookup-insert_self, lookup-insert_ne, insert,
}
use igrisv.Device.Sync.{
  SyncRecord, superseded_by, SyncEngine, absorb, merge, MergeReport, blank_report, merge_from,
  put_local,
}
use igrisv.Device.Sync.Order.{
  superseded_by-asym, superseded_by_irrefl, superseded_by-trans_false, superseded_by-antisym,
}

-- The newer of a record that may be there and one that arrives.
abbrev pick : Option SyncRecord → SyncRecord → SyncRecord
pick none r = r
pick (some cur) r = if superseded_by cur r then r else cur

absorb_self :
    (local : SyncEngine) (report : MergeReport) (r : SyncRecord)
    → lookup r.id (absorb local report r).0 ≡ some (pick (lookup r.id local) r)
unfolding absorb
absorb_self local report r = ground (arith, lookup-insert_self r.id r local)

absorb-other :
    (k : String) (local : SyncEngine) (report : MergeReport) (r : SyncRecord)
    → r.id ≢ k
    → lookup k (absorb local report r).0 ≡ lookup k local
unfolding absorb
absorb-other k local report r n =
    let kept = lookup-insert_ne r.id k r local n in ground (arith, kept)

-- The records of a batch with a given id.
abbrev pub Listed : String → List SyncRecord → SyncRecord → Type 0
Listed k [] c = ⊥
Listed k (r ∷ rs) c = ((r.id ≡ k) × (r ≡ c)) ⊎ Listed k rs c

-- The records that compete for an id: the one of the map, and those of the batch.
abbrev pub Candidate : String → SyncEngine → List SyncRecord → SyncRecord → Type 0
Candidate k local rs c = (lookup k local ≡ some c) ⊎ Listed k rs c

-- A candidate that no candidate supersedes.
abbrev pub Winner : String → SyncEngine → List SyncRecord → SyncRecord → Type 0
Winner k local rs w =
    Candidate k local rs w × ((c : SyncRecord) → Candidate k local rs c → superseded_by w c ≡ false)

pick-cases : (o : Option SyncRecord) (r : SyncRecord) → (pick o r ≡ r) ⊎ (o ≡ some (pick o r))
pick-cases none r = inl refl
pick-cases (some cur) r = elim (Bool-cases (superseded_by cur r)) [
  | inl y ↦ inl (ground arith)
  | inr n ↦ inr (ground arith)
]

pick_newest :
    (o : Option SyncRecord) (r : SyncRecord)
    → (superseded_by (pick o r) r ≡ false)
      × ((c : SyncRecord) → o ≡ some c → superseded_by (pick o r) c ≡ false)
pick_newest none r = (superseded_by_irrefl r, λ c e. absurd (ground arith))
pick_newest (some cur) r = (
  ground (arith, superseded_by_irrefl r),
  λ c e. ground (arith, superseded_by_irrefl cur, superseded_by-asym cur r),
)

shrink :
    (k : String) (local : SyncEngine) (report : MergeReport) (r : SyncRecord) (rs : List SyncRecord)
    (w : SyncRecord)
    → Candidate k (absorb local report r).0 rs w
    → Candidate k local (r ∷ rs) w
shrink k local report r rs w (inr l) = inr (inr l)
shrink k local report r rs w (inl e) = elim (String_discrete r.id k) [
  | yes p ↦ (elim (pick-cases (lookup r.id local) r) [
    | inl q ↦ inr (inl (p, ground (arith, absorb_self local report r)))
    | inr q ↦ inl (ground (arith, absorb_self local report r))
  ])
  | no n ↦ inl (ground (arith, absorb-other k local report r n))
]

-- For each candidate before an arrival there is one after it that it does not supersede.
Outlived : String → SyncEngine → List SyncRecord → SyncRecord → Type 0
Outlived k local rs c = (d : SyncRecord) × Candidate k local rs d × (superseded_by d c ≡ false)

cover :
    (k : String) (local : SyncEngine) (report : MergeReport) (r : SyncRecord) (rs : List SyncRecord)
    (c : SyncRecord)
    → Candidate k local (r ∷ rs) c
    → Outlived k (absorb local report r).0 rs c
unfolding Outlived
cover k local report r rs c (inr (inr l)) = (c, inr l, superseded_by_irrefl c)
cover k local report r rs c (inr (inl q)) = (
  pick (lookup r.id local) r,
  inl (rw (← q.0) (absorb_self local report r)),
  rw (← q.1) (pick_newest (lookup r.id local) r).0,
)
cover k local report r rs c (inl e) = elim (String_discrete r.id k) [
  | yes p ↦ (
    pick (lookup r.id local) r,
    inl (rw (← p) (absorb_self local report r)),
    (pick_newest (lookup r.id local) r).1 c (ground arith),
  )
  | no n ↦ (c, inl (ground (arith, absorb-other k local report r n)), superseded_by_irrefl c)
]

merge_from-Winner :
    (k : String) (local : SyncEngine) (report : MergeReport) (rs : List SyncRecord) (w : SyncRecord)
    → lookup k (merge_from local report rs).0 ≡ some w
    → Winner k local rs w
unfolding merge_from Outlived
merge_from-Winner k local report [] w e =
    (inl e, λ c o. elim o [ inl f ↦ ground (arith, superseded_by_irrefl w) | inr x ↦ absurd x ])
merge_from-Winner k local report (r ∷ rs) w e =
    let next = absorb local report r in
    let rest = merge_from-Winner k next.0 next.1 rs w e in
    (
      shrink k local report r rs w rest.0,
      λ c o.
          let out = cover k local report r rs c o in
          superseded_by-trans_false w out.0 c (rest.1 out.0 out.1) out.2,
    )

merge_from-found :
    (k : String) (local : SyncEngine) (report : MergeReport) (rs : List SyncRecord) (c : SyncRecord)
    → Candidate k local rs c
    → (w : SyncRecord) × (lookup k (merge_from local report rs).0 ≡ some w)
unfolding merge_from Outlived
merge_from-found k local report [] c (inl e) = (c, e)
merge_from-found k local report [] c (inr x) = absurd x
merge_from-found k local report (r ∷ rs) c o =
    let next = absorb local report r in
    let out = cover k local report r rs c o in merge_from-found k next.0 next.1 rs out.0 out.1

-- After a merge the record of an id is one of its candidates, which no other supersedes; there is one
-- if there was a candidate.
pub merge-Winner :
    (k : String) (local : SyncEngine) (rs : List SyncRecord)
    → ((w : SyncRecord) → lookup k (merge local rs).0 ≡ some w → Winner k local rs w)
      × ((c : SyncRecord)
          → Candidate k local rs c
          → (w : SyncRecord) × (lookup k (merge local rs).0 ≡ some w))
unfolding merge
merge-Winner k local rs = (
  (λ w e. merge_from-Winner k local blank_report rs w e),
  (λ c o. merge_from-found k local blank_report rs c o),
)

-- Two peers that start from any maps and merge any batches agree on an id for which they have seen the
-- same candidates, if a timestamp and a device determine the record.
pub merge_converges :
    (k : String) (local other : SyncEngine) (rs qs : List SyncRecord)
    → ((c : SyncRecord) → Candidate k local rs c ↔ Candidate k other qs c)
    → ((c d : SyncRecord)
        → Candidate k local rs c
        → Candidate k local rs d
        → c.updated_ms ≡ d.updated_ms
        → c.device_id ≡ d.device_id
        → c ≡ d)
    → lookup k (merge local rs).0 ≡ lookup k (merge other qs).0
merge_converges k local other rs qs alike unique =
    elim (Option-cases (lookup k (merge local rs).0)) [
      | inl e ↦ (elim (Option-cases (lookup k (merge other qs).0)) [
        | inl f ↦ e ∙ sym f
        | inr v ↦
            let w = (merge-Winner k other qs).0 v.0 v.1 in
            let u = (merge-Winner k local rs).1 v.0 ((alike v.0).1 w.0) in
            absurd (ground (arith, u.1))
      ])
      | inr u ↦
          let w = (merge-Winner k local rs).0 u.0 u.1 in
          let f = (merge-Winner k other qs).1 u.0 ((alike u.0).0 w.0) in
          let v = (merge-Winner k other qs).0 f.0 f.1 in
          let back = (alike f.0).1 v.0 in
          let stamps = superseded_by-antisym u.0 f.0 (w.1 f.0 back) (v.1 u.0 ((alike u.0).0 w.0)) in
          u.1 ∙ ap some (unique u.0 f.0 w.0 back stamps.0 stamps.1) ∙ sym f.1
    ]

merge_from-counts :
    (local : SyncEngine) (report : MergeReport) (rs : List SyncRecord)
    → (let after = (merge_from local report rs).1 in
        after.applied + after.skipped_stale + after.tombstones_applied)
      ≡ length rs + (report.applied + report.skipped_stale + report.tombstones_applied)
unfolding merge_from absorb
merge_from-counts local report [] = omega arith
merge_from-counts local report (r ∷ rs) =
    let next = absorb local report r in ground (arith, merge_from-counts next.0 next.1 rs)

-- A merge counts each record of the batch once: as applied, as a tombstone or as stale.
pub merge_counts :
    (local : SyncEngine) (rs : List SyncRecord)
    → (let report = (merge local rs).1 in
        report.applied + report.skipped_stale + report.tombstones_applied)
      ≡ length rs
unfolding merge
merge_counts local rs = merge_from-counts local blank_report rs ∙ omega arith

-- Two peers that each hold a record of the same id, timestamp and device, and merge the other's, each
-- keep their own; when the records differ, the peers do.
pub equal_stamps_diverge :
    (a b : SyncRecord)
    → a.id ≡ b.id
    → superseded_by a b ≡ false
    → superseded_by b a ≡ false
    → a ≢ b
    → lookup a.id (merge (put_local [] a) (b ∷ [])).0
      ≢ lookup a.id (merge (put_local [] b) (a ∷ [])).0
unfolding merge merge_from put_local
equal_stamps_diverge a b i ab ba n h =
    let kept_a = absorb_self (insert a.id a []) blank_report b in
    let kept_b = absorb_self (insert b.id b []) blank_report a in
    let own_a = lookup-insert_self a.id a [] in
    let own_b = lookup-insert_self b.id b [] in n (ground (arith, kept_a, kept_b, own_a, own_b))
