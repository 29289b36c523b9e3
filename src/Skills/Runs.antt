-- ===== src/Skills/Runs.antt =====
-- igris-skills: the registry over any sequence of calls.
use mathlib.Core.Path.{subst}
use igrisv.Base.{
  ℕ, ◌+◌, ◌%◌, ◌^◌, ◌≤◌, ◌<◌, String, ◌≡◌, true, false, some, List, [], ◌∷◌, arith, length, nat_key,
  string_key, lookup, Unique, update-Unique, Result, ok, sym, ◌⊎◌, inl, inr, Option-cases,
  String_discrete, Assoc, insert, update, lookup-insert, lookup-update, insert-Unique, Result-cases,
  lookup-Absent,
}
use igrisv.Skills.{
  register, validate, new, register_json, modify, enable, disable, record_use, record_success,
  SkillManifest, SkillRecord, SkillRegistry,
}

-- What changes the registry.
pub data Call : Type 0 where
  registers : SkillManifest → Call
  imports : String → Call
  enables : String → Call
  disables : String → Call
  uses : String → Call
  succeeds : String → Call

-- A record under its name after `n` calls.
abbrev pub IsSound : ℕ → String → SkillRecord → Type 0
IsSound n k s =
    (s.manifest.name ≡ k) × (validate s.manifest ≡ ok tt) × (s.successes ≤ s.uses) × (s.uses ≤ n)

abbrev pub IsValid : ℕ → SkillRegistry → Type 0
IsValid n r =
    Unique r.skills × ((k : String) (s : SkillRecord) → lookup k r.skills ≡ some s → IsSound n k s)

later : (n : ℕ) (k : String) (s : SkillRecord) → IsSound n k s → IsSound (n + 1) k s
later n k s h = (h.0, h.1, h.2, omega (arith, h.3))

later-IsValid : (n : ℕ) (r : SkillRegistry) → IsValid n r → IsValid (n + 1) r
later-IsValid n r v = (v.0, λ k s e. later n k s (v.1 k s e))

updated :
    (name k : String) (f : SkillRecord → SkillRecord) (m : Assoc String SkillRecord)
    (s : SkillRecord)
    → lookup k (update name f m) ≡ some s
    → (t : SkillRecord) × (lookup k m ≡ some t) × ((s ≡ f t) ⊎ (s ≡ t))
updated name k f m s e = elim (Option-cases (lookup k m)) [
  | inl n ↦ absurd (ground (arith, lookup-update name k f m))
  | inr t ↦ (
    t.0,
    t.1,
    elim (String_discrete name k) [
      | yes y ↦ inl (ground (arith, lookup-update name k f m))
      | no n ↦ inr (ground (arith, lookup-update name k f m))
    ],
  )
]

modify-IsValid :
    (n : ℕ) (r : SkillRegistry) (name : String) (f : SkillRecord → SkillRecord)
    → ((k : String) (s : SkillRecord) → IsSound n k s → IsSound (n + 1) k (f s))
    → IsValid n r
    → IsValid (n + 1) (modify r name f).1
modify-IsValid n r name f h v = (
  update-Unique name f r.skills v.0,
  λ k s e.
      let was = updated name k f r.skills s e in
      elim was.2 [
        | inl q ↦ subst (IsSound (n + 1) k) (sym q) (h k was.0 (v.1 k was.0 was.1))
        | inr q ↦ subst (IsSound (n + 1) k) (sym q) (later n k was.0 (v.1 k was.0 was.1))
      ],
)

abbrev fresh : SkillManifest → SkillRecord
fresh m = record { manifest = m; enabled = true; uses = 0; successes = 0 }

register_cases :
    (r : SkillRegistry) (m : SkillManifest)
    → ((register r m).1 ≡ r)
      ⊎ ((validate m ≡ ok tt)
          × ((register r m).1 ≡ record r { skills = insert m.name (fresh m) r.skills }))
unfolding register
register_cases r m = elim (Result-cases (validate m)) [
  | inr e ↦ inl (ground arith)
  | inl o ↦ (elim (Option-cases (lookup m.name r.skills)) [
    | inl n ↦ inr (o.1, ground arith)
    | inr s ↦ inl (ground arith)
  ])
]

register-IsValid :
    (n : ℕ) (r : SkillRegistry) (m : SkillManifest) → IsValid n r → IsValid (n + 1) (register r m).1
register-IsValid n r m v = elim (register_cases r m) [
  | inl e ↦ subst (IsValid (n + 1)) (sym e) (later-IsValid n r v)
  | inr e ↦ subst (IsValid (n + 1)) (sym e.1) (
    insert-Unique m.name (fresh m) r.skills v.0,
    λ k s q. elim (String_discrete m.name k) [
      | yes y ↦
          let found : fresh m ≡ s = ground (arith, lookup-insert m.name k (fresh m) r.skills) in
          subst (IsSound (n + 1) k) found (y, e.0, omega arith, omega arith)
      | no z ↦ later n k s (v.1 k s (ground (arith, lookup-insert m.name k (fresh m) r.skills)))
    ],
  )
]

module _ (from_str : String → Result String SkillManifest) where
  unfoldable pub step : SkillRegistry → Call → SkillRegistry
  step r (registers m) = (register r m).1
  step r (imports json) = (register_json from_str r json).1
  step r (enables name) = (enable r name).1
  step r (disables name) = (disable r name).1
  step r (uses name) = (record_use r name).1
  step r (succeeds name) = (record_success r name).1

  unfoldable pub run : SkillRegistry → List Call → SkillRegistry
  run r [] = r
  run r (c ∷ cs) = run (step r c) cs

  imported :
      (r : SkillRegistry) (json : String) (m : SkillManifest)
      → from_str json ≡ ok m
      → (register r m).1 ≡ (register_json from_str r json).1
  unfolding register_json
  imported r json m e = elim (Result-cases (register r m).0) [
    | inl o ↦ ground arith
    | inr f ↦ ground arith
  ]

  step-IsValid :
      (n : ℕ) (r : SkillRegistry) (c : Call)
      → n + 1 < 2 ^ 64
      → IsValid n r
      → IsValid (n + 1) (step r c)
  unfolding step register_json enable disable record_use record_success
  step-IsValid n r (registers m) b v = register-IsValid n r m v
  step-IsValid n r (imports json) b v = elim (Result-cases (from_str json)) [
    | inr e ↦ subst (IsValid (n + 1)) (ground arith) (later-IsValid n r v)
    | inl m ↦ subst (IsValid (n + 1)) (imported r json m.0 m.1) (register-IsValid n r m.0 v)
  ]
  step-IsValid n r (enables name) b v =
      modify-IsValid n r name (λ s. record s { enabled = true }) (later n) v
  step-IsValid n r (disables name) b v =
      modify-IsValid n r name (λ s. record s { enabled = false }) (later n) v
  step-IsValid n r (uses name) b v =
      modify-IsValid n r name (λ s. record s { uses = (s.uses + 1) % 2 ^ 64 })
        (λ k s h. (h.0, h.1, omega (arith, h.2, h.3, b), omega (arith, h.3, b))) v
  step-IsValid n r (succeeds name) b v =
      modify-IsValid n r name
        (λ s. record s { uses = (s.uses + 1) % 2 ^ 64; successes = (s.successes + 1) % 2 ^ 64 })
        (λ k s h. (h.0, h.1, omega (arith, h.2, h.3, b), omega (arith, h.3, b))) v

  run-from :
      (n : ℕ) (r : SkillRegistry) (cs : List Call)
      → n + length cs < 2 ^ 64
      → IsValid n r
      → IsValid (n + length cs) (run r cs)
  unfolding run
  run-from n r [] b v = subst (λ k. IsValid k r) (omega arith) v
  run-from n r (c ∷ cs) b v =
      subst (λ k. IsValid k (run (step r c) cs)) (omega arith)
        (run-from (n + 1) (step r c) cs (omega arith) (step-IsValid n r c (omega arith) v))

  -- After any calls, fewer than 2^64, on an empty registry, every skill stands under its own name with a
  -- valid manifest, and has no more successes than uses and no more uses than there were calls.
  pub run-IsValid : (cs : List Call) → length cs < 2 ^ 64 → IsValid (length cs) (run new cs)
  run-IsValid cs b =
      subst (λ k. IsValid k (run new cs)) (omega arith)
        (run-from 0 new cs (omega arith)
          (tt, λ k s e. absurd (ground (arith, lookup-Absent k new.skills tt))))
