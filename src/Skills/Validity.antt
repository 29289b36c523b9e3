-- ===== src/Skills/Validity.antt =====
-- igris-skills: what a valid manifest asks for.
use text.Mathlib.TextEquality.{eq_iff}
use igrisv.Base.{
  String, ◌≡◌, refl, inl, inr, true, false, ◌||◌, none, some, List, [], ◌∷◌, arith, Option-cases,
  Result, ok, has, text_ltb, if◌then◌else◌, err, is_blank, text_ltb-trans_false, text_ltb_irrefl,
  text_ltb-asym, ap, not, Option, same, unwrap_or, Bool, ◌&&◌, all,
}
use igrisv.Skills.{
  validate, known_permissions, check_permissions, greatest, max_permission, requires_approval,
  SkillError, SkillManifest, invalid,
}

greatest-has : (ps : List String) (q : String) → greatest ps ≡ some q → has q ps ≡ true
greatest-has [] q e = absurd (ground arith)
greatest-has (p ∷ ps) q e = elim (Option-cases (greatest ps)) [
  | inl n ↦ ground (arith, eq_iff p q)
  | inr r ↦ ground (arith, eq_iff p q, greatest-has ps r.0)
]

greatest-none : (ps : List String) (x : String) → greatest ps ≡ none → has x ps ≡ false
greatest-none [] x e = refl
greatest-none (p ∷ ps) x e =
    absurd (elim (Option-cases (greatest ps)) [ inl n ↦ ground arith | inr r ↦ ground arith ])

greatest-upper :
    (ps : List String) (q x : String)
    → greatest ps ≡ some q
    → has x ps ≡ true
    → text_ltb q x ≡ false
greatest-upper [] q x e h = absurd (ground arith)
greatest-upper (p ∷ ps) q x e h = elim (Option-cases (greatest ps)) [
  | inl n ↦ ground (arith, eq_iff p x, text_ltb_irrefl p, greatest-none ps x n)
  | inr r ↦ ground (
    arith,
    eq_iff p x,
    text_ltb_irrefl p,
    greatest-upper ps r.0 x r.1,
    text_ltb-asym r.0 p,
    text_ltb-trans_false p r.0 x,
  )
]

check_permissions_known :
    (bad : String → SkillError) (rest : Result SkillError (Unit {0})) (ps : List String)
    (x : String)
    → check_permissions bad rest ps ≡ ok tt
    → has x ps ≡ true
    → has x known_permissions ≡ true
check_permissions_known bad rest [] x e h = absurd (ground arith)
check_permissions_known bad rest (p ∷ ps) x e h =
    ground (arith, eq_iff p x, check_permissions_known bad rest ps x)

validate_known :
    (m : SkillManifest) (x : String)
    → validate m ≡ ok tt
    → has x m.permissions ≡ true
    → has x known_permissions ≡ true
unfolding validate
validate_known m x e h =
    check_permissions_known (invalid m.name)
      (if is_blank m.validation then err (invalid m.name "validation is empty") else ok tt)
      m.permissions x (ground arith) h

max-requires :
    (m : SkillManifest) (o : Option String)
    → greatest m.permissions ≡ o
    → requires_approval m ≡ (same (unwrap_or "L0" o) "L3" || same (unwrap_or "L0" o) "L4")
unfolding requires_approval max_permission
max-requires m o e = ap (λ p. same (unwrap_or "L0" p) "L3" || same (unwrap_or "L0" p) "L4") e

all-has :
    (p : String → Bool) (q : String) (xs : List String)
    → all p xs ≡ true
    → has q xs ≡ true
    → p q ≡ true
all-has p q [] a h = absurd (ground arith)
all-has p q (x ∷ xs) a h = ground (arith, eq_iff x q, all-has p q xs)

-- Only L4 is above L3, and nothing that is known is above L4.
abbrev is_below : String → Bool
is_below q =
    (if same q "L4" then not (text_ltb q "L4") else text_ltb q "L4")
    && (if same q "L3" || same q "L4" then not (text_ltb q "L3") else text_ltb q "L3")

below : (q : String) → has q known_permissions ≡ true → is_below q ≡ true
unfolding text_ltb
below q h = all-has is_below q known_permissions refl h

-- A valid manifest must stop for approval exactly if L3 or L4 is among its permissions.
pub requires_approval_iff :
    (m : SkillManifest)
    → validate m ≡ ok tt
    → requires_approval m ≡ (has "L3" m.permissions || has "L4" m.permissions)
requires_approval_iff m e = elim (Option-cases (greatest m.permissions)) [
  | inl n ↦ ground (
    arith,
    max-requires m none n,
    greatest-none m.permissions "L3" n,
    greatest-none m.permissions "L4" n,
  )
  | inr q ↦
      let known = validate_known m q.0 e (greatest-has m.permissions q.0 q.1) in
      ground (
        arith,
        max-requires m (some q.0) q.1,
        below q.0 known,
        eq_iff q.0 "L3",
        eq_iff q.0 "L4",
        greatest-has m.permissions q.0 q.1,
        greatest-upper m.permissions q.0 "L3" q.1,
        greatest-upper m.permissions q.0 "L4" q.1,
      )
]
