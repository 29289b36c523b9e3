-- ===== src/Skills/Gated.antt =====
-- igris-skills: which skills are put before the user.
use text.Mathlib.TextEquality.{eq_iff}
use igrisv.Base.{
  ℕ, String, ◌≡◌, refl, Bool, false, ◌&&◌, ◌||◌, Option, none, some, List, [], ◌∷◌, arith, any,
  keep, nat_key, string_key, Assoc, values, lookup, Unique, same, has, ◌∙◌, inl, inr, Option-cases,
  lookup-Absent, any-sort_by,
}
use igrisv.Skills.{
  approval_gated, list, list_enabled, SkillRecord, SkillRegistry, requires_approval, by_name,
}
use igrisv.Skills.Validity.{requires_approval_iff}
use igrisv.Skills.Runs.{IsValid}

abbrev pub listed : String → List SkillRecord → Bool
listed n = any (λ s. same s.manifest.name n)

-- Whether a skill must stop for approval, by its permissions.
abbrev pub sensitive : SkillRecord → Bool
sensitive s = s.enabled && (has "L3" s.manifest.permissions || has "L4" s.manifest.permissions)

any-keep :
    (p q : SkillRecord → Bool) (xs : List SkillRecord)
    → any p (keep q xs) ≡ any (λ s. q s && p s) xs
any-keep p q [] = refl
any-keep p q (x ∷ xs) = ground (arith, any-keep p q xs)

abbrev pub holds : (SkillRecord → Bool) → Option SkillRecord → Bool
holds g none = false
holds g (some s) = g s

any-values :
    (g h : SkillRecord → Bool) (n : String) (m : Assoc String SkillRecord)
    → Unique m
    → ((k : String) (s : SkillRecord) → lookup k m ≡ some s → s.manifest.name ≡ k)
    → any (λ s. g s && (h s && same s.manifest.name n)) (values m)
      ≡ holds (λ s. g s && h s) (lookup n m)
unfolding lookup
any-values g h n [] u names = refl
any-values g h n ((k, s) ∷ m) u names =
    let tail =
      any-values g h n m u.1 (λ j t e. names j t (ground (arith, lookup-Absent k m u.0))) in
    ground (arith, tail, names k s, lookup-Absent k m u.0, eq_iff s.manifest.name n)

-- In a registry where the skills stand under their own names and are valid, the list for approval has a
-- skill's name exactly if the skill is registered, enabled, and has L3 or L4 among its permissions.
pub approval_gated_iff :
    (k : ℕ) (r : SkillRegistry) (n : String)
    → IsValid k r
    → listed n (approval_gated r) ≡ holds sensitive (lookup n r.skills)
unfolding approval_gated list_enabled list
approval_gated_iff k r n v =
    let name : SkillRecord → Bool = λ s. same s.manifest.name n in
    let asks : SkillRecord → Bool = λ s. requires_approval s.manifest in
    any-keep name asks (list_enabled r)
    ∙ any-keep (λ s. asks s && name s) (λ s. s.enabled) (list r)
    ∙ any-sort_by (λ s. s.enabled && (asks s && name s)) by_name (values r.skills)
    ∙ any-values (λ s. s.enabled) asks n r.skills v.0 (λ j s e. (v.1 j s e).0)
    ∙ (elim (Option-cases (lookup n r.skills)) [
      | inl e ↦ ground arith
      | inr s ↦ ground (arith, requires_approval_iff s.0.manifest (v.1 n s.0 s.1).1)
    ])
