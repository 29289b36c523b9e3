-- ===== src/Skills.antt =====
-- crates/igris-skills/src/lib.rs: the registry of skills, which are versioned and permissioned runbooks.
-- `from_str` stands for serde_json.
pub mod Validity
pub mod Runs
pub mod Gated
pub mod Tests
use Prim.Native.Char.{code}
use mathlib.Core.Option
use igrisv.Base.{
  ℕ, ◌+◌, ◌%◌, ◌^◌, String, Bool, true, false, not, ◌&&◌, ◌||◌, Option, none, some, List, [], ◌∷◌,
  map, leb, ◌==◌, if◌then◌else◌, is_empty, keep, nat_key, string_key, Assoc, values, lookup, insert,
  update, Result, ok, err, ◌⁀◌, same, has, is_blank, text_ltb, sort_by, unwrap_or,
}

abbrev pub known_permissions : List String
known_permissions = "L0" ∷ "L1" ∷ "L2" ∷ "L3" ∷ "L4" ∷ []

pub record SkillManifest : Type 0 where
  pub name : String
  pub description : String
  pub version : String
  pub inputs : List String
  pub preconditions : List String
  pub permissions : List String
  pub tools : List String
  pub steps : List String
  pub validation : String
  pub failure_recovery : String
  pub cautions : List String

pub data SkillError : Type 0 where
  invalid : String → String → SkillError
  duplicate : String → SkillError
  unknown : String → SkillError

abbrev in_kebab_case : String → Bool
in_kebab_case String.[] = true
in_kebab_case (String.◌∷◌ c s) =
    (leb 97 (code c) && leb (code c) 122 || leb 48 (code c) && leb (code c) 57 || code c == 45)
    && in_kebab_case s

-- The loop over the permissions, and what follows it.
abbrev pub check_permissions :
    (String → SkillError)
    → Result SkillError (Unit {0})
    → List String
    → Result SkillError (Unit {0})
check_permissions bad rest [] = rest
check_permissions bad rest (p ∷ ps) =
    let later = check_permissions bad rest ps in
    if has p known_permissions
    then later
    else err (bad ("unknown permission " ⁀ p ⁀ " (want L0..L4)"))

unfoldable pub validate : SkillManifest → Result SkillError (Unit {0})
validate m =
    let bad = invalid m.name in
    if is_blank m.name
    then err (bad "name is empty")
    else if not (in_kebab_case m.name)
    then err (bad "name must be lowercase kebab-case")
    else if is_blank m.description
    then err (bad "description is empty")
    else if is_blank m.version
    then err (bad "version is empty")
    else if is_empty m.tools
    then err (bad "tools is empty")
    else if is_empty m.steps
    then err (bad "steps is empty")
    else check_permissions bad
        (if is_blank m.validation then err (bad "validation is empty") else ok tt) m.permissions

-- `max`: the last of the greatest texts.
abbrev pub greatest : List String → Option String
greatest [] = none
greatest (p ∷ ps) =
    let rest = greatest ps in
    elim rest [ none ↦ some p | some q ↦ (if text_ltb q p then some p else some q) ]

unfoldable pub max_permission : SkillManifest → String
max_permission m = unwrap_or "L0" (greatest m.permissions)

unfoldable pub requires_approval : SkillManifest → Bool
requires_approval m = same (max_permission m) "L3" || same (max_permission m) "L4"

pub record SkillRecord : Type 0 where
  pub manifest : SkillManifest
  pub enabled : Bool
  pub uses : ℕ
  pub successes : ℕ

pub record SkillRegistry : Type 0 where
  pub skills : Assoc String SkillRecord

abbrev pub new : SkillRegistry
new = record { skills = [] }

abbrev is_known : SkillRegistry → String → Bool
is_known r name = elim (lookup name r.skills) [ none ↦ false | some s ↦ true ]

unfoldable pub register :
    SkillRegistry → SkillManifest → Result SkillError (Unit {0}) × SkillRegistry
register r m = elim (validate m) [
  | err e ↦ (err e, r)
  | ok _ ↦ if is_known r m.name then (err (duplicate m.name), r) else (
    ok tt,
    record r {
      skills =
          insert m.name (record { manifest = m; enabled = true; uses = 0; successes = 0 }) r.skills;
    },
  )
]

abbrev named :
    String → Result SkillError (Unit {0}) × SkillRegistry → Result SkillError String × SkillRegistry
named name (err e, r) = (err e, r)
named name (ok _, r) = (ok name, r)

unfoldable pub register_json :
    (String → Result String SkillManifest)
    → SkillRegistry
    → String
    → Result SkillError String × SkillRegistry
register_json from_str r json = elim (from_str json) [
  | err e ↦ (err (invalid "?" e), r)
  | ok m ↦ named m.name (register r m)
]

abbrev pub get : SkillRegistry → String → Option SkillRecord
get r name = lookup name r.skills

-- A write through `get_mut`, or the error that there is no such skill.
abbrev pub modify :
    SkillRegistry
    → String
    → (SkillRecord → SkillRecord)
    → Result SkillError (Unit {0}) × SkillRegistry
modify r name f = (
  (if is_known r name then ok tt else err (unknown name)),
  record r { skills = update name f r.skills },
)

unfoldable pub enable : SkillRegistry → String → Result SkillError (Unit {0}) × SkillRegistry
enable r name = modify r name (λ s. record s { enabled = true })

unfoldable pub disable : SkillRegistry → String → Result SkillError (Unit {0}) × SkillRegistry
disable r name = modify r name (λ s. record s { enabled = false })

abbrev pub by_name : SkillRecord → SkillRecord → Bool
by_name a b = text_ltb a.manifest.name b.manifest.name

unfoldable pub list : SkillRegistry → List SkillRecord
list r = sort_by by_name (values r.skills)

unfoldable pub list_enabled : SkillRegistry → List SkillRecord
list_enabled r = keep (λ s. s.enabled) (list r)

unfoldable pub approval_gated : SkillRegistry → List SkillRecord
approval_gated r = keep (λ s. requires_approval s.manifest) (list_enabled r)

unfoldable pub record_use : SkillRegistry → String → Result SkillError (Unit {0}) × SkillRegistry
record_use r name = modify r name (λ s. record s { uses = (s.uses + 1) % 2 ^ 64 })

unfoldable pub record_success :
    SkillRegistry → String → Result SkillError (Unit {0}) × SkillRegistry
record_success r name =
    modify r name
      (λ s. record s { uses = (s.uses + 1) % 2 ^ 64; successes = (s.successes + 1) % 2 ^ 64 })

unfoldable pub promotion_candidates : SkillRegistry → ℕ → List String
promotion_candidates r min_successes =
    sort_by text_ltb
      (map (λ s. s.manifest.name) (keep (λ s. leb min_successes s.successes) (values r.skills)))
