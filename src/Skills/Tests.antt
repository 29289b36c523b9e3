-- ===== src/Skills/Tests.antt =====
-- Tests of the registry of skills, and instances of its theorems.
use mathlib.Core.Option
use igrisv.Base.{
  String, ◌≡◌, refl, some, List, [], ◌∷◌, arith, String_discrete, length, nat_key, string_key,
  lookup, insert, update, Result, ok, err, ℕ,
}
use igrisv.Skills.{
  register, invalid, duplicate, validate, new, register_json, get, enable, disable, record_use,
  record_success, SkillManifest,
}
use igrisv.Skills.Runs.{
  run, registers, imports, enables, disables, uses, succeeds, IsValid, step, run-IsValid, Call,
}

abbrev deploy : SkillManifest
deploy = record {
  name = "deploy";
  description = "ship a build";
  version = "1.0.0";
  inputs = [];
  preconditions = [];
  permissions = "L1" ∷ "L3" ∷ [];
  tools = "terminal" ∷ [];
  steps = "build" ∷ "upload" ∷ [];
  validation = "the service answers";
  failure_recovery = "roll back";
  cautions = [];
}

deploy_validates : validate deploy ≡ ok tt
unfolding validate
deploy_validates = refl

capital_letters :
    validate (record deploy { name = "Deploy" })
    ≡ err (invalid "Deploy" "name must be lowercase kebab-case")
unfolding validate
capital_letters = refl

twice : (register (register new deploy).1 deploy).0 ≡ err (duplicate "deploy")
unfolding register validate lookup insert String_discrete
twice = refl

abbrev no_json : String → Result String SkillManifest
no_json s = err "not JSON"

abbrev used : List Call
used =
    registers deploy
    ∷ succeeds "deploy"
    ∷ uses "deploy"
    ∷ imports "{}"
    ∷ disables "deploy"
    ∷ enables "deploy"
    ∷ []

used_twice :
    Option.map {B = ℕ × ℕ} (λ s. (s.uses, s.successes)) (get (run no_json new used) "deploy")
    ≡ some (2, 1)
unfolding run step register register_json enable disable record_use record_success validate lookup
    insert update String_discrete
used_twice = refl

run-IsValid_example : IsValid (length used) (run no_json new used)
run-IsValid_example = run-IsValid no_json used (omega arith)
