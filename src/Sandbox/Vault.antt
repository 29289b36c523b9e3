-- ===== src/Sandbox/Vault.antt =====
-- igris-sandbox, `SecretsVault`: values in, redacted texts out.
use Prim.Native.String.{len}
use text.Mathlib.Text.{starts_with}
use igrisv.Base.{
  ℕ, zero, suc, ◌-◌, String, Bool, true, false, ◌||◌, none, some, List, [], ◌∷◌, ltb, leb,
  if◌then◌else◌, length, is_empty, nat_key, string_key, Assoc, values, lookup, insert, Result, ok,
  err, ◌⁀◌, same, is_blank, sort_by,
}
use igrisv.Sandbox.{SandboxError, unknown_secret, duplicate_secret}

pub record SecretsVault : Type 0 where
  pub secrets : Assoc String String

abbrev pub empty_vault : SecretsVault
empty_vault = record { secrets = [] }

unfoldable pub has_secret : SecretsVault → String → Bool
has_secret v key = elim (lookup key v.secrets) [ none ↦ false | some s ↦ true ]

unfoldable pub set : SecretsVault → String → String → Result SandboxError (Unit {0}) × SecretsVault
set v key value =
    if is_blank key || same value ""
    then (err (unknown_secret "empty key or value"), v)
    else if has_secret v key
    then (err (duplicate_secret key), v)
    else (ok tt, record v { secrets = insert key value v.secrets })

unfoldable pub reveal : SecretsVault → String → Result SandboxError String
reveal v key = elim (lookup key v.secrets) [ none ↦ err (unknown_secret key) | some s ↦ ok s ]

abbrev char_count : String → ℕ
char_count String.[] = 0
char_count (String.◌∷◌ c s) = suc (char_count s)

-- `replace`: the matches from the left; `skip` characters of the last one are still to come.
unfoldable pub replace_from : String → String → ℕ → String → String
replace_from v by skip String.[] = ""
replace_from v by (suc skip) (String.◌∷◌ c s) = replace_from v by skip s
replace_from v by zero (String.◌∷◌ c s) = elim (starts_with (String.◌∷◌ c s) v) [
  | true ↦ by ⁀ replace_from v by (char_count v - 1) s
  | false ↦ String.◌∷◌ c (replace_from v by zero s)
]

-- The loop over the values.
abbrev pub redact_all : List String → String → String
redact_all [] out = out
redact_all (v ∷ vs) out =
    redact_all vs (if leb 4 (len v) then replace_from v "[redacted]" 0 out else out)

abbrev longer : String → String → Bool
longer s t = ltb (len t) (len s)

unfoldable pub redact : SecretsVault → String → String
redact v text = redact_all (sort_by longer (values v.secrets)) text

unfoldable pub count : SecretsVault → ℕ
count v = length v.secrets

unfoldable pub is_empty_vault : SecretsVault → Bool
is_empty_vault v = is_empty v.secrets
