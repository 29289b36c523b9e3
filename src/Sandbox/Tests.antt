-- ===== src/Sandbox/Tests.antt =====
-- Tests of the sandbox, and instances of its theorems.
use igrisv.Base.{◌≡◌, refl, true, [], ◌∷◌, nat_key, string_key, lookup, ok, err, sort_by}
use igrisv.Sandbox.{new, network_disabled, check_network, Workspace}
use igrisv.Sandbox.Vault.{set, empty_vault, has_secret, replace_from, redact}

abbrev two_roots : Workspace
two_roots = new "w" (("srv" ∷ []) ∷ ("tmp" ∷ []) ∷ [])

redacts :
    redact (record { secrets = ("token", "abcd") ∷ ("pin", "123") ∷ [] }) "abcd-123-abcd"
    ≡ "[redacted]-123-[redacted]"
unfolding redact replace_from sort_by
redacts = refl

no_network : check_network two_roots true ≡ err network_disabled
unfolding check_network new
no_network = refl

set_token : (set empty_vault "token" "abcd").0 ≡ ok tt
unfolding set has_secret lookup
set_token = refl
