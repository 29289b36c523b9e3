-- ===== src/Sandbox/Confinement.antt =====
-- igris-sandbox: where a workspace's paths lie, and what becomes of its secrets.
use igrisv.Base.{
  String, ◌≡◌, ◌↔◌, List, ◌∷◌, ok, PathBuf, inl, inr, [], arith, Option-cases, nat_key, string_key,
  lookup, lookup-insert, parts,
}
use igrisv.Tools.Native
use igrisv.Tools.Confinement.{starts_with_append}
use igrisv.Sandbox.{Workspace, confine}
use igrisv.Sandbox.Vault.{set, has_secret, reveal, SecretsVault}

-- A workspace confines a path as the file tool does that has the first of the workspace's roots: the
-- other roots are never tried, a path is accepted by both or by neither, with the same result.
pub confine_as_tool :
    (w : Workspace) (root : PathBuf) (roots : List PathBuf) (rel : String) (p : PathBuf)
    → w.allowed_roots ≡ root ∷ roots
    → (confine w rel ≡ ok p) ↔ (Native.confine root rel ≡ ok p)
unfolding confine Native.confine
confine_as_tool w root roots rel p h = (
  λ e. ground (arith, starts_with_append root (parts rel)),
  λ e. ground (arith, starts_with_append root (parts rel)),
)

set_keeps :
    (v : SecretsVault) (k x key value : String)
    → reveal v key ≡ ok value
    → reveal (set v k x).1 key ≡ ok value
unfolding set has_secret reveal
set_keeps v k x key value h = elim (Option-cases (lookup k v.secrets)) [
  | inl n ↦ ground (arith, lookup-insert k key x v.secrets)
  | inr s ↦ ground arith
]

set_reveals :
    (v : SecretsVault) (key value : String)
    → (set v key value).0 ≡ ok tt
    → reveal (set v key value).1 key ≡ ok value
unfolding set has_secret reveal
set_reveals v key value h = ground (arith, lookup-insert key key value v.secrets)

-- The values that are set, in turn.
unfoldable pub set_all : SecretsVault → List (String × String) → SecretsVault
set_all v [] = v
set_all v ((key, value) ∷ more) = set_all (set v key value).1 more

kept_by_all :
    (more : List (String × String)) (v : SecretsVault) (key value : String)
    → reveal v key ≡ ok value
    → reveal (set_all v more) key ≡ ok value
unfolding set_all
kept_by_all [] v key value h = h
kept_by_all ((k, x) ∷ more) v key value h =
    kept_by_all more (set v k x).1 key value (set_keeps v k x key value h)

-- A secret that the vault accepts is written once: whatever values are set afterwards, for the same key
-- or others, the vault reveals the first value of the key.
pub written_once :
    (v : SecretsVault) (key value : String) (more : List (String × String))
    → (set v key value).0 ≡ ok tt
    → reveal (set_all (set v key value).1 more) key ≡ ok value
written_once v key value more h =
    kept_by_all more (set v key value).1 key value (set_reveals v key value h)
