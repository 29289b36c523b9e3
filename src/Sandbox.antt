-- ===== src/Sandbox.antt =====
-- crates/igris-sandbox/src/lib.rs: what an agent's workspace allows, and the vault that keeps secrets out
-- of texts. The Unicode table of `to_lowercase` is a parameter; paths are those of Unix.
pub mod Vault
pub mod Confinement
pub mod Tests
use Prim.Native.String.{len, slice}
use text.Mathlib.Text.{is_char_boundary}
use igrisv.Base.{
  ℕ, String, Bool, false, not, ◌&&◌, Option, none, some, List, [], ◌∷◌, ◌++◌, leb, if◌then◌else◌,
  any, keep, Assoc, Result, ok, err, ◌⁀◌, has, contains, PathBuf, is_absolute, join_path, climbs,
  path_starts_with,
}

pub data SandboxError : Type 0 where
  path_escape : String → SandboxError
  command_denied : String → SandboxError
  network_disabled : SandboxError
  unknown_secret : String → SandboxError
  duplicate_secret : String → SandboxError

pub record Workspace : Type 0 where
  pub name : String
  pub allowed_roots : List PathBuf
  pub denied_commands : List String
  pub network_allowed : Bool
  pub allowed_env : List String
  pub timeout_ms : ℕ
  pub max_output_chars : ℕ

unfoldable pub new : String → List PathBuf → Workspace
new name allowed_roots = record {
  name = name;
  allowed_roots = allowed_roots;
  denied_commands = "rm -rf /" ∷ "mkfs" ∷ "dd if=" ∷ ":(){" ∷ "shutdown" ∷ "> /dev/sda" ∷ [];
  network_allowed = false;
  allowed_env = "PATH" ∷ [];
  timeout_ms = 30000;
  max_output_chars = 8192;
}

-- The loop over the roots.
abbrev pub try_roots : String → List PathBuf → Result SandboxError PathBuf
try_roots rel [] = err (path_escape ("outside workspace roots: " ⁀ rel))
try_roots rel (root ∷ roots) =
    let later = try_roots rel roots in
    if path_starts_with (join_path root rel) root then ok (join_path root rel) else later

unfoldable pub confine : Workspace → String → Result SandboxError PathBuf
confine w rel =
    if is_absolute rel
    then err (path_escape rel)
    else if climbs rel
    then err (path_escape rel)
    else try_roots rel w.allowed_roots

unfoldable pub check_command :
    (String → String) → Workspace → String → Result SandboxError (Unit {0})
check_command to_lowercase w cmd =
    if any (λ d. contains (to_lowercase cmd) (to_lowercase d)) w.denied_commands
    then err (command_denied cmd)
    else ok tt

unfoldable pub check_network : Workspace → Bool → Result SandboxError (Unit {0})
check_network w needs_network =
    if needs_network && not w.network_allowed then err network_disabled else ok tt

unfoldable pub filter_env : Workspace → Assoc String String → Assoc String String
filter_env w env = keep (λ e. has e.0 w.allowed_env) env

-- `none` where the cut is inside a character, and the slice panics.
unfoldable pub cap_output : Workspace → String → Option String
cap_output w s =
    if leb (len s) w.max_output_chars
    then some s
    else if is_char_boundary s w.max_output_chars
    then some (slice s 0 w.max_output_chars ⁀ "…[truncated]")
    else none
