-- ===== src/Tools.antt =====
-- crates/igris-tools/src/lib.rs: the permissioned tool runtime. What a tool may change outside the
-- program is a state `W`, which every run threads through. Text that a slice would cut inside a
-- character is a panic, the `none` of `truncate`.
pub mod Catalog
pub mod Native
pub mod Execution
pub mod Visibility
pub mod Confinement
pub mod Tests
use mathlib.Core.Option
use Prim.Native.String.{len, slice}
use text.Mathlib.Text.{is_char_boundary}
use igrisv.Base.{
  ℕ, ◌-◌, String, Bool, true, false, Option, none, some, List, [], ◌∷◌, ◌++◌, map, leb,
  if◌then◌else◌, length, drop, is_empty, keep, nat_key, string_key, Assoc, lookup, insert, Result,
  ok, err, ◌⁀◌, same, decimal, text_ltb, sort_by, unwrap_or,
}
use igrisv.Policy.{PermissionLevel}

abbrev pub default_tool_timeout_ms : ℕ
default_tool_timeout_ms = 30000

abbrev pub max_output_chars : ℕ
max_output_chars = 8192

abbrev pub max_file_read_bytes : ℕ
max_file_read_bytes = 65536

pub data RiskLevel : Type 0 where
  no_risk low medium high critical : RiskLevel

-- The derived order.
abbrev pub risk_index : RiskLevel → ℕ
risk_index RiskLevel.no_risk = 0
risk_index RiskLevel.low = 1
risk_index RiskLevel.medium = 2
risk_index RiskLevel.high = 3
risk_index RiskLevel.critical = 4

unfoldable pub needs_approval : RiskLevel → Bool
needs_approval r = leb 2 (risk_index r)

pub record ToolDef : Type 0 where
  pub name : String
  pub description : String
  pub version : String
  pub permission : PermissionLevel
  pub risk : RiskLevel
  pub requires_network : Bool
  pub timeout_ms : Option ℕ

pub record ToolResult : Type 0 where
  pub success : Bool
  pub output : String
  pub error : Option String

unfoldable pub truncate : String → Option String
truncate s =
    if leb (len s) max_output_chars
    then some s
    else if is_char_boundary s max_output_chars
    then some (
        slice s 0 max_output_chars
        ⁀ "…[truncated "
        ⁀ decimal (len s - max_output_chars)
        ⁀ " chars]")
    else none

-- `ToolResult::ok` and `ToolResult::err`.
abbrev pub good : String → Option ToolResult
good output =
    Option.map (λ t. record { success = true; output = t; error = none }) (truncate output)

abbrev pub bad : String → Option ToolResult
bad msg = Option.map (λ t. record { success = false; output = ""; error = some t }) (truncate msg)

pub data ToolError : Type 0 where
  denied : String → ToolError
  bad_args : String → ToolError
  exec : String → ToolError
  timeout : ℕ → ToolError

-- `to_string`
abbrev pub show : ToolError → String
show (denied s) = "denied: " ⁀ s
show (bad_args s) = "bad args: " ⁀ s
show (timeout ms) = "timed out after " ⁀ decimal ms ⁀ "ms"
show (exec s) = "execution failed: " ⁀ s

-- A tool's run is `none` if it panics.
pub record Tool (W : Type 0) : Type 0 where
  pub definition : ToolDef
  pub validate : String → Result ToolError (Unit {0})
  pub run : String → W → Option ToolResult × W

pub record Registry (W : Type 0) : Type 0 where
  pub inner : Assoc String (Tool W)
  pub audit : List (String × Bool)

-- How a call ends: `None`, a panic, or a result.
pub data Ended : Type 0 where
  unknown panicked : Ended
  returned : ToolResult → Ended

-- Whether the run of a tool ends within its time, and the text of a panic.
pub data Finish : Type 0 where
  in_time late : Finish

abbrev keys : {V : Type 0} → Assoc String V → List String
keys = map (λ e. e.0)

abbrev pub by_name : ToolDef → ToolDef → Bool
by_name a b = text_ltb a.name b.name

module _ {W : Type 0} where
  abbrev pub new : Registry W
  new = record { inner = []; audit = [] }

  unfoldable pub register : Registry W → Tool W → Registry W
  register r t = record r { inner = insert t.definition.name t r.inner }

  unfoldable pub knows : Registry W → String → Bool
  knows r name = elim (lookup name r.inner) [ none ↦ false | some t ↦ true ]

  unfoldable pub names : Registry W → List String
  names r = sort_by text_ltb (keys r.inner)

  unfoldable pub note : Registry W → String → Bool → Registry W
  note r name success =
      let longer = r.audit ++ (name, success) ∷ [] in
      record r { audit = drop (length longer - 10000) longer }

  -- A result is recorded and handed out; a panic leaves before that.
  abbrev pub handed : Registry W → String → Option ToolResult × W → Ended × Registry W × W
  handed r name (none, w) = (panicked, r, w)
  handed r name (some x, w) = (returned x, note r name x.success, w)

  unfoldable pub execute : Registry W → String → String → W → Ended × Registry W × W
  execute r name args w = elim (lookup name r.inner) [
    | none ↦ (unknown, r, w)
    | some t ↦ elim (t.validate args) [
      | err e ↦ handed r name (bad (show e), w)
      | ok _ ↦ handed r name (t.run args w)
    ]
  ]

  -- What the blocking pool gives back. A late run still does what it does.
  abbrev pub awaited : String → ℕ → Finish → Option ToolResult × W → Option ToolResult × W
  awaited panic_text timeout_ms in_time (some x, w) = (some x, w)
  awaited panic_text timeout_ms in_time (none, w) = (bad ("tool panicked: " ⁀ panic_text), w)
  awaited panic_text timeout_ms late (x, w) = (bad (show (timeout timeout_ms)), w)

  abbrev pub execute_inner :
      Registry W → String → Tool W → String → ℕ → Finish → String → W → Ended × Registry W × W
  execute_inner r name t args timeout_ms finish panic_text w = elim (t.validate args) [
    | err e ↦ handed r name (bad (show e), w)
    | ok _ ↦ handed r name (awaited panic_text timeout_ms finish (t.run args w))
  ]

  unfoldable pub execute_async :
      Registry W → String → String → Finish → String → W → Ended × Registry W × W
  execute_async r name args finish panic_text w = elim (lookup name r.inner) [
    | none ↦ (unknown, r, w)
    | some t ↦
        execute_inner r name t args (unwrap_or default_tool_timeout_ms t.definition.timeout_ms)
          finish panic_text w
  ]

  unfoldable pub execute_async_with_timeout :
      Registry W → String → String → ℕ → Finish → String → W → Ended × Registry W × W
  execute_async_with_timeout r name args timeout_ms finish panic_text w =
      elim (lookup name r.inner) [
        | none ↦ (unknown, r, w)
        | some t ↦ execute_inner r name t args timeout_ms finish panic_text w
      ]

  -- `filter_map` over the allowed names.
  abbrev pub found_defs : Assoc String (Tool W) → List String → List ToolDef
  found_defs inner [] = []
  found_defs inner (n ∷ ns) =
      let rest = found_defs inner ns in
      elim (lookup n inner) [ none ↦ rest | some t ↦ t.definition ∷ rest ]

  unfoldable pub definitions_for : Registry W → List String → List ToolDef
  definitions_for r allowed = sort_by by_name (found_defs r.inner allowed)

  -- `as f32` and the division are the parameter `ratio`.
  unfoldable pub success_rate : {F : Type 0} → (ℕ → ℕ → F) → Registry W → String → Option F
  success_rate ratio r name =
      let mine = keep (λ e. same e.0 name) r.audit in
      if is_empty mine then none else some (ratio (length (keep (λ e. e.1) mine)) (length mine))
