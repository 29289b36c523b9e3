-- ===== src/Reflex.antt =====
-- crates/igris-reflex/src/lib.rs: the decisions taken without a language model. `f32` is a parameter,
-- its literals given in hundredths, and so is the Unicode table of `to_lowercase`.
pub mod Rules
pub mod Cache
pub mod Eviction
pub mod Safety
pub mod Approval
pub mod Transparent
pub mod Tests
use Prim.Native.Char.{code}
use igrisv.Base.{
  ℕ, String, Bool, true, false, Option, none, some, List, [], ◌∷◌, leb, ◌==◌, if◌then◌else◌, length,
  keep, is_whitespace, join, contains, split_whitespace,
}

pub data Intent : Type 0 where
  device_transfer device_status memory_query tool_exec communication risky_op general : Intent

unfoldable pub as_str : Intent → String
as_str device_transfer = "device_transfer"
as_str device_status = "device_status"
as_str memory_query = "memory_query"
as_str tool_exec = "tool_exec"
as_str communication = "communication"
as_str risky_op = "risky_op"
as_str general = "general"

pub data Risk : Type 0 where
  low medium high critical : Risk

-- The derived order.
abbrev pub risk_index : Risk → ℕ
risk_index low = 0
risk_index medium = 1
risk_index high = 2
risk_index critical = 3

pub data ModelHint : Type 0 where
  local_tiny local_small fast_cloud reasoning_cloud : ModelHint

-- What the code uses of `f32`; `lit n` is the literal of `n` hundredths.
pub record Float : Type 1 where
  pub f32 : Type 0
  pub lit : ℕ → f32
  pub from_usize : ℕ → f32
  pub plus : f32 → f32 → f32
  pub times : f32 → f32 → f32
  pub minimum : f32 → f32 → f32
  pub less : f32 → f32 → Bool

pub record ReflexDecision (F : Type 0) : Type 0 where
  pub intent : Intent
  pub tool : Option String
  pub target_device : Option String
  pub requires_reasoning : Bool
  pub risk : Risk
  pub approval : Bool
  pub memory_scope : String
  pub model_hint : ModelHint
  pub confidence : F
  pub cached : Bool

pub record EscalationPolicy (F : Type 0) : Type 0 where
  pub min_confidence : F
  pub approval_from : Risk

unfoldable pub normalize : (String → String) → String → String
unfolding split_whitespace
normalize to_lowercase text = join " " (split_whitespace (to_lowercase text))

unfoldable pub count_hits : String → List String → ℕ
count_hits t words = length (keep (contains t) words)

module _ (float : Float) where
  abbrev pub default_policy : EscalationPolicy float.f32
  default_policy = record { min_confidence = float.lit 60; approval_from = high }

  abbrev low_confidence :
      EscalationPolicy float.f32 → ReflexDecision float.f32 → ReflexDecision float.f32
  low_confidence policy d =
      if float.less d.confidence policy.min_confidence
      then record d { requires_reasoning = true }
      else d

  abbrev high_risk :
      EscalationPolicy float.f32 → ReflexDecision float.f32 → ReflexDecision float.f32
  high_risk policy d =
      if leb (risk_index policy.approval_from) (risk_index d.risk)
      then record d { approval = true; requires_reasoning = true }
      else d

  abbrev critical_risk : ReflexDecision float.f32 → ReflexDecision float.f32
  critical_risk d =
      if risk_index d.risk == risk_index critical
      then record d { model_hint = reasoning_cloud }
      else d

  unfoldable pub apply :
      EscalationPolicy float.f32 → ReflexDecision float.f32 → ReflexDecision float.f32
  apply policy d = critical_risk (high_risk policy (low_confidence policy d))

  unfoldable pub calibrate : float.f32 → ℕ → float.f32
  calibrate base extra_signals =
      float.minimum (float.plus base (float.times (float.lit 5) (float.from_usize extra_signals)))
        (float.lit 97)
