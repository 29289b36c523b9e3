-- ===== src/Runtime.antt =====
-- crates/igris-runtime/src/lib.rs: the handle of a node. tokio's watch channel and its timer are
-- parameters.
pub mod Tests
use igrisv.Base.{ℕ, String, Bool, true, false, Option, none, some, Result, ok, err}

-- What the handle uses of `watch`: a channel whose first receiver is dropped, a further receiver, and
-- `send`, which says whether it was received.
pub record Watch (W : Type 0) : Type 0 where
  pub channel : Bool → W
  pub subscribe : W → W
  pub send : W → Bool → Bool × W

-- `shutdown_timeout` is in nanoseconds.
pub record RuntimeConfig : Type 0 where
  pub data_dir : String
  pub shutdown_timeout : ℕ

abbrev pub default : RuntimeConfig
default = record { data_dir = "./data"; shutdown_timeout = 5000000000 }

pub record NodeHandle (W : Type 0) : Type 0 where
  pub config : RuntimeConfig
  pub shutdown_tx : W

module _ {W : Type 0} (watch : Watch W) where
  abbrev pub new : RuntimeConfig → NodeHandle W
  new config = record { config = config; shutdown_tx = watch.channel false }

  abbrev pub subscribe_shutdown : NodeHandle W → NodeHandle W
  subscribe_shutdown h = record h { shutdown_tx = watch.subscribe h.shutdown_tx }

  -- The result of `send` is dropped.
  abbrev pub shutdown : NodeHandle W → NodeHandle W
  shutdown h = record h { shutdown_tx = (watch.send h.shutdown_tx true).1 }

-- The timer's answer is `none` where the time was over first.
abbrev pub run_with_timeout : {T : Type 0} → Option T → Result String T
run_with_timeout none = err "operation timed out"
run_with_timeout (some t) = ok t
