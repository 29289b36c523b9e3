-- ===== src/Vision.antt =====
-- crates/igris-vision/src/lib.rs: when a vision model is asked, and the placeholder that refuses.
pub mod Tests
use igrisv.Base.{String, Bool, ◌&&◌, ◌||◌, Result, ok, err}

pub data Detail : Type 0 where
  low high : Detail

pub record VisionRequest : Type 0 where
  pub source : String
  pub question : String
  pub max_detail : Detail

pub record ImageContext : Type 0 where
  pub description : String
  pub detail : Detail

pub data VisionError : Type 0 where
  not_wired : VisionError
  gate_refused : String → VisionError

abbrev pub should_invoke : Bool → Bool → Bool → Bool
should_invoke has_image reflex_needs_vision explicit_ask =
    has_image && (reflex_needs_vision || explicit_ask)

-- `NullDescriber::describe`
abbrev pub describe : VisionRequest → Result VisionError ImageContext
describe req = err not_wired
