-- ===== src/Voice/Vad.antt =====
-- vad.rs: segments of speech, by the energy and the sign changes of each frame.
use igrisv.Base.{
  ℕ, ◌+◌, ◌-◌, Bool, false, ◌&&◌, Option, none, some, List, [], ◌∷◌, ◌++◌, map, ltb, leb,
  if◌then◌else◌, length, replicate, is_empty, not,
}

-- What the code uses of `f32`; `lit n` is the literal of `n` thousandths.
pub record Signal : Type 1 where
  pub f32 : Type 0
  pub lit : ℕ → f32
  pub from_usize : ℕ → f32
  pub sum : List f32 → f32
  pub times : f32 → f32 → f32
  pub over : f32 → f32 → f32
  pub sqrt : f32 → f32
  pub less : f32 → f32 → Bool
  pub at_most : f32 → f32 → Bool

pub data VadState : Type 0 where
  idle speaking : VadState

module _ (signal : Signal) where
  pub record AudioFrame : Type 0 where
    pub samples : List signal.f32
    pub sample_rate : ℕ

  -- One frame.
  abbrev pub silence : ℕ → ℕ → List AudioFrame
  silence frames sample_rate =
      record { samples = replicate frames (signal.lit 0); sample_rate = sample_rate } ∷ []

  abbrev square : signal.f32 → signal.f32
  square s = signal.times s s

  unfoldable pub rms : AudioFrame → signal.f32
  rms frame =
      if is_empty frame.samples
      then signal.lit 0
      else signal.sqrt (
          signal.over (signal.sum (map square frame.samples))
            (signal.from_usize (length frame.samples)))

  abbrev differ : Bool → Bool → Bool
  differ p q = if p then not q else q

  abbrev positive : signal.f32 → Bool
  positive s = signal.at_most (signal.lit 0) s

  -- The loop over the windows of two samples.
  abbrev pub crossings : List signal.f32 → ℕ
  crossings [] = 0
  crossings (s ∷ []) = 0
  crossings (s ∷ t ∷ rest) =
      let more = crossings (t ∷ rest) in if differ (positive s) (positive t) then more + 1 else more

  unfoldable pub zero_crossing_rate : AudioFrame → signal.f32
  zero_crossing_rate frame =
      if ltb (length frame.samples) 2
      then signal.lit 0
      else signal.over (signal.from_usize (crossings frame.samples))
          (signal.from_usize (length frame.samples - 1))

  pub record VadConfig : Type 0 where
    pub energy_threshold : signal.f32
    pub zcr_min : signal.f32
    pub zcr_max : signal.f32
    pub hangover_frames : ℕ

  abbrev pub default_config : VadConfig
  default_config = record {
    energy_threshold = signal.lit 20;
    zcr_min = signal.lit 5;
    zcr_max = signal.lit 600;
    hangover_frames = 15;
  }

  pub record Vad : Type 0 where
    pub config : VadConfig
    pub state : VadState
    pub silent_run : ℕ
    pub segment : List signal.f32

  abbrev pub new_vad : VadConfig → Vad
  new_vad config = record { config = config; state = idle; silent_run = 0; segment = [] }

  unfoldable pub is_speech_frame : Vad → AudioFrame → Bool
  is_speech_frame v frame =
      if signal.less (rms frame) v.config.energy_threshold
      then false
      else signal.at_most v.config.zcr_min (zero_crossing_rate frame)
        && signal.at_most (zero_crossing_rate frame) v.config.zcr_max

  -- A frame that is not speech.
  abbrev pub quiet : Vad → VadState → Option (List signal.f32) × Vad
  quiet v idle = (none, v)
  quiet v speaking =
      if leb v.config.hangover_frames (v.silent_run + 1)
      then (some v.segment, record v { state = idle; silent_run = 0; segment = [] })
      else (none, record v { silent_run = v.silent_run + 1 })

  unfoldable pub ingest : Vad → AudioFrame → Option (List signal.f32) × Vad
  ingest v frame =
      if is_speech_frame v frame
      then (
        none,
        record v { state = speaking; silent_run = 0; segment = v.segment ++ frame.samples },
      )
      else quiet v v.state
