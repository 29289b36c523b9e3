-- ===== src/Voice/Capture.antt =====
-- crates/igris-voice/src/capture.rs: what a recording makes of the samples of a microphone. cpal's devices,
-- the channel from its callback and the clock are parameters, by what they answer.
use igrisv.Base.{
  ℕ, zero, suc, ◌+◌, ◌*◌, ◌<◌, ◌≤◌, max, String, true, false, Option, none, some, List, [], ◌∷◌,
  ◌++◌, map, leb, length, length-append, is_empty, if◌then◌else◌, unwrap_or, Result, ok, err, ◌⁀◌,
  decimal, ◌≡◌, refl, ap, arith, Bool-cases, inl, inr,
}
use igrisv.Voice.Vad.{Signal}

pub data CaptureError : Type 0 where
  no_device unsupported failed : String → CaptureError

-- `Display`
abbrev pub error_text : CaptureError → String
error_text (no_device e) = "no input device: " ⁀ e
error_text (unsupported e) = "unsupported stream: " ⁀ e
error_text (failed e) = "capture failed: " ⁀ e

pub record MicInfo : Type 0 where
  pub name : String
  pub sample_rate : ℕ
  pub channels : ℕ

pub data SampleFormat : Type 0 where
  as_f32 as_i16 as_u16 : SampleFormat
  other : String → SampleFormat

-- What cpal says of a device: its name, its rate with its channels, and its format.
pub record InputDevice : Type 0 where
  pub name : Option String
  pub config : Result String (ℕ × ℕ)
  pub format : SampleFormat
  -- `build_input_stream` and `play`
  pub stream : Result String (Unit {0})
  pub play : Result String (Unit {0})

abbrev pub config_of : Result String (ℕ × ℕ) → ℕ × ℕ
config_of (ok c) = c
config_of (err e) = (0, 0)

abbrev pub info : InputDevice → MicInfo
info d = record {
  name = unwrap_or "<unknown>" d.name;
  sample_rate = (config_of d.config).0;
  channels = (config_of d.config).1;
}

abbrev pub list_mics : Result String (List InputDevice) → List MicInfo
list_mics (err e) = []
list_mics (ok devices) = map info devices

abbrev pub device_at : ℕ → List InputDevice → Option InputDevice
device_at n [] = none
device_at zero (d ∷ ds) = some d
device_at (suc n) (d ∷ ds) = device_at n ds

-- The integers of a stream as `f32`, and 32768.0; an i16 is its bits.
pub record Convert (F : Type 0) : Type 0 where
  pub from_i16 : ℕ → F
  pub from_u16 : ℕ → F
  pub minus : F → F → F
  pub half_range : F

-- What the callback is given.
pub data Raw (F : Type 0) : Type 0 where
  floats : List F → Raw F
  signed unsigned : List ℕ → Raw F

-- What `recv_timeout` gives before the deadline.
pub data Received (F : Type 0) : Type 0 where
  chunk : Raw F → Received F
  timed_out disconnected : Received F

pub record Samples (F : Type 0) : Type 0 where
  pub samples : List F
  pub sample_rate : ℕ

module _ (signal : Signal) (c : Convert signal.f32) where
  abbrev pub sent : Raw signal.f32 → List signal.f32
  sent (floats xs) = xs
  sent (signed xs) = map (λ s. signal.over (c.from_i16 s) c.half_range) xs
  sent (unsigned xs) = map (λ s. signal.over (c.minus (c.from_u16 s) c.half_range) c.half_range) xs

  -- `chunks(n)`, with what is read of the current one.
  unfoldable pub chunks : ℕ → List signal.f32 → List signal.f32 → List (List signal.f32)
  chunks n frame [] = if is_empty frame then [] else frame ∷ []
  chunks n frame (x ∷ xs) = elim (leb n (length frame + 1)) [
    | true ↦ (frame ++ x ∷ []) ∷ chunks n [] xs
    | false ↦ chunks n (frame ++ x ∷ []) xs
  ]

  abbrev pub mean : List signal.f32 → signal.f32
  mean frame = signal.over (signal.sum frame) (signal.from_usize (max (length frame) 1))

  unfoldable pub downmix : ℕ → List signal.f32 → List signal.f32
  downmix channels xs = map mean (chunks (max channels 1) [] xs)

  -- The loop until the deadline.
  unfoldable pub receive : ℕ → List (Received signal.f32) → List signal.f32
  receive channels [] = []
  receive channels (chunk raw ∷ rs) = downmix channels (sent raw) ++ receive channels rs
  receive channels (timed_out ∷ rs) = receive channels rs
  receive channels (disconnected ∷ rs) = []

  abbrev pub played :
      ℕ × ℕ
      → Result String (Unit {0})
      → List (Received signal.f32)
      → Result CaptureError (Samples signal.f32)
  played (rate, channels) (err e) rs = err (failed e)
  played (rate, channels) (ok _) rs =
      ok (record { samples = receive channels rs; sample_rate = rate })

  abbrev pub streamed :
      InputDevice
      → ℕ × ℕ
      → Result String (Unit {0})
      → List (Received signal.f32)
      → Result CaptureError (Samples signal.f32)
  streamed d config (err e) rs = err (failed e)
  streamed d config (ok _) rs = played config d.play rs

  abbrev pub formatted :
      InputDevice
      → SampleFormat
      → ℕ × ℕ
      → List (Received signal.f32)
      → Result CaptureError (Samples signal.f32)
  formatted d (other f) config rs = err (unsupported f)
  formatted d _ config rs = streamed d config d.stream rs

  abbrev pub configured :
      InputDevice
      → Result String (ℕ × ℕ)
      → List (Received signal.f32)
      → Result CaptureError (Samples signal.f32)
  configured d (err e) rs = err (unsupported e)
  configured d (ok config) rs = formatted d d.format config rs

  abbrev pub on_device :
      ℕ → Option InputDevice → List (Received signal.f32) → Result CaptureError (Samples signal.f32)
  on_device index none rs = err (no_device ("no mic at index " ⁀ decimal index))
  on_device index (some d) rs = configured d d.config rs

  -- `rs` is what the channel gives until the deadline.
  unfoldable pub record_blocking :
      Result String (List InputDevice)
      → ℕ
      → List (Received signal.f32)
      → Result CaptureError (Samples signal.f32)
  record_blocking (err e) index rs = err (no_device e)
  record_blocking (ok devices) index rs = on_device index (device_at index devices) rs

  chunks_full :
      (n : ℕ) (frame xs : List signal.f32) (x : signal.f32)
      → leb n (length frame + 1) ≡ true
      → chunks n frame (x ∷ xs) ≡ (frame ++ x ∷ []) ∷ chunks n [] xs
  unfolding chunks
  chunks_full n frame xs x e = ground (arith, e)

  chunks_more :
      (n : ℕ) (frame xs : List signal.f32) (x : signal.f32)
      → leb n (length frame + 1) ≡ false
      → chunks n frame (x ∷ xs) ≡ chunks n (frame ++ x ∷ []) xs
  unfolding chunks
  chunks_more n frame xs x e = ground (arith, e)

  length-chunks :
      (n : ℕ) (frame xs : List signal.f32)
      → length frame < n
      → (length frame + length xs ≤ n * length (chunks n frame xs))
        × (n * length (chunks n frame xs) < length frame + length xs + n)
  unfolding chunks
  length-chunks n [] [] h = grind arith
  length-chunks n (f ∷ frame) [] h = grind arith
  length-chunks n frame (x ∷ xs) h = elim (Bool-cases (leb n (length frame + 1))) [
    | inl e ↦
        (let (low, high) = length-chunks n [] xs (omega arith) in
          rw (chunks_full n frame xs x e) (grind (arith, low, high, e)))
    | inr e ↦
        (let more = length-append frame (x ∷ []) in
          let (low, high) = length-chunks n (frame ++ x ∷ []) xs (ground (arith, more, e)) in
          rw (chunks_more n frame xs x e) (omega (arith, low, high, more)))
  ]

  length-map : {A B : Type 0} (f : A → B) (xs : List A) → length (map f xs) ≡ length xs
  length-map f [] = refl
  length-map f (x ∷ xs) = ap suc (length-map f xs)

  -- The downmix has one sample for each frame of the channels, the last of which may be short: as many
  -- as the samples divided by the channels, rounded up.
  pub length-downmix :
      (channels : ℕ) (xs : List signal.f32)
      → (length xs ≤ max channels 1 * length (downmix channels xs))
        × (max channels 1 * length (downmix channels xs) < length xs + max channels 1)
  unfolding downmix
  length-downmix channels xs =
      let (low, high) = length-chunks (max channels 1) [] xs (omega arith) in
      rw (length-map mean (chunks (max channels 1) [] xs)) (omega (arith, low), omega (arith, high))
