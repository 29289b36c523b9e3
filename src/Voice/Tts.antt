-- ===== src/Voice/Tts.antt =====
-- crates/igris-voice/src/tts.rs: the synthesizer that runs a program for each utterance. The operating
-- system's processes and files are a parameter; `P` is their state.
use igrisv.Base.{
  ℕ, String, Bool, false, not, ◌||◌, Option, none, some, List, [], ◌∷◌, ◌++◌, if◌then◌else◌, ◌⁀◌,
  any, contains, length,
}
use igrisv.Voice.Pipeline.{TextToSpeech}

pub record Processes (P : Type 0) : Type 0 where
  pub spawn : P → String → List String → Option ℕ × P
  -- `Ok(Some(_))`: the process has ended.
  pub try_wait : P → ℕ → Bool
  -- `kill`, then `wait`.
  pub kill : P → ℕ → P
  pub exists : String → Bool
  -- The directories of PATH, each joined to a name.
  pub on_path : String → List String

pub record PiperTts : Type 0 where
  pub exe : String
  pub extra_args : List String
  pub utterances : List String
  pub child : Option ℕ
  pub live : Bool

abbrev pub new : String → List String → PiperTts
new exe extra_args = record {
  exe = exe;
  extra_args = extra_args;
  utterances = [];
  child = none;
  live = false;
}

module _ {P : Type 0} (os : Processes P) where
  -- `main_separator` is that of the platform.
  unfoldable pub which_like : String → String → Bool
  which_like main_separator name =
      if contains name main_separator || contains name "/"
      then false
      else any (λ p. os.exists p || os.exists (p ⁀ ".exe")) (os.on_path name)

  unfoldable pub binary_present : String → PiperTts → Bool
  binary_present main_separator t = os.exists t.exe || which_like main_separator t.exe

  unfoldable pub bundled : Option PiperTts
  bundled =
      let exe : String = "models/piper/bin/piper/piper.exe" in
      let voice : String = "models/piper/voices/en_US-lessac-medium.onnx" in
      if not (os.exists exe) || not (os.exists voice)
      then none
      else some (new exe ("--model" ∷ voice ∷ []))

  abbrev pub spawned : PiperTts → Option ℕ → P → PiperTts
  spawned t none p = record t { live = false }
  spawned t (some child) p = record t { child = some child; live = not (os.try_wait p child) }

  unfoldable pub speak : PiperTts × P → String → PiperTts × P
  speak (t, p) text =
      let started = os.spawn p t.exe (t.extra_args ++ text ∷ []) in
      (spawned (record t { utterances = t.utterances ++ text ∷ [] }) started.0 started.1, started.1)

  abbrev pub killed : Option ℕ → P → P
  killed none p = p
  killed (some child) p = os.kill p child

  unfoldable pub cancel : PiperTts × P → PiperTts × P
  cancel (t, p) = (record t { child = none; live = false }, killed t.child p)

  abbrev pub piper_tts : TextToSpeech (PiperTts × P)
  piper_tts = record {
    speak = speak;
    cancel = cancel;
    live = λ (t, p). t.live;
    spoken = λ (t, p). t.utterances;
  }

-- What was found of the voice's hardware and software.
pub record VoiceBackendStatus : Type 0 where
  pub mic_count : ℕ
  pub mic_names : List String
  pub tts_binary_present : Bool
  pub wake_phrase : String

abbrev pub present : {P : Type 0} → Processes P → String → Option String → Bool
present os main_separator none = false
present os main_separator (some exe) = binary_present os main_separator (new exe [])

-- The names of the microphones are cpal's.
abbrev pub auto_detect :
    {P : Type 0} → Processes P → String → List String → Option String → VoiceBackendStatus
auto_detect os main_separator mics piper_exe = record {
  mic_count = length mics;
  mic_names = mics;
  tts_binary_present = present os main_separator piper_exe;
  wake_phrase = "arise";
}
