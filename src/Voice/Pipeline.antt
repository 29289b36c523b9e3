-- ===== src/Voice/Pipeline.antt =====
-- pipeline.rs: from frames over segments and transcripts to reflex decisions. A recogniser and a
-- synthesizer are their states with what the traits say of them. The flag that the audio output shares
-- is a field, since the pipeline alone writes it.
use igrisv.Base.{
  ℕ, ◌+◌, String, Bool, true, false, not, ◌&&◌, Option, none, some, List, [], ◌∷◌, ◌++◌,
  if◌then◌else◌, is_empty, Result, ok, err, same,
}
use igrisv.Reflex.{
  Float, Intent, device_transfer, device_status, memory_query, tool_exec, communication, risky_op,
  general, ReflexDecision,
}
use igrisv.Reflex.Cache.{decide_once}
use igrisv.Voice.Vad.{
  Signal, VadState, AudioFrame, Vad, new_vad, default_config, is_speech_frame, ingest as vad_ingest,
}
use igrisv.Voice.Wake.{arise, wakes, WakeMatcher}

pub data VoiceError : Type 0 where
  stt_unavailable : String → VoiceError
  tts_unavailable : String → VoiceError
  empty_segment : VoiceError

pub record SpeechToText (F S : Type 0) : Type 0 where
  pub transcribe : S → List F → ℕ → Result VoiceError String × S

pub record TextToSpeech (T : Type 0) : Type 0 where
  pub speak : T → String → T
  pub cancel : T → T
  -- `speaking`
  pub live : T → Bool
  pub spoken : T → List String

pub record ScriptStt : Type 0 where
  pub queue : List String
  pub calls : ℕ

abbrev pub new_script : List String → ScriptStt
new_script transcripts = record { queue = transcripts; calls = 0 }

abbrev pop : ℕ → List String → Result VoiceError String × ScriptStt
pop calls [] = (err (stt_unavailable "script exhausted"), record { queue = []; calls = calls })
pop calls (t ∷ queue) = (ok t, record { queue = queue; calls = calls })

abbrev pub script_stt : {F : Type 0} → SpeechToText F ScriptStt
script_stt = record {
  transcribe = λ s samples sample_rate.
      if is_empty samples
      then (err empty_segment, record s { calls = s.calls + 1 })
      else pop (s.calls + 1) s.queue;
}

pub record RecordingTts : Type 0 where
  pub utterances : List String
  pub cancelled : ℕ
  pub live : Bool

abbrev pub new_recording : RecordingTts
new_recording = record { utterances = []; cancelled = 0; live = false }

abbrev pub cancel_recording : RecordingTts → RecordingTts
cancel_recording t = if t.live then record t { cancelled = t.cancelled + 1; live = false } else t

abbrev pub recording_tts : TextToSpeech RecordingTts
recording_tts = record {
  speak = λ t text. record t { utterances = t.utterances ++ text ∷ []; live = true };
  cancel = cancel_recording;
  live = λ t. t.live;
  spoken = λ t. t.utterances;
}

pub data VoiceState : Type 0 where
  idle listening processing speaking error : VoiceState

pub data VoiceEvent : Type 0 where
  speech_started : VoiceEvent
  wake_detected : String → VoiceEvent
  ignored_no_wake : VoiceEvent
  fast_path : String → VoiceEvent
  escalated : String → VoiceEvent
  speaking_started : String → VoiceEvent
  speaking_cancelled : VoiceEvent
  stt_failed : VoiceEvent

unfoldable pub fast_ack : String → Option String
fast_ack intent =
    if same intent "device_transfer"
    then some "On it — sending."
    else if same intent "device_status"
    then some "Checking now."
    else if same intent "memory_query"
    then some "Recalling."
    else none

abbrev pub intent_to_key : Intent → String
intent_to_key device_transfer = "device_transfer"
intent_to_key device_status = "device_status"
intent_to_key memory_query = "memory_query"
intent_to_key tool_exec = "tool_exec"
intent_to_key communication = "communication"
intent_to_key risky_op = "risky_op"
intent_to_key general = "general"

module _ (signal : Signal) (S T : Type 0) where
  pub record VoicePipeline : Type 0 where
    pub vad : Vad signal
    pub wake : WakeMatcher
    pub stt : S
    pub tts : T
    pub state : VoiceState
    pub barge_in : Bool

module _ (signal : Signal) {S T : Type 0} where
  abbrev pub new_pipeline : S → T → VoicePipeline signal S T
  new_pipeline stt tts = record {
    vad = new_vad signal (default_config signal);
    wake = arise;
    stt = stt;
    tts = tts;
    state = idle;
    barge_in = false;
  }

  module _ (float : Float) (to_lowercase : String → String) (recogniser : SpeechToText signal.f32 S)
      (synthesizer : TextToSpeech T) where
    -- Synthesis ends for the user's speech.
    abbrev pub cut_off : VoicePipeline signal S T → VoicePipeline signal S T
    cut_off p = record p { tts = synthesizer.cancel p.tts; barge_in = false; state = listening }

    unfoldable pub interrupt : VoicePipeline signal S T → Bool × VoicePipeline signal S T
    interrupt p = if synthesizer.live p.tts then (true, cut_off p) else (false, p)

    abbrev pub acknowledge :
        String
        → VoicePipeline signal S T
        → Option String
        → List VoiceEvent × VoicePipeline signal S T
    acknowledge intent p none = (fast_path intent ∷ [], record p { state = idle })
    acknowledge intent p (some ack) = (
      fast_path intent ∷ speaking_started ack ∷ [],
      record p { tts = synthesizer.speak p.tts ack; barge_in = true; state = speaking },
    )

    abbrev pub act :
        ReflexDecision float.f32
        → VoicePipeline signal S T
        → List VoiceEvent × VoicePipeline signal S T
    act d p =
        let intent = intent_to_key d.intent in
        if d.requires_reasoning
        then (escalated intent ∷ [], record p { state = idle })
        else acknowledge intent p (fast_ack intent)

    unfoldable pub respond :
        String → VoicePipeline signal S T → List VoiceEvent × VoicePipeline signal S T
    respond transcript p =
        if not (wakes to_lowercase p.wake transcript)
        then (ignored_no_wake ∷ [], record p { state = idle })
        else (let acted = act (decide_once float to_lowercase transcript) p in
            (wake_detected transcript ∷ acted.0, acted.1))

    -- A completed segment.
    abbrev pub transcribed :
        Result VoiceError String × S
        → VoicePipeline signal S T
        → List VoiceEvent × VoicePipeline signal S T
    transcribed (err e, stt) p = (stt_failed ∷ [], record p { stt = stt; state = error })
    transcribed (ok transcript, stt) p =
        respond transcript (record p { stt = stt; state = processing })

    abbrev pub is_speaking : VadState → Bool
    is_speaking VadState.idle = false
    is_speaking VadState.speaking = true

    abbrev pub heard :
        VoicePipeline signal S T → AudioFrame signal → List VoiceEvent × VoicePipeline signal S T
    heard p frame =
        let out = vad_ingest signal p.vad frame in
        let q = record p { vad = out.1 } in
        elim out.0 [
          | some segment ↦ transcribed (recogniser.transcribe p.stt segment frame.sample_rate) q
          | none ↦
              if not (is_speaking p.vad.state) && is_speaking out.1.state
              then (speech_started ∷ [], record q { state = listening })
              else ([], q)
        ]

    unfoldable pub ingest :
        VoicePipeline signal S T → AudioFrame signal → List VoiceEvent × VoicePipeline signal S T
    ingest p frame =
        if synthesizer.live p.tts && is_speech_frame signal p.vad frame
        then (speaking_cancelled ∷ [], cut_off p)
        else heard p frame
