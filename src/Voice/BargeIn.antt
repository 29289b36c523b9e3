-- ===== src/Voice/BargeIn.antt =====
-- pipeline.rs: when the assistant is speaking, with a synthesizer that is live from `speak` to `cancel`.
use igrisv.Base.{
  String, Option, ◌≡◌, ◌≢◌, Bool, true, false, none, some, List, [], ◌∷◌, arith, inl, inr,
  Option-cases, sym, ◌∙◌, Bool-cases, Result, ok, err,
}
use igrisv.Reflex.{Float, ReflexDecision}
use igrisv.Reflex.Cache.{decide_once}
use igrisv.Voice.Wake.{wakes}
use igrisv.Voice.Vad.{Signal, VadState, AudioFrame, Vad, is_speech_frame, ingest as vad_ingest}
use igrisv.Voice.Pipeline.{
  VoicePipeline, ingest, interrupt, respond, transcribed, TextToSpeech, acknowledge, act, fast_ack,
  intent_to_key, VoiceState, speaking, SpeechToText, VoiceError, processing,
}

abbrev pub is_talking : VoiceState → Bool
is_talking speaking = true
is_talking _ = false

-- What drives the loop.
pub data Input (signal : Signal) : Type 0 where
  frame : AudioFrame signal → Input signal
  stop : Input signal

module _ (signal : Signal) where
  idle_stays :
      (v : Vad signal) (f : AudioFrame signal)
      → v.state ≡ VadState.idle
      → is_speech_frame signal v f ≡ false
      → vad_ingest signal v f ≡ (none, v)
  unfolding vad_ingest
  idle_stays v f i q = ground arith

  idle_after :
      (v : Vad signal) (f : AudioFrame signal) (s : List signal.f32)
      → (vad_ingest signal v f).0 ≡ some s
      → ((vad_ingest signal v f).1.state ≡ VadState.idle)
        × (is_speech_frame signal v f ≡ false)
        × (v.state ≢ VadState.idle)
  unfolding vad_ingest
  idle_after v f s h = (ground arith, ground arith, ground arith)

module _ (signal : Signal) {S T : Type 0} (synthesizer : TextToSpeech T) where
  -- The synthesizer, the shared flag and the state agree, and speech is not being collected while the
  -- assistant speaks.
  abbrev pub IsConsistent : VoicePipeline signal S T → Type 0
  IsConsistent p =
      (p.barge_in ≡ synthesizer.live p.tts)
      × (is_talking p.state ≡ synthesizer.live p.tts)
      × (synthesizer.live p.tts ≡ true → p.vad.state ≡ VadState.idle)

  module _ (float : Float) (to_lowercase : String → String)
      (recogniser : SpeechToText signal.f32 S) where
    unfoldable pub step : VoicePipeline signal S T → Input signal → VoicePipeline signal S T
    step p (frame f) = (ingest signal float to_lowercase recogniser synthesizer p f).1
    step p stop = (interrupt signal float to_lowercase recogniser synthesizer p).1

    unfoldable pub run : VoicePipeline signal S T → List (Input signal) → VoicePipeline signal S T
    run p [] = p
    run p (i ∷ is) = run (step p i) is

  module _ (float : Float) (to_lowercase : String → String) (recogniser : SpeechToText signal.f32 S)
      (starts : (t : T) (text : String) → synthesizer.live (synthesizer.speak t text) ≡ true)
      (stops : (t : T) → synthesizer.live (synthesizer.cancel t) ≡ false) where
    acknowledge-IsConsistent :
        (intent : String) (p : VoicePipeline signal S T) (ack : Option String)
        → synthesizer.live p.tts ≡ false
        → p.barge_in ≡ false
        → p.vad.state ≡ VadState.idle
        → IsConsistent (acknowledge signal float to_lowercase recogniser synthesizer intent p ack).1
    acknowledge-IsConsistent intent p none l b v = (b ∙ sym l, sym l, λ h. v)
    acknowledge-IsConsistent intent p (some ack) l b v =
        (sym (starts p.tts ack), sym (starts p.tts ack), λ h. v)

    act-IsConsistent :
        (d : ReflexDecision float.f32) (p : VoicePipeline signal S T)
        → synthesizer.live p.tts ≡ false
        → p.barge_in ≡ false
        → p.vad.state ≡ VadState.idle
        → IsConsistent (act signal float to_lowercase recogniser synthesizer d p).1
    act-IsConsistent d p l b v = elim (Bool-cases d.requires_reasoning) [
      | inl y ↦ rw (y, act) (b ∙ sym l, sym l, λ h. v)
      | inr n ↦
          rw (n, act)
            (acknowledge-IsConsistent (intent_to_key d.intent) p (fast_ack (intent_to_key d.intent))
              l b v)
    ]

    respond-IsConsistent :
        (transcript : String) (p : VoicePipeline signal S T)
        → synthesizer.live p.tts ≡ false
        → p.barge_in ≡ false
        → p.vad.state ≡ VadState.idle
        → IsConsistent (respond signal float to_lowercase recogniser synthesizer transcript p).1
    unfolding respond
    respond-IsConsistent transcript p l b v =
        elim (Bool-cases (wakes to_lowercase p.wake transcript)) [
          | inl y ↦
              rw (y, respond) (act-IsConsistent (decide_once float to_lowercase transcript) p l b v)
          | inr n ↦ rw (n, respond) (b ∙ sym l, sym l, λ h. v)
        ]

    silent_at_end :
        (p : VoicePipeline signal S T) (f : AudioFrame signal) (s : List signal.f32)
        → IsConsistent p
        → (vad_ingest signal p.vad f).0 ≡ some s
        → synthesizer.live p.tts ≡ false
    silent_at_end p f s c h = elim (Bool-cases (synthesizer.live p.tts)) [
      | inl l ↦ absurd ((idle_after signal p.vad f s h).2 (c.2 l))
      | inr l ↦ l
    ]

    transcribed-IsConsistent :
        (o : Result VoiceError String × S) (p : VoicePipeline signal S T)
        → synthesizer.live p.tts ≡ false
        → p.barge_in ≡ false
        → p.vad.state ≡ VadState.idle
        → IsConsistent (transcribed signal float to_lowercase recogniser synthesizer o p).1
    transcribed-IsConsistent (err e, stt) p l b v = (b ∙ sym l, sym l, λ h. v)
    transcribed-IsConsistent (ok t, stt) p l b v =
        respond-IsConsistent t (record p { stt = stt; state = processing }) l b v

    step_segment :
        (p : VoicePipeline signal S T) (f : AudioFrame signal) (s : List signal.f32)
        → synthesizer.live p.tts ≡ false
        → (vad_ingest signal p.vad f).0 ≡ some s
        → step float to_lowercase recogniser p (frame f)
          ≡ (transcribed signal float to_lowercase recogniser synthesizer
              (recogniser.transcribe p.stt s f.sample_rate)
              (record p { vad = (vad_ingest signal p.vad f).1 })).1
    unfolding step ingest
    step_segment p f s l h = ground arith

    step-IsConsistent :
        (p : VoicePipeline signal S T) (i : Input signal)
        → IsConsistent p
        → IsConsistent (step float to_lowercase recogniser p i)
    unfolding step ingest interrupt
    step-IsConsistent p stop c =
        (ground (arith, stops p.tts), ground (arith, stops p.tts), λ h. ground (arith, stops p.tts))
    step-IsConsistent p (frame f) c = elim (Option-cases (vad_ingest signal p.vad f).0) [
      | inl n ↦ (
        ground (arith, idle_stays signal p.vad f, stops p.tts),
        ground (arith, idle_stays signal p.vad f, stops p.tts),
        λ h. ground (arith, idle_stays signal p.vad f, stops p.tts),
      )
      | inr s ↦
          (let l = silent_at_end p f s.0 c s.1 in
            rw (step_segment p f s.0 l s.1) (
              transcribed-IsConsistent (recogniser.transcribe p.stt s.0 f.sample_rate)
                (record p { vad = (vad_ingest signal p.vad f).1 }) l (c.0 ∙ l)
                (idle_after signal p.vad f s.0 s.1).0))
    ]

    -- If the synthesizer is live after every `speak` and silent after every `cancel`, as the one is that
    -- records its utterances, then whatever frames and interruptions a consistent pipeline gets, and
    -- whatever its recogniser makes of them, it stays consistent: it is in the state of speaking exactly
    -- while the synthesizer is live, the shared flag says the same, and no speech of the user is being
    -- collected meanwhile.
    pub run-IsConsistent :
        (p : VoicePipeline signal S T) (is : List (Input signal))
        → IsConsistent p
        → IsConsistent (run float to_lowercase recogniser p is)
    unfolding run
    run-IsConsistent p [] c = c
    run-IsConsistent p (i ∷ is) c =
        run-IsConsistent (step float to_lowercase recogniser p i) is (step-IsConsistent p i c)
