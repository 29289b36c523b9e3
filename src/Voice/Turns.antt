-- ===== src/Voice/Turns.antt =====
-- pipeline.rs: what a turn of the voice loop may do, and when the assistant is speaking.
use igrisv.Base.{
  ◌+◌, String, ◌≡◌, Bool, true, false, some, List, any, ok, inl, inr, arith, Option-cases,
  Result-cases,
}
use igrisv.Reflex.{Float, normalize, default_policy, low}
use igrisv.Reflex.Cache.{decide_once}
use igrisv.Reflex.Rules.{destructive, external_send}
use igrisv.Reflex.Safety.{fast_path_is_safe}
use igrisv.Voice.Wake.{wakes}
use igrisv.Voice.Vad.{Signal, AudioFrame, ingest as vad_ingest}
use igrisv.Voice.Pipeline.{
  ingest, VoicePipeline, fast_path, respond, VoiceEvent, SpeechToText, TextToSpeech, processing,
}

abbrev is_fast : VoiceEvent → Bool
is_fast (fast_path i) = true
is_fast _ = false

-- Whether a command was acted on without reasoning.
abbrev pub fast : List VoiceEvent → Bool
fast = any is_fast

benign :
    (float : Float) (to_lowercase : String → String) (transcript : String)
    → (decide_once float to_lowercase transcript).requires_reasoning ≡ false
    → let key = normalize to_lowercase transcript in
      ((decide_once float to_lowercase transcript).risk ≡ low)
      × (destructive key + external_send key ≡ 0)
unfolding decide_once
benign float to_lowercase transcript h =
    let safe =
      fast_path_is_safe float (default_policy float) (normalize to_lowercase transcript) h in
    (safe.0, safe.2)

module _ (signal : Signal) {S T : Type 0} (float : Float) (to_lowercase : String → String) where
  -- What allows to act on a transcript without reasoning.
  abbrev pub MayActOn : VoicePipeline signal S T → String → Type 0
  MayActOn p transcript =
      let d = decide_once float to_lowercase transcript in
      let key = normalize to_lowercase transcript in
      (wakes to_lowercase p.wake transcript ≡ true)
      × (d.risk ≡ low)
      × (destructive key + external_send key ≡ 0)

  module _ (recogniser : SpeechToText signal.f32 S) (synthesizer : TextToSpeech T) where
    respond-fast :
        (transcript : String) (p : VoicePipeline signal S T)
        → fast (respond signal float to_lowercase recogniser synthesizer transcript p).0 ≡ true
        → MayActOn p transcript
    unfolding respond
    respond-fast transcript p h = (
      ground arith,
      ground (arith, benign float to_lowercase transcript),
      ground (arith, benign float to_lowercase transcript),
    )

    -- Whatever the recogniser and the synthesizer do, a frame makes the assistant act without reasoning
    -- only on a transcript that the recogniser made of a completed segment, that has the wake word, whose
    -- decision is of low risk, and that has no phrase of the destructive or the sending list.
    pub fast_path_is_benign :
        (p : VoicePipeline signal S T) (frame : AudioFrame signal)
        → fast (ingest signal float to_lowercase recogniser synthesizer p frame).0 ≡ true
        → (segment : List signal.f32) × (transcript : String) × ((vad_ingest signal p.vad frame).0
            ≡ some segment)
          × ((recogniser.transcribe p.stt segment frame.sample_rate).0 ≡ ok transcript)
          × MayActOn p transcript
    unfolding ingest
    fast_path_is_benign p frame h = elim (Option-cases (vad_ingest signal p.vad frame).0) [
      | inl n ↦ absurd (ground arith)
      | inr s ↦ (elim (Result-cases (recogniser.transcribe p.stt s.0 frame.sample_rate).0) [
        | inr e ↦ absurd (ground arith)
        | inl t ↦ (
          s.0,
          t.0,
          s.1,
          t.1,
          respond-fast t.0
              (record p {
                vad = (vad_ingest signal p.vad frame).1;
                stt = (recogniser.transcribe p.stt s.0 frame.sample_rate).1;
                state = processing;
              })
              (ground arith),
        )
      ])
    ]
