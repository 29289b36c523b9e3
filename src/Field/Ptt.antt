-- ===== src/Field/Ptt.antt =====
-- apps/field-dioxus/src/backend.rs: what push-to-talk reports of a recording.
use igrisv.Base.{ℕ, String, Bool, false, length, if◌then◌else◌, Result, ok, err, ◌⁀◌}
use igrisv.Voice.Vad.{Signal, new_vad, default_config, is_speech_frame}
use igrisv.Voice.Capture.{CaptureError, Samples, error_text}

pub record PttResult : Type 0 where
  pub captured_ms : ℕ
  pub samples : ℕ
  pub speech : Bool
  pub note : String

module _ (signal : Signal) where
  -- The answer is that of `record_blocking` on the first device.
  unfoldable pub record_ptt_blocking : ℕ → Result CaptureError (Samples signal.f32) → PttResult
  record_ptt_blocking millis (err e) = record {
    captured_ms = 0;
    samples = 0;
    speech = false;
    note = "no mic: " ⁀ error_text e;
  }
  record_ptt_blocking millis (ok s) =
      let vad = new_vad signal (default_config signal) in
      let speech =
        is_speech_frame signal vad (record { samples = s.samples; sample_rate = s.sample_rate }) in
      record {
        captured_ms = millis;
        samples = length s.samples;
        speech = speech;
        note =
            if speech
            then "speech detected — transcription needs the 10b neural model"
            else "silence — nothing to transcribe";
      }
