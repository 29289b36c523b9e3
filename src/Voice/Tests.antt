-- ===== src/Voice/Tests.antt =====
-- Tests of the voice loop, and instances of its theorems. Samples are thousandths above -1.
use igrisv.Base.{
  ℕ, ◌+◌, ◌-◌, ◌*◌, ◌/◌, ◌≤◌, String, ◌≡◌, refl, true, false, some, List, [], ◌∷◌, ◌++◌, arith, ltb,
  leb, ok, split_whitespace, suc, not, keep, none, same, ◌==◌, ◌⁀◌,
}
use igrisv.Reflex.{apply, count_hits, normalize, calibrate}
use igrisv.Reflex.Rules.{classify}
use igrisv.Reflex.Cache.{decide_once}
use igrisv.Reflex.Tests.{hundredths, as_typed}
use igrisv.Voice.Vad.{
  Signal, VadState, AudioFrame, Vad, new_vad, default_config, is_speech_frame, ingest as vad_ingest,
  rms, zero_crossing_rate,
}
use igrisv.Voice.Segments.{listen, flat, speech, segments_complete}
use igrisv.Voice.Wake.{levenshtein, chars, wakes, arise, rows}
use igrisv.Voice.Distance.{Edit, levenshtein_least}
use igrisv.Voice.Pipeline.{
  VoicePipeline, VoiceState, acknowledge, new_pipeline, ingest, ScriptStt, script_stt, RecordingTts,
  new_script, new_recording, recording_tts, listening, fast_ack, respond,
}
use igrisv.Voice.Turns.{fast, MayActOn, fast_path_is_benign}
use igrisv.Voice.BargeIn.{run, Input, IsConsistent, run-IsConsistent}
use igrisv.Voice.Tts.{
  PiperTts, piper_tts, Processes, new as new_tts, speak, cancel, auto_detect, binary_present,
  which_like,
}

abbrev apart : ℕ → ℕ → ℕ
apart a b = (a - b) + (b - a)

abbrev total : List ℕ → ℕ
total [] = 1000
total (s ∷ ss) = (s + total ss) - 1000

abbrev thousandths : Signal
thousandths = record {
  f32 = ℕ;
  lit = λ n. n + 1000;
  from_usize = λ n. n * 1000 + 1000;
  sum = total;
  times = λ a b. 1000 + apart a 1000 * apart b 1000 / 1000;
  over = λ a b. 1000 + (a - 1000) * 1000 / (b - 1000);
  sqrt = λ a. a;
  less = ltb;
  at_most = leb;
}

abbrev hum : AudioFrame thousandths
hum = record { samples = 1500 ∷ 1400 ∷ 500 ∷ 600 ∷ []; sample_rate = 16000 }

abbrev hush : AudioFrame thousandths
hush = record { samples = 1000 ∷ 1000 ∷ []; sample_rate = 16000 }

abbrev fresh : Vad thousandths
fresh = new_vad thousandths (default_config thousandths)

hum_is_speech : is_speech_frame thousandths fresh hum ≡ true
unfolding is_speech_frame rms zero_crossing_rate
hum_is_speech = refl

close_words : levenshtein (chars "arice") (chars "arise") ≡ 1
unfolding levenshtein rows
close_words = refl

wakes_up : wakes as_typed arise "hey arice" ≡ true
unfolding wakes split_whitespace levenshtein rows
wakes_up = refl

abbrev nearly : Vad thousandths
nearly = record {
  config = default_config thousandths;
  state = VadState.speaking;
  silent_run = 14;
  segment = 1500 ∷ [];
}

abbrev commanded : VoicePipeline thousandths ScriptStt RecordingTts
commanded = record {
  vad = nearly;
  wake = arise;
  stt = new_script ("arise battery" ∷ []);
  tts = new_recording;
  state = listening;
  barge_in = false;
}

battery_is_fast :
    fast (ingest thousandths hundredths as_typed script_stt recording_tts commanded hush).0 ≡ true
unfolding ingest vad_ingest is_speech_frame rms respond wakes decide_once apply classify count_hits
    normalize calibrate fast_ack
battery_is_fast = refl

segments_complete_example :
    let out = listen thousandths fresh (hush ∷ hum ∷ hush ∷ hum ∷ []) in
    flat thousandths out.0 ++ out.1.segment
    ≡ fresh.segment ++ speech thousandths fresh (hush ∷ hum ∷ hush ∷ hum ∷ [])
segments_complete_example = segments_complete thousandths fresh (hush ∷ hum ∷ hush ∷ hum ∷ [])

levenshtein_least_example :
    Edit (chars "arice") (chars "arise") (levenshtein (chars "arice") (chars "arise"))
    × ((n : ℕ)
        → Edit (chars "arice") (chars "arise") n
        → levenshtein (chars "arice") (chars "arise") ≤ n)
levenshtein_least_example = levenshtein_least (chars "arice") (chars "arise")

fast_path_is_benign_example :
    (segment : List ℕ) × (transcript : String) × ((vad_ingest thousandths nearly hush).0
      ≡ some segment)
    × (((script_stt {F = ℕ}).transcribe commanded.stt segment hush.sample_rate).0 ≡ ok transcript)
    × MayActOn thousandths hundredths as_typed commanded transcript
fast_path_is_benign_example =
    fast_path_is_benign thousandths hundredths as_typed script_stt recording_tts commanded hush
      battery_is_fast

recording_stops : (t : RecordingTts) → recording_tts.live (recording_tts.cancel t) ≡ false
recording_stops t = ground arith

run-IsConsistent_example : IsConsistent thousandths recording_tts (
    run thousandths recording_tts hundredths as_typed script_stt commanded
      (Input.frame hush ∷ Input.stop ∷ Input.frame hum ∷ []))
run-IsConsistent_example =
    run-IsConsistent thousandths recording_tts hundredths as_typed script_stt (λ t text. refl)
      recording_stops commanded (Input.frame hush ∷ Input.stop ∷ Input.frame hum ∷ [])
      (refl, refl, λ h. ground arith)

-- The processes that run, and the number of the next.
abbrev counted : Processes (List ℕ × ℕ)
counted = record {
  spawn = λ (ps, n) exe args. (some n, (n ∷ ps, suc n));
  try_wait = λ p child. false;
  kill = λ (ps, n) child. (keep (λ c. not (c == child)) ps, n);
  exists = λ name. same name "/usr/bin/piper";
  on_path = λ name. ("/usr/bin/" ⁀ name) ∷ [];
}

-- An utterance over another: the first process is out of reach, and `cancel` leaves it running.
left_running :
    (cancel counted (speak counted (speak counted (new_tts "piper" [], ([], 1)) "one") "two")).1.0
    ≡ 1 ∷ []
unfolding speak cancel
left_running = refl

found_on_path :
    ((auto_detect counted "/" ("mic" ∷ []) (some "piper")).tts_binary_present ≡ true)
    × ((auto_detect counted "/" [] (some "/none/piper")).tts_binary_present ≡ false)
unfolding binary_present which_like
found_on_path = (refl, refl)

-- The synthesizer over processes is live after `speak` if its program starts every time and runs on.
piper_starts :
    (t : PiperTts × (List ℕ × ℕ)) (text : String)
    → (piper_tts counted).live ((piper_tts counted).speak t text) ≡ true
unfolding speak
piper_starts t text = refl

-- Where it does not start, the pipeline speaks with a synthesizer that is not live.
abbrev missing : Processes (List ℕ × ℕ)
missing = record counted { spawn = λ p exe args. (none, p) }

abbrev unheard : VoicePipeline thousandths ScriptStt (PiperTts × (List ℕ × ℕ))
unheard =
    (acknowledge thousandths hundredths as_typed script_stt (piper_tts missing) "device_status"
      (new_pipeline thousandths (new_script []) (new_tts "piper" [], ([], 1)))
      (some "Checking now.")).1

failed_spawn :
    (unheard.state ≡ VoiceState.speaking)
    × (unheard.barge_in ≡ true)
    × ((piper_tts missing).live unheard.tts ≡ false)
unfolding speak
failed_spawn = (refl, refl, refl)
