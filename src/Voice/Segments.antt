-- ===== src/Voice/Segments.antt =====
-- vad.rs: what becomes of the frames that the detector is fed.
use mathlib.Core.List.{append-nil, append_assoc}
use igrisv.Base.{
  ◌+◌, ◌<◌, ◌≡◌, refl, true, not, Option, none, some, List, [], ◌∷◌, ◌++◌, arith, if◌then◌else◌,
  length, all, sym, ap, ◌∙◌, false,
}
use igrisv.Voice.Vad.{Signal, is_speech_frame, ingest, idle, speaking, AudioFrame, Vad}

module _ (signal : Signal) where
  -- The segment that a frame completes, as a list.
  abbrev completed : Option (List signal.f32) → List (List signal.f32)
  completed none = []
  completed (some s) = s ∷ []

  -- The frames in turn, with the segments that they complete.
  unfoldable pub listen :
      Vad signal → List (AudioFrame signal) → List (List signal.f32) × Vad signal
  listen v [] = ([], v)
  listen v (f ∷ fs) =
      let out = ingest signal v f in
      let rest = listen out.1 fs in (completed out.0 ++ rest.0, rest.1)

  abbrev pub flat : List (List signal.f32) → List signal.f32
  flat [] = []
  flat (s ∷ ss) = s ++ flat ss

  -- The samples of the frames that are speech.
  abbrev pub speech : Vad signal → List (AudioFrame signal) → List signal.f32
  speech v [] = []
  speech v (f ∷ fs) =
      let rest = speech v fs in if is_speech_frame signal v f then f.samples ++ rest else rest

  speech-config :
      (v u : Vad signal)
      → v.config ≡ u.config
      → (fs : List (AudioFrame signal)) → speech v fs ≡ speech u fs
  unfolding is_speech_frame
  speech-config v u e [] = refl
  speech-config v u e (f ∷ fs) = ground (arith, speech-config v u e fs)

  ingest-config : (v : Vad signal) (f : AudioFrame signal) → (ingest signal v f).1.config ≡ v.config
  unfolding ingest
  ingest-config v f = ground arith

  ingest-flat :
      (v : Vad signal) (f : AudioFrame signal)
      → let out = ingest signal v f in
        flat (completed out.0) ++ out.1.segment
        ≡ (if is_speech_frame signal v f then v.segment ++ f.samples else v.segment)
  unfolding ingest
  ingest-flat v f = ground (arith, append-nil v.segment)

  flat-append : (xs ys : List (List signal.f32)) → flat (xs ++ ys) ≡ flat xs ++ flat ys
  flat-append [] ys = refl
  flat-append (x ∷ xs) ys =
      ap (λ r. x ++ r) (flat-append xs ys) ∙ sym (append_assoc x (flat xs) (flat ys))

  speech_step :
      (v : Vad signal) (f : AudioFrame signal) (fs : List (AudioFrame signal))
      → (if is_speech_frame signal v f then v.segment ++ f.samples else v.segment) ++ speech v fs
        ≡ v.segment ++ speech v (f ∷ fs)
  speech_step v f fs = ground (arith, append_assoc v.segment f.samples (speech v fs))

  -- Nothing of the speech is lost, repeated or put in another order, and nothing else gets in: the
  -- segments that a run completes, followed by what is held back for the next, are what was held back
  -- before, followed by the samples of the frames that are speech.
  pub segments_complete :
      (v : Vad signal) (fs : List (AudioFrame signal))
      → let out = listen v fs in flat out.0 ++ out.1.segment ≡ v.segment ++ speech v fs
  unfolding listen
  segments_complete v [] = sym (append-nil v.segment)
  segments_complete v (f ∷ fs) =
      let out = ingest signal v f in
      let rest = listen out.1 fs in
      ap (λ r. r ++ rest.1.segment) (flat-append (completed out.0) rest.0)
      ∙ append_assoc (flat (completed out.0)) (flat rest.0) rest.1.segment
      ∙ ap (λ r. flat (completed out.0) ++ r) (segments_complete out.1 fs)
      ∙ sym (append_assoc (flat (completed out.0)) out.1.segment (speech out.1 fs))
      ∙ ap (λ r. r ++ speech out.1 fs) (ingest-flat v f)
      ∙ ap (λ r. (if is_speech_frame signal v f then v.segment ++ f.samples else v.segment) ++ r)
          (speech-config out.1 v (ingest-config v f) fs)
      ∙ speech_step v f fs

  counts_on :
      (v : Vad signal) (f : AudioFrame signal)
      → v.state ≡ speaking
      → is_speech_frame signal v f ≡ false
      → v.silent_run + 1 < v.config.hangover_frames
      → ingest signal v f ≡ (none, record v { silent_run = v.silent_run + 1 })
  unfolding ingest
  counts_on v f s q h = ground arith

  closes :
      (v : Vad signal) (f : AudioFrame signal)
      → v.state ≡ speaking
      → is_speech_frame signal v f ≡ false
      → v.silent_run + 1 ≡ v.config.hangover_frames
      → ingest signal v f
        ≡ (some v.segment, record v { state = idle; silent_run = 0; segment = [] })
  unfolding ingest
  closes v f s q h = ground arith

  listen_on :
      (v u : Vad signal) (f : AudioFrame signal) (fs : List (AudioFrame signal))
      → ingest signal v f ≡ (none, u)
      → listen v (f ∷ fs) ≡ listen u fs
  unfolding listen
  listen_on v u f fs e = ap (λ o. (completed o.0 ++ (listen o.1 fs).0, (listen o.1 fs).1)) e

  -- A segment ends when the hangover is over and not before: in the middle of speech, frames without
  -- speech only count until, with those before them, they are as many as the hangover has; then the
  -- segment is complete and the detector is idle and empty.
  pub segment_closes :
      (v : Vad signal) (f : AudioFrame signal) (fs : List (AudioFrame signal))
      → v.state ≡ speaking
      → all (λ g. not (is_speech_frame signal v g)) (f ∷ fs) ≡ true
      → let n = v.silent_run + length (f ∷ fs) in
        (n < v.config.hangover_frames → listen v (f ∷ fs) ≡ ([], record v { silent_run = n }))
        × (n ≡ v.config.hangover_frames
            → listen v (f ∷ fs)
              ≡ (v.segment ∷ [], record v { state = idle; silent_run = 0; segment = [] }))
  unfolding listen is_speech_frame
  segment_closes v f [] s q = (
    λ h. rw (counts_on v f s (ground arith) h) refl,
    λ h. rw (closes v f s (ground arith) h) refl,
  )
  segment_closes v f (g ∷ gs) s q =
      let u = record v { silent_run = v.silent_run + 1 } in
      let on : v.silent_run + 1 < v.config.hangover_frames
          → listen v (f ∷ g ∷ gs) ≡ listen u (g ∷ gs) =
        λ h. listen_on v u f (g ∷ gs) (counts_on v f s (ground arith) h) in
      let later = segment_closes u g gs s (ground arith) in
      (
        λ h.
            on (omega arith)
            ∙ later.0 (omega arith)
            ∙ ap (λ n. ([], record v { silent_run = n })) (omega arith),
        λ h. on (omega arith) ∙ later.1 (omega arith),
      )
