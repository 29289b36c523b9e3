-- ===== src/Reflex/Tests.antt =====
-- igris-reflex on concrete texts, with hundredths for `f32`.
use igrisv.Base.{ℕ, ◌+◌, ◌*◌, ◌/◌, ◌≤◌, min, String, ◌≡◌, refl, true, false, some, [], ◌∷◌, ltb}
use igrisv.Reflex.{Float, apply, normalize, count_hits, calibrate, critical}
use igrisv.Reflex.Rules.{classify}
use igrisv.Reflex.Cache.{decide, len, new_reflex, decide_once}
use igrisv.Reflex.Approval.{decide-Gated, Gated, destroys, sends_out}
use igrisv.Reflex.Transparent.{decide-after, after}

abbrev pub hundredths : Float
hundredths = record {
  f32 = ℕ;
  lit = λ n. n;
  from_usize = λ n. n * 100;
  plus = λ a b. a + b;
  times = λ a b. a * b / 100;
  minimum = min;
  less = ltb;
}

abbrev pub as_typed : String → String
as_typed s = s

words : normalize as_typed "  wipe   the disk " ≡ "wipe the disk"
unfolding normalize
words = refl

sent_to_laptop :
    (decide_once hundredths as_typed "send file to laptop").target_device ≡ some "laptop"
unfolding decide_once apply classify count_hits normalize calibrate
sent_to_laptop = refl

-- "information" contains "format".
information_is_risky : (decide_once hundredths as_typed "information").risk ≡ critical
unfolding decide_once apply classify count_hits normalize calibrate
information_is_risky = refl

decide-Gated_example :
    Gated hundredths
      (destroys (normalize as_typed "please  wipe the disk"))
      (sends_out (normalize as_typed "please  wipe the disk"))
      (decide hundredths as_typed
        (after hundredths as_typed
          (new_reflex hundredths)
          ("battery" ∷ "please wipe the disk" ∷ []))
        "please  wipe the disk").0
decide-Gated_example =
    decide-Gated hundredths as_typed ("battery" ∷ "please wipe the disk" ∷ [])
      "please  wipe the disk"

wiping_destroys :
    (destroys (normalize as_typed "please  wipe the disk") ≡ true)
    × (sends_out (normalize as_typed "please  wipe the disk") ≡ false)
unfolding normalize
wiping_destroys = (refl, refl)

decide-after_example :
    let r = after hundredths as_typed (new_reflex hundredths) ("battery" ∷ "build it" ∷ []) in
    let out = decide hundredths as_typed r " battery" in
    (len hundredths r.cache ≤ 256)
    × (out.0 ≡ record (decide_once hundredths as_typed " battery") { cached = out.0.cached })
decide-after_example = decide-after hundredths as_typed ("battery" ∷ "build it" ∷ []) " battery"
