-- ===== src/Device/Trust/Tests.antt =====
-- trust.rs at concrete stores.
use igrisv.Base.{
  String, ◌≡◌, refl, ◌≢◌, true, false, some, List, [], ◌∷◌, arith, String_discrete, nat_key,
  string_key, lookup, insert, ok, err,
}
use text.Mathlib.TextEquality.{eq_iff}
use igrisv.Device.Trust.{
  TrustStore, mismatch, new, verify_or_pin, is_trusted, Call, verifies, revokes, run, Json,
}
use igrisv.Device.Trust.Laws.{run_keeps_pin}

abbrev pinned : TrustStore
pinned = record { pins = ("d1", "fp1") ∷ [] }

pin_then_verify : (verify_or_pin (verify_or_pin new "d1" "fp1").1 "d1" "fp1") ≡ (ok false, pinned)
unfolding verify_or_pin lookup insert String_discrete
pin_then_verify = refl

abbrev traffic : List Call
traffic = verifies "d1" "fp2" ∷ revokes "d2" ∷ verifies "d2" "fp1" ∷ []

other_device : ◌≢◌ {A = String} "d2" "d1"
other_device = ground (arith, eq_iff "d2" "d1")

found : lookup "d1" pinned.pins ≡ some "fp1"
unfolding lookup String_discrete
found = refl

run_keeps_pin_example :
    (is_trusted (run pinned traffic) "d1" "fp1" ≡ true)
    × ((other : String)
        → "fp1" ≢ other
        → (verify_or_pin (run pinned traffic) "d1" other).0 ≡ err (mismatch "d1"))
run_keeps_pin_example = run_keeps_pin pinned traffic "d1" "fp1" found (tt, (other_device, (tt, tt)))

-- A printer and a parser that know one text.
abbrev one_text : Json
one_text = record { to_string = λ m. some "{..}"; from_str = λ s. some (("d1", "fp1") ∷ []) }
