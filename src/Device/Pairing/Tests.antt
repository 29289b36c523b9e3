-- ===== src/Device/Pairing/Tests.antt =====
-- pairing.rs at concrete managers.
use igrisv.Base.{
  ℕ, ◌≡◌, refl, false, some, List, [], ◌∷◌, arith, String_discrete, nat_key, string_key, lookup,
}
use igrisv.Device.Pairing.{Pending, OtpManager, from_secs, verify, Call, verifies, sweeps, run}
use igrisv.Device.Pairing.Laws.{IsValid}
use igrisv.Device.Pairing.Tries.{three_tries}

abbrev entry : Pending
entry = record { code = "123456"; expires = from_secs 120; attempts = 0 }

abbrev waiting : OtpManager
waiting = record { pending = ("d1", entry) ∷ [] }

found : lookup "d1" waiting.pending ≡ some entry
unfolding lookup String_discrete
found = refl

waiting-IsValid : IsValid waiting
unfolding lookup
waiting-IsValid = record { unique = (tt, tt); tries = λ d. ground arith }

abbrev wrong_codes : List (ℕ × Call)
wrong_codes =
    (1, verifies "d1" "000000")
    ∷ (2, sweeps)
    ∷ (3, verifies "d1" "000001")
    ∷ (4, verifies "d1" "000002")
    ∷ []

three_tries_example : (verify (run waiting wrong_codes) 5 "d1" "123456").0 ≡ false
unfolding String_discrete
three_tries_example =
    three_tries waiting wrong_codes "d1" "123456" 5 waiting-IsValid (tt, (tt, (tt, (tt, tt))))
      (omega arith)
