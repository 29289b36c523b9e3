-- ===== src/Runtime/Tests.antt =====
-- A handle over a channel that behaves as tokio documents: `send` fails, and leaves the value as it
-- was, where there is no receiver.
use igrisv.Base.{ℕ, ◌+◌, ◌≡◌, refl, Bool, true, false, ◌==◌, if◌then◌else◌}
use igrisv.Runtime.{Watch, new, subscribe_shutdown, shutdown, default}

pub record Channel : Type 0 where
  pub value : Bool
  pub receivers : ℕ

abbrev documented : Watch Channel
documented = record {
  channel = λ v. record { value = v; receivers = 0 };
  subscribe = λ w. record w { receivers = w.receivers + 1 };
  send = λ w v. if w.receivers == 0 then (false, w) else (true, record w { value = v });
}

-- A receiver that is there sees the signal; one that comes after a shutdown that nobody heard does not.
signal_lost :
    ((shutdown documented
        (subscribe_shutdown documented (new documented default))).shutdown_tx.value
      ≡ true)
    × ((subscribe_shutdown documented
          (shutdown documented (new documented default))).shutdown_tx.value
        ≡ false)
signal_lost = (refl, refl)
