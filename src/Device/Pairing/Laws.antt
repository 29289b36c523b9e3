-- ===== src/Device/Pairing/Laws.antt =====
-- pairing.rs: well-formed managers, and the two minutes of a code.
use igrisv.Base.{
  ℕ, ◌≤◌, ◌<◌, String, ◌≡◌, ◌↔◌, true, Option, none, some, arith, nat_key, string_key, lookup,
  Unique, leb, lookup-insert, lookup-remove, lookup-update, lookup-retain, insert-Unique,
  remove-Unique, update-Unique, retain-Unique, ◌+◌,
}
use igrisv.Device.Pairing.{
  tried, Pending, OtpManager, otp_ttl, otp_max_attempts, issue, verify, sweep_expired, Call, issues,
  verifies, sweeps, step,
}

-- `verify` answers true exactly if the device has a pending code that equals the one given and has
-- not expired.
pub verify_iff :
    (m : OtpManager) (now : ℕ) (d code : String) (p : Pending)
    → lookup d m.pending ≡ some p
    → ((verify m now d code).0 ≡ true) ↔ ((p.code ≡ code) × (now ≤ p.expires))
unfolding verify
verify_iff m now d code p h = ground arith

-- No entry, or one tried fewer than three times.
abbrev Tries : Option Pending → Type 0
Tries none = Unit {0}
Tries (some p) = p.attempts < otp_max_attempts

-- Well-formed: one entry for a device at most, and each tried fewer than three times.
pub record IsValid (m : OtpManager) : Type 0 where
  pub unique : Unique m.pending
  pub tries : (d : String) → Tries (lookup d m.pending)

pub verify-IsValid :
    (m : OtpManager) (now : ℕ) (d code : String) → IsValid m → IsValid (verify m now d code).1
unfolding verify
verify-IsValid m now d code v = record {
  unique = ground (
    arith,
    v.unique,
    remove-Unique d m.pending v.unique,
    update-Unique d tried m.pending v.unique,
  );
  tries = λ e.
      ground (
        arith,
        v.tries e,
        v.tries d,
        lookup-remove d e m.pending,
        lookup-update d e tried m.pending,
      );
}

pub issue-IsValid :
    (m : OtpManager) (nanos : Option ℕ) (now : ℕ) (d : String)
    → IsValid m
    → IsValid (issue m nanos now d).1
unfolding issue
issue-IsValid m nanos now d v = record {
  unique = insert-Unique d _ m.pending v.unique;
  tries = λ e. simp lookup-insert (ground (arith, v.tries e));
}

sweep_expired-IsValid : (m : OtpManager) (now : ℕ) → IsValid m → IsValid (sweep_expired m now)
unfolding sweep_expired
sweep_expired-IsValid m now v = record {
  unique = retain-Unique (λ p. leb now p.expires) m.pending v.unique;
  tries =
      λ e. ground (arith, v.tries e, lookup-retain (λ p. leb now p.expires) e m.pending v.unique);
}

-- Every call keeps the manager well-formed.
pub step-IsValid : (m : OtpManager) (c : ℕ × Call) → IsValid m → IsValid (step m c)
unfolding step
step-IsValid m (now, issues nanos d) v = issue-IsValid m nanos now d v
step-IsValid m (now, verifies d code) v = verify-IsValid m now d code v
step-IsValid m (now, sweeps) v = sweep_expired-IsValid m now v

lookup-issue :
    (m : OtpManager) (nanos : Option ℕ) (now : ℕ) (d : String)
    → lookup d (issue m nanos now d).1.pending
      ≡ some (record { code = (issue m nanos now d).0; expires = now + otp_ttl; attempts = 0 })
unfolding issue
lookup-issue m nanos now d = rw lookup-insert (ground arith)

-- The code that `issue` hands out is accepted by the next call of `verify` for the device exactly
-- until two minutes have passed.
pub verify-issue :
    (m : OtpManager) (nanos : Option ℕ) (now later : ℕ) (d : String)
    → (verify (issue m nanos now d).1 later d (issue m nanos now d).0).0 ≡ leb later (now + otp_ttl)
unfolding verify
verify-issue m nanos now later d = ground (arith, lookup-issue m nanos now d)

-- In a well-formed manager a sweep is not observable: at its instant and later, `verify` answers as if
-- it had not run.
pub verify-sweep_expired :
    (m : OtpManager) (now later : ℕ) (d code : String)
    → IsValid m
    → now ≤ later
    → (verify (sweep_expired m now) later d code).0 ≡ (verify m later d code).0
unfolding verify sweep_expired
verify-sweep_expired m now later d code v h =
    ground (arith, lookup-retain (λ p. leb now p.expires) d m.pending v.unique)
