-- ===== src/Device/Pairing/Tries.antt =====
-- pairing.rs: a code is good once and for three tries.
use native.Mathlib.Nat.{add-zero}
use igrisv.Base.{
  ℕ, suc, ◌+◌, ◌≤◌, String, ◌≡◌, ◌≢◌, ite, if_pos, if_neg, true, false, Option, none, some, List,
  [], ◌∷◌, arith, leb, String_discrete, Each, nat_key, string_key, lookup, Unique, lookup-insert,
  lookup-remove, lookup-update, lookup-retain,
}
use igrisv.Device.Pairing.{
  OtpManager, otp_max_attempts, issue, tried, verify, sweep_expired, issues, verifies, sweeps, step,
  run, Call, Pending,
}
use igrisv.Device.Pairing.Laws.{IsValid, verify-IsValid, step-IsValid}

-- A call that issues no code for `d`.
abbrev pub NoIssue : String → ℕ × Call → Type 0
NoIssue d (now, issues nanos e) = e ≢ d
NoIssue d (now, verifies e code) = Unit {0}
NoIssue d (now, sweeps) = Unit {0}

-- How many of the calls try a code for `d`.
abbrev pub tries_of : String → List (ℕ × Call) → ℕ
tries_of d [] = 0
tries_of d ((now, verifies e code) ∷ cs) =
    let rest = tries_of d cs in ite (String_discrete e d) (suc rest) rest
tries_of d ((now, issues nanos e) ∷ cs) = tries_of d cs
tries_of d ((now, sweeps) ∷ cs) = tries_of d cs

-- No entry, or one tried `k` times at least.
abbrev AtLeast : ℕ → Option Pending → Type 0
AtLeast k none = Unit {0}
AtLeast k (some p) = k ≤ p.attempts

AtLeast-mono : (j k : ℕ) (o : Option Pending) → j ≤ k → AtLeast k o → AtLeast j o
AtLeast-mono j k o h a = ground arith

AtLeast-verify :
    (m : OtpManager) (now k : ℕ) (d e code : String)
    → e ≡ d
    → AtLeast k (lookup d m.pending)
    → AtLeast (suc k) (lookup d (verify m now e code).1.pending)
unfolding verify
AtLeast-verify m now k d e code q h =
    ground (arith, lookup-remove e d m.pending, lookup-update e d tried m.pending)

AtLeast-verify_other :
    (m : OtpManager) (now k : ℕ) (d e code : String)
    → e ≢ d
    → AtLeast k (lookup d m.pending)
    → AtLeast k (lookup d (verify m now e code).1.pending)
unfolding verify
AtLeast-verify_other m now k d e code n h =
    ground (arith, lookup-remove e d m.pending, lookup-update e d tried m.pending)

AtLeast-issue_other :
    (m : OtpManager) (nanos : Option ℕ) (now k : ℕ) (d e : String)
    → e ≢ d
    → AtLeast k (lookup d m.pending)
    → AtLeast k (lookup d (issue m nanos now e).1.pending)
unfolding issue
AtLeast-issue_other m nanos now k d e n h = simp lookup-insert (ground arith)

AtLeast-sweep :
    (m : OtpManager) (now k : ℕ) (d : String)
    → Unique m.pending
    → AtLeast k (lookup d m.pending)
    → AtLeast k (lookup d (sweep_expired m now).pending)
unfolding sweep_expired
AtLeast-sweep m now k d u h = ground (arith, lookup-retain (λ p. leb now p.expires) d m.pending u)

run-AtLeast :
    (m : OtpManager) (cs : List (ℕ × Call)) (d : String) (k : ℕ)
    → IsValid m
    → Each (NoIssue d) cs
    → AtLeast k (lookup d m.pending)
    → AtLeast (k + tries_of d cs) (lookup d (run m cs).pending)
unfolding run step
run-AtLeast m [] d k v n h = rw add-zero h
run-AtLeast m ((now, issues nanos e) ∷ cs) d k v n h =
    run-AtLeast (issue m nanos now e).1 cs d k (step-IsValid m (now, issues nanos e) v) n.1
      (AtLeast-issue_other m nanos now k d e n.0 h)
run-AtLeast m ((now, sweeps) ∷ cs) d k v n h =
    run-AtLeast (sweep_expired m now) cs d k (step-IsValid m (now, sweeps) v) n.1
      (AtLeast-sweep m now k d v.unique h)
run-AtLeast m ((now, verifies e code) ∷ cs) d k v n h = elim (String_discrete e d) [
  | yes p ↦ rw (if_pos _ p) (
      AtLeast-mono (k + suc (tries_of d cs)) (suc k + tries_of d cs) _ (omega arith) (
        run-AtLeast (verify m now e code).1 cs d (suc k) (step-IsValid m (now, verifies e code) v)
          n.1 (AtLeast-verify m now k d e code p h)))
  | no p ↦ rw (if_neg _ p) (
      run-AtLeast (verify m now e code).1 cs d k (step-IsValid m (now, verifies e code) v) n.1
        (AtLeast-verify_other m now k d e code p h))
]

run-IsValid : (m : OtpManager) (cs : List (ℕ × Call)) → IsValid m → IsValid (run m cs)
unfolding run
run-IsValid m [] v = v
run-IsValid m (c ∷ cs) v = run-IsValid (step m c) cs (step-IsValid m c v)

AtLeast-zero : (o : Option Pending) → AtLeast 0 o
AtLeast-zero o = ground arith

-- An entry that was tried three times is gone.
refused :
    (m : OtpManager) (k now : ℕ) (d code : String)
    → IsValid m
    → otp_max_attempts ≤ k
    → AtLeast k (lookup d m.pending)
    → (verify m now d code).0 ≡ false
unfolding verify
refused m k now d code v h a = ground (arith, v.tries d)

-- In a well-formed manager, three calls of `verify` for a device use up its code: until another is
-- issued, no code is accepted for it, the right one included.
pub three_tries :
    (m : OtpManager) (cs : List (ℕ × Call)) (d code : String) (now : ℕ)
    → IsValid m
    → Each (NoIssue d) cs
    → otp_max_attempts ≤ tries_of d cs
    → (verify (run m cs) now d code).0 ≡ false
three_tries m cs d code now v n h =
    refused (run m cs) (tries_of d cs) now d code (run-IsValid m cs v) h (
      AtLeast-mono (tries_of d cs) (0 + tries_of d cs) _ (omega arith)
        (run-AtLeast m cs d 0 v n (AtLeast-zero _)))

gone :
    (m : OtpManager) (now k : ℕ) (d code : String)
    → (verify m now d code).0 ≡ true
    → AtLeast k (lookup d (verify m now d code).1.pending)
unfolding verify
gone m now k d code e = ground (arith, lookup-remove d d m.pending)

-- In a well-formed manager an accepted code is spent: until another is issued, no code is accepted for
-- the device.
pub single_use :
    (m : OtpManager) (cs : List (ℕ × Call)) (d code other : String) (now later : ℕ)
    → IsValid m
    → (verify m now d code).0 ≡ true
    → Each (NoIssue d) cs
    → (verify (run (verify m now d code).1 cs) later d other).0 ≡ false
single_use m cs d code other now later v e n =
    let m' = (verify m now d code).1 in
    let v' = verify-IsValid m now d code v in
    refused (run m' cs) (otp_max_attempts + tries_of d cs) later d other (run-IsValid m' cs v')
      (omega arith)
      (run-AtLeast m' cs d otp_max_attempts v' n (gone m now otp_max_attempts d code e))
