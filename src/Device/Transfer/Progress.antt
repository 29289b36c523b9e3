-- ===== src/Device/Transfer/Progress.antt =====
-- transfer.rs: the confirmed chunks are those of the bytes received, so that an upload resumes at
-- the first byte that is missing.
use native.Mathlib.Nat.{add-zero}
use igrisv.Base.{
  ℕ, zero, suc, ◌+◌, ◌-◌, ◌/◌, ◌≤◌, min, max, ◌≡◌, Bool, true, false, List, ◌++◌, arith, leb,
  if◌then◌else◌, length, replicate, length-replicate, ◌^◌, ◌<◌, String, refl, ap, [], ◌∷◌, ◌∙◌, inl,
  inr, Bool-cases,
}
use igrisv.Device.Transfer.Chunks.{
  chunk_size, u64, FileSpec, FileProgress, chunks_of, fresh_progress, confirm, confirm_every,
  note_progress, missing_from, missing_chunks, finish,
}

-- `d` confirmed chunks, then `k` that are not.
abbrev pub filled : ℕ → ℕ → List Bool
filled d k = replicate d true ++ replicate k false

-- How many of `total` chunks the bytes received make up: all of them once the file is whole.
abbrev pub whole_chunks : ℕ → ℕ → ℕ → ℕ
whole_chunks size received total =
    if leb size received then total else min (received / chunk_size) total

-- The confirmed chunks are a prefix, and as long as the bytes received say.
pub record IsExact (f : FileProgress) : Type 0 where
  pub count : length f.confirmed_chunks ≡ chunks_of f.size
  pub exact :
      f.confirmed_chunks
      ≡ filled
          (whole_chunks f.size f.received_bytes (chunks_of f.size))
          (chunks_of f.size - whole_chunks f.size f.received_bytes (chunks_of f.size))

length-filled : (d k : ℕ) → length (filled d k) ≡ d + k
length-filled zero k = omega (arith, length-replicate k false)
length-filled (suc d) k = omega (arith, length-filled d k)

-- Confirming the first `n` of `d` confirmed and `k` other chunks.
confirm-filled : (n d k m r : ℕ) → m ≡ max n d → m + r ≡ d + k → confirm n (filled d k) ≡ filled m r
unfolding confirm
confirm-filled zero d k m r e q =
    let same : m ≡ d = omega arith in let rest : r ≡ k = omega arith in rw (same, rest)
confirm-filled (suc n) zero zero m r e q = absurd (omega arith)
confirm-filled (suc n) zero (suc k) zero r e q = absurd (omega arith)
confirm-filled (suc n) zero (suc k) (suc m) r e q =
    ap (◌∷◌ true) (confirm-filled n zero k m r (omega arith) (omega arith))
confirm-filled (suc n) (suc d) k zero r e q = absurd (omega arith)
confirm-filled (suc n) (suc d) k (suc m) r e q =
    ap (◌∷◌ true) (confirm-filled n d k m r (omega arith) (omega arith))

length-confirm : (n : ℕ) (cs : List Bool) → length (confirm n cs) ≡ length cs
unfolding confirm
length-confirm zero cs = refl
length-confirm (suc n) [] = refl
length-confirm (suc n) (c ∷ cs) = ap suc (length-confirm n cs)

confirm_every-filled : (cs : List Bool) (t : ℕ) → length cs ≡ t → confirm_every cs ≡ filled t 0
unfolding confirm_every
confirm_every-filled [] zero e = refl
confirm_every-filled [] (suc t) e = absurd (omega arith)
confirm_every-filled (c ∷ cs) zero e = absurd (omega arith)
confirm_every-filled (c ∷ cs) (suc t) e = ap (◌∷◌ true) (confirm_every-filled cs t (omega arith))

-- A new offer of a file that is not empty has no chunk confirmed.
pub fresh_progress-IsExact :
    (spec : FileSpec) (token : String) → 0 < spec.size → IsExact (fresh_progress spec token)
unfolding fresh_progress
fresh_progress-IsExact spec token h =
    let none_yet : whole_chunks spec.size 0 (chunks_of spec.size) ≡ 0 = ground arith in
    record {
      count = length-replicate (chunks_of spec.size) false;
      exact = rw none_yet (ap (λ k. replicate k false) (omega arith));
    }

no_rest : (t : ℕ) → filled t 0 ≡ filled t (t - t)
no_rest t = let rest : 0 ≡ t - t = omega arith in ap (filled t) rest

-- The chunks that are confirmed once the counter has gone from `r` to `r'`.
confirm-whole_chunks :
    (size r r' t : ℕ) (cs : List Bool)
    → length cs ≡ t
    → r ≤ r'
    → cs ≡ filled (whole_chunks size r t) (t - whole_chunks size r t)
    → (if leb size r'
        then confirm_every (confirm (min (r' / chunk_size) t) cs)
        else confirm (min (r' / chunk_size) t) cs)
      ≡ filled (whole_chunks size r' t) (t - whole_chunks size r' t)
confirm-whole_chunks size r r' t cs len h q = elim (Bool-cases (leb size r')) [
  | inl e ↦ rw e (
      confirm_every-filled (confirm (min (r' / chunk_size) t) cs) t
        (omega (arith, length-confirm (min (r' / chunk_size) t) cs))
      ∙ no_rest t)
  | inr e ↦
      let part : whole_chunks size r t ≡ min (r / chunk_size) t = ground arith in
      rw e (
        ap (confirm (min (r' / chunk_size) t)) q
        ∙ confirm-filled (min (r' / chunk_size) t) (whole_chunks size r t)
            (t - whole_chunks size r t) (min (r' / chunk_size) t) (t - min (r' / chunk_size) t)
            (omega (arith, part)) (omega (arith, part)))
]

length-note :
    (b : Bool) (n : ℕ) (cs : List Bool)
    → length (if b then confirm_every (confirm n cs) else confirm n cs) ≡ length cs
length-note true n cs =
    ap length (confirm_every-filled (confirm n cs) (length cs) (length-confirm n cs))
    ∙ length-filled (length cs) 0
    ∙ add-zero (length cs)
length-note false n cs = length-confirm n cs

-- Counting more bytes keeps the chunks exact, as long as the counter does not overflow.
pub note_progress-IsExact :
    (n : ℕ) (f : FileProgress)
    → f.received_bytes + n < 2 ^ 64
    → IsExact f
    → IsExact (note_progress n f)
unfolding note_progress
note_progress-IsExact n f h v = record {
  count =
      length-note (leb f.size (u64 (f.received_bytes + n)))
        (min (u64 (f.received_bytes + n) / chunk_size) (length f.confirmed_chunks))
        f.confirmed_chunks
      ∙ v.count;
  exact = rw v.count (
      confirm-whole_chunks f.size f.received_bytes (u64 (f.received_bytes + n)) (chunks_of f.size)
        f.confirmed_chunks v.count (omega arith) v.exact);
}

-- A file that passed its check is whole.
pub finish-IsExact : (f : FileProgress) → IsExact f → IsExact (finish f)
unfolding finish
finish-IsExact f v =
    let all_of : confirm_every f.confirmed_chunks ≡ filled (chunks_of f.size) 0 =
      confirm_every-filled f.confirmed_chunks (chunks_of f.size) v.count in
    let done : whole_chunks f.size f.size (chunks_of f.size) ≡ chunks_of f.size = ground arith in
    record {
      count = rw all_of (length-filled (chunks_of f.size) 0 ∙ add-zero (chunks_of f.size));
      exact = all_of ∙ rw done (no_rest (chunks_of f.size));
    }

-- `k` numbers from `i` on.
abbrev pub range : ℕ → ℕ → List ℕ
range i zero = []
range i (suc k) = i ∷ range (i + 1) k

missing_from-unconfirmed : (i k : ℕ) → missing_from i (replicate k false) ≡ range i k
unfolding missing_from
missing_from-unconfirmed i zero = refl
missing_from-unconfirmed i (suc k) = ap (◌∷◌ i) (missing_from-unconfirmed (i + 1) k)

missing_from-filled : (i j d k : ℕ) → i + d ≡ j → missing_from i (filled d k) ≡ range j k
unfolding missing_from
missing_from-filled i j zero k e =
    let same : i ≡ j = omega arith in rw (← same) (missing_from-unconfirmed i k)
missing_from-filled i j (suc d) k e = missing_from-filled (i + 1) j d k (omega arith)

-- The uploads of a file, one after the other.
abbrev pub uploads : List ℕ → FileProgress → FileProgress
uploads [] f = f
uploads (n ∷ ns) f = uploads ns (note_progress n f)

abbrev pub sum : List ℕ → ℕ
sum [] = 0
sum (n ∷ ns) = n + sum ns

uploads-IsExact :
    (ns : List ℕ) (f : FileProgress)
    → f.received_bytes + sum ns < 2 ^ 64
    → IsExact f
    → IsExact (uploads ns f)
      × ((uploads ns f).received_bytes ≡ f.received_bytes + sum ns)
      × ((uploads ns f).spec ≡ f.spec)
unfolding note_progress
uploads-IsExact [] f h v = (v, omega arith, refl)
uploads-IsExact (n ∷ ns) f h v =
    let rest =
      uploads-IsExact ns (note_progress n f) (omega arith)
        (note_progress-IsExact n f (omega arith) v) in
    (rest.0, omega (arith, rest.1), rest.2)

missing_chunks-IsExact :
    (f : FileProgress) (size b : ℕ)
    → IsExact f
    → f.size ≡ size
    → f.received_bytes ≡ b
    → missing_chunks f
      ≡ range
          (whole_chunks size b (chunks_of size))
          (chunks_of size - whole_chunks size b (chunks_of size))
unfolding missing_chunks
missing_chunks-IsExact f size b v e q =
    let w = whole_chunks f.size f.received_bytes (chunks_of f.size) in
    rw (← e, ← q)
      (ap (missing_from 0) v.exact ∙ missing_from-filled 0 w w (chunks_of f.size - w) (omega arith))

-- A non-empty file of which `b` bytes have arrived, in uploads of any sizes, resumes exactly: the
-- missing chunks are those from the first that is not whole to the last, and none once `b` reaches
-- the size of the file. The counter is taken not to overflow.
pub missing_chunks-uploads :
    (ns : List ℕ) (spec : FileSpec) (token : String)
    → 0 < spec.size
    → sum ns < 2 ^ 64
    → missing_chunks (uploads ns (fresh_progress spec token))
      ≡ range
          (whole_chunks spec.size (sum ns) (chunks_of spec.size))
          (chunks_of spec.size - whole_chunks spec.size (sum ns) (chunks_of spec.size))
unfolding fresh_progress
missing_chunks-uploads ns spec token h small =
    let r =
      uploads-IsExact ns (fresh_progress spec token) (omega arith)
        (fresh_progress-IsExact spec token h) in
    missing_chunks-IsExact (uploads ns (fresh_progress spec token)) spec.size (sum ns) r.0
      (ap (λ (x : FileSpec). x.size) r.2) (omega (arith, r.1))
