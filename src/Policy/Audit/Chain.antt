-- ===== src/Policy/Audit/Chain.antt =====
-- igris-policy: what the hash chain of the audit log protects, and what it does not.
use igrisv.Base.{
  ℕ, suc, ◌+◌, String, ◌≡◌, refl, Bool, true, List, [], ◌∷◌, ◌++◌, map, arith, length,
  length-append, kept, ap,
}
use igrisv.Policy.Audit.{
  AuditEntry, ChainHash, last_hash, append, digest, verify_from, verify_chain, len, AuditLog,
}

-- The numbers of the entries are their places.
abbrev pub Numbered : ℕ → List AuditEntry → Type 0
Numbered i [] = Unit {0}
Numbered i (e ∷ es) = (e.seq ≡ i) × Numbered (suc i) es

Numbered-append :
    (i : ℕ) (es : List AuditEntry) (e : AuditEntry)
    → Numbered i es
    → e.seq ≡ i + length es
    → Numbered i (es ++ e ∷ [])
Numbered-append i [] e n q = (omega arith, tt)
Numbered-append i (x ∷ es) e n q = (n.0, Numbered-append (suc i) es e n.1 (omega arith))

-- The fields that a hash covers: all but the id.
abbrev pub covered : AuditEntry → AuditEntry
covered e = record e { id = 0 }

abbrev pub relabelled : (AuditEntry → ℕ) → AuditEntry → AuditEntry
relabelled relabel e = record e { id = relabel e }

module _ (chain_hash : ChainHash) where
  verify_from-append :
      (prev : ℕ) (es : List AuditEntry) (e : AuditEntry)
      → verify_from chain_hash prev es ≡ true
      → e.prev_hash ≡ last_hash prev es
      → e.hash ≡ digest chain_hash e
      → verify_from chain_hash prev (es ++ e ∷ []) ≡ true
  unfolding verify_from last_hash
  verify_from-append prev [] e v p h = ground arith
  verify_from-append prev (x ∷ es) e v p h = ground (arith, verify_from-append x.hash es e)

  -- Recording keeps a log that verifies and is numbered from zero so, and adds one entry.
  pub append-verify_chain :
      (log : AuditLog) (at id : ℕ) (actor action target : String) (success : Bool)
      → verify_chain chain_hash log ≡ true
      → Numbered 0 log.entries
      → (verify_chain chain_hash (append chain_hash log at id actor action target success).1 ≡ true)
        × Numbered 0 (append chain_hash log at id actor action target success).1.entries
        × (len (append chain_hash log at id actor action target success).1 ≡ len log + 1)
  unfolding append verify_chain len
  append-verify_chain log at id actor action target success v n = (
    verify_from-append 0 log.entries _ v refl refl,
    Numbered-append 0 log.entries _ n (omega arith),
    omega (arith, length-append log.entries),
  )

  -- No place at which the two lists hold entries of equal hash that differ in what it covers.
  abbrev pub NoCollision : List AuditEntry → List AuditEntry → Type 0
  NoCollision [] fs = Unit {0}
  NoCollision (e ∷ es) [] = Unit {0}
  NoCollision (e ∷ es) (f ∷ fs) =
      (digest chain_hash e ≡ digest chain_hash f → covered e ≡ covered f) × NoCollision es fs

  same_chain :
      (p q : ℕ) (es fs : List AuditEntry)
      → verify_from chain_hash p es ≡ true
      → verify_from chain_hash q fs ≡ true
      → length es ≡ length fs
      → last_hash p es ≡ last_hash q fs
      → NoCollision es fs
      → (p ≡ q) × (map covered es ≡ map covered fs)
  unfolding verify_from last_hash
  same_chain p q [] [] v w l h c = (h, refl)
  same_chain p q [] (f ∷ fs) v w l h c = absurd (omega arith)
  same_chain p q (e ∷ es) [] v w l h c = absurd (omega arith)
  same_chain p q (e ∷ es) (f ∷ fs) v w l h c =
      let (hashes, rest) =
        same_chain e.hash f.hash es fs (ground arith) (ground arith) (omega arith) h c.1 in
      let here : covered e ≡ covered f = c.0 (ground arith) in
      (ground (arith, ap (λ (x : AuditEntry). x.prev_hash) here), cc (here, rest))

  -- Two logs of one length that both verify and end in the same hash agree in every covered field of
  -- every entry, unless two entries at one place collide: a past entry cannot be rewritten without a
  -- collision or a change of the last hash.
  pub tamper_evident :
      (log other : AuditLog)
      → verify_chain chain_hash log ≡ true
      → verify_chain chain_hash other ≡ true
      → len log ≡ len other
      → last_hash 0 log.entries ≡ last_hash 0 other.entries
      → NoCollision log.entries other.entries
      → map covered log.entries ≡ map covered other.entries
  unfolding verify_chain len
  tamper_evident log other v w l h c = (same_chain 0 0 log.entries other.entries v w l h c).1

  relabel_from :
      (relabel : AuditEntry → ℕ) (prev : ℕ) (es : List AuditEntry)
      → verify_from chain_hash prev (map (relabelled relabel) es) ≡ verify_from chain_hash prev es
  unfolding verify_from
  relabel_from relabel prev [] = refl
  relabel_from relabel prev (e ∷ es) = ground (arith, relabel_from relabel e.hash es)

  -- The ids are outside the chain: rewriting them, each as one likes, is never detected.
  pub ids_unprotected :
      (relabel : AuditEntry → ℕ) (log : AuditLog)
      → verify_chain chain_hash (record log { entries = map (relabelled relabel) log.entries })
        ≡ verify_chain chain_hash log
  unfolding verify_chain
  ids_unprotected relabel log = relabel_from relabel 0 log.entries

  prefix_from :
      (prev : ℕ) (es fs : List AuditEntry)
      → verify_from chain_hash prev (es ++ fs) ≡ true
      → verify_from chain_hash prev es ≡ true
  unfolding verify_from
  prefix_from prev [] fs v = refl
  prefix_from prev (e ∷ es) fs v = ground (arith, prefix_from e.hash es fs)

  -- Cutting entries off the end of a log that verifies is never detected.
  pub truncation_unprotected :
      (kept cut : List AuditEntry)
      → verify_chain chain_hash (record { entries = kept ++ cut }) ≡ true
      → verify_chain chain_hash (record { entries = kept }) ≡ true
  unfolding verify_chain
  truncation_unprotected kept cut v = prefix_from 0 kept cut v
