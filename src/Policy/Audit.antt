-- ===== src/Policy/Audit.antt =====
-- crates/igris-policy/src/lib.rs: the hash-chained audit log. `chain_hash` feeds its arguments to the
-- standard library's `DefaultHasher`, whose function is unspecified: it is a parameter.
pub mod Chain
use igrisv.Base.{
  ℕ, String, Bool, true, false, not, List, [], ◌∷◌, ◌++◌, ◌==◌, if◌then◌else◌, length, is_empty,
}

abbrev pub ChainHash : Type 0
ChainHash = ℕ → ℕ → String → String → String → Bool → ℕ → ℕ

pub record AuditEntry : Type 0 where
  pub seq : ℕ
  pub id : ℕ
  pub at : ℕ
  pub actor : String
  pub action : String
  pub target : String
  pub success : Bool
  pub prev_hash : ℕ
  pub hash : ℕ

pub record AuditLog : Type 0 where
  pub entries : List AuditEntry

abbrev pub new : AuditLog
new = record { entries = [] }

-- `self.entries.last().map(|e| e.hash).unwrap_or(start)`
unfoldable pub last_hash : ℕ → List AuditEntry → ℕ
last_hash start [] = start
last_hash start (e ∷ es) = last_hash e.hash es

module _ (chain_hash : ChainHash) where
  -- `record`, with the clock's instant and the fresh id.
  unfoldable pub append : AuditLog → ℕ → ℕ → String → String → String → Bool → ℕ × AuditLog
  append log at id actor action target success =
      let seq = length log.entries in
      let prev = last_hash 0 log.entries in
      let hash = chain_hash prev seq actor action target success at in
      (
        hash,
        record log {
          entries =
              log.entries
              ++ record {
                seq = seq;
                id = id;
                at = at;
                actor = actor;
                action = action;
                target = target;
                success = success;
                prev_hash = prev;
                hash = hash;
              }
                ∷ [];
        },
      )

  -- What the entry's hash should be.
  unfoldable pub digest : AuditEntry → ℕ
  digest e = chain_hash e.prev_hash e.seq e.actor e.action e.target e.success e.at

  -- The loop of `verify_chain`.
  unfoldable pub verify_from : ℕ → List AuditEntry → Bool
  unfolding digest
  verify_from prev [] = true
  verify_from prev (e ∷ es) =
      let rest = verify_from e.hash es in
      if not (e.prev_hash == prev) then false else if not (digest e == e.hash) then false else rest

  unfoldable pub verify_chain : AuditLog → Bool
  unfolding verify_from
  verify_chain log = verify_from 0 log.entries

unfoldable pub len : AuditLog → ℕ
len log = length log.entries

unfoldable pub is_blank : AuditLog → Bool
is_blank log = is_empty log.entries
