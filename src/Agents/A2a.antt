-- ===== src/Agents/A2a.antt =====
-- crates/igris-agents/src/lib.rs, module `a2a`: the contracts between agents of different owners. The
-- hash is the platform's `DefaultHasher`, a parameter here.
use igrisv.Base.{
  ℕ, String, ◌≡◌, ◌↔◌, true, false, not, List, arith, ◌==◌, if◌then◌else◌, Result, ok, err, has,
  is_blank,
}

pub record AgentCard : Type 0 where
  pub name : String
  pub version : String
  pub capabilities : List String

pub record AgentTaskRequest : Type 0 where
  pub id : ℕ
  pub intent : String
  pub capability : String
  pub input : String
  pub requester : String

pub record Artifact : Type 0 where
  pub id : ℕ
  pub task_id : ℕ
  pub producer : String
  pub content : String
  pub content_hash : ℕ

pub data A2aError : Type 0 where
  capability_not_advertised hash_mismatch unknown_producer : String → A2aError
  empty_input : A2aError

unfoldable pub validate_task : AgentCard → AgentTaskRequest → Result A2aError (Unit {0})
validate_task card req =
    if not (has req.capability card.capabilities)
    then err (capability_not_advertised req.capability)
    else if is_blank req.input
    then err empty_input
    else ok tt

module _ (hash_content : String → ℕ) where
  -- With the fresh id.
  unfoldable pub make_artifact : ℕ → ℕ → String → String → Artifact
  make_artifact id task_id producer content = record {
    id = id;
    task_id = task_id;
    producer = producer;
    content = content;
    content_hash = hash_content content;
  }

  -- `to_string` of an id is the uuid package's.
  unfoldable pub verify_artifact :
      (ℕ → String) → List String → Artifact → Result A2aError (Unit {0})
  verify_artifact to_string known_producers art =
      if not (has art.producer known_producers)
      then err (unknown_producer art.producer)
      else if not (hash_content art.content == art.content_hash)
      then err (hash_mismatch (to_string art.id))
      else ok tt

  -- An artifact as it was made passes exactly if its producer is known, and with its content replaced
  -- exactly if, moreover, the two contents have the same hash.
  pub verify_artifact-make_artifact :
      (to_string : ℕ → String) (known : List String) (id task : ℕ) (producer content other : String)
      → let art = make_artifact id task producer content in
        ((verify_artifact to_string known art ≡ ok tt) ↔ (has producer known ≡ true))
        × ((verify_artifact to_string known (record art { content = other }) ≡ ok tt)
            ↔ ((has producer known ≡ true) × (hash_content other ≡ hash_content content)))
  unfolding verify_artifact make_artifact
  verify_artifact-make_artifact to_string known id task producer content other = (
    ((λ h. ground arith), (λ h. ground arith)),
    ((λ h. ground arith), (λ h. ground (arith, h.0, h.1))),
  )

-- A request is taken exactly if its capability is on the card and its input is not blank; a request
-- refused for its input has an advertised capability.
pub validate_task_iff :
    (card : AgentCard) (req : AgentTaskRequest)
    → ((validate_task card req ≡ ok tt)
        ↔ ((has req.capability card.capabilities ≡ true) × (is_blank req.input ≡ false)))
      × (validate_task card req ≡ err empty_input → has req.capability card.capabilities ≡ true)
unfolding validate_task
validate_task_iff card req =
    (((λ h. (ground arith, ground arith)), (λ h. ground (arith, h.0, h.1))), λ h. ground arith)
