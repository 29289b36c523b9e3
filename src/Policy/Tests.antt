-- ===== src/Policy/Tests.antt =====
-- igris-policy at concrete policies, stores and logs.
use igrisv.Base.{
  ◌+◌, ◌≡◌, refl, true, false, some, [], ◌∷◌, map, ℕ_discrete, nat_key, string_key, lookup, update,
  err,
}
use igrisv.Policy.{Policy, Flags, engage, check, operate, l0_read, l1_write, killed}
use igrisv.Policy.Approvals.{
  ApprovalStore, Approval, approve, is_approved, check_with_approval, pending, approved,
}
use igrisv.Policy.Approvals.Life.{step, Grants, granted_in_time, approves}
use igrisv.Policy.Gate.{engage_stops_clones}
use igrisv.Policy.Audit.{AuditLog, ChainHash, last_hash, verify_chain, len}
use igrisv.Policy.Audit.Chain.{covered, relabelled, tamper_evident}

abbrev policy : Policy
policy = record { autonomy = operate; max_auto_level = l1_write; kill = record { engaged = 0 } }

abbrev off : Flags
off a = false

abbrev granted_deploy : Approval
granted_deploy = record {
  id = 7;
  summary = "deploy staging";
  level = l1_write;
  requested_at = 100;
  expires_at = 400;
  state = approved;
}

abbrev store : ApprovalStore
store = record { items = (7, granted_deploy) ∷ [] }

abbrev waiting : ApprovalStore
waiting = record { items = (7, record granted_deploy { state = pending }) ∷ [] }

found : lookup 7 store.items ≡ some granted_deploy
unfolding lookup ℕ_discrete
found = refl

found_waiting : lookup 7 waiting.items ≡ some (record granted_deploy { state = pending })
unfolding lookup ℕ_discrete
found_waiting = refl

engage_stops_clones_example :
    (check (engage off policy.kill) policy l0_read false ≡ err (killed "kill-switch engaged"))
    × (check_with_approval (engage off policy.kill) policy l0_read false store 200 7
        ≡ (err (killed "kill-switch engaged"), store))
engage_stops_clones_example = engage_stops_clones off policy policy l0_read false store 200 7 refl

abbrev other : Policy
other = record policy { kill = record { engaged = 1 } }

not_approved : (is_approved waiting 200 7).0 ≡ false
unfolding is_approved lookup ℕ_discrete
not_approved = refl

after_grant : lookup 7 (step waiting (200, approves 7)).items ≡ some granted_deploy
unfolding step approve lookup update ℕ_discrete
after_grant = refl

granted_in_time_example : Grants 7 400 (200, approves 7)
granted_in_time_example =
    granted_in_time waiting (200, approves 7) 7 tt found_waiting refl after_grant refl

-- A hash that is enough to run the chain.
abbrev adds : ChainHash
adds prev seq actor action target success at = prev + seq + at + 1

abbrev log : AuditLog
log = record {
  entries =
      record {
        seq = 0;
        id = 11;
        at = 5;
        actor = "planner";
        action = "exec";
        target = "ls";
        success = true;
        prev_hash = 0;
        hash = 6;
      }
      ∷ [];
}

verifies : verify_chain adds log ≡ true
unfolding verify_chain
verifies = refl

abbrev renamed : AuditLog
renamed = record { entries = map (relabelled (λ e. 99)) log.entries }

tamper_evident_example : map covered log.entries ≡ map covered renamed.entries
unfolding verify_chain len last_hash
tamper_evident_example = tamper_evident adds log renamed refl refl refl refl ((λ e. refl), tt)
