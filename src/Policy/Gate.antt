-- ===== src/Policy/Gate.antt =====
-- igris-policy: what passes the gate.
use igrisv.Base.{
  ℕ, ◌≤◌, String, ◌≡◌, ◌≢◌, ◌↔◌, ◌⊎◌, Bool, true, false, some, arith, nat_key, string_key, lookup,
  ok, err,
}
use igrisv.Policy.{
  Policy, rank, Flags, engage, disengage, is_engaged, check, operate, autonomous, PermissionLevel,
  approval_required, killed,
}
use igrisv.Policy.Approvals.{ApprovalStore, is_approved, check_with_approval, approved, Approval}

-- With its switch disengaged, a policy lets an action pass by itself exactly if the level is at most
-- its cap and either it is autonomous, or it operates and the action is not risky.
pub check_iff :
    (flags : Flags) (p : Policy) (level : PermissionLevel) (risky : Bool)
    → is_engaged flags p.kill ≡ false
    → (check flags p level risky ≡ ok true) ↔ (
        (rank level ≤ rank p.max_auto_level)
        × ((p.autonomy ≡ autonomous) ⊎ ((p.autonomy ≡ operate) × (risky ≡ false))))
unfolding check
check_iff flags p level risky off = ground arith

-- Every refusal of a policy whose switch is disengaged asks for an approval: no level is denied
-- outright, and no answer is `ok false`.
pub check_asks :
    (flags : Flags) (p : Policy) (level : PermissionLevel) (risky : Bool)
    → is_engaged flags p.kill ≡ false
    → (check flags p level risky ≡ ok true)
      ⊎ ((why : String) × (check flags p level risky ≡ err (approval_required why)))
unfolding check
check_asks flags p level risky off = ground arith

-- Engaging the switch through any clone of a policy stops every clone: each check is refused, at any
-- level, whether or not an approval is live, and no approval is touched.
pub engage_stops_clones :
    (flags : Flags) (p q : Policy) (level : PermissionLevel) (risky : Bool) (s : ApprovalStore)
    (now id : ℕ)
    → q.kill ≡ p.kill
    → (check (engage flags p.kill) q level risky ≡ err (killed "kill-switch engaged"))
      × (check_with_approval (engage flags p.kill) q level risky s now id
          ≡ (err (killed "kill-switch engaged"), s))
unfolding check check_with_approval engage
engage_stops_clones flags p q level risky s now id same = (ground arith, ground arith)

-- Engaging and disengaging a switch leaves a policy with another switch as it was.
pub switches_independent :
    (flags : Flags) (p q : Policy) (level : PermissionLevel) (risky : Bool)
    → p.kill.engaged ≢ q.kill.engaged
    → (check (engage flags p.kill) q level risky ≡ check flags q level risky)
      × (check (disengage flags p.kill) q level risky ≡ check flags q level risky)
unfolding check engage disengage
switches_independent flags p q level risky n = (ground arith, ground arith)

-- With the switch disengaged, a granted approval opens the gate for any level and any risk, at any
-- instant: neither the approval's own level nor its deadline is read again, and it is not used up.
pub approval_opens_gate :
    (flags : Flags) (p : Policy) (level : PermissionLevel) (risky : Bool) (s : ApprovalStore)
    (now id : ℕ) (a : Approval)
    → is_engaged flags p.kill ≡ false
    → lookup id s.items ≡ some a
    → a.state ≡ approved
    → check_with_approval flags p level risky s now id ≡ (ok true, s)
unfolding check_with_approval is_approved
approval_opens_gate flags p level risky s now id a off e g = ground arith

-- Without a granted approval the gate is that of the policy alone.
pub unapproved_gate :
    (flags : Flags) (p : Policy) (level : PermissionLevel) (risky : Bool) (s : ApprovalStore)
    (now id : ℕ)
    → (is_approved s now id).0 ≡ false
    → (check_with_approval flags p level risky s now id).0 ≡ check flags p level risky
unfolding check_with_approval check
unapproved_gate flags p level risky s now id h = ground arith
