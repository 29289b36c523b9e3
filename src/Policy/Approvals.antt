-- ===== src/Policy/Approvals.antt =====
-- crates/igris-policy/src/lib.rs: approvals, requested, decided and expired on a deadline. Instants
-- are numbers, and the clock and the fresh id are arguments.
pub mod Life
use igrisv.Base.{
  ℕ, ◌+◌, String, Bool, true, false, ◌&&◌, Option, none, some, List, [], ◌∷◌, ltb, leb,
  if◌then◌else◌, keep, nat_key, string_key, Assoc, values, lookup, insert, update, Result, ok, err,
}
use igrisv.Policy.{PermissionLevel, Policy, Flags, is_engaged, check, PolicyError, killed}

pub data ApprovalState : Type 0 where
  pending approved refused expired : ApprovalState

unfoldable pub is_pending : ApprovalState → Bool
is_pending pending = true
is_pending _ = false

unfoldable pub is_granted : ApprovalState → Bool
is_granted approved = true
is_granted _ = false

pub record Approval : Type 0 where
  pub id : ℕ
  pub summary : String
  pub level : PermissionLevel
  pub requested_at : ℕ
  pub expires_at : ℕ
  pub state : ApprovalState

pub record ApprovalStore : Type 0 where
  pub items : Assoc ℕ Approval

abbrev pub new : ApprovalStore
new = record { items = [] }

unfoldable pub request : ApprovalStore → ℕ → ℕ → String → PermissionLevel → ℕ → ℕ × ApprovalStore
request s now id summary level ttl = (
  id,
  record s {
    items =
        insert id
          (record {
            id = id;
            summary = summary;
            level = level;
            requested_at = now;
            expires_at = now + ttl;
            state = pending;
          })
          s.items;
  },
)

abbrev pub set_state : ApprovalState → Approval → Approval
set_state to a = record a { state = to }

unfoldable pub settle : ApprovalStore → ℕ → ℕ → ApprovalState → Bool × ApprovalStore
unfolding is_pending
settle s now id to = elim (lookup id s.items) [
  | none ↦ (false, s)
  | some a ↦
      if is_pending a.state && leb now a.expires_at
      then (true, record s { items = update id (set_state to) s.items })
      else (false, s)
]

unfoldable pub approve : ApprovalStore → ℕ → ℕ → Bool × ApprovalStore
unfolding settle
approve s now id = settle s now id approved

unfoldable pub deny : ApprovalStore → ℕ → ℕ → Bool × ApprovalStore
unfolding settle
deny s now id = settle s now id refused

unfoldable pub sweep : ApprovalStore → ℕ → ℕ → ApprovalStore
unfolding is_pending
sweep s now id = elim (lookup id s.items) [
  | none ↦ s
  | some a ↦
      if is_pending a.state && ltb a.expires_at now
      then record s { items = update id (set_state expired) s.items }
      else s
]

unfoldable pub get : ApprovalStore → ℕ → ℕ → Option Approval × ApprovalStore
unfolding sweep
get s now id = let s' = sweep s now id in (lookup id s'.items, s')

granted : Option Approval → Bool
unfolding is_granted
granted none = false
granted (some a) = is_granted a.state

unfoldable pub is_approved : ApprovalStore → ℕ → ℕ → Bool × ApprovalStore
unfolding sweep granted
is_approved s now id = let s' = sweep s now id in (granted (lookup id s'.items), s')

-- `sort_by` on the deadline is stable.
insert_by_deadline : Approval → List Approval → List Approval
insert_by_deadline a [] = a ∷ []
insert_by_deadline a (b ∷ bs) =
    if leb a.expires_at b.expires_at then a ∷ b ∷ bs else b ∷ insert_by_deadline a bs

sort_by_deadline : List Approval → List Approval
unfolding insert_by_deadline
sort_by_deadline [] = []
sort_by_deadline (a ∷ rest) = insert_by_deadline a (sort_by_deadline rest)

unfoldable pub list_pending : ApprovalStore → List Approval
unfolding sort_by_deadline
list_pending s = sort_by_deadline (keep (λ a. is_pending a.state) (values s.items))

-- `Policy::check_with_approval`
unfoldable pub check_with_approval :
    Flags
    → Policy
    → PermissionLevel
    → Bool
    → ApprovalStore
    → ℕ
    → ℕ
    → Result PolicyError Bool × ApprovalStore
check_with_approval flags p level risky s now id =
    if is_engaged flags p.kill
    then (err (killed "kill-switch engaged"), s)
    else (let (live, s') = is_approved s now id in
        (if live then ok true else check flags p level risky, s'))
