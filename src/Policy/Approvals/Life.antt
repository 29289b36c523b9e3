-- ===== src/Policy/Approvals/Life.antt =====
-- igris-policy: an approval is decided once, before its deadline.
use igrisv.Base.{
  ℕ, String, ◌≡◌, refl, ◌≢◌, some, List, [], ◌∷◌, nat_key, string_key, lookup, lookup-insert_ne,
  ◌≤◌, none, arith, Each, lookup-update, inl, inr, Option-cases,
}
use igrisv.Policy.{PermissionLevel}
use igrisv.Policy.Approvals.{
  ApprovalStore, request, set_state, approve, deny, get, is_approved, ApprovalState, pending,
  approved, refused, expired, Approval, settle, sweep,
}

infix 40 ◌⟶◌
pub data ◌⟶◌ : ApprovalState → ApprovalState → Type 0 where
  stay : {s : ApprovalState} → s ⟶ s
  grant : pending ⟶ approved
  refuse : pending ⟶ refused
  lapse : pending ⟶ expired

ruleset edges = (stay, grant, refuse, lapse)

-- The calls on a store, each at an instant. A request carries its fresh id.
pub data Call : Type 0 where
  requests : ℕ → String → PermissionLevel → ℕ → Call
  approves denies gets asks : ℕ → Call

unfoldable pub step : ApprovalStore → ℕ × Call → ApprovalStore
step s (now, requests id summary level ttl) = (request s now id summary level ttl).1
step s (now, approves id) = (approve s now id).1
step s (now, denies id) = (deny s now id).1
step s (now, gets id) = (get s now id).1
step s (now, asks id) = (is_approved s now id).1

unfoldable pub run : ApprovalStore → List (ℕ × Call) → ApprovalStore
run s [] = s
run s (c ∷ cs) = run (step s c) cs

-- A call that does not draw `id` for a new request: v4 ids do not repeat.
abbrev pub Fresh : ℕ → ℕ × Call → Type 0
Fresh id (now, requests j summary level ttl) = j ≢ id
Fresh id _ = Unit {0}

module _ (s : ApprovalStore) (now j id : ℕ) {a b : Approval}
    (before : lookup id s.items ≡ some a) where
  settle-⟶ :
      (to : ApprovalState)
      → pending ⟶ to
      → lookup id (settle s now j to).1.items ≡ some b
      → (a.state ⟶ b.state) × (set_state a.state b ≡ a)
  unfolding settle
  settle-⟶ to edge after = grind (arith, edges, lookup-update j id (set_state to) s.items)

  sweep-⟶ :
      lookup id (sweep s now j).items ≡ some b → (a.state ⟶ b.state) × (set_state a.state b ≡ a)
  unfolding sweep
  sweep-⟶ after = grind (arith, edges, lookup-update j id (set_state expired) s.items)

lookup-request :
    (s : ApprovalStore) (now j : ℕ) (summary : String) (level : PermissionLevel) (ttl id : ℕ)
    → j ≢ id
    → lookup id (request s now j summary level ttl).1.items ≡ lookup id s.items
unfolding request
lookup-request s now j summary level ttl id n = lookup-insert_ne j id _ s.items n

-- Whatever the call, as long as it does not draw the id again, the terms of an approval stay as they
-- were requested, and its state moves along the diagram: only a pending approval is decided or lapses.
pub step_follows :
    (s : ApprovalStore) (c : ℕ × Call) (id : ℕ) {a b : Approval}
    → Fresh id c
    → lookup id s.items ≡ some a
    → lookup id (step s c).items ≡ some b
    → (a.state ⟶ b.state) × (set_state a.state b ≡ a)
unfolding step approve deny get is_approved
step_follows s (now, requests j summary level ttl) id f before after =
    grind (arith, edges, lookup-request s now j summary level ttl id f)
step_follows s (now, approves j) id f before after = settle-⟶ s now j id before approved grant after
step_follows s (now, denies j) id f before after = settle-⟶ s now j id before refused refuse after
step_follows s (now, gets j) id f before after = sweep-⟶ s now j id before after
step_follows s (now, asks j) id f before after = sweep-⟶ s now j id before after

-- The call that approves `id` in time.
abbrev pub Grants : ℕ → ℕ → ℕ × Call → Type 0
Grants id deadline (now, approves j) = (j ≡ id) × (now ≤ deadline)
Grants id deadline _ = ⊥

-- A pending approval, whose id is not drawn again, is granted by nothing but a call of `approve` for it,
-- no later than its deadline.
pub granted_in_time :
    (s : ApprovalStore) (c : ℕ × Call) (id : ℕ) {a b : Approval}
    → Fresh id c
    → lookup id s.items ≡ some a
    → a.state ≡ pending
    → lookup id (step s c).items ≡ some b
    → b.state ≡ approved
    → Grants id a.expires_at c
unfolding step approve deny get is_approved settle sweep
granted_in_time s (now, requests j summary level ttl) id f before p after g =
    cc (lookup-request s now j summary level ttl id f)
granted_in_time s (now, approves j) id f before p after g =
    ground (arith, lookup-update j id (set_state approved) s.items)
granted_in_time s (now, denies j) id f before p after g =
    ground (arith, lookup-update j id (set_state refused) s.items)
granted_in_time s (now, gets j) id f before p after g =
    ground (arith, lookup-update j id (set_state expired) s.items)
granted_in_time s (now, asks j) id f before p after g =
    ground (arith, lookup-update j id (set_state expired) s.items)

step_keeps :
    (s : ApprovalStore) (c : ℕ × Call) (id : ℕ) {a : Approval}
    → Fresh id c
    → lookup id s.items ≡ some a
    → lookup id (step s c).items ≢ none
unfolding step approve deny get is_approved settle sweep
step_keeps s (now, requests j summary level ttl) id f before e =
    cc (lookup-request s now j summary level ttl id f)
step_keeps s (now, approves j) id f before e =
    ground (arith, lookup-update j id (set_state approved) s.items)
step_keeps s (now, denies j) id f before e =
    ground (arith, lookup-update j id (set_state refused) s.items)
step_keeps s (now, gets j) id f before e =
    ground (arith, lookup-update j id (set_state expired) s.items)
step_keeps s (now, asks j) id f before e =
    ground (arith, lookup-update j id (set_state expired) s.items)

⟶-decided : {x y : ApprovalState} → x ⟶ y → x ≢ pending → y ≡ x
⟶-decided stay n = refl
⟶-decided grant n = absurd (n refl)
⟶-decided refuse n = absurd (n refl)
⟶-decided lapse n = absurd (n refl)

step-decided :
    (s : ApprovalStore) (c : ℕ × Call) (id : ℕ) (a : Approval)
    → Fresh id c
    → lookup id s.items ≡ some a
    → a.state ≢ pending
    → lookup id (step s c).items ≡ some a
step-decided s c id a f before n = elim (Option-cases (lookup id (step s c).items)) [
  | inl e ↦ absurd (step_keeps s c id f before e)
  | inr (b, e) ↦
      let (edge, terms) = step_follows s c id f before e in ground (arith, ⟶-decided edge n, terms)
]

-- A decided or lapsed approval is never touched again, whatever calls follow that do not draw its id
-- again: not revoked, not expired and not used up.
pub decided_for_good :
    (s : ApprovalStore) (cs : List (ℕ × Call)) (id : ℕ) (a : Approval)
    → Each (Fresh id) cs
    → lookup id s.items ≡ some a
    → a.state ≢ pending
    → lookup id (run s cs).items ≡ some a
unfolding run
decided_for_good s [] id a f before n = before
decided_for_good s (c ∷ cs) id a f before n =
    decided_for_good (step s c) cs id a f.1 (step-decided s c id a f.0 before n) n
