-- ===== src/Field/Honest.antt =====
-- apps/field-dioxus/src/backend.rs: what the bus tells of approvals.
use igrisv.Base.{
  ℕ, String, ◌≡◌, true, some, List, [], ◌∷◌, arith, Each, nat_key, string_key, Assoc, lookup,
  lookup-update, refl, inl, inr, Bool-cases, Option-cases, ok, err, Each-append, same, trim, Option,
  none, Result, Bool,
}
use igrisv.Policy.Approvals
use igrisv.Policy.Approvals.{
  Approval, ApprovalStore, ApprovalState, settle, is_pending, request, set_state, approve, approved,
  deny, refused,
}
use igrisv.Events.{Event, Envelope}
use igrisv.Orchestrator.{Mission, TaskNode, OrchestratorError, begin, ready_tasks}
use igrisv.Field
use igrisv.Field.{
  after_begin, FieldBackend, Ambient, demo_step, set_autonomy, kill, revive, memory_search,
  memory_put, merge_devices, run_lan_scan, first, stepped, recorded,
}
use igrisv.Field.Calls.{
  Call, steps, sets_autonomy, searches, puts, merges, scans, step, approves, denies, kills, revives,
  run,
}

module _ (to_string : ℕ → String) where
  -- That an approval is granted, for an event that says so.
  abbrev pub Backed : Assoc ℕ Approval → Event → Type 0
  Backed items (Event.approval_resolved request true) =
      (id : ℕ) × (a : Approval) × (request ≡ to_string id)
      × (lookup id items ≡ some a)
      × (a.state ≡ ApprovalState.approved)
  Backed items e = Unit {0}

  -- No grant is lost.
  abbrev Grows : Assoc ℕ Approval → Assoc ℕ Approval → Type 0
  Grows items items' =
      (id : ℕ) (a : Approval)
      → lookup id items ≡ some a
      → a.state ≡ ApprovalState.approved
      → lookup id items' ≡ some a

  Grows-Backed :
      (items items' : Assoc ℕ Approval) (e : Event)
      → Grows items items'
      → Backed items e
      → Backed items' e
  Grows-Backed items items' (Event.approval_resolved request true) g (id, a, r, found, so) =
      (id, a, r, g id a found so, so)
  Grows-Backed items items' e g h = tt

  -- Every event of the bus is backed by the approvals.
  abbrev pub IsHonest : {F : Type 0} → FieldBackend F → Type 0
  IsHonest b = Each (λ e. Backed b.approvals.items e.event) b.events.handed

  Each-Backed :
      (items items' : Assoc ℕ Approval) (es : List Envelope)
      → Grows items items'
      → Each (λ e. Backed items e.event) es
      → Each (λ e. Backed items' e.event) es
  Each-Backed items items' [] g h = tt
  Each-Backed items items' (e ∷ es) g h =
      (Grows-Backed items items' e.event g h.0, Each-Backed items items' es g h.1)

  Grows-settle :
      (s : ApprovalStore) (now id : ℕ) (to : ApprovalState)
      → Grows s.items (settle s now id to).1.items
  unfolding settle is_pending
  Grows-settle s now id to k a found so = ground (arith, lookup-update id k (set_state to) s.items)

  settle_granted :
      (s : ApprovalStore) (now id : ℕ) (to : ApprovalState)
      → (settle s now id to).0 ≡ true
      → (a : Approval) × (lookup id (settle s now id to).1.items ≡ some (set_state to a))
  unfolding settle is_pending
  settle_granted s now id to h = elim (Option-cases (lookup id s.items)) [
    | inl e ↦ absurd (ground (arith, e))
    | inr (a, e) ↦ (a, ground (arith, e, lookup-update id id (set_state to) s.items))
  ]

  -- What `approve` returns is whether the approval is granted by it.
  approve-Backed :
      (s : ApprovalStore) (now id : ℕ)
      → Backed
          (Approvals.approve s now id).1.items
          (Event.approval_resolved (to_string id) (Approvals.approve s now id).0)
  unfolding Approvals.approve
  approve-Backed s now id = elim (Bool-cases (settle s now id ApprovalState.approved).0) [
    | inl e ↦
        (let (a, found) = settle_granted s now id ApprovalState.approved e in
          rw e (id, set_state ApprovalState.approved a, refl, found, refl))
    | inr e ↦ rw e tt
  ]

module _ {F : Type 0} (to_string : ℕ → String) (four_fifths half three_fifths : F) where
  recorded-IsHonest :
      (b : FieldBackend F) (a : Ambient) (m : Mission) (id : ℕ) (o : Option TaskNode)
      → IsHonest to_string b
      → IsHonest to_string (recorded b a m id o).1
  recorded-IsHonest b a m id none h = h
  recorded-IsHonest b a m id (some n) h = Each-append _ b.events.handed _ h (tt, tt)

  after_begin-IsHonest :
      (b : FieldBackend F) (a : Ambient) (id : ℕ) (r : Result OrchestratorError (Unit {0}))
      (m : Mission)
      → IsHonest to_string b
      → IsHonest to_string (after_begin b a id r m).1
  after_begin-IsHonest b a id (err e) m h = h
  after_begin-IsHonest b a id (ok u) m h = recorded-IsHonest b a m id (lookup id m.nodes) h

  stepped-IsHonest :
      (b : FieldBackend F) (a : Ambient) (o : Option ℕ)
      → IsHonest to_string b
      → IsHonest to_string (stepped to_string b a o).1
  stepped-IsHonest b a none h = h
  stepped-IsHonest b a (some id) h =
      let start = begin to_string b.mission id in after_begin-IsHonest b a id start.0 start.1 h

  memory_put-IsHonest :
      (b : FieldBackend F) (a : Ambient) (uuid content : String) (accepted : Bool)
      → IsHonest to_string b
      → IsHonest to_string (memory_put four_fifths half three_fifths b a uuid content accepted).1
  unfolding memory_put
  memory_put-IsHonest b a uuid content accepted h = elim (Bool-cases (same (trim content) "")) [
    | inl e ↦ rw (e, memory_put) h
    | inr e ↦ (elim (Bool-cases accepted) [
      | inl y ↦ rw (e, y, memory_put) (Each-append _ b.events.handed _ h (tt, tt))
      | inr n ↦ rw (e, n, memory_put) h
    ])
  ]

  step-IsHonest :
      (b : FieldBackend F) (c : Ambient × Call F)
      → IsHonest to_string b
      → IsHonest to_string (step to_string four_fifths half three_fifths b c)
  unfolding demo_step Field.approve Field.deny Approvals.approve Approvals.deny set_autonomy kill
      revive memory_search memory_put merge_devices run_lan_scan
  step-IsHonest b (a, steps) h = stepped-IsHonest b a (first (ready_tasks b.mission)) h
  step-IsHonest b (a, approves id) h =
      Each-append _ b.events.handed _
        (Each-Backed to_string b.approvals.items _ b.events.handed
          (Grows-settle to_string b.approvals a.now id ApprovalState.approved) h)
        (approve-Backed to_string b.approvals a.now id, tt)
  step-IsHonest b (a, denies id) h =
      Each-append _ b.events.handed _
        (Each-Backed to_string b.approvals.items _ b.events.handed
          (Grows-settle to_string b.approvals a.now id ApprovalState.refused) h)
        (tt, tt)
  step-IsHonest b (a, sets_autonomy autonomy) h = h
  step-IsHonest b (a, kills) h = Each-append _ b.events.handed _ h (tt, tt)
  step-IsHonest b (a, revives) h = h
  step-IsHonest b (a, searches query (ok hits)) h = h
  step-IsHonest b (a, searches query (err e)) h = h
  step-IsHonest b (a, puts uuid content accepted) h =
      memory_put-IsHonest b a uuid content accepted h
  step-IsHonest b (a, merges fresh) h = h
  step-IsHonest b (a, scans (ok found)) h = h
  step-IsHonest b (a, scans (err e)) h = h

  -- Whatever the panels call, the bus never tells of an approval that is not granted: if all its events
  -- are backed by the approvals of the store, they are so after any calls.
  pub run-IsHonest :
      (b : FieldBackend F) (cs : List (Ambient × Call F))
      → IsHonest to_string b
      → IsHonest to_string (run to_string four_fifths half three_fifths b cs)
  unfolding run
  run-IsHonest b [] h = h
  run-IsHonest b (c ∷ cs) h =
      run-IsHonest (step to_string four_fifths half three_fifths b c) cs (step-IsHonest b c h)
