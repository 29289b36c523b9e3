-- ===== src/Orchestrator/Begin.antt =====
-- igris-orchestrator: which tasks may start.
use igrisv.Base.{
  ℕ, ◌+◌, ◌%◌, ◌^◌, none, String, ◌≡◌, refl, Bool, true, ◌&&◌, some, List, [], ◌∷◌, arith,
  ℕ_discrete, ◌==◌, any, keep, nat_key, string_key, lookup, ok, err, lookup-update, ◌≢◌, ◌↔◌, inl,
  inr, Option-cases,
}
use igrisv.Orchestrator.{
  Mission, found_and, deps_satisfied, is_ready, ready_tasks, begun, begin, MissionState,
  OrchestratorError, TaskNode, NodeState,
}

-- `begin` succeeds exactly if the mission is running, the task is known and each of its dependencies is
-- done; then the task is running with one more attempt on its counter, modulo 2^32, and no error, its other
-- fields are as before, and so are all other tasks. An error changes nothing.
pub begin_guards :
    (to_string : ℕ → String) (m : Mission) (id : ℕ)
    → ((begin to_string m id).0 ≡ ok tt ↔ (
        (m.state ≡ MissionState.running)
        × ((n : TaskNode) × (lookup id m.nodes ≡ some n) × (deps_satisfied m n ≡ true))))
      × ((n : TaskNode)
          → (begin to_string m id).0 ≡ ok tt
          → lookup id m.nodes ≡ some n
          → lookup id (begin to_string m id).1.nodes
            ≡ some record n {
              state = NodeState.running;
              attempts = (n.attempts + 1) % 2 ^ 32;
              last_error = none;
            })
      × ((k : ℕ) → k ≢ id → lookup k (begin to_string m id).1.nodes ≡ lookup k m.nodes)
      × ((e : OrchestratorError) → (begin to_string m id).0 ≡ err e → (begin to_string m id).1 ≡ m)
unfolding begin
begin_guards to_string m id = (
  (
    (λ h. elim (Option-cases (lookup id m.nodes)) [
      | inl n ↦ absurd (ground arith)
      | inr f ↦ (ground arith, (f.0, f.1, ground arith))
    ]),
    (λ h. ground (arith, h.0, h.1.1, h.1.2)),
  ),
  (λ n h e. ground (arith, lookup-update id id begun m.nodes)),
  (λ k d. ground (arith, lookup-update id k begun m.nodes)),
  λ e h. ground arith,
)

-- Whether `id` is among the ids.
abbrev pub listed : ℕ → List ℕ → Bool
listed id = any (λ x. x == id)

listed-keep : (p : ℕ → Bool) (id : ℕ) (xs : List ℕ) → listed id (keep p xs) ≡ (listed id xs && p id)
listed-keep p id [] = refl
listed-keep p id (x ∷ xs) = elim (ℕ_discrete x id) [
  | yes e ↦ rw (← e) (ground (arith, listed-keep p x xs))
  | no n ↦ ground (arith, listed-keep p id xs)
]

-- The tasks that a running mission offers are those of its order that are known, pending, and have
-- every dependency done.
pub listed-ready_tasks :
    (m : Mission) (id : ℕ)
    → m.state ≡ MissionState.running
    → listed id (ready_tasks m) ≡ (listed id m.order && found_and (is_ready m) (lookup id m.nodes))
unfolding ready_tasks
listed-ready_tasks m id r =
    ground (arith, listed-keep (λ x. found_and (is_ready m) (lookup x m.nodes)) id m.order)

-- Every task that is offered can be begun.
pub begin-ready_tasks :
    (to_string : ℕ → String) (m : Mission) (id : ℕ)
    → listed id (ready_tasks m) ≡ true
    → (begin to_string m id).0 ≡ ok tt
unfolding begin ready_tasks is_ready
begin-ready_tasks to_string m id h =
    ground (arith, listed-keep (λ x. found_and (is_ready m) (lookup x m.nodes)) id m.order)
