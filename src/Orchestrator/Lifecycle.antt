-- ===== src/Orchestrator/Lifecycle.antt =====
-- igris-orchestrator: cancelling a mission, restarting after a crash, and the states a mission ends in.
use mathlib.Core.List.{head?}
use igrisv.Base.{
  ℕ, String, ◌≡◌, refl, ◌≢◌, Bool, some, List, [], ◌∷◌, arith, keep, nat_key, string_key, lookup,
  err, lookup-map_values, ap, inl, inr, true, Option-cases, map_values,
}
use igrisv.Orchestrator.{
  Mission, not_running, resume, cancel_node, cancel, is_ready, ready_tasks, begin, find, can_resume,
  resume_point, reclaim_node, reclaim_running, NodeState, MissionState, TaskNode, add, modify, mark,
  checkpoint, pause, found_and, deps_satisfied, refresh_state, succeeded, record_success,
  failed_with, record_failure, now_verified, verify_node,
}
use igrisv.Orchestrator.Begin.{listed, listed-ready_tasks}
use igrisv.Orchestrator.Outcomes.{Outcome, succeeds, fails, verifies, settle}

-- A cancelled mission has no pending and no running task, offers no task and starts none; it does not
-- resume.
pub cancel_stops :
    (to_string : ℕ → String) (m : Mission)
    → ((id : ℕ) (n : TaskNode)
        → lookup id (cancel m).nodes ≡ some n
        → (n.state ≢ NodeState.pending) × (n.state ≢ NodeState.running))
      × (ready_tasks (cancel m) ≡ [])
      × ((id : ℕ) → begin to_string (cancel m) id ≡ (err not_running, cancel m))
      × (resume (cancel m) ≡ cancel m)
unfolding cancel cancel_node ready_tasks begin resume
cancel_stops to_string m = (
  (λ id n e. (
    (λ p. ground (arith, lookup-map_values cancel_node id m.nodes)),
    (λ p. ground (arith, lookup-map_values cancel_node id m.nodes)),
  )),
  refl,
  (λ id. refl),
  refl,
)

-- After a restart no task is running: the tasks that were are pending, with their counters kept, and
-- all others are as before.
pub lookup-reclaim_running :
    (m : Mission) (id : ℕ) (n : TaskNode)
    → lookup id (reclaim_running m).nodes ≡ some n
    → (n.state ≢ NodeState.running)
      × ((o : TaskNode) × (lookup id m.nodes ≡ some o)
          × (o.attempts ≡ n.attempts)
          × (o.state ≢ NodeState.running → n ≡ o)
          × (o.state ≡ NodeState.running → n.state ≡ NodeState.pending))
unfolding reclaim_running reclaim_node
lookup-reclaim_running m id n e = (
  (λ p. ground (arith, lookup-map_values reclaim_node id m.nodes)),
  (elim (Option-cases (lookup id m.nodes)) [
    | inl a ↦ ground (arith, lookup-map_values reclaim_node id m.nodes)
    | inr f ↦
        let moved : lookup id (map_values reclaim_node m.nodes) ≡ some (reclaim_node f.0) =
          rw (lookup-map_values reclaim_node id m.nodes, f.1) refl in
        (f.0, f.1, ground arith, λ q. ground arith, λ q. ground arith)
  ]),
)

find-keep : (p q : ℕ → Bool) (xs : List ℕ) → ((x : ℕ) → p x ≡ q x) → find p xs ≡ head? (keep q xs)
find-keep p q [] h = refl
find-keep p q (x ∷ xs) h = ground (arith, h x, find-keep p q xs h)

resume-ready :
    (m : Mission) (id : ℕ)
    → found_and (can_resume (reclaim_running m)) (lookup id (reclaim_running m).nodes)
      ≡ found_and (is_ready (reclaim_running m)) (lookup id (reclaim_running m).nodes)
unfolding can_resume is_ready
resume-ready m id = elim (Option-cases (lookup id (reclaim_running m).nodes)) [
  | inl a ↦ rw a refl
  | inr f ↦ rw f.1 (ground (arith, (lookup-reclaim_running m id f.0 f.1).0))
]

-- After a restart, a running mission resumes at the first of the tasks it offers; with none on offer
-- there is nothing to resume.
pub resume_point-reclaim_running :
    (m : Mission)
    → m.state ≡ MissionState.running
    → resume_point (reclaim_running m) ≡ head? (ready_tasks (reclaim_running m))
unfolding resume_point ready_tasks reclaim_running
resume_point-reclaim_running m r = ground (
  arith,
  find-keep (λ id. found_and (can_resume (reclaim_running m)) (lookup id (reclaim_running m).nodes))
      (λ id. found_and (is_ready (reclaim_running m)) (lookup id (reclaim_running m).nodes)) m.order
      (resume-ready m),
)

-- The calls on a mission, except `start` and `pause`.
pub data Call : Type 0 where
  settles : ℕ → Outcome → Call
  begins : ℕ → Call
  marks : ℕ → NodeState → Call
  checkpoints : ℕ → String → Call
  adds : TaskNode → Call
  resumes cancels reclaims : Call

unfoldable pub step : (ℕ → String) → Mission → Call → Mission
step to_string m (settles id o) = settle m id o
step to_string m (begins id) = (begin to_string m id).1
step to_string m (marks id s) = mark m id s
step to_string m (checkpoints id t) = checkpoint m id t
step to_string m (adds n) = (add m n).1
step to_string m resumes = resume m
step to_string m cancels = cancel m
step to_string m reclaims = reclaim_running m

unfoldable pub run : (ℕ → String) → Mission → List Call → Mission
run to_string m [] = m
run to_string m (c ∷ cs) = run to_string (step to_string m c) cs

abbrev pub Ended : Mission → Type 0
Ended m = (m.state ≢ MissionState.running) × (m.state ≢ MissionState.paused)

refresh-Ended : (m : Mission) → Ended m → refresh_state m ≡ m
unfolding refresh_state
refresh-Ended m h = ground (arith, h.0)

settle-Ended : (m : Mission) (id : ℕ) (o : Outcome) → Ended m → (settle m id o).state ≡ m.state
unfolding settle record_success record_failure verify_node
settle-Ended m id (succeeds c) h = ap (λ x. x.state) (refresh-Ended (modify m id (succeeded c)) h)
settle-Ended m id (fails e) h = ground (arith, refresh-Ended (modify m id (failed_with e)) h)
settle-Ended m id verifies h = ground (arith, refresh-Ended (modify m id now_verified) h)

step-Ended :
    (to_string : ℕ → String) (m : Mission) (c : Call) → Ended m → Ended (step to_string m c)
unfolding step begin mark checkpoint add resume cancel reclaim_running
step-Ended t m (settles id o) h = rw (settle-Ended m id o h) h
step-Ended t m (begins id) h = ground (arith, h.0)
step-Ended t m (marks id s) h = h
step-Ended t m (checkpoints id s) h = h
step-Ended t m (adds n) h = h
step-Ended t m resumes h = ground (arith, h.0, h.1)
step-Ended t m cancels h = ((λ p. ground arith), (λ p. ground arith))
step-Ended t m reclaims h = h

-- A mission that has ended, whether completed, failed or cancelled, neither runs nor is paused after
-- any sequence of calls other than `start` and `pause`, and then it starts no task.
pub over_for_good :
    (to_string : ℕ → String) (m : Mission) (cs : List Call)
    → m.state ≢ MissionState.running
    → m.state ≢ MissionState.paused
    → Ended (run to_string m cs)
      × ((id : ℕ) → begin to_string (run to_string m cs) id ≡ (err not_running, run to_string m cs))
unfolding run begin
over_for_good t m [] r p = ((r, p), λ id. ground (arith, r))
over_for_good t m (c ∷ cs) r p =
    let next = step-Ended t m c (r, p) in over_for_good t (step t m c) cs next.0 next.1

-- `pause` and then `resume` set a cancelled mission running, and it offers again each task of its order
-- that is pending with its dependencies done.
pub pause_reopens :
    (m : Mission) (id : ℕ) (n : TaskNode)
    → m.state ≡ MissionState.cancelled
    → lookup id m.nodes ≡ some n
    → is_ready m n ≡ true
    → listed id m.order ≡ true
    → ((resume (pause m)).state ≡ MissionState.running)
      × (listed id (ready_tasks (resume (pause m))) ≡ true)
unfolding pause resume is_ready deps_satisfied
pause_reopens m id n c found r l =
    (refl, ground (arith, listed-ready_tasks (resume (pause m)) id refl))
