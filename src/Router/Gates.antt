-- ===== src/Router/Gates.antt =====
-- igris-router: no route around the gates.
use igrisv.Base.{
  ℕ, ◌<◌, String, ◌≡◌, refl, ◌∙◌, ◌≢◌, ◌↔◌, ◌⊎◌, inl, inr, Bool, true, false, ◌&&◌, none, some,
  List, [], ◌∷◌, map, arith, Option-cases, all, keep, nat_key, string_key, lookup, not, Bool-cases,
  ok, same, all-sort_by, all-keep,
}
use igrisv.Router.{
  RouteRequest, privacy_index, class_index, needs_network, by_task, route, passes, TaskType, Double,
  Provider, RoutingPolicy, ModelRouter, RoutingDecision,
}
use igrisv.Router.Choice.{
  route_to, candidate, candidates, first_affordable, ranking, cost_of, is_cloud, fallbacks_of,
  decision,
}

by_task-network :
    (t : TaskType) (reasoning : Bool)
    → (needs_network (by_task t reasoning) ≡ true) ↔ ((t ≢ TaskType.simple) × (t ≢ TaskType.speech))
by_task-network TaskType.simple b = ((λ h. absurd (ground arith)), (λ h. absurd (h.0 refl)))
by_task-network TaskType.speech b = ((λ h. absurd (ground arith)), (λ h. absurd (h.1 refl)))
by_task-network TaskType.complex b =
    ((λ h. ((λ e. ground arith), (λ e. ground arith))), (λ h. ground arith))
by_task-network TaskType.coding b =
    ((λ h. ((λ e. ground arith), (λ e. ground arith))), (λ h. ground arith))
by_task-network TaskType.creative b =
    ((λ h. ((λ e. ground arith), (λ e. ground arith))), (λ h. refl))
by_task-network TaskType.vision b = ((λ h. ((λ e. ground arith), (λ e. ground arith))), (λ h. refl))

-- The static route needs the network exactly if the request is public or internal, and either needs
-- vision, or the network is up and the task is neither simple nor speech.
pub route_network_iff :
    (req : RouteRequest)
    → (needs_network (route req) ≡ true) ↔ (
        (privacy_index req.privacy < 2)
        × ((req.needs_vision ≡ true)
            ⊎ ((req.network_up ≡ true)
                × ((req.task ≢ TaskType.simple) × (req.task ≢ TaskType.speech)))))
unfolding route
route_network_iff req =
    let tasks = by_task-network req.task req.needs_reasoning in
    (
      (λ h. (
        ground arith,
        elim (Bool-cases req.needs_vision) [
          | inl y ↦ inl y
          | inr n ↦ inr (ground arith, tasks.0 (ground arith))
        ],
      )),
      (λ h. elim h.1 [
        | inl y ↦ ground (arith, h.0)
        | inr n ↦ ground (arith, h.0, n.0, tasks.1 n.1)
      ]),
    )

-- What a provider must satisfy to serve a request under a policy: it is available; one that needs the
-- network serves only a public or internal request, if the policy allows the cloud and the network is
-- up; it has vision where that is needed, and reasoning where that is needed, unless it is tiny.
abbrev pub Admitted : {F : Type 0} → RoutingPolicy F → Provider F → RouteRequest → Type 0
Admitted limits p req =
    (p.is_available ≡ true)
    × (needs_network p.info.class ≡ true
        → (privacy_index req.privacy < 2) × (limits.allow_cloud ≡ true) × (req.network_up ≡ true))
    × (req.needs_vision ≡ true → p.info.supports_vision ≡ true)
    × (req.needs_reasoning ≡ true
        → (p.info.supports_reasoning ≡ true) ⊎ (class_index p.info.class ≡ 0))

passes-Admitted :
    {F : Type 0} (limits : RoutingPolicy F) (p : Provider F) (req : RouteRequest)
    → passes limits p req ≡ true
    → Admitted limits p req
unfolding passes
passes-Admitted limits p req h = (
  ground arith,
  (λ e. (ground arith, ground arith, ground arith)),
  (λ e. ground arith),
  (λ e. ground arith),
)

module _ (double : Double) where
  -- Whether the provider of an id is registered and passes the gates.
  abbrev pub opens : ModelRouter double.f64 → RouteRequest → String → Bool
  opens r req id = elim (lookup id r.providers) [ none ↦ false | some p ↦ passes r.policy p req ]

  opens-Admitted :
      (r : ModelRouter double.f64) (req : RouteRequest) (id : String)
      → opens r req id ≡ true
      → (p : Provider double.f64) × (lookup id r.providers ≡ some p) × Admitted r.policy p req
  opens-Admitted r req id h = elim (Option-cases (lookup id r.providers)) [
    | inl n ↦ absurd (ground arith)
    | inr f ↦ (f.0, f.1, passes-Admitted r.policy f.0 req (ground arith))
  ]

  candidate-opens :
      (r : ModelRouter double.f64) (req : RouteRequest) (id : String) (c : double.f64 × String)
      → candidate double r req id ≡ some c
      → opens r req c.1 ≡ true
  unfolding candidate
  candidate-opens r req id c h = ground arith

  all-candidates :
      (r : ModelRouter double.f64) (req : RouteRequest) (ids : List String)
      → all (λ c. opens r req c.1) (candidates double r req ids) ≡ true
  unfolding candidates
  all-candidates r req [] = refl
  all-candidates r req (id ∷ ids) = elim (Option-cases (candidate double r req id)) [
    | inl n ↦ ground (arith, all-candidates r req ids)
    | inr f ↦ ground (arith, all-candidates r req ids, candidate-opens r req id f.0 f.1)
  ]

  first_affordable_lem :
      (r : ModelRouter double.f64) (tokens : ℕ) (p : double.f64 × String → Bool)
      (cs : List (double.f64 × String)) (b : double.f64 × String)
      → all p cs ≡ true
      → first_affordable double r tokens cs ≡ some b
      → (p b ≡ true)
        × (double.at_most (cost_of double r tokens b.1) r.policy.max_cost_per_request ≡ true)
  unfolding first_affordable
  first_affordable_lem r tokens p [] b h e = absurd (ground arith)
  first_affordable_lem r tokens p (c ∷ cs) b h e =
      ground (arith, first_affordable_lem r tokens p cs b)

  all-second :
      (p : String → Bool) (cs : List (double.f64 × String))
      → all (λ c. p c.1) cs ≡ true
      → all p (map (λ c. c.1) cs) ≡ true
  all-second p [] h = refl
  all-second p (c ∷ cs) h = ground (arith, all-second p cs)

  ranking-opens :
      (r : ModelRouter double.f64) (req : RouteRequest)
      → all (λ c. opens r req c.1) (ranking double r req) ≡ true
  unfolding ranking
  ranking-opens r req =
      all-sort_by (λ c. opens r req c.1) (λ a b. double.less b.0 a.0)
        (candidates double r req r.order)
      ∙ all-candidates r req r.order

  fallbacks-opens :
      (r : ModelRouter double.f64) (req : RouteRequest) (best : String)
      → all (opens r req) (fallbacks_of double r best (ranking double r req)) ≡ true
  unfolding fallbacks_of
  fallbacks-opens r req best =
      let ids = map (λ c. c.1) (ranking double r req) in
      let kept = keep (λ id. not (same id best)) ids in
      all-sort_by (opens r req) (λ a b. not (is_cloud double r a) && is_cloud double r b) kept
      ∙ all-keep (opens r req) (λ id. not (same id best)) ids
          (all-second (opens r req) (ranking double r req) (ranking-opens r req))

  chosen :
      (r : ModelRouter double.f64) (req : RouteRequest) (tokens : ℕ)
      (d : RoutingDecision double.f64)
      → route_to double r req tokens ≡ ok d
      → (best : double.f64 × String) × (first_affordable double r tokens (ranking double r req)
          ≡ some best)
        × (d ≡ decision double r req tokens (ranking double r req) best)
  unfolding route_to
  chosen r req tokens d h =
      elim (Option-cases (first_affordable double r tokens (ranking double r req))) [
        | inl n ↦ absurd (ground arith)
        | inr f ↦ (f.0, f.1, ground arith)
      ]

  -- A routed request goes to a registered provider that is admitted for it and whose cost is within the
  -- policy's limit, and every fallback is registered and passes the gates too.
  pub route_to_gates :
      (r : ModelRouter double.f64) (req : RouteRequest) (tokens : ℕ)
      (d : RoutingDecision double.f64)
      → route_to double r req tokens ≡ ok d
      → ((p : Provider double.f64) × (lookup d.provider_id r.providers ≡ some p)
          × Admitted r.policy p req)
        × (double.at_most (cost_of double r tokens d.provider_id) r.policy.max_cost_per_request
            ≡ true)
        × (all (opens r req) d.fallbacks ≡ true)
  unfolding decision
  route_to_gates r req tokens d h =
      let c = chosen r req tokens d h in
      let facts =
        first_affordable_lem r tokens (λ x. opens r req x.1) (ranking double r req) c.0
          (ranking-opens r req) c.1 in
      rw c.2 (opens-Admitted r req c.0.1 facts.0, facts.1, fallbacks-opens r req c.0.1)
