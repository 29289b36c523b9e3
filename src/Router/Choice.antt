-- ===== src/Router/Choice.antt =====
-- igris-router, `ModelRouter`: registration, statistics, scores and the choice of a provider.
use igrisv.Base.{
  ℕ, ◌+◌, ◌%◌, ◌^◌, String, Bool, false, not, ◌&&◌, Option, none, some, List, [], ◌∷◌, ◌++◌, map,
  ◌==◌, if◌then◌else◌, is_empty, keep, nat_key, string_key, lookup, insert, Result, ok, err, ◌⁀◌,
  same, sort_by, unwrap_or,
}
use igrisv.Router.{
  Double, class_index, is_local, route, budget_exceeded, no_stats, debug_privacy, debug_task,
  passes, ModelClass, RouterError, no_provider, RouteRequest, RouteStats, ModelInfo, Provider,
  RoutingPolicy, RoutingDecision, ModelRouter,
}

module _ (double : Double) where
  abbrev pub new : RoutingPolicy double.f64 → ModelRouter double.f64
  new limits = record { providers = []; order = []; stats_of = []; policy = limits }

  abbrev count_of : RouteStats → ℕ
  count_of s = (s.successes + s.failures) % 2 ^ 64

  unfoldable pub success_rate : RouteStats → double.f64
  success_rate s =
      if count_of s == 0
      then double.lit 50
      else double.over (double.of_nat s.successes) (double.of_nat (count_of s))

  unfoldable pub avg_latency_ms : RouteStats → double.f64
  avg_latency_ms s =
      if count_of s == 0
      then double.lit 0
      else double.over (double.of_nat s.total_latency_ms) (double.of_nat (count_of s))

  unfoldable pub register : ModelRouter double.f64 → Provider double.f64 → ModelRouter double.f64
  register r p = record r {
    order = elim (lookup p.info.id r.providers) [
      | none ↦ r.order ++ p.info.id ∷ []
      | some q ↦ r.order
    ];
    providers = insert p.info.id p r.providers;
  }

  unfoldable pub estimate_cost : ModelRouter double.f64 → String → ℕ → Option double.f64
  estimate_cost r id tokens = elim (lookup id r.providers) [
    | none ↦ none
    | some p ↦ some (
        double.over (double.times p.info.cost_per_1k_tokens (double.of_nat tokens))
          (double.lit 100000))
  ]

  abbrev noted : ℕ → Bool → RouteStats → RouteStats
  noted latency_ms success s = record {
    successes = if success then (s.successes + 1) % 2 ^ 64 else s.successes;
    failures = if success then s.failures else (s.failures + 1) % 2 ^ 64;
    total_latency_ms = (s.total_latency_ms + latency_ms) % 2 ^ 64;
  }

  unfoldable pub stats : ModelRouter double.f64 → String → RouteStats
  stats r id = unwrap_or no_stats (lookup id r.stats_of)

  unfoldable pub record_feedback :
      ModelRouter double.f64 → String → ℕ → Bool → ModelRouter double.f64
  unfolding stats
  record_feedback r id latency_ms success = record r {
    stats_of = insert id (noted latency_ms success (stats r id)) r.stats_of;
  }

  -- `f64` addition starts from 0.0; a term that does not apply is left out.
  unfoldable pub score :
      ModelRouter double.f64 → String → ModelInfo double.f64 → RouteRequest → double.f64
  score r id info req =
      let st = stats r id in
      let class_score =
        if class_index info.class == class_index (route req)
        then double.plus (double.lit 0) (double.lit 100)
        else double.lit 0 in
      let reliable = double.plus class_score (double.times (double.lit 60) (success_rate st)) in
      let fast =
        if double.less (double.lit 0) (avg_latency_ms st)
        then double.plus reliable
            (double.over (double.lit 10000) (double.plus (double.lit 10000) (avg_latency_ms st)))
        else reliable in
      if r.policy.prefer_local && is_local info.class
      then double.plus fast (double.lit 25)
      else fast

  unfoldable pub candidate :
      ModelRouter double.f64 → RouteRequest → String → Option (double.f64 × String)
  unfolding score
  candidate r req id = elim (lookup id r.providers) [
    | none ↦ none
    | some p ↦ if passes r.policy p req then some (score r id p.info req, id) else none
  ]

  -- `filter_map`
  unfoldable pub candidates :
      ModelRouter double.f64 → RouteRequest → List String → List (double.f64 × String)
  candidates r req [] = []
  candidates r req (id ∷ ids) =
      let rest = candidates r req ids in
      elim (candidate r req id) [ none ↦ rest | some c ↦ c ∷ rest ]

  unfoldable pub ranking : ModelRouter double.f64 → RouteRequest → List (double.f64 × String)
  ranking r req = sort_by (λ a b. double.less b.0 a.0) (candidates r req r.order)

  abbrev pub cost_of : ModelRouter double.f64 → ℕ → String → double.f64
  cost_of r tokens id = unwrap_or double.infinity (estimate_cost r id tokens)

  -- The first affordable entry of the ranking.
  unfoldable pub first_affordable :
      ModelRouter double.f64 → ℕ → List (double.f64 × String) → Option (double.f64 × String)
  first_affordable r tokens [] = none
  first_affordable r tokens (c ∷ cs) =
      let rest = first_affordable r tokens cs in
      if double.at_most (cost_of r tokens c.1) r.policy.max_cost_per_request then some c else rest

  abbrev cheapest :
      ModelRouter double.f64 → ℕ → double.f64 → List (double.f64 × String) → double.f64
  cheapest r tokens least [] = least
  cheapest r tokens least (c ∷ cs) =
      cheapest r tokens (double.minimum least (cost_of r tokens c.1)) cs

  -- The key by which the fallbacks are sorted.
  abbrev pub is_cloud : ModelRouter double.f64 → String → Bool
  is_cloud r id = elim (lookup id r.providers) [
    | none ↦ false
    | some p ↦ not (is_local p.info.class)
  ]

  unfoldable pub fallbacks_of :
      ModelRouter double.f64 → String → List (double.f64 × String) → List String
  fallbacks_of r best scored =
      sort_by (λ a b. not (is_cloud r a) && is_cloud r b)
        (keep (λ id. not (same id best)) (map (λ c. c.1) scored))

  unfoldable pub decision :
      ModelRouter double.f64
      → RouteRequest
      → ℕ
      → List (double.f64 × String)
      → double.f64 × String
      → RoutingDecision double.f64
  decision r req tokens scored best = record {
    provider_id = best.1;
    class = elim (lookup best.1 r.providers) [
      | none ↦ ModelClass.local_tiny
      | some p ↦ p.info.class
    ];
    reason =
        "score="
        ⁀ double.two_digits best.0
        ⁀ " privacy="
        ⁀ debug_privacy req.privacy
        ⁀ " task="
        ⁀ debug_task req.task;
    estimated_cost = unwrap_or (double.lit 0) (estimate_cost r best.1 tokens);
    fallbacks = fallbacks_of r best.1 scored;
  }

  unfoldable pub route_to :
      ModelRouter double.f64
      → RouteRequest
      → ℕ
      → Result (RouterError double.f64) (RoutingDecision double.f64)
  unfolding decision
  route_to r req tokens =
      let scored = ranking r req in
      if is_empty scored
      then err (no_provider "no provider satisfies privacy/network/capability gates")
      else elim (first_affordable r tokens scored) [
        | none ↦ err (
            budget_exceeded (cheapest r tokens double.infinity scored)
              r.policy.max_cost_per_request)
        | some best ↦ ok (decision r req tokens scored best)
      ]
