-- ===== src/Router/Tests.antt =====
-- igris-router on a local and a cloud provider, with hundredths for `f64`.
use igrisv.Base.{
  ℕ, ◌+◌, ◌*◌, ◌/◌, ◌<◌, min, ◌≡◌, refl, ◌≢◌, ◌↔◌, ◌⊎◌, true, false, some, [], ltb, leb,
  String_discrete, none, ok, all, nat_key, string_key, lookup, insert, err, decimal, sort_by,
}
use igrisv.Router.{
  RouteRequest, needs_network, route, passes, PrivacyLevel, TaskType, ModelClass, no_provider,
  unavailable, Double, Provider, RoutingPolicy, RoutingDecision, ModelRouter,
}
use igrisv.Router.Choice.{
  route_to, new, success_rate, avg_latency_ms, register, estimate_cost, stats, candidate,
  candidates, ranking, cost_of, first_affordable, fallbacks_of, decision, score,
}
use igrisv.Router.Providers
use igrisv.Router.Providers.{tiny, stub}
use igrisv.Router.Gates.{route_to_gates, route_network_iff, Admitted, opens}

abbrev hundredths : Double
hundredths = record {
  f64 = ℕ;
  lit = λ n. n;
  infinity = 1000000;
  of_nat = λ n. n * 100;
  plus = λ a b. a + b;
  times = λ a b. a * b / 100;
  over = λ a b. a * 100 / b;
  minimum = min;
  less = ltb;
  at_most = leb;
  two_digits = decimal;
}

abbrev echo : Provider ℕ
echo = record {
  info = record {
    id = "local-tiny";
    class = ModelClass.local_tiny;
    max_context_tokens = 4096;
    cost_per_1k_tokens = 0;
    supports_vision = false;
    supports_reasoning = false;
  };
  is_available = true;
}

abbrev cloud : Provider ℕ
cloud = record {
  info = record {
    id = "fast-cloud";
    class = ModelClass.fast_cloud;
    max_context_tokens = 128000;
    cost_per_1k_tokens = 20;
    supports_vision = true;
    supports_reasoning = true;
  };
  is_available = true;
}

abbrev limits : RoutingPolicy ℕ
limits = record { prefer_local = true; allow_cloud = true; max_cost_per_request = 100 }

abbrev two : ModelRouter ℕ
two = register hundredths (register hundredths (new hundredths limits) echo) cloud

abbrev code_task : RouteRequest
code_task = record {
  privacy = PrivacyLevel.internal;
  task = TaskType.coding;
  needs_vision = false;
  needs_reasoning = false;
  network_up = true;
}

-- A secret request that needs vision has no provider here, and offline the route still needs the network.
secret_vision_refused :
    route_to hundredths two
      (record code_task { privacy = PrivacyLevel.secret; needs_vision = true })
      10
    ≡ err (no_provider "no provider satisfies privacy/network/capability gates")
unfolding route_to ranking candidates candidate register insert lookup passes sort_by
    String_discrete
secret_vision_refused = refl

offline_vision :
    route (record code_task { needs_vision = true; network_up = false }) ≡ ModelClass.vision
unfolding route
offline_vision = refl

route_network_iff_example : (needs_network (route code_task) ≡ true) ↔ (
    (1 < 2)
    × ((false ≡ true)
        ⊎ ((true ≡ true)
            × ((TaskType.coding ≢ TaskType.simple) × (TaskType.coding ≢ TaskType.speech)))))
route_network_iff_example = route_network_iff code_task

abbrev secret_task : RouteRequest
secret_task = record code_task { privacy = PrivacyLevel.secret }

abbrev answer : RoutingDecision ℕ
answer = record {
  provider_id = "local-tiny";
  class = ModelClass.local_tiny;
  reason = "score=155 privacy=Secret task=Coding";
  estimated_cost = 0;
  fallbacks = [];
}

route_to_gates_example :
    ((p : Provider ℕ) × (lookup "local-tiny" two.providers ≡ some p)
      × Admitted two.policy p secret_task)
    × (leb (cost_of hundredths two 10 "local-tiny") 100 ≡ true)
    × (all (opens hundredths two secret_task) [] ≡ true)
unfolding route_to ranking candidates candidate register insert lookup passes sort_by
    String_discrete decision score route success_rate avg_latency_ms stats first_affordable
    estimate_cost fallbacks_of
route_to_gates_example = route_to_gates hundredths two secret_task 10 answer refl

cut_short : Providers.echo (tiny hundredths).info "hello" 3 ≡ ok "[local-tiny] hel"
unfolding Providers.echo
cut_short = refl

key_missing :
    stub (λ k. none) "IGRIS_CLOUD_API_KEY" (tiny hundredths).info "hello" 3
    ≡ err (unavailable "local-tiny: missing IGRIS_CLOUD_API_KEY")
unfolding stub String_discrete
key_missing = refl
