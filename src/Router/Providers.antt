-- ===== src/Router/Providers.antt =====
-- igris-router: the providers that the router has by default. The literals 0.002 and 0.01 of their
-- costs are parameters, and so is the environment.
use igrisv.Base.{
  ℕ, zero, suc, min, String, Bool, true, false, not, Option, none, some, if◌then◌else◌, Result, ok,
  err, ◌⁀◌, same,
}
use igrisv.Router.{
  Double, ModelInfo, local_tiny, local_small, fast_cloud, reasoning_cloud, RouterError, unavailable,
  Provider, RoutingPolicy, ModelRouter,
}
use igrisv.Router.Choice.{register, new}

-- `chars().take(n).collect()`
abbrev take_chars : ℕ → String → String
take_chars zero s = ""
take_chars (suc n) String.[] = ""
take_chars (suc n) (String.◌∷◌ c s) = String.◌∷◌ c (take_chars n s)

abbrev is_set : (String → Option String) → String → Bool
is_set env key = elim (env key) [ none ↦ false | some v ↦ not (same v "") ]

-- `generate` of the local providers.
unfoldable pub echo : {F : Type 0} → ModelInfo F → String → ℕ → Result (RouterError F) String
echo info prompt max_tokens = ok ("[" ⁀ info.id ⁀ "] " ⁀ take_chars (min max_tokens 256) prompt)

-- `generate` of the cloud stubs.
unfoldable pub stub :
    {F : Type 0}
    → (String → Option String)
    → String
    → ModelInfo F
    → String
    → ℕ
    → Result (RouterError F) String
stub env env_key info prompt max_tokens =
    if is_set env env_key
    then err (unavailable (info.id ⁀ ": transport not wired (model-service)"))
    else err (unavailable (info.id ⁀ ": missing " ⁀ env_key))

module _ (double : Double) where
  abbrev pub tiny : Provider double.f64
  tiny = record {
    info = record {
      id = "local-tiny";
      class = local_tiny;
      max_context_tokens = 2048;
      cost_per_1k_tokens = double.lit 0;
      supports_vision = false;
      supports_reasoning = false;
    };
    is_available = true;
  }

  abbrev pub small : Provider double.f64
  small = record {
    info = record {
      id = "local-small";
      class = local_small;
      max_context_tokens = 8192;
      cost_per_1k_tokens = double.lit 0;
      supports_vision = false;
      supports_reasoning = true;
    };
    is_available = true;
  }

  module _ (env : String → Option String) where
    abbrev pub fast : double.f64 → String → Provider double.f64
    fast cost env_key = record {
      info = record {
        id = "fast-cloud";
        class = fast_cloud;
        max_context_tokens = 32000;
        cost_per_1k_tokens = cost;
        supports_vision = false;
        supports_reasoning = true;
      };
      is_available = is_set env env_key;
    }

    abbrev pub reasoning : double.f64 → String → Provider double.f64
    reasoning cost env_key = record {
      info = record {
        id = "reasoning-cloud";
        class = reasoning_cloud;
        max_context_tokens = 128000;
        cost_per_1k_tokens = cost;
        supports_vision = false;
        supports_reasoning = true;
      };
      is_available = is_set env env_key;
    }

    abbrev pub default_policy : RoutingPolicy double.f64
    default_policy = record {
      prefer_local = true;
      allow_cloud = true;
      max_cost_per_request = double.lit 100;
    }

    unfoldable pub with_defaults : double.f64 → double.f64 → ModelRouter double.f64
    with_defaults fast_cost reasoning_cost =
        register double
          (register double
            (register double (register double (new double default_policy) tiny) small)
            (fast fast_cost "IGRIS_CLOUD_API_KEY"))
          (reasoning reasoning_cost "IGRIS_CLOUD_API_KEY")
