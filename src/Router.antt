-- ===== src/Router.antt =====
-- crates/igris-router/src/lib.rs: the static route of a request, and the choice among the registered
-- providers. `f64` is a parameter, and a provider is its description and whether it is available; the
-- scores are taken to be numbers, for which the standard sort is that of insertion.
pub mod Choice
pub mod Providers
pub mod Gates
pub mod Tests
use igrisv.Base.{
  ℕ, String, Bool, true, false, not, ◌&&◌, ◌||◌, Option, none, some, List, leb, ◌==◌, if◌then◌else◌,
  Assoc,
}

pub data PrivacyLevel : Type 0 where
  public internal confidential secret : PrivacyLevel

-- The derived order.
abbrev pub privacy_index : PrivacyLevel → ℕ
privacy_index public = 0
privacy_index internal = 1
privacy_index confidential = 2
privacy_index secret = 3

pub data TaskType : Type 0 where
  simple complex coding creative speech vision : TaskType

pub data ModelClass : Type 0 where
  local_tiny local_small fast_cloud reasoning_cloud vision speech embedding : ModelClass

-- The derived `==`.
abbrev pub class_index : ModelClass → ℕ
class_index ModelClass.local_tiny = 0
class_index ModelClass.local_small = 1
class_index ModelClass.fast_cloud = 2
class_index ModelClass.reasoning_cloud = 3
class_index ModelClass.vision = 4
class_index ModelClass.speech = 5
class_index ModelClass.embedding = 6

abbrev pub needs_network : ModelClass → Bool
needs_network ModelClass.fast_cloud = true
needs_network ModelClass.reasoning_cloud = true
needs_network ModelClass.vision = true
needs_network _ = false

abbrev pub is_local : ModelClass → Bool
is_local c = not (needs_network c)

pub record RouteRequest : Type 0 where
  pub privacy : PrivacyLevel
  pub task : TaskType
  pub needs_vision : Bool
  pub needs_reasoning : Bool
  pub network_up : Bool

-- The `match` at the end of `route`.
abbrev by_task : TaskType → Bool → ModelClass
by_task TaskType.simple reasoning = ModelClass.local_tiny
by_task TaskType.speech reasoning = ModelClass.local_tiny
by_task TaskType.coding reasoning =
    if reasoning then ModelClass.reasoning_cloud else ModelClass.fast_cloud
by_task TaskType.complex reasoning =
    if reasoning then ModelClass.reasoning_cloud else ModelClass.fast_cloud
by_task TaskType.creative reasoning = ModelClass.fast_cloud
by_task TaskType.vision reasoning = ModelClass.vision

unfoldable pub route : RouteRequest → ModelClass
route req =
    if privacy_index req.privacy == 3 || privacy_index req.privacy == 2
    then (if req.needs_reasoning then ModelClass.local_small else ModelClass.local_tiny)
    else if req.needs_vision
    then ModelClass.vision
    else if not req.network_up
    then ModelClass.local_small
    else by_task req.task req.needs_reasoning

-- What the code uses of `f64`; `lit n` is the literal of `n` hundredths.
pub record Double : Type 1 where
  pub f64 : Type 0
  pub lit : ℕ → f64
  pub infinity : f64
  pub of_nat : ℕ → f64
  pub plus : f64 → f64 → f64
  pub times : f64 → f64 → f64
  pub over : f64 → f64 → f64
  pub minimum : f64 → f64 → f64
  pub less : f64 → f64 → Bool
  pub at_most : f64 → f64 → Bool
  pub two_digits : f64 → String

pub data RouterError (F : Type 0) : Type 0 where
  no_provider unavailable : String → RouterError F
  budget_exceeded : F → F → RouterError F

pub record RouteStats : Type 0 where
  pub successes : ℕ
  pub failures : ℕ
  pub total_latency_ms : ℕ

abbrev pub no_stats : RouteStats
no_stats = record { successes = 0; failures = 0; total_latency_ms = 0 }

pub record ModelInfo (F : Type 0) : Type 0 where
  pub id : String
  pub class : ModelClass
  pub max_context_tokens : ℕ
  pub cost_per_1k_tokens : F
  pub supports_vision : Bool
  pub supports_reasoning : Bool

pub record Provider (F : Type 0) : Type 0 where
  pub info : ModelInfo F
  pub is_available : Bool

pub record RoutingPolicy (F : Type 0) : Type 0 where
  pub prefer_local : Bool
  pub allow_cloud : Bool
  pub max_cost_per_request : F

pub record RoutingDecision (F : Type 0) : Type 0 where
  pub provider_id : String
  pub class : ModelClass
  pub reason : String
  pub estimated_cost : F
  pub fallbacks : List String

pub record ModelRouter (F : Type 0) : Type 0 where
  pub providers : Assoc String (Provider F)
  pub order : List String
  pub stats_of : Assoc String RouteStats
  pub policy : RoutingPolicy F

-- The derived `Debug` of the two enums.
abbrev debug_privacy : PrivacyLevel → String
debug_privacy public = "Public"
debug_privacy internal = "Internal"
debug_privacy confidential = "Confidential"
debug_privacy secret = "Secret"

abbrev debug_task : TaskType → String
debug_task TaskType.simple = "Simple"
debug_task TaskType.complex = "Complex"
debug_task TaskType.coding = "Coding"
debug_task TaskType.creative = "Creative"
debug_task TaskType.speech = "Speech"
debug_task TaskType.vision = "Vision"

-- The gates of `candidate`.
unfoldable pub passes : {F : Type 0} → RoutingPolicy F → Provider F → RouteRequest → Bool
passes limits p req =
    if not p.is_available
    then false
    else if leb 2 (privacy_index req.privacy) && not (is_local p.info.class)
    then false
    else if not limits.allow_cloud && not (is_local p.info.class)
    then false
    else if needs_network p.info.class && not req.network_up
    then false
    else if req.needs_vision && not p.info.supports_vision
    then false
    else if req.needs_reasoning && not p.info.supports_reasoning
    then class_index p.info.class == 0
    else true
