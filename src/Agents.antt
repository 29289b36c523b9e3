-- ===== src/Agents.antt =====
-- crates/igris-agents/src/lib.rs: the roles, what each may use, and the plan a task gets.
pub mod A2a
pub mod Scope
pub mod Tests
use igrisv.Base.{
  ℕ, String, Bool, true, not, ◌&&◌, Option, none, some, List, [], ◌∷◌, map, ltb, ◌==◌,
  if◌then◌else◌, length, Result, ok, err, ◌⁀◌, has, is_blank, join, decimal,
}

pub data AgentRole : Type 0 where
  planner coder researcher developer dev_ops communicator assistant : AgentRole

abbrev pub as_str : AgentRole → String
as_str AgentRole.planner = "planner"
as_str AgentRole.coder = "coder"
as_str AgentRole.researcher = "researcher"
as_str AgentRole.developer = "developer"
as_str AgentRole.dev_ops = "devops"
as_str AgentRole.communicator = "communicator"
as_str AgentRole.assistant = "assistant"

-- The derived `==`.
abbrev role_index : AgentRole → ℕ
role_index AgentRole.planner = 0
role_index AgentRole.coder = 1
role_index AgentRole.researcher = 2
role_index AgentRole.developer = 3
role_index AgentRole.dev_ops = 4
role_index AgentRole.communicator = 5
role_index AgentRole.assistant = 6

abbrev pub role_eq : AgentRole → AgentRole → Bool
role_eq a b = role_index a == role_index b

pub record AgentDef : Type 0 where
  pub name : String
  pub role : AgentRole
  pub capabilities : List String
  pub allowed_tools : List String
  pub tier : ℕ
  pub max_iterations : ℕ
  pub system_prompt : String

abbrev base : AgentRole → List String → List String → ℕ → ℕ → String → AgentDef
base role capabilities allowed_tools tier max_iterations system_prompt = record {
  name = as_str role;
  role = role;
  capabilities = capabilities;
  allowed_tools = allowed_tools;
  tier = tier;
  max_iterations = max_iterations;
  system_prompt = system_prompt;
}

abbrev pub planner_def : AgentDef
planner_def =
    base AgentRole.planner ("decompose_goal" ∷ "order_tasks" ∷ "estimate_risk" ∷ [])
      ("memory_search" ∷ []) 1 5
      "Decompose goals into ordered, verifiable steps. Never execute tools directly."

abbrev pub coder_def : AgentDef
coder_def =
    base AgentRole.coder ("read_repository" ∷ "modify_source" ∷ "run_tests" ∷ [])
      ("filesystem" ∷ "terminal" ∷ []) 2 20
      "Read before writing. Smallest diff that satisfies the task. Run tests."

abbrev pub researcher_def : AgentDef
researcher_def =
    base AgentRole.researcher ("web_read" ∷ "compare" ∷ "summarize" ∷ []) ("browser" ∷ []) 2 10
      "Cite sources. Compare alternatives. No side effects."

abbrev pub developer_def : AgentDef
developer_def =
    base AgentRole.developer ("scaffold_project" ∷ "install_deps" ∷ "build" ∷ "package" ∷ [])
      ("filesystem" ∷ "terminal" ∷ []) 2 15 "Reproducible builds. Pin versions. Verify artifacts."

abbrev pub devops_def : AgentDef
devops_def =
    base AgentRole.dev_ops ("build_image" ∷ "deploy" ∷ "monitor" ∷ "rollback" ∷ [])
      ("terminal" ∷ "docker" ∷ []) 2 15
      "Never deploy without a rollback plan. Confirm destructive ops."

abbrev pub communicator_def : AgentDef
communicator_def =
    base AgentRole.communicator ("draft_message" ∷ "summarize_thread" ∷ "schedule_reminder" ∷ [])
      ("messaging" ∷ "memory_search" ∷ []) 2 5
      "Drafts only. External sends always require user approval."

abbrev pub assistant_def : AgentDef
assistant_def =
    base AgentRole.assistant
      ("greet_user" ∷ "clarify_intent" ∷ "delegate_task" ∷ "present_results" ∷ [])
      ("memory_search" ∷ "messaging" ∷ []) 1 10
      ("You are the user's front door. Clarify vague requests, load user context, "
        ⁀ "then hand work to the orchestrator with a crisp intent — never execute "
        ⁀ "worker tools yourself. Present results back conversationally.")

abbrev pub all_roles : List AgentDef
all_roles =
    planner_def ∷ coder_def ∷ researcher_def ∷ developer_def ∷ devops_def ∷ communicator_def
    ∷ assistant_def ∷ []

unfoldable pub can_use : AgentDef → String → Bool
can_use def tool = has tool def.allowed_tools

unfoldable pub supports : AgentDef → String → Bool
supports def capability = has capability def.capabilities

unfoldable pub can_delegate : AgentDef → Bool
can_delegate def = ltb def.tier 2

pub data AgentError : Type 0 where
  tool_not_in_scope unknown_role : String → AgentError
  empty_task : AgentError

pub record AgentTask : Type 0 where
  pub id : ℕ
  pub description : String
  pub input : String
  pub requested_tools : List String

-- `AgentTask::new`, with the fresh id.
abbrev pub new_task : ℕ → String → String → List String → AgentTask
new_task id description input requested_tools = record {
  id = id;
  description = description;
  input = input;
  requested_tools = requested_tools;
}

pub record PlanStep : Type 0 where
  pub tool : String
  pub args_hint : String
  pub description : String

pub record AgentResult : Type 0 where
  pub success : Bool
  pub output : String
  pub error : Option String
  pub steps : List PlanStep

-- The context's tools are never read.
pub record AgentContext : Type 0 where
  pub available_tools : List String

abbrev pub step : String → String → String → PlanStep
step tool args_hint description = record {
  tool = tool;
  args_hint = args_hint;
  description = description;
}

unfoldable pub plan_for : AgentRole → AgentTask → List PlanStep
plan_for AgentRole.planner task =
    step "memory_search" task.input "gather relevant context"
    ∷ step "memory_search" task.input "decompose goal into ordered steps"
    ∷ step "memory_search" task.input "attach verification criteria"
    ∷ []
plan_for AgentRole.coder task =
    step "filesystem" task.input "read relevant sources"
    ∷ step "filesystem" task.input "apply minimal diff"
    ∷ step "terminal" "cargo test" "run tests"
    ∷ []
plan_for AgentRole.researcher task =
    step "browser" task.input "read primary sources"
    ∷ step "browser" task.input "compare alternatives and summarize"
    ∷ []
plan_for AgentRole.developer task =
    step "filesystem" task.input "scaffold project layout"
    ∷ step "terminal" "install + build" "install deps and build"
    ∷ step "terminal" "verify artifact" "verify packaged artifact"
    ∷ []
plan_for AgentRole.dev_ops task =
    step "terminal" "build image" "build container image"
    ∷ step "docker" task.input "deploy with rollback plan"
    ∷ step "terminal" "health check" "verify health post-deploy"
    ∷ []
plan_for AgentRole.communicator task =
    step "memory_search" task.input "load tone and thread context"
    ∷ step "messaging" task.input "draft message (approval required to send)"
    ∷ []
plan_for AgentRole.assistant task =
    step "memory_search" task.input "load user context and preferences"
    ∷ step "memory_search" task.input "clarify intent into a crisp task"
    ∷ step "messaging" task.input "hand off to orchestrator for routing to workers"
    ∷ step "messaging" task.input "present results back to the user"
    ∷ []

-- The loop over the requested tools: the first that is out of scope.
abbrev pub out_of_scope : AgentDef → List String → Option String
out_of_scope def [] = none
out_of_scope def (t ∷ ts) = if not (can_use def t) then some t else out_of_scope def ts

abbrev summary : AgentDef → List PlanStep → String
summary def steps =
    def.name
    ⁀ " plan ("
    ⁀ decimal (length steps)
    ⁀ " steps): "
    ⁀ join " → " (map (λ s. s.description) steps)

unfoldable pub execute_task : AgentDef → AgentTask → AgentContext → Result AgentError AgentResult
execute_task def task ctx =
    if is_blank task.description
    then err empty_task
    else elim (out_of_scope def task.requested_tools) [
      | some t ↦ err (tool_not_in_scope t)
      | none ↦ ok record {
        success = true;
        output = summary def (plan_for def.role task);
        error = none;
        steps = plan_for def.role task;
      }
    ]

unfoldable pub can_handoff : AgentDef → AgentRole → String → Bool
can_handoff from to_role reason =
    can_delegate from && not (role_eq from.role to_role) && not (is_blank reason)
