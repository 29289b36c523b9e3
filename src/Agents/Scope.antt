-- ===== src/Agents/Scope.antt =====
-- igris-agents: no plan leaves its role's scope.
use text.Mathlib.TextEquality.{eq_iff}
use igrisv.Base.{
  String, ◌≡◌, refl, ◌≢◌, ◌↔◌, ◌⊎◌, inl, inr, true, false, none, some, List, [], ◌∷◌, arith,
  Bool-cases, any, all, Each, ok, err, same, has, is_blank,
}
use igrisv.Agents.{
  AgentRole, all_roles, can_use, can_delegate, plan_for, out_of_scope, execute_task, can_handoff,
  tool_not_in_scope, AgentDef, AgentTask, AgentResult, AgentContext, planner_def, coder_def,
  researcher_def, developer_def, devops_def, communicator_def, assistant_def, summary,
}

out_of_scope-all :
    (def : AgentDef) (ts : List String)
    → (out_of_scope def ts ≡ none) ↔ (all (can_use def) ts ≡ true)
out_of_scope-all def [] = ((λ h. refl), (λ h. refl))
out_of_scope-all def (t ∷ ts) =
    let rest = out_of_scope-all def ts in
    ((λ h. ground (arith, rest.0)), (λ h. ground (arith, rest.1)))

out_of_scope-can_use :
    (def : AgentDef) (ts : List String) (t : String)
    → out_of_scope def ts ≡ some t
    → (can_use def t ≡ false) × (any (λ x. same x t) ts ≡ true)
out_of_scope-can_use def [] t h = absurd (ground (arith, h))
out_of_scope-can_use def (x ∷ ts) t h = elim (Bool-cases (can_use def x)) [
  | inl u ↦ let rest = out_of_scope-can_use def ts t in ground (arith, rest)
  | inr n ↦ ground (arith, eq_iff x t)
]

abbrev result_of : AgentDef → AgentTask → AgentResult
result_of def task = record {
  success = true;
  output = summary def (plan_for def.role task);
  error = none;
  steps = plan_for def.role task;
}

steps_lem :
    (def : AgentDef) (task : AgentTask) (ctx : AgentContext) (r : AgentResult)
    → execute_task def task ctx ≡ ok r
    → r.steps ≡ plan_for def.role task
unfolding execute_task
steps_lem def task ctx r h = ground arith

-- A task is executed exactly if its description is not blank and each tool it asks for is in the
-- agent's scope; the result is the plan of the agent's role, without an error. A tool that an error
-- names was asked for and is out of scope.
pub execute_task_iff :
    (def : AgentDef) (task : AgentTask) (ctx : AgentContext)
    → (((is_blank task.description ≡ false) × (all (can_use def) task.requested_tools ≡ true))
        → (r : AgentResult) × (execute_task def task ctx ≡ ok r)
          × (r.steps ≡ plan_for def.role task)
          × (r.error ≡ none))
      × ((r : AgentResult)
          → execute_task def task ctx ≡ ok r
          → (is_blank task.description ≡ false) × (all (can_use def) task.requested_tools ≡ true))
      × ((t : String)
          → execute_task def task ctx ≡ err (tool_not_in_scope t)
          → (can_use def t ≡ false) × (has t task.requested_tools ≡ true))
unfolding execute_task
execute_task_iff def task ctx =
    let scope = out_of_scope-all def task.requested_tools in
    (
      (λ h. (result_of def task, ground (arith, scope.1), refl, refl)),
      (λ r h. (ground arith, ground (arith, scope.0))),
      (λ t h. out_of_scope-can_use def task.requested_tools t (ground arith)),
    )

seven_roles :
    (P : AgentDef → Type 0)
    → P planner_def
    → P coder_def
    → P researcher_def
    → P developer_def
    → P devops_def
    → P communicator_def
    → P assistant_def
    → Each P all_roles
seven_roles P a b c d e f g = (a, (b, (c, (d, (e, (f, (g, tt)))))))

-- What the agent's plans use is in its scope.
abbrev KeepsScope : AgentDef → Type 0
KeepsScope def =
    (task : AgentTask) (ctx : AgentContext) (r : AgentResult)
    → execute_task def task ctx ≡ ok r
    → all (λ s. can_use def s.tool) r.steps ≡ true

in_scope :
    (def : AgentDef)
    → ((task : AgentTask) → all (λ s. can_use def s.tool) (plan_for def.role task) ≡ true)
    → KeepsScope def
in_scope def h task ctx r e = rw (steps_lem def task ctx r e) (h task)

-- The plan of each built-in role uses the tools of that role only, whatever the task asks.
pub plans_in_scope : Each KeepsScope all_roles
unfolding plan_for can_use
plans_in_scope =
    seven_roles KeepsScope (in_scope planner_def (λ t. refl)) (in_scope coder_def (λ t. refl))
      (in_scope researcher_def (λ t. refl)) (in_scope developer_def (λ t. refl))
      (in_scope devops_def (λ t. refl)) (in_scope communicator_def (λ t. refl))
      (in_scope assistant_def (λ t. refl))

-- What the agent hands over comes from a planner or an assistant and goes to another role.
abbrev Coordinates : AgentDef → Type 0
Coordinates def =
    (to_role : AgentRole) (reason : String)
    → can_handoff def to_role reason ≡ true
    → ((def.role ≡ AgentRole.planner) ⊎ (def.role ≡ AgentRole.assistant)) × (def.role ≢ to_role)

ne_role :
    (def : AgentDef) (to_role : AgentRole) (reason : String)
    → can_handoff def to_role reason ≡ true
    → def.role ≢ to_role
unfolding can_handoff
ne_role def to_role reason h e = ground (arith, e)

-- Of the built-in roles only the planner and the assistant hand work over, and never to their own role.
pub handoffs_from_coordinators : Each Coordinates all_roles
unfolding can_handoff can_delegate
handoffs_from_coordinators =
    seven_roles Coordinates (λ to r h. (inl refl, ne_role planner_def to r h))
      (λ to r h. absurd (ground arith)) (λ to r h. absurd (ground arith))
      (λ to r h. absurd (ground arith)) (λ to r h. absurd (ground arith))
      (λ to r h. absurd (ground arith)) (λ to r h. (inr refl, ne_role assistant_def to r h))
