-- ===== src/Agents/Tests.antt =====
-- igris-agents on concrete inputs.
use Prim.Native.String.{len}
use igrisv.Base.{ℕ, String, ◌≡◌, refl, true, none, [], ◌∷◌, ok, err}
use igrisv.Agents.{
  AgentRole, coder_def, researcher_def, can_use, empty_task, new_task, plan_for, execute_task,
  tool_not_in_scope, AgentTask, AgentContext,
}
use igrisv.Agents.A2a.{AgentCard, AgentTaskRequest}

abbrev no_tools : AgentContext
no_tools = record { available_tools = [] }

abbrev fix_bug : AgentTask
fix_bug = new_task 1 "fix the bug" "src/lib.rs" ("filesystem" ∷ "docker" ∷ [])

abbrev card : AgentCard
card = record { name = "igris"; version = "5"; capabilities = "summarize" ∷ "compare" ∷ [] }

abbrev request : AgentTaskRequest
request = record {
  id = 4;
  intent = "read";
  capability = "compare";
  input = "two texts";
  requester = "peer";
}

-- A stand-in for the platform's hash.
abbrev byte_count : String → ℕ
byte_count s = len s

researcher_output :
    execute_task researcher_def (new_task 2 "read" "x" []) no_tools
    ≡ ok record {
      success = true;
      output =
          "researcher plan (2 steps): read primary sources → compare alternatives and summarize";
      error = none;
      steps = plan_for AgentRole.researcher (new_task 2 "read" "x" []);
    }
unfolding execute_task plan_for
researcher_output = refl

docker_refused : execute_task coder_def fix_bug no_tools ≡ err (tool_not_in_scope "docker")
unfolding execute_task can_use
docker_refused = refl

blank_refused : execute_task coder_def (new_task 3 "  " "x" []) no_tools ≡ err empty_task
unfolding execute_task
blank_refused = refl
