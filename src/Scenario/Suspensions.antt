-- ===== src/Scenario/Suspensions.antt =====
-- An engine output that is suspended on a tool's request for approval.
use agentframe.Base.{false, ◌≡◌, refl, none, some, [], ◌∷◌, slice}
use agentframe.Base.Int.{pos}
use agentframe.Agent.Value.{nil_map}
use agentframe.Agent.Requirement.{PendingRequirement, suspended, cancelled, running, approval, tool}
use agentframe.Agent.Message.{Message, Role, assistant, plain_message}
use agentframe.Agent.Run.{RunState}
use agentframe.Agent.Lifecycle.{is_terminal_run_status}
use agentframe.Agent.Validation.{validate_run_state}
use agentframe.Agent.Runner.Handlers.{cancel_run, resume_run}
use agentframe.Agent.Runner.Handlers.Always.{cancel_run_always, resume_run_always}
use agentframe.Agent.Runner.Checks.{
  validate_engine_output, has_tool_observation_for_call_id, has_assistant_tool_call_for_call_id,
}
use agentframe.Agent.Runner.Checks.Output.{same_messages_refl}
use agentframe.Agent.Runner.Checks.Provenance.{IsProven, suspension-IsProven}
use agentframe.Scenario.{exhausted}

abbrev question : PendingRequirement
question = record {
  id = "req-1";
  kind = approval;
  origin = tool;
  tool_call_id = "call-1";
  fingerprint = "f";
  prompt = "may I?";
}

abbrev asking : Message
asking = record {
  role = assistant;
  content = "";
  name = "";
  tool_call_id = "";
  tool_calls = record { id = "call-1"; name = "write"; arguments = nil_map } ∷ [];
  requirement = none;
}

abbrev answer : Message
answer = record {
  role = Role.tool;
  content = "wait";
  name = "write";
  tool_call_id = "call-1";
  tool_calls = [];
  requirement = none;
}

abbrev before : RunState
before = record exhausted { status = running }

abbrev after : RunState
after = record exhausted {
  status = suspended;
  step = pos 2;
  pending_requirement = some question;
  messages = slice (plain_message assistant "hello" ∷ asking ∷ answer ∷ []);
}

passes : validate_engine_output before after ≡ none
unfolding validate_engine_output has_tool_observation_for_call_id
    has_assistant_tool_call_for_call_id plain_message
passes = rw (same_messages_refl before.messages) refl

suspension-IsProven_example :
    IsProven question
      (asking ∷ answer ∷ [])
      (plain_message assistant "hello" ∷ asking ∷ answer ∷ [])
suspension-IsProven_example = suspension-IsProven before after question passes refl refl

valid : validate_run_state after ≡ none
unfolding validate_run_state
valid = refl

alive : is_terminal_run_status suspended ≡ false
unfolding is_terminal_run_status
alive = refl

cancel_run_always_example :
    cancel_run after ≡ (record after { status = cancelled; pending_requirement = none }, none)
cancel_run_always_example = cancel_run_always after valid alive

resume_run_always_example :
    resume_run after ≡ (record after { status = running; pending_requirement = none }, none)
resume_run_always_example = resume_run_always after refl
