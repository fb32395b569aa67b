-- ===== src/Httpapi/Commands.antt =====
-- examples/coding-agent/server/internal/httpapi/handlers_run_command.go and handlers_run_query.go:
-- the requests that become commands of the runner, and the query of a run.
use agentframe.Base.{String, ◌&&◌, not, Option, none, some, List, if◌then◌else◌, ◌==◌}
use agentframe.Base.Int.{ℤ, pos}
use agentframe.Agent.Value.{ToolDefinition}
use agentframe.Agent.Requirement.{
  RequirementKind, approval, user_input, external_execution, ResolutionOutcome, approved, rejected,
  provided, Resolution,
}
use agentframe.Agent.Run.{
  RunState, Command, start_command, continue_command, cancel_command, steer_command,
  follow_up_command,
}
use agentframe.Agent.Errors.{GoError, is, sentinel, command_budget_exceeded, invalid_run_id}
use agentframe.Agent.Prog.{Prog, Part, pure, ◌>>=◌}
use agentframe.Agent.Interfaces.{Host, RunStore}
use agentframe.Agent.Runner.Finish.{Reply}
use agentframe.Agent.Runner.Effects.{Runner}
use agentframe.Agent.Runner.{dispatch}
use agentframe.Runstream.{Broker}
use agentframe.Httpapi.Policies.{Request, normalize_command_max_steps}
use agentframe.Httpapi.Responses.{
  Response, write_run_state, write_error, write_mapped_error, is_accepted_run_error,
  invalid_request_error, Decoder, Parsed, parsed, refused, decode_json_body,
}

pub record StartRequest : Type 0 where
  pub run_id : String
  pub system_prompt : String
  pub user_prompt : String
  pub max_steps : Option ℤ

pub record ResolutionRequest : Type 0 where
  pub requirement_id : String
  pub kind : String
  pub outcome : String
  pub value : String

pub record ContinueRequest : Type 0 where
  pub command_id : String
  pub max_steps : Option ℤ
  pub resolution : Option ResolutionRequest

pub record SteerRequest : Type 0 where
  pub instruction : String

pub record FollowUpRequest : Type 0 where
  pub prompt : String
  pub max_steps : Option ℤ

pub record PolicyConfig : Type 0 where
  pub auth_token : String
  pub max_request_body_bytes : ℤ
  pub request_timeout : ℤ
  pub max_command_steps : ℤ

-- runtimewire.Runtime, as far as the handlers use it; a nil pointer is `none`.
pub record Runtime (W : Type 0) : Type 0 where
  pub runner : Option (Runner W)
  pub run_store : Option (RunStore W)
  pub stream_broker : Option (Part W Broker)
  pub tool_definitions : List ToolDefinition

-- A runtime whose parts are there.
pub record Ready (W : Type 0) : Type 0 where
  pub runner : Runner W
  pub run_store : RunStore W
  pub stream_broker : Part W Broker
  pub tool_definitions : List ToolDefinition

-- `handlers`, with the decoders of encoding/json for each request.
pub record Handlers (W : Type 0) : Type 0 where
  pub runtime : Option (Runtime W)
  pub policy : PolicyConfig
  pub host : Host W
  pub start_decoder : Decoder W StartRequest
  pub continue_decoder : Decoder W ContinueRequest
  pub steer_decoder : Decoder W SteerRequest
  pub follow_up_decoder : Decoder W FollowUpRequest

-- the conversions agent.RequirementKind(text) and agent.ResolutionOutcome(text)
unfoldable pub kind_of : String → RequirementKind
kind_of s =
    if s == "approval"
    then approval
    else if s == "user_input"
    then user_input
    else if s == "external_execution"
    then external_execution
    else RequirementKind.other s

unfoldable pub outcome_of : String → ResolutionOutcome
outcome_of s =
    if s == "approved"
    then approved
    else if s == "rejected"
    then rejected
    else if s == "provided"
    then provided
    else if s == "completed"
    then ResolutionOutcome.completed
    else ResolutionOutcome.other s

-- toResolution; `trim` is strings.TrimSpace
unfoldable pub to_resolution : (String → String) → Option ResolutionRequest → Option Resolution
to_resolution trim none = none
to_resolution trim (some r) = some (record {
  requirement_id = trim r.requirement_id;
  kind = kind_of r.kind;
  outcome = outcome_of r.outcome;
  value = r.value;
})

unfoldable pub judge_steps : (GoError → String) → ℤ × Option GoError → ℤ × Option GoError
judge_steps error_text (n, none) = (n, none)
judge_steps error_text (n, some e) =
    if is command_budget_exceeded e
    then (pos 0, some e)
    else (pos 0, some (invalid_request_error (error_text e)))

-- validateMaxSteps
unfoldable pub validate_max_steps : (GoError → String) → Option ℤ → ℤ → ℤ × Option GoError
unfolding judge_steps
validate_max_steps error_text input max =
    judge_steps error_text (normalize_command_max_steps input max)

-- pathRunID
unfoldable pub path_run_id : (String → String) → Request → String × Option GoError
path_run_id trim r =
    if trim r.path_run_id == ""
    then ("", some (sentinel invalid_run_id))
    else (trim r.path_run_id, none)

-- the nil tests of ensureRuntime on the parts of a runtime
unfoldable pub ready_parts :
    {W : Type 0}
    → Option (Runner W)
    → Option (RunStore W)
    → Option (Part W Broker)
    → List ToolDefinition
    → Option (Ready W)
ready_parts (some r) (some s) (some b) tools =
    some (record { runner = r; run_store = s; stream_broker = b; tool_definitions = tools })
ready_parts _ _ _ tools = none

unfoldable pub ready_runtime : {W : Type 0} → Option (Runtime W) → Option (Ready W)
ready_runtime none = none
ready_runtime (some t) = ready_parts t.runner t.run_store t.stream_broker t.tool_definitions

module _ {W : Type 0} (h : Handlers W) where
  open h.host use {trim_space, error_text}

  abbrev fail : GoError → Prog W Response
  fail e = pure (write_mapped_error error_text e)

  -- writeInvalidRequest
  abbrev invalid : String → Prog W Response
  invalid text = fail (invalid_request_error text)

  -- ensureRuntime
  unfoldable pub with_runtime : Option (Ready W) → (Ready W → Prog W Response) → Prog W Response
  with_runtime none k =
      pure (write_error 500 "runtime_error" "runtime dependencies are not initialized")
  with_runtime (some t) k = k t

  unfoldable pub or_fail :
      {A : Type 0} → A × Option GoError → (A → Prog W Response) → Prog W Response
  or_fail (a, some e) k = fail e
  or_fail (a, none) k = k a

  unfoldable pub or_refuse : {A : Type 0} → Parsed A → (A → Prog W Response) → Prog W Response
  or_refuse (refused e) k = fail e
  or_refuse (parsed a) k = k a

  -- the answer to start, continue and follow-up: an exhausted budget is no failure
  unfoldable pub answer_accepting : Reply → Response
  answer_accepting (result, none) = write_run_state 200 result.state
  answer_accepting (result, some e) =
      if is_accepted_run_error e
      then write_run_state 200 result.state
      else write_mapped_error error_text e

  -- the answer to cancel and steer
  unfoldable pub answer : Reply → Response
  answer (result, none) = write_run_state 200 result.state
  answer (result, some e) = write_mapped_error error_text e

  unfoldable pub send : Ready W → (Reply → Response) → Request → Command → Prog W Response
  send t respond r cmd = do reply ← dispatch t.runner (some r.context) cmd; pure (respond reply)

  abbrev pub steps_of : Option ℤ → ℤ × Option GoError
  steps_of input = validate_max_steps error_text input h.policy.max_command_steps

  unfoldable pub start_decoded : Ready W → Request → StartRequest → Prog W Response
  unfolding send
  start_decoded t r body =
      if trim_space body.user_prompt == ""
      then invalid "user_prompt is required"
      else if not (body.run_id == "") && trim_space body.run_id == ""
      then invalid "run_id must not be blank"
      else or_fail (steps_of body.max_steps) (λ max_steps. send t answer_accepting r (
          start_command (record {
            run_id = trim_space body.run_id;
            system_prompt = body.system_prompt;
            user_prompt = body.user_prompt;
            max_steps = max_steps;
            tools = t.tool_definitions;
          })))

  -- handleRunStart
  unfoldable pub handle_run_start : Request → Prog W Response
  unfolding start_decoded
  handle_run_start r =
      with_runtime (ready_runtime h.runtime)
        (λ t. do body ← decode_json_body h.start_decoder r.body; or_refuse body (start_decoded t r))

  unfoldable pub continue_decoded : Ready W → Request → String → ContinueRequest → Prog W Response
  unfolding send
  continue_decoded t r run_id body = or_fail (steps_of body.max_steps) (λ max_steps.
      send t answer_accepting r (
        continue_command (record {
          run_id = run_id;
          command_id = trim_space body.command_id;
          max_steps = max_steps;
          tools = t.tool_definitions;
          resolution = to_resolution trim_space body.resolution;
        })))

  -- handleRunContinue
  unfoldable pub handle_run_continue : Request → Prog W Response
  unfolding continue_decoded
  handle_run_continue r = with_runtime (ready_runtime h.runtime) (λ t.
      or_fail (path_run_id trim_space r) (λ run_id. do
        body ← decode_json_body h.continue_decoder r.body
        or_refuse body (continue_decoded t r run_id)))

  -- handleRunCancel
  unfoldable pub handle_run_cancel : Request → Prog W Response
  unfolding send
  handle_run_cancel r =
      with_runtime (ready_runtime h.runtime) (λ t.
        or_fail (path_run_id trim_space r) (λ run_id. send t answer r (cancel_command run_id)))

  unfoldable pub steer_decoded : Ready W → Request → String → SteerRequest → Prog W Response
  unfolding send
  steer_decoded t r run_id body =
      if trim_space body.instruction == ""
      then invalid "instruction is required"
      else send t answer r
          (steer_command (record { run_id = run_id; instruction = body.instruction }))

  -- handleRunSteer
  unfoldable pub handle_run_steer : Request → Prog W Response
  unfolding steer_decoded
  handle_run_steer r = with_runtime (ready_runtime h.runtime) (λ t.
      or_fail (path_run_id trim_space r) (λ run_id. do
        body ← decode_json_body h.steer_decoder r.body
        or_refuse body (steer_decoded t r run_id)))

  unfoldable pub follow_up_decoded : Ready W → Request → String → FollowUpRequest → Prog W Response
  unfolding send
  follow_up_decoded t r run_id body =
      if trim_space body.prompt == ""
      then invalid "prompt is required"
      else or_fail (steps_of body.max_steps) (λ max_steps. send t answer_accepting r (
          follow_up_command (record {
            run_id = run_id;
            user_prompt = body.prompt;
            max_steps = max_steps;
            tools = t.tool_definitions;
          })))

  -- handleRunFollowUp
  unfoldable pub handle_run_follow_up : Request → Prog W Response
  unfolding follow_up_decoded
  handle_run_follow_up r = with_runtime (ready_runtime h.runtime) (λ t.
      or_fail (path_run_id trim_space r) (λ run_id. do
        body ← decode_json_body h.follow_up_decoder r.body
        or_refuse body (follow_up_decoded t r run_id)))

  unfoldable pub answer_query : RunState × Option GoError → Response
  answer_query (s, none) = write_run_state 200 s
  answer_query (s, some e) = write_mapped_error error_text e

  -- handleRunQuery
  unfoldable pub handle_run_query : Request → Prog W Response
  unfolding answer_query
  handle_run_query r = with_runtime (ready_runtime h.runtime) (λ t.
      or_fail (path_run_id trim_space r) (λ run_id. do
        loaded ← t.run_store.load (some r.context) run_id
        pure (answer_query loaded)))
