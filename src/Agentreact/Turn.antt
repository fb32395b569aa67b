-- ===== src/Agentreact/Turn.antt =====
-- agentreact/react_loop.go: one turn of the loop, that is a model call and its tool calls.
pub mod Extends
pub mod Grows
pub mod Outcome
pub mod Evidence
use agentframe.Base.{
  String, not, Option, none, some, List, [], ◌∷◌, ◌==◌, if◌then◌else◌, is_empty, append, items,
}
use agentframe.Base.Int.{increment}
use agentframe.Agent.Value.{
  ToolDefinition, ToolCall, ToolResult, ToolFailureReason, unknown_tool, invalid_arguments,
  executor_error,
}
use agentframe.Agent.Requirement.{PendingRequirement, Resolution, RunStatus}
use agentframe.Agent.Message.{
  Message, Role, assistant, clone_message, clone_messages, clone_tool_definitions,
  tool_result_message,
}
use agentframe.Agent.Run.{RunState, EngineInput, no_command}
use agentframe.Agent.Event.{
  Event, EventType, assistant_message, tool_result, run_failed, run_cancelled, run_completed,
}
use agentframe.Agent.Errors.{
  GoError, message, sentinel, join, is, as_suspend_request, SuspendMatch, no_match, nil_request,
  request, context_canceled, deadline_exceeded,
}
use agentframe.Agent.Lifecycle.{transition_run_status}
use agentframe.Agent.Context.{Context, without_replay_override}
use agentframe.Agent.Prog.{Prog, pure, on_error, ◌>>=◌}
use agentframe.Agent.Interfaces.{Host, EventSink, ctx_err}
use agentframe.Agent.Runner.Effects.{publish_event, plain_event}
use agentframe.Agentreact.ToolValidation.{
  find_definition, validate_tool_arguments, normalized_tool_error_result,
}
use agentframe.Agentreact.Requirements.{
  validate_model_requirement, Suspension, granted, invalid, validate_tool_suspend_request,
  validate_tool_result_identity, validate_tool_call_shape,
}

-- agentreact/contracts.go
pub record ModelRequest : Type 0 where
  pub messages : List Message
  pub tools : List ToolDefinition
  pub resolution : Option Resolution

pub record Model (W : Type 0) : Type 0 where
  pub generate : Option Context → ModelRequest → Prog W (Message × Option GoError)

pub record ToolExecutor (W : Type 0) : Type 0 where
  pub execute : Option Context → ToolCall → Prog W (ToolResult × Option GoError)

-- `sort_strings` is sort.Strings.
pub record ReactLoop (W : Type 0) : Type 0 where
  pub model : Model W
  pub tools : ToolExecutor W
  pub events : EventSink W
  pub host : Host W
  pub sort_strings : List String → List String

-- What a part of the loop comes to: `return state, err`, or on with the state and the event errors.
pub data Flow : Type 0 where
  stop : RunState → Option GoError → Flow
  go_on : RunState → Option GoError → Flow

-- What an executed tool call leaves to do beside its result.
pub data Verdict : Type 0 where
  plain : Verdict
  refused : GoError → Verdict
  suspends : PendingRequirement → Verdict

pub data Executed : Type 0 where
  interrupted : GoError → Executed
  executed : ToolResult → Verdict → Executed

module _ {W : Type 0} (l : ReactLoop W) (ctx : Context) where
  open l use {model, tools, events, host, sort_strings}

  pub emit : Event → Option GoError → Prog W (Option GoError)
  emit event event_err = do e ← publish_event (some ctx) events event; pure (join event_err e)

  end_run : RunStatus → EventType → String → RunState → GoError → Option GoError → Prog W Flow
  unfolding emit
  end_run status type description s run_err event_err =
      let (moved, refusal) = transition_run_status s status in
      on_error refusal (λ e. pure (stop moved (join (some run_err) (join (some e) event_err))))
        (do
          let ended = record moved { error = host.error_text run_err }
          e ← emit (plain_event ended.id ended.step type no_command description) event_err
          pure (stop ended (join (some run_err) e)))

  -- failRun, for an error that is not nil
  pub fail_run : RunState → GoError → Option GoError → Prog W Flow
  unfolding end_run
  fail_run s e event_err =
      end_run RunStatus.failed run_failed (host.sprintf "run failed: %v" (host.error_text e ∷ [])) s
        e event_err

  -- cancelRun, for an error that is not nil
  pub cancel_run : RunState → GoError → Option GoError → Prog W Flow
  unfolding end_run
  cancel_run s e event_err =
      end_run RunStatus.cancelled run_cancelled (host.error_text e) s e event_err

  cancellation_in : GoError → Option GoError
  cancellation_in e =
      if is context_canceled e
      then some (sentinel context_canceled)
      else if is deadline_exceeded e
      then some (sentinel deadline_exceeded)
      else none

  -- contextCancellationError
  pub context_cancellation_error : GoError → Prog W (Option GoError)
  unfolding cancellation_in
  context_cancellation_error e = do
    c ← ctx_err host ctx
    pure (on_error c (λ x. some x) (cancellation_in e))

  pub tool_error : ToolCall → ToolFailureReason → GoError → ToolResult
  tool_error call reason e = normalized_tool_error_result host call reason e

  pub judge_suspension : ToolCall → GoError → Suspension → Executed
  judge_suspension call e (invalid x) = executed (tool_error call executor_error x) (refused x)
  judge_suspension call e (granted q) =
      executed (tool_error call ToolFailureReason.suspended e) (suspends q)

  -- `errors.As(toolErr, &suspendRequestErr)`
  pub judge_error : RunState → ToolCall → GoError → SuspendMatch → Executed
  unfolding judge_suspension
  judge_error s call e no_match = executed (tool_error call executor_error e) plain
  judge_error s call e nil_request =
      judge_suspension call e (validate_tool_suspend_request s call none)
  judge_error s call e (request q) =
      judge_suspension call e (validate_tool_suspend_request s call q)

  pub judge_result : RunState → ToolCall → ToolResult × Option GoError → Prog W Executed
  unfolding judge_error
  judge_result s call (result, some e) = do
    c ← context_cancellation_error e
    pure (on_error c interrupted (judge_error s call e (as_suspend_request e)))
  judge_result s call (result, none) = pure (
      on_error (validate_tool_result_identity call result)
        (λ x. executed (tool_error call executor_error x) plain) (executed result plain))

  pub check_and_execute : RunState → ToolCall → Option ToolDefinition → Prog W Executed
  unfolding judge_result
  check_and_execute s call none =
      pure (executed (tool_error call unknown_tool (message "tool is not defined")) plain)
  check_and_execute s call (some d) =
      on_error (validate_tool_arguments sort_strings d.input_schema call.arguments)
        (λ e. pure (executed (tool_error call invalid_arguments e) plain))
        (do
          out ← tools.execute (some (without_replay_override (some ctx))) call
          judge_result s call out)

  -- `if result.CallID == ""`, `if result.Name == ""`
  pub identified : ToolCall → ToolResult → ToolResult
  identified call result = record result {
    call_id = if result.call_id == "" then call.id else result.call_id;
    name = if result.name == "" then call.name else result.name;
  }

  abbrev pub tool_event : RunState → ToolResult → Event
  tool_event s result = record {
    run_id = s.id;
    step = s.step;
    type = tool_result;
    command_kind = no_command;
    message = none;
    tool_result = some result;
    description = "";
  }

  -- the requirement is set, and the run suspended
  pub suspend_run : RunState → PendingRequirement → Option GoError → Prog W Flow
  suspend_run s q event_err =
      let (moved, refusal) =
        transition_run_status (record s { pending_requirement = some q }) RunStatus.suspended in
      on_error refusal (λ e. fail_run (record moved { pending_requirement = none }) e event_err)
        (pure (stop moved event_err))

  pub conclude : Verdict → RunState → Option GoError → Prog W Flow
  unfolding suspend_run
  conclude plain s event_err = pure (go_on s event_err)
  conclude (refused e) s event_err = fail_run s e event_err
  conclude (suspends q) s event_err = suspend_run s q event_err

  pub observe : ToolCall → RunState → Option GoError → Executed → Prog W Flow
  unfolding conclude emit
  observe call s event_err (interrupted e) = cancel_run s e event_err
  observe call s event_err (executed result verdict) =
      let known = identified call result in
      let seen = record s { messages = append s.messages (tool_result_message known) } in
      do e ← emit (tool_event seen known) event_err; conclude verdict seen e

  -- one round of the loop over the tool calls
  pub handle_call : List ToolDefinition → ToolCall → RunState → Option GoError → Prog W Flow
  unfolding check_and_execute observe
  handle_call definitions call s event_err = do
    c ← ctx_err host ctx
    on_error c (λ e. cancel_run s e event_err)
        (do
          x ← check_and_execute s call (find_definition call.name definitions)
          observe call s event_err x)

  abbrev pub then_flow : Flow → (RunState → Option GoError → Prog W Flow) → Prog W Flow
  then_flow (stop s e) k = pure (stop s e)
  then_flow (go_on s e) k = k s e

  pub handle_calls : List ToolDefinition → List ToolCall → RunState → Option GoError → Prog W Flow
  handle_calls definitions [] s event_err = pure (go_on s event_err)
  handle_calls definitions (call ∷ calls) s event_err = do
    flow ← handle_call definitions call s event_err
    then_flow flow (λ t e. handle_calls definitions calls t e)

  -- an answer with a requirement
  pub suspend_for_model : Message → PendingRequirement → RunState → Option GoError → Prog W Flow
  unfolding suspend_run
  suspend_for_model answer q s event_err =
      if not (is_empty answer.tool_calls)
      then fail_run s (message "assistant response cannot include both requirement and tool calls")
          event_err
      else on_error (validate_model_requirement s q) (λ e. fail_run s e event_err)
          (suspend_run s q event_err)

  -- an answer with neither a requirement nor tool calls
  pub complete_run : Message → RunState → Option GoError → Prog W Flow
  unfolding emit
  complete_run answer s event_err =
      let (moved, refusal) = transition_run_status s RunStatus.completed in
      on_error refusal (λ e. pure (stop moved (join (some e) event_err)))
        (do
          let ended = record moved { output = answer.content }
          e ←
              emit
                (plain_event ended.id ended.step run_completed no_command
                  "assistant returned a final answer")
                event_err
          pure (stop ended e))

  pub act_on :
      List ToolDefinition
      → Option PendingRequirement
      → Message
      → RunState
      → Option GoError
      → Prog W Flow
  unfolding suspend_for_model complete_run
  act_on definitions (some q) answer s event_err = suspend_for_model answer q s event_err
  act_on definitions none answer s event_err =
      if is_empty answer.tool_calls
      then complete_run answer s event_err
      else on_error (validate_tool_call_shape answer.tool_calls) (λ e. fail_run s e event_err)
          (handle_calls definitions answer.tool_calls s event_err)

  pub with_role : Role → Role
  with_role Role.unset = assistant
  with_role role = role

  -- `if assistant.Role == ""`
  pub normalized : Message → Message
  unfolding with_role
  normalized m = record m { role = with_role m.role }

  abbrev pub message_event : RunState → Message → Event
  message_event s m = record {
    run_id = s.id;
    step = s.step;
    type = assistant_message;
    command_kind = no_command;
    message = some m;
    tool_result = none;
    description = "";
  }

  pub hear : EngineInput → Message → RunState → Option GoError → Prog W Flow
  unfolding act_on emit
  hear input answer s event_err =
      let heard = record s { messages = append s.messages (clone_message answer) } in
      do
        e ← emit (message_event heard answer) event_err
        act_on input.tools answer.requirement answer heard e

  -- one round of the loop over the steps
  pub take_step : EngineInput → RunState → Option GoError → Prog W Flow
  unfolding hear
  take_step input s event_err = do
    c ← ctx_err host ctx
    on_error c (λ e. cancel_run s e event_err)
        (do
          let t = record s { step = increment s.step }
          (answer, err) ← model.generate (some ctx) (record {
            messages = clone_messages (items t.messages);
            tools = clone_tool_definitions input.tools;
            resolution = input.resolution;
          })
          on_error err
              (λ e. do
                x ← context_cancellation_error e
                on_error x (λ y. cancel_run t y event_err) (fail_run t e event_err))
              (hear input (normalized answer) t event_err))
