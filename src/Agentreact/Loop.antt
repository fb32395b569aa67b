-- ===== src/Agentreact/Loop.antt =====
-- agentreact/react_loop.go: the replay of an approved tool call, and Execute.
pub mod Steps
pub mod Unrolling
pub mod Progress
pub mod Evidence
pub mod Accepted
use agentframe.Base.{
  List, ℕ, zero, suc, ◌+◌, ◌-◌, String, Option, none, some, [], ◌∷◌, ◌==◌, if◌then◌else◌, append,
}
use agentframe.Base.Int.{ℤ, pos, negsuc, ltbℤ}
use agentframe.Agent.Value.{ToolCall, ToolResult, executor_error}
use agentframe.Agent.Requirement.{
  Resolution, ResolutionOutcome, approved, rejected, provided, RunStatus, running, is_suspended,
}
use agentframe.Agent.Message.{user, plain_message, tool_result_message}
use agentframe.Agent.Run.{RunState, EngineInput, no_command}
use agentframe.Agent.Event.{run_failed}
use agentframe.Agent.Errors.{
  GoError, sentinel, wrap, fails, join, run_state_invalid, missing_model, missing_tool_executor,
  resolution_required, max_steps_exceeded, context_nil, as_suspend_request, SuspendMatch, no_match,
}
use agentframe.Agent.Lifecycle.{transition_run_status}
use agentframe.Agent.Validation.{validate_run_state}
use agentframe.Agent.Context.{Context}
use agentframe.Agent.Prog.{Prog, pure, on_error, ◌>>=◌}
use agentframe.Agent.Interfaces.{Engine, EventSink, Host, kind_text}
use agentframe.Agent.Runner.Effects.{plain_event, noop_event_sink}
use agentframe.Agentreact.ToolValidation.{normalized_tool_error_result}
use agentframe.Agentreact.Requirements.{
  validate_tool_result_identity, ReplayPlan, no_replay, replay, broken,
  approved_tool_replay_call_from_input,
}
use agentframe.Agentreact.Turn.{
  ReactLoop, Model, ToolExecutor, Flow, stop, go_on, emit, fail_run, cancel_run,
  context_cancellation_error, identified, tool_event, then_flow, take_step,
}

-- DefaultMaxSteps
abbrev pub default_max_steps : ℕ
default_max_steps = 8

-- `if maxSteps <= 0`: a step budget is positive
unfoldable pub budget : ℤ → ℕ
budget (pos zero) = default_max_steps
budget (pos (suc n)) = suc n
budget (negsuc n) = default_max_steps

unfoldable pub outcome_text : ResolutionOutcome → String
outcome_text approved = "approved"
outcome_text rejected = "rejected"
outcome_text provided = "provided"
outcome_text ResolutionOutcome.completed = "completed"
outcome_text (ResolutionOutcome.other s) = s

module _ {W : Type 0} (host : Host W) where
  resolution_text : Resolution → String
  resolution_text r =
      let text =
        host.sprintf "[resolution] requirement_id=%q kind=%s outcome=%s"
          (r.requirement_id ∷ kind_text r.kind ∷ outcome_text r.outcome ∷ []) in
      if r.value == "" then text else host.sprintf "%s value=%q" (text ∷ r.value ∷ [])

  -- the message of a resolution, if there is one, joins the transcript
  pub add_resolution : Option Resolution → RunState → RunState
  unfolding resolution_text
  add_resolution none s = s
  add_resolution (some r) s = record s {
    messages = append s.messages (plain_message user (resolution_text r));
  }

-- What executeApprovedToolReplay returns.
pub data Replayed : Type 0 where
  observed : ToolResult → Replayed
  replay_failed : GoError → Replayed

-- The rounds that a budget leaves to a step counter.
unfoldable pub steps_left : ℤ → ℕ → ℕ
steps_left (pos k) n = n - k
steps_left (negsuc k) n = n + suc k

module _ {W : Type 0} (l : ReactLoop W) (ctx : Context) where
  open l use {tools, host}

  replay_error : ToolCall → GoError → SuspendMatch → Replayed
  replay_error call e no_match = observed (normalized_tool_error_result host call executor_error e)
  replay_error call e _ = replay_failed (
      wrap (sentinel run_state_invalid) "field=replay_tool_result reason=suspend_request_forbidden")

  judge_replay : ToolCall → ToolResult × Option GoError → Prog W Replayed
  unfolding replay_error
  judge_replay call (result, some e) = do
    c ← context_cancellation_error l ctx e
    pure (on_error c replay_failed (replay_error call e (as_suspend_request e)))
  judge_replay call (result, none) = pure (
      on_error (validate_tool_result_identity call result)
        (λ x. observed (normalized_tool_error_result host call executor_error x)) (observed result))

  -- executeApprovedToolReplay: the context still carries the override
  execute_approved_tool_replay : ToolCall → Prog W Replayed
  unfolding judge_replay
  execute_approved_tool_replay call = do out ← tools.execute (some ctx) call; judge_replay call out

  take_replayed : ToolCall → RunState → Replayed → Prog W Flow
  take_replayed call s (replay_failed e) = do
    c ← context_cancellation_error l ctx e
    on_error c (λ x. cancel_run l ctx s x none) (fail_run l ctx s e none)
  take_replayed call s (observed result) =
      let known = identified l ctx call result in
      let seen = record s { messages = append s.messages (tool_result_message known) } in
      do e ← emit l ctx (tool_event l ctx seen known) none; pure (go_on seen e)

  replay_planned : RunState → ReplayPlan → Prog W Flow
  unfolding execute_approved_tool_replay take_replayed
  replay_planned s no_replay = pure (go_on s none)
  replay_planned s (broken e) = fail_run l ctx s e none
  replay_planned s (replay call) = do x ← execute_approved_tool_replay call; take_replayed call s x

  finished : Flow → RunState × Option GoError
  finished (stop s e) = (s, e)
  finished (go_on s e) = (s, e)

  -- the loop has used up its budget
  pub exhaust : RunState → Option GoError → Prog W Flow
  exhaust s event_err =
      let (moved, refusal) = transition_run_status s RunStatus.max_steps_exceeded in
      on_error refusal
        (λ e.
          pure (stop moved (join (some (sentinel max_steps_exceeded)) (join (some e) event_err))))
        (do
          let ended = record moved { error = host.error_text (sentinel max_steps_exceeded) }
          e ←
              emit l ctx
                (plain_event ended.id ended.step run_failed no_command (
                  host.sprintf "run failed: %v"
                    (host.error_text (sentinel max_steps_exceeded) ∷ [])))
                event_err
          pure (stop ended (join (some (sentinel max_steps_exceeded)) e)))

  -- `for state.Step < maxSteps`, with as many rounds as the fuel allows
  pub run_steps : ℕ → EngineInput → RunState → Option GoError → Prog W Flow
  unfolding exhaust
  run_steps zero input s event_err = exhaust s event_err
  run_steps (suc fuel) input s event_err =
      if ltbℤ s.step (pos (budget input.max_steps))
      then (do
        flow ← take_step l ctx input s event_err
        then_flow l ctx flow (λ t e. run_steps fuel input t e))
      else exhaust s event_err

  pub run_loop : EngineInput → RunState → Option GoError → Prog W Flow
  unfolding run_steps
  run_loop input s event_err =
      run_steps (steps_left s.step (budget input.max_steps)) input s event_err

  run_started : EngineInput → RunState → Prog W Flow
  unfolding run_loop replay_planned
  run_started input s = do
    flow ← replay_planned s (approved_tool_replay_call_from_input (some ctx) s input)
    then_flow l ctx flow (λ t e. run_loop input t e)

  pub execute_with : RunState → EngineInput → Prog W Flow
  unfolding run_started add_resolution
  execute_with s input =
      let (moved, refusal) = transition_run_status s running in
      on_error (validate_run_state s) (λ e. pure (stop s (some e)))
        (if is_suspended s.status
          then pure (stop s (fails resolution_required "reason=continue_requires_resolution"))
          else on_error refusal (λ e. pure (stop moved (some e)))
              (run_started input (add_resolution host input.resolution moved)))

-- Execute
pub execute :
    {W : Type 0}
    → ReactLoop W
    → Option Context
    → RunState
    → EngineInput
    → Prog W (RunState × Option GoError)
unfolding execute_with finished
execute l none s input = pure (s, some (sentinel context_nil))
execute l (some ctx) s input = do flow ← execute_with l ctx s input; pure (finished l ctx flow)

abbrev pub react_engine : {W : Type 0} → ReactLoop W → Engine W
react_engine l = record { execute = execute l }

pub data BuiltLoop (W : Type 0) : Type 0 where
  built : ReactLoop W → BuiltLoop W
  refused : GoError → BuiltLoop W

-- New
unfoldable pub new_react_loop :
    {W : Type 0}
    → Host W
    → (List String → List String)
    → Option (Model W)
    → Option (ToolExecutor W)
    → Option (EventSink W)
    → BuiltLoop W
new_react_loop host sort_strings none tools events =
    refused (wrap (sentinel missing_model) "new react loop")
new_react_loop host sort_strings (some m) none events =
    refused (wrap (sentinel missing_tool_executor) "new react loop")
new_react_loop host sort_strings (some m) (some t) events = built (record {
  model = m;
  tools = t;
  events = elim events [ none ↦ noop_event_sink | some sink ↦ sink ];
  host = host;
  sort_strings = sort_strings;
})
