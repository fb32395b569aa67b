-- ===== src/Scenario/Repeating.antt =====
-- A continue command with an ID, another command, and the same command again, with a store of one
-- state and an engine that leaves it as it is.
use agentframe.Base.{◌≡◌, refl, none, some, [], ◌∷◌, nil_slice}
use agentframe.Base.Int.{pos, increment}
use agentframe.Agent.Requirement.{running}
use agentframe.Agent.Run.{RunState, RunResult, ContinueCommand, continue_command, cancel_command}
use agentframe.Agent.Context.{background}
use agentframe.Agent.Prog.{pure}
use agentframe.Agent.Interfaces.{Host, ctx_err}
use agentframe.Agent.Runner.State.{
  CommandLocks, Outcomes, OutcomeKey, load_outcome, continue_idempotency_key,
}
use agentframe.Agent.Runner.Effects.{
  Runner, lock_run_mutation, emit, publish_event, side_effect_context,
}
use agentframe.Agent.Runner.{dispatch}
use agentframe.Agent.Runner.Handlers.{dispatch_continue, resume_run, with_loaded}
use agentframe.Agent.Runner.Finish.{finish_execution, announce, emit_if}
use agentframe.Agent.Runner.Checks.{
  validate_tool_definitions, validate_continue_resolution, validate_engine_output,
}
use agentframe.Agent.Runner.Checks.Output.{same_messages_refl}
use agentframe.Agent.Errors.{join}
use agentframe.Agent.Validation.{validate_event}
use agentframe.Agent.Lifecycle.{is_terminal_run_status}
use agentframe.Agent.Runner.Dispatch.{dispatch_all}
use agentframe.Agent.Runner.Memory.{Private}
use agentframe.Agent.Runner.Repeats.{Answered, dispatch_continue-repeated}

record Tables : Type 0 where
  locks : CommandLocks
  outcomes : Outcomes

abbrev tables : Tables
tables = record { locks = []; outcomes = [] }

abbrev waiting_run : RunState
waiting_run = record {
  id = "run-2";
  version = pos 1;
  step = pos 1;
  status = running;
  pending_requirement = none;
  output = "";
  error = "";
  messages = nil_slice;
}

abbrev quiet_host : Host Tables
quiet_host = record {
  cancellation = pure none;
  await_mutex = λ id. pure tt;
  trim_space = λ s. s;
  sprintf = λ f xs. f;
  error_text = λ e. "error";
}

abbrev quiet : Runner Tables
quiet = record {
  id_gen = record { new_run_id = λ ctx. pure ("run-1", none) };
  store = record { save = λ ctx s. pure none; load = λ ctx id. pure (waiting_run, none) };
  engine = record { execute = λ ctx s input. pure (s, none) };
  events = record { publish = λ ctx e. pure none };
  command_locks = record { get = λ w. w.locks; put = λ x w. record w { locks = x } };
  command_outcomes = record { get = λ w. w.outcomes; put = λ x w. record w { outcomes = x } };
  host = quiet_host;
}

abbrev key : OutcomeKey
key = record { run_id = "run-2"; command_id = "cmd-1" }

quiet-Private : Private quiet key
quiet-Private = record {
  get_put = λ x w. refl;
  locks_apart = λ t w. refl;
  save = λ ctx s. record { from = λ w o h. h };
  load = λ ctx id. record { from = λ w o h. h };
  engine = λ ctx s i. record { from = λ w o h. h };
  publish = λ ctx e. record { from = λ w o h. h };
  ids = λ ctx. record { from = λ w o h. h };
  cancellation = record { from = λ w o h. h };
  await = λ id. record { from = λ w o h. h };
}

abbrev once : ContinueCommand
once = record {
  run_id = "run-2";
  command_id = "cmd-1";
  max_steps = pos 4;
  tools = [];
  resolution = none;
}

keyed : continue_idempotency_key (λ s. s) "run-2" "cmd-1" ≡ some key
unfolding continue_idempotency_key
keyed = refl

abbrev result : RunResult
result = record { state = record waiting_run { version = pos 2 } }

passes : validate_engine_output waiting_run waiting_run ≡ none
unfolding validate_engine_output
passes = rw (same_messages_refl nil_slice) refl

first : (dispatch quiet (some background) (continue_command once) tables).0 ≡ (result, none)
unfolding dispatch dispatch_continue continue_idempotency_key load_outcome lock_run_mutation
    validate_tool_definitions is_terminal_run_status validate_continue_resolution resume_run
    finish_execution announce emit publish_event side_effect_context ctx_err increment join
    validate_event emit_if with_loaded
first = rw passes refl

dispatch_continue-repeated_example : Answered quiet key quiet-Private background once result (
    dispatch_all quiet none
      (cancel_command "run-2" ∷ [])
      (dispatch quiet (some background) (continue_command once) tables).1)
dispatch_continue-repeated_example =
    dispatch_continue-repeated quiet key quiet-Private background background none once once
      (cancel_command "run-2" ∷ []) result tables keyed keyed first
