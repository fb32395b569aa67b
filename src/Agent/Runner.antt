-- ===== src/Agent/Runner.antt =====
-- agent/runner.go: the dispatch of commands, and the methods that build them.
pub mod Checks
pub mod State
pub mod Effects
pub mod Finish
pub mod Handlers
pub mod Contract
pub mod Guarantee
pub mod Commands
pub mod Dispatch
pub mod Memory
pub mod Repeats
use agentframe.Base.{
  String, Bool, true, false, Option, none, some, List, [], ◌∷◌, ◌==◌, not, if◌then◌else◌, append,
}
use agentframe.Base.Int.{pos, increment, ℤ}
use agentframe.Agent.Requirement.{
  PendingRequirement, RunStatus, pending, running, cancelled, is_cancelled, is_suspended,
  Resolution,
}
use agentframe.Agent.Message.{Role, system, user, plain_message, clone_tool_definitions}
use agentframe.Agent.Run.{
  RunState, RunInput, RunResult, no_result, new_run_state, EngineInput, Command, CommandKind,
  ContinueCommand, SteerCommand, FollowUpCommand, no_command, start, continue, cancel, steer,
  follow_up, nil_command, nil_pointer, pointer, start_command, continue_command, cancel_command,
  steer_command, follow_up_command, foreign,
}
use agentframe.Agent.Event.{
  Event, EventType, run_started, run_cancelled, run_suspended, run_checkpoint, command_applied,
}
use agentframe.Agent.Errors.{
  GoError, wrap, sentinel, fails, join, context_nil, command_nil, command_invalid,
  command_unsupported, invalid_run_id, run_not_continuable, run_not_cancellable,
  resolution_required,
}
use agentframe.Agent.Lifecycle.{is_terminal_run_status, transition_run_status}
use agentframe.Agent.Context.{Context, ReplayOverride, with_replay_override}
use agentframe.Agent.Prog.{on_error, Prog, pure, read, write, ◌>>=◌, ◌>>◌}
use agentframe.Agent.Runner.Checks.{
  validate_tool_definitions, validate_continue_resolution, validate_engine_output,
  normalize_command_save_error, approved_tool_call_replay_override_for_continue,
}
use agentframe.Agent.Runner.State.{
  OutcomeKey, Outcome, load_outcome, store_outcome, continue_idempotency_key,
}
use agentframe.Agent.Runner.Effects.{
  Runner, plain_event, emit, side_effect_context, lock_run_mutation, unlock_run_mutation,
  cancellation_event_description, suspension_event_description,
}
use agentframe.Agent.Runner.Finish.{Reply, refuse}
use agentframe.Agent.Runner.Handlers.{
  dispatch_start, dispatch_continue, dispatch_cancel, dispatch_steer, dispatch_follow_up,
}

-- the `default` case of the type switch
abbrev foreign_error : CommandKind → GoError
foreign_error no_command = wrap (sentinel command_unsupported) "kind"
foreign_error (CommandKind.other s) = wrap (sentinel command_unsupported) "kind"
foreign_error _ = wrap (sentinel command_invalid) "kind= payload="

module _ {W : Type 0} (r : Runner W) where
  -- The lock of a run is held from before its handler to after it.
  unfoldable pub locked : String → Prog W Reply → Prog W Reply
  locked run_id handler = do
    lock_run_mutation r run_id
    reply ← handler
    unlock_run_mutation r run_id
    pure reply

  unfoldable pub dispatch_command : Option Context → Command → Prog W Reply
  unfolding locked
  dispatch_command ctx nil_command = pure (refuse (sentinel command_nil))
  dispatch_command ctx nil_pointer = pure (refuse (sentinel command_nil))
  dispatch_command ctx (pointer kind) =
      pure (refuse (wrap (sentinel command_invalid) "kind= payload="))
  dispatch_command ctx (start_command input) = dispatch_start r ctx input
  dispatch_command ctx (continue_command cmd) = locked cmd.run_id (dispatch_continue r ctx cmd)
  dispatch_command ctx (cancel_command run_id) = locked run_id (dispatch_cancel r ctx run_id)
  dispatch_command ctx (steer_command cmd) = locked cmd.run_id (dispatch_steer r ctx cmd)
  dispatch_command ctx (follow_up_command cmd) = locked cmd.run_id (dispatch_follow_up r ctx cmd)
  dispatch_command ctx (foreign kind) = pure (refuse (foreign_error kind))

  unfoldable pub dispatch : Option Context → Command → Prog W Reply
  unfolding dispatch_command
  dispatch none cmd = pure (refuse (sentinel context_nil))
  dispatch (some ctx) cmd = dispatch_command (some ctx) cmd
