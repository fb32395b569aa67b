-- ===== src/Agent/Runner/Handlers.antt =====
-- agent/runner.go: the handlers of the commands.
pub mod Always
use agentframe.Base.{String, Option, none, some, ◌==◌, not, if◌then◌else◌, append}
use agentframe.Base.Int.{pos, increment}
use agentframe.Agent.Requirement.{
  PendingRequirement, pending, running, cancelled, is_suspended, Resolution,
}
use agentframe.Agent.Message.{Role, system, user, plain_message, clone_tool_definitions}
use agentframe.Agent.Run.{
  RunState, RunInput, no_result, new_run_state, ContinueCommand, SteerCommand, FollowUpCommand,
  no_command, start, continue, cancel, steer, follow_up,
}
use agentframe.Agent.Event.{run_started, run_cancelled, run_checkpoint, command_applied}
use agentframe.Agent.Errors.{
  GoError, fails, invalid_run_id, run_not_continuable, run_not_cancellable, resolution_required,
}
use agentframe.Agent.Lifecycle.{is_terminal_run_status, transition_run_status}
use agentframe.Agent.Context.{Context, with_replay_override}
use agentframe.Agent.Prog.{on_error, Prog, pure, read, write, ◌>>=◌}
use agentframe.Agent.Runner.Checks.{
  validate_tool_definitions, validate_continue_resolution, normalize_command_save_error,
  approved_tool_call_replay_override_for_continue,
}
use agentframe.Agent.Runner.State.{
  OutcomeKey, load_outcome, store_outcome, continue_idempotency_key,
}
use agentframe.Agent.Runner.Effects.{Runner, plain_event, emit, side_effect_context}
use agentframe.Agent.Runner.Finish.{Reply, refuse, reply_with, Wording, finish_execution}

add_prompt : Role → String → RunState → RunState
add_prompt role prompt s =
    if prompt == ""
    then s
    else record s { messages = append s.messages (plain_message role prompt) }

unfoldable pub initial_state : String → RunInput → RunState
unfolding add_prompt
initial_state run_id input =
    add_prompt user input.user_prompt (
      add_prompt system input.system_prompt
        (transition_run_status (new_run_state run_id) pending).0)

abbrev pub start_wording : Wording
start_wording = record {
  kind = start;
  persisted = "final state persisted";
  applied = "start command applied";
}

abbrev pub continue_wording : Wording
continue_wording = record {
  kind = continue;
  persisted = "continued run state persisted";
  applied = "continue command applied";
}

abbrev pub follow_up_wording : Wording
follow_up_wording = record {
  kind = follow_up;
  persisted = "follow-up run state persisted";
  applied = "follow-up command applied";
}

-- The requirement that a resolution resolves, copied before it is cleared.
unfoldable pub resolved_requirement_of : RunState → Option PendingRequirement
resolved_requirement_of s = if is_suspended s.status then s.pending_requirement else none

-- A suspended run is set running again, its requirement cleared.
unfoldable pub resume_run : RunState → RunState × Option GoError
resume_run s =
    if is_suspended s.status
    then transition_run_status (record s { pending_requirement = none }) running
    else (s, none)

-- An approved tool call may be replayed by the engine.
unfoldable pub continue_context :
    Option Context → Option Resolution → Option PendingRequirement → Option Context
continue_context ctx resolution requirement =
    elim (approved_tool_call_replay_override_for_continue resolution requirement) [
      | none ↦ ctx
      | some o ↦ some (with_replay_override ctx o)
    ]

-- Cancelling a suspended run drops its requirement.
unfoldable pub cancel_run : RunState → RunState × Option GoError
cancel_run s =
    transition_run_status
      (if is_suspended s.status then record s { pending_requirement = none } else s) cancelled

-- the tests of a loaded state in the steer and follow-up handlers
unfoldable pub refuse_loaded : RunState → Option GoError
refuse_loaded s =
    if is_suspended s.status
    then fails resolution_required "command= status= run_id="
    else if is_terminal_run_status s.status
    then fails run_not_continuable "status"
    else none

unfoldable pub add_message : String → RunState → RunState
add_message content s = record s { messages = append s.messages (plain_message user content) }

module _ {W : Type 0} (r : Runner W) where
  open r use {id_gen, store, engine, command_outcomes, host}

  -- the run's ID: given, or generated
  unfoldable pub resolve_run_id : Option Context → RunInput → Prog W (String × Option GoError)
  resolve_run_id ctx input = if not (input.run_id == "") then pure (input.run_id, none) else do
    g ← id_gen.new_run_id ctx
    pure (
        on_error g.1 (λ e. ("", some e))
          (if g.0 == "" then ("", fails invalid_run_id "command=start") else (g.0, none)))

  -- from the first save on
  unfoldable pub start_run : Option Context → RunInput → RunState → Prog W Reply
  start_run ctx input state = do
    c ← side_effect_context r ctx
    saved ← store.save c state
    on_error saved (λ e. pure (refuse (normalize_command_save_error e)))
        (do
          let created = record state { version = increment state.version }
          e ←
              emit r ctx
                (plain_event state.id (pos 0) run_started no_command
                  "run persisted and ready for execution")
                none
          out ← engine.execute ctx created (record {
            max_steps = input.max_steps;
            tools = clone_tool_definitions input.tools;
            resolution = none;
            resolved_requirement = none;
          })
          finish_execution r (λ reply. pure tt) start_wording ctx state.id created out e)

  unfoldable pub dispatch_start : Option Context → RunInput → Prog W Reply
  unfolding start_run resolve_run_id
  dispatch_start ctx input =
      on_error (validate_tool_definitions input.tools) (λ e. pure (refuse e))
        (do
          id ← resolve_run_id ctx input
          on_error id.1 (λ e. pure (refuse e))
              (on_error (transition_run_status (new_run_state id.0) pending).1
                (λ e. pure (refuse e)) (start_run ctx input (initial_state id.0 input))))

  -- a cached outcome is the reply; else the handler goes on
  unfoldable pub use_cached : Option OutcomeKey → Prog W Reply → Prog W Reply
  use_cached none go = go
  use_cached (some key) go = do
    table ← read command_outcomes
    elim (load_outcome key table) [ none ↦ go | some o ↦ pure (o.result, o.error) ]

  -- An outcome is kept only if the handler came to its end.
  unfoldable pub keep_outcome : Option OutcomeKey → Reply → Prog W (Unit {0})
  keep_outcome none reply = pure tt
  keep_outcome (some key) (result, error) = do
    table ← read command_outcomes
    write command_outcomes (store_outcome key (record { result = result; error = error }) table)

  unfoldable pub continue_run :
      Option Context → ContinueCommand → Option OutcomeKey → RunState → Prog W Reply
  unfolding keep_outcome
  continue_run ctx cmd key loaded =
      let requirement = resolved_requirement_of loaded in
      let state = (resume_run loaded).0 in
      on_error (resume_run loaded).1 (λ e. pure (reply_with state (some e)))
        (do
          out ← engine.execute (continue_context ctx cmd.resolution requirement) state (record {
            max_steps = cmd.max_steps;
            tools = clone_tool_definitions cmd.tools;
            resolution = cmd.resolution;
            resolved_requirement = requirement;
          })
          finish_execution r (keep_outcome key) continue_wording ctx cmd.run_id state out none)

  -- `state, err := r.store.Load(sideEffectCtx(), runID)`, and on with the state
  unfoldable pub with_loaded : Option Context → String → (RunState → Prog W Reply) → Prog W Reply
  with_loaded ctx run_id go = do
    c ← side_effect_context r ctx
    l ← store.load c run_id
    on_error l.1 (λ e. pure (refuse e)) (go l.0)

  unfoldable pub continue_loaded :
      Option Context → ContinueCommand → Option OutcomeKey → RunState → Prog W Reply
  unfolding continue_run
  continue_loaded ctx cmd key s =
      if is_terminal_run_status s.status
      then pure (reply_with s (fails run_not_continuable "status"))
      else on_error (validate_continue_resolution s cmd.resolution)
          (λ e. pure (reply_with s (some e))) (continue_run ctx cmd key s)

  unfoldable pub dispatch_continue : Option Context → ContinueCommand → Prog W Reply
  unfolding use_cached with_loaded continue_loaded
  dispatch_continue ctx cmd =
      if cmd.run_id == ""
      then pure (no_result, fails invalid_run_id "command=continue")
      else let key = continue_idempotency_key host.trim_space cmd.run_id cmd.command_id in
        use_cached key (
          on_error (validate_tool_definitions cmd.tools) (λ e. pure (refuse e))
            (with_loaded ctx cmd.run_id (continue_loaded ctx cmd key)))

  -- from the save of the cancelled state on
  unfoldable pub cancel_loaded : Option Context → String → RunState → Prog W Reply
  cancel_loaded ctx run_id s =
      if is_terminal_run_status s.status
      then pure (reply_with s (fails run_not_cancellable "status"))
      else on_error (cancel_run s).1 (λ e. pure (reply_with (cancel_run s).0 (some e)))
          (do
            let state = (cancel_run s).0
            c ← side_effect_context r ctx
            saved ← store.save c state
            on_error saved (λ e. pure (refuse (normalize_command_save_error e)))
                (do
                  e1 ←
                      emit r ctx
                        (plain_event run_id state.step run_cancelled no_command "run cancelled")
                        none
                  e2 ←
                      emit r ctx
                        (plain_event run_id state.step command_applied cancel
                          "cancel command applied")
                        e1
                  pure (reply_with (record state { version = increment state.version }) e2)))

  unfoldable pub dispatch_cancel : Option Context → String → Prog W Reply
  unfolding with_loaded cancel_loaded
  dispatch_cancel ctx run_id =
      if run_id == ""
      then pure (no_result, fails invalid_run_id "command=cancel")
      else with_loaded ctx run_id (cancel_loaded ctx run_id)

  -- The error of the save is returned as it is.
  unfoldable pub steer_loaded : Option Context → SteerCommand → RunState → Prog W Reply
  steer_loaded ctx cmd s =
      on_error (refuse_loaded s) (λ e. pure (reply_with s (some e)))
        (do
          let state = add_message cmd.instruction s
          c ← side_effect_context r ctx
          saved ← store.save c state
          on_error saved (λ e. pure (refuse e))
              (do
                e1 ←
                    emit r ctx
                      (plain_event cmd.run_id state.step run_checkpoint no_command
                        "steered run state persisted")
                      none
                e2 ←
                    emit r ctx
                      (plain_event cmd.run_id state.step command_applied steer
                        "steer command applied")
                      e1
                pure (reply_with (record state { version = increment state.version }) e2)))

  unfoldable pub dispatch_steer : Option Context → SteerCommand → Prog W Reply
  unfolding with_loaded steer_loaded
  dispatch_steer ctx cmd =
      if cmd.run_id == ""
      then pure (no_result, fails invalid_run_id "command=steer")
      else with_loaded ctx cmd.run_id (steer_loaded ctx cmd)

  unfoldable pub follow_up_loaded : Option Context → FollowUpCommand → RunState → Prog W Reply
  follow_up_loaded ctx cmd s =
      on_error (refuse_loaded s) (λ e. pure (reply_with s (some e)))
        (do
          let state = add_message cmd.user_prompt s
          out ← engine.execute ctx state (record {
            max_steps = cmd.max_steps;
            tools = clone_tool_definitions cmd.tools;
            resolution = none;
            resolved_requirement = none;
          })
          finish_execution r (λ reply. pure tt) follow_up_wording ctx cmd.run_id state out none)

  unfoldable pub dispatch_follow_up : Option Context → FollowUpCommand → Prog W Reply
  unfolding with_loaded follow_up_loaded
  dispatch_follow_up ctx cmd =
      if cmd.run_id == ""
      then pure (no_result, fails invalid_run_id "command=follow_up")
      else on_error (validate_tool_definitions cmd.tools) (λ e. pure (refuse e))
          (with_loaded ctx cmd.run_id (follow_up_loaded ctx cmd))
