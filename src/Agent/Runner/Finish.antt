-- ===== src/Agent/Runner/Finish.antt =====
-- agent/runner.go: what the handlers that run the engine do with its output.
use agentframe.Base.{String, Bool, true, false, Option, some}
use agentframe.Base.Int.{increment}
use agentframe.Agent.Requirement.{is_cancelled, is_suspended}
use agentframe.Agent.Run.{RunState, RunResult, no_result, CommandKind, no_command}
use agentframe.Agent.Event.{Event, run_cancelled, run_suspended, run_checkpoint, command_applied}
use agentframe.Agent.Errors.{GoError, join}
use agentframe.Agent.Context.{Context}
use agentframe.Agent.Prog.{on_error, Prog, pure, ◌>>=◌, ◌>>◌}
use agentframe.Agent.Runner.Checks.{validate_engine_output, normalize_command_save_error}
use agentframe.Agent.Runner.Effects.{
  Runner, plain_event, emit, side_effect_context, cancellation_event_description,
  suspension_event_description,
}

abbrev pub Reply : Type 0
Reply = RunResult × Option GoError

-- return RunResult{}, err
abbrev pub refuse : GoError → Reply
refuse e = (no_result, some e)

abbrev pub reply_with : RunState → Option GoError → Reply
reply_with s e = (record { state = s }, e)

-- What the three commands that run the engine say in their last events.
pub record Wording : Type 0 where
  pub kind : CommandKind
  pub persisted : String
  pub applied : String

module _ {W : Type 0} (r : Runner W) where
  open r use {id_gen, store, engine, command_outcomes, host}

  -- `if test { eventErr = errors.Join(eventErr, publishEvent(…)) }`
  unfoldable pub emit_if : Bool → Option Context → Event → Option GoError → Prog W (Option GoError)
  emit_if true ctx event event_err = emit r ctx event event_err
  emit_if false ctx event event_err = pure event_err

  -- the events after the final save
  unfoldable pub announce :
      Wording
      → Option Context
      → String
      → RunState
      → Option GoError
      → Option GoError
      → Prog W (Option GoError)
  announce w ctx run_id final run_err event_err = do
    e1 ←
        emit_if (is_cancelled final.status) ctx
          (plain_event run_id final.step run_cancelled no_command
            (cancellation_event_description r run_err))
          event_err
    e2 ←
        emit_if (is_suspended final.status) ctx
          (plain_event run_id final.step run_suspended no_command
            (suspension_event_description r final))
          e1
    e3 ← emit r ctx (plain_event run_id final.step run_checkpoint no_command w.persisted) e2
    emit r ctx (plain_event run_id final.step command_applied w.kind w.applied) e3

  -- From the engine's output on, the start, continue and follow-up handlers are alike.
  -- `keep` is what a handler does with its reply in the end.
  unfoldable pub finish_execution :
      (Reply → Prog W (Unit {0}))
      → Wording
      → Option Context
      → String
      → RunState
      → RunState × Option GoError
      → Option GoError
      → Prog W Reply
  unfolding announce
  finish_execution keep w ctx run_id prev (final, run_err) event_err =
      on_error (validate_engine_output prev final) (λ e. pure (no_result, join (some e) event_err))
        (do
          c ← side_effect_context r ctx
          saved ← store.save c final
          on_error saved
              (λ e.
                pure (
                  no_result,
                  join run_err (join (some (normalize_command_save_error e)) event_err),
                ))
              (do
                e ← announce w ctx run_id final run_err event_err
                let reply =
                    reply_with (record final { version = increment final.version }) (join run_err e)
                keep reply
                pure reply))
