-- ===== src/Agent/Runner/Memory/Handlers.antt =====
-- agent/runner.go: the handlers leave what is kept for a continue command.
use agentframe.Base.{String, not, Option, none, some, ◌==◌}
use agentframe.Base.Int.{pos, increment}
use agentframe.Agent.Requirement.{pending}
use agentframe.Agent.Message.{clone_tool_definitions}
use agentframe.Agent.Run.{
  RunState, RunInput, no_result, new_run_state, SteerCommand, FollowUpCommand, no_command, cancel,
  steer,
}
use agentframe.Agent.Errors.{GoError, join, fails, invalid_run_id, run_not_cancellable}
use agentframe.Agent.Event.{run_started, run_cancelled, run_checkpoint, command_applied}
use agentframe.Agent.Lifecycle.{is_terminal_run_status, transition_run_status}
use agentframe.Agent.Context.{Context}
use agentframe.Agent.Prog.{Prog, pure}
use agentframe.Agent.Runner.Checks.{
  normalize_command_save_error, validate_engine_output, validate_tool_definitions,
}
use agentframe.Agent.Runner.State.{OutcomeKey}
use agentframe.Agent.Runner.Effects.{Runner, plain_event}
use agentframe.Agent.Runner.Finish.{Reply, Wording, finish_execution, refuse, reply_with}
use agentframe.Agent.Runner.Handlers.{
  resolve_run_id, start_run, initial_state, dispatch_start, with_loaded, cancel_run, cancel_loaded,
  dispatch_cancel, refuse_loaded, add_message, steer_loaded, dispatch_steer, follow_up_loaded,
  dispatch_follow_up, start_wording, follow_up_wording,
}
use agentframe.Agent.Runner.Memory.{
  Stays, Private, pure-Stays, bind-Stays, if-Stays, map-Stays, or_reply-Stays,
}
use agentframe.Agent.Runner.Memory.Effects.{side_effect_context-Stays, emit-Stays, announce-Stays}

module _ {W : Type 0} (r : Runner W) (k : OutcomeKey) (p : Private r k) where
  pub finish-Stays :
      (keep : Reply → Prog W (Unit {0})) (v : Wording) (ctx : Option Context) (id : String)
      (prev : RunState) (out : RunState × Option GoError) (e : Option GoError)
      → ((x : Reply) → Stays r k (keep x))
      → Stays r k (finish_execution r keep v ctx id prev out e)
  unfolding finish_execution
  finish-Stays keep v ctx id prev (final, run_err) e sk =
      or_reply-Stays r k (validate_engine_output prev final) (λ x. (no_result, join (some x) e))
        (bind-Stays r k (side_effect_context-Stays r k p ctx) λ c.
          bind-Stays r k (p.save c final) λ saved.
            or_reply-Stays r k saved
              (λ x. (no_result, join run_err (join (some (normalize_command_save_error x)) e)))
              (bind-Stays r k (announce-Stays r k p v ctx id final run_err e) λ y.
                let reply =
                  reply_with (record final { version = increment final.version })
                    (join run_err y) in
                map-Stays r k (λ u. reply) (sk reply)))

  pub with_loaded-Stays :
      (ctx : Option Context) (id : String) (go : RunState → Prog W Reply)
      → ((s : RunState) → Stays r k (go s))
      → Stays r k (with_loaded r ctx id go)
  unfolding with_loaded
  with_loaded-Stays ctx id go sg =
      bind-Stays r k (side_effect_context-Stays r k p ctx)
        λ c. bind-Stays r k (p.load c id) λ l. or_reply-Stays r k l.1 refuse (sg l.0)

  nothing_kept : (x : Reply) → Stays r k (pure tt)
  nothing_kept x = pure-Stays r k tt

  resolve-Stays : (ctx : Option Context) (input : RunInput) → Stays r k (resolve_run_id r ctx input)
  unfolding resolve_run_id
  resolve-Stays ctx input =
      if-Stays r k (not (input.run_id == "")) (pure-Stays r k (input.run_id, none))
        (record { from = (p.ids ctx).from })

  start_run-Stays :
      (ctx : Option Context) (input : RunInput) (s : RunState) → Stays r k (start_run r ctx input s)
  unfolding start_run
  start_run-Stays ctx input s = bind-Stays r k (side_effect_context-Stays r k p ctx) λ c.
      bind-Stays r k (p.save c s) λ saved.
        or_reply-Stays r k saved (λ x. refuse (normalize_command_save_error x))
          (bind-Stays r k
            (emit-Stays r k p ctx
              (plain_event s.id (pos 0) run_started no_command
                "run persisted and ready for execution")
              none)
            λ e.
              bind-Stays r k
                (p.engine ctx (record s { version = increment s.version })
                  (record {
                    max_steps = input.max_steps;
                    tools = clone_tool_definitions input.tools;
                    resolution = none;
                    resolved_requirement = none;
                  }))
                λ out.
                  finish-Stays (λ x. pure tt) start_wording ctx s.id
                    (record s { version = increment s.version }) out e nothing_kept)

  pub dispatch_start-Stays :
      (ctx : Option Context) (input : RunInput) → Stays r k (dispatch_start r ctx input)
  unfolding dispatch_start
  dispatch_start-Stays ctx input =
      or_reply-Stays r k (validate_tool_definitions input.tools) refuse (
        bind-Stays r k (resolve-Stays ctx input) λ id. or_reply-Stays r k id.1 refuse (
          or_reply-Stays r k (transition_run_status (new_run_state id.0) pending).1 refuse
            (start_run-Stays ctx input (initial_state id.0 input))))

  pub dispatch_cancel-Stays :
      (ctx : Option Context) (id : String) → Stays r k (dispatch_cancel r ctx id)
  unfolding dispatch_cancel cancel_loaded
  dispatch_cancel-Stays ctx id =
      if-Stays r k (id == "") (pure-Stays r k (no_result, fails invalid_run_id "command=cancel")) (
        with_loaded-Stays ctx id (cancel_loaded r ctx id) λ s.
          if-Stays r k (is_terminal_run_status s.status)
            (pure-Stays r k (reply_with s (fails run_not_cancellable "status")))
            (or_reply-Stays r k (cancel_run s).1 (λ x. reply_with (cancel_run s).0 (some x))
              (bind-Stays r k (side_effect_context-Stays r k p ctx) λ c.
                bind-Stays r k (p.save c (cancel_run s).0) λ saved.
                  or_reply-Stays r k saved (λ x. refuse (normalize_command_save_error x))
                    (bind-Stays r k
                      (emit-Stays r k p ctx
                        (plain_event id (cancel_run s).0.step run_cancelled no_command
                          "run cancelled")
                        none)
                      λ e.
                        map-Stays r k
                          (λ y.
                            reply_with
                              (record ((cancel_run s).0) {
                                version = increment (cancel_run s).0.version;
                              })
                              y)
                          (emit-Stays r k p ctx
                            (plain_event id (cancel_run s).0.step command_applied cancel
                              "cancel command applied")
                            e)))))

  pub dispatch_steer-Stays :
      (ctx : Option Context) (cmd : SteerCommand) → Stays r k (dispatch_steer r ctx cmd)
  unfolding dispatch_steer steer_loaded
  dispatch_steer-Stays ctx cmd =
      if-Stays r k (cmd.run_id == "")
        (pure-Stays r k (no_result, fails invalid_run_id "command=steer"))
        (with_loaded-Stays ctx cmd.run_id (steer_loaded r ctx cmd) λ s.
          or_reply-Stays r k (refuse_loaded s) (λ x. reply_with s (some x))
            (bind-Stays r k (side_effect_context-Stays r k p ctx) λ c.
              bind-Stays r k (p.save c (add_message cmd.instruction s)) λ saved.
                or_reply-Stays r k saved refuse (
                  bind-Stays r k
                    (emit-Stays r k p ctx
                      (plain_event cmd.run_id (add_message cmd.instruction s).step run_checkpoint
                        no_command "steered run state persisted")
                      none)
                    λ e.
                      map-Stays r k
                        (λ y.
                          reply_with
                            (record (add_message cmd.instruction s) {
                              version = increment (add_message cmd.instruction s).version;
                            })
                            y)
                        (emit-Stays r k p ctx
                          (plain_event cmd.run_id (add_message cmd.instruction s).step
                            command_applied steer "steer command applied")
                          e))))

  pub dispatch_follow_up-Stays :
      (ctx : Option Context) (cmd : FollowUpCommand) → Stays r k (dispatch_follow_up r ctx cmd)
  unfolding dispatch_follow_up follow_up_loaded
  dispatch_follow_up-Stays ctx cmd =
      if-Stays r k (cmd.run_id == "")
        (pure-Stays r k (no_result, fails invalid_run_id "command=follow_up"))
        (or_reply-Stays r k (validate_tool_definitions cmd.tools) refuse (
          with_loaded-Stays ctx cmd.run_id (follow_up_loaded r ctx cmd) λ s.
            or_reply-Stays r k (refuse_loaded s) (λ x. reply_with s (some x))
              (bind-Stays r k
                (p.engine ctx (add_message cmd.user_prompt s) (record {
                  max_steps = cmd.max_steps;
                  tools = clone_tool_definitions cmd.tools;
                  resolution = none;
                  resolved_requirement = none;
                }))
                λ out.
                  finish-Stays (λ x. pure tt) follow_up_wording ctx cmd.run_id
                    (add_message cmd.user_prompt s) out none nothing_kept)))
