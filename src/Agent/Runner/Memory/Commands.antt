-- ===== src/Agent/Runner/Memory/Commands.antt =====
-- agent/runner.go: continue commands, and all commands, leave what is kept for a continue command.
use agentframe.Base.{
  String, ◌≡◌, refl, sym, subst, List, [], ◌∷◌, ap, ◌∙◌, false, Option, none, some, ◌==◌,
  Bool-cases, Option-cases, inl, inr,
}
use agentframe.Agent.Message.{clone_tool_definitions}
use agentframe.Agent.Run.{
  RunState, no_result, ContinueCommand, Command, start_command, continue_command, cancel_command,
  steer_command, follow_up_command,
}
use agentframe.Agent.Errors.{fails, invalid_run_id, run_not_continuable}
use agentframe.Agent.Lifecycle.{is_terminal_run_status}
use agentframe.Agent.Context.{Context}
use agentframe.Agent.Prog.{Prog, pure, on_error}
use agentframe.Agent.Runner.Checks.{validate_tool_definitions, validate_continue_resolution}
use agentframe.Agent.Runner.State.{
  OutcomeKey, Outcome, load_outcome, key_eq, continue_idempotency_key,
}
use agentframe.Agent.Runner.Effects.{Runner}
use agentframe.Agent.Runner.Finish.{Reply, refuse, reply_with}
use agentframe.Agent.Runner.Handlers.{
  use_cached, keep_outcome, resume_run, continue_run, with_loaded, continue_loaded,
  dispatch_continue, dispatch_cancel, dispatch_steer, dispatch_follow_up, continue_wording,
  continue_context, resolved_requirement_of,
}
use agentframe.Agent.Runner.{locked, dispatch, dispatch_command}
use agentframe.Agent.Runner.Dispatch.{dispatch_all}
use agentframe.Agent.Runner.Memory.{
  recall, Stays, Private, pure-Stays, bind-Stays, if-Stays, map-Stays, or_reply-Stays,
}
use agentframe.Agent.Runner.State.Outcomes.{load-store_other, key_eq-eq}
use agentframe.Agent.Runner.Memory.Effects.{lock-Stays, unlock-Stays}
use agentframe.Agent.Runner.Memory.Handlers.{
  finish-Stays, with_loaded-Stays, dispatch_start-Stays, dispatch_cancel-Stays,
  dispatch_steer-Stays, dispatch_follow_up-Stays,
}

module _ {W : Type 0} (r : Runner W) (k : OutcomeKey) (p : Private r k) where
  -- Another key's outcome is put beside the one under `k`.
  keep_other :
      (j : OutcomeKey) (x : Reply) → key_eq j k ≡ false → Stays r k (keep_outcome r (some j) x)
  unfolding keep_outcome
  keep_other j (result, error) other = record {
    from = λ w o h. ap (load_outcome k) (p.get_put _ w) ∙ (load-store_other j k _ _ other ∙ h);
  }

  continue_loaded-Stays :
      (ctx : Option Context) (cmd : ContinueCommand) (key : Option OutcomeKey) (s : RunState)
      → ((x : Reply) → Stays r k (keep_outcome r key x))
      → Stays r k (continue_loaded r ctx cmd key s)
  unfolding continue_loaded continue_run
  continue_loaded-Stays ctx cmd key s sk =
      if-Stays r k (is_terminal_run_status s.status)
        (pure-Stays r k (reply_with s (fails run_not_continuable "status")))
        (or_reply-Stays r k (validate_continue_resolution s cmd.resolution)
          (λ x. reply_with s (some x))
          (or_reply-Stays r k (resume_run s).1 (λ x. reply_with (resume_run s).0 (some x))
            (bind-Stays r k
              (p.engine (continue_context ctx cmd.resolution (resolved_requirement_of s))
                (resume_run s).0
                (record {
                  max_steps = cmd.max_steps;
                  tools = clone_tool_definitions cmd.tools;
                  resolution = cmd.resolution;
                  resolved_requirement = resolved_requirement_of s;
                }))
              λ out.
                finish-Stays r k p (keep_outcome r key) continue_wording ctx cmd.run_id
                  (resume_run s).0 out none sk)))

  body-Stays :
      (ctx : Option Context) (cmd : ContinueCommand) (key : Option OutcomeKey)
      → ((x : Reply) → Stays r k (keep_outcome r key x))
      → Stays r k (
          on_error
            (validate_tool_definitions cmd.tools)
            (λ e. pure (refuse e))
            (with_loaded r ctx cmd.run_id (continue_loaded r ctx cmd key)))
  body-Stays ctx cmd key sk = or_reply-Stays r k (validate_tool_definitions cmd.tools) refuse (
      with_loaded-Stays r k p ctx cmd.run_id (continue_loaded r ctx cmd key)
        λ s. continue_loaded-Stays ctx cmd key s sk)

  use_cached-Stays :
      (key : Option OutcomeKey) (go : Prog W Reply)
      → ((j : OutcomeKey) → key ≡ some j → key_eq j k ≡ false → Stays r k go)
      → (key ≡ none → Stays r k go)
      → Stays r k (use_cached r key go)
  unfolding use_cached load_outcome
  use_cached-Stays none go other absent = absent refl
  use_cached-Stays (some j) go other absent = elim (Bool-cases (key_eq j k)) [
    | inr ne ↦ record {
      from = λ w o h. elim (Option-cases (load_outcome j (r.command_outcomes.get w))) [
        | inl e ↦ rw (e, use_cached) ((other j refl ne).from w o h)
        | inr (x, e) ↦ rw (e, use_cached) h
      ];
    }
    | inl same ↦ record {
      from = λ w o h.
          let e : load_outcome j (r.command_outcomes.get w) ≡ some o =
            ap (λ i. load_outcome i (r.command_outcomes.get w)) (key_eq-eq j k same) ∙ h in
          rw (e, use_cached) h;
    }
  ]

  dispatch_continue-Stays :
      (ctx : Option Context) (cmd : ContinueCommand) → Stays r k (dispatch_continue r ctx cmd)
  unfolding dispatch_continue keep_outcome
  dispatch_continue-Stays ctx cmd =
      if-Stays r k (cmd.run_id == "")
        (pure-Stays r k (no_result, fails invalid_run_id "command=continue"))
        (use_cached-Stays key _ (λ j e ne. body-Stays ctx cmd key (λ x. keep_key key x j e ne))
          (λ e. body-Stays ctx cmd key (λ x. keep_none key x e)))
    where
      key : Option OutcomeKey
      key = continue_idempotency_key r.host.trim_space cmd.run_id cmd.command_id

      keep_key :
          (v : Option OutcomeKey) (x : Reply) (j : OutcomeKey)
          → v ≡ some j
          → key_eq j k ≡ false
          → Stays r k (keep_outcome r v x)
      keep_key v x j e ne = subst (λ i. Stays r k (keep_outcome r i x)) (sym e) (keep_other j x ne)

      keep_none : (v : Option OutcomeKey) (x : Reply) → v ≡ none → Stays r k (keep_outcome r v x)
      keep_none v x e = subst (λ i. Stays r k (keep_outcome r i x)) (sym e) (pure-Stays r k tt)

  locked-Stays : (id : String) (go : Prog W Reply) → Stays r k go → Stays r k (locked r id go)
  unfolding locked
  locked-Stays id go sg =
      bind-Stays r k (lock-Stays r k p id)
        λ a. bind-Stays r k sg λ reply. map-Stays r k (λ u. reply) (unlock-Stays r k p id)

  command-Stays : (ctx : Option Context) (cmd : Command) → Stays r k (dispatch_command r ctx cmd)
  unfolding dispatch_command
  command-Stays ctx (start_command input) = dispatch_start-Stays r k p ctx input
  command-Stays ctx (continue_command cmd) =
      locked-Stays cmd.run_id (dispatch_continue r ctx cmd) (dispatch_continue-Stays ctx cmd)
  command-Stays ctx (cancel_command id) =
      locked-Stays id (dispatch_cancel r ctx id) (dispatch_cancel-Stays r k p ctx id)
  command-Stays ctx (steer_command cmd) =
      locked-Stays cmd.run_id (dispatch_steer r ctx cmd) (dispatch_steer-Stays r k p ctx cmd)
  command-Stays ctx (follow_up_command cmd) =
      locked-Stays cmd.run_id (dispatch_follow_up r ctx cmd)
        (dispatch_follow_up-Stays r k p ctx cmd)
  command-Stays ctx _ = record { from = λ w o h. h }

  dispatch-Stays : (ctx : Option Context) (cmd : Command) → Stays r k (dispatch r ctx cmd)
  unfolding dispatch
  dispatch-Stays none cmd = record { from = λ w o h. h }
  dispatch-Stays (some ctx) cmd = command-Stays (some ctx) cmd

  pub dispatch_all-recall :
      (ctx : Option Context) (cmds : List Command) (w : W) (o : Outcome)
      → recall r k w ≡ some o
      → recall r k (dispatch_all r ctx cmds w) ≡ some o
  unfolding dispatch_all
  dispatch_all-recall ctx [] w o h = h
  dispatch_all-recall ctx (cmd ∷ cmds) w o h =
      dispatch_all-recall ctx cmds (dispatch r ctx cmd w).1 o ((dispatch-Stays ctx cmd).from w o h)
