-- ===== src/Agent/Runner/Repeats.antt =====
-- agent/runner.go: a continue command that is dispatched again under its command ID.
use agentframe.Base.{
  String, ◌≡◌, ◌≢◌, refl, sym, ap, ◌∙◌, Bool, true, false, Option, none, some, List, ◌==◌,
  Bool-cases, Option-cases, inl, inr, if◌then◌else◌,
}
use agentframe.Base.Int.{increment}
use agentframe.Agent.Run.{
  RunState, RunResult, no_result, ContinueCommand, Command, continue_command,
}
use agentframe.Agent.Message.{clone_tool_definitions}
use agentframe.Agent.Errors.{GoError, join}
use agentframe.Agent.Context.{Context}
use agentframe.Agent.Prog.{Prog, pure, on_error, ◌>>=◌, ◌>>◌}
use agentframe.Agent.Lifecycle.{is_terminal_run_status}
use agentframe.Agent.Runner.Checks.{
  validate_engine_output, normalize_command_save_error, validate_tool_definitions,
  validate_continue_resolution,
}
use agentframe.Agent.Runner.State.{
  OutcomeKey, Outcome, load_outcome, clone_run_result, continue_idempotency_key,
}
use agentframe.Agent.Runner.State.Outcomes.{load-store, load-copied}
use agentframe.Agent.Runner.Effects.{Runner, side_effect_context, lock_run_mutation}
use agentframe.Agent.Runner.Finish.{Reply, Wording, refuse, reply_with, finish_execution, announce}
use agentframe.Agent.Runner.Handlers.{
  keep_outcome, dispatch_continue, use_cached, with_loaded, continue_loaded, continue_run,
  resume_run, continue_context, resolved_requirement_of, continue_wording,
}
use agentframe.Agent.Runner.{locked, dispatch, dispatch_command}
use agentframe.Agent.Runner.Dispatch.{dispatch_all}
use agentframe.Agent.Runner.Memory.{recall, Private}
use agentframe.Agent.Runner.Memory.Effects.{lock-Stays, unlock-Stays}
use agentframe.Agent.Runner.Memory.Commands.{dispatch_all-recall}

key-named :
    (trim : String → String) (run_id command_id : String) (k : OutcomeKey)
    → continue_idempotency_key trim run_id command_id ≡ some k
    → (run_id == "") ≡ false
unfolding continue_idempotency_key
key-named trim run_id command_id k h = elim (Bool-cases (run_id == "")) [
  | inr e ↦ e
  | inl e ↦ absurd (emptied _ (run_id == "") e h)
]
  where
    emptied : (o : Option OutcomeKey) (b : Bool) → b ≡ true → (if b then none else o) ≡ some k → ⊥
    emptied o true e f = cc
    emptied o false e f = cc

join_fails : (a : Option GoError) (e : GoError) → join a (some e) ≢ none
unfolding join
join_fails none e h = cc
join_fails (some a) e h = cc

joined_fails : (e : GoError) (b : Option GoError) → join (some e) b ≢ none
unfolding join
joined_fails e none h = cc
joined_fails e (some b) h = cc

join_twice_fails :
    (a : Option GoError) (e : GoError) (b : Option GoError) → join a (join (some e) b) ≢ none
unfolding join
join_twice_fails none e none h = cc
join_twice_fails none e (some b) h = cc
join_twice_fails (some a) e none h = cc
join_twice_fails (some a) e (some b) h = cc

module _ {W : Type 0} (r : Runner W) (k : OutcomeKey) (p : Private r k) where
  abbrev outcome_of : Reply → Outcome
  outcome_of x = record { result = clone_run_result x.0; error = x.1 }

  -- A piece of code that ends with a reply has an error, or keeps the reply under the key.
  data Kept (x : Reply × W) : Type 0 where
    failed : x.0.1 ≢ none → Kept x
    stored : recall r k x.1 ≡ some (outcome_of x.0) → Kept x

  record Keeps (m : Prog W Reply) : Type 0 where
    from : (w : W) → Kept (m w)

  bind-Keeps :
      {A : Type 0} {f : A → Prog W Reply} (m : Prog W A) → ((a : A) → Keeps (f a)) → Keeps (m >>= f)
  bind-Keeps m kf = record { from = λ w. (kf (m w).0).from (m w).1 }

  or_fail-Keeps :
      {m : Prog W Reply} (e : Option GoError) (g : GoError → Reply)
      → ((x : GoError) → (g x).1 ≢ none)
      → Keeps m
      → Keeps (on_error e (λ x. pure (g x)) m)
  or_fail-Keeps none g bad km = km
  or_fail-Keeps (some x) g bad km = record { from = λ w. failed (bad x) }

  put-Keeps : (x : Reply) → Keeps (keep_outcome r (some k) x >> pure x)
  unfolding keep_outcome
  put-Keeps (result, error) = record {
    from = λ w. stored (
        ap (load_outcome k) (p.get_put _ w)
        ∙ load-store k (record { result = result; error = error }) _);
  }

  finish-Keeps :
      (v : Wording) (ctx : Option Context) (id : String) (prev : RunState)
      (out : RunState × Option GoError) (e : Option GoError)
      → Keeps (finish_execution r (keep_outcome r (some k)) v ctx id prev out e)
  unfolding finish_execution
  finish-Keeps v ctx id prev (final, run_err) e =
      or_fail-Keeps (validate_engine_output prev final) (λ x. (no_result, join (some x) e))
        (λ x. joined_fails x e)
        (bind-Keeps (side_effect_context r ctx) λ c. bind-Keeps (r.store.save c final) λ saved.
          or_fail-Keeps saved
            (λ x. (no_result, join run_err (join (some (normalize_command_save_error x)) e)))
            (λ x. join_twice_fails run_err (normalize_command_save_error x) e)
            (bind-Keeps (announce r v ctx id final run_err e) λ y.
              put-Keeps
                (reply_with (record final { version = increment final.version }) (join run_err y))))

  continue_loaded-Keeps :
      (ctx : Option Context) (cmd : ContinueCommand) (s : RunState)
      → Keeps (continue_loaded r ctx cmd (some k) s)
  unfolding continue_loaded continue_run
  continue_loaded-Keeps ctx cmd s = elim (Bool-cases (is_terminal_run_status s.status)) [
    | inl dead ↦ rw dead (record { from = λ w. failed (λ h. cc) })
    | inr alive ↦ rw alive (
        or_fail-Keeps (validate_continue_resolution s cmd.resolution) (λ x. reply_with s (some x))
          (λ x h. cc)
          (or_fail-Keeps (resume_run s).1 (λ x. reply_with (resume_run s).0 (some x)) (λ x h. cc)
            (bind-Keeps
              (r.engine.execute (continue_context ctx cmd.resolution (resolved_requirement_of s))
                (resume_run s).0
                (record {
                  max_steps = cmd.max_steps;
                  tools = clone_tool_definitions cmd.tools;
                  resolution = cmd.resolution;
                  resolved_requirement = resolved_requirement_of s;
                }))
              λ out. finish-Keeps continue_wording ctx cmd.run_id (resume_run s).0 out none)))
  ]

  body-Keeps :
      (ctx : Option Context) (cmd : ContinueCommand)
      → Keeps (
          on_error
            (validate_tool_definitions cmd.tools)
            (λ e. pure (refuse e))
            (with_loaded r ctx cmd.run_id (continue_loaded r ctx cmd (some k))))
  unfolding with_loaded
  body-Keeps ctx cmd =
      or_fail-Keeps (validate_tool_definitions cmd.tools) refuse (λ x h. cc)
        (bind-Keeps (side_effect_context r ctx) λ c.
          bind-Keeps (r.store.load c cmd.run_id)
            λ l. or_fail-Keeps l.1 refuse (λ x h. cc) (continue_loaded-Keeps ctx cmd l.0))

  cached-Keeps : (go : Prog W Reply) → Keeps go → Keeps (use_cached r (some k) go)
  unfolding use_cached load_outcome
  cached-Keeps go kg = record {
    from = λ w. elim (Option-cases (recall r k w)) [
      | inl e ↦ rw (e, use_cached) (kg.from w)
      | inr (o, e) ↦
          rw (e, use_cached)
            (stored (
              e
              ∙ ap (λ x. some (record { result = x; error = o.error }))
                  (sym (load-copied k (r.command_outcomes.get w) o e))))
    ];
  }

  module _ (cmd : ContinueCommand)
      (keyed : continue_idempotency_key r.host.trim_space cmd.run_id cmd.command_id ≡ some k) where
    continue-Keeps : (ctx : Option Context) → Keeps (dispatch_continue r ctx cmd)
    unfolding dispatch_continue
    continue-Keeps ctx =
        rw (key-named r.host.trim_space cmd.run_id cmd.command_id k keyed, keyed)
          (cached-Keeps _ (body-Keeps ctx cmd))

    -- A continue command whose outcome is kept is answered with it, and calls nothing.
    continue-recalled :
        (ctx : Option Context) (o : Outcome) (w : W)
        → recall r k w ≡ some o
        → dispatch_continue r ctx cmd w ≡ ((o.result, o.error), w)
    unfolding dispatch_continue use_cached load_outcome
    continue-recalled ctx o w h =
        rw (key-named r.host.trim_space cmd.run_id cmd.command_id k keyed, keyed, h) refl

    -- A continue command without an error leaves its reply under the key.
    continue-recall :
        (ctx : Context) (result : RunResult) (w : W)
        → (dispatch r (some ctx) (continue_command cmd) w).0 ≡ (result, none)
        → recall r k (dispatch r (some ctx) (continue_command cmd) w).1
          ≡ some (outcome_of (result, none))
    unfolding dispatch dispatch_command locked
    continue-recall ctx result w fine =
        let u = (lock_run_mutation r cmd.run_id w).1 in
        let x = dispatch_continue r (some ctx) cmd u in
        (unlock-Stays r k p cmd.run_id).from x.1 _ (kept ((continue-Keeps (some ctx)).from u) fine)
      where
        kept :
            {x : Reply × W}
            → Kept x
            → x.0 ≡ (result, none)
            → recall r k x.1 ≡ some (outcome_of (result, none))
        kept (failed bad) e = absurd (bad (ap (λ (y : Reply). y.1) e))
        kept (stored h) e = h ∙ ap (λ y. some (outcome_of y)) e

  -- What a repeated continue command comes to.
  pub record Answered (ctx : Context) (cmd : ContinueCommand) (result : RunResult) (w : W)
      : Type 0 where
    pub replies :
        (dispatch r (some ctx) (continue_command cmd) w).0 ≡ (clone_run_result result, none)
    pub calls_nothing : dispatch_continue r (some ctx) cmd w ≡ ((clone_run_result result, none), w)

  answered :
      (cmd : ContinueCommand) (ctx : Context) (result : RunResult) (w : W)
      → continue_idempotency_key r.host.trim_space cmd.run_id cmd.command_id ≡ some k
      → recall r k w ≡ some (outcome_of (result, none))
      → Answered ctx cmd result w
  unfolding dispatch dispatch_command locked
  answered cmd ctx result w keyed h =
      let u = (lock_run_mutation r cmd.run_id w).1 in
      let held = (lock-Stays r k p cmd.run_id).from w _ h in
      record {
        replies =
            ap (λ (x : Reply × W). x.0)
              (continue-recalled cmd keyed (some ctx) (outcome_of (result, none)) u held);
        calls_nothing = continue-recalled cmd keyed (some ctx) (outcome_of (result, none)) w h;
      }

  -- If a continue command with a command ID is dispatched and answered without an error, then
  -- after any sequence of commands a continue command with the same run and command IDs is
  -- answered with a copy of that result and no error, and its handler changes nothing: neither
  -- store nor engine nor sink is called. It is assumed that the table of outcomes gives back
  -- what is put into it, and that neither the lock table, nor the calls of the dependencies,
  -- nor what other goroutines do meanwhile change what is kept under the command ID.
  pub dispatch_continue-repeated :
      (ctx later_ctx : Context) (between : Option Context) (cmd again : ContinueCommand)
      (cmds : List Command) (result : RunResult) (w : W)
      → continue_idempotency_key r.host.trim_space cmd.run_id cmd.command_id ≡ some k
      → continue_idempotency_key r.host.trim_space again.run_id again.command_id ≡ some k
      → (dispatch r (some ctx) (continue_command cmd) w).0 ≡ (result, none)
      → Answered later_ctx again result
          (dispatch_all r between cmds (dispatch r (some ctx) (continue_command cmd) w).1)
  dispatch_continue-repeated ctx later_ctx between cmd again cmds result w keyed same fine =
      answered again later_ctx result _ same
        (dispatch_all-recall r k p between cmds _ _ (continue-recall cmd keyed ctx result w fine))
