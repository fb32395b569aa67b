-- ===== src/Agent/Runner/Dispatch.antt =====
-- The guarantee of agent/runner.go as a whole: starting a run, and the dispatch of any command.
use agentframe.Base.{
  String, ◌≡◌, refl, subst, true, false, Option, none, some, ◌==◌, Bool-cases, inl, inr, arith,
  items, List, [], ◌∷◌,
}
use agentframe.Base.Int.{pos, increment, ≤ℤ_refl}
use agentframe.Agent.Requirement.{pending}
use agentframe.Agent.Message.{clone_messages-id}
use agentframe.Agent.Run.{
  RunState, RunInput, Command, clone_run_state, new_run_state, start_command, continue_command,
  cancel_command, steer_command, follow_up_command,
}
use agentframe.Agent.Errors.{GoError}
use agentframe.Agent.Lifecycle.{is_terminal_run_status, transition_run_status}
use agentframe.Agent.Context.{Context}
use agentframe.Agent.Prog.{on_error, Prog, pure}
use agentframe.Agent.History.{
  View, Rely, Rely-refl, Rely-trans, IsFiled, Continues-refl, Evolves, Grown, Grown-of_stored,
  Reach, Reach-terminal, Since, Since-Reach, Since-version,
}
use agentframe.Agent.Runner.{dispatch, dispatch_command, locked}
use agentframe.Agent.Runner.Checks.{validate_tool_definitions, normalize_command_save_error}
use agentframe.Agent.Runner.Effects.{Runner}
use agentframe.Agent.Runner.Finish.{Reply, refuse}
use agentframe.Agent.Runner.Handlers.{
  dispatch_continue, dispatch_cancel, dispatch_steer, dispatch_follow_up, start_run, resolve_run_id,
  dispatch_start, initial_state, start_wording,
}
use agentframe.Agent.Runner.Contract.{Contract}
use agentframe.Agent.Runner.Contract.Saves.{Holds, FirstSave, failed, stored, first_save, stored_as}
use agentframe.Agent.Runner.Guarantee.{
  Safe, finish-keeps, emit-Safe, side_effect_context-Safe, lock_run_mutation-Safe,
  unlock_run_mutation-Safe,
}
use agentframe.Agent.Runner.Commands.{
  dispatch_continue-Safe, dispatch_cancel-Safe, dispatch_steer-Safe, dispatch_follow_up-Safe,
}

-- Commands one after another.
unfoldable pub dispatch_all : {W : Type 0} → Runner W → Option Context → List Command → W → W
dispatch_all r ctx [] w = w
dispatch_all r ctx (cmd ∷ cmds) w = dispatch_all r ctx cmds (dispatch r ctx cmd w).1

module _ {W : Type 0} {r : Runner W} (c : Contract r) where
  open c use {view}

  -- A new run that was saved is held by the store.
  created-Holds :
      {v : View} (s : RunState)
      → s.version ≡ pos 0
      → is_terminal_run_status s.status ≡ false
      → v s.id ≡ some (stored_as s (pos 1))
      → Holds v (record s { version = increment s.version })
  unfolding clone_run_state increment
  created-Holds s zero alive e = record {
    current = stored_as s (pos 1);
    held = e;
    own_id = refl;
    same_version = rw zero;
    not_terminal = alive;
    step_grows = ≤ℤ_refl s.step;
    transcript = rw (clone_messages-id (items s.messages)) (Continues-refl (items s.messages));
  }

  initial_state-new :
      (id : String) (input : RunInput)
      → ((initial_state id input).version ≡ pos 0)
        × (is_terminal_run_status (initial_state id input).status ≡ false)
  unfolding initial_state new_run_state transition_run_status is_terminal_run_status
  initial_state-new id input = ground arith

  after_first :
      (s : RunState) (e : Option GoError) (v : View) (u : W) (go : Prog W Reply)
      → FirstSave s v (view u) e
      → (view u s.id ≡ some (stored_as s (pos 1)) → Rely (view u) (view (go u).1))
      → Rely v (view (on_error e (λ x. pure (refuse (normalize_command_save_error x))) go u).1)
  after_first s none v u go (failed ne b) k = absurd (ne refl)
  after_first s none v u go (stored _ b p) k = λ f. Rely-trans b (k (p f)) f
  after_first s (some x) v u go (failed ne b) k = b
  after_first s (some x) v u go (stored e b p) k = b

  start_run-Safe :
      (ctx : Option Context) (input : RunInput) (s : RunState)
      → s.version ≡ pos 0
      → is_terminal_run_status s.status ≡ false
      → Safe c (start_run r ctx input s)
  unfolding start_run
  start_run-Safe ctx input s zero alive w = Rely-trans (side_effect_context-Safe c ctx w) (
      after_first s _ _ _ _ (first_save s zero (c.save _ s _)) λ e.
        finish-keeps c _ (λ x u. Rely-refl (view u)) start_wording ctx s.id _
          (record s { version = increment s.version }) _ _ _ _ (λ _. created-Holds s zero alive e)
          (c.version_kept ctx _ _ _)
          (Rely-trans (emit-Safe c ctx _ none _) (c.engine_rely ctx _ _ _)))

  resolve_run_id-Safe :
      (ctx : Option Context) (input : RunInput) → Safe c (resolve_run_id r ctx input)
  unfolding resolve_run_id
  resolve_run_id-Safe ctx input w = elim (Bool-cases (input.run_id == "")) [
    | inl e ↦ rw e (c.ids_rely ctx w)
    | inr e ↦ rw e (Rely-refl (view w))
  ]

  refuse_or-Safe :
      (e : Option GoError) (go : Prog W Reply)
      → Safe c go
      → Safe c (on_error e (λ x. pure (refuse x)) go)
  refuse_or-Safe none go sg w = sg w
  refuse_or-Safe (some x) go sg w = Rely-refl (view w)

  dispatch_start-Safe :
      (ctx : Option Context) (input : RunInput) → Safe c (dispatch_start r ctx input)
  unfolding dispatch_start
  dispatch_start-Safe ctx input =
      refuse_or-Safe (validate_tool_definitions input.tools) _
        λ w. Rely-trans (resolve_run_id-Safe ctx input w) (from_id _ _)
    where
      begin : String → Prog W Reply
      begin id = start_run r ctx input (initial_state id input)

      begin-Safe : (id : String) → Safe c (begin id)
      begin-Safe id =
          let new = initial_state-new id input in
          start_run-Safe ctx input (initial_state id input) new.0 new.1

      from_id :
          (id : String × Option GoError)
          → Safe c (
              on_error id.1
                (λ e. pure (refuse e))
                (on_error
                  (transition_run_status (new_run_state id.0) pending).1
                  (λ e. pure (refuse e))
                  (begin id.0)))
      from_id id = refuse_or-Safe id.1 _ (refuse_or-Safe _ _ (begin-Safe id.0))

  locked-Safe : (id : String) (go : Prog W Reply) → Safe c go → Safe c (locked r id go)
  unfolding locked
  locked-Safe id go sg w =
      Rely-trans (lock_run_mutation-Safe c id w)
        (Rely-trans (sg _) (unlock_run_mutation-Safe c id _))

  dispatch_command-Safe :
      (ctx : Option Context) (cmd : Command) → Safe c (dispatch_command r ctx cmd)
  unfolding dispatch_command
  dispatch_command-Safe ctx (start_command input) = dispatch_start-Safe ctx input
  dispatch_command-Safe ctx (continue_command cmd) =
      locked-Safe cmd.run_id (dispatch_continue r ctx cmd) (dispatch_continue-Safe c ctx cmd)
  dispatch_command-Safe ctx (cancel_command id) =
      locked-Safe id (dispatch_cancel r ctx id) (dispatch_cancel-Safe c ctx id)
  dispatch_command-Safe ctx (steer_command cmd) =
      locked-Safe cmd.run_id (dispatch_steer r ctx cmd) (dispatch_steer-Safe c ctx cmd)
  dispatch_command-Safe ctx (follow_up_command cmd) =
      locked-Safe cmd.run_id (dispatch_follow_up r ctx cmd) (dispatch_follow_up-Safe c ctx cmd)
  dispatch_command-Safe ctx _ = λ w. Rely-refl (view w)

  -- Under the contract of the runner and from a well-formed store, every command, whatever it
  -- returns and whatever its dependencies and other goroutines do meanwhile, leads to a well-
  -- formed store in which each run went through creations and advances only.
  pub dispatch-Evolves :
      (ctx : Option Context) (cmd : Command) (w : W)
      → IsFiled (view w)
      → Evolves (view w) (view (dispatch r ctx cmd w).1)
  unfolding dispatch
  dispatch-Evolves none cmd w f = Rely-refl (view w) f
  dispatch-Evolves (some ctx) cmd w f = dispatch_command-Safe (some ctx) cmd w f

  dispatch_all-Evolves :
      (ctx : Option Context) (cmds : List Command) (w : W)
      → Rely (view w) (view (dispatch_all r ctx cmds w))
  unfolding dispatch_all
  dispatch_all-Evolves ctx [] w = Rely-refl (view w)
  dispatch_all-Evolves ctx (cmd ∷ cmds) w =
      Rely-trans (dispatch-Evolves ctx cmd w)
        (dispatch_all-Evolves ctx cmds (dispatch r ctx cmd w).1)

  stored-Reach :
      (ctx : Option Context) (cmds : List Command) (w : W) (id : String) (s : RunState)
      → IsFiled (view w)
      → view w id ≡ some s
      → Reach (some s) (view (dispatch_all r ctx cmds w) id)
  stored-Reach ctx cmds w id s f e =
      subst (λ o. Reach o (view (dispatch_all r ctx cmds w) id)) e
        ((dispatch_all-Evolves ctx cmds w f).reach id)

  -- Under the contract of the runner and from a well-formed store, after any sequence of
  -- commands a run that was stored with a terminal status is stored unchanged.
  pub terminal_absorbing :
      (ctx : Option Context) (cmds : List Command) (w : W) (id : String) (s : RunState)
      → IsFiled (view w)
      → view w id ≡ some s
      → is_terminal_run_status s.status ≡ true
      → view (dispatch_all r ctx cmds w) id ≡ some s
  terminal_absorbing ctx cmds w id s f e dead =
      Reach-terminal dead (stored-Reach ctx cmds w id s f e)

  -- Under the contract of the runner and from a well-formed store, after any sequence of
  -- commands a stored run is still stored, with its ID, a step counter that is no lower and a
  -- transcript that continues the old one.
  pub transcript_append_only :
      (ctx : Option Context) (cmds : List Command) (w : W) (id : String) (s : RunState)
      → IsFiled (view w)
      → view w id ≡ some s
      → (t : RunState) × (view (dispatch_all r ctx cmds w) id ≡ some t) × Grown s t
  transcript_append_only ctx cmds w id s f e = Grown-of_stored (stored-Reach ctx cmds w id s f e)

  -- Under the contract of the runner and from a well-formed store, after any sequence of
  -- commands, if the stored version of a run is the same as before, so is its whole stored
  -- state.
  pub version_identifies :
      (ctx : Option Context) (cmds : List Command) (w : W) (id : String) (s t : RunState)
      → IsFiled (view w)
      → view w id ≡ some s
      → view (dispatch_all r ctx cmds w) id ≡ some t
      → t.version ≡ s.version
      → t ≡ s
  version_identifies ctx cmds w id s t f e g v =
      Since-version (subst (λ o. Since s o) g (Since-Reach (stored-Reach ctx cmds w id s f e))) v
