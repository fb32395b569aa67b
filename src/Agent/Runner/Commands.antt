-- ===== src/Agent/Runner/Commands.antt =====
-- The guarantee of each command of agent/runner.go, handler by handler.
use agentframe.Base.{
  String, ◌≡◌, refl, sym, ap, ◌∙◌, Bool, true, false, Option, none, some, if◌then◌else◌, Bool-cases,
  Option-cases, inl, inr, arith, items, [], ◌∷◌,
}
use agentframe.Base.Int.{≤ℤ_refl, ltbℤ}
use agentframe.Agent.Requirement.{running, cancelled, is_suspended}
use agentframe.Agent.Message.{plain_message, user, clone_messages-id}
use agentframe.Agent.Run.{RunState, ContinueCommand, SteerCommand, FollowUpCommand, clone_run_state}
use agentframe.Agent.Errors.{GoError}
use agentframe.Agent.Lifecycle.{is_terminal_run_status}
use agentframe.Agent.Lifecycle.Transitions.{Moved, transition_run_status-Moved}
use agentframe.Agent.Context.{Context}
use agentframe.Agent.Prog.{on_error, Prog, pure, ◌>>=◌}
use agentframe.Agent.History.{View, Rely, Rely-refl, Rely-trans, IsFiled, Continues, Continues-refl}
use agentframe.Agent.Runner.Checks.{validate_continue_resolution}
use agentframe.Agent.Runner.State.{OutcomeKey, load_outcome, continue_idempotency_key}
use agentframe.Agent.Runner.Effects.{Runner}
use agentframe.Agent.Runner.Finish.{Reply, refuse}
use agentframe.Agent.Runner.Handlers.{
  resume_run, cancel_run, add_message, refuse_loaded, with_loaded, continue_run, continue_loaded,
  use_cached, keep_outcome, dispatch_continue, cancel_loaded, dispatch_cancel, steer_loaded,
  dispatch_steer, follow_up_loaded, dispatch_follow_up, follow_up_wording, continue_wording,
}
use agentframe.Agent.Runner.Contract.{Contract, Loaded}
use agentframe.Agent.Runner.Contract.Saves.{Holds}
use agentframe.Agent.Runner.Guarantee.{
  Safe, saving-keeps, finish-keeps, emit-Safe, side_effect_context-Safe, outcomes-Rely,
}

-- What a handler does to a loaded state before it hands it on.
record Onward (s t : RunState) : Type 0 where
  same_run : t.id ≡ s.id
  same_version : t.version ≡ s.version
  same_step : t.step ≡ s.step
  transcript : Continues (items s.messages) (items t.messages)

Onward-of : {s t : RunState} → Moved s t → Onward s t
Onward-of {s} m = record {
  same_run = m.id;
  same_version = m.version;
  same_step = m.step;
  transcript = rw m.messages (Continues-refl (items s.messages));
}

resume-Onward : (s : RunState) → Onward s (resume_run s).0
unfolding resume_run
resume-Onward s = elim (Bool-cases (is_suspended s.status)) [
  | inl e ↦ rw e (
      Onward-of
        (lift (transition_run_status-Moved (record s { pending_requirement = none }) running)))
  | inr e ↦ rw e (Onward-of (record { id = refl; version = refl; step = refl; messages = refl }))
]
  where
    lift : {t : RunState} → Moved (record s { pending_requirement = none }) t → Moved s t
    lift m = record { id = m.id; version = m.version; step = m.step; messages = m.messages }

cancel-Onward : (s : RunState) → Onward s (cancel_run s).0
unfolding cancel_run
cancel-Onward s = elim (Bool-cases (is_suspended s.status)) [
  | inl e ↦ rw e (
      Onward-of
        (lift (transition_run_status-Moved (record s { pending_requirement = none }) cancelled)))
  | inr e ↦ rw e (Onward-of (transition_run_status-Moved s cancelled))
]
  where
    lift : {t : RunState} → Moved (record s { pending_requirement = none }) t → Moved s t
    lift m = record { id = m.id; version = m.version; step = m.step; messages = m.messages }

add-Onward : (content : String) (s : RunState) → Onward s (add_message content s)
unfolding add_message
add-Onward content s = record {
  same_run = refl;
  same_version = refl;
  same_step = refl;
  transcript = record { additions = plain_message user content ∷ []; extended = refl };
}

refuse_loaded-terminal :
    (s : RunState) → refuse_loaded s ≡ none → is_terminal_run_status s.status ≡ false
unfolding refuse_loaded
refuse_loaded-terminal s h = ground arith

loaded-Holds :
    {v : View} {id : String} {s t : RunState}
    → IsFiled v
    → Loaded v id s
    → is_terminal_run_status s.status ≡ false
    → Onward s t
    → Holds v t
unfolding clone_run_state
loaded-Holds {v} {id} {s} {t} f l alive o = record {
  current = l.stored;
  held = ap v (same_id ∙ f.own_id id l.stored l.held) ∙ l.held;
  own_id = sym same_id;
  same_version = o.same_version ∙ ap (λ (u : RunState). u.version) l.copied;
  not_terminal = ap (λ (u : RunState). is_terminal_run_status u.status) (sym l.copied) ∙ alive;
  step_grows = ap (λ k. ltbℤ k l.stored.step) same_step ∙ ≤ℤ_refl l.stored.step;
  transcript = rw same_messages o.transcript;
}
  where
    same_id : t.id ≡ l.stored.id
    same_id = o.same_run ∙ ap (λ (u : RunState). u.id) l.copied

    same_step : t.step ≡ l.stored.step
    same_step = o.same_step ∙ ap (λ (u : RunState). u.step) l.copied

    same_messages : items l.stored.messages ≡ items s.messages
    same_messages = sym (
        ap (λ (u : RunState). items u.messages) l.copied
        ∙ clone_messages-id (items l.stored.messages))

module _ {W : Type 0} {r : Runner W} (c : Contract r) where
  open c use {view}

  -- A handler that goes on from a loaded state, wherever the load has left the world.
  abbrev KeepsLoaded : String → (RunState → Prog W Reply) → Type 0
  KeepsLoaded id go =
      (s : RunState) (w : W) → Loaded (view w) id s → Rely (view w) (view (go s w).1)

  with_loaded-Safe :
      (ctx : Option Context) (id : String) (go : RunState → Prog W Reply)
      → KeepsLoaded id go
      → Safe c (with_loaded r ctx id go)
  unfolding with_loaded
  with_loaded-Safe ctx id go kg w = Rely-trans (side_effect_context-Safe c ctx w) (after _ _)
    where
      after :
          (d : Option Context) (u : W)
          → Rely
              (view u)
              (view ((do l ← r.store.load d id; on_error l.1 (λ e. pure (refuse e)) (go l.0)) u).1)
      after d u = elim (Option-cases (r.store.load d id u).0.1) [
        | inr (e, bad) ↦ rw bad (c.load_rely d id u)
        | inl ok ↦ rw ok (Rely-trans (c.load_rely d id u) (kg _ _ (c.load d id u ok)))
      ]

  cancel_loaded-keeps :
      (ctx : Option Context) (id : String) → KeepsLoaded id (cancel_loaded r ctx id)
  unfolding cancel_loaded
  cancel_loaded-keeps ctx id s w l = elim (Bool-cases (is_terminal_run_status s.status)) [
    | inl dead ↦ rw dead (Rely-refl (view w))
    | inr alive ↦ elim (Option-cases (cancel_run s).1) [
      | inr (e, bad) ↦ rw (alive, bad) (Rely-refl (view w))
      | inl ok ↦
          rw (alive, ok)
            (saving-keeps c ctx (cancel_run s).0 _ _ (view w) w
              (λ u. Rely-trans (emit-Safe c ctx _ none u) (emit-Safe c ctx _ _ _))
              (λ f. loaded-Holds f l alive (cancel-Onward s)) (Rely-refl (view w)))
    ]
  ]

  steer_loaded-keeps :
      (ctx : Option Context) (cmd : SteerCommand) → KeepsLoaded cmd.run_id (steer_loaded r ctx cmd)
  unfolding steer_loaded
  steer_loaded-keeps ctx cmd s w l = elim (Option-cases (refuse_loaded s)) [
    | inr (e, bad) ↦ rw bad (Rely-refl (view w))
    | inl ok ↦ rw ok (
        saving-keeps c ctx (add_message cmd.instruction s) _ _ (view w) w
          (λ u. Rely-trans (emit-Safe c ctx _ none u) (emit-Safe c ctx _ _ _))
          (λ f. loaded-Holds f l (refuse_loaded-terminal s ok) (add-Onward cmd.instruction s))
          (Rely-refl (view w)))
  ]

  follow_up_loaded-keeps :
      (ctx : Option Context) (cmd : FollowUpCommand)
      → KeepsLoaded cmd.run_id (follow_up_loaded r ctx cmd)
  unfolding follow_up_loaded
  follow_up_loaded-keeps ctx cmd s w l = elim (Option-cases (refuse_loaded s)) [
    | inr (e, bad) ↦ rw bad (Rely-refl (view w))
    | inl ok ↦ rw ok (
        finish-keeps c _ (λ x u. Rely-refl (view u)) follow_up_wording ctx cmd.run_id (view w)
          (add_message cmd.user_prompt s) _ _ none _
          (λ f. loaded-Holds f l (refuse_loaded-terminal s ok) (add-Onward cmd.user_prompt s))
          (c.version_kept ctx _ _ w) (c.engine_rely ctx _ _ w))
  ]

  keep_outcome-Safe : (key : Option OutcomeKey) (x : Reply) → Safe c (keep_outcome r key x)
  unfolding keep_outcome
  keep_outcome-Safe none x w = Rely-refl (view w)
  keep_outcome-Safe (some key) (result, error) w = outcomes-Rely c _ w

  continue_run-keeps :
      (ctx : Option Context) (cmd : ContinueCommand) (key : Option OutcomeKey) (s : RunState)
      (w : W)
      → is_terminal_run_status s.status ≡ false
      → Loaded (view w) cmd.run_id s
      → Rely (view w) (view (continue_run r ctx cmd key s w).1)
  unfolding continue_run
  continue_run-keeps ctx cmd key s w alive l = elim (Option-cases (resume_run s).1) [
    | inr (e, bad) ↦ rw bad (Rely-refl (view w))
    | inl ok ↦ rw ok (
        finish-keeps c _ (keep_outcome-Safe key) continue_wording ctx cmd.run_id (view w)
          (resume_run s).0 _ _ none _ (λ f. loaded-Holds f l alive (resume-Onward s))
          (c.version_kept _ _ _ w) (c.engine_rely _ _ _ w))
  ]

  continue_loaded-keeps :
      (ctx : Option Context) (cmd : ContinueCommand) (key : Option OutcomeKey)
      → KeepsLoaded cmd.run_id (continue_loaded r ctx cmd key)
  unfolding continue_loaded
  continue_loaded-keeps ctx cmd key s w l = elim (Bool-cases (is_terminal_run_status s.status)) [
    | inl dead ↦ rw dead (Rely-refl (view w))
    | inr alive ↦ elim (Option-cases (validate_continue_resolution s cmd.resolution)) [
      | inr (e, bad) ↦ rw (alive, bad) (Rely-refl (view w))
      | inl ok ↦ rw (alive, ok) (continue_run-keeps ctx cmd key s w alive l)
    ]
  ]

  use_cached-Safe :
      (key : Option OutcomeKey) (go : Prog W Reply) → Safe c go → Safe c (use_cached r key go)
  unfolding use_cached load_outcome
  use_cached-Safe none go sg w = sg w
  use_cached-Safe (some key) go sg w =
      elim (Option-cases (load_outcome key (r.command_outcomes.get w))) [
        | inl e ↦ rw (e, use_cached) (sg w)
        | inr (o, e) ↦ rw (e, use_cached) (Rely-refl (view w))
      ]

  -- `if runID == "" { return … }` before a handler's body
  unless-Safe :
      (b : Bool) (x : Reply) (go : Prog W Reply) → Safe c go → Safe c (if b then pure x else go)
  unless-Safe true x go sg w = Rely-refl (view w)
  unless-Safe false x go sg w = sg w

  checked-Safe :
      (e : Option GoError) (go : Prog W Reply)
      → Safe c go
      → Safe c (on_error e (λ x. pure (refuse x)) go)
  checked-Safe none go sg w = sg w
  checked-Safe (some x) go sg w = Rely-refl (view w)

  pub dispatch_continue-Safe :
      (ctx : Option Context) (cmd : ContinueCommand) → Safe c (dispatch_continue r ctx cmd)
  unfolding dispatch_continue
  dispatch_continue-Safe ctx cmd = unless-Safe _ _ _ (
      use_cached-Safe key _ (
        checked-Safe _ _ (
          with_loaded-Safe ctx cmd.run_id (continue_loaded r ctx cmd key)
            (continue_loaded-keeps ctx cmd key))))
    where
      key : Option OutcomeKey
      key = continue_idempotency_key r.host.trim_space cmd.run_id cmd.command_id

  pub dispatch_cancel-Safe :
      (ctx : Option Context) (id : String) → Safe c (dispatch_cancel r ctx id)
  unfolding dispatch_cancel
  dispatch_cancel-Safe ctx id =
      unless-Safe _ _ _
        (with_loaded-Safe ctx id (cancel_loaded r ctx id) (cancel_loaded-keeps ctx id))

  pub dispatch_steer-Safe :
      (ctx : Option Context) (cmd : SteerCommand) → Safe c (dispatch_steer r ctx cmd)
  unfolding dispatch_steer
  dispatch_steer-Safe ctx cmd =
      unless-Safe _ _ _
        (with_loaded-Safe ctx cmd.run_id (steer_loaded r ctx cmd) (steer_loaded-keeps ctx cmd))

  pub dispatch_follow_up-Safe :
      (ctx : Option Context) (cmd : FollowUpCommand) → Safe c (dispatch_follow_up r ctx cmd)
  unfolding dispatch_follow_up
  dispatch_follow_up-Safe ctx cmd = unless-Safe _ _ _ (
      checked-Safe _ _ (
        with_loaded-Safe ctx cmd.run_id (follow_up_loaded r ctx cmd)
          (follow_up_loaded-keeps ctx cmd)))
