-- ===== src/Agent/Runner/Guarantee.antt =====
-- Every command changes the store only as the history of its runs allows, whatever other goroutines
-- do meanwhile: rely and guarantee are the same relation, so commands may run side by side.
use agentframe.Base.{
  String, ◌≡◌, sym, ◌∙◌, Bool, true, false, Option, none, some, ◌==◌, Bool-cases, Option-cases, inl,
  inr,
}
use agentframe.Base.Int.{increment, ≤ℤ_trans}
use agentframe.Agent.Requirement.{is_suspended, is_cancelled}
use agentframe.Agent.Run.{RunState, no_command}
use agentframe.Agent.Errors.{GoError, join}
use agentframe.Agent.Event.{Event, run_cancelled, run_suspended}
use agentframe.Agent.Validation.{validate_event}
use agentframe.Agent.Context.{Context}
use agentframe.Agent.Prog.{on_error, Prog, pure, ◌>>=◌, ◌>>◌}
use agentframe.Agent.Interfaces.{ctx_err}
use agentframe.Agent.History.{View, Rely, Rely-refl, Rely-trans, IsFiled, Continues-trans}
use agentframe.Agent.Runner.Effects.{
  Runner, plain_event, cancellation_event_description, suspension_event_description, publish_event,
  emit, side_effect_context, lock_run_mutation, unlock_run_mutation,
}
use agentframe.Agent.Runner.Finish.{finish_execution, announce, emit_if, Wording, Reply, reply_with}
use agentframe.Agent.Runner.Checks.{validate_engine_output}
use agentframe.Agent.Runner.Checks.Output.{Accepted, validate_engine_output-Accepted}
use agentframe.Agent.Runner.State.{CommandLocks, Outcomes}
use agentframe.Agent.Runner.Contract.{Contract}
use agentframe.Agent.Runner.Contract.Saves.{Holds, save_keeps}

-- What an engine makes of a held state is held, if it passes the check.
output-Holds :
    (v : View) (prev final : RunState)
    → Holds v prev
    → final.version ≡ prev.version
    → Accepted prev final
    → Holds v final
output-Holds v prev final h same a = record {
  current = h.current;
  held = rw a.same_run h.held;
  own_id = h.own_id ∙ sym a.same_run;
  same_version = same ∙ h.same_version;
  not_terminal = h.not_terminal;
  step_grows = ≤ℤ_trans h.current.step prev.step final.step h.step_grows a.step_grows;
  transcript = Continues-trans h.transcript a.transcript;
}

module _ {W : Type 0} {r : Runner W} (c : Contract r) where
  open c use {view}

  -- A piece of code that keeps the store evolving, from wherever it starts.
  abbrev pub Safe : {A : Type 0} → Prog W A → Type 0
  Safe m = (w : W) → Rely (view w) (view (m w).1)

  ctx_err-Safe : (ctx : Context) → Safe (ctx_err r.host ctx)
  unfolding ctx_err
  ctx_err-Safe ctx w = elim (Bool-cases ctx.live) [
    | inl e ↦ rw e (c.cancellation_rely w)
    | inr e ↦ rw e (Rely-refl (view w))
  ]

  pub side_effect_context-Safe : (ctx : Option Context) → Safe (side_effect_context r ctx)
  unfolding side_effect_context
  side_effect_context-Safe none w = Rely-refl (view w)
  side_effect_context-Safe (some ctx) w = ctx_err-Safe ctx w

  publish_event-Safe : (ctx : Option Context) (e : Event) → Safe (publish_event ctx r.events e)
  unfolding publish_event
  publish_event-Safe ctx e w = elim (Option-cases (validate_event e)) [
    | inl ok ↦ rw (ok, publish_event) (c.publish_rely ctx e w)
    | inr (x, bad) ↦ rw (bad, publish_event) (Rely-refl (view w))
  ]

  pub emit-Safe : (ctx : Option Context) (e : Event) (x : Option GoError) → Safe (emit r ctx e x)
  unfolding emit
  emit-Safe ctx e x w = Rely-trans (side_effect_context-Safe ctx w) (publish_event-Safe _ e _)

  emit_if-Safe :
      (b : Bool) (d : Option Context) (e : Event) (z : Option GoError) → Safe (emit_if r b d e z)
  unfolding emit_if
  emit_if-Safe true d e z w = emit-Safe d e z w
  emit_if-Safe false d e z w = Rely-refl (view w)

  announce-Safe :
      (k : Wording) (ctx : Option Context) (id : String) (s : RunState) (x y : Option GoError)
      → Safe (announce r k ctx id s x y)
  unfolding announce
  announce-Safe k ctx id s x y w =
      Rely-trans (emit_if-Safe (is_cancelled s.status) ctx cancelled_event y w) (
        Rely-trans (emit_if-Safe (is_suspended s.status) ctx suspended_event _ _)
          (Rely-trans (emit-Safe ctx _ _ _) (emit-Safe ctx _ _ _)))
    where
      cancelled_event : Event
      cancelled_event =
          plain_event id s.step run_cancelled no_command (cancellation_event_description r x)

      suspended_event : Event
      suspended_event =
          plain_event id s.step run_suspended no_command (suspension_event_description r s)

  locks-Rely : (t : CommandLocks) (w : W) → Rely (view w) (view (r.command_locks.put t w))
  locks-Rely t w = rw (c.locks_apart t w) (Rely-refl (view w))

  pub outcomes-Rely : (t : Outcomes) (w : W) → Rely (view w) (view (r.command_outcomes.put t w))
  outcomes-Rely t w = rw (c.outcomes_apart t w) (Rely-refl (view w))

  pub lock_run_mutation-Safe : (id : String) → Safe (lock_run_mutation r id)
  unfolding lock_run_mutation
  lock_run_mutation-Safe id w = elim (Bool-cases (id == "")) [
    | inl e ↦ rw e (Rely-refl (view w))
    | inr e ↦ rw e (Rely-trans (locks-Rely _ w) (Rely-trans (c.await_rely id _) (locks-Rely _ _)))
  ]

  pub unlock_run_mutation-Safe : (id : String) → Safe (unlock_run_mutation r id)
  unfolding unlock_run_mutation
  unlock_run_mutation-Safe id w = elim (Bool-cases (id == "")) [
    | inl e ↦ rw e (Rely-refl (view w))
    | inr e ↦ rw e (Rely-trans (locks-Rely _ w) (locks-Rely _ _))
  ]

  on_error-keeps :
      (e : Option GoError) (f : GoError → Reply) (go : Prog W Reply) (v : View) (w : W)
      → Safe go
      → Rely v (view w)
      → Rely v (view (on_error e (λ x. pure (f x)) go w).1)
  on_error-keeps none f go v w sg now = Rely-trans now (sg w)
  on_error-keeps (some x) f go v w sg now = now

  -- A handler's save of a state that it holds, and what it does after it.
  pub saving-keeps :
      (ctx : Option Context) (s : RunState) (f : GoError → Reply) (go : Prog W Reply) (v : View)
      (w : W)
      → Safe go
      → (IsFiled v → Holds v s)
      → Rely v (view w)
      → Rely v (
          view
            ((do
              d ← side_effect_context r ctx
              saved ← r.store.save d s
              on_error saved (λ e. pure (f e)) go)
              w).1)
  saving-keeps ctx s f go v w sg h now =
      on_error-keeps _ f go v _ sg
        (save_keeps s h (Rely-trans now (side_effect_context-Safe ctx w)) (c.save _ s _))

  after-save :
      (keep : Reply → Prog W (Unit {0}))
      → ((x : Reply) → Safe (keep x))
      → (k : Wording) (ctx : Option Context) (id : String) (final : RunState) (x y : Option GoError)
      → Safe (do
        e ← announce r k ctx id final x y
        let reply = reply_with (record final { version = increment final.version }) (join x e)
        keep reply
        pure reply)
  after-save keep sk k ctx id final x y w = Rely-trans (announce-Safe k ctx id final x y w) (sk _ _)

  -- From the engine's output on, if the state that the engine was given is held.
  pub finish-keeps :
      (keep : Reply → Prog W (Unit {0}))
      → ((x : Reply) → Safe (keep x))
      → (k : Wording) (ctx : Option Context) (id : String) (v : View) (prev final : RunState)
        (x y : Option GoError) (w : W)
      → (IsFiled v → Holds v prev)
      → final.version ≡ prev.version
      → Rely v (view w)
      → Rely v (view (finish_execution r keep k ctx id prev (final, x) y w).1)
  unfolding finish_execution
  finish-keeps keep sk k ctx id v prev final x y w h same now =
      elim (Option-cases (validate_engine_output prev final)) [
        | inr (e, bad) ↦ rw (bad, finish_execution) now
        | inl ok ↦
            rw (ok, finish_execution)
              (saving-keeps ctx final _ _ v w (after-save keep sk k ctx id final x y)
                (λ f.
                  output-Holds v prev final (h f) same
                    (validate_engine_output-Accepted prev final ok))
                now)
      ]
