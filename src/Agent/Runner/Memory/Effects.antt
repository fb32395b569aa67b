-- ===== src/Agent/Runner/Memory/Effects.antt =====
-- agent/runner.go: events, contexts and locks leave the table of outcomes alone.
use agentframe.Base.{String, ap, ◌∙◌, Bool, Option, none, some, ◌==◌, Option-cases, inl, inr}
use agentframe.Agent.Run.{RunState, no_command}
use agentframe.Agent.Requirement.{is_suspended, is_cancelled}
use agentframe.Agent.Errors.{GoError, join}
use agentframe.Agent.Event.{Event, run_cancelled, run_suspended, run_checkpoint, command_applied}
use agentframe.Agent.Validation.{validate_event}
use agentframe.Agent.Context.{Context}
use agentframe.Agent.Interfaces.{ctx_err}
use agentframe.Agent.Prog.{read, write, ◌>>=◌}
use agentframe.Agent.Runner.State.{
  CommandLocks, OutcomeKey, load_outcome, register, free_mutex, take_mutex, unregister,
}
use agentframe.Agent.Runner.Effects.{
  Runner, publish_event, emit, side_effect_context, lock_run_mutation, unlock_run_mutation,
  plain_event, cancellation_event_description, suspension_event_description,
}
use agentframe.Agent.Runner.Finish.{announce, emit_if, Wording}
use agentframe.Agent.Runner.Memory.{Stays, Private, pure-Stays, bind-Stays, if-Stays, map-Stays}

module _ {W : Type 0} (r : Runner W) (k : OutcomeKey) (p : Private r k) where
  ctx_err-Stays : (ctx : Context) → Stays r k (ctx_err r.host ctx)
  unfolding ctx_err
  ctx_err-Stays ctx = if-Stays r k ctx.live p.cancellation (pure-Stays r k none)

  pub side_effect_context-Stays : (ctx : Option Context) → Stays r k (side_effect_context r ctx)
  unfolding side_effect_context
  side_effect_context-Stays none = pure-Stays r k _
  side_effect_context-Stays (some ctx) = record { from = (ctx_err-Stays ctx).from }

  publish_event-Stays :
      (ctx : Option Context) (e : Event) → Stays r k (publish_event ctx r.events e)
  unfolding publish_event
  publish_event-Stays ctx e = elim (Option-cases (validate_event e)) [
    | inl ok ↦ rw (ok, publish_event) (record { from = (p.publish ctx e).from })
    | inr (x, bad) ↦ rw (bad, publish_event) (pure-Stays r k _)
  ]

  pub emit-Stays :
      (ctx : Option Context) (e : Event) (x : Option GoError) → Stays r k (emit r ctx e x)
  unfolding emit
  emit-Stays ctx e x =
      bind-Stays r k {m = side_effect_context r ctx} (side_effect_context-Stays ctx)
        λ c. map-Stays r k (join x) (publish_event-Stays c e)

  emit_if-Stays :
      (b : Bool) (ctx : Option Context) (e : Event) (x : Option GoError)
      → Stays r k (emit_if r b ctx e x)
  unfolding emit_if
  emit_if-Stays Bool.true ctx e x = emit-Stays ctx e x
  emit_if-Stays Bool.false ctx e x = pure-Stays r k x

  pub announce-Stays :
      (v : Wording) (ctx : Option Context) (id : String) (s : RunState) (x y : Option GoError)
      → Stays r k (announce r v ctx id s x y)
  unfolding announce
  announce-Stays v ctx id s x y =
      bind-Stays r k
        (emit_if-Stays (is_cancelled s.status) ctx
          (plain_event id s.step run_cancelled no_command (cancellation_event_description r x)) y)
        λ a.
          bind-Stays r k
            (emit_if-Stays (is_suspended s.status) ctx
              (plain_event id s.step run_suspended no_command (suspension_event_description r s)) a)
            λ b.
              bind-Stays r k
                (emit-Stays ctx (plain_event id s.step run_checkpoint no_command v.persisted) b)
                λ c. emit-Stays ctx (plain_event id s.step command_applied v.kind v.applied) c

  -- a change of the lock table
  changed-Stays :
      (f : CommandLocks → CommandLocks)
      → Stays r k (read r.command_locks >>= λ t. write r.command_locks (f t))
  changed-Stays f = record { from = λ w o h. ap (load_outcome k) (p.locks_apart _ w) ∙ h }

  pub lock-Stays : (id : String) → Stays r k (lock_run_mutation r id)
  unfolding lock_run_mutation
  lock-Stays id = if-Stays r k (id == "") (pure-Stays r k tt) (record {
    from = λ w o h.
        let a = (changed-Stays (register id)).from w o h in
        let u = r.command_locks.put (register id (r.command_locks.get w)) w in
        let b = (p.await id).from u o a in
        (changed-Stays (take_mutex id)).from (r.host.await_mutex id u).1 o b;
  })

  pub unlock-Stays : (id : String) → Stays r k (unlock_run_mutation r id)
  unfolding unlock_run_mutation
  unlock-Stays id = if-Stays r k (id == "") (pure-Stays r k tt) (record {
    from = λ w o h.
        let u = r.command_locks.put (free_mutex id (r.command_locks.get w)) w in
        (changed-Stays (unregister id)).from u o ((changed-Stays (free_mutex id)).from w o h);
  })
