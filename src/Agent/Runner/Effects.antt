-- ===== src/Agent/Runner/Effects.antt =====
-- agent/runner.go: the runner's dependencies, its events, contexts and locks.
use agentframe.Base.{String, false, Option, none, some, [], ◌∷◌, ◌==◌, if◌then◌else◌, is_some}
use agentframe.Base.Int.{ℤ}
use agentframe.Agent.Requirement.{PendingRequirement}
use agentframe.Agent.Run.{RunState, CommandKind}
use agentframe.Agent.Event.{Event, EventType}
use agentframe.Agent.Validation.{validate_event}
use agentframe.Agent.Errors.{
  GoError, wrap, sentinel, both, join, event_publish, missing_id_generator, missing_run_store,
  missing_engine,
}
use agentframe.Agent.Context.{Context, background}
use agentframe.Agent.Prog.{Prog, Part, pure, read, write, ◌>>=◌, ◌>>◌}
use agentframe.Agent.Interfaces.{
  RunStore, EventSink, IdGenerator, Engine, Host, ctx_err, kind_text, origin_text,
}
use agentframe.Agent.Runner.State.{
  CommandLocks, Outcomes, register, take_mutex, free_mutex, unregister,
}

pub record Runner (W : Type 0) : Type 0 where
  pub id_gen : IdGenerator W
  pub store : RunStore W
  pub engine : Engine W
  pub events : EventSink W
  pub command_locks : Part W CommandLocks
  pub command_outcomes : Part W Outcomes
  pub host : Host W

pub record Dependencies (W : Type 0) : Type 0 where
  pub id_generator : Option (IdGenerator W)
  pub run_store : Option (RunStore W)
  pub engine : Option (Engine W)
  pub event_sink : Option (EventSink W)

abbrev pub noop_event_sink : {W : Type 0} → EventSink W
noop_event_sink = record { publish = λ ctx event. pure none }

pub data Built (W : Type 0) : Type 0 where
  built : Runner W → Built W
  refused : GoError → Built W

-- The runner's own tables are parts of the world, and empty at first.
unfoldable pub new_runner :
    {W : Type 0} → Host W → Part W CommandLocks → Part W Outcomes → Dependencies W → Built W
new_runner host locks outcomes deps = elim deps.id_generator [
  | none ↦ refused (wrap (sentinel missing_id_generator) "new runner")
  | some ids ↦ elim deps.run_store [
    | none ↦ refused (wrap (sentinel missing_run_store) "new runner")
    | some store ↦ elim deps.engine [
      | none ↦ refused (wrap (sentinel missing_engine) "new runner")
      | some engine ↦ built (record {
        id_gen = ids;
        store = store;
        engine = engine;
        events = elim deps.event_sink [ none ↦ noop_event_sink | some sink ↦ sink ];
        command_locks = locks;
        command_outcomes = outcomes;
        host = host;
      })
    ]
  ]
]

publish_wrapped : Option GoError → Option GoError
publish_wrapped none = none
publish_wrapped (some e) = some (both (sentinel event_publish) (wrap e "type= run_id= step="))

unfoldable pub publish_event :
    {W : Type 0} → Option Context → EventSink W → Event → Prog W (Option GoError)
unfolding publish_wrapped
publish_event ctx sink event = elim (validate_event event) [
  | some e ↦ pure (some e)
  | none ↦ (do e ← sink.publish ctx event; pure (publish_wrapped e))
]

-- An event with no message and no tool result.
abbrev pub plain_event : String → ℤ → EventType → CommandKind → String → Event
plain_event run_id step type kind description = record {
  run_id = run_id;
  step = step;
  type = type;
  command_kind = kind;
  message = none;
  tool_result = none;
  description = description;
}

module _ {W : Type 0} (r : Runner W) where
  open r use {host, events, command_locks}

  unfoldable pub cancellation_event_description : Option GoError → String
  cancellation_event_description none = "run cancelled"
  cancellation_event_description (some e) = host.error_text e

  describe_suspension : Option PendingRequirement → String
  describe_suspension none = "run suspended"
  describe_suspension (some q) =
      host.sprintf "run suspended awaiting requirement origin=%s kind=%s id=%q"
        (origin_text q.origin ∷ kind_text q.kind ∷ q.id ∷ [])

  unfoldable pub suspension_event_description : RunState → String
  unfolding describe_suspension
  suspension_event_description s = describe_suspension s.pending_requirement

  -- A nil context gives the background context; a cancelled one is detached from its cancellation.
  unfoldable pub side_effect_context : Option Context → Prog W (Option Context)
  side_effect_context none = pure (some background)
  side_effect_context (some ctx) = do
    e ← ctx_err host ctx
    pure (some (if is_some e then record ctx { live = false } else ctx))

  -- `errors.Join(eventErr, publishEvent(sideEffectCtx(), …))`
  unfoldable pub emit : Option Context → Event → Option GoError → Prog W (Option GoError)
  emit ctx event event_err = do
    c ← side_effect_context ctx
    e ← publish_event c events event
    pure (join event_err e)

  unfoldable pub lock_run_mutation : String → Prog W (Unit {0})
  lock_run_mutation run_id = if run_id == "" then pure tt else do
    t ← read command_locks
    write command_locks (register run_id t)
    host.await_mutex run_id
    u ← read command_locks
    write command_locks (take_mutex run_id u)

  unfoldable pub unlock_run_mutation : String → Prog W (Unit {0})
  unlock_run_mutation run_id = if run_id == "" then pure tt else do
    t ← read command_locks
    write command_locks (free_mutex run_id t)
    u ← read command_locks
    write command_locks (unregister run_id u)
