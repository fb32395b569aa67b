-- ===== src/Agent/Runner/Memory.antt =====
-- agent/runner.go: what is kept for a continue command stays kept, whatever is dispatched afterwards.
pub mod Effects
pub mod Handlers
pub mod Commands
use agentframe.Base.{
  String, ◌≡◌, refl, sym, ap, ◌∙◌, Bool, true, false, Option, none, some, ◌==◌, ◌&&◌, if◌then◌else◌,
  Bool-cases, inl, inr, eq_iff,
}
use agentframe.Agent.Run.{RunState, EngineInput}
use agentframe.Agent.Errors.{GoError}
use agentframe.Agent.Event.{Event}
use agentframe.Agent.Context.{Context}
use agentframe.Agent.Prog.{Prog, pure, on_error, ◌>>=◌}
use agentframe.Agent.Runner.State.{CommandLocks, OutcomeKey, Outcome, Outcomes, load_outcome}
use agentframe.Agent.Runner.Effects.{Runner}

module _ {W : Type 0} (r : Runner W) (k : OutcomeKey) where
  -- what the table of outcomes has under the key
  abbrev pub recall : W → Option Outcome
  recall w = load_outcome k (r.command_outcomes.get w)

  -- Whatever the table has under the key before, it has afterwards.
  pub record Stays {A : Type 0} (m : Prog W A) : Type 0 where
    pub from : (w : W) (o : Outcome) → recall w ≡ some o → recall (m w).1 ≡ some o

  -- The table of outcomes is the runner's own: the calls of its dependencies, and what other
  -- goroutines do meanwhile, leave what is kept under the key.
  pub record Private : Type 0 where
    pub get_put : (x : Outcomes) (w : W) → r.command_outcomes.get (r.command_outcomes.put x w) ≡ x
    pub locks_apart :
        (t : CommandLocks) (w : W)
        → r.command_outcomes.get (r.command_locks.put t w) ≡ r.command_outcomes.get w
    pub save : (ctx : Option Context) (s : RunState) → Stays (r.store.save ctx s)
    pub load : (ctx : Option Context) (id : String) → Stays (r.store.load ctx id)
    pub engine :
        (ctx : Option Context) (s : RunState) (i : EngineInput) → Stays (r.engine.execute ctx s i)
    pub publish : (ctx : Option Context) (e : Event) → Stays (r.events.publish ctx e)
    pub ids : (ctx : Option Context) → Stays (r.id_gen.new_run_id ctx)
    pub cancellation : Stays r.host.cancellation
    pub await : (id : String) → Stays (r.host.await_mutex id)

  pub pure-Stays : {A : Type 0} (a : A) → Stays (pure a)
  pure-Stays a = record { from = λ w o h. h }

  pub bind-Stays :
      {A B : Type 0} {m : Prog W A} {f : A → Prog W B}
      → Stays m
      → ((a : A) → Stays (f a))
      → Stays (m >>= f)
  bind-Stays {m = m} sm sf = record { from = λ w o h. (sf (m w).0).from (m w).1 o (sm.from w o h) }

  pub on_error-Stays :
      {A : Type 0} {f : GoError → Prog W A} {m : Prog W A} (e : Option GoError)
      → ((x : GoError) → Stays (f x))
      → Stays m
      → Stays (on_error e f m)
  on_error-Stays none sf sm = sm
  on_error-Stays (some x) sf sm = sf x

  pub if-Stays :
      {A : Type 0} {m n : Prog W A} (b : Bool) → Stays m → Stays n → Stays (if b then m else n)
  if-Stays true sm sn = sm
  if-Stays false sm sn = sn

  pub map-Stays :
      {A B : Type 0} {m : Prog W A} (g : A → B) → Stays m → Stays (m >>= λ a. pure (g a))
  map-Stays g sm = record { from = sm.from }

  -- `if err != nil { return g(err) }`
  pub or_reply-Stays :
      {A : Type 0} {m : Prog W A} (e : Option GoError) (g : GoError → A)
      → Stays m
      → Stays (on_error e (λ x. pure (g x)) m)
  or_reply-Stays none g sm = sm
  or_reply-Stays (some x) g sm = pure-Stays (g x)
