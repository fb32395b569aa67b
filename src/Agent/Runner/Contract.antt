-- ===== src/Agent/Runner/Contract.antt =====
-- What the runner asks of its dependencies: a run store with optimistic versions
-- (agent/interfaces.go), an engine that leaves the version alone, and an environment that changes
-- stored runs, at any call, only in the ways in which commands do.
pub mod Saves
use agentframe.Base.{String, ◌≡◌, ◌≢◌, Bool, Option, none, some, List, ◌==◌, if◌then◌else◌}
use agentframe.Base.Int.{pos, increment}
use agentframe.Agent.Run.{RunState, EngineInput, clone_run_state}
use agentframe.Agent.Errors.{GoError}
use agentframe.Agent.Event.{Event}
use agentframe.Agent.Context.{Context}
use agentframe.Agent.Validation.{validate_run_state}
use agentframe.Agent.History.{View, Rely}
use agentframe.Agent.Runner.State.{CommandLocks, Outcomes}
use agentframe.Agent.Runner.Effects.{Runner}

-- the map with one more entry
abbrev pub updated : String → RunState → View → View
updated id s v = λ j. if id == j then some s else v j

-- A save that took effect: what it found, and what it left.
pub data Saved (s : RunState) (v w : View) : Type 0 where
  created :
      v s.id ≡ none
      → s.version ≡ pos 0
      → w ≡ updated s.id (record (clone_run_state s) { version = pos 1 }) v
      → Saved s v w
  bumped :
      (current : RunState)
      → v s.id ≡ some current
      → s.version ≡ current.version
      → w ≡ updated s.id (record (clone_run_state s) { version = increment current.version }) v
      → Saved s v w

pub data SaveEffect (s : RunState) (v w : View) (e : Option GoError) : Type 0 where
  rejected : e ≢ none → Rely v w → SaveEffect s v w e
  -- `m` is the store at the moment of the save
  accepted :
      (m : View)
      → e ≡ none
      → Rely v m
      → validate_run_state s ≡ none
      → Saved s m w
      → SaveEffect s v w e

-- A state that was loaded is a copy of the one that the store holds.
pub record Loaded (v : View) (id : String) (s : RunState) : Type 0 where
  pub stored : RunState
  pub held : v id ≡ some stored
  pub copied : s ≡ clone_run_state stored

pub record Contract {W : Type 0} (r : Runner W) : Type 0 where
  pub view : W → View
  pub save :
      (ctx : Option Context) (s : RunState) (w : W)
      → SaveEffect s (view w) (view (r.store.save ctx s w).1) (r.store.save ctx s w).0
  pub load_rely :
      (ctx : Option Context) (id : String) (w : W) → Rely (view w) (view (r.store.load ctx id w).1)
  pub load :
      (ctx : Option Context) (id : String) (w : W)
      → (r.store.load ctx id w).0.1 ≡ none
      → Loaded (view (r.store.load ctx id w).1) id (r.store.load ctx id w).0.0
  pub version_kept :
      (ctx : Option Context) (s : RunState) (i : EngineInput) (w : W)
      → (r.engine.execute ctx s i w).0.0.version ≡ s.version
  pub engine_rely :
      (ctx : Option Context) (s : RunState) (i : EngineInput) (w : W)
      → Rely (view w) (view (r.engine.execute ctx s i w).1)
  pub publish_rely :
      (ctx : Option Context) (e : Event) (w : W) → Rely (view w) (view (r.events.publish ctx e w).1)
  pub ids_rely : (ctx : Option Context) (w : W) → Rely (view w) (view (r.id_gen.new_run_id ctx w).1)
  pub cancellation_rely : (w : W) → Rely (view w) (view (r.host.cancellation w).1)
  pub await_rely : (id : String) (w : W) → Rely (view w) (view (r.host.await_mutex id w).1)
  pub locks_apart : (t : CommandLocks) (w : W) → view (r.command_locks.put t w) ≡ view w
  pub outcomes_apart : (t : Outcomes) (w : W) → view (r.command_outcomes.put t w) ≡ view w
