-- ===== src/Scenario.antt =====
-- A concrete run of the runtime: a world with the in-memory store and sink, an engine that answers
-- at once, and a runner over them whose dependencies keep the runner's contract.
pub mod Dispatches
pub mod Retries
pub mod Replies
pub mod Repeating
pub mod Suspensions
pub mod Executions
pub mod Locking
pub mod Values
pub mod Serving
pub mod Tools
use agentframe.Base.{
  String, ◌≡◌, refl, Bool, true, false, Option, none, some, List, [], ◌∷◌, ◌==◌, Bool-cases,
  Option-cases, inl, inr, append, arith, items, slice, eq_iff,
}
use agentframe.Base.Int.{pos, increment}
use agentframe.Agent.Requirement.{RunStatus, running}
use agentframe.Agent.Message.{Message, assistant, plain_message}
use agentframe.Agent.Run.{RunState, EngineInput}
use agentframe.Agent.Event.{Event}
use agentframe.Agent.Errors.{GoError}
use agentframe.Agent.Context.{Context, background}
use agentframe.Agent.Validation.{validate_event}
use agentframe.Agent.Prog.{Prog, Part, pure}
use agentframe.Agent.Interfaces.{Host, Engine, ctx_err}
use agentframe.Agent.History.{View, Rely-refl, IsFiled}
use agentframe.Agent.Runner.State.{CommandLocks, Outcomes}
use agentframe.Agent.Runner.Effects.{Runner}
use agentframe.Agent.Runner.Contract.{Contract}
use agentframe.Runstore.Inmem.{States, find_state, inmem_store}
use agentframe.Runstore.Inmem.Laws.{view_of, save_effect, load-Rely, load_effect}
use agentframe.Eventing.Inmem.{Recorded, publish, inmem_sink}

pub record World : Type 0 where
  pub states : States
  pub locks : CommandLocks
  pub outcomes : Outcomes
  pub recorded : Recorded

abbrev pub states_part : Part World States
states_part = record { get = λ w. w.states; put = λ x w. record w { states = x } }

abbrev pub recorded_part : Part World Recorded
recorded_part = record { get = λ w. w.recorded; put = λ x w. record w { recorded = x } }

abbrev pub host : Host World
host = record {
  cancellation = pure none;
  await_mutex = λ id. pure tt;
  trim_space = λ s. s;
  sprintf = λ f xs. f;
  error_text = λ e. "error";
}

-- One answer, and the run is completed.
abbrev answered : RunState → RunState
answered s = record s {
  step = increment s.step;
  status = RunStatus.completed;
  output = "hello";
  messages = append s.messages (plain_message assistant "hello");
}

abbrev pub engine : Engine World
engine = record { execute = λ ctx s input. pure (answered s, none) }

abbrev pub runner : Runner World
runner = record {
  id_gen = record { new_run_id = λ ctx. pure ("run-1", none) };
  store = inmem_store host states_part;
  engine = engine;
  events = inmem_sink host recorded_part;
  command_locks = record { get = λ w. w.locks; put = λ x w. record w { locks = x } };
  command_outcomes = record { get = λ w. w.outcomes; put = λ x w. record w { outcomes = x } };
  host = host;
}

abbrev pub view : World → View
view w = view_of w.states

pub publish_apart :
    (ctx : Option Context) (e : Event) (w : World)
    → view (publish host recorded_part ctx e w).1 ≡ view w
unfolding publish ctx_err
publish_apart none e w = refl
publish_apart (some c) e w = elim (Bool-cases c.live) [
  | inl live ↦ elim (Option-cases (validate_event e)) [
    | inl ok ↦ rw (live, ok) refl
    | inr (x, bad) ↦ rw (live, bad) refl
  ]
  | inr dead ↦ elim (Option-cases (validate_event e)) [
    | inl ok ↦ rw (dead, ok) refl
    | inr (x, bad) ↦ rw (dead, bad) refl
  ]
]

unfoldable pub contract : Contract runner
contract = record {
  view = view;
  save = save_effect host states_part (λ x w. refl) (λ w. Rely-refl (view w));
  load_rely = load-Rely host states_part (λ x w. refl) (λ w. Rely-refl (view w));
  load = load_effect host states_part (λ x w. refl) (λ w. Rely-refl (view w));
  version_kept = λ ctx s i w. refl;
  engine_rely = λ ctx s i w. Rely-refl (view w);
  publish_rely = λ ctx e w. rw (publish_apart ctx e w) (Rely-refl (view w));
  ids_rely = λ ctx w. Rely-refl (view w);
  cancellation_rely = λ w. Rely-refl (view w);
  await_rely = λ id w. Rely-refl (view w);
  locks_apart = λ t w. refl;
  outcomes_apart = λ t w. refl;
}

-- Two stored runs: one that was completed, and one that waits to be run again.
abbrev pub finished : RunState
finished = record {
  id = "run-1";
  version = pos 2;
  step = pos 1;
  status = RunStatus.completed;
  pending_requirement = none;
  output = "hello";
  error = "";
  messages = slice (plain_message assistant "hello" ∷ []);
}

abbrev pub exhausted : RunState
exhausted = record finished { id = "run-2"; status = RunStatus.max_steps_exceeded; output = "" }

abbrev pub world : World
world = record {
  states = ("run-1", finished) ∷ ("run-2", exhausted) ∷ [];
  locks = [];
  outcomes = [];
  recorded = [];
}
