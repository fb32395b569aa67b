-- ===== src/Scenario/Dispatches.antt =====
-- Commands on the concrete world: the runner's guarantees at work.
use agentframe.Agent.Lifecycle.{is_terminal_run_status}
use agentframe.Base.{
  String, ◌≡◌, refl, some, List, [], ◌∷◌, ◌==◌, eq_iff, arith, Bool-cases, inl, inr, ◌<◌,
}
use agentframe.Base.Int.{pos, rank}
use agentframe.Agent.Context.{background}
use agentframe.Agent.Run.{RunState, RunInput, Command, start_command, cancel_command, steer_command}
use agentframe.Agent.History.{IsFiled, Evolves, Grown}
use agentframe.Agent.Runner.{dispatch}
use agentframe.Agent.Runner.Dispatch.{
  dispatch_all, dispatch-Evolves, terminal_absorbing, transcript_append_only, version_identifies,
}
use agentframe.Runstore.Inmem.{find_state}
use agentframe.Scenario.{World, runner, contract, world, view, finished, exhausted}

abbrev first_run : RunInput
first_run = record {
  run_id = "run-3";
  system_prompt = "be brief";
  user_prompt = "hi";
  max_steps = pos 4;
  tools = [];
}

abbrev commands : List Command
commands =
    start_command first_run
    ∷ steer_command (record { run_id = "run-2"; instruction = "go on" })
    ∷ cancel_command "run-1"
    ∷ []

abbrev after : World
after = dispatch_all runner (some background) commands world

pub filed : IsFiled (view world)
unfolding find_state
filed = record { own_id = owned; counted = counted }
  where
    owned : (id : String) (s : RunState) → view world id ≡ some s → s.id ≡ id
    owned id s e = elim (Bool-cases ("run-1" == id)) [
      | inl p ↦ grind (arith, eq_iff "run-1" id)
      | inr p ↦ grind (arith, eq_iff "run-2" id)
    ]

    counted : (id : String) (s : RunState) → view world id ≡ some s → 0 < rank s.version
    counted id s e = grind arith

-- The command that cancels a completed run leaves it as it is.
kept : view after "run-1" ≡ some finished
unfolding contract find_state is_terminal_run_status
kept = terminal_absorbing contract (some background) commands world "run-1" finished filed refl refl

dispatch-Evolves_example :
    Evolves
      (view world)
      (view (dispatch runner (some background) (start_command first_run) world).1)
unfolding contract
dispatch-Evolves_example =
    dispatch-Evolves contract (some background) (start_command first_run) world filed

terminal_absorbing_example : view after "run-1" ≡ some finished
unfolding contract find_state is_terminal_run_status
terminal_absorbing_example =
    terminal_absorbing contract (some background) commands world "run-1" finished filed refl refl

transcript_append_only_example : (t : RunState) × (view after "run-2" ≡ some t) × Grown exhausted t
unfolding contract find_state
transcript_append_only_example =
    transcript_append_only contract (some background) commands world "run-2" exhausted filed refl

version_identifies_example : finished ≡ finished
unfolding contract find_state
version_identifies_example =
    version_identifies contract (some background) commands world "run-1" finished finished filed
      refl kept refl
