-- ===== src/Scenario/Executions.antt =====
-- A react loop on the concrete world, with a model that answers at once.
use agentframe.Base.{◌≡◌, Bool, none, some, [], ◌∷◌, if◌then◌else◌, arith, inr, refl}
use agentframe.Base.Int.{pos, ltbℤ}
use agentframe.Agent.Value.{no_reason}
use agentframe.Agent.Requirement.{running}
use agentframe.Agent.Message.{assistant, plain_message}
use agentframe.Agent.Run.{RunState, EngineInput}
use agentframe.Agent.Context.{background}
use agentframe.Agent.Prog.{pure, ◌>>=◌}
use agentframe.Agentreact.Turn.{ReactLoop, take_step, then_flow}
use agentframe.Agentreact.Turn.Outcome.{TurnOutcome, take_step-TurnOutcome}
use agentframe.Agentreact.Loop.{budget, execute, run_loop, exhaust}
use agentframe.Agentreact.Loop.Unrolling.{run_loop-unrolled}
use agentframe.Agentreact.Turn.Evidence.Turns.{Assists}
use agentframe.Agentreact.Loop.Accepted.{execute-accepted}
use agentframe.Agent.Runner.Checks.{validate_engine_output}
use agentframe.Agentreact.Loop.Progress.{Progress, execute-Progress}
use agentframe.Eventing.Inmem.{inmem_sink}
use agentframe.Scenario.{World, world, host, recorded_part, exhausted}

abbrev loop : ReactLoop World
loop = record {
  model = record { generate = λ ctx q. pure (plain_message assistant "hello", none) };
  tools = record {
    execute = λ ctx call. pure (
      record {
        call_id = call.id;
        name = call.name;
        content = "ok";
        is_error = Bool.false;
        failure_reason = no_reason;
      },
      none,
    );
  };
  events = inmem_sink host recorded_part;
  host = host;
  sort_strings = λ xs. xs;
}

abbrev input : EngineInput
input = record { max_steps = pos 3; tools = []; resolution = none; resolved_requirement = none }

abbrev awake : RunState
awake = record exhausted { status = running }

take_step-TurnOutcome_example :
    TurnOutcome loop background input awake none world
      (take_step loop background input awake none world)
take_step-TurnOutcome_example = take_step-TurnOutcome loop background input awake none world

run_loop-unrolled_example :
    run_loop loop background input awake none world
    ≡ (if ltbℤ (pos 1) (pos (budget (pos 3)))
          then take_step loop background input awake none
            >>= (λ flow. then_flow loop background flow (λ t e. run_loop loop background input t e))
          else exhaust loop background awake none)
        world
unfolding budget
run_loop-unrolled_example = run_loop-unrolled loop background input (omega arith) awake none world

execute-Progress_example :
    Progress 3 exhausted (execute loop (some background) exhausted input world).0.0
unfolding budget
execute-Progress_example =
    execute-Progress loop (some background) exhausted input (omega arith) world

loop-Assists : Assists loop background
unfolding plain_message
loop-Assists = record { answers = λ r w. inr refl }

execute-accepted_example :
    validate_engine_output exhausted (execute loop (some background) exhausted input world).0.0
    ≡ none
unfolding budget
execute-accepted_example =
    execute-accepted loop background exhausted input (plain_message assistant "hello" ∷ []) world
      loop-Assists (omega arith) refl refl
