-- ===== src/Scenario/Retries.antt =====
-- A retrying engine around the concrete engine.
use agentframe.Base.{◌≡◌, refl, ◌∙◌, none, some, []}
use agentframe.Base.Int.{pos}
use agentframe.Agent.Requirement.{approval, approved, Resolution}
use agentframe.Agent.Run.{EngineInput, clone_run_state}
use agentframe.Agent.Context.{background}
use agentframe.Policy.Retry.{Config, execute}
use agentframe.Policy.Retry.Guarantees.{Promise, execute-keeps, execute-ignores_resolution}
use agentframe.Scenario.{World, world, host, engine, view, exhausted}

abbrev thrice : Config
thrice = record { max_attempts = pos 3; decide = none }

abbrev input : EngineInput
input = record { max_steps = pos 3; tools = []; resolution = none; resolved_requirement = none }

-- The version of a run, and the stored runs, stay as they are.
promise : Promise {W = World} (λ s t. t.version ≡ s.version) (λ u v. view v ≡ view u) host engine
unfolding clone_run_state
promise = record {
  unchanged = λ s. refl;
  copied = λ s. refl;
  after_copies = λ e. e;
  still = λ w. refl;
  onward = λ a b. b ∙ a;
  cancellation = λ w. refl;
  result = λ ctx s i w. refl;
  world = λ ctx s i w. refl;
}

execute-keeps_example :
    ((execute host engine thrice (some background) exhausted input world).0.0.version ≡ pos 2)
    × (view (execute host engine thrice (some background) exhausted input world).1 ≡ view world)
execute-keeps_example = execute-keeps promise thrice (some background) exhausted input world

abbrev consent : Resolution
consent = record { requirement_id = "req-1"; kind = approval; outcome = approved; value = "" }

execute-ignores_resolution_example :
    execute host engine thrice
      (some background)
      exhausted
      (record input { resolution = some consent })
      world
    ≡ execute host engine thrice (some background) exhausted input world
execute-ignores_resolution_example =
    execute-ignores_resolution host engine thrice (some background) exhausted input (some consent)
      none world
