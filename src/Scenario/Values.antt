-- ===== src/Scenario/Values.antt =====
-- Concrete states, requirements, events and errors: the components' theorems at work.
use agentframe.Base.{◌≡◌, ◌≢◌, refl, true, ◌||◌, none, some, [], ◌∷◌, ◌++◌, ◌↔◌, ◌⊎◌, slice}
use agentframe.Base.Int.{pos, increment}
use agentframe.Agent.Requirement.{
  running, suspended, approval, tool, approved, PendingRequirement, Resolution,
}
use agentframe.Agent.Message.{assistant, user, plain_message}
use agentframe.Agent.Run.{RunState, clone_run_state, no_command}
use agentframe.Agent.Event.{Event, run_started}
use agentframe.Agent.Errors.{reports, join, sentinel, run_version_conflict, event_publish}
use agentframe.Agent.Context.{background}
use agentframe.Agent.Validation.{validate_event, validate_run_state}
use agentframe.Agent.Validation.Preserved.{transition_run_status_valid}
use agentframe.Agent.Lifecycle.{
  transition_run_status, validate_run_status_transition, validate_suspension_invariant,
  validate_resolution_for_requirement, validate_pending_requirement_contract,
}
use agentframe.Agent.Lifecycle.Transitions.{
  ◌⟶◌, transition_exact, transition_run_status_accepts, transition_run_status_effect,
}
use agentframe.Agent.Lifecycle.Resolutions.{
  IsAnswer, IsRequirement, resolution_exact, IsRequirement-exact,
}
use agentframe.Agent.Errors.{reports-join}
use agentframe.Agent.Runner.Checks.{validate_engine_output}
use agentframe.Agent.Runner.Checks.Exact.{Passes, validate_engine_output_exact}
use agentframe.Agent.Runner.Contract.{SaveEffect, Loaded}
use agentframe.Agent.Interfaces.{ctx_err}
use agentframe.Agent.History.{Rely-refl}
use agentframe.Runstore.Inmem.{find_state, save_locked, load_locked, save, load}
use agentframe.Runstore.Inmem.Laws.{save-load, save_effect, load_effect}
use agentframe.Eventing.Inmem.{publish, publish_records, recorded_events}
use agentframe.Scenario.{world, host, states_part, recorded_part, view, finished, exhausted}

transition_exact_example :
    (validate_run_status_transition running suspended ≡ none)
    ↔ ((running ≡ suspended) ⊎ (running ⟶ suspended))
transition_exact_example = transition_exact running suspended

transition_run_status_accepts_example : ((transition_run_status exhausted running).1 ≡ none) ↔ (
    ((exhausted.status ≡ running) ⊎ (exhausted.status ⟶ running))
    × (validate_suspension_invariant (record exhausted { status = running }) ≡ none))
transition_run_status_accepts_example = transition_run_status_accepts exhausted running

transition_run_status_effect_example :
    (((transition_run_status finished running).1 ≡ none)
      × ((transition_run_status finished running).0 ≡ record finished { status = running }))
    ⊎ (((transition_run_status finished running).1 ≢ none)
        × ((transition_run_status finished running).0 ≡ finished))
transition_run_status_effect_example = transition_run_status_effect finished running

abbrev question : PendingRequirement
question = record {
  id = "req-1";
  kind = approval;
  origin = tool;
  tool_call_id = "call-1";
  fingerprint = "f";
  prompt = "may I?";
}

abbrev consent : Resolution
consent = record { requirement_id = "req-1"; kind = approval; outcome = approved; value = "" }

resolution_exact_example :
    (validate_resolution_for_requirement (some consent) (some question) ≡ none)
    ↔ IsAnswer consent question
resolution_exact_example = resolution_exact consent question

IsRequirement-exact_example :
    (validate_pending_requirement_contract (some question) ≡ none) ↔ IsRequirement question
IsRequirement-exact_example = IsRequirement-exact question

reports-join_example :
    reports event_publish (join none (some (sentinel event_publish)))
    ≡ (reports event_publish none || reports event_publish (some (sentinel event_publish)))
reports-join_example = reports-join event_publish none (some (sentinel event_publish))

abbrev longer : RunState
longer = record exhausted {
  step = pos 2;
  messages = slice (plain_message assistant "hello" ∷ plain_message user "go on" ∷ []);
}

validate_engine_output_exact_example :
    (validate_engine_output exhausted longer ≡ none) ↔ Passes exhausted longer
validate_engine_output_exact_example = validate_engine_output_exact exhausted longer

saved : (save_locked exhausted world.states).1 ≡ none
unfolding save_locked find_state
saved = refl

save-load_example :
    let after = (save_locked exhausted world.states).0 in
    (load_locked "run-2" after
      ≡ (record (clone_run_state exhausted) { version = increment exhausted.version }, none))
    × (reports run_version_conflict (save_locked exhausted after).1 ≡ true)
    × ((save_locked exhausted after).0 ≡ after)
save-load_example = save-load exhausted world.states refl saved

save_effect_example :
    SaveEffect exhausted
      (view world)
      (view (save host states_part (some background) exhausted world).1)
      (save host states_part (some background) exhausted world).0
save_effect_example =
    save_effect host states_part (λ x w. refl) (λ w. Rely-refl (view w)) (some background) exhausted
      world

loads : (load host states_part (some background) "run-1" world).0.1 ≡ none
unfolding load load_locked ctx_err find_state
loads = refl

load_effect_example :
    Loaded
      (view (load host states_part (some background) "run-1" world).1)
      "run-1"
      (load host states_part (some background) "run-1" world).0.0
load_effect_example =
    load_effect host states_part (λ x w. refl) (λ w. Rely-refl (view w)) (some background) "run-1"
      world loads

abbrev event : Event
event = record {
  run_id = "run-1";
  step = pos 0;
  type = run_started;
  command_kind = no_command;
  message = none;
  tool_result = none;
  description = "";
}

publish_records_example :
    let (x, w) = publish host recorded_part (some background) event world in
    ((x ≡ none)
      × (validate_event event ≡ none)
      × (recorded_events w.recorded ≡ recorded_events world.recorded ++ event ∷ []))
    ⊎ ((x ≢ none) × (recorded_events w.recorded ≡ recorded_events world.recorded))
publish_records_example =
    publish_records host recorded_part (λ x w. refl) (λ w. refl) (some background) event world

valid : validate_run_state exhausted ≡ none
unfolding validate_run_state
valid = refl

transition_run_status_valid_example :
    validate_run_state (transition_run_status exhausted running).0 ≡ none
transition_run_status_valid_example = transition_run_status_valid exhausted running valid
