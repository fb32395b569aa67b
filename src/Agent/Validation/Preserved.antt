-- ===== src/Agent/Validation/Preserved.antt =====
-- agent/lifecycle.go, agent/run_validation.go: a change of status keeps a run state valid.
use agentframe.Base.{◌≡◌, refl, subst, true, none, ◌⊎◌, inl, inr, arith, ◌∙◌, ap}
use agentframe.Agent.Requirement.{RunStatus}
use agentframe.Agent.Run.{RunState}
use agentframe.Agent.Lifecycle.{transition_run_status, validate_suspension_invariant}
use agentframe.Agent.Lifecycle.Transitions.{
  ◌⟶◌, transition_exact, transition_run_status_effect, ok_case,
}
use agentframe.Agent.Validation.{validate_run_state, is_known_run_status}

target_known : {from to : RunStatus} → from ⟶ to → is_known_run_status to ≡ true
unfolding is_known_run_status
target_known ◌⟶◌.admit = refl
target_known _ = refl

moved_known :
    (from to : RunStatus)
    → (from ≡ to) ⊎ (from ⟶ to)
    → is_known_run_status from ≡ true
    → is_known_run_status to ≡ true
moved_known from to (inl e) h = subst (λ s. is_known_run_status s ≡ true) e h
moved_known from to (inr e) h = target_known e

known_of_valid : (s : RunState) → validate_run_state s ≡ none → is_known_run_status s.status ≡ true
unfolding validate_run_state
known_of_valid s h = ground arith

revalidated :
    (s : RunState) (to : RunStatus)
    → validate_run_state s ≡ none
    → is_known_run_status to ≡ true
    → validate_suspension_invariant (record s { status = to }) ≡ none
    → validate_run_state (record s { status = to }) ≡ none
unfolding validate_run_state
revalidated s to h known ok = ground (arith, known, ok)

-- TransitionRunStatus, whether it succeeds or fails, leaves a valid run state valid.
pub transition_run_status_valid :
    (s : RunState) (to : RunStatus)
    → validate_run_state s ≡ none
    → validate_run_state (transition_run_status s to).0 ≡ none
transition_run_status_valid s to h = elim (transition_run_status_effect s to) [
  | inr (_, e) ↦ ap validate_run_state e ∙ h
  | inl (o, e) ↦
      let (edge, ok) = (ok_case s to).0 o in
      ap validate_run_state e
      ∙ revalidated s to h
          (moved_known s.status to ((transition_exact s.status to).0 edge) (known_of_valid s h)) ok
]
