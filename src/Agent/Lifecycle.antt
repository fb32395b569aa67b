-- ===== src/Agent/Lifecycle.antt =====
-- agent/lifecycle.go: requirement and resolution contracts, the suspension invariant and the
-- transitions between run statuses.
pub mod Transitions
pub mod Resolutions
use agentframe.Base.{
  ◌≢◌, eq_iff, arith, String, ◌≡◌, ◌↔◌, refl, Bool, true, false, ◌&&◌, ◌||◌, not, Option, none,
  some, List, [], ◌∷◌, ◌==◌, if◌then◌else◌, is_some,
}
use agentframe.Agent.Requirement.{
  RunStatus, unset, pending, running, suspended, cancelled, completed, failed, max_steps_exceeded,
  RequirementKind, approval, user_input, external_execution, RequirementOrigin, model, tool,
  ResolutionOutcome, approved, rejected, provided, PendingRequirement, Resolution, status_eq,
  kind_eq, is_tool_origin, is_suspended,
}
use agentframe.Agent.Run.{RunState}
use agentframe.Agent.Errors.{
  GoError, fails, run_state_invalid, resolution_invalid, invalid_run_state_transition,
}

-- `if err := a; err != nil { return err }; return b`
infixr 8 ◌then_check◌
abbrev pub ◌then_check◌ : Option GoError → Option GoError → Option GoError
(some e) then_check k = some e
none then_check k = k

-- `if test { return err }`
abbrev pub reject_if : Bool → Option GoError → Option GoError
reject_if true e = e
reject_if false e = none

-- A chain of checks passes exactly if each does.
pub then_check-none : (a b : Option GoError) → ((a then_check b) ≡ none) ↔ ((a ≡ none) × (b ≡ none))
then_check-none none b = (λ h. (refl, h), λ h. h.1)
then_check-none (some e) b = (λ h. cc, λ h. cc)

pub reject_if-none : (b : Bool) (e : GoError) → (reject_if b (some e) ≡ none) ↔ (b ≡ false)
reject_if-none true e = (λ h. cc, λ h. cc)
reject_if-none false e = (λ h. refl, λ h. refl)

pub reject_empty-none :
    (s : String) (e : GoError) → (reject_if (s == "") (some e) ≡ none) ↔ (s ≢ "")
reject_empty-none s e =
    (λ h p. ground (arith, (eq_iff s "").1 p), λ ne. ground (arith, eq_iff s ""))

unfoldable pub is_terminal_run_status : RunStatus → Bool
is_terminal_run_status RunStatus.completed = true
is_terminal_run_status failed = true
is_terminal_run_status cancelled = true
is_terminal_run_status _ = false

unfoldable pub is_known_requirement_kind : RequirementKind → Bool
is_known_requirement_kind (RequirementKind.other s) = false
is_known_requirement_kind _ = true

unfoldable pub is_known_requirement_origin : RequirementOrigin → Bool
is_known_requirement_origin (RequirementOrigin.other s) = false
is_known_requirement_origin _ = true

unfoldable pub is_known_resolution_outcome : ResolutionOutcome → Bool
is_known_resolution_outcome (ResolutionOutcome.other s) = false
is_known_resolution_outcome _ = true

unfoldable pub validate_pending_requirement_contract : Option PendingRequirement → Option GoError
unfolding is_known_requirement_kind is_known_requirement_origin
validate_pending_requirement_contract none =
    fails run_state_invalid "field=pending_requirement reason=nil"
validate_pending_requirement_contract (some r) =
    reject_if (r.id == "") (fails run_state_invalid "field=pending_requirement.id reason=empty")
    then_check reject_if (not (is_known_requirement_kind r.kind))
        (fails run_state_invalid "field=pending_requirement.kind reason=unknown")
    then_check reject_if (not (is_known_requirement_origin r.origin))
        (fails run_state_invalid "field=pending_requirement.origin reason=unknown")
    then_check reject_if (is_tool_origin r.origin && r.tool_call_id == "")
        (fails run_state_invalid "field=pending_requirement.tool_call_id reason=empty_for_origin")
    then_check reject_if (is_tool_origin r.origin && r.fingerprint == "")
        (fails run_state_invalid "field=pending_requirement.fingerprint reason=empty_for_origin")

unfoldable pub validate_suspension_invariant : RunState → Option GoError
unfolding validate_pending_requirement_contract
validate_suspension_invariant s =
    if is_suspended s.status
    then validate_pending_requirement_contract s.pending_requirement
    else reject_if (is_some s.pending_requirement)
        (fails run_state_invalid "field=pending_requirement reason=forbidden_for_status")

-- the `switch resolution.Kind` of validateResolutionContract
unfoldable pub outcome_fits_kind : RequirementKind → ResolutionOutcome → Bool
outcome_fits_kind approval approved = true
outcome_fits_kind approval rejected = true
outcome_fits_kind approval _ = false
outcome_fits_kind user_input provided = true
outcome_fits_kind user_input _ = false
outcome_fits_kind external_execution ResolutionOutcome.completed = true
outcome_fits_kind external_execution _ = false
outcome_fits_kind (RequirementKind.other s) _ = true

unfoldable pub validate_resolution_contract : Option Resolution → Option GoError
unfolding is_known_requirement_kind is_known_resolution_outcome outcome_fits_kind
validate_resolution_contract none = fails resolution_invalid "field=resolution reason=nil"
validate_resolution_contract (some r) =
    reject_if (r.requirement_id == "")
      (fails resolution_invalid "field=resolution.requirement_id reason=empty")
    then_check reject_if (not (is_known_requirement_kind r.kind))
        (fails resolution_invalid "field=resolution.kind reason=unknown")
    then_check reject_if (not (is_known_resolution_outcome r.outcome))
        (fails resolution_invalid "field=resolution.outcome reason=unknown")
    then_check reject_if (not (outcome_fits_kind r.kind r.outcome))
        (fails resolution_invalid "field=resolution.outcome reason=invalid_for_kind")

-- the comparisons at the end of validateResolutionForRequirement
match_requirement : Option Resolution → Option PendingRequirement → Option GoError
match_requirement (some r) (some q) =
    reject_if (not (r.requirement_id == q.id))
      (fails resolution_invalid "field=resolution.requirement_id reason=mismatch")
    then_check reject_if (not (kind_eq r.kind q.kind))
        (fails resolution_invalid "field=resolution.kind reason=mismatch")
match_requirement none _ = none
match_requirement (some r) none = none

unfoldable pub validate_resolution_for_requirement :
    Option Resolution → Option PendingRequirement → Option GoError
unfolding validate_resolution_contract validate_pending_requirement_contract match_requirement
validate_resolution_for_requirement resolution requirement =
    validate_resolution_contract resolution
    then_check reject_if (not (is_some requirement))
        (fails resolution_invalid "field=pending_requirement reason=nil")
    then_check validate_pending_requirement_contract requirement
    then_check match_requirement resolution requirement

-- allowedRunStatusTransitions; `none` is a key that the map lacks
unfoldable pub allowed_run_status_transitions : RunStatus → Option (List RunStatus)
allowed_run_status_transitions unset = some (pending ∷ [])
allowed_run_status_transitions pending = some (running ∷ cancelled ∷ [])
allowed_run_status_transitions running =
    some (suspended ∷ cancelled ∷ RunStatus.completed ∷ failed ∷ max_steps_exceeded ∷ [])
allowed_run_status_transitions suspended = some (running ∷ cancelled ∷ [])
allowed_run_status_transitions max_steps_exceeded = some (running ∷ cancelled ∷ [])
allowed_run_status_transitions RunStatus.completed = some []
allowed_run_status_transitions failed = some []
allowed_run_status_transitions cancelled = some []
allowed_run_status_transitions (RunStatus.other s) = none

has_status : RunStatus → List RunStatus → Bool
has_status s [] = false
has_status s (t ∷ ts) = status_eq t s || has_status s ts

find_transition : Option (List RunStatus) → RunStatus → Option GoError
find_transition none to = fails invalid_run_state_transition "unknown source status"
find_transition (some allowed) to =
    reject_if (not (has_status to allowed)) (fails invalid_run_state_transition "from -> to")

unfoldable pub validate_run_status_transition : RunStatus → RunStatus → Option GoError
unfolding allowed_run_status_transitions has_status find_transition status_eq
validate_run_status_transition from to =
    if status_eq from to then none else find_transition (allowed_run_status_transitions from) to

unfoldable pub settle : RunState → RunState → Option GoError → RunState × Option GoError
settle old new none = (new, none)
settle old new (some e) = (old, some e)

-- TransitionRunStatus: the state behind the pointer afterwards, and the error
unfoldable pub transition_run_status : RunState → RunStatus → RunState × Option GoError
unfolding settle
transition_run_status s to =
    let moved = record s { status = to } in
    settle s moved
      (validate_run_status_transition s.status to then_check validate_suspension_invariant moved)
