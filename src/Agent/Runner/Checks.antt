-- ===== src/Agent/Runner/Checks.antt =====
-- agent/runner.go: the checks of commands and of engine output.
pub mod Output
pub mod Definitions
pub mod Provenance
pub mod Exact
use agentframe.Base.{
  String, ◌≡◌, refl, Bool, true, false, ◌&&◌, ◌||◌, not, Option, none, some, List, [], ◌∷◌, ◌==◌,
  if◌then◌else◌, is_none, is_some, Slice, items, length, drop, slice_to, ltb, is_empty,
  String-discrete,
}
use native.Mathlib.Decide.{ℕ_discrete}
use mathlib.Core.Bool.{decide}
use agentframe.Base.Distinct.{member}
use agentframe.Base.Int.{ltbℤ}
use agentframe.Agent.Value.{ToolDefinition, ToolCall}
use agentframe.Agent.Requirement.{
  PendingRequirement, Resolution, RequirementOrigin, model, tool, is_suspended, is_approved,
  is_tool_origin, kind_eq, origin_eq,
}
use agentframe.Agent.Message.{Message, Message-discrete, is_assistant, is_tool}
use agentframe.Agent.Run.{RunState, ContinueCommand}
use agentframe.Agent.Errors.{
  GoError, both, wrap, sentinel, fails, is, resolution_unexpected, resolution_required,
  engine_output_contract_violation, tool_definitions_invalid, command_conflict,
  run_version_conflict,
}
use agentframe.Agent.Lifecycle.{◌then_check◌, reject_if, validate_resolution_for_requirement}
use agentframe.Agent.Context.{ReplayOverride}

unfoldable pub validate_continue_resolution : RunState → Option Resolution → Option GoError
validate_continue_resolution s resolution =
    if not (is_suspended s.status)
    then reject_if (is_some resolution) (fails resolution_unexpected "command=continue")
    else reject_if (is_none resolution) (fails resolution_required "command=continue")
      then_check validate_resolution_for_requirement resolution s.pending_requirement

-- one round of hasMatchingAssistantRequirement
unfoldable pub requirement_matches : Option PendingRequirement → PendingRequirement → Bool
requirement_matches none r = false
requirement_matches (some c) r =
    c.id == r.id && kind_eq c.kind r.kind && origin_eq c.origin r.origin

-- The source looks from the last message back; it only asks whether there is one.
unfoldable pub has_matching_assistant_requirement : List Message → PendingRequirement → Bool
unfolding requirement_matches
has_matching_assistant_requirement [] r = false
has_matching_assistant_requirement (m ∷ ms) r =
    has_matching_assistant_requirement ms r
    || (is_assistant m.role && requirement_matches m.requirement r)

unfoldable pub observes_call : List Message → String → Bool
observes_call [] id = false
observes_call (m ∷ ms) id = (is_tool m.role && m.tool_call_id == id) || observes_call ms id

unfoldable pub has_tool_observation_for_call_id : List Message → String → Bool
unfolding observes_call
has_tool_observation_for_call_id ms id = if id == "" then false else observes_call ms id

unfoldable pub has_call : List ToolCall → String → Bool
has_call [] id = false
has_call (c ∷ cs) id = c.id == id || has_call cs id

unfoldable pub requests_call : List Message → String → Bool
unfolding has_call
requests_call [] id = false
requests_call (m ∷ ms) id = (is_assistant m.role && has_call m.tool_calls id) || requests_call ms id

unfoldable pub has_assistant_tool_call_for_call_id : List Message → String → Bool
unfolding requests_call
has_assistant_tool_call_for_call_id ms id = if id == "" then false else requests_call ms id

-- the `switch` on the origin
unfoldable pub check_origin :
    RequirementOrigin → List Message → List Message → PendingRequirement → Option GoError
check_origin model additions all r =
    reject_if (not (has_matching_assistant_requirement additions r))
      (fails engine_output_contract_violation "reason=missing_assistant_requirement")
check_origin tool additions all r =
    reject_if (not (has_tool_observation_for_call_id additions r.tool_call_id))
      (fails engine_output_contract_violation "reason=missing_linked_tool_observation")
    then_check reject_if (not (has_assistant_tool_call_for_call_id all r.tool_call_id))
        (fails engine_output_contract_violation "reason=missing_assistant_tool_call")
check_origin (RequirementOrigin.other s) additions all r =
    fails engine_output_contract_violation "reason=unknown_origin"

unfoldable pub check_provenance :
    Option PendingRequirement → List Message → List Message → Option GoError
unfolding check_origin
check_provenance none additions all = none
check_provenance (some r) additions all =
    reject_if (is_empty additions)
      (fails engine_output_contract_violation "reason=no_message_evidence")
    then_check check_origin r.origin additions all r

unfoldable pub validate_suspended_requirement_provenance : RunState → RunState → Option GoError
unfolding check_provenance
validate_suspended_requirement_provenance prev next =
    if not (is_suspended next.status)
    then none
    else check_provenance next.pending_requirement
        (drop (length (items prev.messages)) (items next.messages)) (items next.messages)

messages_discrete : Discrete (List Message)
messages_discrete = hlevel Message-discrete

-- reflect.DeepEqual on []Message: a nil slice is not deeply equal to an empty one
pub same_messages : Slice Message → Slice Message → Bool
same_messages Slice.nil_slice Slice.nil_slice = true
same_messages (Slice.slice xs) (Slice.slice ys) = decide (messages_discrete xs ys)
same_messages _ _ = false

unfoldable pub validate_engine_output : RunState → RunState → Option GoError
unfolding validate_suspended_requirement_provenance
validate_engine_output prev next =
    reject_if (not (next.id == prev.id)) (fails engine_output_contract_violation "invariant=run_id")
    then_check reject_if (ltbℤ next.step prev.step)
        (fails engine_output_contract_violation "invariant=step")
    then_check reject_if (ltb (length (items next.messages)) (length (items prev.messages)))
        (fails engine_output_contract_violation "invariant=messages_length")
    then_check reject_if
        (not (same_messages (slice_to (length (items prev.messages)) next.messages) prev.messages))
        (fails engine_output_contract_violation "invariant=messages_prefix")
    then_check validate_suspended_requirement_provenance prev next

check_definitions : List String → List ToolDefinition → Option GoError
unfolding member
check_definitions seen [] = none
check_definitions seen (d ∷ ds) =
    let rest = check_definitions (d.name ∷ seen) ds in
    reject_if (d.name == "") (fails tool_definitions_invalid "reason=empty_name")
    then_check reject_if (member d.name seen)
        (fails tool_definitions_invalid "reason=duplicate_name")
    then_check rest

unfoldable pub validate_tool_definitions : List ToolDefinition → Option GoError
unfolding check_definitions
validate_tool_definitions = check_definitions []

unfoldable pub normalize_command_save_error : GoError → GoError
normalize_command_save_error e =
    if is run_version_conflict e then both (sentinel command_conflict) (wrap e "command=") else e

unfoldable pub approved_tool_call_replay_override_for_continue :
    Option Resolution → Option PendingRequirement → Option ReplayOverride
approved_tool_call_replay_override_for_continue none _ = none
approved_tool_call_replay_override_for_continue (some r) none = none
approved_tool_call_replay_override_for_continue (some r) (some q) =
    if not (is_approved r.outcome)
    then none
    else if not (is_tool_origin q.origin)
    then none
    else some (record { tool_call_id = q.tool_call_id; fingerprint = q.fingerprint })
