-- ===== src/Agentreact/Requirements.antt =====
-- agentreact/react_loop.go: the checks of requirements, tool calls and tool results.
pub mod Calls
use agentframe.Base.{
  String, Bool, false, ◌&&◌, ◌||◌, not, Option, none, some, List, [], ◌∷◌, ◌==◌, if◌then◌else◌,
  nil_slice, items,
}
use agentframe.Base.Distinct.{member}
use agentframe.Agent.Value.{ToolCall, ToolResult, clone_tool_call}
use agentframe.Agent.Requirement.{
  PendingRequirement, Resolution, suspended, is_model_origin, is_tool_origin, is_approval,
  is_approved,
}
use agentframe.Agent.Message.{Message, is_assistant}
use agentframe.Agent.Run.{RunState, EngineInput}
use agentframe.Agent.Errors.{
  GoError, message, fails, wrap, sentinel, run_state_invalid, tool_call_invalid,
}
use agentframe.Agent.Lifecycle.{◌then_check◌, reject_if}
use agentframe.Agent.Validation.{validate_run_state}
use agentframe.Agent.Context.{Context, ReplayOverride, replay_override_from_context}

-- validateRequirementContract
unfoldable pub validate_requirement_contract : RunState → PendingRequirement → Option GoError
validate_requirement_contract s q = validate_run_state (record {
  id = s.id;
  version = s.version;
  step = s.step;
  status = suspended;
  pending_requirement = some q;
  output = "";
  error = "";
  messages = nil_slice;
})

unfoldable pub validate_model_requirement : RunState → PendingRequirement → Option GoError
validate_model_requirement s q =
    reject_if (not (is_model_origin q.origin)) (
      fails run_state_invalid
        "field=pending_requirement.origin reason=invalid_for_source source=model")
    then_check validate_requirement_contract s q

-- What a tool's request for suspension comes to: a requirement, or an error.
pub data Suspension : Type 0 where
  granted : PendingRequirement → Suspension
  invalid : GoError → Suspension

unfoldable pub grant_if : Option GoError → PendingRequirement → Suspension
grant_if none q = granted q
grant_if (some e) q = invalid e

unfoldable pub check_request : RunState → ToolCall → PendingRequirement → Suspension
unfolding grant_if
check_request s call q =
    let bound = record q { tool_call_id = call.id } in
    grant_if
      (reject_if (not (is_tool_origin q.origin)) (
          fails run_state_invalid
            "field=pending_requirement.origin reason=invalid_for_source source=tool")
        then_check reject_if (not (q.tool_call_id == "") && not (q.tool_call_id == call.id)) (
            fails run_state_invalid
              "field=pending_requirement.tool_call_id reason=mismatch source=tool")
        then_check validate_requirement_contract s bound)
      bound

-- validateToolSuspendRequest, on the requirement behind the request: `none` if either is nil
unfoldable pub validate_tool_suspend_request :
    RunState → ToolCall → Option PendingRequirement → Suspension
unfolding check_request
validate_tool_suspend_request s call none =
    invalid (wrap (sentinel run_state_invalid) "field=pending_requirement reason=nil source=tool")
validate_tool_suspend_request s call (some q) = check_request s call q

unfoldable pub validate_tool_result_identity : ToolCall → ToolResult → Option GoError
validate_tool_result_identity call result =
    reject_if (not (result.call_id == "") && not (result.call_id == call.id))
      (some (message "tool result call id mismatch"))
    then_check reject_if (not (result.name == "") && not (result.name == call.name))
        (some (message "tool result name mismatch"))

check_calls : List String → List ToolCall → Option GoError
unfolding member
check_calls seen [] = none
check_calls seen (c ∷ cs) =
    let rest = check_calls (c.id ∷ seen) cs in
    reject_if (c.id == "") (fails tool_call_invalid "reason=empty_id")
    then_check reject_if (c.name == "") (fails tool_call_invalid "reason=empty_name")
    then_check reject_if (member c.id seen) (fails tool_call_invalid "reason=duplicate_id")
    then_check rest

-- validateToolCallShape
unfoldable pub validate_tool_call_shape : List ToolCall → Option GoError
unfolding check_calls
validate_tool_call_shape = check_calls []

first_call : Option ToolCall → Option ToolCall → Option ToolCall
first_call (some c) other = some c
first_call none other = other

last_call : String → List ToolCall → Option ToolCall
unfolding first_call
last_call id [] = none
last_call id (c ∷ cs) =
    first_call (last_call id cs) (if c.id == id then some (clone_tool_call c) else none)

call_in_transcript : String → List Message → Option ToolCall
unfolding first_call last_call
call_in_transcript id [] = none
call_in_transcript id (m ∷ ms) =
    first_call (call_in_transcript id ms)
      (if is_assistant m.role then last_call id m.tool_calls else none)

-- findToolCallByID: the last such call of the last assistant message that has one
unfoldable pub find_tool_call_by_id : List Message → String → Option ToolCall
unfolding call_in_transcript
find_tool_call_by_id ms id = if id == "" then none else call_in_transcript id ms

-- What approvedToolReplayCallFromInput returns.
pub data ReplayPlan : Type 0 where
  no_replay : ReplayPlan
  replay : ToolCall → ReplayPlan
  broken : GoError → ReplayPlan

check_override : Option ReplayOverride → PendingRequirement → ToolCall → ReplayPlan
check_override none q call =
    broken (wrap (sentinel run_state_invalid) "field=approved_tool_replay_override reason=missing")
check_override (some o) q call =
    if not (o.tool_call_id == q.tool_call_id)
    then broken (
        wrap (sentinel run_state_invalid)
          "field=approved_tool_replay_override.tool_call_id reason=mismatch")
    else if not (o.fingerprint == q.fingerprint)
    then broken (
        wrap (sentinel run_state_invalid)
          "field=approved_tool_replay_override.fingerprint reason=mismatch")
    else replay call

check_call : Option ToolCall → Option ReplayOverride → PendingRequirement → ReplayPlan
unfolding check_override
check_call none o q =
    broken
      (wrap (sentinel run_state_invalid) "field=resolved_requirement.tool_call_id reason=not_found")
check_call (some call) o q = check_override o q call

or_broken : Option GoError → ReplayPlan → ReplayPlan
or_broken (some e) p = broken e
or_broken none p = p

plan_replay : Option Context → RunState → Option PendingRequirement → Option Resolution → ReplayPlan
unfolding check_call or_broken
plan_replay ctx s (some q) (some r) =
    if not (is_tool_origin q.origin)
    then no_replay
    else if not (is_approval r.kind) || not (is_approved r.outcome)
    then no_replay
    else or_broken
        (reject_if (not (is_approval q.kind)) (
            fails run_state_invalid
              "field=resolved_requirement.kind reason=invalid_for_approved_tool_replay")
          then_check validate_requirement_contract s q
          then_check reject_if (not (r.requirement_id == q.id))
              (fails run_state_invalid "field=resolution.requirement_id reason=mismatch"))
        (check_call (find_tool_call_by_id (items s.messages) q.tool_call_id)
          (replay_override_from_context ctx) q)
plan_replay ctx s none resolution = no_replay
plan_replay ctx s (some q) none = no_replay

-- approvedToolReplayCallFromInput
unfoldable pub approved_tool_replay_call_from_input :
    Option Context → RunState → EngineInput → ReplayPlan
unfolding plan_replay
approved_tool_replay_call_from_input ctx s input =
    plan_replay ctx s input.resolved_requirement input.resolution
