-- ===== src/Agent/Validation.antt =====
-- agent/run_validation.go and agent/event_validation.go.
pub mod Preserved
use agentframe.Base.{Bool, true, false, not, Option, none, some, ◌==◌, is_some, is_none}
use agentframe.Base.Int.{negative}
use agentframe.Agent.Value.{ToolResult}
use agentframe.Agent.Requirement.{RunStatus, unset}
use agentframe.Agent.Run.{RunState, CommandKind, no_command}
use agentframe.Agent.Event.{Event, EventType}
use agentframe.Agent.Errors.{
  GoError, both, wrap, sentinel, fails, run_state_invalid, invalid_run_id, event_invalid,
}
use agentframe.Agent.Lifecycle.{◌then_check◌, reject_if, validate_suspension_invariant}

unfoldable pub is_known_run_status : RunStatus → Bool
is_known_run_status unset = false
is_known_run_status (RunStatus.other s) = false
is_known_run_status _ = true

-- ValidateRunState
unfoldable pub validate_run_state : RunState → Option GoError
unfolding is_known_run_status validate_suspension_invariant
validate_run_state s =
    reject_if (s.id == "") (
      some (
        both (sentinel run_state_invalid) (wrap (sentinel invalid_run_id) "field=id reason=empty")))
    then_check reject_if (negative s.step) (fails run_state_invalid "field=step reason=negative")
    then_check reject_if (negative s.version)
        (fails run_state_invalid "field=version reason=negative")
    then_check reject_if (not (is_known_run_status s.status))
        (fails run_state_invalid "field=status reason=unknown")
    then_check validate_suspension_invariant s

is_empty_type : EventType → Bool
is_empty_type (EventType.other s) = s == ""
is_empty_type _ = false

unfoldable pub is_known_event_type : EventType → Bool
is_known_event_type (EventType.other s) = false
is_known_event_type _ = true

-- CommandKind == ""
unfoldable pub is_empty_kind : CommandKind → Bool
is_empty_kind no_command = true
is_empty_kind (CommandKind.other s) = s == ""
is_empty_kind _ = false

no_command_kind : Event → Option GoError
unfolding is_empty_kind
no_command_kind e =
    reject_if (not (is_empty_kind e.command_kind))
      (fails event_invalid "field=command_kind reason=forbidden")

no_message : Event → Option GoError
no_message e = reject_if (is_some e.message) (fails event_invalid "field=message reason=forbidden")

no_tool_result : Event → Option GoError
no_tool_result e =
    reject_if (is_some e.tool_result) (fails event_invalid "field=tool_result reason=forbidden")

check_tool_result : Option ToolResult → Option GoError
check_tool_result none = fails event_invalid "field=tool_result reason=nil"
check_tool_result (some r) =
    reject_if (r.call_id == "") (fails event_invalid "field=tool_result.call_id reason=empty")
    then_check reject_if (r.name == "") (fails event_invalid "field=tool_result.name reason=empty")

-- the `switch event.Type` of ValidateEvent
validate_payload : EventType → Event → Option GoError
unfolding no_command_kind no_message no_tool_result check_tool_result
validate_payload EventType.command_applied e =
    reject_if (is_empty_kind e.command_kind) (fails event_invalid "field=command_kind reason=empty")
    then_check no_message e
    then_check no_tool_result e
validate_payload EventType.assistant_message e =
    reject_if (is_none e.message) (fails event_invalid "field=message reason=nil")
    then_check no_command_kind e
    then_check no_tool_result e
validate_payload EventType.tool_result e =
    no_command_kind e then_check no_message e then_check check_tool_result e.tool_result
validate_payload (EventType.other s) e = none
validate_payload _ e = no_command_kind e then_check no_message e then_check no_tool_result e

-- ValidateEvent
unfoldable pub validate_event : Event → Option GoError
unfolding is_empty_type is_known_event_type validate_payload
validate_event e =
    reject_if (is_empty_type e.type) (fails event_invalid "field=type reason=empty")
    then_check reject_if (e.run_id == "") (fails event_invalid "field=run_id reason=empty")
    then_check reject_if (negative e.step) (fails event_invalid "field=step reason=negative")
    then_check reject_if (not (is_known_event_type e.type))
        (fails event_invalid "field=type reason=unknown")
    then_check validate_payload e.type e
