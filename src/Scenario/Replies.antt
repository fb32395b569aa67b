-- ===== src/Scenario/Replies.antt =====
-- The lock table, and an output for a run without messages.
use agentframe.Base.{◌↔◌, List, ◌≡◌, ◌≢◌, refl, true, none, [], ◌∷◌, inl, arith, nil_slice}
use agentframe.Base.Distinct.{IsDistinct}
use agentframe.Agent.Value.{ToolDefinition, ToolCall, nil_map}
use agentframe.Agent.Runner.Checks.Definitions
use agentframe.Agent.Runner.Checks.Definitions.{validate_tool_definitions_exact}
use agentframe.Agentreact.Requirements.Calls
use agentframe.Agentreact.Requirements.Calls.{validate_tool_call_shape_exact}
use agentframe.Agentreact.Requirements.{validate_tool_call_shape}
use agentframe.Agent.Message.{assistant, plain_message}
use agentframe.Agent.Run.{RunState}
use agentframe.Agent.Runner.Checks.{validate_engine_output, validate_tool_definitions}
use agentframe.Agent.Runner.Checks.Output.{nil_messages-refused}
use agentframe.Agent.Runner.State.{CommandLocks, register, take_mutex, free_mutex, unregister}
use agentframe.Agent.Runner.State.Locks.{IsFree, entry, empty, unregister-register}
use agentframe.Scenario.{exhausted}

-- Run 1 is locked by somebody, and run 2 is waited for by nobody.
abbrev table : CommandLocks
table = ("run-1", record { ref_count = 1; held = true }) ∷ []

table-IsFree : IsFree "run-2" table
table-IsFree = entry (omega arith) (inl refl) empty

unregister-register_example :
    unregister "run-2" (free_mutex "run-2" (take_mutex "run-2" (register "run-2" table))) ≡ table
unregister-register_example = unregister-register "run-2" table table-IsFree

abbrev silent : RunState
silent = record exhausted { messages = nil_slice }

nil_messages-refused_example : validate_engine_output silent exhausted ≢ none
nil_messages-refused_example =
    nil_messages-refused silent exhausted (plain_message assistant "hello" ∷ []) refl refl

abbrev reader : ToolDefinition
reader = record { name = "read"; description = "reads a file"; input_schema = nil_map }

abbrev tools : List ToolDefinition
tools = reader ∷ record reader { name = "list" } ∷ []

validate_tool_definitions_exact_example :
    (validate_tool_definitions tools ≡ none)
    ↔ (Definitions.IsNamed tools × IsDistinct (Definitions.names tools))
validate_tool_definitions_exact_example = validate_tool_definitions_exact tools

abbrev calls : List ToolCall
calls = record { id = "call-1"; name = "read"; arguments = nil_map } ∷ []

validate_tool_call_shape_exact_example :
    (validate_tool_call_shape calls ≡ none) ↔ (Calls.IsNamed calls × IsDistinct (Calls.ids calls))
validate_tool_call_shape_exact_example = validate_tool_call_shape_exact calls
