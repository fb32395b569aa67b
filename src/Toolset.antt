-- ===== src/Toolset.antt =====
-- examples/coding-agent/server/internal/toolset/policy.go: the tools of the coding agent and their
-- executor.
pub mod Policies
pub mod Files
pub mod Bash
pub mod Approval
use agentframe.Base.{
  String, Bool, true, false, Option, none, some, List, [], ◌∷◌, ◌==◌, if◌then◌else◌,
}
use agentframe.Agent.Value.{
  ToolDefinition, ToolCall, ToolResult, clone_tool_definition, AnyMap, map_of, object, Any, text,
  array, item, end, Fields, field, done, no_reason,
}
use agentframe.Agent.Message.{clone_tool_definitions}
use agentframe.Agent.Errors.{GoError, sentinel, message, context_nil}
use agentframe.Agent.Context.{Context}
use agentframe.Agent.Prog.{Prog, pure, on_error, ◌>>=◌}
use agentframe.Agent.Interfaces.{Host, ctx_err}
use agentframe.Agentreact.Turn.{ToolExecutor}
use agentframe.Toolset.Policies.{Policy, Texts, Os}
use agentframe.Toolset.Files.{execute_read, execute_write, execute_edit}
use agentframe.Toolset.Bash.{Shell, execute_bash}

abbrev string_schema : Any
string_schema = object (field "type" (text "string") done)

abbrev object_schema : Fields → Any → AnyMap
object_schema properties required = map_of (
    field "type" (text "object")
      (field "properties" (object properties) (field "required" required done)))

-- toolDefinitions
abbrev pub tool_definitions : List ToolDefinition
tool_definitions =
    record {
      name = "read";
      description = "Read a UTF-8 text file within the workspace root.";
      input_schema =
          object_schema (field "path" string_schema done) (array (item (text "path") end));
    }
    ∷ record {
      name = "write";
      description = "Write UTF-8 text content to a file within the workspace root.";
      input_schema =
          object_schema (field "path" string_schema (field "content" string_schema done))
            (array (item (text "path") (item (text "content") end)));
    }
    ∷ record {
      name = "edit";
      description =
          "Replace the first occurrence of old text with new text in a file within the workspace root.";
      input_schema =
          object_schema
            (field "path" string_schema
              (field "old" string_schema (field "new" string_schema done)))
            (array (item (text "path") (item (text "old") (item (text "new") end))));
    }
    ∷ record {
      name = "bash";
      description =
          "Run a bounded command in the workspace root under command policy restrictions.";
      input_schema =
          object_schema (field "command" string_schema done) (array (item (text "command") end));
    }
    ∷ []

-- Definitions
unfoldable pub definitions : List ToolDefinition
definitions = clone_tool_definitions tool_definitions

-- agent.ToolResult{}
abbrev pub no_tool_result : ToolResult
no_tool_result = record {
  call_id = "";
  name = "";
  content = "";
  is_error = false;
  failure_reason = no_reason;
}

module _ {W : Type 0} (host : Host W) (texts : Texts) (os : Os W) (shell : Shell W)
    (p : Policy) where
  finish : ToolCall → String × Option GoError → ToolResult × Option GoError
  finish call (content, some e) = (no_tool_result, some e)
  finish call (content, none) = (
    record {
      call_id = call.id;
      name = call.name;
      content = content;
      is_error = false;
      failure_reason = no_reason;
    },
    none,
  )

  -- the switch over the tools
  unfoldable pub run_tool : Context → ToolCall → Prog W (String × Option GoError)
  run_tool ctx call =
      if call.name == "read"
      then execute_read host texts os p call.arguments
      else if call.name == "write"
      then execute_write host texts os p call.arguments
      else if call.name == "edit"
      then execute_edit host texts os p call.arguments
      else if call.name == "bash"
      then execute_bash host texts shell p ctx call
      else pure ("", some (message "toolset: unsupported tool"))

  -- Execute
  unfoldable pub execute : Option Context → ToolCall → Prog W (ToolResult × Option GoError)
  unfolding run_tool finish
  execute none call = pure (no_tool_result, some (sentinel context_nil))
  execute (some ctx) call = do
    e ← ctx_err host ctx
    on_error e (λ x. pure (no_tool_result, some x))
        (do content ← run_tool ctx call; pure (finish call content))

  abbrev pub toolset_executor : ToolExecutor W
  toolset_executor = record { execute = execute }
