-- ===== src/Tooling/Registry.antt =====
-- tooling/registry/registry.go: tool handlers by name. The map is a list of entries in which a name
-- has one entry at most; its mutex makes each operation one step. A nil handler is `none`.
pub mod Lookup
use agentframe.Base.{
  String, ◌≡◌, ◌≢◌, refl, Bool, true, false, Option, none, some, List, [], ◌∷◌, ◌==◌, if◌then◌else◌,
}
use agentframe.Agent.Value.{AnyMap, ToolCall, ToolResult, no_reason}
use agentframe.Agent.Errors.{
  GoError, wrap, sentinel, context_nil, tool_unregistered, nil_handler, tool_name_empty,
}
use agentframe.Agent.Context.{Context}
use agentframe.Agent.Prog.{Prog, Part, pure, on_error, ◌>>=◌}
use agentframe.Agent.Interfaces.{Host, ctx_err}
use agentframe.Agentreact.Turn.{ToolExecutor}

abbrev pub Handler : Type 0 → Type 0
Handler W = Context → AnyMap → Prog W (String × Option GoError)

abbrev pub Registered : Type 0 → Type 0
Registered W = List (String × Option (Handler W))

-- agent.ToolResult{}
abbrev pub no_tool_result : ToolResult
no_tool_result = record {
  call_id = "";
  name = "";
  content = "";
  is_error = false;
  failure_reason = no_reason;
}

-- What a lookup finds: no entry, an entry with a nil handler, or a handler.
pub data Found (W : Type 0) : Type 0 where
  absent empty : Found W
  handled : Handler W → Found W

module _ {W : Type 0} where
  check_handler : Option (Handler W) → Option GoError
  check_handler none = some (sentinel nil_handler)
  check_handler (some f) = none

  -- validateRegistration
  unfoldable pub validate_registration : String → Option (Handler W) → Option GoError
  unfolding check_handler
  validate_registration name handler =
      if name == "" then some (sentinel tool_name_empty) else check_handler handler

  -- `r.handlers[name] = handler`
  unfoldable pub put_handler : String → Option (Handler W) → Registered W → Registered W
  put_handler name handler [] = (name, handler) ∷ []
  put_handler name handler ((k, g) ∷ rest) =
      if k == name then (k, handler) ∷ rest else (k, g) ∷ put_handler name handler rest

  entry : Option (Handler W) → Found W
  entry none = empty
  entry (some f) = handled f

  -- `handler, ok := r.handlers[name]`
  unfoldable pub find_handler : String → Registered W → Found W
  unfolding entry
  find_handler name [] = absent
  find_handler name ((k, g) ∷ rest) = if k == name then entry g else find_handler name rest

  -- the loop of New, over the entries in the order in which the map gives them
  unfoldable pub register_all : Registered W → Registered W → Registered W × Option GoError
  register_all [] handlers = (handlers, none)
  register_all ((name, handler) ∷ rest) handlers =
      let others = register_all rest (put_handler name handler handlers) in
      on_error (validate_registration name handler) (λ e. ([], some e)) others

  -- New
  unfoldable pub new_registry : Registered W → Registered W × Option GoError
  new_registry initial = register_all initial []

  -- Register, under the lock once the registration is valid
  unfoldable pub register_handler :
      String → Option (Handler W) → Registered W → Registered W × Option GoError
  register_handler name handler handlers =
      on_error (validate_registration name handler) (λ e. (handlers, some e))
        (put_handler name handler handlers, none)

  module _ (host : Host W) (registry : Part W (Registered W)) where
    unfoldable pub finish : ToolCall → String × Option GoError → ToolResult × Option GoError
    finish call (content, some e) = (no_tool_result, some e)
    finish call (content, none) = (
      record {
        call_id = call.id;
        name = call.name;
        content = content;
        is_error = false;
        failure_reason = no_reason;
      },
      none,
    )

    unfoldable pub call_handler :
        Context → ToolCall → Found W → Prog W (ToolResult × Option GoError)
    unfolding finish
    call_handler ctx call absent =
        pure (no_tool_result, some (wrap (sentinel tool_unregistered) "name"))
    call_handler ctx call empty = pure (no_tool_result, some (wrap (sentinel nil_handler) "name"))
    call_handler ctx call (handled f) = do
      answered ← f ctx call.arguments
      pure (finish call answered)

    -- Execute, once the context is there and not cancelled
    unfoldable pub execute_call : Context → ToolCall → Prog W (ToolResult × Option GoError)
    unfolding call_handler
    execute_call ctx call w =
        if call.name == ""
        then ((no_tool_result, some (wrap (sentinel tool_name_empty) "call")), w)
        else call_handler ctx call (find_handler call.name (registry.get w)) w

    -- Execute
    unfoldable pub execute_tool : Option Context → ToolCall → Prog W (ToolResult × Option GoError)
    execute_tool none call = pure (no_tool_result, some (sentinel context_nil))
    execute_tool (some ctx) call = do
      e ← ctx_err host ctx
      on_error e (λ x. pure (no_tool_result, some x)) (execute_call ctx call)

    abbrev pub registry_executor : ToolExecutor W
    registry_executor = record { execute = execute_tool }
