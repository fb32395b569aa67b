-- ===== src/Tooling/Registry/Lookup.antt =====
-- What a registered handler is called for, and with what.
use agentframe.Base.{
  String, ◌≡◌, ◌≢◌, refl, ap, ◌∙◌, true, false, Option, none, some, [], ◌∷◌, ◌==◌, if◌then◌else◌,
  eq_iff, arith, Bool-cases, inl, inr,
}
use agentframe.Agent.Value.{ToolCall, ToolResult, no_reason}
use agentframe.Agent.Errors.{GoError}
use agentframe.Agent.Context.{Context}
use agentframe.Agent.Prog.{Part}
use agentframe.Agent.Interfaces.{Host}
use agentframe.Tooling.Registry.{
  Handler, Registered, find_handler, put_handler, entry, register_handler, validate_registration,
  execute_call, call_handler, finish, no_tool_result,
}

-- What a lookup sees after an entry is put.
find_handler-put :
    {W : Type 0} (name : String) (g : Option (Handler W)) (table : Registered W) (j : String)
    → find_handler j (put_handler name g table)
      ≡ (if name == j then entry g else find_handler j table)
unfolding find_handler put_handler
find_handler-put name g [] j = refl
find_handler-put name g ((k, h) ∷ rest) j =
    ground (arith, eq_iff k name, eq_iff k j, eq_iff name j, find_handler-put name g rest j)

-- The answer to a call whose handler gave a content or an error.
abbrev pub answered : ToolCall → String × Option GoError → ToolResult × Option GoError
answered call (content, some e) = (no_tool_result, some e)
answered call (content, none) = (
  record {
    call_id = call.id;
    name = call.name;
    content = content;
    is_error = false;
    failure_reason = no_reason;
  },
  none,
)

module _ {W : Type 0} (host : Host W) (registry : Part W (Registered W)) (name : String)
    (f : Handler W) (table : Registered W) where
  accepted :
      name ≢ "" → register_handler name (some f) table ≡ (put_handler name (some f) table, none)
  unfolding register_handler validate_registration
  accepted named = elim (Bool-cases (name == "")) [
    | inl blank ↦ absurd (named ((eq_iff name "").0 blank))
    | inr full ↦ rw full refl
  ]

  answered_lem :
      (call : ToolCall) (x : String × Option GoError)
      → finish host registry call x ≡ answered call x
  unfolding finish
  answered_lem call (content, none) = refl
  answered_lem call (content, some e) = refl

  -- Once a handler is registered under a name that is not empty, executing a call of that name,
  -- once the tests of the context have passed, runs the handler on the arguments of the call
  -- and gives its content under the ID and the name of the call, or its error; every other call
  -- goes as without the registration.
  pub register-execute :
      (ctx : Context) (call : ToolCall) (w : W)
      → name ≢ ""
      → registry.get w ≡ (register_handler name (some f) table).0
      → execute_call host registry ctx call w ≡ (
          if call.name == name
          then (answered call (f ctx call.arguments w).0, (f ctx call.arguments w).1)
          else execute_call host (record registry { get = λ u. table }) ctx call w)
  unfolding execute_call call_handler entry
  register-execute ctx call w named here =
      let now = here ∙ ap (λ x. x.0) (accepted named) in
      elim (Bool-cases (call.name == name)) [
        | inl same ↦
            let known : (call.name == "") ≡ false =
              grind (arith, same, named, eq_iff call.name name, eq_iff call.name "") in
            let mine : (name == call.name) ≡ true =
              grind (arith, same, eq_iff call.name name, eq_iff name call.name) in
            rw (now, find_handler-put, same, known, mine)
              (ap (λ x. (x, (f ctx call.arguments w).1))
                (answered_lem call (f ctx call.arguments w).0))
        | inr other ↦
            let not_mine : (name == call.name) ≡ false =
              grind (arith, other, eq_iff call.name name, eq_iff name call.name) in
            rw (now, find_handler-put, other, not_mine) refl
      ]
