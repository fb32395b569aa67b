-- ===== src/Scenario/Tools.antt =====
-- The registry and the bash tool on a concrete world.
use agentframe.Base.{
  ℕ, ◌+◌, String, ◌≡◌, refl, true, false, none, some, List, [], ◌∷◌, ◌==◌, if◌then◌else◌, arith,
  eq_iff,
}
use agentframe.Base.Int.{pos}
use agentframe.Agent.Value.{ToolCall, map_of, field, done, text, get_field}
use agentframe.Agent.Requirement.{running, approval, approved, Resolution, PendingRequirement}
use agentframe.Agent.Run.{RunState}
use agentframe.Agent.Errors.{GoError, is, wrap, sentinel, bash_command_denied, suspend_request_with}
use agentframe.Agent.Context.{background, replay_override_from_context}
use agentframe.Agent.Prog.{Part, pure}
use agentframe.Agent.Interfaces.{Host}
use agentframe.Agent.Validation.{validate_run_state}
use agentframe.Agentreact.Requirements.{
  validate_requirement_contract, validate_tool_suspend_request, granted,
}
use agentframe.Base.Distinct.{member}
use agentframe.Toolset.Policies.{Policy, Texts, string_argument, validate_bash_command}
use agentframe.Toolset.Bash.{Shell, bash_requirement, bash_approval_fingerprint, execute_bash}
use agentframe.Toolset.Approval.{
  BashOutcome, Approved, execute_bash-guarded, bash_approval_roundtrip, asked,
}
use agentframe.Tooling.Registry.{Handler, Registered, register_handler, execute_call}
use agentframe.Tooling.Registry.Lookup.{register-execute, answered}
use agentframe.Agent.Message.{Message, assistant, tool, plain_message, clone_message}
use agentframe.Provider.Preflight.{
  normalize_messages_for_provider, normalize_from, take_by_role, take_tool_message, place,
  find_index, replace_at, add_calls, append_message,
}
use agentframe.Provider.Preflight.Transcript.{is_fed}
use agentframe.Provider.Preflight.Fed.{normalize_messages-fed}
use agentframe.Agent.Value.{clone_tool_call, clone_fields}
use agentframe.Scenario.{exhausted}

-- The commands that ran.
abbrev Ran : Type 0
Ran = List String

abbrev host : Host Ran
host = record {
  cancellation = pure none;
  await_mutex = λ id. pure tt;
  trim_space = λ s. s;
  sprintf = λ f xs. f;
  error_text = λ e. "error";
}

-- Every text is one field, and no text is part of another but of itself.
abbrev texts : Texts
texts = record {
  contains = λ s t. s == t;
  split_fields = λ s. s ∷ [];
  has_prefix = λ s t. s == t;
  replace_first = λ s old new. if s == old then new else s;
  len = λ s. 8;
}

abbrev shell : Shell Ran
shell = record {
  run = λ ctx command dir timeout ran.
      (record { timed_out = false; failure = none; stdout = "out"; stderr = "" }, command ∷ ran);
  digest = λ payload. payload.command;
}

abbrev policy : Policy
policy = record { workspace_root = "/work"; bash_timeout = pos 3000; max_read_size = pos 1024 }

abbrev call : ToolCall
call = record {
  id = "call-1";
  name = "bash";
  arguments = map_of (field "command" (text "rm") done);
}

execute_bash-guarded_example :
    BashOutcome host texts shell policy background call []
      (execute_bash host texts shell policy background call [])
execute_bash-guarded_example = execute_bash-guarded host texts shell policy background call []

abbrev approving : Resolution
approving = record {
  requirement_id = "req-bash-policy-%s";
  kind = approval;
  outcome = approved;
  value = "";
}

abbrev denied : GoError
denied = wrap (sentinel bash_command_denied) "command is not allowed"

abbrev run : RunState
run = record exhausted { status = running }

abbrev request : PendingRequirement
request = asked host texts shell policy call "rm"

bash_approval_roundtrip_example :
    (execute_bash host texts shell policy background call []
      ≡ (("", some (suspend_request_with (some request) denied)), []))
    × (validate_tool_suspend_request run call (some request) ≡ granted request)
    × Approved host texts shell policy request background call "rm" approving []
unfolding string_argument validate_bash_command is replay_override_from_context
    validate_requirement_contract validate_run_state member bash_requirement
    bash_approval_fingerprint get_field
bash_approval_roundtrip_example =
    bash_approval_roundtrip host texts shell policy background background call "rm" denied run
      approving [] [] refl refl refl refl refl refl

-- A registry in which the call of one tool is counted.
abbrev Calls : Type 0
Calls = ℕ

abbrev counter : Handler Calls
counter ctx arguments n = (("counted", none), n + 1)

abbrev table : Registered Calls
table = ("other", none) ∷ []

abbrev idle : Host Calls
idle = record {
  cancellation = pure none;
  await_mutex = λ id. pure tt;
  trim_space = λ s. s;
  sprintf = λ f xs. f;
  error_text = λ e. "error";
}

abbrev registry : Part Calls (Registered Calls)
registry = record { get = λ n. (register_handler "bash" (some counter) table).0; put = λ t n. n }

register-execute_example : execute_call idle registry background call 4 ≡ (
    if call.name == "bash"
    then (answered call ("counted", none), 5)
    else execute_call idle (record registry { get = λ u. table }) background call 4)
register-execute_example =
    register-execute idle registry "bash" counter table background call 4
      (λ p. ground (arith, (eq_iff _ _).1 p)) refl

-- A transcript in which one call is observed twice.
abbrev asking : Message
asking = record (plain_message assistant "") { tool_calls = call ∷ [] }

abbrev observation : String → Message
observation content = record (plain_message tool content) { tool_call_id = "call-1" }

normalize_messages-fed_example : is_fed (λ s. s) [] [] (asking ∷ observation "second" ∷ []) ≡ true
unfolding normalize_messages_for_provider normalize_from take_by_role take_tool_message place
    find_index replace_at add_calls append_message clone_message plain_message clone_tool_call
    clone_fields member
normalize_messages-fed_example =
    normalize_messages-fed (λ s. s) (asking ∷ observation "first" ∷ observation "second" ∷ [])
      (asking ∷ observation "second" ∷ []) refl
