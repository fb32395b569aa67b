-- ===== src/Toolset/Approval.antt =====
-- When the bash tool runs a command, and how a denied command comes to run.
use agentframe.Base.{
  String, ◌≡◌, refl, true, Option, none, some, ◌==◌, eq_iff, eq_refl, arith, Bool-cases,
  Option-cases, inl, inr,
}
use agentframe.Agent.Value.{ToolCall}
use agentframe.Agent.Requirement.{PendingRequirement, Resolution, is_approved}
use agentframe.Agent.Run.{RunState}
use agentframe.Agent.Errors.{GoError, is, suspend_request_with, bash_command_denied}
use agentframe.Agent.Context.{
  Context, ReplayOverride, replay_override_from_context, with_replay_override,
  replay_override_roundtrip,
}
use agentframe.Agent.Prog.{pure, on_error}
use agentframe.Agent.Interfaces.{Host}
use agentframe.Agent.Runner.Checks.{approved_tool_call_replay_override_for_continue}
use agentframe.Agentreact.Requirements.{
  granted, validate_tool_suspend_request, check_request, grant_if, validate_requirement_contract,
}
use agentframe.Toolset.Policies.{Policy, Texts, on_failure, string_argument, validate_bash_command}
use agentframe.Toolset.Bash.{
  Shell, execute_bash, bash_refusal, run_command, bash_requirement, bash_approval_fingerprint,
  approved_bash_replay, approves, validate_approved_bash_replay, mismatch, matches,
}

module _ {W : Type 0} (host : Host W) (texts : Texts) (shell : Shell W) (p : Policy) where
  open host use {trim_space}

  abbrev verdict : String → Option GoError
  verdict command = validate_bash_command trim_space texts command

  -- A command may run if the policy allows it, or if the policy denies it and the context carries
  -- an approval of this very call: its ID, and the fingerprint of its command.
  pub data Permitted (ctx : Context) (call : ToolCall) (command : String) : Type 0 where
    allowed : verdict command ≡ none → Permitted ctx call command
    approved :
        (e : GoError) (o : ReplayOverride)
        → verdict command ≡ some e
        → is bash_command_denied e ≡ true
        → replay_override_from_context (some ctx) ≡ some o
        → o.tool_call_id ≡ call.id
        → o.fingerprint ≡ bash_approval_fingerprint host texts shell p call command
        → Permitted ctx call command

  pub data BashOutcome (ctx : Context) (call : ToolCall) (w : W) (r : (String × Option GoError) × W)
      : Type 0 where
    refused : (e : GoError) → r ≡ (("", some e), w) → BashOutcome ctx call w r
    ran :
        (command : String)
        → string_argument trim_space call.arguments "command" ≡ (command, none)
        → Permitted ctx call command
        → r ≡ run_command host texts shell p ctx command w
        → BashOutcome ctx call w r

  abbrev print_of : ToolCall → String → String
  print_of call command = bash_approval_fingerprint host texts shell p call command

  permitted :
      (ctx : Context) (call : ToolCall) (command : String) (v : Option GoError)
      → verdict command ≡ v
      → bash_refusal host texts shell p ctx call command v ≡ none
      → Permitted ctx call command
  unfolding bash_refusal validate_approved_bash_replay approved_bash_replay mismatch approves
  permitted ctx call command none q h = allowed q
  permitted ctx call command (some e) q h = elim (Bool-cases (is bash_command_denied e)) [
    | inr other ↦ absurd (ground (arith, other, h))
    | inl denied ↦ elim (Option-cases (replay_override_from_context (some ctx))) [
      | inl missing ↦ absurd (ground (arith, denied, missing, h))
      | inr (o, found) ↦ elim (Bool-cases (matches call.id (print_of call command) o)) [
        | inr wrong ↦ absurd (ground (arith, denied, found, wrong, h))
        | inl right ↦
            approved e o q denied found (ground (arith, right, eq_iff o.tool_call_id call.id))
              (ground (arith, right, eq_iff o.fingerprint (print_of call command)))
      ]
    ]
  ]

  -- The bash tool either fails and touches nothing, or runs the command of its call, and then
  -- the policy allows the command, or denies it and the context carries an approval of this
  -- very call: its ID and the fingerprint of its command.
  pub execute_bash-guarded :
      (ctx : Context) (call : ToolCall) (w : W)
      → BashOutcome ctx call w (execute_bash host texts shell p ctx call w)
  unfolding execute_bash
  execute_bash-guarded ctx call w = given (string_argument trim_space call.arguments "command") refl
    where
      judged :
          (command : String) (v : Option GoError)
          → string_argument trim_space call.arguments "command" ≡ (command, none)
          → bash_refusal host texts shell p ctx call command (verdict command) ≡ v
          → BashOutcome ctx call w
              (on_error v (λ e. pure ("", some e)) (run_command host texts shell p ctx command) w)
      judged command none a h = ran command a (permitted ctx call command _ refl h) refl
      judged command (some e) a h = refused e refl

      given :
          (x : String × Option GoError)
          → string_argument trim_space call.arguments "command" ≡ x
          → BashOutcome ctx call w (
              on_failure x
                (λ e. pure ("", some e))
                (λ command.
                  on_error
                    (bash_refusal host texts shell p ctx call command (verdict command))
                    (λ e. pure ("", some e))
                    (run_command host texts shell p ctx command))
                w)
      given (command, some e) a = refused e refl
      given (command, none) a = judged command _ a refl

  -- What a denied command asks for.
  abbrev pub asked : ToolCall → String → PendingRequirement
  asked call command = bash_requirement host texts shell p call (print_of call command)

  suspends :
      (ctx : Context) (call : ToolCall) (command : String) (e : GoError) (w : W)
      → string_argument trim_space call.arguments "command" ≡ (command, none)
      → verdict command ≡ some e
      → is bash_command_denied e ≡ true
      → replay_override_from_context (some ctx) ≡ none
      → execute_bash host texts shell p ctx call w
        ≡ (("", some (suspend_request_with (some (asked call command)) e)), w)
  unfolding execute_bash bash_refusal validate_approved_bash_replay approved_bash_replay mismatch
      approves
  suspends ctx call command e w given judged denied none_yet =
      rw (given, judged, denied, none_yet) refl

  runs :
      (ctx : Context) (call : ToolCall) (command : String) (e : GoError) (o : ReplayOverride)
      (w : W)
      → string_argument trim_space call.arguments "command" ≡ (command, none)
      → verdict command ≡ some e
      → is bash_command_denied e ≡ true
      → replay_override_from_context (some ctx) ≡ some o
      → matches call.id (print_of call command) o ≡ true
      → execute_bash host texts shell p ctx call w ≡ run_command host texts shell p ctx command w
  unfolding execute_bash bash_refusal validate_approved_bash_replay approved_bash_replay mismatch
      approves
  runs ctx call command e o w given judged denied found right =
      rw (given, judged, denied, found, right) refl

  grants :
      (s : RunState) (call : ToolCall) (command : String)
      → validate_requirement_contract s (asked call command) ≡ none
      → validate_tool_suspend_request s call (some (asked call command))
        ≡ granted (asked call command)
  unfolding validate_tool_suspend_request check_request grant_if bash_requirement
  grants s call command fine = elim (Bool-cases (call.id == "")) [
    | inl blank ↦ rw (fine, eq_refl call.id, blank) refl
    | inr full ↦ rw (fine, eq_refl call.id, full) refl
  ]

  -- An approval of the request lets the same call run.
  pub record Approved (q : PendingRequirement) (later : Context) (call : ToolCall)
      (command : String) (r : Resolution) (u : W) : Type 0 where
    pub override : ReplayOverride
    pub carried : approved_tool_call_replay_override_for_continue (some r) (some q) ≡ some override
    pub replayed :
        let ctx = with_replay_override (some later) override in
        execute_bash host texts shell p ctx call u ≡ run_command host texts shell p ctx command u

  -- If the policy denies a command and no approval is there, the bash tool asks for a
  -- suspension without touching anything; agentreact grants the request as it is, if the
  -- requirement is valid for the run; and under the override that the runner makes of an
  -- approving resolution of that requirement, the same call runs its command.
  pub bash_approval_roundtrip :
      (ctx later : Context) (call : ToolCall) (command : String) (e : GoError) (s : RunState)
      (r : Resolution) (w u : W)
      → string_argument trim_space call.arguments "command" ≡ (command, none)
      → verdict command ≡ some e
      → is bash_command_denied e ≡ true
      → replay_override_from_context (some ctx) ≡ none
      → validate_requirement_contract s (asked call command) ≡ none
      → is_approved r.outcome ≡ true
      → (execute_bash host texts shell p ctx call w
          ≡ (("", some (suspend_request_with (some (asked call command)) e)), w))
        × (validate_tool_suspend_request s call (some (asked call command))
            ≡ granted (asked call command))
        × Approved (asked call command) later call command r u
  unfolding bash_requirement approved_tool_call_replay_override_for_continue
  bash_approval_roundtrip ctx later call command e s r w u given judged denied none_yet fine
        agreed =
      let o : ReplayOverride = record {
        tool_call_id = call.id;
        fingerprint = print_of call command;
      } in
      (
        suspends ctx call command e w given judged denied none_yet,
        grants s call command fine,
        record {
          override = o;
          carried = rw agreed refl;
          replayed =
              runs (with_replay_override (some later) o) call command e o u given judged denied
                (replay_override_roundtrip (some later) o).0
                (rw (eq_refl call.id, eq_refl (print_of call command)) refl);
        },
      )
