-- ===== src/Toolset/Bash.antt =====
-- examples/coding-agent/server/internal/toolset/bash.go: the bash tool, and the approval of commands
-- that the policy denies.
use agentframe.Base.{
  String, Bool, false, ◌&&◌, not, Option, none, some, [], ◌∷◌, ◌==◌, if◌then◌else◌,
}
use agentframe.Base.Int.{ℤ}
use agentframe.Agent.Value.{ToolCall}
use agentframe.Agent.Requirement.{PendingRequirement, approval, tool}
use agentframe.Agent.Errors.{
  GoError, wrap, fails, is, suspend_request_with, bash_command_denied, bash_replay_mismatch,
  bash_execution_timed_out,
}
use agentframe.Agent.Context.{Context, ReplayOverride, replay_override_from_context}
use agentframe.Agent.Prog.{Prog, pure, on_error, ◌>>=◌}
use agentframe.Agent.Interfaces.{Host}
use agentframe.Toolset.Policies.{Policy, Texts, on_failure, string_argument, validate_bash_command}

-- What a fingerprint is made of.
pub record FingerprintPayload : Type 0 where
  pub tool_name : String
  pub call_id : String
  pub command : String
  pub workspace_root : String
  pub bash_timeout_ns : ℤ

pub record CommandRun : Type 0 where
  pub timed_out : Bool
  pub failure : Option GoError
  pub stdout : String
  pub stderr : String

-- os/exec: `bash -lc command` in a directory, with a timeout; and the digest of a payload, which is
-- the text of the SHA-256 sum of its JSON.
pub record Shell (W : Type 0) : Type 0 where
  pub run : Context → String → String → ℤ → Prog W CommandRun
  pub digest : FingerprintPayload → String

abbrev pub matches : String → String → ReplayOverride → Bool
matches call_id fingerprint o = o.tool_call_id == call_id && o.fingerprint == fingerprint

unfoldable pub approves : Option ReplayOverride → String → String → Bool
approves none call_id fingerprint = false
approves (some o) call_id fingerprint = matches call_id fingerprint o

-- approvedBashReplay
unfoldable pub approved_bash_replay : Context → String → String → Bool
unfolding approves
approved_bash_replay ctx call_id fingerprint =
    approves (replay_override_from_context (some ctx)) call_id fingerprint

unfoldable pub mismatch : Option ReplayOverride → String → String → Option GoError
mismatch none call_id fingerprint = none
mismatch (some o) call_id fingerprint =
    if matches call_id fingerprint o
    then none
    else fails bash_replay_mismatch "field=approved_tool_replay_override reason=mismatch"

-- validateApprovedBashReplay
unfoldable pub validate_approved_bash_replay : Context → String → String → Option GoError
unfolding mismatch
validate_approved_bash_replay ctx call_id fingerprint =
    mismatch (replay_override_from_context (some ctx)) call_id fingerprint

module _ {W : Type 0} (host : Host W) (texts : Texts) (shell : Shell W) (p : Policy) where
  open host use {trim_space, sprintf}

  -- bashApprovalFingerprint
  unfoldable pub bash_approval_fingerprint : ToolCall → String → String
  bash_approval_fingerprint call command = shell.digest (record {
    tool_name = call.name;
    call_id = call.id;
    command = trim_space command;
    workspace_root = p.workspace_root;
    bash_timeout_ns = p.bash_timeout;
  })

  -- the requirement of a denied command
  unfoldable pub bash_requirement : ToolCall → String → PendingRequirement
  bash_requirement call fingerprint = record {
    id = sprintf "req-bash-policy-%s" (call.id ∷ []);
    kind = approval;
    origin = tool;
    tool_call_id = call.id;
    fingerprint = fingerprint;
    prompt = "approve bash command denied by policy";
  }

  -- what stands in the way of a command: nothing, if its policy or an approval lets it run
  unfoldable pub bash_refusal : Context → ToolCall → String → Option GoError → Option GoError
  bash_refusal ctx call command none = none
  bash_refusal ctx call command (some e) =
      if is bash_command_denied e
      then (let fingerprint = bash_approval_fingerprint call command in
          on_error (validate_approved_bash_replay ctx call.id fingerprint) some (
            if not (approved_bash_replay ctx call.id fingerprint)
            then some (suspend_request_with (some (bash_requirement call fingerprint)) e)
            else none))
      else some e

  describe : String → CommandRun → String × Option GoError
  describe command r =
      if r.timed_out
      then ("", fails bash_execution_timed_out "command= timeout= stdout= stderr=")
      else on_error r.failure (λ e. ("", some (wrap e "bash command failed")))
          (
            sprintf "bash_ok command=%q stdout=%q stderr=%q"
                (command ∷ trim_space r.stdout ∷ trim_space r.stderr ∷ []),
            none,
          )

  -- the command in its shell
  unfoldable pub run_command : Context → String → Prog W (String × Option GoError)
  unfolding describe
  run_command ctx command = do
    r ← shell.run ctx command p.workspace_root p.bash_timeout
    pure (describe command r)

  -- executeBash
  unfoldable pub execute_bash : Context → ToolCall → Prog W (String × Option GoError)
  execute_bash ctx call =
      on_failure (string_argument trim_space call.arguments "command") (λ e. pure ("", some e))
        (λ command.
          on_error (bash_refusal ctx call command (validate_bash_command trim_space texts command))
            (λ e. pure ("", some e)) (run_command ctx command))
