-- ===== src/Agent/Errors.antt =====
-- agent/errors.go, agentreact/errors.go, agent/suspend_request.go, tooling/registry/registry.go and
-- the packages of examples/coding-agent/server/internal: error values as Go builds them, `errors.Join`, `errors.Is` and `errors.As`.
-- A detail is the constant part of a format; the values that `fmt` prints into it are left out.
-- A join of one error is that error, which `errors.Is`, `errors.As` and `Error()` do not tell apart.
use agentframe.Base.{ℕ, String, ◌≡◌, refl, Bool, false, ◌||◌, Option, none, some, nat_eq, arith}
use agentframe.Agent.Requirement.{PendingRequirement}

pub data Sentinel : Type 0 where
  max_steps_exceeded run_not_found run_version_conflict : Sentinel
  invalid_run_state_transition run_state_invalid run_not_continuable run_not_cancellable : Sentinel
  resolution_required resolution_invalid resolution_unexpected : Sentinel
  command_nil context_nil command_invalid command_conflict command_unsupported : Sentinel
  invalid_run_id event_publish event_invalid engine_output_contract_violation : Sentinel
  tool_definitions_invalid missing_id_generator missing_run_store missing_engine : Sentinel
  -- agentreact
  missing_model missing_tool_executor tool_call_invalid : Sentinel
  -- tooling/registry
  tool_unregistered nil_handler tool_name_empty : Sentinel
  -- runstream
  cursor_invalid cursor_expired : Sentinel
  -- policyauth, policylimit, httpapi
  unauthorized request_too_large request_timed_out command_budget_exceeded : Sentinel
  invalid_request : Sentinel
  -- toolset
  path_required path_outside_workspace argument_invalid bash_command_empty : Sentinel
  bash_command_denied bash_replay_mismatch bash_execution_timed_out : Sentinel
  -- package context
  context_canceled deadline_exceeded : Sentinel

pub data GoError : Type 0 where
  -- one of the package-level errors
  sentinel : Sentinel → GoError
  -- fmt.Errorf("%w: detail", err)
  wrap : GoError → String → GoError
  -- errors.Join of two errors
  both : GoError → GoError → GoError
  -- errors.New, or fmt.Errorf without %w
  message : String → GoError
  -- *SuspendRequestError: a nil pointer, without and with a cause
  nil_suspend_request : GoError
  suspend_request : Option PendingRequirement → GoError
  suspend_request_with : Option PendingRequirement → GoError → GoError

code : Sentinel → ℕ
code max_steps_exceeded = 1
code run_not_found = 2
code run_version_conflict = 3
code invalid_run_state_transition = 4
code run_state_invalid = 5
code run_not_continuable = 6
code run_not_cancellable = 7
code resolution_required = 8
code resolution_invalid = 9
code resolution_unexpected = 10
code command_nil = 11
code context_nil = 12
code command_invalid = 13
code command_conflict = 14
code command_unsupported = 15
code invalid_run_id = 16
code event_publish = 17
code event_invalid = 18
code engine_output_contract_violation = 19
code tool_definitions_invalid = 20
code missing_id_generator = 21
code missing_run_store = 22
code missing_engine = 23
code missing_model = 24
code missing_tool_executor = 25
code tool_call_invalid = 26
code tool_unregistered = 27
code nil_handler = 28
code tool_name_empty = 29
code cursor_invalid = 30
code cursor_expired = 31
code context_canceled = 32
code deadline_exceeded = 33
code unauthorized = 34
code request_too_large = 35
code request_timed_out = 36
code command_budget_exceeded = 37
code invalid_request = 38
code path_required = 39
code path_outside_workspace = 40
code argument_invalid = 41
code bash_command_empty = 42
code bash_command_denied = 43
code bash_replay_mismatch = 44
code bash_execution_timed_out = 45

-- errors.Is
unfoldable pub is : Sentinel → GoError → Bool
unfolding code
is target (sentinel s) = nat_eq (code s) (code target)
is target (wrap e detail) = is target e
is target (both a b) = is target a || is target b
is target (message m) = false
is target nil_suspend_request = false
is target (suspend_request r) = false
is target (suspend_request_with r e) = is target e

-- What errors.As finds for a *SuspendRequestError: nothing, a nil pointer, or a request.
pub data SuspendMatch : Type 0 where
  no_match nil_request : SuspendMatch
  request : Option PendingRequirement → SuspendMatch

first_match : SuspendMatch → SuspendMatch → SuspendMatch
first_match no_match m = m
first_match nil_request m = nil_request
first_match (request r) m = request r

unfoldable pub as_suspend_request : GoError → SuspendMatch
unfolding first_match
as_suspend_request (sentinel s) = no_match
as_suspend_request (wrap e detail) = as_suspend_request e
as_suspend_request (both a b) = first_match (as_suspend_request a) (as_suspend_request b)
as_suspend_request (message m) = no_match
as_suspend_request nil_suspend_request = nil_request
as_suspend_request (suspend_request r) = request r
as_suspend_request (suspend_request_with r e) = request r

-- errors.Join of two errors that may be nil
unfoldable pub join : Option GoError → Option GoError → Option GoError
join none e = e
join (some a) none = some a
join (some a) (some b) = some (both a b)

-- errors.Is on an error that may be nil
abbrev pub reports : Sentinel → Option GoError → Bool
reports target none = false
reports target (some e) = is target e

-- fmt.Errorf("%w: detail", ErrX)
abbrev pub fails : Sentinel → String → Option GoError
fails s detail = some (wrap (sentinel s) detail)

-- A joined error reports what its parts report.
pub reports-join :
    (s : Sentinel) (a b : Option GoError) → reports s (join a b) ≡ (reports s a || reports s b)
unfolding join is
reports-join s none b = refl
reports-join s (some a) none = ground arith
reports-join s (some a) (some b) = refl
