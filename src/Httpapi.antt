-- ===== src/Httpapi.antt =====
-- examples/coding-agent/server/internal/httpapi/router.go: the routes of the HTTP server and the
-- policies around them. Matching a request to its route is the work of net/http.
pub mod Policies
pub mod Responses
pub mod Commands
pub mod Events
pub mod Guarantees
pub mod Access
use agentframe.Base.{
  ℕ, String, Bool, true, false, Option, none, some, List, [], ◌∷◌, ◌==◌, if◌then◌else◌,
}
use agentframe.Base.Int.{ℤ}
use agentframe.Agent.Errors.{GoError}
use agentframe.Agent.Prog.{Prog, pure}
use agentframe.Httpapi.Policies.{
  Request, auth_middleware, limit_middleware, or_default, default_max_request_body_bytes,
  default_request_timeout, default_max_command_steps,
}
use agentframe.Httpapi.Responses.{Response, write_mapped_error}
use agentframe.Httpapi.Commands.{
  Handlers, PolicyConfig, handle_run_start, handle_run_continue, handle_run_cancel,
  handle_run_steer, handle_run_follow_up, handle_run_query,
}
use agentframe.Httpapi.Events.{Stream, handle_run_events}

-- DefaultPolicyConfig
unfoldable pub default_policy_config : PolicyConfig
default_policy_config = record {
  auth_token = "coding-agent-dev-token";
  max_request_body_bytes = default_max_request_body_bytes;
  request_timeout = default_request_timeout;
  max_command_steps = default_max_command_steps;
}

-- normalizePolicyConfig
unfoldable pub normalize_policy_config : PolicyConfig → PolicyConfig
unfolding default_policy_config
normalize_policy_config input =
    let defaults = default_policy_config in
    record {
      auth_token = if input.auth_token == "" then defaults.auth_token else input.auth_token;
      max_request_body_bytes =
          or_default input.max_request_body_bytes defaults.max_request_body_bytes;
      request_timeout = or_default input.request_timeout defaults.request_timeout;
      max_command_steps = or_default input.max_command_steps defaults.max_command_steps;
    }

pub data Route : Type 0 where
  post_start post_continue post_cancel post_steer post_follow_up : Route
  get_run get_events : Route

abbrev Handler : Type 0 → Type 0
Handler W = Request → Prog W Response

-- chain: the first middleware is the outermost
unfoldable pub chain : {W : Type 0} → List (Handler W → Handler W) → Handler W → Handler W
chain [] next = next
chain (m ∷ ms) next = m (chain ms next)

-- The policy of NewRouter: the one that was given, normalized, or the default.
unfoldable pub router_policy : Option PolicyConfig → PolicyConfig
unfolding default_policy_config
router_policy none = default_policy_config
router_policy (some p) = normalize_policy_config p

module _ {W : Type 0} (bearer : String → String) (h : Handlers W) (stream : Stream W) where
  open h.host use {trim_space, error_text}

  reject : GoError → Prog W Response
  reject e = pure (write_mapped_error error_text e)

  -- applyMutatingPolicies
  unfoldable pub apply_mutating_policies : Handler W → Handler W
  unfolding reject
  apply_mutating_policies = chain (
      auth_middleware trim_space bearer h.policy.auth_token reject
      ∷ limit_middleware (record {
        max_request_body_bytes = h.policy.max_request_body_bytes;
        request_timeout = h.policy.request_timeout;
        max_command_steps = h.policy.max_command_steps;
      })
      ∷ [])

  -- the handler that NewRouter sets for each route
  unfoldable pub serve : ℕ → Route → Handler W
  unfolding apply_mutating_policies
  serve n post_start = apply_mutating_policies (handle_run_start h)
  serve n post_continue = apply_mutating_policies (handle_run_continue h)
  serve n post_cancel = apply_mutating_policies (handle_run_cancel h)
  serve n post_steer = apply_mutating_policies (handle_run_steer h)
  serve n post_follow_up = apply_mutating_policies (handle_run_follow_up h)
  serve n get_run = handle_run_query h
  serve n get_events = handle_run_events h stream n
