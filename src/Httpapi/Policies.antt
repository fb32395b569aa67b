-- ===== src/Httpapi/Policies.antt =====
-- examples/coding-agent/server/internal/policylimit/middleware.go and policyauth/middleware.go: the
-- limits of a request and its authorization. A handler is a function from a request to the response
-- that it writes.
use agentframe.Base.{String, Bool, Option, none, some, ◌==◌, if◌then◌else◌, not}
use agentframe.Base.Int.{ℤ, pos, nonpositive, ltbℤ}
use agentframe.Agent.Errors.{
  GoError, message, fails, unauthorized, command_budget_exceeded, wrap, sentinel,
}
use agentframe.Agent.Context.{Context}
use agentframe.Agent.Prog.{Prog}

-- The body of a request, and the number of bytes after which reading it fails.
pub record Body : Type 0 where
  pub present : Bool
  pub limit : Option ℤ

-- What the handlers read of a request; `timeout` is that of its context, which ends with
-- ErrRequestTimedOut as its cause.
pub record Request : Type 0 where
  pub context : Context
  pub timeout : Option ℤ
  pub authorization : String
  pub path_run_id : String
  pub cursor : String
  pub body : Body

abbrev pub default_max_request_body_bytes : ℤ
default_max_request_body_bytes = pos 1048576

-- in nanoseconds
abbrev pub default_request_timeout : ℤ
default_request_timeout = pos 10000000000

abbrev pub default_max_command_steps : ℤ
default_max_command_steps = pos 8

pub record LimitConfig : Type 0 where
  pub max_request_body_bytes : ℤ
  pub request_timeout : ℤ
  pub max_command_steps : ℤ

abbrev pub or_default : ℤ → ℤ → ℤ
or_default n default = if nonpositive n then default else n

-- policylimit.NormalizeConfig
unfoldable pub normalize_config : LimitConfig → LimitConfig
normalize_config cfg = record {
  max_request_body_bytes = or_default cfg.max_request_body_bytes default_max_request_body_bytes;
  request_timeout = or_default cfg.request_timeout default_request_timeout;
  max_command_steps = or_default cfg.max_command_steps default_max_command_steps;
}

unfoldable pub limit_request : LimitConfig → Request → Request
limit_request cfg r = record r {
  body =
      if r.body.present then record r.body { limit = some cfg.max_request_body_bytes } else r.body;
  timeout = some cfg.request_timeout;
}

module _ {W R : Type 0} where
  -- policylimit.Middleware
  unfoldable pub limit_middleware : LimitConfig → (Request → Prog W R) → Request → Prog W R
  limit_middleware cfg next r = next (limit_request (normalize_config cfg) r)

  -- policyauth.Middleware; `trim` is strings.TrimSpace, and `bearer` puts the scheme's prefix
  -- "Bearer " before a token
  unfoldable pub auth_middleware :
      (String → String)
      → (String → String)
      → String
      → (GoError → Prog W R)
      → (Request → Prog W R)
      → Request
      → Prog W R
  auth_middleware trim bearer token reject next r =
      if trim token == ""
      then next r
      else if not (trim r.authorization == bearer (trim token))
      then reject (wrap (sentinel unauthorized) "missing or invalid bearer token")
      else next r

-- the policy's maximum, once it is positive
unfoldable pub allowed_steps : ℤ → ℤ
allowed_steps max = if nonpositive max then default_max_command_steps else max

-- policylimit.NormalizeCommandMaxSteps
unfoldable pub normalize_command_max_steps : Option ℤ → ℤ → ℤ × Option GoError
unfolding allowed_steps
normalize_command_max_steps none max =
    if ltbℤ (allowed_steps max) default_max_command_steps
    then (pos 0, fails command_budget_exceeded "implicit max_steps exceeds policy max_steps")
    else (pos 0, none)
normalize_command_max_steps (some n) max =
    if nonpositive n
    then (pos 0, some (message "max_steps must be greater than 0 when provided"))
    else if ltbℤ (allowed_steps max) n
    then (pos 0, fails command_budget_exceeded "requested max_steps policy max_steps")
    else (n, none)
