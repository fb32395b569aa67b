-- ===== src/Policy/Retry.antt =====
-- policy/retry/retry.go: an engine that tries another engine several times, each time from the same
-- state. The inputs of the attempts have neither a resolution nor a resolved requirement.
pub mod Guarantees
use agentframe.Base.{
  ℕ, zero, suc, Bool, true, false, ◌||◌, Option, none, some, if◌then◌else◌, is_some,
}
use agentframe.Base.Int.{ℤ, pos, negsuc}
use agentframe.Agent.Message.{clone_tool_definitions}
use agentframe.Agent.Run.{RunState, EngineInput, clone_run_state}
use agentframe.Agent.Errors.{
  GoError, is, sentinel, context_nil, context_canceled, deadline_exceeded,
}
use agentframe.Agent.Context.{Context}
use agentframe.Agent.Prog.{Prog, pure, on_error, ◌>>=◌}
use agentframe.Agent.Interfaces.{Engine, Host, ctx_err}

pub record Config : Type 0 where
  pub max_attempts : ℤ
  pub decide : Option (GoError → Bool)

unfoldable pub normalized_attempts : ℤ → ℕ
normalized_attempts (pos (suc n)) = suc n
normalized_attempts _ = 1

-- the part of shouldRetry after the test of the context
unfoldable pub is_retryable : Option (GoError → Bool) → GoError → Bool
is_retryable none e = if is context_canceled e || is deadline_exceeded e then false else true
is_retryable (some f) e = f e

module _ {W : Type 0} (host : Host W) (next : Engine W) (cfg : Config) where
  pub should_retry : Context → GoError → Prog W Bool
  should_retry ctx e = do
    c ← ctx_err host ctx
    pure (if is_some c then false else is_retryable cfg.decide e)

  attempt_input : EngineInput → EngineInput
  attempt_input input = record {
    max_steps = input.max_steps;
    tools = clone_tool_definitions (clone_tool_definitions input.tools);
    resolution = none;
    resolved_requirement = none;
  }

  one_attempt : Context → RunState → EngineInput → Prog W (RunState × Option GoError)
  unfolding attempt_input
  one_attempt ctx s input =
      next.execute (some ctx) (clone_run_state (clone_run_state s)) (attempt_input input)

  -- what follows a failed attempt, when so many attempts are left
  retry_or_stop :
      ℕ
      → Context
      → RunState
      → GoError
      → Prog W (RunState × Option GoError)
      → Prog W (RunState × Option GoError)
  unfolding should_retry
  retry_or_stop zero ctx t e again = pure (t, some e)
  retry_or_stop (suc left) ctx t e again = do
    retry ← should_retry ctx e
    if retry then again else pure (t, some e)

  -- `for attempt := 1; attempt <= attempts; attempt++`
  attempts_from : ℕ → Context → RunState → EngineInput → Prog W (RunState × Option GoError)
  unfolding one_attempt retry_or_stop
  attempts_from zero ctx s input = pure (clone_run_state s, none)
  attempts_from (suc left) ctx s input = do
    let again = attempts_from left ctx s input
    out ← one_attempt ctx s input
    on_error out.1 (λ e. retry_or_stop left ctx out.0 e again) (pure (out.0, none))

  -- Execute
  pub execute : Option Context → RunState → EngineInput → Prog W (RunState × Option GoError)
  unfolding attempts_from
  execute none s input = pure (s, some (sentinel context_nil))
  execute (some ctx) s input = do
    c ← ctx_err host ctx
    on_error c (λ e. pure (s, some e))
        (attempts_from (normalized_attempts cfg.max_attempts) ctx s input)

-- WrapEngine
abbrev pub wrap_engine : {W : Type 0} → Host W → Option (Engine W) → Config → Option (Engine W)
wrap_engine host none cfg = none
wrap_engine host (some next) cfg = some (record { execute = execute host next cfg })
