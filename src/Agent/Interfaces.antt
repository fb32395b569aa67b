-- ===== src/Agent/Interfaces.antt =====
-- agent/interfaces.go, agent/engine.go, and what the runtime takes from Go's standard library.
-- An implementation acts on a world `W`, which other goroutines may change at any call.
use agentframe.Base.{String, Option, none, List, if◌then◌else◌}
use agentframe.Agent.Requirement.{
  RequirementKind, RequirementOrigin, approval, user_input, external_execution, model, tool,
}
use agentframe.Agent.Run.{RunState, EngineInput}
use agentframe.Agent.Event.{Event}
use agentframe.Agent.Errors.{GoError}
use agentframe.Agent.Context.{Context}
use agentframe.Agent.Prog.{Prog, pure}

pub record RunStore (W : Type 0) : Type 0 where
  pub save : Option Context → RunState → Prog W (Option GoError)
  pub load : Option Context → String → Prog W (RunState × Option GoError)

pub record EventSink (W : Type 0) : Type 0 where
  pub publish : Option Context → Event → Prog W (Option GoError)

pub record IdGenerator (W : Type 0) : Type 0 where
  pub new_run_id : Option Context → Prog W (String × Option GoError)

pub record Engine (W : Type 0) : Type 0 where
  pub execute : Option Context → RunState → EngineInput → Prog W (RunState × Option GoError)

-- The caller's cancellation signal (`ctx.Err()` of a live context, which may change between two
-- calls), the wait for a mutex, and the text functions of `strings`, `fmt` and `error`.
pub record Host (W : Type 0) : Type 0 where
  pub cancellation : Prog W (Option GoError)
  pub await_mutex : String → Prog W (Unit {0})
  pub trim_space : String → String
  pub sprintf : String → List String → String
  pub error_text : GoError → String

-- ctx.Err()
unfoldable pub ctx_err : {W : Type 0} → Host W → Context → Prog W (Option GoError)
ctx_err host ctx = if ctx.live then host.cancellation else pure none

-- Which text a constant of a string type stands for.
unfoldable pub kind_text : RequirementKind → String
kind_text approval = "approval"
kind_text user_input = "user_input"
kind_text external_execution = "external_execution"
kind_text (RequirementKind.other s) = s

unfoldable pub origin_text : RequirementOrigin → String
origin_text model = "model"
origin_text tool = "tool"
origin_text (RequirementOrigin.other s) = s
