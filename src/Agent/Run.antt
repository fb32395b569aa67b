-- ===== src/Agent/Run.antt =====
-- agent/run.go, agent/engine.go, agent/command.go: run states, engine inputs and commands.
use agentframe.Base.{String, ◌≡◌, Option, none, List, Slice, nil_slice, slice, items}
use agentframe.Base.Int.{ℤ, pos}
use agentframe.Agent.Value.{ToolDefinition}
use agentframe.Agent.Message.{Message, clone_messages, clone_messages-id}
use agentframe.Agent.Requirement.{RunStatus, unset, PendingRequirement, Resolution}

pub record RunState : Type 0 where
  pub id : String
  pub version : ℤ
  pub step : ℤ
  pub status : RunStatus
  pub pending_requirement : Option PendingRequirement
  pub output : String
  pub error : String
  pub messages : Slice Message

-- RunState{ID: id}
unfoldable pub new_run_state : String → RunState
new_run_state id = record {
  id = id;
  version = pos 0;
  step = pos 0;
  status = unset;
  pending_requirement = none;
  output = "";
  error = "";
  messages = nil_slice;
}

-- CloneRunState: the copied messages are never the nil slice.
unfoldable pub clone_run_state : RunState → RunState
clone_run_state s = record s { messages = slice (clone_messages (items s.messages)) }

pub clone_run_state_lem :
    (s : RunState) → clone_run_state s ≡ record s { messages = slice (items s.messages) }
unfolding clone_run_state
clone_run_state_lem s = λ i. record s { messages = slice (clone_messages-id (items s.messages) i) }

pub record RunInput : Type 0 where
  pub run_id : String
  pub system_prompt : String
  pub user_prompt : String
  pub max_steps : ℤ
  pub tools : List ToolDefinition

pub record RunResult : Type 0 where
  pub state : RunState

-- RunResult{}
unfoldable pub no_result : RunResult
unfolding new_run_state
no_result = record { state = new_run_state "" }

pub record EngineInput : Type 0 where
  pub max_steps : ℤ
  pub tools : List ToolDefinition
  pub resolution : Option Resolution
  pub resolved_requirement : Option PendingRequirement

pub data CommandKind : Type 0 where
  -- the zero value ""
  no_command : CommandKind
  start continue cancel steer follow_up : CommandKind
  other : String → CommandKind

pub record ContinueCommand : Type 0 where
  pub run_id : String
  pub command_id : String
  pub max_steps : ℤ
  pub tools : List ToolDefinition
  pub resolution : Option Resolution

pub record SteerCommand : Type 0 where
  pub run_id : String
  pub instruction : String

pub record FollowUpCommand : Type 0 where
  pub run_id : String
  pub user_prompt : String
  pub max_steps : ℤ
  pub tools : List ToolDefinition

-- A value of the interface `Command` as `Dispatch` tells them apart: nil, a nil pointer, another
-- pointer, one of the five structs, or a struct of another type that reports some kind.
pub data Command : Type 0 where
  nil_command nil_pointer : Command
  pointer : CommandKind → Command
  start_command : RunInput → Command
  continue_command : ContinueCommand → Command
  cancel_command : String → Command
  steer_command : SteerCommand → Command
  follow_up_command : FollowUpCommand → Command
  foreign : CommandKind → Command
