-- ===== src/Agent/Event.antt =====
-- agent/event.go
use agentframe.Base.{String, Option}
use agentframe.Base.Int.{ℤ}
use agentframe.Agent.Value.{ToolResult}
use agentframe.Agent.Message.{Message}
use agentframe.Agent.Run.{CommandKind}

pub data EventType : Type 0 where
  command_applied run_started assistant_message tool_result run_completed run_failed : EventType
  run_suspended run_cancelled run_checkpoint : EventType
  other : String → EventType

pub record Event : Type 0 where
  pub run_id : String
  pub step : ℤ
  pub type : EventType
  pub command_kind : CommandKind
  pub message : Option Message
  pub tool_result : Option ToolResult
  pub description : String
