-- ===== src/Agent/Requirement.antt =====
-- agent/run.go: requirements, resolutions and run statuses. A Go string type with constants is a
-- data type with a constructor for each constant; any other text is under `other`.
use agentframe.Base.{String, Bool, true, false, ◌==◌, String-discrete}

pub data RunStatus : Type 0 where
  -- the zero value ""
  unset : RunStatus
  pending running suspended cancelled completed failed max_steps_exceeded : RunStatus
  other : String → RunStatus

pub data RequirementKind : Type 0 where
  approval user_input external_execution : RequirementKind
  other : String → RequirementKind

pub data RequirementOrigin : Type 0 where
  model tool : RequirementOrigin
  other : String → RequirementOrigin

pub data ResolutionOutcome : Type 0 where
  approved rejected provided completed : ResolutionOutcome
  other : String → ResolutionOutcome

-- `==` on the string types
unfoldable pub status_eq : RunStatus → RunStatus → Bool
status_eq unset unset = true
status_eq pending pending = true
status_eq running running = true
status_eq suspended suspended = true
status_eq cancelled cancelled = true
status_eq RunStatus.completed RunStatus.completed = true
status_eq failed failed = true
status_eq max_steps_exceeded max_steps_exceeded = true
status_eq (RunStatus.other a) (RunStatus.other b) = a == b
status_eq _ _ = false

unfoldable pub kind_eq : RequirementKind → RequirementKind → Bool
kind_eq approval approval = true
kind_eq user_input user_input = true
kind_eq external_execution external_execution = true
kind_eq (RequirementKind.other a) (RequirementKind.other b) = a == b
kind_eq _ _ = false

unfoldable pub origin_eq : RequirementOrigin → RequirementOrigin → Bool
origin_eq model model = true
origin_eq tool tool = true
origin_eq (RequirementOrigin.other a) (RequirementOrigin.other b) = a == b
origin_eq _ _ = false

abbrev pub is_tool_origin : RequirementOrigin → Bool
is_tool_origin tool = true
is_tool_origin _ = false

abbrev pub is_model_origin : RequirementOrigin → Bool
is_model_origin model = true
is_model_origin _ = false

abbrev pub is_approval : RequirementKind → Bool
is_approval approval = true
is_approval _ = false

abbrev pub is_approved : ResolutionOutcome → Bool
is_approved approved = true
is_approved _ = false

abbrev pub is_suspended : RunStatus → Bool
is_suspended suspended = true
is_suspended _ = false

abbrev pub is_cancelled : RunStatus → Bool
is_cancelled cancelled = true
is_cancelled _ = false

pub record PendingRequirement : Type 0 where
  pub id : String
  pub kind : RequirementKind
  pub origin : RequirementOrigin
  pub tool_call_id : String
  pub fingerprint : String
  pub prompt : String

pub record Resolution : Type 0 where
  pub requirement_id : String
  pub kind : RequirementKind
  pub outcome : ResolutionOutcome
  pub value : String

pub PendingRequirement-discrete : Discrete PendingRequirement
PendingRequirement-discrete = hlevel String-discrete
