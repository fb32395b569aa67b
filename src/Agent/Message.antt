-- ===== src/Agent/Message.antt =====
-- agent/message.go: the transcript's messages and their clones.
use agentframe.Base.{
  String, ◌≡◌, refl, ap₂, Bool, true, false, Option, none, List, [], ◌∷◌, map, String-discrete,
}
use agentframe.Agent.Value.{
  ToolDefinition, ToolCall, ToolResult, clone_tool_call, clone_tool_call-id, clone_tool_definition,
  clone_tool_definition-id, ToolCall-discrete,
}
use agentframe.Agent.Requirement.{PendingRequirement, PendingRequirement-discrete}

pub data Role : Type 0 where
  -- the zero value ""
  unset : Role
  system user assistant tool : Role
  other : String → Role

abbrev pub is_assistant : Role → Bool
is_assistant assistant = true
is_assistant _ = false

abbrev pub is_tool : Role → Bool
is_tool tool = true
is_tool _ = false

pub record Message : Type 0 where
  pub role : Role
  pub content : String
  pub name : String
  pub tool_call_id : String
  pub tool_calls : List ToolCall
  pub requirement : Option PendingRequirement

pub Message-discrete : Discrete Message
Message-discrete = hlevel (ToolCall-discrete, PendingRequirement-discrete, String-discrete)

-- A message with a role and a content only.
unfoldable pub plain_message : Role → String → Message
plain_message r c = record {
  role = r;
  content = c;
  name = "";
  tool_call_id = "";
  tool_calls = [];
  requirement = none;
}

-- The copy of a pointer's target is the target's value.
unfoldable pub clone_message : Message → Message
clone_message m = record m { tool_calls = map clone_tool_call m.tool_calls }

unfoldable pub clone_messages : List Message → List Message
unfolding clone_message
clone_messages = map clone_message

map-id : {A : Type 0} (f : A → A) → ((a : A) → f a ≡ a) → (xs : List A) → map f xs ≡ xs
map-id f h [] = refl
map-id f h (x ∷ xs) = ap₂ ◌∷◌ (h x) (map-id f h xs)

pub clone_message-id : (m : Message) → clone_message m ≡ m
unfolding clone_message
clone_message-id m =
    λ i. record m { tool_calls = map-id clone_tool_call clone_tool_call-id m.tool_calls i }

pub clone_messages-id : (ms : List Message) → clone_messages ms ≡ ms
unfolding clone_messages
clone_messages-id = map-id clone_message clone_message-id

unfoldable pub clone_tool_definitions : List ToolDefinition → List ToolDefinition
clone_tool_definitions = map clone_tool_definition

pub clone_tool_definitions-id : (ds : List ToolDefinition) → clone_tool_definitions ds ≡ ds
unfolding clone_tool_definitions
clone_tool_definitions-id = map-id clone_tool_definition clone_tool_definition-id

-- ToolResultMessage
unfoldable pub tool_result_message : ToolResult → Message
tool_result_message r = record {
  role = tool;
  content = r.content;
  name = r.name;
  tool_call_id = r.call_id;
  tool_calls = [];
  requirement = none;
}
