-- ===== src/Provider/Preflight.antt =====
-- examples/coding-agent/server/internal/modelprovider/preflight/normalize.go: the transcript as a
-- provider takes it. The set of call IDs and the map from call IDs to indices are lists.
pub mod Transcript
pub mod Fed
use agentframe.Base.{
  ℕ, zero, suc, String, Bool, true, false, Option, none, some, List, [], ◌∷◌, ◌++◌, map, ◌==◌,
  if◌then◌else◌, length,
}
use agentframe.Base.Distinct.{member}
use agentframe.Agent.Value.{ToolCall}
use agentframe.Agent.Message.{Message, Role, assistant, tool, clone_message}
use agentframe.Agent.Errors.{GoError, message}

-- the loop over the calls of an assistant's message
unfoldable pub add_calls : List ToolCall → List String → List String
add_calls [] ids = ids
add_calls (c ∷ cs) ids = add_calls cs (if c.id == "" then ids else c.id ∷ ids)

-- `existingIndex, exists := toolMessageIndexByCallID[id]`
unfoldable pub find_index : String → List (String × ℕ) → Option ℕ
find_index id [] = none
find_index id ((k, i) ∷ rest) = if k == id then some i else find_index id rest

-- `normalized[i] = m`
unfoldable pub replace_at : ℕ → Message → List Message → List Message
replace_at i m [] = []
replace_at zero m (x ∷ xs) = m ∷ xs
replace_at (suc i) m (x ∷ xs) = x ∷ replace_at i m xs

-- What the loop keeps: `normalized`, `assistantToolCalls` and `toolMessageIndexByCallID`.
pub record Progress : Type 0 where
  pub normalized : List Message
  pub calls : List String
  pub indices : List (String × ℕ)

unfoldable pub append_message : Message → Progress → Progress
append_message m s = record s { normalized = s.normalized ++ m ∷ [] }

-- where an observation goes: over the one of the same call, or to the end
unfoldable pub place : Option ℕ → String → Message → Progress → Progress
unfolding append_message
place (some i) id m s = record s { normalized = replace_at i m s.normalized }
place none id m s = record (append_message m s) { indices = (id, length s.normalized) ∷ s.indices }

-- What one round of the loop gives.
pub data Round : Type 0 where
  taken : Progress → Round
  rejected : GoError → Round

unfoldable pub take_tool_message : String → Message → Progress → Round
take_tool_message id m s =
    if id == ""
    then rejected (message "decode messages: tool message missing tool_call_id")
    else if member id s.calls
    then taken (place (find_index id s.indices) id m s)
    else rejected (message "decode messages: tool message references unknown tool_call_id")

-- the switch over the role; the first argument is strings.TrimSpace
unfoldable pub take_by_role : (String → String) → Role → Message → Progress → Round
take_by_role trim assistant m s =
    taken (record (append_message m s) { calls = add_calls m.tool_calls s.calls })
take_by_role trim tool m s = take_tool_message (trim m.tool_call_id) m s
take_by_role trim _ m s = taken (append_message m s)

-- `return nil, err`, or the next round
abbrev pub on_round :
    Round → (Progress → List Message × Option GoError) → List Message × Option GoError
on_round (rejected e) k = ([], some e)
on_round (taken s) k = k s

unfoldable pub normalize_from :
    (String → String) → List Message → Progress → List Message × Option GoError
normalize_from trim [] s = (s.normalized, none)
normalize_from trim (m ∷ ms) s =
    on_round (take_by_role trim (clone_message m).role (clone_message m) s)
      (λ t. normalize_from trim ms t)

-- NormalizeMessagesForProvider
unfoldable pub normalize_messages_for_provider :
    (String → String) → List Message → List Message × Option GoError
normalize_messages_for_provider trim messages =
    normalize_from trim messages (record { normalized = []; calls = []; indices = [] })
