-- ===== src/Agent/Runner/Checks/Provenance.antt =====
-- agent/runner.go: where the requirement of a suspended engine output comes from.
use agentframe.Base.{
  String, ◌≡◌, ◌≢◌, refl, subst, Bool, true, false, ◌&&◌, ◌||◌, not, Option, none, some, List, [],
  ◌∷◌, ◌==◌, eq_iff, arith, Bool-cases, inl, inr, items, length, drop, if◌then◌else◌,
}
use agentframe.Agent.Value.{ToolCall}
use agentframe.Agent.Requirement.{
  PendingRequirement, RequirementOrigin, model, tool, is_suspended, kind_eq, origin_eq,
}
use agentframe.Agent.Message.{Message, Role, assistant, is_assistant, is_tool}
use agentframe.Agent.Run.{RunState}
use agentframe.Agent.Lifecycle.{then_check-none, reject_if-none}
use agentframe.Agent.Runner.Checks.{
  requirement_matches, has_matching_assistant_requirement, observes_call, has_call, requests_call,
  has_tool_observation_for_call_id, has_assistant_tool_call_for_call_id, check_origin,
  check_provenance, validate_suspended_requirement_provenance, validate_engine_output,
}
use agentframe.Agent.Runner.Checks.Output.{not-false, Accepted, validate_engine_output-Accepted}

pub data Somewhere (P : Message → Type 0) : List Message → Type 0 where
  at_head : {m : Message} {ms : List Message} → P m → Somewhere P (m ∷ ms)
  in_tail : {m : Message} {ms : List Message} → Somewhere P ms → Somewhere P (m ∷ ms)

-- The result of a tool call.
pub record IsObservation (id : String) (m : Message) : Type 0 where
  pub from_tool : m.role ≡ Role.tool
  pub of_call : m.tool_call_id ≡ id

pub data IsCalled (id : String) : List ToolCall → Type 0 where
  first : {c : ToolCall} {cs : List ToolCall} → c.id ≡ id → IsCalled id (c ∷ cs)
  later : {c : ToolCall} {cs : List ToolCall} → IsCalled id cs → IsCalled id (c ∷ cs)

-- An assistant's message that asks for a tool call.
pub record IsRequest (id : String) (m : Message) : Type 0 where
  pub from_assistant : m.role ≡ assistant
  pub asks : IsCalled id m.tool_calls

-- An assistant's message with a requirement of the same ID, kind and origin.
pub record IsCarrier (q : PendingRequirement) (m : Message) : Type 0 where
  pub from_assistant : m.role ≡ assistant
  pub carried : PendingRequirement
  pub held : m.requirement ≡ some carried
  pub same_id : carried.id ≡ q.id
  pub same_kind : kind_eq carried.kind q.kind ≡ true
  pub same_origin : origin_eq carried.origin q.origin ≡ true

pub data IsProven (q : PendingRequirement) (additions all : List Message) : Type 0 where
  by_model : q.origin ≡ model → Somewhere (IsCarrier q) additions → IsProven q additions all
  by_tool :
      q.origin ≡ tool
      → q.tool_call_id ≢ ""
      → Somewhere (IsObservation q.tool_call_id) additions
      → Somewhere (IsRequest q.tool_call_id) all
      → IsProven q additions all

tool_role : (r : Role) → is_tool r ≡ true → r ≡ Role.tool
tool_role Role.tool h = refl
tool_role _ h = ground arith

assistant_role : (r : Role) → is_assistant r ≡ true → r ≡ assistant
assistant_role assistant h = refl
assistant_role _ h = ground arith

both_true : (a b : Bool) → (a && b) ≡ true → (a ≡ true) × (b ≡ true)
both_true true b h = (refl, h)
both_true false b h = cc

or_right : (a b : Bool) → (a || b) ≡ true → a ≡ false → b ≡ true
or_right false b h e = h
or_right true b h e = cc

IsObservation-of :
    (ms : List Message) (id : String) → observes_call ms id ≡ true → Somewhere (IsObservation id) ms
unfolding observes_call
IsObservation-of [] id h = cc
IsObservation-of (m ∷ ms) id h = elim (Bool-cases (is_tool m.role && m.tool_call_id == id)) [
  | inl e ↦
      let (r, c) = both_true (is_tool m.role) (m.tool_call_id == id) e in
      at_head (record { from_tool = tool_role m.role r; of_call = (eq_iff m.tool_call_id id).0 c })
  | inr e ↦ in_tail (IsObservation-of ms id (or_right _ (observes_call ms id) h e))
]

call_of : (cs : List ToolCall) (id : String) → has_call cs id ≡ true → IsCalled id cs
unfolding has_call
call_of [] id h = cc
call_of (c ∷ cs) id h = elim (Bool-cases (c.id == id)) [
  | inl e ↦ first ((eq_iff c.id id).0 e)
  | inr e ↦ later (call_of cs id (or_right _ (has_call cs id) h e))
]

IsRequest-of :
    (ms : List Message) (id : String) → requests_call ms id ≡ true → Somewhere (IsRequest id) ms
unfolding requests_call
IsRequest-of [] id h = cc
IsRequest-of (m ∷ ms) id h = elim (Bool-cases (is_assistant m.role && has_call m.tool_calls id)) [
  | inl e ↦
      let (r, c) = both_true (is_assistant m.role) (has_call m.tool_calls id) e in
      at_head
        (record { from_assistant = assistant_role m.role r; asks = call_of m.tool_calls id c })
  | inr e ↦ in_tail (IsRequest-of ms id (or_right _ (requests_call ms id) h e))
]

IsCarrier-of :
    (q : PendingRequirement) (m : Message) (o : Option PendingRequirement)
    → m.requirement ≡ o
    → m.role ≡ assistant
    → requirement_matches o q ≡ true
    → IsCarrier q m
unfolding requirement_matches
IsCarrier-of q m none e r h = cc
IsCarrier-of q m (some c) e r h =
    let (h1, o) =
      both_true (c.id == q.id && kind_eq c.kind q.kind) (origin_eq c.origin q.origin) h in
    let (i, k) = both_true (c.id == q.id) (kind_eq c.kind q.kind) h1 in
    record {
      from_assistant = r;
      carried = c;
      held = e;
      same_id = (eq_iff c.id q.id).0 i;
      same_kind = k;
      same_origin = o;
    }

carriers_of :
    (ms : List Message) (q : PendingRequirement)
    → has_matching_assistant_requirement ms q ≡ true
    → Somewhere (IsCarrier q) ms
unfolding has_matching_assistant_requirement
carriers_of [] q h = cc
carriers_of (m ∷ ms) q h = elim (Bool-cases (has_matching_assistant_requirement ms q)) [
  | inl e ↦ in_tail (carriers_of ms q e)
  | inr e ↦
      let (r, c) =
        both_true (is_assistant m.role) (requirement_matches m.requirement q)
          (or_right (has_matching_assistant_requirement ms q) _ h e) in
      at_head (IsCarrier-of q m m.requirement refl (assistant_role m.role r) c)
]

named : (id : String) (b : Bool) → (if id == "" then false else b) ≡ true → b ≡ true
named id b h = ground arith

not_blank : (id : String) (b : Bool) → (if id == "" then false else b) ≡ true → id ≢ ""
not_blank id b h e = ground (arith, (eq_iff id "").1 e, h)

pub origin-IsProven :
    (o : RequirementOrigin) (additions all : List Message) (q : PendingRequirement)
    → q.origin ≡ o
    → check_origin o additions all q ≡ none
    → IsProven q additions all
unfolding check_origin has_tool_observation_for_call_id has_assistant_tool_call_for_call_id
origin-IsProven model additions all q e h =
    by_model e (carriers_of additions q (not-false _ ((reject_if-none _ _).0 h)))
origin-IsProven tool additions all q e h =
    let (a, b) = (then_check-none _ _).0 h in
    by_tool e (not_blank q.tool_call_id _ (not-false _ ((reject_if-none _ _).0 a)))
      (IsObservation-of additions q.tool_call_id
        (named q.tool_call_id _ (not-false _ ((reject_if-none _ _).0 a))))
      (IsRequest-of all q.tool_call_id
        (named q.tool_call_id _ (not-false _ ((reject_if-none _ _).0 b))))
origin-IsProven (RequirementOrigin.other s) additions all q e h = cc

-- If an engine output that passes is suspended on a requirement, its origin is proven: a
-- requirement of the model stands in a new message of the assistant, and one of a tool has a new
-- observation of its tool call, which an assistant's message in the transcript asks for.
pub suspension-IsProven :
    (prev next : RunState) (q : PendingRequirement)
    → validate_engine_output prev next ≡ none
    → is_suspended next.status ≡ true
    → next.pending_requirement ≡ some q
    → IsProven q (drop (length (items prev.messages)) (items next.messages)) (items next.messages)
unfolding validate_suspended_requirement_provenance
suspension-IsProven prev next q ok e p =
    origin-IsProven q.origin _ _ q refl
      ((then_check-none _ _).0
        (checked (is_suspended next.status) next.pending_requirement e p a.provenance)).1
  where
    a : Accepted prev next
    a = validate_engine_output-Accepted prev next ok

    additions : List Message
    additions = drop (length (items prev.messages)) (items next.messages)

    checked :
        (b : Bool) (o : Option PendingRequirement)
        → b ≡ true
        → o ≡ some q
        → (if not b then none else check_provenance o additions (items next.messages)) ≡ none
        → check_provenance (some q) additions (items next.messages) ≡ none
    checked true o e f h =
        subst (λ x. check_provenance x additions (items next.messages) ≡ none) f h
    checked false o e f h = cc
