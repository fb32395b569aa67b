-- ===== src/Agent/Runner/Checks/Exact.antt =====
-- agent/runner.go: exactly which engine outputs pass validateEngineOutput.
use agentframe.Base.{
  String, ◌≡◌, ◌↔◌, refl, sym, subst, Bool, true, false, ◌&&◌, ◌||◌, none, some, List, [], ◌∷◌,
  ◌==◌, eq_iff, eq_refl, arith, Bool-cases, Option-cases, inl, inr, items, slice_to, length,
  length-append, drop, is_empty, ltb,
}
use agentframe.Base.Int.{◌≤ℤ◌}
use agentframe.Agent.Value.{ToolCall}
use agentframe.Agent.Requirement.{PendingRequirement, is_suspended}
use agentframe.Agent.Message.{Message, is_assistant, is_tool}
use agentframe.Agent.Run.{RunState}
use agentframe.Agent.History.{Continues}
use agentframe.Agent.Runner.Checks.{
  requirement_matches, has_matching_assistant_requirement, observes_call, has_call, requests_call,
  has_tool_observation_for_call_id, has_assistant_tool_call_for_call_id, check_origin,
  check_provenance, validate_suspended_requirement_provenance, validate_engine_output,
  same_messages,
}
use agentframe.Agent.Runner.Checks.Output.{
  validate_engine_output-Accepted, same_messages_refl, prefix-Continues,
}
use agentframe.Agent.Runner.Checks.Provenance.{
  Somewhere, at_head, in_tail, IsObservation, IsCalled, first, later, IsRequest, IsCarrier,
  IsProven, by_model, by_tool, suspension-IsProven,
}

or_true : (a b : Bool) → b ≡ true → (a || b) ≡ true
or_true true b h = refl
or_true false b h = h

observation_found :
    (ms : List Message) (id : String) → Somewhere (IsObservation id) ms → observes_call ms id ≡ true
unfolding observes_call
observation_found [] id s = elim s [ ]
observation_found (m ∷ ms) id (at_head o) = rw (o.from_tool, o.of_call, eq_refl id) refl
observation_found (m ∷ ms) id (in_tail s) =
    or_true (is_tool m.role && m.tool_call_id == id) (observes_call ms id)
      (observation_found ms id s)

call_found : (cs : List ToolCall) (id : String) → IsCalled id cs → has_call cs id ≡ true
unfolding has_call
call_found [] id s = elim s [ ]
call_found (c ∷ cs) id (first e) = rw (e, eq_refl id) refl
call_found (c ∷ cs) id (later k) = or_true (c.id == id) (has_call cs id) (call_found cs id k)

request_found :
    (ms : List Message) (id : String) → Somewhere (IsRequest id) ms → requests_call ms id ≡ true
unfolding requests_call
request_found [] id s = elim s [ ]
request_found (m ∷ ms) id (at_head o) =
    rw (o.from_assistant, call_found m.tool_calls id o.asks) refl
request_found (m ∷ ms) id (in_tail s) =
    or_true (is_assistant m.role && has_call m.tool_calls id) (requests_call ms id)
      (request_found ms id s)

or_left : (a b : Bool) → a ≡ true → (a || b) ≡ true
or_left true b h = refl
or_left false b h = cc

carrier_found :
    (ms : List Message) (q : PendingRequirement)
    → Somewhere (IsCarrier q) ms
    → has_matching_assistant_requirement ms q ≡ true
unfolding has_matching_assistant_requirement requirement_matches
carrier_found [] q s = elim s [ ]
carrier_found (m ∷ ms) q (at_head o) =
    or_true (has_matching_assistant_requirement ms q)
      (is_assistant m.role && requirement_matches m.requirement q)
      (rw (o.from_assistant, o.held, o.same_id, eq_refl q.id, o.same_kind, o.same_origin) refl)
carrier_found (m ∷ ms) q (in_tail s) =
    or_left (has_matching_assistant_requirement ms q) _ (carrier_found ms q s)

some_there : {P : Message → Type 0} {ms : List Message} → Somewhere P ms → is_empty ms ≡ false
some_there (at_head p) = refl
some_there (in_tail s) = refl

IsProven-passes :
    (q : PendingRequirement) (additions all : List Message)
    → IsProven q additions all
    → check_provenance (some q) additions all ≡ none
unfolding check_provenance check_origin has_tool_observation_for_call_id
    has_assistant_tool_call_for_call_id
IsProven-passes q additions all (by_model from s) = rw (some_there s) (
    subst (λ o. check_origin o additions all q ≡ none) (sym from)
      (rw (carrier_found additions q s) refl))
IsProven-passes q additions all (by_tool from named seen asked) =
    let id = q.tool_call_id in
    let named_id : (id == "") ≡ false = ground (arith, named, eq_iff id "") in
    rw (some_there seen) (
      subst (λ o. check_origin o additions all q ≡ none) (sym from)
        (rw (named_id, observation_found additions id seen, request_found all id asked) refl))

-- The output does not wait for anything, or for something that its new messages prove.
pub data Backed (prev next : RunState) : Type 0 where
  awake : is_suspended next.status ≡ false → Backed prev next
  waits_for_nothing : next.pending_requirement ≡ none → Backed prev next
  proven :
      (q : PendingRequirement)
      → next.pending_requirement ≡ some q
      → IsProven q (drop (length (items prev.messages)) (items next.messages)) (items next.messages)
      → Backed prev next

-- What an engine output has to be.
pub record Passes (prev next : RunState) : Type 0 where
  pub same_run : next.id ≡ prev.id
  pub step_grows : prev.step ≤ℤ next.step
  pub same_prefix : slice_to (length (items prev.messages)) next.messages ≡ prev.messages
  pub evidence : Backed prev next

backed : (prev next : RunState) → validate_engine_output prev next ≡ none → Backed prev next
backed prev next ok = elim (Bool-cases (is_suspended next.status)) [
  | inr e ↦ awake e
  | inl e ↦ elim (Option-cases next.pending_requirement) [
    | inl p ↦ waits_for_nothing p
    | inr (q, p) ↦ proven q p (suspension-IsProven prev next q ok e p)
  ]
]

Backed-passes :
    (prev next : RunState)
    → Backed prev next
    → validate_suspended_requirement_provenance prev next ≡ none
unfolding validate_suspended_requirement_provenance check_provenance
Backed-passes prev next (awake e) = rw e refl
Backed-passes prev next (waits_for_nothing p) = elim (Bool-cases (is_suspended next.status)) [
  | inr e ↦ rw e refl
  | inl e ↦ rw (e, p) refl
]
Backed-passes prev next (proven q p x) = elim (Bool-cases (is_suspended next.status)) [
  | inr e ↦ rw e refl
  | inl e ↦ rw (e, p) (IsProven-passes q _ _ x)
]

long_enough : {xs ys : List Message} → Continues xs ys → ltb (length ys) (length xs) ≡ false
long_enough {xs} {ys} c = rw c.extended (ground (arith, length-append xs c.additions))

combined :
    (prev next : RunState)
    → (next.id == prev.id) ≡ true
    → ltb (length (items next.messages)) (length (items prev.messages)) ≡ false
    → Passes prev next
    → validate_engine_output prev next ≡ none
unfolding validate_engine_output
combined prev next same longer p =
    let prefix : same_messages (slice_to (length (items prev.messages)) next.messages) prev.messages
        ≡ true =
      rw p.same_prefix (same_messages_refl prev.messages) in
    rw (same, p.step_grows, longer, prefix) (Backed-passes prev next p.evidence)

-- An engine output passes the check exactly if it has the ID of the run, a step counter that did
-- not fall, the messages of the input as its first messages, and is not suspended, or on no
-- requirement, or on one whose origin is proven: a requirement of the model stands in a new
-- message of the assistant, and one of a tool names a call that has a new observation and that a
-- message of the assistant asks for.
pub validate_engine_output_exact :
    (prev next : RunState) → (validate_engine_output prev next ≡ none) ↔ Passes prev next
validate_engine_output_exact prev next = (
  λ ok.
      let a = validate_engine_output-Accepted prev next ok in
      record {
        same_run = a.same_run;
        step_grows = a.step_grows;
        same_prefix = a.same_prefix;
        evidence = backed prev next ok;
      },
  λ p.
      combined prev next ((eq_iff next.id prev.id).1 p.same_run)
        (long_enough (prefix-Continues prev.messages next.messages p.same_prefix)) p,
)
