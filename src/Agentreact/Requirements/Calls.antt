-- ===== src/Agentreact/Requirements/Calls.antt =====
-- agentreact/react_loop.go: which tool calls validateToolCallShape accepts.
use agentframe.Base.{String, ◌≡◌, ◌≢◌, ◌↔◌, refl, none, List, [], ◌∷◌, map}
use agentframe.Base.Distinct.{
  IsDistinct, distinct_nil, distinct_cons, IsApart, apart_nil, apart_cons, IsAbsent-of, member_of,
  from_seen, to_seen, IsApart-from_nil,
}
use agentframe.Agent.Value.{ToolCall}
use agentframe.Agent.Lifecycle.{then_check-none, reject_if-none, reject_empty-none}
use agentframe.Agentreact.Requirements.{check_calls, validate_tool_call_shape}

abbrev pub ids : List ToolCall → List String
ids = map (λ d. d.id)

-- Every call has an ID and a name.
pub data IsNamed : List ToolCall → Type 0 where
  named_nil : IsNamed []
  named_cons :
      {d : ToolCall} {ds : List ToolCall} → d.id ≢ "" → d.name ≢ "" → IsNamed ds → IsNamed (d ∷ ds)

parts_of :
    (seen : List String) (ds : List ToolCall)
    → check_calls seen ds ≡ none
    → IsNamed ds × IsDistinct (ids ds) × IsApart seen (ids ds)
unfolding check_calls
parts_of seen [] h = (named_nil, distinct_nil, apart_nil)
parts_of seen (d ∷ ds) h =
    let (a, h1) = (then_check-none _ _).0 h in
    let (c, h3) = (then_check-none _ _).0 h1 in
    let (b, h2) = (then_check-none _ _).0 h3 in
    let (n, k, p) = parts_of (d.id ∷ seen) ds h2 in
    let (absent, apart) = from_seen p in
    let fresh = (reject_if-none _ _).0 b in
    (
      named_cons ((reject_empty-none d.id _).0 a) ((reject_empty-none d.name _).0 c) n,
      distinct_cons absent k,
      apart_cons (IsAbsent-of d.id seen fresh) apart,
    )

calls_of :
    (seen : List String) (ds : List ToolCall)
    → IsNamed ds
    → IsDistinct (ids ds)
    → IsApart seen (ids ds)
    → check_calls seen ds ≡ none
unfolding check_calls
calls_of seen [] n k p = refl
calls_of seen (d ∷ ds) (named_cons ni ne n) (distinct_cons a k) (apart_cons b p) =
    (then_check-none _ _).1 (
      (reject_empty-none d.id _).1 ni,
      (then_check-none _ _).1 (
        (reject_empty-none d.name _).1 ne,
        (then_check-none _ _).1
            ((reject_if-none _ _).1 (member_of b), calls_of (d.id ∷ seen) ds n k (to_seen a p)),
      ),
    )

-- The tool calls of an answer are accepted exactly if each has an ID and a name, and no two have
-- the same ID.
pub validate_tool_call_shape_exact :
    (ds : List ToolCall) → (validate_tool_call_shape ds ≡ none) ↔ (IsNamed ds × IsDistinct (ids ds))
unfolding validate_tool_call_shape
validate_tool_call_shape_exact ds = (
  λ h. let p = parts_of [] ds h in (p.0, p.1),
  λ p. calls_of [] ds p.0 p.1 (IsApart-from_nil (ids ds)),
)
