-- ===== src/Agent/Runner/Checks/Definitions.antt =====
-- agent/runner.go: which tool definitions validateToolDefinitions accepts.
use agentframe.Base.{String, ◌≡◌, ◌≢◌, ◌↔◌, refl, none, List, [], ◌∷◌, map}
use agentframe.Base.Distinct.{
  IsDistinct, distinct_nil, distinct_cons, IsApart, apart_nil, apart_cons, IsAbsent-of, member_of,
  from_seen, to_seen, IsApart-from_nil,
}
use agentframe.Agent.Value.{ToolDefinition}
use agentframe.Agent.Lifecycle.{then_check-none, reject_if-none, reject_empty-none}
use agentframe.Agent.Runner.Checks.{check_definitions, validate_tool_definitions}

abbrev pub names : List ToolDefinition → List String
names = map (λ d. d.name)

-- Every definition has a name.
pub data IsNamed : List ToolDefinition → Type 0 where
  named_nil : IsNamed []
  named_cons :
      {d : ToolDefinition} {ds : List ToolDefinition} → d.name ≢ "" → IsNamed ds → IsNamed (d ∷ ds)

names_of :
    (seen : List String) (ds : List ToolDefinition)
    → check_definitions seen ds ≡ none
    → IsNamed ds × IsDistinct (names ds) × IsApart seen (names ds)
unfolding check_definitions
names_of seen [] h = (named_nil, distinct_nil, apart_nil)
names_of seen (d ∷ ds) h =
    let (a, h1) = (then_check-none _ _).0 h in
    let (b, h2) = (then_check-none _ _).0 h1 in
    let (n, k, p) = names_of (d.name ∷ seen) ds h2 in
    let (absent, apart) = from_seen p in
    let fresh = (reject_if-none _ _).0 b in
    (
      named_cons ((reject_empty-none d.name _).0 a) n,
      distinct_cons absent k,
      apart_cons (IsAbsent-of d.name seen fresh) apart,
    )

check_of :
    (seen : List String) (ds : List ToolDefinition)
    → IsNamed ds
    → IsDistinct (names ds)
    → IsApart seen (names ds)
    → check_definitions seen ds ≡ none
unfolding check_definitions
check_of seen [] n k p = refl
check_of seen (d ∷ ds) (named_cons ne n) (distinct_cons a k) (apart_cons b p) =
    (then_check-none _ _).1 (
      (reject_empty-none d.name _).1 ne,
      (then_check-none _ _).1
          ((reject_if-none _ _).1 (member_of b), check_of (d.name ∷ seen) ds n k (to_seen a p)),
    )

-- The tool definitions of a command are accepted exactly if each has a name and no two have the
-- same.
pub validate_tool_definitions_exact :
    (ds : List ToolDefinition)
    → (validate_tool_definitions ds ≡ none) ↔ (IsNamed ds × IsDistinct (names ds))
unfolding validate_tool_definitions
validate_tool_definitions_exact ds = (
  λ h. let p = names_of [] ds h in (p.0, p.1),
  λ p. check_of [] ds p.0 p.1 (IsApart-from_nil (names ds)),
)
