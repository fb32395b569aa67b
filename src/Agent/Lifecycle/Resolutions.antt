-- ===== src/Agent/Lifecycle/Resolutions.antt =====
-- agent/lifecycle.go: which resolutions answer which requirements.
use agentframe.Base.{
  String, ◌≡◌, refl, true, false, ◌↔◌, ◌≢◌, sym, ap, ◌∙◌, none, some, ◌==◌, eq_iff, eq_refl, arith,
}
use agentframe.Agent.Requirement.{
  RequirementKind, approval, user_input, external_execution, RequirementOrigin, model, tool,
  ResolutionOutcome, approved, rejected, provided, PendingRequirement, Resolution, kind_eq,
}
use agentframe.Agent.Lifecycle.{
  validate_pending_requirement_contract, validate_resolution_contract,
  validate_resolution_for_requirement, then_check-none, match_requirement, outcome_fits_kind,
  is_known_requirement_kind, is_known_resolution_outcome,
}

-- The outcomes that answer a kind of requirement.
pub data Answers : RequirementKind → ResolutionOutcome → Type 0 where
  approve : Answers approval approved
  reject : Answers approval rejected
  provide : Answers user_input provided
  complete : Answers external_execution ResolutionOutcome.completed

-- Where a requirement comes from: a tool names its call and the call's fingerprint.
pub data IsOrigin (q : PendingRequirement) : Type 0 where
  from_model : q.origin ≡ model → IsOrigin q
  from_tool : q.origin ≡ tool → q.tool_call_id ≢ "" → q.fingerprint ≢ "" → IsOrigin q

pub record IsRequirement (q : PendingRequirement) : Type 0 where
  pub named : q.id ≢ ""
  pub known_kind : (s : String) → q.kind ≢ RequirementKind.other s
  pub sourced : IsOrigin q

pub record IsAnswer (r : Resolution) (q : PendingRequirement) : Type 0 where
  pub same_id : r.requirement_id ≡ q.id
  pub same_kind : r.kind ≡ q.kind
  pub answers : Answers r.kind r.outcome
  pub requirement : IsRequirement q

pub kind_eq_refl : (k : RequirementKind) → kind_eq k k ≡ true
unfolding kind_eq
kind_eq_refl approval = refl
kind_eq_refl (RequirementKind.other s) = eq_refl s
kind_eq_refl _ = refl

kind_eq→eq : (k l : RequirementKind) → kind_eq k l ≡ true → k ≡ l
unfolding kind_eq
kind_eq→eq (RequirementKind.other s) (RequirementKind.other t) h = grind (arith, eq_iff s t)
kind_eq→eq approval l h = ground arith
kind_eq→eq _ l h = ground arith

Answers-of :
    (k : RequirementKind) (o : ResolutionOutcome)
    → is_known_requirement_kind k ≡ true
    → outcome_fits_kind k o ≡ true
    → Answers k o
unfolding is_known_requirement_kind outcome_fits_kind
Answers-of approval approved h f = approve
Answers-of approval rejected h f = reject
Answers-of user_input provided h f = provide
Answers-of external_execution ResolutionOutcome.completed h f = complete
Answers-of approval provided h f = cc
Answers-of approval ResolutionOutcome.completed h f = cc
Answers-of approval (ResolutionOutcome.other s) h f = cc
Answers-of user_input approved h f = cc
Answers-of user_input rejected h f = cc
Answers-of user_input ResolutionOutcome.completed h f = cc
Answers-of user_input (ResolutionOutcome.other s) h f = cc
Answers-of external_execution approved h f = cc
Answers-of external_execution rejected h f = cc
Answers-of external_execution provided h f = cc
Answers-of external_execution (ResolutionOutcome.other s) h f = cc
Answers-of (RequirementKind.other s) o h f = cc

origin_of :
    (q : PendingRequirement) (o : RequirementOrigin)
    → q.origin ≡ o
    → validate_pending_requirement_contract (some q) ≡ none
    → IsOrigin q
unfolding validate_pending_requirement_contract
origin_of q model e h = from_model e
origin_of q tool e h =
    from_tool e (λ p. ground (arith, eq_iff q.tool_call_id ""))
      (λ p. ground (arith, eq_iff q.fingerprint ""))
origin_of q (RequirementOrigin.other s) e h = absurd (ground arith)

IsRequirement-of :
    (q : PendingRequirement)
    → validate_pending_requirement_contract (some q) ≡ none
    → IsRequirement q
unfolding validate_pending_requirement_contract
IsRequirement-of q h = record {
  named = λ e. ground (arith, eq_iff q.id "");
  known_kind = λ s e. ground arith;
  sourced = origin_of q q.origin refl h;
}

ne_of : (a b : String) → a ≢ b → (a == b) ≡ false
ne_of a b h = ground (arith, eq_iff a b)

known_of :
    (k : RequirementKind)
    → ((s : String) → k ≢ RequirementKind.other s)
    → is_known_requirement_kind k ≡ true
unfolding is_known_requirement_kind
known_of (RequirementKind.other s) h = absurd (h s refl)
known_of approval h = refl
known_of _ h = refl

contract_of :
    (q : PendingRequirement)
    → q.id ≢ ""
    → is_known_requirement_kind q.kind ≡ true
    → IsOrigin q
    → validate_pending_requirement_contract (some q) ≡ none
unfolding validate_pending_requirement_contract
contract_of q named known (from_model e) = ground (arith, eq_iff q.id "")
contract_of q named known (from_tool e c f) =
    ground (arith, eq_iff q.id "", ne_of q.tool_call_id "" c, ne_of q.fingerprint "" f)

-- A requirement passes its contract exactly if it is named, of a known kind, and comes from the
-- model or from a tool whose call and fingerprint it names.
pub IsRequirement-exact :
    (q : PendingRequirement)
    → (validate_pending_requirement_contract (some q) ≡ none) ↔ IsRequirement q
IsRequirement-exact q =
    (IsRequirement-of q, λ v. contract_of q v.named (known_of q.kind v.known_kind) v.sourced)

contract_parts :
    (r : Resolution)
    → validate_resolution_contract (some r) ≡ none
    → (is_known_requirement_kind r.kind ≡ true) × (outcome_fits_kind r.kind r.outcome ≡ true)
unfolding validate_resolution_contract
contract_parts r c = ground arith

parts_of :
    (r : Resolution) (q : PendingRequirement)
    → validate_resolution_for_requirement (some r) (some q) ≡ none
    → (is_known_requirement_kind r.kind ≡ true)
      × (outcome_fits_kind r.kind r.outcome ≡ true)
      × (validate_pending_requirement_contract (some q) ≡ none)
      × ((r.requirement_id == q.id) ≡ true)
      × (kind_eq r.kind q.kind ≡ true)
unfolding validate_resolution_for_requirement
parts_of r q h =
    let (c, h1) = (then_check-none (validate_resolution_contract (some r)) _).0 h in
    let (k, h2) = (then_check-none (validate_pending_requirement_contract (some q)) _).0 h1 in
    let (known, fits) = contract_parts r c in (known, fits, k, ground arith, ground arith)

answer_fits :
    {k : RequirementKind} {o : ResolutionOutcome}
    → Answers k o
    → (is_known_requirement_kind k ≡ true)
      × (is_known_resolution_outcome o ≡ true)
      × (outcome_fits_kind k o ≡ true)
unfolding is_known_requirement_kind is_known_resolution_outcome outcome_fits_kind
answer_fits approve = (refl, refl, refl)
answer_fits _ = (refl, refl, refl)

contract_whole :
    (r : Resolution)
    → r.requirement_id ≢ ""
    → Answers r.kind r.outcome
    → validate_resolution_contract (some r) ≡ none
unfolding validate_resolution_contract
contract_whole r named a = ground (arith, ne_of r.requirement_id "" named, answer_fits a)

whole_of :
    (r : Resolution) (q : PendingRequirement)
    → IsAnswer r q
    → validate_resolution_for_requirement (some r) (some q) ≡ none
unfolding validate_resolution_for_requirement
whole_of r q a = (then_check-none (validate_resolution_contract (some r)) _).1 (
  contract_whole r (λ e. a.requirement.named (sym a.same_id ∙ e)) a.answers,
  (then_check-none (validate_pending_requirement_contract (some q)) _).1
      ((IsRequirement-exact q).1 a.requirement, matched),
)
  where
    matched : match_requirement (some r) (some q) ≡ none
    matched = ground (
      arith,
      (eq_iff r.requirement_id q.id).1 a.same_id,
      ap (λ k. kind_eq k q.kind) a.same_kind ∙ kind_eq_refl q.kind,
    )

-- A resolution is accepted for a requirement exactly if it names it, is of its kind, has an
-- outcome of that kind, and the requirement is well formed.
pub resolution_exact :
    (r : Resolution) (q : PendingRequirement)
    → (validate_resolution_for_requirement (some r) (some q) ≡ none) ↔ IsAnswer r q
resolution_exact r q = (answer_of, whole_of r q)
  where
    answer_of : validate_resolution_for_requirement (some r) (some q) ≡ none → IsAnswer r q
    answer_of h =
        let p = parts_of r q h in
        record {
          same_id = (eq_iff r.requirement_id q.id).0 p.3;
          same_kind = kind_eq→eq r.kind q.kind p.4;
          answers = Answers-of r.kind r.outcome p.0 p.1;
          requirement = (IsRequirement-exact q).0 p.2;
        }
