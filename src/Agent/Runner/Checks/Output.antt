-- ===== src/Agent/Runner/Checks/Output.antt =====
-- agent/runner.go: what it means that an engine's output passes validateEngineOutput.
use agentframe.Base.{
  List, ℕ, zero, suc, ◌≡◌, ◌≢◌, refl, sym, ap, ◌∙◌, Bool, true, false, not, none, ◌++◌, eq_iff,
  Slice, nil_slice, slice, items, slice_to, take, drop, length, take-drop,
}
use mathlib.Core.Bool.{decide_iff}
use agentframe.Base.Int.{◌≤ℤ◌}
use agentframe.Agent.Message.{Message}
use agentframe.Agent.Run.{RunState}
use agentframe.Agent.Lifecycle.{then_check-none, reject_if-none}
use agentframe.Agent.History.{Continues}
use agentframe.Agent.Runner.Checks.{
  validate_engine_output, validate_suspended_requirement_provenance, same_messages,
  messages_discrete,
}

pub same_messages-eq : (a b : Slice Message) → same_messages a b ≡ true → a ≡ b
unfolding same_messages
same_messages-eq nil_slice nil_slice h = refl
same_messages-eq (slice xs) (slice ys) h = ap slice ((decide_iff (messages_discrete xs ys)).0 h)
same_messages-eq nil_slice (slice ys) h = cc
same_messages-eq (slice xs) nil_slice h = cc

pub same_messages_refl : (s : Slice Message) → same_messages s s ≡ true
unfolding same_messages
same_messages_refl nil_slice = refl
same_messages_refl (slice xs) = (decide_iff (messages_discrete xs xs)).1 refl

items-slice_to : (n : ℕ) (s : Slice Message) → items (slice_to n s) ≡ take n (items s)
items-slice_to zero nil_slice = refl
items-slice_to (suc n) nil_slice = refl
items-slice_to n (slice xs) = refl

pub not-false : (b : Bool) → not b ≡ false → b ≡ true
not-false true h = refl
not-false false h = cc

pub record Accepted (prev next : RunState) : Type 0 where
  pub same_run : next.id ≡ prev.id
  pub step_grows : prev.step ≤ℤ next.step
  pub same_prefix : slice_to (length (items prev.messages)) next.messages ≡ prev.messages
  pub transcript : Continues (items prev.messages) (items next.messages)
  pub provenance : validate_suspended_requirement_provenance prev next ≡ none

pub prefix-Continues :
    (s t : Slice Message) → slice_to (length (items s)) t ≡ s → Continues (items s) (items t)
prefix-Continues s t h = record {
  additions = drop n (items t);
  extended = sym (
      ap (λ l. l ++ drop n (items t)) (sym (ap items h) ∙ items-slice_to n t)
      ∙ take-drop n (items t));
}
  where
    n : ℕ
    n = length (items s)

-- What an engine output that passes has.
pub validate_engine_output-Accepted :
    (prev next : RunState) → validate_engine_output prev next ≡ none → Accepted prev next
unfolding validate_engine_output
validate_engine_output-Accepted prev next h =
    let (a, h1) = (then_check-none _ _).0 h in
    let (b, h2) = (then_check-none _ _).0 h1 in
    let (_, h3) = (then_check-none _ _).0 h2 in
    let (d, e) = (then_check-none _ _).0 h3 in
    let p : slice_to (length (items prev.messages)) next.messages ≡ prev.messages =
      same_messages-eq _ _ (not-false _ ((reject_if-none _ _).0 d)) in
    record {
      same_run = (eq_iff next.id prev.id).0 (not-false _ ((reject_if-none _ _).0 a));
      step_grows = (reject_if-none _ _).0 b;
      same_prefix = p;
      transcript = prefix-Continues prev.messages next.messages p;
      provenance = e;
    }

-- An engine output that has a list of messages is refused for a run whose own list is nil.
pub nil_messages-refused :
    (prev next : RunState) (ms : List Message)
    → prev.messages ≡ nil_slice
    → next.messages ≡ slice ms
    → validate_engine_output prev next ≢ none
nil_messages-refused prev next ms p q h = apart next.messages q (a.same_prefix ∙ p)
  where
    a : Accepted prev next
    a = validate_engine_output-Accepted prev next h

    apart :
        (s : Slice Message) → s ≡ slice ms → slice_to (length (items prev.messages)) s ≢ nil_slice
    apart nil_slice e f = cc
    apart (slice xs) e f = cc
