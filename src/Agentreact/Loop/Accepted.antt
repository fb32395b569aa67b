-- ===== src/Agentreact/Loop/Accepted.antt =====
-- The runner accepts what the loop of agentreact gives it.
use agentframe.Base.{
  ◌==◌, ◌≤◌, ◌≡◌, refl, sym, ap, ◌∙◌, subst, true, false, none, some, List, [], ◌++◌, append-nil,
  inl, inr, Bool-cases, slice, slice_to, items, take, length, drop-append, take-append,
  length-append, arith, eq_refl, ltb,
}
use agentframe.Base.Distinct.{member}
use agentframe.Base.Int.{max_int64, ltbℤ, ◌≤ℤ◌}
use agentframe.Agent.Requirement.{is_suspended}
use agentframe.Agent.Message.{Message}
use agentframe.Agent.Run.{RunState, EngineInput}
use agentframe.Agent.Context.{Context}
use agentframe.Agent.Runner.Checks.{
  validate_engine_output, validate_suspended_requirement_provenance, same_messages,
}
use agentframe.Agent.Runner.Checks.Output.{same_messages_refl}
use agentframe.Agentreact.Turn.{ReactLoop, Flow, stop, go_on}
use agentframe.Agentreact.Turn.Extends.{state_of}
use agentframe.Agentreact.Turn.Evidence.{
  Running, Ended, at_rest, asleep, Flows, stopped, going, resting,
}
use agentframe.Agentreact.Turn.Evidence.Turns.{Assists}
use agentframe.Agentreact.Loop.{budget, finished, execute_with, execute}
use agentframe.Agentreact.Loop.Progress.{Progress, execute-Progress}
use agentframe.Agentreact.Loop.Evidence.{execute_with-Flows}

final : (base : List Message) (f : Flow) → Flows base [] f → Ended base [] (state_of f)
final base _ (stopped x) = x
final base _ (going r) = resting base [] r

ended-proven :
    (s t : RunState) (xs : List Message)
    → s.messages ≡ slice xs
    → Ended xs [] t
    → validate_suspended_requirement_provenance s t ≡ none
unfolding validate_suspended_requirement_provenance
ended-proven s t xs from (at_rest added held awake) = rw awake refl
ended-proven s t xs from (asleep added q held asked proven) =
    elim (Bool-cases (is_suspended t.status)) [
      | inr awake ↦ rw awake refl
      | inl asleep_now ↦ rw (asleep_now, asked, from, held, drop-append xs added) proven
    ]

messages_of :
    (t : RunState) (xs : List Message)
    → Ended xs [] t
    → (ys : List Message) × (t.messages ≡ slice (xs ++ ys))
messages_of t xs (at_rest added held awake) = (added, held)
messages_of t xs (asleep added q held asked proven) = (added, held)

within : (xs ys : List Message) → ltb (length (xs ++ ys)) (length xs) ≡ false
within xs ys = ground (arith, length-append xs ys)

all_pass :
    (s t : RunState)
    → (t.id == s.id) ≡ true
    → ltbℤ t.step s.step ≡ false
    → ltb (length (items t.messages)) (length (items s.messages)) ≡ false
    → same_messages (slice_to (length (items s.messages)) t.messages) s.messages ≡ true
    → validate_suspended_requirement_provenance s t ≡ none
    → validate_engine_output s t ≡ none
unfolding validate_engine_output
all_pass s t same grows longer prefix proven = rw (same, grows, longer, prefix) proven

accepts :
    (s t : RunState) (xs ys : List Message)
    → t.id ≡ s.id
    → s.step ≤ℤ t.step
    → s.messages ≡ slice xs
    → t.messages ≡ slice (xs ++ ys)
    → validate_suspended_requirement_provenance s t ≡ none
    → validate_engine_output s t ≡ none
accepts s t xs ys same grows from held proven =
    let prefix : same_messages (slice (take (length xs) (xs ++ ys))) (slice xs) ≡ true =
      rw (take-append xs ys) (same_messages_refl (slice xs)) in
    all_pass s t (rw same (eq_refl s.id)) grows (rw (held, from) (within xs ys))
      (rw (held, from) prefix) proven

state-finished :
    {W : Type 0} (l : ReactLoop W) (ctx : Context) (f : Flow) → (finished l ctx f).0 ≡ state_of f
unfolding finished
state-finished l ctx (stop t e) = refl
state-finished l ctx (go_on t e) = refl

-- If the answers of the model have no role or the assistant's, and the step budget fits into 64
-- bits: the runner's check of an engine output accepts what the loop gives for a run that is not
-- suspended and whose list of messages is not nil, however the execution ends, a suspension with
-- the evidence of its origin included.
pub execute-accepted :
    {W : Type 0} (l : ReactLoop W) (ctx : Context) (s : RunState) (input : EngineInput)
    (xs : List Message) (w : W)
    → Assists l ctx
    → budget input.max_steps ≤ max_int64
    → s.messages ≡ slice xs
    → is_suspended s.status ≡ false
    → validate_engine_output s (execute l (some ctx) s input w).0.0 ≡ none
unfolding execute member
execute-accepted l ctx s input xs w h fits from awake =
    let f = (execute_with l ctx s input w).0 in
    let t = state_of f in
    let k : Running xs [] s = record {
      added = [];
      held = from ∙ ap slice (sym (append-nil xs));
      awake = awake;
      requested = λ id no. cc;
    } in
    let ended = final xs f (execute_with-Flows xs l ctx h input s w k) in
    let p : Progress (budget input.max_steps) s t =
      subst (Progress (budget input.max_steps) s) (state-finished l ctx f)
        (execute-Progress l (some ctx) s input fits w) in
    let more = messages_of t xs ended in
    ap (validate_engine_output s) (state-finished l ctx f)
    ∙ accepts s t xs more.0 p.same_run p.step_grows from more.1 (ended-proven s t xs from ended)
