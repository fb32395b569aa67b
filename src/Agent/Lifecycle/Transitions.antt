-- ===== src/Agent/Lifecycle/Transitions.antt =====
-- agent/lifecycle.go: the status graph as a relation, and what TransitionRunStatus does of it.
use agentframe.Base.{
  ◌≡◌, refl, true, ◌⊎◌, inl, inr, ◌↔◌, ◌≢◌, Option, none, eq_iff, eq_refl, arith, Option-cases,
}
use agentframe.Agent.Requirement.{
  RunStatus, unset, pending, running, suspended, cancelled, failed, max_steps_exceeded, status_eq,
}
use agentframe.Agent.Run.{RunState}
use agentframe.Agent.Errors.{GoError}
use agentframe.Agent.Lifecycle.{
  validate_run_status_transition, validate_suspension_invariant, transition_run_status,
  is_terminal_run_status, ◌then_check◌,
}

infix 40 ◌⟶◌
-- The edges of the status graph.
pub data ◌⟶◌ : RunStatus → RunStatus → Type 0 where
  admit : unset ⟶ pending
  begin : pending ⟶ running
  withdraw : pending ⟶ cancelled
  suspend : running ⟶ suspended
  stop : running ⟶ cancelled
  finish : running ⟶ RunStatus.completed
  break_down : running ⟶ failed
  run_out : running ⟶ max_steps_exceeded
  resume : suspended ⟶ running
  abandon : suspended ⟶ cancelled
  extend : max_steps_exceeded ⟶ running
  give_up : max_steps_exceeded ⟶ cancelled

pub status_eq_refl : (s : RunStatus) → status_eq s s ≡ true
unfolding status_eq
status_eq_refl (RunStatus.other s) = eq_refl s
status_eq_refl unset = refl
status_eq_refl _ = refl

ruleset edges = (
  admit, begin, withdraw, suspend, stop, finish, break_down, run_out, resume, abandon, extend,
  give_up,
)

edge_of :
    (from to : RunStatus)
    → validate_run_status_transition from to ≡ none
    → (from ≡ to) ⊎ (from ⟶ to)
unfolding validate_run_status_transition
edge_of (RunStatus.other a) (RunStatus.other b) h = grind (arith, eq_iff a b)
edge_of unset b h = grind (arith, edges)
edge_of pending b h = grind (arith, edges)
edge_of running b h = grind (arith, edges)
edge_of suspended b h = grind (arith, edges)
edge_of _ b h = grind (arith, edges)

edge_admitted : {from to : RunStatus} → from ⟶ to → validate_run_status_transition from to ≡ none
unfolding validate_run_status_transition
edge_admitted admit = refl
edge_admitted _ = refl

stay_admitted : (s : RunStatus) → validate_run_status_transition s s ≡ none
unfolding validate_run_status_transition
stay_admitted s = rw status_eq_refl

-- The transition table admits exactly the edges of the status graph and staying at a status.
pub transition_exact :
    (from to : RunStatus)
    → (validate_run_status_transition from to ≡ none) ↔ ((from ≡ to) ⊎ (from ⟶ to))
transition_exact from to = (edge_of from to, admitted)
  where
    admitted : (from ≡ to) ⊎ (from ⟶ to) → validate_run_status_transition from to ≡ none
    admitted (inl e) = rw e (stay_admitted to)
    admitted (inr e) = edge_admitted e

-- No edge leaves a terminal status.
pub terminal-no-edge : {s t : RunStatus} → is_terminal_run_status s ≡ true → ¬ (s ⟶ t)
unfolding is_terminal_run_status
terminal-no-edge h admit = cc
terminal-no-edge h _ = cc

pub ok_case :
    (s : RunState) (to : RunStatus)
    → ((transition_run_status s to).1 ≡ none) ↔ (
        (validate_run_status_transition s.status to ≡ none)
        × (validate_suspension_invariant (record s { status = to }) ≡ none))
unfolding transition_run_status
ok_case s to = (λ h. ground arith, λ h. ground arith)

-- TransitionRunStatus succeeds exactly if the graph has the edge, or the status stays, and the
-- new state satisfies the suspension invariant.
pub transition_run_status_accepts :
    (s : RunState) (to : RunStatus)
    → ((transition_run_status s to).1 ≡ none) ↔ (
        ((s.status ≡ to) ⊎ (s.status ⟶ to))
        × (validate_suspension_invariant (record s { status = to }) ≡ none))
transition_run_status_accepts s to = (
  λ h. let p = (ok_case s to).0 h in ((transition_exact s.status to).0 p.0, p.1),
  λ h. (ok_case s to).1 ((transition_exact s.status to).1 h.0, h.1),
)

-- both tests of TransitionRunStatus
abbrev tested : RunState → RunStatus → Option GoError
tested s to =
    validate_run_status_transition s.status to
    then_check validate_suspension_invariant (record s { status = to })

-- TransitionRunStatus either succeeds and changes the status only, or fails and changes nothing.
pub transition_run_status_effect :
    (s : RunState) (to : RunStatus)
    → (((transition_run_status s to).1 ≡ none)
        × ((transition_run_status s to).0 ≡ record s { status = to }))
      ⊎ (((transition_run_status s to).1 ≢ none) × ((transition_run_status s to).0 ≡ s))
unfolding transition_run_status
transition_run_status_effect s to = elim (Option-cases (tested s to)) [
  | inl e ↦ rw (e, transition_run_status) (inl (refl, refl))
  | inr (x, e) ↦ rw (e, transition_run_status) (inr (λ p. cc, refl))
]

-- A state that differs from another in its status, output, error and requirement at most.
pub record Moved (s t : RunState) : Type 0 where
  pub id : t.id ≡ s.id
  pub version : t.version ≡ s.version
  pub step : t.step ≡ s.step
  pub messages : t.messages ≡ s.messages

pub transition_run_status-Moved :
    (s : RunState) (to : RunStatus) → Moved s (transition_run_status s to).0
unfolding transition_run_status
transition_run_status-Moved s to = ground arith
