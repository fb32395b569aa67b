-- ===== src/Agent/Runner/Handlers/Always.antt =====
-- agent/runner.go: the changes of status that the handlers make never fail on a valid run.
use agentframe.Base.{◌≡◌, refl, true, false, Option, none, some, arith}
use agentframe.Agent.Requirement.{
  RunStatus, unset, pending, running, suspended, cancelled, max_steps_exceeded, is_suspended,
  PendingRequirement,
}
use agentframe.Agent.Run.{RunState}
use agentframe.Agent.Lifecycle.{
  is_terminal_run_status, transition_run_status, validate_run_status_transition,
  validate_suspension_invariant,
}
use agentframe.Agent.Validation.{validate_run_state, is_known_run_status}
use agentframe.Agent.Runner.Handlers.{cancel_run, resume_run}

-- The run as it is when it is cancelled.
abbrev pub cancelled_from : RunState → RunState
cancelled_from s = record s { status = cancelled; pending_requirement = none }

cancelled_at :
    (s : RunState) (st : RunStatus) (q : Option PendingRequirement)
    → validate_run_state (record s { status = st; pending_requirement = q }) ≡ none
    → is_terminal_run_status st ≡ false
    → cancel_run (record s { status = st; pending_requirement = q }) ≡ (cancelled_from s, none)
unfolding cancel_run transition_run_status validate_run_status_transition
    validate_suspension_invariant validate_run_state is_terminal_run_status is_known_run_status
cancelled_at s suspended q v alive = refl
cancelled_at s pending none v alive = refl
cancelled_at s running none v alive = refl
cancelled_at s max_steps_exceeded none v alive = refl
cancelled_at s pending (some q) v alive = absurd (ground (arith, v))
cancelled_at s running (some q) v alive = absurd (ground (arith, v))
cancelled_at s max_steps_exceeded (some q) v alive = absurd (ground (arith, v))
cancelled_at s unset q v alive = absurd (ground (arith, v))
cancelled_at s (RunStatus.other x) q v alive = absurd (ground (arith, v))
cancelled_at s _ q v alive = cc

-- Cancelling a valid run whose status is not terminal never fails: the status becomes cancelled,
-- the pending requirement goes, and nothing else changes.
pub cancel_run_always :
    (s : RunState)
    → validate_run_state s ≡ none
    → is_terminal_run_status s.status ≡ false
    → cancel_run s ≡ (cancelled_from s, none)
cancel_run_always s v alive = cancelled_at s s.status s.pending_requirement v alive

resumed_at :
    (s : RunState) (st : RunStatus)
    → is_suspended st ≡ true
    → resume_run (record s { status = st })
      ≡ (record s { status = running; pending_requirement = none }, none)
unfolding resume_run transition_run_status validate_run_status_transition
    validate_suspension_invariant
resumed_at s suspended h = refl
resumed_at s _ h = cc

-- Resuming a suspended run never fails: the status becomes running, the pending requirement goes,
-- and nothing else changes.
pub resume_run_always :
    (s : RunState)
    → is_suspended s.status ≡ true
    → resume_run s ≡ (record s { status = running; pending_requirement = none }, none)
resume_run_always s h = resumed_at s s.status h
