-- ===== src/Agentreact/Loop/Progress.antt =====
-- agentreact/react_loop.go: what an execution leaves of the run's state.
use agentframe.Base.{
  ℕ, zero, suc, ◌≤◌, ◌≡◌, refl, ap, ◌∙◌, Bool, true, false, ◌⊎◌, inl, inr, Option, none, some,
  items, append, if◌then◌else◌, Bool-cases, Option-cases, [], ◌∷◌,
}
use agentframe.Base.Int.{ℤ, pos, ltbℤ, increment, max_int64, ◌≤ℤ◌, ≤ℤ_refl, ≤ℤ_trans}
use agentframe.Agent.Value.{ToolCall}
use agentframe.Agent.Requirement.{RunStatus, running, is_suspended, Resolution}
use agentframe.Agent.Message.{user, plain_message, tool_result_message}
use agentframe.Agent.Run.{RunState, EngineInput, no_command}
use agentframe.Agent.Event.{run_failed}
use agentframe.Agent.Errors.{GoError, join, sentinel, wrap, resolution_required, max_steps_exceeded}
use agentframe.Agent.Lifecycle.{transition_run_status}
use agentframe.Agent.Validation.{validate_run_state}
use agentframe.Agent.Context.{Context}
use agentframe.Agent.History.{Continues, Continues-trans}
use agentframe.Agent.Prog.{Prog, pure, on_error}
use agentframe.Agent.Runner.Effects.{plain_event}
use agentframe.Agentreact.Requirements.{
  ReplayPlan, no_replay, replay, broken, approved_tool_replay_call_from_input,
}
use agentframe.Agentreact.Turn.{
  ReactLoop, Flow, stop, go_on, emit, take_step, then_flow, identified, tool_event,
  context_cancellation_error,
}
use agentframe.Agentreact.Turn.Extends.{
  Extends, Extends-refl, Extends-trans, transition-Extends, noted, said, state_of, Leaves,
  stop-Leaves, go_on-Leaves, bind-Leaves, on_error-Leaves,
}
use agentframe.Agentreact.Turn.Grows.{
  fail_run-Leaves, cancel_run-Leaves, Turned, halted, stepped, take_step-Turned,
}
use agentframe.Agentreact.Loop.{
  budget, steps_left, resolution_text, run_steps, run_loop, exhaust, add_resolution, Replayed,
  replay_failed, observed, take_replayed, execute_approved_tool_replay, replay_planned, run_started,
  execute_with, execute, finished,
}
use agentframe.Agentreact.Loop.Steps.{step_up, within}

-- A state of the same run and version, whose transcript goes on and whose step counter went up, if
-- it did, to the budget at most.
pub record Progress (n : ℕ) (s t : RunState) : Type 0 where
  pub same_run : t.id ≡ s.id
  pub same_version : t.version ≡ s.version
  pub step_grows : s.step ≤ℤ t.step
  pub in_budget : (t.step ≡ s.step) ⊎ (t.step ≤ℤ pos n)
  pub transcript : Continues (items s.messages) (items t.messages)

of_extends : (n : ℕ) {s t : RunState} → Extends s t → Progress n s t
of_extends n {s} x = record {
  same_run = x.same_run;
  same_version = x.same_version;
  step_grows = ap (λ k. ltbℤ k s.step) x.same_step ∙ ≤ℤ_refl s.step;
  in_budget = inl x.same_step;
  transcript = x.transcript;
}

both_bounds :
    (n : ℕ) (a b c : ℤ) → (b ≡ a) ⊎ (b ≤ℤ pos n) → (c ≡ b) ⊎ (c ≤ℤ pos n) → (c ≡ a) ⊎ (c ≤ℤ pos n)
both_bounds n a b c h (inr k) = inr k
both_bounds n a b c (inl h) (inl k) = inl (k ∙ h)
both_bounds n a b c (inr h) (inl k) = inr (ap (λ z. ltbℤ (pos n) z) k ∙ h)

Progress-trans : (n : ℕ) {s t u : RunState} → Progress n s t → Progress n t u → Progress n s u
Progress-trans n {s} {t} {u} a b = record {
  same_run = b.same_run ∙ a.same_run;
  same_version = b.same_version ∙ a.same_version;
  step_grows = ≤ℤ_trans s.step t.step u.step a.step_grows b.step_grows;
  in_budget = both_bounds n s.step t.step u.step a.in_budget b.in_budget;
  transcript = Continues-trans a.transcript b.transcript;
}

counted :
    (n : ℕ) (s : RunState)
    → n ≤ max_int64
    → ltbℤ s.step (pos n) ≡ true
    → Progress n s (record s { step = increment s.step })
counted n s fits more = record {
  same_run = refl;
  same_version = refl;
  step_grows = step_up s.step n fits more;
  in_budget = inr (within s.step n fits more);
  transcript = (Extends-refl s).transcript;
}

of_turn :
    (n : ℕ) (s : RunState) (flow : Flow)
    → n ≤ max_int64
    → ltbℤ s.step (pos n) ≡ true
    → Turned s flow
    → Progress n s (state_of flow)
of_turn n s _ fits more (halted x) = of_extends n x
of_turn n s _ fits more (stepped x) = Progress-trans n (counted n s fits more) (of_extends n x)

module _ {W : Type 0} (l : ReactLoop W) (ctx : Context) where
  exhaust-Leaves : (s : RunState) (y : Option GoError) → Leaves s (exhaust l ctx s y)
  unfolding exhaust
  exhaust-Leaves s y =
      on_error-Leaves (transition_run_status s RunStatus.max_steps_exceeded).1
        (λ e. stop-Leaves (transition-Extends s RunStatus.max_steps_exceeded))
        (bind-Leaves
          (emit l ctx
            (plain_event (transition_run_status s RunStatus.max_steps_exceeded).0.id
              (transition_run_status s RunStatus.max_steps_exceeded).0.step run_failed no_command
              (l.host.sprintf "run failed: %v"
                (l.host.error_text (sentinel max_steps_exceeded) ∷ [])))
            y)
          λ e. stop-Leaves {e = join (some (sentinel max_steps_exceeded)) e} (
            noted (l.host.error_text (sentinel max_steps_exceeded))
              (transition-Extends s RunStatus.max_steps_exceeded)))

  take_replayed-Leaves :
      (call : ToolCall) (s : RunState) (x : Replayed) → Leaves s (take_replayed l ctx call s x)
  unfolding take_replayed
  take_replayed-Leaves call s (replay_failed e) =
      bind-Leaves (context_cancellation_error l ctx e) λ c.
        on_error-Leaves c (λ x. cancel_run-Leaves l ctx s x none) (fail_run-Leaves l ctx s e none)
  take_replayed-Leaves call s (observed result) =
      bind-Leaves (emit l ctx (tool_event l ctx seen (identified l ctx call result)) none)
        λ e. go_on-Leaves {e = e} (said s (tool_result_message (identified l ctx call result)))
    where
      seen : RunState
      seen = record s {
        messages = append s.messages (tool_result_message (identified l ctx call result));
      }

  replay_planned-Leaves : (s : RunState) (p : ReplayPlan) → Leaves s (replay_planned l ctx s p)
  unfolding replay_planned
  replay_planned-Leaves s no_replay = go_on-Leaves (Extends-refl s)
  replay_planned-Leaves s (broken e) = fail_run-Leaves l ctx s e none
  replay_planned-Leaves s (replay call) =
      bind-Leaves (execute_approved_tool_replay l ctx call) λ x. take_replayed-Leaves call s x

module _ {W : Type 0} (l : ReactLoop W) (ctx : Context) (input : EngineInput)
    (fits : budget input.max_steps ≤ max_int64) where
  abbrev n : ℕ
  n = budget input.max_steps

  after-Progress :
      (s : RunState) (flow : Flow) (k : RunState → Option GoError → Prog W Flow) (u : W)
      → Progress n s (state_of flow)
      → ((t : RunState) (e : Option GoError) → Progress n t (state_of (k t e u).0))
      → Progress n s (state_of (then_flow l ctx flow k u).0)
  after-Progress s (stop t e) k u x h = x
  after-Progress s (go_on t e) k u x h = Progress-trans n x (h t e)

  run_steps-Progress :
      (f : ℕ) (s : RunState) (y : Option GoError) (w : W)
      → Progress n s (state_of (run_steps l ctx f input s y w).0)
  unfolding run_steps
  run_steps-Progress zero s y w = of_extends n ((exhaust-Leaves l ctx s y).from w)
  run_steps-Progress (suc f) s y w = elim (Bool-cases (ltbℤ s.step (pos n))) [
    | inr e ↦ rw e (of_extends n ((exhaust-Leaves l ctx s y).from w))
    | inl e ↦ rw e (
        let turn = take_step l ctx input s y w in
        after-Progress s turn.0 (λ t x. run_steps l ctx f input t x) turn.1
          (of_turn n s turn.0 fits e (take_step-Turned l ctx input s y w))
          (λ t x. run_steps-Progress f t x turn.1))
  ]

  started-Progress :
      (s : RunState) (w : W) → Progress n s (state_of (run_started l ctx input s w).0)
  unfolding run_started run_loop
  started-Progress s w =
      let plan = approved_tool_replay_call_from_input (some ctx) s input in
      let replayed = replay_planned l ctx s plan w in
      after-Progress s replayed.0 (λ t x. run_loop l ctx input t x) replayed.1
        (of_extends n ((replay_planned-Leaves l ctx s plan).from w))
        (λ t x. run_steps-Progress (steps_left t.step n) t x replayed.1)

  resolved-Extends : (r : Option Resolution) (s : RunState) → Extends s (add_resolution l.host r s)
  unfolding add_resolution
  resolved-Extends none s = Extends-refl s
  resolved-Extends (some r) s = said s (plain_message user (resolution_text l.host r))

  -- what remains of Execute once the state is valid
  admitted-Progress :
      (s : RunState) (b : Bool) (e : Option GoError) (x : GoError) (w : W)
      → Progress n s (
          state_of
            ((if b
                then pure (stop s (some x))
                else on_error e
                    (λ z. pure (stop (transition_run_status s running).0 (some z)))
                    (run_started l ctx input
                      (add_resolution l.host input.resolution (transition_run_status s running).0)))
              w).0)
  admitted-Progress s true e x w = of_extends n (Extends-refl s)
  admitted-Progress s false (some z) x w = of_extends n (transition-Extends s running)
  admitted-Progress s false none x w =
      Progress-trans n
        (of_extends n
          (Extends-trans (transition-Extends s running) (resolved-Extends input.resolution _)))
        (started-Progress _ w)

  execute_with-Progress :
      (s : RunState) (w : W) → Progress n s (state_of (execute_with l ctx s input w).0)
  unfolding execute_with
  execute_with-Progress s w = elim (Option-cases (validate_run_state s)) [
    | inr (x, e) ↦ rw e (of_extends n (Extends-refl s))
    | inl e ↦ rw e (
        admitted-Progress s (is_suspended s.status) (transition_run_status s running).1
          (wrap (sentinel resolution_required) "reason=continue_requires_resolution") w)
  ]

-- An execution, however it ends, keeps the ID and the version, only continues the transcript, and
-- takes the step counter neither back nor beyond the budget (which is assumed to fit into 64
-- bits).
pub execute-Progress :
    {W : Type 0} (l : ReactLoop W) (ctx : Option Context) (s : RunState) (input : EngineInput)
    → budget input.max_steps ≤ max_int64
    → (w : W) → Progress (budget input.max_steps) s (execute l ctx s input w).0.0
unfolding execute
execute-Progress l none s input fits w = of_extends _ (Extends-refl s)
execute-Progress l (some ctx) s input fits w =
    ended (execute_with l ctx s input w).0 (execute_with-Progress l ctx input fits s w)
  where
    ended :
        (flow : Flow)
        → Progress (budget input.max_steps) s (state_of flow)
        → Progress (budget input.max_steps) s (finished l ctx flow).0
    ended (stop t e) x = x
    ended (go_on t e) x = x
