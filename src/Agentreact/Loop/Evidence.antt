-- ===== src/Agentreact/Loop/Evidence.antt =====
-- agentreact/react_loop.go: an execution, and the evidence in its messages.
use agentframe.Base.{
  ℕ, zero, suc, refl, Option, none, some, List, [], ◌∷◌, inl, inr, Bool-cases, Option-cases, append,
}
use agentframe.Base.Int.{pos, ltbℤ}
use agentframe.Agent.Value.{ToolCall}
use agentframe.Agent.Requirement.{RunStatus, running, Resolution}
use agentframe.Agent.Message.{Message, user, plain_message, tool_result_message}
use agentframe.Agent.Run.{RunState, EngineInput, no_command}
use agentframe.Agent.Event.{run_failed}
use agentframe.Agent.Errors.{GoError, sentinel, join, max_steps_exceeded}
use agentframe.Agent.Lifecycle.{transition_run_status}
use agentframe.Agent.Validation.{validate_run_state}
use agentframe.Agent.Context.{Context}
use agentframe.Agent.Prog.{Prog, pure, on_error}
use agentframe.Agent.Runner.Effects.{plain_event}
use agentframe.Agentreact.Requirements.{
  ReplayPlan, no_replay, replay, broken, approved_tool_replay_call_from_input,
}
use agentframe.Agentreact.Turn.{
  ReactLoop, Flow, stop, go_on, emit, context_cancellation_error, identified, tool_event, then_flow,
  take_step,
}
use agentframe.Agentreact.Turn.Evidence.{
  Running, Flows, stopped, going, Emits, resting, stop-Emits, go_on-Emits, bind-Emits,
  on_error-Emits, said_running, transition-Running, noted-Running,
}
use agentframe.Agentreact.Turn.Evidence.Suspends.{fail_run-Emits, cancel_run-Emits}
use agentframe.Agentreact.Turn.Evidence.Turns.{Assists, take_step-Flows}
use agentframe.Agentreact.Loop.{
  budget, add_resolution, resolution_text, Replayed, observed, replay_failed, take_replayed,
  replay_planned, execute_approved_tool_replay, exhaust, run_steps, run_loop, run_started,
  steps_left, execute_with,
}

module _ (base : List Message) {W : Type 0} (l : ReactLoop W) (ctx : Context) where
  exhaust-Emits :
      (s : RunState) (y : Option GoError) → Running base [] s → Emits base [] (exhaust l ctx s y)
  unfolding exhaust
  exhaust-Emits s y k =
      let status = RunStatus.max_steps_exceeded in
      let moved = transition-Running base [] s status refl k in
      let over = sentinel max_steps_exceeded in
      on_error-Emits base [] (transition_run_status s status).1
        (λ e. stop-Emits base [] (resting base [] moved))
        (bind-Emits base []
          (emit l ctx
            (plain_event (transition_run_status s status).0.id
              (transition_run_status s status).0.step run_failed no_command
              (l.host.sprintf "run failed: %v" (l.host.error_text over ∷ [])))
            y)
          λ e. stop-Emits base [] {e = join (some over) e} (
            resting base [] (
              noted-Running base [] (transition_run_status s status).0 (l.host.error_text over)
                moved)))

  take_replayed-Emits :
      (call : ToolCall) (s : RunState) (x : Replayed)
      → Running base [] s
      → Emits base [] (take_replayed l ctx call s x)
  unfolding take_replayed
  take_replayed-Emits call s (replay_failed e) k =
      bind-Emits base [] (context_cancellation_error l ctx e) λ c.
        on_error-Emits base [] c (λ x. cancel_run-Emits base [] l ctx s x none k)
          (fail_run-Emits base [] l ctx s e none k)
  take_replayed-Emits call s (observed result) k =
      let m = tool_result_message (identified l ctx call result) in
      bind-Emits base []
        (emit l ctx
          (tool_event l ctx (record s { messages = append s.messages m })
            (identified l ctx call result))
          none)
        λ e. go_on-Emits base [] {e = e} (said_running base [] s m k)

  replay_planned-Emits :
      (s : RunState) (p : ReplayPlan) → Running base [] s → Emits base [] (replay_planned l ctx s p)
  unfolding replay_planned
  replay_planned-Emits s no_replay k = go_on-Emits base [] k
  replay_planned-Emits s (broken e) k = fail_run-Emits base [] l ctx s e none k
  replay_planned-Emits s (replay call) k =
      bind-Emits base [] (execute_approved_tool_replay l ctx call)
        λ x. take_replayed-Emits call s x k

  module _ (h : Assists l ctx) (input : EngineInput) where
    after-Flows :
        (f : Flow) (k : RunState → Option GoError → Prog W Flow) (u : W)
        → Flows base [] f
        → ((t : RunState) (e : Option GoError) → Running base [] t → Flows base [] (k t e u).0)
        → Flows base [] (then_flow l ctx f k u).0
    after-Flows (stop t e) k u (stopped x) f = stopped x
    after-Flows (go_on t e) k u (going r) f = f t e r

    run_steps-Flows :
        (n : ℕ) (s : RunState) (y : Option GoError) (w : W)
        → Running base [] s
        → Flows base [] (run_steps l ctx n input s y w).0
    unfolding run_steps
    run_steps-Flows zero s y w k = (exhaust-Emits s y k).from w
    run_steps-Flows (suc n) s y w k =
        elim (Bool-cases (ltbℤ s.step (pos (budget input.max_steps)))) [
          | inr over ↦ rw over ((exhaust-Emits s y k).from w)
          | inl more ↦ rw more (
              let turn = take_step l ctx input s y w in
              after-Flows turn.0 (λ t x. run_steps l ctx n input t x) turn.1
                (take_step-Flows base l ctx h input s y w k)
                (λ t x r. run_steps-Flows n t x turn.1 r))
        ]

    started-Flows :
        (s : RunState) (w : W) → Running base [] s → Flows base [] (run_started l ctx input s w).0
    unfolding run_started run_loop
    started-Flows s w k =
        let plan = approved_tool_replay_call_from_input (some ctx) s input in
        let replayed = replay_planned l ctx s plan w in
        after-Flows replayed.0 (λ t x. run_loop l ctx input t x) replayed.1
          ((replay_planned-Emits s plan k).from w)
          (λ t x r. run_steps-Flows (steps_left t.step (budget input.max_steps)) t x replayed.1 r)

    resolved-Running :
        (r : Option Resolution) (s : RunState)
        → Running base [] s
        → Running base [] (add_resolution l.host r s)
    unfolding add_resolution
    resolved-Running none s k = k
    resolved-Running (some r) s k =
        said_running base [] s (plain_message user (resolution_text l.host r)) k

    pub execute_with-Flows :
        (s : RunState) (w : W) → Running base [] s → Flows base [] (execute_with l ctx s input w).0
    unfolding execute_with
    execute_with-Flows s w k = elim (Option-cases (validate_run_state s)) [
      | inr (x, e) ↦ rw e (stopped (resting base [] k))
      | inl e ↦
          rw (e, k.awake)
            (admitted (transition_run_status s running).1
              (transition-Running base [] s running refl k))
    ]
      where
        admitted :
            (v : Option GoError)
            → Running base [] (transition_run_status s running).0
            → Flows base []
                (on_error v
                  (λ e. pure (stop (transition_run_status s running).0 (some e)))
                  (run_started l ctx input
                    (add_resolution l.host input.resolution (transition_run_status s running).0))
                  w).0
        admitted (some x) r = stopped (resting base [] r)
        admitted none r = started-Flows _ w (resolved-Running input.resolution _ r)
