-- ===== src/Agentreact/Turn/Grows.antt =====
-- agentreact/react_loop.go: every part of a turn goes on with the run that it was given.
use agentframe.Base.{
  String, not, Option, none, some, List, [], ◌∷◌, inl, inr, Option-cases, is_empty, append,
}
use agentframe.Base.Int.{increment}
use agentframe.Agent.Value.{ToolCall, ToolDefinition}
use agentframe.Agent.Requirement.{PendingRequirement, RunStatus}
use agentframe.Agent.Message.{Message, clone_message, tool_result_message}
use agentframe.Agent.Run.{RunState, EngineInput, no_command}
use agentframe.Agent.Errors.{GoError, join}
use agentframe.Agent.Event.{EventType, run_completed, run_cancelled}
use agentframe.Agent.Runner.Effects.{plain_event}
use agentframe.Agentreact.ToolValidation.{find_definition}
use agentframe.Agent.Lifecycle.{transition_run_status}
use agentframe.Agent.Lifecycle.Transitions.{transition_run_status-Moved}
use agentframe.Agent.Interfaces.{ctx_err}
use agentframe.Agent.Context.{Context}
use agentframe.Agent.Prog.{on_error, ◌>>=◌}
use agentframe.Agentreact.Requirements.{validate_model_requirement, validate_tool_call_shape}
use agentframe.Agentreact.Turn.{
  ReactLoop, Flow, stop, Verdict, plain, refused, suspends, Executed, interrupted, executed,
  end_run, fail_run, cancel_run, suspend_run, conclude, observe, handle_call, handle_calls,
  suspend_for_model, complete_run, normalized, context_cancellation_error, check_and_execute,
  tool_event, identified, message_event, act_on, hear, take_step, emit,
}
use agentframe.Agentreact.Turn.Extends.{
  Extends, Extends-refl, Extends-trans, transition-Extends, relabelled, asked, dropped, noted,
  answered, said, Leaves, state_of, stop-Leaves, go_on-Leaves, bind-Leaves, later-Leaves,
  on_error-Leaves, if-Leaves, then_flow-Leaves,
}

module _ {W : Type 0} (l : ReactLoop W) (ctx : Context) where
  end_run-Leaves :
      (status : RunStatus) (type : EventType) (text : String) (s : RunState) (x : GoError)
      (y : Option GoError)
      → Leaves s (end_run l ctx status type text s x y)
  unfolding end_run
  end_run-Leaves status type text s x y =
      on_error-Leaves (transition_run_status s status).1
        (λ e. stop-Leaves (transition-Extends s status))
        (bind-Leaves
          (emit l ctx
            (plain_event (transition_run_status s status).0.id
              (transition_run_status s status).0.step type no_command text)
            y)
          λ e.
            stop-Leaves {e = join (some x) e}
              (noted (l.host.error_text x) (transition-Extends s status)))

  pub fail_run-Leaves :
      (s : RunState) (x : GoError) (y : Option GoError) → Leaves s (fail_run l ctx s x y)
  unfolding fail_run
  fail_run-Leaves s x y = end_run-Leaves _ _ _ s x y

  pub cancel_run-Leaves :
      (s : RunState) (x : GoError) (y : Option GoError) → Leaves s (cancel_run l ctx s x y)
  unfolding cancel_run
  cancel_run-Leaves s x y = end_run-Leaves _ _ _ s x y

  suspend_run-Leaves :
      (s : RunState) (q : PendingRequirement) (y : Option GoError)
      → Leaves s (suspend_run l ctx s q y)
  unfolding suspend_run
  suspend_run-Leaves s q y =
      on_error-Leaves
        (transition_run_status (record s { pending_requirement = some q }) RunStatus.suspended).1
        (λ x. later-Leaves (Extends-trans moved (dropped _)) (fail_run-Leaves _ x y))
        (stop-Leaves moved)
    where
      moved :
          Extends s
            (transition_run_status
              (record s { pending_requirement = some q })
              RunStatus.suspended).0
      moved = relabelled (asked s q) (transition_run_status-Moved _ RunStatus.suspended)

  conclude-Leaves :
      (v : Verdict) (s : RunState) (y : Option GoError) → Leaves s (conclude l ctx v s y)
  unfolding conclude
  conclude-Leaves plain s y = go_on-Leaves (Extends-refl s)
  conclude-Leaves (refused e) s y = fail_run-Leaves s e y
  conclude-Leaves (suspends q) s y = suspend_run-Leaves s q y

  observe-Leaves :
      (call : ToolCall) (s : RunState) (y : Option GoError) (x : Executed)
      → Leaves s (observe l ctx call s y x)
  unfolding observe
  observe-Leaves call s y (interrupted e) = cancel_run-Leaves s e y
  observe-Leaves call s y (executed result verdict) =
      bind-Leaves
        (emit l ctx
          (tool_event l ctx
            (record s {
              messages = append s.messages (tool_result_message (identified l ctx call result));
            })
            (identified l ctx call result))
          y)
        λ e.
          later-Leaves (said s (tool_result_message (identified l ctx call result)))
            (conclude-Leaves verdict _ e)

  handle_call-Leaves :
      (ds : List ToolDefinition) (call : ToolCall) (s : RunState) (y : Option GoError)
      → Leaves s (handle_call l ctx ds call s y)
  unfolding handle_call
  handle_call-Leaves ds call s y = bind-Leaves (ctx_err l.host ctx) λ c.
      on_error-Leaves c (λ e. cancel_run-Leaves s e y)
        (bind-Leaves (check_and_execute l ctx s call (find_definition call.name ds))
          λ x. observe-Leaves call s y x)

  handle_calls-Leaves :
      (ds : List ToolDefinition) (calls : List ToolCall) (s : RunState) (y : Option GoError)
      → Leaves s (handle_calls l ctx ds calls s y)
  unfolding handle_calls
  handle_calls-Leaves ds [] s y = go_on-Leaves (Extends-refl s)
  handle_calls-Leaves ds (call ∷ calls) s y =
      then_flow-Leaves l ctx {m = handle_call l ctx ds call s y}
        {k = λ t e. handle_calls l ctx ds calls t e} (handle_call-Leaves ds call s y)
        (λ t e. handle_calls-Leaves ds calls t e)

  suspend_for_model-Leaves :
      (m : Message) (q : PendingRequirement) (s : RunState) (y : Option GoError)
      → Leaves s (suspend_for_model l ctx m q s y)
  unfolding suspend_for_model
  suspend_for_model-Leaves m q s y =
      if-Leaves (not (is_empty m.tool_calls)) (fail_run-Leaves s _ y) (
        on_error-Leaves (validate_model_requirement s q) (λ e. fail_run-Leaves s e y)
          (suspend_run-Leaves s q y))

  complete_run-Leaves :
      (m : Message) (s : RunState) (y : Option GoError) → Leaves s (complete_run l ctx m s y)
  unfolding complete_run
  complete_run-Leaves m s y =
      on_error-Leaves (transition_run_status s RunStatus.completed).1
        (λ e. stop-Leaves (transition-Extends s RunStatus.completed))
        (bind-Leaves
          (emit l ctx
            (plain_event (transition_run_status s RunStatus.completed).0.id
              (transition_run_status s RunStatus.completed).0.step run_completed no_command
              "assistant returned a final answer")
            y)
          λ e. stop-Leaves {e = e} (answered m.content (transition-Extends s RunStatus.completed)))

  act_on-Leaves :
      (ds : List ToolDefinition) (q : Option PendingRequirement) (m : Message) (s : RunState)
      (y : Option GoError)
      → Leaves s (act_on l ctx ds q m s y)
  unfolding act_on
  act_on-Leaves ds (some q) m s y = suspend_for_model-Leaves m q s y
  act_on-Leaves ds none m s y = if-Leaves (is_empty m.tool_calls) (complete_run-Leaves m s y) (
      on_error-Leaves (validate_tool_call_shape m.tool_calls) (λ e. fail_run-Leaves s e y)
        (handle_calls-Leaves ds m.tool_calls s y))

  -- What follows an answer extends the transcript that has the answer.
  pub heard-Leaves :
      (input : EngineInput) (m : Message) (s : RunState) (y : Option GoError)
      → Leaves
          (record s { messages = append s.messages (clone_message m) })
          (hear l ctx input m s y)
  unfolding hear
  heard-Leaves input m s y =
      bind-Leaves
        (emit l ctx
          (message_event l ctx (record s { messages = append s.messages (clone_message m) }) m) y)
        λ e. act_on-Leaves input.tools m.requirement m _ e

  hear-Leaves :
      (input : EngineInput) (m : Message) (s : RunState) (y : Option GoError)
      → Leaves s (hear l ctx input m s y)
  hear-Leaves input m s y = later-Leaves (said s (clone_message m)) (heard-Leaves input m s y)

  -- the step counter goes up, and then nothing but the transcript
  generated-Leaves :
      (input : EngineInput) (t : RunState) (y : Option GoError) (answer : Message)
      (err : Option GoError)
      → Leaves t (
          on_error err
            (λ e. context_cancellation_error l ctx e >>= λ x.
              on_error x (λ z. cancel_run l ctx t z y) (fail_run l ctx t e y))
            (hear l ctx input (normalized l ctx answer) t y))
  generated-Leaves input t y answer err =
      on_error-Leaves err
        (λ e.
          bind-Leaves (context_cancellation_error l ctx e)
            λ x. on_error-Leaves x (λ z. cancel_run-Leaves t z y) (fail_run-Leaves t e y))
        (hear-Leaves input (normalized l ctx answer) t y)

-- What a turn makes of a run: it is cancelled before it begins, or its step counter goes up by one
-- and the turn's own part extends that.
pub data Turned (s : RunState) : Flow → Type 0 where
  halted : {t : RunState} {e : Option GoError} → Extends s t → Turned s (stop t e)
  stepped :
      {flow : Flow} → Extends (record s { step = increment s.step }) (state_of flow) → Turned s flow

module _ {W : Type 0} (l : ReactLoop W) (ctx : Context) where
  halted_by :
      (status : RunStatus) (type : EventType) (text : String) (s : RunState) (x : GoError)
      (y : Option GoError) (w : W)
      → Turned s (end_run l ctx status type text s x y w).0
  unfolding end_run
  halted_by status type text s x y w = elim (Option-cases (transition_run_status s status).1) [
    | inl e ↦
        rw e
          (halted {e = join (some x) _} (noted (l.host.error_text x) (transition-Extends s status)))
    | inr (z, e) ↦ rw e (halted (transition-Extends s status))
  ]

  -- A turn either stops, or counts exactly one step; in both cases ID and version are kept and the
  -- transcript is continued.
  pub take_step-Turned :
      (input : EngineInput) (s : RunState) (y : Option GoError) (w : W)
      → Turned s (take_step l ctx input s y w).0
  unfolding take_step cancel_run
  take_step-Turned input s y w = elim (Option-cases (ctx_err l.host ctx w).0) [
    | inr (z, e) ↦ rw e (halted_by RunStatus.cancelled run_cancelled (l.host.error_text z) s z y _)
    | inl e ↦ rw e (stepped ((generated-Leaves l ctx input t y _ _).from _))
  ]
    where
      t : RunState
      t = record s { step = increment s.step }
