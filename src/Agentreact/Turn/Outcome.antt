-- ===== src/Agentreact/Turn/Outcome.antt =====
-- agentreact/react_loop.go: what a turn does before its model call, without an answer, and with one.
use agentframe.Base.{◌≡◌, refl, Option, none, some, inl, inr, Option-cases, items, append}
use agentframe.Base.Int.{increment}
use agentframe.Agent.Message.{Message, clone_message, clone_messages, clone_tool_definitions}
use agentframe.Agent.Run.{RunState, EngineInput}
use agentframe.Agent.Errors.{GoError}
use agentframe.Agent.Interfaces.{ctx_err}
use agentframe.Agent.Context.{Context}
use agentframe.Agent.Prog.{on_error, ◌>>=◌}
use agentframe.Agentreact.Turn.{
  ReactLoop, Flow, ModelRequest, cancel_run, fail_run, context_cancellation_error, normalized,
  take_step,
}
use agentframe.Agentreact.Turn.Extends.{Extends, Leaves, state_of, bind-Leaves, on_error-Leaves}
use agentframe.Agentreact.Turn.Grows.{fail_run-Leaves, cancel_run-Leaves, heard-Leaves}

-- state.Step++
abbrev pub counted : RunState → RunState
counted s = record s { step = increment s.step }

module _ {W : Type 0} (l : ReactLoop W) (ctx : Context) (input : EngineInput) where
  -- what the model is asked in a turn of `s`
  abbrev pub request : RunState → ModelRequest
  request s = record {
    messages = clone_messages (items s.messages);
    tools = clone_tool_definitions input.tools;
    resolution = input.resolution;
  }

  -- the model's answer and error in a turn of `s`, and the world after it
  abbrev pub generated : RunState → W → (Message × Option GoError) × W
  generated s w = l.model.generate (some ctx) (request s) (ctx_err l.host ctx w).1

  -- the state with the model's answer at the end of its transcript
  abbrev pub heard : RunState → Message → RunState
  heard s m = record s { messages = append s.messages (clone_message (normalized l ctx m)) }

  -- What a turn of `s` comes to: `r` is its end and the world after it.
  pub data TurnOutcome (s : RunState) (y : Option GoError) (w : W) (r : Flow × W) : Type 0 where
    cancelled_first :
        (z : GoError)
        → (ctx_err l.host ctx w).0 ≡ some z
        → r ≡ cancel_run l ctx s z y (ctx_err l.host ctx w).1
        → Extends s (state_of r.0)
        → TurnOutcome s y w r
    unanswered :
        (e : GoError)
        → (ctx_err l.host ctx w).0 ≡ none
        → (generated s w).0.1 ≡ some e
        → r
          ≡ (context_cancellation_error l ctx e >>= λ x.
                on_error x (λ z. cancel_run l ctx (counted s) z y) (fail_run l ctx (counted s) e y))
              (generated s w).1
        → Extends (counted s) (state_of r.0)
        → TurnOutcome s y w r
    heard_answer :
        (ctx_err l.host ctx w).0 ≡ none
        → (generated s w).0.1 ≡ none
        → Extends (heard (counted s) (generated s w).0.0) (state_of r.0)
        → TurnOutcome s y w r

  failed-Leaves :
      (t : RunState) (e : GoError) (y : Option GoError)
      → Leaves t (
          context_cancellation_error l ctx e >>= λ x.
          on_error x (λ z. cancel_run l ctx t z y) (fail_run l ctx t e y))
  failed-Leaves t e y =
      bind-Leaves (context_cancellation_error l ctx e)
        λ x. on_error-Leaves x (λ z. cancel_run-Leaves l ctx t z y) (fail_run-Leaves l ctx t e y)

  -- A turn of a cancelled context is the cancellation of the run, from the world that the test
  -- of the context leaves, so with no model call, and the step counter stays as it was. Every
  -- other turn counts exactly one step: if the model fails, the turn is the cancellation or the
  -- failure of the counted run; if it answers, the transcript continues the old one followed by
  -- the answer. In all cases ID and version are kept and the transcript is continued.
  pub take_step-TurnOutcome :
      (s : RunState) (y : Option GoError) (w : W) → TurnOutcome s y w (take_step l ctx input s y w)
  unfolding take_step
  take_step-TurnOutcome s y w = elim (Option-cases (ctx_err l.host ctx w).0) [
    | inr (z, e) ↦
        rw e
          (cancelled_first z e refl ((cancel_run-Leaves l ctx s z y).from (ctx_err l.host ctx w).1))
    | inl live ↦ elim (Option-cases (generated s w).0.1) [
      | inr (e, bad) ↦
          rw (live, bad)
            (unanswered e live bad refl ((failed-Leaves (counted s) e y).from (generated s w).1))
      | inl fine ↦
          rw (live, fine)
            (heard_answer live fine (
              (heard-Leaves l ctx input (normalized l ctx (generated s w).0.0) (counted s) y).from
                (generated s w).1))
    ]
  ]
