-- ===== src/Agentreact/Turn/Evidence/Turns.antt =====
-- agentreact/react_loop.go: a whole turn, and the evidence in its messages.
use agentframe.Base.{
  String, ◌≡◌, refl, sym, ap, ◌∙◌, subst, true, false, not, Option, none, some, List, [], ◌∷◌, ◌++◌,
  ◌⊎◌, inl, inr, Bool-cases, Option-cases, slice, items, append, append_assoc, arith, is_empty,
  is_empty-append, eq_refl,
}
use agentframe.Base.Int.{increment}
use agentframe.Base.Distinct.{member}
use agentframe.Agent.Value.{ToolDefinition}
use agentframe.Agent.Requirement.{
  PendingRequirement, RunStatus, RequirementOrigin, model, tool, is_model_origin, kind_eq,
  origin_eq, is_suspended,
}
use agentframe.Agent.Message.{
  Message, unset, assistant, is_assistant, clone_message, clone_message-id, clone_messages,
  clone_tool_definitions,
}
use agentframe.Agent.Run.{RunState, EngineInput, no_command}
use agentframe.Agent.Event.{run_completed}
use agentframe.Agent.Errors.{GoError}
use agentframe.Agent.Lifecycle.Resolutions.{kind_eq_refl}
use agentframe.Agent.Lifecycle.{transition_run_status}
use agentframe.Agent.Interfaces.{ctx_err}
use agentframe.Agent.Context.{Context}
use agentframe.Agent.Prog.{on_error, ◌>>=◌}
use agentframe.Agent.Runner.Checks.{
  check_provenance, check_origin, requests_call, requirement_matches,
  has_matching_assistant_requirement,
}
use agentframe.Agent.Runner.Effects.{plain_event}
use agentframe.Agentreact.Requirements.{validate_model_requirement, validate_tool_call_shape}
use agentframe.Agentreact.Requirements.Calls.{ids, validate_tool_call_shape_exact}
use agentframe.Agentreact.Turn.{
  ReactLoop, Flow, fail_run, cancel_run, emit, handle_calls, suspend_for_model, complete_run,
  act_on, hear, message_event, normalized, with_role, take_step, ModelRequest,
  context_cancellation_error,
}
use agentframe.Agentreact.Turn.Evidence.{
  Running, at_rest, asleep, Flows, stopped, going, Emits, resting, stop-Emits, bind-Emits,
  on_error-Emits, if-Emits, transition-Running, answered-Running,
}
use agentframe.Agentreact.Turn.Evidence.Suspends.{
  fail_run-Emits, cancel_run-Emits, suspend_run-Emits,
}
use agentframe.Agentreact.Turn.Evidence.Calls.{
  handle_calls-Emits, has_call-member, due, requests_call-after,
}

-- A transcript that asks for more calls may forget that it does.
forget :
    (base : List Message) {known : List String} {t : RunState}
    → Running base known t
    → Running base [] t
unfolding member
forget base k = record { added = k.added; held = k.held; awake = k.awake; requested = λ id h. cc }

forget_flow :
    (base : List Message) {known : List String} {f : Flow} → Flows base known f → Flows base [] f
forget_flow base (stopped (at_rest added held awake)) = stopped (at_rest added held awake)
forget_flow base (stopped (asleep added q held asked proven)) =
    stopped (asleep added q held asked proven)
forget_flow base (going k) = going (forget base k)

is_model-eq : (o : RequirementOrigin) → is_model_origin o ≡ true → o ≡ model
is_model-eq model h = refl
is_model-eq tool h = cc
is_model-eq (RequirementOrigin.other s) h = cc

origin_eq_refl : (o : RequirementOrigin) → origin_eq o o ≡ true
unfolding origin_eq
origin_eq_refl model = refl
origin_eq_refl tool = refl
origin_eq_refl (RequirementOrigin.other s) = eq_refl s

carries :
    (xs : List Message) (m : Message) (q : PendingRequirement)
    → is_assistant m.role ≡ true
    → m.requirement ≡ some q
    → has_matching_assistant_requirement (xs ++ m ∷ []) q ≡ true
unfolding has_matching_assistant_requirement requirement_matches kind_eq origin_eq
carries [] m q said held =
    rw (said, held, eq_refl q.id, kind_eq_refl q.kind, origin_eq_refl q.origin) refl
carries (x ∷ xs) m q said held = ground (arith, carries xs m q said held)

-- The evidence of a suspension by the model.
model-proven :
    (base xs : List Message) (m : Message) (q : PendingRequirement)
    → q.origin ≡ model
    → is_assistant m.role ≡ true
    → m.requirement ≡ some q
    → check_provenance (some q) (xs ++ m ∷ []) (base ++ (xs ++ m ∷ [])) ≡ none
unfolding check_provenance check_origin
model-proven base xs m q from said held =
    let all = base ++ (xs ++ m ∷ []) in
    rw (is_empty-append xs m) (
      subst (λ o. check_origin o (xs ++ m ∷ []) all q ≡ none) (sym from)
        (rw (carries xs m q said held) refl))

-- The run has just heard an answer of the assistant.
record Heard (base : List Message) (answer : Message) (t : RunState) : Type 0 where
  before : List Message
  held : t.messages ≡ slice (base ++ (before ++ answer ∷ []))
  awake : is_suspended t.status ≡ false
  spoken : is_assistant answer.role ≡ true

listening : (base : List Message) {m : Message} {t : RunState} → Heard base m t → Running base [] t
unfolding member
listening base {m} h = record {
  added = h.before ++ m ∷ [];
  held = h.held;
  awake = h.awake;
  requested = λ id no. cc;
}

asking :
    (base : List Message) {m : Message} {t : RunState}
    → Heard base m t
    → Running base (ids m.tool_calls) t
unfolding requests_call
asking base {m} h = record {
  added = h.before ++ m ∷ [];
  held = h.held;
  awake = h.awake;
  requested = λ id mine. requests_call-after base (h.before ++ m ∷ []) id (
      requests_call-after h.before (m ∷ []) id
        (rw (h.spoken, has_call-member m.tool_calls id mine) refl));
}

module _ (base : List Message) {W : Type 0} (l : ReactLoop W) (ctx : Context) where
  suspend_for_model-Emits :
      (m : Message) (q : PendingRequirement) (s : RunState) (y : Option GoError)
      → m.requirement ≡ some q
      → Heard base m s
      → Emits base [] (suspend_for_model l ctx m q s y)
  unfolding suspend_for_model validate_model_requirement listening
  suspend_for_model-Emits m q s y held h =
      if-Emits base [] (not (is_empty m.tool_calls))
        (fail_run-Emits base [] l ctx s _ y (listening base h))
        (elim (Bool-cases (is_model_origin q.origin)) [
          | inr other ↦ rw other (fail_run-Emits base [] l ctx s _ y (listening base h))
          | inl from ↦
              on_error-Emits base [] (validate_model_requirement s q)
                (λ e. fail_run-Emits base [] l ctx s e y (listening base h))
                (suspend_run-Emits base [] l ctx s q y (listening base h)
                  (model-proven base h.before m q (is_model-eq q.origin from) h.spoken held))
        ])

  complete_run-Emits :
      (m : Message) (s : RunState) (y : Option GoError)
      → Running base [] s
      → Emits base [] (complete_run l ctx m s y)
  unfolding complete_run
  complete_run-Emits m s y k =
      let moved = transition-Running base [] s RunStatus.completed refl k in
      on_error-Emits base [] (transition_run_status s RunStatus.completed).1
        (λ e. stop-Emits base [] (resting base [] moved))
        (bind-Emits base []
          (emit l ctx
            (plain_event (transition_run_status s RunStatus.completed).0.id
              (transition_run_status s RunStatus.completed).0.step run_completed no_command
              "assistant returned a final answer")
            y)
          λ e. stop-Emits base [] {e = e} (
            resting base [] (
              answered-Running base [] (transition_run_status s RunStatus.completed).0 m.content
                moved)))

  calls-Emits :
      (ds : List ToolDefinition) (m : Message) (s : RunState) (y : Option GoError)
      → Heard base m s
      → validate_tool_call_shape m.tool_calls ≡ none
      → Emits base [] (handle_calls l ctx ds m.tool_calls s y)
  calls-Emits ds m s y h shaped = record {
    from = λ w. forget_flow base (
        (handle_calls-Emits base (ids m.tool_calls) l ctx ds m.tool_calls s y
            (due (ids m.tool_calls) m.tool_calls (λ id x. x)
              ((validate_tool_call_shape_exact m.tool_calls).0 shaped).0)
            (asking base h)).from
          w);
  }

  act_on-Emits :
      (ds : List ToolDefinition) (q : Option PendingRequirement) (m : Message) (s : RunState)
      (y : Option GoError)
      → m.requirement ≡ q
      → Heard base m s
      → Emits base [] (act_on l ctx ds q m s y)
  unfolding act_on
  act_on-Emits ds (some q) m s y held h = suspend_for_model-Emits m q s y held h
  act_on-Emits ds none m s y held h =
      if-Emits base [] (is_empty m.tool_calls) (complete_run-Emits m s y (listening base h))
        (elim (Option-cases (validate_tool_call_shape m.tool_calls)) [
          | inl shaped ↦ rw shaped (calls-Emits ds m s y h shaped)
          | inr (e, bad) ↦ rw bad (fail_run-Emits base [] l ctx s e y (listening base h))
        ])

  hear-Emits :
      (input : EngineInput) (m : Message) (s : RunState) (y : Option GoError)
      → is_assistant m.role ≡ true
      → Running base [] s
      → Emits base [] (hear l ctx input m s y)
  unfolding hear
  hear-Emits input m s y said k =
      let heard = record s { messages = append s.messages (clone_message m) } in
      bind-Emits base [] (emit l ctx (message_event l ctx heard m) y) λ e.
        act_on-Emits input.tools m.requirement m heard e refl (record {
          before = k.added;
          held =
              ap (λ ms. slice (items ms ++ clone_message m ∷ [])) k.held
              ∙ (ap (λ x. slice ((base ++ k.added) ++ x ∷ [])) (clone_message-id m)
                  ∙ ap slice (append_assoc base k.added (m ∷ [])));
          awake = k.awake;
          spoken = said;
        })

  generated-Emits :
      (input : EngineInput) (t : RunState) (y : Option GoError) (answer : Message)
      (err : Option GoError)
      → is_assistant (normalized l ctx answer).role ≡ true
      → Running base [] t
      → Emits base [] (
          on_error err
            (λ e. context_cancellation_error l ctx e >>= λ x.
              on_error x (λ z. cancel_run l ctx t z y) (fail_run l ctx t e y))
            (hear l ctx input (normalized l ctx answer) t y))
  generated-Emits input t y answer err said k =
      on_error-Emits base [] err
        (λ e. bind-Emits base [] (context_cancellation_error l ctx e) λ x.
          on_error-Emits base [] x (λ z. cancel_run-Emits base [] l ctx t z y k)
            (fail_run-Emits base [] l ctx t e y k))
        (hear-Emits input (normalized l ctx answer) t y said k)

-- The model answers as the assistant, or with no role.
pub record Assists {W : Type 0} (l : ReactLoop W) (ctx : Context) : Type 0 where
  pub answers :
      (r : ModelRequest) (w : W)
      → let m = (l.model.generate (some ctx) r w).0.0 in (m.role ≡ unset) ⊎ (m.role ≡ assistant)

module _ (base : List Message) {W : Type 0} (l : ReactLoop W) (ctx : Context)
    (h : Assists l ctx) where
  spoken :
      (m : Message)
      → (m.role ≡ unset) ⊎ (m.role ≡ assistant)
      → is_assistant (normalized l ctx m).role ≡ true
  unfolding normalized with_role
  spoken m (inl e) = rw e refl
  spoken m (inr e) = rw e refl

  -- A turn of a running run goes on, or ends or suspends it with the evidence for it.
  pub take_step-Flows :
      (input : EngineInput) (s : RunState) (y : Option GoError) (w : W)
      → Running base [] s
      → Flows base [] (take_step l ctx input s y w).0
  unfolding take_step
  take_step-Flows input s y w k =
      let t = record s { step = increment s.step } in
      let kt : Running base [] t = record {
        added = k.added;
        held = k.held;
        awake = k.awake;
        requested = k.requested;
      } in
      let req : ModelRequest = record {
        messages = clone_messages (items t.messages);
        tools = clone_tool_definitions input.tools;
        resolution = input.resolution;
      } in
      let u = (ctx_err l.host ctx w).1 in
      let x = l.model.generate (some ctx) req u in
      elim (Option-cases (ctx_err l.host ctx w).0) [
        | inr (z, e) ↦ rw e ((cancel_run-Emits base [] l ctx s z y k).from u)
        | inl e ↦ rw e (
            (generated-Emits base l ctx input t y x.0.0 x.0.1 (spoken x.0.0 (h.answers req u))
                kt).from
              x.1)
      ]
