-- ===== src/Agentreact/Turn/Evidence/Suspends.antt =====
-- agentreact/react_loop.go: how the parts of a turn end a run or suspend it.
use agentframe.Base.{
  String, ◌≡◌, refl, true, false, Option, none, some, List, [], ◌∷◌, ◌++◌, ◌==◌, append, Bool-cases,
  Option-cases, inl, inr, eq_refl, arith, is_empty, is_empty-append,
}
use agentframe.Base.Distinct.{member}
use agentframe.Agent.Value.{ToolCall, ToolDefinition, ToolResult, executor_error}
use agentframe.Agent.Requirement.{
  PendingRequirement, RunStatus, is_suspended, is_tool_origin, RequirementOrigin, model, tool,
}
use agentframe.Agent.Message.{Message, tool_result_message}
use agentframe.Agent.Run.{RunState, no_command}
use agentframe.Agent.Event.{EventType}
use agentframe.Agent.Errors.{
  GoError, join, as_suspend_request, SuspendMatch, no_match, nil_request, request,
}
use agentframe.Agentreact.ToolValidation.{normalized_tool_error_result, validate_tool_arguments}
use agentframe.Agentreact.Requirements.{
  validate_tool_suspend_request, check_request, grant_if, validate_tool_result_identity,
}
use agentframe.Agent.Lifecycle.{transition_run_status, settle}
use agentframe.Agent.Context.{Context}
use agentframe.Agent.Prog.{pure, on_error}
use agentframe.Agent.Runner.Checks.{
  check_provenance, check_origin, requests_call, observes_call, has_tool_observation_for_call_id,
  has_assistant_tool_call_for_call_id,
}
use agentframe.Agent.Runner.Effects.{plain_event}
use agentframe.Agentreact.Turn.{
  ReactLoop, stop, end_run, fail_run, cancel_run, suspend_run, emit, conclude, Verdict, plain,
  refused, suspends, Executed, interrupted, executed, observe, identified, tool_event,
  judge_suspension, judge_error, judge_result, tool_error, context_cancellation_error,
  check_and_execute,
}
use agentframe.Agentreact.Turn.Evidence.{
  Running, asleep, Emits, resting, stop-Emits, go_on-Emits, bind-Emits, on_error-Emits,
  said_running, transition-Running, noted-Running,
}

-- The observation at the end of the new messages is found.
observed_last :
    (xs : List Message) (m : Message) (id : String)
    → observes_call (m ∷ []) id ≡ true
    → observes_call (xs ++ m ∷ []) id ≡ true
unfolding observes_call
observed_last [] m id h = h
observed_last (x ∷ xs) m id h = ground (arith, observed_last xs m id h)

-- A result that suspends the run observes its call, and its requirement is about the call.
pub data Judged (call : ToolCall) : Executed → Type 0 where
  cut_short : {e : GoError} → Judged call (interrupted e)
  plainly : {result : ToolResult} → Judged call (executed result plain)
  refusing : {result : ToolResult} {e : GoError} → Judged call (executed result (refused e))
  suspending :
      {result : ToolResult} {q : PendingRequirement}
      → q.origin ≡ tool
      → q.tool_call_id ≡ call.id
      → result.call_id ≡ call.id
      → Judged call (executed result (suspends q))

module _ (base : List Message) (ids : List String) {W : Type 0} (l : ReactLoop W)
    (ctx : Context) where
  end_run-Emits :
      (status : RunStatus) (type : EventType) (text : String) (s : RunState) (x : GoError)
      (y : Option GoError)
      → is_suspended status ≡ false
      → Running base ids s
      → Emits base ids (end_run l ctx status type text s x y)
  unfolding end_run
  end_run-Emits status type text s x y awake k =
      let moved = transition-Running base ids s status awake k in
      on_error-Emits base ids (transition_run_status s status).1
        (λ e. stop-Emits base ids (resting base ids moved))
        (bind-Emits base ids
          (emit l ctx
            (plain_event (transition_run_status s status).0.id
              (transition_run_status s status).0.step type no_command text)
            y)
          λ e. stop-Emits base ids {e = join (some x) e} (
            resting base ids (
              noted-Running base ids (transition_run_status s status).0 (l.host.error_text x)
                moved)))

  pub fail_run-Emits :
      (s : RunState) (x : GoError) (y : Option GoError)
      → Running base ids s
      → Emits base ids (fail_run l ctx s x y)
  unfolding fail_run
  fail_run-Emits s x y k = end_run-Emits _ _ _ s x y refl k

  pub cancel_run-Emits :
      (s : RunState) (x : GoError) (y : Option GoError)
      → Running base ids s
      → Emits base ids (cancel_run l ctx s x y)
  unfolding cancel_run
  cancel_run-Emits s x y k = end_run-Emits _ _ _ s x y refl k

  -- The part of suspend_run after its transition, which either took effect or changed nothing.
  settled-Emits :
      (s : RunState) (q : PendingRequirement) (y : Option GoError) (v : Option GoError)
      (k : Running base ids s)
      → check_provenance (some q) k.added (base ++ k.added) ≡ none
      → let old = record s { pending_requirement = some q } in
        let x = settle old (record old { status = RunStatus.suspended }) v in
        Emits base ids (
          on_error x.1
            (λ e. fail_run l ctx (record x.0 { pending_requirement = none }) e y)
            (pure (stop x.0 y)))
  unfolding settle
  settled-Emits s q y none k proven = stop-Emits base ids (asleep k.added q k.held refl proven)
  settled-Emits s q y (some e) k proven =
      fail_run-Emits (record s { pending_requirement = none }) e y
        (record { added = k.added; held = k.held; awake = k.awake; requested = k.requested })

  pub suspend_run-Emits :
      (s : RunState) (q : PendingRequirement) (y : Option GoError) (k : Running base ids s)
      → check_provenance (some q) k.added (base ++ k.added) ≡ none
      → Emits base ids (suspend_run l ctx s q y)
  unfolding suspend_run transition_run_status
  suspend_run-Emits s q y k proven = settled-Emits s q y _ k proven

  -- The evidence of a suspension by a tool.
  tool-proven :
      (call : ToolCall) (q : PendingRequirement) (m : Message) (added : List Message)
      → q.origin ≡ tool
      → q.tool_call_id ≡ call.id
      → (call.id == "") ≡ false
      → observes_call (m ∷ []) call.id ≡ true
      → requests_call (base ++ (added ++ m ∷ [])) call.id ≡ true
      → check_provenance (some q) (added ++ m ∷ []) (base ++ (added ++ m ∷ [])) ≡ none
  unfolding check_provenance check_origin has_tool_observation_for_call_id
      has_assistant_tool_call_for_call_id
  tool-proven call q m added from about named seen asked =
      let some_message : is_empty (added ++ m ∷ []) ≡ false = is_empty-append added m in
      rw (some_message, from, about, named, observed_last added m call.id seen, asked) refl

  -- The message of a result that observes its call.
  observing :
      (call : ToolCall) (result : ToolResult)
      → (call.id == "") ≡ false
      → result.call_id ≡ call.id
      → observes_call (tool_result_message (identified l ctx call result) ∷ []) call.id ≡ true
  unfolding observes_call tool_result_message identified
  observing call result named about = rw (about, named, eq_refl call.id) refl

  pub observe-Emits :
      (call : ToolCall) (s : RunState) (y : Option GoError) (x : Executed)
      → (call.id == "") ≡ false
      → member call.id ids ≡ true
      → Judged call x
      → Running base ids s
      → Emits base ids (observe l ctx call s y x)
  unfolding observe conclude said_running
  observe-Emits call s y (interrupted e) named mine j k = cancel_run-Emits s e y k
  observe-Emits call s y (executed result v) named mine j k =
      let m = tool_result_message (identified l ctx call result) in
      let seen = record s { messages = append s.messages m } in
      let kept = said_running base ids s m k in
      bind-Emits base ids (emit l ctx (tool_event l ctx seen (identified l ctx call result)) y) (
        concluded v seen kept j (λ q from about res.
          tool-proven call q m k.added from about named (observing call result named res)
            (kept.requested call.id mine)))
    where
      concluded :
          (v : Verdict) (seen : RunState) (kept : Running base ids seen)
          → Judged call (executed result v)
          → ((q : PendingRequirement)
              → q.origin ≡ tool
              → q.tool_call_id ≡ call.id
              → result.call_id ≡ call.id
              → check_provenance (some q) kept.added (base ++ kept.added) ≡ none)
          → (e : Option GoError) → Emits base ids (conclude l ctx v seen e)
      concluded _ seen kept plainly f e = go_on-Emits base ids kept
      concluded _ seen kept (refusing {e = x}) f e = fail_run-Emits seen x e kept
      concluded _ seen kept (suspending {q = q} from about res) f e =
          suspend_run-Emits seen q e kept (f q from about res)

is_tool-eq : (o : RequirementOrigin) → is_tool_origin o ≡ true → o ≡ tool
is_tool-eq tool h = refl
is_tool-eq model h = cc
is_tool-eq (RequirementOrigin.other s) h = cc

module _ {W : Type 0} (l : ReactLoop W) (ctx : Context) (s : RunState) (call : ToolCall) where
  granted-Judged :
      (e : GoError) (v : Option GoError) (q : PendingRequirement)
      → q.origin ≡ tool
      → q.tool_call_id ≡ call.id
      → Judged call (judge_suspension l ctx call e (grant_if v q))
  unfolding judge_suspension grant_if tool_error normalized_tool_error_result
  granted-Judged e none q from about = suspending from about refl
  granted-Judged e (some x) q from about = refusing

  suspension-Judged :
      (e : GoError) (r : Option PendingRequirement)
      → Judged call (judge_suspension l ctx call e (validate_tool_suspend_request s call r))
  unfolding validate_tool_suspend_request check_request judge_suspension grant_if
  suspension-Judged e none = refusing
  suspension-Judged e (some q) = elim (Bool-cases (is_tool_origin q.origin)) [
    | inr other ↦ rw other refusing
    | inl from ↦ rw from (granted-Judged e _ _ (is_tool-eq q.origin from) refl)
  ]

  error-Judged : (e : GoError) (m : SuspendMatch) → Judged call (judge_error l ctx s call e m)
  unfolding judge_error
  error-Judged e no_match = plainly
  error-Judged e nil_request = suspension-Judged e none
  error-Judged e (request q) = suspension-Judged e q

  result-Judged :
      (x : ToolResult × Option GoError) (w : W) → Judged call (judge_result l ctx s call x w).0
  unfolding judge_result
  result-Judged (result, some e) w = cut (context_cancellation_error l ctx e w).0
    where
      cut :
          (c : Option GoError)
          → Judged call (on_error c interrupted (judge_error l ctx s call e (as_suspend_request e)))
      cut none = error-Judged e (as_suspend_request e)
      cut (some x) = cut_short
  result-Judged (result, none) w = same (validate_tool_result_identity call result)
    where
      same :
          (v : Option GoError)
          → Judged call (
              on_error v
                (λ x. executed (tool_error l ctx call executor_error x) plain)
                (executed result plain))
      same none = plainly
      same (some x) = plainly

  pub executed-Judged :
      (d : Option ToolDefinition) (w : W) → Judged call (check_and_execute l ctx s call d w).0
  unfolding check_and_execute
  executed-Judged none w = plainly
  executed-Judged (some d) w =
      elim (Option-cases (validate_tool_arguments l.sort_strings d.input_schema call.arguments)) [
        | inr (x, bad) ↦ rw bad plainly
        | inl fine ↦ rw fine (result-Judged _ _)
      ]
