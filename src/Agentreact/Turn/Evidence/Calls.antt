-- ===== src/Agentreact/Turn/Evidence/Calls.antt =====
-- agentreact/react_loop.go: the tool calls of a turn, which an assistant's message asks for.
use agentframe.Base.{
  String, ◌≡◌, refl, true, false, Option, List, [], ◌∷◌, ◌++◌, ◌==◌, arith, eq_refl, eq_iff,
}
use agentframe.Base.Distinct.{member}
use agentframe.Agent.Value.{ToolCall, ToolDefinition}
use agentframe.Agent.Message.{Message}
use agentframe.Agent.Run.{RunState}
use agentframe.Agent.Errors.{GoError}
use agentframe.Agent.Interfaces.{ctx_err}
use agentframe.Agent.Context.{Context}
use agentframe.Agent.Prog.{Prog, ◌>>=◌}
use agentframe.Agent.Runner.Checks.{requests_call, has_call}
use agentframe.Agentreact.ToolValidation.{find_definition}
use agentframe.Agentreact.Requirements.Calls.{ids, IsNamed, named_cons}
use agentframe.Agentreact.Turn.{
  ReactLoop, Flow, stop, go_on, then_flow, handle_call, handle_calls, check_and_execute, observe,
}
use agentframe.Agentreact.Turn.Evidence.{
  Running, Flows, stopped, going, Emits, go_on-Emits, bind-Emits, on_error-Emits,
}
use agentframe.Agentreact.Turn.Evidence.Suspends.{cancel_run-Emits, observe-Emits, executed-Judged}

-- The calls have IDs, which are among the ones that the transcript asks for.
pub data AllDue (known : List String) : List ToolCall → Type 0 where
  due_nil : AllDue known []
  due_cons :
      {c : ToolCall} {cs : List ToolCall}
      → (c.id == "") ≡ false
      → member c.id known ≡ true
      → AllDue known cs
      → AllDue known (c ∷ cs)

module _ (base : List Message) (known : List String) {W : Type 0} (l : ReactLoop W)
    (ctx : Context) where
  executed-Emits :
      (call : ToolCall) (s : RunState) (y : Option GoError) (d : Option ToolDefinition)
      → (call.id == "") ≡ false
      → member call.id known ≡ true
      → Running base known s
      → Emits base known (check_and_execute l ctx s call d >>= λ x. observe l ctx call s y x)
  executed-Emits call s y d named mine k = record {
    from = λ w.
        let x = check_and_execute l ctx s call d w in
        (observe-Emits base known l ctx call s y x.0 named mine (executed-Judged l ctx s call d w)
            k).from
          x.1;
  }

  handle_call-Emits :
      (ds : List ToolDefinition) (call : ToolCall) (s : RunState) (y : Option GoError)
      → (call.id == "") ≡ false
      → member call.id known ≡ true
      → Running base known s
      → Emits base known (handle_call l ctx ds call s y)
  unfolding handle_call
  handle_call-Emits ds call s y named mine k = bind-Emits base known (ctx_err l.host ctx) λ c.
      on_error-Emits base known c (λ e. cancel_run-Emits base known l ctx s e y k)
        (executed-Emits call s y (find_definition call.name ds) named mine k)

  then_flow-Emits :
      {m : Prog W Flow} {f : RunState → Option GoError → Prog W Flow}
      → Emits base known m
      → ((t : RunState) (e : Option GoError) → Running base known t → Emits base known (f t e))
      → Emits base known (m >>= λ flow. then_flow l ctx flow f)
  then_flow-Emits {m} {f} sm sf = record { from = λ w. after (m w).0 (m w).1 (sm.from w) }
    where
      after :
          (flow : Flow) (u : W)
          → Flows base known flow
          → Flows base known (then_flow l ctx flow f u).0
      after (stop t e) u (stopped x) = stopped x
      after (go_on t e) u (going k) = (sf t e k).from u

  pub handle_calls-Emits :
      (ds : List ToolDefinition) (calls : List ToolCall) (s : RunState) (y : Option GoError)
      → AllDue known calls
      → Running base known s
      → Emits base known (handle_calls l ctx ds calls s y)
  unfolding handle_calls
  handle_calls-Emits ds [] s y d k = go_on-Emits base known k
  handle_calls-Emits ds (call ∷ calls) s y (due_cons named mine d) k =
      then_flow-Emits {m = handle_call l ctx ds call s y}
        {f = λ t e. handle_calls l ctx ds calls t e} (handle_call-Emits ds call s y named mine k)
        (λ t e h. handle_calls-Emits ds calls t e d h)

pub has_call-member :
    (cs : List ToolCall) (id : String) → member id (ids cs) ≡ true → has_call cs id ≡ true
unfolding member has_call
has_call-member [] id h = h
has_call-member (c ∷ cs) id h = ground (arith, h, has_call-member cs id)

pub due :
    (known : List String) (cs : List ToolCall)
    → ((id : String) → member id (ids cs) ≡ true → member id known ≡ true)
    → IsNamed cs
    → AllDue known cs
unfolding member
due known [] h n = due_nil
due known (c ∷ cs) h (named_cons full name n) =
    due_cons (grind (arith, full, eq_iff c.id "")) (h c.id (rw (eq_refl c.id) refl))
      (due known cs (λ id m. h id (ground (arith, m))) n)

pub requests_call-after :
    (xs ys : List Message) (id : String)
    → requests_call ys id ≡ true
    → requests_call (xs ++ ys) id ≡ true
unfolding requests_call
requests_call-after [] ys id h = h
requests_call-after (x ∷ xs) ys id h = ground (arith, requests_call-after xs ys id h)
