-- ===== src/Agentreact/Turn/Evidence.antt =====
-- A turn that suspends its run leaves the evidence that the runner asks for.
pub mod Suspends
pub mod Calls
pub mod Turns
use agentframe.Base.{
  String, ◌≡◌, ◌≢◌, refl, sym, ap, ◌∙◌, Bool, true, false, ◌||◌, ◌&&◌, not, Option, none, some,
  List, [], ◌∷◌, ◌++◌, ◌==◌, if◌then◌else◌, slice, items, append, append_assoc, Bool-cases,
  Option-cases, inl, inr, eq_refl, arith,
}
use agentframe.Base.Distinct.{member}
use agentframe.Agent.Requirement.{PendingRequirement, RunStatus, is_suspended}
use agentframe.Agent.Message.{Message, is_assistant}
use agentframe.Agent.Run.{RunState, no_command}
use agentframe.Agent.Event.{EventType}
use agentframe.Agent.Errors.{GoError, join}
use agentframe.Agent.Lifecycle.{
  transition_run_status, settle, validate_run_status_transition, validate_suspension_invariant,
  ◌then_check◌,
}
use agentframe.Agent.Context.{Context}
use agentframe.Agent.Prog.{Prog, pure, on_error, ◌>>=◌}
use agentframe.Agent.Runner.Checks.{check_provenance, requests_call, has_call}
use agentframe.Agent.Runner.Effects.{plain_event}
use agentframe.Agentreact.Turn.{
  ReactLoop, Flow, stop, go_on, then_flow, end_run, fail_run, cancel_run, suspend_run, emit,
}

-- A request for a call is still there when the transcript goes on.
pub requests_call-append :
    (xs ys : List Message) (id : String)
    → requests_call xs id ≡ true
    → requests_call (xs ++ ys) id ≡ true
unfolding requests_call
requests_call-append [] ys id h = cc
requests_call-append (m ∷ xs) ys id h =
    elim (Bool-cases (is_assistant m.role && has_call m.tool_calls id)) [
      | inl asks ↦ rw asks refl
      | inr silent ↦
          let p : requests_call xs id ≡ true = rw silent at h in
          rw silent (requests_call-append xs ys id p)
    ]

module _ (base : List Message) (ids : List String) where
  -- The run is not suspended, its transcript goes on from `base`, and asks for the calls of `ids`.
  pub record Running (t : RunState) : Type 0 where
    pub added : List Message
    pub held : t.messages ≡ slice (base ++ added)
    pub awake : is_suspended t.status ≡ false
    pub requested : (id : String) → member id ids ≡ true → requests_call (base ++ added) id ≡ true

  -- The run is at rest, or suspended on a requirement that its new messages prove.
  pub data Ended (t : RunState) : Type 0 where
    at_rest :
        (added : List Message)
        → t.messages ≡ slice (base ++ added)
        → is_suspended t.status ≡ false
        → Ended t
    asleep :
        (added : List Message) (q : PendingRequirement)
        → t.messages ≡ slice (base ++ added)
        → t.pending_requirement ≡ some q
        → check_provenance (some q) added (base ++ added) ≡ none
        → Ended t

  pub data Flows : Flow → Type 0 where
    stopped : {t : RunState} {e : Option GoError} → Ended t → Flows (stop t e)
    going : {t : RunState} {e : Option GoError} → Running t → Flows (go_on t e)

  pub record Emits {W : Type 0} (m : Prog W Flow) : Type 0 where
    pub from : (w : W) → Flows (m w).0

  pub resting : {t : RunState} → Running t → Ended t
  resting k = at_rest k.added k.held k.awake

  module _ {W : Type 0} where
    pub stop-Emits : {t : RunState} {e : Option GoError} → Ended t → Emits {W = W} (pure (stop t e))
    stop-Emits x = record { from = λ w. stopped x }

    pub go_on-Emits :
        {t : RunState} {e : Option GoError} → Running t → Emits {W = W} (pure (go_on t e))
    go_on-Emits x = record { from = λ w. going x }

    pub bind-Emits :
        {A : Type 0} {k : A → Prog W Flow} (m : Prog W A)
        → ((a : A) → Emits (k a))
        → Emits (m >>= k)
    bind-Emits m h = record { from = λ w. (h (m w).0).from (m w).1 }

    pub on_error-Emits :
        {f : GoError → Prog W Flow} {k : Prog W Flow} (e : Option GoError)
        → ((x : GoError) → Emits (f x))
        → Emits k
        → Emits (on_error e f k)
    on_error-Emits none sf sk = sk
    on_error-Emits (some x) sf sk = sf x

    pub if-Emits : {m n : Prog W Flow} (b : Bool) → Emits m → Emits n → Emits (if b then m else n)
    if-Emits true sm sn = sm
    if-Emits false sm sn = sn

  -- A message joins the transcript.
  unfoldable pub said_running :
      (t : RunState) (m : Message)
      → Running t
      → Running (record t { messages = append t.messages m })
  said_running t m k =
      let longer : (base ++ k.added) ++ m ∷ [] ≡ base ++ (k.added ++ m ∷ []) =
        append_assoc base k.added (m ∷ []) in
      record {
        added = k.added ++ m ∷ [];
        held = ap (λ ms. slice (items ms ++ m ∷ [])) k.held ∙ ap slice longer;
        awake = k.awake;
        requested = λ id h.
            ap (λ ms. requests_call ms id) (sym longer)
            ∙ requests_call-append (base ++ k.added) (m ∷ []) id (k.requested id h);
      }

  settle-Running :
      (s : RunState) (to : RunStatus) (v : Option GoError)
      → is_suspended to ≡ false
      → Running s
      → Running (settle s (record s { status = to }) v).0
  unfolding settle
  settle-Running s to none h k = record {
    added = k.added;
    held = k.held;
    awake = h;
    requested = k.requested;
  }
  settle-Running s to (some e) h k = k

  pub transition-Running :
      (s : RunState) (to : RunStatus)
      → is_suspended to ≡ false
      → Running s
      → Running (transition_run_status s to).0
  unfolding transition_run_status
  transition-Running s to h k = settle-Running s to _ h k

  pub noted-Running :
      (s : RunState) (text : String) → Running s → Running (record s { error = text })
  noted-Running s text k = record {
    added = k.added;
    held = k.held;
    awake = k.awake;
    requested = k.requested;
  }

  pub answered-Running :
      (s : RunState) (text : String) → Running s → Running (record s { output = text })
  answered-Running s text k = record {
    added = k.added;
    held = k.held;
    awake = k.awake;
    requested = k.requested;
  }
