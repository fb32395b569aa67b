-- ===== src/Agentreact/Turn/Extends.antt =====
-- What a turn leaves of the run's state: its ID and version, and all of its transcript.
use agentframe.Base.{
  String, ◌≡◌, refl, sym, ◌∙◌, Bool, true, false, Option, none, some, [], ◌∷◌, if◌then◌else◌, items,
  append, subst,
}
use agentframe.Agent.Requirement.{PendingRequirement, RunStatus}
use agentframe.Agent.Message.{Message}
use agentframe.Agent.Run.{RunState}
use agentframe.Agent.Errors.{GoError}
use agentframe.Agent.Lifecycle.{transition_run_status}
use agentframe.Agent.Lifecycle.Transitions.{Moved, transition_run_status-Moved}
use agentframe.Agent.Context.{Context}
use agentframe.Agent.Prog.{Prog, pure, on_error, ◌>>=◌}
use agentframe.Agent.History.{Continues, Continues-refl, Continues-trans}
use agentframe.Agentreact.Turn.{ReactLoop, Flow, stop, go_on, then_flow}

-- A state of the same run and step, whose transcript goes on.
pub record Extends (s t : RunState) : Type 0 where
  pub same_run : t.id ≡ s.id
  pub same_version : t.version ≡ s.version
  pub same_step : t.step ≡ s.step
  pub transcript : Continues (items s.messages) (items t.messages)

pub Extends-refl : (s : RunState) → Extends s s
Extends-refl s = record {
  same_run = refl;
  same_version = refl;
  same_step = refl;
  transcript = Continues-refl (items s.messages);
}

pub Extends-trans : {s t u : RunState} → Extends s t → Extends t u → Extends s u
Extends-trans a b = record {
  same_run = b.same_run ∙ a.same_run;
  same_version = b.same_version ∙ a.same_version;
  same_step = b.same_step ∙ a.same_step;
  transcript = Continues-trans a.transcript b.transcript;
}

-- Fields that are none of a run's history may change.
pub relabelled : {s t u : RunState} → Extends s t → Moved t u → Extends s u
relabelled {s} x m = record {
  same_run = m.id ∙ x.same_run;
  same_version = m.version ∙ x.same_version;
  same_step = m.step ∙ x.same_step;
  transcript = subst (λ ms. Continues (items s.messages) (items ms)) (sym m.messages) x.transcript;
}

pub transition-Extends : (s : RunState) (to : RunStatus) → Extends s (transition_run_status s to).0
transition-Extends s to = relabelled (Extends-refl s) (transition_run_status-Moved s to)

pub asked :
    (s : RunState) (q : PendingRequirement) → Extends s (record s { pending_requirement = some q })
asked s q =
    relabelled (Extends-refl s) (record { id = refl; version = refl; step = refl; messages = refl })

pub dropped : (s : RunState) → Extends s (record s { pending_requirement = none })
dropped s =
    relabelled (Extends-refl s) (record { id = refl; version = refl; step = refl; messages = refl })

pub noted : {s t : RunState} (text : String) → Extends s t → Extends s (record t { error = text })
noted text x = relabelled x (record { id = refl; version = refl; step = refl; messages = refl })

pub answered :
    {s t : RunState} (text : String) → Extends s t → Extends s (record t { output = text })
answered text x = relabelled x (record { id = refl; version = refl; step = refl; messages = refl })

-- One more message.
pub said : (s : RunState) (m : Message) → Extends s (record s { messages = append s.messages m })
said s m = record {
  same_run = refl;
  same_version = refl;
  same_step = refl;
  transcript = record { additions = m ∷ []; extended = refl };
}

-- the state that a part of the loop ends with
abbrev pub state_of : Flow → RunState
state_of (stop s e) = s
state_of (go_on s e) = s

-- Wherever the code starts, the state that it ends with extends `s`.
pub record Leaves {W : Type 0} (s : RunState) (m : Prog W Flow) : Type 0 where
  pub from : (w : W) → Extends s (state_of (m w).0)

module _ {W : Type 0} where
  pub stop-Leaves :
      {s t : RunState} {e : Option GoError} → Extends s t → Leaves {W = W} s (pure (stop t e))
  stop-Leaves x = record { from = λ w. x }

  pub go_on-Leaves :
      {s t : RunState} {e : Option GoError} → Extends s t → Leaves {W = W} s (pure (go_on t e))
  go_on-Leaves x = record { from = λ w. x }

  pub bind-Leaves :
      {A : Type 0} {s : RunState} {k : A → Prog W Flow} (m : Prog W A)
      → ((a : A) → Leaves s (k a))
      → Leaves s (m >>= k)
  bind-Leaves m h = record { from = λ w. (h (m w).0).from (m w).1 }

  pub later-Leaves : {s t : RunState} {m : Prog W Flow} → Extends s t → Leaves t m → Leaves s m
  later-Leaves x h = record { from = λ w. Extends-trans x (h.from w) }

  pub on_error-Leaves :
      {s : RunState} {f : GoError → Prog W Flow} {k : Prog W Flow} (e : Option GoError)
      → ((x : GoError) → Leaves s (f x))
      → Leaves s k
      → Leaves s (on_error e f k)
  on_error-Leaves none sf sk = sk
  on_error-Leaves (some x) sf sk = sf x

  pub if-Leaves :
      {s : RunState} {m n : Prog W Flow} (b : Bool)
      → Leaves s m
      → Leaves s n
      → Leaves s (if b then m else n)
  if-Leaves true sm sn = sm
  if-Leaves false sm sn = sn

module _ {W : Type 0} (l : ReactLoop W) (ctx : Context) where
  pub then_flow-Leaves :
      {s : RunState} {m : Prog W Flow} {k : RunState → Option GoError → Prog W Flow}
      → Leaves s m
      → ((t : RunState) (e : Option GoError) → Leaves t (k t e))
      → Leaves s (m >>= λ flow. then_flow l ctx flow k)
  then_flow-Leaves {s} {m} {k} sm sk = record { from = λ w. go (m w).0 (m w).1 (sm.from w) }
    where
      go :
          (flow : Flow) (u : W)
          → Extends s (state_of flow)
          → Extends s (state_of (then_flow l ctx flow k u).0)
      go (stop t e) u x = x
      go (go_on t e) u x = Extends-trans x ((sk t e).from u)
