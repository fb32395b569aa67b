-- ===== src/Agentreact/Loop/Unrolling.antt =====
-- agentreact/react_loop.go: the loop over the steps, freed of its fuel.
use agentframe.Base.{
  ℕ, zero, suc, ◌+◌, ◌≤◌, ◌≡◌, refl, sym, ap, ◌∙◌, true, false, Option, if◌then◌else◌, arith,
  Bool-cases, inl, inr,
}
use agentframe.Base.Int.{pos, ltbℤ, max_int64}
use agentframe.Agent.Run.{RunState, EngineInput}
use agentframe.Agent.Errors.{GoError}
use agentframe.Agent.Context.{Context}
use agentframe.Agent.Prog.{Prog, ◌>>=◌}
use agentframe.Agentreact.Turn.{ReactLoop, Flow, stop, go_on, take_step, then_flow}
use agentframe.Agentreact.Turn.Grows.{Turned, stepped, take_step-Turned}
use agentframe.Agentreact.Loop.{budget, steps_left, run_steps, run_loop, exhaust}
use agentframe.Agentreact.Loop.Steps.{none_left, one_used}

module _ {W : Type 0} (l : ReactLoop W) (ctx : Context) (input : EngineInput) where
  abbrev bound : ℕ
  bound = budget input.max_steps

  -- After a turn one round less is left.
  after_turn :
      (s : RunState) (flow : Flow) (j k : RunState → Option GoError → Prog W Flow) (u : W)
      → bound ≤ max_int64
      → ltbℤ s.step (pos bound) ≡ true
      → Turned s flow
      → ((t : RunState) (e : Option GoError)
          → steps_left t.step bound + 1 ≡ steps_left s.step bound
          → j t e u ≡ k t e u)
      → then_flow l ctx flow j u ≡ then_flow l ctx flow k u
  after_turn s (stop t e) j k u fits more turned same = refl
  after_turn s (go_on t e) j k u fits more (stepped x) same =
      same t e (ap (λ a. steps_left a bound + 1) x.same_step ∙ one_used s.step bound fits more)

  at_bound :
      (f : ℕ) (s : RunState) (y : Option GoError) (w : W)
      → ltbℤ s.step (pos bound) ≡ false
      → run_steps l ctx f input s y w ≡ exhaust l ctx s y w
  unfolding run_steps
  at_bound zero s y w e = refl
  at_bound (suc f) s y w e = rw e refl

  below_bound :
      (f : ℕ) (s : RunState) (y : Option GoError) (w : W)
      → ltbℤ s.step (pos bound) ≡ true
      → run_steps l ctx (suc f) input s y w
        ≡ then_flow l ctx
            (take_step l ctx input s y w).0
            (λ t e. run_steps l ctx f input t e)
            (take_step l ctx input s y w).1
  unfolding run_steps
  below_bound f s y w e = rw e refl

  -- Any fuel that covers the rounds left gives the same.
  enough :
      (f g : ℕ) (s : RunState) (y : Option GoError) (w : W)
      → bound ≤ max_int64
      → steps_left s.step bound ≤ f
      → steps_left s.step bound ≤ g
      → run_steps l ctx f input s y w ≡ run_steps l ctx g input s y w
  enough zero g s y w fits a b =
      at_bound zero s y w (none_left s.step bound a)
      ∙ sym (at_bound g s y w (none_left s.step bound a))
  enough (suc f) zero s y w fits a b =
      at_bound (suc f) s y w (none_left s.step bound b)
      ∙ sym (at_bound zero s y w (none_left s.step bound b))
  enough (suc f) (suc g) s y w fits a b = elim (Bool-cases (ltbℤ s.step (pos bound))) [
    | inr e ↦ at_bound (suc f) s y w e ∙ sym (at_bound (suc g) s y w e)
    | inl e ↦
        below_bound f s y w e
        ∙ after_turn s _ _ _ _ fits e (take_step-Turned l ctx input s y w)
            (λ t x c. enough f g t x _ fits (omega (arith, a, c)) (omega (arith, b, c)))
        ∙ sym (below_bound g s y w e)
  ]

  -- The loop of Execute satisfies the equation of the source: below the budget it takes a turn
  -- and goes round again, at the budget it ends the run; so its fuel is always enough. The
  -- budget is assumed to fit into 64 bits.
  pub run_loop-unrolled :
      bound ≤ max_int64
      → (s : RunState) (y : Option GoError) (w : W)
      → run_loop l ctx input s y w
        ≡ (if ltbℤ s.step (pos bound)
              then take_step l ctx input s y
                >>= (λ flow. then_flow l ctx flow (λ t e. run_loop l ctx input t e))
              else exhaust l ctx s y)
            w
  unfolding run_loop
  run_loop-unrolled fits s y w = elim (Bool-cases (ltbℤ s.step (pos bound))) [
    | inr e ↦ rw e (at_bound (steps_left s.step bound) s y w e)
    | inl e ↦ rw e (
        enough (steps_left s.step bound) (suc (steps_left s.step bound)) s y w fits (omega arith)
          (omega arith)
        ∙ below_bound (steps_left s.step bound) s y w e
        ∙ after_turn s _ _ _ _ fits e (take_step-Turned l ctx input s y w) (λ t x c.
          enough (steps_left s.step bound) (steps_left t.step bound) t x _ fits (omega (arith, c))
            (omega arith)))
  ]
