-- ===== src/Policy/Retry/Guarantees.antt =====
-- policy/retry/retry.go: what a wrapped engine keeps of its engine's guarantees.
use agentframe.Base.{
  ℕ, zero, suc, ◌≡◌, refl, ap, Bool, true, false, Option, none, some, if◌then◌else◌, Bool-cases,
  Option-cases, inl, inr,
}
use agentframe.Agent.Requirement.{PendingRequirement, Resolution}
use agentframe.Agent.Run.{RunState, EngineInput, clone_run_state}
use agentframe.Agent.Errors.{GoError}
use agentframe.Agent.Context.{Context}
use agentframe.Agent.Prog.{Prog, pure, on_error}
use agentframe.Agent.Interfaces.{Engine, Host, ctx_err}
use agentframe.Policy.Retry.{
  Config, execute, attempts_from, one_attempt, retry_or_stop, should_retry, attempt_input,
  normalized_attempts,
}

-- `R` relates a state to what an engine makes of it, `V` the worlds before and after a call.
pub record Promise {W : Type 0} (R : RunState → RunState → Type 0) (V : W → W → Type 0)
    (host : Host W) (next : Engine W) : Type 0 where
  pub unchanged : (s : RunState) → R s s
  pub copied : (s : RunState) → R s (clone_run_state s)
  pub after_copies : {s t : RunState} → R (clone_run_state (clone_run_state s)) t → R s t
  pub still : (w : W) → V w w
  pub onward : {u v w : W} → V u v → V v w → V u w
  pub cancellation : (w : W) → V w (host.cancellation w).1
  pub result :
      (ctx : Option Context) (s : RunState) (input : EngineInput) (w : W)
      → R s (next.execute ctx s input w).0.0
  pub world :
      (ctx : Option Context) (s : RunState) (input : EngineInput) (w : W)
      → V w (next.execute ctx s input w).1

module _ {W : Type 0} {R : RunState → RunState → Type 0} {V : W → W → Type 0} {host : Host W}
    {next : Engine W} (p : Promise R V host next) (cfg : Config) where
  abbrev Kept : RunState → W → (RunState × Option GoError) × W → Type 0
  Kept s w out = R s out.0.0 × V w out.1

  ctx_kept : (ctx : Context) (w : W) → V w (ctx_err host ctx w).1
  unfolding ctx_err
  ctx_kept ctx w = elim (Bool-cases ctx.live) [
    | inl e ↦ rw e (p.cancellation w)
    | inr e ↦ rw e (p.still w)
  ]

  stopped :
      (left : ℕ) (ctx : Context) (s t : RunState) (e : GoError)
      (again : Prog W (RunState × Option GoError)) (w u : W)
      → R s t
      → V w u
      → ((v : W) → V w v → Kept s w (again v))
      → Kept s w (retry_or_stop host next cfg left ctx t e again u)
  unfolding retry_or_stop should_retry
  stopped zero ctx s t e again w u x y k = (x, y)
  stopped (suc left) ctx s t e again w u x y k = either (should_retry host next cfg ctx e u).0
    where
      v : W
      v = (ctx_err host ctx u).1

      either : (b : Bool) → Kept s w ((if b then again else pure (t, some e)) v)
      either true = k v (p.onward y (ctx_kept ctx u))
      either false = (x, p.onward y (ctx_kept ctx u))

  attempted :
      (left : ℕ) (ctx : Context) (s : RunState) (again : Prog W (RunState × Option GoError)) (w : W)
      → ((v : W) → V w v → Kept s w (again v))
      → (out : RunState × Option GoError) (u : W) → R s out.0
      → V w u
      → Kept s w (
          on_error out.1
            (λ e. retry_or_stop host next cfg left ctx out.0 e again)
            (pure (out.0, none))
            u)
  attempted left ctx s again w k (t, none) u x y = (x, y)
  attempted left ctx s again w k (t, some e) u x y = stopped left ctx s t e again w u x y k

  attempts-Kept :
      (left : ℕ) (ctx : Context) (s : RunState) (input : EngineInput) (w u : W)
      → V w u
      → Kept s w (attempts_from host next cfg left ctx s input u)
  unfolding attempts_from one_attempt
  attempts-Kept zero ctx s input w u y = (p.copied s, y)
  attempts-Kept (suc left) ctx s input w u y =
      let out = one_attempt host next cfg ctx s input u in
      attempted left ctx s (attempts_from host next cfg left ctx s input) w
        (λ v z. attempts-Kept left ctx s input w v z) out.0 out.1
        (p.after_copies (p.result (some ctx) _ (attempt_input host next cfg input) u))
        (p.onward y (p.world (some ctx) _ (attempt_input host next cfg input) u))

  -- Whatever an engine guarantees of its result and of its effect on the world, the retrying
  -- engine around it guarantees too, however many attempts it makes, as long as the guarantee
  -- of results does not see copying and the one of effects adds up.
  pub execute-keeps :
      (ctx : Option Context) (s : RunState) (input : EngineInput) (w : W)
      → R s (execute host next cfg ctx s input w).0.0 × V w (execute host next cfg ctx s input w).1
  unfolding execute
  execute-keeps none s input w = (p.unchanged s, p.still w)
  execute-keeps (some ctx) s input w = elim (Option-cases (ctx_err host ctx w).0) [
    | inr (e, h) ↦ rw h (p.unchanged s, ctx_kept ctx w)
    | inl h ↦ rw h (
        attempts-Kept (normalized_attempts cfg.max_attempts) ctx s input w (ctx_err host ctx w).1
          (ctx_kept ctx w))
  ]

module _ {W : Type 0} (host : Host W) (next : Engine W) (cfg : Config) where
  attempts_same :
      (left : ℕ) (ctx : Context) (s : RunState) (input : EngineInput) (r : Option Resolution)
      (q : Option PendingRequirement) (u : W)
      → attempts_from host next cfg left ctx s
          (record input { resolution = r; resolved_requirement = q })
          u
        ≡ attempts_from host next cfg left ctx s input u
  unfolding attempts_from one_attempt attempt_input
  attempts_same zero ctx s input r q u = refl
  attempts_same (suc left) ctx s input r q u =
      let out = one_attempt host next cfg ctx s input u in
      ap
        (λ again.
          on_error out.0.1 (λ e. retry_or_stop host next cfg left ctx out.0.0 e again)
            (pure (out.0.0, none)) out.1)
        (λ i v. attempts_same left ctx s input r q v i)

  -- The resolution of a continue command, and the requirement that it resolves, have no effect
  -- on what a retrying engine does.
  pub execute-ignores_resolution :
      (ctx : Option Context) (s : RunState) (input : EngineInput) (r : Option Resolution)
      (q : Option PendingRequirement) (w : W)
      → execute host next cfg ctx s (record input { resolution = r; resolved_requirement = q }) w
        ≡ execute host next cfg ctx s input w
  unfolding execute
  execute-ignores_resolution none s input r q w = refl
  execute-ignores_resolution (some ctx) s input r q w = elim (Option-cases (ctx_err host ctx w).0) [
    | inr (e, h) ↦ rw h refl
    | inl h ↦ rw h (attempts_same (normalized_attempts cfg.max_attempts) ctx s input r q _)
  ]
