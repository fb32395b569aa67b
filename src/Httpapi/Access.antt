-- ===== src/Httpapi/Access.antt =====
-- The policies of the HTTP server: who may change a run, and how many steps a request may ask for.
use agentframe.Base.{
  ℕ, zero, suc, String, ◌≡◌, refl, sym, ap, ◌∙◌, subst, Bool, true, false, Option, none, some, ◌==◌,
  Bool-cases, inl, inr, arith,
}
use agentframe.Base.Int.{ℤ, pos, negsuc, nonpositive, ltbℤ, ◌≤ℤ◌}
use agentframe.Agent.Errors.{GoError, wrap, sentinel, unauthorized, is}
use agentframe.Agentreact.Loop.{budget}
use agentframe.Httpapi.Policies.{
  Request, allowed_steps, default_max_command_steps, normalize_command_max_steps, auth_middleware,
}
use agentframe.Httpapi.Responses.{error_body, write_mapped_error, write_error, map_runtime_error}
use agentframe.Httpapi.Commands.{Handlers, validate_max_steps, judge_steps}
use agentframe.Httpapi.Events.{Stream}
use agentframe.Httpapi.{
  Route, post_start, post_continue, post_cancel, post_steer, post_follow_up, get_run, get_events,
  serve, apply_mutating_policies, chain, reject, Handler,
}

budget_positive : (m : ℤ) → nonpositive m ≡ false → pos (budget m) ≡ m
unfolding budget
budget_positive (pos zero) h = ground (arith, h)
budget_positive (pos (suc k)) h = refl
budget_positive (negsuc k) h = ground (arith, h)

-- If the max_steps of a request is accepted, then the step budget that the loop of agentreact
-- makes of it, also if it was left out, is at most the maximum that the policy allows.
pub validate_max_steps-bounded :
    (error_text : GoError → String) (input : Option ℤ) (max n : ℤ)
    → validate_max_steps error_text input max ≡ (n, none)
    → pos (budget n) ≤ℤ allowed_steps max
unfolding validate_max_steps judge_steps normalize_command_max_steps is budget
validate_max_steps-bounded error_text none max n ok =
    elim (Bool-cases (ltbℤ (allowed_steps max) default_max_command_steps)) [
      | inl low ↦ absurd (ground (arith, low, ok))
      | inr high ↦
          let p : validate_max_steps error_text none max ≡ (pos 0, none) = rw high refl in
          subst (λ m. pos (budget m) ≤ℤ allowed_steps max) (ap (λ x. x.0) (sym p ∙ ok)) high
    ]
validate_max_steps-bounded error_text (some m) max n ok = elim (Bool-cases (nonpositive m)) [
  | inl low ↦ absurd (ground (arith, low, ok))
  | inr positive ↦ elim (Bool-cases (ltbℤ (allowed_steps max) m)) [
    | inl over ↦ absurd (ground (arith, positive, over, ok))
    | inr within ↦
        let p : validate_max_steps error_text (some m) max ≡ (m, none) =
          rw (positive, within) refl in
        subst (λ k. pos (budget k) ≤ℤ allowed_steps max) (ap (λ x. x.0) (sym p ∙ ok))
          (subst (λ k. k ≤ℤ allowed_steps max) (sym (budget_positive m positive)) within)
  ]
]

-- The routes that change runs.
abbrev pub changes_runs : Route → Bool
changes_runs get_run = false
changes_runs get_events = false
changes_runs _ = true

module _ {W : Type 0} (bearer : String → String) (h : Handlers W) (stream : Stream W) where
  open h.host use {trim_space, error_text}

  abbrev pub unauthorized_error : GoError
  unauthorized_error = wrap (sentinel unauthorized) "missing or invalid bearer token"

  rejected :
      (next : Handler W) (r : Request) (w : W)
      → (trim_space h.policy.auth_token == "") ≡ false
      → (trim_space r.authorization == bearer (trim_space h.policy.auth_token)) ≡ false
      → apply_mutating_policies bearer h stream next r w ≡ (
        error_body 401 (record { code = "unauthorized"; message = error_text unauthorized_error }),
        w,
      )
  unfolding apply_mutating_policies chain auth_middleware write_mapped_error write_error
      map_runtime_error is reject
  rejected next r w set other = rw (set, other) refl

  -- If the policy's token is not blank, a request to a route that changes runs whose
  -- authorization is not the bearer token is answered by status 401, and nothing else happens.
  pub serve-unauthorized :
      (n : ℕ) (route : Route) (r : Request) (w : W)
      → changes_runs route ≡ true
      → (trim_space h.policy.auth_token == "") ≡ false
      → (trim_space r.authorization == bearer (trim_space h.policy.auth_token)) ≡ false
      → serve bearer h stream n route r w ≡ (
        error_body 401 (record { code = "unauthorized"; message = error_text unauthorized_error }),
        w,
      )
  unfolding serve
  serve-unauthorized n post_start r w c = rejected _ r w
  serve-unauthorized n post_continue r w c = rejected _ r w
  serve-unauthorized n post_cancel r w c = rejected _ r w
  serve-unauthorized n post_steer r w c = rejected _ r w
  serve-unauthorized n post_follow_up r w c = rejected _ r w
  serve-unauthorized n get_run r w c = absurd (ground (arith, c))
  serve-unauthorized n get_events r w c = absurd (ground (arith, c))
