-- ===== src/Agent/Runner/State/Outcomes.antt =====
-- agent/runner.go: the table of outcomes gives back what was put into it.
use agentframe.Base.{
  eq_iff, arith, ◌≡◌, refl, ap, ◌∙◌, Bool, true, false, Option, none, some, sym, eq_refl, slice,
  items, if◌then◌else◌,
}
use mathlib.Core.Option.{some-injective}
use agentframe.Agent.Message.{clone_messages, clone_messages-id}
use agentframe.Agent.Run.{RunState, clone_run_state}
use agentframe.Agent.Runner.State.{
  OutcomeKey, Outcome, Outcomes, key_eq, load_outcome, store_outcome, clone_run_result,
  find_outcome, copy_outcome,
}

key_eq_refl : (k : OutcomeKey) → key_eq k k ≡ true
unfolding key_eq
key_eq_refl k = rw (eq_refl k.run_id, eq_refl k.command_id) refl

pub key_eq-eq : (j k : OutcomeKey) → key_eq j k ≡ true → j ≡ k
unfolding key_eq
key_eq-eq j k h =
    let p : j.run_id ≡ k.run_id = ground (arith, eq_iff j.run_id k.run_id) in
    let q : j.command_id ≡ k.command_id = ground (arith, eq_iff j.command_id k.command_id) in
    λ i. record { run_id = p i; command_id = q i }

clone_run_state-twice : (s : RunState) → clone_run_state (clone_run_state s) ≡ clone_run_state s
unfolding clone_run_state
clone_run_state-twice s =
    λ i. record s { messages = slice (clone_messages-id (clone_messages (items s.messages)) i) }

-- What was stored under a key is read back as a copy.
pub load-store :
    (k : OutcomeKey) (o : Outcome) (t : Outcomes)
    → load_outcome k (store_outcome k o t) ≡ some (record o { result = clone_run_result o.result })
unfolding load_outcome store_outcome clone_run_result
load-store k o t =
    ap copy_outcome (found (key_eq k k) (key_eq_refl k))
    ∙ ap (λ s. some (record o { result = record { state = s } }))
        (clone_run_state-twice o.result.state)
  where
    kept : Outcome
    kept = record o { result = clone_run_result o.result }

    found : (b : Bool) → b ≡ true → (if b then some kept else find_outcome k t) ≡ some kept
    found b e = rw e refl

-- What is stored under one key leaves what is stored under another.
pub load-store_other :
    (j k : OutcomeKey) (o : Outcome) (t : Outcomes)
    → key_eq j k ≡ false
    → load_outcome k (store_outcome j o t) ≡ load_outcome k t
unfolding load_outcome store_outcome
load-store_other j k o t other = ap copy_outcome (skipped (key_eq j k) other)
  where
    skipped :
        (b : Bool)
        → b ≡ false
        → (if b then some (record o { result = clone_run_result o.result }) else find_outcome k t)
          ≡ find_outcome k t
    skipped b e = rw e refl

-- What is read back is a copy already.
pub load-copied :
    (k : OutcomeKey) (t : Outcomes) (o : Outcome)
    → load_outcome k t ≡ some o
    → clone_run_result o.result ≡ o.result
unfolding load_outcome copy_outcome clone_run_result
load-copied k t o h = copied (find_outcome k t) h
  where
    copied : (f : Option Outcome) → copy_outcome f ≡ some o → clone_run_result o.result ≡ o.result
    copied none e = cc
    copied (some x) e =
        let same : record x { result = clone_run_result x.result } ≡ o = some-injective _ _ e in
        ap (λ (y : Outcome). clone_run_result y.result) (sym same)
        ∙ (ap (λ s. record { state = s }) (clone_run_state-twice x.result.state)
            ∙ ap (λ (y : Outcome). y.result) same)
