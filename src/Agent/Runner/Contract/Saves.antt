-- ===== src/Agent/Runner/Contract/Saves.antt =====
-- What a save does to the history of a store.
use agentframe.Base.{
  ◌<◌, String, ◌≡◌, ◌≢◌, refl, sym, ap, ◌∙◌, subst, false, inl, inr, Option, none, some, ◌==◌,
  Bool-cases, eq_iff, eq_refl, arith, items,
}
use mathlib.Core.Option.{some-injective}
use agentframe.Base.Int.{ℤ, pos, increment, rank, rank-increment, negative, ◌≤ℤ◌}
use agentframe.Agent.Run.{RunState, clone_run_state}
use agentframe.Agent.Message.{clone_messages-id}
use agentframe.Agent.Errors.{GoError}
use agentframe.Agent.Lifecycle.{is_terminal_run_status}
use agentframe.Agent.Validation.{validate_run_state}
use agentframe.Agent.Runner.Contract.{
  updated, Saved, created, bumped, SaveEffect, rejected, accepted,
}
use agentframe.Agent.History.{
  View, Rely, Rely-trans, Evolves, IsFiled, Reach, next, StoreStep, create, advance, Advance,
  Continues, Since, unchanged, newer, Since-Reach,
}

-- The state that a handler is about to save, against the store that it loaded from.
pub record Holds (v : View) (s : RunState) : Type 0 where
  pub current : RunState
  pub held : v s.id ≡ some current
  pub own_id : current.id ≡ s.id
  pub same_version : s.version ≡ current.version
  pub not_terminal : is_terminal_run_status current.status ≡ false
  pub step_grows : current.step ≤ℤ s.step
  pub transcript : Continues (items current.messages) (items s.messages)

pub valid_version : (s : RunState) → validate_run_state s ≡ none → negative s.version ≡ false
unfolding validate_run_state
valid_version s h = ground arith

-- Putting one state into a well-formed store, after a step of its run.
module _ {v m : View} (x : Evolves v m) (t : RunState) (positive : 0 < rank t.version) where
  updated-IsFiled : IsFiled (updated t.id t m)
  updated-IsFiled = record { own_id = own; counted = count }
    where
      own : (id : String) (s : RunState) → updated t.id t m id ≡ some s → s.id ≡ id
      own id s e = ground (arith, eq_iff t.id id, x.filed.own_id id s)

      count : (id : String) (s : RunState) → updated t.id t m id ≡ some s → 0 < rank s.version
      count id s e = elim (Bool-cases (t.id == id)) [
        | inl same ↦
            subst (λ (u : RunState). 0 < rank u.version) (some-injective _ _ (rw same at e))
              positive
        | inr other ↦ x.filed.counted id s (rw other at e)
      ]

  pub Evolves-updated : StoreStep (m t.id) (some t) → Evolves v (updated t.id t m)
  Evolves-updated st = record { filed = updated-IsFiled; reach = reached }
    where
      reached : (id : String) → Reach (v id) (updated t.id t m id)
      reached id = elim (Bool-cases (t.id == id)) [
        | inl same ↦
            rw same (
              next (x.reach id)
                (subst (λ j. StoreStep (m j) (some t)) ((eq_iff t.id id).0 same) st))
        | inr other ↦ rw other (x.reach id)
      ]

-- The state that a save stores.
abbrev pub stored_as : RunState → ℤ → RunState
stored_as s n = record (clone_run_state s) { version = n }

module _ {v m : View} (x : Evolves v m) (s : RunState) where
  Evolves-created : m s.id ≡ none → Evolves v (updated s.id (stored_as s (pos 1)) m)
  unfolding clone_run_state
  Evolves-created absent =
      Evolves-updated x (stored_as s (pos 1)) (omega arith)
        (subst (λ o. StoreStep o (some (stored_as s (pos 1)))) (sym absent) (create refl))

  -- The current state is the one that was loaded, since its version is.
  same_current :
      (h : Holds v s) (c : RunState) → m s.id ≡ some c → s.version ≡ c.version → c ≡ h.current
  same_current h c e vs =
      go
        (subst (λ o. Since h.current o) e
          (Since-Reach (subst (λ o. Reach o (m s.id)) h.held (x.reach s.id))))
        refl
    where
      go : {o : Option RunState} → Since h.current o → o ≡ some c → c ≡ h.current
      go unchanged p = sym (some-injective _ _ p)
      go (newer lt) p = absurd (
          omega (
            arith,
            ap (λ (u : RunState). rank u.version) (some-injective _ _ p),
            ap rank vs,
            ap rank h.same_version,
          ))

  Evolves-bumped :
      (h : Holds v s) (c : RunState)
      → validate_run_state s ≡ none
      → m s.id ≡ some c
      → s.version ≡ c.version
      → Evolves v (updated s.id (stored_as s (increment c.version)) m)
  unfolding clone_run_state
  Evolves-bumped h c ok e vs =
      Evolves-updated x (stored_as s (increment c.version)) positive (
        subst (λ o. StoreStep o (some (stored_as s (increment c.version)))) (sym e) (advance moved))
    where
      counts : negative c.version ≡ false
      counts = ap negative (sym vs) ∙ valid_version s ok

      positive : 0 < rank (increment c.version)
      positive = omega (arith, rank-increment c.version counts)

      now : c ≡ h.current
      now = same_current h c e vs

      moved : Advance c (stored_as s (increment c.version))
      moved = record {
        same_run = sym (x.filed.own_id s.id c e);
        next_version = refl;
        version_counts = counts;
        not_terminal = rw now h.not_terminal;
        step_grows = rw now h.step_grows;
        transcript = rw (clone_messages-id (items s.messages), now) h.transcript;
      }

  Saved-Evolves : {w : View} → Holds v s → validate_run_state s ≡ none → Saved s m w → Evolves v w
  Saved-Evolves h ok (created absent zero e) = absurd (
      lost (
        subst (λ o. Since h.current o) absent
          (Since-Reach (subst (λ o. Reach o (m s.id)) h.held (x.reach s.id)))))
    where
      lost : Since h.current none → ⊥
      lost i = elim i [ ]
  Saved-Evolves h ok (bumped c e vs q) = rw q (Evolves-bumped h c ok e vs)

-- Whatever a save of a held state does, the store evolves.
pub save_keeps :
    {v now w : View} {e : Option GoError} (s : RunState)
    → (IsFiled v → Holds v s)
    → Rely v now
    → SaveEffect s now w e
    → Rely v w
save_keeps s h a (rejected _ b) f = Rely-trans a b f
save_keeps s h a (accepted m _ b ok saved) f = Saved-Evolves (Rely-trans a b f) s (h f) ok saved

-- The first save of a run either fails, or stores the run with version 1.
pub data FirstSave (s : RunState) (v w : View) (e : Option GoError) : Type 0 where
  failed : e ≢ none → Rely v w → FirstSave s v w e
  stored :
      e ≡ none → Rely v w → (IsFiled v → w s.id ≡ some (stored_as s (pos 1))) → FirstSave s v w e

pub first_save :
    {v w : View} {e : Option GoError} (s : RunState)
    → s.version ≡ pos 0
    → SaveEffect s v w e
    → FirstSave s v w e
first_save s zero (rejected ne b) = failed ne b
first_save {v} {w} s zero (accepted m e b ok saved) = stored e (λ f. (fresh f).0) (λ f. (fresh f).1)
  where
    fresh : IsFiled v → Evolves v w × (w s.id ≡ some (stored_as s (pos 1)))
    fresh f = go saved
      where
        go : Saved s m w → Evolves v w × (w s.id ≡ some (stored_as s (pos 1)))
        go (created absent _ q) = rw q (Evolves-created (b f) s absent, rw eq_refl)
        go (bumped c h vs q) =
            absurd (omega (arith, (b f).filed.counted s.id c h, ap rank vs, ap rank zero))
