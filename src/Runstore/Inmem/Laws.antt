-- ===== src/Runstore/Inmem/Laws.antt =====
-- The in-memory store keeps what the runner asks of a run store.
use agentframe.Base.{
  String, ◌≡◌, ◌≢◌, refl, sym, ap, ◌∙◌, Bool, true, false, Option, none, some, [], ◌∷◌, ◌==◌,
  if◌then◌else◌, Bool-cases, Option-cases, inl, inr, eq_iff, eq_refl, arith, slice, items,
}
use mathlib.Core.Path.{fun_ext}
use agentframe.Base.Int.{ℤ, pos, negsuc, increment, eqbℤ, eqbℤ→eq, negative}
use agentframe.Agent.Run.{RunState, clone_run_state, new_run_state}
use agentframe.Agent.Message.{clone_messages, clone_messages-id}
use agentframe.Agent.Errors.{GoError, run_version_conflict, reports, is, fails, invalid_run_id}
use agentframe.Agent.Validation.{validate_run_state}
use agentframe.Agent.Context.{Context}
use agentframe.Agent.Prog.{Prog, Part, pure, on_error}
use agentframe.Agent.Interfaces.{Host, ctx_err}
use agentframe.Agent.History.{View, Rely, Rely-refl}
use agentframe.Agent.Runner.Contract.{
  updated, Saved, created, bumped, SaveEffect, rejected, accepted, Loaded,
}
use agentframe.Runstore.Inmem.{
  States, find_state, put_state, save_locked, load_locked, save, load, save_checked,
}

-- The map behind the list of entries.
abbrev pub view_of : States → View
view_of states id = find_state id states

find-put :
    (id : String) (s : RunState) (states : States) (j : String)
    → find_state j (put_state id s states) ≡ (if id == j then some s else find_state j states)
unfolding find_state put_state
find-put id s [] j = refl
find-put id s ((k, t) ∷ rest) j =
    ground (arith, eq_iff k id, eq_iff k j, eq_iff id j, find-put id s rest j)

view-put :
    (id : String) (s : RunState) (states : States)
    → view_of (put_state id s states) ≡ updated id s (view_of states)
view-put id s states = fun_ext (find-put id s states)

-- A save under the lock fails and changes nothing, or stores the next version.
pub data Outcome (s : RunState) (before after : States) (e : Option GoError) : Type 0 where
  conflict :
      e ≢ none → reports run_version_conflict e ≡ true → after ≡ before → Outcome s before after e
  done : e ≡ none → Saved s (view_of before) (view_of after) → Outcome s before after e

save_locked-Outcome :
    (s : RunState) (states : States)
    → Outcome s states (save_locked s states).0 (save_locked s states).1
unfolding save_locked is
save_locked-Outcome s states = elim (Option-cases (find_state s.id states)) [
  | inl absent ↦ elim (Bool-cases (eqbℤ s.version (pos 0))) [
    | inr other ↦ rw (absent, save_locked, other) (conflict (λ e. cc) refl refl)
    | inl zero ↦
        rw (absent, save_locked, zero)
          (done refl (created absent (eqbℤ→eq s.version (pos 0) zero) (view-put s.id _ states)))
  ]
  | inr (current, found) ↦ elim (Bool-cases (eqbℤ s.version current.version)) [
    | inr other ↦ rw (found, save_locked, other) (conflict (λ e. cc) refl refl)
    | inl same ↦
        rw (found, save_locked, same)
          (done refl (
            bumped current found (eqbℤ→eq s.version current.version same) (view-put s.id _ states)))
  ]
]

-- The store as a part of a world whose other parts, and other goroutines, are given by the host.
module _ {W : Type 0} (host : Host W) (states : Part W States)
    (get-put : (x : States) (w : W) → states.get (states.put x w) ≡ x)
    (others : (w : W)
      → Rely (view_of (states.get w)) (view_of (states.get (host.cancellation w).1))) where
  abbrev pub view : W → View
  view w = view_of (states.get w)

  ctx-Rely : (ctx : Context) (w : W) → Rely (view w) (view (ctx_err host ctx w).1)
  unfolding ctx_err
  ctx-Rely ctx w = elim (Bool-cases ctx.live) [
    | inl e ↦ rw e (others w)
    | inr e ↦ rw e (Rely-refl (view w))
  ]

  checked :
      (s : RunState) (v : View) (w : W)
      → Rely v (view w)
      → SaveEffect s v
          (view (save_checked host states (validate_run_state s) s w).1)
          (save_checked host states (validate_run_state s) s w).0
  unfolding save_checked
  checked s v w now = elim (Option-cases (validate_run_state s)) [
    | inr (x, bad) ↦ rw (bad, save_checked) (rejected (λ e. cc) now)
    | inl ok ↦ rw (ok, save_checked, get-put) (locked ok (save_locked-Outcome s (states.get w)))
  ]
    where
      locked :
          validate_run_state s ≡ none
          → {after : States} {e : Option GoError} → Outcome s (states.get w) after e
          → SaveEffect s v (view_of after) e
      locked ok (conflict ne _ same) = rw same (rejected ne now)
      locked ok (done e saved) = accepted (view w) e now ok saved

  -- If the map of the store gives back what is put into it, and calls of the environment change
  -- stored runs only as commands do, then Save of the in-memory store is an optimistic save: it
  -- fails and leaves the runs as the environment left them, or it stores a valid state in its
  -- next version over exactly the version it was read at.
  pub save_effect :
      (ctx : Option Context) (s : RunState) (w : W)
      → SaveEffect s (view w) (view (save host states ctx s w).1) (save host states ctx s w).0
  unfolding save
  save_effect none s w = rejected (λ e. cc) (Rely-refl (view w))
  save_effect (some ctx) s w = elim (Option-cases (ctx_err host ctx w).0) [
    | inr (x, bad) ↦ rw bad (rejected (λ e. cc) (ctx-Rely ctx w))
    | inl ok ↦ rw ok (checked s (view w) _ (ctx-Rely ctx w))
  ]

  pub load-Rely :
      (ctx : Option Context) (id : String) (w : W)
      → Rely (view w) (view (load host states ctx id w).1)
  unfolding load
  load-Rely none id w = Rely-refl (view w)
  load-Rely (some ctx) id w = elim (Option-cases (ctx_err host ctx w).0) [
    | inr (x, bad) ↦ rw bad (ctx-Rely ctx w)
    | inl ok ↦ elim (Bool-cases (id == "")) [
      | inl e ↦ rw (ok, e) (ctx-Rely ctx w)
      | inr e ↦ rw (ok, e) (ctx-Rely ctx w)
    ]
  ]

  found :
      (id : String) (table : States)
      → (load_locked id table).1 ≡ none
      → Loaded (view_of table) id (load_locked id table).0
  unfolding load_locked
  found id table h = elim (Option-cases (find_state id table)) [
    | inl absent ↦ absurd (ground (arith, absent))
    | inr (s, e) ↦ rw (e, load_locked) (record { stored = s; held = e; copied = refl })
  ]

  abbrev load_rest : String → Option GoError → Bool → Prog W (RunState × Option GoError)
  load_rest id e b =
      on_error e (λ x. pure (new_run_state "", some x))
        (if b then pure (new_run_state "", fails invalid_run_id "load with empty id") else λ u.
          (load_locked id (states.get u), u))

  -- If the map of the store gives back what is put into it, and calls of the environment change
  -- stored runs only as commands do, then Load of the in-memory store, when it succeeds, gives
  -- a copy of what the store holds for the ID.
  pub load_effect :
      (ctx : Option Context) (id : String) (w : W)
      → (load host states ctx id w).0.1 ≡ none
      → Loaded (view (load host states ctx id w).1) id (load host states ctx id w).0.0
  unfolding load
  load_effect none id w h = cc
  load_effect (some ctx) id w h = go (ctx_err host ctx w).0 (id == "") (ctx_err host ctx w).1 h
    where
      go :
          (e : Option GoError) (b : Bool) (u : W)
          → (load_rest id e b u).0.1 ≡ none
          → Loaded (view (load_rest id e b u).1) id (load_rest id e b u).0.0
      go (some x) b u h = cc
      go none true u h = cc
      go none false u h = found id _ h

-- What a save that succeeds puts into the map.
abbrev saved_state : RunState → RunState
saved_state s = record (clone_run_state s) { version = increment s.version }

save_locked-puts :
    (s : RunState) (table : States)
    → (save_locked s table).1 ≡ none
    → (save_locked s table).0 ≡ put_state s.id (saved_state s) table
unfolding save_locked increment
save_locked-puts s table = elim (Option-cases (find_state s.id table)) [
  | inl absent ↦ elim (Bool-cases (eqbℤ s.version (pos 0))) [
    | inr other ↦ rw (absent, save_locked, other) (λ h. cc)
    | inl zero ↦
        rw (absent, save_locked, zero)
          (λ _.
            ap (λ v. put_state s.id (record (clone_run_state s) { version = v }) table)
              (sym (ap increment (eqbℤ→eq s.version (pos 0) zero))))
  ]
  | inr (current, found) ↦ elim (Bool-cases (eqbℤ s.version current.version)) [
    | inr other ↦ rw (found, save_locked, other) (λ h. cc)
    | inl same ↦
        rw (found, save_locked, same)
          (λ _.
            ap (λ v. put_state s.id (record (clone_run_state s) { version = increment v }) table)
              (sym (eqbℤ→eq s.version current.version same)))
  ]
]

load_locked-held :
    (id : String) (table : States) (s : RunState)
    → find_state id table ≡ some s
    → load_locked id table ≡ (clone_run_state s, none)
unfolding load_locked
load_locked-held id table s e = rw (e, load_locked)

stale :
    (s : RunState) (table : States) (current : RunState)
    → find_state s.id table ≡ some current
    → eqbℤ s.version current.version ≡ false
    → (reports run_version_conflict (save_locked s table).1 ≡ true)
      × ((save_locked s table).0 ≡ table)
unfolding save_locked is
stale s table current e ne = rw (e, save_locked, ne) (refl, refl)

eqbℤ-increment : (a : ℤ) → negative a ≡ false → eqbℤ a (increment a) ≡ false
unfolding increment
eqbℤ-increment (pos n) h = ground arith
eqbℤ-increment (negsuc n) h = cc

clone-twice : (s : RunState) → clone_run_state (saved_state s) ≡ saved_state s
unfolding clone_run_state
clone-twice s = λ i. record (saved_state s) {
  messages = slice (clone_messages-id (clone_messages (items s.messages)) i);
}

-- If a state whose version is not negative is saved without an error, it is loaded back in its
-- next version, and saving the old state again is a version conflict that changes nothing.
pub save-load :
    (s : RunState) (table : States)
    → negative s.version ≡ false
    → (save_locked s table).1 ≡ none
    → let after = (save_locked s table).0 in
      (load_locked s.id after ≡ (saved_state s, none))
      × (reports run_version_conflict (save_locked s after).1 ≡ true)
      × ((save_locked s after).0 ≡ after)
save-load s table ok h = rw (save_locked-puts s table h) (loaded, again.0, again.1)
  where
    after : States
    after = put_state s.id (saved_state s) table

    held : find_state s.id after ≡ some (saved_state s)
    held =
        find-put s.id (saved_state s) table s.id
        ∙ ap (λ b. if b then some (saved_state s) else find_state s.id table) (eq_refl s.id)

    loaded : load_locked s.id after ≡ (saved_state s, none)
    loaded = load_locked-held s.id after (saved_state s) held ∙ ap (λ t. (t, none)) (clone-twice s)

    again :
        (reports run_version_conflict (save_locked s after).1 ≡ true)
        × ((save_locked s after).0 ≡ after)
    again = stale s after (saved_state s) held (eqbℤ-increment s.version ok)
