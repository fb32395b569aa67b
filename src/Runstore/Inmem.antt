-- ===== src/Runstore/Inmem.antt =====
-- runstore/inmem/store.go: a run store in memory with optimistic versions. The map is a list of
-- entries in which a run has one entry at most; its mutex makes each operation one step.
pub mod Laws
use agentframe.Base.{
  String, ◌≡◌, Bool, true, false, not, Option, none, some, List, [], ◌∷◌, ◌==◌, if◌then◌else◌,
}
use agentframe.Base.Int.{ℤ, pos, increment, eqbℤ}
use agentframe.Agent.Run.{RunState, clone_run_state, new_run_state}
use agentframe.Agent.Errors.{
  GoError, fails, sentinel, context_nil, run_version_conflict, run_not_found, invalid_run_id,
}
use agentframe.Agent.Validation.{validate_run_state}
use agentframe.Agent.Context.{Context}
use agentframe.Agent.Prog.{Prog, Part, pure, on_error, ◌>>=◌}
use agentframe.Agent.Interfaces.{Host, RunStore, ctx_err}

abbrev pub States : Type 0
States = List (String × RunState)

-- `state, ok := s.states[id]`
unfoldable pub find_state : String → States → Option RunState
find_state id [] = none
find_state id ((k, s) ∷ rest) = if k == id then some s else find_state id rest

-- `s.states[id] = next`
unfoldable pub put_state : String → RunState → States → States
put_state id next [] = (id, next) ∷ []
put_state id next ((k, s) ∷ rest) =
    if k == id then (k, next) ∷ rest else (k, s) ∷ put_state id next rest

-- the `switch` of Save under the lock, on the entry that it finds
save_over : Option RunState → RunState → States → States × Option GoError
save_over none s states =
    if not (eqbℤ s.version (pos 0))
    then (states, fails run_version_conflict "expected version 0 on create")
    else (put_state s.id (record (clone_run_state s) { version = pos 1 }) states, none)
save_over (some current) s states =
    if not (eqbℤ s.version current.version)
    then (states, fails run_version_conflict "expected version")
    else (
      put_state s.id (record (clone_run_state s) { version = increment current.version }) states,
      none,
    )

unfoldable pub save_locked : RunState → States → States × Option GoError
unfolding save_over
save_locked s states = save_over (find_state s.id states) s states

load_found : Option RunState → RunState × Option GoError
load_found none = (new_run_state "", some (sentinel run_not_found))
load_found (some s) = (clone_run_state s, none)

unfoldable pub load_locked : String → States → RunState × Option GoError
unfolding load_found
load_locked id states = load_found (find_state id states)

module _ {W : Type 0} (host : Host W) (states : Part W States) where
  unfoldable pub save_checked : Option GoError → RunState → Prog W (Option GoError)
  save_checked (some e) s w = (some e, w)
  save_checked none s w = let (next, e) = save_locked s (states.get w) in (e, states.put next w)

  unfoldable pub save : Option Context → RunState → Prog W (Option GoError)
  unfolding save_checked
  save none s = pure (some (sentinel context_nil))
  save (some ctx) s = do
    e ← ctx_err host ctx
    on_error e (λ x. pure (some x)) (save_checked (validate_run_state s) s)

  unfoldable pub load : Option Context → String → Prog W (RunState × Option GoError)
  load none id = pure (new_run_state "", some (sentinel context_nil))
  load (some ctx) id = do
    e ← ctx_err host ctx
    on_error e (λ x. pure (new_run_state "", some x))
        (if id == ""
          then pure (new_run_state "", fails invalid_run_id "load with empty id")
          else λ w. (load_locked id (states.get w), w))

  abbrev pub inmem_store : RunStore W
  inmem_store = record { save = save; load = load }
