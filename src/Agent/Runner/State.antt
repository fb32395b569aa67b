-- ===== src/Agent/Runner/State.antt =====
-- agent/runner.go: the runner's own state, that is the locks of runs and the outcomes of commands.
pub mod Locks
pub mod Outcomes
pub mod Sharing
pub mod Counts
pub mod Entering
pub mod Exclusion
use agentframe.Base.{
  ℕ, ◌+◌, ◌-◌, String, Bool, true, false, ◌&&◌, Option, none, some, List, [], ◌∷◌, ◌==◌,
  if◌then◌else◌, nat_eq,
}
use agentframe.Agent.Run.{RunResult, clone_run_state}
use agentframe.Agent.Errors.{GoError}

-- runCommandLock: `held` is the state of its mutex.
pub record CommandLock : Type 0 where
  pub ref_count : ℕ
  pub held : Bool

-- runCommandLocks.entries
abbrev pub CommandLocks : Type 0
CommandLocks = List (String × CommandLock)

unfoldable pub find_lock : String → CommandLocks → Option CommandLock
find_lock id [] = none
find_lock id ((k, l) ∷ rest) = if k == id then some l else find_lock id rest

-- entries[id] = f(entries[id])
change_lock : String → (CommandLock → CommandLock) → CommandLocks → CommandLocks
change_lock id f [] = []
change_lock id f ((k, l) ∷ rest) =
    if k == id then (k, f l) ∷ rest else (k, l) ∷ change_lock id f rest

-- the first half of `lock`, under the table's mutex: the entry is made if there is none, and counted
unfoldable pub register : String → CommandLocks → CommandLocks
register id [] = (id, record { ref_count = 1; held = false }) ∷ []
register id ((k, l) ∷ rest) =
    if k == id
    then (k, record l { ref_count = l.ref_count + 1 }) ∷ rest
    else (k, l) ∷ register id rest

-- entry.mu.Lock(), once it is free
unfoldable pub take_mutex : String → CommandLocks → CommandLocks
unfolding change_lock
take_mutex id = change_lock id (λ l. record l { held = true })

-- entry.mu.Unlock()
unfoldable pub free_mutex : String → CommandLocks → CommandLocks
unfolding change_lock
free_mutex id = change_lock id (λ l. record l { held = false })

-- the second half of the unlock function: the entry goes when nobody refers to it
unfoldable pub unregister : String → CommandLocks → CommandLocks
unregister id [] = []
unregister id ((k, l) ∷ rest) =
    let others = unregister id rest in
    if k == id
    then (if nat_eq l.ref_count 1
        then rest
        else (k, record l { ref_count = l.ref_count - 1 }) ∷ rest)
    else (k, l) ∷ others

-- commandIdempotencyKey; the command kind is always `continue`
pub record OutcomeKey : Type 0 where
  pub run_id : String
  pub command_id : String

-- commandIdempotencyOutcome
pub record Outcome : Type 0 where
  pub result : RunResult
  pub error : Option GoError

abbrev pub Outcomes : Type 0
Outcomes = List (OutcomeKey × Outcome)

unfoldable pub key_eq : OutcomeKey → OutcomeKey → Bool
key_eq a b = a.run_id == b.run_id && a.command_id == b.command_id

-- cloneRunResult
unfoldable pub clone_run_result : RunResult → RunResult
clone_run_result r = record { state = clone_run_state r.state }

find_outcome : OutcomeKey → Outcomes → Option Outcome
unfolding key_eq
find_outcome k [] = none
find_outcome k ((j, o) ∷ rest) = if key_eq j k then some o else find_outcome k rest

copy_outcome : Option Outcome → Option Outcome
unfolding clone_run_result
copy_outcome none = none
copy_outcome (some o) = some (record o { result = clone_run_result o.result })

-- commandIdempotencyStore.load
unfoldable pub load_outcome : OutcomeKey → Outcomes → Option Outcome
unfolding find_outcome copy_outcome
load_outcome k table = copy_outcome (find_outcome k table)

-- commandIdempotencyStore.store
unfoldable pub store_outcome : OutcomeKey → Outcome → Outcomes → Outcomes
unfolding clone_run_result
store_outcome k o table = (k, record o { result = clone_run_result o.result }) ∷ table

-- continueIdempotencyKey; the argument is strings.TrimSpace
unfoldable pub continue_idempotency_key : (String → String) → String → String → Option OutcomeKey
continue_idempotency_key trim_space run_id command_id =
    if run_id == ""
    then none
    else if trim_space command_id == ""
    then none
    else some (record { run_id = run_id; command_id = trim_space command_id })
