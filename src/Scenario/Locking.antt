-- ===== src/Scenario/Locking.antt =====
-- Two goroutines at the lock of one run.
use agentframe.Base.{Bool, ◌≤◌, refl, List, [], ◌∷◌}
use agentframe.Agent.Runner.State.Sharing.{
  LockTable, Goroutine, idle, on, waiting, inside, new_lock_table, register_entry, set_held, Runs,
  starts, goes, idle_nil, idle_cons, registers, takes, find_or_make, count_up,
}
use agentframe.Agent.Runner.State.Counts.{holders, Good}
use agentframe.Agent.Runner.State.Exclusion.{Runs-guarded}

abbrev one_waits : LockTable
one_waits = (register_entry "run-1" new_lock_table).1

abbrev two_wait : LockTable
two_wait = (register_entry "run-1" one_waits).1

abbrev one_inside : LockTable
one_inside = set_held Bool.true 0 two_wait

abbrev both : List Goroutine
both = on inside "run-1" 0 ∷ on waiting "run-1" 0 ∷ []

locking : Runs one_inside both
unfolding register_entry find_or_make count_up
locking =
    goes
      (goes (goes (starts (idle_cons (idle_cons idle_nil))) (registers [] (idle ∷ []) "run-1"))
        (registers (on waiting "run-1" 0 ∷ []) [] "run-1"))
      (takes [] (on waiting "run-1" 0 ∷ []) "run-1" 0 refl)

Runs-guarded_example : (holders "run-1" both ≤ 1) × Good one_inside both "run-1"
Runs-guarded_example = Runs-guarded one_inside both "run-1" locking
