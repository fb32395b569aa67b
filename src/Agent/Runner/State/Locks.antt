-- ===== src/Agent/Runner/State/Locks.antt =====
-- agent/runner.go: the lock table when a run is locked and unlocked again.
use agentframe.Base.{
  ℕ, ◌+◌, ◌-◌, ◌<◌, String, ◌≡◌, refl, sym, ap, Bool, true, false, [], ◌∷◌, ◌==◌, nat_eq, arith,
  Bool-cases, ◌⊎◌, inl, inr, eq_refl,
}
use agentframe.Agent.Runner.State.{
  CommandLock, CommandLocks, change_lock, register, take_mutex, free_mutex, unregister,
}

-- Every entry is referred to by somebody, and the mutex of the run is free.
pub data IsFree (id : String) : CommandLocks → Type 0 where
  empty : IsFree id []
  entry :
      {k : String} {l : CommandLock} {rest : CommandLocks}
      → 0 < l.ref_count
      → ((k == id) ≡ false) ⊎ (l.held ≡ false)
      → IsFree id rest
      → IsFree id ((k, l) ∷ rest)

counted_twice : (n : ℕ) → 0 < n → nat_eq (n + 1) 1 ≡ false
counted_twice n h = ground arith

back_again : (n : ℕ) → n + 1 - 1 ≡ n
back_again n = omega arith

-- A free lock that was counted twice, held, freed and counted down.
restored :
    (l : CommandLock)
    → l.held ≡ false
    → record { ref_count = l.ref_count + 1 - 1; held = false } ≡ l
restored l h = λ i. record { ref_count = back_again l.ref_count i; held = sym h i }

free_of : {b : Bool} {A : Type 0} → b ≡ true → (b ≡ false) ⊎ A → A
free_of e (inl f) = cc
free_of e (inr a) = a

-- In a lock table whose entries are all referred to and in which the mutex of the run is free,
-- locking the run and unlocking it again leaves the table as it was.
pub unregister-register :
    (id : String) (t : CommandLocks)
    → IsFree id t
    → unregister id (free_mutex id (take_mutex id (register id t))) ≡ t
unfolding unregister free_mutex take_mutex register change_lock
unregister-register id [] empty =
    rw (eq_refl id, change_lock, eq_refl id, unregister, eq_refl id) refl
unregister-register id ((k, l) ∷ rest) (entry n h f) = elim (Bool-cases (k == id)) [
  | inl e ↦
      rw (e, change_lock, e, change_lock, e, unregister, e, counted_twice l.ref_count n)
        (ap (λ m. (k, m) ∷ rest) (restored l (free_of e h)))
  | inr e ↦
      rw (e, change_lock, e, change_lock, e, unregister, e)
        (ap (λ r. (k, l) ∷ r) (unregister-register id rest f))
]
