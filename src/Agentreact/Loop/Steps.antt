-- ===== src/Agentreact/Loop/Steps.antt =====
-- agentreact/react_loop.go: counting the rounds that a step budget leaves.
use agentframe.Base.{ℕ, zero, suc, ◌+◌, ◌≤◌, ◌≡◌, refl, true, false, arith}
use agentframe.Base.Int.{ℤ, pos, negsuc, ltbℤ, increment, max_int64, ◌≤ℤ◌}
use agentframe.Agentreact.Loop.{steps_left}

pub none_left : (a : ℤ) (n : ℕ) → steps_left a n ≤ 0 → ltbℤ a (pos n) ≡ false
unfolding steps_left
none_left (pos k) n h = ground arith
none_left (negsuc k) n h = absurd (omega (arith, h))

-- Below a budget that fits into 64 bits, a step up uses one round.
pub one_used :
    (a : ℤ) (n : ℕ)
    → n ≤ max_int64
    → ltbℤ a (pos n) ≡ true
    → steps_left (increment a) n + 1 ≡ steps_left a n
unfolding steps_left increment
one_used (pos k) n fits h = ground arith
one_used (negsuc zero) n fits h = ground arith
one_used (negsuc (suc k)) n fits h = ground arith

pub step_up : (a : ℤ) (n : ℕ) → n ≤ max_int64 → ltbℤ a (pos n) ≡ true → a ≤ℤ increment a
unfolding increment
step_up (pos k) n fits h = ground arith
step_up (negsuc zero) n fits h = refl
step_up (negsuc (suc k)) n fits h = ground arith

pub within : (a : ℤ) (n : ℕ) → n ≤ max_int64 → ltbℤ a (pos n) ≡ true → increment a ≤ℤ pos n
unfolding increment
within (pos k) n fits h = ground arith
within (negsuc zero) n fits h = ground arith
within (negsuc (suc k)) n fits h = refl
