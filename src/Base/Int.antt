-- ===== src/Base/Int.antt =====
-- Go's int and int64 as integers; `negsuc n` is -(n + 1), and the increment wraps at 2^63.
use Prim.Native.Nat.{ℕ, zero, suc, ◌+◌, ◌-◌, ◌^◌, ◌<◌}
use mathlib.Core.Path.{◌≡◌, refl}
use mathlib.Core.Bool.{Bool, true, false}
use native.Mathlib.Omega.{arith}
use agentframe.Base.Tests.{ltb, nat_eq, if◌then◌else◌}

pub data ℤ : Type 0 where
  pos : ℕ → ℤ
  negsuc : ℕ → ℤ

abbrev pub max_int64 : ℕ
max_int64 = 2 ^ 63 - 1

-- a < b
abbrev pub ltbℤ : ℤ → ℤ → Bool
ltbℤ (pos a) (pos b) = ltb a b
ltbℤ (pos a) (negsuc b) = false
ltbℤ (negsuc a) (pos b) = true
ltbℤ (negsuc a) (negsuc b) = ltb b a

abbrev pub eqbℤ : ℤ → ℤ → Bool
eqbℤ (pos a) (pos b) = nat_eq a b
eqbℤ (negsuc a) (negsuc b) = nat_eq a b
eqbℤ _ _ = false

-- a <= 0
abbrev pub nonpositive : ℤ → Bool
nonpositive (pos n) = nat_eq n 0
nonpositive (negsuc n) = true

-- a < 0
abbrev pub negative : ℤ → Bool
negative (pos n) = false
negative (negsuc n) = true

-- x++ on a 64-bit integer
unfoldable pub increment : ℤ → ℤ
increment (pos n) = if nat_eq n max_int64 then negsuc max_int64 else pos (n + 1)
increment (negsuc zero) = pos 0
increment (negsuc (suc n)) = negsuc n

-- x - 1 on a 64-bit integer
unfoldable pub decrement : ℤ → ℤ
decrement (pos zero) = negsuc 0
decrement (pos (suc n)) = pos n
decrement (negsuc n) = if nat_eq n max_int64 then pos max_int64 else negsuc (n + 1)

pub eqbℤ→eq : (a b : ℤ) → eqbℤ a b ≡ true → a ≡ b
eqbℤ→eq (pos a) (pos b) h = ground arith
eqbℤ→eq (pos a) (negsuc b) h = ground arith
eqbℤ→eq (negsuc a) (pos b) h = ground arith
eqbℤ→eq (negsuc a) (negsuc b) h = ground arith

pub eqbℤ_refl : (a : ℤ) → eqbℤ a a ≡ true
eqbℤ_refl (pos a) = ground arith
eqbℤ_refl (negsuc a) = ground arith

pub increment-pos : (n : ℕ) → n < max_int64 → increment (pos n) ≡ pos (n + 1)
unfolding increment
increment-pos n h = ground (arith, h)

-- Not negative, and at most so many steps of `increment` away from 0.
abbrev pub rank : ℤ → ℕ
rank (pos n) = n
rank (negsuc n) = suc n

pub rank-increment : (a : ℤ) → negative a ≡ false → rank (increment a) ≡ rank a + 1
unfolding increment
rank-increment (pos n) h = ground arith
rank-increment (negsuc n) h = ground arith

abbrev pub ◌≤ℤ◌ : ℤ → ℤ → Type 0
a ≤ℤ b = ltbℤ b a ≡ false

infix 50 ◌≤ℤ◌
pub ≤ℤ_refl : (a : ℤ) → a ≤ℤ a
≤ℤ_refl (pos a) = ground arith
≤ℤ_refl (negsuc a) = ground arith

pub ≤ℤ_trans : (a b c : ℤ) → a ≤ℤ b → b ≤ℤ c → a ≤ℤ c
≤ℤ_trans (pos a) (pos b) (pos c) h k = ground arith
≤ℤ_trans (negsuc a) (negsuc b) (negsuc c) h k = ground arith
≤ℤ_trans (negsuc a) _ (pos c) h k = refl
≤ℤ_trans (negsuc a) (pos b) (negsuc c) h k = ground arith
≤ℤ_trans (pos a) (negsuc b) c h k = ground arith
≤ℤ_trans (pos a) (pos b) (negsuc c) h k = ground arith
