-- ===== src/Base/Slices.antt =====
-- Lists over the native numbers, and Go's slices, in which the nil slice is not the empty one.
use Prim.Native.Nat.{ℕ, zero, suc, ◌+◌, ◌-◌, ◌≤◌}
use mathlib.Core.Path.{◌≡◌, refl, ◌∙◌}
use mathlib.Core.List.{List, [], ◌∷◌, ◌++◌}
use mathlib.Core.Bool.{Bool, true, false}
use native.Mathlib.Omega.{arith}

module _ {ℓ} {A : Type ℓ} where
  abbrev pub length : List A → ℕ
  length [] = 0
  length (x ∷ xs) = suc (length xs)

  abbrev pub take : ℕ → List A → List A
  take zero xs = []
  take (suc n) [] = []
  take (suc n) (x ∷ xs) = x ∷ take n xs

  abbrev pub drop : ℕ → List A → List A
  drop zero xs = xs
  drop (suc n) [] = []
  drop (suc n) (x ∷ xs) = drop n xs

  abbrev pub is_empty : List A → Bool
  is_empty [] = true
  is_empty (x ∷ xs) = false

  pub is_empty-append : (xs : List A) (x : A) → is_empty (xs ++ x ∷ []) ≡ false
  is_empty-append [] x = refl
  is_empty-append (y ∷ xs) x = refl

  pub length-append : (xs ys : List A) → length (xs ++ ys) ≡ length xs + length ys
  length-append [] ys = omega arith
  length-append (x ∷ xs) ys = omega (arith, length-append xs ys)

  pub take-append : (xs ys : List A) → take (length xs) (xs ++ ys) ≡ xs
  take-append [] ys = refl
  take-append (x ∷ xs) ys = λ i. x ∷ take-append xs ys i

  pub drop-append : (xs ys : List A) → drop (length xs) (xs ++ ys) ≡ ys
  drop-append [] ys = refl
  drop-append (x ∷ xs) ys = drop-append xs ys

  pub take-drop : (n : ℕ) (xs : List A) → take n xs ++ drop n xs ≡ xs
  take-drop zero xs = refl
  take-drop (suc n) [] = refl
  take-drop (suc n) (x ∷ xs) = λ i. x ∷ take-drop n xs i

  pub drop-append_within :
      (n : ℕ) (xs ys : List A) → n ≤ length xs → drop n (xs ++ ys) ≡ drop n xs ++ ys
  drop-append_within zero xs ys h = refl
  drop-append_within (suc n) [] ys h = ground (arith, h)
  drop-append_within (suc n) (x ∷ xs) ys h = drop-append_within n xs ys (omega (arith, h))

  pub drop_eq : (xs : List A) (m n : ℕ) → m ≡ n → drop m xs ≡ drop n xs
  drop_eq xs m n p i = drop (p i) xs

  pub drop_nil : (n : ℕ) → drop n [] ≡ []
  drop_nil zero = refl
  drop_nil (suc n) = refl

  pub drop-drop : (m n : ℕ) (xs : List A) → drop m (drop n xs) ≡ drop (n + m) xs
  drop-drop m zero xs = drop_eq xs m (0 + m) (omega arith)
  drop-drop zero (suc n) [] = drop_eq [] (suc n) (suc n + 0) (omega arith)
  drop-drop (suc m) (suc n) [] = drop_eq [] (suc (n + suc m)) (suc n + suc m) (omega arith)
  drop-drop m (suc n) (x ∷ xs) =
      drop-drop m n xs ∙ drop_eq (x ∷ xs) (suc (n + m)) (suc n + m) (omega arith)

  pub length-drop : (n : ℕ) (xs : List A) → length (drop n xs) ≡ length xs - n
  length-drop zero xs = omega arith
  length-drop (suc n) [] = omega arith
  length-drop (suc n) (x ∷ xs) = omega (arith, length-drop n xs)

-- A Go slice seen as a value.
pub data Slice {ℓ} (A : Type ℓ) : Type ℓ where
  nil_slice : Slice A
  slice : List A → Slice A

module _ {ℓ} {A : Type ℓ} where
  abbrev pub items : Slice A → List A
  items nil_slice = []
  items (slice xs) = xs

  -- `append(s, a)`
  abbrev pub append : Slice A → A → Slice A
  append s a = slice (items s ++ a ∷ [])

  -- `s[:n]`: slicing a nil slice gives a nil slice.
  abbrev pub slice_to : ℕ → Slice A → Slice A
  slice_to n nil_slice = nil_slice
  slice_to n (slice xs) = slice (take n xs)
