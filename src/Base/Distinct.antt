-- ===== src/Base/Distinct.antt =====
-- Membership in a list of strings, and lists without repetition.
use Prim.Native.String.{String}
use mathlib.Core.Path.{◌≡◌, refl, sym}
use mathlib.Core.Logic.{◌≢◌}
use mathlib.Core.Bool.{Bool, false, ◌||◌}
use mathlib.Core.List.{List, [], ◌∷◌}
use native.Mathlib.Omega.{arith}
use text.Mathlib.Text.{◌==◌}
use text.Mathlib.TextEquality.{eq_iff}

unfoldable pub member : String → List String → Bool
member x [] = false
member x (y ∷ ys) = y == x || member x ys

pub data IsAbsent (x : String) : List String → Type 0 where
  nowhere : IsAbsent x []
  elsewhere : {y : String} {ys : List String} → y ≢ x → IsAbsent x ys → IsAbsent x (y ∷ ys)

pub data IsDistinct : List String → Type 0 where
  distinct_nil : IsDistinct []
  distinct_cons :
      {x : String} {xs : List String} → IsAbsent x xs → IsDistinct xs → IsDistinct (x ∷ xs)

-- No string of the second list is in the first.
pub data IsApart (seen : List String) : List String → Type 0 where
  apart_nil : IsApart seen []
  apart_cons :
      {x : String} {xs : List String} → IsAbsent x seen → IsApart seen xs → IsApart seen (x ∷ xs)

pub IsAbsent-of : (x : String) (xs : List String) → member x xs ≡ false → IsAbsent x xs
unfolding member
IsAbsent-of x [] h = nowhere
IsAbsent-of x (y ∷ ys) h =
    elsewhere (λ e. ground (arith, (eq_iff y x).1 e)) (IsAbsent-of x ys (ground arith))

pub member_of : {x : String} {xs : List String} → IsAbsent x xs → member x xs ≡ false
unfolding member
member_of nowhere = refl
member_of {x} (elsewhere {y} ne a) = ground (arith, eq_iff y x, member_of a)

pub from_seen :
    {x : String} {seen xs : List String} → IsApart (x ∷ seen) xs → IsAbsent x xs × IsApart seen xs
from_seen apart_nil = (nowhere, apart_nil)
from_seen (apart_cons (elsewhere ne a) rest) =
    let p = from_seen rest in (elsewhere (λ e. ne (sym e)) p.0, apart_cons a p.1)

pub to_seen :
    {x : String} {seen xs : List String} → IsAbsent x xs → IsApart seen xs → IsApart (x ∷ seen) xs
to_seen nowhere apart_nil = apart_nil
to_seen (elsewhere ne a) (apart_cons b rest) =
    apart_cons (elsewhere (λ e. ne (sym e)) b) (to_seen a rest)

pub IsApart-from_nil : (xs : List String) → IsApart [] xs
IsApart-from_nil [] = apart_nil
IsApart-from_nil (x ∷ xs) = apart_cons nowhere (IsApart-from_nil xs)
