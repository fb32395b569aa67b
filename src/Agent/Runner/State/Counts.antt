-- ===== src/Agent/Runner/State/Counts.antt =====
-- agent/runner.go: how many goroutines are at the lock of a run, and how many hold it.
use agentframe.Base.{
  ℕ, ◌+◌, ◌≤◌, ◌<◌, String, ◌≡◌, refl, sym, ap, ◌∙◌, subst, Bool, true, false, not, none, some,
  List, [], ◌∷◌, ◌++◌, ◌==◌, if◌then◌else◌, nat_eq, arith, Bool-cases, inl, inr, eq_refl,
}
use agentframe.Agent.Runner.State.Sharing.{
  LockTable, Goroutine, idle, on, Stage, waiting, inside, leaving,
}

abbrev pub bit : Bool → ℕ
bit true = 1
bit false = 0

pub bit_small : (b : Bool) → bit b ≤ 1
bit_small true = omega arith
bit_small false = omega arith

abbrev pub is_inside : Stage → Bool
is_inside waiting = false
is_inside inside = true
is_inside leaving = false

-- whether a goroutine is at the lock of the run, with an entry other than `e`, or holds it
abbrev pub uses : String → Goroutine → ℕ
uses id idle = 0
uses id (on s r x) = bit (r == id)

abbrev pub strays : String → ℕ → Goroutine → ℕ
strays id e idle = 0
strays id e (on s r x) = if r == id then bit (not (nat_eq x e)) else 0

abbrev pub holds : String → Goroutine → ℕ
holds id idle = 0
holds id (on s r x) = if r == id then bit (is_inside s) else 0

unfoldable pub total : (Goroutine → ℕ) → List Goroutine → ℕ
total f [] = 0
total f (g ∷ gs) = f g + total f gs

-- how many goroutines hold the lock of a run
abbrev pub holders : String → List Goroutine → ℕ
holders id gs = total (holds id) gs

pub total-at :
    (f : Goroutine → ℕ) (gs hs : List Goroutine) (g : Goroutine)
    → total f (gs ++ g ∷ hs) ≡ total f (gs ++ hs) + f g
unfolding total
total-at f [] hs g = omega arith
total-at f (x ∷ gs) hs g = omega (arith, total-at f gs hs g)

pub total-swap :
    (f : Goroutine → ℕ) (gs hs : List Goroutine) (g h : Goroutine)
    → f g ≡ f h
    → total f (gs ++ g ∷ hs) ≡ total f (gs ++ h ∷ hs)
total-swap f gs hs g h p = omega (arith, p, total-at f gs hs g, total-at f gs hs h)

pub total_mono :
    (f k : Goroutine → ℕ)
    → ((g : Goroutine) → f g ≤ k g)
    → (gs : List Goroutine) → total f gs ≤ total k gs
unfolding total
total_mono f k le [] = omega arith
total_mono f k le (g ∷ gs) = omega (arith, le g, total_mono f k le gs)

pub holds_within : (id : String) (g : Goroutine) → holds id g ≤ uses id g
holds_within id idle = omega arith
holds_within id (on s r x) = elim (Bool-cases (r == id)) [
  | inl e ↦ rw e (bit_small (is_inside s))
  | inr e ↦ rw e (omega arith)
]

pub strays_within : (id : String) (e : ℕ) (g : Goroutine) → strays id e g ≤ uses id g
strays_within id e idle = omega arith
strays_within id e (on s r x) = elim (Bool-cases (r == id)) [
  | inl p ↦ rw p (bit_small (not (nat_eq x e)))
  | inr p ↦ rw p (omega arith)
]

-- The lock of a run has no entry and nobody is at it, or its entry counts those who are at it, who
-- all have its address, and it is held by one of them or by nobody.
pub data Good (t : LockTable) (gs : List Goroutine) (id : String) : Type 0 where
  absent : t.entries id ≡ none → total (uses id) gs ≡ 0 → Good t gs id
  present :
      (e : ℕ)
      → t.entries id ≡ some e
      → e < t.next
      → (t.memory e).ref_count ≡ total (uses id) gs
      → 0 < total (uses id) gs
      → total (strays id e) gs ≡ 0
      → total (holds id) gs ≡ bit (t.memory e).held
      → Good t gs id

-- A run that the step of a goroutine is not about.
pub kept-Good :
    (t u : LockTable) (gs hs : List Goroutine) (g h : Goroutine) (q : String)
    → u.entries q ≡ t.entries q
    → t.next ≤ u.next
    → ((e : ℕ) → t.entries q ≡ some e → e < t.next → u.memory e ≡ t.memory e)
    → uses q g ≡ uses q h
    → ((e : ℕ) → strays q e g ≡ strays q e h)
    → holds q g ≡ holds q h
    → Good t (gs ++ g ∷ hs) q
    → Good u (gs ++ h ∷ hs) q
kept-Good t u gs hs g h q same grows memory a b c (absent none_there nobody) =
    absent (same ∙ none_there) (sym (total-swap (uses q) gs hs g h a) ∙ nobody)
kept-Good t u gs hs g h q same grows memory a b c (present e at below counted some_one alone held) =
    let m = memory e at below in
    let p = total-swap (uses q) gs hs g h a in
    present e (same ∙ at) (omega (arith, below, grows)) (ap (λ l. l.ref_count) m ∙ (counted ∙ p))
      (omega (arith, some_one, p)) (sym (total-swap (strays q e) gs hs g h (b e)) ∙ alone)
      (sym (total-swap (holds q) gs hs g h c) ∙ (held ∙ ap (λ l. bit l.held) (sym m)))

-- The entry of a run that a goroutine is at, with the goroutines but this one.
pub record Share (t : LockTable) (rest : List Goroutine) (id : String) (e : ℕ) (s : Stage)
    : Type 0 where
  pub at : t.entries id ≡ some e
  pub below : e < t.next
  pub counted : (t.memory e).ref_count ≡ total (uses id) rest + 1
  pub alone : total (strays id e) rest ≡ 0
  pub held : total (holds id) rest + bit (is_inside s) ≡ bit (t.memory e).held

uses_own : (s : Stage) (id : String) (e : ℕ) → uses id (on s id e) ≡ 1
uses_own s id e = rw (eq_refl id) refl

holds_own : (s : Stage) (id : String) (e : ℕ) → holds id (on s id e) ≡ bit (is_inside s)
holds_own s id e = rw (eq_refl id) refl

strays_own : (s : Stage) (id : String) (e x : ℕ) → strays id e (on s id x) ≡ bit (not (nat_eq x e))
strays_own s id e x = rw (eq_refl id) refl

same_entry : (x e : ℕ) → bit (not (nat_eq x e)) ≡ 0 → e ≡ x
same_entry x e h = elim (Bool-cases (nat_eq x e)) [
  | inl p ↦ ground (arith, p)
  | inr p ↦ absurd (ground (arith, p, h))
]

nat_eq_self : (e : ℕ) → bit (not (nat_eq e e)) ≡ 0
nat_eq_self e = ground arith

pub Good-Share :
    (t : LockTable) (gs hs : List Goroutine) (id : String) (x : ℕ) (s : Stage)
    → Good t (gs ++ on s id x ∷ hs) id
    → Share t (gs ++ hs) id x s
Good-Share t gs hs id x s (absent p nobody) =
    absurd (omega (arith, nobody, total-at (uses id) gs hs (on s id x), uses_own s id x))
Good-Share t gs hs id x s (present e at below counted some_one alone held) =
    let us = total-at (uses id) gs hs (on s id x) in
    let ss = total-at (strays id e) gs hs (on s id x) in
    let hd = total-at (holds id) gs hs (on s id x) in
    let right : e ≡ x = same_entry x e (omega (arith, alone, ss, strays_own s id e x)) in
    subst (λ y. Share t (gs ++ hs) id y s) right
      (record {
        at = at;
        below = below;
        counted = omega (arith, counted, us, uses_own s id x);
        alone = omega (arith, alone, ss);
        held = omega (arith, held, hd, holds_own s id x);
      })

pub Share-Good :
    (t : LockTable) (gs hs : List Goroutine) (id : String) (e : ℕ) (s : Stage)
    → Share t (gs ++ hs) id e s
    → Good t (gs ++ on s id e ∷ hs) id
Share-Good t gs hs id e s k =
    let us = total-at (uses id) gs hs (on s id e) in
    let ss = total-at (strays id e) gs hs (on s id e) in
    let hd = total-at (holds id) gs hs (on s id e) in
    present e k.at k.below (omega (arith, k.counted, us, uses_own s id e))
      (omega (arith, us, uses_own s id e))
      (omega (arith, k.alone, ss, strays_own s id e e, nat_eq_self e))
      (omega (arith, k.held, hd, holds_own s id e))
