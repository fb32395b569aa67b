-- ===== src/Agent/Runner/State/Exclusion.antt =====
-- agent/runner.go: goroutines that lock runs exclude each other, and leave no entry behind.
use agentframe.Base.{
  ℕ, ◌-◌, ◌≤◌, ◌<◌, String, ◌≡◌, refl, sym, ap, ◌∙◌, Bool, true, false, none, some, List, ◌∷◌, ◌++◌,
  ◌==◌, if◌then◌else◌, nat_eq, arith, Bool-cases, inl, inr, eq_refl,
}
use agentframe.Agent.Runner.State.Sharing.{
  LockTable, Goroutine, idle, on, waiting, inside, leaving, put_entry, register_entry,
  release_entry, Moves, registers, takes, frees, releases, Idle, idle_nil, idle_cons, Runs, starts,
  goes,
}
use agentframe.Agent.Runner.State.Counts.{
  bit, bit_small, uses, strays, holds, total, holders, total-at, total_mono, holds_within, Good,
  absent, present, Share, Good-Share,
}
use agentframe.Agent.Runner.State.Entering.{
  Sound, put_other, put_here, other_way, other_entry, step-Good, none_holds, held-Sound, registered,
}

-- A goroutine counts its entry down, and the entry goes when nobody refers to it.
module _ (t : LockTable) (gs hs : List Goroutine) (id : String) (e : ℕ) where
  released-Good :
      (b : Bool)
      → nat_eq ((t.memory e).ref_count - 1) 0 ≡ b
      → Share t (gs ++ hs) id e leaving
      → Good (release_entry id e t) (gs ++ idle ∷ hs) id
  unfolding release_entry
  released-Good true last k =
      let none_left : (t.memory e).ref_count - 1 ≡ 0 = ground (arith, last) in
      absent (rw (last, eq_refl id) refl)
        (omega (arith, k.counted, none_left, total-at (uses id) gs hs idle))
  released-Good false more k =
      let left = (t.memory e).ref_count - 1 in
      let m = put_here e (record (t.memory e) { ref_count = left }) t.memory in
      let us = total-at (uses id) gs hs idle in
      let some_left : 0 < left = ground (arith, more) in
      present e (rw more k.at) k.below (ap (λ l. l.ref_count) m ∙ omega (arith, k.counted, us))
        (omega (arith, k.counted, us, some_left))
        (omega (arith, k.alone, total-at (strays id e) gs hs idle))
        (omega (arith, k.held, total-at (holds id) gs hs idle) ∙ ap (λ l. bit l.held) (sym m))

  kept_entry :
      (q : String) (b : Bool)
      → (id == q) ≡ false
      → (if b then put_entry id none t.entries else t.entries) q ≡ t.entries q
  kept_entry q true ne = rw (other_way id q ne) refl
  kept_entry q false ne = refl

  was_entry :
      (q : String) (x : ℕ) (b : Bool)
      → (if b then put_entry id none t.entries else t.entries) q ≡ some x
      → t.entries q ≡ some x
  was_entry q x false h = h
  was_entry q x true h = elim (Bool-cases (q == id)) [
    | inl p ↦ absurd (ground (arith, p, h))
    | inr p ↦ rw p at h
  ]

  released-Sound :
      Sound t (gs ++ on leaving id e ∷ hs) → Sound (release_entry id e t) (gs ++ idle ∷ hs)
  unfolding release_entry
  released-Sound k =
      let mine = Good-Share t gs hs id e leaving (k.good id) in
      let last = nat_eq ((t.memory e).ref_count - 1) 0 in
      record {
        good =
            step-Good t (release_entry id e t) gs hs (on leaving id e) idle id
              (λ q ne. kept_entry q last ne) (omega arith)
              (λ q x ne there below.
                put_other e x _ t.memory (other_entry t _ id q e x k mine.at there ne))
              (λ q ne. rw ne refl) (λ q x ne. rw ne refl) (λ q ne. rw ne refl) k.good
              (released-Good last refl mine);
        apart = λ a b x p q. k.apart a b x (was_entry a x last p) (was_entry b x last q);
      }

Moves-Sound : (t u : LockTable) (gs hs : List Goroutine) → Sound t gs → Moves t gs u hs → Sound u hs
unfolding register_entry
Moves-Sound t _ _ _ k (registers gs hs id) = registered t gs hs id (t.entries id) refl k
Moves-Sound t _ _ _ k (takes gs hs id e free) =
    held-Sound t gs hs id e waiting inside true (λ h. omega (arith, h, ap bit free)) k
Moves-Sound t _ _ _ k (frees gs hs id e) =
    held-Sound t gs hs id e inside leaving false
      (λ h. none_holds (total (holds id) (gs ++ hs)) (t.memory e).held h) k
Moves-Sound t _ _ _ k (releases gs hs id e) = released-Sound t gs hs id e k

Idle-total : (id : String) (gs : List Goroutine) → Idle gs → total (uses id) gs ≡ 0
unfolding total
Idle-total id _ idle_nil = refl
Idle-total id _ (idle_cons i) = omega (arith, Idle-total id _ i)

Runs-Sound : (t : LockTable) (gs : List Goroutine) → Runs t gs → Sound t gs
Runs-Sound _ gs (starts i) = record {
  good = λ id. absent refl (Idle-total id gs i);
  apart = λ a b e p q. cc;
}
Runs-Sound _ _ (goes r m) = Moves-Sound _ _ _ _ (Runs-Sound _ _ r) m

guarded : (t : LockTable) (gs : List Goroutine) (id : String) → Good t gs id → holders id gs ≤ 1
guarded t gs id (absent none_there nobody) =
    omega (arith, nobody, total_mono (holds id) (uses id) (holds_within id) gs)
guarded t gs id (present e at below counted some_one alone held) =
    omega (arith, held, bit_small (t.memory e).held)

-- However many goroutines call lock and its unlock functions, one step after another in any order
-- and from a new table: at most one of them holds the lock of a run; if none is at the lock, the
-- table has no entry for the run; otherwise its entry counts exactly those who are at it, they
-- all have the address of this entry, and its mutex is held exactly if one of them is inside.
pub Runs-guarded :
    (t : LockTable) (gs : List Goroutine) (id : String)
    → Runs t gs
    → (holders id gs ≤ 1) × Good t gs id
Runs-guarded t gs id r = let k = Runs-Sound t gs r in (guarded t gs id (k.good id), k.good id)
