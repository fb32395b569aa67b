-- ===== src/Agent/Runner/State/Entering.antt =====
-- agent/runner.go: what the steps of `lock` keep of the lock table, and the step that frees a mutex.
use agentframe.Base.{
  ℕ, ◌+◌, ◌≤◌, ◌<◌, String, ◌≡◌, refl, sym, ap, ◌∙◌, subst, Bool, true, false, Option, none, some,
  List, ◌∷◌, ◌++◌, ◌==◌, nat_eq, arith, Bool-cases, inl, inr, eq_refl, eq_iff,
}
use agentframe.Agent.Runner.State.{CommandLock}
use agentframe.Agent.Runner.State.Sharing.{
  LockTable, Goroutine, idle, on, Stage, waiting, put_lock, find_or_make, count_up, set_held,
}
use agentframe.Agent.Runner.State.Counts.{
  bit, bit_small, is_inside, uses, strays, holds, total, total-at, total_mono, holds_within,
  strays_within, Good, absent, present, kept-Good, Share, Good-Share, Share-Good,
}

-- Two runs have different entries, and every run's entry is good.
pub record Sound (t : LockTable) (gs : List Goroutine) : Type 0 where
  pub good : (id : String) → Good t gs id
  pub apart : (a b : String) (e : ℕ) → t.entries a ≡ some e → t.entries b ≡ some e → a ≡ b

pub put_other :
    (e x : ℕ) (l : CommandLock) (f : ℕ → CommandLock) → nat_eq x e ≡ false → put_lock e l f x ≡ f x
put_other e x l f h = rw h refl

pub put_here : (e : ℕ) (l : CommandLock) (f : ℕ → CommandLock) → put_lock e l f e ≡ l
put_here e l f = let p : nat_eq e e ≡ true = ground arith in rw p refl

differs : (x e : ℕ) → x < e → nat_eq x e ≡ false
differs x e h = ground (arith, h)

pub other_way : (a b : String) → (a == b) ≡ false → (b == a) ≡ false
other_way a b h = elim (Bool-cases (b == a)) [
  | inl p ↦ absurd (ground (arith, h, sym ((eq_iff b a).0 p), eq_refl b))
  | inr p ↦ p
]

-- The entry of another run is another one.
pub other_entry :
    (t : LockTable) (gs : List Goroutine) (id q : String) (e x : ℕ)
    → Sound t gs
    → t.entries id ≡ some e
    → t.entries q ≡ some x
    → (id == q) ≡ false
    → nat_eq x e ≡ false
other_entry t gs id q e x k at there ne = elim (Bool-cases (nat_eq x e)) [
  | inr p ↦ p
  | inl p ↦
      let same : x ≡ e = ground (arith, p) in
      let runs : id ≡ q = k.apart id q e at (there ∙ ap some same) in
      absurd (ground (arith, ne, (eq_iff id q).1 runs))
]

-- A step that changes the entry of the run `id` only.
pub step-Good :
    (t u : LockTable) (gs hs : List Goroutine) (g h : Goroutine) (id : String)
    → ((q : String) → (id == q) ≡ false → u.entries q ≡ t.entries q)
    → t.next ≤ u.next
    → ((q : String) (x : ℕ)
        → (id == q) ≡ false
        → t.entries q ≡ some x
        → x < t.next
        → u.memory x ≡ t.memory x)
    → ((q : String) → (id == q) ≡ false → uses q g ≡ uses q h)
    → ((q : String) (x : ℕ) → (id == q) ≡ false → strays q x g ≡ strays q x h)
    → ((q : String) → (id == q) ≡ false → holds q g ≡ holds q h)
    → ((q : String) → Good t (gs ++ g ∷ hs) q)
    → Good u (gs ++ h ∷ hs) id
    → (q : String) → Good u (gs ++ h ∷ hs) q
step-Good t u gs hs g h id same grows memory a b c good own q = elim (Bool-cases (id == q)) [
  | inl p ↦ subst (λ r. Good u (gs ++ h ∷ hs) r) ((eq_iff id q).0 p) own
  | inr p ↦
      kept-Good t u gs hs g h q (same q p) grows (λ x at below. memory q x p at below) (a q p)
        (λ x. b q x p) (c q p) (good q)
]

-- A step that sets the mutex.
module _ (t : LockTable) (gs hs : List Goroutine) (id : String) (e : ℕ) (s r : Stage)
    (b : Bool) where
  held-Share :
      (total (holds id) (gs ++ hs) + bit (is_inside s) ≡ bit (t.memory e).held
        → total (holds id) (gs ++ hs) + bit (is_inside r) ≡ bit b)
      → Share t (gs ++ hs) id e s
      → Share (set_held b e t) (gs ++ hs) id e r
  unfolding set_held
  held-Share p k =
      let m = put_here e (record (t.memory e) { held = b }) t.memory in
      record {
        at = k.at;
        below = k.below;
        counted = ap (λ l. l.ref_count) m ∙ k.counted;
        alone = k.alone;
        held = p k.held ∙ ap (λ l. bit l.held) (sym m);
      }

  pub held-Sound :
      (total (holds id) (gs ++ hs) + bit (is_inside s) ≡ bit (t.memory e).held
        → total (holds id) (gs ++ hs) + bit (is_inside r) ≡ bit b)
      → Sound t (gs ++ on s id e ∷ hs)
      → Sound (set_held b e t) (gs ++ on r id e ∷ hs)
  unfolding set_held
  held-Sound p k =
      let mine = Good-Share t gs hs id e s (k.good id) in
      record {
        good =
            step-Good t (set_held b e t) gs hs (on s id e) (on r id e) id (λ q ne. refl)
              (omega arith)
              (λ q x ne there below.
                put_other e x _ t.memory (other_entry t _ id q e x k mine.at there ne))
              (λ q ne. refl) (λ q x ne. refl) (λ q ne. rw ne refl) k.good
              (Share-Good (set_held b e t) gs hs id e r (held-Share p mine));
        apart = k.apart;
      }

pub none_holds : (n : ℕ) (b : Bool) → n + 1 ≡ bit b → n + 0 ≡ 0
none_holds n b h = omega (arith, h, bit_small b)

idle-Good :
    (t : LockTable) (gs hs : List Goroutine) (id : String)
    → Good t (gs ++ idle ∷ hs) id
    → Good t (gs ++ hs) id
idle-Good t gs hs id (absent none_there nobody) =
    absent none_there (omega (arith, nobody, total-at (uses id) gs hs idle))
idle-Good t gs hs id (present e at below counted some_one alone held) =
    let us = total-at (uses id) gs hs idle in
    present e at below (omega (arith, counted, us)) (omega (arith, some_one, us))
      (omega (arith, alone, total-at (strays id e) gs hs idle))
      (omega (arith, held, total-at (holds id) gs hs idle))

-- A goroutine registers at the entry of a run, or at a new one.
module _ (t : LockTable) (gs hs : List Goroutine) (id : String) where
  found-Share :
      (e : ℕ)
      → t.entries id ≡ some e
      → Good t (gs ++ hs) id
      → Share (count_up e t) (gs ++ hs) id e waiting
  unfolding count_up
  found-Share e at (absent none_there nobody) = absurd (ground (arith, at, none_there))
  found-Share e at (present x there below counted some_one alone held) =
      let same : x ≡ e = ground (arith, at, there) in
      let m =
        put_here x (record (t.memory x) { ref_count = (t.memory x).ref_count + 1 }) t.memory in
      subst (λ y. Share (count_up y t) (gs ++ hs) id y waiting) same
        (record {
          at = there;
          below = below;
          counted = ap (λ l. l.ref_count) m ∙ omega (arith, counted);
          alone = alone;
          held = omega (arith, held) ∙ ap (λ l. bit l.held) (sym m);
        })

  nobody_at : t.entries id ≡ none → Good t (gs ++ hs) id → total (uses id) (gs ++ hs) ≡ 0
  nobody_at h (absent none_there nobody) = nobody
  nobody_at h (present x there below counted some_one alone held) =
      absurd (ground (arith, h, there))

  abbrev made : LockTable
  made = count_up t.next (find_or_make none id t).1

  made_memory : made.memory t.next ≡ record { ref_count = 1; held = false }
  unfolding count_up find_or_make
  made_memory =
      let zero_lock : CommandLock = record { ref_count = 0; held = false } in
      let up : CommandLock → CommandLock = λ l. record l { ref_count = l.ref_count + 1 } in
      put_here t.next (up (put_lock t.next zero_lock t.memory t.next))
        (put_lock t.next zero_lock t.memory)
      ∙ ap up (put_here t.next zero_lock t.memory)

  made-Share : t.entries id ≡ none → Good t (gs ++ hs) id → Share made (gs ++ hs) id t.next waiting
  unfolding count_up find_or_make
  made-Share h k =
      let nobody = nobody_at h k in
      let m = made_memory in
      record {
        at = rw (eq_refl id) refl;
        below = omega arith;
        counted = ap (λ l. l.ref_count) m ∙ omega (arith, nobody);
        alone = omega (
          arith,
          nobody,
          total_mono (strays id t.next) (uses id) (strays_within id t.next) (gs ++ hs),
        );
        held =
            omega (arith, nobody, total_mono (holds id) (uses id) (holds_within id) (gs ++ hs))
            ∙ ap (λ l. bit l.held) (sym m);
      }

  below_next :
      (q : String) (x : ℕ) (all : List Goroutine) → t.entries q ≡ some x → Good t all q → x < t.next
  below_next q x all h (absent none_there nobody) = absurd (ground (arith, h, none_there))
  below_next q x all h (present e at below counted some_one alone held) =
      let same : e ≡ x = ground (arith, at, h) in omega (arith, below, same)

  -- The new entry is nobody else's.
  made-apart :
      Sound t (gs ++ idle ∷ hs)
      → (a b : String) (e : ℕ) → made.entries a ≡ some e
      → made.entries b ≡ some e
      → a ≡ b
  unfolding count_up find_or_make
  made-apart k a b e p q = elim (Bool-cases (a == id)) [
    | inl x ↦ elim (Bool-cases (b == id)) [
      | inl y ↦ (eq_iff a id).0 x ∙ sym ((eq_iff b id).0 y)
      | inr y ↦
          let old : t.entries b ≡ some e = rw y at q in
          let new : some t.next ≡ some e = rw x at p in
          absurd (ground (arith, new, below_next b e _ old (k.good b)))
    ]
    | inr x ↦
        let old : t.entries a ≡ some e = rw x at p in
        elim (Bool-cases (b == id)) [
          | inl y ↦
              let new : some t.next ≡ some e = rw y at q in
              absurd (ground (arith, new, below_next a e _ old (k.good a)))
          | inr y ↦ k.apart a b e old (rw y at q)
        ]
  ]

  pub registered :
      (v : Option ℕ)
      → t.entries id ≡ v
      → Sound t (gs ++ idle ∷ hs)
      → let x = find_or_make v id t in Sound (count_up x.0 x.1) (gs ++ on waiting id x.0 ∷ hs)
  unfolding find_or_make count_up
  registered (some e) at k = record {
    good =
        step-Good t (count_up e t) gs hs idle (on waiting id e) id (λ q ne. refl) (omega arith)
          (λ q x ne there below. put_other e x _ t.memory (other_entry t _ id q e x k at there ne))
          (λ q ne. rw ne refl) (λ q x ne. rw ne refl) (λ q ne. rw ne refl) k.good
          (Share-Good (count_up e t) gs hs id e waiting
            (found-Share e at (idle-Good t gs hs id (k.good id))));
    apart = k.apart;
  }
  registered none at k = record {
    good =
        step-Good t made gs hs idle (on waiting id t.next) id (λ q ne. rw (other_way id q ne) refl)
          (omega arith)
          (λ q x ne there below.
            put_other t.next x _ ((find_or_make none id t).1.memory) (differs x t.next below)
            ∙ put_other t.next x (record { ref_count = 0; held = false }) t.memory
                (differs x t.next below))
          (λ q ne. rw ne refl) (λ q x ne. rw ne refl) (λ q ne. rw ne refl) k.good
          (Share-Good made gs hs id t.next waiting
            (made-Share at (idle-Good t gs hs id (k.good id))));
    apart = made-apart k;
  }
