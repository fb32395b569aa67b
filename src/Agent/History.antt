-- ===== src/Agent/History.antt =====
-- The abstract view of a run store: which state it holds for each run, and how that state may
-- change. A run is created once, and then advances while its status is not terminal.
use agentframe.Base.{
  ◌<◌, String, ◌≡◌, refl, sym, ap, ◌∙◌, true, false, Option, none, some, List, [], ◌++◌, append-nil,
  append_assoc, arith, items,
}
use agentframe.Base.Int.{pos, rank, increment, rank-increment, negative, ◌≤ℤ◌, ≤ℤ_refl, ≤ℤ_trans}
use agentframe.Agent.Message.{Message}
use agentframe.Agent.Run.{RunState}
use agentframe.Agent.Lifecycle.{is_terminal_run_status}

abbrev pub View : Type 0
View = String → Option RunState

-- One transcript continues another.
pub record Continues (xs ys : List Message) : Type 0 where
  pub additions : List Message
  pub extended : ys ≡ xs ++ additions

pub Continues-refl : (xs : List Message) → Continues xs xs
Continues-refl xs = record { additions = []; extended = sym (append-nil xs) }

pub Continues-trans :
    {xs ys zs : List Message} → Continues xs ys → Continues ys zs → Continues xs zs
Continues-trans {xs} a b = record {
  additions = a.additions ++ b.additions;
  extended = rw (b.extended, a.extended) (append_assoc xs a.additions b.additions);
}

-- A stored state gives way to the next one.
pub record Advance (s t : RunState) : Type 0 where
  pub same_run : t.id ≡ s.id
  pub next_version : t.version ≡ increment s.version
  pub version_counts : negative s.version ≡ false
  pub not_terminal : is_terminal_run_status s.status ≡ false
  pub step_grows : s.step ≤ℤ t.step
  pub transcript : Continues (items s.messages) (items t.messages)

pub data StoreStep : Option RunState → Option RunState → Type 0 where
  create : {s : RunState} → s.version ≡ pos 1 → StoreStep none (some s)
  advance : {s t : RunState} → Advance s t → StoreStep (some s) (some t)

pub data Reach (o : Option RunState) : Option RunState → Type 0 where
  here : Reach o o
  next : {p q : Option RunState} → Reach o p → StoreStep p q → Reach o q

pub Reach-trans : {o p q : Option RunState} → Reach o p → Reach p q → Reach o q
Reach-trans r here = r
Reach-trans r (next s st) = next (Reach-trans r s) st

-- What is stored after a state: the same state, or one of a higher version.
pub data Since (s : RunState) : Option RunState → Type 0 where
  unchanged : Since s (some s)
  newer : {t : RunState} → rank s.version < rank t.version → Since s (some t)

Since-step : {s : RunState} {p q : Option RunState} → Since s p → StoreStep p q → Since s q
Since-step h (create e) = elim h [ ]
Since-step unchanged (advance a) =
    newer (rw a.next_version (omega (arith, rank-increment _ a.version_counts)))
Since-step (newer lt) (advance {s = u} a) =
    newer (rw a.next_version (omega (arith, rank-increment _ a.version_counts)))

pub Since-Reach : {s : RunState} {o : Option RunState} → Reach (some s) o → Since s o
Since-Reach here = unchanged
Since-Reach (next r st) = Since-step (Since-Reach r) st

terminal-step :
    {s : RunState} {p q : Option RunState}
    → p ≡ some s
    → is_terminal_run_status s.status ≡ true
    → StoreStep p q
    → q ≡ some s
terminal-step e h (create v) = cc
terminal-step e h (advance a) = absurd (ground (arith, a.not_terminal))

-- Nothing follows a terminal state.
pub Reach-terminal :
    {s : RunState} {o : Option RunState}
    → is_terminal_run_status s.status ≡ true
    → Reach (some s) o
    → o ≡ some s
Reach-terminal h here = refl
Reach-terminal h (next r st) = terminal-step (Reach-terminal h r) h st

-- Along a history a run keeps its identity, its step counter does not fall, and its transcript is
-- only ever continued.
pub record Grown (s t : RunState) : Type 0 where
  pub same_run : t.id ≡ s.id
  pub step_grows : s.step ≤ℤ t.step
  pub transcript : Continues (items s.messages) (items t.messages)

Grown-refl : (s : RunState) → Grown s s
Grown-refl s = record {
  same_run = refl;
  step_grows = ≤ℤ_refl s.step;
  transcript = Continues-refl (items s.messages);
}

abbrev GrownTo : RunState → Option RunState → Type 0
GrownTo s none = ⊥
GrownTo s (some t) = Grown s t

Grown-step : (s : RunState) {p q : Option RunState} → GrownTo s p → StoreStep p q → GrownTo s q
Grown-step s h (create v) = absurd h
Grown-step s h (advance {s = t} {t = u} a) = record {
  same_run = a.same_run ∙ h.same_run;
  step_grows = ≤ℤ_trans s.step t.step u.step h.step_grows a.step_grows;
  transcript = Continues-trans h.transcript a.transcript;
}

Grown-Reach : {s : RunState} {o : Option RunState} → Reach (some s) o → GrownTo s o
Grown-Reach {s} here = Grown-refl s
Grown-Reach {s} (next r st) = Grown-step s (Grown-Reach r) st

-- What is stored after a state is a state that has grown from it.
pub Grown-of_stored :
    {s : RunState} {o : Option RunState}
    → Reach (some s) o
    → (t : RunState) × (o ≡ some t) × Grown s t
Grown-of_stored {o = none} r = absurd (Grown-Reach r)
Grown-of_stored {o = some t} r = (t, refl, Grown-Reach r)

-- One version, one state.
pub Since-version : {s t : RunState} → Since s (some t) → t.version ≡ s.version → t ≡ s
Since-version unchanged e = refl
Since-version (newer lt) e = absurd (omega (arith, ap rank e))

-- What a well-formed store holds: each state under its own id, with a version that counts saves.
pub record IsFiled (v : View) : Type 0 where
  pub own_id : (id : String) (s : RunState) → v id ≡ some s → s.id ≡ id
  pub counted : (id : String) (s : RunState) → v id ≡ some s → 0 < rank s.version

-- What one call, or any number of concurrent ones, may do to a well-formed store.
pub record Evolves (v w : View) : Type 0 where
  pub filed : IsFiled w
  pub reach : (id : String) → Reach (v id) (w id)

abbrev pub Rely : View → View → Type 0
Rely v w = IsFiled v → Evolves v w

pub Rely-refl : (v : View) → Rely v v
Rely-refl v f = record { filed = f; reach = λ id. here }

pub Rely-trans : {u v w : View} → Rely u v → Rely v w → Rely u w
Rely-trans a b f =
    let x = a f in
    let y = b x.filed in
    record { filed = y.filed; reach = λ id. Reach-trans (x.reach id) (y.reach id) }
