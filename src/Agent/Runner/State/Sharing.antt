-- ===== src/Agent/Runner/State/Sharing.antt =====
-- agent/runner.go: the goroutines that lock runs. Each keeps the address of its entry, as the unlock
-- function of `lock` does; the table maps runs to addresses.
use agentframe.Base.{
  ℕ, ◌+◌, ◌-◌, String, ◌≡◌, Bool, true, false, Option, none, some, List, ◌∷◌, ◌++◌, ◌==◌,
  if◌then◌else◌, nat_eq,
}
use agentframe.Agent.Runner.State.{CommandLock}

-- runCommandLocks with the memory that its entries point to; addresses from `next` on are unused
pub record LockTable : Type 0 where
  pub entries : String → Option ℕ
  pub memory : ℕ → CommandLock
  pub next : ℕ

abbrev pub new_lock_table : LockTable
new_lock_table = record {
  entries = λ id. none;
  memory = λ e. record { ref_count = 0; held = false };
  next = 0;
}

-- entries[id] = v
abbrev pub put_entry : String → Option ℕ → (String → Option ℕ) → String → Option ℕ
put_entry id v f k = if k == id then v else f k

-- *entry = l
abbrev pub put_lock : ℕ → CommandLock → (ℕ → CommandLock) → ℕ → CommandLock
put_lock e l f x = if nat_eq x e then l else f x

-- the entry of a run, made if there is none
unfoldable pub find_or_make : Option ℕ → String → LockTable → ℕ × LockTable
find_or_make (some e) id t = (e, t)
find_or_make none id t = (
  t.next,
  record t {
    entries = put_entry id (some t.next) t.entries;
    memory = put_lock t.next (record { ref_count = 0; held = false }) t.memory;
    next = t.next + 1;
  },
)

-- entry.refCount++
unfoldable pub count_up : ℕ → LockTable → LockTable
count_up e t =
    let l = t.memory e in
    record t { memory = put_lock e (record l { ref_count = l.ref_count + 1 }) t.memory }

-- the first half of `lock`, under the table's mutex
unfoldable pub register_entry : String → LockTable → ℕ × LockTable
unfolding find_or_make count_up
register_entry id t = let x = find_or_make (t.entries id) id t in (x.0, count_up x.0 x.1)

-- entry.mu.Lock() and entry.mu.Unlock()
unfoldable pub set_held : Bool → ℕ → LockTable → LockTable
set_held b e t = record t { memory = put_lock e (record (t.memory e) { held = b }) t.memory }

-- the rest of the unlock function, under the table's mutex
unfoldable pub release_entry : String → ℕ → LockTable → LockTable
release_entry id e t =
    let left = (t.memory e).ref_count - 1 in
    record t {
      memory = put_lock e (record (t.memory e) { ref_count = left }) t.memory;
      entries = if nat_eq left 0 then put_entry id none t.entries else t.entries;
    }

pub data Stage : Type 0 where
  waiting : Stage
  inside : Stage
  leaving : Stage

-- Where a goroutine is: in no call of `lock`, or between its steps, with its run and its entry.
pub data Goroutine : Type 0 where
  idle : Goroutine
  on : Stage → String → ℕ → Goroutine

-- One goroutine takes one step, in any order.
pub data Moves : LockTable → List Goroutine → LockTable → List Goroutine → Type 0 where
  registers :
      {t : LockTable} (gs hs : List Goroutine) (id : String)
      → Moves t
          (gs ++ idle ∷ hs)
          (register_entry id t).1
          (gs ++ on waiting id (register_entry id t).0 ∷ hs)
  takes :
      {t : LockTable} (gs hs : List Goroutine) (id : String) (e : ℕ)
      → (t.memory e).held ≡ false
      → Moves t (gs ++ on waiting id e ∷ hs) (set_held true e t) (gs ++ on inside id e ∷ hs)
  frees :
      {t : LockTable} (gs hs : List Goroutine) (id : String) (e : ℕ)
      → Moves t (gs ++ on inside id e ∷ hs) (set_held false e t) (gs ++ on leaving id e ∷ hs)
  releases :
      {t : LockTable} (gs hs : List Goroutine) (id : String) (e : ℕ)
      → Moves t (gs ++ on leaving id e ∷ hs) (release_entry id e t) (gs ++ idle ∷ hs)

pub data Idle : List Goroutine → Type 0 where
  idle_nil : Idle List.[]
  idle_cons : {gs : List Goroutine} → Idle gs → Idle (idle ∷ gs)

-- What a new table and goroutines that lock nothing come to.
pub data Runs : LockTable → List Goroutine → Type 0 where
  starts : {gs : List Goroutine} → Idle gs → Runs new_lock_table gs
  goes : {t u : LockTable} {gs hs : List Goroutine} → Runs t gs → Moves t gs u hs → Runs u hs
