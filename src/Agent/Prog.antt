-- ===== src/Agent/Prog.antt =====
-- Stateful code over a world `W` of everything outside a call: stores, sinks, models, other
-- goroutines. An operation returns its result and the world after it.
use agentframe.Base.{Option, none, some}
use agentframe.Agent.Errors.{GoError}

abbrev pub Prog : Type 0 → Type 0 → Type 0
Prog W A = W → A × W

infixl 5 ◌>>=◌ ◌>>◌
abbrev pub ◌>>=◌ : {W A B : Type 0} → Prog W A → (A → Prog W B) → Prog W B
◌>>=◌ m f w = f (m w).0 (m w).1

abbrev pub ◌>>◌ : {W A B : Type 0} → Prog W A → Prog W B → Prog W B
m >> k = m >>= λ _. k

abbrev pub pure : {W A : Type 0} → A → Prog W A
pure a w = (a, w)

-- A part of the world that its owner reads and writes.
pub record Part (W A : Type 0) : Type 0 where
  pub get : W → A
  pub put : A → W → W

abbrev pub read : {W A : Type 0} → Part W A → Prog W A
read p w = (p.get w, w)

abbrev pub write : {W A : Type 0} → Part W A → A → Prog W (Unit {0})
write p a w = (tt, p.put a w)

-- `if err != nil { return f(err) }`
abbrev pub on_error : {B : Type 0} → Option GoError → (GoError → B) → B → B
on_error (some e) f k = f e
on_error none f k = k
