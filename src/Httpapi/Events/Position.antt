-- ===== src/Httpapi/Events/Position.antt =====
-- How far a client is in the log of a run: the events that it got since it asked, and its cursor.
use agentframe.Base.{
  ℕ, ◌+◌, ◌≤◌, ◌<◌, ◌≡◌, sym, ap, ◌∙◌, List, [], ◌∷◌, ◌++◌, length, drop, arith, append_assoc,
  drop-append_within, drop-drop, drop_eq, length-append, length-drop,
}
use agentframe.Base.Int.{ℤ, pos}
use agentframe.Agent.Event.{Event}
use agentframe.Runstream.{StreamEvent}
use agentframe.Runstream.Numbered.{numbered, length-numbered, numbered-append, drop-numbered}

-- The client asked with cursor c, and got `new`, which is the log from there up to its cursor.
pub record Position (c : ℕ) (cursor : ℤ) (new : List StreamEvent) (log : List Event) : Type 0 where
  pub counted : cursor ≡ pos (c + length new)
  pub within : c + length new ≤ length log
  pub complete : new ++ drop (c + length new) (numbered 1 log) ≡ drop c (numbered 1 log)

pub Position-start : (c : ℕ) (log : List Event) → c ≤ length log → Position c (pos c) [] log
Position-start c log h = record {
  counted = ap pos (omega arith);
  within = omega (arith, h);
  complete = drop_eq (numbered 1 log) (c + 0) c (omega arith);
}

pub drop-grown :
    (k : ℕ) (log more : List Event)
    → k ≤ length log
    → drop k (numbered 1 (log ++ more)) ≡ drop k (numbered 1 log) ++ numbered (1 + length log) more
drop-grown k log more h =
    let n = numbered 1 log in
    ap (drop k) (numbered-append 1 log more)
    ∙ drop-append_within k n (numbered (1 + length log) more)
        (omega (arith, h, length-numbered 1 log))

-- Nothing is lost when the log grows.
pub Position-grows :
    (c : ℕ) (cursor : ℤ) (new : List StreamEvent) (log more : List Event)
    → Position c cursor new log
    → Position c cursor new (log ++ more)
Position-grows c cursor new log more p =
    let n = numbered 1 log in
    let m = numbered (1 + length log) more in
    record {
      counted = p.counted;
      within = omega (arith, p.within, length-append log more);
      complete =
          ap (λ x. new ++ x) (drop-grown (c + length new) log more p.within)
          ∙ (sym (append_assoc new (drop (c + length new) n) m)
              ∙ (ap (λ x. x ++ m) p.complete
                  ∙ sym (drop-grown c log more (omega (arith, p.within)))));
    }

first_id : List StreamEvent → ℤ
first_id [] = pos 0
first_id (e ∷ es) = e.id

first-numbered :
    (n : ℕ) (es : List Event) (e : StreamEvent) (rest : List StreamEvent)
    → numbered n es ≡ e ∷ rest
    → e.id ≡ pos n
unfolding numbered first_id
first-numbered n [] e rest p = cc
first-numbered n (x ∷ es) e rest p = sym (ap first_id p)

module _ (c : ℕ) (new : List StreamEvent) (log : List Event) (e : StreamEvent)
    (rest : List StreamEvent) (next : drop (c + length new) (numbered 1 log) ≡ e ∷ rest) where
  abbrev k : ℕ
  k = c + length new

  longer : length (new ++ e ∷ []) ≡ length new + 1
  longer = length-append new (e ∷ [])

  pub drop-next : drop (c + length (new ++ e ∷ [])) (numbered 1 log) ≡ rest
  drop-next =
      drop_eq (numbered 1 log) (c + length (new ++ e ∷ [])) (k + 1) (omega (arith, longer))
      ∙ (sym (drop-drop 1 k (numbered 1 log)) ∙ ap (drop 1) next)

  next_id : e.id ≡ pos (1 + k)
  next_id = first-numbered (1 + k) (drop k log) e rest (sym (drop-numbered k 1 log) ∙ next)

  next_within : k < length log
  next_within = omega (arith, length-drop k (numbered 1 log), length-numbered 1 log, ap length next)

  -- The next event of the log has the next number.
  pub Position-next : {cursor : ℤ} → Position c cursor new log → Position c e.id (new ++ e ∷ []) log
  Position-next p = record {
    counted = next_id ∙ ap pos (omega (arith, longer));
    within = omega (arith, longer, next_within);
    complete =
        ap (λ x. (new ++ e ∷ []) ++ x) drop-next
        ∙ (append_assoc new (e ∷ []) rest ∙ (ap (λ x. new ++ x) (sym next) ∙ p.complete));
  }
