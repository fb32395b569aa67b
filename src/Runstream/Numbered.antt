-- ===== src/Runstream/Numbered.antt =====
-- A log of events with the numbers that the broker gives them.
use agentframe.Base.{
  ℕ, zero, suc, ◌+◌, ◌-◌, ◌≡◌, refl, ap, sym, drop_eq, drop_nil, ap₂, ◌∙◌, ltb, Bool-cases, inl,
  inr, List, [], ◌∷◌, ◌++◌, map, length, drop, arith,
}
use agentframe.Base.Int.{pos}
use agentframe.Agent.Event.{Event}
use agentframe.Runstream.{StreamEvent, skip_to, clone_stream_event}
use agentframe.Eventing.Inmem.{clone_event-id}

unfoldable pub numbered : ℕ → List Event → List StreamEvent
numbered n [] = []
numbered n (e ∷ es) = record { id = pos n; event = e } ∷ numbered (suc n) es

pub length-numbered : (n : ℕ) (es : List Event) → length (numbered n es) ≡ length es
unfolding numbered
length-numbered n [] = refl
length-numbered n (e ∷ es) = ap suc (length-numbered (suc n) es)

pub numbered_eq : (es : List Event) (m n : ℕ) → m ≡ n → numbered m es ≡ numbered n es
numbered_eq es m n p i = numbered (p i) es

pub numbered-append :
    (n : ℕ) (es fs : List Event)
    → numbered n (es ++ fs) ≡ numbered n es ++ numbered (n + length es) fs
unfolding numbered
numbered-append n [] fs = numbered_eq fs n (n + 0) (omega arith)
numbered-append n (e ∷ es) fs =
    let p = numbered_eq fs (suc n + length es) (n + suc (length es)) (omega arith) in
    ap (λ xs. record { id = pos n; event = e } ∷ xs)
      (numbered-append (suc n) es fs ∙ ap (λ xs. numbered (suc n) es ++ xs) p)

pub drop-numbered :
    (k n : ℕ) (es : List Event) → drop k (numbered n es) ≡ numbered (n + k) (drop k es)
unfolding numbered
drop-numbered zero n es = numbered_eq es n (n + 0) (omega arith)
drop-numbered (suc k) n [] = refl
drop-numbered (suc k) n (e ∷ es) =
    drop-numbered k (suc n) es ∙ numbered_eq (drop k es) (suc n + k) (n + suc k) (omega arith)

-- After the event of number c come those that c events are dropped before.
pub skip-numbered :
    (c n : ℕ) (es : List Event) → skip_to (pos c) (numbered n es) ≡ drop (suc c - n) (numbered n es)
unfolding numbered skip_to
skip-numbered c n [] = sym (drop_nil (suc c - n))
skip-numbered c n (e ∷ es) = elim (Bool-cases (ltb c n)) [
  | inl later ↦ rw later (sym (drop_eq (numbered n (e ∷ es)) (suc c - n) 0 (ground (arith, later))))
  | inr earlier ↦
      let p : suc (suc c - suc n) ≡ suc c - n = ground (arith, earlier) in
      rw earlier (
        skip-numbered c (suc n) es
        ∙ drop_eq (numbered n (e ∷ es)) (suc (suc c - suc n)) (suc c - n) p)
]

pub clones-id : (es : List StreamEvent) → map clone_stream_event es ≡ es
unfolding clone_stream_event
clones-id [] = refl
clones-id (s ∷ es) = ap₂ ◌∷◌ (λ i. record s { event = clone_event-id s.event i }) (clones-id es)
