-- ===== src/Runstream/Tail.antt =====
-- A history keeps the end of the log of its run.
use agentframe.Base.{
  ℕ, suc, ◌+◌, ◌-◌, ◌≤◌, ◌<◌, ◌≡◌, refl, ap, sym, ◌∙◌, List, [], ◌∷◌, ◌++◌, ltb, length, drop,
  length-append, length-drop, drop-append_within, drop-drop, drop_eq, drop_nil, Bool-cases, inl,
  inr, arith,
}
use agentframe.Base.Int.{pos, increment, increment-pos, max_int64}
use agentframe.Agent.Event.{Event}
use agentframe.Eventing.Inmem.{clone_event, clone_event-id}
use agentframe.Runstream.{StreamEvent, RunHistory, new_history, trim, push}
use agentframe.Runstream.Numbered.{numbered, length-numbered, numbered-append}

-- A history that keeps the last `limit` events of a log, under their numbers in the log.
pub record IsTail (limit : ℕ) (log : List Event) (h : RunHistory) : Type 0 where
  pub counted : h.next_id ≡ pos (suc (length log))
  pub kept : h.events ≡ drop (length log - limit) (numbered 1 log)

trim-drop :
    (limit n : ℕ) (es : List StreamEvent)
    → length es ≡ n + 1
    → trim limit (drop (n - limit) es) ≡ drop (n + 1 - limit) es
unfolding trim
trim-drop limit n es h =
    let shorter : length (drop (n - limit) es) ≡ n + 1 - (n - limit) =
      length-drop (n - limit) es ∙ ap (λ l. l - (n - limit)) h in
    elim (Bool-cases (ltb limit (length (drop (n - limit) es)))) [
      | inl over ↦
          let cut = length (drop (n - limit) es) - limit in
          let p : n - limit + cut ≡ n + 1 - limit = ground (arith, over, shorter) in
          rw over (drop-drop cut (n - limit) es ∙ drop_eq es (n - limit + cut) (n + 1 - limit) p)
      | inr within ↦
          rw within (drop_eq es (n - limit) (n + 1 - limit) (ground (arith, within, shorter)))
    ]

pub new_history-IsTail : (limit : ℕ) → IsTail limit [] new_history
unfolding numbered
new_history-IsTail limit = record { counted = refl; kept = sym (drop_nil (0 - limit)) }

-- The next event, with its number, after the end of the log.
extended :
    (limit : ℕ) (log : List Event) (e : Event) (h : RunHistory)
    → IsTail limit log h
    → h.events ++ record { id = h.next_id; event = clone_event e } ∷ []
      ≡ drop (length log - limit) (numbered 1 (log ++ e ∷ []))
unfolding numbered
extended limit log e h t =
    let k = length log - limit in
    let short : k ≤ length (numbered 1 log) = omega (arith, length-numbered 1 log) in
    let id_eq : h.next_id ≡ pos (1 + length log) = t.counted ∙ ap pos (omega arith) in
    let last : List StreamEvent = record { id = pos (1 + length log); event = e } ∷ [] in
    ap (λ x. h.events ++ record { id = h.next_id; event = x } ∷ []) (clone_event-id e)
    ∙ (ap (λ x. h.events ++ record { id = x; event = e } ∷ []) id_eq
        ∙ (ap (λ es. es ++ last) t.kept
            ∙ (sym (drop-append_within k (numbered 1 log) last short)
                ∙ ap (drop k) (sym (numbered-append 1 log (e ∷ []))))))

pub push-IsTail :
    (limit : ℕ) (log : List Event) (e : Event) (h : RunHistory)
    → length log + 1 < max_int64
    → IsTail limit log h
    → IsTail limit (log ++ e ∷ []) (push limit e h)
unfolding push
push-IsTail limit log e h fits t =
    let longer : length (log ++ e ∷ []) ≡ length log + 1 = length-append log (e ∷ []) in
    let all = numbered 1 (log ++ e ∷ []) in
    let size : length all ≡ length log + 1 = length-numbered 1 (log ++ e ∷ []) ∙ longer in
    record {
      counted =
          ap increment t.counted
          ∙ (increment-pos (suc (length log)) (omega (arith, fits))
              ∙ ap pos (omega (arith, longer)));
      kept =
          ap (trim limit) (extended limit log e h t)
          ∙ (trim-drop limit (length log) all size
              ∙ drop_eq all (length log + 1 - limit) (length (log ++ e ∷ []) - limit)
                  (ap (λ l. l - limit) (sym longer)));
    }
