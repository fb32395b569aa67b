-- ===== src/Runstream/Answers.antt =====
-- The broker against its specification: a log of all events of each run, of which it keeps the end.
use agentframe.Base.{
  ℕ, suc, ◌+◌, ◌-◌, ◌≤◌, ◌<◌, String, ◌≡◌, ◌≢◌, refl, ap, sym, ◌∙◌, subst, true, Option, none, some,
  List, [], ◌∷◌, ◌++◌, ◌==◌, if◌then◌else◌, ltb, nat_eq, or_else, length, drop, length-append,
  length-drop, drop-drop, drop_eq, drop_nil, append_assoc, append-nil, Bool-cases, inl, inr, eq_iff,
  arith,
}
use mathlib.Core.Path.{fun_ext}
use agentframe.Base.Int.{ℤ, pos, negsuc, decrement, max_int64, ltbℤ}
use agentframe.Agent.Event.{Event}
use agentframe.Agent.Errors.{GoError, reports, is, cursor_invalid, cursor_expired}
use agentframe.Runstream.{
  RunHistory, Histories, Broker, find_history, put_history, new_history, run_locked, push,
  publish_locked, has_expired, skip_to, events_in, events_after, Answered, new_broker, limit_of,
}
use agentframe.Runstream.Numbered.{
  numbered, length-numbered, drop-numbered, skip-numbered, clones-id,
}
use agentframe.Runstream.Tail.{IsTail, push-IsTail, new_history-IsTail}

-- What a client that has seen the first c events of a log may be told: that there are not so many,
-- that the broker has forgotten one that it lacks, or all that it lacks.
pub data Answer (limit : ℕ) (log : List Event) (c : ℕ) : Answered → Type 0 where
  beyond :
      (e : Option GoError)
      → length log < c
      → reports cursor_invalid e ≡ true
      → Answer limit log c ([], e)
  expired :
      (e : Option GoError)
      → c + limit < length log
      → reports cursor_expired e ≡ true
      → Answer limit log c ([], e)
  served :
      c ≤ length log → length log ≤ c + limit → Answer limit log c (drop c (numbered 1 log), none)

expired_start :
    (c j : ℕ) (es : List Event)
    → (es ≡ [] → j ≡ 0)
    → has_expired (pos c) (numbered (1 + j) es) ≡ ltb c j
unfolding has_expired decrement numbered
expired_start c j [] h = ground (arith, h refl)
expired_start c j (e ∷ es) h =
    ap (λ n. ltbℤ (pos c) (decrement (pos n))) (let p : 1 + j ≡ suc j = omega arith in p)

has_expired-drop :
    (c limit : ℕ) (log : List Event)
    → 0 < limit
    → has_expired (pos c) (drop (length log - limit) (numbered 1 log)) ≡ ltb c (length log - limit)
has_expired-drop c limit log positive =
    let j = length log - limit in
    ap (has_expired (pos c)) (drop-numbered j 1 log)
    ∙ expired_start c j (drop j log) (λ p. omega (arith, positive, length-drop j log, ap length p))

skip-drop :
    (c j : ℕ) (log : List Event)
    → j ≤ c
    → skip_to (pos c) (drop j (numbered 1 log)) ≡ drop c (numbered 1 log)
skip-drop c j log within =
    let rest = suc c - (1 + j) in
    ap (skip_to (pos c)) (drop-numbered j 1 log)
    ∙ (skip-numbered c (1 + j) (drop j log)
        ∙ (ap (drop rest) (sym (drop-numbered j 1 log))
            ∙ (drop-drop rest j (numbered 1 log)
                ∙ drop_eq (numbered 1 log) (j + rest) c (omega (arith, within)))))

events_in_tail :
    (limit : ℕ) (log : List Event) (h : RunHistory) (c : ℕ)
    → 0 < limit
    → IsTail limit log h
    → Answer limit log c (events_in (some h) (pos c))
unfolding is events_in
events_in_tail limit log h c positive t =
    let n = length log in
    let next = t.counted in
    let gone = ap (has_expired (pos c)) t.kept ∙ has_expired-drop c limit log positive in
    elim (Bool-cases (ltb c (suc n))) [
      | inr far ↦ rw (next, far) (beyond _ (ground (arith, far)) refl)
      | inl near ↦ elim (Bool-cases (ltb c (n - limit))) [
        | inl old ↦ rw (next, near, gone, old) (expired _ (ground (arith, old)) refl)
        | inr new ↦
            let rest = skip-drop c (n - limit) log (ground (arith, new)) in
            rw (next, near, gone, new, t.kept, rest, clones-id)
              (served (ground (arith, near)) (ground (arith, new)))
      ]
    ]

-- The history of a run, if there is one, is the end of the log of the run.
pub data Tracked (limit : ℕ) (log : List Event) : Option RunHistory → Type 0 where
  untouched : log ≡ [] → Tracked limit log none
  tracked : {h : RunHistory} → IsTail limit log h → Tracked limit log (some h)

abbrev pub Logs : Type 0
Logs = String → List Event

abbrev pub logged : Event → Logs → Logs
logged e logs id = if e.run_id == id then logs id ++ e ∷ [] else logs id

-- The broker keeps the end of each run's log.
pub record Represents (logs : Logs) (b : Broker) : Type 0 where
  pub positive : 0 < b.history_limit
  pub histories : (id : String) → Tracked b.history_limit (logs id) (find_history id b.runs)

find-put :
    (id : String) (h : RunHistory) (runs : Histories) (j : String)
    → find_history j (put_history id h runs) ≡ (if id == j then some h else find_history j runs)
unfolding find_history put_history
find-put id h [] j = refl
find-put id h ((k, g) ∷ rest) j =
    ground (arith, eq_iff k id, eq_iff k j, eq_iff id j, find-put id h rest j)

run_locked-IsTail :
    (limit : ℕ) (log : List Event) (o : Option RunHistory)
    → Tracked limit log o
    → IsTail limit log (or_else new_history o)
run_locked-IsTail limit log none (untouched p) =
    subst (λ l. IsTail limit l new_history) (sym p) (new_history-IsTail limit)
run_locked-IsTail limit log (some h) (tracked t) = t

-- A publish under the lock puts the event at the end of its run's log, as long as the number of
-- the event fits into 64 bits, and changes no other log.
pub publish_locked-Represents :
    (logs : Logs) (b : Broker) (e : Event)
    → length (logs e.run_id) + 1 < max_int64
    → Represents logs b
    → Represents (logged e logs) (publish_locked e b)
unfolding publish_locked run_locked
publish_locked-Represents logs b e fits r =
    let h = run_locked e.run_id b.runs in
    let next = push b.history_limit e h in
    record {
      positive = r.positive;
      histories = λ id. elim (Bool-cases (e.run_id == id)) [
        | inl same ↦
            rw (find-put, same)
              (subst (λ j. Tracked b.history_limit (logs j ++ e ∷ []) (some next))
                ((eq_iff e.run_id id).0 same)
                (tracked (
                  push-IsTail b.history_limit (logs e.run_id) e h fits (
                    run_locked-IsTail b.history_limit (logs e.run_id) (find_history e.run_id b.runs)
                      (r.histories e.run_id)))))
        | inr apart ↦ rw (find-put, apart) (r.histories id)
      ];
    }

events_in-none : (limit c : ℕ) → Answer limit [] c (events_in none (pos c))
unfolding events_in is numbered
events_in-none limit c = elim (Bool-cases (nat_eq c 0)) [
  | inl start ↦ rw start (
      subst (λ es. Answer limit [] c (es, none)) (drop_nil c)
        (served (ground (arith, start)) (omega arith)))
  | inr positive ↦ rw positive (beyond _ (ground (arith, positive)) refl)
]

events_in-Answer :
    (limit : ℕ) (log : List Event) (o : Option RunHistory) (c : ℕ)
    → 0 < limit
    → Tracked limit log o
    → Answer limit log c (events_in o (pos c))
events_in-Answer limit log none c positive (untouched p) =
    subst (λ l. Answer limit l c (events_in none (pos c))) (sym p) (events_in-none limit c)
events_in-Answer limit log (some h) c positive (tracked t) = events_in_tail limit log h c positive t

-- A run with a name, and a cursor that is not negative, get the answer that the log of the run
-- gives.
pub events_after-Answer :
    (logs : Logs) (b : Broker) (id : String) (c : ℕ)
    → id ≢ ""
    → Represents logs b
    → Answer b.history_limit (logs id) c (events_after id (pos c) b)
unfolding events_after
events_after-Answer logs b id c named r = elim (Bool-cases (id == "")) [
  | inl empty ↦ absurd (named ((eq_iff id "").0 empty))
  | inr full ↦ rw full (
      events_in-Answer b.history_limit (logs id) (find_history id b.runs) c r.positive
        (r.histories id))
]

-- What a client can tell of the events of one run.
abbrev pub of_run : String → List Event → List Event
of_run id [] = []
of_run id (e ∷ es) = let rest = of_run id es in if e.run_id == id then e ∷ rest else rest

-- Events that are published one after the other.
abbrev pub publish_all : List Event → Broker → Broker
publish_all [] b = b
publish_all (e ∷ es) b = publish_all es (publish_locked e b)

pub new_broker-Represents : (limit : ℤ) → Represents (λ id. []) (new_broker limit)
unfolding new_broker limit_of find_history
new_broker-Represents (pos n) = record { positive = ground arith; histories = λ id. untouched refl }
new_broker-Represents (negsuc n) = record {
  positive = omega arith;
  histories = λ id. untouched refl;
}

split_log :
    (logs : Logs) (e : Event) (es : List Event) (id : String)
    → logged e logs id ++ of_run id es ≡ logs id ++ of_run id (e ∷ es)
split_log logs e es id = elim (Bool-cases (e.run_id == id)) [
  | inl same ↦ rw same (append_assoc (logs id) (e ∷ []) (of_run id es))
  | inr apart ↦ rw apart refl
]

fits_on :
    (logs : Logs) (e : Event) (es : List Event)
    → ((id : String) → length (logs id) + length (e ∷ es) < max_int64)
    → (id : String) → length (logged e logs id) + length es < max_int64
fits_on logs e es fits id = elim (Bool-cases (e.run_id == id)) [
  | inl same ↦ rw same (omega (arith, fits id, length-append (logs id) (e ∷ [])))
  | inr apart ↦ rw apart (omega (arith, fits id))
]

pub publish_all-Represents :
    (es : List Event) (logs : Logs) (b : Broker)
    → ((id : String) → length (logs id) + length es < max_int64)
    → Represents logs b
    → Represents (λ id. logs id ++ of_run id es) (publish_all es b)
publish_all-Represents [] logs b fits r =
    subst (λ l. Represents l b) (fun_ext (λ id. sym (append-nil (logs id)))) r
publish_all-Represents (e ∷ es) logs b fits r =
    subst (λ l. Represents l (publish_all es (publish_locked e b))) (fun_ext (split_log logs e es))
      (publish_all-Represents es (logged e logs) (publish_locked e b) (fits_on logs e es fits)
        (publish_locked-Represents logs b e (omega (arith, fits e.run_id)) r))

reached :
    (limit : ℤ) (es : List Event)
    → length es < max_int64
    → Represents (λ id. of_run id es) (publish_all es (new_broker limit))
reached limit es fits =
    publish_all-Represents es (λ id. []) (new_broker limit) (λ id. omega (arith, fits))
      (new_broker-Represents limit)

-- After fewer than 2^63 - 1 publishes to a new broker, EventsAfter of a run with a name and of
-- cursor c reports an invalid cursor only if the run has fewer than c events, an expired one only
-- if it has more than c plus the limit, and otherwise gives all its events after the first c,
-- with their numbers.
pub broker_exact :
    (limit : ℤ) (es : List Event) (id : String) (c : ℕ)
    → length es < max_int64
    → id ≢ ""
    → let b = publish_all es (new_broker limit) in
      Answer b.history_limit (of_run id es) c (events_after id (pos c) b)
broker_exact limit es id c fits named =
    events_after-Answer (λ j. of_run j es) (publish_all es (new_broker limit)) id c named
      (reached limit es fits)

within :
    (limit : ℕ) (log : List Event) (h : RunHistory)
    → Tracked limit log (some h)
    → length h.events ≤ limit
within limit log h (tracked t) =
    let gone = length log - limit in
    omega (arith, ap length t.kept, length-drop gone (numbered 1 log), length-numbered 1 log)

-- After fewer than 2^63 - 1 publishes to a new broker, no history holds more events than the
-- limit.
pub broker_bounded :
    (limit : ℤ) (es : List Event) (id : String) (h : RunHistory)
    → length es < max_int64
    → find_history id (publish_all es (new_broker limit)).runs ≡ some h
    → length h.events ≤ (publish_all es (new_broker limit)).history_limit
broker_bounded limit es id h fits found =
    let b = publish_all es (new_broker limit) in
    within b.history_limit (of_run id es) h
      (subst (Tracked b.history_limit (of_run id es)) found ((reached limit es fits).histories id))
