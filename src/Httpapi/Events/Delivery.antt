-- ===== src/Httpapi/Events/Delivery.antt =====
-- What a client of the event stream gets, whatever is published meanwhile.
use agentframe.Base.{
  ℕ, zero, suc, ◌+◌, ◌≤◌, String, ◌≡◌, ◌≢◌, refl, sym, ap, ◌∙◌, subst, Option, none, some, List, [],
  ◌∷◌, ◌++◌, length, drop, arith, append_assoc, append-nil, Option-cases, Bool-cases, inl, inr,
}
use agentframe.Base.Int.{ℤ, pos}
use agentframe.Agent.Event.{Event}
use agentframe.Agent.Errors.{GoError, is}
use agentframe.Agent.Prog.{Part, on_error, pure}
use agentframe.Runstream.{StreamEvent, Broker, events_after, Answered}
use agentframe.Runstream.Numbered.{numbered}
use agentframe.Runstream.Answers.{
  Logs, Represents, Answer, beyond, expired, served, events_after-Answer,
}
use agentframe.Httpapi.Events.{Stream, write_events, ask, poll, follow, deliver}
use agentframe.Httpapi.Events.Position.{
  Position, Position-start, Position-grows, Position-next, drop-next, drop-grown,
}

-- Between two worlds, each log may have grown, and the broker still represents the logs.
pub record Grew {W : Type 0} (broker : Part W Broker) (logs : W → Logs) (u w : W) : Type 0 where
  pub more : String → List Event
  pub logged : (id : String) → logs w id ≡ logs u id ++ more id
  pub represented : Represents (logs u) (broker.get u) → Represents (logs w) (broker.get w)

-- `sent` is what reached the client: an event that is encoded without an error, and no other.
pub record Observed {W : Type 0} (broker : Part W Broker) (stream : Stream W) : Type 0 where
  pub logs : W → Logs
  pub sent : W → List StreamEvent
  pub sends :
      (e : StreamEvent) (w : W)
      → (stream.encode e w).0 ≡ none
      → sent (stream.encode e w).1 ≡ sent w ++ e ∷ []
  pub loses :
      (e : StreamEvent) (w : W) → (stream.encode e w).0 ≢ none → sent (stream.encode e w).1 ≡ sent w
  pub encode_grew : (e : StreamEvent) (w : W) → Grew broker logs w (stream.encode e w).1
  pub tick_grew : (w : W) → Grew broker logs w (stream.tick w).1
  pub tick_quiet : (w : W) → sent (stream.tick w).1 ≡ sent w

-- What holds of the stream at its cursor since it started in a world `start`.
record At {W : Type 0} {broker : Part W Broker} {stream : Stream W} (o : Observed broker stream)
    (id : String) (c : ℕ) (before : List StreamEvent) (cursor : ℤ) (w : W) : Type 0 where
  new : List StreamEvent
  written : o.sent w ≡ before ++ new
  position : Position c cursor new (o.logs w id)
  represented : Represents (o.logs w) (broker.get w)

-- The client got, after what it had, the events of the run after its cursor, in their order, up to
-- some event, without a gap and without a repetition.
pub record Delivered (c : ℕ) (before after : List StreamEvent) (log : List Event) : Type 0 where
  pub new : List StreamEvent
  pub missing : List StreamEvent
  pub written : after ≡ before ++ new
  pub complete : drop c (numbered 1 log) ≡ new ++ missing

module _ {W : Type 0} {broker : Part W Broker} {stream : Stream W} (o : Observed broker stream)
    (id : String) (c : ℕ) (before : List StreamEvent) where
  At-Grew :
      (cursor : ℤ) (u w : W)
      → Grew broker o.logs u w
      → o.sent w ≡ o.sent u
      → At o id c before cursor u
      → At o id c before cursor w
  At-Grew cursor u w g same a = record {
    new = a.new;
    written = same ∙ a.written;
    position =
        subst (Position c cursor a.new) (sym (g.logged id))
          (Position-grows c cursor a.new (o.logs u id) (g.more id) a.position);
    represented = g.represented a.represented;
  }

  -- The events of one pass are next in the log, which may be longer already.
  write_events-At :
      (es tail : List StreamEvent) (cursor : ℤ) (w : W) (a : At o id c before cursor w)
      → drop (c + length a.new) (numbered 1 (o.logs w id)) ≡ es ++ tail
      → let (x, w') = write_events broker stream cursor es w in At o id c before x.0 w'
  unfolding write_events
  write_events-At [] tail cursor w a next = a
  write_events-At (e ∷ es) tail cursor w a next =
      let err = (stream.encode e w).0 in
      let u = (stream.encode e w).1 in
      let g = o.encode_grew e w in
      elim (Option-cases err) [
        | inr (x, failed) ↦ rw failed (At-Grew cursor w u g (o.loses e w (λ p. cc)) a)
        | inl ok ↦
            let log = o.logs w id in
            let k = c + length a.new in
            let later = numbered (1 + length log) (g.more id) in
            let rest = (es ++ tail) ++ later in
            let at_u : drop k (numbered 1 (o.logs u id)) ≡ e ∷ rest =
              ap (λ l. drop k (numbered 1 l)) (g.logged id)
              ∙ (drop-grown k log (g.more id) a.position.within ∙ ap (λ x. x ++ later) next) in
            let b : At o id c before e.id u = record {
              new = a.new ++ e ∷ [];
              written =
                  o.sends e w ok
                  ∙ (ap (λ x. x ++ e ∷ []) a.written ∙ append_assoc before a.new (e ∷ []));
              position = Position-next c a.new (o.logs u id) e rest at_u (
                  subst (Position c cursor a.new) (sym (g.logged id))
                    (Position-grows c cursor a.new log (g.more id) a.position));
              represented = g.represented a.represented;
            } in
            rw ok (
              write_events-At es (tail ++ later) e.id u b
                (drop-next c a.new (o.logs u id) e rest at_u ∙ append_assoc es tail later))
      ]

  -- Whatever the broker answers, the stream stays at its cursor or gets what is next.
  heard-At :
      {limit : ℕ} (cursor : ℤ) (w : W) (a : At o id c before cursor w) {x : Answered}
      → Answer limit (o.logs w id) (c + length a.new) x
      → let (y, w') =
          on_error x.1 (λ e. pure (cursor, some e)) (write_events broker stream cursor x.0) w in
        At o id c before y.0 w'
  unfolding write_events
  heard-At cursor w a (beyond none far wrong) = a
  heard-At cursor w a (beyond (some e) far wrong) = a
  heard-At cursor w a (expired none old wrong) = a
  heard-At cursor w a (expired (some e) old wrong) = a
  heard-At cursor w a (served near kept) =
      let next = drop (c + length a.new) (numbered 1 (o.logs w id)) in
      write_events-At next [] cursor w a (sym (append-nil next))

  poll-At :
      (cursor : ℤ) (w : W)
      → id ≢ ""
      → At o id c before cursor w
      → let (x, w') = poll broker stream id cursor w in At o id c before x.0 w'
  unfolding poll ask
  poll-At cursor w named a =
      let k = c + length a.new in
      heard-At cursor w a (
        subst
          (λ x.
            Answer (broker.get w).history_limit (o.logs w id) k (events_after id x (broker.get w)))
          (sym a.position.counted)
          (events_after-Answer (o.logs w) (broker.get w) id k named a.represented))

  follow-At :
      (n : ℕ) (x : ℤ × Option GoError) (w : W)
      → id ≢ ""
      → At o id c before x.0 w
      → (end : ℤ) × At o id c before end (follow broker stream n id x w).1
  unfolding follow
  follow-At zero (cursor, err) w named a = (cursor, a)
  follow-At (suc n) (cursor, some x) w named a = (cursor, a)
  follow-At (suc n) (cursor, none) w named a =
      let u = (stream.tick w).1 in
      let b = At-Grew cursor w u (o.tick_grew w) (o.tick_quiet w) a in
      elim (Bool-cases (stream.tick w).0) [
        | inr ended ↦ rw ended (cursor, b)
        | inl ticked ↦ rw ticked (
            follow-At n (poll broker stream id cursor u).0 (poll broker stream id cursor u).1 named
              (poll-At cursor u named b))
      ]

asked-within :
    {limit c : ℕ} {log : List Event} {x : Answered}
    → Answer limit log c x
    → x.1 ≡ none
    → c ≤ length log
unfolding is
asked-within (beyond none far wrong) e = cc
asked-within (beyond (some x) far wrong) e = cc
asked-within (expired none old wrong) e = cc
asked-within (expired (some x) old wrong) e = cc
asked-within (served near kept) e = near

-- The stream of a run's events that starts after cursor c writes to the client the events of the
-- run with the numbers c + 1, c + 2 and so on, up to some event, each once and in this order,
-- whatever else is published meanwhile and for however many rounds it polls. It is assumed that
-- other goroutines change the broker by publishing only, and that an event is sent exactly if its
-- encoding succeeds.
pub deliver_complete :
    {W : Type 0} {broker : Part W Broker} {stream : Stream W} (o : Observed broker stream) (n : ℕ)
    (id : String) (c : ℕ) (buffered : List StreamEvent) (w : W)
    → id ≢ ""
    → Represents (o.logs w) (broker.get w)
    → events_after id (pos c) (broker.get w) ≡ (buffered, none)
    → let w' = (deliver broker stream n id (pos c) buffered w).1 in
      Delivered c (o.sent w) (o.sent w') (o.logs w' id)
unfolding deliver
deliver_complete {broker} {stream} o n id c buffered w named r asked =
    let limit = (broker.get w).history_limit in
    let log = o.logs w id in
    let answer : Answer limit log c (buffered, none) =
      subst (Answer limit log c) asked
        (events_after-Answer (o.logs w) (broker.get w) id c named r) in
    let a : At o id c (o.sent w) (pos c) w = record {
      new = [];
      written = sym (append-nil (o.sent w));
      position = Position-start c log (asked-within answer refl);
      represented = r;
    } in
    let x = write_events broker stream (pos c) buffered w in
    let first : c ≡ c + 0 = omega arith in
    let b =
      heard-At o id c (o.sent w) (pos c) w a
        (subst (λ k. Answer limit log k (buffered, none)) first answer) in
    let end = (follow-At o id c (o.sent w) n x.0 x.1 named b).1 in
    record {
      new = end.new;
      missing = _;
      written = end.written;
      complete = sym end.position.complete;
    }
