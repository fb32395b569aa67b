-- ===== src/Eventing/Inmem.antt =====
-- eventing/inmem/sink.go: the events that were published, in order.
use agentframe.Base.{
  ◌≡◌, ◌≢◌, refl, ap, Option, none, some, List, [], ◌∷◌, ◌++◌, map, inl, inr, ◌⊎◌, arith,
}
use agentframe.Agent.Message.{Message, clone_message, clone_message-id}
use agentframe.Agent.Event.{Event}
use agentframe.Agent.Errors.{GoError, sentinel, context_nil}
use agentframe.Agent.Validation.{validate_event}
use agentframe.Agent.Context.{Context}
use agentframe.Agent.Prog.{Prog, Part, pure, on_error, ◌>>=◌}
use agentframe.Agent.Interfaces.{Host, EventSink, ctx_err}

clone_payload : Option Message → Option Message
clone_payload none = none
clone_payload (some m) = some (clone_message m)

-- cloneEvent; the copy of a tool result is the result
unfoldable pub clone_event : Event → Event
unfolding clone_payload
clone_event e = record e { message = clone_payload e.message }

clone_payload-id : (m : Option Message) → clone_payload m ≡ m
unfolding clone_payload
clone_payload-id none = refl
clone_payload-id (some m) = ap some (clone_message-id m)

pub clone_event-id : (e : Event) → clone_event e ≡ e
unfolding clone_event
clone_event-id e = λ i. record e { message = clone_payload-id e.message i }

abbrev pub Recorded : Type 0
Recorded = List Event

-- Events(): copies of what was recorded
unfoldable pub recorded_events : Recorded → List Event
recorded_events = map clone_event

module _ {W : Type 0} (host : Host W) (recorded : Part W Recorded) where
  record_event : Event → Prog W (Option GoError)
  record_event e w = (none, recorded.put (recorded.get w ++ clone_event e ∷ []) w)

  -- Publish
  unfoldable pub publish : Option Context → Event → Prog W (Option GoError)
  unfolding record_event
  publish none e = pure (some (sentinel context_nil))
  publish (some ctx) e = do
    x ← ctx_err host ctx
    on_error x (λ y. pure (some y))
        (on_error (validate_event e) (λ y. pure (some y)) (record_event e))

  abbrev pub inmem_sink : EventSink W
  inmem_sink = record { publish = publish }

recorded_events-id : (es : Recorded) → recorded_events es ≡ es
unfolding recorded_events
recorded_events-id [] = refl
recorded_events-id (e ∷ es) = λ i. clone_event-id e i ∷ recorded_events-id es i

module _ {W : Type 0} (host : Host W) (recorded : Part W Recorded)
    (get-put : (x : Recorded) (w : W) → recorded.get (recorded.put x w) ≡ x)
    (apart : (w : W) → recorded.get (host.cancellation w).1 ≡ recorded.get w) where
  -- What a caller reads after a publish.
  abbrev seen : W → List Event
  seen w = recorded_events (recorded.get w)

  ctx_apart : (ctx : Context) (w : W) → recorded.get (ctx_err host ctx w).1 ≡ recorded.get w
  unfolding ctx_err
  ctx_apart ctx w = ground (arith, apart w)

  abbrev publish_rest : Event → Option GoError → Option GoError → Prog W (Option GoError)
  publish_rest e x v =
      on_error x (λ y. pure (some y))
        (on_error v (λ y. pure (some y)) (record_event host recorded e))

  -- If the record of the sink gives back what is put into it, and the test for cancellation
  -- leaves it alone, then a publish of the in-memory sink succeeds with a valid event and
  -- records it last, or fails and records nothing.
  pub publish_records :
      (ctx : Option Context) (e : Event) (w : W)
      → let (x, w') = publish host recorded ctx e w in
        ((x ≡ none) × (validate_event e ≡ none) × (seen w' ≡ seen w ++ e ∷ []))
        ⊎ ((x ≢ none) × (seen w' ≡ seen w))
  unfolding publish
  publish_records none e w = inr (λ p. cc, refl)
  publish_records (some ctx) e w =
      go (ctx_err host ctx w).0 (validate_event e) (ctx_err host ctx w).1 refl (ctx_apart ctx w)
    where
      go :
          (x v : Option GoError) (u : W)
          → validate_event e ≡ v
          → recorded.get u ≡ recorded.get w
          → let (y, w') = publish_rest e x v u in
            ((y ≡ none) × (validate_event e ≡ none) × (seen w' ≡ seen w ++ e ∷ []))
            ⊎ ((y ≢ none) × (seen w' ≡ seen w))
      go (some x) v u q same = inr (λ p. cc, ap recorded_events same)
      go none (some x) u q same = inr (λ p. cc, ap recorded_events same)
      go none none u q same =
          inl (refl, q, rw (get-put, recorded_events-id, recorded_events-id, same, clone_event-id))
