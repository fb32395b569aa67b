-- ===== src/Httpapi/Events.antt =====
-- examples/coding-agent/server/internal/httpapi/handlers_run_events.go: the stream of a run's events.
-- The loop ends when the request's context does; it recurs on a bound for its rounds.
pub mod Position
pub mod Delivery
use agentframe.Base.{
  ℕ, zero, suc, String, Bool, true, false, Option, none, some, List, [], ◌∷◌, ◌==◌, if◌then◌else◌,
}
use agentframe.Base.Int.{ℤ, pos, negative}
use agentframe.Agent.Run.{RunState}
use agentframe.Agent.Errors.{GoError, fails, cursor_invalid}
use agentframe.Agent.Prog.{Prog, Part, pure, on_error, ◌>>=◌}
use agentframe.Runstream.{Broker, StreamEvent, events_after, Answered}
use agentframe.Httpapi.Policies.{Request}
use agentframe.Httpapi.Responses.{Response, stream_started, write_error, write_mapped_error}
use agentframe.Httpapi.Commands.{Handlers, Ready, with_runtime, ready_runtime, or_fail, path_run_id}

-- The client's end: strconv.ParseInt, the test that the response writer can flush, the JSON encoder
-- with the flush after it, and the wait for the next tick (`true`) or the end of the request.
pub record Stream (W : Type 0) : Type 0 where
  pub parse_int : String → Option ℤ
  pub flushes : Bool
  pub encode : StreamEvent → Prog W (Option GoError)
  pub tick : Prog W Bool

bad_cursor : ℤ × Option GoError
bad_cursor = (pos 0, fails cursor_invalid "cursor must be a non-negative integer")

checked_cursor : Option ℤ → ℤ × Option GoError
unfolding bad_cursor
checked_cursor none = bad_cursor
checked_cursor (some n) = if negative n then bad_cursor else (n, none)

-- parseCursor
unfoldable pub parse_cursor : (String → Option ℤ) → Request → ℤ × Option GoError
unfolding checked_cursor
parse_cursor parse_int r =
    if r.cursor == "" then (pos 0, none) else checked_cursor (parse_int r.cursor)

module _ {W : Type 0} (broker : Part W Broker) (stream : Stream W) where
  -- one pass over the events, up to the first that cannot be written, with the cursor after it
  unfoldable pub write_events : ℤ → List StreamEvent → Prog W (ℤ × Option GoError)
  write_events cursor [] = pure (cursor, none)
  write_events cursor (e ∷ es) = do
    err ← stream.encode e
    on_error err (λ x. pure (cursor, some x)) (write_events e.id es)

  -- EventsAfter, of the broker as it is now
  unfoldable pub ask : String → ℤ → Prog W Answered
  ask run_id cursor w = (events_after run_id cursor (broker.get w), w)

  -- one tick: the next events are written; the cursor after them, unless the stream ends
  unfoldable pub poll : String → ℤ → Prog W (ℤ × Option GoError)
  unfolding ask
  poll run_id cursor = do
    (next, err) ← ask run_id cursor
    on_error err (λ x. pure (cursor, some x)) (write_events cursor next)

  -- the `for` loop, for so many rounds at most
  unfoldable pub follow : ℕ → String → ℤ × Option GoError → Prog W (Unit {0})
  follow zero run_id (cursor, err) = pure tt
  follow (suc n) run_id (cursor, some x) = pure tt
  follow (suc n) run_id (cursor, none) = do
    ticked ← stream.tick
    if ticked then (do written ← poll run_id cursor; follow n run_id written) else pure tt

  -- what is written once the request is accepted
  unfoldable pub deliver : ℕ → String → ℤ → List StreamEvent → Prog W (Unit {0})
  deliver n run_id cursor buffered = do
    written ← write_events cursor buffered
    follow n run_id written

module _ {W : Type 0} (h : Handlers W) (stream : Stream W) where
  open h.host use {trim_space, error_text}

  unfoldable pub stream_from : ℕ → Ready W → String → ℤ → Prog W Response
  stream_from n t run_id cursor = do
    answered ← ask t.stream_broker stream run_id cursor
    or_fail h answered (λ buffered.
        if stream.flushes
        then (do
          done ← deliver t.stream_broker stream n run_id cursor buffered
          pure (stream_started 200))
        else pure (write_error 500 "runtime_error" "streaming is unsupported by response writer"))

  -- handleRunEvents
  unfoldable pub handle_run_events : ℕ → Request → Prog W Response
  unfolding stream_from
  handle_run_events n r = with_runtime h (ready_runtime h.runtime) (λ t.
      or_fail h (path_run_id trim_space r) (λ run_id. do
        loaded ← t.run_store.load (some r.context) run_id
        or_fail h loaded
            (λ s. or_fail h (parse_cursor stream.parse_int r) (stream_from n t run_id))))
