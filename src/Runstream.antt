-- ===== src/Runstream.antt =====
-- examples/coding-agent/server/internal/runstream/broker.go: the last events of each run, numbered,
-- for clients that follow a run. The map is a list of entries in which a run has one entry at most;
-- a history is written back where the source changes it through its pointer.
pub mod Numbered
pub mod Tail
pub mod Answers
use agentframe.Base.{
  ℕ, ◌+◌, ◌-◌, String, Bool, true, false, Option, none, some, List, [], ◌∷◌, ◌++◌, map, ◌==◌, not,
  if◌then◌else◌, ltb, length, drop, or_else,
}
use agentframe.Base.Int.{ℤ, pos, negsuc, increment, decrement, negative, nonpositive, ltbℤ, eqbℤ}
use agentframe.Agent.Event.{Event}
use agentframe.Agent.Errors.{
  GoError, sentinel, context_nil, fails, invalid_run_id, cursor_invalid, cursor_expired,
}
use agentframe.Agent.Validation.{validate_event}
use agentframe.Agent.Context.{Context}
use agentframe.Agent.Prog.{Prog, Part, pure, on_error, ◌>>=◌}
use agentframe.Agent.Interfaces.{Host, EventSink, ctx_err}
use agentframe.Eventing.Inmem.{clone_event}

pub record StreamEvent : Type 0 where
  pub id : ℤ
  pub event : Event

pub record RunHistory : Type 0 where
  pub next_id : ℤ
  pub events : List StreamEvent

abbrev pub Histories : Type 0
Histories = List (String × RunHistory)

-- The limit is positive, since New sees to it.
pub record Broker : Type 0 where
  pub history_limit : ℕ
  pub runs : Histories

abbrev pub default_history_limit : ℕ
default_history_limit = 32

limit_of : ℤ → ℕ
limit_of (pos n) = n
limit_of (negsuc n) = 0

-- New
unfoldable pub new_broker : ℤ → Broker
unfolding limit_of
new_broker limit = record {
  history_limit = if nonpositive limit then default_history_limit else limit_of limit;
  runs = [];
}

-- `history, ok := b.runs[runID]`
unfoldable pub find_history : String → Histories → Option RunHistory
find_history id [] = none
find_history id ((k, h) ∷ rest) = if k == id then some h else find_history id rest

-- `b.runs[runID] = history`
unfoldable pub put_history : String → RunHistory → Histories → Histories
put_history id h [] = (id, h) ∷ []
put_history id h ((k, g) ∷ rest) = if k == id then (k, h) ∷ rest else (k, g) ∷ put_history id h rest

abbrev pub new_history : RunHistory
new_history = record { next_id = pos 1; events = [] }

-- runLocked: the history of a run, which is made if there is none
unfoldable pub run_locked : String → Histories → RunHistory
run_locked id runs = or_else new_history (find_history id runs)

trim : ℕ → List StreamEvent → List StreamEvent
trim limit es = if ltb limit (length es) then drop (length es - limit) es else es

-- one event at the end of a history
unfoldable pub push : ℕ → Event → RunHistory → RunHistory
unfolding trim
push limit e h = record {
  next_id = increment h.next_id;
  events = trim limit (h.events ++ record { id = h.next_id; event = clone_event e } ∷ []);
}

-- what Publish does under the lock
unfoldable pub publish_locked : Event → Broker → Broker
publish_locked e b = record b {
  runs = put_history e.run_id (push b.history_limit e (run_locked e.run_id b.runs)) b.runs;
}

module _ {W : Type 0} (host : Host W) (broker : Part W Broker) where
  broadcast : Event → Prog W (Option GoError)
  broadcast e w = (none, broker.put (publish_locked e (broker.get w)) w)

  -- Publish
  unfoldable pub publish : Option Context → Event → Prog W (Option GoError)
  unfolding broadcast
  publish none e = pure (some (sentinel context_nil))
  publish (some ctx) e = do
    x ← ctx_err host ctx
    on_error x (λ y. pure (some y)) (on_error (validate_event e) (λ y. pure (some y)) (broadcast e))

  abbrev pub broker_sink : EventSink W
  broker_sink = record { publish = publish }

unfoldable pub clone_stream_event : StreamEvent → StreamEvent
clone_stream_event s = record s { event = clone_event s.event }

-- `cursor < history.events[0].ID - 1`, of a history that has events
unfoldable pub has_expired : ℤ → List StreamEvent → Bool
has_expired cursor [] = false
has_expired cursor (e ∷ es) = ltbℤ cursor (decrement e.id)

-- the loop over `start`: what is left after the events up to the cursor
unfoldable pub skip_to : ℤ → List StreamEvent → List StreamEvent
skip_to cursor [] = []
skip_to cursor (e ∷ es) = let rest = skip_to cursor es in if ltbℤ cursor e.id then e ∷ es else rest

abbrev pub Answered : Type 0
Answered = List StreamEvent × Option GoError

-- EventsAfter, of the history that it finds
unfoldable pub events_in : Option RunHistory → ℤ → Answered
events_in none cursor =
    if eqbℤ cursor (pos 0) then ([], none) else ([], fails cursor_invalid "no events for run")
events_in (some h) cursor =
    if not (ltbℤ cursor h.next_id)
    then ([], fails cursor_invalid "cursor is beyond latest id")
    else if has_expired cursor h.events
    then ([], fails cursor_expired "oldest_available")
    else (map clone_stream_event (skip_to cursor h.events), none)

-- EventsAfter
unfoldable pub events_after : String → ℤ → Broker → Answered
events_after id cursor b =
    if id == ""
    then ([], fails invalid_run_id "run_id is required")
    else if negative cursor
    then ([], fails cursor_invalid "cursor must be non-negative")
    else events_in (find_history id b.runs) cursor
