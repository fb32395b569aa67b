-- ===== src/Scenario/Serving.antt =====
-- The HTTP server and the broker on concrete worlds.
use agentframe.Base.{
  ◌≤◌, String, ◌≡◌, refl, sym, true, none, some, List, [], ◌∷◌, ◌++◌, append-nil, length, arith,
  eq_iff,
}
use agentframe.Base.Int.{pos, ◌≤ℤ◌}
use agentframe.Agent.Event.{Event, run_started}
use agentframe.Agent.Run.{start}
use agentframe.Agent.Runner.Effects.{plain_event}
use agentframe.Agent.Context.{background}
use agentframe.Agent.Prog.{Part, pure}
use agentframe.Agent.History.{Evolves, Rely-refl}
use agentframe.Runstore.Inmem.{inmem_store}
use agentframe.Runstore.Inmem.Laws.{load-Rely}
use agentframe.Runstream.{
  StreamEvent, Broker, new_broker, publish_locked, run_locked, put_history, find_history,
  events_after, events_in,
}
use agentframe.Runstream.Answers.{
  Answer, publish_all, of_run, broker_exact, broker_bounded, publish_locked-Represents,
  new_broker-Represents,
}
use agentframe.Httpapi.Policies.{Request, allowed_steps, normalize_command_max_steps}
use agentframe.Httpapi.Responses.{error_body, Decoder, decoded}
use agentframe.Httpapi.Commands.{
  Handlers, Runtime, Ready, ready_runtime, ready_parts, validate_max_steps,
}
use agentframe.Httpapi.Events.{Stream, deliver}
use agentframe.Httpapi.Events.Delivery.{Observed, Grew, Delivered, deliver_complete}
use agentframe.Httpapi.{post_cancel, post_start, serve, default_policy_config, router_policy}
use agentframe.Httpapi.Guarantees.{Wired, serve-Evolves}
use agentframe.Httpapi.Access.{serve-unauthorized, validate_max_steps-bounded}
use agentframe.Agentreact.Loop.{budget}
use agentframe.Scenario.{World, host, runner, contract, world, view, states_part}
use agentframe.Scenario.Dispatches.{filed}

abbrev started : String → Event
started id = plain_event id (pos 0) run_started start "started"

abbrev published : List Event
published = started "run-1" ∷ started "run-2" ∷ started "run-1" ∷ []

broker_exact_example :
    Answer 1
      (of_run "run-1" published)
      1
      (events_after "run-1" (pos 1) (publish_all published (new_broker (pos 1))))
unfolding new_broker publish_locked
broker_exact_example =
    broker_exact (pos 1) published "run-1" 1 (omega arith) (λ p. ground (arith, (eq_iff _ _).1 p))

abbrev broker : Broker
broker = publish_all published (new_broker (pos 1))

broker_bounded_example : length (run_locked "run-1" broker.runs).events ≤ broker.history_limit
unfolding new_broker publish_locked run_locked find_history put_history
broker_bounded_example =
    broker_bounded (pos 1) published "run-1" (run_locked "run-1" broker.runs) (omega arith) refl

-- A server whose worlds are the events that were published and those that were sent; another
-- goroutine publishes during the first wait, if nothing was published yet.
record Traffic : Type 0 where
  events : List Event
  sent : List StreamEvent

abbrev during : List Event → List Event
during [] = started "run-1" ∷ []
during (e ∷ es) = e ∷ es

abbrev stream : Stream Traffic
stream = record {
  parse_int = λ s. none;
  flushes = true;
  encode = λ e w. (none, record w { sent = w.sent ++ e ∷ [] });
  tick = λ w. (true, record w { events = during w.events });
}

abbrev broker_part : Part Traffic Broker
broker_part = record { get = λ w. publish_all w.events (new_broker (pos 2)); put = λ b w. w }

abbrev logs_of : Traffic → String → List Event
logs_of w id = of_run id w.events

same_logs : (u w : Traffic) → u.events ≡ w.events → Grew broker_part logs_of u w
same_logs u w e = record {
  more = λ id. [];
  logged = λ id. rw e (sym (append-nil (of_run id w.events)));
  represented = λ r. rw (sym e) r;
}

tick-Grew :
    (events : List Event) (sent : List StreamEvent)
    → let w : Traffic = record { events = events; sent = sent } in
      Grew broker_part logs_of w (stream.tick w).1
tick-Grew [] sent = record {
  more = λ id. of_run id (started "run-1" ∷ []);
  logged = λ id. refl;
  represented =
      λ r. publish_locked-Represents _ (new_broker (pos 2)) (started "run-1") (omega arith) r;
}
tick-Grew (e ∷ es) sent = same_logs _ _ refl

abbrev observed : Observed broker_part stream
observed = record {
  logs = logs_of;
  sent = λ w. w.sent;
  sends = λ e w p. refl;
  loses = λ e w p. absurd (p refl);
  encode_grew = λ e w. same_logs _ _ refl;
  tick_grew = λ w. tick-Grew w.events w.sent;
  tick_quiet = λ w. refl;
}

abbrev quiet : Traffic
quiet = record { events = []; sent = [] }

deliver_complete_example :
    let w = (deliver broker_part stream 2 "run-1" (pos 0) [] quiet).1 in
    Delivered 0 [] w.sent (of_run "run-1" w.events)
unfolding new_broker events_after events_in find_history
deliver_complete_example =
    deliver_complete observed 2 "run-1" 0 [] quiet (λ p. ground (arith, (eq_iff _ _).1 p))
      (new_broker-Represents (pos 2)) refl

abbrev decoder : {A : Type 0} → A → Decoder World A
decoder a = record { decode = λ b. pure (decoded a); at_end = λ b. pure true }

abbrev runtime : Runtime World
runtime = record {
  runner = some runner;
  run_store = some (inmem_store host states_part);
  stream_broker =
      some (record { get = λ w. publish_all w.recorded (new_broker (pos 0)); put = λ b w. w });
  tool_definitions = [];
}

abbrev server : Handlers World
server = record {
  runtime = some runtime;
  policy = router_policy none;
  host = host;
  start_decoder = decoder (record {
    run_id = "run-3";
    system_prompt = "be brief";
    user_prompt = "hi";
    max_steps = none;
  });
  continue_decoder = decoder (record { command_id = ""; max_steps = none; resolution = none });
  steer_decoder = decoder (record { instruction = "go on" });
  follow_up_decoder = decoder (record { prompt = "more"; max_steps = none });
}

abbrev ready : Ready World
ready = record {
  runner = runner;
  run_store = inmem_store host states_part;
  stream_broker = record { get = λ w. publish_all w.recorded (new_broker (pos 0)); put = λ b w. w };
  tool_definitions = [];
}

abbrev client : Stream World
client = record { parse_int = λ s. none; flushes = true; encode = λ e. pure none; tick = pure true }

abbrev wired : Wired server client ready contract
unfolding contract ready_runtime ready_parts
wired = record {
  ready = refl;
  load = λ ctx id w. load-Rely host states_part (λ x w. refl) (λ w. Rely-refl (view w)) ctx id w;
  start_read = λ b w. Rely-refl (view w);
  start_end = λ b w. Rely-refl (view w);
  continue_read = λ b w. Rely-refl (view w);
  continue_end = λ b w. Rely-refl (view w);
  steer_read = λ b w. Rely-refl (view w);
  steer_end = λ b w. Rely-refl (view w);
  follow_up_read = λ b w. Rely-refl (view w);
  follow_up_end = λ b w. Rely-refl (view w);
  encode = λ e w. Rely-refl (view w);
  tick = λ w. Rely-refl (view w);
}

abbrev bearer : String → String
bearer s = s

abbrev request : Request
request = record {
  context = background;
  timeout = none;
  authorization = "coding-agent-dev-token";
  path_run_id = "run-2";
  cursor = "";
  body = record { present = true; limit = none };
}

serve-Evolves_example :
    Evolves (view world) (view (serve bearer server client 3 post_start request world).1)
unfolding contract
serve-Evolves_example = serve-Evolves wired bearer 3 post_start request world filed

serve-unauthorized_example :
    serve bearer server client 3 post_cancel (record request { authorization = "guess" }) world
    ≡ (error_body 401 (record { code = "unauthorized"; message = "error" }), world)
unfolding router_policy default_policy_config
serve-unauthorized_example =
    serve-unauthorized bearer server client 3 post_cancel
      (record request { authorization = "guess" }) world refl refl refl

validate_max_steps-bounded_example : pos (budget (pos 5)) ≤ℤ allowed_steps (pos 6)
unfolding validate_max_steps normalize_command_max_steps
validate_max_steps-bounded_example =
    validate_max_steps-bounded host.error_text (some (pos 5)) (pos 6) (pos 5) refl
