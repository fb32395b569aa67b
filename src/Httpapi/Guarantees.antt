-- ===== src/Httpapi/Guarantees.antt =====
-- The HTTP server keeps the runner's guarantees for the stored runs.
use agentframe.Base.{
  ℕ, zero, suc, String, ◌≡◌, Bool, true, false, Option, none, some, List, [], ◌∷◌, ◌==◌, not, ◌&&◌,
  if◌then◌else◌,
}
use agentframe.Base.Int.{ℤ}
use agentframe.Agent.Errors.{GoError}
use agentframe.Agent.Run.{Command, cancel_command}
use agentframe.Agent.Context.{Context}
use agentframe.Agent.Prog.{Prog, pure, on_error, ◌>>=◌}
use agentframe.Agent.History.{Rely-refl, Rely-trans, IsFiled, Evolves}
use agentframe.Agent.Runner.Finish.{Reply}
use agentframe.Agent.Runner.{dispatch}
use agentframe.Agent.Runner.Contract.{Contract}
use agentframe.Agent.Runner.Guarantee.{Safe}
use agentframe.Agent.Runner.Dispatch.{dispatch-Evolves}
use agentframe.Runstream.{StreamEvent}
use agentframe.Httpapi.Policies.{Request, Body, auth_middleware, limit_middleware}
use agentframe.Httpapi.Responses.{
  Response, invalid_request_error, stream_started, Decoder, Parsed, parsed, refused, Decoded,
  decoded, too_many_bytes, end_of_file, undecodable, decode_json_body, decode_end, write_error,
}
use agentframe.Httpapi.Commands.{
  Handlers, Ready, ready_runtime, with_runtime, or_fail, or_refuse, send, start_decoded,
  continue_decoded, steer_decoded, follow_up_decoded, handle_run_start, handle_run_continue,
  handle_run_cancel, handle_run_steer, handle_run_follow_up, handle_run_query, path_run_id,
  answer_query, answer, answer_accepting, steps_of, StartRequest, ContinueRequest, SteerRequest,
  FollowUpRequest,
}
use agentframe.Httpapi.Events.{
  Stream, write_events, ask, poll, follow, deliver, stream_from, handle_run_events, parse_cursor,
}
use agentframe.Httpapi.{
  Route, post_start, post_continue, post_cancel, post_steer, post_follow_up, get_run, get_events,
  serve, apply_mutating_policies, chain, Handler,
}

-- The parts of the server, around a runner that keeps its contract, leave the runs alone, but for
-- what other goroutines do meanwhile.
pub record Wired {W : Type 0} (h : Handlers W) (stream : Stream W) (t : Ready W)
    (c : Contract t.runner) : Type 0 where
  pub ready : ready_runtime h.runtime ≡ some t
  pub load : (ctx : Option Context) (id : String) → Safe c (t.run_store.load ctx id)
  pub start_read : (b : Body) → Safe c (h.start_decoder.decode b)
  pub start_end : (b : Body) → Safe c (h.start_decoder.at_end b)
  pub continue_read : (b : Body) → Safe c (h.continue_decoder.decode b)
  pub continue_end : (b : Body) → Safe c (h.continue_decoder.at_end b)
  pub steer_read : (b : Body) → Safe c (h.steer_decoder.decode b)
  pub steer_end : (b : Body) → Safe c (h.steer_decoder.at_end b)
  pub follow_up_read : (b : Body) → Safe c (h.follow_up_decoder.decode b)
  pub follow_up_end : (b : Body) → Safe c (h.follow_up_decoder.at_end b)
  pub encode : (e : StreamEvent) → Safe c (stream.encode e)
  pub tick : Safe c stream.tick

module _ {W : Type 0} {h : Handlers W} {stream : Stream W} {t : Ready W} {c : Contract t.runner}
    (wired : Wired h stream t c) where
  open c use {view}
  open h.host use {trim_space}

  -- A piece of code that keeps the runs evolving.
  record Keeps {A : Type 0} (m : Prog W A) : Type 0 where
    kept : Safe c m

  pure-Keeps : {A : Type 0} {a : A} → Keeps (pure a)
  pure-Keeps = record { kept = λ w. Rely-refl (view w) }

  bind-Keeps :
      {A B : Type 0} {k : A → Prog W B} (m : Prog W A)
      → Keeps m
      → ((a : A) → Keeps (k a))
      → Keeps (m >>= k)
  bind-Keeps m s f = record { kept = λ w. Rely-trans (s.kept w) ((f (m w).0).kept (m w).1) }

  map-Keeps : {A B : Type 0} (m : Prog W A) (f : A → B) → Keeps m → Keeps (m >>= λ a. pure (f a))
  map-Keeps m f s = record { kept = s.kept }

  if-Keeps :
      {A : Type 0} {m k : Prog W A} (b : Bool) → Keeps m → Keeps k → Keeps (if b then m else k)
  if-Keeps true s f = s
  if-Keeps false s f = f

  or_fail-Keeps :
      {A : Type 0} {k : A → Prog W Response} (x : A × Option GoError)
      → ((a : A) → Keeps (k a))
      → Keeps (or_fail h x k)
  unfolding or_fail
  or_fail-Keeps (a, none) f = f a
  or_fail-Keeps (a, some e) f = record { kept = λ w. Rely-refl (view w) }

  on_error-Keeps :
      {A : Type 0} {f : GoError → Prog W A} {k : Prog W A} (e : Option GoError)
      → ((x : GoError) → Keeps (f x))
      → Keeps k
      → Keeps (on_error e f k)
  on_error-Keeps none s r = r
  on_error-Keeps (some x) s r = s x

  ask-Keeps : (id : String) (cursor : ℤ) → Keeps (ask t.stream_broker stream id cursor)
  unfolding ask
  ask-Keeps id cursor = record { kept = λ w. Rely-refl (view w) }

  or_refuse-Keeps :
      {A : Type 0} {k : A → Prog W Response} (x : Parsed A)
      → ((a : A) → Keeps (k a))
      → Keeps (or_refuse h x k)
  unfolding or_refuse
  or_refuse-Keeps (parsed a) f = f a
  or_refuse-Keeps (refused e) f = record { kept = λ w. Rely-refl (view w) }

  with_ready :
      (k : Ready W → Prog W Response)
      → Keeps (k t)
      → Keeps (with_runtime h (ready_runtime h.runtime) k)
  unfolding with_runtime
  with_ready k f = rw wired.ready f

  decode_end-Keeps :
      {A : Type 0} (d : Decoder W A) (b : Body) (x : Decoded A)
      → Safe c (d.at_end b)
      → Keeps (decode_end d b x)
  unfolding decode_end
  decode_end-Keeps d b (decoded a) e =
      map-Keeps (d.at_end b)
        (λ ended.
          if ended
          then parsed a
          else refused (invalid_request_error "request body must contain exactly one JSON object"))
        (record { kept = e })
  decode_end-Keeps d b too_many_bytes e = pure-Keeps
  decode_end-Keeps d b end_of_file e = pure-Keeps
  decode_end-Keeps d b undecodable e = pure-Keeps

  body-Keeps :
      {A : Type 0} {k : A → Prog W Response} (d : Decoder W A) (b : Body)
      → Safe c (d.decode b)
      → Safe c (d.at_end b)
      → ((a : A) → Keeps (k a))
      → Keeps (decode_json_body d b >>= λ body. or_refuse h body k)
  unfolding decode_json_body
  body-Keeps {k} d b s e f =
      bind-Keeps (decode_json_body d b)
        (if-Keeps b.present
          (bind-Keeps (d.decode b) (record { kept = s }) λ x. decode_end-Keeps d b x e) pure-Keeps)
        λ x. or_refuse-Keeps {k = k} x f

  send-Keeps :
      (respond : Reply → Response) (r : Request) (cmd : Command) → Keeps (send h t respond r cmd)
  unfolding send
  send-Keeps respond r cmd =
      map-Keeps (dispatch t.runner (some r.context) cmd) respond
        (record { kept = λ w. dispatch-Evolves c (some r.context) cmd w })

  start_decoded-Keeps : (r : Request) (body : StartRequest) → Keeps (start_decoded h t r body)
  unfolding start_decoded
  start_decoded-Keeps r body = if-Keeps (trim_space body.user_prompt == "") pure-Keeps (
      if-Keeps (not (body.run_id == "") && trim_space body.run_id == "") pure-Keeps
        (or_fail-Keeps (steps_of h body.max_steps) λ n. send-Keeps (answer_accepting h) r _))

  start-Keeps : (r : Request) → Keeps (handle_run_start h r)
  unfolding handle_run_start
  start-Keeps r = with_ready _ (
      body-Keeps h.start_decoder r.body (wired.start_read r.body) (wired.start_end r.body)
        (start_decoded-Keeps r))

  continue_decoded-Keeps :
      (r : Request) (id : String) (body : ContinueRequest) → Keeps (continue_decoded h t r id body)
  unfolding continue_decoded
  continue_decoded-Keeps r id body =
      or_fail-Keeps (steps_of h body.max_steps) λ n. send-Keeps (answer_accepting h) r _

  continue-Keeps : (r : Request) → Keeps (handle_run_continue h r)
  unfolding handle_run_continue
  continue-Keeps r = with_ready _ (
      or_fail-Keeps (path_run_id trim_space r) λ id.
        body-Keeps h.continue_decoder r.body (wired.continue_read r.body)
          (wired.continue_end r.body) (continue_decoded-Keeps r id))

  cancel-Keeps : (r : Request) → Keeps (handle_run_cancel h r)
  unfolding handle_run_cancel
  cancel-Keeps r =
      with_ready _
        (or_fail-Keeps (path_run_id trim_space r) λ id. send-Keeps (answer h) r (cancel_command id))

  steer_decoded-Keeps :
      (r : Request) (id : String) (body : SteerRequest) → Keeps (steer_decoded h t r id body)
  unfolding steer_decoded
  steer_decoded-Keeps r id body =
      if-Keeps (trim_space body.instruction == "") pure-Keeps (send-Keeps (answer h) r _)

  steer-Keeps : (r : Request) → Keeps (handle_run_steer h r)
  unfolding handle_run_steer
  steer-Keeps r = with_ready _ (
      or_fail-Keeps (path_run_id trim_space r) λ id.
        body-Keeps h.steer_decoder r.body (wired.steer_read r.body) (wired.steer_end r.body)
          (steer_decoded-Keeps r id))

  follow_up_decoded-Keeps :
      (r : Request) (id : String) (body : FollowUpRequest) → Keeps (follow_up_decoded h t r id body)
  unfolding follow_up_decoded
  follow_up_decoded-Keeps r id body =
      if-Keeps (trim_space body.prompt == "") pure-Keeps
        (or_fail-Keeps (steps_of h body.max_steps) λ n. send-Keeps (answer_accepting h) r _)

  follow_up-Keeps : (r : Request) → Keeps (handle_run_follow_up h r)
  unfolding handle_run_follow_up
  follow_up-Keeps r = with_ready _ (
      or_fail-Keeps (path_run_id trim_space r) λ id.
        body-Keeps h.follow_up_decoder r.body (wired.follow_up_read r.body)
          (wired.follow_up_end r.body) (follow_up_decoded-Keeps r id))

  query-Keeps : (r : Request) → Keeps (handle_run_query h r)
  unfolding handle_run_query
  query-Keeps r = with_ready _ (
      or_fail-Keeps (path_run_id trim_space r) λ id.
        map-Keeps (t.run_store.load (some r.context) id) (answer_query h)
          (record { kept = wired.load (some r.context) id }))

  write_events-Keeps :
      (cursor : ℤ) (es : List StreamEvent) → Keeps (write_events t.stream_broker stream cursor es)
  unfolding write_events
  write_events-Keeps cursor [] = pure-Keeps
  write_events-Keeps cursor (e ∷ es) =
      bind-Keeps (stream.encode e) (record { kept = wired.encode e })
        λ err.
          on_error-Keeps err (λ x. pure-Keeps {a = (cursor, some x)}) (write_events-Keeps e.id es)

  poll-Keeps : (id : String) (cursor : ℤ) → Keeps (poll t.stream_broker stream id cursor)
  unfolding poll
  poll-Keeps id cursor =
      bind-Keeps (ask t.stream_broker stream id cursor) (ask-Keeps id cursor) λ x.
        on_error-Keeps x.1 (λ e. pure-Keeps {a = (cursor, some e)}) (write_events-Keeps cursor x.0)

  follow-Keeps :
      (n : ℕ) (id : String) (x : ℤ × Option GoError) → Keeps (follow t.stream_broker stream n id x)
  unfolding follow
  follow-Keeps zero id (cursor, err) = pure-Keeps
  follow-Keeps (suc n) id (cursor, some x) = pure-Keeps
  follow-Keeps (suc n) id (cursor, none) =
      bind-Keeps stream.tick (record { kept = wired.tick })
        λ ticked.
          if-Keeps ticked
            (bind-Keeps (poll t.stream_broker stream id cursor) (poll-Keeps id cursor)
              λ x. follow-Keeps n id x)
            pure-Keeps

  stream_from-Keeps :
      (n : ℕ) (id : String) (cursor : ℤ) → Keeps (stream_from h stream n t id cursor)
  unfolding stream_from deliver
  stream_from-Keeps n id cursor =
      bind-Keeps (ask t.stream_broker stream id cursor) (ask-Keeps id cursor) λ x.
        or_fail-Keeps x λ buffered.
          if-Keeps stream.flushes
            (map-Keeps (deliver t.stream_broker stream n id cursor buffered)
              (λ done. stream_started 200)
              (bind-Keeps (write_events t.stream_broker stream cursor buffered)
                (write_events-Keeps cursor buffered) λ y. follow-Keeps n id y))
            (pure-Keeps
              {a = write_error 500 "runtime_error" "streaming is unsupported by response writer"})

  events-Keeps : (n : ℕ) (r : Request) → Keeps (handle_run_events h stream n r)
  unfolding handle_run_events
  events-Keeps n r = with_ready _ (
      or_fail-Keeps (path_run_id trim_space r) λ id.
        bind-Keeps (t.run_store.load (some r.context) id)
          (record { kept = wired.load (some r.context) id })
          λ x.
            or_fail-Keeps x
              λ s. or_fail-Keeps (parse_cursor stream.parse_int r) (stream_from-Keeps n id))

  policies-Keeps :
      (bearer : String → String) (next : Handler W) (r : Request)
      → ((q : Request) → Keeps (next q))
      → Keeps (apply_mutating_policies bearer h stream next r)
  unfolding apply_mutating_policies chain auth_middleware limit_middleware
  policies-Keeps bearer next r f = if-Keeps (trim_space h.policy.auth_token == "") (f _) (
      if-Keeps (not (trim_space r.authorization == bearer (trim_space h.policy.auth_token)))
        pure-Keeps (f _))

  serve-Keeps :
      (bearer : String → String) (n : ℕ) (route : Route) (r : Request)
      → Keeps (serve bearer h stream n route r)
  unfolding serve
  serve-Keeps bearer n post_start r = policies-Keeps bearer _ r start-Keeps
  serve-Keeps bearer n post_continue r = policies-Keeps bearer _ r continue-Keeps
  serve-Keeps bearer n post_cancel r = policies-Keeps bearer _ r cancel-Keeps
  serve-Keeps bearer n post_steer r = policies-Keeps bearer _ r steer-Keeps
  serve-Keeps bearer n post_follow_up r = policies-Keeps bearer _ r follow_up-Keeps
  serve-Keeps bearer n get_run r = query-Keeps r
  serve-Keeps bearer n get_events r = events-Keeps n r

  -- If the decoders, the stream to the client and the loads of the server change stored runs,
  -- if at all, only in the ways in which commands do, and the runner keeps its contract: from a
  -- well-formed store, every HTTP request to any route, authorized or not, leads to a well-
  -- formed store in which each run went through creations and advances only.
  pub serve-Evolves :
      (bearer : String → String) (n : ℕ) (route : Route) (r : Request) (w : W)
      → IsFiled (view w)
      → Evolves (view w) (view (serve bearer h stream n route r w).1)
  serve-Evolves bearer n route r w filed = (serve-Keeps bearer n route r).kept w filed
