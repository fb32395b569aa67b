-- ===== src/Httpapi/Responses.antt =====
-- examples/coding-agent/server/internal/httpapi/response.go: the responses, and the status of each
-- error.
use agentframe.Base.{ℕ, String, Bool, false, ◌||◌, ◌&&◌, not, Option, List, [], ◌∷◌, if◌then◌else◌}
use agentframe.Base.Int.{ℤ}
use agentframe.Agent.Requirement.{RunStatus, PendingRequirement}
use agentframe.Agent.Run.{RunState}
use agentframe.Agent.Errors.{
  GoError, Sentinel, is, wrap, sentinel, unauthorized, request_too_large, request_timed_out,
  command_budget_exceeded, invalid_request, run_not_found, command_conflict, run_version_conflict,
  cursor_invalid, cursor_expired, run_not_continuable, run_not_cancellable, resolution_required,
  invalid_run_id, resolution_invalid, resolution_unexpected, command_invalid, command_nil,
  command_unsupported, run_state_invalid, tool_definitions_invalid, context_nil, context_canceled,
  deadline_exceeded, max_steps_exceeded, event_publish,
}
use agentframe.Agent.Prog.{Prog, pure, ◌>>=◌}
use agentframe.Httpapi.Policies.{Body}

-- runStateResponse; its pending requirement has the fields of the run's
pub record RunStateResponse : Type 0 where
  pub run_id : String
  pub status : RunStatus
  pub step : ℤ
  pub version : ℤ
  pub output : String
  pub error : String
  pub pending_requirement : Option PendingRequirement

pub record ApiError : Type 0 where
  pub code : String
  pub message : String

-- What a handler writes: a status with a JSON body, or the status of a stream that has started.
pub data Response : Type 0 where
  run_state_body : ℕ → RunStateResponse → Response
  error_body : ℕ → ApiError → Response
  stream_started : ℕ → Response

abbrev pub status_of : Response → ℕ
status_of (run_state_body n b) = n
status_of (error_body n e) = n
status_of (stream_started n) = n

-- writeRunState
unfoldable pub write_run_state : ℕ → RunState → Response
write_run_state status s = run_state_body status (record {
  run_id = s.id;
  status = s.status;
  step = s.step;
  version = s.version;
  output = s.output;
  error = s.error;
  pending_requirement = s.pending_requirement;
})

unfoldable pub is_any : List Sentinel → GoError → Bool
is_any [] e = false
is_any (s ∷ ss) e = is s e || is_any ss e

-- mapRuntimeError
unfoldable pub map_runtime_error : GoError → ℕ × String
unfolding is_any
map_runtime_error e =
    if is unauthorized e
    then (401, "unauthorized")
    else if is request_too_large e
    then (413, "policy_rejected")
    else if is request_timed_out e
    then (408, "policy_rejected")
    else if is command_budget_exceeded e
    then (429, "policy_rejected")
    else if is invalid_request e
    then (400, "invalid_request")
    else if is run_not_found e
    then (404, "not_found")
    else if is_any (command_conflict ∷ run_version_conflict ∷ []) e
    then (409, "conflict")
    else if is_any (cursor_invalid ∷ cursor_expired ∷ []) e
    then (409, "conflict")
    else if is_any (run_not_continuable ∷ run_not_cancellable ∷ resolution_required ∷ []) e
    then (403, "forbidden")
    else if is_any
        (invalid_run_id ∷ resolution_invalid ∷ resolution_unexpected ∷ command_invalid ∷ command_nil
          ∷ command_unsupported ∷ run_state_invalid ∷ tool_definitions_invalid ∷ context_nil ∷ [])
        e
    then (400, "invalid_request")
    else if is context_canceled e
    then (500, "runtime_error")
    else if is deadline_exceeded e
    then (408, "policy_rejected")
    else (500, "runtime_error")

-- isAcceptedRunError
unfoldable pub is_accepted_run_error : GoError → Bool
is_accepted_run_error e = is max_steps_exceeded e && not (is event_publish e)

abbrev pub invalid_request_error : String → GoError
invalid_request_error detail = wrap (sentinel invalid_request) detail

unfoldable pub write_error : ℕ → String → String → Response
write_error status code text = error_body status (record { code = code; message = text })

-- writeMappedError; the first argument is the Error method
unfoldable pub write_mapped_error : (GoError → String) → GoError → Response
unfolding write_error
write_mapped_error error_text e =
    write_error (map_runtime_error e).0 (map_runtime_error e).1 (error_text e)

-- What json.Decoder.Decode of the first value gives.
pub data Decoded (A : Type 0) : Type 0 where
  decoded : A → Decoded A
  -- *http.MaxBytesError
  too_many_bytes : Decoded A
  -- io.EOF
  end_of_file : Decoded A
  undecodable : Decoded A

-- A decoder of encoding/json, which reads from the network, for values of one type; `at_end` is the
-- test that a second value gives io.EOF.
pub record Decoder (W A : Type 0) : Type 0 where
  pub decode : Body → Prog W (Decoded A)
  pub at_end : Body → Prog W Bool

pub data Parsed (A : Type 0) : Type 0 where
  parsed : A → Parsed A
  refused : GoError → Parsed A

module _ {W A : Type 0} (d : Decoder W A) where
  unfoldable pub decode_end : Body → Decoded A → Prog W (Parsed A)
  decode_end body (decoded a) = do
    ended ← d.at_end body
    pure (
        if ended
        then parsed a
        else refused (invalid_request_error "request body must contain exactly one JSON object"))
  decode_end body too_many_bytes =
      pure (refused (wrap (sentinel request_too_large) "request body exceeds bytes"))
  decode_end body end_of_file = pure (refused (invalid_request_error "request body is required"))
  decode_end body undecodable = pure (refused (invalid_request_error "invalid JSON body"))

  -- decodeJSONBody
  unfoldable pub decode_json_body : Body → Prog W (Parsed A)
  unfolding decode_end
  decode_json_body body =
      if body.present
      then (do x ← d.decode body; decode_end body x)
      else pure (refused (invalid_request_error "request body is required"))
