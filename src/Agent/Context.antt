-- ===== src/Agent/Context.antt =====
-- agent/approved_tool_call_replay_context.go, and contexts as far as the runtime looks at them.
-- A context that is `live` follows the caller's cancellation; one that is not (the background
-- context and the result of context.WithoutCancel) is never cancelled. A nil context is `none`.
use agentframe.Base.{String, ◌≡◌, refl, Bool, true, false, Option, none, some, if◌then◌else◌}

pub record ReplayOverride : Type 0 where
  pub tool_call_id : String
  pub fingerprint : String

-- approvedToolCallReplayOverrideContextValue
pub record OverrideValue : Type 0 where
  pub override : ReplayOverride
  pub present : Bool

pub record Context : Type 0 where
  pub live : Bool
  pub value : Option OverrideValue

abbrev pub background : Context
background = record { live = false; value = none }

-- `if ctx == nil { ctx = context.Background() }`
abbrev pub or_background : Option Context → Context
or_background none = background
or_background (some c) = c

unfoldable pub with_replay_override : Option Context → ReplayOverride → Context
with_replay_override ctx o = record (or_background ctx) {
  value = some (record { override = o; present = true });
}

unfoldable pub without_replay_override : Option Context → Context
without_replay_override ctx = record (or_background ctx) {
  value =
      some (record { override = record { tool_call_id = ""; fingerprint = "" }; present = false });
}

payload_of : Option OverrideValue → Option ReplayOverride
payload_of none = none
payload_of (some v) = if v.present then some v.override else none

-- ApprovedToolCallReplayOverrideFromContext
unfoldable pub replay_override_from_context : Option Context → Option ReplayOverride
unfolding payload_of
replay_override_from_context none = none
replay_override_from_context (some c) = payload_of c.value

-- The replay override that was attached last is read back from the context, and nothing is read
-- back once it is cleared.
pub replay_override_roundtrip :
    (ctx : Option Context) (o : ReplayOverride)
    → (replay_override_from_context (some (with_replay_override ctx o)) ≡ some o)
      × (replay_override_from_context
            (some (without_replay_override (some (with_replay_override ctx o))))
          ≡ none)
unfolding replay_override_from_context with_replay_override without_replay_override
replay_override_roundtrip ctx o = (refl, refl)
