-- ===== src/Lib.antt =====
-- The agent runtime: starting, continuing, cancelling, steering and following up runs of an agent.
--
-- The parts and the files that model them:
--   Base        numbers, strings, slices and 64-bit integers
--   Agent       agent/: Value (tool.go), Message (message.go), Requirement and Run (run.go,
--               command.go, engine.go), Errors (errors.go, suspend_request.go), Event (event.go),
--               Lifecycle (lifecycle.go), Validation (run_validation.go, event_validation.go),
--               Context (approved_tool_call_replay_context.go), Interfaces (interfaces.go)
--   Agent.Runner  agent/runner.go: Checks (the checks of commands and outputs), State (the lock
--               table and the outcome table; State.Sharing has the locks with interleaved
--               goroutines), Effects (contexts, events, locks), Finish and Handlers
--               (dispatchStart, dispatchContinue, dispatchCancel, dispatchSteer, dispatchFollowUp),
--               Memory and Repeats (what becomes of a continue command's kept outcome),
--               and Dispatch in Agent/Runner.antt itself
--   Runstore    runstore/inmem/store.go
--   Eventing    eventing/inmem/sink.go
--   Agentreact  agentreact/: ToolValidation (tool_validation.go), Requirements, Turn and Loop
--               (react_loop.go, contracts.go); Turn.Evidence follows the messages that prove a
--               suspension, up to the runner's check in Loop.Accepted
--   Policy      policy/retry/retry.go
--   Runstream   examples/coding-agent/server/internal/runstream/broker.go
--   Httpapi     examples/coding-agent/server/internal/httpapi/: Responses (response.go), Commands
--               (handlers_run_command.go, handlers_run_query.go), Events (handlers_run_events.go),
--               the routes in Httpapi.antt (router.go), and Policies (policylimit/middleware.go and
--               policyauth/middleware.go)
--   Tooling     tooling/registry/registry.go
--   Toolset     examples/coding-agent/server/internal/toolset/: Policies (policy.go), Files (read.go,
--               write.go, edit.go), Bash (bash.go), the executor in Toolset.antt (policy.go)
--   Provider    examples/coding-agent/server/internal/modelprovider/preflight/normalize.go; Preflight.Transcript
--               counts the calls of a transcript, for Preflight.Fed
--   Scenario    a concrete world, runner and react loop, and the theorems at work on them
--
-- Code that calls a store, a sink, an engine, a model or a tool is a function of a world of any type,
-- `Prog W A = W → A × W`: each call of a dependency may change the world, and so may other
-- goroutines during it. `Host` stands for what the code takes from Go's library: the cancellation of
-- a context, the wait for a mutex, and text functions, none of which is defined here.
-- Agent.History is the abstract view of a run store, a map from IDs to run states, with the steps
-- that a stored run may take; Agent.Runner.Contract is what the runner asks of its dependencies.
-- In particular the store saves optimistically, the engine leaves the version alone, and the
-- environment changes stored runs only by such steps. Runstore.Inmem.Laws shows the store's part of
-- the contract for the in-memory store.
--
-- An error is a tree of sentinels, wrappers and joins; its constant text is kept, the values that
-- are printed into it are not. Tables keyed by strings are lists of entries. Operations under a
-- mutex are single steps. A pointer that the code copies before use is its value.
-- A dependency gets and gives values: an engine that changes the messages of its input in place,
-- which the runner compares with afterwards, is not represented. Of the slices in a message, a nil
-- one is an empty one; the list of messages itself keeps the two apart.
-- The loop of agentreact's Execute recurs on fuel, which is the number of steps that its budget
-- leaves; the loop of policy/retry recurs on the number of attempts left. The
-- endless loop of the event stream recurs on a number of rounds, and its theorem holds for each; the
-- search for the existing part of a path recurs on the length of the path, which its parents shorten.
--
-- Not modelled: under examples/coding-agent the client and, of the server, the model provider's HTTP
-- client, the configuration and the wiring, which are clients of the packages above or glue around
-- them; and the printed form of errors.
pub mod Base
pub mod Agent
pub mod Runstore
pub mod Eventing
pub mod Agentreact
pub mod Policy
pub mod Provider
pub mod Httpapi
pub mod Runstream
pub mod Tooling
pub mod Toolset
pub mod Scenario
