-- ===== src/Lib.antt =====
-- Verification of the zooid daemon: agents that speak the Agent Client Protocol, as users of a Matrix
-- homeserver. A person or an agent posts a message; the transport decides which agents it wakes
-- (Router), starts their turns, and relays what they ask for: approvals of tool calls (Approval) and
-- questions (Elicitation). An agent calls another by a handoff; the answer is held until the callee's
-- turn is over and is then released to the caller once (Returns).
--
-- Prelude: names of the library, lists, Boolean tests. Dict: an insertion-ordered map, for the `Map`,
-- `Set` and record types of the source, with its laws.
--
-- Approval: packages/core/src/approval-correlator.ts, `ApprovalCorrelator`. The state is the two maps
-- `pending` and `bySession`; a log holds the events, the cleared timers and the settled promises. Each
-- method is the function of its name, and `timer_fires` is the callback of `setTimeout`. The uuid that
-- `register` draws is an argument.
--
-- Elicitation: packages/core/src/elicitation-correlator.ts, `ElicitationCorrelator`. The state is
-- `entries`, `terminalOrder` and `terminalCap`, with a log of events, promises and detached listeners.
-- `cancel_request` is the method `cancel`; `cancel_where` is the loop that `cancelSession` and
-- `cancelFor` share.
--
-- Mentions: packages/transport-matrix/src/mentions.ts, `extractMentions`. A regular expression is a
-- scanner; a text's length is fuel enough for `matchAll`, for a match takes a character. The engine's
-- `decodeURIComponent` is the parameter `decode`, none where it throws.
--
-- Events: the types and guards of packages/transport-matrix/src/router.ts, with trigger-freshness.ts and
-- `readHandoff` of handoff.ts; the clock is an argument. Router: `route` of router.ts. Calls:
-- `wouldCycleCallers` of router.ts, session-keys.ts, and from transport.ts of the same package the
-- recording of a call edge. `would_cycle_callers` walks on fuel, one more than the edges of the graph: an
-- edge that the walk passes is not passed again, so that this is enough.
--
-- Returns: packages/transport-matrix/src/pending-returns.ts, `PendingReturns`. The state is the maps
-- `pending` and `running`, and the calls of `onRelease` in order. A timer is the delay with which it was
-- armed; `timer_fires` is its callback.
--
-- Tasks: packages/transport-matrix/src/task-registry.ts, `TaskRegistry`, with its three maps; `saved`
-- holds the rows of each call of the journal's `save`. Ids and the clock are arguments; `restore` reads the
-- clock once for all rows.
--
-- Typing: packages/transport-matrix/src/typing-registry.ts, `createTypingRegistry`: the slots, the
-- number of rooms in which an agent works, and the calls of the wire in the order of their queues.
--
-- Deliveries: packages/cli/src/daemon/delivery-cache.ts, `DeliveryCache`. Spawns: packages/context-mcp/
-- src/spawn-registry.ts, `SpawnRegistry`. Sessions: packages/acp-client/src/turn-tracker.ts and
-- session-map.ts. Of packages/transport-matrix/src: Handoffs has `resolveHandoffTarget` of handoff.ts and
-- `checkDelegable` of task-dispatch.ts, Completion `evaluateCompletion` of task-completion.ts, Media
-- pending-media.ts, and Invocations invocation-registry.ts, whose walk `ancestorAgents` runs on fuel: two
-- rounds more than there are called sessions, for a round passes a session that was not passed before;
-- Diff has `editScript` of unified-diff.ts, whose table is a function of two suffixes, and in Diff/Hunks
-- `unifiedDiff` and `capDiff`; Commands has approval-commands.ts.
--
-- Json, Formats, Schemas, Forms: packages/core/src/elicitation-schema.ts. Json is the value that a client
-- sends, Formats the texts that a schema's `format` admits, Schemas `checkValue` with its helpers and
-- `unsupportedSchemaReasons`, Forms `validateElicitationContent`. The engine's numbers, RegExp, URL and Date
-- are the parameter `Host`. `validateElicitationContent` reads an answer also from the prototype of the
-- content, so that `look_up` gives an object for a name of `Object.prototype`; the table `FORMAT` is read the
-- same way, but `unsupportedSchemaReasons` turns away a schema with a format that it does not list.
-- Questions: packages/transport-matrix/src/elicitation-commands.ts; JSON.parse is
-- in its `Host`.
--
-- Answers: of packages/transport-matrix/src/transport.ts the handlers by which an answer to a question comes
-- in: `handleElicitationResponse`, and in Answers/Stock `handleElicitationReaction` and
-- `maybeHandleElicitationMessage`; with `parseElicitationResponse` of elicitation-events.ts. The `Site` is
-- the daemon's bindings and agents. Where a handler waits for the homeserver, other handlers run: what it
-- reads before the wait and what it writes after it are different worlds, each an argument.
--
-- Permits: of the same file the handlers by which a person approves a tool call,
-- `handleApprovalReaction` and `maybeHandleApprovalMessage`, over Approval and Commands.
--
-- Roots: of the same file `resolveThreadRoot`, over a parameter for what the homeserver answers.
--
-- Inbound: of the same file `handleInboundEvent` from the promotion of a message to the queueing of turns, on
-- a `Desk` of the maps that it reads and writes. It composes Router, Calls, Tasks, Invocations and Returns.
-- The promoted root of the thread and the state that `rebuildThreadState` gives are arguments, as the
-- homeserver answers them; `queued` are the calls of `enqueueTurn`.
-- Inbound/Rebuild is `rebuildThreadState`, over the events that the homeserver gives. The handler waits for
-- it between its look at the thread's state and its write; `heal` takes the two as one step, so that a state
-- that another handler makes in between, which the source overwrites, is not modelled.
--
-- Delegation: of the same file the task action `handoff`, on a `Board` of the maps that it reads and writes.
-- `send_handoff` runs at once up to the post of its message, `finish_handoff` follows the post; between the
-- two, `meanwhile` is whatever other handlers do to the board.
--
-- Step modules give a component's calls as one step function, for histories of calls.
--
-- Not modelled: of transport.ts the turns, the mirror of tool calls, the other actions of tasks and the interrupts;
-- the encoders of events, the configuration, the ACP client, the MCP server, the HTTP transport, the command
-- line and the runtimes. What is I/O there is out of reach; `AgentBinding`, `ThreadState` and `RoomBinding`
-- leave out the fields that only those parts read.
pub mod Prelude
pub mod Dict
pub mod Approval
pub mod Elicitation
pub mod Texts
pub mod Mentions
pub mod Events
pub mod Calls
pub mod Router
pub mod Returns
pub mod Tasks
pub mod Typing
pub mod Deliveries
pub mod Spawns
pub mod Handoffs
pub mod Completion
pub mod Media
pub mod Invocations
pub mod Sessions
pub mod Diff
pub mod Commands
pub mod Json
pub mod Schemas
pub mod Formats
pub mod Forms
pub mod Questions
pub mod Answers
pub mod Inbound
pub mod Permits
pub mod Roots
pub mod Delegation
