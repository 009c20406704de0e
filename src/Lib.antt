-- ===== src/Lib.antt =====
-- Verification of yurucommu-core, a self-hosted social server that federates over ActivityPub. The
-- development models the parts of its backend that decide on their own data: the signalling of
-- calls, the outbound delivery of activities, the order of inbound edits, the realtime stream, the
-- limits on logins and requests, the guard of outbound requests, and the stripping of uploaded
-- images.
--
-- Parts and files (paths from the repository's root):
-- - Base and Base/*: Boolean tests, lists over the native numbers, JavaScript strings (lists of
--   UTF-16 code units), maps in insertion order, parsed JSON.
-- - Calls/Wire, Calls/Frames: packages/api/src/types/call.ts. A frame is a constructor with its
--   fields; `frame_of_fields` and `parse_client_to_hub_frame` are `parseClientToHubFrame`, with
--   `JSON.parse` as an argument. Frames/Checked and Frames/Limits hold the theorems.
-- - Calls/Hub, Hub/Client, Hub/Peer: src/backend/runtime/call-hub-core.ts. The state is the map of
--   calls; what the hub asks of its port is a list of effects, in order. `handle_client_frame`,
--   `handle_inbound_signal`, `mark_connected`, `complete_deferred_relay` and `tick` are the
--   methods of those names. Hub/Events puts them together as the events of a run, with the rests
--   of those that wait for the media or for a relay as events of their own; Hub/Invariant,
--   Progress, Sweep, Glare, Restore and Strangers hold the theorems.
-- - Delivery/Circuit: src/backend/lib/delivery/circuit.ts. `check_row`, `success_row` and
--   `failure_row` are what `checkCircuit`, `recordCircuitSuccess` and `recordCircuitFailure` do to
--   the row that they read; `check_circuit` and the others run them on the table, with what other
--   deliveries do between their statements as an argument. Circuit/Recovery follows one row,
--   Circuit/Tables the table.
-- - Delivery/Jobs: the rows of src/db/schema/messaging.ts, the messages of
--   src/backend/lib/delivery/types.ts, transformers.ts and the builders of queue.ts. Jobs/Backoff
--   is about the delays.
-- - Delivery/Messages: the tests on message bodies of types.ts. Delivery/Semaphore: the class of
--   that name in queue.ts, the steps of its tasks as a relation.
-- - Delivery/Resolutions: src/backend/lib/delivery/resolution-outbox.ts, each function under its
--   own name. Budget, Runs and Rounds follow the attempts of a row, Ownership the claims, Sweeps
--   the recovery.
-- - Delivery/Fanouts: src/backend/lib/delivery/fanout-outbox.ts, likewise. Intents is about the
--   messages, Terminal about rows at their end.
-- - Delivery/Deliver, Delivery/Process: `processDeliverEndpoint` of
--   src/backend/lib/delivery/queue-delivery.ts, in phases that call each other;
--   Delivery/Invalidate is what a 404 or 410 makes of the cached actors. Process/Fences is about
--   workers that hold the same job.
-- - Delivery/Reconcile: `processReconcileJob` of queue-batching.ts, and the creation, sweep and
--   purge of jobs in queue.ts.
-- - Delivery/Lifecycle: the abstract view of one job, a relation of steps that names their
--   conditions and the columns they set. Settling, Deliveries and Revivals relate the handlers to
--   it; Budgets, Payments and Failures count the attempts of a job over its handlers.
-- - Inbox/NoteUpdates: src/backend/lib/inbound-note-update-order.ts and the identity of actors in
--   activitypub-actor-identity.ts. Admitting, Bounds and Commits hold the theorems.
-- - Realtime/Stream: src/backend/runtime/realtime-stream.ts with the frames of
--   packages/api/src/types/realtime.ts, over an interface `Repository`; Realtime/Storage fills it
--   as realtime-stream-do.ts does, and Storage/Missed puts both together. Realtime/Body is
--   `readEventBody`.
-- - Requests/Conditional: src/backend/lib/conditional-request.ts. Requests/FeedCursor:
--   src/backend/lib/feed-cursor.ts, with the pages that a client reads in Pages.
-- - Runtime/MemoryKv: src/backend/runtime/memory-kv.ts and the helpers of shared.ts, the expiring
--   store on which the limits stand.
-- - Runtime/OneTimeTicket: src/backend/runtime/one-time-ticket.ts, with the digest and the random
--   text as arguments.
-- - Requests/ClientIp: src/backend/lib/client-ip.ts. Requests/InClause: src/backend/lib/chunk.ts.
-- - Limits/Lockout: src/backend/lib/auth-lockout.ts. Records shows that the store keeps a record
--   as long as it counts, Locking follows sequences of failures, Outage the store that cannot be
--   written.
-- - Limits/RateLimit: src/backend/middleware/rate-limit.ts. Configs has the named limits, Fallback
--   is about the bounded map, Counters gives the interface that both stores fill, and Budgets uses
--   it for the requests of a window.
-- - Images: src/backend/lib/strip-image-metadata.ts. Chunks is the walk that the formats share,
--   with Chunks/Reparse on its result; Jpeg, Png and Webp give the formats; Strip and Container
--   hold the theorems.
-- - Ssrf: src/backend/lib/ssrf.ts. Text has the operations on strings, Ipv4 and Ipv6 the parsers
--   and tests of addresses, Ranges the blocks that they stand for, Urls the tests of URLs,
--   Resolution the walk along CNAME records, Safety the theorem on what is let through.
--
-- Choices. A table is a map from the key to the row, an UPDATE with a WHERE clause is
-- `update_where` and says by `affects` whether it found its row. A handler runs to its end before
-- the next one starts, except that a delivery, an operation on a circuit, a claim, a revival and
-- an admission take as an argument what other workers do at the points where they wait, and that
-- the rest of a hub's handler after a wait may also come later, as an event; and `now` is one
-- instant in each operation. Times are natural numbers of milliseconds; a difference that may be
-- negative is written as a comparison of sums. Log lines are left out. What is not in the
-- repository is an argument: the outcome of a relay, the URL parser, DNS answers, `JSON.parse` of
-- a message, which calls of a store throw, the digest of a ticket, the decoder of a body, the
-- producers of the queues. A text that the program itself writes as JSON is kept as the value that
-- it parses to. Strings are cased and trimmed as ASCII.
--
-- Bounds and fuel. The walk of an image takes one step for each byte and one more, which
-- Images/Chunks/Reparse shows to be enough; the pieces of Requests/InClause take one step each;
-- the walk along CNAME records has the source's own depth of 11. The scan of an If-None-Match
-- field takes one step for each round of its loop, and Requests/Conditional/Termination shows that
-- the length of the field is enough; the chunks of the outbox and of a sweep, and the pages of an
-- invalidated endpoint, take no more steps than there are rows. Every other function is
-- structural.
--
-- Not modelled: the routes and their SQL, the inbox handlers, the fan-out of an activity to its
-- recipients and the resolution of an actor, the redrive of raw dead letters, the loops over
-- batches, encryption and signatures, and the adapters of the platforms.
pub mod Base
pub mod Calls
pub mod Delivery
pub mod Images
pub mod Inbox
pub mod Limits
pub mod Realtime
pub mod Requests
pub mod Runtime
pub mod Ssrf
