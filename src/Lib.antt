-- ===== src/Lib.antt =====
-- Face2GO: the server that keeps face readers and plate cameras of a client in step with the
-- people registered there. The development models its queue of sync jobs, the rules and gates
-- that the syncs follow, the approvals of minors and visitors, the parser of the readers'
-- streams, and the permissions of a company's users.
--
-- The parts and their files:
--
-- Base: names of the libraries that the components share, Boolean tests on natural numbers, lists
-- over the native numbers, counting, signed numbers.
--
-- SyncQueue: the queue of sync jobs, one table of the database that several server instances
-- share. Job is a row (src/database/schema/device-sync-jobs.ts); a table is the list of its rows,
-- an instant a number of milliseconds, an id and a dedupe key a number. Sql is what the queries
-- use of SQL: an update, its returned rows, a deletion. Queries and Recovery are the functions of
-- src/database/queries/device-sync-jobs.queries.ts, AdminQueries those of
-- src/database/queries/device-sync-jobs-admin.queries.ts. Each query is one atomic step. Service
-- is src/device-sync-queue/device-sync-queue.service.ts, Worker
-- src/device-sync-queue/device-sync-worker.service.ts, Admin
-- src/device-sync-queue/device-sync-admin.service.ts, and Observe
-- src/device-sync-queue/observe-device-sync-job.ts. Where a function makes several queries, an
-- argument `env` says what other instances do to the table between two of them. Valid is the
-- invariant of the table, and Lifecycle the relation of its reachable states.
--
-- Documents: src/common/utils/document.ts, the numbers of the CPF and the CNPJ.
--
-- Civil: src/common/utils/birth-date.ts and a function of
-- src/common/parse-access-list-datetime.ts, dates and ages.
--
-- AgePolicy: src/face-sync/minor-restriction.ts, which readers a person's age admits. It calls
-- Civil.
--
-- Approvals: src/child-approvals and src/visitor-approvals, the access of minors and visitors
-- that an adult of their unit authorizes. Rows are the tables and columns they use, Repository
-- and Requests the queries (child-approval.repository.ts, child-approval-requests.repository.ts
-- and their twins), Rules child-approval.util.ts and visitor-approval.util.ts, Policy the two
-- policy services, Revocation, Invitation, Public and Service the services of these names. The
-- two directories are twins, so one function with the flow as an argument serves both, and
-- Visitors names those of the visitors. A transaction is one step; an argument `between` says
-- what other instances do before it. The services call Documents and Civil, and the face syncs
-- call Policy.
--
-- Multipart: the parser of the streams of parts that face readers send,
-- src/face-listener/hikvision-multipart-json.parser.ts, and its twin
-- src/face-listener/snap-stream.parser.ts (Snap). Bytes is what both use of buffers and texts,
-- Headers the headers of a part, Parser the state and feedMultipartStream, Boundary
-- extractBoundaryFromContentType. Encoding describes the streams that readers send; Search, Ends
-- and RoundTrip hold proofs. A call returns the new state, and a chunk is the list of its bytes.
--
-- Permissions: src/permissions/permissions.service.ts, what a company's users may do, with
-- src/common/features.constants.ts, src/common/route-permissions.constants.ts and the lookups of
-- src/company-features/company-features.service.ts and
-- src/database/queries/company-features.queries.ts. Its tables are lists of rows.
--
-- Concurrency: Backoff is src/common/reconnect-backoff.ts, the waits before a device is tried
-- again; Slots are the global slots of src/common/concurrency/reader-sync-gate.ts, Tails its
-- chain of calls for each reader (withReaderSyncGate), and Workers
-- src/common/concurrency/map-with-concurrency.ts. Each is a step relation, in which a step is
-- what runs between two `await`s.
--
-- Bounds: the loop of the stream parser runs on fuel, two rounds for each byte of its buffer and
-- two more, which Ends shows to be enough; decimal texts run on one round more than the number,
-- which each round divides by ten; every other function is by structural recursion. The parser's
-- numbers are exact, where the source's are rounded from 2 ^ 53 on: no body is that long. Texts
-- of documents and dates are lists of UTF-16 code units.
--
-- Parameters: the hash of node:crypto, the tokens and ids that a call draws, the handlers of
-- jobs, the rows that other transactions lock (FOR UPDATE SKIP LOCKED), the table of clients, the
-- clock and the random source are arguments.
--
-- Not modelled: timers, logs and the polling loop of the worker; listings for screens; the mails,
-- photos and periodic maintenance of the approvals; the events that are read from a part of a
-- reader's stream, which needs JavaScript's syntax of JSON and numbers; the calls of devices, of
-- storage and of other services, which are input and output; and the server's other modules, mostly
-- requests that are passed on to the database.
pub mod Tests
pub mod AgePolicy
pub mod Approvals
pub mod Base
pub mod Civil
pub mod Concurrency
pub mod Documents
pub mod Multipart
pub mod Permissions
pub mod SyncQueue
