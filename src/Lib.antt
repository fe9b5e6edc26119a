-- ===== src/Lib.antt =====
-- Tailapps: a local resident that turns agent telemetry into SQLite datasets.
--
-- The parts and how they interact. internal/ingest decodes OTLP requests into records;
-- internal/inbox keeps the records in a durable queue, with an obligation for every tailapp that
-- was active at acceptance; internal/engine hands the oldest pending delivery of each tailapp to
-- its projection and settles the obligation; internal/projection interprets one delivery in one
-- transaction on the tailapp's private database and advances its frontier, or records a gap.
-- internal/definition keeps the drafts of the tailapps, their active revisions, the journal of
-- activations under way, and the ledger that makes control mutations idempotent. internal/metrics
-- counts what all of them do. jsonataddl is the core that compiles the DDL of a tailapp and
-- validates what goes into its programs and comes out of them: it checks who writes and reads
-- which table when an application is compiled, the input and the output of each evaluation, and
-- what a program's reads touch while they are executed.
--
-- Files and sources.
--   Prelude      shared library names, Boolean tests, lists, results, int64 sums
--   Inbox        internal/inbox/inbox.go. Tables: the rows of inbox_events, inbox_obligations and
--                inbox_state, and the package's types; Enqueue: Queue.Enqueue; Settle:
--                Queue.settle, Complete, Detach, DetachAll; Pending: Queue.Pending and Stats. The
--                proofs stand in WellFormed, Outstanding, Settled, Admitted, Batch, Enqueued,
--                Accepts, Fifo, Refinement and Reach.
--   Projection   internal/projection/projection.go, with the types of internal/profile.
--                Evaluation: deliveryEvent, evaluationInput, executeRead, applyChanges; Process:
--                Process, recordGap, transientProcessError; Compatible: profile.ContinueCompatible;
--                Schema: quote, checkJSONStorage and the schema statements of Continue; Continue:
--                Projection.Continue. Host is the record of what lies outside the repository. The
--                proofs stand in Atomic, Replay and Again; in Executed, JsonStorage, Kept and Continued.
--   Registry     internal/definition/registry.go. Tables: the rows of its five tables; Ledger:
--                BeginMutation, CompleteMutation; Drafts: Create, Get, List, Sources, Put,
--                DeleteElement, mutate, Delete; Activation: RecordRevision, RevisionSources,
--                Activate and the methods of the activation journal; Digest: draftDigest. The
--                proofs stand in Once, Replays, Rows, Consistent, Changes, Reach, Stored, Finished
--                and Preimage.
--   Metrics      internal/metrics/metrics.go. Histogram: histogram; Requests: requestState, the
--                label functions and ObserveControl; Intake: the intake and query states;
--                Processing: the Processing handle. The proofs stand in Cumulative, Totals,
--                Control, Attempts and Labels.
--   Jsonataddl   jsonataddl. Types: the records of application.go and dialect.go; Values:
--                values.go; Names: keyColumnsOf, and Go's functions on the case of names; Depth:
--                inputDepth; Contract, Input: input_contract.go and the rest of input.go; Output:
--                validateOutput and validateChangeRow of evaluate.go; Evaluate: Evaluate; Views,
--                Topology: resolveRelation, resolveView and validateTopology of compile.go; Ddl:
--                splitDDLStatements and splitTopLevelComma of compile.go; Authorizer:
--                authorizer.go. The proofs stand in Nesting, Statements, Storage, Conforms,
--                Declared, Received, Proper, Permitted and Evaluated; in Resolved, Backing and Found; in Lookups,
--                Owners, Claimed, Visible and Governed; and in Allowlist, Authorized and Denied.
--   Engine       internal/engine/engine.go. Accept: consumersLocked and accept, with the proof in
--                Routed; Drain: drainPassLocked and recordIneffectiveLocked, with the proofs in
--                Progress, Waves, Flat, Moves, Ended and Recent.
--
-- How the code is modelled. A method of a Go type is a function from the value to the new value
-- and the result. A SQL statement is a function on the rows, with the constraints of the schema; a
-- transaction gives new tables or an error, and an error leaves the old ones. Positions and
-- counters are unbounded numbers, except that the sums which Enqueue compares with its limits are
-- read as int64, and the counters of Metrics are uint64. Loops run over lists. The recursion over
-- views, in resolveView and in admitRelation, has as much fuel as there are views and one more,
-- and is shown never to use it up; the waves of drainPassLocked have fuel, and more of it than
-- deliveries are owed is shown to be enough. `refuse` gives the fixed part of an error's text, and
-- a wrapped error keeps its own text. A Go map is the list of its entries; where the program
-- ranges over one, the list's order stands for the order that the run happens to take.
--
-- What is outside. SQLite on the tailapps' own tables, the JSON decoder and the JSONata evaluator
-- are the fields of Projection.Host; SHA-256, hexadecimal text, the JSON of a source set and the
-- bytes of a string are the fields of Registry.Tables.Host; JSON, base64 and float parsing are the
-- fields of Jsonataddl.Types.Codec, and the decoding of a program's output those of
-- Jsonataddl.Output.Decoder; the JSONata evaluator of the core is in
-- Jsonataddl.Evaluate.Evaluator, and the character classes of Unicode in Jsonataddl.Ddl.Unicode.
-- No law about them is assumed, except that a value's JSON encoding decodes to it, in the round
-- trip of values, and a table's, in ContinueCompatible and Continue; and in Continue, that the
-- statements on views, indexes and new tables keep the contents of the old ones. The case of
-- names is that of ASCII, which is all that the DDL admits in them.
-- Failures of SQLite on the control database, file handling, HTTP, MCP and the command line are
-- not modelled.
mod Prelude
pub mod Jsonataddl
pub mod Inbox
pub mod Projection
pub mod Registry
pub mod Metrics
pub mod Engine
