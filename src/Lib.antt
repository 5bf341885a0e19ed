-- ===== src/Lib.antt =====
-- Verification of ghost-trace, which judges from a visitor's telemetry whether a session is
-- automated, and archives what it saw.
--
-- The parts and how they meet. A request reaches a server through its middleware (Http). A browser
-- opens a session and sends telemetry to the collector (Http.Browser, Collector), which keeps for
-- each session three accumulators of evidence (Features) behind a token (Session), and writes
-- snapshots of it (Snapshot) into a bucket (Stream.Keys). A decision request comes from a tenant
-- (Tenant, Http.Decisions), reads the session's state through a port (Decision), is judged (Policy)
-- and is answered; the evaluation goes to the archive on best effort. What is archived is published
-- on an event stream (Stream.Archive). The archive service pulls batches off it (Stream.Consume),
-- sorts them (Consumer) and commits them to a content-addressed log (Substrate), under the hash of
-- their canonical bytes (Canonical); only then it acknowledges them. Both ends ask the broker how far
-- the archive is behind (Stream.Progress), the collector to shed (Collector.Pressure) and the archive
-- to report what it missed (Consumer.Progress).
--
-- Prelude: shared names; Tests and Lists on native numbers, Dict for Go's maps, Text for strings as
-- bytes, Int for uint64, int64 and int32 with their wrap-around, Float for float64 as an interface
-- (the operations the program calls and the facts of IEEE 754 that the proofs use, true of NaN and
-- the infinities too), FixedPoint an instance of it for the tests.
--
-- Substrate models libs/substrate/substrate.go. Substrate.Blob is writeBlob and blobPath, Append is
-- Append and AppendCanonical, Read is ReadBlob, LookupRow, Count, Position and PositionAndCount,
-- Batch is AppendCanonicalBatch, AppendCanonicalAt and RecordRejected. The state is the table of
-- events, the row of stream_position and the files of the blob directory; writeMu makes an operation
-- one step. Each answer of the file system and of SQLite is an argument, so every theorem covers
-- every failure, and a rolled back transaction leaves the old tables.
--
-- Consumer models services/archive/internal/consumer/consumer.go: HandleBatch, isolate and report
-- in Consumer.Handle, over the substrate; the meter is the list of its calls. Consumer.Progress is
-- services/archive/internal/adapters/archivemeter/archivemeter.go, with onStats of
-- services/archive/cmd/archive/main.go; a series that does not exist yet is none.
--
-- Canonical models HashHex of libs/canonical/canonical.go, Stream.Archive its MarshalAndHash. The
-- hash function is the parameter `hash`, any function on byte strings; nothing is assumed of it,
-- collisions included. The bytes of a message are a parameter too.
--
-- Stream models libs/eventstream: Stream is the subjects of eventstream.go, Archive is
-- streamarchive.go and Publish, Consume the pull loop of jetstream.go, Keys is sessionkv.go with the
-- limits of OpenStream, Progress the reading of pollStats. What the broker answers is an argument,
-- and a run of the loop goes over the list of its polls, so that it ends when the list does.
-- Archiving joins Consume with the consumer and the substrate.
--
-- Features models libs/feature: Segments is pointer.go, Timing is keystroke.go, Counters is
-- interaction.go. uint32 counters are reduced modulo 2^32, and a theorem on counts says below which
-- number of events it holds.
--
-- Policy models libs/policy. Judge is Judge, Apply and enforced, Channels the three channels;
-- Calibrations is calibration.go, what the package keeps in `cal` and `Ref` being a state that
-- LoadCalibration replaces. The order of a range over a map is an argument. The stable sort of the
-- standard library is stable insertion.
--
-- Session models services/collector/internal/session/session.go. A time is a number; every reading
-- of the clock, and what NewID returns, is an argument. Lifetime runs histories of calls.
--
-- Tenant models libs/tenant/tenant.go: Load, New, the two lookups and IDs; Tenant.Fingerprint has
-- Fingerprint and DemoTenants.
--
-- Decision models libs/decision (decide.go, outcome.go and archiveBestEffort of decision.go) and
-- services/collector/internal/adapters/livesessions; RecordOutcome is Decision.Recording. What the
-- archive answers is the type Appended: done, no archive, out of time, refused. The time of an
-- outcome is an integer of nanoseconds of any size, which UnixNano wraps into an int64. Calibrated
-- joins the service with the calibrations that may be active.
--
-- Snapshot models libs/snapshot/snapshot.go and
-- services/decision-engine/internal/snapshotsessions. The conversions between float64 and float32
-- are two parameters; where a theorem needs it, a hypothesis says that a float32 survives the way
-- to float64 and back.
--
-- Collector models IngestTelemetry and StartSession of services/collector/internal/app
-- (ingest_telemetry.go, start_session.go, the records of protomap.go, archiveBestEffort of app.go)
-- over Session, Features and Snapshot. What a call does to the outside is a list of effects in
-- order. Collector.Pressure is services/collector/internal/adapters/archivepressure, and
-- Collector.Ingest is Append of services/collector/internal/ingest/ingest.go, over Substrate.
--
-- Http models libs/middleware (Middleware, Service, Cors), the handlers of libs/decision/http.go
-- (Auth, Decisions) and of services/collector/internal/api/api.go (Browser). A handler is a function
-- from a request and a state to the calls on the response writer, the new state, and whether it
-- panicked; a decoded body is an argument of it. Http.sent_status is net/http's rule for the call
-- that decides the status, which 1xx headers do not.
--
-- Recursion is structural everywhere; no function takes fuel.
--
-- Not modelled: the text of log lines, the decoding of JSON and protobuf, the NATS client and its
-- connection, EnsureStream and EnsureSessions, the mux that routes requests, metrics registration,
-- the wiring of the programs, the contents of the archived evaluation, the lists of the
-- telemetry vocabulary, and the start and migration of the SQLite file.
pub mod Prelude
pub mod Canonical
pub mod Substrate
pub mod Consumer
pub mod Features
pub mod Policy
pub mod Session
pub mod Tenant
pub mod Decision
pub mod Snapshot
pub mod Collector
pub mod Stream
pub mod Http
