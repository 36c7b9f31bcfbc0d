-- ===== src/Lib.antt =====
-- OysterPack: the observability and messaging core of the crate oysterpack-trust, the nng servers and
-- clients of oysterpack-trust-nng, and the messages and signatures of oysterpack-core and
-- oysterpack-message.
--
-- The program keeps a registry of prometheus collectors (metrics.rs), runs futures on named
-- executors with metrics of their own (concurrent/execution.rs), and starts request/reply services
-- on those executors, which are called through channels (concurrent/messaging/reqrep.rs). A service
-- reports to metrics of the registry; an executor's counters stand behind its handles. A server of
-- oysterpack-trust-nng relays the requests of its nng contexts to such a service, a client is such a
-- service over nng contexts of its own. The message service of oysterpack-core opens sealed envelopes
-- and passes their messages to handlers.
--
-- Where each part is:
--   Prelude       shared helpers: lists, maps as association lists, results, equality.
--   Text          Rust strings as lists of scalar values: length in bytes, trim.
--   Metrics.Types the prometheus types that the source reads, as records.
--   Metrics.Ids   `LabelId`, `MetricId`, `parse_desc_metric_id` of oysterpack-trust/src/metrics.rs,
--                 over the text codec of oysterpack-uid/src/ulid/mod.rs.
--   Metrics.Checks, Metrics.Buckets   `check_help`, `check_const_labels`, `check_variable_labels`
--                 and `check_buckets` of oysterpack-trust/src/metrics.rs.
--   Metrics.Registry   `MetricRegistry` there: `register` in Registry.antt, the queries in
--                 Registry/Queries, `gather*` in Registry/Gather, `default` and the process metrics
--                 in Registry/Process, `register_int_gauge` and its kin in Registry/Typed.
--   Metrics.Constructors, Metrics.Builders   `new_counter` and its kin, and the ten builders.
--   Metrics.Timers   durations in seconds, and timer buckets.
--   Execution     oysterpack-trust/src/concurrent/execution.rs: builder, executor, registry, totals;
--                 `spawn_obj` and its tasks as interleaved steps in Execution/Tasks.
--   ReqRep        oysterpack-trust/src/concurrent/messaging/reqrep.rs: the service task in
--                 ReqRep/Service, the client in ReqRep/Client with messaging/errors.rs; the
--                 instance counts of reqrep/metrics.rs in ReqRep/Counts.
--   Nng.Types, Nng.Context   the crate nng as the source uses it.
--   Nng.Config    oysterpack-trust-nng/src/config.rs.
--   Nng.Server    oysterpack-trust-nng/src/reqrep/server.rs: the worker's loop in Server/Worker, `spawn`,
--                 the controller and `ServerHandle` in Server/Handles, `ListenerConfig` in
--                 Server/Listener.
--   Nng.Client    oysterpack-trust-nng/src/reqrep/client.rs: a worker's round in Client/Worker, the pool
--                 and `process` in Client/Pool, `register_client`, `NngClient::new` and `destroy` in
--                 Client/Registry, the configurations in Client/Config.
--   Core          oysterpack-core/src/message/mod.rs: `Encoding` in Core/Codec, `Metadata` and `Sequence`
--                 in Core/Metadata, `Deadline` in Core/Deadlines, messages and envelopes in
--                 Core/Envelopes, `SignedHash` in Core/Hashes; the actor of message/service.rs in
--                 Core/Service.
--   Uid           `ULID` as bytes, oysterpack-uid/src/ulid/mod.rs.
--   Security      oysterpack-message/src/security.rs: domains, services, instances and clients, with
--                 what is signed and verified.
--   Rpc.Client    `AsyncClient` of oysterpack-message/src/op_nng/rpc/client/asyncio.rs, with its tickets.
--   Examples      concrete instances of every parameter, and runs of the theorems.
--
-- How the code is modelled. A method that changes an object is a function from its state to its
-- result and its new state; the locks of the registries are held for a whole call, so that a call is
-- one step. `?` is the bind of `Result`; a panic is a value: `Outcome` where the source unwraps or
-- indexes, `none` where a hook of a processor panics, `err` where a panic leaves the service's loop.
-- A `HashMap` is an association list in its order of iteration, which nothing depends on. Numbers
-- are natural numbers; `u64` counters are taken modulo 2^64. Floats are a type with a comparison,
-- or with the operations that the source uses.
--
-- Parameters: the crates prometheus (`Prometheus`, `MetricTypes`), rusty_ulid (`RustyUlid`, with the
-- round trip and the length that it documents), the thread pool and the channels of futures
-- (`create`, `Mpsc`), the sort of the standard library, and the user's `Processor`; nng (`Options`,
-- `Endpoint`, `Context`, `NngMessages`), sodiumoxide (`BoxCrypto`, `HashCrypto`, `Signatures`), the
-- compressions and serde formats (`Compressors`, `Serde`), byteorder (in `Ulids`), chrono (`Clock`) and
-- the actor system (`System`).
--
-- Fuel: `dedupe_pass` takes a round for each bucket, and `dedupe_rounds` a pass for each, as each
-- pass but the last removes a bucket; `retain` takes a round for each metric. The results on these
-- functions hold with that fuel, so it is enough.
--
-- nng calls a worker back for an operation that was started; the theorems on workers quantify over
-- what it answers then. The loop of a server's worker is followed for as many events as nng reports, a
-- client's requests for the length of their list.
--
-- Not modelled: the rendering of error messages and of debug output, random ids, the thread gauge's
-- hooks, `Executor::run`, the other metric queries of reqrep/metrics.rs and execution/metrics.rs, the
-- connection metrics of a server, the draining of a client's pool, and the other crates and modules of
-- the workspace (grpc transport, actors, the envelopes and the other rpc of oysterpack-message,
-- events, errors, logs, application metadata, macros, templates). The totals of the executors are
-- those of one reading of all counters; the counters of panics and of the timer have no bound.
pub mod Prelude
pub mod Text
pub mod Metrics
pub mod Execution
pub mod ReqRep
pub mod Nng
pub mod Core
pub mod Uid
pub mod Security
pub mod Rpc
pub mod Examples
