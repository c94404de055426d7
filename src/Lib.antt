-- ===== src/Lib.antt =====
-- Verification of spanfall, a single-process OTLP trace receiver and viewer.
--
-- The program takes requests over two transports, OTLP/gRPC on one port and OTLP/HTTP on another.
-- Each transport's `export` hands the decoded request to `accept`, which converts it to a batch of
-- spans and sends the batch on a bounded channel. One writer task takes the batches from the channel
-- and applies them to the store, evicts traces over the memory budget, and bumps a sequence number.
-- Readers, the HTTP API, look at the store's traces through their accessors.
--
-- Which file models which part:
--   Prelude: tests, lists, association lists (`FxHashMap`), text (`String`), code that may panic.
--   Types: src/store/types.rs; Types/Hex is about `TraceId::to_hex` and `TraceId::from_hex`.
--   Interner: src/store/interner.rs; Interner/Bounds is about its table.
--   Trace: src/store/trace.rs, the struct of arrays and its accessors; Trace/Insert has
--     `Trace::insert` and `overwrite_at`; Trace/Spec has the rows that the columns stand for;
--     Trace/Csr, Trace/Links, Trace/Attrs, Trace/Upsert, Trace/Overwrite and Trace/Refine are about
--     insertion as an upsert of rows; Trace/Readers, Trace/Parents and
--     Trace/Duration are about the accessors.
--   Counters: src/receiver.rs.
--   Store: src/store/mod.rs, insertion; Store/Evict has sizes and eviction; Store/Valid,
--     Store/Insertion, Store/Effects, Store/Resurrection, Store/Sizes, Store/Eviction and
--     Store/Budget hold the proofs.
--   Store/View: the store as lists of spans under their own strings, with Store/View/Growth,
--     Store/View/Insertion, Store/View/Batches and Store/View/Whole on what insertion and the writer
--     do to it, the last while everything fits the budget; Store/View/Order and Store/View/Permuted
--     are about spans that arrive in another order. Store/Sizes/Growth bounds the sizes.
--   Store/Writer: `run` of src/store/writer.rs; Store/Writer/Runs is about whole runs.
--   Ingest/Convert: src/ingest/convert.rs; Ingest/Receiver: src/ingest/receiver_state.rs;
--     Ingest/Handler: src/ingest/handler.rs; Ingest/Handler/Transports: `export` of
--     src/ingest/http.rs and src/ingest/grpc.rs; Ingest/Sniff: src/ingest/sniff.rs, with
--     Ingest/Sniff/Preface on the test of the first bytes and Ingest/Sniff/Misdirect on the answers.
--   Api: src/api/receiver.rs, src/api/events.rs, src/api/lint.rs and the answers of the handlers;
--     Api/Filter: src/api/filter.rs, with Api/Filter/Query for `tokenize` and `parse_term`
--     (Api/Filter/Query/Wanted has queries as text) and Api/Filter/Matches for `get_filter`, with
--     Api/Filter/Matches/Meaning on what a query asks of a span and Api/Filter/Matches/Found on what
--     it finds; Api/Traces: src/api/traces.rs, with
--     Api/Traces/Summaries, Api/Traces/Table, Api/Traces/Payload and
--     Api/Traces/Shown on its answers; Api/Attributes: src/api/attributes.rs;
--     Api/Router: src/api/mod.rs, with Api/Router/Urls and Api/Router/Responses on its addresses.
--     The modules Shown are about the answers for the spans that the store shows.
--   Demo: src/demo.rs; Demo/Total and Demo/Seed are about the seeded store.
--   Json: the values of serde_json, as the program reads them; Client: src/client.rs, with
--     Client/Response on whole responses; Dump: src/dump.rs, with Dump/Served and Dump/Routed on a
--     dump of a store;
--     Startup: src/cli.rs, `main`, `bind_or_exit` and the first lines of `run_server` of src/main.rs,
--     and src/port_conflict.rs, with Startup/Listening on the banner.
--   Server: `run_server` of src/main.rs and `spawn_writer` of src/store/writer.rs as a step relation;
--     Server/Flow has its invariants, Server/Drain the writer's progress, Server/Seen what the store
--     shows, Server/Page what the receiver's page says, Server/Whole what the API serves while
--     everything fits the budget, and Server/Order that this does not depend on the order of arrival.
--   A module that is named here and has private children keeps the first lemmas of its proofs there.
--   Tests: concrete inputs and the theorems at them.
--
-- How the code is modelled. A method that changes `self` returns the new value. An index, a slice or
-- a splice that Rust checks is an `Exec`, whose `panic` is the panic. Integers are natural numbers
-- with the wrap-around of a release build written out where a `u32` or `u64` can reach it; a size in
-- memory, a `usize`, does not. A hash map is an association list, whose order stands for the map's
-- order of iteration. A string is the list of its code points, and an `f64` its 64 bits. The clock,
-- the result of a send on the channel, the bytes that a peek shows, if it ever ends, and the decoders
-- of protobuf and JSON are inputs. The eviction loop has fuel, one round more than there are traces, which suffices
-- since each round removes one, and running out of it is a panic; the other loops are structural.
--
-- Not modelled: the axum, tonic, tokio and clap set-up beyond the table of routes, since
-- sockets, timeouts and the time that a wait takes, the spawning of tasks and the matching of paths
-- are calls of libraries and of the operating system; what they give is an input. The functions of `f64`, the text of an `i64`
-- and the parsing and printing of JSON text are parameters.
pub mod Prelude
pub mod Types
pub mod Interner
pub mod Trace
pub mod Counters
pub mod Store
pub mod Ingest
pub mod Api
pub mod Demo
pub mod Server
pub mod Json
pub mod Client
pub mod Dump
pub mod Startup
pub mod Tests
