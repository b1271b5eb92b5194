-- ===== src/Lib.antt =====
-- A verification library of iroh-raft: a Raft consensus library in Rust that stores its log in
-- redb and talks to its peers over Iroh connections.
--
-- The parts modelled here, and how they meet. Apart from the configuration, which
-- has its own errors, operations answer with the error type of src/error.rs. The storage keeps the Raft log, the hard state, the configuration state
-- and the snapshot in tables of redb, in the byte layout of the codec, and answers the questions
-- that raft-rs asks of a `Storage`. The transport sends the messages of
-- Raft to peers, over pooled connections or from queues, and the protocol frames them on the streams between the
-- nodes and hands them to the Raft manager on the other side. The circuit breaker stands before remote operations and rejects them while they fail, and
-- the bounded channels between tasks hold senders back. The timeout manager bounds operations in time. The
-- authorization manager decides what the holder of a token may ask of the management interface;
-- the management protocol does not call it and keeps permissions of its own, which it does not look at either.
--
-- Common and its children: what Rust's standard library gives the sources; results with `?`
-- (Results), vectors and slices (Lists), integers as bytes (Bytes), tests on numbers (Tests), the
-- interface of equality tests (Equality), hash maps as lists of pairs (Maps, Distinct), and the
-- display of numbers (Display).
--
-- Error: src/error.rs. `RaftError` has the variants of the source without backtraces, `Cause`
-- stands for a boxed source, and is_transient, should_step_down, category and storage_error are
-- the methods of these names. Error/Classes compares the classes.
--
-- Storage: src/storage. Storage/Codec is src/storage/codec.rs (serialize_entry, deserialize_entry
-- and the same for the hard state and the configuration state; a byte is a number); its children
-- Reads, Entries, Entries/Truncation and States prove what is read back. Storage/Simple is the
-- writing half of src/storage/simple.rs (new, append, save_hard_state, apply_snapshot, compact);
-- Storage/Simple/Queries is the reading half (initial_state, entries, term, first_index,
-- last_index, snapshot). A `Database` has the content of the four tables. A transaction that is
-- not committed leaves no trace, so an error comes without a database, and the one before it
-- stays. Appending, Pruning, Answers and Ranges prove the laws. Storage/Redb holds the interface
-- `Crates`: the tables of redb with their laws, an arbitrary assignment of redb errors to steps,
-- and prost's encoding of snapshots with its round trip. Storage/Reference is a concrete instance.
--
-- CircuitBreaker: src/circuit_breaker.rs. A record holds the state, the counters and the recent
-- failures; `allow_request`, `on_success`, `on_failure`, `clean_old_failures`, `force_open` and
-- `force_close` are the methods of these names, and `call` is split into `admit`, before the
-- protected operation, and `finish`, after it, so that calls may overlap. The time is an argument,
-- in milliseconds. There each method runs without interruption, and so it does in the histories of Windows. Locks takes allow_request,
-- on_success and on_failure apart: a `Task` is what is left to do, and `access` the next step of it under one lock or on one
-- counter, so that two tasks interleave; Alone shows that the uninterrupted steps of a task are the method.
-- Manager is CircuitBreakerManager, whose get_breaker is split between its two locks. Windows has the
-- histories of a breaker, Soundness the invariant, Transitions, HalfOpen and
-- Metrics what follows, Races what an interruption does.
--
-- Protocol: src/transport/protocol.rs. Protocol has the messages and the interface `Wire` (the
-- streams of tokio, bincode's header encoding, the display of numbers); Protocol/Frames has
-- write_message, read_message and all that they call, in the order of the source. Writing, Reading,
-- Transfer and Truncation prove the laws, and Reference is a concrete `Wire`.
--
-- StateMachine: src/raft/generic_state_machine.rs and src/raft/kv_example.rs. The record
-- `StateMachine` is the trait, `apply_entry`, `create_snapshot` and `restore_from_snapshot` are the
-- methods of GenericRaftStateMachine, and `apply_entries` is the order in which a node calls the
-- first of them. `apply_kv` and `execute_kv` are apply_command and execute_query of KeyValueStore.
-- bincode is the parameter `Bincode`, and the clock an argument. Store proves what the commands do
-- to the map, Queries how the answers fit together, Replicas what becomes of nodes that share a
-- log; Reference is a concrete bincode.
--
-- Auth: src/management/auth.rs and the operations of src/management/mod.rs. Auth has AuthManager
-- with issue_token, validate_token, check_permission, revoke_token and the rest; Auth/Operations the
-- operations with operation_to_string and operation_target_node; Auth/Permissions the permissions
-- and their tests, one helper for each restriction; Auth/Connections is IrohAuth, where the
-- identities of peers are the interface `Peers`. Each reading of the clock is an argument, in
-- nanoseconds. Granted, Roles and Tokens prove the laws.
--
-- Backpressure: src/backpressure.rs. `Bounded` is what a BackpressureSender and its
-- BackpressureReceiver share; tokio's channel and semaphore are the interface `Tokio`
-- (Backpressure/Runtime). send is split where it waits, and try_recv where its permit comes back, so that
-- other tasks may run in between; `Wait` says how a wait under a timeout ended. Steps is the
-- step relation of any number of senders and one receiver, Balance its invariant, Order and
-- Progress what follows. Backpressure/Priorities is PriorityBackpressureManager, Metrics the
-- counters, Reference a concrete `Tokio`.
--
-- LockFree: src/lock_free.rs. LockFree has LockFreeCounter, LockFree/Histogram LockFreeHistogram and
-- HistogramSnapshot, LockFree/Pool LockFreeConnectionPool, LockFree/Queue LockFreeBoundedQueue over the interface `ArrayQueue`,
-- LockFree/Aggregator LockFreeStatsAggregator. Each operation is one atomic step. The
-- floating-point target of a percentile is an argument. Buckets, Percentiles and Accounts prove
-- the laws.
--
-- Timeouts: src/timeout_manager.rs. Timeouts has TimeoutManager with execute_with_timeout,
-- execute_with_retry, adjust_timeout_if_needed and update_config; Timeouts/Config the settings and
-- the statistics of the operation types; Timeouts/Numbers the interface `Floats`, with Reference as
-- a concrete one. The outcome of an operation, its duration, the clock and the random numbers are arguments.
-- Adjusting proves what becomes of the timeouts, Retrying when the retries stop.
--
-- Config: src/config.rs. Config/Types has the settings, Config/Defaults their default values, Config the
-- validation and the environment variables (validate, apply_env_overrides, from_env, from_file),
-- Config/Builder the methods of ConfigBuilder; durations are in milliseconds. Config/Outside is the
-- interface to what the standard library gives. Validity proves what is accepted.
--
-- Events: src/management/events.rs. Events has ClusterEvent, EventFilter, EventStream and EventHistory with
-- their methods, Events/Broadcast EventBroadcaster; a value of serde_json and the channel of a subscriber
-- are parameters. History, Streams and Broadcast prove the laws.
--
-- Discovery: src/management/discovery.rs. Discovery has ClusterDiscovery with process_discovery_message, discover_cluster
-- and the operations that these call; Members and Views prove how the known members follow the
-- messages, Caching how long a cluster is remembered.
--
-- Management: src/management/protocol.rs and the messages of src/management/mod.rs. Management/Responses has the
-- requests and responses, Management the permissions and ManagementProtocolHandler from handle_management_stream on;
-- Access proves what is let through.
--
-- Raft: src/raft/messages.rs. Raft has what the sources use of raft-rs and prost, as the interface
-- `RaftCrate`, with serialize_message and deserialize_message; Raft/Routes the routing information.
--
-- Transport: src/transport/iroh.rs and src/transport/shared.rs. Protocol/Rpc has the requests and RaftProtocolHandler
-- of src/transport/protocol.rs, the receiving side; Protocol/Delivery follows a request to the Raft manager.
-- Transport has RaftMessagePriority; Transport/Buffer buffer_message, Shared SharedNodeState and the interface to
-- Iroh, Connections get_or_create_connection and check_connection_health, Sending send_message with
-- try_send_immediate and send_single_message, Batches process_message_batches. Times are milliseconds and
-- arguments, and so is what the network answers. Stable and Sorting prove how queues are sorted, Accounts and Bounds what
-- batches do, Pool and Idle what becomes of connections, Acceptance and Delivery where a message goes; Reference has
-- instances of the parameters.
--
-- Bounds and fuel. Counters and lengths wrap at the width of their Rust type, written out with
-- `%`. The loop over the chunks of a payload takes one unit of fuel for each byte, and the loop
-- that reads them takes `remaining`; each turn moves at least one byte, so this is enough; without fuel they would end in an error that the source has not. The
-- retries take one unit for each attempt, and one more than the allowed retries is
-- enough. The loop that shortens a queue of messages takes one unit for each message, and removes one in
-- each turn. All other loops are structural recursion.
--
-- Not modelled: the display texts and conversions of errors, the floating-point quotients
-- (failure rate, memory pressure), the loop that accepts streams, the ring buffer of src/lock_free.rs, which stores nothing, and the rest of the crate:
-- the cluster interface, management clients and servers, metrics export, and the
-- event loop around raft-rs.
-- The sources src/node.rs, src/discovery, src/storage/redb.rs and most of src/raft are not part of
-- the build: no compiled module names them.
pub mod Common
pub mod Error
pub mod Storage
pub mod CircuitBreaker
pub mod Protocol
pub mod StateMachine
pub mod Auth
pub mod Backpressure
pub mod LockFree
pub mod Timeouts
pub mod Config
pub mod Events
pub mod Discovery
pub mod Management
pub mod Raft
pub mod Transport
