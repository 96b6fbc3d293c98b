-- ===== src/Lib.antt =====
-- impulse-ring: a message bus over shared memory. Applications publish channels, subscribe to them,
-- expose functions and call them. A broker process, `impulsed`, owns a control segment; a client
-- pushes control messages onto the submission ring in it and pops the answers from a reply ring of
-- its own. The broker only hands out arenas, which are segments with one ring each; channel
-- messages and calls travel through them without it. The HTTP crate fixes what HTTP over the bus
-- looks like.
--
-- The parts and their files:
-- - Segment, Queue, Ring (crates/core/src/ring.rs, and the memory of crates/core/src/shm.rs): a
--   mapped segment is a record of its length, its atomic words and its plain bytes by offset. Ring
--   has the header's offsets, `format`, `attach`, `try_push`, `push_locked`, `try_pop`,
--   `push_blocking` and `pop_blocking`, with the positions as wrapping `u64` and the counters as
--   wrapping `u32`; Queue is the bounded queue of messages that a ring promises. Ring/Wrap and
--   Ring/Invariant are about the circle of bytes, Ring/Refine, Ring/Push, Ring/Pop and Ring/Run
--   about the queue, Ring/Blocking about the calls that sleep, beside the queues that the others
--   leave meanwhile, and Ring/Lock about the lock's word among any number of threads.
-- - Shm (crates/core/src/shm.rs): `Segment::create`, `Segment::open`, its drop, `unlink`,
--   `list_segments` and `pid_alive`; the system calls are the record `Os`. Action has the chains of
--   calls that change a state and may fail.
-- - Frame (crates/core/src/frame.rs): `Frame::encode` and `Frame::decode`.
-- - Control (crates/core/src/control.rs): the superblock, `format_control`, `attach_control` and
--   `clamp_arena_cap`; Control/Used is about what the use of the submission ring leaves alone.
-- - Names (crates/core/src/util.rs): segment names, `key_hash` and `key_matches`. SHA-256 is a
--   parameter.
-- - Proto (crates/core/src/proto.rs and the parsing of crates/core/src/avro.rs): kinds, messages,
--   schema texts, `Catalog::build`, `to_frame`, `from_frame`, `from_frame_compat`,
--   `correlation_id`. The Avro library is a parameter: parsing, the Rabin digest, the datum codec.
-- - Registry (crates/impulsed/src/registry.rs): the tables of clients, channels and functions as
--   one record, and every operation on it as a function of that record. A `HashMap` is an
--   association list and `Instant::now()` an argument.
-- - Broker (crates/impulsed/src/broker.rs): the registry, the reply rings and the mapped arenas,
--   the handler of each control message, `reply` and `run`; Startup is `start`, over `Os`. The
--   process table, the opening and creating of segments, the clock and what clients do to their
--   reply rings meanwhile are the record `Outside`. Accounts and Arenas are about the arenas that
--   it keeps mapped, Fit and Room about what holds between two messages.
-- - Connector (crates/connector/src/client.rs, lib.rs, rpc.rs, channel.rs): Slots is the pending
--   table, a slot for each correlation id that somebody waits for, with the dispatcher that fills
--   it, and Session the rest of what a connection keeps. Calls has the calls of the broker
--   (`call_control`, `do_publish`, `do_subscribe`, `do_lookup` and the others) and the cache of
--   callees; Reconnect has bootstrap, replay, reconnect and the watcher; Service answers one
--   request; Pool is the worker pool among any number of threads, as a step relation; Channels is
--   the publisher and the subscriber; Api is `Connection`, its functions, `call` and the future of
--   a call. Slots/, Calls/, Reconnect/, Service/, Pool/, Channels/ and Api/ have what is proved of
--   them. Serde's conversion of the user's types is the record of Serde.antt, and the opening and
--   creating of segments, the rings of other processes and what other threads do to the pending
--   table meanwhile are the record `Bus`.
-- - Http (crates/http/src/lib.rs): names of functions and stream channels, the upgrade header,
--   tokens, the shares of a ring that one record may take, stream frames and schema texts.
-- - Prelude: names passed on, Boolean tests, machine integers, maps, text, decimal and hexadecimal
--   digits, bit masks, results.
--
-- State is passed explicitly and an `io::Result` is a value of `Result`, with a failed assertion as
-- the error `panic`. What other threads and processes do appears as arbitrary changes of the
-- segment between two attempts of a call; a property says what it asks of them.
--
-- Bounds and fuel: `next_power_of_two` has fuel 64, one for each bit of a `usize`; the digits of a
-- `u64` have fuel 20 in decimal and 16 in hexadecimal. The blocking calls recurse on the list of
-- their sleeps up to the deadline, the loops of the registry and of the catalog on their lists. The
-- connector's waits recurse on the list of what other threads do at each wake-up until the timeout,
-- and a replay on the lists of registrations. The registry's counters are `i64` and wrap; a
-- property about new ids asks for counters that are not exhausted.
--
-- A push that finds the producer lock held is `none`, except in Ring/Lock, which has the
-- contention.
--
-- Not modelled: the futex calls, logging, memory ordering, reconnects and changes of the callee
-- cache by another thread in the middle of a call, the unlinking of reply segments, the order in
-- which a `HashMap` is walked (here the order of its list), the schema registry of
-- crates/core/src/avro.rs, the connectors in other languages, benchmarks.
pub mod Prelude
pub mod Action
pub mod Segment
pub mod Shm
pub mod Queue
pub mod Ring
pub mod Frame
pub mod Control
pub mod Names
pub mod Proto
pub mod Registry
pub mod Broker
pub mod Connector
pub mod Http
