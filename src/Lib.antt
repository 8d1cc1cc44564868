-- ===== src/Lib.antt =====
-- A model of antarc, a reliable UDP protocol in Rust, and what holds of it.
--
-- The program. antarc-protocol/ is the protocol without a socket: a value `Protocol<S>`, where the
-- service `S` is a `Client` or a `Server`. A user schedules payloads and heartbeats for the peers
-- that are connected; the network loop of antarc/ takes what is scheduled, makes packets of it
-- (`create_*`), sends their bytes (`as_raw`), tells the protocol that it did (`sent_*`), and hands
-- it every datagram that comes in (`on_received`). A peer is in one of three tables: it requests a
-- connection, awaits an ack of one, or is connected.
--
-- The files, and the code that each models (paths below antarc-protocol/src where none is given):
--   Base          errors.rs; calls that fail or panic; integers of 8, 16 and 32 bits as bytes
--   Packets       packets.rs, packets/: the message types, `Packet::as_raw`,
--                 `RawPacket::inner_decode` and `decode`, scheduled packets, and
--                 fragments that become a data transfer
--   Peers         peers.rs: the states of a peer, its sequence, `Peer::poll`; and the reassembly of
--                 fragments in server/service.rs (client/service.rs: `Client.Reassemble`)
--   Events        events.rs
--   Reliability   reliability.rs: reliable packets that were sent, `poll` and `retry`
--   Scheduler     scheduler.rs
--   Server        server/service.rs, a function for each method and for each branch of
--                 `on_received`; server.rs (`poll`)
--   Client        client/service.rs in the same way; client.rs (`poll`)
--   Service       service_traits.rs: the interface between the generic half and the two services
--   Protocol      lib.rs, server.rs and client.rs: `schedule` and `heartbeat`, the `create_`, `drain_`,
--                 `retry_` and `sent_` methods, and the methods of each side around its service
--                 (`Protocol.Sides`, `Protocol.Calls`)
--   Net           antarc/src: lib.rs (`Net`, `Net.Polls`), server.rs (`Net.ServerLoop`) and client.rs
--                 (`Net.ClientLoop`); what is proved of the loops stands in the other files below Net
--   Shared        the library's names, tests, lists and hash maps
--   Tests         concrete runs
--
-- How it is modelled. A method on `&mut self` takes the state and returns it. `Result` is the
-- outcome of code that may return an error or panic (`ok`, `err`, `panic`); `Reply` that of a
-- method that changes the state, where an error keeps the state reached so far. Every `unwrap`,
-- `expect`, slice out of range and overflow is a panic; overflow of `+=` depends on the build
-- (`Build.debug_assertions`), as `debug_assert!` does. Numbers are natural numbers, with the
-- wrap-around and the casts to u8 written out where the code has them. A `Duration` is a number of
-- nanoseconds; a sum of two panics where it overflows (`duration_sum`), but for the second that
-- `Peer::poll` adds to a reading of the clock, which is taken to fit. The clock is an argument,
-- `time`, wherever the code reads `timer.elapsed()`. A `SocketAddr` is a number: the code only
-- compares addresses. An `Arc<Payload>` is the payload, since none is changed or shared after it
-- is built. A `HashMap` is an association list, whose order is the order of iteration; `insert` on
-- a known key keeps its place, which is one of the orders the code may see. The capacity of a
-- vector and the log are left out. `crc32fast` is not part of the repository: the checksum is
-- `Build.crc32`, any function into 32 bits. Loops are structural recursion; `chunks` runs on fuel,
-- the length of the list, which is enough since each chunk takes a byte or more
-- (`Protocol.Chunks`).
--
-- The socket and the clock of the standard library are the record `Host` of `Net`: binding, reading
-- the clock, sending and receiving are any functions on a state of the host, which may answer an
-- error. Where a theorem needs that sending succeeds, `Net.Sending.Sends` says so. What the
-- loops need of a service is the record `Net.Transfers.Sending`, which `Net.Senders` fills for both.
-- The two readings of the clock in the `poll` of the server's protocol are one here. The eight
-- `poll_` loops have one body, which is written once (`Net.send_drained`, `Net.resend`), with
-- the `create_` and `sent_` methods as its parameters.
--
-- Not modelled: antarc-dummy/, which is not a member of the workspace and calls an interface that
-- the protocol no longer has, and its sample; the sample and the benchmarks; antarc-macro/, which
-- the protocol does not use; the files header.rs, payload.rs and connection.rs, which no `mod` line
-- names; and `cancel_packet`, which is `todo!()`.
pub mod Shared
pub mod Base
pub mod Packets
pub mod Peers
pub mod Events
pub mod Reliability
pub mod Scheduler
pub mod Server
pub mod Client
pub mod Service
pub mod Protocol
pub mod Net
pub mod Tests
