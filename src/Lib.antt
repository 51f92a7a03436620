-- ===== src/Lib.antt =====
-- p2engine is a C++ library for peer-to-peer networking: reliable datagram flows over UDP, flows
-- over TCP that look the same, an HTTP server and client, and helpers. This is the verification
-- library of its flows, of the messages of its HTTP, and of some of its helpers.
--
-- How the parts interact. A shared UDP layer (src/rdp/basic_shared_udp_layer.cpp) owns a socket and
-- hands each datagram to the flow that its header names. A urdp flow (src/rdp/urdp_flow.cpp,
-- p2engine/rdp/urdp_flow.hpp) parses it, moves its state, queues, sends, stores and acknowledges
-- data, and calls the application through its connection or acceptor. Its timer runs its clock, which
-- sends again, probes, pings and closes. A trdp flow (src/rdp/trdp_flow.cpp) does the same work for
-- the application over one TCP connection: it asks for a domain, frames packets, and keeps a queue
-- while a write is under way. Calls that must not be made at once are posted to the event loop with an
-- operation stamp (p2engine/operation_mark.hpp), and run unless the stamp is cancelled. An HTTP
-- connection reads requests and responses (src/http) from such a socket. Layers number what they own
-- with p2engine/local_id_allocator.hpp.
--
-- A flow is a record (Flow of Urdp/Flow.antt, TcpFlow of Trdp/Flow.antt), whose fields are the members
-- of the class without the prefix m_ or b_ or the underscore behind. An operation is a function from
-- the flow and the time to the flow; the time is the 64-bit tick count, and each operation reads one
-- time. A call into the application, a packet or another operation of the system, and a posted call
-- are effects, which are kept in order in the field out or trace. Unsigned members are numbers below
-- their modulus, with the remainder written out; signed ones are given by their patterns.
-- What the application does in a call comes as later operations in urdp. In trdp it is a parameter,
-- the record TcpApp, so a call may come back into the flow. A coroutine of trdp is cut at its
-- asynchronous operations: what it does from one to the next is a function, and the completion is an
-- event, which brings the error and the bytes.
--
-- Which file models what:
--   Wrap: p2engine/wrappable_integer.hpp, the wrapping comparisons, at every width.
--   Urdp/Types: enumerations and constants; Urdp/Format: the headers of
--   p2engine/rdp/urdp_visitor.hpp and their bytes.
--   Urdp/Flow, Urdp/Init: the members, `__init`, create_for_active_connect,
--   create_for_passive_connect, operation stamps.
--   Urdp/Rto: `__updata_rtt`, `__incress_rto`. Urdp/Queue: `__queue`.
--   Urdp/Output: `__packet_as_reliable_and_sendout`, `__packet_as_unreliable_and_sendout`,
--   `__transmit`, `__attempt_send`.
--   Urdp/Reassembly, Urdp/Receive: how `__process` stores data; `__can_let_transport_read`, `__recv`,
--   `__async_receive`, `__allert_readable`.
--   Urdp/Timer: `__clock_check`, `__schedule_timer`. Urdp/Clock: `__on_clock`, ping, ping_interval.
--   Urdp/Lifecycle: `__to_closed_state`, `__close`, close, set_socket, block_async_receiving and the
--   other `__allert_` functions.
--   Urdp/Ack: the acknowledgement step of `__process`; Urdp/Process: `__process` as a whole,
--   called_by_sharedlayer_on_recvd, and try_keep of p2engine/keeper.hpp.
--   Urdp/Api: async_connect, `__send`, async_send, and the calls that were posted.
--   Urdp/Machine: the events of a flow's life, and runs of them.
--   Trdp/Types, Trdp/Flow: the members of trdp_flow, `__init`, `__open`, `__close`,
--   `__to_close_state`, `__allert_connected`. Trdp/Rtt: `__update_rtt`.
--   Trdp/Send: `__send`, `__handle_sent_packet`, ping, and the calls of the application that send.
--   Trdp/Receive: keep_async_receiving, do_keep_receiving, `__process_data`.
--   Trdp/Connect: waiting_domain, accept, connect, `__async_resolve_connect_coro`,
--   `__domain_request_coro`. Trdp/Machine: the events of a flow's life, and runs of them.
--   Http/Text, Http/Fields: characters, and the map of fields of p2engine/http/header.hpp.
--   Http/Header: parse and serialize of src/http/header.cpp. Http/Request, Http/Credentials: those of
--   src/http/request.cpp. Http/Response, Http/Reasons: src/http/response.cpp.
--   LocalIds: p2engine/local_id_allocator.hpp. Bitset: p2engine/compressed_bitset.hpp.
-- The child modules hold the proofs, and the modules Tests the concrete runs.
--
-- Fuel. The loops of Bitset use up a bit in each round, and get the number of bits; the loop that
-- adds bytes adds at most as many as the bits it needs. The loop of `__queue` writes at least a byte
-- in each round, so the number of bytes is enough. The loop that sends semireliable packets again
-- uses up a transmission in each round, and gets their number. `__async_receive` takes a packet or a
-- frame of four bytes or more in each round, and gets one more than the number of packets and bytes.
-- `__on_clock` may call itself through `__schedule_timer` only if a check is due at once, but
-- `__clock_check` leaves 30 ms after the clock last ran, which was now: it gets 1. The last two set
-- the flow's field fault if they run out. The search of the id allocator for an id that is not
-- reserved gets as many rounds as there are ids. A number is printed with a digit for each time it
-- can be divided by ten, at most itself and one.
--
-- What is not modelled. The loss estimators compute in floating point: in urdp their readings after a
-- datagram are arguments, in trdp they act on nothing. So are random draws, through a function in the
-- flow or an argument, and the token that the layer gives. Speed meters, reserved memory, socket
-- options, assertions and alive_probability do not act on a flow. The forms of async_connect of urdp
-- with a host name use the system's resolver, which in trdp is an effect and its answer an event; punch
-- packets are made from socket addresses. An application that calls back into a urdp flow from inside
-- a call is left out: its calls come after the operation. Of HTTP, the accessors of single fields that
-- print or read numbers, parsing from a stream, the connection and the table of mime types are left
-- out. The rest of the repository (the shared layers, uri, files) is not modelled, nor are the copies
-- of other projects in it (nedmalloc, puff, convertutf).
pub mod Prelude
pub mod Wrap
pub mod Urdp
pub mod Trdp
pub mod Http
pub mod LocalIds
pub mod Bitset
