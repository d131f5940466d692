-- ===== src/Lib.antt =====
-- netcode.io, c/netcode.c: the protocol library that connects game clients to dedicated servers over
-- UDP, with connect tokens that a web backend issues. STANDARD.md is the protocol's specification.
--
-- The parts and how they interact. A backend writes a connect token: a private part, which is sealed
-- under a key that the backend and the servers share, inside a public part that the client reads. The
-- client sends the sealed part in a connection request. The server opens it, remembers its MAC with
-- the client's address (connect token entries), stores the two keys of the session under that
-- address (encryption manager), and answers with a sealed challenge token, which the client sends
-- back. From then on both sides exchange encrypted packets with sequence numbers; the receiver drops
-- repeated ones (replay protection) and queues payloads for the application (packet queue).
--
-- Which file models which part of c/netcode.c:
--   Base, Base/*        the shared names; tests, lists over native numbers, bits, int, array loops
--   Wire, Wire/*        netcode_write_uint8 to netcode_read_bytes; a reader takes a list of bytes and
--                       gives a value and the rest, a refusal (`error`), or a read off the buffer
--                       (`fault`)
--   Address, Address/*  netcode_address_t, netcode_address_equal, and the addresses inside tokens
--   Sodium              netcode_encrypt_aead, netcode_decrypt_aead
--   Token, Token/*      netcode_connect_token_private_t, netcode_challenge_token_t and
--                       netcode_connect_token_t with the functions on each, and
--                       netcode_generate_connect_token
--   Replay, Replay/*    netcode_replay_protection_reset, _packet_already_received
--   Packet, Packet/*    netcode_write_packet, netcode_read_packet, which is cut into a definition for
--                       each stretch of its tests: Read.antt has them in the order of the source
--   Queue, Queue/*      netcode_packet_queue_init, _clear, _push, _pop
--   Time                `double`, as a parameter
--   Encryption, Encryption/*      netcode_encryption_manager_*; the six arrays are one list of entries
--   TokenEntries, TokenEntries/*  netcode_connect_token_entries_reset, _find_or_add
--   Client, Client/*    netcode_client_*: Client.antt has the struct and the handler of packets,
--                       Client/Connection.antt what the application calls, Client/Update.antt
--                       netcode_client_update with what it receives, sends and gives up
--   Server, Server/*    netcode_server_*: Server.antt has the struct and the searches in it,
--                       Server/Connection.antt starting, stopping, sending and disconnecting,
--                       Server/Handshake.antt the answers to requests and responses,
--                       Server/Process.antt netcode_server_update, and Server/Loopback.antt what the
--                       application calls; the twelve arrays of clients are one list
--   Simulator, Simulator/*        netcode_network_simulator_*
--   Tests, Tests/*      concrete inputs
--
-- Buffers are lists of bytes, and a writer gives the bytes it writes. A function that changes a
-- structure returns the new one. A null pointer is `none`, the index -1 is `none`, and a struct's
-- count of elements is the length of its list. Unsigned integers are natural numbers with the range
-- as a hypothesis, and the wrap-around is written out where the code can reach it. Asserted conditions
-- are hypotheses; netcode_packet_queue_push asserts that no null pointer is stored, so `none` is the
-- only null pointer that popping gives. Every loop of the source has a bound that the model takes as
-- its structural argument, except the loop that pops a packet queue until it is empty
-- (Queue/Drain.antt), which takes a number of rounds: 257 are enough for a queue of 256 packets.
--
-- Parameters: libsodium's AEAD functions (a record `Sodium`, with the hypothesis `IsAead` that
-- states its documented behaviour), memory allocation (whether a call yields memory), random bytes
-- (arguments), the simulator's `float` (a record `Floats` of operations), and `double` (a record
-- `Doubles`; `IsStrict` says that `<` is irreflexive and transitive).
--
-- Not modelled: sockets, the clock, sleeping, logging and the default allocators, which are calls of
-- the operating system; parsing and printing of address text; the programs beside the library, its
-- unit tests, and the implementation in Go.
pub mod Base
pub mod Wire
pub mod Address
pub mod Sodium
pub mod Token
pub mod Replay
pub mod Packet
pub mod Queue
pub mod Time
pub mod Encryption
pub mod TokenEntries
pub mod Client
pub mod Server
pub mod Simulator
pub mod Tests
