-- ===== src/Lib.antt =====
-- Tachyon core: the game protocol TGP, and the client's way from a captured packet to it.
--
-- A client captures the packets of selected routes. The pipeline parses a packet's flow, asks which
-- process owns the flow, and the router decides: TGP, direct or drop. A UDP payload for TGP is sealed
-- in a datagram, and grouped with others for forward error correction. The receiver opens the
-- datagram, rejects replays, recovers lost shards, and hands the payloads on. A server's answer is
-- written back as an IP packet. The messages of path control let a client move to a new address.
--
-- Files, and the code that each is about:
--   Base           shared names; tests on numbers, lists, bytes, results, ASCII text, path.Clean, a
--                  stable sort, and Go's int.
--   Tgp/Types      internal/tgp/protocol.go: the types of a packet; the errors and constants of the
--                  package.
--   Tgp/Wire       internal/tgp/codec.go: the headers (Headers), Seal and Open. Codec.Seal is `seal`,
--                  Codec.Open is `open_wire`, its end `open_plaintext`.
--   Tgp/Dedup      internal/tgp/session.go, packetDedupWindow: SeenFirst is `seen_first`. History has
--                  the unbounded specification.
--   Tgp/Fec        internal/tgp/fec.go and fec_adaptive.go: Frame (frameFECData, decodeFECDataShard,
--                  normalizeFECShardLengths, the checks), Coder (ReedSolomonCodec), Log (the record
--                  of completed groups), Buffer (FECReceiveBuffer; AddPacket is `add_packet` and the
--                  functions above it), Adaptive (FECAdaptiveController).
--   Tgp/Session    internal/tgp/session.go, DatagramSession: its life and addresses (Session), Send
--                  (SendPacket down to sendWirePayload, the repair batches), Receive (one round of
--                  readLoop is `read_round`), Race (sends that overlap, as lists of events). Reach has
--                  the calls on a session as a step relation.
--   Tgp/Pacer      internal/tgp/pacer.go: TokenBucketPacer.
--   Tgp/Path       internal/tgp/path_control.go: messages and cookies.
--   Tgp/Tunnel     internal/tgp/tunnel.go: the datagram inside a TGP payload.
--   Pidtrack       internal/pidtrack/process.go (Flow) and tracker.go (Tracker).
--   Routing        internal/routing/profile.go: Match (MatchRule.Matches, the Steam checks) and
--                  Engine (Engine.Decide).
--   Pipeline       internal/pipeline: packet.go (Packet), router.go (Router), pipeline.go (Run).
--   CapturedUdp    internal/capturedudp/registry.go: Types (limits, records), Registry (the state) with
--                  Control (attachments, Authenticate, Close), Generations, Flows, Datagrams
--                  (AcceptDatagram, ResolveReply) and Buffers (the accounts). Desk has the calls as a
--                  step relation, together with the buffers that are out.
--   App            internal/app/packet_writeback.go (Writeback).
-- The modules below these hold proofs, and Tests runs on concrete data.
--
-- State is a record that each operation takes and returns; an error is a value of `Outcome`. What Go
-- changes in place comes back as a new value, also where the operation fails. A map is a list with one
-- entry for a key. A method is one step, as a mutex makes most of them; one round of a session's readLoop, which takes several
-- locks in turn, is one step too. Clock readings are
-- arguments, in the order in which the code takes them. Numbers are natural; where Go's width matters
-- the wrap-around is written out.
--
-- From outside the repository, and so parameters: the AEAD cipher (`Aead`; `IsAead` says what is
-- documented of it), the Reed-Solomon library (`ReedSolomon`, `IsReedSolomon`), HMAC-SHA256 (`Mac`),
-- random bytes, the clock, the platform's lookup of a process, the packet handler.
--
-- Fuel: `purge_loop` has one round more than the queue has entries, and each round takes one off.
-- `fold_carries` has two rounds, since a uint32 has no carry left after two. No other function has
-- fuel.
--
-- Not modelled: the handshake, the relay, the captured UDP pipe, the managers of many clients and
-- paths, sockets, the configuration, and everything that talks to the operating system, since these
-- are mostly I/O and goroutines; floating-point rates, which are taken as exact fractions or with the
-- interval that is derived from them; text beyond ASCII; logging.
pub mod Base
pub mod CapturedUdp
pub mod Pidtrack
pub mod Routing
pub mod Pipeline
pub mod App
pub mod Tgp
