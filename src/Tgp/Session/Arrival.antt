-- ===== src/Tgp/Session/Arrival.antt =====
-- internal/tgp/session.go: a payload's way through two sessions, from SendPacket to RecvPacket.
use tachyon_core.Base.{
  ℕ, ◌+◌, ◌%◌, ◌^◌, ◌<◌, ◌≤◌, ◌≡◌, refl, sym, Bool, true, false, [], ◌∷◌, Option, none, some,
  length, arith, ltb, subst,
}
use tachyon_core.Base.Bytes.{Bytes}
use tachyon_core.Base.Text.{same_text, same_text_refl}
use tachyon_core.Base.Outcome.{ok}
use tachyon_core.Tgp.Types.{
  Addr, Packet, InnerHeader, Bounded, max_dtls_sequence, magic_bytes, max_data_payload_size,
}
use tachyon_core.Tgp.Wire.{Aead, open_wire, seal, new_data_header}
use tachyon_core.Tgp.Wire.Laws.{IsValid, opened, seal_iff, open-seal}
use tachyon_core.Tgp.Dedup.{seen_first}
use tachyon_core.Tgp.Fec.Frame.{is_enabled}
use tachyon_core.Tgp.Fec.Buffer.{add_packet, add_packet-plain}
use tachyon_core.Tgp.Session.{
  World, Session, is_closed, same_addr, source_eligible, accept_source, add64, default_stream_queue,
}
use tachyon_core.Tgp.Session.Send.{send_packet, send_wire_payload, seal_payload, write_wire}
use tachyon_core.Tgp.Session.Streams.{is_waiting, has_room, take-push}
use tachyon_core.Tgp.Session.Receive.{
  Clock, read_round, open_datagram, check_packet, take_first, take_packet, take_result, deliver,
  observe_delivery, push_stream, recv_packet, count_recovered, observe_source, is_replay,
}

-- The header that SendPacket makes without FEC.
abbrev data_header : Session → ℕ → ℕ → Bytes → InnerHeader
data_header s number stream payload = record {
  magic = magic_bytes;
  flags = 128;
  session_id = s.id;
  stream_id = stream;
  packet_number = number;
  fec_group = 0;
  fec_index = 0;
  fec_total = 0;
  fec_data_shards = 0;
  payload_length = length payload % 2 ^ 16;
}

observe_delivery-streams :
    (s : Session) (delivered recovered : ℕ)
    → ((observe_delivery s delivered recovered).streams ≡ s.streams)
      × ((observe_delivery s delivered recovered).queue_size ≡ s.queue_size)
unfolding observe_delivery
observe_delivery-streams s delivered recovered = ground arith

accept_source-same :
    (world : World) (s : Session) (from : Addr)
    → is_closed s.state ≡ false
    → same_addr (some s.remote) (some from) ≡ true
    → (accept_source world s (some from) ≡ (s, true)) × (source_eligible world s (some from) ≡ true)
unfolding accept_source source_eligible
accept_source-same world s from live same = rw (live, same) (refl, refl)

take_result-plain :
    (s : Session) (from : Option Addr) (stream : ℕ) (payload : Bytes)
    → (take_result s from stream
        (record { payloads = payload ∷ []; ready = true; recovered_shards = 0 })).streams
      ≡ push_stream stream s.queue_size payload s.streams
unfolding take_result deliver
take_result-plain s from stream payload =
    let counted = count_recovered (observe_source s from) 0 in
    let (kept, size) = observe_delivery-streams counted 1 0 in rw (size, kept) refl

take_packet-plain :
    (world : World) (s : Session) (clock : Clock) (from : Addr) (packet : Packet)
    → packet.inner.fec_total ≡ 0
    → length packet.payload ≤ max_data_payload_size
    → (take_packet world s clock (some from) packet).streams
      ≡ push_stream packet.inner.stream_id s.queue_size packet.payload s.streams
unfolding take_packet
take_packet-plain world s clock from packet plain small =
    let passed =
      add_packet-plain world.fec_codec s.fec_rx packet clock.purged clock.created clock.finished
        plain small in
    let added =
      (add_packet world.fec_codec s.fec_rx packet clock.purged clock.created clock.finished).0 in
    rw (passed, take_packet)
      (take_result-plain (record s { fec_rx = added }) (some from) packet.inner.stream_id
        packet.payload)

check_packet-plain :
    (world : World) (s : Session) (clock : Clock) (from : Addr) (packet : Packet)
    → same_text packet.inner.session_id s.id ≡ true
    → (seen_first s.dedup packet.inner.packet_number).1 ≡ true
    → is_closed s.state ≡ false
    → same_addr (some s.remote) (some from) ≡ true
    → packet.inner.fec_total ≡ 0
    → length packet.payload ≤ max_data_payload_size
    → (check_packet world s clock (some from) packet).streams
      ≡ push_stream packet.inner.stream_id s.queue_size packet.payload s.streams
unfolding check_packet take_first
check_packet-plain world s clock from packet id first live same plain small =
    let noted = record s { dedup = (seen_first s.dedup packet.inner.packet_number).0 } in
    let (_, eligible) = accept_source-same world s from live same in
    let (accepted, _) = accept_source-same world noted from live same in
    rw (id, eligible, first, accepted, check_packet, take_first)
      (take_packet-plain world noted clock from (record packet { source_addr = some from }) plain
        small)

-- The two ends of a session: the same cipher and identity, and a limit that is not below.
pub record IsPeer (s r : Session) : Type 0 where
  pub same_cipher : r.recv_codec.aead ≡ s.send_codec.aead
  pub same_id : r.id ≡ s.id
  pub id_size : length s.id ≡ 16
  pub limit : s.send_codec.max_size ≤ r.recv_codec.max_size
  pub valid : IsValid s.send_codec

data_header-Bounded :
    (s : Session) (number stream : ℕ) (payload : Bytes)
    → length s.id ≡ 16
    → number < 256 ^ 8
    → stream < 256 ^ 2
    → Bounded (data_header s number stream payload)
data_header-Bounded s number stream payload id n st = omega arith

new_data_header-ok :
    (s : Session) (number stream : ℕ) (payload : Bytes)
    → length payload ≤ 0xffff
    → new_data_header s.id stream number (length payload) ≡ ok (data_header s number stream payload)
unfolding new_data_header
new_data_header-ok s number stream payload small = ground arith

-- SendPacket on an open session without FEC, when the pacer and the transport let it through.
send_packet-plain :
    (world : World) (s : Session) (now stream n : ℕ) (payload wire : Bytes)
    → add64 s.packet_no 1 ≡ n
    → is_closed s.state ≡ false
    → is_enabled s.fec ≡ false
    → world.paces s.link.attempts ≡ true
    → world.writes s.link.attempts ≡ true
    → length payload ≤ 0xffff
    → seal (some s.send_codec) n (data_header s n stream payload) payload ≡ ok wire
    → ((send_packet world s now stream payload).0.link.written
        ≡ (wire, some s.remote) ∷ s.link.written)
      × ((send_packet world s now stream payload).1 ≡ ok tt)
unfolding send_packet send_wire_payload seal_payload write_wire
send_packet-plain world s now stream n payload wire next live plain paces writes small sealed =
    let made = new_data_header-ok s n stream payload small in
    rw (live, plain, paces, next, made, sealed, writes, send_wire_payload, send_packet) (refl, refl)

recv-plain :
    (world : World) (r : Session) (clock : Clock) (writes : Bool) (wire : Bytes) (from : Addr)
    (packet : Packet)
    → open_wire (some r.recv_codec) clock.opened wire ≡ ok packet
    → is_replay r.handshake_replay clock.replayed wire (some from) ≡ false
    → same_text packet.inner.session_id r.id ≡ true
    → (seen_first r.dedup packet.inner.packet_number).1 ≡ true
    → is_closed r.state ≡ false
    → same_addr (some r.remote) (some from) ≡ true
    → packet.inner.fec_total ≡ 0
    → length packet.payload ≤ max_data_payload_size
    → (read_round world r clock writes wire (some from)).streams
      ≡ push_stream packet.inner.stream_id r.queue_size packet.payload r.streams
unfolding read_round open_datagram
recv-plain world r clock writes wire from packet opened fresh id first live same plain small =
    rw (fresh, opened, read_round, open_datagram)
      (check_packet-plain world r clock from packet id first live same plain small)

no_replay :
    (r : Session) (now : ℕ) (wire : Bytes) (from : Option Addr)
    → r.handshake_replay ≡ none
    → is_replay r.handshake_replay now wire from ≡ false
unfolding is_replay
no_replay r now wire from e = rw e refl

open-at-peer :
    (s r : Session) (now number : ℕ) (inner : InnerHeader) (payload wire : Bytes)
    → (p : IsPeer s r) → Bounded inner
    → inner.magic ≡ magic_bytes
    → seal (some s.send_codec) number inner payload ≡ ok wire
    → open_wire (some r.recv_codec) now wire
      ≡ ok (opened s.send_codec p.valid number inner payload now)
open-at-peer s r now number inner payload wire p b m e =
    subst
      (λ (a : Aead).
        open_wire (some (record { aead = a; max_size = r.recv_codec.max_size })) now wire
        ≡ ok (opened s.send_codec p.valid number inner payload now))
      (sym p.same_cipher)
      (open-seal s.send_codec p.valid number inner payload r.recv_codec.max_size now wire b m
        p.limit e)

-- What an open session sends without FEC reaches the peer's reader. The payload and 72 bytes fit the
-- sender's limit, pacer and transport let the datagram through, and fewer than 2^48 - 1 were sent; the
-- peer is open, knows the sender's address, expects no hello again, its replay window passes the
-- number, its streams have room, and nothing waits in this one. Then SendPacket returns no error and
-- writes one datagram to the remote address; after the peer's round on it RecvPacket gives the payload.
pub send_packet-recv_packet :
    (world peer : World) (s r : Session) (clock : Clock) (now stream : ℕ) (payload : Bytes)
    (from : Addr) (writes : Bool)
    → IsPeer s r
    → is_closed s.state ≡ false
    → is_enabled s.fec ≡ false
    → world.paces s.link.attempts ≡ true
    → world.writes s.link.attempts ≡ true
    → stream < 256 ^ 2
    → s.packet_no < max_dtls_sequence
    → 72 + length payload ≤ s.send_codec.max_size
    → is_closed r.state ≡ false
    → same_addr (some r.remote) (some from) ≡ true
    → r.handshake_replay ≡ none
    → (seen_first r.dedup (s.packet_no + 1)).1 ≡ true
    → is_waiting stream r.streams ≡ false
    → has_room r.streams ≡ true
    → ltb 0 r.queue_size ≡ true
    → (wire : Bytes) × (((send_packet world s now stream payload).1 ≡ ok tt)
        × (((send_packet world s now stream payload).0.link.written
              ≡ (wire, some s.remote) ∷ s.link.written)
            × ((recv_packet (read_round peer r clock writes wire (some from)) stream).1
                ≡ some payload)))
unfolding recv_packet
send_packet-recv_packet world peer s r clock now stream payload from writes p live plain paces sends
      st number fits open_r same fresh first idle room size =
    let n : ℕ = s.packet_no + 1 in
    let header = data_header s n stream payload in
    let b : Bounded header = data_header-Bounded s n stream payload p.id_size (omega arith) st in
    let (wire, sealed) = (seal_iff s.send_codec p.valid n header payload b).1 (fits, omega arith) in
    let next : add64 s.packet_no 1 ≡ n = unfold add64 in omega arith in
    let (written, none_failed) =
      send_packet-plain world s now stream n payload wire next live plain paces sends
        (omega (arith, p.valid.within)) sealed in
    let packet = opened s.send_codec p.valid n header payload clock.opened in
    let arrived = open-at-peer s r clock.opened n header payload wire p b refl sealed in
    let id : same_text s.id r.id ≡ true = rw p.same_id (same_text_refl s.id) in
    let delivered =
      recv-plain peer r clock writes wire from packet arrived
        (no_replay r clock.replayed wire (some from) fresh) id first open_r same refl
        (omega (arith, p.valid.within)) in
    (
      wire,
      (
        none_failed,
        (
          written,
          rw delivered
              (take-push stream r.queue_size default_stream_queue payload r.streams idle room size),
        ),
      ),
    )
