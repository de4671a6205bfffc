-- ===== src/Tgp/Session/Receive.antt =====
-- internal/tgp/session.go: the read path, one round of readLoop, and what RecvPacket takes out.
use tachyon_core.Tgp.Fec.Frame.{FecOptions}
use tachyon_core.Base.{
  ℕ, ◌-◌, Bool, false, not, List, [], ◌∷◌, ◌++◌, Option, none, some, length, ltb, leb, ◌==◌, ◌&&◌,
  if◌then◌else◌,
}
use tachyon_core.Base.Bytes.{Bytes}
use tachyon_core.Base.Text.{same_text}
use tachyon_core.Base.Outcome.{ok, err}
use tachyon_core.Tgp.Types.{Error, Addr, Packet, datagram_too_large}
use tachyon_core.Tgp.Wire.{open_wire}
use tachyon_core.Tgp.Dedup.{seen_first}
use tachyon_core.Tgp.Fec.Buffer.{Received, add_packet}
use tachyon_core.Tgp.Fec.Adaptive.{observe, Adaptive, Observation}
use tachyon_core.Tgp.Session.{
  World, Session, Stream, HandshakeReplay, add64, same_addr, source_eligible, accept_source,
  terminate, default_stream_queue,
}

-- replayHandshakeAck: a hello that came again is answered with the same acknowledgement. The result
-- is the session, whether the datagram was handled, and whether the loop goes on.
unfoldable pub is_replay : Option HandshakeReplay → ℕ → Bytes → Option Addr → Bool
is_replay none now wire from = false
is_replay (some r) now wire from =
    ltb 0 r.remaining && leb now r.expires_at && same_addr from r.peer && same_text wire r.hello

unfoldable pub answer_replay : Session → Bool → Option Addr → Option HandshakeReplay → Session
answer_replay s writes from none = s
answer_replay s writes from (some r) =
    let link = s.link in
    record s {
      handshake_replay = some (record r { remaining = r.remaining - 1 });
      link = if writes then record link { written = (r.ack, from) ∷ link.written } else link;
    }

-- streamWithSize, and the send that drops a datagram rather than wait.
unfoldable pub offer : Stream → Bytes → Stream
offer st payload =
    if ltb (length st.queue) st.capacity then record st { queue = st.queue ++ payload ∷ [] } else st

unfoldable pub push_stream : ℕ → ℕ → Bytes → List Stream → List Stream
unfolding offer
push_stream stream size payload [] =
    offer (record { stream_id = stream; capacity = size; queue = [] }) payload ∷ []
push_stream stream size payload (st ∷ sts) =
    if st.stream_id == stream
    then offer st payload ∷ sts
    else st ∷ push_stream stream size payload sts

abbrev pub take_in : Session → ℕ → Bytes → Session
take_in s stream payload = record s {
  stats = record s.stats { bytes_received = add64 s.stats.bytes_received (length payload) };
  streams = push_stream stream s.queue_size payload s.streams;
}

unfoldable pub deliver : Session → ℕ → List Bytes → Session
deliver s stream [] = s
deliver s stream (p ∷ ps) = deliver (take_in s stream p) stream ps

-- The options after an observation.
abbrev pub adapted : FecOptions → Observation → FecOptions
adapted fec seen =
    if seen.updated && not (seen.parity == fec.parity_shards)
    then record fec { parity_shards = seen.parity }
    else fec

-- observeFECDelivery, with the controller that the session has.
unfoldable pub observe_with : Session → ℕ → ℕ → Option Adaptive → Session
observe_with s delivered recovered none = s
observe_with s delivered recovered (some c) =
    let (c', seen) = observe c delivered recovered in
    record s {
      fec_adapt = some c';
      stats = record s.stats { loss = seen.rate };
      fec = adapted s.fec seen;
    }

unfoldable pub observe_delivery : Session → ℕ → ℕ → Session
unfolding observe_with
observe_delivery s delivered recovered = observe_with s delivered recovered s.fec_adapt

-- The clock's readings in one round of the loop.
pub record Clock : Type 0 where
  pub replayed : ℕ
  pub opened : ℕ
  pub purged : ℕ
  pub created : ℕ
  pub finished : ℕ

abbrev pub observe_source : Session → Option Addr → Session
observe_source s from =
    let link = s.link in record s { link = record link { observed = from ∷ link.observed } }

abbrev pub count_recovered : Session → ℕ → Session
count_recovered s recovered = record s {
  stats = record s.stats { fec_recovered = add64 s.stats.fec_recovered recovered };
}

-- The end of the round: what the FEC buffer made of the packet.
unfoldable pub take_result : Session → Option Addr → ℕ → Received → Session
unfolding deliver observe_delivery
take_result s from stream result =
    let observed = observe_source s from in
    if not result.ready
    then observed
    else let counted = count_recovered observed result.recovered_shards in
      deliver (observe_delivery counted (length result.payloads) result.recovered_shards) stream
        result.payloads

-- A packet whose source and number passed.
unfoldable pub take_packet : World → Session → Clock → Option Addr → Packet → Session
unfolding take_result
take_packet world s clock from packet =
    let (rx, outcome) =
      add_packet world.fec_codec s.fec_rx packet clock.purged clock.created clock.finished in
    let s' = record s { fec_rx = rx } in
    elim outcome [ err e ↦ s' | ok result ↦ take_result s' from packet.inner.stream_id result ]

-- A packet of this session whose number is new.
unfoldable pub take_first : World → Session → Clock → Option Addr → Packet → Session
unfolding take_packet
take_first world s clock from packet =
    let (s', accepted) = accept_source world s from in
    if accepted then take_packet world s' clock from (record packet { source_addr = from }) else s'

-- A packet that opened: session, source, replay window, source again.
unfoldable pub check_packet : World → Session → Clock → Option Addr → Packet → Session
unfolding take_first
check_packet world s clock from packet =
    if not (same_text packet.inner.session_id s.id)
    then s
    else if not (source_eligible world s from)
    then s
    else let (window, first) = seen_first s.dedup packet.inner.packet_number in
      let noted = record s { dedup = window } in
      if first then take_first world noted clock from packet else noted

unfoldable pub count_oversized : Session → Error → Session
count_oversized s datagram_too_large = record s {
  stats = record s.stats { oversized_datagrams = add64 s.stats.oversized_datagrams 1 };
}
count_oversized s _ = s

-- What follows the check for a repeated hello.
unfoldable pub open_datagram : World → Session → Clock → Bytes → Option Addr → Session
unfolding check_packet count_oversized
open_datagram world s clock wire from = elim (open_wire (some s.recv_codec) clock.opened wire) [
  | err e ↦ count_oversized s e
  | ok packet ↦ check_packet world s clock from packet
]

-- One round of readLoop on a datagram; `writes` is whether the transport writes the answer to a
-- repeated hello. A write that fails ends the loop, and so the session. The round is one step here; in
-- Go it takes the session's lock, the window's and the buffer's one after the other, and what other
-- goroutines do between these is not modelled.
unfoldable pub read_round : World → Session → Clock → Bool → Bytes → Option Addr → Session
unfolding open_datagram answer_replay
read_round world s clock writes wire from =
    if is_replay s.handshake_replay clock.replayed wire from
    then (let answered = answer_replay s writes from s.handshake_replay in
        if writes then answered else terminate world answered)
    else open_datagram world s clock wire from

-- RecvPacket, which makes the stream if it is not there, and takes what waits first. With nothing
-- waiting it blocks until something does or the session is done; a done session may be reported
-- although something waits.
unfoldable pub ensure_stream : ℕ → ℕ → List Stream → List Stream
ensure_stream stream size [] = record { stream_id = stream; capacity = size; queue = [] } ∷ []
ensure_stream stream size (st ∷ sts) =
    if st.stream_id == stream then st ∷ sts else st ∷ ensure_stream stream size sts

unfoldable pub take_stream : ℕ → List Stream → Option Bytes × List Stream
take_stream stream [] = (none, [])
take_stream stream (st ∷ sts) =
    let rest = take_stream stream sts in
    if st.stream_id == stream
    then (elim st.queue [
      | [] ↦ (none, st ∷ sts)
      | p ∷ ps ↦ (some p, record st { queue = ps } ∷ sts)
    ])
    else (rest.0, st ∷ rest.1)

unfoldable pub recv_packet : Session → ℕ → Session × Option Bytes
recv_packet s stream =
    let (payload, streams) =
      take_stream stream (ensure_stream stream default_stream_queue s.streams) in
    (record s { streams = streams }, payload)
