-- ===== src/Pipeline/Packet/Layout.antt =====
-- internal/pipeline/packet.go: what is extracted from a packet of a given layout, and the bounds of
-- what is extracted from any.
use tachyon_core.Base.{
  not, ◌||◌, sym, length-slice, Bool-cases, inl, inr, ◌-◌, ℕ, Bool, false, length, slice, get_or,
  ltb, ◌≡◌, ◌+◌, arith, ◌≤◌, ◌/◌, if◌then◌else◌, ◌==◌,
}
use tachyon_core.Base.Bytes.{Bytes, get_be}
use tachyon_core.Base.Outcome.{Outcome, ok, err, ◌>>=◌, ◌>>◌, reject}
use tachyon_core.Pidtrack.Flow.{v4, v6, udp, FlowKey}
use tachyon_core.Pipeline.Packet.{
  ParseError, extract_udp_payload, parse_ipv4_flow, parse_ipv6_flow, extract_ipv4_udp_payload,
  extract_ipv6_udp_payload, transport_from_ip_protocol, header_size, is_udp, unsupported_protocol,
  packet_too_short,
}

-- A packet whose header says IPv4, 20 bytes, and UDP.
pub extract-ipv4 :
    (packet : Bytes) (n s t a b c d e f g h : ℕ) (payload : Bytes)
    → length packet ≡ 28 + n
    → get_or packet 0 0 ≡ 0x45
    → get_or packet 9 0 ≡ 17
    → (get_or packet 12 0 ≡ a)
      × (get_or packet 13 0 ≡ b)
      × (get_or packet 14 0 ≡ c)
      × (get_or packet 15 0 ≡ d)
    → (get_or packet 16 0 ≡ e)
      × (get_or packet 17 0 ≡ f)
      × (get_or packet 18 0 ≡ g)
      × (get_or packet 19 0 ≡ h)
    → get_be (slice packet 20 22) ≡ s
    → get_be (slice packet 22 24) ≡ t
    → get_be (slice packet 24 26) ≡ 8 + n
    → slice packet 28 (20 + (8 + n)) ≡ payload
    → extract_udp_payload packet
      ≡ ok (
        record {
          transport = udp;
          local_ip = v4 a b c d;
          local_port = s;
          remote_ip = v4 e f g h;
          remote_port = t;
        },
        payload,
      )
unfolding extract_udp_payload extract_ipv4_udp_payload parse_ipv4_flow transport_from_ip_protocol
extract-ipv4 packet n s t a b c d e f g h payload size e0 e9 (i0, i1, i2, i3) (j0, j1, j2, j3) es et
      eu ep =
    rw (size, e0, e9, i0, i1, i2, i3, j0, j1, j2, j3, es, et, eu, ep) (ground arith)

-- A packet whose header says IPv6 and UDP.
pub extract-ipv6 :
    (packet : Bytes) (n s t : ℕ) (src dst payload : Bytes)
    → length packet ≡ 48 + n
    → get_or packet 0 0 ≡ 0x60
    → get_or packet 6 0 ≡ 17
    → slice packet 8 24 ≡ src
    → slice packet 24 40 ≡ dst
    → get_be (slice packet 40 42) ≡ s
    → get_be (slice packet 42 44) ≡ t
    → get_be (slice packet 44 46) ≡ 8 + n
    → slice packet 48 (40 + (8 + n)) ≡ payload
    → extract_udp_payload packet
      ≡ ok (
        record {
          transport = udp;
          local_ip = v6 src;
          local_port = s;
          remote_ip = v6 dst;
          remote_port = t;
        },
        payload,
      )
unfolding extract_udp_payload extract_ipv6_udp_payload parse_ipv6_flow transport_from_ip_protocol
extract-ipv6 packet n s t src dst payload size e0 e6 i j es et eu ep =
    rw (size, e0, e6, i, j, es, et, eu, ep) (ground arith)

-- Where the UDP header of a packet begins, by the version in its first byte.
pub udp_offset : Bytes → ℕ
udp_offset packet = if get_or packet 0 0 / 16 == 4 then header_size packet else 40

-- The checks of an extraction, over the parsed flow and the outcomes of the tests.
checks-inv :
    (r : Outcome ParseError FlowKey) (short wrong : Bool) (cut payload : Bytes) (flow : FlowKey)
    → ◌>>=◌ {B = FlowKey × Bytes} r (λ f.
      reject (not (is_udp f.transport)) unsupported_protocol
      >> (reject short packet_too_short >> (reject wrong packet_too_short >> ok (f, cut))))
      ≡ ok (flow, payload)
    → (r ≡ ok flow) × (flow.transport ≡ udp) × (short ≡ false) × (wrong ≡ false) × (cut ≡ payload)
checks-inv (err e) short wrong cut payload flow q = ground arith
checks-inv (ok f) short wrong cut payload flow q = ground arith

parse_ipv4-long :
    (packet : Bytes) (flow : FlowKey) → parse_ipv4_flow packet ≡ ok flow → 20 ≤ header_size packet
unfolding parse_ipv4_flow
parse_ipv4-long packet flow e = ground arith

-- What an accepted UDP packet has at the place `at` of its UDP header.
pub record Datagram (packet : Bytes) (at : ℕ) (flow : FlowKey) (payload : Bytes) : Type 0 where
  pub behind_header : 20 ≤ at
  pub is_udp_flow : flow.transport ≡ udp
  pub length_field : 8 + length payload ≡ get_be (slice packet (at + 4) (at + 6))
  pub inside : at + 8 + length payload ≤ length packet
  pub bytes : payload ≡ slice packet (at + 8) (at + 8 + length payload)

Datagram-of :
    (packet payload : Bytes) (at : ℕ) (flow : FlowKey)
    → let size = get_be (slice packet (at + 4) (at + 6)) in
      20 ≤ at
      → flow.transport ≡ udp
      → (ltb size 8 || ltb (length packet) (at + size)) ≡ false
      → slice packet (at + 8) (at + size) ≡ payload
      → Datagram packet at flow payload
Datagram-of packet payload at flow h u ok_size cut =
    let size : ℕ = get_be (slice packet (at + 4) (at + 6)) in
    let (enough, inside) = or_parts size (length packet) at ok_size in
    let width : length payload ≡ at + size - (at + 8) =
      rw (← cut) (length-slice packet (at + 8) (at + size) inside) in
    let end : at + 8 + length payload ≡ at + size = omega arith in
    record {
      behind_header = h;
      is_udp_flow = u;
      length_field = omega arith;
      inside = omega arith;
      bytes = rw end (sym cut);
    }
  where
    or_parts : (n m k : ℕ) → (ltb n 8 || ltb m (k + n)) ≡ false → (8 ≤ n) × (k + n ≤ m)
    or_parts n m k h = ground arith

ipv4-Datagram :
    (packet payload : Bytes) (flow : FlowKey)
    → extract_ipv4_udp_payload packet ≡ ok (flow, payload)
    → Datagram packet (header_size packet) flow payload
unfolding extract_ipv4_udp_payload
ipv4-Datagram packet payload flow e =
    let at : ℕ = header_size packet in
    let size : ℕ = get_be (slice packet (at + 4) (at + 6)) in
    let (parsed, u, _, right, cut) =
      checks-inv (parse_ipv4_flow packet) (ltb (length packet) (at + 8))
        (ltb size 8 || ltb (length packet) (at + size)) (slice packet (at + 8) (at + size)) payload
        flow e in
    Datagram-of packet payload at flow (parse_ipv4-long packet flow parsed) u right cut

ipv6-Datagram :
    (packet payload : Bytes) (flow : FlowKey)
    → extract_ipv6_udp_payload packet ≡ ok (flow, payload)
    → Datagram packet 40 flow payload
unfolding extract_ipv6_udp_payload
ipv6-Datagram packet payload flow e =
    let size : ℕ = get_be (slice packet 44 46) in
    let (parsed, u, _, right, cut) =
      checks-inv (parse_ipv6_flow packet) (ltb (length packet) 48)
        (ltb size 8 || ltb (length packet) (40 + size)) (slice packet 48 (40 + size)) payload flow
        e in
    Datagram-of packet payload 40 flow (omega arith) u right cut

-- Whatever the bytes of a packet, what is extracted from it is of a UDP flow, is as long as the UDP
-- length field says, and is the part of the packet behind the UDP header, within the packet.
pub extract-Datagram :
    (packet payload : Bytes) (flow : FlowKey)
    → extract_udp_payload packet ≡ ok (flow, payload)
    → Datagram packet (udp_offset packet) flow payload
unfolding extract_udp_payload udp_offset
extract-Datagram packet payload flow e = elim (Bool-cases (get_or packet 0 0 / 16 == 4)) [
  | inl four ↦ rw four (ipv4-Datagram packet payload flow (ground arith))
  | inr other ↦ rw other (ipv6-Datagram packet payload flow (ground arith))
]
