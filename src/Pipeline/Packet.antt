-- ===== src/Pipeline/Packet.antt =====
-- internal/pipeline/packet.go: the flow of an IP packet, and the payload of a UDP packet.
pub mod Layout
use tachyon_core.Base.{
  ℕ, Bool, true, false, ◌&&◌, List, ◌==◌, length, drop, take, slice, get_or, ltb, not, ◌||◌,
  if◌then◌else◌, ◌%◌, ◌+◌, ◌/◌, ◌*◌,
}
use tachyon_core.Base.Bytes.{Bytes, get_be}
use tachyon_core.Base.Outcome.{Outcome, ok, err, reject, ◌>>=◌, ◌>>◌}
use tachyon_core.Pidtrack.Flow.{Ip, v4, v6, Transport, tcp, udp, FlowKey}

pub data ParseError : Type 0 where
  packet_too_short unsupported_ip unsupported_protocol : ParseError

pub transport_from_ip_protocol : ℕ → Outcome ParseError Transport
transport_from_ip_protocol proto =
    if proto == 6 then ok tcp else if proto == 17 then ok udp else err unsupported_protocol

-- `int(packet[0]&0x0f) * 4`
abbrev pub header_size : Bytes → ℕ
header_size packet = get_or packet 0 0 % 16 * 4

pub parse_ipv4_flow : Bytes → Outcome ParseError FlowKey
unfolding transport_from_ip_protocol
parse_ipv4_flow packet = do
  reject (ltb (length packet) 20) packet_too_short
  let ihl = header_size packet
  reject (ltb ihl 20 || ltb (length packet) (ihl + 4)) packet_too_short
  transport ← transport_from_ip_protocol (get_or packet 9 0)
  ok (record {
    transport = transport;
    local_ip =
        v4 (get_or packet 12 0) (get_or packet 13 0) (get_or packet 14 0) (get_or packet 15 0);
    local_port = get_be (slice packet ihl (ihl + 2));
    remote_ip =
        v4 (get_or packet 16 0) (get_or packet 17 0) (get_or packet 18 0) (get_or packet 19 0);
    remote_port = get_be (slice packet (ihl + 2) (ihl + 4));
  })

abbrev pub is_udp : Transport → Bool
is_udp tcp = false
is_udp udp = true

pub extract_ipv4_udp_payload : Bytes → Outcome ParseError (FlowKey × Bytes)
unfolding parse_ipv4_flow
extract_ipv4_udp_payload packet = do
  flow ← parse_ipv4_flow packet
  reject (not (is_udp flow.transport)) unsupported_protocol
  let ihl = header_size packet
  reject (ltb (length packet) (ihl + 8)) packet_too_short
  let udp_len = get_be (slice packet (ihl + 4) (ihl + 6))
  reject (ltb udp_len 8 || ltb (length packet) (ihl + udp_len)) packet_too_short
  ok (flow, slice packet (ihl + 8) (ihl + udp_len))

pub parse_ipv6_flow : Bytes → Outcome ParseError FlowKey
unfolding transport_from_ip_protocol
parse_ipv6_flow packet = do
  reject (ltb (length packet) 44) packet_too_short
  transport ← transport_from_ip_protocol (get_or packet 6 0)
  ok (record {
    transport = transport;
    local_ip = v6 (slice packet 8 24);
    local_port = get_be (slice packet 40 42);
    remote_ip = v6 (slice packet 24 40);
    remote_port = get_be (slice packet 42 44);
  })

pub extract_ipv6_udp_payload : Bytes → Outcome ParseError (FlowKey × Bytes)
unfolding parse_ipv6_flow
extract_ipv6_udp_payload packet = do
  flow ← parse_ipv6_flow packet
  reject (not (is_udp flow.transport)) unsupported_protocol
  reject (ltb (length packet) 48) packet_too_short
  let udp_len = get_be (slice packet 44 46)
  reject (ltb udp_len 8 || ltb (length packet) (40 + udp_len)) packet_too_short
  ok (flow, slice packet 48 (40 + udp_len))

pub parse_flow : Bytes → Outcome ParseError FlowKey
parse_flow packet = do
  reject (ltb (length packet) 1) packet_too_short
  let version = get_or packet 0 0 / 16
  if version == 4
      then parse_ipv4_flow packet
      else if version == 6
      then parse_ipv6_flow packet
      else err unsupported_ip

pub extract_udp_payload : Bytes → Outcome ParseError (FlowKey × Bytes)
extract_udp_payload packet = do
  reject (ltb (length packet) 1) packet_too_short
  let version = get_or packet 0 0 / 16
  if version == 4
      then extract_ipv4_udp_payload packet
      else if version == 6
      then extract_ipv6_udp_payload packet
      else err unsupported_ip
