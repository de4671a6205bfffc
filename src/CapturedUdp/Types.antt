-- ===== src/CapturedUdp/Types.antt =====
-- internal/capturedudp/registry.go: errors, limits and the records that its operations share.
use tachyon_core.Base.{
  ℕ, ◌+◌, ◌-◌, ◌*◌, Bool, true, false, ◌||◌, not, ltb, ◌==◌, max, if◌then◌else◌,
}
use tachyon_core.Base.Bytes.{Bytes}
use tachyon_core.Base.Outcome.{Outcome, ok, ◌>>◌, reject}
use tachyon_core.Pidtrack.Flow.{Ip}
use tachyon_core.Tgp.Types.{min_datagram_size, max_datagram_size, default_datagram_size}
use tachyon_core.Tgp.Tunnel.{ipv4_overhead}

pub data Error : Type 0 where
  authentication registry_closed invalid_flow unknown_flow duplicate_flow : Error
  invalid_generation stale_generation generation_not_active sequence_replay : Error
  datagram_too_large flow_limit buffer_budget : Error
  transport_not_verified transport_mismatch transport_active : Error
  controller_active controller_revoked transaction_active unknown_transaction : Error
  missing_lease_identity rate_limit attachment_stale outstanding_budget : Error
  bad_limits random_failed : Error

abbrev pub hard_max_flows : ℕ
hard_max_flows = 65536

abbrev pub hard_max_datagram_size : ℕ
hard_max_datagram_size = max_datagram_size - ipv4_overhead

abbrev pub hard_max_buffered_bytes : ℕ
hard_max_buffered_bytes = 67_108_864

abbrev pub min_flow_ttl : ℕ
min_flow_ttl = 1_000_000_000

abbrev pub hard_max_flow_ttl : ℕ
hard_max_flow_ttl = 3_600_000_000_000

abbrev pub hard_max_outstanding_objects : ℕ
hard_max_outstanding_objects = 8192

abbrev pub hard_max_objects_per_direction : ℕ
hard_max_objects_per_direction = 4096

abbrev pub hard_max_outstanding_metadata : ℕ
hard_max_outstanding_metadata = 1_048_576

abbrev pub hard_max_metadata_per_direction : ℕ
hard_max_metadata_per_direction = 786_432

abbrev pub min_payload_reservation : ℕ
min_payload_reservation = 64

abbrev pub estimated_flow_meta_size : ℕ
estimated_flow_meta_size = 256

abbrev pub hard_flow_metadata_bytes : ℕ
hard_flow_metadata_bytes = 16_777_216

abbrev pub outstanding_object_meta_size : ℕ
outstanding_object_meta_size = 160

-- A count that is not positive stands for its default, and is 0 here. Times are nanoseconds.
pub record Limits : Type 0 where
  pub flows_max : ℕ
  pub tgp_datagram_size : ℕ
  pub datagram_size : ℕ
  pub buffered_bytes : ℕ
  pub flow_ttl : ℕ
  pub packets_per_second : ℕ
  pub packet_burst : ℕ
  pub bytes_per_second : ℕ
  pub byte_burst : ℕ
  pub control_ops_per_second : ℕ
  pub control_burst : ℕ

abbrev pub or_default : ℕ → ℕ → ℕ
or_default value fallback = if value == 0 then fallback else value

-- The limits with the defaults filled in.
abbrev pub filled : Limits → Limits
filled l =
    let size = or_default l.tgp_datagram_size default_datagram_size in
    record {
      flows_max = or_default l.flows_max 4096;
      tgp_datagram_size = size;
      datagram_size = or_default l.datagram_size (size - ipv4_overhead);
      buffered_bytes = or_default l.buffered_bytes 8_388_608;
      flow_ttl = or_default l.flow_ttl 120_000_000_000;
      packets_per_second = or_default l.packets_per_second 20_000;
      packet_burst = or_default l.packet_burst 2000;
      bytes_per_second = or_default l.bytes_per_second 33_554_432;
      byte_burst = or_default l.byte_burst 8_388_608;
      control_ops_per_second = or_default l.control_ops_per_second 2000;
      control_burst = or_default l.control_burst 200;
    }

-- The checks of `normalized` on the filled limits; every refusal is an error, in the code's order.
unfoldable pub check_limits : Limits → Outcome Error (Unit {0})
check_limits l = do
  reject (ltb l.tgp_datagram_size min_datagram_size || ltb max_datagram_size l.tgp_datagram_size)
      bad_limits
  reject
      (ltb hard_max_flows l.flows_max
        || ltb hard_flow_metadata_bytes (l.flows_max * estimated_flow_meta_size))
      bad_limits
  reject
      (ltb hard_max_datagram_size l.datagram_size
        || ltb (l.tgp_datagram_size - ipv4_overhead) l.datagram_size)
      bad_limits
  reject
      (ltb hard_max_buffered_bytes l.buffered_bytes
        || ltb l.buffered_bytes (max l.datagram_size min_payload_reservation))
      bad_limits
  reject (ltb l.flow_ttl min_flow_ttl || ltb hard_max_flow_ttl l.flow_ttl) bad_limits
  reject
      (ltb 200_000 l.packets_per_second
        || ltb 20_000 l.packet_burst
        || ltb 268_435_456 l.bytes_per_second
        || ltb 67_108_864 l.byte_burst
        || ltb 10_000 l.control_ops_per_second
        || ltb 1000 l.control_burst)
      bad_limits
  reject (ltb l.byte_burst l.datagram_size) bad_limits

unfoldable pub normalized : Limits → Outcome Error Limits
unfolding check_limits
normalized l = do check_limits (filled l); ok (filled l)

pub data AttachmentState : Type 0 where
  attachment_new attachment_attached attachment_detached attachment_closed : AttachmentState

abbrev pub is_new : AttachmentState → Bool
is_new attachment_new = true
is_new _ = false

abbrev pub is_attached : AttachmentState → Bool
is_attached attachment_attached = true
is_attached _ = false

-- TransportAttachment. A pointer to one is its number in the registry's list of them.
pub record Attachment : Type 0 where
  pub id : Bytes
  pub peer_verified : Bool
  pub state : AttachmentState

pub data AddressFamily : Type 0 where
  family_ipv4 family_ipv6 family_unknown : AddressFamily

-- netip.AddrPort
pub record AddrPort : Type 0 where
  pub ip : Ip
  pub port : ℕ

pub record FlowSpec : Type 0 where
  pub flow_id : Bytes
  pub generation : ℕ
  pub family : AddressFamily
  pub local_end : AddrPort
  pub remote_end : AddrPort

pub record FlowLease : Type 0 where
  pub lease_flow : Bytes
  pub lease_generation : ℕ
  pub nonce : Bytes
  pub expires_at : ℕ

-- The registry's own record of a lease; the sequence is 0 until there is one.
pub record Lease : Type 0 where
  pub spec : FlowSpec
  pub nonce : Bytes
  pub has_sequence : Bool
  pub sequence : ℕ
  pub last_activity : ℕ

pub record Datagram : Type 0 where
  pub flow_id : Bytes
  pub generation : ℕ
  pub lease_nonce : Bytes
  pub sequence : ℕ
  pub payload : Bytes

pub record Transaction : Type 0 where
  pub id : Bytes
  pub generation : ℕ

pub data Direction : Type 0 where
  accepted_buffer delivery_buffer : Direction

pub record BufferLease : Type 0 where
  pub bytes : ℕ
  pub metadata : ℕ
  pub direction : Direction

-- A token bucket, exact: the float64 tokens are counted in billionths, a nanosecond's share at a rate
-- of one a second.
pub record TokenBucket : Type 0 where
  pub rate : ℕ
  pub burst : ℕ
  pub tokens : ℕ
  pub last : ℕ

abbrev pub token : ℕ
token = 1_000_000_000

unfoldable pub new_token_bucket : ℕ → ℕ → ℕ → TokenBucket
new_token_bucket rate burst now = record {
  rate = rate;
  burst = burst * token;
  tokens = burst * token;
  last = now;
}

unfoldable pub refill : ℕ → TokenBucket → TokenBucket
refill now b =
    if not (ltb b.last now)
    then b
    else let tokens = b.tokens + (now - b.last) * b.rate in
      record b { tokens = if ltb b.burst tokens then b.burst else tokens; last = now }
