-- ===== src/Tgp/Tunnel.antt =====
-- internal/tgp/tunnel.go: the datagram inside a TGP payload, with the endpoints of the tunnelled flow.
-- netip.Addr is the `Ip` of Pidtrack/Flow. A fixed-size array is a byte list.
pub mod Ends
pub mod Laws
pub mod Budget
mod Tests
use tachyon_core.Base.{
  ℕ, ◌+◌, ◌-◌, Bool, true, false, ◌&&◌, ◌||◌, not, List, [], ◌∷◌, ◌++◌, length, take, drop, slice,
  get_or, replicate, ltb, leb, ◌==◌, if◌then◌else◌, ◌≡◌, ◌<◌, ◌^◌,
}
use tachyon_core.Base.Bytes.{Bytes, put_be, get_be, join}
use tachyon_core.Base.Outcome.{Outcome, ok, err, ◌>>=◌, ◌>>◌, reject}
use tachyon_core.Base.Text.{same_text}
use tachyon_core.Pidtrack.Flow.{Ip, no_ip, v4, v6}
use tachyon_core.Tgp.Types.{Error, invalid_tunnel_data, datagram_too_large}
use tachyon_core.Tgp.Wire.{normalize_max_datagram_size}

-- Legacy TUN preview, and lease-bound captured UDP.
abbrev pub tunnel_magic_v1 : Bytes
tunnel_magic_v1 = 0x54 ∷ 0x47 ∷ 0x44 ∷ 0x01 ∷ []

abbrev pub tunnel_magic_v2 : Bytes
tunnel_magic_v2 = 0x54 ∷ 0x47 ∷ 0x44 ∷ 0x02 ∷ []

abbrev pub ipv4_overhead : ℕ
ipv4_overhead = 13 + 43 + 16 + 2 + 4 + 16 + 8 + 16 + 1 + 4 + 2 + 1 + 4 + 2

abbrev pub ipv6_overhead : ℕ
ipv6_overhead = 13 + 43 + 16 + 2 + 4 + 16 + 8 + 16 + 1 + 16 + 2 + 1 + 16 + 2

pub record Identity : Type 0 where
  pub flow_id : Bytes
  pub generation : ℕ
  pub lease_nonce : Bytes

abbrev pub zero_identity : Identity
zero_identity = record { flow_id = replicate 16 0; generation = 0; lease_nonce = replicate 16 0 }

abbrev pub all_zero : Bytes → Bool
all_zero [] = true
all_zero (b ∷ bs) = b == 0 && all_zero bs

pub is_zero_identity : Identity → Bool
is_zero_identity i = all_zero i.flow_id && i.generation == 0 && all_zero i.lease_nonce

pub is_valid_identity : Identity → Bool
is_valid_identity i =
    not (all_zero i.flow_id) && not (i.generation == 0) && not (all_zero i.lease_nonce)

pub record TunnelDatagram : Type 0 where
  pub identity : Identity
  pub local_ip : Ip
  pub local_port : ℕ
  pub remote_ip : Ip
  pub remote_port : ℕ
  pub payload : Bytes

-- netip.Addr.IsValid, Is4 and AsSlice
abbrev pub is_valid_ip : Ip → Bool
is_valid_ip no_ip = false
is_valid_ip (v4 a b c d) = true
is_valid_ip (v6 bs) = true

abbrev pub is_4 : Ip → Bool
is_4 no_ip = false
is_4 (v4 a b c d) = true
is_4 (v6 bs) = false

abbrev pub ip_bytes : Ip → Bytes
ip_bytes no_ip = []
ip_bytes (v4 a b c d) = a ∷ b ∷ c ∷ d ∷ []
ip_bytes (v6 bs) = bs

unfoldable pub max_captured_payload : ℕ → Ip → Ip → Outcome Error ℕ
max_captured_payload requested local_ip remote_ip = do
  size ← normalize_max_datagram_size requested
  reject
      (not (is_valid_ip local_ip)
        || not (is_valid_ip remote_ip)
        || (is_4 local_ip && not (is_4 remote_ip))
        || (not (is_4 local_ip) && is_4 remote_ip))
      invalid_tunnel_data
  let overhead = if is_4 local_ip then ipv4_overhead else ipv6_overhead
  reject (leb size overhead) datagram_too_large
  ok (size - overhead)

-- The part behind the magic and the identity.
abbrev pub end_fields : TunnelDatagram → List Bytes
end_fields d =
    (length (ip_bytes d.local_ip) ∷ [])
    ∷ ip_bytes d.local_ip
    ∷ put_be 2 d.local_port
    ∷ (length (ip_bytes d.remote_ip) ∷ [])
    ∷ ip_bytes d.remote_ip
    ∷ put_be 2 d.remote_port
    ∷ d.payload
    ∷ []

abbrev pub identity_fields : Identity → List Bytes
identity_fields i = i.flow_id ∷ put_be 8 i.generation ∷ i.lease_nonce ∷ []

abbrev bad_size : ℕ → Bool
bad_size n = not (n == 4) && not (n == 16)

pub marshal_tunnel : TunnelDatagram → Outcome Error Bytes
unfolding is_zero_identity is_valid_identity
marshal_tunnel d = do
  reject (not (is_valid_ip d.local_ip)) invalid_tunnel_data
  reject (not (is_valid_ip d.remote_ip)) invalid_tunnel_data
  reject (bad_size (length (ip_bytes d.local_ip))) invalid_tunnel_data
  reject (bad_size (length (ip_bytes d.remote_ip))) invalid_tunnel_data
  if is_zero_identity d.identity then ok (join (tunnel_magic_v1 ∷ end_fields d)) else do
    reject (not (is_valid_identity d.identity)) invalid_tunnel_data
    ok (join (tunnel_magic_v2 ∷ (identity_fields d.identity ++ end_fields d)))

-- netip.AddrFrom4 or AddrFrom16, by the length byte.
pub read_ip : ℕ → Bytes → Ip
read_ip n bs =
    if n == 4 then v4 (get_or bs 0 0) (get_or bs 1 0) (get_or bs 2 0) (get_or bs 3 0) else v6 bs

-- ParseTunnelDatagram from the offset behind the magic and the identity.
pub parse_ends : Identity → Bytes → ℕ → Outcome Error TunnelDatagram
unfolding read_ip
parse_ends identity data_bytes offset = do
  let local_len = get_or data_bytes offset 0
  reject (bad_size local_len) invalid_tunnel_data
  reject (ltb (length data_bytes) (offset + 1 + local_len + 2 + 1 + 2)) invalid_tunnel_data
  let local_port_at = offset + 1 + local_len
  let remote_len = get_or data_bytes (local_port_at + 2) 0
  reject (bad_size remote_len) invalid_tunnel_data
  let remote_at = local_port_at + 2 + 1
  let remote_port_at = remote_at + remote_len
  reject (ltb (length data_bytes) (remote_port_at + 2)) invalid_tunnel_data
  ok (record {
    identity = identity;
    local_ip = read_ip local_len (slice data_bytes (offset + 1) local_port_at);
    local_port = get_be (slice data_bytes local_port_at (local_port_at + 2));
    remote_ip = read_ip remote_len (slice data_bytes remote_at remote_port_at);
    remote_port = get_be (slice data_bytes remote_port_at (remote_port_at + 2));
    payload = drop (remote_port_at + 2) data_bytes;
  })

-- The branch of the second magic.
pub parse_bound : Bytes → Outcome Error TunnelDatagram
unfolding is_valid_identity
parse_bound data_bytes = do
  reject (ltb (length data_bytes) (4 + 40 + 1 + 2 + 1 + 2)) invalid_tunnel_data
  let identity : Identity = record {
    flow_id = slice data_bytes 4 20;
    generation = get_be (slice data_bytes 20 28);
    lease_nonce = slice data_bytes 28 44;
  }
  reject (not (is_valid_identity identity)) invalid_tunnel_data
  parse_ends identity data_bytes 44

pub parse_tunnel : Bytes → Outcome Error TunnelDatagram
unfolding parse_bound
parse_tunnel data_bytes = do
  reject (ltb (length data_bytes) (4 + 1 + 2 + 1 + 2)) invalid_tunnel_data
  if same_text (take 4 data_bytes) tunnel_magic_v1
      then parse_ends zero_identity data_bytes 4
      else if same_text (take 4 data_bytes) tunnel_magic_v2
      then parse_bound data_bytes
      else err invalid_tunnel_data
