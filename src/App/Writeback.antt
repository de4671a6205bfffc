-- ===== src/App/Writeback.antt =====
-- internal/app/packet_writeback.go: the IP packet that carries a reply into the TUN device.
pub mod Sums
pub mod Checks
pub mod Ipv6Checks
pub mod Roundtrip
mod Tests
use tachyon_core.Base.{
  ℕ, Bool, true, false, ◌&&◌, List, ◌==◌, length, drop, take, slice, get_or, ltb, not, ◌||◌,
  if◌then◌else◌, zero, suc, [], ◌∷◌, ◌%◌, ◌++◌, ◌+◌, ◌-◌, ◌*◌, ◌/◌, ◌^◌,
}
use tachyon_core.Base.Bytes.{Bytes, get_be, put_be, join}
use tachyon_core.Base.Outcome.{Outcome, ok, err, reject, ◌>>=◌, ◌>>◌}
use tachyon_core.Pidtrack.Flow.{Ip, no_ip, v4, v6}

pub data BuildError : Type 0 where
  families_differ packet_too_large payload_too_large : BuildError

-- netip.AddrPort
pub record Endpoint : Type 0 where
  pub addr : Ip
  pub port : ℕ

-- The sum of the 16-bit words in a uint32.
pub checksum_bytes : ℕ → Bytes → ℕ
checksum_bytes sum [] = sum
checksum_bytes sum (b ∷ []) = (sum + b * 2 ^ 8) % 2 ^ 32
checksum_bytes sum (b ∷ c ∷ bs) = checksum_bytes ((sum + (b * 256 + c)) % 2 ^ 32) bs

-- The loop `for sum > 0xffff`, with fuel.
pub fold_carries : ℕ → ℕ → ℕ
fold_carries zero sum = sum
fold_carries (suc fuel) sum =
    let rest = fold_carries fuel (sum % 2 ^ 16 + sum / 2 ^ 16) in
    if ltb 0xffff sum then rest else sum

-- Two rounds are enough for a uint32. The complement of a uint16 is its distance from 0xffff.
pub finish_checksum : ℕ → ℕ
finish_checksum sum = 0xffff - fold_carries 2 sum % 2 ^ 16

pub internet_checksum : Bytes → ℕ
internet_checksum data_bytes = finish_checksum (checksum_bytes 0 data_bytes)

abbrev pub addr_bytes : Ip → Bytes
addr_bytes no_ip = []
addr_bytes (v4 a b c d) = a ∷ b ∷ c ∷ d ∷ []
addr_bytes (v6 bs) = bs

-- The sum over the pseudo header of IPv4, and over the datagram.
pub udp_checksum_ipv4 : Ip → Ip → Bytes → ℕ
udp_checksum_ipv4 src dst datagram =
    let sum = checksum_bytes (checksum_bytes 0 (addr_bytes src)) (addr_bytes dst) in
    finish_checksum (checksum_bytes ((sum + 17 + length datagram) % 2 ^ 32) datagram)

pub udp_checksum_ipv6 : Ip → Ip → Bytes → ℕ
udp_checksum_ipv6 src dst datagram =
    let sum = checksum_bytes (checksum_bytes 0 (addr_bytes src)) (addr_bytes dst) in
    finish_checksum (
      checksum_bytes ((sum + (length datagram / 2 ^ 16 + length datagram % 2 ^ 16) + 17) % 2 ^ 32)
        datagram)

-- writeUDPHeader, with the checksum that stands in the header.
abbrev pub udp_datagram : ℕ → ℕ → ℕ → Bytes → Bytes
udp_datagram src_port dst_port checksum payload =
    put_be 2 src_port
    ++ (put_be 2 dst_port ++ (put_be 2 (8 + length payload) ++ (put_be 2 checksum ++ payload)))

abbrev pub ipv4_header : ℕ → ℕ → Ip → Ip → Bytes
ipv4_header total_len checksum src dst =
    0x45 ∷ 0 ∷ put_be 2 total_len
    ++ (0 ∷ 0 ∷ 0 ∷ 0 ∷ 64 ∷ 17 ∷ put_be 2 checksum ++ (addr_bytes src ++ addr_bytes dst))

abbrev pub ipv6_header : ℕ → Ip → Ip → Bytes
ipv6_header udp_len src dst =
    0x60 ∷ 0 ∷ 0 ∷ 0 ∷ put_be 2 udp_len ++ (17 ∷ 64 ∷ addr_bytes src ++ addr_bytes dst)

-- A checksum of zero, which means that there is none, is sent as 0xffff.
abbrev pub sent_checksum : ℕ → ℕ
sent_checksum checksum = if checksum == 0 then 0xffff else checksum

pub build_ipv4_udp_packet : Endpoint → Endpoint → Bytes → Outcome BuildError Bytes
build_ipv4_udp_packet src dst payload = do
  let total_len = 20 + 8 + length payload
  reject (ltb 0xffff total_len) packet_too_large
  let checksum = internet_checksum (ipv4_header total_len 0 src.addr dst.addr)
  let sum = udp_checksum_ipv4 src.addr dst.addr (udp_datagram src.port dst.port 0 payload)
  ok (
      ipv4_header total_len checksum src.addr dst.addr
      ++ udp_datagram src.port dst.port (sent_checksum sum) payload)

pub build_ipv6_udp_packet : Endpoint → Endpoint → Bytes → Outcome BuildError Bytes
build_ipv6_udp_packet src dst payload = do
  let udp_len = 8 + length payload
  reject (ltb 0xffff udp_len) payload_too_large
  let sum = udp_checksum_ipv6 src.addr dst.addr (udp_datagram src.port dst.port 0 payload)
  ok (
      ipv6_header udp_len src.addr dst.addr
      ++ udp_datagram src.port dst.port (sent_checksum sum) payload)

-- The family checks of the two builders repeat those of this dispatch.
pub build_udp_packet : Endpoint → Endpoint → Bytes → Outcome BuildError Bytes
build_udp_packet src dst payload = elim src.addr [
  | no_ip ↦ err families_differ
  | v4 a b c d ↦ elim dst.addr [
    | no_ip ↦ err families_differ
    | v4 e f g h ↦ build_ipv4_udp_packet src dst payload
    | v6 bs ↦ err families_differ
  ]
  | v6 bs ↦ elim dst.addr [
    | no_ip ↦ err families_differ
    | v4 e f g h ↦ err families_differ
    | v6 cs ↦ build_ipv6_udp_packet src dst payload
  ]
]
