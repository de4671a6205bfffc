-- ===== src/App/Writeback/Checks.antt =====
-- The checksums of the packets that internal/app/packet_writeback.go builds, and those of IPv4.
use tachyon_core.Base.{
  suc, [], ◌∷◌, slice, drop, take, ℕ, length, ltb, true, ◌≡◌, ◌≤◌, ◌<◌, ◌+◌, ◌*◌, Bool, ◌&&◌, arith,
  ◌==◌, ◌^◌, ◌++◌, ◌%◌, ◌/◌,
}
use tachyon_core.Base.Bytes.{Bytes, get_be}
use tachyon_core.Base.Outcome.{ok}
use tachyon_core.Pidtrack.Flow.{Ip, no_ip, v4, v6}
use tachyon_core.App.Writeback.{
  Endpoint, checksum_bytes, finish_checksum, sent_checksum, internet_checksum, udp_checksum_ipv4,
  build_udp_packet, build_ipv4_udp_packet, ipv4_header, udp_datagram, addr_bytes,
}
use tachyon_core.App.Writeback.Sums.{
  words, all_bytes, words-le, finish_checksum-lt, checksum_bytes-words, sent_checksum-range,
  finish_cases, sent_cases,
}

-- The ranges that Go's types give an address.
abbrev pub is_addr : Ip → Bool
is_addr no_ip = true
is_addr (v4 a b c d) = ltb a 256 && ltb b 256 && ltb c 256 && ltb d 256
is_addr (v6 bs) = length bs == 16 && all_bytes bs

pub record IsEndpoint (e : Endpoint) : Type 0 where
  pub addr_range : is_addr e.addr ≡ true
  pub port_range : e.port < 2 ^ 16

header_words :
    (n c : ℕ) (src dst : Ip)
    → c < 2 ^ 16
    → words (ipv4_header n c src dst) ≡ words (ipv4_header n 0 src dst) + c
header_words n c src dst h = omega arith

datagram_words :
    (s d c : ℕ) (payload : Bytes)
    → c < 2 ^ 16
    → words (udp_datagram s d c payload) ≡ words (udp_datagram s d 0 payload) + c
datagram_words s d c payload h = omega arith

datagram-le :
    (s d : ℕ) (payload : Bytes)
    → all_bytes payload ≡ true
    → 2 * words (udp_datagram s d 0 payload) ≤ 65535 * (length payload + 7)
datagram-le s d payload h = omega (arith, words-le payload h)

pub v6_parts : (bs : Bytes) → is_addr (v6 bs) ≡ true → (length bs ≡ 16) × (all_bytes bs ≡ true)
v6_parts bs h = ground arith

addr-le : (ip : Ip) → is_addr ip ≡ true → 2 * words (addr_bytes ip) ≤ 65535 * 17
addr-le no_ip h = omega arith
addr-le (v4 a b c d) h = ground arith
addr-le (v6 bs) h = let (n, all) = v6_parts bs h in omega (arith, words-le bs all)

-- The test of a receiver (RFC 1071): the words add up to all ones in one's complement, that is, to a
-- positive multiple of 0xffff.
pub record IsChecked (bs : Bytes) : Type 0 where
  pub multiple : words bs % 0xffff ≡ 0
  pub positive : 0 < words bs

pub multiple-IsChecked : (bs : Bytes) (k : ℕ) → words bs ≡ suc k * 65535 → IsChecked bs
multiple-IsChecked bs k e = record { multiple = omega (arith, e); positive = omega (arith, e) }

-- The pseudo headers of RFC 768 and of RFC 8200, for a datagram of `n` bytes.
abbrev pub pseudo_ipv4 : ℕ → ℕ → ℕ → ℕ → ℕ → ℕ → ℕ → ℕ → ℕ → Bytes
pseudo_ipv4 a b c d e f g h n =
    a ∷ b ∷ c ∷ d ∷ e ∷ f ∷ g ∷ h ∷ 0 ∷ 17 ∷ n / 256 % 256 ∷ n % 256 ∷ []

abbrev pub pseudo_ipv6 : Bytes → Bytes → ℕ → Bytes
pseudo_ipv6 bs cs n =
    bs
    ++ (cs ++ n / 2 ^ 24 % 256 ∷ n / 2 ^ 16 % 256 ∷ n / 256 % 256 ∷ n % 256 ∷ 0 ∷ 0 ∷ 0 ∷ 17 ∷ [])

-- A base and a UDP datagram with the checksum that is sent make a multiple of 0xffff.
pub datagram-sum :
    (base s d : ℕ) (payload : Bytes)
    → base ≤ 30 * 65535
    → all_bytes payload ≡ true
    → length payload ≤ 65535
    → let c = sent_checksum (finish_checksum (checksum_bytes base (udp_datagram s d 0 payload))) in
      (k : ℕ) × (base + words (udp_datagram s d c payload) ≡ suc k * 65535)
datagram-sum base s d payload small bytes short =
    let before : ℕ = checksum_bytes base (udp_datagram s d 0 payload) in
    let c : ℕ = sent_checksum (finish_checksum before) in
    let (positive, range) = sent_checksum-range before in
    let bound = datagram-le s d payload bytes in
    let w0 = checksum_bytes-words base (udp_datagram s d 0 payload) (omega arith) in
    let moved = datagram_words s d c payload range in
    let (k, e) = sent_cases before (omega (arith, w0)) in (k, omega (arith, w0, moved, e))

pub pseudo-le :
    (src dst : Ip)
    → is_addr src ≡ true
    → is_addr dst ≡ true
    → checksum_bytes (checksum_bytes 0 (addr_bytes src)) (addr_bytes dst) ≤ 20 * 65535
pseudo-le src dst p q =
    let below = addr-le src p in
    let below' = addr-le dst q in
    let one = checksum_bytes-words 0 (addr_bytes src) (omega arith) in
    let two = checksum_bytes-words (0 + words (addr_bytes src)) (addr_bytes dst) (omega arith) in
    rw (one, two) (omega arith)

pub ipv4-inv :
    (a b c d e f g h s t : ℕ) (payload packet : Bytes)
    → let src = v4 a b c d in
      let dst = v4 e f g h in
      build_udp_packet (record { addr = src; port = s }) (record { addr = dst; port = t }) payload
        ≡ ok packet
      → let n = 28 + length payload in
        (n ≤ 0xffff)
        × (packet
            ≡ ipv4_header n (internet_checksum (ipv4_header n 0 src dst)) src dst
              ++ udp_datagram s t
                  (sent_checksum (udp_checksum_ipv4 src dst (udp_datagram s t 0 payload)))
                  payload)
unfolding build_udp_packet build_ipv4_udp_packet
ipv4-inv a b c d e f g h s t payload packet q = ground arith

header-IsChecked :
    (n : ℕ) (a b c d e f g h : ℕ)
    → is_addr (v4 a b c d) ≡ true
    → is_addr (v4 e f g h) ≡ true
    → let header = ipv4_header n 0 (v4 a b c d) (v4 e f g h) in
      IsChecked (ipv4_header n (internet_checksum header) (v4 a b c d) (v4 e f g h))
unfolding internet_checksum
header-IsChecked n a b c d e f g h p q =
    let src : Ip = v4 a b c d in
    let dst : Ip = v4 e f g h in
    let before : ℕ = checksum_bytes 0 (ipv4_header n 0 src dst) in
    let c' : ℕ = finish_checksum before in
    let bound : words (ipv4_header n 0 src dst) ≤ 30 * 65535 =
      omega (arith, addr-le src p, addr-le dst q) in
    let w0 = checksum_bytes-words 0 (ipv4_header n 0 src dst) (omega arith) in
    let moved = header_words n c' src dst (finish_checksum-lt before) in
    let (k, e, small) = finish_cases before (omega (arith, w0)) in
    multiple-IsChecked (ipv4_header n c' src dst) k (omega (arith, w0, moved, e))

pub sum_of_addrs :
    (src dst : Ip)
    → is_addr src ≡ true
    → is_addr dst ≡ true
    → checksum_bytes (checksum_bytes 0 (addr_bytes src)) (addr_bytes dst)
      ≡ words (addr_bytes src) + words (addr_bytes dst)
sum_of_addrs src dst p q =
    let below = addr-le src p in
    let below' = addr-le dst q in
    let one = checksum_bytes-words 0 (addr_bytes src) (omega arith) in
    let two = checksum_bytes-words (0 + words (addr_bytes src)) (addr_bytes dst) (omega arith) in
    rw (one, two) (omega arith)

-- For addresses and a payload of bytes, a receiver finds both checksums of an IPv4 packet that is
-- built right: the words of its header, and those of the pseudo header of RFC 768 with the datagram,
-- add up to a positive multiple of 0xffff; and the datagram's checksum is not 0, which would mean that
-- there is none.
pub ipv4-checks :
    (a b c d e f g h s t : ℕ) (payload packet : Bytes)
    → is_addr (v4 a b c d) ≡ true
    → is_addr (v4 e f g h) ≡ true
    → all_bytes payload ≡ true
    → build_udp_packet
        (record { addr = v4 a b c d; port = s })
        (record { addr = v4 e f g h; port = t })
        payload
      ≡ ok packet
    → IsChecked (take 20 packet)
      × (IsChecked (pseudo_ipv4 a b c d e f g h (length (drop 20 packet)) ++ drop 20 packet)
          × (0 < get_be (slice packet 26 28)))
unfolding udp_checksum_ipv4
ipv4-checks a b c d e f g h s t payload packet p q bytes built =
    let (fits, same) = ipv4-inv a b c d e f g h s t payload packet built in
    let src : Ip = v4 a b c d in
    let dst : Ip = v4 e f g h in
    let n : ℕ = length (udp_datagram s t 0 payload) in
    let sum : ℕ = checksum_bytes (checksum_bytes 0 (addr_bytes src)) (addr_bytes dst) in
    let added = sum_of_addrs src dst p q in
    let bound = pseudo-le src dst p q in
    let base : ℕ = (sum + 17 + n) % 2 ^ 32 in
    let before : ℕ = checksum_bytes base (udp_datagram s t 0 payload) in
    let c' : ℕ = sent_checksum (finish_checksum before) in
    let (positive, range) = sent_checksum-range before in
    let (k, total) = datagram-sum base s t payload (omega arith) bytes (omega arith) in
    rw same (
      header-IsChecked (28 + length payload) a b c d e f g h p q,
      (
        multiple-IsChecked
            (pseudo_ipv4 a b c d e f g h (length (udp_datagram s t c' payload))
              ++ udp_datagram s t c' payload)
            k (omega (arith, total, added)),
        omega (arith, positive, range),
      ),
    )
