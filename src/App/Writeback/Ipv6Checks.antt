-- ===== src/App/Writeback/Ipv6Checks.antt =====
-- The checksum of the IPv6 packets that internal/app/packet_writeback.go builds.
use tachyon_core.Base.{
  [], ◌∷◌, slice, append_assoc, drop, length-append, drop-append, ℕ, length, true, ◌≡◌, ◌≤◌, ◌<◌,
  ◌+◌, arith, ◌^◌, ◌++◌, ◌%◌, ◌/◌,
}
use tachyon_core.Base.Bytes.{Bytes, get_be}
use tachyon_core.Base.Outcome.{ok}
use tachyon_core.Pidtrack.Flow.{v6}
use tachyon_core.App.Writeback.{
  checksum_bytes, finish_checksum, sent_checksum, udp_checksum_ipv6, build_udp_packet,
  build_ipv6_udp_packet, ipv6_header, udp_datagram,
}
use tachyon_core.App.Writeback.Sums.{words, all_bytes, sent_checksum-range, words-append}
use tachyon_core.App.Writeback.Checks.{
  is_addr, v6_parts, IsChecked, multiple-IsChecked, pseudo_ipv6, datagram-sum, pseudo-le,
  sum_of_addrs,
}

pub ipv6-inv :
    (bs cs : Bytes) (s t : ℕ) (payload packet : Bytes)
    → build_udp_packet
        (record { addr = v6 bs; port = s })
        (record { addr = v6 cs; port = t })
        payload
      ≡ ok packet
    → let n = 8 + length payload in
      (n ≤ 0xffff)
      × (packet
          ≡ ipv6_header n (v6 bs) (v6 cs)
            ++ udp_datagram s t
                (sent_checksum (udp_checksum_ipv6 (v6 bs) (v6 cs) (udp_datagram s t 0 payload)))
                payload)
unfolding build_udp_packet build_ipv6_udp_packet
ipv6-inv bs cs s t payload packet q = ground arith

length-ipv6_header :
    (n : ℕ) (bs cs : Bytes)
    → length bs ≡ 16
    → length cs ≡ 16
    → length (ipv6_header n (v6 bs) (v6 cs)) ≡ 40
length-ipv6_header n bs cs h k = omega (arith, length-append bs cs)

words_pseudo6 :
    (bs cs ds : Bytes) (n : ℕ)
    → length bs ≡ 16
    → length cs ≡ 16
    → n < 2 ^ 32
    → words (pseudo_ipv6 bs cs n ++ ds)
      ≡ words bs + (words cs + ((n / 2 ^ 16 + n % 2 ^ 16) + 17 + words ds))
words_pseudo6 bs cs ds n h k small =
    let tail : Bytes =
      n / 2 ^ 24 % 256 ∷ n / 2 ^ 16 % 256 ∷ n / 256 % 256 ∷ n % 256 ∷ 0 ∷ 0 ∷ 0 ∷ 17 ∷ [] in
    rw (append_assoc bs (cs ++ tail) ds, append_assoc cs tail ds)
      (omega (arith, words-append bs (cs ++ (tail ++ ds)) 8 h, words-append cs (tail ++ ds) 8 k))

-- For addresses of 16 bytes and a payload of bytes, a receiver finds the checksum of an IPv6 packet
-- that is built right: the words of the pseudo header of RFC 8200 and of the datagram add up to a
-- positive multiple of 0xffff; and the checksum is not 0, which IPv6 does not allow.
pub ipv6-checks :
    (bs cs : Bytes) (s t : ℕ) (payload packet : Bytes)
    → is_addr (v6 bs) ≡ true
    → is_addr (v6 cs) ≡ true
    → all_bytes payload ≡ true
    → build_udp_packet
        (record { addr = v6 bs; port = s })
        (record { addr = v6 cs; port = t })
        payload
      ≡ ok packet
    → IsChecked (pseudo_ipv6 bs cs (length (drop 40 packet)) ++ drop 40 packet)
      × (0 < get_be (slice (drop 40 packet) 6 8))
unfolding udp_checksum_ipv6
ipv6-checks bs cs s t payload packet p q bytes built =
    let (fits, same) = ipv6-inv bs cs s t payload packet built in
    let n : ℕ = length (udp_datagram s t 0 payload) in
    let (width, _) = v6_parts bs p in
    let (width', _) = v6_parts cs q in
    let sum : ℕ = checksum_bytes (checksum_bytes 0 bs) cs in
    let added = sum_of_addrs (v6 bs) (v6 cs) p q in
    let bound = pseudo-le (v6 bs) (v6 cs) p q in
    let base : ℕ = (sum + (n / 2 ^ 16 + n % 2 ^ 16) + 17) % 2 ^ 32 in
    let before : ℕ = checksum_bytes base (udp_datagram s t 0 payload) in
    let c' : ℕ = sent_checksum (finish_checksum before) in
    let (positive, range) = sent_checksum-range before in
    let (k, total) = datagram-sum base s t payload (omega arith) bytes (omega arith) in
    let sent : Bytes = udp_datagram s t c' payload in
    let parts = words_pseudo6 bs cs sent (length sent) width width' (omega arith) in
    rw
      (
        same,
        drop-append (ipv6_header (8 + length payload) (v6 bs) (v6 cs)) sent 40
            (length-ipv6_header (8 + length payload) bs cs width width'),
      )
      (
        multiple-IsChecked (pseudo_ipv6 bs cs (length sent) ++ sent) k
            (omega (arith, parts, total, added)),
        omega (arith, positive, range),
      )
