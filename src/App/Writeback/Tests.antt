-- ===== src/App/Writeback/Tests.antt =====
-- Runs of internal/app/packet_writeback.go and of the parser of internal/pipeline/packet.go.
use tachyon_core.Base.{◌≡◌, refl, [], ◌∷◌, take, drop, slice, length, ◌++◌, ◌<◌, arith}
use tachyon_core.Base.Bytes.{Bytes, get_be}
use tachyon_core.Base.Outcome.{ok}
use tachyon_core.Pidtrack.Flow.{v4, v6, udp}
use tachyon_core.Pipeline.Packet.{extract_udp_payload}
use tachyon_core.Pipeline.Packet.Layout.{udp_offset, Datagram, extract-Datagram}
use tachyon_core.App.Writeback.{
  Endpoint, build_udp_packet, build_ipv4_udp_packet, build_ipv6_udp_packet, internet_checksum,
  udp_checksum_ipv4, udp_checksum_ipv6, finish_checksum, fold_carries, checksum_bytes,
}
use tachyon_core.App.Writeback.Checks.{IsEndpoint, IsChecked, pseudo_ipv4, pseudo_ipv6, ipv4-checks}
use tachyon_core.App.Writeback.Ipv6Checks.{ipv6-checks}
use tachyon_core.App.Writeback.Roundtrip.{extract-build}

abbrev server : Endpoint
server = record { addr = v4 10 0 0 1; port = 53 }

abbrev client : Endpoint
client = record { addr = v4 10 0 0 2; port = 4000 }

abbrev payload : Bytes
payload = 9 ∷ 8 ∷ 7 ∷ []

abbrev packet : Bytes
packet =
    69 ∷ 0 ∷ 0 ∷ 31 ∷ 0 ∷ 0 ∷ 0 ∷ 0 ∷ 64 ∷ 17 ∷ 102 ∷ 204 ∷ 10 ∷ 0 ∷ 0 ∷ 1 ∷ 10 ∷ 0 ∷ 0 ∷ 2 ∷ 0 ∷ 53
    ∷ 15 ∷ 160 ∷ 0 ∷ 11 ∷ 203 ∷ 248 ∷ 9 ∷ 8 ∷ 7 ∷ []

built : build_udp_packet server client payload ≡ ok packet
unfolding build_udp_packet build_ipv4_udp_packet internet_checksum udp_checksum_ipv4 finish_checksum
    fold_carries checksum_bytes
built = refl

abbrev server6 : Bytes
server6 = 32 ∷ 1 ∷ 0 ∷ 0 ∷ 0 ∷ 0 ∷ 0 ∷ 0 ∷ 0 ∷ 0 ∷ 0 ∷ 0 ∷ 0 ∷ 0 ∷ 0 ∷ 1 ∷ []

abbrev client6 : Bytes
client6 = 32 ∷ 1 ∷ 0 ∷ 0 ∷ 0 ∷ 0 ∷ 0 ∷ 0 ∷ 0 ∷ 0 ∷ 0 ∷ 0 ∷ 0 ∷ 0 ∷ 0 ∷ 2 ∷ []

abbrev packet6 : Bytes
packet6 =
    96 ∷ 0 ∷ 0 ∷ 0 ∷ 0 ∷ 11 ∷ 17 ∷ 64 ∷ 32 ∷ 1 ∷ 0 ∷ 0 ∷ 0 ∷ 0 ∷ 0 ∷ 0 ∷ 0 ∷ 0 ∷ 0 ∷ 0 ∷ 0 ∷ 0 ∷ 0
    ∷ 1 ∷ 32 ∷ 1 ∷ 0 ∷ 0 ∷ 0 ∷ 0 ∷ 0 ∷ 0 ∷ 0 ∷ 0 ∷ 0 ∷ 0 ∷ 0 ∷ 0 ∷ 0 ∷ 2 ∷ 0 ∷ 53 ∷ 15 ∷ 160 ∷ 0
    ∷ 11 ∷ 159 ∷ 246 ∷ 9 ∷ 8 ∷ 7 ∷ []

built6 :
    build_udp_packet
      (record { addr = v6 server6; port = 53 })
      (record { addr = v6 client6; port = 4000 })
      payload
    ≡ ok packet6
unfolding build_udp_packet build_ipv6_udp_packet udp_checksum_ipv6 finish_checksum fold_carries
    checksum_bytes
built6 = refl

server-IsEndpoint : IsEndpoint server
server-IsEndpoint = record { addr_range = refl; port_range = omega arith }

client-IsEndpoint : IsEndpoint client
client-IsEndpoint = record { addr_range = refl; port_range = omega arith }

ipv4-checks_example :
    IsChecked (take 20 packet)
    × (IsChecked (pseudo_ipv4 10 0 0 1 10 0 0 2 (length (drop 20 packet)) ++ drop 20 packet)
        × (0 < get_be (slice packet 26 28)))
ipv4-checks_example = ipv4-checks 10 0 0 1 10 0 0 2 53 4000 payload packet refl refl refl built

ipv6-checks_example :
    IsChecked (pseudo_ipv6 server6 client6 (length (drop 40 packet6)) ++ drop 40 packet6)
    × (0 < get_be (slice (drop 40 packet6) 6 8))
ipv6-checks_example = ipv6-checks server6 client6 53 4000 payload packet6 refl refl refl built6

parsed :
    extract_udp_payload packet
    ≡ ok (
      record {
        transport = udp;
        local_ip = v4 10 0 0 1;
        local_port = 53;
        remote_ip = v4 10 0 0 2;
        remote_port = 4000;
      },
      payload,
    )
parsed = extract-build server client payload packet server-IsEndpoint client-IsEndpoint built

extract-build_example :
    extract_udp_payload packet
    ≡ ok (
      record {
        transport = udp;
        local_ip = v4 10 0 0 1;
        local_port = 53;
        remote_ip = v4 10 0 0 2;
        remote_port = 4000;
      },
      payload,
    )
extract-build_example =
    extract-build server client payload packet server-IsEndpoint client-IsEndpoint built

extract-Datagram_example :
    Datagram packet
      (udp_offset packet)
      (record {
        transport = udp;
        local_ip = v4 10 0 0 1;
        local_port = 53;
        remote_ip = v4 10 0 0 2;
        remote_port = 4000;
      })
      payload
extract-Datagram_example =
    extract-Datagram packet payload
      (record {
        transport = udp;
        local_ip = v4 10 0 0 1;
        local_port = 53;
        remote_ip = v4 10 0 0 2;
        remote_port = 4000;
      })
      parsed
