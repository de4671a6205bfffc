-- ===== src/App/Writeback/Roundtrip.antt =====
-- What internal/pipeline/packet.go extracts from a packet that internal/app/packet_writeback.go built.
use tachyon_core.Base.{
  List, false, ℕ, length, refl, true, ◌≡◌, ◌≤◌, ◌<◌, [], ◌∷◌, ◌+◌, Bool, arith, drop, take_all, ◌-◌,
  ◌++◌, append_assoc, append-nil, ap, sym, ◌∙◌, ◌^◌, List, false, length-append,
}
use tachyon_core.Base.Bytes.{Bytes, put_be, get_be, get_be-put_be, join, slice-join}
use tachyon_core.Base.Outcome.{Outcome, ok, err}
use tachyon_core.Pidtrack.Flow.{Ip, no_ip, v4, v6, udp}
use tachyon_core.Pipeline.Packet.{extract_udp_payload}
use tachyon_core.Pipeline.Packet.Layout.{extract-ipv4, extract-ipv6}
use tachyon_core.App.Writeback.{
  BuildError, families_differ, Endpoint, build_udp_packet, ipv4_header, ipv6_header, udp_datagram,
}
use tachyon_core.App.Writeback.Checks.{is_addr, IsEndpoint, ipv4-inv, v6_parts}
use tachyon_core.App.Writeback.Ipv6Checks.{ipv6-inv}

module _ (s t c k : ℕ) (payload : Bytes) (ps : s < 2 ^ 16) (pt : t < 2 ^ 16) where
  extract-layout4 :
      (a1 a2 a3 a4 b1 b2 b3 b4 : ℕ)
      → 28 + length payload ≤ 0xffff
      → extract_udp_payload (
          ipv4_header (28 + length payload) k (v4 a1 a2 a3 a4) (v4 b1 b2 b3 b4)
          ++ udp_datagram s t c payload)
        ≡ ok (
          record {
            transport = udp;
            local_ip = v4 a1 a2 a3 a4;
            local_port = s;
            remote_ip = v4 b1 b2 b3 b4;
            remote_port = t;
          },
          payload,
        )
  extract-layout4 a1 a2 a3 a4 b1 b2 b3 b4 fits =
      let n : ℕ = length payload in
      let width : 20 + (8 + n) - 28 ≡ n = omega arith in
      extract-ipv4
        (ipv4_header (28 + n) k (v4 a1 a2 a3 a4) (v4 b1 b2 b3 b4) ++ udp_datagram s t c payload) n s
        t a1 a2 a3 a4 b1 b2 b3 b4 payload (omega arith) refl refl (refl, refl, refl, refl)
        (refl, refl, refl, refl) (omega arith) (omega arith) (omega arith)
        (rw width (take_all payload n (omega arith)))

  extract-layout6 :
      (src dst : Bytes)
      → length src ≡ 16
      → length dst ≡ 16
      → 8 + length payload ≤ 0xffff
      → extract_udp_payload
          (ipv6_header (8 + length payload) (v6 src) (v6 dst) ++ udp_datagram s t c payload)
        ≡ ok (
          record {
            transport = udp;
            local_ip = v6 src;
            local_port = s;
            remote_ip = v6 dst;
            remote_port = t;
          },
          payload,
        )
  extract-layout6 src dst hs hd fits = rw flat (
      extract-ipv6 (join fs) (length payload) s t src dst payload
        (omega (
          arith,
          hs,
          hd,
          length-append src (join (drop 4 fs)),
          length-append dst (join (drop 5 fs)),
          length-append payload [],
        ))
        refl refl (slice-join fs 3 8 24 (omega arith) (omega arith) (omega (arith, hs)))
        (slice-join fs 4 24 40 (omega arith) (omega (arith, hs)) (omega (arith, hd)))
        (ap get_be (slice-join fs 5 40 42 (omega arith) (omega (arith, hs, hd)) (omega arith))
          ∙ get_be-put_be 2 s (omega arith))
        (ap get_be (slice-join fs 6 42 44 (omega arith) (omega (arith, hs, hd)) (omega arith))
          ∙ get_be-put_be 2 t (omega arith))
        (ap get_be (slice-join fs 7 44 46 (omega arith) (omega (arith, hs, hd)) (omega arith))
          ∙ get_be-put_be 2 (8 + length payload) (omega arith))
        (slice-join fs 9 48 (40 + (8 + length payload)) (omega arith) (omega (arith, hs, hd))
          (omega arith)))
    where
      fs : List Bytes
      fs =
          (0x60 ∷ 0 ∷ 0 ∷ 0 ∷ [])
          ∷ put_be 2 (8 + length payload)
          ∷ (17 ∷ 64 ∷ [])
          ∷ src
          ∷ dst
          ∷ put_be 2 s
          ∷ put_be 2 t
          ∷ put_be 2 (8 + length payload)
          ∷ put_be 2 c
          ∷ payload
          ∷ []

      flat :
          ipv6_header (8 + length payload) (v6 src) (v6 dst) ++ udp_datagram s t c payload ≡ join fs
      flat =
          ap (λ r. (0x60 ∷ 0 ∷ 0 ∷ 0 ∷ put_be 2 (8 + length payload)) ++ (17 ∷ 64 ∷ r))
            (append_assoc src dst (udp_datagram s t c payload)
              ∙ ap
                  (λ p.
                    src
                    ++ (dst
                        ++ (put_be 2 s
                            ++ (put_be 2 t
                                ++ (put_be 2 (8 + length payload) ++ (put_be 2 c ++ p))))))
                  (sym (append-nil payload)))

clash : {e : BuildError} {p : Bytes} → ◌≡◌ {A = Outcome BuildError Bytes} (err e) (ok p) → ⊥
clash h = cc

-- Which endpoints a packet can be built for.
abbrev same_family : Ip → Ip → Bool
same_family no_ip b = false
same_family (v4 a1 a2 a3 a4) no_ip = false
same_family (v4 a1 a2 a3 a4) (v4 b1 b2 b3 b4) = true
same_family (v4 a1 a2 a3 a4) (v6 cs) = false
same_family (v6 bs) no_ip = false
same_family (v6 bs) (v4 b1 b2 b3 b4) = false
same_family (v6 bs) (v6 cs) = true

differ :
    (a b : Ip) (s t : ℕ) (payload : Bytes)
    → same_family a b ≡ false
    → build_udp_packet (record { addr = a; port = s }) (record { addr = b; port = t }) payload
      ≡ err families_differ
unfolding build_udp_packet
differ no_ip b s t payload h = refl
differ (v4 a1 a2 a3 a4) no_ip s t payload h = refl
differ (v4 a1 a2 a3 a4) (v4 b1 b2 b3 b4) s t payload h = cc
differ (v4 a1 a2 a3 a4) (v6 cs) s t payload h = refl
differ (v6 bs) no_ip s t payload h = refl
differ (v6 bs) (v4 b1 b2 b3 b4) s t payload h = refl
differ (v6 bs) (v6 cs) s t payload h = cc

-- The pipeline's parser reads back from a packet that was built the ports and addresses of the two
-- endpoints, which are in range and of one family, and the payload.
pub extract-build :
    (src dst : Endpoint) (payload packet : Bytes)
    → IsEndpoint src
    → IsEndpoint dst
    → build_udp_packet src dst payload ≡ ok packet
    → extract_udp_payload packet
      ≡ ok (
        record {
          transport = udp;
          local_ip = src.addr;
          local_port = src.port;
          remote_ip = dst.addr;
          remote_port = dst.port;
        },
        payload,
      )
extract-build src dst payload packet p q e = by_family src.addr dst.addr p.addr_range q.addr_range e
  where
    never :
        {A : Type 0} (a b : Ip)
        → same_family a b ≡ false
        → build_udp_packet
            (record { addr = a; port = src.port })
            (record { addr = b; port = dst.port })
            payload
          ≡ ok packet
        → A
    never a b h e = absurd (clash (sym (differ a b src.port dst.port payload h) ∙ e))

    by_family :
        (a b : Ip)
        → is_addr a ≡ true
        → is_addr b ≡ true
        → build_udp_packet
            (record { addr = a; port = src.port })
            (record { addr = b; port = dst.port })
            payload
          ≡ ok packet
        → extract_udp_payload packet
          ≡ ok (
            record {
              transport = udp;
              local_ip = a;
              local_port = src.port;
              remote_ip = b;
              remote_port = dst.port;
            },
            payload,
          )
    by_family no_ip b ra rb e = never no_ip b refl e
    by_family (v4 a1 a2 a3 a4) no_ip ra rb e = never (v4 a1 a2 a3 a4) no_ip refl e
    by_family (v4 a1 a2 a3 a4) (v4 b1 b2 b3 b4) ra rb e =
        let (fits, same) = ipv4-inv a1 a2 a3 a4 b1 b2 b3 b4 src.port dst.port payload packet e in
        rw same (
          extract-layout4 src.port dst.port _ _ payload p.port_range q.port_range a1 a2 a3 a4 b1 b2
            b3 b4 fits)
    by_family (v4 a1 a2 a3 a4) (v6 bs) ra rb e = never (v4 a1 a2 a3 a4) (v6 bs) refl e
    by_family (v6 bs) no_ip ra rb e = never (v6 bs) no_ip refl e
    by_family (v6 bs) (v4 b1 b2 b3 b4) ra rb e = never (v6 bs) (v4 b1 b2 b3 b4) refl e
    by_family (v6 bs) (v6 cs) ra rb e =
        let (fits, same) = ipv6-inv bs cs src.port dst.port payload packet e in
        rw same (
          extract-layout6 src.port dst.port _ 0 payload p.port_range q.port_range bs cs
            (v6_parts bs ra).0 (v6_parts cs rb).0 fits)
