-- ===== src/Tgp/Tunnel/Budget.antt =====
-- internal/tgp/tunnel.go: MaxCapturedUDPV2Payload against what a sealed datagram has room for.
use tachyon_core.Base.{
  ℕ, ◌+◌, ◌≤◌, ◌≡◌, ◌↔◌, Bool, true, ◌&&◌, not, length, arith, ap, ◌∙◌, inl, inr, ◌++◌, ◌∷◌, [],
  length-append,
}
use tachyon_core.Base.Bytes.{Bytes, join, put_be}
use tachyon_core.Base.Outcome.{ok}
use tachyon_core.Pidtrack.Flow.{Ip, no_ip, v4, v6}
use tachyon_core.Tgp.Wire.{normalize_max_datagram_size}
use tachyon_core.Tgp.Tunnel.{
  TunnelDatagram, Identity, max_captured_payload, marshal_tunnel, is_valid_identity,
  is_zero_identity, all_zero, end_fields, identity_fields, tunnel_magic_v2,
}
use tachyon_core.Tgp.Tunnel.Ends.{IsDatagram, ip_size, length-join_end}
use tachyon_core.Tgp.Tunnel.Laws.{marshal-inv, join-append}

not_both : (i : Identity) → is_valid_identity i ≡ true → is_zero_identity i ≡ true → ⊥
unfolding is_valid_identity is_zero_identity
not_both i v z = parts (all_zero i.flow_id) _ _ v z
  where
    parts : (a b c : Bool) → (not a && not b && not c) ≡ true → (a && b && c) ≡ true → ⊥
    parts a b c h k = ground arith

length-bound :
    (d : TunnelDatagram) (wire : Bytes)
    → IsDatagram d
    → is_valid_identity d.identity ≡ true
    → marshal_tunnel d ≡ ok wire
    → length wire ≡ 50 + ip_size d.local_ip + ip_size d.remote_ip + length d.payload
length-bound d wire w v e =
    let (vl, vr, kind) = marshal-inv d wire e in
    elim kind [
      | inl (z, same) ↦ absurd (not_both d.identity v z)
      | inr (_, same) ↦
          let front : Bytes = join (tunnel_magic_v2 ∷ identity_fields d.identity) in
          ap length same
          ∙ ap length (join-append (tunnel_magic_v2 ∷ identity_fields d.identity) (end_fields d))
          ∙ omega (
            arith,
            w,
            length-append front (join (end_fields d)),
            length-join_end d,
            length-append d.identity.flow_id
                (put_be 8 d.identity.generation ++ (d.identity.lease_nonce ++ [])),
            length-append d.identity.lease_nonce [],
          )
    ]

budget-eq :
    (requested size n : ℕ) (a b : Ip)
    → normalize_max_datagram_size requested ≡ ok size
    → max_captured_payload requested a b ≡ ok n
    → n + 124 + ip_size a + ip_size b ≡ size
unfolding max_captured_payload
budget-eq requested size n no_ip b h e = absurd (ground arith)
budget-eq requested size n (v4 a1 a2 a3 a4) no_ip h e = absurd (ground arith)
budget-eq requested size n (v4 a1 a2 a3 a4) (v4 b1 b2 b3 b4) h e = ground arith
budget-eq requested size n (v4 a1 a2 a3 a4) (v6 bs) h e = absurd (ground arith)
budget-eq requested size n (v6 bs) no_ip h e = absurd (ground arith)
budget-eq requested size n (v6 bs) (v4 b1 b2 b3 b4) h e = absurd (ground arith)
budget-eq requested size n (v6 bs) (v6 cs) h e = ground arith

-- The limit for a captured payload is the largest one: the tunnel datagram of a bound flow between
-- two addresses, with its FEC length prefix and 72 bytes of headers and tag, fits the datagram size
-- exactly if the payload is within the limit for these addresses.
pub captured_payload_iff :
    (requested size n : ℕ) (d : TunnelDatagram) (wire : Bytes)
    → normalize_max_datagram_size requested ≡ ok size
    → max_captured_payload requested d.local_ip d.remote_ip ≡ ok n
    → IsDatagram d
    → is_valid_identity d.identity ≡ true
    → marshal_tunnel d ≡ ok wire
    → (length d.payload ≤ n) ↔ (72 + (2 + length wire) ≤ size)
captured_payload_iff requested size n d wire h e w v m =
    let whole = length-bound d wire w v m in
    let budget = budget-eq requested size n d.local_ip d.remote_ip h e in
    (λ le. omega arith, λ le. omega arith)
