-- ===== src/Tgp/Tunnel/Tests.antt =====
-- Runs of internal/tgp/tunnel.go.
use tachyon_core.Base.{true, ◌≤◌, ◌↔◌, ◌+◌, length, ◌≡◌, [], ◌∷◌, ◌++◌, refl, replicate, arith}
use tachyon_core.Base.Bytes.{Bytes}
use tachyon_core.Base.Outcome.{ok}
use tachyon_core.Pidtrack.Flow.{v4, v6}
use tachyon_core.Tgp.Tunnel.{
  max_captured_payload, TunnelDatagram, marshal_tunnel, parse_tunnel, is_zero_identity,
  is_valid_identity,
}
use tachyon_core.Tgp.Wire.{normalize_max_datagram_size}
use tachyon_core.Tgp.Tunnel.Budget.{captured_payload_iff}
use tachyon_core.Tgp.Tunnel.Ends.{IsDatagram}
use tachyon_core.Tgp.Tunnel.Laws.{parse-marshal}

abbrev bound : TunnelDatagram
bound = record {
  identity = record { flow_id = replicate 16 3; generation = 258; lease_nonce = replicate 16 4 };
  local_ip = v4 10 0 0 2;
  local_port = 4000;
  remote_ip = v6 (replicate 16 7);
  remote_port = 27015;
  payload = 1 ∷ 2 ∷ [];
}

abbrev wire : Bytes
wire =
    0x54 ∷ 0x47 ∷ 0x44 ∷ 0x02 ∷ replicate 16 3
    ++ (0 ∷ 0 ∷ 0 ∷ 0 ∷ 0 ∷ 0 ∷ 1 ∷ 2 ∷ replicate 16 4
        ++ (4 ∷ 10 ∷ 0 ∷ 0 ∷ 2 ∷ 15 ∷ 160 ∷ 16 ∷ replicate 16 7 ++ (105 ∷ 135 ∷ 1 ∷ 2 ∷ [])))

written : marshal_tunnel bound ≡ ok wire
unfolding marshal_tunnel is_zero_identity is_valid_identity
written = refl

bound-IsDatagram : IsDatagram bound
bound-IsDatagram = omega arith

parse-marshal_example : parse_tunnel wire ≡ ok bound
parse-marshal_example = parse-marshal bound wire bound-IsDatagram written

abbrev captured : TunnelDatagram
captured = record bound { remote_ip = v4 10 0 0 1 }

abbrev captured_wire : Bytes
captured_wire =
    0x54 ∷ 0x47 ∷ 0x44 ∷ 0x02 ∷ replicate 16 3
    ++ (0 ∷ 0 ∷ 0 ∷ 0 ∷ 0 ∷ 0 ∷ 1 ∷ 2 ∷ replicate 16 4
        ++ (4 ∷ 10 ∷ 0 ∷ 0 ∷ 2 ∷ 15 ∷ 160 ∷ 4 ∷ 10 ∷ 0 ∷ 0 ∷ 1 ∷ 105 ∷ 135 ∷ 1 ∷ 2 ∷ []))

captured_written : marshal_tunnel captured ≡ ok captured_wire
unfolding marshal_tunnel is_zero_identity is_valid_identity
captured_written = refl

default_size : normalize_max_datagram_size 0 ≡ ok 1352
unfolding normalize_max_datagram_size
default_size = refl

default_limit : max_captured_payload 0 (v4 10 0 0 2) (v4 10 0 0 1) ≡ ok 1220
unfolding max_captured_payload normalize_max_datagram_size
default_limit = refl

captured-IsDatagram : IsDatagram captured
captured-IsDatagram = omega arith

captured-valid : is_valid_identity captured.identity ≡ true
unfolding is_valid_identity
captured-valid = refl

captured_payload_iff_example : (2 ≤ 1220) ↔ (72 + (2 + length captured_wire) ≤ 1352)
captured_payload_iff_example =
    captured_payload_iff 0 1352 1220 captured captured_wire default_size default_limit
      captured-IsDatagram captured-valid captured_written
