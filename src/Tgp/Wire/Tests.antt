-- ===== src/Tgp/Wire/Tests.antt =====
-- Runs of internal/tgp/codec.go on one datagram.
use tachyon_core.Base.{◌+◌, ◌≤◌, ◌≡◌, refl, [], ◌∷◌, ◌++◌, some, take, replicate, arith, ◌↔◌}
use tachyon_core.Base.Bytes.{Bytes}
use tachyon_core.Base.Outcome.{ok, err}
use tachyon_core.Tgp.Types.{InnerHeader, Bounded, magic_bytes, max_dtls_sequence, packet_too_short}
use tachyon_core.Tgp.Wire.{seal, open_wire, open_plaintext, new_outer_header}
use tachyon_core.Tgp.Wire.Plain.{tag, plain_aead, plain_aead-IsAead, codec, codec-IsValid}
use tachyon_core.Tgp.Wire.Laws.{open-seal, opened, seal_iff}
use tachyon_core.Tgp.Wire.Opened.{Accepted, open_wire-Accepted}
use tachyon_core.Tgp.Wire.Headers.{
  marshal_outer_header, marshal_inner_header, parse_outer_header, parse_inner_header,
}

abbrev header : InnerHeader
header = record {
  magic = magic_bytes;
  flags = 2;
  session_id = replicate 16 7;
  stream_id = 300;
  packet_number = 5;
  fec_group = 70_000;
  fec_index = 1;
  fec_total = 6;
  fec_data_shards = 4;
  payload_length = 0;
}

header-Bounded : Bounded header
header-Bounded = omega arith

abbrev payload : Bytes
payload = 9 ∷ 8 ∷ []

abbrev wire : Bytes
wire =
    23
    ∷ 254
    ∷ 255
    ∷ 0
    ∷ 0
    ∷ 0
    ∷ 0
    ∷ 0
    ∷ 0
    ∷ 0
    ∷ 5
    ∷ 0
    ∷ 61
    ∷ 84
    ∷ 71
    ∷ 80
    ∷ 1
    ∷ 130
    ∷ 0
    ∷ 0
    ∷ 7
    ∷ 7
    ∷ 7
    ∷ 7
    ∷ 7
    ∷ 7
    ∷ 7
    ∷ 7
    ∷ 7
    ∷ 7
    ∷ 7
    ∷ 7
    ∷ 7
    ∷ 7
    ∷ 7
    ∷ 7
    ∷ 1
    ∷ 44
    ∷ 0
    ∷ 0
    ∷ 0
    ∷ 0
    ∷ 0
    ∷ 0
    ∷ 0
    ∷ 5
    ∷ 0
    ∷ 1
    ∷ 17
    ∷ 112
    ∷ 1
    ∷ 6
    ∷ 4
    ∷ 0
    ∷ 0
    ∷ 2
    ∷ (payload ++ tag)

seals : seal (some codec) 5 header payload ≡ ok wire
unfolding seal new_outer_header marshal_outer_header marshal_inner_header
seals = refl

opens : open_wire (some codec) 9 wire ≡ ok (opened codec codec-IsValid 5 header payload 9)
unfolding open_wire open_plaintext parse_outer_header parse_inner_header
opens = refl

short_is_refused : open_wire (some codec) 9 (take 71 wire) ≡ err packet_too_short
unfolding open_wire
short_is_refused = refl

open-seal_example :
    open_wire (some (record { aead = plain_aead; max_size = 1400 })) 9 wire
    ≡ ok (opened codec codec-IsValid 5 header payload 9)
open-seal_example =
    open-seal codec codec-IsValid 5 header payload 1400 9 wire header-Bounded refl (omega arith)
      seals

seal_iff_example :
    ((w : Bytes) × (seal (some codec) 5 header payload ≡ ok w))
    ↔ (72 + 2 ≤ 1352) × (5 ≤ max_dtls_sequence)
seal_iff_example = seal_iff codec codec-IsValid 5 header payload header-Bounded

open_wire-Accepted_example : Accepted codec wire (opened codec codec-IsValid 5 header payload 9)
open_wire-Accepted_example =
    open_wire-Accepted codec 9 wire (opened codec codec-IsValid 5 header payload 9)
      plain_aead-IsAead opens
