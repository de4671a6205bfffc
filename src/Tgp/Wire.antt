-- ===== src/Tgp/Wire.antt =====
-- internal/tgp/codec.go: the two headers of a datagram, and sealing and opening it.
-- golang.org/x/crypto/chacha20poly1305 is the parameter `Aead`; `IsAead` states what it documents.
pub mod Headers
pub mod Laws
pub mod Opened
pub mod Nonces
pub mod Plain
mod Tests
use tachyon_core.Base.{
  ℕ, zero, suc, ◌+◌, ◌-◌, ◌*◌, ◌/◌, ◌%◌, ◌^◌, ◌≤◌, ◌<◌, ◌≡◌, ◌||◌, List, [], ◌∷◌, ◌++◌, Option,
  none, some, length, take, drop, slice, get_or, ltb, ◌==◌, not, if◌then◌else◌, bit_or,
}
use tachyon_core.Base.Bytes.{Bytes, put_be, get_be}
use tachyon_core.Base.Outcome.{Outcome, ok, err, ◌>>=◌, ◌>>◌, reject}
use tachyon_core.Tgp.Types.{
  Error, packet_too_short, invalid_length, sequence_overflow, datagram_too_large, nil_codec,
  aead_failed, max_datagram_out_of_range, outer_header_size, inner_header_size, min_datagram_size,
  default_datagram_size, max_datagram_size, max_dtls_sequence, magic_bytes, flag_encrypted,
  aead_overhead_size, OuterHeader, InnerHeader, Packet,
}
use Headers.{
  marshal_outer_header, parse_outer_header, marshal_inner_header, parse_inner_header,
  nonce_from_outer,
}

-- cipher.AEAD, with its key inside: nonce, text and additional data.
pub record Aead : Type 0 where
  pub overhead : ℕ
  pub seal : Bytes → Bytes → Bytes → Bytes
  pub open_sealed : Bytes → Bytes → Bytes → Option Bytes

pub record Codec : Type 0 where
  pub aead : Aead
  pub max_size : ℕ

unfoldable pub normalize_max_datagram_size : ℕ → Outcome Error ℕ
normalize_max_datagram_size requested = do
  let size = if requested == 0 then default_datagram_size else requested
  reject (ltb size min_datagram_size || ltb max_datagram_size size) max_datagram_out_of_range
  ok size

unfoldable pub new_codec : Outcome Error Aead → ℕ → Outcome Error Codec
new_codec created requested = do
  size ← normalize_max_datagram_size requested
  aead ← created
  ok (record { aead = aead; max_size = size })

pub new_outer_header : ℕ → ℕ → Outcome Error OuterHeader
new_outer_header sequence encrypted_length = do
  reject (ltb max_dtls_sequence sequence) sequence_overflow
  reject (ltb 0xffff encrypted_length) invalid_length
  ok (record {
    content_type = 0x17;
    version_major = 0xfe;
    version_minor = 0xff;
    epoch = 0;
    sequence_num =
        sequence / 2 ^ 40 % 256
        ∷ sequence / 2 ^ 32 % 256
        ∷ sequence / 2 ^ 24 % 256
        ∷ sequence / 2 ^ 16 % 256
        ∷ sequence / 2 ^ 8 % 256
        ∷ sequence % 256
        ∷ [];
    length = encrypted_length % 2 ^ 16;
  })

unfoldable pub new_data_header : Bytes → ℕ → ℕ → ℕ → Outcome Error InnerHeader
new_data_header session_id stream_id packet_number payload_length = do
  reject (ltb 0xffff payload_length) invalid_length
  ok (record {
    magic = magic_bytes;
    flags = flag_encrypted;
    session_id = session_id;
    stream_id = stream_id;
    packet_number = packet_number;
    fec_group = 0;
    fec_index = 0;
    fec_total = 0;
    fec_data_shards = 0;
    payload_length = payload_length % 2 ^ 16;
  })

-- The header that is sealed: its length field and the encrypted flag are set here.
abbrev pub sealed_header : InnerHeader → Bytes → InnerHeader
sealed_header inner payload = record inner {
  payload_length = length payload % 2 ^ 16;
  flags = bit_or inner.flags flag_encrypted;
}

pub seal : Option Codec → ℕ → InnerHeader → Bytes → Outcome Error Bytes
seal none sequence inner payload = err nil_codec
seal (some c) sequence inner payload = do
  reject (ltb 0xffff (length payload)) invalid_length
  let wire_size = outer_header_size + inner_header_size + length payload + c.aead.overhead
  reject (ltb c.max_size wire_size) datagram_too_large
  let plaintext = marshal_inner_header (sealed_header inner payload) ++ payload
  outer ← new_outer_header sequence (length plaintext + c.aead.overhead)
  let outer_bytes = marshal_outer_header outer
  ok (outer_bytes ++ c.aead.seal (nonce_from_outer outer) plaintext outer_bytes)

-- The plaintext of an authenticated datagram.
open_plaintext : OuterHeader → ℕ → Bytes → Outcome Error Packet
open_plaintext outer now plaintext = do
  reject (ltb (length plaintext) inner_header_size) packet_too_short
  inner ← parse_inner_header (take inner_header_size plaintext)
  reject (not (inner.payload_length == length plaintext - inner_header_size)) invalid_length
  ok (record {
    outer = outer;
    inner = inner;
    payload = drop inner_header_size plaintext;
    received_at = now;
    source_addr = none;
  })

or_fail : Option Bytes → Error → Outcome Error Bytes
or_fail none e = err e
or_fail (some a) e = ok a

-- `now` is the clock's time, which the packet records.
pub open_wire : Option Codec → ℕ → Bytes → Outcome Error Packet
unfolding or_fail
open_wire none now wire = err nil_codec
open_wire (some c) now wire = do
  reject (ltb c.max_size (length wire)) datagram_too_large
  reject (ltb (length wire) (outer_header_size + c.aead.overhead + inner_header_size))
      packet_too_short
  let outer_bytes = take outer_header_size wire
  outer ← parse_outer_header outer_bytes
  reject (not (outer.length == length wire - outer_header_size)) invalid_length
  plaintext ←
      or_fail
        (c.aead.open_sealed (nonce_from_outer outer) (drop outer_header_size wire) outer_bytes)
        aead_failed
  open_plaintext outer now plaintext

-- What chacha20poly1305 documents: opening undoes sealing, and the tag has sixteen bytes.
pub record IsAead (a : Aead) : Type 0 where
  pub overhead_eq : a.overhead ≡ aead_overhead_size
  pub length-seal : (n p d : Bytes) → length (a.seal n p d) ≡ length p + aead_overhead_size
  pub open-seal : (n p d : Bytes) → a.open_sealed n (a.seal n p d) d ≡ some p
  pub length-open :
      (n c d p : Bytes) → a.open_sealed n c d ≡ some p → length c ≡ length p + aead_overhead_size
