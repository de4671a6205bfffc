-- ===== src/Tgp/Wire/Laws.antt =====
-- What sealing and opening a datagram (internal/tgp/codec.go) promise each other.
use tachyon_core.Base.{
  ℕ, ◌+◌, ◌/◌, ◌%◌, ◌^◌, ◌≤◌, ◌≡◌, sym, ◌∙◌, [], ◌∷◌, ◌++◌, none, some, length, length-append,
  arith, take-append, drop-append, ◌↔◌,
}
use tachyon_core.Base.Bits.{or_flag-lt}
use tachyon_core.Tgp.Types.{
  OuterHeader, InnerHeader, Bounded, Packet, inner_header_size, outer_header_size, magic_bytes,
  max_dtls_sequence, max_datagram_size,
}
use tachyon_core.Tgp.Wire.{
  Codec, IsAead, seal, open_wire, open_plaintext, new_outer_header, sealed_header,
}
use tachyon_core.Tgp.Wire.Headers.{
  OuterBounded, marshal_outer_header, marshal_inner_header, nonce_from_outer, length-marshal_inner,
  length-marshal_outer, parse-marshal_inner, parse-marshal_outer,
}
use tachyon_core.Base.Bytes.{Bytes}
use tachyon_core.Base.Outcome.{ok, ok-injective}

-- Up to 48 bits of sequence and 16 of length, the outer header is made.
abbrev pub outer_of : ℕ → ℕ → OuterHeader
outer_of sequence n = record {
  content_type = 0x17;
  version_major = 0xfe;
  version_minor = 0xff;
  epoch = 0;
  sequence_num =
      sequence / 2 ^ 40 % 256
      ∷ sequence / 2 ^ 32 % 256
      ∷ sequence / 2 ^ 24 % 256
      ∷ sequence / 2 ^ 16 % 256
      ∷ sequence / 2 ^ 8 % 256
      ∷ sequence % 256
      ∷ [];
  length = n % 2 ^ 16;
}

new_outer-ok :
    (sequence n : ℕ)
    → sequence ≤ max_dtls_sequence
    → n ≤ 0xffff
    → new_outer_header sequence n ≡ ok (outer_of sequence n)
unfolding new_outer_header
new_outer-ok sequence n p q = ground arith

pub new_outer-inv :
    (sequence n : ℕ) (h : OuterHeader)
    → new_outer_header sequence n ≡ ok h
    → (sequence ≤ max_dtls_sequence) × (h ≡ outer_of sequence n)
unfolding new_outer_header
new_outer-inv sequence n h e = ground arith

pub outer_of-OuterBounded : (sequence n : ℕ) → OuterBounded (outer_of sequence n)
outer_of-OuterBounded sequence n = omega arith

-- What `new_codec` makes: a lawful cipher, and a limit that the protocol allows.
pub record IsValid (c : Codec) : Type 0 where
  pub lawful : IsAead c.aead
  pub within : c.max_size ≤ max_datagram_size

module _ (c : Codec) (v : IsValid c) (sequence : ℕ) (inner : InnerHeader) (payload : Bytes) where
  abbrev plaintext_of : Bytes
  plaintext_of = marshal_inner_header (sealed_header inner payload) ++ payload

  abbrev pub sealed_outer : OuterHeader
  sealed_outer = outer_of sequence (59 + length payload)

  abbrev wire_of : Bytes
  wire_of =
      marshal_outer_header sealed_outer
      ++ c.aead.seal (nonce_from_outer sealed_outer) plaintext_of
          (marshal_outer_header sealed_outer)

  seal-fits :
      (wire : Bytes)
      → seal (some c) sequence inner payload ≡ ok wire
      → (72 + length payload ≤ c.max_size) × (sequence ≤ max_dtls_sequence)
  unfolding seal new_outer_header
  seal-fits wire e = ground (arith, v.lawful.overhead_eq)

  sealed-Bounded : Bounded inner → Bounded (sealed_header inner payload)
  sealed-Bounded b = omega (arith, or_flag-lt inner.flags b.flags_byte)

  length-plaintext : Bounded inner → length plaintext_of + c.aead.overhead ≡ 59 + length payload
  length-plaintext b = omega (
    arith,
    v.lawful.overhead_eq,
    length-append (marshal_inner_header (sealed_header inner payload)) payload,
    length-marshal_inner (sealed_header inner payload) (sealed-Bounded b),
  )

  seal-ok :
      Bounded inner
      → 72 + length payload ≤ c.max_size
      → sequence ≤ max_dtls_sequence
      → seal (some c) sequence inner payload ≡ ok wire_of
  unfolding seal
  seal-ok b fits s =
      rw (length-plaintext b, new_outer-ok sequence (59 + length payload) s (omega (arith, v)))
        (ground (arith, v.lawful.overhead_eq))

  -- Lengths: a sealed datagram is its payload and 72 bytes of headers and tag.
  length-wire_of : Bounded inner → length wire_of ≡ 72 + length payload
  length-wire_of b = omega (
    arith,
    v.lawful.overhead_eq,
    length-plaintext b,
    length-append (marshal_outer_header sealed_outer) (
        c.aead.seal (nonce_from_outer sealed_outer) plaintext_of
          (marshal_outer_header sealed_outer)),
    v.lawful.length-seal (nonce_from_outer sealed_outer) plaintext_of
        (marshal_outer_header sealed_outer),
    length-marshal_outer sealed_outer (outer_of-OuterBounded sequence (59 + length payload)),
  )

  -- With a lawful cipher and a limit that the protocol allows, sealing under a header in range
  -- succeeds exactly if the payload and 72 bytes of headers and tag fit the limit, and the sequence
  -- number has at most 48 bits.
  pub seal_iff :
      Bounded inner
      → ((wire : Bytes) × (seal (some c) sequence inner payload ≡ ok wire))
        ↔ (72 + length payload ≤ c.max_size) × (sequence ≤ max_dtls_sequence)
  seal_iff b = (λ (wire, e). seal-fits wire e, λ (fits, s). (wire_of, seal-ok b fits s))

  seal-wire :
      Bounded inner
      → (wire : Bytes) → seal (some c) sequence inner payload ≡ ok wire
      → wire ≡ wire_of
  seal-wire b wire e = let (fits, s) = seal-fits wire e in ok-injective (sym e ∙ seal-ok b fits s)

  open-plaintext :
      (now : ℕ)
      → Bounded inner
      → inner.magic ≡ magic_bytes
      → length payload ≤ 0xffff
      → open_plaintext sealed_outer now plaintext_of
        ≡ ok (record {
          outer = sealed_outer;
          inner = sealed_header inner payload;
          payload = payload;
          received_at = now;
          source_addr = none;
        })
  unfolding open_plaintext
  open-plaintext now b m n =
      let header : Bytes = marshal_inner_header (sealed_header inner payload) in
      let size : length header ≡ inner_header_size =
        length-marshal_inner (sealed_header inner payload) (sealed-Bounded b) in
      rw
        (
          take-append header payload inner_header_size size,
          drop-append header payload inner_header_size size,
          parse-marshal_inner (sealed_header inner payload) (sealed-Bounded b) m (omega arith),
          length-append header payload,
          size,
        )
        (ground arith)

  abbrev pub opened : ℕ → Packet
  opened now = record {
    outer = sealed_outer;
    inner = sealed_header inner payload;
    payload = payload;
    received_at = now;
    source_addr = none;
  }

  open-wire_of :
      (max_size now : ℕ)
      → Bounded inner
      → inner.magic ≡ magic_bytes
      → 72 + length payload ≤ max_size
      → 72 + length payload ≤ 0xffff
      → open_wire (some (record { aead = c.aead; max_size = max_size })) now wire_of
        ≡ ok (opened now)
  unfolding open_wire
  open-wire_of max_size now b m fits small =
      let header : Bytes = marshal_outer_header sealed_outer in
      let cipher : Bytes = c.aead.seal (nonce_from_outer sealed_outer) plaintext_of header in
      let ob : OuterBounded sealed_outer = outer_of-OuterBounded sequence (59 + length payload) in
      let size : length header ≡ outer_header_size = length-marshal_outer sealed_outer ob in
      let whole : length (header ++ cipher) ≡ 72 + length payload = length-wire_of b in
      rw
        (
          take-append header cipher outer_header_size size,
          drop-append header cipher outer_header_size size,
          parse-marshal_outer sealed_outer ob,
          whole,
          v.lawful.overhead_eq,
          v.lawful.open-seal (nonce_from_outer sealed_outer) plaintext_of header,
        )
        (ground (arith, open-plaintext now b m (omega arith)))

  -- With a lawful cipher and a limit that the protocol allows, opening what was sealed under a header
  -- in range with the right magic gives back the header with its length and encrypted flag set, and
  -- the payload, for every receiver with the same cipher whose limit is not below the sender's.
  pub open-seal :
      (max_size now : ℕ) (wire : Bytes)
      → Bounded inner
      → inner.magic ≡ magic_bytes
      → c.max_size ≤ max_size
      → seal (some c) sequence inner payload ≡ ok wire
      → open_wire (some (record { aead = c.aead; max_size = max_size })) now wire
        ≡ ok (record {
          outer = sealed_outer;
          inner = sealed_header inner payload;
          payload = payload;
          received_at = now;
          source_addr = none;
        })
  open-seal max_size now wire b m le e =
      let (fits, _) = seal-fits wire e in
      rw (seal-wire b wire e) (open-wire_of max_size now b m (omega arith) (omega (arith, v)))
