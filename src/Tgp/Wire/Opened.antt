-- ===== src/Tgp/Wire/Opened.antt =====
-- What is known of a datagram that `open_wire` (internal/tgp/codec.go, Open) accepted.
use tachyon_core.Base.{
  ℕ, ◌+◌, ◌≡◌, ◌≤◌, some, length, arith, take, inr, drop, inl, Option-cases, length-drop, ltb, ◌-◌,
  not, ◌==◌, none,
}
use tachyon_core.Base.Bytes.{Bytes}
use tachyon_core.Base.Outcome.{ok, Outcome-cases, Outcome, reject, ◌>>◌, ◌>>=◌, err}
use tachyon_core.Tgp.Types.{
  Packet, magic_bytes, OuterHeader, inner_header_size, outer_header_size, Error, InnerHeader,
  packet_too_short, invalid_length,
}
use tachyon_core.Tgp.Wire.{Codec, IsAead, open_wire, open_plaintext}
use tachyon_core.Tgp.Wire.Headers.{
  parse_inner_header, bytes_eq→eq, parse_outer_header, nonce_from_outer, parse_inner-magic,
}

-- The end of `open_plaintext`, over the parsed header, the plaintext's length and the payload.
accept-inv :
    (outer : OuterHeader) (now n : ℕ) (payload : Bytes) (r : Outcome Error InnerHeader) (p : Packet)
    → (reject (ltb n inner_header_size) packet_too_short
        >> (r >>= λ inner.
            reject (not (inner.payload_length == n - inner_header_size)) invalid_length
            >> ok (record {
              outer = outer;
              inner = inner;
              payload = payload;
              received_at = now;
              source_addr = none;
            })))
      ≡ ok p
    → (p.outer ≡ outer)
      × (inner_header_size + p.inner.payload_length ≡ n)
      × (r ≡ ok p.inner)
      × (p.payload ≡ payload)
accept-inv outer now n payload (err x) p e = ground arith
accept-inv outer now n payload (ok inner) p e = ground arith

open_plaintext-inv :
    (outer : OuterHeader) (now : ℕ) (plaintext : Bytes) (p : Packet)
    → open_plaintext outer now plaintext ≡ ok p
    → (p.outer ≡ outer)
      × (inner_header_size + length p.payload ≡ length plaintext)
      × (p.inner.magic ≡ magic_bytes)
      × (p.inner.payload_length ≡ length p.payload)
unfolding open_plaintext
open_plaintext-inv outer now plaintext p e =
    let (same, total, parsed, cut) =
      accept-inv outer now (length plaintext) (drop inner_header_size plaintext)
        (parse_inner_header (take inner_header_size plaintext)) p e in
    let size : length p.payload ≡ length plaintext - inner_header_size =
      rw cut (length-drop inner_header_size plaintext) in
    (
      same,
      omega arith,
      bytes_eq→eq _ _ (parse_inner-magic (take inner_header_size plaintext) p.inner parsed),
      omega arith,
    )

pub record Accepted (c : Codec) (wire : Bytes) (p : Packet) : Type 0 where
  pub within : length wire ≤ c.max_size
  pub outer_length : 13 + p.outer.length ≡ length wire
  pub whole : 72 + length p.payload ≡ length wire
  pub magic : p.inner.magic ≡ magic_bytes
  pub inner_length : p.inner.payload_length ≡ length p.payload

module _ (c : Codec) (now : ℕ) (wire : Bytes) (p : Packet) (law : IsAead c.aead) where
  open_wire_parts :
      (outer : OuterHeader) (plaintext : Bytes)
      → parse_outer_header (take outer_header_size wire) ≡ ok outer
      → c.aead.open_sealed
          (nonce_from_outer outer)
          (drop outer_header_size wire)
          (take outer_header_size wire)
        ≡ some plaintext
      → open_wire (some c) now wire ≡ ok p
      → (length wire ≤ c.max_size)
        × (13 + outer.length ≡ length wire)
        × (length wire ≡ 29 + length plaintext)
        × (open_plaintext outer now plaintext ≡ ok p)
  unfolding open_wire
  open_wire_parts outer plaintext po pd e = ground (
    arith,
    law.overhead_eq,
    law.length-open (nonce_from_outer outer) (drop outer_header_size wire)
        (take outer_header_size wire) plaintext pd,
    length-drop outer_header_size wire,
  )

  -- With a lawful cipher, a datagram that opens is within the configured limit, both its length
  -- fields agree with the bytes that came, and its magic is right.
  pub open_wire-Accepted : open_wire (some c) now wire ≡ ok p → Accepted c wire p
  unfolding open_wire
  open_wire-Accepted e = elim (Outcome-cases (parse_outer_header (take outer_header_size wire))) [
    | inr (x, po) ↦ absurd (ground arith)
    | inl (outer, po) ↦
        elim (Option-cases (
          c.aead.open_sealed (nonce_from_outer outer) (drop outer_header_size wire)
            (take outer_header_size wire))) [
              | inl pd ↦ absurd (ground arith)
              | inr (plaintext, pd) ↦
                  let (within, lo, total, inside) = open_wire_parts outer plaintext po pd e in
                  let (same, whole, magic, li) = open_plaintext-inv outer now plaintext p inside in
                  record {
                    within = within;
                    outer_length = ground arith;
                    whole = omega arith;
                    magic = magic;
                    inner_length = li;
                  }
            ]
  ]
