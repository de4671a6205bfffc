-- ===== src/Tgp/Wire/Nonces.antt =====
-- internal/tgp/codec.go: the AEAD nonce that a sealed datagram was sealed under.
use tachyon_core.Base.{
  ℕ, ◌+◌, ◌*◌, ◌≤◌, ◌≡◌, sym, ap, ◌∙◌, ◌++◌, [], some, take, get_or, length, arith, take-append,
  ltb,
}
use tachyon_core.Base.Bytes.{Bytes}
use tachyon_core.Base.Outcome.{Outcome, ok, err, reject-inv, bind-inv, ok-injective}
use tachyon_core.Tgp.Types.{OuterHeader, InnerHeader, outer_header_size, max_dtls_sequence, Error}
use tachyon_core.Tgp.Wire.{Codec, seal, new_outer_header, sealed_header}
use tachyon_core.Tgp.Wire.Headers.{
  marshal_outer_header, marshal_inner_header, parse_outer_header, nonce_from_outer,
  parse-marshal_outer, length-marshal_outer,
}
use tachyon_core.Tgp.Wire.Laws.{outer_of, new_outer-inv, outer_of-OuterBounded}

-- Headers that were made for sequence numbers and have the same nonce were made for the same number.
pub nonce-injective :
    (s t n m : ℕ) (h k : OuterHeader)
    → new_outer_header s n ≡ ok h
    → new_outer_header t m ≡ ok k
    → nonce_from_outer h ≡ nonce_from_outer k
    → s ≡ t
unfolding nonce_from_outer
nonce-injective s t n m h k p q e =
    let (sp, hp) = new_outer-inv s n h p in
    let (tp, kp) = new_outer-inv t m k q in
    let same = ap nonce_from_outer (sym hp) ∙ e ∙ ap nonce_from_outer kp in
    omega (
      arith,
      ap (λ bs. get_or bs 2 0) same,
      ap (λ bs. get_or bs 3 0) same,
      ap (λ bs. get_or bs 4 0) same,
      ap (λ bs. get_or bs 5 0) same,
      ap (λ bs. get_or bs 6 0) same,
      ap (λ bs. get_or bs 7 0) same,
    )

-- The nonce under which a receiver opens a datagram.
nonce_of_parsed : Outcome Error OuterHeader → Bytes
nonce_of_parsed (err e) = []
nonce_of_parsed (ok h) = nonce_from_outer h

pub nonce_of : Bytes → Bytes
unfolding nonce_of_parsed
nonce_of wire = nonce_of_parsed (parse_outer_header (take outer_header_size wire))

abbrev pub sequence_of : Bytes → ℕ
sequence_of nonce =
    ((((get_or nonce 2 0 * 256 + get_or nonce 3 0) * 256 + get_or nonce 4 0) * 256
            + get_or nonce 5 0)
          * 256
        + get_or nonce 6 0)
      * 256
    + get_or nonce 7 0

sequence_of-nonce :
    (sequence n : ℕ)
    → sequence ≤ max_dtls_sequence
    → sequence_of (nonce_from_outer (outer_of sequence n)) ≡ sequence
unfolding nonce_from_outer
sequence_of-nonce sequence n h = omega arith

nonce_of-outer :
    (sequence n : ℕ) (cipher : Bytes)
    → nonce_of (marshal_outer_header (outer_of sequence n) ++ cipher)
      ≡ nonce_from_outer (outer_of sequence n)
unfolding nonce_of
nonce_of-outer sequence n cipher =
    let outer = outer_of sequence n in
    let bounded = outer_of-OuterBounded sequence n in
    let header = marshal_outer_header outer in
    let size = length-marshal_outer outer bounded in
    ap (λ bs. nonce_of_parsed (parse_outer_header bs))
      (take-append header cipher outer_header_size size)
    ∙ ap nonce_of_parsed (parse-marshal_outer outer bounded)

seal-outer :
    (c : Codec) (sequence : ℕ) (inner : InnerHeader) (payload wire : Bytes)
    → seal (some c) sequence inner payload ≡ ok wire
    → (n : ℕ) × (cipher : Bytes) × ((sequence ≤ max_dtls_sequence)
        × (wire ≡ marshal_outer_header (outer_of sequence n) ++ cipher))
unfolding seal
seal-outer c sequence inner payload wire e =
    let n =
      length (marshal_inner_header (sealed_header inner payload) ++ payload) + c.aead.overhead in
    let plaintext = marshal_inner_header (sealed_header inner payload) ++ payload in
    let (_, e1) = reject-inv (ltb 0xffff (length payload)) _ _ wire e in
    let (_, e2) = reject-inv (ltb c.max_size _) _ _ wire e1 in
    let (outer, (made, sealed)) = bind-inv (new_outer_header sequence n) _ wire e2 in
    let (small, same) = new_outer-inv sequence n outer made in
    let header = marshal_outer_header outer in
    (
      n,
      c.aead.seal (nonce_from_outer outer) plaintext header,
      (
        small,
        sym (ok-injective sealed)
            ∙ ap
                (λ (h : OuterHeader).
                  marshal_outer_header h ++ c.aead.seal (nonce_from_outer outer) plaintext header)
                same,
      ),
    )

-- A datagram that was sealed under a sequence number has that number in its nonce.
pub sequence_of-seal :
    (c : Codec) (sequence : ℕ) (inner : InnerHeader) (payload wire : Bytes)
    → seal (some c) sequence inner payload ≡ ok wire
    → sequence_of (nonce_of wire) ≡ sequence
sequence_of-seal c sequence inner payload wire e =
    let (n, cipher, (small, same)) = seal-outer c sequence inner payload wire e in
    rw (same, nonce_of-outer sequence n cipher) (sequence_of-nonce sequence n small)
