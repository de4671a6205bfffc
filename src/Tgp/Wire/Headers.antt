-- ===== src/Tgp/Wire/Headers.antt =====
-- internal/tgp/codec.go: the byte layout of the outer and the inner header, and the AEAD nonce.
-- A buffer that Go fills at fixed offsets is the concatenation of its fields.
use tachyon_core.Base.{
  ◌^◌, ◌≤◌, ◌<◌, ◌≡◌, refl, Bool, true, false, ◌&&◌, List, [], ◌∷◌, ◌++◌, length, length-append,
  drop, slice, get_or, ltb, ◌==◌, not, arith,
}
use tachyon_core.Base.Bytes.{Bytes, put_be, get_be, get_be-put_be, join, slice-join, get_or-join}
use tachyon_core.Base.Outcome.{Outcome, ok, ◌>>◌, reject}
use tachyon_core.Tgp.Types.{
  Error, packet_too_short, invalid_magic, outer_header_size, inner_header_size, magic_bytes,
  OuterHeader, InnerHeader, Bounded,
}

-- [Content-Type:1][Version:2][Epoch:2][SequenceNum:6][Length:2]
abbrev pub outer_fields : OuterHeader → List Bytes
outer_fields h =
    (h.content_type ∷ [])
    ∷ (h.version_major ∷ [])
    ∷ (h.version_minor ∷ [])
    ∷ put_be 2 h.epoch
    ∷ h.sequence_num
    ∷ put_be 2 h.length
    ∷ []

unfoldable pub marshal_outer_header : OuterHeader → Bytes
marshal_outer_header h = join (outer_fields h)

unfoldable pub parse_outer_header : Bytes → Outcome Error OuterHeader
parse_outer_header bs = do
  reject (ltb (length bs) outer_header_size) packet_too_short
  ok (record {
    content_type = get_or bs 0 0;
    version_major = get_or bs 1 0;
    version_minor = get_or bs 2 0;
    epoch = get_be (slice bs 3 5);
    sequence_num = slice bs 5 11;
    length = get_be (slice bs 11 13);
  })

-- [Magic:4][Flags:1][Reserved:2][SessionID:16][StreamID:2][PacketNum:8]
-- [FECGroup:4][FECIndex:1][FECTotal:1][FECDataShards:1][Pad:1][PayloadLen:2]
abbrev pub inner_fields : InnerHeader → List Bytes
inner_fields h =
    h.magic
    ∷ (h.flags ∷ [])
    ∷ (0 ∷ 0 ∷ [])
    ∷ h.session_id
    ∷ put_be 2 h.stream_id
    ∷ put_be 8 h.packet_number
    ∷ put_be 4 h.fec_group
    ∷ (h.fec_index ∷ [])
    ∷ (h.fec_total ∷ [])
    ∷ (h.fec_data_shards ∷ [])
    ∷ (0 ∷ [])
    ∷ put_be 2 h.payload_length
    ∷ []

unfoldable pub marshal_inner_header : InnerHeader → Bytes
marshal_inner_header h = join (inner_fields h)

-- subtle.ConstantTimeCompare, as the test that it computes.
abbrev pub bytes_eq : Bytes → Bytes → Bool
bytes_eq [] [] = true
bytes_eq [] (y ∷ ys) = false
bytes_eq (x ∷ xs) [] = false
bytes_eq (x ∷ xs) (y ∷ ys) = x == y && bytes_eq xs ys

unfoldable pub parse_inner_header : Bytes → Outcome Error InnerHeader
parse_inner_header bs = do
  reject (ltb (length bs) inner_header_size) packet_too_short
  let magic = slice bs 0 4
  reject (not (bytes_eq magic magic_bytes)) invalid_magic
  ok (record {
    magic = magic;
    flags = get_or bs 4 0;
    session_id = slice bs 7 23;
    stream_id = get_be (slice bs 23 25);
    packet_number = get_be (slice bs 25 33);
    fec_group = get_be (slice bs 33 37);
    fec_index = get_or bs 37 0;
    fec_total = get_or bs 38 0;
    fec_data_shards = get_or bs 39 0;
    payload_length = get_be (slice bs 41 43);
  })

unfoldable pub nonce_from_outer : OuterHeader → Bytes
nonce_from_outer h =
    put_be 2 h.epoch
    ++ (h.sequence_num ++ (h.content_type ∷ h.version_major ∷ h.version_minor ∷ 0 ∷ []))

module _ (h : InnerHeader) (b : Bounded h) where
  pub length-marshal_inner : length (marshal_inner_header h) ≡ inner_header_size
  unfolding marshal_inner_header
  length-marshal_inner = omega (
    arith,
    b,
    length-append h.magic (join (drop 1 (inner_fields h))),
    length-append h.session_id (join (drop 4 (inner_fields h))),
  )

parse_of_fields :
    (bs : Bytes) (h : InnerHeader)
    → inner_header_size ≤ length bs
    → bytes_eq h.magic magic_bytes ≡ true
    → slice bs 0 4 ≡ h.magic
    → get_or bs 4 0 ≡ h.flags
    → slice bs 7 23 ≡ h.session_id
    → get_be (slice bs 23 25) ≡ h.stream_id
    → get_be (slice bs 25 33) ≡ h.packet_number
    → get_be (slice bs 33 37) ≡ h.fec_group
    → get_or bs 37 0 ≡ h.fec_index
    → get_or bs 38 0 ≡ h.fec_total
    → get_or bs 39 0 ≡ h.fec_data_shards
    → get_be (slice bs 41 43) ≡ h.payload_length
    → parse_inner_header bs ≡ ok h
unfolding parse_inner_header
parse_of_fields bs h size magic e0 e1 e2 e3 e4 e5 e6 e7 e8 e9 =
    rw (e0, magic, e1, e2, e3, e4, e5, e6, e7, e8, e9) (ground arith)

-- Parsing gives back each header that marshalling wrote, whatever its reserved bytes.
pub parse-marshal_inner :
    (h : InnerHeader)
    → Bounded h
    → h.magic ≡ magic_bytes
    → h.payload_length < 256 ^ 2
    → parse_inner_header (marshal_inner_header h) ≡ ok h
unfolding marshal_inner_header
parse-marshal_inner h b m p =
    parse_of_fields (join fs) h (omega (arith, length-marshal_inner h b)) (rw m)
      (slice-join fs 0 0 4 (omega arith) (omega arith) (omega (arith, b)))
      (get_or-join fs 1 4 h.flags (omega arith) (omega (arith, b)) refl)
      (slice-join fs 3 7 23 (omega arith) (omega (arith, b)) (omega (arith, b)))
      (rw (slice-join fs 4 23 25 (omega arith) (omega (arith, b)) (omega (arith, b)))
        (get_be-put_be 2 h.stream_id b.stream_id_word))
      (rw (slice-join fs 5 25 33 (omega arith) (omega (arith, b)) (omega (arith, b)))
        (get_be-put_be 8 h.packet_number b.packet_number_word))
      (rw (slice-join fs 6 33 37 (omega arith) (omega (arith, b)) (omega (arith, b)))
        (get_be-put_be 4 h.fec_group b.fec_group_word))
      (get_or-join fs 7 37 h.fec_index (omega arith) (omega (arith, b)) refl)
      (get_or-join fs 8 38 h.fec_total (omega arith) (omega (arith, b)) refl)
      (get_or-join fs 9 39 h.fec_data_shards (omega arith) (omega (arith, b)) refl)
      (rw (slice-join fs 11 41 43 (omega arith) (omega (arith, b)) (omega (arith, b)))
        (get_be-put_be 2 h.payload_length p))
  where
    fs : List Bytes
    fs = inner_fields h

-- The ranges that Go's field types give the values of an outer header.
pub record OuterBounded (h : OuterHeader) : Type 0 where
  pub epoch_word : h.epoch < 256 ^ 2
  pub sequence_size : length h.sequence_num ≡ 6
  pub length_word : h.length < 256 ^ 2

module _ (h : OuterHeader) (b : OuterBounded h) where
  pub length-marshal_outer : length (marshal_outer_header h) ≡ outer_header_size
  unfolding marshal_outer_header
  length-marshal_outer =
      omega (arith, b, length-append h.sequence_num (join (drop 5 (outer_fields h))))

outer_of_fields :
    (bs : Bytes) (h : OuterHeader)
    → outer_header_size ≤ length bs
    → get_or bs 0 0 ≡ h.content_type
    → get_or bs 1 0 ≡ h.version_major
    → get_or bs 2 0 ≡ h.version_minor
    → get_be (slice bs 3 5) ≡ h.epoch
    → slice bs 5 11 ≡ h.sequence_num
    → get_be (slice bs 11 13) ≡ h.length
    → parse_outer_header bs ≡ ok h
unfolding parse_outer_header
outer_of_fields bs h size e0 e1 e2 e3 e4 e5 = rw (e0, e1, e2, e3, e4, e5) (ground arith)

pub parse-marshal_outer :
    (h : OuterHeader) → OuterBounded h → parse_outer_header (marshal_outer_header h) ≡ ok h
unfolding marshal_outer_header
parse-marshal_outer h b =
    outer_of_fields (join fs) h (omega (arith, length-marshal_outer h b))
      (get_or-join fs 0 0 h.content_type (omega arith) (omega arith) refl)
      (get_or-join fs 1 1 h.version_major (omega arith) (omega arith) refl)
      (get_or-join fs 2 2 h.version_minor (omega arith) (omega arith) refl)
      (get_be-put_be 2 h.epoch b.epoch_word)
      (slice-join fs 4 5 11 (omega arith) (omega arith) (omega (arith, b)))
      (rw (slice-join fs 5 11 13 (omega arith) (omega (arith, b)) (omega (arith, b)))
        (get_be-put_be 2 h.length b.length_word))
  where
    fs : List Bytes
    fs = outer_fields h

-- A successful parse reads its fields from fixed-size slices.
pub parse_inner-magic :
    (bs : Bytes) (h : InnerHeader)
    → parse_inner_header bs ≡ ok h
    → bytes_eq h.magic magic_bytes ≡ true
unfolding parse_inner_header
parse_inner-magic bs h e = ground arith

pub bytes_eq→eq : (xs ys : Bytes) → bytes_eq xs ys ≡ true → xs ≡ ys
bytes_eq→eq [] [] e = refl
bytes_eq→eq [] (y ∷ ys) e = cc
bytes_eq→eq (x ∷ xs) [] e = cc
bytes_eq→eq (x ∷ xs) (y ∷ ys) e = ground (arith, bytes_eq→eq xs ys)

pub bytes_eq_refl : (xs : Bytes) → bytes_eq xs xs ≡ true
bytes_eq_refl [] = refl
bytes_eq_refl (x ∷ xs) = ground (arith, bytes_eq_refl xs)
