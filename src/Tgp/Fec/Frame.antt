-- ===== src/Tgp/Fec/Frame.antt =====
-- internal/tgp/fec.go: the length prefix and zero padding of a shard, and the checks on shard counts.
use tachyon_core.Base.{
  ℕ, ◌+◌, ◌-◌, ◌*◌, ◌^◌, ◌%◌, ◌≤◌, ◌<◌, ◌≡◌, refl, Bool, ◌||◌, ◌&&◌, List, [], ◌∷◌, ◌++◌, length,
  length-append, length-replicate, slice, replicate, ltb, ◌==◌, if◌then◌else◌, take-append,
  append_assoc, max, arith, ◌/◌, ◌↔◌,
}
use tachyon_core.Base.Bytes.{Bytes, put_be, get_be}
use tachyon_core.Base.Outcome.{Outcome, ok, ◌>>◌, reject}
use tachyon_core.Tgp.Types.{Error, invalid_fec_params, fec_shard_too_large, max_data_payload_size}

abbrev pub length_prefix_size : ℕ
length_prefix_size = 2

abbrev pub max_data_shards : ℕ
max_data_shards = 32

abbrev pub max_parity_shards : ℕ
max_parity_shards = 16

abbrev pub max_total_shards : ℕ
max_total_shards = max_data_shards + max_parity_shards

abbrev pub max_receive_groups : ℕ
max_receive_groups = 64

-- Shard counts as Go's `int`s that are not negative; a negative count is below 1 as 0 is.
unfoldable pub validate_params : ℕ → ℕ → Outcome Error (Unit {0})
validate_params data_shards parity_shards = do
  reject (ltb data_shards 1 || ltb parity_shards 1) invalid_fec_params
  reject (ltb max_data_shards data_shards) invalid_fec_params
  reject (ltb max_parity_shards parity_shards) invalid_fec_params
  reject (ltb max_total_shards (data_shards + parity_shards)) invalid_fec_params

pub record FecOptions : Type 0 where
  pub data_shards : ℕ
  pub parity_shards : ℕ
  pub receive_groups : ℕ
  pub group_timeout : ℕ
  pub dynamic : Bool
  pub adapt_window : ℕ

unfoldable pub is_enabled : FecOptions → Bool
is_enabled o = ltb 0 o.data_shards && ltb 0 o.parity_shards

unfoldable pub validate_options : FecOptions → Outcome Error (Unit {0})
unfolding validate_params
validate_options o = if o.data_shards == 0 && o.parity_shards == 0 then ok tt else do
  reject (ltb o.data_shards 1 || ltb max_data_shards o.data_shards) invalid_fec_params
  reject (ltb max_parity_shards o.parity_shards) invalid_fec_params
  if ltb 0 o.parity_shards then validate_params o.data_shards o.parity_shards else ok tt
  reject (ltb max_receive_groups o.receive_groups) invalid_fec_params

unfoldable pub frame_data : Bytes → ℕ → Outcome Error Bytes
frame_data payload shard_size = do
  reject
      (ltb max_data_payload_size (length payload + length_prefix_size)
        || ltb max_data_payload_size shard_size)
      fec_shard_too_large
  reject (ltb shard_size (length payload + length_prefix_size)) invalid_fec_params
  ok (
      put_be 2 (length payload)
      ++ (payload ++ replicate (shard_size - length_prefix_size - length payload) 0))

unfoldable pub decode_data_shard : Bytes → Outcome Error Bytes
decode_data_shard shard = do
  reject (ltb (length shard) length_prefix_size) invalid_fec_params
  let payload_len = get_be (slice shard 0 length_prefix_size)
  reject (ltb (length shard - length_prefix_size) payload_len) invalid_fec_params
  ok (slice shard length_prefix_size (length_prefix_size + payload_len))

-- normalizeFECShardLengths: a shard that came is padded with zeros to the longest; nil stays.
unfoldable pub max_shard_size : List Bytes → ℕ
max_shard_size [] = 0
max_shard_size (s ∷ ss) = max (length s) (max_shard_size ss)

unfoldable pub pad_shard : ℕ → Bytes → Bytes
pad_shard size shard =
    if length shard == 0 || length shard == size
    then shard
    else shard ++ replicate (size - length shard) 0

unfoldable pub pad_shards : ℕ → List Bytes → List Bytes
unfolding pad_shard
pad_shards size [] = []
pad_shards size (s ∷ ss) = pad_shard size s ∷ pad_shards size ss

unfoldable pub normalize_shard_lengths : List Bytes → List Bytes
unfolding max_shard_size pad_shards
normalize_shard_lengths shards = pad_shards (max_shard_size shards) shards

module _ (payload : Bytes) (shard_size : ℕ) where
  abbrev framed : Bytes
  framed =
      put_be 2 (length payload)
      ++ (payload ++ replicate (shard_size - length_prefix_size - length payload) 0)

  frame-inv :
      (shard : Bytes)
      → frame_data payload shard_size ≡ ok shard
      → (shard_size ≤ max_data_payload_size) × (length payload + 2 ≤ shard_size) × (shard ≡ framed)
  unfolding frame_data
  frame-inv shard e = ground arith

  pub frame-size :
      (shard : Bytes) → frame_data payload shard_size ≡ ok shard → length shard ≡ shard_size
  frame-size shard e =
      let (small, fits, same) = frame-inv shard e in
      let zeros : Bytes = replicate (shard_size - length_prefix_size - length payload) 0 in
      rw same (
        omega (
          arith,
          length-append payload zeros,
          length-replicate {A = ℕ} (shard_size - length_prefix_size - length payload) 0,
        ))

  -- Framing succeeds exactly if the payload and its prefix fit the shard, and the shard a datagram.
  pub frame_iff :
      ((shard : Bytes) × (frame_data payload shard_size ≡ ok shard))
      ↔ (length payload + 2 ≤ shard_size) × (shard_size ≤ max_data_payload_size)
  frame_iff = (
    λ (shard, e). let (small, fits, same) = frame-inv shard e in (fits, small),
    λ (fits, small). (framed, unfold frame_data in ground arith),
  )

decode_prefixed :
    (payload rest : Bytes)
    → length payload < 2 ^ 16
    → decode_data_shard (put_be 2 (length payload) ++ (payload ++ rest)) ≡ ok payload
unfolding decode_data_shard
decode_prefixed payload rest h =
    let n : ℕ = length payload in
    let value : (0 * 256 + n / 256 % 256) * 256 + n % 256 ≡ n = omega arith in
    let width : 2 + n - 2 ≡ n = omega arith in
    rw (value, width, take-append payload rest n refl, length-append payload rest) (ground arith)

-- Decoding a framed payload gives it back, also with any zeros added behind it.
pub decode-frame :
    (payload : Bytes) (shard_size extra : ℕ) (shard : Bytes)
    → frame_data payload shard_size ≡ ok shard
    → decode_data_shard (shard ++ replicate extra 0) ≡ ok payload
decode-frame payload shard_size extra shard e =
    let (small, fits, same) = frame-inv payload shard_size shard e in
    let zeros : Bytes = replicate (shard_size - length_prefix_size - length payload) 0 in
    rw (same, append_assoc payload zeros (replicate extra 0))
      (decode_prefixed payload (zeros ++ replicate extra 0) (omega arith))
