-- ===== src/Tgp/Fec/Coder.antt =====
-- internal/tgp/fec.go: ReedSolomonCodec. The library github.com/klauspost/reedsolomon is the
-- parameter `ReedSolomon`, and `IsReedSolomon` states what it documents.
-- A shard that is missing is a nil slice, and so the empty list: no stored shard is empty.
pub mod Recovery
mod Tests
use tachyon_core.Base.{
  ℕ, zero, suc, ◌+◌, ◌-◌, ◌≤◌, ◌<◌, ◌≡◌, Bool, true, false, not, List, [], ◌∷◌, ◌++◌, Option, none,
  some, length, take, replicate, ltb, ◌==◌, if◌then◌else◌, max, ◌⊎◌,
}
use tachyon_core.Base.Bytes.{Bytes}
use tachyon_core.Base.Outcome.{Outcome, ok, err, ◌>>=◌, ◌>>◌, reject}
use tachyon_core.Tgp.Types.{
  Error, invalid_fec_params, fec_shard_too_large, reconstruction_failed, max_data_payload_size,
}
use tachyon_core.Tgp.Fec.Frame.{
  validate_params, frame_data, length_prefix_size, normalize_shard_lengths, max_shard_size,
}

-- The encoder of the library, at given shard counts; `none` is an error.
pub record ReedSolomon : Type 0 where
  pub encode_shards : ℕ → ℕ → List Bytes → Option (List Bytes)
  pub reconstruct_shards : ℕ → ℕ → List Bytes → Option (List Bytes)
  pub verify_shards : ℕ → ℕ → List Bytes → Option Bool

-- The interface FECCodec of protocol.go. Reconstruction works in place: it returns the shards as it
-- leaves them, and whether it failed.
pub record FecCodec : Type 0 where
  pub encode : List Bytes → ℕ → ℕ → Outcome Error (List Bytes)
  pub reconstruct : List Bytes → ℕ → ℕ → List Bytes × Outcome Error (Unit {0})

-- The loop over the payloads that finds the longest.
shard_size_of : List Bytes → ℕ → Outcome Error ℕ
shard_size_of [] size = ok size
shard_size_of (x ∷ xs) size = do
  reject (ltb max_data_payload_size (length x + length_prefix_size)) fec_shard_too_large
  shard_size_of xs (max size (length x + length_prefix_size))

-- The first `count` shards: each payload framed, and then empty payloads.
frame_all : ℕ → List Bytes → ℕ → Outcome Error (List Bytes)
frame_all zero payloads size = ok []
frame_all (suc count) [] size = do
  shard ← frame_data [] size
  shards ← frame_all count [] size
  ok (shard ∷ shards)
frame_all (suc count) (x ∷ xs) size = do
  shard ← frame_data x size
  shards ← frame_all count xs size
  ok (shard ∷ shards)

or_failed {ℓ} : {A : Type ℓ} → Option A → Outcome Error A
or_failed none = err reconstruction_failed
or_failed (some a) = ok a

pub encode : ReedSolomon → List Bytes → ℕ → ℕ → Outcome Error (List Bytes)
unfolding or_failed
encode rs payloads data_shards parity_shards = do
  validate_params data_shards parity_shards
  reject (ltb data_shards (length payloads)) invalid_fec_params
  size ← shard_size_of payloads length_prefix_size
  framed ← frame_all data_shards payloads size
  or_failed (
      rs.encode_shards data_shards parity_shards
        (framed ++ replicate parity_shards (replicate size 0)))

too_large : List Bytes → Outcome Error (Unit {0})
too_large [] = ok tt
too_large (s ∷ ss) = do
  reject (ltb max_data_payload_size (length s)) fec_shard_too_large
  too_large ss

-- `encoder.Reconstruct(shards)` and `encoder.Verify(shards)` on the padded shards.
rebuild : ReedSolomon → List Bytes → ℕ → ℕ → List Bytes × Outcome Error (Unit {0})
rebuild rs padded data_shards parity_shards =
    elim (rs.reconstruct_shards data_shards parity_shards padded) [
      | none ↦ (padded, err reconstruction_failed)
      | some rebuilt ↦ elim (rs.verify_shards data_shards parity_shards rebuilt) [
        | none ↦ (rebuilt, err reconstruction_failed)
        | some verified ↦ (rebuilt, if verified then ok tt else err reconstruction_failed)
      ]
    ]

check_shards : List Bytes → ℕ → ℕ → Outcome Error (Unit {0})
unfolding too_large
check_shards shards data_shards parity_shards = do
  validate_params data_shards parity_shards
  reject (not (length shards == data_shards + parity_shards)) invalid_fec_params
  too_large shards

pub reconstruct : ReedSolomon → List Bytes → ℕ → ℕ → List Bytes × Outcome Error (Unit {0})
unfolding check_shards rebuild
reconstruct rs shards data_shards parity_shards =
    elim (check_shards shards data_shards parity_shards) [
      | err e ↦ (shards, err e)
      | ok _ ↦ rebuild rs (normalize_shard_lengths shards) data_shards parity_shards
    ]

pub reed_solomon_codec : ReedSolomon → FecCodec
unfolding encode reconstruct
reed_solomon_codec rs = record { encode = encode rs; reconstruct = reconstruct rs }

-- How many shards are there.
pub present : List Bytes → ℕ
present [] = 0
present (s ∷ ss) = (if length s == 0 then 0 else 1) + present ss

-- Some shards of a group were lost.
abbrev pub Erased : List Bytes → List Bytes → Type 0
Erased [] [] = Unit
Erased [] (t ∷ ts) = ⊥
Erased (s ∷ ss) [] = ⊥
Erased (s ∷ ss) (t ∷ ts) = ((t ≡ []) ⊎ (t ≡ s)) × Erased ss ts

-- What the library documents: encoding keeps the data shards and fills in the others; any
-- `data_shards` shards of an encoded group give back the group, which verifies.
pub record IsReedSolomon (rs : ReedSolomon) : Type 0 where
  pub encode_keeps :
      (d p : ℕ) (xs ys : List Bytes)
      → rs.encode_shards d p xs ≡ some ys
      → (length ys ≡ length xs) × (take d ys ≡ take d xs)
  pub rebuilds :
      (d p : ℕ) (xs ys zs : List Bytes)
      → rs.encode_shards d p xs ≡ some ys
      → Erased ys zs
      → d ≤ present zs
      → rs.reconstruct_shards d p zs ≡ some ys
  pub verifies :
      (d p : ℕ) (xs ys : List Bytes)
      → rs.encode_shards d p xs ≡ some ys
      → rs.verify_shards d p ys ≡ some true
