-- ===== src/Tgp/Fec/Coder/Recovery.antt =====
-- Encoding a group, losing shards and reconstructing them (internal/tgp/fec.go).
use tachyon_core.Tgp.Types.{max_data_payload_size, Error}
use tachyon_core.Base.{
  ℕ, zero, suc, ◌+◌, ◌-◌, ◌≤◌, ◌<◌, ◌≡◌, refl, List, [], ◌∷◌, ◌++◌, some, length, get_or, replicate,
  arith, inl, length-append, ◌⊎◌, inr, append-nil, get_or-take, get_or-append, length-replicate,
}
use tachyon_core.Base.Bytes.{Bytes}
use tachyon_core.Base.Outcome.{Outcome, ok, err, Outcome-cases, ◌>>=◌}
use tachyon_core.Tgp.Fec.Frame.{
  length_prefix_size, validate_params, frame_data, decode_data_shard, decode-frame, pad_shard,
  pad_shards, max_shard_size, normalize_shard_lengths,
}
use tachyon_core.Tgp.Fec.Coder.{
  ReedSolomon, IsReedSolomon, encode, reconstruct, check_shards, rebuild, frame_all, present,
  Erased, shard_size_of, too_large,
}

-- What arrived of a group whose full shards have `size` bytes: nothing, or a shard that padding
-- completes. (A data shard is sent with no padding.)
abbrev pub Arrived : ℕ → List Bytes → List Bytes → Type 0
Arrived size [] [] = Unit
Arrived size [] (r ∷ rs) = ⊥
Arrived size (s ∷ ss) [] = ⊥
Arrived size (s ∷ ss) (r ∷ rs) = ((r ≡ []) ⊎ (pad_shard size r ≡ s)) × Arrived size ss rs

pad-Erased : (size : ℕ) (ss rs : List Bytes) → Arrived size ss rs → Erased ss (pad_shards size rs)
unfolding pad_shards
pad-Erased size [] [] a = tt
pad-Erased size [] (r ∷ rs) a = a
pad-Erased size (s ∷ ss) [] a = a
pad-Erased size (s ∷ ss) (r ∷ rs) (inl e, a) = (inl (ground (arith, e)), pad-Erased size ss rs a)
pad-Erased size (s ∷ ss) (r ∷ rs) (inr e, a) = (inr e, pad-Erased size ss rs a)

present-pad : (size : ℕ) (rs : List Bytes) → present (pad_shards size rs) ≡ present rs
unfolding pad_shards present
present-pad size [] = refl
present-pad size (r ∷ rs) =
    ground (arith, present-pad size rs, length-append r (replicate (size - length r) 0))

cons-inv :
    (m : Outcome Error Bytes) (ms : Outcome Error (List Bytes)) (r : List Bytes)
    → (m >>= λ x. ms >>= λ xs. ok (x ∷ xs)) ≡ ok r
    → (x : Bytes) × (xs : List Bytes) × (m ≡ ok x) × (ms ≡ ok xs) × (r ≡ x ∷ xs)
cons-inv (err e) ms r h = cc
cons-inv (ok x) (err e) r h = cc
cons-inv (ok x) (ok xs) r h = (x, xs, refl, refl, cc)

-- The data shards of a group decode to its payloads.
frame_all-decodes :
    (count : ℕ) (payloads : List Bytes) (size i : ℕ) (framed : List Bytes)
    → frame_all count payloads size ≡ ok framed
    → length payloads ≤ count
    → i < length payloads
    → decode_data_shard (get_or framed i []) ≡ ok (get_or payloads i [])
unfolding frame_all
frame_all-decodes count [] size i framed e c h = elim h [ ]
frame_all-decodes zero (x ∷ xs) size i framed e c h = elim c [ ]
frame_all-decodes (suc count) (x ∷ xs) size zero framed e c h =
    let (shard, shards, one, rest, same) =
      cons-inv (frame_data x size) (frame_all count xs size) framed e in
    rw same (rw append-nil at (decode-frame x size 0 shard one))
frame_all-decodes (suc count) (x ∷ xs) size (suc i) framed e c h =
    let (shard, shards, one, rest, same) =
      cons-inv (frame_data x size) (frame_all count xs size) framed e in
    rw same (frame_all-decodes count xs size i shards rest (omega arith) (omega arith))

length-frame_all :
    (count : ℕ) (payloads : List Bytes) (size : ℕ) (framed : List Bytes)
    → frame_all count payloads size ≡ ok framed
    → length framed ≡ count
unfolding frame_all
length-frame_all zero payloads size framed e = ground arith
length-frame_all (suc count) [] size framed e =
    let (shard, shards, one, rest, same) =
      cons-inv (frame_data [] size) (frame_all count [] size) framed e in
    rw same (omega (arith, length-frame_all count [] size shards rest))
length-frame_all (suc count) (x ∷ xs) size framed e =
    let (shard, shards, one, rest, same) =
      cons-inv (frame_data x size) (frame_all count xs size) framed e in
    rw same (omega (arith, length-frame_all count xs size shards rest))

-- What a successful encoding went through.
record Encoded (rs : ReedSolomon) (payloads : List Bytes) (d p : ℕ) (shards : List Bytes)
    : Type 0 where
  size : ℕ
  framed : List Bytes
  valid : validate_params d p ≡ ok tt
  room : length payloads ≤ d
  made : frame_all d payloads size ≡ ok framed
  coded : rs.encode_shards d p (framed ++ replicate p (replicate size 0)) ≡ some shards

encode-inv :
    (rs : ReedSolomon) (payloads : List Bytes) (d p : ℕ) (shards : List Bytes)
    → encode rs payloads d p ≡ ok shards
    → Encoded rs payloads d p shards
unfolding encode
encode-inv rs payloads d p shards e =
    elim (Outcome-cases (shard_size_of payloads length_prefix_size)) [
      | inr (x, es) ↦ absurd (ground arith)
      | inl (size, es) ↦ elim (Outcome-cases (frame_all d payloads size)) [
        | inr (x, ef) ↦ absurd (ground arith)
        | inl (framed, ef) ↦ record {
          size = size;
          framed = framed;
          valid = ground arith;
          room = ground arith;
          made = ef;
          coded = ground arith;
        }
      ]
    ]

length-Arrived : (size : ℕ) (ss rs : List Bytes) → Arrived size ss rs → length rs ≡ length ss
length-Arrived size [] [] a = refl
length-Arrived size [] (r ∷ rs) a = absurd a
length-Arrived size (s ∷ ss) [] a = absurd a
length-Arrived size (s ∷ ss) (r ∷ rs) (_, a) = omega (arith, length-Arrived size ss rs a)

too_large-ok : (rs : List Bytes) → max_shard_size rs ≤ max_data_payload_size → too_large rs ≡ ok tt
unfolding max_shard_size too_large
too_large-ok [] h = refl
too_large-ok (r ∷ rs) h = ground (arith, too_large-ok rs)

module _ (rs : ReedSolomon) (law : IsReedSolomon rs) (payloads : List Bytes) (d p : ℕ)
    (shards arrived : List Bytes) (encoded : encode rs payloads d p ≡ ok shards)
    (came : Arrived (max_shard_size arrived) shards arrived) (enough : d ≤ present arrived)
    (small : max_shard_size arrived ≤ max_data_payload_size) where
  reconstructs : reconstruct rs arrived d p ≡ (shards, ok tt)
  unfolding reconstruct normalize_shard_lengths check_shards rebuild
  reconstructs =
      let k = encode-inv rs payloads d p shards encoded in
      let size : ℕ = max_shard_size arrived in
      let padded : List Bytes = pad_shards size arrived in
      let parity : List Bytes = replicate p (replicate k.size 0) in
      let whole : length arrived ≡ d + p = omega (
        arith,
        length-Arrived size shards arrived came,
        (law.encode_keeps d p _ shards k.coded).0,
        length-append k.framed parity,
        length-replicate {A = Bytes} p (replicate k.size 0),
        length-frame_all d payloads k.size k.framed k.made,
      ) in
      let rebuilt =
        law.rebuilds d p _ shards padded k.coded (pad-Erased size shards arrived came)
          (omega (arith, present-pad size arrived)) in
      ground (
        arith,
        k.valid,
        too_large-ok arrived small,
        whole,
        rebuilt,
        law.verifies d p _ shards k.coded,
      )

  shard_decodes :
      (i : ℕ)
      → i < length payloads
      → decode_data_shard (get_or shards i []) ≡ ok (get_or payloads i [])
  shard_decodes i h =
      let k = encode-inv rs payloads d p shards encoded in
      let (whole, kept) = law.encode_keeps d p _ shards k.coded in
      let size : length k.framed ≡ d = length-frame_all d payloads k.size k.framed k.made in
      rw
        (
          ← get_or-take d i shards [] (omega (arith, k.room)),
          kept,
          get_or-take d i (k.framed ++ replicate p (replicate k.size 0)) [] (omega (arith, k.room)),
          get_or-append k.framed (replicate p (replicate k.size 0)) i [] (omega (arith, k.room)),
        )
        (frame_all-decodes d payloads k.size i k.framed k.made k.room h)

  -- With a lawful coder, whatever shards of an encoded group are lost, any `data_shards` of them give
  -- back the group, and each of its payloads is decoded from its shard. A shard that came is within
  -- the size limit and may lack zeros at its end, if one that came has the full size.
  pub recovers :
      (i : ℕ)
      → i < length payloads
      → (reconstruct rs arrived d p ≡ (shards, ok tt))
        × (decode_data_shard (get_or shards i []) ≡ ok (get_or payloads i []))
  recovers i h = (reconstructs, shard_decodes i h)
