-- ===== src/Tgp/Fec/Coder/Tests.antt =====
-- Runs of the coder of internal/tgp/fec.go with a repetition code: one data shard, copied.
use tachyon_core.Base.{
  ℕ, suc, ◌≤◌, ◌≡◌, refl, List, [], ◌∷◌, none, some, length, take, ◌==◌, if◌then◌else◌, arith, inl,
  inr, ap, true, subst, sym, ◌∙◌,
}
use tachyon_core.Base.Bytes.{Bytes}
use tachyon_core.Base.Outcome.{ok}
use tachyon_core.Tgp.Fec.Coder.{
  ReedSolomon, IsReedSolomon, encode, reconstruct, present, Erased, frame_all, shard_size_of,
}
use tachyon_core.Tgp.Fec.Coder.Recovery.{recovers}
use tachyon_core.Tgp.Fec.Frame.{
  decode_data_shard, frame_data, validate_params, max_shard_size, pad_shard,
}

abbrev first_present : List Bytes → Bytes
first_present [] = []
first_present ([] ∷ ss) = first_present ss
first_present ((b ∷ bs) ∷ ss) = b ∷ bs

abbrev copies : Bytes → List Bytes → List Bytes
copies x [] = []
copies x (y ∷ ys) = x ∷ copies x ys

abbrev repeat : List Bytes → List Bytes
repeat [] = []
repeat (x ∷ xs) = x ∷ copies x xs

abbrev repetition : ReedSolomon
repetition = record {
  encode_shards = λ d p xs. if d == 1 then some (repeat xs) else none;
  reconstruct_shards = λ d p zs. some (copies (first_present zs) zs);
  verify_shards = λ d p ys. some true;
}

length-copies : (x : Bytes) (ys : List Bytes) → length (copies x ys) ≡ length ys
length-copies x [] = refl
length-copies x (y ∷ ys) = ap suc (length-copies x ys)

repeat_keeps :
    (xs : List Bytes) → (length (repeat xs) ≡ length xs) × (take 1 (repeat xs) ≡ take 1 xs)
repeat_keeps [] = (refl, refl)
repeat_keeps (x ∷ xs) = (ap suc (length-copies x xs), refl)

first_of_copies :
    (x : Bytes) (ys zs : List Bytes)
    → Erased (copies x ys) zs
    → 1 ≤ present zs
    → first_present zs ≡ x
unfolding present
first_of_copies x [] [] e h = elim h [ ]
first_of_copies x [] (z ∷ zs) e h = absurd e
first_of_copies x (y ∷ ys) [] e h = elim h [ ]
first_of_copies x (y ∷ ys) ([] ∷ zs) (_, e) h = first_of_copies x ys zs e (omega arith)
first_of_copies x (y ∷ ys) ((b ∷ bs) ∷ zs) (inl q, e) h = cc
first_of_copies x (y ∷ ys) ((b ∷ bs) ∷ zs) (inr q, e) h = q

copies_same : (x : Bytes) (ys zs : List Bytes) → Erased (copies x ys) zs → copies x zs ≡ copies x ys
copies_same x [] [] e = refl
copies_same x [] (z ∷ zs) e = absurd e
copies_same x (y ∷ ys) [] e = absurd e
copies_same x (y ∷ ys) (z ∷ zs) (_, e) = ap (◌∷◌ x) (copies_same x ys zs e)

repetition_rebuilds :
    (xs zs : List Bytes)
    → Erased (repeat xs) zs
    → 1 ≤ present zs
    → copies (first_present zs) zs ≡ repeat xs
repetition_rebuilds [] [] e h = refl
repetition_rebuilds [] (z ∷ zs) e h = absurd e
repetition_rebuilds (x ∷ xs) zs e h =
    rw (first_of_copies x (x ∷ xs) zs e h) (copies_same x (x ∷ xs) zs e)

only_one :
    (d p : ℕ) (xs ys : List Bytes)
    → repetition.encode_shards d p xs ≡ some ys
    → (d ≡ 1) × (ys ≡ repeat xs)
only_one d p xs ys e = ground arith

repetition-IsReedSolomon : IsReedSolomon repetition
repetition-IsReedSolomon = record {
  encode_keeps =
      λ d p xs ys e. let (one, same) = only_one d p xs ys e in rw (one, same) (repeat_keeps xs);
  rebuilds = λ d p xs ys zs e lost enough.
      let (one, same) = only_one d p xs ys e in
      ap some
        (repetition_rebuilds xs zs (subst (λ s. Erased s zs) same lost) (omega arith) ∙ sym same);
  verifies = λ d p xs ys e. refl;
}

abbrev shard : Bytes
shard = 0 ∷ 2 ∷ 5 ∷ 6 ∷ []

encodes : encode repetition ((5 ∷ 6 ∷ []) ∷ []) 1 2 ≡ ok (shard ∷ shard ∷ shard ∷ [])
unfolding encode frame_all shard_size_of frame_data validate_params
encodes = refl

-- Only the second parity shard arrives.
recovers_example :
    (reconstruct repetition ([] ∷ [] ∷ shard ∷ []) 1 2 ≡ (shard ∷ shard ∷ shard ∷ [], ok tt))
    × (decode_data_shard shard ≡ ok (5 ∷ 6 ∷ []))
unfolding max_shard_size pad_shard present
recovers_example =
    recovers repetition repetition-IsReedSolomon ((5 ∷ 6 ∷ []) ∷ []) 1 2
      (shard ∷ shard ∷ shard ∷ []) ([] ∷ [] ∷ shard ∷ []) encodes
      (inl refl, (inl refl, (inr refl, tt))) (omega arith) (omega arith) 0 (omega arith)
