-- ===== src/Tgp/Wire/Plain.antt =====
-- A cipher that only appends its tag, for runs of internal/tgp/codec.go and what uses it.
use tachyon_core.Base.{
  ◌+◌, ◌-◌, ◌≡◌, refl, [], ◌++◌, none, some, length, take, replicate, ltb, if◌then◌else◌, arith,
  length-append, length-take, take-append,
}
use tachyon_core.Base.Bytes.{Bytes}
use tachyon_core.Tgp.Wire.{Aead, IsAead, Codec}
use tachyon_core.Tgp.Wire.Laws.{IsValid}

abbrev pub tag : Bytes
tag = replicate 16 0

abbrev pub plain_aead : Aead
plain_aead = record {
  overhead = 16;
  seal = λ n p d. p ++ tag;
  open_sealed = λ n c d. if ltb (length c) 16 then none else some (take (length c - 16) c);
}

plain_open : (p : Bytes) → plain_aead.open_sealed [] (p ++ tag) [] ≡ some p
plain_open p =
    let size : length (p ++ tag) ≡ length p + 16 = length-append p tag in
    let front : take (length (p ++ tag) - 16) (p ++ tag) ≡ p = take-append p tag _ (omega arith) in
    ground arith

pub plain_aead-IsAead : IsAead plain_aead
plain_aead-IsAead = record {
  overhead_eq = refl;
  length-seal = λ n p d. length-append p tag;
  open-seal = λ n p d. plain_open p;
  length-open = λ n c d p e. ground (arith, length-take (length c - 16) c);
}

abbrev pub codec : Codec
codec = record { aead = plain_aead; max_size = 1352 }

pub codec-IsValid : IsValid codec
codec-IsValid = record { lawful = plain_aead-IsAead; within = omega arith }
