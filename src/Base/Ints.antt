-- ===== src/Base/Ints.antt =====
-- Go's int where a negative one matters, and its order.
use tachyon_core.Base.{ℕ, Bool, true, false, ltb, ◌≡◌, arith, refl}

pub data ℤ : Type 0 where
  pos : ℕ → ℤ
  negsuc : ℕ → ℤ

abbrev pub lt_int : ℤ → ℤ → Bool
lt_int (pos m) (pos n) = ltb m n
lt_int (pos m) (negsuc n) = false
lt_int (negsuc m) (pos n) = true
lt_int (negsuc m) (negsuc n) = ltb n m

pub lt_int_trans : (a b c : ℤ) → lt_int a b ≡ false → lt_int b c ≡ false → lt_int a c ≡ false
lt_int_trans (pos a) (pos b) (pos c) h k = ground arith
lt_int_trans (pos a) (pos b) (negsuc c) h k = refl
lt_int_trans (pos a) (negsuc b) (pos c) h k = cc
lt_int_trans (pos a) (negsuc b) (negsuc c) h k = refl
lt_int_trans (negsuc a) (pos b) c h k = cc
lt_int_trans (negsuc a) (negsuc b) (pos c) h k = cc
lt_int_trans (negsuc a) (negsuc b) (negsuc c) h k = ground arith

pub lt_int_asym : (a b : ℤ) → lt_int a b ≡ true → lt_int b a ≡ false
lt_int_asym (pos a) (pos b) h = ground arith
lt_int_asym (pos a) (negsuc b) h = cc
lt_int_asym (negsuc a) (pos b) h = refl
lt_int_asym (negsuc a) (negsuc b) h = ground arith
