-- ===== src/App/Writeback/Sums.antt =====
-- internal/app/packet_writeback.go: the checksum as a number modulo 0xffff.
use tachyon_core.Base.{
  Bool, ℕ, zero, suc, length, ltb, true, ◌≡◌, ◌≤◌, ◌<◌, [], ◌∷◌, ◌+◌, ◌*◌, Bool, arith, ◌++◌, ◌^◌,
  ◌%◌, ◌&&◌, Bool-cases, ◌/◌, inl, ◌==◌, inr,
}
use tachyon_core.Base.Bytes.{Bytes}
use tachyon_core.App.Writeback.{checksum_bytes, fold_carries, finish_checksum, sent_checksum}

-- The words of 16 bits, big-endian and padded with a zero byte, added up with no bound (RFC 1071).
abbrev pub words : Bytes → ℕ
words [] = 0
words (b ∷ []) = b * 256
words (b ∷ c ∷ bs) = b * 256 + c + words bs

abbrev pub all_bytes : Bytes → Bool
all_bytes [] = true
all_bytes (b ∷ bs) = ltb b 256 && all_bytes bs

pub words-le : (bs : Bytes) → all_bytes bs ≡ true → 2 * words bs ≤ 65535 * (length bs + 1)
words-le [] h = omega arith
words-le (b ∷ []) h = ground arith
words-le (b ∷ c ∷ bs) h = ground (arith, words-le bs)

pub checksum_bytes-words :
    (sum : ℕ) (bs : Bytes) → sum + words bs < 2 ^ 32 → checksum_bytes sum bs ≡ sum + words bs
unfolding checksum_bytes
checksum_bytes-words sum [] h = omega arith
checksum_bytes-words sum (b ∷ []) h = omega arith
checksum_bytes-words sum (b ∷ c ∷ bs) h =
    omega (arith, checksum_bytes-words ((sum + (b * 256 + c)) % 2 ^ 32) bs (omega arith))

pub words-append :
    (xs ys : Bytes) (n : ℕ) → length xs ≡ 2 * n → words (xs ++ ys) ≡ words xs + words ys
words-append [] ys n h = omega arith
words-append (x ∷ []) ys n h = absurd (omega arith)
words-append (x ∷ y ∷ xs) ys zero h = absurd (omega arith)
words-append (x ∷ y ∷ xs) ys (suc n) h = omega (arith, words-append xs ys n (omega arith))

-- A round changes neither the remainder by 0xffff nor being zero.
fold_carries-remainder :
    (fuel sum : ℕ)
    → ((k : ℕ) × (sum ≡ k * 65535 + fold_carries fuel sum)) × (0 < sum → 0 < fold_carries fuel sum)
unfolding fold_carries
fold_carries-remainder zero sum = ((0, omega arith), λ e. e)
fold_carries-remainder (suc fuel) sum =
    let ((k, e), z) = fold_carries-remainder fuel (sum % 2 ^ 16 + sum / 2 ^ 16) in
    elim (Bool-cases (ltb 0xffff sum)) [
      | inl big ↦ rw (big, fold_carries) ((sum / 2 ^ 16 + k, omega arith), λ q. z (omega arith))
      | inr small ↦ rw (small, fold_carries) ((0, omega arith), λ e. e)
    ]

fold_carries_two-le : (sum : ℕ) → sum < 2 ^ 32 → fold_carries 2 sum ≤ 65535
unfolding fold_carries
fold_carries_two-le sum h = ground arith

-- A sum and its checksum make a multiple of 0xffff.
pub finish_cases :
    (sum : ℕ)
    → sum < 2 ^ 32
    → (k : ℕ) × (sum + finish_checksum sum ≡ suc k * 65535) × (finish_checksum sum ≤ 65535)
unfolding finish_checksum
finish_cases sum h =
    let ((k, q), z) = fold_carries-remainder 2 sum in
    (k, omega (arith, fold_carries_two-le sum h), omega arith)

-- And so do a sum and the checksum that is sent for it, 0xffff for zero.
pub sent_cases :
    (sum : ℕ) → sum < 2 ^ 32 → (k : ℕ) × (sum + sent_checksum (finish_checksum sum) ≡ suc k * 65535)
sent_cases sum h =
    let (k, e, small) = finish_cases sum h in
    elim (Bool-cases (finish_checksum sum == 0)) [
      | inl q ↦ rw q (suc k, ground arith)
      | inr q ↦ rw q (k, e)
    ]

pub sent_checksum-range :
    (sum : ℕ)
    → (0 < sent_checksum (finish_checksum sum)) × (sent_checksum (finish_checksum sum) < 2 ^ 16)
unfolding finish_checksum
sent_checksum-range sum = ground arith

pub finish_checksum-lt : (sum : ℕ) → finish_checksum sum < 2 ^ 16
unfolding finish_checksum
finish_checksum-lt sum = omega arith
