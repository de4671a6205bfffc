-- ===== src/Base/Bits.antt =====
-- What setting the top bit does to a byte.
use tachyon_core.Base.{
  ℕ, zero, suc, ◌<◌, ◌≤◌, ◌≡◌, refl, Bool, true, ◌&&◌, ltb, ltb→lt, bit_or, arith,
}

-- Whether no number up to `last` leaves the range of a byte.
flagged_up_to : ℕ → Bool
flagged_up_to zero = ltb (bit_or 0 128) 256
flagged_up_to (suc last) = flagged_up_to last && ltb (bit_or (suc last) 128) 256

flagged_below : (last b : ℕ) → b ≤ last → flagged_up_to last ≡ true → ltb (bit_or b 128) 256 ≡ true
unfolding flagged_up_to
flagged_below zero zero le all = all
flagged_below zero (suc b) le all = absurd (omega arith)
flagged_below (suc last) b le all = ground (arith, flagged_below last b)

flagged_bytes : flagged_up_to 255 ≡ true
unfolding flagged_up_to
flagged_bytes = refl

pub or_flag-lt : (x : ℕ) → x < 256 → bit_or x 128 < 256
or_flag-lt x h = ltb→lt _ _ (flagged_below 255 x (omega arith) flagged_bytes)
