-- ===== src/Tgp/Dedup/Bounds.antt =====
-- The memory that the replay window of internal/tgp/session.go holds, and its answer to a replay.
use tachyon_core.Base.{
  ℕ, zero, suc, ◌+◌, ◌-◌, ◌≤◌, ◌<◌, ◌≡◌, refl, ◌∙◌, Bool, true, false, not, ◌&&◌, List, [], ◌∷◌,
  ltb, leb, ◌==◌, if◌then◌else◌, length, All, arith,
}
use tachyon_core.Tgp.Dedup.{DedupWindow, new_dedup_window, member, prune, seen_first}
use tachyon_core.Tgp.Dedup.History.{member-prune}

pub is_distinct : List ℕ → Bool
is_distinct [] = true
is_distinct (x ∷ xs) = not (member x xs) && is_distinct xs

-- The numbers of the list lie in [low, low + width).
abbrev Within : ℕ → ℕ → List ℕ → Type 0
Within low width = All (λ x. (low ≤ x) × (x < low + width))

without : ℕ → List ℕ → List ℕ
without n [] = []
without n (x ∷ xs) = if x == n then without n xs else x ∷ without n xs

member-without : (n x : ℕ) (xs : List ℕ) → member x (without n xs) ≡ (member x xs && not (x == n))
unfolding member without
member-without n x [] = refl
member-without n x (y ∷ ys) = ground (arith, member-without n x ys)

without-Within :
    (low width : ℕ) (xs : List ℕ)
    → Within low (suc width) xs
    → Within low width (without (low + width) xs)
unfolding without
without-Within low width [] h = tt
without-Within low width (x ∷ xs) h = ground (arith, without-Within low width xs)

without-distinct : (n : ℕ) (xs : List ℕ) → is_distinct xs ≡ true → is_distinct (without n xs) ≡ true
unfolding is_distinct without
without-distinct n [] h = refl
without-distinct n (x ∷ xs) h = ground (arith, without-distinct n xs, member-without n x xs)

without_absent : (n : ℕ) (xs : List ℕ) → member n xs ≡ false → without n xs ≡ xs
unfolding member without
without_absent n [] h = refl
without_absent n (x ∷ xs) h = ground (arith, without_absent n xs)

length-without :
    (n : ℕ) (xs : List ℕ) → is_distinct xs ≡ true → length xs ≤ suc (length (without n xs))
unfolding is_distinct without
length-without n [] h = omega arith
length-without n (x ∷ xs) h = ground (arith, length-without n xs, without_absent n xs)

-- Distinct numbers from an interval are at most as many as it has.
length-distinct :
    (low width : ℕ) (xs : List ℕ) → Within low width xs → is_distinct xs ≡ true → length xs ≤ width
length-distinct low zero [] h d = omega arith
length-distinct low zero (x ∷ xs) h d = absurd (omega arith)
length-distinct low (suc width) xs h d = omega (
  arith,
  length-without (low + width) xs d,
  length-distinct low width (without (low + width) xs) (without-Within low width xs h)
      (without-distinct (low + width) xs d),
)

-- Every number of the list is at most `top`, and less than `m` below it.
pub is_recent : ℕ → ℕ → List ℕ → Bool
is_recent m top [] = true
is_recent m top (x ∷ xs) = leb x top && (ltb top (x + m) && is_recent m top xs)

is_recent-Within : (m top : ℕ) (xs : List ℕ) → is_recent m top xs ≡ true → Within (top + 1 - m) m xs
unfolding is_recent
is_recent-Within m top [] h = tt
is_recent-Within m top (x ∷ xs) h = ground (arith, is_recent-Within m top xs)

-- Every number that is held is at most the highest, and less than the window's size below it.
pub record IsBounded (w : DedupWindow) : Type 0 where
  pub positive : 0 < w.max_window
  pub idle : w.initialized ≡ false → w.seen ≡ []
  pub distinct : is_distinct w.seen ≡ true
  pub held : is_recent w.max_window w.highest w.seen ≡ true

prune-distinct : (o : ℕ) (xs : List ℕ) → is_distinct xs ≡ true → is_distinct (prune o xs) ≡ true
unfolding is_distinct prune
prune-distinct o [] h = refl
prune-distinct o (x ∷ xs) h = ground (arith, prune-distinct o xs, member-prune x o xs)

prune-held :
    (m top n : ℕ) (xs : List ℕ)
    → top < n
    → is_recent m top xs ≡ true
    → is_recent m n (prune (if leb m n then n - m + 1 else 0) xs) ≡ true
unfolding prune is_recent
prune-held m top n [] q h = refl
prune-held m top n (x ∷ xs) q h = ground (arith, prune-held m top n xs)

pub seen_first-IsBounded : (w : DedupWindow) (n : ℕ) → IsBounded w → IsBounded (seen_first w n).0
unfolding seen_first is_distinct is_recent member
seen_first-IsBounded w n b =
    let oldest : ℕ = if leb w.max_window n then n - w.max_window + 1 else 0 in
    ground (arith, b.idle, prune-distinct oldest w.seen, prune-held w.max_window w.highest n w.seen)

pub new-IsBounded : (size : ℕ) → IsBounded (new_dedup_window size)
unfolding new_dedup_window is_distinct is_recent
new-IsBounded size = ground arith

pub IsBounded-length : (w : DedupWindow) → IsBounded w → length w.seen ≤ w.max_window
IsBounded-length w b =
    length-distinct (w.highest + 1 - w.max_window) w.max_window w.seen
      (is_recent-Within w.max_window w.highest w.seen b.held) b.distinct

unfoldable pub run : DedupWindow → List ℕ → DedupWindow
run w [] = w
run w (n ∷ ns) = run (seen_first w n).0 ns

run-IsBounded : (w : DedupWindow) (ns : List ℕ) → IsBounded w → IsBounded (run w ns)
unfolding run
run-IsBounded w [] b = b
run-IsBounded w (n ∷ ns) b = run-IsBounded (seen_first w n).0 ns (seen_first-IsBounded w n b)

run-max_window : (w : DedupWindow) (ns : List ℕ) → (run w ns).max_window ≡ w.max_window
unfolding run
run-max_window w [] = refl
run-max_window w (n ∷ ns) =
    run-max_window (seen_first w n).0 ns ∙ (unfold seen_first in ground arith)

-- After any packet numbers at all, the replay window's map holds at most as many entries as the
-- window's size.
pub run-bounded :
    (size : ℕ) (ns : List ℕ)
    → length (run (new_dedup_window size) ns).seen ≤ (new_dedup_window size).max_window
run-bounded size ns = omega (
  arith,
  run-max_window (new_dedup_window size) ns,
  IsBounded-length (run (new_dedup_window size) ns)
      (run-IsBounded (new_dedup_window size) ns (new-IsBounded size)),
)
