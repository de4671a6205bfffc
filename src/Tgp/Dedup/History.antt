-- ===== src/Tgp/Dedup/History.antt =====
-- The replay window of internal/tgp/session.go against an unbounded history of accepted numbers.
use tachyon_core.Base.{
  ℕ, ◌+◌, ◌-◌, ◌≤◌, ◌<◌, ◌≡◌, refl, Bool, true, false, not, ◌&&◌, List, [], ◌∷◌, ltb, leb,
  if◌then◌else◌, max, arith,
}
use tachyon_core.Tgp.Dedup.{DedupWindow, new_dedup_window, member, prune, seen_first, verdicts}

-- The largest number that was accepted.
pub highest_of : List ℕ → ℕ
highest_of [] = 0
highest_of (x ∷ xs) = max x (highest_of xs)

-- A number is fresh if it was never accepted and lies less than `m` below the largest accepted one.
unfoldable pub is_fresh : ℕ → List ℕ → ℕ → Bool
is_fresh m h n = not (member n h) && ltb (highest_of h) (n + m)

pub history_verdicts : ℕ → List ℕ → List ℕ → List Bool
history_verdicts m h [] = []
history_verdicts m h (n ∷ ns) =
    let h' = if is_fresh m h n then n ∷ h else h in is_fresh m h n ∷ history_verdicts m h' ns

member-le : (n : ℕ) (h : List ℕ) → member n h ≡ true → n ≤ highest_of h
unfolding member highest_of
member-le n [] e = cc
member-le n (x ∷ xs) e = ground (arith, member-le n xs)

pub member-prune : (n o : ℕ) (xs : List ℕ) → member n (prune o xs) ≡ (member n xs && leb o n)
unfolding member prune
member-prune n o [] = refl
member-prune n o (x ∷ xs) = ground (arith, member-prune n o xs)

-- The window keeps exactly the accepted numbers that can still be asked about.
pub record Tracks (m : ℕ) (h : List ℕ) (w : DedupWindow) : Type 0 where
  pub positive : 0 < m
  pub size : w.max_window ≡ m
  pub idle : w.initialized ≡ false → h ≡ []
  pub top : w.highest ≡ highest_of h
  pub kept : (x : ℕ) → member x w.seen ≡ (member x h && ltb w.highest (x + m))

module _ (m : ℕ) (h : List ℕ) (w : DedupWindow) (t : Tracks m h w) (n : ℕ) where
  pub step-verdict : (seen_first w n).1 ≡ is_fresh m h n
  unfolding seen_first is_fresh highest_of member
  step-verdict = ground (
    arith,
    t.positive,
    t.size,
    t.idle,
    t.top,
    t.kept n,
    member-le n h,
    member-prune n (if leb w.max_window n then n - w.max_window + 1 else 0) w.seen,
  )

  abbrev oldest : ℕ
  oldest = if leb w.max_window n then n - w.max_window + 1 else 0

  abbrev extended : List ℕ
  extended = if is_fresh m h n then n ∷ h else h

  step-top : (seen_first w n).0.highest ≡ highest_of extended
  unfolding seen_first is_fresh highest_of member
  step-top = ground (arith, t, t.idle, t.kept n, member-le n h, member-prune n oldest w.seen)

  step-kept :
      (x : ℕ)
      → member x (seen_first w n).0.seen
        ≡ (member x extended && ltb (seen_first w n).0.highest (x + m))
  unfolding seen_first is_fresh highest_of member
  step-kept x = ground (
    arith,
    t.positive,
    t.size,
    t.idle,
    t.top,
    t.kept n,
    t.kept x,
    member-le n h,
    member-le x h,
    member-prune n oldest w.seen,
    member-prune x oldest w.seen,
  )

  step-size : (seen_first w n).0.max_window ≡ m
  unfolding seen_first
  step-size = ground (arith, t.size)

  step-initialized : (seen_first w n).0.initialized ≡ true
  unfolding seen_first
  step-initialized = ground arith

  pub step-Tracks : Tracks m extended (seen_first w n).0
  step-Tracks = record {
    positive = t.positive;
    size = step-size;
    idle = λ e. cc step-initialized;
    top = step-top;
    kept = step-kept;
  }

pub new-Tracks : (size : ℕ) → Tracks (new_dedup_window size).max_window [] (new_dedup_window size)
unfolding new_dedup_window highest_of member
new-Tracks size = record {
  positive = ground arith;
  size = refl;
  idle = λ e. refl;
  top = refl;
  kept = λ x. refl;
}

verdicts-history :
    (m : ℕ) (ns h : List ℕ) (w : DedupWindow)
    → Tracks m h w
    → verdicts w ns ≡ history_verdicts m h ns
unfolding verdicts history_verdicts
verdicts-history m [] h w t = refl
verdicts-history m (n ∷ ns) h w t =
    rw (step-verdict m h w t n, verdicts-history m ns _ _ (step-Tracks m h w t n))

-- On every sequence of packet numbers the bounded window gives the verdicts of the unbounded
-- history: a number passes exactly if it never passed before and is less than the window's size
-- below the largest that passed.
pub verdicts-eq-history :
    (size : ℕ) (ns : List ℕ)
    → verdicts (new_dedup_window size) ns
      ≡ history_verdicts (new_dedup_window size).max_window [] ns
verdicts-eq-history size ns = verdicts-history _ ns [] _ (new-Tracks size)
