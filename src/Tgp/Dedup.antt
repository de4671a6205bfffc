-- ===== src/Tgp/Dedup.antt =====
-- internal/tgp/session.go: packetDedupWindow, the replay window over packet numbers.
-- The map's keys are a list; a packet number is a uint64, and nothing here goes beyond one.
pub mod History
pub mod Bounds
pub mod Replay
mod Tests
use tachyon_core.Base.{
  ℕ, ◌+◌, ◌-◌, ◌≡◌, Bool, true, false, not, List, [], ◌∷◌, Option, none, some, ltb, leb, ◌==◌, ◌||◌,
  if◌then◌else◌,
}

abbrev pub default_dedup_window : ℕ
default_dedup_window = 4096

pub record DedupWindow : Type 0 where
  pub max_window : ℕ
  pub highest : ℕ
  pub initialized : Bool
  pub seen : List ℕ

unfoldable pub new_dedup_window : ℕ → DedupWindow
new_dedup_window size = record {
  max_window = if size == 0 then default_dedup_window else size;
  highest = 0;
  initialized = false;
  seen = [];
}

-- `_, ok := seen[n]`
unfoldable pub member : ℕ → List ℕ → Bool
member n [] = false
member n (x ∷ xs) = n == x || member n xs

-- `for seen := range w.seen { if seen < oldest { delete(w.seen, seen) } }`
pub prune : ℕ → List ℕ → List ℕ
prune oldest [] = []
prune oldest (x ∷ xs) = if ltb x oldest then prune oldest xs else x ∷ prune oldest xs

record_first : DedupWindow → ℕ → DedupWindow × Bool
record_first w n = if member n w.seen then (w, false) else (record w { seen = n ∷ w.seen }, true)

advance : DedupWindow → ℕ → DedupWindow
advance w n = record w {
  highest = n;
  seen = prune (if leb w.max_window n then n - w.max_window + 1 else 0) w.seen;
}

-- The method on a window; the method on nil accepts everything.
unfoldable pub seen_first : DedupWindow → ℕ → DedupWindow × Bool
unfolding record_first advance
seen_first w n =
    if not w.initialized
    then (record w { initialized = true; highest = n; seen = n ∷ w.seen }, true)
    else if ltb w.highest n
    then record_first (advance w n) n
    else if leb w.max_window (w.highest - n)
    then (w, false)
    else record_first w n

pub seen_first_or_nil : Option DedupWindow → ℕ → Option DedupWindow × Bool
seen_first_or_nil none n = (none, true)
seen_first_or_nil (some w) n = let (w', first) = seen_first w n in (some w', first)

-- The verdicts on a sequence of packet numbers.
pub verdicts : DedupWindow → List ℕ → List Bool
verdicts w [] = []
verdicts w (n ∷ ns) = let (w', first) = seen_first w n in first ∷ verdicts w' ns
