-- ===== src/Tgp/Dedup/Replay.antt =====
-- The answer of the replay window of internal/tgp/session.go to a number that it has passed.
use tachyon_core.Base.{
  ℕ, ◌≡◌, refl, sym, ◌∙◌, true, false, List, [], ◌∷◌, ◌++◌, if◌then◌else◌, arith,
}
use tachyon_core.Tgp.Dedup.{DedupWindow, new_dedup_window, member, seen_first}
use tachyon_core.Tgp.Dedup.History.{Tracks, new-Tracks, step-Tracks, step-verdict, is_fresh}
use tachyon_core.Tgp.Dedup.Bounds.{run}

run-append : (w : DedupWindow) (ms ns : List ℕ) → run w (ms ++ ns) ≡ run (run w ms) ns
unfolding run
run-append w [] ns = refl
run-append w (m ∷ ms) ns = run-append (seen_first w m).0 ms ns

-- A history that has the number goes on having it, and rejects it.
run-Tracks-member :
    (m n : ℕ) (ns h : List ℕ) (w : DedupWindow)
    → Tracks m h w
    → member n h ≡ true
    → (seen_first (run w ns) n).1 ≡ false
unfolding run
run-Tracks-member m n [] h w t e = step-verdict m h w t n ∙ (unfold is_fresh in rw e)
run-Tracks-member m n (k ∷ ns) h w t e =
    run-Tracks-member m n ns (if is_fresh m h k then k ∷ h else h) (seen_first w k).0
      (step-Tracks m h w t k) (unfold member in ground arith)

-- Some history stands behind every state that is reached.
run-Tracks :
    (m : ℕ) (ns h : List ℕ) (w : DedupWindow)
    → Tracks m h w
    → (h' : List ℕ) × Tracks m h' (run w ns)
unfolding run
run-Tracks m [] h w t = (h, t)
run-Tracks m (n ∷ ns) h w t = run-Tracks m ns _ _ (step-Tracks m h w t n)

-- A packet number that passed the replay window once is rejected ever after, whatever arrives in
-- between.
pub replay_rejected :
    (size n : ℕ) (before between : List ℕ)
    → (seen_first (run (new_dedup_window size) before) n).1 ≡ true
    → (seen_first (run (new_dedup_window size) (before ++ (n ∷ between))) n).1 ≡ false
unfolding run
replay_rejected size n before between first =
    let (h, t) = run-Tracks _ before [] _ (new-Tracks size) in
    rw (run-append (new_dedup_window size) before (n ∷ between)) (
      run-Tracks-member _ n between _ _ (step-Tracks _ h _ t n)
        (rw (sym (step-verdict _ h _ t n) ∙ first) (unfold member in ground arith)))
