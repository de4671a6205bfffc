-- ===== src/Tgp/Dedup/Tests.antt =====
-- Runs of the replay window of internal/tgp/session.go.
use tachyon_core.Base.{ℕ, ◌≡◌, ◌≤◌, refl, true, false, List, [], ◌∷◌, length}
use tachyon_core.Tgp.Dedup.{new_dedup_window, seen_first, verdicts, member, prune}
use tachyon_core.Tgp.Dedup.Bounds.{run, run-bounded}
use tachyon_core.Tgp.Dedup.History.{verdicts-eq-history, history_verdicts}
use tachyon_core.Tgp.Dedup.Replay.{replay_rejected}

abbrev arrivals : List ℕ
arrivals = 10 ∷ 12 ∷ 10 ∷ 9 ∷ 8 ∷ 20 ∷ 12 ∷ 17 ∷ 17 ∷ []

verdicts_small :
    verdicts (new_dedup_window 4) arrivals
    ≡ true ∷ true ∷ false ∷ true ∷ false ∷ true ∷ false ∷ true ∷ false ∷ []
unfolding verdicts new_dedup_window seen_first member prune
verdicts_small = refl

first_passes : (seen_first (run (new_dedup_window 4) (9 ∷ [])) 10).1 ≡ true
unfolding run new_dedup_window seen_first member prune
first_passes = refl

verdicts-eq-history_example :
    verdicts (new_dedup_window 4) arrivals
    ≡ history_verdicts (new_dedup_window 4).max_window [] arrivals
verdicts-eq-history_example = verdicts-eq-history 4 arrivals

replay_rejected_example :
    (seen_first (run (new_dedup_window 4) (9 ∷ 10 ∷ 30 ∷ 11 ∷ [])) 10).1 ≡ false
replay_rejected_example = replay_rejected 4 10 (9 ∷ []) (30 ∷ 11 ∷ []) first_passes

run-bounded_example :
    length (run (new_dedup_window 4) arrivals).seen ≤ (new_dedup_window 4).max_window
run-bounded_example = run-bounded 4 arrivals
