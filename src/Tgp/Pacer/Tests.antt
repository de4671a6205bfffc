-- ===== src/Tgp/Pacer/Tests.antt =====
-- Runs of internal/tgp/pacer.go.
use tachyon_core.Base.{ℕ, ◌≡◌, ◌+◌, ◌*◌, length, ◌≤◌, ◌<◌, [], true, ◌∷◌, refl, List, arith, get_or}
use tachyon_core.Tgp.Pacer.{Pacer, try_consume, consume, issue_times, issue_times_apart}

abbrev pacer : Pacer
pacer = record { rate = record { positive = true; interval = 10 }; last = 0 }

abbrev clock : List ℕ
clock = 9 ∷ 11 ∷ 15 ∷ 24 ∷ 60 ∷ 61 ∷ 75 ∷ []

times : issue_times 4 pacer clock ≡ 11 ∷ 24 ∷ 60 ∷ 75 ∷ []
unfolding issue_times consume try_consume
times = refl

many : 1 + 2 < length (issue_times 4 pacer clock)
many = rw times (omega arith)

issue_times_apart_example :
    get_or (issue_times 4 pacer clock) 1 0 + 2 * 10 ≤ get_or (issue_times 4 pacer clock) (1 + 2) 0
issue_times_apart_example = issue_times_apart 4 pacer clock 1 2 many
