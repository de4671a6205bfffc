-- ===== src/Tgp/Fec/Log.antt =====
-- internal/tgp/fec.go: the record of completed groups, a map with a queue in order of completion.
pub mod Queue
pub mod Fifo
use tachyon_core.Base.{
  ℕ, zero, suc, ◌+◌, ◌-◌, ◌*◌, ◌≤◌, ◌<◌, ◌≡◌, refl, Bool, true, false, not, ◌&&◌, List, [], ◌∷◌,
  ◌++◌, Option, none, some, length, get_elem?, drop, ltb, leb, ◌==◌, if◌then◌else◌, arith,
}

abbrev pub max_completed_groups : ℕ
max_completed_groups = 4096

-- Pairs of a group's number and the time of its completion.
pub record Completed : Type 0 where
  pub entries : List (ℕ × ℕ)
  pub order : List (ℕ × ℕ)
  pub head : ℕ
  pub maintenance : ℕ

pub completed_at : ℕ → List (ℕ × ℕ) → Option ℕ
completed_at id [] = none
completed_at id ((k, t) ∷ es) = if k == id then some t else completed_at id es

pub is_completed : ℕ → Completed → Bool
unfolding completed_at
is_completed id c = elim (completed_at id c.entries) [ none ↦ false | some t ↦ true ]

pub forget : ℕ → List (ℕ × ℕ) → List (ℕ × ℕ)
forget id [] = []
forget id ((k, t) ∷ es) = if k == id then forget id es else (k, t) ∷ forget id es

-- The map without the entry, if it still has it at that time.
forget_at : ℕ × ℕ → List (ℕ × ℕ) → List (ℕ × ℕ)
forget_at (id, t) es = elim (completed_at id es) [
  | none ↦ es
  | some u ↦ if u == t then forget id es else es
]

-- The queue after its head moved on: emptied, compacted or left.
pub compact : Completed → Completed
compact c =
    if c.head == length c.order
    then record c { order = []; head = 0 }
    else if leb max_completed_groups c.head && leb (length c.order) (c.head * 2)
    then record c {
      order = drop c.head c.order;
      head = 0;
      maintenance = c.maintenance + (length c.order - c.head);
    }
    else c

pub pop : Completed → Completed
unfolding forget_at compact
pop c = elim (get_elem? c.order c.head) [
  | none ↦ c
  | some entry ↦ compact (record c { head = c.head + 1; entries = forget_at entry c.entries })
]

pub remember : ℕ → ℕ → Completed → Completed
remember id now c =
    if is_completed id c
    then c
    else let c' = if leb max_completed_groups (length c.entries) then pop c else c in
      record c' { entries = (id, now) ∷ c'.entries; order = c'.order ++ ((id, now) ∷ []) }

-- The loop `for b.completedHead < len(b.completedOrder)`, with fuel.
purge_loop : ℕ → ℕ → ℕ → Completed → Completed
purge_loop zero lifetime now c = c
purge_loop (suc fuel) lifetime now c = elim (get_elem? c.order c.head) [
  | none ↦ c
  | some (id, t) ↦
      let c' : Completed = record c { maintenance = c.maintenance + 1 } in
      let rest = purge_loop fuel lifetime now (pop c') in
      if ltb (now - t) lifetime then c' else rest
]

-- Each round takes an entry off the queue, so one more round than it has is enough.
pub purge_completed : ℕ → ℕ → Completed → Completed
unfolding purge_loop
purge_completed lifetime now c = purge_loop (suc (length c.order - c.head)) lifetime now c
