-- ===== src/Tgp/Fec/Log/Fifo.antt =====
-- The log of completed groups of internal/tgp/fec.go against a bounded queue, oldest first.
use tachyon_core.Base.{
  ℕ, zero, suc, ◌+◌, ◌-◌, ◌≤◌, ◌<◌, ◌≡◌, refl, sym, ap, ◌∙◌, true, false, List, [], ◌∷◌, ◌++◌, none,
  some, length, length-append, length-drop, get_elem?, drop, ltb, leb, if◌then◌else◌, arith, inl,
  inr, subst, Option-cases, Bool-cases,
}
use tachyon_core.Tgp.Fec.Log.{
  Completed, max_completed_groups, completed_at, is_completed, pop, remember, purge_loop,
  purge_completed,
}
use tachyon_core.Tgp.Fec.Log.Queue.{
  pending, once, Agrees-push, IsLog, head-pending, pop_lem, drop-append_le,
}

-- What a bounded queue does with a new completion.
pub enqueue : ℕ → ℕ → List (ℕ × ℕ) → List (ℕ × ℕ)
enqueue id now qs = elim (completed_at id qs) [
  | some t ↦ qs
  | none ↦ (if leb max_completed_groups (length qs) then drop 1 qs else qs) ++ ((id, now) ∷ [])
]

module _ (id now : ℕ) (qs : List (ℕ × ℕ)) where
  enqueue_old : (t : ℕ) → completed_at id qs ≡ some t → enqueue id now qs ≡ qs
  unfolding enqueue
  enqueue_old t e = ground arith

  enqueue_room :
      completed_at id qs ≡ none
      → leb max_completed_groups (length qs) ≡ false
      → enqueue id now qs ≡ qs ++ ((id, now) ∷ [])
  unfolding enqueue
  enqueue_room e r = ground arith

  enqueue_full :
      (x : ℕ × ℕ) (rest : List (ℕ × ℕ))
      → completed_at id qs ≡ none
      → leb max_completed_groups (length qs) ≡ true
      → qs ≡ x ∷ rest
      → enqueue id now qs ≡ rest ++ ((id, now) ∷ [])
  unfolding enqueue
  enqueue_full x rest e r q = ground arith

push_lem :
    (id now : ℕ) (c : Completed)
    → IsLog c
    → completed_at id c.entries ≡ none
    → let c' : Completed = record c {
      entries = (id, now) ∷ c.entries;
      order = c.order ++ ((id, now) ∷ []);
    } in
      IsLog c' × (pending c' ≡ pending c ++ ((id, now) ∷ []))
push_lem id now c v h =
    let moved = drop-append_le c.head c.order ((id, now) ∷ []) v.inside in
    (
      record {
        inside = omega (arith, v.inside, length-append c.order ((id, now) ∷ []));
        agrees = rw moved (Agrees-push id now c.entries (pending c) v.agrees h);
      },
      moved,
    )

abbrev pushed : ℕ → ℕ → Completed → Completed
pushed id now c = record c { entries = (id, now) ∷ c.entries; order = c.order ++ ((id, now) ∷ []) }

remember_old :
    (id now t : ℕ) (c : Completed) → completed_at id c.entries ≡ some t → remember id now c ≡ c
unfolding remember is_completed
remember_old id now t c e = ground (arith, e)

remember_new :
    (id now : ℕ) (c : Completed)
    → completed_at id c.entries ≡ none
    → remember id now c
      ≡ pushed id now (if leb max_completed_groups (length c.entries) then pop c else c)
unfolding remember is_completed
remember_new id now c e = ground (arith, e)

absent_rest :
    (id k u : ℕ) (rest : List (ℕ × ℕ))
    → completed_at id ((k, u) ∷ rest) ≡ none
    → completed_at id rest ≡ none
unfolding completed_at
absent_rest id k u rest e = ground arith

module _ (id now : ℕ) (c : Completed) (v : IsLog c)
    (absent : completed_at id c.entries ≡ none) where
  abbrev absent_queue : completed_at id (pending c) ≡ none
  absent_queue = sym (v.agrees.agree id) ∙ absent

  remember_room :
      leb max_completed_groups (length c.entries) ≡ false
      → IsLog (remember id now c) × (pending (remember id now c) ≡ enqueue id now (pending c))
  unfolding enqueue
  remember_room room =
      rw (remember_new id now c absent, room)
        (let (w, p) = push_lem id now c v absent in
          (w, p ∙ sym (enqueue_room id now (pending c) absent_queue (rw (← v.agrees.count) room))))

  remember_full :
      (qs : List (ℕ × ℕ))
      → pending c ≡ qs
      → leb max_completed_groups (length c.entries) ≡ true
      → IsLog (remember id now c) × (pending (remember id now c) ≡ enqueue id now (pending c))
  unfolding enqueue
  remember_full [] q full = absurd (ground (arith, v.agrees.count))
  remember_full ((k, u) ∷ rest) q full =
      let (w, p) = pop_lem c k u rest v q in
      let gone : completed_at id (pop c).entries ≡ none =
        w.agrees.agree id
        ∙ rw p (absent_rest id k u rest (subst (λ l. completed_at id l ≡ none) q absent_queue)) in
      rw (remember_new id now c absent, full)
        (let (w', p') = push_lem id now (pop c) w gone in
          (
            w',
            p'
                ∙ ap (λ l. l ++ ((id, now) ∷ [])) p
                ∙ sym (
                    enqueue_full id now (pending c) (k, u) rest absent_queue
                      (rw (← v.agrees.count) full) q),
          ))

-- From a log whose map and queue agree, remembering a group has the effect of a bounded queue: a
-- group that is in it stays as it is, and another one is put last, the oldest leaving a full queue.
pub remember-queue :
    (id now : ℕ) (c : Completed)
    → IsLog c
    → IsLog (remember id now c) × (pending (remember id now c) ≡ enqueue id now (pending c))
remember-queue id now c v = elim (Option-cases (completed_at id c.entries)) [
  | inr (t, e) ↦
      rw (remember_old id now t c e)
        (v, sym (enqueue_old id now (pending c) t (sym (v.agrees.agree id) ∙ e)))
  | inl e ↦ elim (Bool-cases (leb max_completed_groups (length c.entries))) [
    | inl full ↦ remember_full id now c v e (pending c) refl full
    | inr room ↦ remember_room id now c v e room
  ]
]

-- Completions whose lifetime is over leave from the front.
pub drop_expired : ℕ → ℕ → List (ℕ × ℕ) → List (ℕ × ℕ)
drop_expired lifetime now [] = []
drop_expired lifetime now ((id, t) ∷ qs) =
    if ltb (now - t) lifetime then (id, t) ∷ qs else drop_expired lifetime now qs

purge_loop-queue :
    (fuel lifetime now : ℕ) (c : Completed) (qs : List (ℕ × ℕ))
    → IsLog c
    → pending c ≡ qs
    → length qs < fuel
    → IsLog (purge_loop fuel lifetime now c)
      × (pending (purge_loop fuel lifetime now c) ≡ drop_expired lifetime now qs)
unfolding purge_loop drop_expired
purge_loop-queue zero lifetime now c qs v q h = elim h [ ]
purge_loop-queue (suc fuel) lifetime now c [] v q h = elim (head-pending c.head c.order) [
  | inl (a, b, _) ↦ rw (a, purge_loop) (v, q)
  | inr (x, a, b, _) ↦ absurd (ground arith)
]
purge_loop-queue (suc fuel) lifetime now c ((id, t) ∷ qs) v q h =
    elim (head-pending c.head c.order) [
      | inl (a, b, _) ↦ absurd (ground arith)
      | inr (x, a, b, _) ↦
          let first : get_elem? c.order c.head ≡ some (id, t) = ground arith in
          let c' : Completed = record c { maintenance = c.maintenance + 1 } in
          let v' : IsLog c' = record { inside = v.inside; agrees = v.agrees } in
          let (w, p) = pop_lem c' id t qs v' q in
          let rest = purge_loop-queue fuel lifetime now (pop c') qs w p (omega arith) in
          elim (Bool-cases (ltb (now - t) lifetime)) [
            | inl fresh ↦ rw (first, purge_loop, fresh) (v', q)
            | inr old ↦ rw (first, purge_loop, old) rest
          ]
    ]

-- From a log whose map and queue agree, the purge takes off the queue's front all completions whose
-- lifetime is over, up to the first one that is not.
pub purge-queue :
    (lifetime now : ℕ) (c : Completed)
    → IsLog c
    → IsLog (purge_completed lifetime now c)
      × (pending (purge_completed lifetime now c) ≡ drop_expired lifetime now (pending c))
unfolding purge_completed
purge-queue lifetime now c v =
    purge_loop-queue (suc (length c.order - c.head)) lifetime now c (pending c) v refl
      (omega (arith, length-drop c.head c.order))

length-enqueue :
    (id now : ℕ) (qs : List (ℕ × ℕ))
    → length qs ≤ max_completed_groups
    → length (enqueue id now qs) ≤ max_completed_groups
unfolding enqueue
length-enqueue id now qs h = ground (
  arith,
  length-drop 1 qs,
  length-append (drop 1 qs) ((id, now) ∷ []),
  length-append qs ((id, now) ∷ []),
)

length-drop_expired :
    (lifetime now : ℕ) (qs : List (ℕ × ℕ)) → length (drop_expired lifetime now qs) ≤ length qs
unfolding drop_expired
length-drop_expired lifetime now [] = omega arith
length-drop_expired lifetime now ((id, t) ∷ qs) =
    ground (arith, length-drop_expired lifetime now qs)

-- A sound log within its capacity.
pub record IsSound (c : Completed) : Type 0 where
  pub log : IsLog c
  pub bounded : length (pending c) ≤ max_completed_groups

pub remember-IsSound : (id now : ℕ) (c : Completed) → IsSound c → IsSound (remember id now c)
remember-IsSound id now c v =
    let (log, q) = remember-queue id now c v.log in
    record { log = log; bounded = rw q (length-enqueue id now (pending c) v.bounded) }

pub purge-IsSound :
    (lifetime now : ℕ) (c : Completed) → IsSound c → IsSound (purge_completed lifetime now c)
purge-IsSound lifetime now c v =
    let (log, q) = purge-queue lifetime now c v.log in
    record {
      log = log;
      bounded = rw q (omega (arith, v.bounded, length-drop_expired lifetime now (pending c)));
    }

pub empty-IsSound : IsSound (record { entries = []; order = []; head = 0; maintenance = 0 })
unfolding once
empty-IsSound = record {
  log = record {
    inside = omega arith;
    agrees = record { count = refl; agree = λ id. refl; once_map = refl; once_queue = refl };
  };
  bounded = omega arith;
}
