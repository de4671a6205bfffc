-- ===== src/Tgp/Fec/Log/Queue.antt =====
-- The map and the queue of the log of completed groups of internal/tgp/fec.go, and taking one off.
use tachyon_core.Base.{
  ℕ, zero, suc, ◌+◌, ◌≤◌, ◌<◌, ◌≡◌, refl, sym, ◌∙◌, Bool, true, false, List, [], ◌∷◌, ◌++◌, none,
  some, length, length-append, length-drop, get_elem?, drop, ◌==◌, if◌then◌else◌, arith, ◌⊎◌, inl,
  inr, subst,
}
use tachyon_core.Tgp.Fec.Log.{Completed, completed_at, forget, forget_at, compact, pop}

-- The completions that have not been taken off the queue.
abbrev pub pending : Completed → List (ℕ × ℕ)
pending c = drop c.head c.order

-- No group is in the list twice.
unfoldable pub once : List (ℕ × ℕ) → Bool
once [] = true
once ((k, t) ∷ es) = elim (completed_at k es) [ none ↦ once es | some u ↦ false ]

pub completed_at-forget :
    (k id : ℕ) (es : List (ℕ × ℕ))
    → completed_at k (forget id es) ≡ (if id == k then none else completed_at k es)
unfolding completed_at forget
completed_at-forget k id [] = ground arith
completed_at-forget k id ((j, t) ∷ es) = ground (arith, completed_at-forget k id es)

pub forget_absent : (id : ℕ) (es : List (ℕ × ℕ)) → completed_at id es ≡ none → forget id es ≡ es
unfolding completed_at forget
forget_absent id [] h = refl
forget_absent id ((j, t) ∷ es) h = ground (arith, forget_absent id es)

pub forget-once : (id : ℕ) (es : List (ℕ × ℕ)) → once es ≡ true → once (forget id es) ≡ true
unfolding once forget
forget-once id [] h = refl
forget-once id ((j, t) ∷ es) h = ground (arith, forget-once id es, completed_at-forget j id es)

pub length-forget :
    (id t : ℕ) (es : List (ℕ × ℕ))
    → once es ≡ true
    → completed_at id es ≡ some t
    → suc (length (forget id es)) ≡ length es
unfolding once completed_at forget
length-forget id t [] o h = cc
length-forget id t ((j, u) ∷ es) o h = ground (arith, length-forget id t es, forget_absent id es)

pub completed_at-append :
    (k id t : ℕ) (qs : List (ℕ × ℕ))
    → completed_at id qs ≡ none
    → completed_at k (qs ++ ((id, t) ∷ [])) ≡ (if id == k then some t else completed_at k qs)
unfolding completed_at
completed_at-append k id t [] h = refl
completed_at-append k id t ((j, u) ∷ qs) h = ground (arith, completed_at-append k id t qs)

pub once-append :
    (id t : ℕ) (qs : List (ℕ × ℕ))
    → once qs ≡ true
    → completed_at id qs ≡ none
    → once (qs ++ ((id, t) ∷ [])) ≡ true
unfolding once completed_at
once-append id t [] o h = refl
once-append id t ((j, u) ∷ qs) o h =
    ground (arith, once-append id t qs, completed_at-append j id t qs)

-- The map and the queue hold the same completions.
pub record Agrees (es qs : List (ℕ × ℕ)) : Type 0 where
  pub count : length es ≡ length qs
  pub agree : (id : ℕ) → completed_at id es ≡ completed_at id qs
  pub once_map : once es ≡ true
  pub once_queue : once qs ≡ true

pub Agrees-pop :
    (id t : ℕ) (es rest : List (ℕ × ℕ)) → Agrees es ((id, t) ∷ rest) → Agrees (forget id es) rest
unfolding once completed_at
Agrees-pop id t es rest v = record {
  count = ground (arith, v, v.agree id, length-forget id t es);
  agree = λ k. ground (arith, v.once_queue, v.agree k, completed_at-forget k id es);
  once_map = forget-once id es v.once_map;
  once_queue = ground (arith, v.once_queue);
}

pub Agrees-push :
    (id t : ℕ) (es qs : List (ℕ × ℕ))
    → Agrees es qs
    → completed_at id es ≡ none
    → Agrees ((id, t) ∷ es) (qs ++ ((id, t) ∷ []))
unfolding once
Agrees-push id t es qs v h =
    let absent : completed_at id qs ≡ none = sym (v.agree id) ∙ h in
    record {
      count = omega (arith, v.count, length-append qs ((id, t) ∷ []));
      agree = λ k. unfold completed_at in ground (arith, v.agree k, completed_at-append k id t qs);
      once_map = ground (arith, v.once_map);
      once_queue = once-append id t qs v.once_queue absent;
    }

pub record IsLog (c : Completed) : Type 0 where
  pub inside : c.head ≤ length c.order
  pub agrees : Agrees c.entries (pending c)

-- `get_elem?` at the head is the first that is pending.
pub head-pending :
    (n : ℕ) (xs : List (ℕ × ℕ))
    → ((get_elem? xs n ≡ none) × (drop n xs ≡ []) × (length xs ≤ n))
      ⊎ ((x : ℕ × ℕ) × (get_elem? xs n ≡ some x)
          × (drop n xs ≡ x ∷ drop (suc n) xs)
          × (n < length xs))
head-pending zero [] = inl (refl, refl, omega arith)
head-pending (suc n) [] = inl (refl, refl, omega arith)
head-pending zero (x ∷ xs) = inr (x, refl, refl, omega arith)
head-pending (suc n) (x ∷ xs) = elim (head-pending n xs) [
  | inl (a, b, h) ↦ inl (a, b, omega arith)
  | inr (y, a, b, h) ↦ inr (y, a, b, omega arith)
]

pub drop_past : (n : ℕ) (xs : List (ℕ × ℕ)) → n ≡ length xs → drop n xs ≡ []
drop_past zero [] h = refl
drop_past zero (x ∷ xs) h = absurd (omega arith)
drop_past (suc n) [] h = refl
drop_past (suc n) (x ∷ xs) h = drop_past n xs (omega arith)

-- Compaction changes neither what is pending nor the map.
pub pending-compact : (c : Completed) → pending (compact c) ≡ pending c
unfolding compact
pending-compact c = ground (arith, drop_past c.head c.order)

pub compact_rest :
    (c : Completed)
    → c.head ≤ length c.order
    → ((compact c).entries ≡ c.entries) × ((compact c).head ≤ length (compact c).order)
unfolding compact
compact_rest c h = ground (arith, length-drop c.head c.order)

pub compact-IsLog : (c : Completed) → IsLog c → IsLog (compact c)
compact-IsLog c v =
    let (same, inside) = compact_rest c v.inside in
    record { inside = inside; agrees = rw (same, pending-compact c) v.agrees }

pub pop-eq :
    (c : Completed) (id t : ℕ)
    → get_elem? c.order c.head ≡ some (id, t)
    → completed_at id c.entries ≡ some t
    → pop c ≡ compact (record c { head = c.head + 1; entries = forget id c.entries })
unfolding pop forget_at
pop-eq c id t first at = ground (arith, first, at)

pub pop-none : (c : Completed) → get_elem? c.order c.head ≡ none → pop c ≡ c
unfolding pop
pop-none c e = ground (arith, e)

-- Taking an entry off removes the oldest, from the map and from the queue.
pub pop_lem :
    (c : Completed) (id t : ℕ) (rest : List (ℕ × ℕ))
    → IsLog c
    → pending c ≡ (id, t) ∷ rest
    → IsLog (pop c) × (pending (pop c) ≡ rest)
pop_lem c id t rest v q = elim (head-pending c.head c.order) [
  | inl (a, b, h) ↦ absurd (ground arith)
  | inr (x, a, b, h) ↦
      let moved : Completed = record c { head = c.head + 1; entries = forget id c.entries } in
      let first : get_elem? c.order c.head ≡ some (id, t) = ground arith in
      let at : completed_at id c.entries ≡ some t =
        v.agrees.agree id ∙ (rw q (unfold completed_at in ground arith)) in
      let step : c.head + 1 ≡ suc c.head = omega arith in
      let next : pending moved ≡ rest = rw step (ground arith) in
      let agrees : Agrees (forget id c.entries) (pending moved) =
        rw next (Agrees-pop id t c.entries rest (subst (Agrees c.entries) q v.agrees)) in
      let moved-IsLog : IsLog moved = record { inside = omega arith; agrees = agrees } in
      rw (pop-eq c id t first at) (compact-IsLog moved moved-IsLog, pending-compact moved ∙ next)
]

pub drop-append_le :
    (n : ℕ) (xs ys : List (ℕ × ℕ)) → n ≤ length xs → drop n (xs ++ ys) ≡ drop n xs ++ ys
drop-append_le zero xs ys h = refl
drop-append_le (suc n) [] ys h = absurd (omega arith)
drop-append_le (suc n) (x ∷ xs) ys h = drop-append_le n xs ys (omega arith)
