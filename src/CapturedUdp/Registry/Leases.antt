-- ===== src/CapturedUdp/Registry/Leases.antt =====
-- internal/capturedudp/registry.go: the map of leases, kept as a list.
use tachyon_core.Base.{
  ℕ, ◌+◌, ◌≤◌, ◌≡◌, refl, true, List, [], ◌∷◌, none, some, All, arith, length, Bool-cases, inl, inr,
}
use tachyon_core.Base.Bytes.{Bytes}
use tachyon_core.Base.Text.{same_text, same_text_refl}
use tachyon_core.CapturedUdp.Types.{Limits, Lease}
use tachyon_core.CapturedUdp.Registry.Flows.{
  find_lease, delete_lease, put_lease, live_leases, is_expired,
}

-- No two leases are for one flow.
abbrev pub Distinct : List Lease → Type 0
Distinct [] = Unit
Distinct (l ∷ ls) = (find_lease l.spec.flow_id ls ≡ none) × Distinct ls

abbrev pub InGeneration : ℕ → List Lease → Type 0
InGeneration g = All (λ (l : Lease). l.spec.generation ≡ g)

pub find-delete : (id : Bytes) (ls : List Lease) → find_lease id (delete_lease id ls) ≡ none
unfolding find_lease delete_lease
find-delete id [] = refl
find-delete id (l ∷ ls) = ground (arith, find-delete id ls)

find-delete_none :
    (id other : Bytes) (ls : List Lease)
    → find_lease id ls ≡ none
    → find_lease id (delete_lease other ls) ≡ none
unfolding find_lease delete_lease
find-delete_none id other [] h = refl
find-delete_none id other (l ∷ ls) h = ground (arith, find-delete_none id other ls)

pub delete-Distinct : (id : Bytes) (ls : List Lease) → Distinct ls → Distinct (delete_lease id ls)
unfolding delete_lease
delete-Distinct id [] h = tt
delete-Distinct id (l ∷ ls) h = elim (Bool-cases (same_text l.spec.flow_id id)) [
  | inl e ↦ rw (e, delete_lease) (delete-Distinct id ls h.1)
  | inr e ↦
      rw (e, delete_lease) (find-delete_none l.spec.flow_id id ls h.0, delete-Distinct id ls h.1)
]

pub put-Distinct : (l : Lease) (ls : List Lease) → Distinct ls → Distinct (put_lease l ls)
put-Distinct l ls h = (find-delete l.spec.flow_id ls, delete-Distinct l.spec.flow_id ls h)

find-live_none :
    (limits : Limits) (now : ℕ) (id : Bytes) (ls : List Lease)
    → find_lease id ls ≡ none
    → find_lease id (live_leases limits now ls) ≡ none
unfolding find_lease live_leases
find-live_none limits now id [] h = refl
find-live_none limits now id (l ∷ ls) h = ground (arith, find-live_none limits now id ls)

pub live-Distinct :
    (limits : Limits) (now : ℕ) (ls : List Lease)
    → Distinct ls
    → Distinct (live_leases limits now ls)
unfolding live_leases
live-Distinct limits now [] h = tt
live-Distinct limits now (l ∷ ls) h = elim (Bool-cases (is_expired limits now l)) [
  | inl e ↦ rw (e, live_leases) (live-Distinct limits now ls h.1)
  | inr e ↦
      rw (e, live_leases)
        (find-live_none limits now l.spec.flow_id ls h.0, live-Distinct limits now ls h.1)
]

pub delete-InGeneration :
    (g : ℕ) (id : Bytes) (ls : List Lease) → InGeneration g ls → InGeneration g (delete_lease id ls)
unfolding delete_lease
delete-InGeneration g id [] h = tt
delete-InGeneration g id (l ∷ ls) h = ground (arith, delete-InGeneration g id ls)

pub live-InGeneration :
    (limits : Limits) (now g : ℕ) (ls : List Lease)
    → InGeneration g ls
    → InGeneration g (live_leases limits now ls)
unfolding live_leases
live-InGeneration limits now g [] h = tt
live-InGeneration limits now g (l ∷ ls) h = ground (arith, live-InGeneration limits now g ls)

pub length-delete : (id : Bytes) (ls : List Lease) → length (delete_lease id ls) ≤ length ls
unfolding delete_lease
length-delete id [] = omega arith
length-delete id (l ∷ ls) = ground (arith, length-delete id ls)

pub length-delete_found :
    (id : Bytes) (ls : List Lease) (l : Lease)
    → find_lease id ls ≡ some l
    → length (delete_lease id ls) + 1 ≤ length ls
unfolding find_lease delete_lease
length-delete_found id [] l e = absurd (ground arith)
length-delete_found id (x ∷ xs) l e =
    ground (arith, length-delete id xs, length-delete_found id xs l)

pub length-live :
    (limits : Limits) (now : ℕ) (ls : List Lease) → length (live_leases limits now ls) ≤ length ls
unfolding live_leases
length-live limits now [] = omega arith
length-live limits now (l ∷ ls) = ground (arith, length-live limits now ls)

-- A lease that is found is in the list, and for the flow that was asked for.
pub find-flow_id :
    (id : Bytes) (ls : List Lease) (l : Lease)
    → find_lease id ls ≡ some l
    → same_text l.spec.flow_id id ≡ true
unfolding find_lease
find-flow_id id [] l e = absurd (ground arith)
find-flow_id id (x ∷ xs) l e = ground (arith, find-flow_id id xs l)

pub find-InGeneration :
    (g : ℕ) (id : Bytes) (ls : List Lease) (l : Lease)
    → find_lease id ls ≡ some l
    → InGeneration g ls
    → l.spec.generation ≡ g
unfolding find_lease
find-InGeneration g id [] l e h = absurd (ground arith)
find-InGeneration g id (x ∷ xs) l e h = ground (arith, find-InGeneration g id xs l)

pub find-put : (l : Lease) (ls : List Lease) → find_lease l.spec.flow_id (put_lease l ls) ≡ some l
unfolding find_lease
find-put l ls = rw (same_text_refl l.spec.flow_id) refl
