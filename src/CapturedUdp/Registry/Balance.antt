-- ===== src/CapturedUdp/Registry/Balance.antt =====
-- internal/capturedudp/registry.go: the accounts against the buffers that are out.
use tachyon_core.Base.{
  ℕ, ◌+◌, ◌-◌, ◌*◌, ◌≤◌, ◌<◌, ◌≡◌, refl, sym, ◌∙◌, ap, subst, Bool, true, false, ◌||◌, List, [],
  ◌∷◌, arith, length, if◌then◌else◌, inl, inr, leb, ltb, max, All,
}
use tachyon_core.Base.Outcome.{Outcome, ok, Outcome-cases, ok-injective, reject-inv, reject}
use tachyon_core.CapturedUdp.Types.{
  Error, Limits, BufferLease, Direction, accepted_buffer, delivery_buffer,
  hard_max_objects_per_direction, datagram_too_large, buffer_budget, min_payload_reservation,
  hard_max_outstanding_objects, outstanding_budget, hard_max_outstanding_metadata,
  outstanding_object_meta_size, hard_max_metadata_per_direction,
}
use tachyon_core.CapturedUdp.Registry.{Accounts}
use tachyon_core.CapturedUdp.Registry.Buffers.{
  check_reserve, reserve_buffer, objects, metadata, reserved_accounts, reserved_lease,
}

abbrev pub held_bytes : List BufferLease → ℕ
held_bytes [] = 0
held_bytes (l ∷ ls) = l.bytes + held_bytes ls

abbrev pub is_direction : Direction → Direction → Bool
is_direction accepted_buffer accepted_buffer = true
is_direction accepted_buffer delivery_buffer = false
is_direction delivery_buffer accepted_buffer = false
is_direction delivery_buffer delivery_buffer = true

abbrev pub held_of : Direction → List BufferLease → ℕ
held_of d [] = 0
held_of d (l ∷ ls) = (if is_direction l.direction d then 1 else 0) + held_of d ls

-- A buffer is never empty, and its metadata has the fixed size.
abbrev pub IsLease : BufferLease → Type 0
IsLease l = (0 < l.bytes) × (l.metadata ≡ 160)

-- The accounts are the sums over the buffers that are out, and within the limits.
pub record IsBalanced (limits : Limits) (held : List BufferLease) (a : Accounts) : Type 0 where
  pub leases : All IsLease held
  pub bytes : a.buffered_bytes ≡ held_bytes held
  pub all_objects : a.outstanding_objects ≡ length held
  pub all_metadata : a.outstanding_metadata ≡ 160 * length held
  pub by_direction : (d : Direction) → objects a d ≡ held_of d held
  pub meta_by_direction : (d : Direction) → metadata a d ≡ 160 * held_of d held
  pub few_bytes : held_bytes held ≤ limits.buffered_bytes
  pub few_objects : (d : Direction) → held_of d held ≤ hard_max_objects_per_direction
  pub few_in_all : length held ≤ hard_max_outstanding_objects
  pub few_metadata : 160 * length held ≤ hard_max_outstanding_metadata
  pub few_meta_by_direction :
      (d : Direction) → 160 * held_of d held ≤ hard_max_metadata_per_direction

-- What the checks of reserveBufferLocked let through.
record Fits (limits : Limits) (a : Accounts) (d : Direction) (size : ℕ) : Type 0 where
  bytes : a.buffered_bytes + max size 64 ≤ limits.buffered_bytes
  one_more : objects a d < hard_max_objects_per_direction
  one_more_in_all : a.outstanding_objects < hard_max_outstanding_objects
  meta_room : a.outstanding_metadata + 160 ≤ hard_max_outstanding_metadata
  meta_room_by_direction : metadata a d + 160 ≤ hard_max_metadata_per_direction

room_of :
    (most reserved used : ℕ)
    → (ltb most reserved || ltb (most - reserved) used) ≡ false
    → used + reserved ≤ most
room_of most reserved used e = ground arith

-- The four tests of the budget of objects and metadata.
more_of :
    (all some_way meta meta_way : ℕ)
    → (leb hard_max_outstanding_objects all
        || leb hard_max_objects_per_direction some_way
        || ltb (hard_max_outstanding_metadata - outstanding_object_meta_size) meta
        || ltb (hard_max_metadata_per_direction - outstanding_object_meta_size) meta_way)
      ≡ false
    → (all < hard_max_outstanding_objects)
      × ((some_way < hard_max_objects_per_direction)
          × ((meta + 160 ≤ hard_max_outstanding_metadata)
              × (meta_way + 160 ≤ hard_max_metadata_per_direction)))
more_of all some_way meta meta_way e = ground arith

passed_of : (b : Bool) (u : Unit {0}) → reject b outstanding_budget ≡ ok u → b ≡ false
passed_of b u e = ground arith

check_reserve-Fits :
    (limits : Limits) (a : Accounts) (d : Direction) (size : ℕ) (u : Unit {0})
    → check_reserve limits a d size ≡ ok u
    → Fits limits a d size
unfolding check_reserve
check_reserve-Fits limits a d size u e =
    let (_, e1) = reject-inv (ltb limits.datagram_size size) datagram_too_large _ u e in
    let reserved = max size min_payload_reservation in
    let full =
      leb hard_max_outstanding_objects a.outstanding_objects
      || leb hard_max_objects_per_direction (objects a d)
      || ltb (hard_max_outstanding_metadata - outstanding_object_meta_size) a.outstanding_metadata
      || ltb (hard_max_metadata_per_direction - outstanding_object_meta_size) (metadata a d) in
    let (room, e2) =
      reject-inv
        (ltb limits.buffered_bytes reserved
          || ltb (limits.buffered_bytes - reserved) a.buffered_bytes)
        buffer_budget (reject full outstanding_budget) u e1 in
    let (in_all, (by_way, (meta, meta_by_way))) =
      more_of a.outstanding_objects (objects a d) a.outstanding_metadata (metadata a d)
        (passed_of full u e2) in
    record {
      bytes = room_of limits.buffered_bytes reserved a.buffered_bytes room;
      one_more = by_way;
      one_more_in_all = in_all;
      meta_room = meta;
      meta_room_by_direction = meta_by_way;
    }

reserve_buffer-inv :
    (limits : Limits) (a a' : Accounts) (d : Direction) (size : ℕ) (l : BufferLease)
    → reserve_buffer limits a d size ≡ (a', ok l)
    → Fits limits a d size × ((reserved_accounts a d size ≡ a') × (reserved_lease d size ≡ l))
unfolding reserve_buffer
reserve_buffer-inv limits a a' d size l e = elim (Outcome-cases (check_reserve limits a d size)) [
  | inr (x, refused) ↦ absurd (ground arith)
  | inl (u, passed) ↦ (
    check_reserve-Fits limits a d size u passed,
    let made : reserve_buffer limits a d size
            ≡ (reserved_accounts a d size, ok (reserved_lease d size)) =
          rw (passed, reserve_buffer) refl in
        let same = sym made ∙ e in
        (
          ap (λ (p : Accounts × Outcome Error BufferLease). p.0) same,
          ok-injective (ap (λ (p : Accounts × Outcome Error BufferLease). p.1) same),
        ),
  )
]

objects_after :
    (a : Accounts) (size : ℕ) (d d' : Direction)
    → objects (reserved_accounts a d size) d' ≡ (if is_direction d d' then 1 else 0) + objects a d'
objects_after a size accepted_buffer accepted_buffer = omega arith
objects_after a size accepted_buffer delivery_buffer = omega arith
objects_after a size delivery_buffer accepted_buffer = omega arith
objects_after a size delivery_buffer delivery_buffer = omega arith

metadata_after :
    (a : Accounts) (size : ℕ) (d d' : Direction)
    → metadata (reserved_accounts a d size) d'
      ≡ 160 * (if is_direction d d' then 1 else 0) + metadata a d'
metadata_after a size accepted_buffer accepted_buffer = omega arith
metadata_after a size accepted_buffer delivery_buffer = omega arith
metadata_after a size delivery_buffer accepted_buffer = omega arith
metadata_after a size delivery_buffer delivery_buffer = omega arith

totals_after :
    (a : Accounts) (size : ℕ) (d : Direction)
    → let b = reserved_accounts a d size in
      (b.buffered_bytes ≡ a.buffered_bytes + max size 64)
      × ((b.outstanding_objects ≡ a.outstanding_objects + 1)
          × (b.outstanding_metadata ≡ a.outstanding_metadata + 160))
totals_after a size accepted_buffer = (refl, (refl, refl))
totals_after a size delivery_buffer = (refl, (refl, refl))

still_few :
    (d x : Direction) (held : List BufferLease)
    → held_of d held < hard_max_objects_per_direction
    → held_of x held ≤ hard_max_objects_per_direction
    → (if is_direction d x then 1 else 0) + held_of x held ≤ hard_max_objects_per_direction
still_few accepted_buffer accepted_buffer held h k = omega arith
still_few accepted_buffer delivery_buffer held h k = omega arith
still_few delivery_buffer accepted_buffer held h k = omega arith
still_few delivery_buffer delivery_buffer held h k = omega arith

still_small :
    (d x : Direction) (held : List BufferLease)
    → 160 * held_of d held + 160 ≤ hard_max_metadata_per_direction
    → 160 * held_of x held ≤ hard_max_metadata_per_direction
    → 160 * ((if is_direction d x then 1 else 0) + held_of x held) ≤ hard_max_metadata_per_direction
still_small accepted_buffer accepted_buffer held h k = omega arith
still_small accepted_buffer delivery_buffer held h k = omega arith
still_small delivery_buffer accepted_buffer held h k = omega arith
still_small delivery_buffer delivery_buffer held h k = omega arith

-- One more buffer is out.
pub reserve_buffer-IsBalanced :
    (limits : Limits) (held : List BufferLease) (a a' : Accounts) (d : Direction) (size : ℕ)
    (l : BufferLease)
    → IsBalanced limits held a
    → reserve_buffer limits a d size ≡ (a', ok l)
    → IsBalanced limits (l ∷ held) a'
reserve_buffer-IsBalanced limits held a a' d size l h e =
    let (fits, (accounts, lease)) = reserve_buffer-inv limits a a' d size l e in
    let (total, (number, meta)) = totals_after a size d in
    subst (λ (x : Accounts). IsBalanced limits (l ∷ held) x) accounts
      (subst (λ (x : BufferLease). IsBalanced limits (x ∷ held) (reserved_accounts a d size)) lease
        (record {
          leases = ((omega arith, refl), h.leases);
          bytes = total ∙ omega (arith, h.bytes);
          all_objects = number ∙ omega (arith, h.all_objects);
          all_metadata = meta ∙ omega (arith, h.all_metadata);
          by_direction = λ x.
              objects_after a size d x
              ∙ ap (λ (n : ℕ). (if is_direction d x then 1 else 0) + n) (h.by_direction x);
          meta_by_direction = λ x. metadata_after a size d x ∙ omega (arith, h.meta_by_direction x);
          few_bytes = omega (arith, fits.bytes, h.bytes);
          few_objects = λ x.
              still_few d x held (omega (arith, fits.one_more, h.by_direction d)) (h.few_objects x);
          few_in_all = omega (arith, fits.one_more_in_all, h.all_objects);
          few_metadata = omega (arith, fits.meta_room, h.all_metadata);
          few_meta_by_direction = λ x.
              still_small d x held
                (omega (arith, fits.meta_room_by_direction, h.meta_by_direction d))
                (h.few_meta_by_direction x);
        }))
