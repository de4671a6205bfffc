-- ===== src/CapturedUdp/Registry/Buffers.antt =====
-- internal/capturedudp/registry.go: the accounts of the buffers that are out.
use tachyon_core.Base.{
  ℕ, ◌+◌, ◌-◌, Bool, ◌||◌, Option, none, some, ltb, leb, ◌==◌, max, if◌then◌else◌,
}
use tachyon_core.Base.Outcome.{Outcome, ok, err, ◌>>◌, reject}
use tachyon_core.CapturedUdp.Types.{
  Error, datagram_too_large, outstanding_budget, buffer_budget, Limits, Direction, accepted_buffer,
  delivery_buffer, BufferLease, min_payload_reservation, hard_max_outstanding_objects,
  hard_max_objects_per_direction, hard_max_outstanding_metadata, hard_max_metadata_per_direction,
  outstanding_object_meta_size,
}
use tachyon_core.CapturedUdp.Registry.{Accounts}

-- objectsByDirection[direction] and metadataByDirection[direction]
abbrev pub objects : Accounts → Direction → ℕ
objects a accepted_buffer = a.accepted_objects
objects a delivery_buffer = a.delivery_objects

abbrev pub metadata : Accounts → Direction → ℕ
metadata a accepted_buffer = a.accepted_metadata
metadata a delivery_buffer = a.delivery_metadata

abbrev pub set_direction : Accounts → Direction → ℕ → ℕ → Accounts
set_direction a accepted_buffer o m = record a { accepted_objects = o; accepted_metadata = m }
set_direction a delivery_buffer o m = record a { delivery_objects = o; delivery_metadata = m }

unfoldable pub check_reserve : Limits → Accounts → Direction → ℕ → Outcome Error (Unit {0})
check_reserve limits a direction size = do
  reject (ltb limits.datagram_size size) datagram_too_large
  let reserved = max size min_payload_reservation
  reject
      (ltb limits.buffered_bytes reserved
        || ltb (limits.buffered_bytes - reserved) a.buffered_bytes)
      buffer_budget
  reject
      (leb hard_max_outstanding_objects a.outstanding_objects
        || leb hard_max_objects_per_direction (objects a direction)
        || ltb (hard_max_outstanding_metadata - outstanding_object_meta_size) a.outstanding_metadata
        || ltb (hard_max_metadata_per_direction - outstanding_object_meta_size)
            (metadata a direction))
      outstanding_budget

-- The accounts with one more buffer out, and the buffer.
abbrev pub reserved_accounts : Accounts → Direction → ℕ → Accounts
reserved_accounts a direction size =
    let counted = record a {
      buffered_bytes = a.buffered_bytes + max size min_payload_reservation;
      outstanding_objects = a.outstanding_objects + 1;
      outstanding_metadata = a.outstanding_metadata + outstanding_object_meta_size;
    } in
    set_direction counted direction (objects a direction + 1)
      (metadata a direction + outstanding_object_meta_size)

abbrev pub reserved_lease : Direction → ℕ → BufferLease
reserved_lease direction size = record {
  bytes = max size min_payload_reservation;
  metadata = outstanding_object_meta_size;
  direction = direction;
}

-- reserveBufferLocked on a size and a direction that exist.
unfoldable pub reserve_buffer :
    Limits → Accounts → Direction → ℕ → Accounts × Outcome Error BufferLease
unfolding check_reserve
reserve_buffer limits a direction size = elim (check_reserve limits a direction size) [
  | err e ↦ (a, err e)
  | ok _ ↦ (reserved_accounts a direction size, ok (reserved_lease direction size))
]

abbrev pub released_accounts : Accounts → BufferLease → Accounts
released_accounts a l =
    let counted = record a {
      buffered_bytes = a.buffered_bytes - l.bytes;
      outstanding_objects = a.outstanding_objects - 1;
      outstanding_metadata = a.outstanding_metadata - l.metadata;
    } in
    set_direction counted l.direction (objects a l.direction - 1)
      (metadata a l.direction - l.metadata)

-- Does releasing a buffer take more than there is?
abbrev pub underflows : Accounts → BufferLease → Bool
underflows a l =
    l.bytes == 0
    || l.metadata == 0
    || ltb a.buffered_bytes l.bytes
    || a.outstanding_objects == 0
    || ltb a.outstanding_metadata l.metadata
    || objects a l.direction == 0
    || ltb (metadata a l.direction) l.metadata

-- releaseBuffer; `none` is the panic of an underflow.
unfoldable pub release_buffer : Accounts → BufferLease → Option Accounts
release_buffer a l = if underflows a l then none else some (released_accounts a l)
