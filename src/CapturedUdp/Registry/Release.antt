-- ===== src/CapturedUdp/Registry/Release.antt =====
-- internal/capturedudp/registry.go: giving buffers back.
use tachyon_core.Base.{
  ℕ, zero, suc, ◌+◌, ◌-◌, ◌*◌, ◌≤◌, ◌<◌, ◌≡◌, refl, sym, ◌∙◌, ap, subst, Bool, true, false, ◌||◌,
  List, [], ◌∷◌, Option, none, some, arith, length, if◌then◌else◌, Option-cases, inl, inr, ◌==◌,
  ltb, All, some-injective,
}
use tachyon_core.CapturedUdp.Types.{
  Limits, BufferLease, Direction, accepted_buffer, delivery_buffer,
}
use tachyon_core.CapturedUdp.Registry.{Accounts}
use tachyon_core.CapturedUdp.Registry.Buffers.{
  release_buffer, objects, metadata, released_accounts, underflows, set_direction,
}
use tachyon_core.CapturedUdp.Registry.Balance.{
  held_bytes, is_direction, held_of, IsLease, IsBalanced,
}

-- The buffer at a place among those that are out.
unfoldable pub take_held : ℕ → List BufferLease → Option (BufferLease × List BufferLease)
take_held i [] = none
take_held zero (l ∷ ls) = some (l, ls)
take_held (suc i) (l ∷ ls) = elim (take_held i ls) [
  | none ↦ none
  | some (m, rest) ↦ some (m, l ∷ rest)
]

pub record Taken (held rest : List BufferLease) (l : BufferLease) : Type 0 where
  pub it : IsLease l
  pub others : All IsLease rest
  pub bytes : held_bytes held ≡ l.bytes + held_bytes rest
  pub number : length held ≡ 1 + length rest
  pub directions :
      (d : Direction)
      → held_of d held ≡ (if is_direction l.direction d then 1 else 0) + held_of d rest

pub take_held-Taken :
    (i : ℕ) (held : List BufferLease) (l : BufferLease) (rest : List BufferLease)
    → All IsLease held
    → take_held i held ≡ some (l, rest)
    → Taken held rest l
unfolding take_held
take_held-Taken i [] l rest h e = absurd (ground arith)
take_held-Taken zero (x ∷ xs) l rest h e =
    subst (λ (p : BufferLease × List BufferLease). Taken (x ∷ xs) p.1 p.0) (some-injective e)
      (record {
        it = h.0;
        others = h.1;
        bytes = refl;
        number = omega arith;
        directions = λ d. refl;
      })
take_held-Taken (suc i) (x ∷ xs) l rest h e = elim (Option-cases (take_held i xs)) [
  | inl missing ↦ absurd (ground arith)
  | inr ((m, r), found) ↦
      let made : take_held (suc i) (x ∷ xs) ≡ some (m, x ∷ r) = rw (found, take_held) refl in
      let t = take_held-Taken i xs m r h.1 found in
      subst (λ (p : BufferLease × List BufferLease). Taken (x ∷ xs) p.1 p.0)
        (some-injective (sym made ∙ e))
        (record {
          it = t.it;
          others = (h.0, t.others);
          bytes = omega (arith, t.bytes);
          number = omega (arith, t.number);
          directions = λ d. omega (arith, t.directions d);
        })
]

objects_released :
    (a : Accounts) (l : BufferLease) (d : Direction)
    → objects (released_accounts a l) d
      ≡ objects a d - (if is_direction l.direction d then 1 else 0)
objects_released a l d = go l.direction d
  where
    go :
        (e d : Direction)
        → objects
            (set_direction
              (record a {
                buffered_bytes = a.buffered_bytes - l.bytes;
                outstanding_objects = a.outstanding_objects - 1;
                outstanding_metadata = a.outstanding_metadata - l.metadata;
              })
              e
              (objects a e - 1)
              (metadata a e - l.metadata))
            d
          ≡ objects a d - (if is_direction e d then 1 else 0)
    go accepted_buffer accepted_buffer = omega arith
    go accepted_buffer delivery_buffer = omega arith
    go delivery_buffer accepted_buffer = omega arith
    go delivery_buffer delivery_buffer = omega arith

metadata_released :
    (a : Accounts) (l : BufferLease) (d : Direction)
    → metadata (released_accounts a l) d
      ≡ metadata a d - (if is_direction l.direction d then l.metadata else 0)
metadata_released a l d = go l.direction d
  where
    go :
        (e d : Direction)
        → metadata
            (set_direction
              (record a {
                buffered_bytes = a.buffered_bytes - l.bytes;
                outstanding_objects = a.outstanding_objects - 1;
                outstanding_metadata = a.outstanding_metadata - l.metadata;
              })
              e
              (objects a e - 1)
              (metadata a e - l.metadata))
            d
          ≡ metadata a d - (if is_direction e d then l.metadata else 0)
    go accepted_buffer accepted_buffer = omega arith
    go accepted_buffer delivery_buffer = omega arith
    go delivery_buffer accepted_buffer = omega arith
    go delivery_buffer delivery_buffer = omega arith

totals_released :
    (a : Accounts) (l : BufferLease)
    → let b = released_accounts a l in
      (b.buffered_bytes ≡ a.buffered_bytes - l.bytes)
      × ((b.outstanding_objects ≡ a.outstanding_objects - 1)
          × (b.outstanding_metadata ≡ a.outstanding_metadata - l.metadata))
totals_released a l = go l.direction
  where
    go :
        (e : Direction)
        → let b =
            set_direction
              (record a {
                buffered_bytes = a.buffered_bytes - l.bytes;
                outstanding_objects = a.outstanding_objects - 1;
                outstanding_metadata = a.outstanding_metadata - l.metadata;
              })
              e
              (objects a l.direction - 1)
              (metadata a l.direction - l.metadata) in
          (b.buffered_bytes ≡ a.buffered_bytes - l.bytes)
          × ((b.outstanding_objects ≡ a.outstanding_objects - 1)
              × (b.outstanding_metadata ≡ a.outstanding_metadata - l.metadata))
    go accepted_buffer = (refl, (refl, refl))
    go delivery_buffer = (refl, (refl, refl))

same_direction : (d : Direction) → is_direction d d ≡ true
same_direction accepted_buffer = refl
same_direction delivery_buffer = refl

enough :
    (lb lm bytes objs meta dobjs dmeta : ℕ)
    → 0 < lb
    → lm ≡ 160
    → lb ≤ bytes
    → 0 < objs
    → 160 ≤ meta
    → 0 < dobjs
    → 160 ≤ dmeta
    → (lb == 0 || lm == 0 || ltb bytes lb || objs == 0 || ltb meta lm || dobjs == 0 || ltb dmeta lm)
      ≡ false
enough lb lm bytes objs meta dobjs dmeta a b c d e f g = ground arith

less :
    (b : Bool) (m k n r : ℕ)
    → m ≡ 160 * n
    → k ≡ 160
    → n ≡ (if b then 1 else 0) + r
    → m - (if b then k else 0) ≡ 160 * r
less true m k n r e f g = omega arith
less false m k n r e f g = omega arith

-- Giving a buffer back never underflows, and leaves the accounts balanced over the others.
pub release_buffer-IsBalanced :
    (limits : Limits) (held rest : List BufferLease) (l : BufferLease) (a : Accounts)
    → IsBalanced limits held a
    → Taken held rest l
    → (a' : Accounts) × ((release_buffer a l ≡ some a') × IsBalanced limits rest a')
unfolding release_buffer
release_buffer-IsBalanced limits held rest l a h t =
    let (filled, sized) = t.it in
    let one : held_of l.direction held ≡ 1 + held_of l.direction rest =
      t.directions l.direction
      ∙ ap (λ (b : Bool). (if b then 1 else 0) + held_of l.direction rest)
          (same_direction l.direction) in
    let fine : underflows a l ≡ false =
      enough l.bytes l.metadata a.buffered_bytes a.outstanding_objects a.outstanding_metadata
        (objects a l.direction) (metadata a l.direction) filled sized
        (omega (arith, h.bytes, t.bytes)) (omega (arith, h.all_objects, t.number))
        (omega (arith, h.all_metadata, t.number)) (omega (arith, h.by_direction l.direction, one))
        (omega (arith, h.meta_by_direction l.direction, one)) in
    let (total, (number, meta)) = totals_released a l in
    (
      released_accounts a l,
      (
        rw (fine, release_buffer) refl,
        record {
          leases = t.others;
          bytes = total ∙ omega (arith, h.bytes, t.bytes);
          all_objects = number ∙ omega (arith, h.all_objects, t.number);
          all_metadata = meta ∙ omega (arith, h.all_metadata, t.number);
          by_direction =
              λ d. objects_released a l d ∙ omega (arith, h.by_direction d, t.directions d);
          meta_by_direction = λ d.
              metadata_released a l d
              ∙ less (is_direction l.direction d) _ _ _ _ (h.meta_by_direction d) sized
                  (t.directions d);
          few_bytes = omega (arith, h.few_bytes, t.bytes);
          few_objects = λ d. omega (arith, h.few_objects d, t.directions d);
          few_in_all = omega (arith, h.few_in_all, t.number);
          few_metadata = omega (arith, h.few_metadata, t.number);
          few_meta_by_direction = λ d. omega (arith, h.few_meta_by_direction d, t.directions d);
        },
      ),
    )
