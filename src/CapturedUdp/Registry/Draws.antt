-- ===== src/CapturedUdp/Registry/Draws.antt =====
-- internal/capturedudp/registry.go: acceptDatagram and resolveReply against the accounts.
use tachyon_core.Base.{
  ℕ, ◌≡◌, refl, ◌∙◌, ap, subst, Bool, true, false, arith, length, if◌then◌else◌, inl, inr,
}
use tachyon_core.Base.Bytes.{Bytes}
use tachyon_core.Base.Outcome.{Outcome, ok, err, Outcome-cases, ok-injective}
use tachyon_core.CapturedUdp.Types.{
  Error, Limits, Lease, Datagram, BufferLease, Direction, accepted_buffer, delivery_buffer,
}
use tachyon_core.Tgp.Tunnel.{TunnelDatagram}
use tachyon_core.CapturedUdp.Registry.{Registry, Accounts}
use tachyon_core.CapturedUdp.Registry.Generations.{then_call}
use tachyon_core.CapturedUdp.Registry.Buffers.{reserve_buffer}
use tachyon_core.CapturedUdp.Types.{
  datagram_too_large, sequence_replay, unknown_flow, missing_lease_identity,
}
use tachyon_core.CapturedUdp.Registry.{count_rejected}
use tachyon_core.CapturedUdp.Registry.Datagrams.{then_with}
use tachyon_core.CapturedUdp.Registry.Datagrams.{
  AcceptedDatagram, Delivery, accept_datagram, accept_named, accept_on, admit, consume_data,
  named_lease, resolve_reply, resolve_checked, resolve_named, deliver_on,
}

-- A call that hands out a buffer takes it from the accounts if it succeeds, and leaves them alone if
-- it fails.
module _ {A : Type 0} (buffer : A → BufferLease) (limits : Limits) (a : Accounts) where
  pub record Draws (p : Registry × Outcome Error A) : Type 0 where
    pub failed : (e : Error) → p.1 ≡ err e → p.0.accounts ≡ a
    pub served :
        (x : A)
        → p.1 ≡ ok x
        → (direction : Direction) × (size : ℕ) × (reserve_buffer limits a direction size
            ≡ (p.0.accounts, ok (buffer x)))

  pub Draws-err : (r : Registry) (e : Error) → r.accounts ≡ a → Draws (r, err e)
  Draws-err r e same = record { failed = λ x f. same; served = λ x f. absurd (ground arith) }

  pub Draws-ok :
      (r : Registry) (x : A) (direction : Direction) (size : ℕ)
      → reserve_buffer limits a direction size ≡ (r.accounts, ok (buffer x))
      → Draws (r, ok x)
  Draws-ok r x direction size made = record {
    failed = λ e f. absurd (ground arith);
    served = λ y f. (
      direction,
      size,
      subst (λ (z : A). reserve_buffer limits a direction size ≡ (r.accounts, ok (buffer z)))
          (ok-injective f) made,
    );
  }

  pub Draws-if :
      (b : Bool) (x y : Registry × Outcome Error A) → Draws x → Draws y → Draws (if b then x else y)
  Draws-if true x y f g = f
  Draws-if false x y f g = g

  pub Draws-call :
      (r1 : Registry) (o : Outcome Error (Unit {0})) (f : Registry → Registry × Outcome Error A)
      → r1.accounts ≡ a
      → Draws (f r1)
      → Draws (then_call (r1, o) f)
  Draws-call r1 (err e) f same rest = Draws-err r1 e same
  Draws-call r1 (ok u) f same rest = rest

  pub Draws-with {ℓ} :
      {B : Type ℓ} (r1 : Registry) (o : Outcome Error B)
      (f : Registry → B → Registry × Outcome Error A)
      → r1.accounts ≡ a
      → ((b : B) → Draws (f r1 b))
      → Draws (then_with (r1, o) f)
  Draws-with r1 (err e) f same rest = Draws-err r1 e same
  Draws-with r1 (ok b) f same rest = rest b

admit-Untouched :
    (r : Registry) (id payload : Bytes) (now : ℕ) → (admit r id payload now).0.accounts ≡ r.accounts
unfolding admit consume_data
admit-Untouched r id payload now = ground arith

named_lease-Untouched :
    (r : Registry) (flow_id : Bytes) (generation : ℕ) (nonce : Bytes) (now : ℕ)
    → ((named_lease r flow_id generation nonce now).0.accounts ≡ r.accounts)
      × ((named_lease r flow_id generation nonce now).0.limits ≡ r.limits)
unfolding named_lease
named_lease-Untouched r flow_id generation nonce now = ground arith

with_outcome :
    (p : Accounts × Outcome Error BufferLease) (b : BufferLease) → p.1 ≡ ok b → p ≡ (p.0, ok b)
with_outcome p b e = ap (λ (o : Outcome Error BufferLease). (p.0, o)) e

abbrev pub accepted_from : AcceptedDatagram → BufferLease
accepted_from x = x.buffer

abbrev pub delivered_from : Delivery → BufferLease
delivered_from x = x.buffer

accept_on-Draws :
    (r : Registry) (l : Lease) (d : Datagram) (now : ℕ)
    → Draws accepted_from r.limits r.accounts (accept_on r l d now)
unfolding accept_on
accept_on-Draws r l d now =
    let size = length d.payload in
    let reserved = reserve_buffer r.limits r.accounts accepted_buffer size in
    elim (Outcome-cases reserved.1) [
      | inr (x, refused) ↦
          rw (refused, accept_on)
            (Draws-err accepted_from r.limits r.accounts (count_rejected r) x refl)
      | inl (b, made) ↦
          rw (made, accept_on)
            (Draws-ok accepted_from r.limits r.accounts _ _ accepted_buffer size
              (with_outcome reserved b made))
    ]

deliver_on-Draws :
    (r : Registry) (l : Lease) (d : TunnelDatagram) (now : ℕ)
    → Draws delivered_from r.limits r.accounts (deliver_on r l d now)
unfolding deliver_on
deliver_on-Draws r l d now =
    let size = length d.payload in
    let reserved = reserve_buffer r.limits r.accounts delivery_buffer size in
    elim (Outcome-cases reserved.1) [
      | inr (x, refused) ↦
          rw (refused, deliver_on)
            (Draws-err delivered_from r.limits r.accounts (count_rejected r) x refl)
      | inl (b, made) ↦
          rw (made, deliver_on)
            (Draws-ok delivered_from r.limits r.accounts _ _ delivery_buffer size
              (with_outcome reserved b made))
    ]

accept_named-Draws :
    (r : Registry) (l : Lease) (d : Datagram) (now : ℕ)
    → Draws accepted_from r.limits r.accounts (accept_named r l d now)
unfolding accept_named
accept_named-Draws r l d now =
    let refused =
      λ (e : Error). Draws-err accepted_from r.limits r.accounts (count_rejected r) e refl in
    Draws-if accepted_from r.limits r.accounts _ _ _ (refused datagram_too_large) (
      Draws-if accepted_from r.limits r.accounts _ _ _ (refused sequence_replay)
        (accept_on-Draws r l d now))

resolve_named-Draws :
    (r : Registry) (l : Lease) (d : TunnelDatagram) (now : ℕ)
    → Draws delivered_from r.limits r.accounts (resolve_named r l d now)
unfolding resolve_named
resolve_named-Draws r l d now =
    Draws-if delivered_from r.limits r.accounts _ _ _
      (Draws-err delivered_from r.limits r.accounts (count_rejected r) unknown_flow refl)
      (deliver_on-Draws r l d now)

-- The same limits and accounts, for another registry's call.
Draws-same :
    {A : Type 0} (buffer : A → BufferLease) (r r1 : Registry) (p : Registry × Outcome Error A)
    → r1.limits ≡ r.limits
    → r1.accounts ≡ r.accounts
    → Draws buffer r1.limits r1.accounts p
    → Draws buffer r.limits r.accounts p
Draws-same buffer r r1 p l a d =
    subst (λ (x : Limits). Draws buffer x r.accounts p) l
      (subst (λ (x : Accounts). Draws buffer r1.limits x p) a d)

admit-limits :
    (r : Registry) (id payload : Bytes) (now : ℕ) → (admit r id payload now).0.limits ≡ r.limits
unfolding admit consume_data
admit-limits r id payload now = ground arith

pub accept_datagram-Draws :
    (r : Registry) (id : Bytes) (d : Datagram) (now : ℕ)
    → Draws accepted_from r.limits r.accounts (accept_datagram r id d now)
unfolding accept_datagram
accept_datagram-Draws r id d now =
    let admitted = admit r id d.payload now in
    let r1 = admitted.0 in
    let named = named_lease r1 d.flow_id d.generation d.lease_nonce now in
    let (accounts, limits) = named_lease-Untouched r1 d.flow_id d.generation d.lease_nonce now in
    let first = admit-Untouched r id d.payload now in
    let rest = λ (r2 : Registry) (l : Lease). accept_named r2 l d now in
    let named_draws = λ (l : Lease).
      Draws-same accepted_from r named.0 (rest named.0 l) (limits ∙ admit-limits r id d.payload now)
        (accounts ∙ first) (accept_named-Draws named.0 l d now) in
    Draws-call accepted_from r.limits r.accounts r1 admitted.1
      (λ (r2 : Registry). then_with (named_lease r2 d.flow_id d.generation d.lease_nonce now) rest)
      first
      (Draws-with accepted_from r.limits r.accounts named.0 named.1 rest (accounts ∙ first)
        named_draws)

resolve_checked-Draws :
    (r r1 : Registry) (d : TunnelDatagram) (now : ℕ)
    → r1.limits ≡ r.limits
    → r1.accounts ≡ r.accounts
    → Draws delivered_from r.limits r.accounts (resolve_checked r1 d now)
unfolding resolve_checked
resolve_checked-Draws r r1 d now same_limits same_accounts =
    let i = d.identity in
    let named = named_lease r1 i.flow_id i.generation i.lease_nonce now in
    let (accounts, limits) = named_lease-Untouched r1 i.flow_id i.generation i.lease_nonce now in
    let refused = λ (e : Error).
      Draws-err delivered_from r.limits r.accounts (count_rejected r1) e same_accounts in
    let rest = λ (r2 : Registry) (l : Lease). resolve_named r2 l d now in
    let named_draws = λ (l : Lease).
      Draws-same delivered_from r named.0 (rest named.0 l) (limits ∙ same_limits)
        (accounts ∙ same_accounts) (resolve_named-Draws named.0 l d now) in
    Draws-if delivered_from r.limits r.accounts _ _ _ (refused missing_lease_identity) (
      Draws-if delivered_from r.limits r.accounts _ _ _ (refused datagram_too_large) (
        Draws-with delivered_from r.limits r.accounts named.0 named.1 rest
          (accounts ∙ same_accounts) named_draws))

pub resolve_reply-Draws :
    (r : Registry) (id : Bytes) (d : TunnelDatagram) (now : ℕ)
    → Draws delivered_from r.limits r.accounts (resolve_reply r id d now)
unfolding resolve_reply
resolve_reply-Draws r id d now =
    let admitted = admit r id d.payload now in
    let first = admit-Untouched r id d.payload now in
    Draws-call delivered_from r.limits r.accounts admitted.0 admitted.1
      (λ (r1 : Registry). resolve_checked r1 d now) first
      (resolve_checked-Draws r admitted.0 d now (admit-limits r id d.payload now) first)
