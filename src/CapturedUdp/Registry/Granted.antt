-- ===== src/CapturedUdp/Registry/Granted.antt =====
-- internal/capturedudp/registry.go: what a datagram that acceptDatagram takes has been checked for.
use tachyon_core.Base.{
  ℕ, ◌≤◌, ◌<◌, ◌≡◌, refl, sym, ◌∙◌, ap, subst, Bool, true, false, ◌&&◌, some, arith, length, leb,
  Bool-cases, inl, inr,
}
use tachyon_core.Base.Bytes.{Bytes}
use tachyon_core.Base.Text.{same_text→eq}
use tachyon_core.Base.Outcome.{Outcome, ok, err, Outcome-cases, ok-injective}
use tachyon_core.CapturedUdp.Types.{Error, Limits, Lease, Datagram, accepted_buffer}
use tachyon_core.CapturedUdp.Registry.{Registry, Policy}
use tachyon_core.CapturedUdp.Registry.Control.{require_controller}
use tachyon_core.CapturedUdp.Registry.Generations.{then_call}
use tachyon_core.CapturedUdp.Registry.Buffers.{reserve_buffer}
use tachyon_core.CapturedUdp.Registry.Flows.{find_lease, put_lease, is_expired, is_lease_of}
use tachyon_core.CapturedUdp.Registry.Leases.{find-flow_id, find-put}
use tachyon_core.CapturedUdp.Registry.Datagrams.{
  AcceptedDatagram, accept_datagram, accept_named, accept_on, admit, consume_data, named_lease,
  then_with, tunnelled, fits_tunnel,
}
use tachyon_core.CapturedUdp.Registry.DatagramCalls.{named_lease-Named}

-- The lease after a datagram.
abbrev pub used : Lease → Datagram → ℕ → Lease
used l d now = record l { has_sequence = true; sequence = d.sequence; last_activity = now }

-- The caller is the controller; the flow has a lease in force, of the datagram's generation and nonce,
-- that has not expired; the sequence is above the lease's; what goes out has the lease's addresses; and
-- the lease keeps the sequence and the time.
pub record Granted (r r' : Registry) (id : Bytes) (d : Datagram) (now : ℕ) (x : AcceptedDatagram)
    : Type 0 where
  pub lease : Lease
  pub controls : require_controller r.access id ≡ ok tt
  pub small : length d.payload ≤ r.limits.datagram_size
  pub found : find_lease d.flow_id r.policy.flows ≡ some lease
  pub live : is_expired r.limits now lease ≡ false
  pub right : is_lease_of r.policy.active_generation d.generation d.lease_nonce lease ≡ true
  pub newer : lease.has_sequence ≡ true → lease.sequence < d.sequence
  pub fits : fits_tunnel r.limits lease.spec.local_end.ip lease.spec.remote_end.ip d.payload ≡ true
  pub carried : x.datagram ≡ tunnelled lease d
  pub kept : find_lease d.flow_id r'.policy.flows ≡ some (used lease d now)

then_call-inv {ℓ} :
    {A : Type ℓ} (p : Registry × Outcome Error (Unit {0}))
    (f : Registry → Registry × Outcome Error A) (x : A)
    → (then_call p f).1 ≡ ok x
    → (p.1 ≡ ok tt) × (then_call p f ≡ f p.0)
then_call-inv (r, err e) f x h = absurd (ground arith)
then_call-inv (r, ok u) f x h = (refl, refl)

then_with-inv {ℓ κ} :
    {A : Type ℓ} {B : Type κ} (p : Registry × Outcome Error B)
    (f : Registry → B → Registry × Outcome Error A) (x : A)
    → (then_with p f).1 ≡ ok x
    → (b : B) × ((p.1 ≡ ok b) × (then_with p f ≡ f p.0 b))
then_with-inv (r, err e) f x h = absurd (ground arith)
then_with-inv (r, ok b) f x h = (b, (refl, refl))

record Admitted (r r1 : Registry) (id payload : Bytes) : Type 0 where
  controls : require_controller r.access id ≡ ok tt
  small : length payload ≤ r.limits.datagram_size
  same_limits : r1.limits ≡ r.limits
  same_policy : r1.policy ≡ r.policy

admit-Admitted :
    (r : Registry) (id payload : Bytes) (now : ℕ)
    → (admit r id payload now).1 ≡ ok tt
    → Admitted r (admit r id payload now).0 id payload
unfolding admit consume_data
admit-Admitted r id payload now h = elim (Outcome-cases (require_controller r.access id)) [
  | inr (e, refused) ↦ absurd (ground arith)
  | inl (u, passed) ↦ record {
    controls = passed;
    small = ground arith;
    same_limits = ground arith;
    same_policy = ground arith;
  }
]

accept_on-inv :
    (r : Registry) (l : Lease) (d : Datagram) (now : ℕ) (x : AcceptedDatagram)
    → (accept_on r l d now).1 ≡ ok x
    → (x.datagram ≡ tunnelled l d)
      × ((accept_on r l d now).0.policy.flows ≡ put_lease (used l d now) r.policy.flows)
unfolding accept_on
accept_on-inv r l d now x h =
    elim (Outcome-cases (reserve_buffer r.limits r.accounts accepted_buffer (length d.payload)).1) [
      | inr (e, refused) ↦ absurd (ground arith)
      | inl (b, reserved) ↦
          let gives : (accept_on r l d now).1
              ≡ ok (record { datagram = tunnelled l d; buffer = b }) =
            rw (reserved, accept_on) refl in
          (
            ap (λ (y : AcceptedDatagram). y.datagram) (sym (ok-injective (sym gives ∙ h))),
            rw (reserved, accept_on) refl,
          )
    ]

accept_named-inv :
    (r : Registry) (l : Lease) (d : Datagram) (now : ℕ) (x : AcceptedDatagram)
    → (accept_named r l d now).1 ≡ ok x
    → (fits_tunnel r.limits l.spec.local_end.ip l.spec.remote_end.ip d.payload ≡ true)
      × (((l.has_sequence && leb d.sequence l.sequence) ≡ false)
          × (accept_named r l d now ≡ accept_on r l d now))
unfolding accept_named
accept_named-inv r l d now x h =
    elim (Bool-cases (fits_tunnel r.limits l.spec.local_end.ip l.spec.remote_end.ip d.payload)) [
      | inr large ↦ absurd (ground arith)
      | inl fits ↦ elim (Bool-cases (l.has_sequence && leb d.sequence l.sequence)) [
        | inl old ↦ absurd (ground arith)
        | inr new ↦ (fits, (new, rw (fits, new, accept_named) refl))
      ]
    ]

above : (b : Bool) (n m : ℕ) → (b && leb n m) ≡ false → b ≡ true → m < n
above b n m e f = ground arith

-- acceptDatagram takes a datagram only from the controller, up to the size limit, under a lease of the
-- flow that is in force, of the datagram's generation and nonce, and not expired, only with a sequence
-- above the lease's, and only if it fits the tunnel between the lease's addresses; what goes out has
-- these addresses and the payload, and the lease then has the datagram's sequence and time.
pub accept_datagram-Granted :
    (r : Registry) (id : Bytes) (d : Datagram) (now : ℕ) (x : AcceptedDatagram)
    → (accept_datagram r id d now).1 ≡ ok x
    → Granted r (accept_datagram r id d now).0 id d now x
unfolding accept_datagram
accept_datagram-Granted r id d now x h =
    let rest = λ (r2 : Registry) (l : Lease). accept_named r2 l d now in
    let named_by = λ (r2 : Registry). named_lease r2 d.flow_id d.generation d.lease_nonce now in
    let admitted = admit r id d.payload now in
    let (passed, step1) =
      then_call-inv admitted (λ (r2 : Registry). then_with (named_by r2) rest) x h in
    let a = admit-Admitted r id d.payload now passed in
    let r1 = admitted.0 in
    let outcome = λ (p : Registry × Outcome Error AcceptedDatagram). p.1 in
    let h1 = ap outcome (sym step1) ∙ h in
    let (l, (named, step2)) = then_with-inv (named_by r1) rest x h1 in
    let n = named_lease-Named r1 d.flow_id d.generation d.lease_nonce now l named in
    let r2 = (named_by r1).0 in
    let h2 = ap outcome (sym step2) ∙ h1 in
    let (fits, (new, step3)) = accept_named-inv r2 l d now x h2 in
    let (carried, kept) = accept_on-inv r2 l d now x (ap outcome (sym step3) ∙ h2) in
    let flows = λ (p : Registry × Outcome Error AcceptedDatagram). p.0.policy.flows in
    let limits = ap (λ (y : Registry). y.limits) n.same ∙ a.same_limits in
    record {
      lease = l;
      controls = a.controls;
      small = a.small;
      found = ap (λ (p : Policy). find_lease d.flow_id p.flows) (sym a.same_policy) ∙ n.found;
      live = ap (λ (y : Limits). is_expired y now l) (sym a.same_limits) ∙ n.live;
      right =
          ap (λ (p : Policy). is_lease_of p.active_generation d.generation d.lease_nonce l)
            (sym a.same_policy)
          ∙ n.right;
      newer = above l.has_sequence d.sequence l.sequence new;
      fits =
          ap (λ (y : Limits). fits_tunnel y l.spec.local_end.ip l.spec.remote_end.ip d.payload)
            (sym limits)
          ∙ fits;
      carried = carried;
      kept =
          ap (find_lease d.flow_id) (ap flows step1 ∙ (ap flows step2 ∙ (ap flows step3 ∙ kept)))
          ∙ subst
              (λ (i : Bytes).
                find_lease i (put_lease (used l d now) r2.policy.flows) ≡ some (used l d now))
              (same_text→eq l.spec.flow_id d.flow_id
                (find-flow_id d.flow_id r1.policy.flows l n.found))
              (find-put (used l d now) r2.policy.flows);
    }
