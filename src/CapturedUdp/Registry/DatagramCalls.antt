-- ===== src/CapturedUdp/Registry/DatagramCalls.antt =====
-- internal/capturedudp/registry.go: acceptDatagram and resolveReply, as moves of the policy.
use tachyon_core.Base.{
  ℕ, ◌≡◌, refl, sym, ◌∙◌, ap, subst, Bool, true, false, not, ◌||◌, ◌&&◌, List, [], ◌∷◌, some, arith,
  length, if◌then◌else◌, Bool-cases, Option-cases, inl, inr, ◌==◌, leb, ltb, ◌*◌,
}
use tachyon_core.Base.Bytes.{Bytes}
use tachyon_core.Base.Text.{same_text→eq}
use tachyon_core.Base.Outcome.{Outcome, ok, err, ok-injective}
use tachyon_core.CapturedUdp.Types.{Error, Limits, Lease, FlowSpec, refill, token, Datagram}
use tachyon_core.CapturedUdp.Registry.{Registry, Policy}
use tachyon_core.CapturedUdp.Registry.Control.{require_controller}
use tachyon_core.CapturedUdp.Registry.Flows.{find_lease, put_lease, is_lease_of, is_expired}
use tachyon_core.CapturedUdp.Registry.Leases.{length-delete_found, find-flow_id, find-InGeneration}
use tachyon_core.CapturedUdp.Registry.Policies.{PolicyStep}
use tachyon_core.CapturedUdp.Registry.Datagrams.{
  consume_data, admit, named_lease, fits_tunnel, accept_on, accept_named, then_with,
  accept_datagram, deliver_on, resolve_named, resolve_checked, resolve_reply,
}
use tachyon_core.CapturedUdp.Registry.Buffers.{reserve_buffer}
use tachyon_core.CapturedUdp.Types.{accepted_buffer, delivery_buffer}
use tachyon_core.Tgp.Tunnel.{TunnelDatagram, is_zero_identity}
use tachyon_core.CapturedUdp.Registry.Datagrams.{local_end_of, remote_end_of}
use tachyon_core.CapturedUdp.Registry.Flows.{same_end}
use tachyon_core.CapturedUdp.Registry.Calls.{
  CallStep, CallStep-refl, CallStep-trans, CallStep-same, CallStep-moved, CallStep-if, CallStep-of,
  refused-CallStep, then_call-CallStep,
}
use tachyon_core.CapturedUdp.Registry.FlowCalls.{put-PolicyStep, delete-PolicyStep}

admit-CallStep :
    (r : Registry) (id payload : Bytes) (now : ℕ) → CallStep r (admit r id payload now).0
unfolding admit consume_data
admit-CallStep r id payload now =
    CallStep-of r (require_controller r.access id) _ _ (λ e. CallStep-refl r)
      (λ u passed.
        CallStep-if r (ltb r.limits.datagram_size (length payload)) _ _ (λ e. refused-CallStep r)
          (λ e.
            CallStep-if r
              (ltb (refill now r.buckets.packet_bucket).tokens token
                || ltb (refill now r.buckets.byte_bucket).tokens
                    ((if length payload == 0 then 1 else length payload) * token))
              _ _ (λ f. CallStep-same r _ refl refl refl) (λ f. CallStep-same r _ refl refl refl)))

-- What naming a lease gives: a registry that moved as it may, and a lease of it, in force.
pub record Named (r r' : Registry) (flow_id : Bytes) (generation : ℕ) (nonce : Bytes) (now : ℕ)
    (l : Lease) : Type 0 where
  pub same : r' ≡ r
  pub found : find_lease flow_id r.policy.flows ≡ some l
  pub live : is_expired r.limits now l ≡ false
  pub right : is_lease_of r.policy.active_generation generation nonce l ≡ true

named_lease-CallStep :
    (r : Registry) (flow_id : Bytes) (generation : ℕ) (nonce : Bytes) (now : ℕ)
    → CallStep r (named_lease r flow_id generation nonce now).0
unfolding named_lease
named_lease-CallStep r flow_id generation nonce now =
    elim (Option-cases (find_lease flow_id r.policy.flows)) [
      | inl missing ↦ rw (missing, named_lease) (refused-CallStep r)
      | inr (l, found) ↦
          rw (found, named_lease)
            (CallStep-if r (is_expired r.limits now l) _ _
              (λ old.
                CallStep-moved r _ refl refl
                  (delete-PolicyStep r.limits r.access.controller_alive r.policy l.spec.flow_id))
              (λ fresh.
                CallStep-if r (not (is_lease_of r.policy.active_generation generation nonce l)) _ _
                  (λ e. refused-CallStep r) (λ e. CallStep-refl r)))
    ]

pub named_lease-Named :
    (r : Registry) (flow_id : Bytes) (generation : ℕ) (nonce : Bytes) (now : ℕ) (l : Lease)
    → (named_lease r flow_id generation nonce now).1 ≡ ok l
    → Named r (named_lease r flow_id generation nonce now).0 flow_id generation nonce now l
unfolding named_lease
named_lease-Named r flow_id generation nonce now l e =
    elim (Option-cases (find_lease flow_id r.policy.flows)) [
      | inl missing ↦ absurd (ground arith)
      | inr (x, found) ↦ elim (Bool-cases (is_expired r.limits now x)) [
        | inl old ↦ absurd (ground arith)
        | inr fresh ↦
            elim (Bool-cases (is_lease_of r.policy.active_generation generation nonce x)) [
              | inr other ↦ absurd (ground arith)
              | inl right ↦
                  let gives : (named_lease r flow_id generation nonce now).1 ≡ ok x =
                    rw (found, fresh, right, named_lease) refl in
                  let same : x ≡ l = ok-injective (sym gives ∙ e) in
                  rw (found, fresh, right, named_lease)
                    (subst (λ (y : Lease). Named r r flow_id generation nonce now y) same
                      (record { same = refl; found = found; live = fresh; right = right }))
            ]
      ]
    ]

some_left : (id : Bytes) (ls : List Lease) (l : Lease) → find_lease id ls ≡ some l → ls ≡ [] → ⊥
unfolding find_lease
some_left id [] l e h = ground arith
some_left id (x ∷ xs) l e h = ground arith

-- A lease that was found is put back, changed but for its flow and generation.
used-PolicyStep :
    (limits : Limits) (alive : Bool) (p : Policy) (id : Bytes) (l used : Lease)
    → find_lease id p.flows ≡ some l
    → used.spec ≡ l.spec
    → PolicyStep limits alive p (record p { flows = put_lease used p.flows })
used-PolicyStep limits alive p id l used found same = put-PolicyStep limits alive p used (λ h.
    let flow : l.spec.flow_id ≡ id =
      same_text→eq l.spec.flow_id id (find-flow_id id p.flows l found) in
    (
      ap (λ (x : FlowSpec). x.generation) same
          ∙ find-InGeneration p.active_generation id p.flows l found h.in_force,
      (
        λ z. some_left id p.flows l found (h.idle z),
        rw same (
            omega (
              arith,
              h.few,
              length-delete_found l.spec.flow_id p.flows l
                  (subst (λ (i : Bytes). find_lease i p.flows ≡ some l) (sym flow) found),
            )),
      ),
    ))

accept_named-CallStep :
    (r : Registry) (id : Bytes) (l : Lease) (d : Datagram) (now : ℕ)
    → find_lease id r.policy.flows ≡ some l
    → CallStep r (accept_named r l d now).0
unfolding accept_named accept_on
accept_named-CallStep r id l d now found =
    CallStep-if r (not (fits_tunnel r.limits l.spec.local_end.ip l.spec.remote_end.ip d.payload)) _
      _ (λ e. refused-CallStep r)
      (λ e.
        CallStep-if r (l.has_sequence && leb d.sequence l.sequence) _ _ (λ f. refused-CallStep r)
          (λ f.
            CallStep-of r (reserve_buffer r.limits r.accounts accepted_buffer (length d.payload)).1
              _ _ (λ x. refused-CallStep r)
              (λ buffer made.
                CallStep-moved r _ refl refl
                  (used-PolicyStep r.limits r.access.controller_alive r.policy id l _ found refl))))

deliver_on-CallStep :
    (r : Registry) (id : Bytes) (l : Lease) (d : TunnelDatagram) (now : ℕ)
    → find_lease id r.policy.flows ≡ some l
    → CallStep r (resolve_named r l d now).0
unfolding resolve_named deliver_on
deliver_on-CallStep r id l d now found =
    CallStep-if r
      (not (same_end (local_end_of d) l.spec.local_end)
        || not (same_end (remote_end_of d) l.spec.remote_end))
      _ _ (λ e. refused-CallStep r)
      (λ e.
        CallStep-of r (reserve_buffer r.limits r.accounts delivery_buffer (length d.payload)).1 _ _
          (λ x. refused-CallStep r)
          (λ buffer made.
            CallStep-moved r _ refl refl
              (used-PolicyStep r.limits r.access.controller_alive r.policy id l _ found refl)))

-- A call that goes on with the lease that was named.
then_with-CallStep {ℓ κ} :
    {A : Type ℓ} {B : Type κ} (r r1 : Registry) (o : Outcome Error A)
    (f : Registry → A → Registry × Outcome Error B)
    → CallStep r r1
    → ((a : A) → o ≡ ok a → CallStep r1 (f r1 a).0)
    → CallStep r (then_with (r1, o) f).0
then_with-CallStep r r1 (err e) f first rest = first
then_with-CallStep r r1 (ok a) f first rest = CallStep-trans r r1 (f r1 a).0 first (rest a refl)

named_call-CallStep {ℓ} :
    {B : Type ℓ} (r : Registry) (flow_id : Bytes) (generation : ℕ) (nonce : Bytes) (now : ℕ)
    (f : Registry → Lease → Registry × Outcome Error B)
    → ((r1 : Registry) (l : Lease)
        → find_lease flow_id r1.policy.flows ≡ some l
        → CallStep r1 (f r1 l).0)
    → CallStep r (then_with (named_lease r flow_id generation nonce now) f).0
named_call-CallStep r flow_id generation nonce now f rest =
    let named = named_lease r flow_id generation nonce now in
    then_with-CallStep r named.0 named.1 f (named_lease-CallStep r flow_id generation nonce now)
      (λ l e.
        let n = named_lease-Named r flow_id generation nonce now l e in
        rest named.0 l (
          subst (λ (x : Registry). find_lease flow_id x.policy.flows ≡ some l) (sym n.same)
            n.found))

pub accept_datagram-CallStep :
    (r : Registry) (id : Bytes) (d : Datagram) (now : ℕ) → CallStep r (accept_datagram r id d now).0
unfolding accept_datagram
accept_datagram-CallStep r id d now =
    let admitted = admit r id d.payload now in
    then_call-CallStep r admitted.0 admitted.1 _ (admit-CallStep r id d.payload now) (λ u e.
      named_call-CallStep admitted.0 d.flow_id d.generation d.lease_nonce now
        (λ r2 l. accept_named r2 l d now)
        (λ r2 l found. accept_named-CallStep r2 d.flow_id l d now found))

pub resolve_reply-CallStep :
    (r : Registry) (id : Bytes) (d : TunnelDatagram) (now : ℕ)
    → CallStep r (resolve_reply r id d now).0
unfolding resolve_reply resolve_checked
resolve_reply-CallStep r id d now =
    let admitted = admit r id d.payload now in
    let r1 = admitted.0 in
    then_call-CallStep r r1 admitted.1 _ (admit-CallStep r id d.payload now) (λ u e.
      CallStep-if r1 (is_zero_identity d.identity) _ _ (λ x. refused-CallStep r1)
        (λ x.
          CallStep-if r1 (not (fits_tunnel r1.limits d.local_ip d.remote_ip d.payload)) _ _
            (λ y. refused-CallStep r1)
            (λ y.
              named_call-CallStep r1 d.identity.flow_id d.identity.generation d.identity.lease_nonce
                now (λ r2 l. resolve_named r2 l d now)
                (λ r2 l found. deliver_on-CallStep r2 d.identity.flow_id l d now found))))
