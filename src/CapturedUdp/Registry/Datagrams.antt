-- ===== src/CapturedUdp/Registry/Datagrams.antt =====
-- internal/capturedudp/registry.go: the datagrams that a controller hands in, and the replies that go
-- back to it.
use tachyon_core.Base.{
  ℕ, ◌-◌, ◌*◌, Bool, true, false, ◌&&◌, ◌||◌, not, none, some, ltb, leb, ◌==◌, if◌then◌else◌,
  length,
}
use tachyon_core.Base.Bytes.{Bytes}
use tachyon_core.Base.Outcome.{Outcome, ok, err}
use tachyon_core.Pidtrack.Flow.{Ip}
use tachyon_core.Tgp.Tunnel.{max_captured_payload, Identity, is_zero_identity, TunnelDatagram}
use tachyon_core.CapturedUdp.Types.{
  Error, unknown_flow, sequence_replay, datagram_too_large, missing_lease_identity, rate_limit,
  Limits, AddrPort, Lease, Datagram, accepted_buffer, delivery_buffer, BufferLease, token, refill,
}
use tachyon_core.CapturedUdp.Registry.{plus, Registry}
use tachyon_core.CapturedUdp.Registry.Control.{require_controller}
use tachyon_core.CapturedUdp.Registry.Generations.{then_call, refuse}
use tachyon_core.CapturedUdp.Registry.Buffers.{reserve_buffer}
use tachyon_core.CapturedUdp.Registry.Flows.{
  find_lease, delete_lease, put_lease, is_expired, is_lease_of, same_end,
}

-- consumeDataLocked; an empty payload is charged one byte.
unfoldable pub consume_data : Registry → ℕ → ℕ → Registry × Outcome Error (Unit {0})
consume_data r now size =
    let charge = (if size == 0 then 1 else size) * token in
    let packets = refill now r.buckets.packet_bucket in
    let bytes = refill now r.buckets.byte_bucket in
    let stats = r.stats in
    if ltb packets.tokens token || ltb bytes.tokens charge
    then (
      record r {
        buckets = record r.buckets { packet_bucket = packets; byte_bucket = bytes };
        stats = record stats {
          data_rate_limited = plus stats.data_rate_limited 1;
          rejected = plus stats.rejected 1;
        };
      },
      err rate_limit,
    )
    else (
      record r {
        buckets = record r.buckets {
          packet_bucket = record packets { tokens = packets.tokens - token };
          byte_bucket = record bytes { tokens = bytes.tokens - charge };
        };
      },
      ok tt,
    )

-- The start of both calls: the controller, the size, and the rate.
unfoldable pub admit : Registry → Bytes → Bytes → ℕ → Registry × Outcome Error (Unit {0})
unfolding consume_data
admit r id payload now = elim (require_controller r.access id) [
  | err e ↦ (r, err e)
  | ok _ ↦
      if ltb r.limits.datagram_size (length payload)
      then refuse r datagram_too_large
      else consume_data r now (length payload)
]

-- A lease that has expired is forgotten as it is met.
abbrev pub forget_expired : Registry → Lease → Registry
forget_expired r l = record r {
  policy = record r.policy { flows = delete_lease l.spec.flow_id r.policy.flows };
  stats = record r.stats { flows_expired = plus r.stats.flows_expired 1 };
}

-- The lease that a call names, or the refusal.
unfoldable pub named_lease : Registry → Bytes → ℕ → Bytes → ℕ → Registry × Outcome Error Lease
named_lease r flow_id generation nonce now = elim (find_lease flow_id r.policy.flows) [
  | none ↦ refuse r unknown_flow
  | some l ↦
      if is_expired r.limits now l
      then refuse (forget_expired r l) unknown_flow
      else if not (is_lease_of r.policy.active_generation generation nonce l)
      then refuse r unknown_flow
      else (r, ok l)
]

-- Does a payload fit the tunnel datagram between two addresses?
abbrev pub fits_tunnel : Limits → Ip → Ip → Bytes → Bool
fits_tunnel limits local_ip remote_ip payload =
    elim (max_captured_payload limits.tgp_datagram_size local_ip remote_ip) [
      | err e ↦ false
      | ok most ↦ leb (length payload) most
    ]

-- AcceptedDatagram and Delivery, with the buffer that their release gives back.
pub record AcceptedDatagram : Type 0 where
  pub datagram : TunnelDatagram
  pub buffer : BufferLease

pub record Delivery : Type 0 where
  pub identity : Identity
  pub payload : Bytes
  pub buffer : BufferLease

abbrev pub identity_of : Datagram → Identity
identity_of d = record {
  flow_id = d.flow_id;
  generation = d.generation;
  lease_nonce = d.lease_nonce;
}

abbrev pub tunnelled : Lease → Datagram → TunnelDatagram
tunnelled l d = record {
  identity = identity_of d;
  local_ip = l.spec.local_end.ip;
  local_port = l.spec.local_end.port;
  remote_ip = l.spec.remote_end.ip;
  remote_port = l.spec.remote_end.port;
  payload = d.payload;
}

-- The end of acceptDatagram: a buffer, and the lease's new sequence and time.
unfoldable pub accept_on :
    Registry → Lease → Datagram → ℕ → Registry × Outcome Error AcceptedDatagram
accept_on r l d now =
    let (accounts, outcome) =
      reserve_buffer r.limits r.accounts accepted_buffer (length d.payload) in
    elim outcome [
      | err e ↦ refuse r e
      | ok buffer ↦
          let used = record l { has_sequence = true; sequence = d.sequence; last_activity = now } in
          (
            record r {
              accounts = accounts;
              policy = record r.policy { flows = put_lease used r.policy.flows };
              stats = record r.stats { datagrams_accepted = plus r.stats.datagrams_accepted 1 };
            },
            ok (record { datagram = tunnelled l d; buffer = buffer }),
          )
    ]

unfoldable pub accept_named :
    Registry → Lease → Datagram → ℕ → Registry × Outcome Error AcceptedDatagram
unfolding accept_on
accept_named r l d now =
    if not (fits_tunnel r.limits l.spec.local_end.ip l.spec.remote_end.ip d.payload)
    then refuse r datagram_too_large
    else if l.has_sequence && leb d.sequence l.sequence
    then refuse r sequence_replay
    else accept_on r l d now

-- A call that goes on with what it found.
abbrev pub then_with {ℓ κ} :
    {A : Type ℓ} {B : Type κ}
    → Registry × Outcome Error A
    → (Registry → A → Registry × Outcome Error B)
    → Registry × Outcome Error B
then_with (r, err e) f = (r, err e)
then_with (r, ok a) f = f r a

-- acceptDatagram
unfoldable pub accept_datagram :
    Registry → Bytes → Datagram → ℕ → Registry × Outcome Error AcceptedDatagram
unfolding accept_named
accept_datagram r id d now = then_call (admit r id d.payload now) (λ r1.
    then_with (named_lease r1 d.flow_id d.generation d.lease_nonce now)
      (λ r2 l. accept_named r2 l d now))

abbrev pub local_end_of : TunnelDatagram → AddrPort
local_end_of d = record { ip = d.local_ip; port = d.local_port }

abbrev pub remote_end_of : TunnelDatagram → AddrPort
remote_end_of d = record { ip = d.remote_ip; port = d.remote_port }

unfoldable pub deliver_on :
    Registry → Lease → TunnelDatagram → ℕ → Registry × Outcome Error Delivery
deliver_on r l d now =
    let (accounts, outcome) =
      reserve_buffer r.limits r.accounts delivery_buffer (length d.payload) in
    elim outcome [
      | err e ↦ refuse r e
      | ok buffer ↦ (
        record r {
          accounts = accounts;
          policy = record r.policy {
            flows = put_lease (record l { last_activity = now }) r.policy.flows;
          };
          stats = record r.stats { replies_resolved = plus r.stats.replies_resolved 1 };
        },
        ok (record { identity = d.identity; payload = d.payload; buffer = buffer }),
      )
    ]

unfoldable pub resolve_named :
    Registry → Lease → TunnelDatagram → ℕ → Registry × Outcome Error Delivery
unfolding deliver_on
resolve_named r l d now =
    if not (same_end (local_end_of d) l.spec.local_end)
      || not (same_end (remote_end_of d) l.spec.remote_end)
    then refuse r unknown_flow
    else deliver_on r l d now

unfoldable pub resolve_checked : Registry → TunnelDatagram → ℕ → Registry × Outcome Error Delivery
unfolding resolve_named
resolve_checked r d now =
    if is_zero_identity d.identity
    then refuse r missing_lease_identity
    else if not (fits_tunnel r.limits d.local_ip d.remote_ip d.payload)
    then refuse r datagram_too_large
    else then_with
        (named_lease r d.identity.flow_id d.identity.generation d.identity.lease_nonce now)
        (λ r' l. resolve_named r' l d now)

-- resolveReply
unfoldable pub resolve_reply :
    Registry → Bytes → TunnelDatagram → ℕ → Registry × Outcome Error Delivery
unfolding resolve_checked
resolve_reply r id d now = then_call (admit r id d.payload now) (λ r'. resolve_checked r' d now)
