-- ===== src/CapturedUdp/Registry/Runs.antt =====
-- A run of internal/capturedudp/registry.go: a controller opens a flow in generation 5, and sends a
-- datagram or disables the generation.
use tachyon_core.Base.{ℕ, ◌≡◌, refl, sym, ap, true, false, [], ◌∷◌, none, some, replicate}
use tachyon_core.Base.Bytes.{Bytes}
use tachyon_core.Base.Outcome.{ok}
use tachyon_core.Pidtrack.Flow.{v4}
use tachyon_core.CapturedUdp.Types.{
  Limits, filled, normalized, check_limits, BufferLease, FlowSpec, Datagram, family_ipv4,
  accepted_buffer, Attachment, AttachmentState, attachment_new, attachment_attached, TokenBucket,
  Lease, Transaction, refill, new_token_bucket,
}
use tachyon_core.CapturedUdp.Registry.{
  Registry, Stats, Buckets, Policy, new_registry, empty_registry, read_random,
}
use tachyon_core.Base.Text.{same_text}
use tachyon_core.Tgp.Tunnel.{max_captured_payload}
use tachyon_core.Tgp.Wire.{normalize_max_datagram_size}
use tachyon_core.CapturedUdp.Registry.Control.{
  new_transport_attachment, attach_transport, check_attach, authenticate, check_authenticate,
  require_controller,
}
use tachyon_core.CapturedUdp.Registry.Generations.{
  as_controller, consume_control, prepare_generation, prepare_locked, commit_generation,
  commit_locked, disable_generation, disable_locked,
}
use tachyon_core.CapturedUdp.Registry.Flows.{
  open_flow, open_checked, open_locked, validate_flow_spec, expire_flows, live_leases, find_lease,
  delete_lease,
}
use tachyon_core.CapturedUdp.Registry.Datagrams.{
  accept_named, accept_on, named_lease, admit, consume_data, AcceptedDatagram, accept_datagram,
  tunnelled,
}
use tachyon_core.CapturedUdp.Registry.Buffers.{reserve_buffer, check_reserve}
use tachyon_core.CapturedUdp.Registry.Reach.{
  Call, call, new_attachment, attaches, authenticates, prepares, commits, opens_flow, disables,
}
use tachyon_core.CapturedUdp.Registry.Desk.{Desk, Reach, here, next, calls, accepts}
use tachyon_core.CapturedUdp.Registry.Safety.{desk_of}

abbrev pub no_limits : Limits
no_limits = record {
  flows_max = 0;
  tgp_datagram_size = 0;
  datagram_size = 0;
  buffered_bytes = 0;
  flow_ttl = 0;
  packets_per_second = 0;
  packet_burst = 0;
  bytes_per_second = 0;
  byte_burst = 0;
  control_ops_per_second = 0;
  control_burst = 0;
}

abbrev pub fresh : Registry
fresh = empty_registry (filled no_limits)

pub fresh-new : new_registry no_limits ≡ ok fresh
unfolding new_registry normalized check_limits
fresh-new = refl

abbrev pub id : Bytes
id = replicate 16 1

abbrev pub spec : FlowSpec
spec = record {
  flow_id = replicate 16 2;
  generation = 5;
  family = family_ipv4;
  local_end = record { ip = v4 10 0 0 2; port = 1000 };
  remote_end = record { ip = v4 10 0 0 3; port = 2000 };
}

abbrev pub attachment_of : AttachmentState → Attachment
attachment_of state = record { id = replicate 32 3; peer_verified = true; state = state }

abbrev pub made : Registry
made = record fresh {
  access = record fresh.access { attachments = attachment_of attachment_new ∷ [] };
}

abbrev pub attached : Registry
attached = record fresh {
  access = record fresh.access {
    attachments = attachment_of attachment_attached ∷ [];
    attachment = some 0;
    session_token = replicate 32 4;
    token_issued = true;
  };
}

abbrev pub bucket_of : ℕ → ℕ → ℕ → TokenBucket
bucket_of rate burst tokens = record { rate = rate; burst = burst; tokens = tokens; last = 10 }

-- The buckets, with the control bucket's tokens.
abbrev pub buckets_of : ℕ → ℕ → Buckets
buckets_of packet_tokens control_tokens = record {
  packet_bucket = bucket_of 20_000 2_000_000_000_000 packet_tokens;
  byte_bucket = bucket_of 33_554_432 8_388_608_000_000_000 8_388_608_000_000_000;
  control_bucket = bucket_of 2000 200_000_000_000 control_tokens;
}

-- A registry with a live controller.
abbrev pub controlled : ℕ → Policy → Stats → Registry
controlled control_tokens policy stats = record {
  limits = fresh.limits;
  access = record {
    closed = false;
    attachments = attachment_of attachment_attached ∷ [];
    attachment = some 0;
    session_token = replicate 32 0;
    token_issued = false;
    controller = id;
    controller_alive = true;
  };
  buckets = buckets_of 2_000_000_000_000 control_tokens;
  policy = policy;
  accounts = fresh.accounts;
  stats = stats;
}

abbrev pub connected_stats : Stats
connected_stats = record fresh.stats { controllers_connected = 1 }

abbrev pub connected : Registry
connected = controlled 200_000_000_000 fresh.policy connected_stats

abbrev pub transaction_of : ℕ → Transaction
transaction_of generation = record { id = replicate 16 5; generation = generation }

abbrev pub prepared_stats : Stats
prepared_stats = record connected_stats { generations_prepared = 1 }

abbrev pub prepared : Registry
prepared =
    controlled 199_000_000_000 (record fresh.policy { prepared = some (transaction_of 5) })
      prepared_stats

abbrev pub in_force : ℕ → Policy
in_force generation = record {
  prepared = none;
  active_generation = generation;
  last_generation = generation;
  flows = [];
}

abbrev pub committed_stats : Stats
committed_stats = record prepared_stats { generations_committed = 1 }

abbrev pub committed : Registry
committed = controlled 198_000_000_000 (in_force 5) committed_stats

abbrev pub lease : Lease
lease = record {
  spec = spec;
  nonce = replicate 16 6;
  has_sequence = false;
  sequence = 0;
  last_activity = 10;
}

abbrev pub opened_stats : Stats
opened_stats = record committed_stats { flows_opened = 1 }

abbrev pub opened : Registry
opened = controlled 197_000_000_000 (record (in_force 5) { flows = lease ∷ [] }) opened_stats

pub made-call : call fresh (new_attachment true (some (replicate 32 3))) ≡ made
unfolding new_transport_attachment read_random
made-call = refl

pub attached-call : call made (attaches 0 (some (replicate 32 4))) ≡ attached
unfolding attach_transport check_attach read_random
attached-call = refl

pub connected-call : call attached (authenticates 0 (replicate 32 4) (some id) 10) ≡ connected
unfolding authenticate check_authenticate read_random new_token_bucket same_text
connected-call = refl

pub prepared-call : call connected (prepares id 5 (some (replicate 16 5)) 10) ≡ prepared
unfolding prepare_generation prepare_locked as_controller consume_control require_controller
    read_random refill same_text
prepared-call = refl

pub committed-call : call prepared (commits id (transaction_of 5) 10) ≡ committed
unfolding commit_generation commit_locked as_controller consume_control require_controller refill
    same_text
committed-call = refl

pub opened-call : call committed (opens_flow id spec (some (replicate 16 6)) 10) ≡ opened
unfolding open_flow open_checked open_locked as_controller consume_control require_controller refill
    same_text validate_flow_spec expire_flows live_leases find_lease delete_lease read_random
opened-call = refl

-- A step from one registry with no buffer out to the next.
pub step :
    (s : Desk) (r r' : Registry) (c : Call)
    → call r c ≡ r'
    → Reach s (desk_of r)
    → Reach s (desk_of r')
step s r r' c e run = next run (calls c (ap desk_of (sym e)))

pub committed-reached : Reach (desk_of fresh) (desk_of committed)
committed-reached =
    step (desk_of fresh) prepared committed (commits id (transaction_of 5) 10) committed-call (
      step (desk_of fresh) connected prepared (prepares id 5 (some (replicate 16 5)) 10)
        prepared-call
        (step (desk_of fresh) attached connected (authenticates 0 (replicate 32 4) (some id) 10)
          connected-call
          (step (desk_of fresh) made attached (attaches 0 (some (replicate 32 4))) attached-call (
            step (desk_of fresh) fresh made (new_attachment true (some (replicate 32 3))) made-call
              here))))

pub opened-reached : Reach (desk_of fresh) (desk_of opened)
opened-reached =
    step (desk_of fresh) committed opened (opens_flow id spec (some (replicate 16 6)) 10)
      opened-call committed-reached

abbrev pub datagram : Datagram
datagram = record {
  flow_id = replicate 16 2;
  generation = 5;
  lease_nonce = replicate 16 6;
  sequence = 1;
  payload = 7 ∷ [];
}

abbrev pub buffer : BufferLease
buffer = record { bytes = 64; metadata = 160; direction = accepted_buffer }

abbrev pub accepted : AcceptedDatagram
accepted = record { datagram = tunnelled lease datagram; buffer = buffer }

abbrev pub sent_registry : Registry
sent_registry = (accept_datagram opened id datagram 10).0

abbrev pub sent : Desk
sent = record { registry = sent_registry; held = buffer ∷ [] }

pub accepted-made : (accept_datagram opened id datagram 10).1 ≡ ok accepted
unfolding max_captured_payload normalize_max_datagram_size accept_datagram accept_named accept_on
    named_lease admit consume_data require_controller refill same_text find_lease reserve_buffer
    check_reserve
accepted-made = refl

pub sent-reached : Reach (desk_of fresh) sent
sent-reached = next opened-reached (accepts id datagram 10 accepted accepted-made refl)

abbrev pub disabled : Registry
disabled =
    controlled 197_000_000_000 (record (in_force 5) { active_generation = 0 })
      (record committed_stats { generations_disabled = 1 })

pub disabled-call : call committed (disables id 5 10) ≡ disabled
unfolding disable_generation disable_locked as_controller consume_control require_controller refill
    same_text
disabled-call = refl
