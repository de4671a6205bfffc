-- ===== src/CapturedUdp/Registry.antt =====
-- internal/capturedudp/registry.go: the state of Registry. The struct's fields are grouped by what they are about. What a reader of
-- random bytes gives is an argument, and so is the clock's time.
pub mod Control
pub mod Generations
pub mod Buffers
pub mod Flows
pub mod Datagrams
pub mod Leases
pub mod Policies
pub mod Calls
pub mod GenerationCalls
pub mod FlowCalls
pub mod DatagramCalls
pub mod Lawful
pub mod Accesses
pub mod Controllers
pub mod Reservations
pub mod Draws
pub mod Balance
pub mod Release
pub mod Reach
pub mod Desk
pub mod Granted
pub mod Safety
pub mod Runs
mod Tests
use tachyon_core.Base.{
  ℕ, zero, suc, ◌+◌, ◌-◌, ◌%◌, ◌^◌, ◌≤◌, Bool, true, false, ◌&&◌, ◌||◌, not, List, [], ◌∷◌, ◌++◌,
  Option, none, some, length, replicate, get_elem?, set, ltb, leb, ◌==◌, if◌then◌else◌,
}
use tachyon_core.Base.Bytes.{Bytes}
use tachyon_core.Base.Text.{same_text}
use tachyon_core.Base.Outcome.{Outcome, ok, err, ◌>>=◌, ◌>>◌, reject}
use tachyon_core.Tgp.Tunnel.{all_zero}
use tachyon_core.CapturedUdp.Types.{
  Error, authentication, registry_closed, invalid_generation, stale_generation,
  generation_not_active, transport_not_verified, transport_mismatch, transport_active,
  controller_active, controller_revoked, transaction_active, unknown_transaction, rate_limit,
  attachment_stale, random_failed, Limits, normalized, Attachment, AttachmentState, attachment_new,
  attachment_attached, attachment_detached, attachment_closed, is_new, is_attached, Lease,
  Transaction, TokenBucket, token, new_token_bucket, refill,
}

-- The counters of Stats. They are uint64s.
pub record Stats : Type 0 where
  pub authentication_failures : ℕ
  pub controllers_connected : ℕ
  pub controller_disconnects : ℕ
  pub generations_prepared : ℕ
  pub generations_committed : ℕ
  pub generations_aborted : ℕ
  pub generations_disabled : ℕ
  pub flows_opened : ℕ
  pub flows_closed : ℕ
  pub flows_evicted : ℕ
  pub flows_expired : ℕ
  pub datagrams_accepted : ℕ
  pub replies_resolved : ℕ
  pub data_rate_limited : ℕ
  pub control_rate_limited : ℕ
  pub rejected : ℕ

abbrev pub plus : ℕ → ℕ → ℕ
plus n k = (n + k) % 2 ^ 64

-- Who is attached, and who controls: the attachments that were ever made, the one at hand by its
-- number, its token, and the controller.
pub record Access : Type 0 where
  pub closed : Bool
  pub attachments : List Attachment
  pub attachment : Option ℕ
  pub session_token : Bytes
  pub token_issued : Bool
  pub controller : Bytes
  pub controller_alive : Bool

pub record Buckets : Type 0 where
  pub packet_bucket : TokenBucket
  pub byte_bucket : TokenBucket
  pub control_bucket : TokenBucket

-- The policy: the generation that is prepared, the one in force (0 is none), the last one ever in
-- force, and the leases of the one in force.
pub record Policy : Type 0 where
  pub prepared : Option Transaction
  pub active_generation : ℕ
  pub last_generation : ℕ
  pub flows : List Lease

-- What the buffers that are out hold.
pub record Accounts : Type 0 where
  pub buffered_bytes : ℕ
  pub outstanding_objects : ℕ
  pub outstanding_metadata : ℕ
  pub accepted_objects : ℕ
  pub delivery_objects : ℕ
  pub accepted_metadata : ℕ
  pub delivery_metadata : ℕ

pub record Registry : Type 0 where
  pub limits : Limits
  pub access : Access
  pub buckets : Buckets
  pub policy : Policy
  pub accounts : Accounts
  pub stats : Stats

abbrev pub zero_id : Bytes
zero_id = replicate 16 0

abbrev pub zero_token : Bytes
zero_token = replicate 32 0

abbrev no_bucket : TokenBucket
no_bucket = record { rate = 0; burst = 0; tokens = 0; last = 0 }

abbrev pub empty_registry : Limits → Registry
empty_registry limits = record {
  limits = limits;
  access = record {
    closed = false;
    attachments = [];
    attachment = none;
    session_token = zero_token;
    token_issued = false;
    controller = zero_id;
    controller_alive = false;
  };
  buckets = record {
    packet_bucket = no_bucket;
    byte_bucket = no_bucket;
    control_bucket = no_bucket;
  };
  policy = record { prepared = none; active_generation = 0; last_generation = 0; flows = [] };
  accounts = record {
    buffered_bytes = 0;
    outstanding_objects = 0;
    outstanding_metadata = 0;
    accepted_objects = 0;
    delivery_objects = 0;
    accepted_metadata = 0;
    delivery_metadata = 0;
  };
  stats = record {
    authentication_failures = 0;
    controllers_connected = 0;
    controller_disconnects = 0;
    generations_prepared = 0;
    generations_committed = 0;
    generations_aborted = 0;
    generations_disabled = 0;
    flows_opened = 0;
    flows_closed = 0;
    flows_evicted = 0;
    flows_expired = 0;
    datagrams_accepted = 0;
    replies_resolved = 0;
    data_rate_limited = 0;
    control_rate_limited = 0;
    rejected = 0;
  };
}

unfoldable pub new_registry : Limits → Outcome Error Registry
new_registry limits = do checked ← normalized limits; ok (empty_registry checked)

-- readRandom, of what the reader gave: an error, or bytes that must not all be zero.
unfoldable pub read_random : Option Bytes → Outcome Error Bytes
read_random none = err random_failed
read_random (some bytes) = if all_zero bytes then err random_failed else ok bytes

abbrev pub with_access : Registry → Access → Registry
with_access r a = record r { access = a }

abbrev pub with_policy : Registry → Policy → Registry
with_policy r p = record r { policy = p }

abbrev pub with_stats : Registry → Stats → Registry
with_stats r s = record r { stats = s }

abbrev pub count_rejected : Registry → Registry
count_rejected r = with_stats r (record r.stats { rejected = plus r.stats.rejected 1 })

abbrev pub count_failure : Registry → Registry
count_failure r =
    with_stats r
      (record r.stats { authentication_failures = plus r.stats.authentication_failures 1 })
