-- ===== src/Tgp/Session.antt =====
-- internal/tgp/session.go: the state of DatagramSession, its life cycle and its remote address.
-- What the session calls from outside is the parameter `World`. A context that ends while a call waits
-- is an answer of that call; the counters of SessionStats wrap at the width of their atomics.
pub mod Send
pub mod Receive
pub mod Race
pub mod Once
pub mod Sources
pub mod Streams
pub mod Arrival
pub mod Core
pub mod Moves
pub mod Rounds
pub mod Reach
mod Tests
use tachyon_core.Base.{
  ℕ, zero, suc, ◌+◌, ◌*◌, ◌/◌, ◌%◌, ◌^◌, Bool, true, false, not, List, [], ◌∷◌, ◌++◌, Option, none,
  some, ltb, ◌==◌, ◌&&◌, if◌then◌else◌,
}
use tachyon_core.Base.Bytes.{Bytes}
use tachyon_core.Base.Text.{same_text}
use tachyon_core.Base.Outcome.{Outcome, ok, err, ◌>>=◌, ◌>>◌, reject}
use tachyon_core.Tgp.Types.{
  Error, Addr, session_closed, migration_disabled, nil_address, remote_rejected, cancelled,
}
use tachyon_core.Tgp.Wire.{Aead, Codec, new_codec}
use tachyon_core.Tgp.Dedup.{DedupWindow, new_dedup_window, default_dedup_window}
use tachyon_core.Tgp.Fec.Frame.{FecOptions, is_enabled, validate_options, max_parity_shards}
use tachyon_core.Tgp.Fec.Coder.{FecCodec}
use tachyon_core.Tgp.Fec.Buffer.{Buffer, new_buffer}
use tachyon_core.Tgp.Fec.Adaptive.{Adaptive, Loss, new_adaptive, no_loss}

pub data SessionState : Type 0 where
  handshaking established migrating closing closed : SessionState

abbrev pub is_closed : SessionState → Bool
is_closed closed = true
is_closed _ = false

-- What the session asks of the transport, the pacer and its callbacks: whether the n-th attempt to
-- send gets its token from the pacer, whether the transport writes it, which addresses pass the
-- callback ValidateRemote, the transport's optional interfaces, the FEC codec, and whether closing
-- the transport succeeds.
pub record World : Type 0 where
  pub paces : ℕ → Bool
  pub writes : ℕ → Bool
  pub allows : Addr → Bool
  pub authorizes : Option (Addr → Bool)
  pub manages_return_path : Bool
  pub fec_codec : FecCodec
  pub closes : Bool

-- fecSendGroup, with the stream that keys it in the map.
pub record SendGroup : Type 0 where
  pub stream_id : ℕ
  pub group_id : ℕ
  pub created_at : ℕ
  pub payloads : List Bytes

-- A channel of the map of streams: its capacity, and what waits in it, oldest first.
pub record Stream : Type 0 where
  pub stream_id : ℕ
  pub capacity : ℕ
  pub queue : List Bytes

pub record HandshakeReplay : Type 0 where
  pub hello : Bytes
  pub ack : Bytes
  pub peer : Option Addr
  pub expires_at : ℕ
  pub remaining : ℕ

pub record SessionStats : Type 0 where
  pub bytes_sent : ℕ
  pub bytes_received : ℕ
  pub fec_recovered : ℕ
  pub oversized_datagrams : ℕ
  pub loss : Loss
  pub migrations : ℕ

-- What the transport was given: the datagrams written and the sources observed, newest first, and
-- how many attempts to send were made.
pub record Link : Type 0 where
  pub written : List (Bytes × Option Addr)
  pub observed : List (Option Addr)
  pub attempts : ℕ
  pub shut : Bool

pub record Session : Type 0 where
  pub id : Bytes
  pub link : Link
  pub send_codec : Codec
  pub recv_codec : Codec
  pub state : SessionState
  pub remote : Addr
  pub queue_size : ℕ
  pub streams : List Stream
  pub dedup : DedupWindow
  pub fec_rx : Buffer
  pub fec : FecOptions
  pub fec_adapt : Option Adaptive
  pub disable_migration : Bool
  pub handshake_replay : Option HandshakeReplay
  pub fec_tx : List SendGroup
  pub fec_group : ℕ
  pub packet_no : ℕ
  pub stats : SessionStats
  pub close_failed : Bool

-- atomic.Uint64.Add and atomic.Uint32.Add.
pub add64 : ℕ → ℕ → ℕ
add64 a b = (a + b) % 2 ^ 64

pub add32 : ℕ → ℕ → ℕ
add32 a b = (a + b) % 2 ^ 32

pub record SessionOptions : Type 0 where
  pub session_id : Bytes
  pub remote_addr : Option Addr
  pub send_aead : Outcome Error Aead
  pub recv_aead : Outcome Error Aead
  pub stream_queue : ℕ
  pub fec : FecOptions
  pub datagram_limit : ℕ
  pub disable_migration : Bool
  pub handshake_replay : Option HandshakeReplay

abbrev pub default_stream_queue : ℕ
default_stream_queue = 64

abbrev zero_stats : SessionStats
zero_stats = record {
  bytes_sent = 0;
  bytes_received = 0;
  fec_recovered = 0;
  oversized_datagrams = 0;
  loss = no_loss;
  migrations = 0;
}

-- The controller that NewDatagramSession makes if FEC is on and dynamic.
unfoldable pub adaptive_of : FecOptions → Option Adaptive
adaptive_of o =
    if is_enabled o && o.dynamic
    then some (
        new_adaptive o.data_shards
          (if ltb max_parity_shards o.data_shards then max_parity_shards else o.data_shards)
          o.adapt_window)
    else none

abbrev pub or_nil_address : Option Addr → Outcome Error Addr
or_nil_address none = err nil_address
or_nil_address (some a) = ok a

abbrev pub queue_size_of : SessionOptions → ℕ
queue_size_of opts = if opts.stream_queue == 0 then default_stream_queue else opts.stream_queue

-- What NewDatagramSession builds when its checks have passed.
abbrev pub built_session : SessionOptions → Addr → Codec → Codec → Session
built_session opts remote send recv = record {
  id = opts.session_id;
  link = record { written = []; observed = []; attempts = 0; shut = false };
  send_codec = send;
  recv_codec = recv;
  state = established;
  remote = remote;
  queue_size = queue_size_of opts;
  streams = record { stream_id = 0; capacity = queue_size_of opts; queue = [] } ∷ [];
  dedup = new_dedup_window default_dedup_window;
  fec_rx = new_buffer opts.fec.receive_groups;
  fec = opts.fec;
  fec_adapt = adaptive_of opts.fec;
  disable_migration = opts.disable_migration;
  handshake_replay = opts.handshake_replay;
  fec_tx = [];
  fec_group = 0;
  packet_no = 0;
  stats = zero_stats;
  close_failed = false;
}

-- NewDatagramSession over a transport that is there, with the default pacer and receive buffer.
unfoldable pub new_session : World → SessionOptions → Outcome Error Session
new_session world opts = do
  remote ← or_nil_address opts.remote_addr
  reject (not (world.allows remote)) remote_rejected
  validate_options opts.fec
  send ← new_codec opts.send_aead opts.datagram_limit
  recv ← new_codec opts.recv_aead opts.datagram_limit
  ok (built_session opts remote send recv)

-- Migrate; `context_ok` is whether the context has not ended.
unfoldable pub check_migrate : World → Session → Bool → Option Addr → Outcome Error Addr
check_migrate world s context_ok addr = do
  new_addr ← or_nil_address addr
  reject (not context_ok) cancelled
  reject (not (world.allows new_addr)) remote_rejected
  reject (is_closed s.state) session_closed
  reject s.disable_migration migration_disabled
  ok new_addr

unfoldable pub migrate : World → Session → Bool → Option Addr → Session × Outcome Error (Unit {0})
migrate world s context_ok addr = elim (check_migrate world s context_ok addr) [
  | err e ↦ (s, err e)
  | ok new_addr ↦ (
    record s {
      state = established;
      remote = new_addr;
      stats = record s.stats { migrations = add32 s.stats.migrations 1 };
    },
    ok tt,
  )
]

-- terminate, which sync.Once runs the first time only: the state is set to closed nowhere else.
unfoldable pub terminate : World → Session → Session
terminate world s = if is_closed s.state then s else record s {
  state = closed;
  link = record s.link { shut = true };
  close_failed = not world.closes;
}

-- sameAddr; an address that is nil equals only nil.
unfoldable pub same_addr : Option Addr → Option Addr → Bool
same_addr none none = true
same_addr none (some b) = false
same_addr (some a) none = false
same_addr (some a) (some b) = same_text a.network b.network && same_text a.text b.text

authorized : Option (Addr → Bool) → Addr → Bool
authorized none from = true
authorized (some authorizes) from = authorizes from

-- sourceEligibleForReplay: may a datagram from here touch the replay window?
unfoldable pub source_eligible : World → Session → Option Addr → Bool
unfolding authorized
source_eligible world s none = true
source_eligible world s (some from) =
    not (is_closed s.state)
    && (if same_addr (some s.remote) (some from)
        then true
        else if s.disable_migration
        then false
        else authorized world.authorizes from)

-- acceptSource, which migrates to a new source unless the transport keeps its own return path.
unfoldable pub accept_source : World → Session → Option Addr → Session × Bool
accept_source world s none = (s, true)
accept_source world s (some from) =
    if is_closed s.state
    then (s, false)
    else if same_addr (some s.remote) (some from)
    then (s, true)
    else if s.disable_migration
    then (s, false)
    else if world.manages_return_path
    then (s, true)
    else let (s', outcome) = migrate world s true (some from) in
      (s', elim outcome [ err e ↦ false | ok _ ↦ true ])
