-- ===== src/Pidtrack/Tracker.antt =====
-- internal/pidtrack/tracker.go: Tracker, the cache and the retries in front of the platform's lookup.
-- The provider's answers, the clock and the end of the context come from outside. Times are
-- nanoseconds. The map of the cache is a list, the newest entry first.
pub mod Laws
use tachyon_core.Base.{
  ℕ, zero, suc, ◌+◌, Bool, true, false, List, [], ◌∷◌, Option, some, none, ◌&&◌, if◌then◌else◌, ltb,
  ◌==◌, not,
}
use tachyon_core.Base.Bytes.{Bytes}
use tachyon_core.Base.Outcome.{Outcome, ok, err}
use tachyon_core.Pidtrack.Flow.{Ip, ip_eq, Transport, tcp, udp, FlowKey, ProcessInfo}

abbrev pub cache_ttl : ℕ
cache_ttl = 100_000_000

abbrev pub max_retries : ℕ
max_retries = 3

pub record CacheKey : Type 0 where
  pub transport : Transport
  pub local_ip : Ip
  pub local_port : ℕ

pub record CacheEntry : Type 0 where
  pub key : CacheKey
  pub info : ProcessInfo
  pub expires : ℕ

-- The cache of a Tracker.
abbrev pub Cache : Type 0
Cache = List CacheEntry

abbrev pub key_of : FlowKey → CacheKey
key_of flow = record {
  transport = flow.transport;
  local_ip = flow.local_ip;
  local_port = flow.local_port;
}

abbrev pub transport_eq : Transport → Transport → Bool
transport_eq tcp tcp = true
transport_eq tcp udp = false
transport_eq udp tcp = false
transport_eq udp udp = true

pub key_eq : CacheKey → CacheKey → Bool
key_eq k l =
    transport_eq k.transport l.transport
    && ip_eq k.local_ip l.local_ip
    && k.local_port == l.local_port

unfoldable pub cached : CacheKey → Cache → Option CacheEntry
cached k [] = none
cached k (e ∷ es) = if key_eq e.key k then some e else cached k es

pub evict_key : CacheKey → Cache → Cache
evict_key k [] = []
evict_key k (e ∷ es) = if key_eq e.key k then evict_key k es else e ∷ evict_key k es

pub evict : FlowKey → Cache → Cache
unfolding evict_key
evict flow cache = evict_key (key_of flow) cache

pub purge_expired : ℕ → Cache → Cache
purge_expired now [] = []
purge_expired now (e ∷ es) =
    if ltb e.expires now then purge_expired now es else e ∷ purge_expired now es

-- What one round of the loop meets: the end of the context in the wait before it, an error of the
-- provider, or the process.
pub data Attempt : Type 0 where
  cancelled failed : Attempt
  found : ProcessInfo → Attempt

pub data Cancelled : Type 0 where
  context_ended : Cancelled

-- The zero ProcessInfo.
abbrev pub no_process : ProcessInfo
no_process = record {
  pid = 0;
  parent_pid = 0;
  name = [];
  executable_path = [];
  sha256 = [];
  command_line = [];
  ancestors = [];
  tags = [];
}

-- `for i := 0; i < MaxRetries; i++`, over the rounds: there is no wait before the first. `none` is an
-- error in the last round.
unfoldable pub try_provider : Bool → ℕ → (ℕ → Attempt) → Outcome Cancelled (Option ProcessInfo)
try_provider is_first zero rounds = ok none
try_provider is_first (suc left) rounds =
    let rest = try_provider false left (λ i. rounds (suc i)) in
    elim (rounds 0) [
      | cancelled ↦ if is_first then rest else err context_ended
      | failed ↦ rest
      | found info ↦ ok (some info)
    ]

-- The slow path, which caches what it finds at the time `later`.
pub look_up : Cache → CacheKey → ℕ → (ℕ → Attempt) → Cache × Outcome Cancelled ProcessInfo
look_up cache key later rounds = elim (try_provider true max_retries rounds) [
  | err e ↦ (cache, err e)
  | ok none ↦ (cache, ok no_process)
  | ok (some info) ↦ (
    record { key = key; info = info; expires = later + cache_ttl } ∷ evict_key key cache,
    ok info,
  )
]

-- LookupFlow
pub lookup_flow : Cache → FlowKey → ℕ → ℕ → (ℕ → Attempt) → Cache × Outcome Cancelled ProcessInfo
unfolding look_up try_provider
lookup_flow cache flow now later rounds = elim (cached (key_of flow) cache) [
  | none ↦ look_up cache (key_of flow) later rounds
  | some e ↦
      if ltb now e.expires then (cache, ok e.info) else look_up cache (key_of flow) later rounds
]
