-- ===== src/CapturedUdp/Registry/Generations.antt =====
-- internal/capturedudp/registry.go: the generations of the policy.
use tachyon_core.Base.{
  ℕ, ◌-◌, Bool, true, false, ◌&&◌, ◌||◌, not, [], Option, none, some, ltb, leb, ◌==◌, if◌then◌else◌,
}
use tachyon_core.Base.Bytes.{Bytes}
use tachyon_core.Base.Text.{same_text}
use tachyon_core.Base.Outcome.{Outcome, ok, err}
use tachyon_core.CapturedUdp.Types.{
  Error, invalid_generation, stale_generation, generation_not_active, transaction_active,
  unknown_transaction, rate_limit, Transaction, token, refill,
}
use tachyon_core.CapturedUdp.Registry.{plus, Registry, with_stats, count_rejected, read_random}
use tachyon_core.CapturedUdp.Registry.Control.{evict_flows, require_controller}

-- consumeControlLocked
unfoldable pub consume_control : Registry → ℕ → Registry × Outcome Error (Unit {0})
consume_control r now =
    let bucket = refill now r.buckets.control_bucket in
    let refilled = record r { buckets = record r.buckets { control_bucket = bucket } } in
    let stats = r.stats in
    if ltb bucket.tokens token
    then (
      with_stats refilled (record stats {
        control_rate_limited = plus stats.control_rate_limited 1;
        rejected = plus stats.rejected 1;
      }),
      err rate_limit,
    )
    else (
      record r {
        buckets = record r.buckets {
          control_bucket = record bucket { tokens = bucket.tokens - token };
        };
      },
      ok tt,
    )

-- The start of every call on the policy: the controller's identity, and its rate.
unfoldable pub as_controller : Registry → Bytes → ℕ → Registry × Outcome Error (Unit {0})
unfolding consume_control
as_controller r id now = elim (require_controller r.access id) [
  | err e ↦ (r, err e)
  | ok _ ↦ consume_control r now
]

-- A call that goes on if the start let it.
abbrev pub then_call {ℓ} :
    {A : Type ℓ}
    → Registry × Outcome Error (Unit {0})
    → (Registry → Registry × Outcome Error A)
    → Registry × Outcome Error A
then_call (r, err e) f = (r, err e)
then_call (r, ok _) f = f r

abbrev pub refuse {ℓ} : {A : Type ℓ} → Registry → Error → Registry × Outcome Error A
refuse r e = (count_rejected r, err e)

abbrev pub is_some_transaction : Option Transaction → Bool
is_some_transaction none = false
is_some_transaction (some t) = true

-- prepareGeneration, once the controller passed.
unfoldable pub prepare_locked : Registry → ℕ → Option Bytes → Registry × Outcome Error Transaction
prepare_locked r generation random =
    let p = r.policy in
    if generation == 0
    then refuse r invalid_generation
    else if is_some_transaction p.prepared
    then (r, err transaction_active)
    else if leb generation p.last_generation || generation == p.active_generation
    then refuse r stale_generation
    else elim (read_random random) [
      | err e ↦ (r, err e)
      | ok id ↦
          let t : Transaction = record { id = id; generation = generation } in
          (
            record r {
              policy = record p { prepared = some t };
              stats = record r.stats { generations_prepared = plus r.stats.generations_prepared 1 };
            },
            ok t,
          )
    ]

unfoldable pub prepare_generation :
    Registry → Bytes → ℕ → Option Bytes → ℕ → Registry × Outcome Error Transaction
unfolding prepare_locked
prepare_generation r id generation random now =
    then_call (as_controller r id now) (λ r'. prepare_locked r' generation random)

abbrev pub is_prepared : Option Transaction → Transaction → Bool
is_prepared none t = false
is_prepared (some p) t = same_text p.id t.id && p.generation == t.generation

unfoldable pub commit_locked : Registry → Transaction → Registry × Outcome Error (Unit {0})
commit_locked r t =
    if not (is_prepared r.policy.prepared t)
    then refuse r unknown_transaction
    else let evicted = evict_flows r in
      (
        record evicted {
          policy = record {
            prepared = none;
            active_generation = t.generation;
            last_generation = t.generation;
            flows = [];
          };
          stats = record evicted.stats {
            generations_committed = plus r.stats.generations_committed 1;
          };
        },
        ok tt,
      )

unfoldable pub commit_generation :
    Registry → Bytes → Transaction → ℕ → Registry × Outcome Error (Unit {0})
unfolding commit_locked
commit_generation r id t now = then_call (as_controller r id now) (λ r'. commit_locked r' t)

unfoldable pub abort_locked : Registry → Transaction → Registry × Outcome Error (Unit {0})
abort_locked r t = if not (is_prepared r.policy.prepared t) then refuse r unknown_transaction else (
  record r {
    policy = record r.policy { prepared = none };
    stats = record r.stats { generations_aborted = plus r.stats.generations_aborted 1 };
  },
  ok tt,
)

unfoldable pub abort_generation :
    Registry → Bytes → Transaction → ℕ → Registry × Outcome Error (Unit {0})
unfolding abort_locked
abort_generation r id t now = then_call (as_controller r id now) (λ r'. abort_locked r' t)

unfoldable pub disable_locked : Registry → ℕ → Registry × Outcome Error (Unit {0})
disable_locked r generation =
    if generation == 0 || not (generation == r.policy.active_generation)
    then refuse r generation_not_active
    else let evicted = evict_flows r in
      (
        record evicted {
          policy = record r.policy { prepared = none; active_generation = 0; flows = [] };
          stats = record evicted.stats {
            generations_disabled = plus r.stats.generations_disabled 1;
          };
        },
        ok tt,
      )

unfoldable pub disable_generation : Registry → Bytes → ℕ → ℕ → Registry × Outcome Error (Unit {0})
unfolding disable_locked
disable_generation r id generation now =
    then_call (as_controller r id now) (λ r'. disable_locked r' generation)
