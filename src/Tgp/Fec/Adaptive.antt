-- ===== src/Tgp/Fec/Adaptive.antt =====
-- internal/tgp/fec_adaptive.go: how many parity shards a loss rate asks for.
-- The float64 loss rate is the fraction recovered / delivered, and a comparison with a decimal
-- constant is multiplied out: below 2^40 packets the rounded quotient and constant compare alike.
use tachyon_core.Base.{
  ℕ, ◌+◌, ◌*◌, ◌/◌, ◌≤◌, ◌<◌, ◌≡◌, Bool, true, false, ltb, leb, ◌==◌, if◌then◌else◌, arith,
}
use tachyon_core.Base.Outcome.{ok}
use native.Mathlib.Nat.{le_of_mul-le-mul_right, mul-le-mul_right}
use tachyon_core.Tgp.Fec.Frame.{validate_params, max_data_shards, max_parity_shards}

abbrev pub default_adapt_window : ℕ
default_adapt_window = 32

-- recovered and delivered.
pub record Loss : Type 0 where
  pub recovered : ℕ
  pub delivered : ℕ

pub record Adaptive : Type 0 where
  pub data_shards : ℕ
  pub max_parity : ℕ
  pub window : ℕ
  pub delivered : ℕ
  pub recovered : ℕ
  pub loss : Loss

abbrev pub no_loss : Loss
no_loss = record { recovered = 0; delivered = 1 }

unfoldable pub new_adaptive : ℕ → ℕ → ℕ → Adaptive
new_adaptive data_shards max_parity window =
    let d = if ltb data_shards 1 then 1 else data_shards in
    let p = if ltb max_parity 1 then d else max_parity in
    record {
      data_shards = d;
      max_parity = if ltb d p then d else p;
      window = if window == 0 then default_adapt_window else window;
      delivered = 0;
      recovered = 0;
      loss = no_loss;
    }

pub clamp_int : ℕ → ℕ → ℕ → ℕ
clamp_int value lo hi = if ltb value lo then lo else if ltb hi value then hi else value

-- `loss >= numerator / denominator`
at_least : Loss → ℕ → ℕ → Bool
at_least l numerator denominator = leb (numerator * l.delivered) (denominator * l.recovered)

pub parity_for_loss : Adaptive → Loss → ℕ
unfolding at_least clamp_int
parity_for_loss c l =
    if at_least l 10 100
    then c.max_parity
    else if at_least l 3 100
    then clamp_int ((c.data_shards + 1) / 2) 1 c.max_parity
    else clamp_int ((c.data_shards + 3) / 4) 1 c.max_parity

pub record Observation : Type 0 where
  pub parity : ℕ
  pub rate : Loss
  pub updated : Bool

unfoldable pub observe : Adaptive → ℕ → ℕ → Adaptive × Observation
observe c delivered recovered =
    if delivered == 0
    then (c, record { parity = 0; rate = no_loss; updated = false })
    else let c' = record c {
      delivered = c.delivered + delivered;
      recovered = c.recovered + recovered;
    } in
      if ltb c'.delivered c'.window
      then (c', record { parity = 0; rate = c.loss; updated = false })
      else let rate : Loss = record { recovered = c'.recovered; delivered = c'.delivered } in
        (
          record c' { delivered = 0; recovered = 0; loss = rate },
          record { parity = parity_for_loss c rate; rate = rate; updated = true },
        )

-- What `new_adaptive` makes: at least one data shard, and between one parity shard and as many.
pub record IsFit (c : Adaptive) : Type 0 where
  pub some_parity : 1 ≤ c.max_parity
  pub no_more : c.max_parity ≤ c.data_shards

pub new_adaptive-IsFit : (d p w : ℕ) → IsFit (new_adaptive d p w)
unfolding new_adaptive
new_adaptive-IsFit d p w = ground arith

parity_bounds :
    (c : Adaptive) (l : Loss)
    → IsFit c
    → (1 ≤ parity_for_loss c l) × (parity_for_loss c l ≤ c.max_parity)
unfolding parity_for_loss
parity_bounds c l f = ground arith

-- A controller with up to 32 data and 16 parity shards, at least one and no more parity than data,
-- asks only for counts that `validate_params` accepts, at every update and whatever was observed.
pub observe-valid :
    (c : Adaptive) (delivered recovered : ℕ)
    → IsFit c
    → c.data_shards ≤ max_data_shards
    → c.max_parity ≤ max_parity_shards
    → (observe c delivered recovered).1.updated ≡ true
    → validate_params c.data_shards (observe c delivered recovered).1.parity ≡ ok tt
unfolding observe validate_params
observe-valid c delivered recovered f d p u = ground (
  arith,
  parity_bounds c
      (record { recovered = c.recovered + recovered; delivered = c.delivered + delivered }) f,
)

-- A fraction that reaches 10%, or 3%, still does when it grows.
fraction_mono :
    (k ld lr md mr : ℕ) → 0 < ld → lr * md ≤ mr * ld → k * ld ≤ 100 * lr → k * md ≤ 100 * mr
fraction_mono k ld lr md mr p le h =
    le_of_mul-le-mul_right {m = k * md} {n = 100 * mr} {k = ld}
      (omega (arith, mul-le-mul_right md h)) p

-- For a controller with at least one data shard and one to as many parity shards, and rates over
-- at least one packet, a higher loss rate never asks for fewer parity shards.
pub parity_for_loss_mono :
    (c : Adaptive) (l m : Loss)
    → IsFit c
    → 0 < l.delivered
    → 0 < m.delivered
    → l.recovered * m.delivered ≤ m.recovered * l.delivered
    → parity_for_loss c l ≤ parity_for_loss c m
unfolding parity_for_loss
parity_for_loss_mono c l m f p q le = ground (
  arith,
  fraction_mono 10 l.delivered l.recovered m.delivered m.recovered p le,
  fraction_mono 3 l.delivered l.recovered m.delivered m.recovered p le,
)
