-- ===== src/Tgp/Pacer.antt =====
-- internal/tgp/pacer.go: TokenBucketPacer. Times and the interval are nanoseconds; the float64 rate
-- and the interval that is derived from it come from outside, as a pair.
mod Tests
use tachyon_core.Base.{
  ℕ, zero, suc, ◌+◌, ◌-◌, ◌*◌, ◌≤◌, ◌<◌, ◌≡◌, refl, List, [], ◌∷◌, Option, none, some, length, ltb,
  if◌then◌else◌, arith, Bool, get_or, subst, Bool-cases, Option-cases, inl, inr, sym, ◌∙◌,
  some-injective, true, false,
}
use native.Mathlib.Nat.{suc-add}

-- A rate in packets per second, as Go computes with it.
pub record Rate : Type 0 where
  pub positive : Bool
  pub interval : ℕ

pub record Pacer : Type 0 where
  pub rate : Rate
  pub last : ℕ

pub new_pacer : Rate → Rate → ℕ → Pacer
new_pacer default_rate rate now = record {
  rate = if rate.positive then rate else default_rate;
  last = now;
}

pub set_rate : Rate → Pacer → Pacer
set_rate rate p = if rate.positive then record p { rate = rate } else p

-- One round of the loop of Consume: a token, or the time to wait.
pub data Round : Type 0 where
  issued : Pacer → Round
  waits : ℕ → Round

pub try_consume : Pacer → ℕ → Round
try_consume p now =
    let next = p.last + p.rate.interval in
    if ltb now next then waits (next - now) else issued (record p { last = now })

-- What a call of Consume that returns leaves: the clock's reading at which it returned, the pacer,
-- and the readings still to come.
pub record Token : Type 0 where
  pub at : ℕ
  pub pacer : Pacer
  pub later : List ℕ

-- Consume, over the clock's readings up to the end of the context.
pub consume : Pacer → List ℕ → Option Token
consume p [] = none
consume p (now ∷ later) =
    let rest = consume p later in
    elim (try_consume p now) [
      | issued p' ↦ some (record { at = now; pacer = p'; later = later })
      | waits w ↦ rest
    ]

-- The clock's readings at which `count` calls in a row return.
pub issue_times : ℕ → Pacer → List ℕ → List ℕ
issue_times zero p clock = []
issue_times (suc count) p clock = elim (consume p clock) [
  | none ↦ []
  | some t ↦ t.at ∷ issue_times count t.pacer t.later
]

not_early : (now next : ℕ) → ltb now next ≡ false → next ≤ now
not_early now next e = ground arith

-- A call returns an interval after the last time that the pacer kept, and keeps its own.
consume-spaced :
    (p : Pacer) (clock : List ℕ) (t : Token)
    → consume p clock ≡ some t
    → (p.last + p.rate.interval ≤ t.at) × ((t.pacer.last ≡ t.at) × (t.pacer.rate ≡ p.rate))
unfolding consume try_consume
consume-spaced p [] t e = absurd (ground arith)
consume-spaced p (now ∷ rest) t e = elim (Bool-cases (ltb now (p.last + p.rate.interval))) [
  | inl early ↦
      let waited : consume p (now ∷ rest) ≡ consume p rest =
        rw (early, consume, try_consume) refl in
      consume-spaced p rest t (sym waited ∙ e)
  | inr due ↦
      let made : consume p (now ∷ rest)
          ≡ some (record { at = now; pacer = record p { last = now }; later = rest }) =
        rw (due, consume, try_consume) refl in
      subst
        (λ (x : Token).
          (p.last + p.rate.interval ≤ x.at) × ((x.pacer.last ≡ x.at) × (x.pacer.rate ≡ p.rate)))
        (some-injective (sym made ∙ e)) (not_early now (p.last + p.rate.interval) due, (refl, refl))
]

-- Each element is at least `gap` after the one before it.
abbrev pub Spaced : ℕ → ℕ → List ℕ → Type 0
Spaced gap prev [] = Unit
Spaced gap prev (t ∷ ts) = (prev + gap ≤ t) × Spaced gap t ts

issue_times-Spaced :
    (count : ℕ) (p : Pacer) (clock : List ℕ)
    → Spaced p.rate.interval p.last (issue_times count p clock)
unfolding issue_times
issue_times-Spaced zero p clock = tt
issue_times-Spaced (suc count) p clock = elim (Option-cases (consume p clock)) [
  | inl none_left ↦ rw (none_left, issue_times) tt
  | inr (t, got) ↦
      let (gap, (kept, same)) = consume-spaced p clock t got in
      let rest = issue_times-Spaced count t.pacer t.later in
      rw (got, issue_times)
        (
          gap,
          subst (λ (last : ℕ). Spaced p.rate.interval last (issue_times count t.pacer t.later)) kept
              (subst
                (λ (r : Rate). Spaced r.interval t.pacer.last (issue_times count t.pacer t.later))
                same rest),
        )
]

Spaced-first :
    (gap prev : ℕ) (ts : List ℕ) (i : ℕ)
    → Spaced gap prev ts
    → i < length ts
    → prev + (i + 1) * gap ≤ get_or ts i 0
Spaced-first gap prev [] i s h = elim h [ ]
Spaced-first gap prev (t ∷ ts) zero (g, s) h = omega arith
Spaced-first gap prev (t ∷ ts) (suc i) (g, s) h =
    omega (arith, Spaced-first gap t ts i s (omega arith))

Spaced-apart :
    (gap prev : ℕ) (ts : List ℕ) (i k : ℕ)
    → Spaced gap prev ts
    → i + k < length ts
    → get_or ts i 0 + k * gap ≤ get_or ts (i + k) 0
Spaced-apart gap prev [] i k s h = elim h [ ]
Spaced-apart gap prev (t ∷ ts) zero zero (g, s) h = omega arith
Spaced-apart gap prev (t ∷ ts) zero (suc k) (g, s) h =
    let step : zero + suc k ≡ suc k = omega arith in
    rw step (omega (arith, Spaced-first gap t ts k s (omega arith)))
Spaced-apart gap prev (t ∷ ts) (suc i) k (g, s) h =
    rw (suc-add i k) (Spaced-apart gap t ts i k s (omega (arith, suc-add i k)))

-- With the rate left alone, and whatever the clock reads in between, the k-th call of Consume after
-- another returns at a reading of the clock that is at least k intervals after that other one's: no
-- idle time is saved up for a burst.
pub issue_times_apart :
    (count : ℕ) (p : Pacer) (clock : List ℕ) (i k : ℕ)
    → i + k < length (issue_times count p clock)
    → get_or (issue_times count p clock) i 0 + k * p.rate.interval
      ≤ get_or (issue_times count p clock) (i + k) 0
issue_times_apart count p clock i k h =
    Spaced-apart p.rate.interval p.last (issue_times count p clock) i k
      (issue_times-Spaced count p clock) h
