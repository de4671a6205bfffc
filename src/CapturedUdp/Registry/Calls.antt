-- ===== src/CapturedUdp/Registry/Calls.antt =====
-- internal/capturedudp/registry.go: a move of the policy, and how the moves of a call join to one.
use tachyon_core.Base.{
  ℕ, ◌≡◌, refl, sym, ◌∙◌, subst, Bool, true, false, arith, if◌then◌else◌, Bool-cases, inl, inr, ltb,
}
use tachyon_core.Base.Bytes.{Bytes}
use tachyon_core.Base.Outcome.{Outcome, ok, err, Outcome-cases}
use tachyon_core.CapturedUdp.Types.{Error, Limits, refill, token}
use tachyon_core.CapturedUdp.Registry.{Registry, Access, count_rejected}
use tachyon_core.CapturedUdp.Registry.Control.{require_controller}
use tachyon_core.CapturedUdp.Registry.Generations.{consume_control, as_controller, then_call}
use tachyon_core.CapturedUdp.Registry.Policies.{PolicyStep, PolicyStep-refl, PolicyStep-trans}

-- A call leaves the limits and the access alone, and moves the policy as it may.
pub record CallStep (r r' : Registry) : Type 0 where
  pub same_limits : r'.limits ≡ r.limits
  pub same_access : r'.access ≡ r.access
  pub moves : PolicyStep r.limits r.access.controller_alive r.policy r'.policy

pub CallStep-trans : (a b c : Registry) → CallStep a b → CallStep b c → CallStep a c
CallStep-trans a b c f g = record {
  same_limits = g.same_limits ∙ f.same_limits;
  same_access = g.same_access ∙ f.same_access;
  moves = PolicyStep-trans a.limits a.access.controller_alive a.policy b.policy c.policy f.moves (
      subst (λ (x : Access). PolicyStep a.limits x.controller_alive b.policy c.policy) f.same_access
        (subst (λ (l : Limits). PolicyStep l b.access.controller_alive b.policy c.policy)
          f.same_limits g.moves));
}

-- A registry that differs in its buckets, accounts and counters only.
pub CallStep-same :
    (r r' : Registry)
    → r'.limits ≡ r.limits
    → r'.access ≡ r.access
    → r'.policy ≡ r.policy
    → CallStep r r'
CallStep-same r r' l a p = record {
  same_limits = l;
  same_access = a;
  moves =
      subst (PolicyStep r.limits r.access.controller_alive r.policy) (sym p)
        (PolicyStep-refl r.limits r.access.controller_alive r.policy);
}

pub CallStep-refl : (r : Registry) → CallStep r r
CallStep-refl r = CallStep-same r r refl refl refl

-- A registry with a policy that moved as it may.
pub CallStep-moved :
    (r r' : Registry)
    → r'.limits ≡ r.limits
    → r'.access ≡ r.access
    → PolicyStep r.limits r.access.controller_alive r.policy r'.policy
    → CallStep r r'
CallStep-moved r r' l a p = record { same_limits = l; same_access = a; moves = p }

abbrev pub refused-CallStep : (r : Registry) → CallStep r (count_rejected r)
refused-CallStep r = CallStep-same r (count_rejected r) refl refl refl

consume_control-CallStep : (r : Registry) (now : ℕ) → CallStep r (consume_control r now).0
unfolding consume_control
consume_control-CallStep r now =
    elim (Bool-cases (ltb (refill now r.buckets.control_bucket).tokens token)) [
      | inl low ↦ rw (low, consume_control) (CallStep-same r _ refl refl refl)
      | inr high ↦ rw (high, consume_control) (CallStep-same r _ refl refl refl)
    ]

as_controller-CallStep :
    (r : Registry) (id : Bytes) (now : ℕ) → CallStep r (as_controller r id now).0
unfolding as_controller
as_controller-CallStep r id now = elim (Outcome-cases (require_controller r.access id)) [
  | inl (u, passed) ↦ rw (passed, as_controller) (consume_control-CallStep r now)
  | inr (e, refused) ↦ rw (refused, as_controller) (CallStep-refl r)
]

pub require_controller-alive :
    (a : Access) (id : Bytes) (u : Unit {0})
    → require_controller a id ≡ ok u
    → (a.closed ≡ false) × (a.controller_alive ≡ true)
unfolding require_controller
require_controller-alive a id u e = ground arith

as_controller-alive :
    (r : Registry) (id : Bytes) (now : ℕ) (u : Unit {0})
    → (as_controller r id now).1 ≡ ok u
    → r.access.controller_alive ≡ true
unfolding as_controller
as_controller-alive r id now u e = elim (Outcome-cases (require_controller r.access id)) [
  | inl (v, passed) ↦ (require_controller-alive r.access id v passed).1
  | inr (x, refused) ↦ absurd (ground arith)
]

-- A call, from what it does behind its start.
pub then_call-CallStep {ℓ} :
    {A : Type ℓ} (r r1 : Registry) (o : Outcome Error (Unit {0}))
    (f : Registry → Registry × Outcome Error A)
    → CallStep r r1
    → ((u : Unit {0}) → o ≡ ok u → CallStep r1 (f r1).0)
    → CallStep r (then_call (r1, o) f).0
then_call-CallStep r r1 (err e) f first rest = first
then_call-CallStep r r1 (ok u) f first rest = CallStep-trans r r1 (f r1).0 first (rest u refl)

pub controller_call-CallStep {ℓ} :
    {A : Type ℓ} (r : Registry) (id : Bytes) (now : ℕ) (f : Registry → Registry × Outcome Error A)
    → ((r1 : Registry) → r1.access.controller_alive ≡ true → CallStep r1 (f r1).0)
    → CallStep r (then_call (as_controller r id now) f).0
controller_call-CallStep r id now f rest =
    let started = as_controller r id now in
    let step = as_controller-CallStep r id now in
    then_call-CallStep r started.0 started.1 f step (λ u e. rest started.0 (
      subst (λ (a : Access). a.controller_alive ≡ true) (sym step.same_access)
        (as_controller-alive r id now u e)))

pub CallStep-if {ℓ} :
    {A : Type ℓ} (r : Registry) (b : Bool) (x y : Registry × Outcome Error A)
    → (b ≡ true → CallStep r x.0)
    → (b ≡ false → CallStep r y.0)
    → CallStep r (if b then x else y).0
CallStep-if r true x y f g = f refl
CallStep-if r false x y f g = g refl

pub CallStep-of {ℓ κ} :
    {A : Type ℓ} {B : Type κ} (r : Registry) (o : Outcome Error B)
    (x : Error → Registry × Outcome Error A) (y : B → Registry × Outcome Error A)
    → ((e : Error) → CallStep r (x e).0)
    → ((b : B) → o ≡ ok b → CallStep r (y b).0)
    → CallStep r (elim o as (λ _. Registry × Outcome Error A) [ err e ↦ x e | ok b ↦ y b ]).0
CallStep-of r (err e) x y f g = f e
CallStep-of r (ok b) x y f g = g b refl
