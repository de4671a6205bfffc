-- ===== src/CapturedUdp/Registry/Safety.antt =====
-- internal/capturedudp/registry.go: what holds of a registry and its buffers after any run.
use tachyon_core.Base.{ℕ, ◌≤◌, ◌≡◌, ◌≢◌, refl, sym, ◌∙◌, subst, List, [], some, arith, inl, inr}
use tachyon_core.Base.Outcome.{ok, bind-inv, ok-injective}
use tachyon_core.CapturedUdp.Types.{
  Limits, BufferLease, normalized, Direction, accepted_buffer, delivery_buffer,
}
use tachyon_core.CapturedUdp.Registry.{Registry, Accounts, new_registry, empty_registry}
use tachyon_core.CapturedUdp.Registry.Buffers.{release_buffer, objects, metadata}
use tachyon_core.CapturedUdp.Registry.Lawful.{
  LawfulStep, LawfulStep-refl, LawfulStep-trans, empty-IsSecure,
}
use tachyon_core.CapturedUdp.Registry.Balance.{IsBalanced}
use tachyon_core.CapturedUdp.Registry.Release.{
  take_held, take_held-Taken, release_buffer-IsBalanced,
}
use tachyon_core.CapturedUdp.Registry.Desk.{
  Desk, Step, Reach, here, next, IsSafe, rebalanced, Step-LawfulStep, Step-IsBalanced, next,
}

Step-IsSafe : {s t : Desk} → Step s t → IsSafe s → IsSafe t
Step-IsSafe {s} {t} step h =
    let lawful = Step-LawfulStep step in
    record {
      lawful = lawful.keeps h.lawful;
      balanced =
          rebalanced t.held s.registry t.registry lawful.same_limits
            (Step-IsBalanced step h.balanced);
    }

Reach-IsSafe : {s t : Desk} → Reach s t → IsSafe s → IsSafe t
Reach-IsSafe here h = h
Reach-IsSafe (next r step) h = Step-IsSafe step (Reach-IsSafe r h)

pub Reach-LawfulStep : {s t : Desk} → Reach s t → LawfulStep s.registry t.registry
Reach-LawfulStep {s} here = LawfulStep-refl s.registry
Reach-LawfulStep {s = s} {t = u} (next {t = t} r step) =
    LawfulStep-trans s.registry t.registry u.registry (Reach-LawfulStep r) (Step-LawfulStep step)

-- The desk of a new registry.
abbrev pub desk_of : Registry → Desk
desk_of r = record { registry = r; held = [] }

empty_balance : (limits : Limits) → IsBalanced limits [] (empty_registry limits).accounts
empty_balance limits = record {
  leases = tt;
  bytes = refl;
  all_objects = refl;
  all_metadata = refl;
  by_direction = no_objects;
  meta_by_direction = no_metadata;
  few_bytes = omega arith;
  few_objects = λ d. omega arith;
  few_in_all = omega arith;
  few_metadata = omega arith;
  few_meta_by_direction = λ d. omega arith;
}
  where
    no_objects : (d : Direction) → objects (empty_registry limits).accounts d ≡ 0
    no_objects accepted_buffer = refl
    no_objects delivery_buffer = refl

    no_metadata : (d : Direction) → metadata (empty_registry limits).accounts d ≡ 0
    no_metadata accepted_buffer = refl
    no_metadata delivery_buffer = refl

empty-IsSafe : (limits : Limits) → IsSafe (desk_of (empty_registry limits))
empty-IsSafe limits = record {
  lawful = record {
    consistent = record {
      few = omega arith;
      in_force = tt;
      distinct = tt;
      idle = λ e. refl;
      ordered = omega arith;
      ahead = λ t e. absurd (ground arith);
      dead = λ e. (refl, refl);
    };
    secure = empty-IsSecure (empty_registry limits).access refl refl refl;
  };
  balanced = empty_balance limits;
}

new_registry-IsSafe :
    (limits : Limits) (r : Registry) → new_registry limits ≡ ok r → IsSafe (desk_of r)
unfolding new_registry
new_registry-IsSafe limits r e =
    let (checked, (passed, made)) = bind-inv (normalized limits) _ r e in
    subst (λ (x : Registry). IsSafe (desk_of x)) (ok-injective made) (empty-IsSafe checked)

-- After any run of calls, datagrams, replies and releases of a new registry: the leases are at most
-- as many as the limit, of the generation in force, and of distinct flows; with no generation in
-- force there is none; the prepared generation is later than every one before it; without a live
-- controller nothing is prepared or in force; a controller and an unused token need the attached,
-- verified attachment at hand, and never stand together; a closed registry has no controller and no
-- attachment; and the accounts, of bytes in all, and of objects and metadata in all and by direction,
-- are exactly what the buffers that are out hold, and each is within its limit.
pub reached-IsSafe :
    (limits : Limits) (r : Registry)
    → new_registry limits ≡ ok r
    → (t : Desk) → Reach (desk_of r) t
    → IsSafe t
reached-IsSafe limits r e t run = Reach-IsSafe run (new_registry-IsSafe limits r e)

-- After any run of a new registry, giving back any of the buffers that are out succeeds: the panic
-- on an underflow of the accounts is never met.
pub release_never_panics :
    (limits : Limits) (r : Registry)
    → new_registry limits ≡ ok r
    → (t : Desk) → Reach (desk_of r) t
    → (i : ℕ) (l : BufferLease) (rest : List BufferLease) → take_held i t.held ≡ some (l, rest)
    → (a : Accounts) × (release_buffer t.registry.accounts l ≡ some a)
release_never_panics limits r e t run i l rest taken =
    let b = (reached-IsSafe limits r e t run).balanced in
    let (a, (made, balanced)) =
      release_buffer-IsBalanced t.registry.limits t.held rest l t.registry.accounts b
        (take_held-Taken i t.held l rest b.leases taken) in
    (a, made)

-- In a run of a new registry, a generation other than 0 that is not in force and is at most the last
-- one that was committed never comes into force again.
pub generation_never_returns :
    (limits : Limits) (r : Registry)
    → new_registry limits ≡ ok r
    → (s t : Desk) → Reach (desk_of r) s
    → Reach s t
    → (g : ℕ) → g ≢ 0
    → g ≤ s.registry.policy.last_generation
    → s.registry.policy.active_generation ≢ g
    → t.registry.policy.active_generation ≢ g
generation_never_returns limits r e s t run on g nonzero old inactive back =
    let lawful = (reached-IsSafe limits r e s run).lawful in
    elim ((Reach-LawfulStep on).forward lawful) [
      | inl same ↦ inactive (sym same ∙ back)
      | inr (inl none_left) ↦ nonzero (sym back ∙ none_left)
      | inr (inr newer) ↦ absurd (omega (arith, old, newer, back))
    ]
