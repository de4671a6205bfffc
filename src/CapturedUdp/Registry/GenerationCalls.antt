-- ===== src/CapturedUdp/Registry/GenerationCalls.antt =====
-- internal/capturedudp/registry.go: generations and the expiry of flows, as moves of the policy.
use tachyon_core.Base.{
  ℕ, ◌<◌, ◌≡◌, refl, subst, true, false, not, ◌||◌, List, [], Option, none, some, arith, Bool-cases,
  inl, inr, ◌==◌, leb, some-injective,
}
use tachyon_core.Base.Bytes.{Bytes}
use tachyon_core.CapturedUdp.Types.{Limits, Lease, Transaction}
use tachyon_core.CapturedUdp.Registry.{Registry, read_random}
use tachyon_core.CapturedUdp.Registry.Generations.{
  prepare_locked, prepare_generation, commit_locked, commit_generation, abort_locked,
  abort_generation, disable_locked, disable_generation, is_prepared, is_some_transaction,
}
use tachyon_core.CapturedUdp.Registry.Flows.{delete_lease, live_leases, expire_flows}
use tachyon_core.CapturedUdp.Registry.Leases.{live-Distinct, live-InGeneration, length-live}
use tachyon_core.CapturedUdp.Registry.Policies.{
  PolicyStep, flows-PolicyStep, prepared-PolicyStep, emptied-PolicyStep, committed-PolicyStep,
}
use tachyon_core.CapturedUdp.Registry.Calls.{
  CallStep, CallStep-refl, CallStep-moved, refused-CallStep, controller_call-CallStep, CallStep-if,
  CallStep-of,
}

later_than : (g last active : ℕ) → (leb g last || g == active) ≡ false → last < g
later_than g last active e = ground arith

prepare_locked-CallStep :
    (r : Registry) (generation : ℕ) (random : Option Bytes)
    → r.access.controller_alive ≡ true
    → CallStep r (prepare_locked r generation random).0
unfolding prepare_locked
prepare_locked-CallStep r generation random live =
    let p = r.policy in
    CallStep-if r (generation == 0) _ _ (λ e. refused-CallStep r)
      (λ e.
        CallStep-if r (is_some_transaction p.prepared) _ _ (λ f. CallStep-refl r)
          (λ f.
            CallStep-if r (leb generation p.last_generation || generation == p.active_generation) _
              _ (λ g. refused-CallStep r)
              (λ g.
                CallStep-of r (read_random random) _ _ (λ x. CallStep-refl r)
                  (λ id made. CallStep-moved r _ refl refl (
                    prepared-PolicyStep r.limits r.access.controller_alive p
                      (some (record { id = id; generation = generation }))
                      (λ t same.
                        subst (λ (t' : Transaction). p.last_generation < t'.generation)
                          (some-injective same)
                          (later_than generation p.last_generation p.active_generation g))
                      (λ dead. absurd (ground arith)))))))

is_prepared-inv :
    (p : Option Transaction) (t : Transaction)
    → is_prepared p t ≡ true
    → (u : Transaction) × ((p ≡ some u) × (u.generation ≡ t.generation))
is_prepared-inv none t e = absurd (ground arith)
is_prepared-inv (some u) t e = (u, (refl, ground arith))

commit_locked-CallStep :
    (r : Registry) (t : Transaction)
    → r.access.controller_alive ≡ true
    → CallStep r (commit_locked r t).0
unfolding commit_locked
commit_locked-CallStep r t live = elim (Bool-cases (is_prepared r.policy.prepared t)) [
  | inr e ↦ rw (e, commit_locked) (refused-CallStep r)
  | inl e ↦
      let (u, (found, same)) = is_prepared-inv r.policy.prepared t e in
      rw (e, commit_locked)
        (CallStep-moved r _ refl refl (
          subst
            (λ (g : ℕ).
              PolicyStep r.limits r.access.controller_alive r.policy (record {
                prepared = none;
                active_generation = g;
                last_generation = g;
                flows = [];
              }))
            same (committed-PolicyStep r.limits r.access.controller_alive r.policy u live found)))
]

abort_locked-CallStep : (r : Registry) (t : Transaction) → CallStep r (abort_locked r t).0
unfolding abort_locked
abort_locked-CallStep r t = elim (Bool-cases (is_prepared r.policy.prepared t)) [
  | inr e ↦ rw (e, abort_locked) (refused-CallStep r)
  | inl e ↦
      rw (e, abort_locked)
        (CallStep-moved r _ refl refl (
          prepared-PolicyStep r.limits r.access.controller_alive r.policy none
            (λ u f. absurd (ground arith)) (λ d. refl)))
]

disable_locked-CallStep :
    (r : Registry) (generation : ℕ) → CallStep r (disable_locked r generation).0
unfolding disable_locked
disable_locked-CallStep r generation =
    elim (Bool-cases (generation == 0 || not (generation == r.policy.active_generation))) [
      | inl e ↦ rw (e, disable_locked) (refused-CallStep r)
      | inr e ↦
          rw (e, disable_locked)
            (CallStep-moved r _ refl refl
              (emptied-PolicyStep r.limits r.access.controller_alive r.policy))
    ]

live-nil : (limits : Limits) (now : ℕ) (ls : List Lease) → ls ≡ [] → live_leases limits now ls ≡ []
unfolding live_leases
live-nil limits now ls e = rw e refl

pub delete-nil : (id : Bytes) (ls : List Lease) → ls ≡ [] → delete_lease id ls ≡ []
unfolding delete_lease
delete-nil id ls e = rw e refl

pub expire_flows-CallStep : (r : Registry) (now : ℕ) → CallStep r (expire_flows r now)
unfolding expire_flows
expire_flows-CallStep r now = CallStep-moved r _ refl refl (
    flows-PolicyStep r.limits r.access.controller_alive r.policy
      (live_leases r.limits now r.policy.flows)
      (λ h. (
        omega (arith, h.few, length-live r.limits now r.policy.flows),
        (
          live-InGeneration r.limits now r.policy.active_generation r.policy.flows h.in_force,
          (
            live-Distinct r.limits now r.policy.flows h.distinct,
            λ z. live-nil r.limits now r.policy.flows (h.idle z),
          ),
        ),
      )))

pub prepare_generation-CallStep :
    (r : Registry) (id : Bytes) (generation : ℕ) (random : Option Bytes) (now : ℕ)
    → CallStep r (prepare_generation r id generation random now).0
unfolding prepare_generation
prepare_generation-CallStep r id generation random now =
    controller_call-CallStep r id now (λ r'. prepare_locked r' generation random)
      (λ r' live. prepare_locked-CallStep r' generation random live)

pub commit_generation-CallStep :
    (r : Registry) (id : Bytes) (t : Transaction) (now : ℕ)
    → CallStep r (commit_generation r id t now).0
unfolding commit_generation
commit_generation-CallStep r id t now =
    controller_call-CallStep r id now (λ r'. commit_locked r' t)
      (λ r' live. commit_locked-CallStep r' t live)

pub abort_generation-CallStep :
    (r : Registry) (id : Bytes) (t : Transaction) (now : ℕ)
    → CallStep r (abort_generation r id t now).0
unfolding abort_generation
abort_generation-CallStep r id t now =
    controller_call-CallStep r id now (λ r'. abort_locked r' t)
      (λ r' live. abort_locked-CallStep r' t)

pub disable_generation-CallStep :
    (r : Registry) (id : Bytes) (generation now : ℕ)
    → CallStep r (disable_generation r id generation now).0
unfolding disable_generation
disable_generation-CallStep r id generation now =
    controller_call-CallStep r id now (λ r'. disable_locked r' generation)
      (λ r' live. disable_locked-CallStep r' generation)
