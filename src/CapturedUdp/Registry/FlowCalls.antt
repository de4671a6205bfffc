-- ===== src/CapturedUdp/Registry/FlowCalls.antt =====
-- internal/capturedudp/registry.go: openFlow and closeFlow, as moves of the policy.
use tachyon_core.Base.{
  ℕ, ◌+◌, ◌≤◌, ◌≡◌, refl, Bool, false, not, ◌||◌, Option, none, some, arith, length, ◌==◌, leb,
}
use tachyon_core.Base.Bytes.{Bytes}
use tachyon_core.CapturedUdp.Types.{Limits, Lease, FlowSpec}
use tachyon_core.CapturedUdp.Registry.{Registry, Policy, read_random}
use tachyon_core.CapturedUdp.Registry.Flows.{
  find_lease, delete_lease, put_lease, expire_flows, open_locked, open_checked, open_flow,
  close_locked, close_flow, validate_flow_spec, has_lease, is_named,
}
use tachyon_core.CapturedUdp.Registry.Leases.{
  delete-Distinct, put-Distinct, delete-InGeneration, length-delete,
}
use tachyon_core.CapturedUdp.Registry.Policies.{IsConsistent, PolicyStep, flows-PolicyStep}
use tachyon_core.CapturedUdp.Registry.Calls.{
  CallStep, CallStep-refl, CallStep-trans, CallStep-moved, CallStep-if, CallStep-of,
  refused-CallStep, controller_call-CallStep,
}
use tachyon_core.CapturedUdp.Registry.GenerationCalls.{delete-nil, expire_flows-CallStep}

not_found : (o : Option Lease) → has_lease o ≡ false → o ≡ none
not_found none e = refl
not_found (some l) e = absurd (ground arith)

-- A lease of the generation in force is put in, with room for it.
pub put-PolicyStep :
    (limits : Limits) (alive : Bool) (p : Policy) (l : Lease)
    → (IsConsistent limits alive p
        → (l.spec.generation ≡ p.active_generation)
          × ((p.active_generation ≡ 0 → ⊥)
              × (length (delete_lease l.spec.flow_id p.flows) + 1 ≤ limits.flows_max)))
    → PolicyStep limits alive p (record p { flows = put_lease l p.flows })
put-PolicyStep limits alive p l good = flows-PolicyStep limits alive p (put_lease l p.flows) (λ h.
    let (current, (active, room)) = good h in
    (
      omega arith,
      (
        (current, delete-InGeneration p.active_generation l.spec.flow_id p.flows h.in_force),
        (put-Distinct l p.flows h.distinct, λ z. absurd (active z)),
      ),
    ))

is_current :
    (g active : ℕ) → (not (g == active) || active == 0) ≡ false → (g ≡ active) × (active ≡ 0 → ⊥)
is_current g active e = ground arith

fewer : (most n m : ℕ) → leb most n ≡ false → m ≤ n → m + 1 ≤ most
fewer most n m e le = ground arith

open_locked-CallStep :
    (r : Registry) (spec : FlowSpec) (random : Option Bytes) (now : ℕ)
    → CallStep r (open_locked r spec random now).0
unfolding open_locked
open_locked-CallStep r spec random now =
    let p = r.policy in
    CallStep-if r (not (spec.generation == p.active_generation) || p.active_generation == 0) _ _
      (λ e. refused-CallStep r)
      (λ current.
        CallStep-if r (has_lease (find_lease spec.flow_id p.flows)) _ _ (λ f. refused-CallStep r)
          (λ f.
            CallStep-if r (leb r.limits.flows_max (length p.flows)) _ _ (λ g. refused-CallStep r)
              (λ room.
                CallStep-of r (read_random random) _ _ (λ x. CallStep-refl r)
                  (λ nonce made.
                    let lease : Lease = record {
                      spec = spec;
                      nonce = nonce;
                      has_sequence = false;
                      sequence = 0;
                      last_activity = now;
                    } in
                    CallStep-moved r _ refl refl (
                      put-PolicyStep r.limits r.access.controller_alive p lease (λ h. (
                        (is_current spec.generation p.active_generation current).0,
                        (
                          (is_current spec.generation p.active_generation current).1,
                          fewer r.limits.flows_max (length p.flows)
                              (length (delete_lease spec.flow_id p.flows)) room
                              (length-delete spec.flow_id p.flows),
                        ),
                      )))))))

pub open_flow-CallStep :
    (r : Registry) (id : Bytes) (spec : FlowSpec) (random : Option Bytes) (now : ℕ)
    → CallStep r (open_flow r id spec random now).0
unfolding open_flow open_checked
open_flow-CallStep r id spec random now =
    controller_call-CallStep r id now (λ r1. open_checked r1 spec random now)
      (λ r1 live.
        CallStep-of r1 (validate_flow_spec spec) _ _ (λ e. refused-CallStep r1)
          (λ u valid.
            CallStep-trans r1 (expire_flows r1 now) _ (expire_flows-CallStep r1 now)
              (open_locked-CallStep (expire_flows r1 now) spec random now)))

pub delete-PolicyStep :
    (limits : Limits) (alive : Bool) (p : Policy) (id : Bytes)
    → PolicyStep limits alive p (record p { flows = delete_lease id p.flows })
delete-PolicyStep limits alive p id =
    flows-PolicyStep limits alive p (delete_lease id p.flows) (λ h. (
      omega (arith, h.few, length-delete id p.flows),
      (
        delete-InGeneration p.active_generation id p.flows h.in_force,
        (delete-Distinct id p.flows h.distinct, λ z. delete-nil id p.flows (h.idle z)),
      ),
    ))

pub close_flow-CallStep :
    (r : Registry) (id : Bytes) (generation : ℕ) (flow_id nonce : Bytes) (now : ℕ)
    → CallStep r (close_flow r id generation flow_id nonce now).0
unfolding close_flow close_locked
close_flow-CallStep r id generation flow_id nonce now =
    controller_call-CallStep r id now (λ r1. close_locked r1 generation flow_id nonce)
      (λ r1 live.
        let p = r1.policy in
        CallStep-if r1
          (not (is_named p.active_generation generation nonce (find_lease flow_id p.flows))) _ _
          (λ e. refused-CallStep r1)
          (λ e.
            CallStep-moved r1 _ refl refl
              (delete-PolicyStep r1.limits r1.access.controller_alive p flow_id)))
