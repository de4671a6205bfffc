-- ===== src/CapturedUdp/Registry/Flows.antt =====
-- internal/capturedudp/registry.go: the leases of flows, the datagrams that a controller hands in, and
-- the replies that go back to it.
use tachyon_core.Base.{
  ℕ, ◌+◌, ◌-◌, Bool, true, false, ◌&&◌, ◌||◌, not, List, [], ◌∷◌, Option, none, some, leb, ◌==◌,
  if◌then◌else◌, length, take, get_or,
}
use tachyon_core.Base.Bytes.{Bytes}
use tachyon_core.Base.Text.{same_text}
use tachyon_core.Base.Outcome.{Outcome, ok, err, ◌>>◌, reject}
use tachyon_core.Pidtrack.Flow.{Ip, no_ip, v4, v6, ip_eq}
use tachyon_core.Tgp.Tunnel.{all_zero, is_valid_ip, is_4}
use tachyon_core.CapturedUdp.Types.{
  Error, invalid_flow, unknown_flow, duplicate_flow, generation_not_active, flow_limit, Limits,
  AddrPort, AddressFamily, family_ipv4, family_ipv6, family_unknown, FlowSpec, FlowLease, Lease,
}
use tachyon_core.CapturedUdp.Registry.{plus, Registry, read_random}
use tachyon_core.CapturedUdp.Registry.Generations.{as_controller, then_call, refuse}

-- netip.Addr.Is6, and Is4In6.
abbrev is_6 : Ip → Bool
is_6 no_ip = false
is_6 (v4 a b c d) = false
is_6 (v6 bs) = true

abbrev is_4_in_6 : Ip → Bool
is_4_in_6 no_ip = false
is_4_in_6 (v4 a b c d) = false
is_4_in_6 (v6 bs) = all_zero (take 10 bs) && get_or bs 10 0 == 255 && get_or bs 11 0 == 255

abbrev is_family : AddressFamily → Ip → Bool
is_family family_ipv4 ip = is_4 ip
is_family family_ipv6 ip = is_6 ip && not (is_4_in_6 ip)
is_family family_unknown ip = false

-- netip.AddrPort.IsValid
abbrev is_valid_end : AddrPort → Bool
is_valid_end e = is_valid_ip e.ip

abbrev pub same_end : AddrPort → AddrPort → Bool
same_end a b = ip_eq a.ip b.ip && a.port == b.port

unfoldable pub validate_flow_spec : FlowSpec → Outcome Error (Unit {0})
validate_flow_spec spec = do
  let local_ip = spec.local_end.ip
  let remote_ip = spec.remote_end.ip
  reject (all_zero spec.flow_id || spec.generation == 0) invalid_flow
  reject
      (not (is_valid_end spec.local_end)
        || not (is_valid_end spec.remote_end)
        || spec.local_end.port == 0
        || spec.remote_end.port == 0)
      invalid_flow
  reject ((is_4 local_ip && not (is_4 remote_ip)) || (not (is_4 local_ip) && is_4 remote_ip))
      invalid_flow
  reject (not (is_family spec.family local_ip)) invalid_flow

unfoldable pub find_lease : Bytes → List Lease → Option Lease
find_lease id [] = none
find_lease id (l ∷ ls) = if same_text l.spec.flow_id id then some l else find_lease id ls

unfoldable pub delete_lease : Bytes → List Lease → List Lease
delete_lease id [] = []
delete_lease id (l ∷ ls) =
    if same_text l.spec.flow_id id then delete_lease id ls else l ∷ delete_lease id ls

abbrev pub put_lease : Lease → List Lease → List Lease
put_lease l ls = l ∷ delete_lease l.spec.flow_id ls

-- flowExpiredLocked, as a test.
abbrev pub is_expired : Limits → ℕ → Lease → Bool
is_expired limits now l = leb limits.flow_ttl (now - l.last_activity)

-- The loop of expireFlowsLocked: the leases that stay, and how many went.
unfoldable pub live_leases : Limits → ℕ → List Lease → List Lease
live_leases limits now [] = []
live_leases limits now (l ∷ ls) =
    let rest = live_leases limits now ls in if is_expired limits now l then rest else l ∷ rest

unfoldable pub expire_flows : Registry → ℕ → Registry
expire_flows r now =
    let kept = live_leases r.limits now r.policy.flows in
    record r {
      policy = record r.policy { flows = kept };
      stats = record r.stats {
        flows_expired = plus r.stats.flows_expired (length r.policy.flows - length kept);
      };
    }

abbrev pub has_lease : Option Lease → Bool
has_lease none = false
has_lease (some l) = true

-- openFlow, behind the expiry.
unfoldable pub open_locked :
    Registry → FlowSpec → Option Bytes → ℕ → Registry × Outcome Error FlowLease
open_locked r spec random now =
    let p = r.policy in
    if not (spec.generation == p.active_generation) || p.active_generation == 0
    then refuse r generation_not_active
    else if has_lease (find_lease spec.flow_id p.flows)
    then refuse r duplicate_flow
    else if leb r.limits.flows_max (length p.flows)
    then refuse r flow_limit
    else elim (read_random random) [
      | err e ↦ (r, err e)
      | ok nonce ↦
          let lease : Lease = record {
            spec = spec;
            nonce = nonce;
            has_sequence = false;
            sequence = 0;
            last_activity = now;
          } in
          (
            record r {
              policy = record p { flows = put_lease lease p.flows };
              stats = record r.stats { flows_opened = plus r.stats.flows_opened 1 };
            },
            ok (record {
              lease_flow = spec.flow_id;
              lease_generation = spec.generation;
              nonce = nonce;
              expires_at = now + r.limits.flow_ttl;
            }),
          )
    ]

unfoldable pub open_checked :
    Registry → FlowSpec → Option Bytes → ℕ → Registry × Outcome Error FlowLease
unfolding open_locked
open_checked r spec random now = elim (validate_flow_spec spec) [
  | err e ↦ refuse r e
  | ok _ ↦ open_locked (expire_flows r now) spec random now
]

unfoldable pub open_flow :
    Registry → Bytes → FlowSpec → Option Bytes → ℕ → Registry × Outcome Error FlowLease
unfolding open_checked
open_flow r id spec random now =
    then_call (as_controller r id now) (λ r'. open_checked r' spec random now)

-- A lease that a call names by flow, generation and nonce, in the generation in force.
abbrev pub is_lease_of : ℕ → ℕ → Bytes → Lease → Bool
is_lease_of active generation nonce l =
    generation == active && l.spec.generation == generation && same_text l.nonce nonce

abbrev pub is_named : ℕ → ℕ → Bytes → Option Lease → Bool
is_named active generation nonce none = false
is_named active generation nonce (some l) = is_lease_of active generation nonce l

unfoldable pub close_locked : Registry → ℕ → Bytes → Bytes → Registry × Outcome Error (Unit {0})
close_locked r generation flow_id nonce =
    let p = r.policy in
    if not (is_named p.active_generation generation nonce (find_lease flow_id p.flows))
    then refuse r unknown_flow
    else (
      record r {
        policy = record p { flows = delete_lease flow_id p.flows };
        stats = record r.stats { flows_closed = plus r.stats.flows_closed 1 };
      },
      ok tt,
    )

unfoldable pub close_flow :
    Registry → Bytes → ℕ → Bytes → Bytes → ℕ → Registry × Outcome Error (Unit {0})
unfolding close_locked
close_flow r id generation flow_id nonce now =
    then_call (as_controller r id now) (λ r'. close_locked r' generation flow_id nonce)
