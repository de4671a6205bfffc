-- ===== src/CapturedUdp/Registry/Reservations.antt =====
-- internal/capturedudp/registry.go: which calls touch the accounts of the buffers.
use tachyon_core.Base.{ℕ, ◌≡◌, refl, ◌∙◌, Bool, Option, arith}
use tachyon_core.Base.Bytes.{Bytes}
use tachyon_core.Base.Outcome.{Outcome, ok, err}
use tachyon_core.CapturedUdp.Types.{Error, Transaction, FlowSpec}
use tachyon_core.CapturedUdp.Registry.{Registry}
use tachyon_core.CapturedUdp.Registry.Control.{
  new_transport_attachment, attach_transport, detach_transport, authenticate, disconnect_controller,
  close_registry, close_open, revoke_controller,
}
use tachyon_core.CapturedUdp.Registry.Generations.{
  consume_control, as_controller, then_call, prepare_locked, prepare_generation, commit_locked,
  commit_generation, abort_locked, abort_generation, disable_locked, disable_generation,
}
use tachyon_core.CapturedUdp.Registry.Flows.{
  expire_flows, open_locked, open_checked, open_flow, close_locked, close_flow,
}

-- Nothing but the accounts is looked at.
abbrev pub Untouched : Registry → Registry → Type 0
Untouched r r' = r'.accounts ≡ r.accounts

as_controller-Untouched :
    (r : Registry) (id : Bytes) (now : ℕ) → Untouched r (as_controller r id now).0
unfolding as_controller consume_control
as_controller-Untouched r id now = ground arith

prepare_locked-Untouched :
    (r : Registry) (generation : ℕ) (random : Option Bytes)
    → Untouched r (prepare_locked r generation random).0
unfolding prepare_locked
prepare_locked-Untouched r generation random = ground arith

commit_locked-Untouched : (r : Registry) (t : Transaction) → Untouched r (commit_locked r t).0
unfolding commit_locked
commit_locked-Untouched r t = ground arith

open_checked-Untouched :
    (r : Registry) (spec : FlowSpec) (random : Option Bytes) (now : ℕ)
    → Untouched r (open_checked r spec random now).0
unfolding open_checked open_locked expire_flows
open_checked-Untouched r spec random now = ground arith

abort_locked-Untouched : (r : Registry) (t : Transaction) → Untouched r (abort_locked r t).0
unfolding abort_locked
abort_locked-Untouched r t = ground arith

disable_locked-Untouched :
    (r : Registry) (generation : ℕ) → Untouched r (disable_locked r generation).0
unfolding disable_locked
disable_locked-Untouched r generation = ground arith

close_locked-Untouched :
    (r : Registry) (generation : ℕ) (flow_id nonce : Bytes)
    → Untouched r (close_locked r generation flow_id nonce).0
unfolding close_locked
close_locked-Untouched r generation flow_id nonce = ground arith

then_call-Untouched {ℓ} :
    {A : Type ℓ} (r r1 : Registry) (o : Outcome Error (Unit {0}))
    (f : Registry → Registry × Outcome Error A)
    → Untouched r r1
    → Untouched r1 (f r1).0
    → Untouched r (then_call (r1, o) f).0
then_call-Untouched r r1 (err e) f first rest = first
then_call-Untouched r r1 (ok u) f first rest = rest ∙ first

module _ (r : Registry) (id : Bytes) (now : ℕ) where
  started-Untouched {ℓ} :
      {A : Type ℓ} (f : Registry → Registry × Outcome Error A)
      → ((r1 : Registry) → Untouched r1 (f r1).0)
      → Untouched r (then_call (as_controller r id now) f).0
  started-Untouched f rest =
      let started = as_controller r id now in
      then_call-Untouched r started.0 started.1 f (as_controller-Untouched r id now)
        (rest started.0)

  pub prepare_generation-Untouched :
      (generation : ℕ) (random : Option Bytes)
      → Untouched r (prepare_generation r id generation random now).0
  unfolding prepare_generation
  prepare_generation-Untouched generation random =
      started-Untouched (λ r1. prepare_locked r1 generation random)
        (λ r1. prepare_locked-Untouched r1 generation random)

  pub commit_generation-Untouched : (t : Transaction) → Untouched r (commit_generation r id t now).0
  unfolding commit_generation
  commit_generation-Untouched t =
      started-Untouched (λ r1. commit_locked r1 t) (λ r1. commit_locked-Untouched r1 t)

  pub abort_generation-Untouched : (t : Transaction) → Untouched r (abort_generation r id t now).0
  unfolding abort_generation
  abort_generation-Untouched t =
      started-Untouched (λ r1. abort_locked r1 t) (λ r1. abort_locked-Untouched r1 t)

  pub disable_generation-Untouched :
      (generation : ℕ) → Untouched r (disable_generation r id generation now).0
  unfolding disable_generation
  disable_generation-Untouched generation =
      started-Untouched (λ r1. disable_locked r1 generation)
        (λ r1. disable_locked-Untouched r1 generation)

  pub open_flow-Untouched :
      (spec : FlowSpec) (random : Option Bytes) → Untouched r (open_flow r id spec random now).0
  unfolding open_flow
  open_flow-Untouched spec random =
      started-Untouched (λ r1. open_checked r1 spec random now)
        (λ r1. open_checked-Untouched r1 spec random now)

  pub close_flow-Untouched :
      (generation : ℕ) (flow_id nonce : Bytes)
      → Untouched r (close_flow r id generation flow_id nonce now).0
  unfolding close_flow
  close_flow-Untouched generation flow_id nonce =
      started-Untouched (λ r1. close_locked r1 generation flow_id nonce)
        (λ r1. close_locked-Untouched r1 generation flow_id nonce)

module _ (r : Registry) (pointer : ℕ) where
  pub new_transport_attachment-Untouched :
      (verified : Bool) (random : Option Bytes)
      → Untouched r (new_transport_attachment r verified random).0
  unfolding new_transport_attachment
  new_transport_attachment-Untouched verified random = ground arith

  pub attach_transport-Untouched :
      (random : Option Bytes) → Untouched r (attach_transport r pointer random).0
  unfolding attach_transport
  attach_transport-Untouched random = ground arith

  pub detach_transport-Untouched : Untouched r (detach_transport r pointer).0
  unfolding detach_transport revoke_controller
  detach_transport-Untouched = ground arith

  pub authenticate-Untouched :
      (session_token : Bytes) (random : Option Bytes) (now : ℕ)
      → Untouched r (authenticate r pointer session_token random now).0
  unfolding authenticate
  authenticate-Untouched session_token random now = ground arith

  pub disconnect_controller-Untouched :
      (id : Bytes) → Untouched r (disconnect_controller r id pointer).0
  unfolding disconnect_controller revoke_controller
  disconnect_controller-Untouched id = ground arith

pub close_registry-Untouched : (r : Registry) → Untouched r (close_registry r)
unfolding close_registry close_open revoke_controller
close_registry-Untouched r = ground arith

pub expire_flows-Untouched : (r : Registry) (now : ℕ) → Untouched r (expire_flows r now)
unfolding expire_flows
expire_flows-Untouched r now = refl
