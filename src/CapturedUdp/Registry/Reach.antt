-- ===== src/CapturedUdp/Registry/Reach.antt =====
-- internal/capturedudp/registry.go: what holds of a registry and the buffers that are out, whatever is
-- called, by whom and in whatever order.
use tachyon_core.Base.{ℕ, ◌≡◌, Bool, Option}
use tachyon_core.Base.Bytes.{Bytes}
use tachyon_core.CapturedUdp.Types.{FlowSpec, Transaction}
use tachyon_core.CapturedUdp.Registry.{Registry}
use tachyon_core.CapturedUdp.Registry.Control.{
  new_transport_attachment, attach_transport, detach_transport, authenticate, disconnect_controller,
  close_registry,
}
use tachyon_core.CapturedUdp.Registry.Generations.{
  prepare_generation, commit_generation, abort_generation, disable_generation,
}
use tachyon_core.CapturedUdp.Registry.Flows.{open_flow, close_flow, expire_flows}
use tachyon_core.CapturedUdp.Registry.GenerationCalls.{
  prepare_generation-CallStep, commit_generation-CallStep, abort_generation-CallStep,
  disable_generation-CallStep, expire_flows-CallStep,
}
use tachyon_core.CapturedUdp.Registry.FlowCalls.{open_flow-CallStep, close_flow-CallStep}
use tachyon_core.CapturedUdp.Registry.Lawful.{LawfulStep, CallStep-LawfulStep}
use tachyon_core.CapturedUdp.Registry.Accesses.{
  new_transport_attachment-LawfulStep, attach_transport-LawfulStep, detach_transport-LawfulStep,
}
use tachyon_core.CapturedUdp.Registry.Controllers.{
  authenticate-LawfulStep, disconnect_controller-LawfulStep, close_registry-LawfulStep,
}
use tachyon_core.CapturedUdp.Registry.Reservations.{
  new_transport_attachment-Untouched, attach_transport-Untouched, detach_transport-Untouched,
  authenticate-Untouched, disconnect_controller-Untouched, close_registry-Untouched,
  expire_flows-Untouched, prepare_generation-Untouched, commit_generation-Untouched,
  abort_generation-Untouched, disable_generation-Untouched, open_flow-Untouched,
  close_flow-Untouched,
}

-- One call that hands out and takes back no buffer.
pub data Call : Type 0 where
  new_attachment : Bool → Option Bytes → Call
  attaches : ℕ → Option Bytes → Call
  detaches : ℕ → Call
  authenticates : ℕ → Bytes → Option Bytes → ℕ → Call
  disconnects : Bytes → ℕ → Call
  closes : Call
  prepares : Bytes → ℕ → Option Bytes → ℕ → Call
  commits aborts : Bytes → Transaction → ℕ → Call
  disables : Bytes → ℕ → ℕ → Call
  opens_flow : Bytes → FlowSpec → Option Bytes → ℕ → Call
  closes_flow : Bytes → ℕ → Bytes → Bytes → ℕ → Call
  reaps : ℕ → Call

abbrev pub call : Registry → Call → Registry
call r (new_attachment verified random) = (new_transport_attachment r verified random).0
call r (attaches pointer random) = (attach_transport r pointer random).0
call r (detaches pointer) = (detach_transport r pointer).0
call r (authenticates pointer session_token random now) =
    (authenticate r pointer session_token random now).0
call r (disconnects id pointer) = (disconnect_controller r id pointer).0
call r closes = close_registry r
call r (prepares id generation random now) = (prepare_generation r id generation random now).0
call r (commits id t now) = (commit_generation r id t now).0
call r (aborts id t now) = (abort_generation r id t now).0
call r (disables id generation now) = (disable_generation r id generation now).0
call r (opens_flow id spec random now) = (open_flow r id spec random now).0
call r (closes_flow id generation flow_id nonce now) =
    (close_flow r id generation flow_id nonce now).0
call r (reaps now) = expire_flows r now

pub call-LawfulStep : (r : Registry) (c : Call) → LawfulStep r (call r c)
call-LawfulStep r (new_attachment verified random) =
    new_transport_attachment-LawfulStep r verified random
call-LawfulStep r (attaches pointer random) = attach_transport-LawfulStep r pointer random
call-LawfulStep r (detaches pointer) = detach_transport-LawfulStep r pointer
call-LawfulStep r (authenticates pointer session_token random now) =
    authenticate-LawfulStep r pointer session_token random now
call-LawfulStep r (disconnects id pointer) = disconnect_controller-LawfulStep r id pointer
call-LawfulStep r closes = close_registry-LawfulStep r
call-LawfulStep r (prepares id generation random now) =
    CallStep-LawfulStep r _ (prepare_generation-CallStep r id generation random now)
call-LawfulStep r (commits id t now) =
    CallStep-LawfulStep r _ (commit_generation-CallStep r id t now)
call-LawfulStep r (aborts id t now) = CallStep-LawfulStep r _ (abort_generation-CallStep r id t now)
call-LawfulStep r (disables id generation now) =
    CallStep-LawfulStep r _ (disable_generation-CallStep r id generation now)
call-LawfulStep r (opens_flow id spec random now) =
    CallStep-LawfulStep r _ (open_flow-CallStep r id spec random now)
call-LawfulStep r (closes_flow id generation flow_id nonce now) =
    CallStep-LawfulStep r _ (close_flow-CallStep r id generation flow_id nonce now)
call-LawfulStep r (reaps now) = CallStep-LawfulStep r _ (expire_flows-CallStep r now)

pub call-Untouched : (r : Registry) (c : Call) → (call r c).accounts ≡ r.accounts
call-Untouched r (new_attachment verified random) =
    new_transport_attachment-Untouched r 0 verified random
call-Untouched r (attaches pointer random) = attach_transport-Untouched r pointer random
call-Untouched r (detaches pointer) = detach_transport-Untouched r pointer
call-Untouched r (authenticates pointer session_token random now) =
    authenticate-Untouched r pointer session_token random now
call-Untouched r (disconnects id pointer) = disconnect_controller-Untouched r pointer id
call-Untouched r closes = close_registry-Untouched r
call-Untouched r (prepares id generation random now) =
    prepare_generation-Untouched r id now generation random
call-Untouched r (commits id t now) = commit_generation-Untouched r id now t
call-Untouched r (aborts id t now) = abort_generation-Untouched r id now t
call-Untouched r (disables id generation now) = disable_generation-Untouched r id now generation
call-Untouched r (opens_flow id spec random now) = open_flow-Untouched r id now spec random
call-Untouched r (closes_flow id generation flow_id nonce now) =
    close_flow-Untouched r id now generation flow_id nonce
call-Untouched r (reaps now) = expire_flows-Untouched r now
