-- ===== src/CapturedUdp/Registry/Tests.antt =====
-- What the theorems on internal/capturedudp/registry.go say of that run.
use tachyon_core.Base.{◌≡◌, ◌≢◌, refl, [], some, arith, replicate}
use tachyon_core.CapturedUdp.Registry.{Accounts}
use tachyon_core.CapturedUdp.Registry.Buffers.{release_buffer}
use tachyon_core.CapturedUdp.Registry.Datagrams.{accept_datagram}
use tachyon_core.CapturedUdp.Registry.Release.{take_held}
use tachyon_core.CapturedUdp.Registry.Reach.{call, prepares, disables}
use tachyon_core.CapturedUdp.Registry.Desk.{here, next, calls, IsSafe}
use tachyon_core.CapturedUdp.Registry.Safety.{
  desk_of, reached-IsSafe, release_never_panics, generation_never_returns,
}
use tachyon_core.CapturedUdp.Registry.Granted.{Granted, accept_datagram-Granted}
use tachyon_core.CapturedUdp.Registry.Runs.{
  no_limits, fresh, fresh-new, id, committed, opened, step, committed-reached, datagram, buffer,
  accepted, sent, accepted-made, sent-reached, disabled, disabled-call,
}

reached-IsSafe_example : IsSafe sent
reached-IsSafe_example = reached-IsSafe no_limits fresh fresh-new sent sent-reached

first_held : take_held 0 sent.held ≡ some (buffer, [])
unfolding take_held
first_held = refl

release_never_panics_example :
    (a : Accounts) × (release_buffer sent.registry.accounts buffer ≡ some a)
release_never_panics_example =
    release_never_panics no_limits fresh fresh-new sent sent-reached 0 buffer [] first_held

-- Generation 5 is disabled, and then prepared again: to no end.
generation_never_returns_example :
    (call disabled (prepares id 5 (some (replicate 16 9)) 10)).policy.active_generation ≢ 5
generation_never_returns_example =
    generation_never_returns no_limits fresh fresh-new (desk_of disabled)
      (record { registry = call disabled (prepares id 5 (some (replicate 16 9)) 10); held = [] })
      (step (desk_of fresh) committed disabled (disables id 5 10) disabled-call committed-reached)
      (next here (calls (prepares id 5 (some (replicate 16 9)) 10) refl)) 5 (λ e. ground arith)
      (omega arith) (λ e. ground arith)

accept_datagram-Granted_example :
    Granted opened (accept_datagram opened id datagram 10).0 id datagram 10 accepted
accept_datagram-Granted_example =
    accept_datagram-Granted opened id datagram 10 accepted accepted-made
