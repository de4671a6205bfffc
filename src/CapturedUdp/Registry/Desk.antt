-- ===== src/CapturedUdp/Registry/Desk.antt =====
-- internal/capturedudp/registry.go: a registry together with the buffers that are out. What is handed
-- out is released once, which sync.Once sees to.
use tachyon_core.Base.{ℕ, ◌≡◌, refl, sym, ◌∙◌, subst, List, ◌∷◌, some, arith, inl, some-injective}
use tachyon_core.Base.Bytes.{Bytes}
use tachyon_core.Base.Outcome.{ok, err}
use tachyon_core.Tgp.Tunnel.{TunnelDatagram}
use tachyon_core.CapturedUdp.Types.{Limits, Datagram, BufferLease}
use tachyon_core.CapturedUdp.Registry.{Registry, Accounts, Error}
use tachyon_core.CapturedUdp.Registry.Buffers.{release_buffer}
use tachyon_core.CapturedUdp.Registry.Datagrams.{
  AcceptedDatagram, Delivery, accept_datagram, resolve_reply,
}
use tachyon_core.CapturedUdp.Registry.DatagramCalls.{
  accept_datagram-CallStep, resolve_reply-CallStep,
}
use tachyon_core.CapturedUdp.Registry.Lawful.{IsLawful, LawfulStep, CallStep-LawfulStep}
use tachyon_core.CapturedUdp.Registry.Balance.{IsBalanced, reserve_buffer-IsBalanced}
use tachyon_core.CapturedUdp.Registry.Release.{
  take_held, take_held-Taken, release_buffer-IsBalanced,
}
use tachyon_core.CapturedUdp.Registry.Draws.{accept_datagram-Draws, resolve_reply-Draws}
use tachyon_core.CapturedUdp.Registry.Reach.{Call, call, call-LawfulStep, call-Untouched}

pub record Desk : Type 0 where
  pub registry : Registry
  pub held : List BufferLease

-- One step: a call, a datagram or a reply with its buffer or its refusal, or a buffer given back.
pub data Step (s t : Desk) : Type 0 where
  calls : (c : Call) → t ≡ record s { registry = call s.registry c } → Step s t
  accepts :
      (id : Bytes) (d : Datagram) (now : ℕ) (x : AcceptedDatagram)
      → (accept_datagram s.registry id d now).1 ≡ ok x
      → t ≡ record { registry = (accept_datagram s.registry id d now).0; held = x.buffer ∷ s.held }
      → Step s t
  refuses :
      (id : Bytes) (d : Datagram) (now : ℕ) (e : Error)
      → (accept_datagram s.registry id d now).1 ≡ err e
      → t ≡ record s { registry = (accept_datagram s.registry id d now).0 }
      → Step s t
  delivers :
      (id : Bytes) (d : TunnelDatagram) (now : ℕ) (x : Delivery)
      → (resolve_reply s.registry id d now).1 ≡ ok x
      → t ≡ record { registry = (resolve_reply s.registry id d now).0; held = x.buffer ∷ s.held }
      → Step s t
  drops :
      (id : Bytes) (d : TunnelDatagram) (now : ℕ) (e : Error)
      → (resolve_reply s.registry id d now).1 ≡ err e
      → t ≡ record s { registry = (resolve_reply s.registry id d now).0 }
      → Step s t
  releases :
      (i : ℕ) (l : BufferLease) (rest : List BufferLease) (a : Accounts)
      → take_held i s.held ≡ some (l, rest)
      → release_buffer s.registry.accounts l ≡ some a
      → t ≡ record { registry = record s.registry { accounts = a }; held = rest }
      → Step s t

pub data Reach (s : Desk) : Desk → Type 0 where
  here : Reach s s
  next : {t u : Desk} → Reach s t → Step t u → Reach s u

-- The desk is lawful, and its accounts fit what is out.
pub record IsSafe (s : Desk) : Type 0 where
  pub lawful : IsLawful s.registry
  pub balanced : IsBalanced s.registry.limits s.held s.registry.accounts

-- The accounts change, and nothing else.
accounts-LawfulStep : (r : Registry) (a : Accounts) → LawfulStep r (record r { accounts = a })
accounts-LawfulStep r a = record {
  same_limits = refl;
  keeps = λ h. record { consistent = h.consistent; secure = h.secure };
  later = λ h. omega arith;
  forward = λ h. inl refl;
  stays_closed = λ e. e;
}

pub Step-LawfulStep : {s t : Desk} → Step s t → LawfulStep s.registry t.registry
Step-LawfulStep {s} (calls c e) =
    subst (λ (x : Desk). LawfulStep s.registry x.registry) (sym e) (call-LawfulStep s.registry c)
Step-LawfulStep {s} (accepts id d now x ok_x e) =
    subst (λ (y : Desk). LawfulStep s.registry y.registry) (sym e)
      (CallStep-LawfulStep s.registry _ (accept_datagram-CallStep s.registry id d now))
Step-LawfulStep {s} (refuses id d now x err_x e) =
    subst (λ (y : Desk). LawfulStep s.registry y.registry) (sym e)
      (CallStep-LawfulStep s.registry _ (accept_datagram-CallStep s.registry id d now))
Step-LawfulStep {s} (delivers id d now x ok_x e) =
    subst (λ (y : Desk). LawfulStep s.registry y.registry) (sym e)
      (CallStep-LawfulStep s.registry _ (resolve_reply-CallStep s.registry id d now))
Step-LawfulStep {s} (drops id d now x err_x e) =
    subst (λ (y : Desk). LawfulStep s.registry y.registry) (sym e)
      (CallStep-LawfulStep s.registry _ (resolve_reply-CallStep s.registry id d now))
Step-LawfulStep {s} (releases i l rest a taken released e) =
    subst (λ (y : Desk). LawfulStep s.registry y.registry) (sym e)
      (accounts-LawfulStep s.registry a)

-- The balance, for a registry with the same limits.
pub rebalanced :
    (held : List BufferLease) (r r' : Registry)
    → r'.limits ≡ r.limits
    → IsBalanced r.limits held r'.accounts
    → IsBalanced r'.limits held r'.accounts
rebalanced held r r' l b = subst (λ (x : Limits). IsBalanced x held r'.accounts) (sym l) b

pub Step-IsBalanced :
    {s t : Desk}
    → Step s t
    → IsBalanced s.registry.limits s.held s.registry.accounts
    → IsBalanced s.registry.limits t.held t.registry.accounts
Step-IsBalanced {s} (calls c e) b =
    subst (λ (y : Desk). IsBalanced s.registry.limits y.held y.registry.accounts) (sym e)
      (subst (IsBalanced s.registry.limits s.held) (sym (call-Untouched s.registry c)) b)
Step-IsBalanced {s} (accepts id d now x ok_x e) b =
    let (direction, size, made) = (accept_datagram-Draws s.registry id d now).served x ok_x in
    subst (λ (y : Desk). IsBalanced s.registry.limits y.held y.registry.accounts) (sym e)
      (reserve_buffer-IsBalanced s.registry.limits s.held s.registry.accounts _ direction size
        x.buffer b made)
Step-IsBalanced {s} (refuses id d now x err_x e) b =
    let same = (accept_datagram-Draws s.registry id d now).failed x err_x in
    subst (λ (y : Desk). IsBalanced s.registry.limits y.held y.registry.accounts) (sym e)
      (subst (IsBalanced s.registry.limits s.held) (sym same) b)
Step-IsBalanced {s} (delivers id d now x ok_x e) b =
    let (direction, size, made) = (resolve_reply-Draws s.registry id d now).served x ok_x in
    subst (λ (y : Desk). IsBalanced s.registry.limits y.held y.registry.accounts) (sym e)
      (reserve_buffer-IsBalanced s.registry.limits s.held s.registry.accounts _ direction size
        x.buffer b made)
Step-IsBalanced {s} (drops id d now x err_x e) b =
    let same = (resolve_reply-Draws s.registry id d now).failed x err_x in
    subst (λ (y : Desk). IsBalanced s.registry.limits y.held y.registry.accounts) (sym e)
      (subst (IsBalanced s.registry.limits s.held) (sym same) b)
Step-IsBalanced {s} (releases i l rest a taken released e) b =
    let t = take_held-Taken i s.held l rest b.leases taken in
    let (a', (made, balanced)) =
      release_buffer-IsBalanced s.registry.limits s.held rest l s.registry.accounts b t in
    subst (λ (y : Desk). IsBalanced s.registry.limits y.held y.registry.accounts) (sym e)
      (subst (IsBalanced s.registry.limits rest) (some-injective (sym made ∙ released)) balanced)
