-- ===== src/Tgp/Session/Reach.antt =====
-- internal/tgp/session.go: what holds of a session whatever is called on it, in any order.
use tachyon_core.Tgp.Wire.{new_codec}
use tachyon_core.Base.{ℕ, ◌≡◌, refl, sym, Bool, true, false, Option, some, inl, arith, subst, not}
use tachyon_core.Base.Bytes.{Bytes}
use tachyon_core.Base.Outcome.{ok, bind-inv, reject-inv, ok-injective}
use tachyon_core.Tgp.Types.{remote_rejected, Addr}
use tachyon_core.Tgp.Fec.Frame.{FecOptions, is_enabled, validate_params, validate_options}
use tachyon_core.Tgp.Fec.Adaptive.{Adaptive, new_adaptive}
use tachyon_core.Tgp.Session.{
  World, Session, SessionOptions, is_closed, new_session, adaptive_of, migrate, terminate,
  built_session, or_nil_address,
}
use tachyon_core.Tgp.Session.Send.{send_packet, flush_tick}
use tachyon_core.Tgp.Session.Receive.{Clock, read_round, recv_packet}
use tachyon_core.Tgp.Session.Core.{core, IsSound, IsTuned, Evolves, Evolves-refl, Evolves-trans}
use tachyon_core.Tgp.Session.Moves.{
  send_packet-Evolves, flush_tick-Evolves, migrate-Evolves, terminate-Evolves,
}
use tachyon_core.Tgp.Session.Rounds.{read_round-Evolves}

-- One call on a session, by its user or by its own loops.
pub data Step (world : World) (s t : Session) : Type 0 where
  sends :
      (now stream : ℕ) (payload : Bytes)
      → (send_packet world s now stream payload).0 ≡ t
      → Step world s t
  flushes : (now : ℕ) → flush_tick world s now ≡ t → Step world s t
  migrates_to :
      (context_ok : Bool) (addr : Option Addr)
      → (migrate world s context_ok addr).0 ≡ t
      → Step world s t
  reads :
      (clock : Clock) (writes : Bool) (wire : Bytes) (from : Option Addr)
      → read_round world s clock writes wire from ≡ t
      → Step world s t
  receives : (stream : ℕ) → (recv_packet s stream).0 ≡ t → Step world s t
  closes_it : terminate world s ≡ t → Step world s t

pub data Reach (world : World) (s : Session) : Session → Type 0 where
  here : Reach world s s
  next : {t u : Session} → Reach world s t → Step world t u → Reach world s u

Step-Evolves : (world : World) {s t : Session} → Step world s t → Evolves world (core s) (core t)
unfolding recv_packet
Step-Evolves world {s} (sends now stream payload e) =
    subst (λ (x : Session). Evolves world (core s) (core x)) e
      (send_packet-Evolves world s now stream payload)
Step-Evolves world {s} (flushes now e) =
    subst (λ (x : Session). Evolves world (core s) (core x)) e (flush_tick-Evolves world s now)
Step-Evolves world {s} (migrates_to context_ok addr e) =
    subst (λ (x : Session). Evolves world (core s) (core x)) e
      (migrate-Evolves world s context_ok addr)
Step-Evolves world {s} (reads clock writes wire from e) =
    subst (λ (x : Session). Evolves world (core s) (core x)) e
      (read_round-Evolves world s clock writes wire from)
Step-Evolves world {s} (receives stream e) =
    subst (λ (x : Session). Evolves world (core s) (core x)) e (Evolves-refl world (core s))
Step-Evolves world {s} (closes_it e) =
    subst (λ (x : Session). Evolves world (core s) (core x)) e (terminate-Evolves world s)

Reach-Evolves : (world : World) {s t : Session} → Reach world s t → Evolves world (core s) (core t)
Reach-Evolves world {s} here = Evolves-refl world (core s)
Reach-Evolves world {s} (next {t} {u} r e) =
    Evolves-trans world (core s) (core t) (core u) (Reach-Evolves world r) (Step-Evolves world e)

adaptive_of-IsTuned :
    (o : FecOptions) (a : Adaptive)
    → validate_options o ≡ ok tt
    → adaptive_of o ≡ some a
    → IsTuned o a
unfolding adaptive_of new_adaptive validate_options validate_params is_enabled
adaptive_of-IsTuned o a valid e = ground arith

options_valid :
    (o : FecOptions)
    → validate_options o ≡ ok tt
    → is_enabled o ≡ true
    → validate_params o.data_shards o.parity_shards ≡ ok tt
unfolding validate_options validate_params is_enabled
options_valid o valid on = ground arith

not-false : (b : Bool) → not b ≡ false → b ≡ true
not-false true e = refl
not-false false e = sym e

new_session-IsSound :
    (world : World) (opts : SessionOptions) (s : Session)
    → new_session world opts ≡ ok s
    → IsSound world (core s)
unfolding new_session
new_session-IsSound world opts s e =
    let (remote, (_, e1)) = bind-inv (or_nil_address opts.remote_addr) _ s e in
    let (allowed, e2) = reject-inv (not (world.allows remote)) remote_rejected _ s e1 in
    let (_, (valid, e3)) = bind-inv (validate_options opts.fec) _ s e2 in
    let (send, (_, e4)) = bind-inv (new_codec opts.send_aead opts.datagram_limit) _ s e3 in
    let (recv, (_, e5)) = bind-inv (new_codec opts.recv_aead opts.datagram_limit) _ s e4 in
    let sound : IsSound world (core (built_session opts remote send recv)) = record {
      settled = inl refl;
      allowed = not-false (world.allows remote) allowed;
      valid_fec = options_valid opts.fec valid;
      tuned = λ a. adaptive_of-IsTuned opts.fec a valid;
      within = tt;
    } in
    subst (λ (x : Session). IsSound world (core x)) (ok-injective e5) sound

-- A session that NewDatagramSession made is, after any calls in any order, established or closed; its
-- remote address passes the callback ValidateRemote; its shard counts, also the adapted ones, pass
-- the validation if FEC is on; and no group that is being sent is over-full.
pub reached-IsSound :
    (world : World) (opts : SessionOptions) (s t : Session)
    → new_session world opts ≡ ok s
    → Reach world s t
    → IsSound world (core t)
reached-IsSound world opts s t made r =
    (Reach-Evolves world r).keeps (new_session-IsSound world opts s made)

-- Once closed, a session stays closed and keeps its remote address, whatever is called on it.
pub closed_for_good :
    (world : World) (s t : Session)
    → Reach world s t
    → is_closed s.state ≡ true
    → (t.state ≡ s.state) × (t.remote ≡ s.remote)
closed_for_good world s t r = (Reach-Evolves world r).stays
