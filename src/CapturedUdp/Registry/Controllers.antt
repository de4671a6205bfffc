-- ===== src/CapturedUdp/Registry/Controllers.antt =====
-- internal/capturedudp/registry.go: Authenticate, disconnectController and Close, as moves of the whole registry.
use tachyon_core.Base.{
  ℕ, ◌≡◌, refl, sym, ◌∙◌, Bool, true, false, not, ◌||◌, Option, none, some, arith, if◌then◌else◌,
  Option-cases, inl, inr,
}
use tachyon_core.Base.Bytes.{Bytes}
use tachyon_core.Base.Text.{same_text}
use tachyon_core.Base.Outcome.{ok, reject, ◌>>◌}
use tachyon_core.CapturedUdp.Types.{transport_mismatch, transport_not_verified, attachment_stale}
use tachyon_core.CapturedUdp.Registry.{
  plus, Registry, Access, read_random, count_failure, zero_token,
}
use tachyon_core.CapturedUdp.Registry.Control.{
  authenticate, disconnect_controller, close_registry, check_authenticate, revoke_controller, deref,
  is_some, is_at, is_gone, fresh_buckets, close_open,
}
use tachyon_core.CapturedUdp.Registry.Calls.{CallStep-same}
use tachyon_core.CapturedUdp.Registry.Lawful.{
  IsSecure, LawfulStep, LawfulStep-refl, LawfulStep-if, LawfulStep-of, LawfulStep-trans,
  CallStep-LawfulStep, access-LawfulStep, revoked-LawfulStep, empty-IsSecure,
}
use tachyon_core.CapturedUdp.Registry.Accesses.{drop_attachment-LawfulStep}

at_some : (o : Option ℕ) (n : ℕ) → is_at o n ≡ true → is_some o ≡ true
at_some none n e = absurd (ground arith)
at_some (some m) n e = refl

at_checks :
    (a b c : Bool) (u : Unit {0})
    → (reject (not a) transport_mismatch
        >> reject b attachment_stale
        >> reject (not c) transport_not_verified)
      ≡ ok u
    → a ≡ true
at_checks a b c u e = ground arith

check_authenticate-at :
    (a : Access) (pointer : ℕ) (u : Unit {0})
    → check_authenticate a pointer ≡ ok u
    → is_some a.attachment ≡ true
unfolding check_authenticate
check_authenticate-at a pointer u e = elim (Option-cases (deref a pointer)) [
  | inl missing ↦ absurd (ground arith)
  | inr (x, found) ↦
      let checks : check_authenticate a pointer ≡ (
          reject (not (is_at a.attachment pointer)) transport_mismatch
          >> reject (is_gone x) attachment_stale
          >> reject (not x.peer_verified) transport_not_verified) =
        rw (found, check_authenticate) refl in
      at_some a.attachment pointer
        (at_checks (is_at a.attachment pointer) (is_gone x) x.peer_verified u (sym checks ∙ e))
]

controlled-IsSecure :
    (a : Access) (id : Bytes)
    → a.closed ≡ false
    → is_some a.attachment ≡ true
    → IsSecure a
    → IsSecure (record a {
      session_token = zero_token;
      token_issued = false;
      controller = id;
      controller_alive = true;
    })
controlled-IsSecure a id open_a at h = record {
  trusted = λ n e.
      let t = h.trusted n e in
      record {
        it = t.it;
        there = t.there;
        verified = t.verified;
        attached = t.attached;
        named = t.named;
      };
  alive_attached = λ e. at;
  token_attached = λ e. at;
  token_unused = λ e. absurd (ground arith);
  closed_dead = λ e. absurd (ground arith);
}

counted-LawfulStep :
    (r r' : Registry)
    → r'.limits ≡ r.limits
    → r'.access ≡ r.access
    → r'.policy ≡ r.policy
    → LawfulStep r r'
counted-LawfulStep r r' l a p = CallStep-LawfulStep r r' (CallStep-same r r' l a p)

pub authenticate-LawfulStep :
    (r : Registry) (pointer : ℕ) (session_token : Bytes) (random : Option Bytes) (now : ℕ)
    → LawfulStep r (authenticate r pointer session_token random now).0
unfolding authenticate
authenticate-LawfulStep r pointer session_token random now =
    let a = r.access in
    let failed = counted-LawfulStep r (count_failure r) refl refl refl in
    LawfulStep-if r a.closed _ _ (λ e. LawfulStep-refl r)
      (λ open_r.
        LawfulStep-of r (check_authenticate a pointer) _ _ (λ e. failed)
          (λ u good.
            LawfulStep-if r a.controller_alive _ _ (λ e. LawfulStep-refl r)
              (λ e.
                LawfulStep-if r
                  (not a.token_issued || not (same_text a.session_token session_token)) _ _
                  (λ f. failed)
                  (λ f.
                    LawfulStep-of r (read_random random) _ _ (λ x. LawfulStep-refl r)
                      (λ id made.
                        let counted = record r {
                          buckets = fresh_buckets r.limits now;
                          stats = record r.stats {
                            controllers_connected = plus r.stats.controllers_connected 1;
                          };
                        } in
                        LawfulStep-trans r counted _ (counted-LawfulStep r counted refl refl refl) (
                          access-LawfulStep counted _
                            (controlled-IsSecure a id open_r
                              (check_authenticate-at a pointer u good))
                            (λ d. absurd (ground arith)) (λ c. c)))))))

pub disconnect_controller-LawfulStep :
    (r : Registry) (id : Bytes) (pointer : ℕ) → LawfulStep r (disconnect_controller r id pointer).0
unfolding disconnect_controller
disconnect_controller-LawfulStep r id pointer =
    LawfulStep-if r r.access.closed _ _ (λ e. LawfulStep-refl r)
      (λ e.
        LawfulStep-if r _ _ _ (λ f. LawfulStep-refl r) (λ f. drop_attachment-LawfulStep r pointer))

close_open-LawfulStep :
    (r : Registry) (o : Option ℕ) → r.access.attachment ≡ o → LawfulStep r (close_open r o)
unfolding close_open revoke_controller
close_open-LawfulStep r none e =
    revoked-LawfulStep r (close_open r none) _ refl refl refl
      (λ h. empty-IsSecure (close_open r none).access e refl refl) (λ c. refl)
close_open-LawfulStep r (some pointer) e =
    revoked-LawfulStep r (close_open r (some pointer)) _ refl refl refl
      (λ h. empty-IsSecure (close_open r (some pointer)).access refl refl refl) (λ c. refl)

either-LawfulStep :
    (r : Registry) (b : Bool) (x y : Registry)
    → LawfulStep r x
    → LawfulStep r y
    → LawfulStep r (if b then x else y)
either-LawfulStep r true x y f g = f
either-LawfulStep r false x y f g = g

pub close_registry-LawfulStep : (r : Registry) → LawfulStep r (close_registry r)
unfolding close_registry
close_registry-LawfulStep r =
    either-LawfulStep r r.access.closed r (close_open r r.access.attachment) (LawfulStep-refl r)
      (close_open-LawfulStep r r.access.attachment refl)
