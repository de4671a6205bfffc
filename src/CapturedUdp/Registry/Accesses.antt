-- ===== src/CapturedUdp/Registry/Accesses.antt =====
-- internal/capturedudp/registry.go: newTransportAttachment, AttachTransport and detachTransport, as
-- moves of the whole registry.
use tachyon_core.Base.{
  ℕ, ◌≡◌, refl, sym, ◌∙◌, subst, Bool, true, false, not, ◌||◌, ◌&&◌, List, Option, none, some,
  arith, Bool-cases, Option-cases, inl, inr, some-injective, set,
}
use tachyon_core.Base.Bytes.{Bytes}
use tachyon_core.Base.Outcome.{ok, reject, ◌>>◌}
use tachyon_core.Tgp.Tunnel.{all_zero}
use tachyon_core.CapturedUdp.Types.{
  transport_active, transport_not_verified, attachment_stale, Attachment, attachment_attached,
  attachment_detached, attachment_closed, is_new,
}
use tachyon_core.CapturedUdp.Registry.{Registry, Access, read_random, zero_token, zero_id}
use tachyon_core.CapturedUdp.Registry.Control.{
  new_transport_attachment, attach_transport, detach_transport, check_attach, check_detach,
  close_new, revoke_controller, drop_attachment, destroyed, deref, is_some, is_there,
}
use tachyon_core.CapturedUdp.Registry.Lawful.{
  IsTrusted, IsSecure, LawfulStep, LawfulStep-refl, LawfulStep-if, LawfulStep-of, access-LawfulStep,
  revoked-LawfulStep, more-IsSecure, empty-IsSecure, get-set,
}

pub new_transport_attachment-LawfulStep :
    (r : Registry) (verified : Bool) (random : Option Bytes)
    → LawfulStep r (new_transport_attachment r verified random).0
unfolding new_transport_attachment
new_transport_attachment-LawfulStep r verified random =
    LawfulStep-of r (read_random random) _ _ (λ e. LawfulStep-refl r)
      (λ id made.
        LawfulStep-if r r.access.closed _ _ (λ e. LawfulStep-refl r)
          (λ e. access-LawfulStep r _ (more-IsSecure r.access _) (λ d. d) (λ c. c)))

lists-IsSecure :
    (a : Access) (xs : List Attachment)
    → a.attachment ≡ none
    → IsSecure a
    → IsSecure (record a { attachments = xs })
lists-IsSecure a xs e h = record {
  trusted = λ n f. absurd (ground arith);
  alive_attached = h.alive_attached;
  token_attached = h.token_attached;
  token_unused = h.token_unused;
  closed_dead = h.closed_dead;
}

-- On a closed registry nothing is at hand, so that an attachment may be destroyed.
close_new-IsSecure :
    (a : Access) (pointer : ℕ) → a.closed ≡ true → IsSecure a → IsSecure (close_new a pointer)
unfolding close_new
close_new-IsSecure a pointer e h = elim (Option-cases (deref a pointer)) [
  | inl missing ↦ rw (missing, close_new) h
  | inr (x, found) ↦ elim (Bool-cases (is_new x.state)) [
    | inr old ↦ rw (found, old, close_new) h
    | inl new ↦
        rw (found, new, close_new)
          (lists-IsSecure a (set a.attachments pointer (destroyed attachment_closed))
            (h.closed_dead e).1 h)
  ]
]

close_new-same :
    (a : Access) (pointer : ℕ)
    → ((close_new a pointer).closed ≡ a.closed)
      × ((close_new a pointer).controller_alive ≡ a.controller_alive)
unfolding close_new
close_new-same a pointer = ground arith

record Attachable (a : Access) (pointer : ℕ) (x : Attachment) : Type 0 where
  there : deref a pointer ≡ some x
  named : all_zero x.id ≡ false
  verified : x.peer_verified ≡ true
  free : is_some a.attachment ≡ false
  idle : a.controller_alive ≡ false

attach_checks :
    (a b c d e : Bool) (x y : Attachment)
    → (reject (a || b) attachment_stale
        >> reject (not c) transport_not_verified
        >> reject (d || e) transport_active
        >> ok x)
      ≡ ok y
    → (x ≡ y) × ((b ≡ false) × ((c ≡ true) × ((d ≡ false) × (e ≡ false))))
attach_checks a b c d e x y h = ground arith

check_attach-inv :
    (a : Access) (pointer : ℕ) (x : Attachment)
    → check_attach a pointer ≡ ok x
    → Attachable a pointer x
unfolding check_attach
check_attach-inv a pointer x e = elim (Option-cases (deref a pointer)) [
  | inl missing ↦ absurd (ground arith)
  | inr (y, found) ↦
      let checks : check_attach a pointer ≡ (
          reject (not (is_new y.state) || all_zero y.id) attachment_stale
          >> reject (not y.peer_verified) transport_not_verified
          >> reject (is_some a.attachment || a.controller_alive) transport_active
          >> ok y) =
        rw (found, check_attach) refl in
      let (same, (named, (verified, (free, idle)))) =
        attach_checks (not (is_new y.state)) (all_zero y.id) y.peer_verified (is_some a.attachment)
          a.controller_alive y x (sym checks ∙ e) in
      subst (Attachable a pointer) same
        (record { there = found; named = named; verified = verified; free = free; idle = idle })
]

attached-IsSecure :
    (a : Access) (pointer : ℕ) (x : Attachment) (session_token : Bytes)
    → a.closed ≡ false
    → Attachable a pointer x
    → IsSecure (record a {
      attachments = set a.attachments pointer (record x { state = attachment_attached });
      attachment = some pointer;
      session_token = session_token;
      token_issued = true;
    })
attached-IsSecure a pointer x session_token open_a h =
    let y = record x { state = attachment_attached } in
    record {
      trusted = λ n e. subst (IsTrusted _) (some-injective e) (record {
        it = y;
        there = get-set a.attachments pointer x y h.there;
        verified = h.verified;
        attached = refl;
        named = h.named;
      });
      alive_attached = λ e. refl;
      token_attached = λ e. refl;
      token_unused = λ e. h.idle;
      closed_dead = λ e. absurd (ground arith);
    }

pub attach_transport-LawfulStep :
    (r : Registry) (pointer : ℕ) (random : Option Bytes)
    → LawfulStep r (attach_transport r pointer random).0
unfolding attach_transport
attach_transport-LawfulStep r pointer random =
    let a = r.access in
    LawfulStep-if r a.closed _ _
      (λ shut.
        let (closed, alive) = close_new-same a pointer in
        access-LawfulStep r (close_new a pointer) (close_new-IsSecure a pointer shut)
          (λ d. sym alive ∙ d) (λ c. closed ∙ c))
      (λ open_r.
        LawfulStep-of r (check_attach a pointer) _ _ (λ e. LawfulStep-refl r)
          (λ x good.
            LawfulStep-of r (read_random random) _ _ (λ e. LawfulStep-refl r)
              (λ session_token made.
                access-LawfulStep r _
                  (λ h.
                    attached-IsSecure a pointer x session_token open_r
                      (check_attach-inv a pointer x good))
                  (λ d. d) (λ c. c))))

-- The access behind a revocation, with the attachment at hand destroyed.
dropped-IsSecure :
    (a : Access) (xs : List Attachment)
    → IsSecure (record a {
      attachments = xs;
      attachment = none;
      session_token = zero_token;
      token_issued = false;
      controller = zero_id;
      controller_alive = false;
    })
dropped-IsSecure a xs = empty-IsSecure _ refl refl refl

pub drop_attachment-LawfulStep :
    (r : Registry) (pointer : ℕ) → LawfulStep r (drop_attachment r pointer)
unfolding revoke_controller
drop_attachment-LawfulStep r pointer =
    revoked-LawfulStep r (drop_attachment r pointer) _ refl refl refl
      (λ h.
        dropped-IsSecure r.access
          (set r.access.attachments pointer (destroyed attachment_detached)))
      (λ c. c)

pub detach_transport-LawfulStep :
    (r : Registry) (pointer : ℕ) → LawfulStep r (detach_transport r pointer).0
unfolding detach_transport
detach_transport-LawfulStep r pointer =
    let a = r.access in
    LawfulStep-if r (a.closed && is_there (deref a pointer)) _ _
      (λ both.
        let shut : a.closed ≡ true = ground arith in
        let (closed, alive) = close_new-same a pointer in
        access-LawfulStep r (close_new a pointer) (close_new-IsSecure a pointer shut)
          (λ d. sym alive ∙ d) (λ c. closed ∙ c))
      (λ open_r.
        LawfulStep-of r (check_detach a pointer) _ _ (λ e. LawfulStep-refl r)
          (λ u good. drop_attachment-LawfulStep r pointer))
