-- ===== src/CapturedUdp/Registry/Lawful.antt =====
-- internal/capturedudp/registry.go: what the transport, the controller and the policy keep together.
use tachyon_core.Base.{
  ℕ, zero, suc, ◌≤◌, ◌<◌, ◌≡◌, refl, sym, ◌∙◌, ap, subst, Bool, true, false, List, [], ◌∷◌, ◌++◌,
  none, some, arith, if◌then◌else◌, inl, inr, ◌⊎◌, get_elem?, set,
}
use tachyon_core.Base.Outcome.{Outcome, ok, err}
use tachyon_core.Tgp.Tunnel.{all_zero}
use tachyon_core.CapturedUdp.Types.{Error, Limits, Attachment, is_attached}
use tachyon_core.CapturedUdp.Registry.{Registry, Policy, Access, with_access}
use tachyon_core.CapturedUdp.Registry.Control.{deref, is_some}
use tachyon_core.CapturedUdp.Registry.Policies.{IsConsistent, later_generation}
use tachyon_core.CapturedUdp.Registry.Calls.{CallStep}

-- The attachment at hand was verified and is attached, under an identity of its own.
pub record IsTrusted (a : Access) (n : ℕ) : Type 0 where
  pub it : Attachment
  pub there : deref a n ≡ some it
  pub verified : it.peer_verified ≡ true
  pub attached : is_attached it.state ≡ true
  pub named : all_zero it.id ≡ false

-- A controller or an open token needs the attachment at hand, there is never a token beside a
-- controller, and a closed registry has none of them.
pub record IsSecure (a : Access) : Type 0 where
  pub trusted : (n : ℕ) → a.attachment ≡ some n → IsTrusted a n
  pub alive_attached : a.controller_alive ≡ true → is_some a.attachment ≡ true
  pub token_attached : a.token_issued ≡ true → is_some a.attachment ≡ true
  pub token_unused : a.token_issued ≡ true → a.controller_alive ≡ false
  pub closed_dead : a.closed ≡ true → (a.controller_alive ≡ false) × (a.attachment ≡ none)

pub record IsLawful (r : Registry) : Type 0 where
  pub consistent : IsConsistent r.limits r.access.controller_alive r.policy
  pub secure : IsSecure r.access

-- What any operation of the registry may do.
pub record LawfulStep (r r' : Registry) : Type 0 where
  pub same_limits : r'.limits ≡ r.limits
  pub keeps : IsLawful r → IsLawful r'
  pub later : IsLawful r → r.policy.last_generation ≤ r'.policy.last_generation
  pub forward :
      IsLawful r
      → (r'.policy.active_generation ≡ r.policy.active_generation)
        ⊎ ((r'.policy.active_generation ≡ 0)
            ⊎ (r.policy.last_generation < r'.policy.active_generation))
  pub stays_closed : r.access.closed ≡ true → r'.access.closed ≡ true

pub CallStep-LawfulStep : (r r' : Registry) → CallStep r r' → LawfulStep r r'
CallStep-LawfulStep r r' c = record {
  same_limits = c.same_limits;
  keeps = λ h. record {
    consistent =
        subst (λ (a : Access). IsConsistent r'.limits a.controller_alive r'.policy)
          (sym c.same_access)
          (subst (λ (l : Limits). IsConsistent l r.access.controller_alive r'.policy)
            (sym c.same_limits) (c.moves.keeps h.consistent));
    secure = subst IsSecure (sym c.same_access) h.secure;
  };
  later = λ h. c.moves.later h.consistent;
  forward = λ h. c.moves.forward h.consistent;
  stays_closed = λ e. ap (λ (a : Access). a.closed) c.same_access ∙ e;
}

pub LawfulStep-refl : (r : Registry) → LawfulStep r r
LawfulStep-refl r = record {
  same_limits = refl;
  keeps = λ h. h;
  later = λ h. omega arith;
  forward = λ h. inl refl;
  stays_closed = λ e. e;
}

pub LawfulStep-trans : (a b c : Registry) → LawfulStep a b → LawfulStep b c → LawfulStep a c
LawfulStep-trans a b c f g = record {
  same_limits = g.same_limits ∙ f.same_limits;
  keeps = λ h. g.keeps (f.keeps h);
  later = λ h. omega (arith, f.later h, g.later (f.keeps h));
  forward = λ h.
      later_generation a.policy b.policy c.policy (f.later h) (f.forward h) (g.forward (f.keeps h));
  stays_closed = λ e. g.stays_closed (f.stays_closed e);
}

-- The access changes, with a controller alive only as before, or newly.
pub access-LawfulStep :
    (r : Registry) (a : Access)
    → (IsSecure r.access → IsSecure a)
    → (a.controller_alive ≡ false → r.access.controller_alive ≡ false)
    → (r.access.closed ≡ true → a.closed ≡ true)
    → LawfulStep r (with_access r a)
access-LawfulStep r a secure alive closed = record {
  same_limits = refl;
  keeps = λ h. record {
    consistent =
        let c = h.consistent in
        record {
          few = c.few;
          in_force = c.in_force;
          distinct = c.distinct;
          idle = c.idle;
          ordered = c.ordered;
          ahead = c.ahead;
          dead = λ d. c.dead (alive d);
        };
    secure = secure h.secure;
  };
  later = λ h. omega arith;
  forward = λ h. inl refl;
  stays_closed = closed;
}

-- The controller is gone, and its policy with it.
pub revoked-LawfulStep :
    (r r' : Registry) (a : Access)
    → r'.limits ≡ r.limits
    → r'.access ≡ a
    → r'.policy ≡ record r.policy { prepared = none; active_generation = 0; flows = [] }
    → (IsSecure r.access → IsSecure a)
    → (r.access.closed ≡ true → a.closed ≡ true)
    → LawfulStep r r'
revoked-LawfulStep r r' a limits access policy secure closed = record {
  same_limits = limits;
  keeps = λ h. record {
    consistent = subst (IsConsistent r'.limits r'.access.controller_alive) (sym policy) (record {
      few = omega arith;
      in_force = tt;
      distinct = tt;
      idle = λ e. refl;
      ordered = omega arith;
      ahead = λ t e. absurd (ground arith);
      dead = λ d. (refl, refl);
    });
    secure = subst IsSecure (sym access) (secure h.secure);
  };
  later = λ h.
      subst (λ (p : Policy). r.policy.last_generation ≤ p.last_generation) (sym policy)
        (omega arith);
  forward = λ h. inr (inl (ap (λ (p : Policy). p.active_generation) policy));
  stays_closed = λ e. ap (λ (x : Access). x.closed) access ∙ closed e;
}

get-append :
    (xs ys : List Attachment) (n : ℕ) (x : Attachment)
    → get_elem? xs n ≡ some x
    → get_elem? (xs ++ ys) n ≡ some x
get-append [] ys n x e = absurd (ground arith)
get-append (y ∷ xs) ys zero x e = e
get-append (y ∷ xs) ys (suc n) x e = get-append xs ys n x e

pub get-set :
    (xs : List Attachment) (n : ℕ) (x v : Attachment)
    → get_elem? xs n ≡ some x
    → get_elem? (set xs n v) n ≡ some v
get-set [] n x v e = absurd (ground arith)
get-set (y ∷ xs) zero x v e = refl
get-set (y ∷ xs) (suc n) x v e = get-set xs n x v e

-- Attachments may be added.
pub more-IsSecure :
    (a : Access) (ys : List Attachment)
    → IsSecure a
    → IsSecure (record a { attachments = a.attachments ++ ys })
more-IsSecure a ys h = record {
  trusted = λ n e.
      let t = h.trusted n e in
      record {
        it = t.it;
        there = get-append a.attachments ys n t.it t.there;
        verified = t.verified;
        attached = t.attached;
        named = t.named;
      };
  alive_attached = h.alive_attached;
  token_attached = h.token_attached;
  token_unused = h.token_unused;
  closed_dead = h.closed_dead;
}

-- With no attachment at hand, no token and no controller, every list of attachments is as good.
pub empty-IsSecure :
    (a : Access)
    → a.attachment ≡ none
    → a.token_issued ≡ false
    → a.controller_alive ≡ false
    → IsSecure a
empty-IsSecure a e t c = record {
  trusted = λ n f. absurd (ground arith);
  alive_attached = λ f. absurd (ground arith);
  token_attached = λ f. absurd (ground arith);
  token_unused = λ f. absurd (ground arith);
  closed_dead = λ f. (c, e);
}

pub LawfulStep-if {ℓ} :
    {A : Type ℓ} (r : Registry) (b : Bool) (x y : Registry × Outcome Error A)
    → (b ≡ true → LawfulStep r x.0)
    → (b ≡ false → LawfulStep r y.0)
    → LawfulStep r (if b then x else y).0
LawfulStep-if r true x y f g = f refl
LawfulStep-if r false x y f g = g refl

pub LawfulStep-of {ℓ κ} :
    {A : Type ℓ} {B : Type κ} (r : Registry) (o : Outcome Error B)
    (x : Error → Registry × Outcome Error A) (y : B → Registry × Outcome Error A)
    → ((e : Error) → LawfulStep r (x e).0)
    → ((b : B) → o ≡ ok b → LawfulStep r (y b).0)
    → LawfulStep r (elim o as (λ _. Registry × Outcome Error A) [ err e ↦ x e | ok b ↦ y b ]).0
LawfulStep-of r (err e) x y f g = f e
LawfulStep-of r (ok b) x y f g = g b refl
