-- ===== src/CapturedUdp/Registry/Policies.antt =====
-- internal/capturedudp/registry.go: what keeps a policy consistent, and what a call may do to it.
use tachyon_core.Base.{
  ◌≤◌, ◌<◌, ◌≡◌, refl, Bool, true, false, List, [], Option, none, some, arith, length, inl, inr,
  ◌⊎◌,
}
use tachyon_core.CapturedUdp.Types.{Limits, Lease, Transaction}
use tachyon_core.CapturedUdp.Registry.{Policy}
use tachyon_core.CapturedUdp.Registry.Leases.{Distinct, InGeneration}

pub record IsConsistent (limits : Limits) (alive : Bool) (p : Policy) : Type 0 where
  pub few : length p.flows ≤ limits.flows_max
  pub in_force : InGeneration p.active_generation p.flows
  pub distinct : Distinct p.flows
  pub idle : p.active_generation ≡ 0 → p.flows ≡ []
  pub ordered : p.active_generation ≤ p.last_generation
  pub ahead : (t : Transaction) → p.prepared ≡ some t → p.last_generation < t.generation
  pub dead : alive ≡ false → (p.active_generation ≡ 0) × (p.prepared ≡ none)

-- What a call may do: it keeps the policy consistent and the last generation's order, and a generation
-- comes into force only as one that is later than any before.
pub record PolicyStep (limits : Limits) (alive : Bool) (p q : Policy) : Type 0 where
  pub keeps : IsConsistent limits alive p → IsConsistent limits alive q
  pub later : IsConsistent limits alive p → p.last_generation ≤ q.last_generation
  pub forward :
      IsConsistent limits alive p
      → (q.active_generation ≡ p.active_generation)
        ⊎ ((q.active_generation ≡ 0) ⊎ (p.last_generation < q.active_generation))

-- Two moves of the generation in force make one.
pub later_generation :
    (a b c : Policy)
    → a.last_generation ≤ b.last_generation
    → (b.active_generation ≡ a.active_generation)
      ⊎ ((b.active_generation ≡ 0) ⊎ (a.last_generation < b.active_generation))
    → (c.active_generation ≡ b.active_generation)
      ⊎ ((c.active_generation ≡ 0) ⊎ (b.last_generation < c.active_generation))
    → (c.active_generation ≡ a.active_generation)
      ⊎ ((c.active_generation ≡ 0) ⊎ (a.last_generation < c.active_generation))
later_generation a b c le x y = ground arith

module _ (limits : Limits) (alive : Bool) where
  pub PolicyStep-refl : (p : Policy) → PolicyStep limits alive p p
  PolicyStep-refl p = record { keeps = λ h. h; later = λ h. omega arith; forward = λ h. inl refl }

  pub PolicyStep-trans :
      (p q w : Policy)
      → PolicyStep limits alive p q
      → PolicyStep limits alive q w
      → PolicyStep limits alive p w
  PolicyStep-trans p q w f g = record {
    keeps = λ h. g.keeps (f.keeps h);
    later = λ h. omega (arith, f.later h, g.later (f.keeps h));
    forward = λ h. later_generation p q w (f.later h) (f.forward h) (g.forward (f.keeps h));
  }

  -- The flows change within the generation in force.
  pub flows-PolicyStep :
      (p : Policy) (flows : List Lease)
      → (IsConsistent limits alive p
          → (length flows ≤ limits.flows_max)
            × (InGeneration p.active_generation flows
                × (Distinct flows × (p.active_generation ≡ 0 → flows ≡ []))))
      → PolicyStep limits alive p (record p { flows = flows })
  flows-PolicyStep p flows good = record {
    keeps = λ h.
        let (few, (in_force, (distinct, idle))) = good h in
        record {
          few = few;
          in_force = in_force;
          distinct = distinct;
          idle = idle;
          ordered = h.ordered;
          ahead = h.ahead;
          dead = h.dead;
        };
    later = λ h. omega arith;
    forward = λ h. inl refl;
  }

  -- The transaction at hand changes, and nothing else.
  pub prepared-PolicyStep :
      (p : Policy) (prepared : Option Transaction)
      → ((t : Transaction) → prepared ≡ some t → p.last_generation < t.generation)
      → (alive ≡ false → prepared ≡ none)
      → PolicyStep limits alive p (record p { prepared = prepared })
  prepared-PolicyStep p prepared ahead dead = record {
    keeps = λ h. record {
      few = h.few;
      in_force = h.in_force;
      distinct = h.distinct;
      idle = h.idle;
      ordered = h.ordered;
      ahead = ahead;
      dead = λ d. ((h.dead d).0, dead d);
    };
    later = λ h. omega arith;
    forward = λ h. inl refl;
  }

  -- No generation is in force any more.
  pub emptied-PolicyStep :
      (p : Policy)
      → PolicyStep limits alive p (record p { prepared = none; active_generation = 0; flows = [] })
  emptied-PolicyStep p = record {
    keeps = λ h. record {
      few = omega arith;
      in_force = tt;
      distinct = tt;
      idle = λ e. refl;
      ordered = omega arith;
      ahead = λ t e. absurd (ground arith);
      dead = λ d. (refl, refl);
    };
    later = λ h. omega arith;
    forward = λ h. inr (inl refl);
  }

  -- A prepared generation comes into force.
  pub committed-PolicyStep :
      (p : Policy) (t : Transaction)
      → alive ≡ true
      → p.prepared ≡ some t
      → PolicyStep limits alive p (record {
        prepared = none;
        active_generation = t.generation;
        last_generation = t.generation;
        flows = [];
      })
  committed-PolicyStep p t live e = record {
    keeps = λ h. record {
      few = omega arith;
      in_force = tt;
      distinct = tt;
      idle = λ z. refl;
      ordered = omega arith;
      ahead = λ u f. absurd (ground arith);
      dead = λ d. absurd (ground arith);
    };
    later = λ h. omega (arith, h.ahead t e);
    forward = λ h. inr (inr (h.ahead t e));
  }
