-- ===== src/Routing/Engine/Laws.antt =====
-- What the decisions of internal/routing/profile.go come from.
use tachyon_core.Base.{
  Bool-cases, Bool, true, false, ◌||◌, ◌&&◌, ◌≡◌, refl, arith, Option-cases, inl, sym, ◌∙◌, inr,
}
use tachyon_core.Base.Ints.{ℤ, lt_int, lt_int_trans, lt_int_asym}
use tachyon_core.Base.Sorting.{
  first_where, any_where, IsIn, IsWeakOrder, first-sort, none-sort, any-in,
}
use tachyon_core.Pidtrack.Flow.{ProcessInfo, FlowKey}
use tachyon_core.Routing.Engine.{
  Engine, GameProfile, decide, game_decision, sorted_profiles, requires_attribution, goes_before,
  ranks_before, manual_match, automatic_match, is_udp_tgp, default_udp_policy, accelerates_steam,
  manual_profile,
}

ranks_trans :
    (x y z : Bool) (a b c : ℤ)
    → ranks_before x a y b ≡ false
    → ranks_before y b z c ≡ false
    → ranks_before x a z c ≡ false
ranks_trans true true true a b c h k = lt_int_trans c b a k h
ranks_trans true true false a b c h k = cc
ranks_trans true false z a b c h k = cc
ranks_trans false true true a b c h k = refl
ranks_trans false true false a b c h k = cc
ranks_trans false false true a b c h k = refl
ranks_trans false false false a b c h k = lt_int_trans c b a k h

ranks_asym : (x y : Bool) (a b : ℤ) → ranks_before x a y b ≡ true → ranks_before y b x a ≡ false
ranks_asym true true a b h = lt_int_asym b a h
ranks_asym true false a b h = refl
ranks_asym false true a b h = cc
ranks_asym false false a b h = lt_int_asym b a h

goes_before-IsWeakOrder : IsWeakOrder goes_before
goes_before-IsWeakOrder = record {
  trans = λ p q r. ranks_trans p.manual q.manual r.manual p.priority q.priority r.priority;
  asym = λ p q. ranks_asym p.manual q.manual p.priority q.priority;
}

middle : (a b c : Bool) → (a && b && c) ≡ true → b ≡ true
middle a b c h = ground arith

clash : ◌≡◌ {A = Bool} true false → ⊥
clash h = cc

-- If an enabled manual profile matches the process, the decision is that of such a profile, whose
-- priority is not below the first one's.
pub decide-manual :
    (e : Engine) (proc : ProcessInfo) (flow : FlowKey) (q : GameProfile)
    → IsIn q e.profiles
    → manual_match proc q ≡ true
    → (p : GameProfile) × IsIn p e.profiles
      × (manual_match proc p ≡ true)
      × (lt_int p.priority q.priority ≡ false)
      × (decide e proc flow ≡ game_decision p manual_profile)
unfolding decide sorted_profiles
decide-manual e proc flow q i m =
    elim (Option-cases (first_where (manual_match proc) (sorted_profiles e))) [
      | inl absent ↦ absurd (
          clash (
            sym m
            ∙ none-sort goes_before goes_before-IsWeakOrder (manual_match proc) e.profiles q absent
                i))
      | inr (p, found) ↦
          let (good, inside, least) =
            first-sort goes_before goes_before-IsWeakOrder (manual_match proc) e.profiles p found in
          (
            p,
            inside,
            good,
            below q.manual p.manual q.priority p.priority (middle q.enabled q.manual _ m)
                (middle p.enabled p.manual _ good) (least q i m),
            rw (found, decide) refl,
          )
    ]
  where
    below :
        (x y : Bool) (a b : ℤ)
        → x ≡ true
        → y ≡ true
        → ranks_before x a y b ≡ false
        → lt_int b a ≡ false
    below x y a b u v h = rw (u, v) at h

requires-profile :
    (e : Engine) (p : GameProfile)
    → IsIn p e.profiles
    → p.enabled ≡ true
    → is_udp_tgp (default_udp_policy p.udp_policy) ≡ true
    → requires_attribution e ≡ true
unfolding requires_attribution
requires-profile e p i on h =
    rw
      (any-in (λ (p : GameProfile). p.enabled && is_udp_tgp (default_udp_policy p.udp_policy))
        e.profiles p i (rw (on, h) refl))
      refl

requires-steam :
    (e : Engine) (proc : ProcessInfo) (flow : FlowKey)
    → accelerates_steam e proc flow ≡ true
    → requires_attribution e ≡ true
unfolding requires_attribution
requires-steam e proc flow h =
    parts
      (any_where (λ (p : GameProfile). p.enabled && is_udp_tgp (default_udp_policy p.udp_policy))
        e.profiles)
      e.steam.enabled e.steam.track_child_processes e.steam.accelerate_game_udp _ _ h
  where
    parts : (r a b c g u : Bool) → ((a && b && g) && (u && c)) ≡ true → (r || (a && b && c)) ≡ true
    parts r a b c g u h = ground arith

first : (a b c : Bool) → (a && b && c) ≡ true → a ≡ true
first a b c h = ground arith

-- Whoever the engine accelerates, by a profile or as a Steam game, the engine says that acceleration
-- needs the process to be known.
pub decide-attributed :
    (e : Engine) (proc : ProcessInfo) (flow : FlowKey)
    → is_udp_tgp (decide e proc flow).udp_policy ≡ true
    → requires_attribution e ≡ true
unfolding decide game_decision sorted_profiles
decide-attributed e proc flow h =
    elim (Option-cases (first_where (manual_match proc) (sorted_profiles e))) [
      | inr (p, found) ↦
          let (good, inside, _) =
            first-sort goes_before goes_before-IsWeakOrder (manual_match proc) e.profiles p found in
          requires-profile e p inside (first p.enabled _ _ good) (rw (decide, found) at h)
      | inl absent ↦ elim (Bool-cases (accelerates_steam e proc flow)) [
        | inl steam ↦ requires-steam e proc flow steam
        | inr other ↦ elim (Option-cases (first_where (automatic_match proc) (sorted_profiles e))) [
          | inr (p, found) ↦
              let (good, inside, _) =
                first-sort goes_before goes_before-IsWeakOrder (automatic_match proc) e.profiles p
                  found in
              requires-profile e p inside (first p.enabled _ _ good)
                (rw (decide, absent, other, found) at h)
          | inl no_one ↦ absurd (clash (sym (rw (decide, absent, other, no_one) at h)))
        ]
      ]
    ]
