-- ===== src/Pipeline/Router/Laws.antt =====
-- What internal/pipeline/router.go does with a flow whose process is unknown.
use tachyon_core.Base.{
  Bool, true, false, List, [], ◌∷◌, some, ◌||◌, not, ◌≡◌, refl, arith, if◌then◌else◌,
}
use tachyon_core.Base.Sorting.{IsIn, any-in}
use tachyon_core.Base.Text.{is_empty, trim_space}
use tachyon_core.Pidtrack.Flow.{ProcessInfo, FlowKey, Transport, tcp, udp}
use tachyon_core.Routing.Engine.{
  EngineDecision, requires_attribution, is_udp_tgp, default_kind, game_kind, Kind, UdpPolicy,
  TcpPolicy, udp_unset, udp_auto, udp_tgp, udp_direct, udp_block, udp_other, tcp_unset, tcp_auto,
  tcp_direct, tcp_block, tcp_other,
}
use tachyon_core.Routing.Engine.Laws.{decide-attributed}
use tachyon_core.Pipeline.Router.{
  Router, IndexedRule, Action, tgp, direct, drop, is_tgp, Decision, decide_unknown_process,
  requires_process, unknown_by_rules, unknown_decision, guard_tgp, normalize_action,
  names_tgp_process, engine_decide, game_action, action_from_policies, route_rule_matches,
}

guard_tgp-false : (a : Action) → is_tgp (guard_tgp true a) ≡ false
unfolding guard_tgp
guard_tgp-false tgp = refl
guard_tgp-false direct = refl
guard_tgp-false drop = refl

sensitive_never_tgp :
    (r : Router) (flow : FlowKey) (xs : List IndexedRule)
    → is_tgp (unknown_by_rules r flow true xs).action ≡ false
unfolding unknown_by_rules unknown_decision
sensitive_never_tgp r flow [] = guard_tgp-false r.default_action
sensitive_never_tgp r flow (x ∷ xs) =
    pick
      (not (is_empty (trim_space x.rule.process_name)) || not (route_rule_matches x.rule flow []))
      (unknown_by_rules r flow true xs)
      (unknown_decision flow true (normalize_action x.rule.action r.default_action) x.index)
      (sensitive_never_tgp r flow xs)
      (guard_tgp-false (normalize_action x.rule.action r.default_action))
  where
    pick :
        (b : Bool) (d e : Decision)
        → is_tgp d.action ≡ false
        → is_tgp e.action ≡ false
        → is_tgp (if b then d else e).action ≡ false
    pick true d e p q = p
    pick false d e p q = q

never_tgp :
    (r : Router) (flow : FlowKey)
    → requires_process r ≡ true
    → is_tgp (decide_unknown_process r flow).action ≡ false
unfolding decide_unknown_process
never_tgp r flow h = rw (h, decide_unknown_process) (sensitive_never_tgp r flow r.rules)

tgp_policy :
    (flow : FlowKey) (d : EngineDecision)
    → game_action flow d ≡ some tgp
    → is_udp_tgp d.udp_policy ≡ true
unfolding game_action action_from_policies
tgp_policy flow d h = by_fields flow.transport d.kind d.udp_policy d.tcp_policy h
  where
    by_fields :
        (t : Transport) (k : Kind) (u : UdpPolicy) (c : TcpPolicy)
        → game_action
            (record flow { transport = t })
            (record d { kind = k; udp_policy = u; tcp_policy = c })
          ≡ some tgp
        → is_udp_tgp u ≡ true
    by_fields t default_kind u c h = cc
    by_fields udp game_kind udp_tgp c h = refl
    by_fields udp game_kind udp_unset c h = cc
    by_fields udp game_kind udp_auto c h = cc
    by_fields udp game_kind udp_direct c h = cc
    by_fields udp game_kind udp_block c h = cc
    by_fields udp game_kind udp_other c h = cc
    by_fields tcp game_kind u tcp_unset h = cc
    by_fields tcp game_kind u tcp_auto h = cc
    by_fields tcp game_kind u tcp_direct h = cc
    by_fields tcp game_kind u tcp_block h = cc
    by_fields tcp game_kind u tcp_other h = cc

-- If the game engine sends any flow of any process through TGP, then no flow whose process is
-- unknown is sent through TGP.
pub unknown_game_blocked :
    (r : Router) (flow other : FlowKey) (proc : ProcessInfo)
    → game_action flow (engine_decide r.game_engine proc flow) ≡ some tgp
    → is_tgp (decide_unknown_process r other).action ≡ false
unfolding requires_process
unknown_game_blocked r flow other proc h =
    never_tgp r other (rw (decide-attributed r.game_engine proc flow (tgp_policy flow _ h)) refl)

-- If a rule that names a process asks for TGP, then no flow whose process is unknown is sent through
-- TGP.
pub unknown_rule_blocked :
    (r : Router) (other : FlowKey) (x : IndexedRule)
    → IsIn x r.rules
    → is_empty (trim_space x.rule.process_name) ≡ false
    → is_tgp (normalize_action x.rule.action r.default_action) ≡ true
    → is_tgp (decide_unknown_process r other).action ≡ false
unfolding requires_process names_tgp_process
unknown_rule_blocked r other x i named asks = never_tgp r other (
    or_right (requires_attribution r.game_engine) _
      (any-in (names_tgp_process r.default_action) r.rules x i (rw (named, asks) refl)))
  where
    or_right : (a b : Bool) → b ≡ true → (a || b) ≡ true
    or_right a b h = ground arith
