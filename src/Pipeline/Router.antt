-- ===== src/Pipeline/Router.antt =====
-- internal/pipeline/router.go: the action for a flow, with its process known or unknown.
-- The reason of a decision is a constructor of `Reason` in place of its text. A rule's CIDR is parsed.
pub mod Laws
use tachyon_core.Base.{
  ℕ, Bool, true, false, List, [], ◌∷◌, Option, none, some, if◌then◌else◌, ◌||◌, ◌&&◌, not, ◌==◌,
  ◌/◌, ◌^◌, ◌-◌, suc,
}
use tachyon_core.Base.Bytes.{Bytes, get_be}
use tachyon_core.Base.Ints.{ℤ, lt_int}
use tachyon_core.Base.Sorting.{stable_sort, any_where}
use tachyon_core.Base.Text.{same_text, is_empty, to_lower, equal_fold, trim_space}
use tachyon_core.Pidtrack.Flow.{ProcessInfo, FlowKey, Transport, tcp, udp, Ip, no_ip, v4, v6}
use tachyon_core.Routing.Engine.{
  Engine, decide as engine_decide, EngineDecision, UdpPolicy, TcpPolicy, udp_unset, udp_auto,
  udp_tgp, udp_direct, udp_block, udp_other, tcp_unset, tcp_auto, tcp_direct, tcp_block, tcp_other,
  Kind, default_kind, game_kind, requires_attribution,
}

pub data Action : Type 0 where
  tgp direct drop : Action

abbrev pub is_tgp : Action → Bool
is_tgp tgp = true
is_tgp direct = false
is_tgp drop = false

-- A rule's CIDR: none, a text that is no prefix, or an address with its number of bits.
pub data Cidr : Type 0 where
  no_cidr : Cidr
  bad_cidr : Cidr
  prefix : Ip → ℕ → Cidr

pub record RouteRule : Type 0 where
  pub priority : ℤ
  pub process_name : Bytes
  pub domain : Bytes
  pub cidr : Cidr
  pub geo_ip_country : Bytes
  pub protocol : Bytes
  pub action : Bytes

pub record IndexedRule : Type 0 where
  pub index : ℕ
  pub rule : RouteRule

pub record Router : Type 0 where
  pub rules : List IndexedRule
  pub default_action : Action
  pub game_engine : Engine

pub data Reason : Type 0 where
  game_reason : EngineDecision → Reason
  rule_matched default_action_reason fallback_blocked independent_decision : Reason

pub record Decision : Type 0 where
  pub action : Action
  pub reason : Reason
  pub rule_index : ℕ
  pub process_known : Bool
  pub process : Option ProcessInfo
  pub flow : FlowKey

-- "tgp"
abbrev tgp_word : Bytes
tgp_word = 116 ∷ 103 ∷ 112 ∷ []

-- "direct"
abbrev direct_word : Bytes
direct_word = 100 ∷ 105 ∷ 114 ∷ 101 ∷ 99 ∷ 116 ∷ []

-- "drop"
abbrev drop_word : Bytes
drop_word = 100 ∷ 114 ∷ 111 ∷ 112 ∷ []

-- "block"
abbrev block_word : Bytes
block_word = 98 ∷ 108 ∷ 111 ∷ 99 ∷ 107 ∷ []

-- "tcp"
abbrev tcp_word : Bytes
tcp_word = 116 ∷ 99 ∷ 112 ∷ []

-- "udp"
abbrev udp_word : Bytes
udp_word = 117 ∷ 100 ∷ 112 ∷ []

unfoldable pub normalize_action : Bytes → Action → Action
normalize_action raw fallback =
    let word = to_lower (trim_space raw) in
    if same_text word tgp_word
    then tgp
    else if same_text word direct_word
    then direct
    else if same_text word drop_word || same_text word block_word
    then drop
    else fallback

abbrev pub higher_priority : IndexedRule → IndexedRule → Bool
higher_priority r s = lt_int s.rule.priority r.rule.priority

abbrev number_rules : ℕ → List RouteRule → List IndexedRule
number_rules i [] = []
number_rules i (r ∷ rs) = record { index = i; rule = r } ∷ number_rules (suc i) rs

pub new_router : List RouteRule → Bytes → Engine → Router
new_router rules raw_default engine = record {
  rules = stable_sort higher_priority (number_rules 0 rules);
  default_action = normalize_action raw_default direct;
  game_engine = engine;
}

pub set_game_engine : Engine → Router → Router
set_game_engine engine r = record r { game_engine = engine }

-- The leading bits of two addresses of one family agree.
same_bits : ℕ → Bytes → Bytes → ℕ → Bool
same_bits width xs ys bits = get_be xs / 2 ^ (width - bits) == get_be ys / 2 ^ (width - bits)

-- netip.Prefix.Contains, false for a text that is no prefix.
pub cidr_contains : Cidr → Ip → Bool
unfolding same_bits
cidr_contains no_cidr ip = false
cidr_contains bad_cidr ip = false
cidr_contains (prefix no_ip bits) ip = false
cidr_contains (prefix (v4 a b c d) bits) no_ip = false
cidr_contains (prefix (v4 a b c d) bits) (v4 e f g h) =
    same_bits 32 (a ∷ b ∷ c ∷ d ∷ []) (e ∷ f ∷ g ∷ h ∷ []) bits
cidr_contains (prefix (v4 a b c d) bits) (v6 ys) = false
cidr_contains (prefix (v6 xs) bits) no_ip = false
cidr_contains (prefix (v6 xs) bits) (v4 e f g h) = false
cidr_contains (prefix (v6 xs) bits) (v6 ys) = same_bits 128 xs ys bits

abbrev pub transport_text : Transport → Bytes
transport_text tcp = tcp_word
transport_text udp = udp_word

abbrev pub has_cidr : Cidr → Bool
has_cidr no_cidr = false
has_cidr bad_cidr = true
has_cidr (prefix ip bits) = true

-- `process_name` is that of the process, empty if it is unknown.
pub route_rule_matches : RouteRule → FlowKey → Bytes → Bool
route_rule_matches rule flow process_name =
    if not (is_empty rule.protocol)
      && not (equal_fold rule.protocol (transport_text flow.transport))
    then false
    else if not (is_empty rule.process_name) && not (equal_fold rule.process_name process_name)
    then false
    else if has_cidr rule.cidr && not (cidr_contains rule.cidr flow.remote_ip)
    then false
    else if not (is_empty rule.domain)
    then false
    else if not (is_empty rule.geo_ip_country)
    then false
    else (not (is_empty rule.protocol) || not (is_empty rule.process_name) || has_cidr rule.cidr)

-- `none` is the empty action.
unfoldable pub action_from_policies : Transport → EngineDecision → Option Action
action_from_policies udp d = elim d.udp_policy [
  | udp_tgp ↦ some tgp
  | udp_direct ↦ some direct
  | udp_block ↦ some drop
  | udp_unset ↦ none
  | udp_auto ↦ none
  | udp_other ↦ none
]
action_from_policies tcp d = elim d.tcp_policy [
  | tcp_direct ↦ some direct
  | tcp_block ↦ some drop
  | tcp_unset ↦ none
  | tcp_auto ↦ none
  | tcp_other ↦ none
]

abbrev default_decision : Router → FlowKey → ProcessInfo → Decision
default_decision r flow proc = record {
  action = r.default_action;
  reason = default_action_reason;
  rule_index = 0;
  process_known = true;
  process = some proc;
  flow = flow;
}

-- The loop of Decide over the rules, by priority.
decide_by_rules : Router → FlowKey → ProcessInfo → List IndexedRule → Decision
decide_by_rules r flow proc [] = default_decision r flow proc
decide_by_rules r flow proc (x ∷ xs) =
    let rest = decide_by_rules r flow proc xs in
    if route_rule_matches x.rule flow proc.name
    then record {
      action = normalize_action x.rule.action r.default_action;
      reason = rule_matched;
      rule_index = x.index;
      process_known = true;
      process = some proc;
      flow = flow;
    }
    else rest

unfoldable pub game_action : FlowKey → EngineDecision → Option Action
game_action flow game = elim game.kind [
  | default_kind ↦ none
  | game_kind ↦ action_from_policies flow.transport game
]

unfoldable pub decide : Router → FlowKey → ProcessInfo → Decision
unfolding game_action decide_by_rules
decide r flow proc =
    let game = engine_decide r.game_engine proc flow in
    elim (game_action flow game) [
      | some action ↦ record {
        action = action;
        reason = game_reason game;
        rule_index = 0;
        process_known = true;
        process = some proc;
        flow = flow;
      }
      | none ↦ decide_by_rules r flow proc r.rules
    ]

-- Whether a rule sends a named process through TGP.
names_tgp_process : Action → IndexedRule → Bool
names_tgp_process default_action x =
    not (is_empty (trim_space x.rule.process_name))
    && is_tgp (normalize_action x.rule.action default_action)

pub requires_process : Router → Bool
unfolding names_tgp_process
requires_process r =
    requires_attribution r.game_engine || any_where (names_tgp_process r.default_action) r.rules

-- TGP is not an answer for an unknown process where a policy for TGP depends on the process.
guard_tgp : Bool → Action → Action
guard_tgp sensitive action = if is_tgp action && sensitive then drop else action

abbrev is_drop : Action → Bool
is_drop tgp = false
is_drop direct = false
is_drop drop = true

unknown_process_reason : Action → Bool → Reason
unknown_process_reason action sensitive =
    if is_drop action && sensitive then fallback_blocked else independent_decision

unknown_decision : FlowKey → Bool → Action → ℕ → Decision
unfolding guard_tgp unknown_process_reason
unknown_decision flow sensitive raw index =
    let action = guard_tgp sensitive raw in
    record {
      action = action;
      reason = unknown_process_reason action sensitive;
      rule_index = index;
      process_known = false;
      process = none;
      flow = flow;
    }

-- The second loop of DecideUnknownProcess and what follows it.
unknown_by_rules : Router → FlowKey → Bool → List IndexedRule → Decision
unfolding unknown_decision
unknown_by_rules r flow sensitive [] = unknown_decision flow sensitive r.default_action 0
unknown_by_rules r flow sensitive (x ∷ xs) =
    let rest = unknown_by_rules r flow sensitive xs in
    if not (is_empty (trim_space x.rule.process_name)) || not (route_rule_matches x.rule flow [])
    then rest
    else unknown_decision flow sensitive (normalize_action x.rule.action r.default_action) x.index

unfoldable pub decide_unknown_process : Router → FlowKey → Decision
unfolding unknown_by_rules requires_process
decide_unknown_process r flow = unknown_by_rules r flow (requires_process r) r.rules
