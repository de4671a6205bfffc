-- ===== src/Routing/Engine.antt =====
-- internal/routing/profile.go: the engine's decision on a process.
-- The reason of a decision is a constructor of `Reason` in place of its text.
pub mod Laws
use tachyon_core.Base.{
  ℕ, Bool, true, false, List, [], ◌∷◌, Option, none, some, if◌then◌else◌, ◌||◌, ◌&&◌, not,
}
use tachyon_core.Base.Bytes.{Bytes}
use tachyon_core.Base.Ints.{ℤ, lt_int}
use tachyon_core.Base.Sorting.{stable_sort, first_where, any_where}
use tachyon_core.Pidtrack.Flow.{ProcessInfo, FlowKey, Transport, tcp, udp}
use tachyon_core.Routing.Match.{MatchRule, rule_matches, is_steam_game_process}

-- `udp_unset` is the empty string; any other text is `udp_other`.
pub data UdpPolicy : Type 0 where
  udp_unset udp_auto udp_tgp udp_direct udp_block udp_other : UdpPolicy

pub data TcpPolicy : Type 0 where
  tcp_unset tcp_auto tcp_direct tcp_block tcp_other : TcpPolicy

pub data Kind : Type 0 where
  default_kind game_kind : Kind

pub data Reason : Type 0 where
  manual_profile automatic_profile steam_process no_profile : Reason

pub record GameProfile : Type 0 where
  pub id : Bytes
  pub enabled : Bool
  pub manual : Bool
  pub priority : ℤ
  pub match_rule : MatchRule
  pub udp_policy : UdpPolicy
  pub tcp_policy : TcpPolicy

pub record SteamPolicy : Type 0 where
  pub enabled : Bool
  pub track_child_processes : Bool
  pub accelerate_game_udp : Bool
  pub accelerate_steam_downloads : Bool

pub record Engine : Type 0 where
  pub profiles : List GameProfile
  pub steam : SteamPolicy

pub record EngineDecision : Type 0 where
  pub kind : Kind
  pub udp_policy : UdpPolicy
  pub tcp_policy : TcpPolicy
  pub profile_id : Bytes
  pub reason : Reason

unfoldable pub default_udp_policy : UdpPolicy → UdpPolicy
default_udp_policy udp_unset = udp_tgp
default_udp_policy udp_auto = udp_auto
default_udp_policy udp_tgp = udp_tgp
default_udp_policy udp_direct = udp_direct
default_udp_policy udp_block = udp_block
default_udp_policy udp_other = udp_other

pub default_tcp_policy : TcpPolicy → TcpPolicy
default_tcp_policy tcp_unset = tcp_auto
default_tcp_policy tcp_auto = tcp_auto
default_tcp_policy tcp_direct = tcp_direct
default_tcp_policy tcp_block = tcp_block
default_tcp_policy tcp_other = tcp_other

abbrev pub is_udp_tgp : UdpPolicy → Bool
is_udp_tgp udp_unset = false
is_udp_tgp udp_auto = false
is_udp_tgp udp_tgp = true
is_udp_tgp udp_direct = false
is_udp_tgp udp_block = false
is_udp_tgp udp_other = false

unfoldable pub requires_attribution : Engine → Bool
requires_attribution e =
    any_where (λ (p : GameProfile). p.enabled && is_udp_tgp (default_udp_policy p.udp_policy))
      e.profiles
    || (e.steam.enabled && e.steam.track_child_processes && e.steam.accelerate_game_udp)

-- The less function of the sort, over the fields that it reads.
abbrev pub ranks_before : Bool → ℤ → Bool → ℤ → Bool
ranks_before true m true n = lt_int n m
ranks_before true m false n = true
ranks_before false m true n = false
ranks_before false m false n = lt_int n m

abbrev pub goes_before : GameProfile → GameProfile → Bool
goes_before p q = ranks_before p.manual p.priority q.manual q.priority

unfoldable pub sorted_profiles : Engine → List GameProfile
sorted_profiles e = stable_sort goes_before e.profiles

unfoldable pub game_decision : GameProfile → Reason → EngineDecision
game_decision p reason = record {
  kind = game_kind;
  udp_policy = default_udp_policy p.udp_policy;
  tcp_policy = default_tcp_policy p.tcp_policy;
  profile_id = p.id;
  reason = reason;
}

abbrev pub manual_match : ProcessInfo → GameProfile → Bool
manual_match proc p = p.enabled && p.manual && rule_matches p.match_rule proc

abbrev pub automatic_match : ProcessInfo → GameProfile → Bool
automatic_match proc p = p.enabled && not p.manual && rule_matches p.match_rule proc

abbrev pub is_udp_flow : Transport → Bool
is_udp_flow tcp = false
is_udp_flow udp = true

abbrev pub accelerates_steam : Engine → ProcessInfo → FlowKey → Bool
accelerates_steam e proc flow =
    (e.steam.enabled && e.steam.track_child_processes && is_steam_game_process proc)
    && (is_udp_flow flow.transport && e.steam.accelerate_game_udp)

unfoldable pub decide : Engine → ProcessInfo → FlowKey → EngineDecision
unfolding game_decision sorted_profiles
decide e proc flow = elim (first_where (manual_match proc) (sorted_profiles e)) [
  | some p ↦ game_decision p manual_profile
  | none ↦
      if accelerates_steam e proc flow
      then record {
        kind = game_kind;
        udp_policy = udp_tgp;
        tcp_policy = tcp_auto;
        profile_id = [];
        reason = steam_process;
      }
      else elim (first_where (automatic_match proc) (sorted_profiles e)) [
        | some p ↦ game_decision p automatic_profile
        | none ↦ record {
          kind = default_kind;
          udp_policy = udp_auto;
          tcp_policy = tcp_auto;
          profile_id = [];
          reason = no_profile;
        }
      ]
]
