-- ===== src/Pipeline/Tests.antt =====
-- Runs of internal/pidtrack, internal/routing and internal/pipeline on one client's policies.
use tachyon_core.Base.{
  if◌then◌else◌, ltb, ℕ, true, false, [], ◌∷◌, some, none, ◌≡◌, refl, ◌+◌, inl, List,
}
use tachyon_core.Base.Bytes.{Bytes}
use tachyon_core.Base.Ints.{pos, lt_int}
use tachyon_core.Base.Sorting.{stable_sort, insert, IsIn}
use tachyon_core.Base.Text.{same_text, to_lower, equal_fold}
use tachyon_core.Base.Outcome.{ok}
use tachyon_core.Pidtrack.Flow.{FlowKey, ProcessInfo, udp, v4}
use tachyon_core.Pidtrack.Tracker.{
  Attempt, failed, found, cached, key_of, lookup_flow, look_up, no_process, try_provider, cache_ttl,
}
use tachyon_core.Pidtrack.Tracker.Laws.{lookup_flow_failed, lookup_flow_again}
use tachyon_core.Routing.Match.{MatchRule, rule_matches, contains_fold}
use tachyon_core.Routing.Engine.{
  Engine, GameProfile, udp_unset, tcp_auto, decide as engine_decide, sorted_profiles, game_decision,
  manual_match, manual_profile, is_udp_tgp, default_udp_policy,
}
use tachyon_core.Routing.Engine.Laws.{decide-manual}
use tachyon_core.Pipeline.Router.{
  Router, RouteRule, tgp, drop, is_tgp, no_cidr, decide_unknown_process, game_action,
  action_from_policies,
}
use tachyon_core.Pipeline.Router.Laws.{unknown_game_blocked}

-- "cs2", in two cases.
abbrev game : Bytes
game = 99 ∷ 115 ∷ 50 ∷ []

abbrev game_upper : Bytes
game_upper = 67 ∷ 83 ∷ 50 ∷ []

abbrev player : ProcessInfo
player = record no_process { pid = 7; name = game_upper }

abbrev names_game : MatchRule
names_game = record {
  process_names = game ∷ [];
  paths = [];
  path_prefixes = [];
  sha256 = [];
  steam_app_ids = [];
}

abbrev profile : ℕ → GameProfile
profile n = record {
  id = n ∷ [];
  enabled = true;
  manual = true;
  priority = pos n;
  match_rule = names_game;
  udp_policy = udp_unset;
  tcp_policy = tcp_auto;
}

abbrev engine : Engine
engine = record {
  profiles = profile 3 ∷ profile 5 ∷ [];
  steam = record {
    enabled = false;
    track_child_processes = false;
    accelerate_game_udp = false;
    accelerate_steam_downloads = false;
  };
}

abbrev flow : FlowKey
flow = record {
  transport = udp;
  local_ip = v4 10 0 0 2;
  local_port = 4000;
  remote_ip = v4 10 0 0 1;
  remote_port = 27015;
}

abbrev rule : Bytes → RouteRule
rule process = record {
  priority = pos 0;
  process_name = process;
  domain = [];
  cidr = no_cidr;
  geo_ip_country = [];
  protocol = 117 ∷ 100 ∷ 112 ∷ [];
  action = 116 ∷ 103 ∷ 112 ∷ [];
}

-- All UDP goes through TGP, and a rule names the game besides.
abbrev router : Router
router = record {
  rules = record { index = 0; rule = rule [] } ∷ record { index = 1; rule = rule game } ∷ [];
  default_action = drop;
  game_engine = engine;
}

matched : manual_match player (profile 3) ≡ true
unfolding rule_matches contains_fold equal_fold to_lower same_text
matched = refl

decide-manual_example :
    (p : GameProfile) × IsIn p engine.profiles
    × (manual_match player p ≡ true)
    × (lt_int p.priority (pos 3) ≡ false)
    × (engine_decide engine player flow ≡ game_decision p manual_profile)
decide-manual_example = decide-manual engine player flow (profile 3) (inl refl) matched

accelerated : is_udp_tgp (engine_decide engine player flow).udp_policy ≡ true
unfolding engine_decide sorted_profiles stable_sort insert game_decision default_udp_policy
    rule_matches contains_fold equal_fold to_lower same_text
accelerated = refl

by_game : game_action flow (engine_decide engine player flow) ≡ some tgp
unfolding game_action action_from_policies engine_decide sorted_profiles stable_sort insert
    game_decision default_udp_policy rule_matches contains_fold equal_fold to_lower same_text
by_game = refl

unknown_game_blocked_example : is_tgp (decide_unknown_process router flow).action ≡ false
unknown_game_blocked_example = unknown_game_blocked router flow flow player by_game

abbrev never_found : ℕ → Attempt
never_found i = failed

abbrev at_once : ℕ → Attempt
at_once i = found player

missing : cached (key_of flow) [] ≡ none
unfolding cached
missing = refl

answered : try_provider true 3 at_once ≡ ok (some player)
unfolding try_provider
answered = refl

given_up : lookup_flow [] flow 100 200 never_found ≡ ([], ok no_process)
given_up = lookup_flow_failed [] flow 100 200 never_found missing (refl, refl, refl)

lookup_flow_again_example :
    let cache = (lookup_flow [] flow 100 200 at_once).0 in
    lookup_flow cache flow 300 400 never_found ≡ (
      if ltb 300 (200 + cache_ttl)
      then (cache, ok player)
      else look_up cache (key_of flow) 400 never_found)
lookup_flow_again_example =
    lookup_flow_again [] flow 100 200 at_once player 300 400 never_found missing answered

-- A UDP packet of the game, one that is not supported, and an empty read.
abbrev packets : List Bytes
packets =
    (69 ∷ 0 ∷ 0 ∷ 29 ∷ 0 ∷ 0 ∷ 0 ∷ 0 ∷ 64 ∷ 17 ∷ 0 ∷ 0 ∷ 10 ∷ 0 ∷ 0 ∷ 2 ∷ 10 ∷ 0 ∷ 0 ∷ 1 ∷ 15 ∷ 160
      ∷ 105 ∷ 135 ∷ 0 ∷ 9 ∷ 0 ∷ 0 ∷ 7 ∷ [])
    ∷ (32 ∷ [])
    ∷ []
    ∷ []
