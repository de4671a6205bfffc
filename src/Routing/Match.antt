-- ===== src/Routing/Match.antt =====
-- internal/routing/profile.go: whether a process matches a rule, and whether it is a Steam game.
-- Text is ASCII.
use tachyon_core.Base.{
  ℕ, Bool, true, false, List, [], ◌∷◌, ◌++◌, Option, none, some, if◌then◌else◌, ◌==◌, ◌||◌, ◌&&◌,
  not, drop,
}
use tachyon_core.Base.Bytes.{Bytes}
use tachyon_core.Base.Text.{
  same_text, is_empty, to_lower, equal_fold, trim_space, has_prefix, contains, replace_byte,
  trim_last, parse_uint32,
}
use tachyon_core.Base.Paths.{clean}
use tachyon_core.Pidtrack.Flow.{ProcessInfo, ProcessSummary}

pub record MatchRule : Type 0 where
  pub process_names : List Bytes
  pub paths : List Bytes
  pub path_prefixes : List Bytes
  pub sha256 : List Bytes
  pub steam_app_ids : List ℕ

unfoldable pub contains_fold : List Bytes → Bytes → Bool
contains_fold [] target = false
contains_fold (value ∷ values) target = equal_fold value target || contains_fold values target

pub contains_uint32 : List ℕ → ℕ → Bool
contains_uint32 [] target = false
contains_uint32 (value ∷ values) target = value == target || contains_uint32 values target

pub normalize_path : Bytes → Bytes
normalize_path path =
    let trimmed = trim_space path in
    if is_empty trimmed then [] else to_lower (clean (replace_byte 92 47 trimmed))

pub path_prefix_match : Bytes → Bytes → Bool
path_prefix_match prefix target =
    if is_empty prefix || is_empty target
    then false
    else if same_text prefix target
    then true
    else has_prefix (trim_last 47 prefix ++ (47 ∷ [])) target

path_equals_normalized : List Bytes → Bytes → Bool
path_equals_normalized [] target = false
path_equals_normalized (value ∷ values) target =
    same_text (normalize_path value) target || path_equals_normalized values target

pub path_equals_any : List Bytes → Bytes → Bool
unfolding path_equals_normalized
path_equals_any values target = path_equals_normalized values (normalize_path target)

path_has_prefix_normalized : List Bytes → Bytes → Bool
path_has_prefix_normalized [] target = false
path_has_prefix_normalized (prefix ∷ prefixes) target =
    path_prefix_match (normalize_path prefix) target || path_has_prefix_normalized prefixes target

pub path_has_prefix_any : List Bytes → Bytes → Bool
unfolding path_has_prefix_normalized
path_has_prefix_any prefixes target = path_has_prefix_normalized prefixes (normalize_path target)

-- "steam_app_id"
abbrev steam_tag : Bytes
steam_tag = 115 ∷ 116 ∷ 101 ∷ 97 ∷ 109 ∷ 95 ∷ 97 ∷ 112 ∷ 112 ∷ 95 ∷ 105 ∷ 100 ∷ []

-- "-steam_appid"
abbrev steam_flag : Bytes
steam_flag = 45 ∷ 115 ∷ 116 ∷ 101 ∷ 97 ∷ 109 ∷ 95 ∷ 97 ∷ 112 ∷ 112 ∷ 105 ∷ 100 ∷ []

-- "-steam_appid="
abbrev steam_assignment : Bytes
steam_assignment = 45 ∷ 115 ∷ 116 ∷ 101 ∷ 97 ∷ 109 ∷ 95 ∷ 97 ∷ 112 ∷ 112 ∷ 105 ∷ 100 ∷ 61 ∷ []

-- "steam.exe"
abbrev steam_exe : Bytes
steam_exe = 115 ∷ 116 ∷ 101 ∷ 97 ∷ 109 ∷ 46 ∷ 101 ∷ 120 ∷ 101 ∷ []

-- "steamwebhelper.exe"
abbrev steam_helper : Bytes
steam_helper =
    115 ∷ 116 ∷ 101 ∷ 97 ∷ 109 ∷ 119 ∷ 101 ∷ 98 ∷ 104 ∷ 101 ∷ 108 ∷ 112 ∷ 101 ∷ 114 ∷ 46 ∷ 101 ∷ 120
    ∷ 101 ∷ []

-- "steamservice.exe"
abbrev steam_service : Bytes
steam_service =
    115 ∷ 116 ∷ 101 ∷ 97 ∷ 109 ∷ 115 ∷ 101 ∷ 114 ∷ 118 ∷ 105 ∷ 99 ∷ 101 ∷ 46 ∷ 101 ∷ 120 ∷ 101 ∷ []

-- "steam"
abbrev steam : Bytes
steam = 115 ∷ 116 ∷ 101 ∷ 97 ∷ 109 ∷ []

-- "/steamapps/common/"
abbrev steam_folder : Bytes
steam_folder =
    47 ∷ 115 ∷ 116 ∷ 101 ∷ 97 ∷ 109 ∷ 97 ∷ 112 ∷ 112 ∷ 115 ∷ 47 ∷ 99 ∷ 111 ∷ 109 ∷ 109 ∷ 111 ∷ 110
    ∷ 47 ∷ []

-- `proc.Tags["steam_app_id"]`, empty if there is none.
tag_value : Bytes → List (Bytes × Bytes) → Bytes
tag_value key [] = []
tag_value key ((k, v) ∷ tags) = if same_text k key then v else tag_value key tags

parse_argument : List Bytes → Option ℕ
parse_argument [] = none
parse_argument (raw ∷ args) = parse_uint32 raw

-- The loop over the command line.
app_id_of_arguments : List Bytes → Option ℕ
unfolding parse_argument
app_id_of_arguments [] = none
app_id_of_arguments (arg ∷ args) =
    let rest = app_id_of_arguments args in
    let separate = if equal_fold arg steam_flag then parse_argument args else none in
    let joined =
      if has_prefix steam_assignment (to_lower arg)
      then parse_uint32 (drop 13 (to_lower arg))
      else none in
    elim separate [ some id ↦ some id | none ↦ elim joined [ some id ↦ some id | none ↦ rest ] ]

pub steam_app_id : ProcessInfo → Option ℕ
unfolding app_id_of_arguments tag_value
steam_app_id proc =
    let raw = tag_value steam_tag proc.tags in
    let tagged = if is_empty raw then none else parse_uint32 raw in
    elim tagged [ some id ↦ some id | none ↦ app_id_of_arguments proc.command_line ]

matches_app_id : List ℕ → ProcessInfo → Bool
matches_app_id ids proc = elim (steam_app_id proc) [
  | none ↦ false
  | some id ↦ contains_uint32 ids id
]

-- The tests for empty lists leave out only searches that fail.
unfoldable pub rule_matches : MatchRule → ProcessInfo → Bool
unfolding matches_app_id
rule_matches m proc =
    (not (is_empty m.process_names) && contains_fold m.process_names proc.name)
    || (not (is_empty m.paths) && path_equals_any m.paths proc.executable_path)
    || (not (is_empty m.path_prefixes) && path_has_prefix_any m.path_prefixes proc.executable_path)
    || (not (is_empty m.sha256) && contains_fold m.sha256 proc.sha256)
    || (not (is_empty m.steam_app_ids) && matches_app_id m.steam_app_ids proc)

has_steam_ancestor : List ProcessSummary → Bool
has_steam_ancestor [] = false
has_steam_ancestor (a ∷ ancestors) =
    same_text (to_lower a.name) steam_exe
    || same_text (to_lower a.name) steam
    || has_steam_ancestor ancestors

pub is_steam_game_process : ProcessInfo → Bool
unfolding has_steam_ancestor
is_steam_game_process proc =
    let name = to_lower proc.name in
    if same_text name steam_exe || same_text name steam_helper || same_text name steam_service
    then false
    else elim (steam_app_id proc) [
      | some id ↦ true
      | none ↦
          contains steam_folder (normalize_path proc.executable_path)
          || has_steam_ancestor proc.ancestors
    ]
