-- ===== src/Base/Paths.antt =====
-- Go's path.Clean: slash-separated paths made canonical.
use tachyon_core.Base.{Bool, false, ◌||◌, List, [], ◌∷◌, ◌++◌, ◌==◌, if◌then◌else◌}
use tachyon_core.Base.Bytes.{Bytes}
use tachyon_core.Base.Text.{same_text, is_empty}

-- The parts between the slashes.
pub split_path : Bytes → List Bytes
split_path [] = [] ∷ []
split_path (c ∷ cs) =
    let rest = split_path cs in
    if c == 47 then [] ∷ rest else elim rest [ [] ↦ (c ∷ []) ∷ [] | p ∷ ps ↦ (c ∷ p) ∷ ps ]

abbrev pub dot : Bytes
dot = 46 ∷ []

abbrev pub dot_dot : Bytes
dot_dot = 46 ∷ 46 ∷ []

-- `..` takes off the last part, if there is one that is not `..` itself; at the root it is dropped.
pub step_up : Bool → List Bytes → List Bytes
step_up rooted [] = if rooted then [] else dot_dot ∷ []
step_up rooted (p ∷ ps) = if same_text p dot_dot then dot_dot ∷ p ∷ ps else ps

-- The parts that are kept, the last one first.
pub keep_parts : Bool → List Bytes → List Bytes → List Bytes
unfolding step_up
keep_parts rooted kept [] = kept
keep_parts rooted kept (p ∷ ps) =
    if is_empty p || same_text p dot
    then keep_parts rooted kept ps
    else if same_text p dot_dot
    then keep_parts rooted (step_up rooted kept) ps
    else keep_parts rooted (p ∷ kept) ps

pub join_parts : List Bytes → Bytes → Bytes
join_parts [] end = end
join_parts (p ∷ ps) end = if is_empty end then join_parts ps p else join_parts ps (p ++ (47 ∷ end))

abbrev pub is_rooted : Bytes → Bool
is_rooted [] = false
is_rooted (c ∷ cs) = c == 47

pub clean : Bytes → Bytes
unfolding split_path keep_parts join_parts
clean path =
    let rooted = is_rooted path in
    let text = join_parts (keep_parts rooted [] (split_path path)) [] in
    if rooted then 47 ∷ text else if is_empty text then dot else text
