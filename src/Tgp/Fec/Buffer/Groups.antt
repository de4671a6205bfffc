-- ===== src/Tgp/Fec/Buffer/Groups.antt =====
-- internal/tgp/fec.go: the state of one group of shards, and the map of groups.
use tachyon_core.Base.{
  ℕ, zero, suc, ◌+◌, ◌≤◌, ◌≡◌, refl, Bool, true, false, ◌&&◌, List, [], ◌∷◌, Option, none, some,
  length, get_or, ◌==◌, if◌then◌else◌, arith, ◌||◌,
}
use tachyon_core.Base.Bytes.{Bytes}

-- FECGroupState. A shard that has not come is nil, the empty list.
pub record Group : Type 0 where
  pub group_id : ℕ
  pub data_shards : ℕ
  pub shards : List Bytes
  pub delivered : List Bool
  pub received_at : ℕ
  pub recovered : Bool

pub lookup : ℕ → List Group → Option Group
lookup id [] = none
lookup id (g ∷ gs) = if g.group_id == id then some g else lookup id gs

pub store : Group → List Group → List Group
store g [] = g ∷ []
store g (h ∷ hs) = if h.group_id == g.group_id then g ∷ hs else h ∷ store g hs

pub delete : ℕ → List Group → List Group
delete id [] = []
delete id (g ∷ gs) = if g.group_id == id then delete id gs else g ∷ delete id gs

pub shard_bytes : List Bytes → ℕ
shard_bytes [] = 0
shard_bytes (s ∷ ss) = length s + shard_bytes ss

-- missingDataShardIndexes: the loop from `from` over the data shards.
pub missing_from : ℕ → ℕ → List Bytes → List ℕ
missing_from from zero shards = []
missing_from from (suc count) shards =
    let rest = missing_from (suc from) count shards in
    if length (get_or shards from []) == 0 then from ∷ rest else rest

abbrev pub missing_indexes : ℕ → List Bytes → List ℕ
missing_indexes data_shards shards = missing_from 0 data_shards shards

pub all_true : List Bool → Bool
all_true [] = true
all_true (d ∷ ds) = d && all_true ds

pub has : ℕ → List Group → Bool
has id [] = false
has id (g ∷ gs) = g.group_id == id || has id gs

pub lookup-has : (id : ℕ) (gs : List Group) (g : Group) → lookup id gs ≡ some g → has id gs ≡ true
unfolding lookup has
lookup-has id [] g e = cc
lookup-has id (h ∷ hs) g e = ground (arith, lookup-has id hs g)

pub lookup-group_id :
    (id : ℕ) (gs : List Group) (g : Group) → lookup id gs ≡ some g → g.group_id ≡ id
unfolding lookup
lookup-group_id id [] g e = cc
lookup-group_id id (h ∷ hs) g e = ground (arith, lookup-group_id id hs g)

pub has-store :
    (id : ℕ) (g : Group) (gs : List Group) → has id (store g gs) ≡ (g.group_id == id || has id gs)
unfolding has store
has-store id g [] = refl
has-store id g (h ∷ hs) = ground (arith, has-store id g hs)

pub length-store :
    (g : Group) (gs : List Group)
    → length (store g gs) ≡ (if has g.group_id gs then length gs else suc (length gs))
unfolding has store
length-store g [] = refl
length-store g (h ∷ hs) = ground (arith, length-store g hs)

pub length-delete-le : (id : ℕ) (gs : List Group) → length (delete id gs) ≤ length gs
unfolding delete
length-delete-le id [] = omega arith
length-delete-le id (g ∷ gs) = ground (arith, length-delete-le id gs)

pub lookup-store :
    (id : ℕ) (g : Group) (gs : List Group)
    → lookup id (store g gs) ≡ (if g.group_id == id then some g else lookup id gs)
unfolding lookup store
lookup-store id g [] = refl
lookup-store id g (h ∷ hs) = ground (arith, lookup-store id g hs)

pub lookup-delete :
    (id k : ℕ) (gs : List Group)
    → lookup id (delete k gs) ≡ (if k == id then none else lookup id gs)
unfolding lookup delete
lookup-delete id k [] = ground arith
lookup-delete id k (h ∷ hs) = ground (arith, lookup-delete id k hs)
