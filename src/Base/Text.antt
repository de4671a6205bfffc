-- ===== src/Base/Text.antt =====
-- Text in ASCII, and what the source uses of Go's strings, strconv and path on it.
use tachyon_core.Base.{
  ◌≡◌, refl, arith, ℕ, Bool, true, false, ◌&&◌, ◌||◌, List, [], ◌∷◌, Option, none, some, map, ltb,
  leb, ◌==◌, if◌then◌else◌, ◌+◌, ◌-◌, ◌*◌,
}
use tachyon_core.Base.Bytes.{Bytes}

unfoldable pub same_text : Bytes → Bytes → Bool
same_text [] [] = true
same_text [] (y ∷ ys) = false
same_text (x ∷ xs) [] = false
same_text (x ∷ xs) (y ∷ ys) = x == y && same_text xs ys

pub same_text_refl : (xs : Bytes) → same_text xs xs ≡ true
unfolding same_text
same_text_refl [] = refl
same_text_refl (x ∷ xs) = ground (arith, same_text_refl xs)

pub same_text→eq : (xs ys : Bytes) → same_text xs ys ≡ true → xs ≡ ys
unfolding same_text
same_text→eq [] [] h = refl
same_text→eq [] (y ∷ ys) h = absurd (ground arith)
same_text→eq (x ∷ xs) [] h = absurd (ground arith)
same_text→eq (x ∷ xs) (y ∷ ys) h = ground (arith, same_text→eq xs ys)

abbrev pub is_empty {ℓ} : {A : Type ℓ} → List A → Bool
is_empty [] = true
is_empty (x ∷ xs) = false

abbrev pub lower : ℕ → ℕ
lower c = if leb 65 c && leb c 90 then c + 32 else c

-- strings.ToLower and strings.EqualFold
unfoldable pub to_lower : Bytes → Bytes
to_lower = map lower

unfoldable pub equal_fold : Bytes → Bytes → Bool
equal_fold xs ys = same_text (to_lower xs) (to_lower ys)

abbrev pub is_space : ℕ → Bool
is_space c = (leb 9 c && leb c 13) || c == 32

unfoldable pub trim_left : Bytes → Bytes
trim_left [] = []
trim_left (c ∷ cs) = if is_space c then trim_left cs else c ∷ cs

unfoldable pub trim_right : Bytes → Bytes
trim_right [] = []
trim_right (c ∷ cs) =
    let rest = trim_right cs in if is_space c && is_empty rest then [] else c ∷ rest

-- strings.TrimSpace
unfoldable pub trim_space : Bytes → Bytes
unfolding trim_left trim_right
trim_space cs = trim_right (trim_left cs)

-- strings.HasPrefix(cs, prefix), strings.Contains(cs, part)
pub has_prefix : Bytes → Bytes → Bool
has_prefix [] cs = true
has_prefix (p ∷ ps) [] = false
has_prefix (p ∷ ps) (c ∷ cs) = p == c && has_prefix ps cs

pub contains : Bytes → Bytes → Bool
unfolding has_prefix
contains part [] = is_empty part
contains part (c ∷ cs) = has_prefix part (c ∷ cs) || contains part cs

-- strings.ReplaceAll for one byte
pub replace_byte : ℕ → ℕ → Bytes → Bytes
replace_byte old new = map (λ c. if c == old then new else c)

-- strings.TrimSuffix for one byte
pub trim_last : ℕ → Bytes → Bytes
trim_last last [] = []
trim_last last (c ∷ cs) =
    let rest = trim_last last cs in if is_empty cs && c == last then [] else c ∷ rest

read_digits : ℕ → Bytes → Option ℕ
read_digits value [] = some value
read_digits value (c ∷ cs) =
    if leb 48 c && leb c 57 then read_digits (value * 10 + (c - 48)) cs else none

-- strconv.ParseUint(cs, 10, 32)
pub parse_uint32 : Bytes → Option ℕ
unfolding read_digits
parse_uint32 [] = none
parse_uint32 (c ∷ cs) = elim (read_digits 0 (c ∷ cs)) [
  | none ↦ none
  | some value ↦ if ltb 0xffff_ffff value then none else some value
]
