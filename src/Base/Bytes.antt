-- ===== src/Base/Bytes.antt =====
-- Byte strings as lists of numbers, and Go's encoding/binary in big-endian order.
use tachyon_core.Base.{
  ℕ, zero, suc, ◌+◌, ◌-◌, ◌*◌, ◌/◌, ◌%◌, ◌^◌, ◌<◌, ◌≡◌, refl, sym, ap, ◌∙◌, List, [], ◌∷◌, ◌++◌,
  length, length-append, take, drop, slice, take-append, drop-append, drop-add, get_or, arith,
}
use native.Mathlib.Nat.{pow-suc}

abbrev pub Bytes : Type 0
Bytes = List ℕ

abbrev pub IsByte : ℕ → Type 0
IsByte b = b < 256

-- The `n` low bytes of a number, the highest first (PutUint16, PutUint32, PutUint64).
abbrev pub put_be : ℕ → ℕ → Bytes
put_be zero v = []
put_be (suc n) v = put_be n (v / 256) ++ (v % 256 ∷ [])

-- The number that big-endian bytes stand for (Uint16, Uint32, Uint64).
abbrev pub read_be : ℕ → Bytes → ℕ
read_be acc [] = acc
read_be acc (b ∷ bs) = read_be (acc * 256 + b) bs

abbrev pub get_be : Bytes → ℕ
get_be bs = read_be 0 bs

pub length-put_be : (n v : ℕ) → length (put_be n v) ≡ n
length-put_be zero v = refl
length-put_be (suc n) v =
    omega (arith, length-append (put_be n (v / 256)) (v % 256 ∷ []), length-put_be n (v / 256))

read_be-append : (acc b : ℕ) (xs : Bytes) → read_be acc (xs ++ (b ∷ [])) ≡ read_be acc xs * 256 + b
read_be-append acc b [] = refl
read_be-append acc b (x ∷ xs) = read_be-append (acc * 256 + x) b xs

-- Reading back the `n` bytes that were written.
pub get_be-put_be : (n v : ℕ) → v < 256 ^ n → get_be (put_be n v) ≡ v
get_be-put_be zero v h = omega arith
get_be-put_be (suc n) v h =
    read_be-append 0 (v % 256) (put_be n (v / 256))
    ∙ omega (arith, get_be-put_be n (v / 256) (omega (arith, pow-suc 256 n)))

-- A message is the concatenation of its fields.
abbrev pub join : List Bytes → Bytes
join [] = []
join (f ∷ fs) = f ++ join fs

abbrev pub offset : List Bytes → ℕ → ℕ
offset [] k = 0
offset (f ∷ fs) zero = 0
offset (f ∷ fs) (suc k) = length f + offset fs k

take-drop-join :
    (fs : List Bytes) (k : ℕ)
    → k < length fs
    → take (length (get_or fs k [])) (drop (offset fs k) (join fs)) ≡ get_or fs k []
take-drop-join [] k h = elim h [ ]
take-drop-join (f ∷ fs) zero h = take-append f (join fs) (length f) refl
take-drop-join (f ∷ fs) (suc k) h =
    rw (drop-add (length f) (offset fs k) (f ++ join fs), drop-append f (join fs) (length f) refl)
      (take-drop-join fs k (omega arith))

-- The slice at a field's offset is that field.
pub slice-join :
    (fs : List Bytes) (k a b : ℕ)
    → k < length fs
    → a ≡ offset fs k
    → b ≡ a + length (get_or fs k [])
    → slice (join fs) a b ≡ get_or fs k []
slice-join fs k a b h p q =
    let width : b - a ≡ length (get_or fs k []) = omega arith in
    rw (width, p) (take-drop-join fs k h)

get_or-take : (xs : Bytes) (n d : ℕ) → get_or (take (suc n) xs) 0 d ≡ get_or xs 0 d
get_or-take [] n d = refl
get_or-take (x ∷ xs) n d = refl

get_or-drop : (xs : Bytes) (k d : ℕ) → get_or (drop k xs) 0 d ≡ get_or xs k d
get_or-drop [] zero d = refl
get_or-drop [] (suc k) d = refl
get_or-drop (x ∷ xs) zero d = refl
get_or-drop (x ∷ xs) (suc k) d = get_or-drop xs k d

-- A one-byte field is read by its offset.
pub get_or-join :
    (fs : List Bytes) (k a b : ℕ)
    → k < length fs
    → a ≡ offset fs k
    → get_or fs k [] ≡ b ∷ []
    → get_or (join fs) a 0 ≡ b
get_or-join fs k a b h p q =
    sym (get_or-drop (join fs) a 0)
    ∙ sym (get_or-take (drop a (join fs)) 0 0)
    ∙ ap (λ f. get_or f 0 0) one
  where
    width : suc a - a ≡ 1
    width = omega arith

    one : take 1 (drop a (join fs)) ≡ b ∷ []
    one = rw width at (slice-join fs k a (suc a) h p (rw q (omega arith)) ∙ q)

-- What follows a field's offset is the rest of the fields.
pub drop-join : (fs : List Bytes) (k a : ℕ) → a ≡ offset fs k → drop a (join fs) ≡ join (drop k fs)
drop-join [] zero a p = rw p refl
drop-join [] (suc k) a p = rw p refl
drop-join (f ∷ fs) zero a p = rw p refl
drop-join (f ∷ fs) (suc k) a p =
    rw
      (p, drop-add (length f) (offset fs k) (f ++ join fs), drop-append f (join fs) (length f) refl)
      (drop-join fs k (offset fs k) refl)
