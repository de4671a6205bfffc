-- ===== src/Base/Sorting.antt =====
-- Go's sort.SliceStable, as the insertion sort with the same result, and what is found first in it.
use tachyon_core.Base.{
  ◌∙◌, arith, subst, refl, sym, Bool-cases, Bool, true, false, List, [], ◌∷◌, Option, none, some,
  if◌then◌else◌, ◌≡◌, ◌⊎◌, inl, inr, ◌||◌,
}

module _ {A : Type 0} (less : A → A → Bool) where
  -- An element goes before the elements that it equals: it stood before them.
  unfoldable pub insert : A → List A → List A
  insert x [] = x ∷ []
  insert x (y ∷ ys) = let rest = insert x ys in if less y x then y ∷ rest else x ∷ y ∷ ys

  unfoldable pub stable_sort : List A → List A
  unfolding insert
  stable_sort [] = []
  stable_sort (x ∷ xs) = insert x (stable_sort xs)

module _ {A : Type 0} (p : A → Bool) where
  abbrev pub first_where : List A → Option A
  first_where [] = none
  first_where (x ∷ xs) = if p x then some x else first_where xs

  abbrev pub any_where : List A → Bool
  any_where [] = false
  any_where (x ∷ xs) = p x || any_where xs

abbrev pub IsIn : {A : Type 0} → A → List A → Type 0
IsIn x [] = ⊥
IsIn x (y ∷ ys) = (x ≡ y) ⊎ IsIn x ys

-- An order by `less`: what does not go before what does not go before something, does not either.
pub record IsWeakOrder {A : Type 0} (less : A → A → Bool) : Type 0 where
  pub trans : (a b c : A) → less a b ≡ false → less b c ≡ false → less a c ≡ false
  pub asym : (a b : A) → less a b ≡ true → less b a ≡ false

module _ {A : Type 0} (less : A → A → Bool) (w : IsWeakOrder less) where
  irreflexive : (x : A) → less x x ≡ false
  irreflexive x = elim (Bool-cases (less x x)) [ inl e ↦ w.asym x x e | inr e ↦ e ]

  clash : ◌≡◌ {A = Bool} true false → ⊥
  clash e = cc

  abbrev IsSorted : List A → Type 0
  IsSorted [] = Unit
  IsSorted (x ∷ xs) = ((y : A) → IsIn y xs → less y x ≡ false) × IsSorted xs

  insert_past :
      (x z : A) (zs : List A) → less z x ≡ true → insert less x (z ∷ zs) ≡ z ∷ insert less x zs
  unfolding insert
  insert_past x z zs e = rw e refl

  insert_here : (x z : A) (zs : List A) → less z x ≡ false → insert less x (z ∷ zs) ≡ x ∷ z ∷ zs
  unfolding insert
  insert_here x z zs e = rw e refl

  IsIn-insert : (x y : A) (ys : List A) → IsIn y (insert less x ys) → (y ≡ x) ⊎ IsIn y ys
  unfolding insert
  IsIn-insert x y [] h = h
  IsIn-insert x y (z ∷ zs) h = elim (Bool-cases (less z x)) [
    | inl e ↦ elim (subst (IsIn y) (insert_past x z zs e) h) [
      | inl q ↦ inr (inl q)
      | inr i ↦ elim (IsIn-insert x y zs i) [ inl q ↦ inl q | inr j ↦ inr (inr j) ]
    ]
    | inr e ↦ subst (IsIn y) (insert_here x z zs e) h
  ]

  insert-IsIn : (x y : A) (ys : List A) → (y ≡ x) ⊎ IsIn y ys → IsIn y (insert less x ys)
  unfolding insert
  insert-IsIn x y [] h = h
  insert-IsIn x y (z ∷ zs) h = elim (Bool-cases (less z x)) [
    | inl e ↦ subst (IsIn y) (sym (insert_past x z zs e)) (elim h [
      | inl q ↦ inr (insert-IsIn x y zs (inl q))
      | inr i ↦ elim i [ inl q ↦ inl q | inr j ↦ inr (insert-IsIn x y zs (inr j)) ]
    ])
    | inr e ↦ subst (IsIn y) (sym (insert_here x z zs e)) h
  ]

  insert-IsSorted : (x : A) (ys : List A) → IsSorted ys → IsSorted (insert less x ys)
  unfolding insert
  insert-IsSorted x [] s = (λ y i. absurd i, tt)
  insert-IsSorted x (z ∷ zs) (first, s) = elim (Bool-cases (less z x)) [
    | inl e ↦ subst IsSorted (sym (insert_past x z zs e)) (
      (λ y i. elim (IsIn-insert x y zs i) [ inl q ↦ rw q (w.asym z x e) | inr j ↦ first y j ]),
      insert-IsSorted x zs s,
    )
    | inr e ↦
        subst IsSorted (sym (insert_here x z zs e))
          ((λ y i. elim i [ inl q ↦ rw q e | inr j ↦ w.trans y z x (first y j) e ]), (first, s))
  ]

  sort-IsSorted : (xs : List A) → IsSorted (stable_sort less xs)
  unfolding stable_sort
  sort-IsSorted [] = tt
  sort-IsSorted (x ∷ xs) = insert-IsSorted x (stable_sort less xs) (sort-IsSorted xs)

  IsIn-sort : (y : A) (xs : List A) → IsIn y (stable_sort less xs) → IsIn y xs
  unfolding stable_sort
  IsIn-sort y [] h = h
  IsIn-sort y (x ∷ xs) h = elim (IsIn-insert x y (stable_sort less xs) h) [
    | inl q ↦ inl q
    | inr i ↦ inr (IsIn-sort y xs i)
  ]

  sort-IsIn : (y : A) (xs : List A) → IsIn y xs → IsIn y (stable_sort less xs)
  unfolding stable_sort
  sort-IsIn y [] h = h
  sort-IsIn y (x ∷ xs) h =
      insert-IsIn x y (stable_sort less xs)
        (elim h [ inl q ↦ inl q | inr i ↦ inr (sort-IsIn y xs i) ])

  module _ (p : A → Bool) where
    first_of_sorted :
        (xs : List A) (x : A)
        → IsSorted xs
        → first_where p xs ≡ some x
        → (p x ≡ true) × IsIn x xs × ((y : A) → IsIn y xs → p y ≡ true → less y x ≡ false)
    first_of_sorted [] x s e = cc
    first_of_sorted (z ∷ zs) x (first, s) e = elim (Bool-cases (p z)) [
      | inl good ↦
          let same : z ≡ x = ground arith in
          (
            subst (λ v. p v ≡ true) same good,
            inl (sym same),
            λ y i q.
                subst (λ v. less y v ≡ false) same
                  (elim i [ inl k ↦ rw k (irreflexive z) | inr j ↦ first y j ]),
          )
      | inr bad ↦
          let (good, i, least) = first_of_sorted zs x s (ground arith) in
          (
            good,
            inr i,
            λ y j q. elim j [
              | inl k ↦ absurd (clash (sym (subst (λ v. p v ≡ true) k q) ∙ bad))
              | inr k ↦ least y k q
            ],
          )
    ]

    none_first : (xs : List A) (y : A) → first_where p xs ≡ none → IsIn y xs → p y ≡ false
    none_first [] y e h = absurd h
    none_first (z ∷ zs) y e (inl q) = rw q (ground arith)
    none_first (z ∷ zs) y e (inr i) = none_first zs y (ground arith) i

    -- What is found first in the sorted list meets the test, is one of the list, and nothing that
    -- meets the test goes before it.
    pub first-sort :
        (xs : List A) (x : A)
        → first_where p (stable_sort less xs) ≡ some x
        → (p x ≡ true) × IsIn x xs × ((y : A) → IsIn y xs → p y ≡ true → less y x ≡ false)
    first-sort xs x e =
        let (good, i, least) = first_of_sorted (stable_sort less xs) x (sort-IsSorted xs) e in
        (good, IsIn-sort x xs i, λ y j q. least y (sort-IsIn y xs j) q)

    pub none-sort :
        (xs : List A) (y : A) → first_where p (stable_sort less xs) ≡ none → IsIn y xs → p y ≡ false
    none-sort xs y e i = none_first (stable_sort less xs) y e (sort-IsIn y xs i)

-- A test that an element meets finds something.
pub any-in :
    {A : Type 0} (p : A → Bool) (ps : List A) (q : A)
    → IsIn q ps
    → p q ≡ true
    → any_where p ps ≡ true
any-in p [] q i h = absurd i
any-in p (r ∷ rs) q (inl same) h = subst (λ v. (p v || any_where p rs) ≡ true) same (rw h refl)
any-in p (r ∷ rs) q (inr i) h = or_right (p r) (any_where p rs) (any-in p rs q i h)
  where
    or_right : (a b : Bool) → b ≡ true → (a || b) ≡ true
    or_right a b h = ground arith
