-- ===== src/Prelude/Sort.antt =====
-- `sort.Slice`, with the less function as an argument. Go's sort is not stable, so the theorems on
-- it speak of membership and order only; insertion gives one of the orders that it may leave.
use mathlib.Core.Path.{◌≡◌, sym}
use mathlib.Core.Logic.{◌⊎◌, inl, inr}
use mathlib.Core.Bool.{Bool, true, false}
use mathlib.Core.List.{List, [], ◌∷◌}
use qsp.Prelude.Tests.{if◌then◌else◌, Bool-cases}
use qsp.Prelude.Lists.{All, In, Distinct, All-In, All-of_In}

-- No later element comes before an earlier one.
abbrev pub IsSorted : {A : Type 0} → (A → A → Bool) → List A → Type 0
IsSorted less [] = Unit
IsSorted less (x ∷ xs) = All (λ y. less y x ≡ false) xs × IsSorted less xs

module _ {A : Type 0} (less : A → A → Bool) where
  unfoldable pub insert : A → List A → List A
  insert a [] = a ∷ []
  insert a (x ∷ xs) = if less x a then x ∷ insert a xs else a ∷ x ∷ xs

  unfoldable pub sort : List A → List A
  unfolding insert
  sort [] = []
  sort (x ∷ xs) = insert x (sort xs)

  In-insert : (a b : A) (xs : List A) → (a ≡ b) ⊎ In a xs → In a (insert b xs)
  unfolding insert
  In-insert a b [] h = h
  In-insert a b (x ∷ xs) h = elim (Bool-cases (less x b)) [
    | inl e ↦ rw e (elim h [
      | inl p ↦ inr (In-insert a b xs (inl p))
      | inr (inl p) ↦ inl p
      | inr (inr p) ↦ inr (In-insert a b xs (inr p))
    ])
    | inr e ↦ rw e h
  ]

  In-of_insert : (a b : A) (xs : List A) → In a (insert b xs) → (a ≡ b) ⊎ In a xs
  unfolding insert
  In-of_insert a b [] h = h
  In-of_insert a b (x ∷ xs) h = elim (Bool-cases (less x b)) [
    | inl e ↦ elim (rw e at h) [
      | inl p ↦ inr (inl p)
      | inr p ↦ elim (In-of_insert a b xs p) [ inl q ↦ inl q | inr q ↦ inr (inr q) ]
    ]
    | inr e ↦ rw e at h
  ]

  pub In-sort : (a : A) (xs : List A) → In a xs → In a (sort xs)
  unfolding sort
  In-sort a [] h = h
  In-sort a (x ∷ xs) (inl e) = In-insert a x (sort xs) (inl e)
  In-sort a (x ∷ xs) (inr h) = In-insert a x (sort xs) (inr (In-sort a xs h))

  pub In-of_sort : (a : A) (xs : List A) → In a (sort xs) → In a xs
  unfolding sort
  In-of_sort a [] h = h
  In-of_sort a (x ∷ xs) h = elim (In-of_insert a x (sort xs) h) [
    | inl e ↦ inl e
    | inr i ↦ inr (In-of_sort a xs i)
  ]

  Distinct-insert : (b : A) (xs : List A) → ¬ In b xs → Distinct xs → Distinct (insert b xs)
  unfolding insert
  Distinct-insert b [] n d = (n, d)
  Distinct-insert b (x ∷ xs) n d = elim (Bool-cases (less x b)) [
    | inl e ↦ rw e (
      λ i. elim (In-of_insert x b xs i) [ inl p ↦ n (inl (sym p)) | inr p ↦ d.0 p ],
      Distinct-insert b xs (λ i. n (inr i)) d.1,
    )
    | inr e ↦ rw e (n, d)
  ]

  pub Distinct-sort : (xs : List A) → Distinct xs → Distinct (sort xs)
  unfolding sort
  Distinct-sort [] d = tt
  Distinct-sort (x ∷ xs) d =
      Distinct-insert x (sort xs) (λ i. d.0 (In-of_sort x xs i)) (Distinct-sort xs d.1)

  module _ (asym : (x y : A) → less x y ≡ true → less y x ≡ false)
      (trans : (x y z : A) → less y x ≡ false → less z y ≡ false → less z x ≡ false) where
    IsSorted-insert : (b : A) (xs : List A) → IsSorted less xs → IsSorted less (insert b xs)
    unfolding insert
    IsSorted-insert b [] s = (tt, tt)
    IsSorted-insert b (x ∷ xs) s = elim (Bool-cases (less x b)) [
      | inl e ↦ rw e (
        All-of_In _ (λ a i. elim (In-of_insert a b xs i) [
          | inl p ↦ rw p (asym x b e)
          | inr p ↦ All-In _ a xs s.0 p
        ]),
        IsSorted-insert b xs s.1,
      )
      | inr e ↦ rw e ((e, All-of_In xs (λ a i. trans b x a e (All-In _ a xs s.0 i))), s)
    ]

    pub IsSorted-sort : (xs : List A) → IsSorted less (sort xs)
    unfolding sort
    IsSorted-sort [] = tt
    IsSorted-sort (x ∷ xs) = IsSorted-insert x (sort xs) (IsSorted-sort xs)
