-- ===== src/Access/Search.antt =====
-- `sort.Search` on a monotone test, and the binary search of `names` against a scan of the spans.
use qsp.Prelude.{
  ℕ, zero, suc, ◌+◌, ◌/◌, ◌≤◌, ◌<◌, ◌≡◌, refl, Bool, true, false, List, [], ◌∷◌, arith, ltb, All,
  Bool-cases, inl, inr, length,
}
use qsp.Access.{Span, AccessList, search_from, sort_search, reaches, starts_by, names}
use qsp.Access.Merge.{covers, IsSeparated}

-- The test fails below `r` and holds from `r` on.
pub record Splits (f : ℕ → Bool) (r : ℕ) : Type 0 where
  pub below : (k : ℕ) → k < r → f k ≡ false
  pub above : (k : ℕ) → r ≤ k → f k ≡ true

abbrev IsMonotone : (ℕ → Bool) → Type 0
IsMonotone f = (k m : ℕ) → k ≤ m → f k ≡ true → f m ≡ true

not_below : (f : ℕ → Bool) → IsMonotone f → (h k : ℕ) → f h ≡ false → k ≤ h → f k ≡ false
not_below f mono h k e le = elim (Bool-cases (f k)) [
  | inl t ↦ absurd (cc (mono k h le t))
  | inr t ↦ t
]

search_from-Splits :
    (fuel : ℕ) (f : ℕ → Bool) (i j : ℕ)
    → IsMonotone f
    → j ≤ i + fuel
    → i ≤ j
    → ((k : ℕ) → k < i → f k ≡ false)
    → ((k : ℕ) → j ≤ k → f k ≡ true)
    → Splits f (search_from fuel f i j)
unfolding search_from
search_from-Splits zero f i j mono enough le lo hi = record {
  below = lo;
  above = λ k h. hi k (omega arith);
}
search_from-Splits (suc fuel) f i j mono enough le lo hi = elim (Bool-cases (ltb i j)) [
  | inl t ↦ rw t (elim (Bool-cases (f ((i + j) / 2))) [
    | inl at_h ↦ rw at_h (
        search_from-Splits fuel f i ((i + j) / 2) mono (ground arith) (ground arith) lo
          (λ k h. mono ((i + j) / 2) k h at_h))
    | inr at_h ↦ rw at_h (
        search_from-Splits fuel f ((i + j) / 2 + 1) j mono (ground arith) (ground arith)
          (λ k h. not_below f mono ((i + j) / 2) k at_h (omega arith)) hi)
  ])
  | inr t ↦ rw t (record { below = lo; above = λ k h. hi k (ground arith) })
]

-- The bisection ends within its fuel at the place where a monotone test turns true, if the test
-- holds from `n` on.
sort_search-Splits :
    (n : ℕ) (f : ℕ → Bool)
    → IsMonotone f
    → ((k : ℕ) → n ≤ k → f k ≡ true)
    → Splits f (sort_search n f)
unfolding sort_search
sort_search-Splits n f mono hi =
    search_from-Splits n f 0 n mono (omega arith) (omega arith) (λ k h. absurd (omega arith)) hi

reaches-end : (ss : List Span) (id k : ℕ) → length ss ≤ k → reaches ss id k ≡ true
unfolding reaches
reaches-end [] id k h = refl
reaches-end (s ∷ ss) id zero h = absurd (omega arith)
reaches-end (s ∷ ss) id (suc k) h = reaches-end ss id k (omega arith)

-- Every span of the list ends above `id`.
reaches-All :
    (ss : List Span) (id n k : ℕ)
    → id ≤ n
    → All (λ t. n + 2 ≤ t.lo) ss
    → IsSeparated ss
    → reaches ss id k ≡ true
unfolding reaches
reaches-All [] id n k h p s = refl
reaches-All (t ∷ ss) id n zero h p s = ground (arith, s.0.ordered)
reaches-All (t ∷ ss) id n (suc k) h p s = reaches-All ss id n k h p.1 s.2

reaches-IsMonotone : (ss : List Span) (id : ℕ) → IsSeparated ss → IsMonotone (reaches ss id)
unfolding reaches
reaches-IsMonotone [] id s k m h e = refl
reaches-IsMonotone (t ∷ ss) id s zero zero h e = e
reaches-IsMonotone (t ∷ ss) id s zero (suc m) h e = reaches-All ss id t.hi m (ground arith) s.1 s.2
reaches-IsMonotone (t ∷ ss) id s (suc k) zero h e = absurd (omega arith)
reaches-IsMonotone (t ∷ ss) id s (suc k) (suc m) h e =
    reaches-IsMonotone ss id s.2 k m (omega arith) e

covers_below :
    (ss : List Span) (id n : ℕ) → id ≤ n → All (λ t. n + 2 ≤ t.lo) ss → covers ss id ≡ false
covers_below [] id n h p = refl
covers_below (s ∷ ss) id n h p = ground (arith, covers_below ss id n h p.1)

starts_by-covers :
    (ss : List Span) (id r : ℕ)
    → IsSeparated ss
    → Splits (reaches ss id) r
    → starts_by ss id r ≡ covers ss id
unfolding starts_by reaches
starts_by-covers [] id r s p = refl
starts_by-covers (t ∷ ss) id zero s p =
    ground (arith, p.above 0 (omega arith), covers_below ss id t.hi, s.0.ordered)
starts_by-covers (t ∷ ss) id (suc r) s p = ground (
  arith,
  p.below 0 (omega arith),
  starts_by-covers ss id r s.2 (record {
    below = λ k h. p.below (suc k) (omega arith);
    above = λ k h. p.above (suc k) (omega arith);
  }),
)

-- On spans that `merge` leaves, the binary search finds an ID exactly when some span holds it.
pub names-covers : (l : AccessList) (id : ℕ) → IsSeparated l.spans → names l id ≡ covers l.spans id
unfolding names
names-covers l id s = starts_by-covers l.spans id _ s (
    sort_search-Splits (length l.spans) (reaches l.spans id) (reaches-IsMonotone l.spans id s)
      (λ k h. reaches-end l.spans id k h))
