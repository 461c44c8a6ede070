-- ===== src/Access/Merge.antt =====
-- `merge`: the spans it leaves name the same IDs, and are sorted, apart and not even adjacent.
use qsp.Prelude.{
  ℕ, ◌+◌, ◌^◌, ◌≤◌, ◌<◌, ◌≡◌, refl, ◌∙◌, Bool, true, false, ◌&&◌, ◌||◌, List, [], ◌∷◌, arith, leb,
  All, All-In, All-map, All-of_In, Bool-cases, inl, inr,
}
use qsp.Prelude.Sort.{insert, sort, IsSorted, IsSorted-sort, In-of_sort}
use qsp.Access.{Span, span_less, touches, extend, merge_from, merge_sorted, merge}

abbrev pub within : Span → ℕ → Bool
within s id = leb s.lo id && leb id s.hi

-- Some span of the list holds the ID.
abbrev pub covers : List Span → ℕ → Bool
covers [] id = false
covers (s ∷ ss) id = within s id || covers ss id

-- What a parsed entry is: a range of station numbers that fit in a uint32, zero not among them.
pub record IsSpan (s : Span) : Type 0 where
  pub positive : 0 < s.lo
  pub ordered : s.lo ≤ s.hi
  pub fits : s.hi < 2 ^ 32

abbrev ByLo : List Span → Type 0
ByLo [] = Unit
ByLo (s ∷ ss) = All (λ t. s.lo ≤ t.lo) ss × ByLo ss

-- Each span ends at least two before every later one starts.
abbrev pub IsSeparated : List Span → Type 0
IsSeparated [] = Unit
IsSeparated (s ∷ ss) = IsSpan s × All (λ t. s.hi + 2 ≤ t.lo) ss × IsSeparated ss

extend-within :
    (last s : Span) (id : ℕ)
    → IsSpan last
    → IsSpan s
    → last.lo ≤ s.lo
    → touches last s ≡ true
    → within (extend last s) id ≡ (within last id || within s id)
unfolding touches extend
extend-within last s id a b h t = ground arith

extend-IsSpan : (last s : Span) → IsSpan last → IsSpan s → IsSpan (extend last s)
unfolding extend
extend-IsSpan last s a b = ground arith

extend-lo : (last s : Span) → (extend last s).lo ≡ last.lo
unfolding extend
extend-lo last s = ground arith

not-touches : (last s : Span) → IsSpan s → IsSpan last → touches last s ≡ false → last.hi + 1 < s.lo
unfolding touches
not-touches last s a b h = ground arith

or_assoc : (a b c : Bool) → ((a || b) || c) ≡ (a || (b || c))
or_assoc a b c = ground arith

covers-merge_from :
    (last : Span) (ss : List Span) (id : ℕ)
    → IsSpan last
    → All IsSpan ss
    → ByLo (last ∷ ss)
    → covers (merge_from last ss) id ≡ covers (last ∷ ss) id
unfolding merge_from
covers-merge_from last [] id a vs l = refl
covers-merge_from last (s ∷ rest) id a vs l = elim (Bool-cases (touches last s)) [
  | inl t ↦ rw t (
      covers-merge_from (extend last s) rest id (extend-IsSpan last s a vs.0) vs.1
        (rw (extend-lo last s) (l.0.1, l.1.1))
      ∙ rw (extend-within last s id a vs.0 l.0.0 t)
          (or_assoc (within last id) (within s id) (covers rest id)))
  | inr t ↦ rw t (rw (covers-merge_from s rest id vs.0 vs.1 l.1) refl)
]

merge_from-lo :
    (last : Span) (ss : List Span) (n : ℕ)
    → n ≤ last.lo
    → All (λ t. n ≤ t.lo) ss
    → All (λ t. n ≤ t.lo) (merge_from last ss)
unfolding merge_from
merge_from-lo last [] n h k = (h, tt)
merge_from-lo last (s ∷ rest) n h k = elim (Bool-cases (touches last s)) [
  | inl t ↦ rw t (merge_from-lo (extend last s) rest n (rw (extend-lo last s) h) k.1)
  | inr t ↦ rw t (h, merge_from-lo s rest n k.0 k.1)
]

merge_from-IsSeparated :
    (last : Span) (ss : List Span)
    → IsSpan last
    → All IsSpan ss
    → ByLo (last ∷ ss)
    → IsSeparated (merge_from last ss)
unfolding merge_from
merge_from-IsSeparated last [] a vs l = (a, tt, tt)
merge_from-IsSeparated last (s ∷ rest) a vs l = elim (Bool-cases (touches last s)) [
  | inl t ↦ rw t (
      merge_from-IsSeparated (extend last s) rest (extend-IsSpan last s a vs.0) vs.1
        (rw (extend-lo last s) (l.0.1, l.1.1)))
  | inr t ↦ rw t (
    a,
    merge_from-lo s rest (last.hi + 2) (omega (arith, not-touches last s vs.0 a t))
        (All-map _ _ (λ u h. omega (arith, not-touches last s vs.0 a t)) rest l.1.0),
    merge_from-IsSeparated s rest vs.0 vs.1 l.1,
  )
]

span_less-asym : (x y : Span) → span_less x y ≡ true → span_less y x ≡ false
unfolding span_less
span_less-asym x y h = ground arith

span_less_trans :
    (x y z : Span) → span_less y x ≡ false → span_less z y ≡ false → span_less z x ≡ false
unfolding span_less
span_less_trans x y z h k = ground arith

le_of_not_less : (x y : Span) → span_less y x ≡ false → x.lo ≤ y.lo
unfolding span_less
le_of_not_less x y h = ground arith

IsSorted-ByLo : (ss : List Span) → IsSorted span_less ss → ByLo ss
IsSorted-ByLo [] h = tt
IsSorted-ByLo (s ∷ ss) h = (All-map _ _ (le_of_not_less s) ss h.0, IsSorted-ByLo ss h.1)

covers-insert :
    (b : Span) (ss : List Span) (id : ℕ)
    → covers (insert span_less b ss) id ≡ (within b id || covers ss id)
unfolding insert
covers-insert b [] id = refl
covers-insert b (s ∷ ss) id = ground (arith, covers-insert b ss id)

covers-sort : (ss : List Span) (id : ℕ) → covers (sort span_less ss) id ≡ covers ss id
unfolding sort
covers-sort [] id = refl
covers-sort (s ∷ ss) id = covers-insert s (sort span_less ss) id ∙ rw (covers-sort ss id)

sort-ByLo : (ss : List Span) → ByLo (sort span_less ss)
sort-ByLo ss = IsSorted-ByLo _ (IsSorted-sort span_less span_less-asym span_less_trans ss)

sort-IsSpan : (ss : List Span) → All IsSpan ss → All IsSpan (sort span_less ss)
sort-IsSpan ss h = All-of_In _ (λ s i. All-In IsSpan s ss h (In-of_sort span_less s ss i))

covers-merge_sorted :
    (ss : List Span) (id : ℕ) → All IsSpan ss → ByLo ss → covers (merge_sorted ss) id ≡ covers ss id
unfolding merge_sorted
covers-merge_sorted [] id a l = refl
covers-merge_sorted (s ∷ ss) id a l = covers-merge_from s ss id a.0 a.1 l

merge_sorted-IsSeparated :
    (ss : List Span) → All IsSpan ss → ByLo ss → IsSeparated (merge_sorted ss)
unfolding merge_sorted
merge_sorted-IsSeparated [] a l = tt
merge_sorted-IsSeparated (s ∷ ss) a l = merge_from-IsSeparated s ss a.0 a.1 l

-- Merging spans of station numbers changes no ID's membership: an ID is in a merged span exactly
-- when it is in one of the spans given.
pub covers-merge : (ss : List Span) (id : ℕ) → All IsSpan ss → covers (merge ss) id ≡ covers ss id
unfolding merge
covers-merge ss id a =
    covers-merge_sorted (sort span_less ss) id (sort-IsSpan ss a) (sort-ByLo ss) ∙ covers-sort ss id

-- Merging spans of station numbers gives spans of station numbers in rising order, each ending at
-- least two before the next starts: none overlap, and none could be joined.
pub merge-IsSeparated : (ss : List Span) → All IsSpan ss → IsSeparated (merge ss)
unfolding merge
merge-IsSeparated ss a =
    merge_sorted-IsSeparated (sort span_less ss) (sort-IsSpan ss a) (sort-ByLo ss)
