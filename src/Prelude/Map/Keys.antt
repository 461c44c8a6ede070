-- ===== src/Prelude/Map/Keys.antt =====
-- A map whose keys are distinct: how many of its values pass a test, and what holds of every entry.
use qsp.Prelude.Lists.{length}
use Prim.Native.Nat.{ℕ, ◌+◌, ◌≤◌}
use mathlib.Core.Path.{◌≡◌, refl}
use mathlib.Core.Logic.{◌↔◌, inl, inr}
use mathlib.Core.Bool.{Bool, true}
use mathlib.Core.Option.{Option, none, some}
use mathlib.Core.List.{List, [], ◌∷◌}
use native.Mathlib.Omega.{arith}
use qsp.Prelude.Tests.{if◌then◌else◌, Bool-cases}
use qsp.Prelude.Map.{lookup, put, delete, lookup-put, lookup-delete}

module _ {K V : Type 0} where
  unfoldable pub count : (V → Bool) → List (K × V) → ℕ
  count f [] = 0
  count f ((k, v) ∷ m) = (if f v then 1 else 0) + count f m

  abbrev pub AllEntries : (K → V → Type 0) → List (K × V) → Type 0
  AllEntries P [] = Unit
  AllEntries P ((k, v) ∷ m) = P k v × AllEntries P m

  pub AllEntries-map :
      (P Q : K → V → Type 0)
      → ((k : K) (v : V) → P k v → Q k v)
      → (m : List (K × V)) → AllEntries P m
      → AllEntries Q m
  AllEntries-map P Q f [] h = tt
  AllEntries-map P Q f ((k, v) ∷ m) h = (f k v h.0, AllEntries-map P Q f m h.1)

abbrev weight : {V : Type 0} → (V → Bool) → Option V → ℕ
weight f none = 0
weight f (some v) = if f v then 1 else 0

module _ {K V : Type 0} (eq : K → K → Bool) where
  abbrev pub IsKeyed : List (K × V) → Type 0
  IsKeyed [] = Unit
  IsKeyed ((k, v) ∷ m) = (lookup eq m k ≡ none) × IsKeyed m

  pub count-put :
      (f : V → Bool) (m : List (K × V)) (k : K) (v : V)
      → count f (put eq m k v) + weight f (lookup eq m k) ≡ count f m + weight f (some v)
  unfolding count lookup put
  count-put f [] k v = omega arith
  count-put f ((j, w) ∷ m) k v = ground (arith, count-put f m k v)

  pub length-put : (m : List (K × V)) (k : K) (v : V) → length (put eq m k v) ≤ length m + 1
  unfolding put
  length-put [] k v = omega arith
  length-put ((j, w) ∷ m) k v = ground (arith, length-put m k v)

  module _ (eq_iff : (a b : K) → (eq a b ≡ true) ↔ (a ≡ b)) where
    pub put-IsKeyed : (m : List (K × V)) (k : K) (v : V) → IsKeyed m → IsKeyed (put eq m k v)
    unfolding put lookup
    put-IsKeyed [] k v h = (refl, tt)
    put-IsKeyed ((j, w) ∷ m) k v h = elim (Bool-cases (eq j k)) [
      | inl e ↦ rw (e, put) h
      | inr e ↦
          rw (e, put)
            (
              ground (arith, lookup-put eq eq_iff m k j v, eq_iff j k, eq_iff k j),
              put-IsKeyed m k v h.1,
            )
    ]

    pub delete-IsKeyed : (m : List (K × V)) (k : K) → IsKeyed m → IsKeyed (delete eq m k)
    unfolding delete
    delete-IsKeyed [] k h = tt
    delete-IsKeyed ((j, w) ∷ m) k h = elim (Bool-cases (eq j k)) [
      | inl e ↦ rw (e, delete) (delete-IsKeyed m k h.1)
      | inr e ↦
          rw (e, delete)
            (ground (arith, lookup-delete eq eq_iff m k j, h.0), delete-IsKeyed m k h.1)
    ]

    delete_absent : (m : List (K × V)) (k : K) → lookup eq m k ≡ none → delete eq m k ≡ m
    unfolding delete lookup
    delete_absent [] k h = refl
    delete_absent ((j, w) ∷ m) k h = ground (arith, delete_absent m k)

    pub count-delete :
        (f : V → Bool) (m : List (K × V)) (k : K)
        → IsKeyed m
        → count f (delete eq m k) + weight f (lookup eq m k) ≡ count f m
    unfolding count lookup delete
    count-delete f [] k h = refl
    count-delete f ((j, w) ∷ m) k h = elim (Bool-cases (eq j k)) [
      | inl e ↦
          let same = (eq_iff j k).0 e in
          let gone : lookup eq m k ≡ none = rw (← same) h.0 in
          rw (e, delete, lookup, delete_absent m k gone) (omega arith)
      | inr e ↦ rw (e, delete, lookup) (omega (arith, count-delete f m k h.1))
    ]

    pub AllEntries-put :
        (P : K → V → Type 0) (m : List (K × V)) (k : K) (v : V)
        → AllEntries P m
        → P k v
        → AllEntries P (put eq m k v)
    unfolding put
    AllEntries-put P [] k v h p = (p, tt)
    AllEntries-put P ((j, w) ∷ m) k v h p = elim (Bool-cases (eq j k)) [
      | inl e ↦ rw (e, put) (rw ((eq_iff j k).0 e) p, h.1)
      | inr e ↦ rw (e, put) (h.0, AllEntries-put P m k v h.1 p)
    ]

    pub AllEntries-lookup :
        (P : K → V → Type 0) (m : List (K × V)) (k : K) (v : V)
        → AllEntries P m
        → lookup eq m k ≡ some v
        → P k v
    unfolding lookup
    AllEntries-lookup P [] k v h e = cc
    AllEntries-lookup P ((j, w) ∷ m) k v h e = elim (Bool-cases (eq j k)) [
      | inl y ↦ let same : w ≡ v = ground (arith, y) in rw (← (eq_iff j k).0 y, ← same) h.0
      | inr n ↦ AllEntries-lookup P m k v h.1 (ground (arith, n))
    ]

  pub AllEntries-delete :
      (P : K → V → Type 0) (m : List (K × V)) (k : K)
      → AllEntries P m
      → AllEntries P (delete eq m k)
  unfolding delete
  AllEntries-delete P [] k h = tt
  AllEntries-delete P ((j, w) ∷ m) k h = elim (Bool-cases (eq j k)) [
    | inl e ↦ rw (e, delete) (AllEntries-delete P m k h.1)
    | inr e ↦ rw (e, delete) (h.0, AllEntries-delete P m k h.1)
  ]
