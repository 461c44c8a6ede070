-- ===== src/Prelude/Bytes.antt =====
-- Bytes and the big-endian encodings of `encoding/binary`: shifts and truncations are division and
-- remainder by powers of two.
use Prim.Native.Nat.{ℕ, zero, suc, ◌+◌, ◌*◌, ◌/◌, ◌%◌, ◌^◌, ◌<◌}
use mathlib.Core.Path.{◌≡◌, refl, ap}
use mathlib.Core.Bool.{Bool, true, ◌&&◌}
use mathlib.Core.List.{List, [], ◌∷◌, ◌++◌}
use native.Mathlib.Omega.{arith}
use mathlib.Core.Logic.{inl, inr}
use qsp.Prelude.Tests.{◌==◌, ==_iff, Bool-cases}
use qsp.Prelude.Lists.{length, take, drop}

abbrev pub Bytes : Type 0
Bytes = List ℕ

-- `b[i]`; every use is behind a check of the length.
abbrev pub byte_at : Bytes → ℕ → ℕ
byte_at [] i = 0
byte_at (x ∷ xs) zero = x
byte_at (x ∷ xs) (suc i) = byte_at xs i

abbrev pub IsByte : ℕ → Type 0
IsByte x = x < 256

abbrev pub u24 : ℕ → ℕ → ℕ → ℕ
u24 a b c = a * 0x10000 + b * 0x100 + c

abbrev pub u32 : ℕ → ℕ → ℕ → ℕ → ℕ
u32 a b c d = a * 0x100_0000 + b * 0x10000 + c * 0x100 + d

-- The bytes of a number, most significant first, in front of the rest.
abbrev pub put_u24 : ℕ → Bytes → Bytes
put_u24 v rest = (v / 0x10000 % 256) ∷ (v / 0x100 % 256) ∷ (v % 256) ∷ rest

abbrev pub put_u32 : ℕ → Bytes → Bytes
put_u32 v rest = (v / 0x100_0000 % 256) ∷ (v / 0x10000 % 256) ∷ (v / 0x100 % 256) ∷ (v % 256) ∷ rest

pub u24-put_u24 : (v : ℕ) → v < 2 ^ 24 → u24 (v / 0x10000 % 256) (v / 0x100 % 256) (v % 256) ≡ v
u24-put_u24 v h = omega arith

pub u32-put_u32 :
    (v : ℕ)
    → v < 2 ^ 32
    → u32 (v / 0x100_0000 % 256) (v / 0x10000 % 256) (v / 0x100 % 256) (v % 256) ≡ v
u32-put_u32 v h = omega arith

module _ (a b c : ℕ) (ha : IsByte a) (hb : IsByte b) (hc : IsByte c) where
  pub put_u24-u24 : (rest : Bytes) → put_u24 (u24 a b c) rest ≡ a ∷ b ∷ c ∷ rest
  put_u24-u24 rest = ground arith

  pub put_u32-u32 :
      (d : ℕ) (rest : Bytes) → IsByte d → put_u32 (u32 a b c d) rest ≡ a ∷ b ∷ c ∷ d ∷ rest
  put_u32-u32 d rest hd = ground arith

pub take-append {ℓ} : {A : Type ℓ} (xs ys : List A) → take (length xs) (xs ++ ys) ≡ xs
take-append [] ys = refl
take-append (x ∷ xs) ys = ap (◌∷◌ x) (take-append xs ys)

pub drop-append {ℓ} : {A : Type ℓ} (xs ys : List A) → drop (length xs) (xs ++ ys) ≡ ys
drop-append [] ys = refl
drop-append (x ∷ xs) ys = drop-append xs ys

pub take-append-drop {ℓ} : {A : Type ℓ} (n : ℕ) (xs : List A) → take n xs ++ drop n xs ≡ xs
take-append-drop zero xs = refl
take-append-drop (suc n) [] = refl
take-append-drop (suc n) (x ∷ xs) = rw (take-append-drop n xs)

-- A test of every number below a bound, which decides small facts by evaluation.
unfoldable pub holds_below : (ℕ → Bool) → ℕ → Bool
holds_below test zero = true
holds_below test (suc bound) = holds_below test bound && test bound

pub holds_below_sound :
    (test : ℕ → Bool) (bound : ℕ)
    → holds_below test bound ≡ true
    → (k : ℕ) → k < bound
    → test k ≡ true
unfolding holds_below
holds_below_sound test zero all k below = absurd (omega arith)
holds_below_sound test (suc bound) all k below = elim (Bool-cases (k == bound)) [
  | inl at_top ↦ ground (arith, (==_iff k bound).0 at_top, ap test ((==_iff k bound).0 at_top))
  | inr under ↦ holds_below_sound test bound (ground arith) k (ground arith)
]
