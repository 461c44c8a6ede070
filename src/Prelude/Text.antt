-- ===== src/Prelude/Text.antt =====
-- Text as its list of code points, with what the source uses of `strings` and `strconv`.
use Prim.Native.Nat.{ℕ, zero, suc, ◌+◌, ◌-◌, ◌*◌, ◌/◌, ◌%◌, ◌<◌, ◌^◌}
use Prim.Native.Char.{code}
use Prim.Native.String.{String}
use mathlib.Core.Path.{◌≡◌, refl}
use mathlib.Core.Logic.{◌↔◌}
use mathlib.Core.Bool.{Bool, true, false, ◌&&◌, ◌||◌}
use mathlib.Core.Option.{Option, none, some}
use mathlib.Core.List.{List, [], ◌∷◌, ◌++◌}
use native.Mathlib.Omega.{arith}
use qsp.Prelude.Tests.{ltb, lt→ltb, leb, ◌==◌, if◌then◌else◌}
use qsp.Prelude.Lists.{All}

abbrev pub Text : Type 0
Text = List ℕ

-- The code points of a literal.
abbrev pub codes : String → Text
codes String.[] = []
codes (String.◌∷◌ c s) = code c ∷ codes s

unfoldable pub text_eq : Text → Text → Bool
text_eq [] [] = true
text_eq (x ∷ xs) (y ∷ ys) = x == y && text_eq xs ys
text_eq _ _ = false

pub text_eq_iff : (a b : Text) → (text_eq a b ≡ true) ↔ (a ≡ b)
unfolding text_eq
text_eq_iff (x ∷ a) (y ∷ b) = ground (arith, text_eq_iff a b)
text_eq_iff _ _ = ground arith

abbrev pub is_empty : Text → Bool
is_empty [] = true
is_empty (c ∷ cs) = false

-- `unicode.IsSpace`.
unfoldable pub is_space : ℕ → Bool
is_space c =
    (leb 9 c && leb c 13)
    || c == 32
    || c == 0x85
    || c == 0xa0
    || c == 0x1680
    || (leb 0x2000 c && leb c 0x200a)
    || c == 0x2028
    || c == 0x2029
    || c == 0x202f
    || c == 0x205f
    || c == 0x3000

unfoldable trim_left : Text → Text
trim_left [] = []
trim_left (c ∷ cs) = if is_space c then trim_left cs else c ∷ cs

unfoldable trim_right : Text → Text
trim_right [] = []
trim_right (c ∷ cs) =
    let rest = trim_right cs in if is_empty rest && is_space c then [] else c ∷ rest

-- `strings.TrimSpace`.
unfoldable pub trim_space : Text → Text
unfolding trim_left trim_right
trim_space t = trim_right (trim_left t)

-- `strings.Cut(t, sep)` for a separator of one character; `none` where it does not occur.
unfoldable pub cut : ℕ → Text → Option (Text × Text)
cut sep [] = none
cut sep (c ∷ cs) =
    let rest = cut sep cs in
    if c == sep then some ([], cs) else elim rest [ none ↦ none | some (a, b) ↦ some (c ∷ a, b) ]

abbrev is_digit : ℕ → Bool
is_digit c = leb b'0' c && leb c b'9'

unfoldable pub all_digits : Text → Bool
all_digits [] = true
all_digits (c ∷ cs) = is_digit c && all_digits cs

unfoldable decimal_from : ℕ → Text → ℕ
decimal_from acc [] = acc
decimal_from acc (c ∷ cs) = decimal_from (acc * 10 + (c - b'0')) cs

-- `strconv.ParseUint(t, 10, 64)` on a text of digits; `none` is its range error.
unfoldable pub parse_uint : Text → Option ℕ
unfolding decimal_from
parse_uint t = let n = decimal_from 0 t in if ltb n (2 ^ 64) then some n else none

unfoldable format_onto : ℕ → ℕ → Text → Text
format_onto zero n acc = acc
format_onto (suc fuel) n acc =
    let rest = format_onto fuel (n / 10) ((b'0' + n % 10) ∷ acc) in
    if ltb n 10 then (b'0' + n) ∷ acc else rest

-- `strconv.FormatUint(n, 10)`.
unfoldable pub format_uint : ℕ → Text
unfolding format_onto
format_uint n = format_onto (suc n) n []

abbrev IsDigits : Text → Type 0
IsDigits = All (λ c. is_digit c ≡ true)

abbrev pub IsSolid : Text → Type 0
IsSolid = All (λ c. is_space c ≡ false)

trim_right-IsSolid : (t : Text) → IsSolid t → trim_right t ≡ t
unfolding trim_right
trim_right-IsSolid [] s = refl
trim_right-IsSolid (c ∷ cs) s = ground (arith, trim_right-IsSolid cs s.1)

-- A text with no space in it is left as it is.
pub trim_space-IsSolid : (t : Text) → IsSolid t → trim_space t ≡ t
unfolding trim_space
trim_space-IsSolid [] s = refl
trim_space-IsSolid (c ∷ cs) s = rw s.0 (trim_right-IsSolid (c ∷ cs) s)

is_space_of_digit : (c : ℕ) → is_digit c ≡ true → is_space c ≡ false
unfolding is_space
is_space_of_digit c h = ground arith

pub IsSolid-of_IsDigits : (t : Text) → IsDigits t → IsSolid t
IsSolid-of_IsDigits [] d = tt
IsSolid-of_IsDigits (c ∷ cs) d = (is_space_of_digit c d.0, IsSolid-of_IsDigits cs d.1)

pub IsSolid-append : (a b : Text) → IsSolid a → IsSolid b → IsSolid (a ++ b)
IsSolid-append [] b h k = k
IsSolid-append (c ∷ a) b h k = (h.0, IsSolid-append a b h.1 k)

pub all_digits-IsDigits : (t : Text) → IsDigits t → all_digits t ≡ true
unfolding all_digits
all_digits-IsDigits [] d = refl
all_digits-IsDigits (c ∷ cs) d = rw (d.0, all_digits-IsDigits cs d.1)

-- A text of digits holds no dash.
pub cut-IsDigits : (t : Text) → IsDigits t → cut b'-' t ≡ none
unfolding cut
cut-IsDigits [] d = refl
cut-IsDigits (c ∷ cs) d = ground (arith, cut-IsDigits cs d.1)

pub cut-append : (a b : Text) → IsDigits a → cut b'-' (a ++ b'-' ∷ b) ≡ some (a, b)
unfolding cut
cut-append [] b d = refl
cut-append (c ∷ a) b d = ground (arith, cut-append a b d.1)

format_onto-IsDigits : (fuel n : ℕ) (acc : Text) → IsDigits acc → IsDigits (format_onto fuel n acc)
unfolding format_onto
format_onto-IsDigits zero n acc d = d
format_onto-IsDigits (suc f) n acc d =
    ground (arith, format_onto-IsDigits f (n / 10) ((b'0' + n % 10) ∷ acc))

pub format_uint-IsDigits : (n : ℕ) → IsDigits (format_uint n)
unfolding format_uint
format_uint-IsDigits n = format_onto-IsDigits (suc n) n [] tt

format_onto-ne-nil :
    (fuel n : ℕ) (acc : Text) → n < fuel → is_empty (format_onto fuel n acc) ≡ false
unfolding format_onto
format_onto-ne-nil zero n acc h = absurd (omega arith)
format_onto-ne-nil (suc f) n acc h =
    ground (arith, format_onto-ne-nil f (n / 10) ((b'0' + n % 10) ∷ acc))

pub format_uint-ne-nil : (n : ℕ) → is_empty (format_uint n) ≡ false
unfolding format_uint
format_uint-ne-nil n = format_onto-ne-nil (suc n) n [] (omega arith)

-- Reading the digits of `n` from nothing leaves what reading the rest from `n` does.
decimal_from-format_onto :
    (fuel n : ℕ) (acc : Text)
    → n < fuel
    → decimal_from 0 (format_onto fuel n acc) ≡ decimal_from n acc
unfolding format_onto decimal_from
decimal_from-format_onto zero n acc h = absurd (omega arith)
decimal_from-format_onto (suc f) n acc h =
    ground (arith, decimal_from-format_onto f (n / 10) ((b'0' + n % 10) ∷ acc))

decimal_from-format_uint : (n : ℕ) → decimal_from 0 (format_uint n) ≡ n
unfolding format_uint decimal_from
decimal_from-format_uint n = decimal_from-format_onto (suc n) n [] (omega arith)

pub parse_uint-format_uint : (n : ℕ) → n < 2 ^ 64 → parse_uint (format_uint n) ≡ some n
unfolding parse_uint
parse_uint-format_uint n h = rw (decimal_from-format_uint n) (rw (lt→ltb n (2 ^ 64) h))

-- Go's order on strings, which goes by bytes: UTF-8 keeps the order of the code points.
unfoldable pub text_less : Text → Text → Bool
text_less [] [] = false
text_less [] (y ∷ ys) = true
text_less (x ∷ xs) [] = false
text_less (x ∷ xs) (y ∷ ys) = ltb x y || (x == y && text_less xs ys)

text_less-asym : (a b : Text) → text_less a b ≡ true → text_less b a ≡ false
unfolding text_less
text_less-asym (x ∷ a) (y ∷ b) h = ground (arith, text_less-asym a b)
text_less-asym _ _ h = ground arith

text_less_trans :
    (a b c : Text) → text_less b a ≡ false → text_less c b ≡ false → text_less c a ≡ false
unfolding text_less
text_less_trans (x ∷ a) (y ∷ b) (z ∷ c) h k = ground (arith, text_less_trans a b c)
text_less_trans (x ∷ a) (y ∷ b) [] h k = cc
text_less_trans (x ∷ a) [] c h k = cc
text_less_trans [] b (z ∷ c) h k = refl
text_less_trans [] b [] h k = refl

pub text_eq_comm : (a b : Text) → text_eq a b ≡ text_eq b a
unfolding text_eq
text_eq_comm (x ∷ a) (y ∷ b) = ground (arith, text_eq_comm a b)
text_eq_comm [] [] = refl
text_eq_comm [] (y ∷ b) = refl
text_eq_comm (x ∷ a) [] = refl
