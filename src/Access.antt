-- ===== src/Access.antt =====
-- internal/access/access.go: the access lists. A text is a list of code points, a configuration
-- error is a value, and the message built from it is left out.
pub mod Merge
pub mod Search
pub mod Decide
pub mod RoundTrip
pub mod Tests
use qsp.Prelude.{
  ℕ, zero, suc, ◌+◌, ◌-◌, ◌/◌, ◌%◌, ◌^◌, Bool, true, false, not, ◌&&◌, ◌||◌, Option, none, some,
  List, [], ◌∷◌, ◌++◌, ltb, leb, ◌==◌, if◌then◌else◌, length, get_elem?,
}
use qsp.Prelude.Sort.{sort}
use qsp.Prelude.Text.{Text, is_empty, trim_space, cut, all_digits, parse_uint, format_uint}

pub data Kind : Type 0 where
  registration subscriber talkgroup : Kind

unfoldable pub ceiling : Kind → ℕ
ceiling registration = 2 ^ 32 - 1
ceiling _ = 2 ^ 24 - 1

-- The source's Mode is a string: `""`, "permit", "deny", or any other.
pub data Mode : Type 0 where
  unset permit deny : Mode
  other : Text → Mode

pub record Span : Type 0 where
  pub lo : ℕ
  pub hi : ℕ

-- The source's List.
pub record AccessList : Type 0 where
  pub mode : Mode
  pub spans : List Span

pub data ParseError : Type 0 where
  bad_mode : Mode → ParseError
  permits_nothing : ParseError
  empty_entry : ParseError
  missing_number : Text → ParseError
  not_a_number : Text → ParseError
  too_large : Text → ℕ → ParseError
  zero_station : ParseError
  backwards : Text → ℕ → ℕ → ParseError

-- An error names the configuration field that it was met in.
pub data Result {ℓ} (A : Type ℓ) : Type ℓ where
  ok : A → Result A
  err : Text → ParseError → Result A

infixl 5 ◌>>=◌
abbrev pub ◌>>=◌ {ℓ κ} : {A : Type ℓ} {B : Type κ} → Result A → (A → Result B) → Result B
ok a >>= f = f a
err field e >>= f = err field e

unfoldable pub parse_id : Text → Kind → Text → Text → Result ℕ
unfolding ceiling
parse_id field kind num entry =
    if is_empty num
    then err field (missing_number entry)
    else if not (all_digits num)
    then err field (not_a_number entry)
    else elim (parse_uint num) [
      | none ↦ err field (too_large num (ceiling kind))
      | some id ↦
          if ltb (ceiling kind) id
          then err field (too_large num (ceiling kind))
          else if id == 0
          then err field zero_station
          else ok (id % 2 ^ 32)
    ]

unfoldable pub parse_entry : Text → Kind → Text → Result Span
parse_entry field kind raw =
    let entry = trim_space raw in
    if is_empty entry then err field empty_entry else elim (cut b'-' entry) [
      | none ↦ do id ← parse_id field kind entry entry; ok (record { lo = id; hi = id })
      | some (lo, hi) ↦ do
        low ← parse_id field kind lo entry
        high ← parse_id field kind hi entry
        if ltb high low
            then err field (backwards entry high low)
            else ok (record { lo = low; hi = high })
    ]

unfoldable pub parse_entries : Text → Kind → List Text → Result (List Span)
parse_entries field kind [] = ok []
parse_entries field kind (raw ∷ rest) = do
  s ← parse_entry field kind raw
  ss ← parse_entries field kind rest
  ok (s ∷ ss)

-- The less function that `merge` sorts by.
unfoldable pub span_less : Span → Span → Bool
span_less a b = if not (a.lo == b.lo) then ltb a.lo b.lo else ltb a.hi b.hi

-- `s.lo <= last.hi || s.lo == last.hi+1`, where the sum is a uint32.
unfoldable pub touches : Span → Span → Bool
touches last s = leb s.lo last.hi || s.lo == (last.hi + 1) % 2 ^ 32

unfoldable pub extend : Span → Span → Span
extend last s = if ltb last.hi s.hi then record last { hi = s.hi } else last

-- The loop of `merge`: `last` is the last span of `out`, and the spans before it stay as they are.
unfoldable pub merge_from : Span → List Span → List Span
unfolding touches extend
merge_from last [] = last ∷ []
merge_from last (s ∷ rest) =
    let joined = merge_from (extend last s) rest in
    let apart = last ∷ merge_from s rest in if touches last s then joined else apart

merge_sorted : List Span → List Span
merge_sorted [] = []
merge_sorted (s ∷ rest) = merge_from s rest

unfoldable pub merge : List Span → List Span
unfolding merge_sorted
merge spans = merge_sorted (sort span_less spans)

-- The switch on the mode: a mode that is left out is deny.
unfoldable pub read_mode : Text → Mode → Result Mode
read_mode field unset = ok deny
read_mode field deny = ok deny
read_mode field permit = ok permit
read_mode field (other m) = err field (bad_mode (other m))

-- `mode == ModePermit && len(entries) == 0`.
unfoldable pub refuses_all : Mode → List Text → Bool
refuses_all permit [] = true
refuses_all _ _ = false

-- The source's Parse.
unfoldable pub parse : Text → Kind → Mode → List Text → Result AccessList
unfolding read_mode refuses_all parse_entries parse_entry merge
parse field kind mode entries = do
  m ← read_mode field mode
  if refuses_all m entries
      then err field permits_nothing
      else do ss ← parse_entries field kind entries; ok (record { mode = m; spans = merge ss })

-- `sort.Search(n, f)`, by the bisection of the standard library, on fuel for its loop.
unfoldable pub search_from : ℕ → (ℕ → Bool) → ℕ → ℕ → ℕ
search_from zero f i j = i
search_from (suc fuel) f i j =
    let h = (i + j) / 2 in
    let right = search_from fuel f (h + 1) j in
    let left = search_from fuel f i h in if ltb i j then (if f h then left else right) else i

unfoldable pub sort_search : ℕ → (ℕ → Bool) → ℕ
unfolding search_from
sort_search n f = search_from n f 0 n

-- `l.spans[i].hi >= id`; the search asks only below the length.
unfoldable pub reaches : List Span → ℕ → ℕ → Bool
reaches spans id i = elim (get_elem? spans i) [ none ↦ true | some s ↦ leb id s.hi ]

-- `i < len(l.spans) && l.spans[i].lo <= id`.
unfoldable pub starts_by : List Span → ℕ → ℕ → Bool
starts_by spans id i = elim (get_elem? spans i) [ none ↦ false | some s ↦ leb s.lo id ]

unfoldable pub names : AccessList → ℕ → Bool
unfolding sort_search reaches starts_by
names l id = starts_by l.spans id (sort_search (length l.spans) (reaches l.spans id))

unfoldable pub is_permit : Mode → Bool
is_permit permit = true
is_permit _ = false

unfoldable pub allows : AccessList → ℕ → Bool
unfolding names is_permit
allows l id = let named = names l id in if is_permit l.mode then named else not named

unfoldable pub no_spans : List Span → Bool
no_spans [] = true
no_spans (s ∷ ss) = false

unfoldable pub permissive : AccessList → Bool
unfolding no_spans is_permit
permissive l = not (is_permit l.mode) && no_spans l.spans

-- The method Mode of a list.
unfoldable pub mode_of : AccessList → Mode
mode_of l = elim l.mode [ unset ↦ deny | m ↦ m ]

unfoldable pub span_text : Span → Text
span_text s = if s.lo == s.hi then format_uint s.lo else format_uint s.lo ++ b'-' ∷ format_uint s.hi

unfoldable pub texts : List Span → List Text
unfolding span_text
texts [] = []
texts (s ∷ rest) = span_text s ∷ texts rest

-- The method Entries.
unfoldable pub entries : AccessList → List Text
unfolding texts
entries l = texts l.spans

-- The set of lists, and its methods Talkgroups and Permissive.
pub record Lists : Type 0 where
  pub registration_list : AccessList
  pub subscriber_list : AccessList
  pub talkgroup1 : AccessList
  pub talkgroup2 : AccessList

abbrev empty_list : AccessList
empty_list = record { mode = unset; spans = [] }

unfoldable pub talkgroups : Lists → ℕ → AccessList
talkgroups l timeslot =
    if timeslot == 1 then l.talkgroup1 else if timeslot == 2 then l.talkgroup2 else empty_list

unfoldable permissive_lists : Lists → Bool
unfolding permissive
permissive_lists l =
    permissive l.registration_list
    && permissive l.subscriber_list
    && permissive l.talkgroup1
    && permissive l.talkgroup2
