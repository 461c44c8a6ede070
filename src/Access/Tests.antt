-- ===== src/Access/Tests.antt =====
-- Runs of the access lists on small configurations.
use qsp.Prelude.{
  ℕ, Bool, true, false, List, [], ◌∷◌, ◌≡◌, ◌≤◌, ◌↔◌, refl, arith, All, leb, not, if◌then◌else◌,
  ltb,
}
use qsp.Prelude.Text.{codes, Text}
use qsp.Access.{
  AccessList, Span, Mode, permit, deny, unset, other, talkgroup, registration, parse, ok, err,
  allows, entries, mode_of, bad_mode, backwards, permits_nothing, merge, names, permissive,
  is_permit,
}
use qsp.Access.Merge.{IsSpan, IsSeparated}
use qsp.Access.Decide.{mentioned, allows-parse}
use qsp.Access.RoundTrip.{parse-entries}

abbrev config : List Text
config = codes " 3100-3199" ∷ codes "9" ∷ codes "3200-3250 " ∷ codes "3120" ∷ []

abbrev spans : List Span
spans = record { lo = 9; hi = 9 } ∷ record { lo = 3100; hi = 3250 } ∷ []

abbrev merged : AccessList
merged = record { mode = permit; spans = spans }

-- Two ranges that meet are joined, and the entries are sorted.
parses : parse (codes "f") talkgroup permit config ≡ ok merged
unfolding parse qsp.Prelude.Text.trim_space qsp.Prelude.Text.is_space qsp.Prelude.Text.cut
    qsp.Access.parse_id qsp.Prelude.Text.all_digits qsp.Prelude.Text.parse_uint
    qsp.Prelude.Sort.sort qsp.Access.span_less qsp.Access.merge_from
parses = refl

-- Errors: a mode that does not exist, a permit list with no entry, and a range that runs backwards.
refuses_mode :
    parse (codes "f") talkgroup (other (codes "allow")) config
    ≡ err (codes "f") (bad_mode (other (codes "allow")))
unfolding parse
refuses_mode = refl

refuses_empty : parse (codes "f") talkgroup permit [] ≡ err (codes "f") permits_nothing
unfolding parse
refuses_empty = refl

refuses_backwards :
    parse (codes "f") registration deny (codes "9-3" ∷ [])
    ≡ err (codes "f") (backwards (codes "9-3") 3 9)
unfolding parse qsp.Prelude.Text.trim_space qsp.Prelude.Text.is_space qsp.Prelude.Text.cut
    qsp.Access.parse_id qsp.Prelude.Text.all_digits qsp.Prelude.Text.parse_uint
refuses_backwards = refl

abbrev unsorted : List Span
unsorted =
    record { lo = 40; hi = 50 } ∷ record { lo = 1; hi = 9 } ∷ record { lo = 10; hi = 20 } ∷ []

unsorted-IsSpan : All IsSpan unsorted
unsorted-IsSpan = (
  record { positive = omega arith; ordered = omega arith; fits = omega arith },
  (
    record { positive = omega arith; ordered = omega arith; fits = omega arith },
    (record { positive = omega arith; ordered = omega arith; fits = omega arith }, tt),
  ),
)

spans-IsSeparated : IsSeparated spans
spans-IsSeparated = (
  record { positive = omega arith; ordered = omega arith; fits = omega arith },
  (omega arith, tt),
  (record { positive = omega arith; ordered = omega arith; fits = omega arith }, tt, tt),
)

allows-parse_example : allows merged 3120 ≡ (
    if is_permit permit
    then mentioned (codes "f") talkgroup config 3120
    else not (mentioned (codes "f") talkgroup config 3120))
allows-parse_example = allows-parse (codes "f") talkgroup permit config merged 3120 parses

parse-entries_example : parse (codes "g") talkgroup (mode_of merged) (entries merged) ≡ ok merged
parse-entries_example = parse-entries (codes "f") (codes "g") talkgroup permit config merged parses
