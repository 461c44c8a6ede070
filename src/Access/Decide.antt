-- ===== src/Access/Decide.antt =====
-- `Parse` with `Allows`: what a parsed list decides, from the entries as they were written.
use qsp.Prelude.{
  ℕ, ◌^◌, ◌≤◌, ◌<◌, ◌≡◌, refl, sym, ◌∙◌, Bool, true, false, not, ◌||◌, List, [], ◌∷◌, Option, some,
  none, arith, ltb, if◌then◌else◌, All, Bool-cases, Option-cases, inl, inr, ◌↔◌,
}
use qsp.Prelude.Text.{Text, trim_space, cut, parse_uint}
use qsp.Access.{
  Kind, registration, subscriber, talkgroup, ceiling, Mode, unset, permit, deny, other, Span,
  AccessList, Result, ok, err, ◌>>=◌, parse_id, parse_entry, parse_entries, span_less, merge,
  merge_sorted, merge_from, extend, touches, read_mode, refuses_all, parse, names, is_permit,
  allows, no_spans, permissive,
}
use qsp.Access.Merge.{within, covers, IsSpan, IsSeparated, covers-merge, merge-IsSeparated}
use qsp.Access.Search.{names-covers}

-- A chain that succeeds has succeeded at its first step, and at the next one on what that gave.
>>=-eq :
    {X Y : Type 0} {y : Y} (next : X → Result Y) (first : Result X)
    → ok y ≡ (first >>= next)
    → (x : X) × (first ≡ ok x) × (next x ≡ ok y)
>>=-eq next (err field why) e = cc
>>=-eq next (ok x) e = (x, refl, sym e)

pub ceiling-lt : (kind : Kind) → ceiling kind < 2 ^ 32
unfolding ceiling
ceiling-lt registration = omega arith
ceiling-lt _ = omega arith

parse_id-range :
    (field : Text) (kind : Kind) (num entry : Text) (n : ℕ)
    → parse_id field kind num entry ≡ ok n
    → (0 < n) × (n ≤ ceiling kind)
unfolding parse_id
parse_id-range field kind num entry n h = elim (Option-cases (parse_uint num)) [
  | inl e ↦ ground arith
  | inr (v, e) ↦ ground (arith, ceiling-lt kind)
]

-- A span of the list's kind.
pub record Fits (kind : Kind) (s : Span) : Type 0 where
  pub positive : 0 < s.lo
  pub ordered : s.lo ≤ s.hi
  pub fits : s.hi ≤ ceiling kind

Fits-IsSpan : (kind : Kind) (s : Span) → Fits kind s → IsSpan s
Fits-IsSpan kind s f = record {
  positive = f.positive;
  ordered = f.ordered;
  fits = omega (arith, ceiling-lt kind);
}

All-Fits-IsSpan : (kind : Kind) (ss : List Span) → All (Fits kind) ss → All IsSpan ss
All-Fits-IsSpan kind [] f = tt
All-Fits-IsSpan kind (s ∷ ss) f = (Fits-IsSpan kind s f.0, All-Fits-IsSpan kind ss f.1)

-- The part of `parse_entry` after the entry is cut at its dash.
range_of : Text → Kind → Text → Option (Text × Text) → Result Span
range_of field kind entry none = do
  id ← parse_id field kind entry entry
  ok (record { lo = id; hi = id })
range_of field kind entry (some (lo, hi)) = do
  low ← parse_id field kind lo entry
  high ← parse_id field kind hi entry
  if ltb high low
      then err field (qsp.Access.backwards entry high low)
      else ok (record { lo = low; hi = high })

range_of-Fits :
    (field : Text) (kind : Kind) (entry : Text) (c : Option (Text × Text)) (s : Span)
    → range_of field kind entry c ≡ ok s
    → Fits kind s
unfolding range_of
range_of-Fits field kind entry none s h =
    let (id, p, q) = >>=-eq _ (parse_id field kind entry entry) (sym h) in
    ground (arith, parse_id-range field kind entry entry id p)
range_of-Fits field kind entry (some (lo, hi)) s h =
    let (low, p, q) = >>=-eq _ (parse_id field kind lo entry) (sym h) in
    let (high, p', q') = >>=-eq _ (parse_id field kind hi entry) (sym q) in
    ground
      (arith, parse_id-range field kind lo entry low p, parse_id-range field kind hi entry high p')

parse_entry-range_of :
    (field : Text) (kind : Kind) (raw : Text) (s : Span)
    → parse_entry field kind raw ≡ ok s
    → range_of field kind (trim_space raw) (cut b'-' (trim_space raw)) ≡ ok s
unfolding parse_entry range_of
parse_entry-range_of field kind raw s h = ground arith

parse_entry-Fits :
    (field : Text) (kind : Kind) (raw : Text) (s : Span)
    → parse_entry field kind raw ≡ ok s
    → Fits kind s
parse_entry-Fits field kind raw s h =
    range_of-Fits field kind _ _ s (parse_entry-range_of field kind raw s h)

-- The entry is well formed and its range holds the ID.
abbrev pub mentions : Text → Kind → ℕ → Text → Bool
mentions field kind id raw = elim (parse_entry field kind raw) [ ok s ↦ within s id | _ ↦ false ]

-- Some entry of the list mentions the ID.
abbrev pub mentioned : Text → Kind → List Text → ℕ → Bool
mentioned field kind [] id = false
mentioned field kind (raw ∷ rest) id = mentions field kind id raw || mentioned field kind rest id

pub parse_entries-Fits :
    (field : Text) (kind : Kind) (raws : List Text) (ss : List Span)
    → parse_entries field kind raws ≡ ok ss
    → All (Fits kind) ss
unfolding parse_entries
parse_entries-Fits field kind [] ss h = ground arith
parse_entries-Fits field kind (raw ∷ rest) ss h =
    let (s, p, q) = >>=-eq _ (parse_entry field kind raw) (sym h) in
    let (tail, p', q') = >>=-eq _ (parse_entries field kind rest) (sym q) in
    ground (arith, parse_entry-Fits field kind raw s p, parse_entries-Fits field kind rest tail p')

parse_entries-mentioned :
    (field : Text) (kind : Kind) (raws : List Text) (ss : List Span) (id : ℕ)
    → parse_entries field kind raws ≡ ok ss
    → covers ss id ≡ mentioned field kind raws id
unfolding parse_entries
parse_entries-mentioned field kind [] ss id h = ground arith
parse_entries-mentioned field kind (raw ∷ rest) ss id h =
    let (s, p, q) = >>=-eq _ (parse_entry field kind raw) (sym h) in
    let (tail, p', q') = >>=-eq _ (parse_entries field kind rest) (sym q) in
    ground (arith, parse_entries-mentioned field kind rest tail id p')

read_mode-permit :
    (field : Text) (mode m : Mode) → read_mode field mode ≡ ok m → is_permit m ≡ is_permit mode
unfolding read_mode is_permit
read_mode-permit field mode m h = ground arith

-- What a successful Parse has done.
pub record Parsed (field : Text) (kind : Kind) (mode : Mode) (raws : List Text) (l : AccessList)
    : Type 0 where
  pub spans_read : List Span
  pub read : parse_entries field kind raws ≡ ok spans_read
  pub mode_read : read_mode field mode ≡ ok l.mode
  pub spans_are : l.spans ≡ merge spans_read
  pub not_refused : refuses_all l.mode raws ≡ false

pub parse-Parsed :
    (field : Text) (kind : Kind) (mode : Mode) (raws : List Text) (l : AccessList)
    → parse field kind mode raws ≡ ok l
    → Parsed field kind mode raws l
unfolding parse
parse-Parsed field kind mode raws l h =
    let (m, p, q) = >>=-eq _ (read_mode field mode) (sym h) in
    elim (Bool-cases (refuses_all m raws)) [
      | inl r ↦ absurd (cc (rw r at q))
      | inr r ↦
          let (ss, p', q') = >>=-eq _ (parse_entries field kind raws) (sym (rw r at q)) in
          let e : record { mode = m; spans = merge ss } ≡ l = ground arith in
          record {
            spans_read = ss;
            read = p';
            mode_read = rw (← e) p;
            spans_are = rw (← e) refl;
            not_refused = rw (← e) r;
          }
    ]

pub Parsed-IsSeparated :
    {field : Text} {kind : Kind} {mode : Mode} {raws : List Text} (l : AccessList)
    → Parsed field kind mode raws l
    → IsSeparated l.spans
Parsed-IsSeparated {field} {kind} {mode} {raws} l p = rw p.spans_are (
    merge-IsSeparated p.spans_read
      (All-Fits-IsSpan kind p.spans_read (parse_entries-Fits field kind raws p.spans_read p.read)))

Parsed-covers :
    {field : Text} {kind : Kind} {mode : Mode} {raws : List Text} (l : AccessList) (id : ℕ)
    → Parsed field kind mode raws l
    → names l id ≡ mentioned field kind raws id
Parsed-covers {field} {kind} {mode} {raws} l id p =
    names-covers l id (Parsed-IsSeparated l p)
    ∙ rw p.spans_are (
        covers-merge p.spans_read id (
          All-Fits-IsSpan kind p.spans_read
            (parse_entries-Fits field kind raws p.spans_read p.read)))
    ∙ parse_entries-mentioned field kind raws p.spans_read id p.read

-- A list that Parse accepts lets an ID pass exactly as its text says, whatever the order and the
-- overlaps of its entries: under permit if some entry mentions it, else if none does.
pub allows-parse :
    (field : Text) (kind : Kind) (mode : Mode) (raws : List Text) (l : AccessList) (id : ℕ)
    → parse field kind mode raws ≡ ok l
    → allows l id ≡ (
        if is_permit mode then mentioned field kind raws id else not (mentioned field kind raws id))
unfolding allows
allows-parse field kind mode raws l id h =
    let p = parse-Parsed field kind mode raws l h in
    rw (Parsed-covers l id p) (rw (read_mode-permit field mode l.mode p.mode_read) refl)

covers_zero : (ss : List Span) → IsSeparated ss → covers ss 0 ≡ false
covers_zero [] h = refl
covers_zero (s ∷ ss) h = ground (arith, h.0.positive, covers_zero ss h.2)

allows-covers :
    (l : AccessList) (id : ℕ)
    → IsSeparated l.spans
    → allows l id ≡ (if is_permit l.mode then covers l.spans id else not (covers l.spans id))
unfolding allows
allows-covers l id s = rw (names-covers l id s) refl

permissive-allows :
    (m : Mode) (ss : List Span) (id : ℕ)
    → IsSeparated ss
    → permissive (record { mode = m; spans = ss }) ≡ true
    → allows (record { mode = m; spans = ss }) id ≡ true
unfolding permissive
permissive-allows m [] id s h = ground (arith, allows-covers (record { mode = m; spans = [] }) id s)
permissive-allows m (t ∷ ss) id s h = ground arith

allows-permissive :
    (m : Mode) (ss : List Span)
    → IsSeparated ss
    → ((id : ℕ) → allows (record { mode = m; spans = ss }) id ≡ true)
    → permissive (record { mode = m; spans = ss }) ≡ true
unfolding permissive
allows-permissive m [] s h =
    ground (arith, allows-covers (record { mode = m; spans = [] }) 0 s, h 0)
allows-permissive m (t ∷ ss) s h =
    let l : AccessList = record { mode = m; spans = t ∷ ss } in
    ground (
      arith,
      s.0.ordered,
      allows-covers l 0 s,
      h 0,
      covers_zero (t ∷ ss) s,
      allows-covers l t.lo s,
      h t.lo,
    )

-- `Permissive` holds of a parsed list exactly when the list allows every ID.
permissive-parse :
    (field : Text) (kind : Kind) (mode : Mode) (raws : List Text) (l : AccessList)
    → parse field kind mode raws ≡ ok l
    → (permissive l ≡ true) ↔ ((id : ℕ) → allows l id ≡ true)
permissive-parse field kind mode raws l h =
    let s = Parsed-IsSeparated l (parse-Parsed field kind mode raws l h) in
    (λ p id. permissive-allows l.mode l.spans id s p, allows-permissive l.mode l.spans s)
