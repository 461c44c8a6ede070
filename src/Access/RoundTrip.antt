-- ===== src/Access/RoundTrip.antt =====
-- `Entries` against `Parse`: a list that was parsed and written out again is read as itself.
use qsp.Prelude.{
  ℕ, ◌+◌, ◌≤◌, ◌<◌, ◌≡◌, refl, false, List, [], ◌∷◌, ◌++◌, Option, some, none, arith, ◌==◌, ==_iff,
  All, All-In, All-of_In, Bool-cases, inl, inr, ◌⊎◌,
}
use qsp.Prelude.Text.{
  Text, is_empty, trim_space, cut, format_uint, is_space, IsSolid, trim_space-IsSolid,
  IsSolid-of_IsDigits, IsSolid-append, all_digits-IsDigits, cut-IsDigits, cut-append,
  format_uint-IsDigits, format_uint-ne-nil, parse_uint-format_uint,
}
use qsp.Prelude.Sort.{insert, sort, In-of_sort}
use qsp.Access.{
  Kind, ceiling, Mode, unset, permit, deny, Span, AccessList, ok, parse_id, parse_entry,
  parse_entries, span_less, merge, merge_sorted, merge_from, extend, touches, read_mode,
  refuses_all, parse, mode_of, span_text, texts, entries,
}
use qsp.Access.Merge.{IsSeparated}
use qsp.Access.Decide.{Fits, ceiling-lt, parse_entries-Fits, parse-Parsed, Parsed-IsSeparated}

parse_id-format_uint :
    (field : Text) (kind : Kind) (n : ℕ) (entry : Text)
    → 0 < n
    → n ≤ ceiling kind
    → parse_id field kind (format_uint n) entry ≡ ok n
unfolding parse_id
parse_id-format_uint field kind n entry h k = ground (
  arith,
  ceiling-lt kind,
  parse_uint-format_uint n,
  all_digits-IsDigits (format_uint n) (format_uint-IsDigits n),
  format_uint-ne-nil n,
)

is_empty-append : (a b : Text) → is_empty a ≡ false → is_empty (a ++ b) ≡ false
is_empty-append [] b h = ground arith
is_empty-append (c ∷ a) b h = refl

span_text-IsSolid : (s : Span) → IsSolid (span_text s)
unfolding span_text is_space
span_text-IsSolid s = elim (Bool-cases (s.lo == s.hi)) [
  | inl e ↦ rw e (IsSolid-of_IsDigits _ (format_uint-IsDigits s.lo))
  | inr e ↦ rw e (
      IsSolid-append (format_uint s.lo) (b'-' ∷ format_uint s.hi)
        (IsSolid-of_IsDigits _ (format_uint-IsDigits s.lo))
        (refl, IsSolid-of_IsDigits _ (format_uint-IsDigits s.hi)))
]

-- An entry of one number, and one of two numbers.
parse_entry-solid :
    (field : Text) (kind : Kind) (lo hi : ℕ)
    → Fits kind (record { lo = lo; hi = hi })
    → (c : Option (Text × Text)) (entry : Text) → trim_space entry ≡ entry
    → is_empty entry ≡ false
    → cut b'-' entry ≡ c
    → ((c ≡ none) × (entry ≡ format_uint lo) × (lo ≡ hi))
      ⊎ (c ≡ some (format_uint lo, format_uint hi))
    → parse_entry field kind entry ≡ ok (record { lo = lo; hi = hi })
unfolding parse_entry
parse_entry-solid field kind lo hi f c entry t n k (inl (e, p, q)) =
    ground (arith, parse_id-format_uint field kind lo entry, f.ordered)
parse_entry-solid field kind lo hi f c entry t n k (inr e) = ground (
  arith,
  parse_id-format_uint field kind lo entry,
  parse_id-format_uint field kind hi entry,
  f.ordered,
)

parse_entry-span_text :
    (field : Text) (kind : Kind) (s : Span)
    → Fits kind s
    → parse_entry field kind (span_text s) ≡ ok s
parse_entry-span_text field kind s f = elim (Bool-cases (s.lo == s.hi)) [
  | inl e ↦
      let same : span_text s ≡ format_uint s.lo = unfold span_text in rw e refl in
      parse_entry-solid field kind s.lo s.hi f none (span_text s)
        (trim_space-IsSolid (span_text s) (span_text-IsSolid s)) (rw same (format_uint-ne-nil s.lo))
        (rw same (cut-IsDigits _ (format_uint-IsDigits s.lo)))
        (inl (refl, same, (==_iff s.lo s.hi).0 e))
  | inr e ↦
      let both : span_text s ≡ format_uint s.lo ++ b'-' ∷ format_uint s.hi =
        unfold span_text in rw e refl in
      parse_entry-solid field kind s.lo s.hi f (some (format_uint s.lo, format_uint s.hi))
        (span_text s) (trim_space-IsSolid (span_text s) (span_text-IsSolid s))
        (rw both (is_empty-append (format_uint s.lo) _ (format_uint-ne-nil s.lo)))
        (rw both (cut-append (format_uint s.lo) _ (format_uint-IsDigits s.lo))) (inr refl)
]

parse_entries-texts :
    (field : Text) (kind : Kind) (ss : List Span)
    → All (Fits kind) ss
    → parse_entries field kind (texts ss) ≡ ok ss
unfolding parse_entries texts
parse_entries-texts field kind [] f = refl
parse_entries-texts field kind (s ∷ ss) f =
    rw (parse_entry-span_text field kind s f.0) (rw (parse_entries-texts field kind ss f.1) refl)

insert-below :
    (b : Span) (ss : List Span) (n : ℕ)
    → b.lo ≤ n
    → All (λ t. n + 2 ≤ t.lo) ss
    → insert span_less b ss ≡ b ∷ ss
unfolding insert span_less
insert-below b [] n h k = refl
insert-below b (s ∷ ss) n h k = ground arith

sort-IsSeparated : (ss : List Span) → IsSeparated ss → sort span_less ss ≡ ss
unfolding sort
sort-IsSeparated [] h = refl
sort-IsSeparated (s ∷ ss) h = rw (sort-IsSeparated ss h.2) (insert-below s ss s.hi h.0.ordered h.1)

merge_from_apart :
    (last : Span) (ss : List Span) → IsSeparated (last ∷ ss) → merge_from last ss ≡ last ∷ ss
unfolding merge_from
merge_from_apart last [] h = refl
merge_from_apart last (s ∷ ss) h = ground (arith, h.1.0, h.2.0.positive, merge_from_apart s ss h.2)

merge_sorted_apart : (ss : List Span) → IsSeparated ss → merge_sorted ss ≡ ss
unfolding merge_sorted
merge_sorted_apart [] h = refl
merge_sorted_apart (s ∷ ss) h = merge_from_apart s ss h

merge_apart : (ss : List Span) → IsSeparated ss → merge ss ≡ ss
unfolding merge
merge_apart ss h = rw (sort-IsSeparated ss h) (merge_sorted_apart ss h)

extend-Fits : (kind : Kind) (a b : Span) → Fits kind a → Fits kind b → Fits kind (extend a b)
unfolding extend
extend-Fits kind a b f g = ground arith

merge_from-Fits :
    (kind : Kind) (last : Span) (ss : List Span)
    → Fits kind last
    → All (Fits kind) ss
    → All (Fits kind) (merge_from last ss)
unfolding merge_from
merge_from-Fits kind last [] f g = (f, tt)
merge_from-Fits kind last (s ∷ ss) f g = elim (Bool-cases (touches last s)) [
  | inl t ↦ rw t (merge_from-Fits kind (extend last s) ss (extend-Fits kind last s f g.0) g.1)
  | inr t ↦ rw t (f, merge_from-Fits kind s ss g.0 g.1)
]

merge_sorted-Fits :
    (kind : Kind) (ss : List Span) → All (Fits kind) ss → All (Fits kind) (merge_sorted ss)
unfolding merge_sorted
merge_sorted-Fits kind [] f = tt
merge_sorted-Fits kind (s ∷ ss) f = merge_from-Fits kind s ss f.0 f.1

merge-Fits : (kind : Kind) (ss : List Span) → All (Fits kind) ss → All (Fits kind) (merge ss)
unfolding merge
merge-Fits kind ss f =
    merge_sorted-Fits kind _
      (All-of_In _ (λ s i. All-In (Fits kind) s ss f (In-of_sort span_less s ss i)))

abbrev IsCons {ℓ} : {A : Type ℓ} → List A → Type 0
IsCons [] = ⊥
IsCons (x ∷ xs) = Unit

insert-IsCons : (b : Span) (ss : List Span) → IsCons (insert span_less b ss)
unfolding insert
insert-IsCons b [] = tt
insert-IsCons b (s ∷ ss) = elim (Bool-cases (span_less s b)) [ inl e ↦ rw e tt | inr e ↦ rw e tt ]

merge_from-IsCons : (last : Span) (ss : List Span) → IsCons (merge_from last ss)
unfolding merge_from
merge_from-IsCons last [] = tt
merge_from-IsCons last (s ∷ ss) = elim (Bool-cases (touches last s)) [
  | inl e ↦ rw e (merge_from-IsCons (extend last s) ss)
  | inr e ↦ rw e tt
]

merge_sorted-IsCons : (ss : List Span) → IsCons ss → IsCons (merge_sorted ss)
unfolding merge_sorted
merge_sorted-IsCons [] h = absurd h
merge_sorted-IsCons (s ∷ ss) h = merge_from-IsCons s ss

merge-IsCons : (s : Span) (ss : List Span) → IsCons (merge (s ∷ ss))
unfolding merge sort
merge-IsCons s ss = merge_sorted-IsCons _ (insert-IsCons s (sort span_less ss))

-- A list that is not refused outright is not refused when it is written out.
refuses_all-texts :
    (field : Text) (kind : Kind) (m : Mode) (raws : List Text) (ss spans : List Span)
    → parse_entries field kind raws ≡ ok ss
    → spans ≡ merge ss
    → refuses_all m raws ≡ false
    → refuses_all m (texts spans) ≡ false
unfolding refuses_all texts
refuses_all-texts field kind permit [] ss spans p e h = ground arith
refuses_all-texts field kind permit (r ∷ raws) [] spans p e h =
    absurd (unfold parse_entries in ground arith)
refuses_all-texts field kind permit (r ∷ raws) (s ∷ ss) [] p e h =
    absurd (rw (← e) at (merge-IsCons s ss))
refuses_all-texts field kind permit (r ∷ raws) (s ∷ ss) (t ∷ spans) p e h = refl
refuses_all-texts field kind _ raws ss spans p e h = refl

read_mode-mode_of :
    (field other_field : Text) (mode m : Mode)
    → read_mode field mode ≡ ok m
    → (elim m [ unset ↦ deny | m' ↦ m' ] ≡ m) × (read_mode other_field m ≡ ok m)
unfolding read_mode
read_mode-mode_of field other_field mode m h = ground arith

-- What `Parse` accepted, written out by `Mode` and `Entries`, is accepted under any field name for
-- the same kind and gives the same list.
pub parse-entries :
    (field other_field : Text) (kind : Kind) (mode : Mode) (raws : List Text) (l : AccessList)
    → parse field kind mode raws ≡ ok l
    → parse other_field kind (mode_of l) (entries l) ≡ ok l
unfolding parse mode_of entries
parse-entries field other_field kind mode raws l h =
    let p = parse-Parsed field kind mode raws l h in
    let m = read_mode-mode_of field other_field mode l.mode p.mode_read in
    let f : All (Fits kind) l.spans =
      rw p.spans_are
        (merge-Fits kind p.spans_read (parse_entries-Fits field kind raws p.spans_read p.read)) in
    rw (m.0) (
      rw (m.1) (
        rw
          (refuses_all-texts field kind l.mode raws p.spans_read l.spans p.read p.spans_are
            p.not_refused)
          (rw (parse_entries-texts other_field kind l.spans f)
            (rw (merge_apart l.spans (Parsed-IsSeparated l p)) refl))))
