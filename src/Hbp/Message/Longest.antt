-- ===== src/Hbp/Message/Longest.antt =====
-- The order of the switch: a packet goes to the parser of the longest tag that it starts with.
use qsp.Prelude.{
  ◌≤◌, ◌≡◌, ◌⊎◌, inl, inr, refl, Bool, true, false, not, ◌&&◌, ◌||◌, none, some, List, [], ◌∷◌, leb,
  arith, In, length, Bool-cases,
}
use qsp.Prelude.Bytes.{Bytes}
use qsp.Prelude.Text.{Text}
use qsp.Hbp.Message.{
  Parser, ping, tag_of, has_tag, cases, parsed_by, unknown_kind, first_uncaptured, uncaptured_tags,
  first_case, dispatch,
}

-- Of two tags that a packet starts with, the shorter is the start of the longer.
has_tag-nested :
    (b : Bytes) (s t : Text)
    → has_tag b s ≡ true
    → has_tag b t ≡ true
    → length s ≤ length t
    → has_tag t s ≡ true
unfolding has_tag
has_tag-nested b [] t hs ht le = refl
has_tag-nested b (x ∷ s) [] hs ht le = absurd (omega arith)
has_tag-nested [] (x ∷ s) (y ∷ t) hs ht le = cc
has_tag-nested (z ∷ b) (x ∷ s) (y ∷ t) hs ht le = ground (arith, has_tag-nested b s t)

-- No tag is shorter than a later one that starts with it.
ranks_before : Parser → List Parser → Bool
ranks_before p [] = true
ranks_before p (q ∷ ps) =
    (leb (length (tag_of q)) (length (tag_of p)) || not (has_tag (tag_of q) (tag_of p)))
    && ranks_before p ps

longest_first : List Parser → Bool
unfolding ranks_before
longest_first [] = true
longest_first (p ∷ ps) = ranks_before p ps && longest_first ps

cases-longest_first : longest_first cases ≡ true
unfolding longest_first cases tag_of has_tag
cases-longest_first = refl

ranks_before-In :
    (p q : Parser) (ps : List Parser) (b : Bytes)
    → ranks_before p ps ≡ true
    → In q ps
    → has_tag b (tag_of p) ≡ true
    → has_tag b (tag_of q) ≡ true
    → length (tag_of q) ≤ length (tag_of p)
unfolding ranks_before
ranks_before-In p q [] b r i hp hq = absurd i
ranks_before-In p q (x ∷ ps) b r (inl e) hp hq =
    ground (arith, has_tag-nested b (tag_of p) (tag_of q) hp hq)
ranks_before-In p q (x ∷ ps) b r (inr i) hp hq = ranks_before-In p q ps b (ground arith) i hp hq

first_case-longest :
    (ps : List Parser) (b : Bytes) (p q : Parser)
    → longest_first ps ≡ true
    → first_case ps b ≡ some p
    → In q ps
    → has_tag b (tag_of q) ≡ true
    → length (tag_of q) ≤ length (tag_of p)
unfolding first_case longest_first
first_case-longest [] b p q l f i h = absurd i
first_case-longest (x ∷ ps) b p q l f i h = elim (Bool-cases (has_tag b (tag_of x))) [
  | inl t ↦
      let same : x ≡ p = ground arith in
      elim i [
        | inl e ↦ rw (e, same) (omega arith)
        | inr i' ↦ rw (← same) (ranks_before-In x q ps b (ground arith) i' t h)
      ]
  | inr t ↦ elim i [
    | inl e ↦ cc (rw e at h)
    | inr i' ↦ first_case-longest ps b p q (ground arith) (rw t at f) i' h
  ]
]

first_case-has_tag :
    (ps : List Parser) (b : Bytes) (p : Parser)
    → first_case ps b ≡ some p
    → has_tag b (tag_of p) ≡ true
unfolding first_case
first_case-has_tag [] b p f = cc
first_case-has_tag (x ∷ ps) b p f = ground (arith, first_case-has_tag ps b p)

first_case-none :
    (ps : List Parser) (b : Bytes) (q : Parser)
    → first_case ps b ≡ none
    → In q ps
    → has_tag b (tag_of q) ≡ false
unfolding first_case
first_case-none [] b q f i = absurd i
first_case-none (x ∷ ps) b q f i = elim (Bool-cases (has_tag b (tag_of x))) [
  | inl t ↦ cc (rw t at f)
  | inr t ↦ elim i [ inl e ↦ rw e t | inr i' ↦ first_case-none ps b q (rw t at f) i' ]
]

In-cases : (q : Parser) → In q cases
unfolding cases
In-cases ping = inl refl
In-cases _ = ground arith

dispatch-first_case :
    (b : Bytes) (p : Parser) → dispatch b ≡ parsed_by p → first_case cases b ≡ some p
unfolding dispatch
dispatch-first_case b p h = ground (arith, first_uncaptured uncaptured_tags b, first_case cases b)

unknown-first_case : (b seen : Bytes) → dispatch b ≡ unknown_kind seen → first_case cases b ≡ none
unfolding dispatch
unknown-first_case b seen h = ground (arith, first_uncaptured uncaptured_tags b, first_case cases b)

-- A packet that is given to a parser starts with that parser's tag, and with no longer tag of any
-- parser.
pub dispatch-longest :
    (b : Bytes) (p q : Parser)
    → dispatch b ≡ parsed_by p
    → (has_tag b (tag_of p) ≡ true)
      × ((has_tag b (tag_of q) ≡ false) ⊎ (length (tag_of q) ≤ length (tag_of p)))
dispatch-longest b p q h =
    let f = dispatch-first_case b p h in
    (
      first_case-has_tag cases b p f,
      elim (Bool-cases (has_tag b (tag_of q))) [
        | inl t ↦ inr (first_case-longest cases b p q cases-longest_first f (In-cases q) t)
        | inr t ↦ inl t
      ],
    )

-- A packet is reported as unknown only if it starts with no parser's tag.
dispatch-unknown :
    (b seen : Bytes) (q : Parser) → dispatch b ≡ unknown_kind seen → has_tag b (tag_of q) ≡ false
dispatch-unknown b seen q h = first_case-none cases b q (unknown-first_case b seen h) (In-cases q)
