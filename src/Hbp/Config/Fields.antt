-- ===== src/Hbp/Config/Fields.antt =====
-- A field is read as it was written if it fits its width and does not end in a space, and a field
-- that was read is written back to its bytes.
use qsp.Prelude.{
  length-drop, ℕ, zero, suc, ◌-◌, ◌≤◌, ◌≡◌, refl, sym, ◌∙◌, ap, List, [], ◌∷◌, ◌++◌, arith, length,
  take, drop, ==_iff, Bool-cases, length-append, inl, inr, ◌==◌,
}
use mathlib.Core.Path.{ap₂}
use qsp.Prelude.Bytes.{Bytes, take-append, drop-append, take-append-drop}
use qsp.Prelude.Text.{Text}
use qsp.Hbp.Config.{spaces, pad_to, trim_spaces, read_fields, pad_fields, sum_widths}

-- What a field of the given width can hold.
abbrev pub Fits : Text → ℕ → Type 0
Fits s w = (length s ≤ w) × (trim_spaces s ≡ s)

abbrev pub AllFit : List Text → List ℕ → Type 0
AllFit [] [] = Unit
AllFit (s ∷ fs) (w ∷ ws) = Fits s w × AllFit fs ws
AllFit _ _ = ⊥

length-spaces : (n : ℕ) → length (spaces n) ≡ n
unfolding spaces
length-spaces zero = refl
length-spaces (suc n) = ap suc (length-spaces n)

trim_spaces-spaces : (n : ℕ) → trim_spaces (spaces n) ≡ []
unfolding spaces trim_spaces
trim_spaces-spaces zero = refl
trim_spaces-spaces (suc n) = rw (trim_spaces-spaces n) refl

trim_spaces-append : (s : Text) (n : ℕ) → trim_spaces (s ++ spaces n) ≡ trim_spaces s
unfolding trim_spaces
trim_spaces-append [] n = trim_spaces-spaces n
trim_spaces-append (c ∷ s) n = rw (trim_spaces-append s n) refl

pad_to_fit : (s : Text) (w : ℕ) → length s ≤ w → pad_to s w ≡ s ++ spaces (w - length s)
unfolding pad_to
pad_to_fit s w h = ground arith

length-pad_to : (s : Text) (w : ℕ) → length s ≤ w → length (pad_to s w) ≡ w
length-pad_to s w h = omega (
  arith,
  ap length (pad_to_fit s w h),
  length-append s (spaces (w - length s)),
  length-spaces (w - length s),
)

trim_spaces-pad_to : (s : Text) (w : ℕ) → Fits s w → trim_spaces (pad_to s w) ≡ s
trim_spaces-pad_to s w f = rw (pad_to_fit s w f.0, trim_spaces-append s (w - length s)) f.1

take_of_length : (n : ℕ) (xs ys : Bytes) → length xs ≡ n → take n (xs ++ ys) ≡ xs
take_of_length n xs ys e = rw (← e) (take-append xs ys)

drop_of_length : (n : ℕ) (xs ys : Bytes) → length xs ≡ n → drop n (xs ++ ys) ≡ ys
drop_of_length n xs ys e = rw (← e) (drop-append xs ys)

pub read_fields-pad_fields :
    (fs : List Text) (ws : List ℕ) → AllFit fs ws → read_fields ws (pad_fields fs ws) ≡ fs
unfolding read_fields pad_fields
read_fields-pad_fields [] [] h = refl
read_fields-pad_fields (s ∷ fs) (w ∷ ws) h =
    let e = length-pad_to s w h.0.0 in
    rw
      (
        take_of_length w (pad_to s w) (pad_fields fs ws) e,
        drop_of_length w (pad_to s w) (pad_fields fs ws) e,
        trim_spaces-pad_to s w h.0,
        read_fields-pad_fields fs ws h.1,
      )
      refl
read_fields-pad_fields [] (w ∷ ws) h = absurd h
read_fields-pad_fields (s ∷ fs) [] h = absurd h

pub length-pad_fields :
    (fs : List Text) (ws : List ℕ) → AllFit fs ws → length (pad_fields fs ws) ≡ sum_widths ws
unfolding pad_fields
length-pad_fields [] [] h = refl
length-pad_fields (s ∷ fs) (w ∷ ws) h = omega (
  arith,
  length-append (pad_to s w) (pad_fields fs ws),
  length-pad_to s w h.0.0,
  length-pad_fields fs ws h.1,
)
length-pad_fields [] (w ∷ ws) h = absurd h
length-pad_fields (s ∷ fs) [] h = absurd h

length-trim_spaces : (s : Text) → length (trim_spaces s) ≤ length s
unfolding trim_spaces
length-trim_spaces [] = omega arith
length-trim_spaces (c ∷ s) = ground (arith, length-trim_spaces s)

trim_spaces_cons :
    (c : ℕ) (s t : Text)
    → trim_spaces s ≡ t
    → t ++ spaces (length s - length t) ≡ s
    → trim_spaces (c ∷ s) ++ spaces (length (c ∷ s) - length (trim_spaces (c ∷ s))) ≡ c ∷ s
unfolding trim_spaces spaces
trim_spaces_cons c s [] e h = elim (Bool-cases (c == 0x20)) [
  | inl y ↦
      let longer : suc (length s) - 0 ≡ suc (length s - 0) = omega arith in
      rw (e, y) (ap spaces longer ∙ ap₂ ◌∷◌ (sym ((==_iff c 0x20).0 y)) h)
  | inr n ↦ rw (e, n) (ap (◌∷◌ c) (ap spaces (omega arith) ∙ h))
]
trim_spaces_cons c s (x ∷ t) e h = rw e (ap (◌∷◌ c) (ap (λ k. x ∷ t ++ spaces k) (omega arith) ∙ h))

-- Trimming takes off spaces alone.
trim_spaces-append_spaces :
    (s : Text) → trim_spaces s ++ spaces (length s - length (trim_spaces s)) ≡ s
unfolding trim_spaces spaces
trim_spaces-append_spaces [] = refl
trim_spaces-append_spaces (c ∷ s) =
    trim_spaces_cons c s (trim_spaces s) refl (trim_spaces-append_spaces s)

length-take : (n : ℕ) (b : Bytes) → n ≤ length b → length (take n b) ≡ n
length-take zero b h = refl
length-take (suc n) [] h = absurd (omega arith)
length-take (suc n) (x ∷ b) h = ap suc (length-take n b (omega arith))

pad_to-trim_spaces : (s : Text) (w : ℕ) → length s ≡ w → pad_to (trim_spaces s) w ≡ s
pad_to-trim_spaces s w e =
    rw (pad_to_fit (trim_spaces s) w (omega (arith, length-trim_spaces s)), ← e)
      (trim_spaces-append_spaces s)

pub pad_fields-read_fields :
    (ws : List ℕ) (b : Bytes) → length b ≡ sum_widths ws → pad_fields (read_fields ws b) ws ≡ b
unfolding read_fields pad_fields
pad_fields-read_fields [] [] h = refl
pad_fields-read_fields [] (x ∷ b) h = absurd (omega arith)
pad_fields-read_fields (w ∷ ws) b h =
    rw
      (
        pad_to-trim_spaces (take w b) w (length-take w b (omega arith)),
        pad_fields-read_fields ws (drop w b) (omega (arith, length-drop {0} w b)),
      )
      (take-append-drop w b)
