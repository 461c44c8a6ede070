-- ===== src/Hbp/Control/Laws.antt =====
-- Facts on the parts of a control message that the round trips share.
use qsp.Prelude.{
  ℕ, zero, suc, ◌^◌, ◌≤◌, ◌<◌, ◌≡◌, refl, ap, true, List, [], ◌∷◌, ◌++◌, arith, All, All-drop,
  length-drop, length, take, drop, ==_iff,
}
use qsp.Prelude.Bytes.{Bytes, IsByte, put_u32, u32-put_u32, put_u32-u32}
use qsp.Prelude.Text.{Text}
use qsp.Hbp.Message.{has_tag}
use qsp.Hbp.Data.{Result, ok, err}
use qsp.Hbp.Control.{◌>>=◌, exact_len, get_id}

pub get_id-put_u32 : (id : ℕ) (rest : Bytes) → id < 2 ^ 32 → get_id (put_u32 id rest) ≡ id
unfolding get_id
get_id-put_u32 id rest h = u32-put_u32 id h

pub put_u32-get_id : (b : Bytes) → All IsByte b → 4 ≤ length b → put_u32 (get_id b) (drop 4 b) ≡ b
unfolding get_id
put_u32-get_id (a ∷ b ∷ c ∷ d ∷ rest) x h = put_u32-u32 a b c x.0 x.1.0 x.1.1.0 d rest x.1.1.1.0
put_u32-get_id [] x h = absurd (omega arith)
put_u32-get_id (a ∷ []) x h = absurd (omega arith)
put_u32-get_id (a ∷ b ∷ []) x h = absurd (omega arith)
put_u32-get_id (a ∷ b ∷ c ∷ []) x h = absurd (omega arith)

pub has_tag-append : (b : Bytes) (t : Text) → has_tag b t ≡ true → t ++ drop (length t) b ≡ b
unfolding has_tag
has_tag-append b [] h = refl
has_tag-append [] (y ∷ t) h = cc
has_tag-append (x ∷ b) (y ∷ t) h = ground (arith, ==_iff x y, has_tag-append b t)

pub take-eq {ℓ} : {A : Type ℓ} (n : ℕ) (xs : List A) → length xs ≤ n → take n xs ≡ xs
take-eq zero [] h = refl
take-eq zero (x ∷ xs) h = absurd (omega arith)
take-eq (suc n) [] h = refl
take-eq (suc n) (x ∷ xs) h = ap (◌∷◌ x) (take-eq n xs (omega arith))

drop_4-drop_4 : (b : Bytes) → drop 4 (drop 4 b) ≡ drop 8 b
drop_4-drop_4 (x ∷ y ∷ z ∷ t ∷ b) = refl
drop_4-drop_4 (x ∷ y ∷ z ∷ []) = refl
drop_4-drop_4 (x ∷ y ∷ []) = refl
drop_4-drop_4 (x ∷ []) = refl
drop_4-drop_4 [] = refl

-- Behind a tag of four bytes stand the ID and the rest.
pub tagged-eq :
    (b : Bytes) (t : Text)
    → length t ≡ 4
    → has_tag b t ≡ true
    → All IsByte b
    → 8 ≤ length b
    → t ++ put_u32 (get_id (drop 4 b)) (drop 8 b) ≡ b
tagged-eq b t four h x long =
    rw
      (
        ← drop_4-drop_4 b,
        put_u32-get_id (drop 4 b) (All-drop IsByte 4 b x) (omega (arith, length-drop {0} 4 b)),
      )
      (rw (← four) (has_tag-append b t h))

pub exact_len-ok : (b c : Bytes) (n : ℕ) → exact_len b n ≡ ok c → (length b ≡ n) × (b ≡ c)
unfolding exact_len
exact_len-ok b c n h = ground arith

pub exact_len_eq : (b : Bytes) (n : ℕ) → length b ≡ n → exact_len b n ≡ ok b
unfolding exact_len
exact_len_eq b n h = ground arith

pub >>=-ok :
    {S T : Type 0} {y : T} (first : Result S) (rest : S → Result T)
    → (first >>= rest) ≡ ok y
    → (x : S) × (first ≡ ok x) × (rest x ≡ ok y)
>>=-ok (err why) rest succeeds = cc
>>=-ok (ok x) rest succeeds = (x, refl, succeeds)
