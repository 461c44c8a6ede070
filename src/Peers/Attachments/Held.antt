-- ===== src/Peers/Attachments/Held.antt =====
-- What a peer receives, after a use of a talkgroup and after a sweep.
use qsp.Prelude.{
  ℕ, ◌-◌, ◌≤◌, ◌≡◌, ◌≢◌, ◌↔◌, refl, sym, ap, ◌∙◌, Bool, true, false, not, Option, none, some, [],
  ◌∷◌, arith, Bool-cases, Option-cases, inl, inr, if◌then◌else◌, ==_iff,
}
use qsp.Prelude.Map.{lookup, put, lookup-put}
use qsp.Prelude.Map.Keys.{IsKeyed}
use qsp.Peers.Attachments.{
  Attachment, AttachmentKey, Attachments, Subscription, attach, attached, key_eq, lapsed_use,
  lapses, left_attachments, expire_attachments,
}

key_eq_iff : (a b : AttachmentKey) → (key_eq a b ≡ true) ↔ (a ≡ b)
key_eq_iff a b =
    ground (arith, ==_iff a.peer b.peer, ==_iff a.talkgroup b.talkgroup, ==_iff a.slot b.slot)

-- The answer that an entry gives.
abbrev answer_of : Option Attachment → ℕ → ℕ → Bool
answer_of none timeout now = false
answer_of (some a) timeout now = if a.static then true else not (lapsed_use a.last_used timeout now)

attached_lem :
    (m : Attachments) (sub : Subscription) (peer talkgroup slot now : ℕ)
    → sub.enabled ≡ true
    → attached m sub peer talkgroup slot now
      ≡ answer_of
          (lookup key_eq m (record { peer = peer; talkgroup = talkgroup; slot = slot }))
          sub.timeout
          now
unfolding attached
attached_lem m sub peer talkgroup slot now e = ground arith

lookup-left_attachments :
    (m : Attachments) (timeout now : ℕ) (k : AttachmentKey)
    → lookup key_eq m k ≡ none
    → lookup key_eq (left_attachments m timeout now) k ≡ none
unfolding lookup left_attachments
lookup-left_attachments [] timeout now k h = refl
lookup-left_attachments ((j, a) ∷ m) timeout now k h =
    ground (arith, lookup-left_attachments m timeout now k)

lapsed_use_mono :
    (used : Option ℕ) (timeout now n : ℕ)
    → now ≤ n
    → lapsed_use used timeout now ≡ true
    → lapsed_use used timeout n ≡ true
unfolding lapsed_use
lapsed_use_mono none timeout now n le h = refl
lapsed_use_mono (some used) timeout now n le h = ground arith

answer-left_attachments :
    (m : Attachments) (timeout now n : ℕ) (k : AttachmentKey)
    → IsKeyed key_eq m
    → now ≤ n
    → answer_of (lookup key_eq (left_attachments m timeout now) k) timeout n
      ≡ answer_of (lookup key_eq m k) timeout n
unfolding lookup left_attachments
answer-left_attachments [] timeout now n k h le = refl
answer-left_attachments ((j, a) ∷ m) timeout now n k h le = elim (Bool-cases (key_eq j k)) [
  | inl y ↦
      let gone : lookup key_eq (left_attachments m timeout now) k ≡ none =
        ap (lookup key_eq (left_attachments m timeout now)) (sym ((key_eq_iff j k).0 y))
        ∙ lookup-left_attachments m timeout now j h.0 in
      elim (Bool-cases (lapses a timeout now)) [
        | inl l ↦ rw (l, gone, y) (ground (arith, lapsed_use_mono a.last_used timeout now n le))
        | inr l ↦ rw (l, y, lookup) refl
      ]
  | inr o ↦ elim (Bool-cases (lapses a timeout now)) [
    | inl l ↦ rw (l, o) (answer-left_attachments m timeout now n k h.1 le)
    | inr l ↦ rw (l, o, lookup) (answer-left_attachments m timeout now n k h.1 le)
  ]
]

record IsUsed (t : ℕ) (o : Option Attachment) : Type 0 where
  entry : Attachment
  is_entry : o ≡ some entry
  used_at : entry.last_used ≡ some t

module _ (m : Attachments) (peer talkgroup slot t : ℕ) where
  abbrev key : AttachmentKey
  key = record { peer = peer; talkgroup = talkgroup; slot = slot }

  put-IsUsed :
      (a : Attachment) → a.last_used ≡ some t → IsUsed t (lookup key_eq (put key_eq m key a) key)
  put-IsUsed a u = record {
    entry = a;
    is_entry = lookup-put key_eq key_eq_iff m key key a ∙ rw ((key_eq_iff key key).1 refl) refl;
    used_at = u;
  }

  attach-IsUsed :
      (enabled : Bool)
      → enabled ≡ true
      → IsUsed t (lookup key_eq (attach m enabled peer talkgroup slot t) key)
  unfolding attach
  attach-IsUsed enabled on = elim (Option-cases (lookup key_eq m key)) [
    | inl e ↦ rw (on, e, attach) (put-IsUsed _ refl)
    | inr (a, e) ↦ rw (on, e, attach) (put-IsUsed _ refl)
  ]

  lookup-attach :
      (enabled : Bool) (other : AttachmentKey)
      → enabled ≡ true
      → key ≢ other
      → lookup key_eq (attach m enabled peer talkgroup slot t) other ≡ lookup key_eq m other
  unfolding attach
  lookup-attach enabled other on ne =
      let away : key_eq key other ≡ false = elim (Bool-cases (key_eq key other)) [
        | inl y ↦ absurd (ne ((key_eq_iff key other).0 y))
        | inr n ↦ n
      ] in
      let put_away : (a : Attachment)
          → lookup key_eq (put key_eq m key a) other ≡ lookup key_eq m other =
        λ a. lookup-put key_eq key_eq_iff m key other a ∙ rw away refl in
      elim (Option-cases (lookup key_eq m key)) [
        | inl e ↦ rw (on, e, attach) (put_away _)
        | inr (a, e) ↦ rw (on, e, attach) (put_away _)
      ]

false-ne-true : ¬ (false ≡ true)
false-ne-true h = cc

-- A talkgroup that a peer has just used is delivered to it until the timeout has passed, and the use
-- changes what is delivered nowhere else.
pub attached-attach :
    (m : Attachments) (sub : Subscription) (key other : AttachmentKey) (t now : ℕ)
    → sub.enabled ≡ true
    → now - t ≤ sub.timeout
    → attached
        (attach m sub.enabled key.peer key.talkgroup key.slot t)
        sub
        other.peer
        other.talkgroup
        other.slot
        now
      ≡ (if key_eq key other
          then true
          else attached m sub other.peer other.talkgroup other.slot now)
attached-attach m sub key other t now on fresh =
    let u = attach-IsUsed m key.peer key.talkgroup key.slot t sub.enabled on in
    elim (Bool-cases (key_eq key other)) [
      | inl y ↦ rw y (
          attached_lem _ sub other.peer other.talkgroup other.slot now on
          ∙ rw (← ((key_eq_iff key other).0 y), u.is_entry)
              (unfold lapsed_use in ground (arith, u.used_at)))
      | inr n ↦ rw n (
          attached_lem _ sub other.peer other.talkgroup other.slot now on
          ∙ ap (λ (o : Option Attachment). answer_of o sub.timeout now)
              (lookup-attach m key.peer key.talkgroup key.slot t sub.enabled other on
                (λ same. false-ne-true (sym n ∙ (key_eq_iff key other).1 same)))
          ∙ sym (attached_lem m sub other.peer other.talkgroup other.slot now on))
    ]

-- A sweep changes nothing of what is delivered from then on.
pub attached-expire_attachments :
    (m : Attachments) (sub : Subscription) (other : AttachmentKey) (t now : ℕ)
    → sub.enabled ≡ true
    → IsKeyed key_eq m
    → t ≤ now
    → attached (expire_attachments m sub.timeout t).0 sub other.peer other.talkgroup other.slot now
      ≡ attached m sub other.peer other.talkgroup other.slot now
unfolding expire_attachments
attached-expire_attachments m sub other t now on k le =
    attached_lem _ sub other.peer other.talkgroup other.slot now on
    ∙ answer-left_attachments m sub.timeout t now other k le
    ∙ sym (attached_lem m sub other.peer other.talkgroup other.slot now on)
