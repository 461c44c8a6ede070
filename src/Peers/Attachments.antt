-- ===== src/Peers/Attachments.antt =====
-- internal/peers/attachments.go: which talkgroups a peer receives. A static attachment that nobody
-- has used has no time of last use, which is before every other.
pub mod Held
use qsp.Prelude.{
  ℕ, ◌+◌, ◌-◌, ◌*◌, Bool, true, false, not, ◌&&◌, ◌||◌, Option, none, some, List, [], ◌∷◌, ltb, leb,
  ◌==◌, if◌then◌else◌,
}
use qsp.Prelude.Int.{ℤ}
use qsp.Prelude.Map.{lookup, put}
use qsp.Prelude.Sort.{sort}
use qsp.Peers.Attempts.{or_default, minute}

abbrev default_attachment_timeout : ℕ
default_attachment_timeout = 15 * minute

pub record Attachment : Type 0 where
  pub peer : ℕ
  pub talkgroup : ℕ
  pub timeslot : ℕ
  pub static : Bool
  pub last_used : Option ℕ

pub record AttachmentKey : Type 0 where
  pub peer : ℕ
  pub talkgroup : ℕ
  pub slot : ℕ

abbrev pub key_eq : AttachmentKey → AttachmentKey → Bool
key_eq a b = a.peer == b.peer && a.talkgroup == b.talkgroup && a.slot == b.slot

abbrev pub Attachments : Type 0
Attachments = List (AttachmentKey × Attachment)

-- SubscriptionConfig; what its list makes static is the first three fields of an attachment.
pub record Subscription : Type 0 where
  pub enabled : Bool
  pub timeout : ℕ
  pub static : List Attachment

-- The method attach.
unfoldable pub attach : Attachments → Bool → ℕ → ℕ → ℕ → ℕ → Attachments
attach m enabled peer talkgroup slot now =
    let key : AttachmentKey = record { peer = peer; talkgroup = talkgroup; slot = slot } in
    if not enabled then m else elim (lookup key_eq m key) [
      | some a ↦ put key_eq m key (record a { last_used = some now })
      | none ↦ put key_eq m key (record {
        peer = peer;
        talkgroup = talkgroup;
        timeslot = slot;
        static = false;
        last_used = some now;
      })
    ]

-- `now.Sub(a.LastUsed) > timeout`.
unfoldable pub lapsed_use : Option ℕ → ℕ → ℕ → Bool
lapsed_use none timeout now = true
lapsed_use (some used) timeout now = ltb timeout (now - used)

-- The method Attached.
unfoldable pub attached : Attachments → Subscription → ℕ → ℕ → ℕ → ℕ → Bool
unfolding lapsed_use
attached m sub peer talkgroup slot now =
    if not sub.enabled
    then true
    else elim (lookup key_eq m (record { peer = peer; talkgroup = talkgroup; slot = slot })) [
      | none ↦ false
      | some a ↦ if a.static then true else not (lapsed_use a.last_used sub.timeout now)
    ]

-- The method DropAttachments: what is left, and how many went.
unfoldable drop_attachments : Attachments → ℕ → Attachments × ℕ
drop_attachments [] peer = ([], 0)
drop_attachments ((k, a) ∷ m) peer =
    let rest = drop_attachments m peer in
    if k.peer == peer && not a.static then (rest.0, rest.1 + 1) else ((k, a) ∷ rest.0, rest.1)

abbrev pub lapses : Attachment → ℕ → ℕ → Bool
lapses a timeout now = not a.static && lapsed_use a.last_used timeout now

unfoldable pub left_attachments : Attachments → ℕ → ℕ → Attachments
left_attachments [] timeout now = []
left_attachments ((k, a) ∷ m) timeout now =
    let rest = left_attachments m timeout now in
    if lapses a timeout now then rest else (k, a) ∷ rest

unfoldable lapsed_attachments : Attachments → ℕ → ℕ → List Attachment
lapsed_attachments [] timeout now = []
lapsed_attachments ((k, a) ∷ m) timeout now =
    let rest = lapsed_attachments m timeout now in if lapses a timeout now then a ∷ rest else rest

abbrev earlier : Attachment → Attachment → Bool
earlier a b = ltb a.peer b.peer || (a.peer == b.peer && ltb a.talkgroup b.talkgroup)

-- The method expireAttachments: what is left, and what lapsed, by peer and talkgroup.
unfoldable pub expire_attachments : Attachments → ℕ → ℕ → Attachments × List Attachment
unfolding lapsed_attachments
expire_attachments m timeout now =
    (left_attachments m timeout now, sort earlier (lapsed_attachments m timeout now))

-- The method seedStaticAttachments.
unfoldable pub seed_static : List Attachment → Attachments → Attachments
seed_static [] m = m
seed_static (a ∷ more) m = seed_static more (
    put key_eq m (record { peer = a.peer; talkgroup = a.talkgroup; slot = a.timeslot })
      (record {
        peer = a.peer;
        talkgroup = a.talkgroup;
        timeslot = a.timeslot;
        static = true;
        last_used = none;
      }))

-- The loop of SetSubscription: what was configured stops being static.
unfoldable make_dynamic : Attachments → Attachments
make_dynamic [] = []
make_dynamic ((k, a) ∷ m) = (k, record a { static = false }) ∷ make_dynamic m

-- The method SetSubscription, with the timeout as it was given: the settings and the attachments.
unfoldable set_subscription : Attachments → Bool → ℤ → List Attachment → Subscription × Attachments
unfolding or_default seed_static make_dynamic
set_subscription m enabled timeout static = (
  record {
    enabled = enabled;
    timeout = or_default timeout default_attachment_timeout;
    static = static;
  },
  seed_static static (make_dynamic m),
)
