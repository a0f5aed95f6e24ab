-- ===== src/Invites/Rows.antt =====
-- The rows, answers and filters of src/modules/invites/invites.service.ts and
-- src/modules/invites/invites.repository.ts.
use sidequest_demo_be.Common.{
  ℕ, ◌-◌, ◌*◌, ◌%◌, Bool, true, false, ◌&&◌, Option, none, some, leb, ltb, ◌==◌, if◌then◌else◌,
}
use sidequest_demo_be.Common.Text.{Text, text_eq}
use sidequest_demo_be.Gamification.{level_from_xp}
use sidequest_demo_be.Model.{User, UserStatus, Friendship, FriendshipStatus, Invite, InviteStatus}

-- `REFERRAL_XP`
abbrev pub referral_xp : ℕ
referral_xp = 50

-- `INVITE_EXPIRY_MS`
abbrev pub invite_expiry_ms : ℕ
invite_expiry_ms = 30 * 86400000

-- `MAX_INVITES_PER_UTC_DAY`
abbrev pub max_invites_per_utc_day : ℕ
max_invites_per_utc_day = 20

-- The start of the UTC day, for times since 1970.
abbrev pub start_of_utc_day : ℕ → ℕ
start_of_utc_day d = d - d % 86400000

abbrev pub is_pending : InviteStatus → Bool
is_pending InviteStatus.pending = true
is_pending _ = false

abbrev pub is_active : UserStatus → Bool
is_active UserStatus.active = true
is_active _ = false

-- `existingUser && existingUser.status === ACTIVE`
abbrev pub active_account : Option (ℕ × User) → Bool
active_account none = false
active_account (some (id, u)) = is_active u.status

-- `now - sentAt > INVITE_EXPIRY_MS`; where `now` is before `sentAt` the difference is negative and
-- within the time, as the 0 of `-` is.
abbrev pub is_expired : ℕ → Invite → Bool
is_expired now invite = ltb invite_expiry_ms (now - invite.sent_at)

abbrev pub has_token : Text → ℕ → Invite → Bool
has_token token id invite = text_eq invite.token token

abbrev pub has_email : Text → ℕ → User → Bool
has_email email id u = text_eq u.email email

-- `{ inviterId, email, status: PENDING }`
abbrev pub is_open : ℕ → Text → ℕ → Invite → Bool
is_open inviter_id email id invite =
    invite.inviter_id == inviter_id && text_eq invite.email email && is_pending invite.status

abbrev pub cancel_invite : Invite → Invite
cancel_invite invite = record invite { status = InviteStatus.cancelled }

-- `{ inviterId, sentAt: { gte: since } }`
abbrev pub sent_since : ℕ → ℕ → ℕ → Invite → ℕ
sent_since inviter_id since id invite =
    if invite.inviter_id == inviter_id && leb since invite.sent_at then 1 else 0

abbrev pub new_invite : Text → ℕ → Text → ℕ → Invite
new_invite token inviter_id email now = record {
  token = token;
  inviter_id = inviter_id;
  email = email;
  status = InviteStatus.pending;
  sent_at = now;
  accepted_at = none;
  invitee_id = none;
}

pub record InviteCreatedDto : Type 0 where
  pub id : ℕ
  pub email : Text
  pub invite_link : Text

pub record InviteTokenPreviewDto : Type 0 where
  pub valid : Bool
  pub expired : Bool
  pub inviter_username : Option Text
  pub invited_email : Option Text

pub record ReferralTxOutcome : Type 0 where
  pub friendship_id : ℕ
  pub inviter_id : ℕ
  pub invitee_id : ℕ
  pub inviter_prev_level : ℕ
  pub inviter_new_level : ℕ
  pub invitee_prev_level : ℕ
  pub invitee_new_level : ℕ

abbrev pub accepted_invite : ℕ → ℕ → Invite → Invite
accepted_invite invitee_id now invite = record invite {
  status = InviteStatus.accepted;
  invitee_id = some invitee_id;
  accepted_at = some now;
}

abbrev pub accepted_friendship : ℕ → ℕ → ℕ → Friendship
accepted_friendship requester_id addressee_id now = record {
  requester_id = requester_id;
  addressee_id = addressee_id;
  status = FriendshipStatus.accepted;
  responded_at = some now;
  created_at = now;
}

-- `{ xp, level: levelFromXp(xp) }`, where `xp` was read before
abbrev pub with_xp : ℕ → User → User
with_xp xp u = record u { xp = xp; level = level_from_xp xp }
