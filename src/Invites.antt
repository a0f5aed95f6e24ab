-- ===== src/Invites.antt =====
-- Invitations and the bonus for a referral: src/modules/invites/invites.service.ts, over
-- src/modules/invites/invites.repository.ts. `new_id` and `token` are what the database and
-- `crypto.randomBytes` give a new row, and `now` is the request's time.
mod Rows
pub mod Issuing
pub mod Referral
pub mod Levels
pub use Rows.*
use Prim.Native.String.{String}
use sidequest_demo_be.Common.{
  ℕ, ◌+◌, ◌-◌, ◌*◌, ◌%◌, Bool, true, false, not, ◌&&◌, ◌||◌, Option, none, some, [], leb, ltb, ◌==◌,
  if◌then◌else◌,
}
use sidequest_demo_be.Common.Text.{Text, trim, text_eq}
use sidequest_demo_be.Gamification.{level_from_xp}
use sidequest_demo_be.Links.{TextMethods, build_invite_token_register_link}
use sidequest_demo_be.Effects.{
  foreign_key_violation, Action, ok, err, http, bad_request, conflict, forbidden, not_found,
  unique_violation, pure, gets, throw, or_throw, throw_if, modify, when, ◌>>=◌, ◌>>◌,
}
use sidequest_demo_be.Events.{friend_request_accepted, level_up}
use sidequest_demo_be.Model.{
  User, UserStatus, active, Friendship, FriendshipStatus, Invite, InviteStatus, pending, cancelled,
}
use sidequest_demo_be.World.{Database, World, emit, find_user, update_user}
use sidequest_demo_be.Friendships.{find_between, save_friendship}

module _ {F : Type 0} (db : Database F) (methods : TextMethods) where
  unfoldable pub normalize_email : Text → Text
  normalize_email email = methods.to_lower_case (trim email)

  abbrev pub find_by_email : Text → Action (World db) (Option (ℕ × User))
  find_by_email email = gets (λ w. db.user.find_first (has_email email) w.users)

  abbrev pub find_by_token : Text → Action (World db) (Option (ℕ × Invite))
  find_by_token token = gets (λ w. db.invite.find_first (has_token token) w.invites)

  abbrev pub save_invite : ℕ → Invite → World db → World db
  save_invite id invite w = record w { invites = db.invite.save id invite w.invites }

  -- `InvitesRepository.create`, under `token @unique`
  abbrev pub store_invite : ℕ → Invite → Action (World db) (Unit {0})
  store_invite new_id invite = do
    repeated ← find_by_token invite.token
    elim repeated [ some _ ↦ throw unique_violation | none ↦ modify (save_invite new_id invite) ]

  unfoldable pub create_invite : Text → ℕ → Text → ℕ → Text → ℕ → Action (World db) InviteCreatedDto
  create_invite frontend new_id token inviter_id raw_email now = do
    throw_if (text_eq (normalize_email raw_email) []) (bad_request "Email is required")
    row ← find_user db inviter_id
    inviter ← or_throw row (http 403 (some "FORBIDDEN") "Inviter not found")
    throw_if (text_eq (normalize_email inviter.email) (normalize_email raw_email))
        (bad_request "You cannot invite your own email")
    existing ← find_by_email (normalize_email raw_email)
    throw_if (active_account existing)
        (http 409 (some "USER_EXISTS") "An active account already uses this email")
    sent_today ←
        gets (λ w. db.invite.total (sent_since inviter_id (start_of_utc_day now)) w.invites)
    throw_if (leb max_invites_per_utc_day sent_today)
        (http 429 (some "RATE_LIMITED") "Daily invite limit reached")
    modify (λ w. record w {
      invites =
          db.invite.update_many (is_open inviter_id (normalize_email raw_email)) cancel_invite
            w.invites;
    })
    store_invite new_id (new_invite token inviter_id (normalize_email raw_email) now)
    pure (record {
      id = new_id;
      email = normalize_email raw_email;
      invite_link = build_invite_token_register_link methods frontend token;
    })

  unfoldable pub cancel : ℕ → ℕ → Action (World db) (Unit {0})
  cancel inviter_id invite_id = do
    row ← gets (λ w. db.invite.find invite_id w.invites)
    invite ← or_throw row (not_found "Invite not found")
    throw_if (not (invite.inviter_id == inviter_id))
        (http 403 (some "FORBIDDEN") "Not allowed to cancel this invite")
    throw_if (not (is_pending invite.status)) (bad_request "Only pending invites can be cancelled")
    modify (save_invite invite_id (cancel_invite invite))

  abbrev pub not_valid : Bool → InviteTokenPreviewDto
  not_valid expired = record {
    valid = false;
    expired = expired;
    inviter_username = none;
    invited_email = none;
  }

  abbrev pub username_of : Option User → Option Text
  username_of none = none
  username_of (some u) = some u.username

  unfoldable pub preview_token : Text → ℕ → Action (World db) InviteTokenPreviewDto
  preview_token token now = do
    row ← find_by_token token
    elim row [
      | none ↦ pure (not_valid false)
      | some (id, invite) ↦
          if not (is_pending invite.status)
          then pure (not_valid false)
          else if is_expired now invite
          then pure (not_valid true)
          else (do
            inviter ← find_user db invite.inviter_id
            pure (record {
              valid = true;
              expired = false;
              inviter_username = username_of inviter;
              invited_email = some invite.email;
            }))
    ]

  -- The row that joins the two, or a new one that is accepted at once. The unique pair of the rows
  -- cannot repeat here, and the inviter and the invitee are rows that the invite and the
  -- registration point at.
  abbrev pub befriend : ℕ → ℕ → ℕ → ℕ → Action (World db) ℕ
  befriend new_id inviter_id invitee_id now = do
    existing ← find_between db inviter_id invitee_id
    elim existing [
      | some (id, _) ↦ pure id
      | none ↦ (do
        inviter ← find_user db inviter_id
        or_throw inviter foreign_key_violation
        invitee ← find_user db invitee_id
        or_throw invitee foreign_key_violation
        modify (save_friendship db new_id (accepted_friendship inviter_id invitee_id now))
        pure new_id)
    ]

  -- The second half of `consumeReferralInviteTx`: both get the bonus.
  unfoldable pub reward_both : ℕ → ℕ → ℕ → Action (World db) ReferralTxOutcome
  reward_both friendship_id inviter_id invitee_id = do
    row ← find_user db inviter_id
    row' ← find_user db invitee_id
    inviter ← or_throw row (bad_request "User not found for referral bonus")
    invitee ← or_throw row' (bad_request "User not found for referral bonus")
    update_user db inviter_id (with_xp (inviter.xp + referral_xp))
    update_user db invitee_id (with_xp (invitee.xp + referral_xp))
    pure (record {
      friendship_id = friendship_id;
      inviter_id = inviter_id;
      invitee_id = invitee_id;
      inviter_prev_level = inviter.level;
      inviter_new_level = level_from_xp (inviter.xp + referral_xp);
      invitee_prev_level = invitee.level;
      invitee_new_level = level_from_xp (invitee.xp + referral_xp);
    })

  -- `updateMany` of the row where it is still pending under its token, which must change one row
  unfoldable pub claim : ℕ → Text → ℕ → ℕ → Action (World db) (Unit {0})
  claim id token invitee_id now = do
    row ← gets (λ w. db.invite.find id w.invites)
    invite ← or_throw row (conflict "Invite was already used")
    throw_if (not (is_pending invite.status && text_eq invite.token token))
        (conflict "Invite was already used")
    modify (save_invite id (accepted_invite invitee_id now invite))

  unfoldable pub consume_referral_invite_tx :
      ℕ → Text → ℕ → Text → ℕ → Action (World db) ReferralTxOutcome
  consume_referral_invite_tx new_id token invitee_id invitee_email now = do
    row ← find_by_token token
    found ← or_throw row (bad_request "Invalid invite token")
    throw_if (not (is_pending found.1.status)) (bad_request "Invite is no longer valid")
    throw_if (is_expired now found.1) (bad_request "Invite has expired")
    throw_if (not (text_eq (normalize_email found.1.email) (normalize_email invitee_email)))
        (bad_request "Registration email must match the invite")
    throw_if (found.1.inviter_id == invitee_id) (bad_request "Invalid invite")
    claim found.0 token invitee_id now
    friendship_id ← befriend new_id found.1.inviter_id invitee_id now
    reward_both friendship_id found.1.inviter_id invitee_id

  unfoldable pub emit_referral_completed : ReferralTxOutcome → Action (World db) (Unit {0})
  emit_referral_completed out = do
    emit db (friend_request_accepted out.inviter_id out.invitee_id out.friendship_id)
    when (ltb out.inviter_prev_level out.inviter_new_level)
        (emit db (level_up out.inviter_id out.inviter_prev_level out.inviter_new_level))
    when (ltb out.invitee_prev_level out.invitee_new_level)
        (emit db (level_up out.invitee_id out.invitee_prev_level out.invitee_new_level))
