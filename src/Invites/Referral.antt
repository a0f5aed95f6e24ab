-- ===== src/Invites/Referral.antt =====
-- What an accepted invitation pays, and that it pays once: `previewToken` and
-- `consumeReferralInviteTx` of src/modules/invites/invites.service.ts.
use sidequest_demo_be.Common.{
  ℕ, ◌+◌, ◌≡◌, ◌≢◌, ◌↔◌, refl, sym, ◌∙◌, true, false, none, some, arith, Option-cases, Bool-cases,
  inl, inr,
}
use sidequest_demo_be.Common.Text.{Text, text_eq, text_eq→≡}
use sidequest_demo_be.Gamification.{level_from_xp}
use sidequest_demo_be.Links.{TextMethods}
use sidequest_demo_be.Effects.{Exception, ok, err, bad_request}
use sidequest_demo_be.Store.{find-save_self, find-save_ne}
use sidequest_demo_be.Model.{User, Invite}
use sidequest_demo_be.World.{Database, World}
use sidequest_demo_be.Friendships.{is_between}
use sidequest_demo_be.Invites.{
  referral_xp, is_pending, is_expired, has_token, accepted_invite, accepted_friendship, with_xp,
  InviteTokenPreviewDto, ReferralTxOutcome, normalize_email, save_invite, claim, befriend,
  reward_both, consume_referral_invite_tx, preview_token,
}

-- `token @unique`: no two invitations have the same token.
abbrev pub TokensUnique : {F : Type 0} (db : Database F) → db.invite.State → Type 0
TokensUnique db invites =
    (i j : ℕ) (a b : Invite)
    → db.invite.find i invites ≡ some a
    → db.invite.find j invites ≡ some b
    → a.token ≡ b.token
    → i ≡ j

module _ {F : Type 0} (db : Database F) (methods : TextMethods) where
  -- The users after the bonus.
  abbrev pub both_rewarded : ℕ → User → ℕ → User → db.user.State → db.user.State
  both_rewarded inviter_id inviter invitee_id invitee users =
      db.user.save invitee_id (with_xp (invitee.xp + referral_xp) invitee)
        (db.user.save inviter_id (with_xp (inviter.xp + referral_xp) inviter) users)

  abbrev pub outcome : ℕ → ℕ → User → ℕ → User → ReferralTxOutcome
  outcome friendship_id inviter_id inviter invitee_id invitee = record {
    friendship_id = friendship_id;
    inviter_id = inviter_id;
    invitee_id = invitee_id;
    inviter_prev_level = inviter.level;
    inviter_new_level = level_from_xp (inviter.xp + referral_xp);
    invitee_prev_level = invitee.level;
    invitee_new_level = level_from_xp (invitee.xp + referral_xp);
  }

  reward_both_eq :
      (friendship_id a b : ℕ) {u v : User} (w : World db)
      → a ≢ b
      → db.user.find a w.users ≡ some u
      → db.user.find b w.users ≡ some v
      → reward_both db methods friendship_id a b w
        ≡ (ok (outcome friendship_id a u b v), record w { users = both_rewarded a u b v w.users })
  unfolding reward_both
  reward_both_eq friendship_id a b {u} {v} w apart fu fv =
      ground (arith, find-save_ne db.user b a (with_xp (u.xp + referral_xp) u) w.users, apart)

  -- The friendship rows after `befriend`, and the identifier that it gives.
  abbrev pub befriended : ℕ → ℕ → ℕ → ℕ → db.friendship.State → ℕ × db.friendship.State
  befriended new_id a b now rows = elim (db.friendship.find_first (is_between a b) rows) [
    | none ↦ (new_id, db.friendship.save new_id (accepted_friendship a b now) rows)
    | some (id, _) ↦ (id, rows)
  ]

  befriend_eq :
      (new_id a b now : ℕ) {u v : User} (w : World db)
      → db.user.find a w.users ≡ some u
      → db.user.find b w.users ≡ some v
      → befriend db methods new_id a b now w ≡ (
        ok (befriended new_id a b now w.friendships).0,
        record w { friendships = (befriended new_id a b now w.friendships).1 },
      )
  befriend_eq new_id a b now w fu fv =
      elim (Option-cases (db.friendship.find_first (is_between a b) w.friendships)) [
        | inl free ↦ ground arith
        | inr ((id, f), there) ↦ ground arith
      ]

  module _ (new_id : ℕ) (token : Text) (invitee_id : ℕ) (email : Text) (now : ℕ)
      (w : World db) where
    module _ {id : ℕ} {invite : Invite} {inviter invitee : User}
        (found : db.invite.find_first (has_token token) w.invites ≡ some (id, invite))
        (open_row : is_pending invite.status ≡ true) (in_time : is_expired now invite ≡ false)
        (own_email : text_eq
            (normalize_email db methods invite.email)
            (normalize_email db methods email)
          ≡ true)
        (apart : invite.inviter_id ≢ invitee_id)
        (inviter_found : db.user.find invite.inviter_id w.users ≡ some inviter)
        (invitee_found : db.user.find invitee_id w.users ≡ some invitee) where
      after_claim : World db
      after_claim = save_invite db methods id (accepted_invite invitee_id now invite) w

      claim_eq : claim db methods id token invitee_id now w ≡ (ok tt, after_claim)
      unfolding claim after_claim
      claim_eq =
          let (named, row) =
            db.invite.find_first_sound (has_token token) w.invites id invite found in
          ground arith

      consume_eq :
          let (friendship_id, friendships) =
            befriended new_id invite.inviter_id invitee_id now w.friendships in
          consume_referral_invite_tx db methods new_id token invitee_id email now w ≡ (
            ok (outcome friendship_id invite.inviter_id inviter invitee_id invitee),
            record after_claim {
              friendships = friendships;
              users = both_rewarded invite.inviter_id inviter invitee_id invitee w.users;
            },
          )
      unfolding consume_referral_invite_tx after_claim
      consume_eq = ground (
        arith,
        claim_eq,
        befriend_eq new_id invite.inviter_id invitee_id now after_claim inviter_found invitee_found,
        reward_both_eq (befriended new_id invite.inviter_id invitee_id now w.friendships).0
            invite.inviter_id invitee_id
            (record after_claim {
              friendships = (befriended new_id invite.inviter_id invitee_id now w.friendships).1;
            })
            apart inviter_found invitee_found,
      )

      -- An invitation that is pending, in time, sent to the registered email and by someone else is
      -- accepted: its row names the invitee and the time, both users get 50 XP with the level that
      -- their XP say, every other user stays, and the two share a friendship row.
      pub consume_pays :
          let (r, w') = consume_referral_invite_tx db methods new_id token invitee_id email now w in
          ((out : ReferralTxOutcome) × (r ≡ ok out)
            × (out.inviter_id ≡ invite.inviter_id)
            × (out.invitee_id ≡ invitee_id))
          × (db.invite.find id w'.invites ≡ some (accepted_invite invitee_id now invite))
          × (db.user.find invite.inviter_id w'.users
              ≡ some (record inviter {
                xp = inviter.xp + 50;
                level = level_from_xp (inviter.xp + 50);
              }))
          × (db.user.find invitee_id w'.users
              ≡ some (record invitee {
                xp = invitee.xp + 50;
                level = level_from_xp (invitee.xp + 50);
              }))
          × ((other : ℕ)
              → other ≢ invite.inviter_id
              → other ≢ invitee_id
              → db.user.find other w'.users ≡ db.user.find other w.users)
          × (db.friendship.find_first (is_between invite.inviter_id invitee_id) w'.friendships
              ≢ none)
      unfolding after_claim
      consume_pays = rw consume_eq (
        (_, refl, refl, refl),
        find-save_self db.invite id _ w.invites,
        find-save_ne db.user invite.inviter_id invitee_id _ _ apart
            ∙ find-save_self db.user invite.inviter_id _ w.users,
        find-save_self db.user invitee_id _ _,
        λ other h k.
            find-save_ne db.user other invitee_id _ _ k
            ∙ find-save_ne db.user other invite.inviter_id _ w.users h,
        joined,
      )
        where
          is_pair :
              is_between invite.inviter_id invitee_id new_id
                (accepted_friendship invite.inviter_id invitee_id now)
              ≡ true
          is_pair = ground arith

          joined :
              db.friendship.find_first
                (is_between invite.inviter_id invitee_id)
                (befriended new_id invite.inviter_id invitee_id now w.friendships).1
              ≢ none
          joined none_found =
              elim (Option-cases (
                db.friendship.find_first (is_between invite.inviter_id invitee_id) w.friendships)) [
                  | inl free ↦ cc (
                    db.friendship.find_first_complete (is_between invite.inviter_id invitee_id)
                        (db.friendship.save new_id
                          (accepted_friendship invite.inviter_id invitee_id now) w.friendships)
                        new_id (accepted_friendship invite.inviter_id invitee_id now) (ground arith)
                        (find-save_self db.friendship new_id _ w.friendships),
                    is_pair,
                  )
                  | inr ((k, f), there) ↦ ground arith
                ]

      -- The token of an accepted invitation is spent: with unique tokens, whoever uses it later is
      -- refused, and nothing is written.
      pub consume_again :
          (new_id' invitee_id' later : ℕ) (email' : Text)
          → TokensUnique db w.invites
          → let w' =
              (consume_referral_invite_tx db methods new_id token invitee_id email now w).1 in
            consume_referral_invite_tx db methods new_id' token invitee_id' email' later w'
            ≡ (err (bad_request "Invite is no longer valid"), w')
      unfolding after_claim
      consume_again new_id' invitee_id' later email' unique = rw consume_eq (spent_eq _ refl)
        where
          row : (text_eq invite.token token ≡ true) × (db.invite.find id w.invites ≡ some invite)
          row = db.invite.find_first_sound (has_token token) w.invites id invite found

          spent : db.invite.State
          spent = db.invite.save id (accepted_invite invitee_id now invite) w.invites

          spent_eq :
              (v : World db)
              → v.invites ≡ spent
              → consume_referral_invite_tx db methods new_id' token invitee_id' email' later v
                ≡ (err (bad_request "Invite is no longer valid"), v)
          spent_eq v e = elim (Option-cases (db.invite.find_first (has_token token) spent)) [
            | inl none_found ↦ absurd (
                ground (
                  arith,
                  db.invite.find_first_complete (has_token token) spent id
                      (accepted_invite invitee_id now invite) none_found
                      (find-save_self db.invite id _ w.invites),
                  row,
                ))
            | inr ((k, i), there) ↦
                let (named, at) = db.invite.find_first_sound (has_token token) spent k i there in
                let same =
                  text_eq→≡ i.token token named ∙ sym (text_eq→≡ invite.token token row.0) in
                let closed : is_pending i.status ≡ false = ground (
                  arith,
                  db.invite.find-save k id (accepted_invite invitee_id now invite) w.invites,
                  unique k id i invite,
                  row,
                ) in
                unfold consume_referral_invite_tx in ground arith
          ]

  -- The invitation of a token, if there is one, went to the email and came from another user, and
  -- the two users are there.
  abbrev pub IsFor : Text → ℕ → Text → World db → Type 0
  IsFor token invitee_id email w =
      (id : ℕ) (invite : Invite)
      → db.invite.find_first (has_token token) w.invites ≡ some (id, invite)
      → (text_eq (normalize_email db methods invite.email) (normalize_email db methods email)
          ≡ true)
        × (invite.inviter_id ≢ invitee_id)
        × ((inviter : User) × (db.user.find invite.inviter_id w.users ≡ some inviter))
        × ((invitee : User) × (db.user.find invitee_id w.users ≡ some invitee))

  -- For the user that an invitation is for, the transaction of the referral accepts a token exactly
  -- when the preview at the same time calls it valid; where the preview does not, the transaction is
  -- refused with nothing written, whoever the user is.
  pub preview_token-consume :
      (new_id : ℕ) (token : Text) (invitee_id : ℕ) (email : Text) (now : ℕ) (w : World db)
      (preview : InviteTokenPreviewDto)
      → (preview_token db methods token now w).0 ≡ ok preview
      → let (r, w') = consume_referral_invite_tx db methods new_id token invitee_id email now w in
        (IsFor token invitee_id email w
          → (preview.valid ≡ true) ↔ ((out : ReferralTxOutcome) × (r ≡ ok out)))
        × (preview.valid ≡ false → (e : Exception) × (r ≡ err e) × (w' ≡ w))
  unfolding preview_token
  preview_token-consume new_id token invitee_id email now w preview answered =
      elim (Option-cases (db.invite.find_first (has_token token) w.invites)) [
        | inl missing ↦
            unfold consume_referral_invite_tx in
            (
              λ addressed. (λ valid. absurd (ground arith), λ (out, done). absurd (ground arith)),
              λ invalid. (bad_request "Invalid invite token", ground arith, ground arith),
            )
        | inr ((id, invite), found) ↦ elim (Bool-cases (is_pending invite.status)) [
          | inr closed ↦
              unfold consume_referral_invite_tx in
              (
                λ addressed. (λ valid. absurd (ground arith), λ (out, done). absurd (ground arith)),
                λ invalid. (bad_request "Invite is no longer valid", ground arith, ground arith),
              )
          | inl open_row ↦ elim (Bool-cases (is_expired now invite)) [
            | inl late ↦
                unfold consume_referral_invite_tx in
                (
                  λ addressed.
                      (λ valid. absurd (ground arith), λ (out, done). absurd (ground arith)),
                  λ invalid. (bad_request "Invite has expired", ground arith, ground arith),
                )
            | inr in_time ↦ (
              λ addressed.
                  let (own, apart, (inviter, there), (invitee, here)) = addressed id invite found in
                  let accepted =
                    (consume_pays new_id token invitee_id email now w found open_row in_time own
                      apart there here).0 in
                  (λ valid. (accepted.0, accepted.1), λ done. ground arith),
              λ invalid. absurd (ground arith),
            )
          ]
        ]
      ]
