-- ===== src/Invites/Issuing.antt =====
-- Sending invitations: `createInvite` of src/modules/invites/invites.service.ts.
use mathlib.Core.Path.{fun_ext}
use sidequest_demo_be.Common.{
  ℕ, ◌+◌, ◌≤◌, ◌≡◌, ◌∙◌, true, none, some, arith, ap, Bool-cases, inl, inr,
}
use sidequest_demo_be.Common.Text.{Text}
use sidequest_demo_be.Links.{TextMethods}
use sidequest_demo_be.Effects.{ok}
use sidequest_demo_be.Store.{find-save_self}
use sidequest_demo_be.Model.{Invite}
use sidequest_demo_be.World.{Database, World}
use sidequest_demo_be.Invites.{
  is_open, cancel_invite, sent_since, start_of_utc_day, new_invite, InviteCreatedDto,
  normalize_email, create_invite,
}

module _ {F : Type 0} (db : Database F) (methods : TextMethods) where
  -- The invitations after `createInvite`.
  abbrev pub issued : ℕ → Text → ℕ → Text → ℕ → db.invite.State → db.invite.State
  issued new_id token inviter_id email now invites =
      db.invite.save new_id (new_invite token inviter_id email now)
        (db.invite.update_many (is_open inviter_id email) cancel_invite invites)

  create_invite_rows :
      (frontend : Text) (new_id : ℕ) (token : Text) (inviter_id : ℕ) (raw_email : Text) (now : ℕ)
      (w : World db) {dto : InviteCreatedDto}
      → (create_invite db methods frontend new_id token inviter_id raw_email now w).0 ≡ ok dto
      → (db.invite.total (sent_since inviter_id (start_of_utc_day now)) w.invites + 1 ≤ 20)
        × ((create_invite db methods frontend new_id token inviter_id raw_email now w).1.invites
            ≡ issued new_id token inviter_id (normalize_email db methods raw_email) now w.invites)
  unfolding create_invite
  create_invite_rows frontend new_id token inviter_id raw_email now w done =
      (grind arith, grind arith)

  -- Cancelling does not change who sent an invitation or when.
  cancelled_count :
      (inviter_id since : ℕ) (email : Text) (invites : db.invite.State)
      → db.invite.total
          (sent_since inviter_id since)
          (db.invite.update_many (is_open inviter_id email) cancel_invite invites)
        ≡ db.invite.total (sent_since inviter_id since) invites
  cancelled_count inviter_id since email invites =
      db.invite.total-update_many (sent_since inviter_id since) (is_open inviter_id email)
        cancel_invite invites
      ∙ ap (λ (f : ℕ → Invite → ℕ). db.invite.total f invites)
          (fun_ext λ k. fun_ext λ i. elim (Bool-cases (is_open inviter_id email k i)) [
            | inl e ↦ ground arith
            | inr e ↦ ground arith
          ])

  -- An invitation that is sent, under an identifier that is not in use, is the only pending one of
  -- its sender to that email, and its sender has then sent at most 20 since the day began.
  pub create_invite_lem :
      (frontend : Text) (new_id : ℕ) (token : Text) (inviter_id : ℕ) (raw_email : Text) (now : ℕ)
      (w : World db) {dto : InviteCreatedDto}
      → db.invite.find new_id w.invites ≡ none
      → (create_invite db methods frontend new_id token inviter_id raw_email now w).0 ≡ ok dto
      → let email = normalize_email db methods raw_email in
        let after =
          (create_invite db methods frontend new_id token inviter_id raw_email now w).1.invites in
        (db.invite.find new_id after ≡ some (new_invite token inviter_id email now))
        × ((id : ℕ) (invite : Invite)
            → db.invite.find id after ≡ some invite
            → is_open inviter_id email id invite ≡ true
            → id ≡ new_id)
        × (db.invite.total (sent_since inviter_id (start_of_utc_day now)) after ≤ 20)
  create_invite_lem frontend new_id token inviter_id raw_email now w {dto} fresh done =
      let email = normalize_email db methods raw_email in
      let (few, e) = create_invite_rows frontend new_id token inviter_id raw_email now w done in
      let cancelled = db.invite.update_many (is_open inviter_id email) cancel_invite w.invites in
      rw e (
        find-save_self db.invite new_id _ cancelled,
        λ id invite found open_row. ground (
          arith,
          db.invite.find-save id new_id (new_invite token inviter_id email now) cancelled,
          db.invite.find-update_many id (is_open inviter_id email) cancel_invite w.invites,
        ),
        ground (
          arith,
          few,
          cancelled_count inviter_id (start_of_utc_day now) email w.invites,
          db.invite.total-save (sent_since inviter_id (start_of_utc_day now)) new_id
              (new_invite token inviter_id email now) cancelled,
          db.invite.find-update_many new_id (is_open inviter_id email) cancel_invite w.invites,
        ),
      )
