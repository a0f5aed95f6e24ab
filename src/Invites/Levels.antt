-- ===== src/Invites/Levels.antt =====
-- The referral bonus and the stored levels: `consumeReferralInviteTx` of
-- src/modules/invites/invites.service.ts.
use sidequest_demo_be.Common.{
  ℕ, ◌+◌, ◌≡◌, ◌⊎◌, refl, sym, ◌∙◌, arith, ◌==◌, Option-cases, Bool-cases, inl, inr,
}
use sidequest_demo_be.Common.Text.{Text, text_eq}
use sidequest_demo_be.Links.{TextMethods}
use sidequest_demo_be.Effects.{Action, Result, ok, err, ◌>>=◌, ◌>>◌}
use sidequest_demo_be.Model.{User, Invite}
use sidequest_demo_be.World.{Database, World}
use sidequest_demo_be.World.Levels.{LevelsAgree, save-LevelsAgree}
use sidequest_demo_be.Invites.{
  ReferralTxOutcome, has_token, is_pending, is_expired, normalize_email, referral_xp, with_xp,
  claim, befriend, reward_both, consume_referral_invite_tx,
}

module _ {F : Type 0} (db : Database F) (methods : TextMethods) where
  -- No write to the users, or two that set the level by the XP.
  abbrev pub Bonus : ℕ → ℕ → db.user.State → db.user.State → Type 0
  Bonus a b before after =
      (after ≡ before)
      ⊎ ((u v : User) × (x y : ℕ) × (after
            ≡ db.user.save b (with_xp y v) (db.user.save a (with_xp x u) before)))

  pub Bonus-LevelsAgree :
      (a b : ℕ) (before after : db.user.State)
      → Bonus a b before after
      → LevelsAgree db before
      → LevelsAgree db after
  Bonus-LevelsAgree a b before after (inl e) agree = rw e agree
  Bonus-LevelsAgree a b before after (inr (u, v, x, y, e)) agree =
      rw e (save-LevelsAgree db b _ _ (save-LevelsAgree db a (with_xp x u) before agree refl) refl)

  reward_both-Bonus :
      (friendship_id a b : ℕ) (w : World db)
      → Bonus a b w.users (reward_both db methods friendship_id a b w).1.users
  unfolding reward_both
  reward_both-Bonus friendship_id a b w = elim (Option-cases (db.user.find a w.users)) [
    | inl missing ↦ inl (ground arith)
    | inr (u, fu) ↦ elim (Option-cases (db.user.find b w.users)) [
      | inl missing ↦ inl (ground arith)
      | inr (v, fv) ↦ elim (Bool-cases (a == b)) [
        | inl same ↦ inr (
          u,
          with_xp (u.xp + referral_xp) u,
          u.xp + referral_xp,
          v.xp + referral_xp,
          ground (arith, db.user.find-save b a (with_xp (u.xp + referral_xp) u) w.users),
        )
        | inr other ↦ inr (
          u,
          v,
          u.xp + referral_xp,
          v.xp + referral_xp,
          ground (arith, db.user.find-save b a (with_xp (u.xp + referral_xp) u) w.users),
        )
      ]
    ]
  ]

  befriend_users :
      (new_id a b now : ℕ) (w : World db) → (befriend db methods new_id a b now w).1.users ≡ w.users
  befriend_users new_id a b now w = grind arith

  claim_users :
      (id : ℕ) (token : Text) (invitee_id now : ℕ) (w : World db)
      → (claim db methods id token invitee_id now w).1.users ≡ w.users
  unfolding claim
  claim_users id token invitee_id now w = grind arith

  -- A step that writes no user, before one that leaves the users in `P`.
  then_lem :
      {A B : Type 0} (m : Action (World db) A) (k : A → Action (World db) B)
      (P : db.user.State → Type 0) (w : World db)
      → (m w).1.users ≡ w.users
      → P w.users
      → ((a : A) (v : World db) → v.users ≡ w.users → P (k a v).1.users)
      → P ((m >>= k) w).1.users
  then_lem {A} m k P w same start next = go (m w) same
    where
      go : (r : Result A × World db) → r.1.users ≡ w.users → P (((λ v. r) >>= k) w).1.users
      go (ok a, v) e = next a v e
      go (err e', v) e = rw e start

  -- What follows once the invitation has passed the checks.
  abbrev accept_and_pay : ℕ → ℕ → Text → ℕ → ℕ → ℕ → Action (World db) ReferralTxOutcome
  accept_and_pay new_id id token inviter_id invitee_id now =
      claim db methods id token invitee_id now
      >> (befriend db methods new_id inviter_id invitee_id now >>= λ friendship_id.
          reward_both db methods friendship_id inviter_id invitee_id)

  accept_and_pay-Bonus :
      (new_id id : ℕ) (token : Text) (a b now : ℕ) (w : World db)
      → Bonus a b w.users (accept_and_pay new_id id token a b now w).1.users
  accept_and_pay-Bonus new_id id token a b now w =
      then_lem (claim db methods id token b now)
        (λ _. befriend db methods new_id a b now >>= λ friendship_id.
          reward_both db methods friendship_id a b)
        (Bonus a b w.users) w (claim_users id token b now w) (inl refl)
        λ _ v e.
          then_lem (befriend db methods new_id a b now)
            (λ friendship_id. reward_both db methods friendship_id a b) (Bonus a b w.users) v
            (befriend_users new_id a b now v) (inl e)
            λ friendship_id v' e'. rw (sym (e' ∙ e)) (reward_both-Bonus friendship_id a b v')

  consume_cases :
      (new_id : ℕ) (token : Text) (invitee_id : ℕ) (email : Text) (now : ℕ) (w : World db)
      → let after = (consume_referral_invite_tx db methods new_id token invitee_id email now w).1 in
        (after ≡ w)
        ⊎ ((id : ℕ) × (invite : Invite) × (after
              ≡ (accept_and_pay new_id id token invite.inviter_id invitee_id now w).1))
  unfolding consume_referral_invite_tx
  consume_cases new_id token invitee_id email now w =
      elim (Option-cases (db.invite.find_first (has_token token) w.invites)) [
        | inl missing ↦ inl (ground arith)
        | inr ((id, invite), found) ↦ elim (Bool-cases (is_pending invite.status)) [
          | inr closed ↦ inl (ground arith)
          | inl open_row ↦ elim (Bool-cases (is_expired now invite)) [
            | inl late ↦ inl (ground arith)
            | inr in_time ↦
                elim (Bool-cases (
                  text_eq (normalize_email db methods invite.email)
                    (normalize_email db methods email))) [
                      | inr other ↦ inl (ground arith)
                      | inl own ↦ elim (Bool-cases (invite.inviter_id == invitee_id)) [
                        | inl same ↦ inl (ground arith)
                        | inr apart ↦
                            inr (id, invite, rw (found, open_row, in_time, own, apart) refl)
                      ]
                    ]
          ]
        ]
      ]

  pub consume-Bonus :
      (new_id : ℕ) (token : Text) (invitee_id : ℕ) (email : Text) (now : ℕ) (w : World db)
      → (a : ℕ) × Bonus a invitee_id w.users
          (consume_referral_invite_tx db methods new_id token invitee_id email now w).1.users
  consume-Bonus new_id token invitee_id email now w =
      elim (consume_cases new_id token invitee_id email now w) [
        | inl e ↦ (0, inl (rw e refl))
        | inr (id, invite, e) ↦ (
          invite.inviter_id,
          rw e (accept_and_pay-Bonus new_id id token invite.inviter_id invitee_id now w),
        )
      ]

  -- Whatever becomes of an invitation at registration, every user's stored level stays at what the
  -- user's XP say.
  pub consume-LevelsAgree :
      (new_id : ℕ) (token : Text) (invitee_id : ℕ) (email : Text) (now : ℕ) (w : World db)
      → LevelsAgree db w.users
      → LevelsAgree db
          (consume_referral_invite_tx db methods new_id token invitee_id email now w).1.users
  consume-LevelsAgree new_id token invitee_id email now w agree =
      let (a, bonus) = consume-Bonus new_id token invitee_id email now w in
      Bonus-LevelsAgree a invitee_id _ _ bonus agree
