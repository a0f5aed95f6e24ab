-- ===== src/Auth/Accounts.antt =====
-- Registration: all of it or nothing, and no second account under an email; `register` of
-- src/modules/auth/auth.service.ts.
use sidequest_demo_be.Common.{
  ℕ, ◌≡◌, ◌⊎◌, ap, refl, sym, ◌∙◌, Option, none, some, arith, Option-cases, inl, inr,
}
use sidequest_demo_be.Common.Text.{Text, text_eq, text_eq_refl}
use mathlib.Core.Path.{subst}
use sidequest_demo_be.Links.{TextMethods}
use sidequest_demo_be.Effects.{
  Exception, Result, ok, err, conflict, settle, Transactions, Action, pure, ◌>>=◌, bind_ok,
  bind_same, unique_violation,
}
use sidequest_demo_be.Store.{find-save_self}
use sidequest_demo_be.Model.{User}
use sidequest_demo_be.World.{Database, World, save_user}
use sidequest_demo_be.Invites.{
  with_xp, ReferralTxOutcome, has_email, normalize_email, consume_referral_invite_tx,
  emit_referral_completed,
}
use sidequest_demo_be.Invites.Levels.{Bonus, consume-Bonus}
use sidequest_demo_be.Auth.{
  Crypto, RegisterDto, AuthTokensDto, new_user, invite_token_of, issued_tokens,
  create_with_credentials_tx, issue_tokens, referral_tx, register_tx, announce_referral, register,
}

module _ {F : Type 0} (db : Database F) (methods : TextMethods) (crypto : Crypto)
    (frontend : Text) where
  -- A written row is still there after the bonus.
  user_stays :
      (a b : ℕ) (u : User) (before after : db.user.State)
      → Bonus db methods a b before after
      → db.user.find b before ≡ some u
      → (v : User) × (db.user.find b after ≡ some v)
  user_stays a b u before after (inl e) found = (u, rw e found)
  user_stays a b u before after (inr (x, y, m, n, e)) found = (
    with_xp n y,
    rw e (find-save_self db.user b (with_xp n y) (db.user.save a (with_xp m x) before)),
  )

  pub create_cases :
      (new_id : ℕ) (u : User) (w : World db)
      → (create_with_credentials_tx db methods crypto frontend new_id u w
          ≡ (err unique_violation, w))
        ⊎ (create_with_credentials_tx db methods crypto frontend new_id u w
            ≡ (ok u, save_user db new_id u w))
  unfolding create_with_credentials_tx
  create_cases new_id u w = grind arith

  pure_after :
      {A B : Type 0} (m : Action (World db) A) (f : A → B) (w : World db)
      → ((m >>= λ a. pure (f a)) w).1 ≡ (m w).1
  pure_after {A} {B} m f w = go (m w)
    where
      go : (r : Result A × World db) → (((λ v. r) >>= λ a. pure (f a)) w).1 ≡ r.1
      go (ok a, v) = refl
      go (err e, v) = refl

  referral_found :
      (new_id link_id : ℕ) (u : User) (token : Option Text) (email : Text) (now : ℕ) (w : World db)
      → db.user.find new_id w.users ≡ some u
      → (v : User) × (db.user.find new_id
            (referral_tx db methods crypto frontend link_id token new_id email now w).1.users
          ≡ some v)
  referral_found new_id link_id u none email now w found = (u, found)
  referral_found new_id link_id u (some token) email now w found =
      let consume = consume_referral_invite_tx db methods link_id token new_id email now in
      let (a, bonus) = consume-Bonus db methods link_id token new_id email now w in
      let (v, there) = user_stays a new_id u w.users _ bonus found in
      (v, rw (pure_after consume some w) there)

  -- The transaction of a registration creates the user, or throws.
  register_tx_found :
      (new_id link_id : ℕ) (u : User) (token : Option Text) (now : ℕ) (w : World db)
      {r : User × Option ReferralTxOutcome}
      → (register_tx db methods crypto frontend new_id link_id u token now w).0 ≡ ok r
      → (v : User) × (db.user.find new_id
            (register_tx db methods crypto frontend new_id link_id u token now w).1.users
          ≡ some v)
  unfolding register_tx
  register_tx_found new_id link_id u token now w done = elim (create_cases new_id u w) [
    | inl e ↦ absurd (ground arith)
    | inr e ↦
        let (v, there) =
          referral_found new_id link_id u token u.email now (save_user db new_id u w)
            (find-save_self db.user new_id u w.users) in
        let referral = referral_tx db methods crypto frontend link_id token new_id u.email now in
        let pair : Option ReferralTxOutcome → User × Option ReferralTxOutcome = λ out. (u, out) in
        let created =
          bind_ok {B = User × Option ReferralTxOutcome}
            (λ c. referral_tx db methods crypto frontend link_id token new_id c.email now >>= λ out.
              pure (c, out))
            w (create_with_credentials_tx db methods crypto frontend new_id u w)
            (ap (λ (r : Result User × World db). r.0) e) in
        let saved = ap (λ (r : Result User × World db). r.1) e in
        (
          v,
          subst (λ (s : db.user.State). db.user.find new_id s ≡ some v)
              (sym (
                ap (λ (r : Result (User × Option ReferralTxOutcome) × World db). r.1.users) created
                ∙ ap (λ (x : World db). ((referral >>= λ out. pure (pair out)) x).1.users) saved
                ∙ ap (λ (x : World db). x.users)
                    (pure_after referral pair (save_user db new_id u w))))
              there,
        )
  ]

  announce-ok :
      (out : Option ReferralTxOutcome) (w : World db)
      → ((announce_referral db methods crypto frontend out w).0 ≡ ok tt)
        × ((announce_referral db methods crypto frontend out w).1.users ≡ w.users)
  announce-ok none w = (refl, refl)
  announce-ok (some out) w = unfold emit_referral_completed in (grind arith, grind arith)

  module _ (tx : Transactions (World db)) where
    -- Registering an email, in its normal form, that an account has is answered by a conflict, and
    -- changes nothing.
    pub register_taken :
        (new_id link_id : ℕ) (dto : RegisterDto) (now : ℕ) (w : World db) {id : ℕ} {u : User}
        → db.user.find id w.users ≡ some u
        → u.email ≡ normalize_email db methods dto.email
        → register db methods crypto frontend tx new_id link_id dto now w
          ≡ (err (conflict "Email already registered"), w)
    unfolding register
    register_taken new_id link_id dto now w {id} {u} found same =
        elim (Option-cases
          (db.user.find_first (has_email (normalize_email db methods dto.email)) w.users)) [
            | inl free ↦ absurd (
                cc (
                  db.user.find_first_complete (has_email (normalize_email db methods dto.email))
                      w.users id u free found,
                  ap (λ (t : Text). text_eq t (normalize_email db methods dto.email)) same,
                  text_eq_refl (normalize_email db methods dto.email),
                ))
            | inr ((k, v), there) ↦ ground arith
          ]

    issue-ok :
        (id : ℕ) (user : User) (now : ℕ) (w : World db) {v : User}
        → db.user.find id w.users ≡ some v
        → (issue_tokens db methods crypto frontend id user now w).0
          ≡ ok (issued_tokens db methods crypto frontend id user now)
    unfolding issue_tokens
    issue-ok id user now w found = ground arith

    -- What follows the transaction cannot fail.
    finish-ok :
        (r : User × Option ReferralTxOutcome) (id now : ℕ) (w : World db) {v : User}
        → db.user.find id w.users ≡ some v
        → ((announce_referral db methods crypto frontend r.1 >>= λ _.
              issue_tokens db methods crypto frontend id r.0 now)
            w).0
          ≡ ok (issued_tokens db methods crypto frontend id r.0 now)
    finish-ok (u, out) id now w {v} found =
        let (e, same) = announce-ok out w in
        let after = announce_referral db methods crypto frontend out w in
        ap (λ (r : Result AuthTokensDto × World db). r.0)
          (bind_ok (λ _. issue_tokens db methods crypto frontend id u now) w after e)
        ∙ issue-ok id u now after.1 {v = v} (rw same found)

    abbrev registration :
        ℕ → ℕ → RegisterDto → ℕ → Action (World db) (User × Option ReferralTxOutcome)
    registration new_id link_id dto now =
        register_tx db methods crypto frontend new_id link_id
          (new_user (normalize_email db methods dto.email) dto.username dto.display_name
            (crypto.hash dto.password now) now)
          (invite_token_of dto.invite_token) now

    abbrev finish : ℕ → ℕ → User × Option ReferralTxOutcome → Action (World db) AuthTokensDto
    finish new_id now r = announce_referral db methods crypto frontend r.1 >>= λ _.
        issue_tokens db methods crypto frontend new_id r.0 now

    settled_atomic :
        (new_id now : ℕ) (w : World db) (e : Exception)
        (run : Result (User × Option ReferralTxOutcome) × World db)
        → ((r : User × Option ReferralTxOutcome)
            → run.0 ≡ ok r
            → (v : User) × (db.user.find new_id run.1.users ≡ some v))
        → (((λ _. settle w run) >>= finish new_id now) w).0 ≡ err e
        → (((λ _. settle w run) >>= finish new_id now) w).1 ≡ w
    settled_atomic new_id now w e (err e', v) there threw = refl
    settled_atomic new_id now w e (ok r, v) there threw =
        let (u, found) = there r refl in
        absurd (ground (arith, finish-ok r new_id now v found, threw))

    paid_atomic :
        (new_id link_id : ℕ) (dto : RegisterDto) (now : ℕ) (w : World db) (e : Exception)
        → ((tx.transaction (User × Option ReferralTxOutcome) (registration new_id link_id dto now)
              >>= finish new_id now)
            w).0
          ≡ err e
        → ((tx.transaction (User × Option ReferralTxOutcome) (registration new_id link_id dto now)
              >>= finish new_id now)
            w).1
          ≡ w
    paid_atomic new_id link_id dto now w e =
        let same =
          bind_same (finish new_id now) w
            (tx.transaction (User × Option ReferralTxOutcome) (registration new_id link_id dto now))
            (λ _. settle w (registration new_id link_id dto now w))
            (tx.transaction_lem (User × Option ReferralTxOutcome)
              (registration new_id link_id dto now) w) in
        subst (λ (r : Result AuthTokensDto × World db). r.0 ≡ err e → r.1 ≡ w) (sym same)
          (settled_atomic new_id now w e (registration new_id link_id dto now w)
            (λ r done. register_tx_found new_id link_id _ _ now w done))

    -- A registration that throws, whether for a taken name or for its invitation, leaves the whole
    -- world as it was: no account, no accepted invitation, no bonus and no event.
    pub register_atomic :
        (new_id link_id : ℕ) (dto : RegisterDto) (now : ℕ) (w : World db) (e : Exception)
        → (register db methods crypto frontend tx new_id link_id dto now w).0 ≡ err e
        → (register db methods crypto frontend tx new_id link_id dto now w).1 ≡ w
    unfolding register
    register_atomic new_id link_id dto now w e threw =
        ground (arith, paid_atomic new_id link_id dto now w e)
