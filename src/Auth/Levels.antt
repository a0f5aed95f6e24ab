-- ===== src/Auth/Levels.antt =====
-- Accounts, sessions and the stored levels: src/modules/auth/auth.service.ts against the XP curve of
-- src/common/gamification/xp.ts.
use sidequest_demo_be.Common.{
  ℕ, ◌≡◌, refl, Option, none, some, arith, Option-cases, Bool-cases, inl, inr,
}
use sidequest_demo_be.Common.Text.{Text}
use sidequest_demo_be.Gamification.{level_from_xp}
use sidequest_demo_be.Links.{TextMethods}
use sidequest_demo_be.Effects.{Action, Transactions, pure, ◌>>=◌, ◌>>◌}
use sidequest_demo_be.Effects.Keeping.{Keeps, bind-Keeps, transaction-Keeps}
use sidequest_demo_be.Model.{User}
use sidequest_demo_be.World.{Database, World}
use sidequest_demo_be.World.Levels.{
  LevelsKept, save-LevelsAgree, update_user-Keeps, same_users-Keeps,
}
use sidequest_demo_be.Invites.{
  ReferralTxOutcome, has_email, normalize_email, consume_referral_invite_tx,
  emit_referral_completed,
}
use sidequest_demo_be.Invites.Levels.{consume-LevelsAgree}
use sidequest_demo_be.Auth.{
  Crypto, RegisterDto, LoginDto, new_user, invite_token_of, issued_tokens, has_username, is_found,
  is_active, token_hash_of, refresh_sub, create_with_credentials_tx, issue_tokens, referral_tx,
  register_tx, announce_referral, register, update_refresh_token_hash, record_login, login, logout,
  refresh,
}
use sidequest_demo_be.Auth.Accounts.{create_cases}

-- A new row starts without XP, at the first level.
new_user_agrees : (u : User) → u.xp ≡ 0 → u.level ≡ 1 → u.level ≡ level_from_xp u.xp
unfolding level_from_xp
new_user_agrees u no_xp first = rw (no_xp, first) refl

module _ {F : Type 0} (db : Database F) (methods : TextMethods) (crypto : Crypto)
    (frontend : Text) where
  abbrev Kept : {A : Type 0} → Action (World db) A → Type 0
  Kept = Keeps (LevelsKept db)

  hash-Kept :
      (id : ℕ) (hash : Option Text)
      → Kept (update_refresh_token_hash db methods crypto frontend id hash)
  hash-Kept id hash =
      update_user-Keeps db id (λ u. record u { refresh_token_hash = hash }) λ u same. same

  issue_tokens-Kept :
      (id : ℕ) (user : User) (now : ℕ) → Kept (issue_tokens db methods crypto frontend id user now)
  unfolding issue_tokens
  issue_tokens-Kept id user now =
      bind-Keeps (LevelsKept db) (update_refresh_token_hash db methods crypto frontend id _)
        (λ _. pure (issued_tokens db methods crypto frontend id user now)) (hash-Kept id _)
        λ _ v k. k

  pub logout-Keeps : (user_id : ℕ) → Kept (logout db methods crypto frontend user_id)
  unfolding logout
  logout-Keeps user_id =
      bind-Keeps (LevelsKept db) (update_refresh_token_hash db methods crypto frontend user_id none)
        (λ _. pure tt) (hash-Kept user_id none) λ _ v k. k

  create-Kept :
      (new_id : ℕ) (u : User)
      → u.level ≡ level_from_xp u.xp
      → Kept (create_with_credentials_tx db methods crypto frontend new_id u)
  create-Kept new_id u agrees w h = elim (create_cases db methods crypto frontend new_id u w) [
    | inl taken ↦ rw taken h
    | inr created ↦ rw created (save-LevelsAgree db new_id u w.users h agrees)
  ]

  referral_tx-Kept :
      (link_id : ℕ) (token : Option Text) (new_id : ℕ) (email : Text) (now : ℕ)
      → Kept (referral_tx db methods crypto frontend link_id token new_id email now)
  referral_tx-Kept link_id none new_id email now w h = h
  referral_tx-Kept link_id (some token) new_id email now w h =
      bind-Keeps (LevelsKept db)
        (consume_referral_invite_tx db methods link_id token new_id email now)
        (λ out. pure (some out)) (consume-LevelsAgree db methods link_id token new_id email now)
        (λ _ v k. k) w h

  register_tx-Kept :
      (new_id link_id : ℕ) (u : User) (token : Option Text) (now : ℕ)
      → u.level ≡ level_from_xp u.xp
      → Kept (register_tx db methods crypto frontend new_id link_id u token now)
  unfolding register_tx
  register_tx-Kept new_id link_id u token now agrees =
      let referral : User → Action (World db) (Option ReferralTxOutcome) =
        λ created. referral_tx db methods crypto frontend link_id token new_id created.email now in
      bind-Keeps (LevelsKept db) (create_with_credentials_tx db methods crypto frontend new_id u)
        (λ created. referral created >>= λ out. pure (created, out)) (create-Kept new_id u agrees)
        λ created.
          bind-Keeps (LevelsKept db) (referral created) (λ out. pure (created, out))
            (referral_tx-Kept link_id token new_id created.email now) λ _ v k. k

  announce_users :
      (out : Option ReferralTxOutcome) (w : World db)
      → (announce_referral db methods crypto frontend out w).1.users ≡ w.users
  unfolding emit_referral_completed
  announce_users none w = refl
  announce_users (some out) w = grind arith

  module _ (tx : Transactions (World db)) where
    pub register-Keeps :
        (new_id link_id : ℕ) (dto : RegisterDto) (now : ℕ)
        → Kept (register db methods crypto frontend tx new_id link_id dto now)
    unfolding register
    register-Keeps new_id link_id dto now w h =
        elim (Bool-cases (
          is_found
            (db.user.find_first (has_email (normalize_email db methods dto.email)) w.users))) [
              | inl taken ↦ rw taken h
              | inr new_email ↦
                  elim (Bool-cases
                    (is_found (db.user.find_first (has_username dto.username) w.users))) [
                      | inl taken ↦ rw (new_email, taken) h
                      | inr new_name ↦ rw (new_email, new_name) (written w h)
                    ]
            ]
      where
        row : User
        row =
            new_user (normalize_email db methods dto.email) dto.username dto.display_name
              (crypto.hash dto.password now) now

        run : Action (World db) (User × Option ReferralTxOutcome)
        run =
            register_tx db methods crypto frontend new_id link_id row
              (invite_token_of dto.invite_token) now

        written : Kept (
            tx.transaction (User × Option ReferralTxOutcome) run >>= λ result.
            announce_referral db methods crypto frontend result.1
            >> issue_tokens db methods crypto frontend new_id result.0 now)
        written =
            bind-Keeps (LevelsKept db) (tx.transaction (User × Option ReferralTxOutcome) run)
              (λ result.
                announce_referral db methods crypto frontend result.1
                >> issue_tokens db methods crypto frontend new_id result.0 now)
              (transaction-Keeps (LevelsKept db) tx run (
                register_tx-Kept new_id link_id row (invite_token_of dto.invite_token) now
                  (new_user_agrees row refl refl)))
              λ result.
                bind-Keeps (LevelsKept db) (announce_referral db methods crypto frontend result.1)
                  (λ _. issue_tokens db methods crypto frontend new_id result.0 now)
                  (same_users-Keeps db (announce_referral db methods crypto frontend result.1)
                    (announce_users result.1))
                  λ _. issue_tokens-Kept new_id result.0 now

  pub login-Keeps : (dto : LoginDto) (now : ℕ) → Kept (login db methods crypto frontend dto now)
  unfolding login
  login-Keeps dto now w h = elim (Option-cases (db.user.find_first (has_email dto.email) w.users)) [
    | inl missing ↦ rw missing h
    | inr ((id, u), found) ↦ elim (Bool-cases (crypto.verify u.password_hash dto.password)) [
      | inr wrong ↦ rw (found, wrong) h
      | inl right ↦ elim (Bool-cases (is_active u.status)) [
        | inr inactive ↦ rw (found, right, inactive) h
        | inl active ↦ rw (found, right, active) (written id u w h)
      ]
    ]
  ]
    where
      written :
          (id : ℕ) (u : User)
          → Kept (
              record_login db methods crypto frontend id now
              >> issue_tokens db methods crypto frontend id u now)
      written id u =
          bind-Keeps (LevelsKept db) (record_login db methods crypto frontend id now)
            (λ _. issue_tokens db methods crypto frontend id u now)
            (update_user-Keeps db id (λ u. record u { last_login_at = some now }) λ u same. same)
            λ _. issue_tokens-Kept id u now

  pub refresh-Keeps : (token : Text) (now : ℕ) → Kept (refresh db methods crypto frontend token now)
  unfolding refresh
  refresh-Keeps token now w h = elim (Option-cases (crypto.verify_refresh token now)) [
    | inl forged ↦ rw forged h
    | inr (claims, signed) ↦ elim (Option-cases (refresh_sub claims)) [
      | inl unknown ↦ rw (signed, unknown) h
      | inr (sub, subject) ↦ elim (Option-cases (db.user.find sub w.users)) [
        | inl missing ↦ rw (signed, subject, missing) h
        | inr (u, found) ↦ elim (Option-cases (token_hash_of (some u))) [
          | inl revoked ↦ rw (signed, subject, found, revoked) h
          | inr (hash, stored) ↦ elim (Bool-cases (crypto.verify hash token)) [
            | inr other ↦ rw (signed, subject, found, stored, other) h
            | inl own ↦ rw (signed, subject, found, stored, own) (issue_tokens-Kept sub u now w h)
          ]
        ]
      ]
    ]
  ]
