-- ===== src/Auth/Sessions.antt =====
-- Logging in, renewing a session and ending it: `login`, `refresh` and `logout` of
-- src/modules/auth/auth.service.ts.
use sidequest_demo_be.Common.{
  ℕ, ◌≡◌, ◌≢◌, ◌↔◌, refl, sym, true, false, none, some, [], arith, Option-cases, Bool-cases, inl,
  inr,
}
use sidequest_demo_be.Common.Text.{Text, text_eq, text_eq→≡}
use sidequest_demo_be.Links.{TextMethods}
use sidequest_demo_be.Effects.{ok, err, unauthorized}
use sidequest_demo_be.Store.{find-save_self}
use sidequest_demo_be.Model.{User, active}
use sidequest_demo_be.World.{Database, World, save_user}
use sidequest_demo_be.Invites.{has_email, normalize_email}
use sidequest_demo_be.Auth.{
  Crypto, LoginDto, AuthTokensDto, Claims, refresh_sub, token_hash_of, issued_tokens, issue_tokens,
  login, logout, refresh,
}

module _ {F : Type 0} (db : Database F) (methods : TextMethods) (crypto : Crypto)
    (frontend : Text) where
  -- A login succeeds exactly when the first account under the email has that password and is
  -- active.
  pub login_ok_iff :
      (dto : LoginDto) (now : ℕ) (w : World db)
      → ((tokens : AuthTokensDto) × ((login db methods crypto frontend dto now w).0 ≡ ok tokens))
        ↔ ((id : ℕ) × (u : User) × (db.user.find_first (has_email dto.email) w.users ≡ some (id, u))
            × (crypto.verify u.password_hash dto.password ≡ true)
            × (u.status ≡ active))
  unfolding login issue_tokens
  login_ok_iff dto now w = elim (Option-cases (db.user.find_first (has_email dto.email) w.users)) [
    | inl missing ↦ ground arith
    | inr ((id, u), found) ↦
        let row = db.user.find_first_sound (has_email dto.email) w.users id u found in
        elim (Bool-cases (crypto.verify u.password_hash dto.password)) [
          | inr wrong ↦ (λ done. absurd (ground arith), λ given. absurd (ground arith))
          | inl right ↦ (
            λ done. (id, u, found, right, ground arith),
            λ (id', u', found', right', awake). (
              issued_tokens db methods crypto frontend id u now,
              ground (
                arith,
                row,
                db.user.find-save id id (record u { last_login_at = some now }) w.users,
              ),
            ),
          )
        ]
  ]

  -- A login with an email that is not in the normal form in which registration stores it is refused,
  -- whatever the password, while all stored emails are in that form.
  login_raw_email :
      (dto : LoginDto) (now : ℕ) (w : World db)
      → ((id : ℕ) (u : User)
          → db.user.find id w.users ≡ some u
          → normalize_email db methods u.email ≡ u.email)
      → normalize_email db methods dto.email ≢ dto.email
      → login db methods crypto frontend dto now w ≡ (err (unauthorized "Invalid credentials"), w)
  unfolding login
  login_raw_email dto now w normal raw =
      elim (Option-cases (db.user.find_first (has_email dto.email) w.users)) [
        | inl missing ↦ ground arith
        | inr ((id, u), found) ↦
            let (same, row) = db.user.find_first_sound (has_email dto.email) w.users id u found in
            let e = text_eq→≡ u.email dto.email same in absurd (raw (rw (sym e) (normal id u row)))
      ]

  revoked :
      (token : Text) (later : ℕ) {claims : Claims} {id : ℕ} (w : World db)
      → crypto.verify_refresh token later ≡ some claims
      → refresh_sub claims ≡ some id
      → token_hash_of (db.user.find id w.users) ≡ none
      → refresh db methods crypto frontend token later w
        ≡ (err (unauthorized "Refresh token revoked"), w)
  unfolding refresh
  revoked token later {claims} {id} w genuine own no_hash =
      elim (Option-cases (db.user.find id w.users)) [
        | inl missing ↦ ground arith
        | inr (u, found) ↦ ground arith
      ]

  -- After a logout no refresh token of the user is worth anything, though it be genuine and in time.
  pub logout-refresh :
      (user_id : ℕ) (token : Text) (later : ℕ) {claims : Claims} {u : User} (w : World db)
      → db.user.find user_id w.users ≡ some u
      → crypto.verify_refresh token later ≡ some claims
      → refresh_sub claims ≡ some user_id
      → let (r, w') = logout db methods crypto frontend user_id w in
        (r ≡ ok tt)
        × (refresh db methods crypto frontend token later w'
            ≡ (err (unauthorized "Refresh token revoked"), w'))
  logout-refresh user_id token later {claims} {u} w found genuine own = rw left (
    refl,
    revoked token later _ genuine own
        (rw (find-save_self db.user user_id (record u { refresh_token_hash = none }) w.users) refl),
  )
    where
      left :
          logout db methods crypto frontend user_id w
          ≡ (ok tt, save_user db user_id (record u { refresh_token_hash = none }) w)
      left = unfold logout in ground arith

  issue_tokens_eq :
      (id : ℕ) (user : User) (now : ℕ) {u : User} (w : World db)
      → db.user.find id w.users ≡ some u
      → (tokens : AuthTokensDto) × (tokens.refresh_token
          ≡ crypto.sign_refresh (record { sub = id }) now)
        × (issue_tokens db methods crypto frontend id user now w ≡ (
          ok tokens,
          save_user db id
              (record u {
                refresh_token_hash =
                    some (crypto.hash (crypto.sign_refresh (record { sub = id }) now) now);
              })
              w,
        ))
  unfolding issue_tokens
  issue_tokens_eq id user now w found =
      (issued_tokens db methods crypto frontend id user now, refl, ground arith)

  module _ (token : Text) (now : ℕ) {claims : Claims} {id : ℕ} {u : User} {hash : Text}
      (w : World db) (genuine : crypto.verify_refresh token now ≡ some claims)
      (own : refresh_sub claims ≡ some id) (found : db.user.find id w.users ≡ some u)
      (stored : token_hash_of (some u) ≡ some hash)
      (matches : crypto.verify hash token ≡ true) where
    renewed : Text
    renewed = crypto.sign_refresh (record { sub = id }) now

    renewed_user : User
    unfolding renewed
    renewed_user = record u { refresh_token_hash = some (crypto.hash renewed now) }

    refresh_eq :
        (tokens : AuthTokensDto) × (tokens.refresh_token
          ≡ crypto.sign_refresh (record { sub = id }) now)
        × (refresh db methods crypto frontend token now w
            ≡ (ok tokens, save_user db id renewed_user w))
    unfolding refresh renewed_user renewed
    refresh_eq =
        let (tokens, e, issued) = issue_tokens_eq id u now w found in (tokens, e, ground arith)

    -- A refresh with the stored token succeeds and replaces it: the user's row has the hash of the
    -- new token in place of the old one and is otherwise as before, and in every later world whose
    -- row of the user has that hash the old token is refused with nothing written, where its text
    -- does not verify against the new hash.
    pub refresh_rotates :
        crypto.verify (crypto.hash (crypto.sign_refresh (record { sub = id }) now) now) token
          ≡ false
        → let (r, w') = refresh db methods crypto frontend token now w in
          let new_hash = crypto.hash (crypto.sign_refresh (record { sub = id }) now) now in
          ((tokens : AuthTokensDto) × (r ≡ ok tokens)
            × (tokens.refresh_token ≡ crypto.sign_refresh (record { sub = id }) now))
          × (db.user.find id w'.users ≡ some (record u { refresh_token_hash = some new_hash }))
          × ((later : ℕ) (claims' : Claims) (u' : User) (v : World db)
              → crypto.verify_refresh token later ≡ some claims'
              → refresh_sub claims' ≡ some id
              → db.user.find id v.users ≡ some u'
              → u'.refresh_token_hash ≡ some new_hash
              → refresh db methods crypto frontend token later v
                ≡ (err (unauthorized "Refresh token revoked"), v))
    unfolding renewed_user renewed
    refresh_rotates stale =
        let (tokens, e, done) = refresh_eq in
        rw done ((tokens, refl, e), find-save_self db.user id renewed_user w.users, old_refused)
      where
        old_refused :
            (later : ℕ) (claims' : Claims) (u' : User) (v : World db)
            → crypto.verify_refresh token later ≡ some claims'
            → refresh_sub claims' ≡ some id
            → db.user.find id v.users ≡ some u'
            → u'.refresh_token_hash
              ≡ some (crypto.hash (crypto.sign_refresh (record { sub = id }) now) now)
            → refresh db methods crypto frontend token later v
              ≡ (err (unauthorized "Refresh token revoked"), v)
        old_refused later claims' u' v genuine' own' row hashed =
            unfold refresh in
            elim (Bool-cases
              (text_eq (crypto.hash (crypto.sign_refresh (record { sub = id }) now) now) [])) [
                | inl blank ↦ ground arith
                | inr full ↦ ground arith
              ]
