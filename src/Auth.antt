-- ===== src/Auth.antt =====
-- Accounts and sessions: src/modules/auth/auth.service.ts, with the reads and writes of
-- src/modules/users/users.service.ts and src/modules/users/users.repository.ts that it calls.
-- `new_id` is the identifier that the database gives a new row, `link_id` that of a friendship, and
-- `now` the request's time.
pub mod Accounts
pub mod Levels
pub mod Sessions
use Prim.Native.String.{String}
use sidequest_demo_be.Common.{
  ℕ, Bool, true, false, not, ◌||◌, Option, none, some, ◌==◌, if◌then◌else◌, [], or_else,
}
use sidequest_demo_be.Common.Text.{Text, codes, trim, text_eq}
use sidequest_demo_be.Gamification.Titles.{resolve_public_user_title}
use sidequest_demo_be.Links.{TextMethods, build_personal_register_ref_link}
use sidequest_demo_be.Access.Roles.{AppRole, to_app_role}
use sidequest_demo_be.Effects.{
  Action, ok, err, conflict, unauthorized, unique_violation, pure, gets, throw, or_throw, throw_if,
  modify, ◌>>=◌, ◌>>◌, Transactions,
}
use sidequest_demo_be.Model.{User, UserRole, UserStatus}
use sidequest_demo_be.World.{Database, World, find_user, save_user, update_user}
use sidequest_demo_be.Invites.{
  ReferralTxOutcome, is_active, has_email, find_by_email, normalize_email,
  consume_referral_invite_tx, emit_referral_completed,
}

-- `JwtAccessPayload`
pub record JwtAccessPayload : Type 0 where
  pub sub : ℕ
  pub email : Text
  pub username : Text
  pub role : AppRole

-- `JwtRefreshPayload`, whose `tokenType` is `refresh`
pub record JwtRefreshPayload : Type 0 where
  pub sub : ℕ

-- What a token claims, each part where it is text.
pub record Claims : Type 0 where
  pub sub : Option ℕ
  pub email : Option Text
  pub username : Option Text
  pub role : Option Text
  pub token_type : Option Text

-- The packages `argon2` and `@nestjs/jwt`, with the secrets and lifetimes of the configuration. A
-- hash or a token also depends on chance and on the time, its second argument. Verifying gives the
-- claims of a token that is genuine and in time.
pub record Crypto : Type 0 where
  pub hash : Text → ℕ → Text
  pub verify : Text → Text → Bool
  pub sign_access : JwtAccessPayload → ℕ → Text
  pub sign_refresh : JwtRefreshPayload → ℕ → Text
  pub verify_access : Text → ℕ → Option Claims
  pub verify_refresh : Text → ℕ → Option Claims

-- `isRefreshPayload`, with the `sub` that it finds
unfoldable pub refresh_sub : Claims → Option ℕ
refresh_sub claims = elim claims.token_type [
  | none ↦ none
  | some kind ↦ if text_eq kind (codes "refresh") then claims.sub else none
]

pub record RegisterDto : Type 0 where
  pub email : Text
  pub username : Text
  pub password : Text
  pub display_name : Option Text
  pub invite_token : Option Text

pub record LoginDto : Type 0 where
  pub email : Text
  pub password : Text

-- `UserDto`, which has neither the password's nor the refresh token's hash; `updatedAt` is left
-- out
pub record UserDto : Type 0 where
  pub id : ℕ
  pub email : Text
  pub username : Text
  pub display_name : Option Text
  pub avatar_url : Option Text
  pub bio : Option Text
  pub role : UserRole
  pub status : UserStatus
  pub xp : ℕ
  pub level : ℕ
  pub quests_done : ℕ
  pub title : Text
  pub streak_days : ℕ
  pub invite_link : Text
  pub created_at : ℕ

pub record AuthTokensDto : Type 0 where
  pub access_token : Text
  pub refresh_token : Text
  pub user : UserDto

unfoldable pub user_dto : ℕ → User → Text → UserDto
user_dto id user invite_link = record {
  id = id;
  email = user.email;
  username = user.username;
  display_name = user.display_name;
  avatar_url = user.avatar_url;
  bio = user.bio;
  role = user.role;
  status = user.status;
  xp = user.xp;
  level = user.level;
  quests_done = user.quests_done;
  title = resolve_public_user_title (record {
    title_override = user.title_override;
    level = user.level;
    quests_done = user.quests_done;
  });
  streak_days = user.streak_days;
  invite_link = invite_link;
  created_at = user.created_at;
}

-- A new row, with the defaults of the schema.
abbrev pub new_user : Text → Text → Option Text → Text → ℕ → User
new_user email username display_name password_hash now = record {
  email = email;
  username = username;
  password_hash = password_hash;
  display_name = display_name;
  avatar_url = none;
  bio = none;
  role = UserRole.user;
  status = UserStatus.active;
  primary_city = codes "prague";
  xp = 0;
  level = 1;
  quests_done = 0;
  title_override = none;
  streak_days = 0;
  longest_streak_days = 0;
  places_visited = 0;
  distance_walked_m = 0;
  last_quest_completed_at = none;
  last_login_at = none;
  refresh_token_hash = none;
  last_seen_at = none;
  created_at = now;
}

abbrev pub has_username : Text → ℕ → User → Bool
has_username username id u = text_eq u.username username

abbrev pub is_found : {A : Type 0} → Option A → Bool
is_found none = false
is_found (some a) = true

-- `dto.inviteToken?.trim()`, where an empty text is no token
abbrev pub invite_token_of : Option Text → Option Text
invite_token_of none = none
invite_token_of (some raw) = if text_eq (trim raw) [] then none else some (trim raw)

-- `!user || !user.refreshTokenHash`
abbrev pub token_hash_of : Option User → Option Text
token_hash_of none = none
token_hash_of (some u) = elim u.refresh_token_hash [
  | none ↦ none
  | some hash ↦ if text_eq hash [] then none else some hash
]

module _ {F : Type 0} (db : Database F) (methods : TextMethods) (crypto : Crypto)
    (frontend : Text) where
  -- `updateRefreshTokenHash`
  abbrev pub update_refresh_token_hash : ℕ → Option Text → Action (World db) User
  update_refresh_token_hash id hash =
      update_user db id (λ u. record u { refresh_token_hash = hash })

  -- `recordLogin`
  abbrev pub record_login : ℕ → ℕ → Action (World db) User
  record_login id now = update_user db id (λ u. record u { last_login_at = some now })

  -- `createWithCredentialsTx`, under `email @unique` and `username @unique`
  unfoldable pub create_with_credentials_tx : ℕ → User → Action (World db) User
  create_with_credentials_tx new_id u = do
    same_email ← find_by_email db methods u.email
    same_name ← gets (λ w. db.user.find_first (has_username u.username) w.users)
    throw_if (is_found same_email || is_found same_name) unique_violation
    modify (save_user db new_id u)
    pure u

  abbrev pub issued_tokens : ℕ → User → ℕ → AuthTokensDto
  issued_tokens id user now = record {
    access_token =
        crypto.sign_access
          (record {
            sub = id;
            email = user.email;
            username = user.username;
            role = to_app_role user.role;
          })
          now;
    refresh_token = crypto.sign_refresh (record { sub = id }) now;
    user = user_dto id user (build_personal_register_ref_link methods frontend user.username);
  }

  unfoldable pub issue_tokens : ℕ → User → ℕ → Action (World db) AuthTokensDto
  issue_tokens id user now = do
    update_refresh_token_hash id
        (some (crypto.hash (crypto.sign_refresh (record { sub = id }) now) now))
    pure (issued_tokens id user now)

  -- the referral in the transaction, where there is a token
  abbrev pub referral_tx :
      ℕ → Option Text → ℕ → Text → ℕ → Action (World db) (Option ReferralTxOutcome)
  referral_tx link_id none new_id email now = pure none
  referral_tx link_id (some token) new_id email now = do
    out ← consume_referral_invite_tx db methods link_id token new_id email now
    pure (some out)

  unfoldable pub register_tx :
      ℕ → ℕ → User → Option Text → ℕ → Action (World db) (User × Option ReferralTxOutcome)
  register_tx new_id link_id u token now = do
    created ← create_with_credentials_tx new_id u
    referral ← referral_tx link_id token new_id created.email now
    pure (created, referral)

  abbrev pub announce_referral : Option ReferralTxOutcome → Action (World db) (Unit {0})
  announce_referral none = pure tt
  announce_referral (some out) = emit_referral_completed db methods out

  module _ (tx : Transactions (World db)) where
    unfoldable pub register : ℕ → ℕ → RegisterDto → ℕ → Action (World db) AuthTokensDto
    register new_id link_id dto now = do
      email_exists ← find_by_email db methods (normalize_email db methods dto.email)
      throw_if (is_found email_exists) (conflict "Email already registered")
      username_exists ← gets (λ w. db.user.find_first (has_username dto.username) w.users)
      throw_if (is_found username_exists) (conflict "Username already taken")
      result ← tx.transaction (User × Option ReferralTxOutcome) (
          register_tx new_id link_id
            (new_user (normalize_email db methods dto.email) dto.username dto.display_name
              (crypto.hash dto.password now) now)
            (invite_token_of dto.invite_token) now)
      announce_referral result.1
      issue_tokens new_id result.0 now

  unfoldable pub login : LoginDto → ℕ → Action (World db) AuthTokensDto
  login dto now = do
    row ← find_by_email db methods dto.email
    found ← or_throw row (unauthorized "Invalid credentials")
    throw_if (not (crypto.verify found.1.password_hash dto.password))
        (unauthorized "Invalid credentials")
    throw_if (not (is_active found.1.status)) (unauthorized "Account not active")
    record_login found.0 now
    issue_tokens found.0 found.1 now

  unfoldable pub logout : ℕ → Action (World db) (Unit {0})
  logout user_id = do update_refresh_token_hash user_id none; pure tt

  unfoldable pub refresh : Text → ℕ → Action (World db) AuthTokensDto
  refresh refresh_token now = do
    claims ←
        or_throw (crypto.verify_refresh refresh_token now) (unauthorized "Invalid refresh token")
    sub ← or_throw (refresh_sub claims) (unauthorized "Invalid refresh token")
    row ← find_user db sub
    user ← or_throw row (unauthorized "Refresh token revoked")
    hash ← or_throw (token_hash_of row) (unauthorized "Refresh token revoked")
    throw_if (not (crypto.verify hash refresh_token)) (unauthorized "Refresh token revoked")
    issue_tokens sub user now
