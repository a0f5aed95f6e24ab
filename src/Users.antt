-- ===== src/Users.antt =====
-- User profiles: src/modules/users/users.service.ts over src/modules/users/users.repository.ts and
-- `listForUser` of src/modules/quests/quest-completions.repository.ts. The calls that auth makes
-- stand with it. `ilike` is `contains` with `mode: 'insensitive'`, and `collation` the order of texts
-- in the database.
pub mod Stats
pub mod Levels
use Prim.Native.String.{String}
use sidequest_demo_be.Common.{
  ℕ, ◌-◌, ◌*◌, Bool, true, false, ◌&&◌, ◌||◌, Option, none, some, List, map, ◌==◌, or_else,
}
use sidequest_demo_be.Common.Sorting.{Order, ascending, by, reversed, then_by, nulls_last}
use sidequest_demo_be.Common.Int.{ℤ}
use sidequest_demo_be.Common.Text.{Text}
use sidequest_demo_be.Pagination.{PaginationQuery, PaginatedResult, skip, paginate}
use sidequest_demo_be.Links.{TextMethods, build_personal_register_ref_link}
use sidequest_demo_be.Effects.{Action, Result, not_found, pure, gets, or_throw, ◌>>=◌, ◌>>◌}
use sidequest_demo_be.Store.{counted}
use sidequest_demo_be.Store.Paging.{page_rows}
use sidequest_demo_be.Model.{
  User, Quest, QuestCompletion, QuestCompletionStatus, started, completed, abandoned, expired,
}
use sidequest_demo_be.World.{Database, World, find_user, update_user}
use sidequest_demo_be.Auth.{UserDto, user_dto}
use sidequest_demo_be.Quests.Dto.{passes, nonempty_text}

pub data UserListSort : Type 0 where
  xp_desc xp_asc level_desc created_desc username_asc : UserListSort

pub record ListUsersQueryDto : Type 0 where
  pub query : PaginationQuery
  pub search : Option Text
  pub sort : Option UserListSort

pub record UpdateUserDto : Type 0 where
  pub display_name : Option Text
  pub avatar_url : Option Text
  pub bio : Option Text

-- `QuestHistoryItemDto`. A completion has its user and quest as its key, in place of an identifier,
-- and its quest is one that the foreign key keeps there.
pub record QuestSnapshot : Type 0 where
  pub id : ℕ
  pub slug : String
  pub title : String
  pub cover_image_url : Option String

pub record QuestHistoryItemDto : Type 0 where
  pub quest_id : ℕ
  pub quest : Option QuestSnapshot
  pub status : QuestCompletionStatus
  pub started_at : ℕ
  pub completed_at : Option ℕ
  pub xp_earned : ℕ
  pub duration_minutes : Option ℤ

-- `[{ column: 'asc' | 'desc' }, { id: 'asc' }]`
abbrev pub then_id : Order (ℕ × User) → Order (ℕ × User)
then_id order = then_by order (by (λ e. e.0) ascending)

unfoldable pub user_list_order_by : Order Text → UserListSort → Order (ℕ × User)
user_list_order_by collation xp_desc = then_id (reversed (by (λ e. e.1.xp) ascending))
user_list_order_by collation xp_asc = then_id (by (λ e. e.1.xp) ascending)
user_list_order_by collation level_desc = then_id (reversed (by (λ e. e.1.level) ascending))
user_list_order_by collation username_asc = then_id (by (λ e. e.1.username) collation)
user_list_order_by collation created_desc = then_id (reversed (by (λ e. e.1.created_at) ascending))

abbrev pub found_in : (Text → Text → Bool) → Text → Option Text → Bool
found_in ilike search none = false
found_in ilike search (some text) = ilike text search

-- the `OR` over the columns
abbrev pub is_match : (Text → Text → Bool) → Text → User → Bool
is_match ilike search u =
    ilike u.username search || found_in ilike search u.display_name || ilike u.email search

abbrev pub matches : (Text → Text → Bool) → Option Text → ℕ → User → Bool
matches ilike search id u = passes (nonempty_text search) (λ text. is_match ilike text u)

-- a column that the request leaves out keeps its value
abbrev pub or_old : Option Text → Option Text → Option Text
or_old none old = old
or_old (some new) old = some new

abbrev pub updated_user : UpdateUserDto → User → User
updated_user dto u = record u {
  display_name = or_old dto.display_name u.display_name;
  avatar_url = or_old dto.avatar_url u.avatar_url;
  bio = or_old dto.bio u.bio;
}

abbrev pub same_completion : QuestCompletionStatus → QuestCompletionStatus → Bool
same_completion started started = true
same_completion completed completed = true
same_completion abandoned abandoned = true
same_completion expired expired = true
same_completion _ _ = false

abbrev pub has_status : ℕ → QuestCompletionStatus → ℕ × ℕ → QuestCompletion → Bool
has_status user_id status k c = k.0 == user_id && same_completion c.status status

-- the `orderBy` of `listForUser`
unfoldable pub history_order : QuestCompletionStatus → Order ((ℕ × ℕ) × QuestCompletion)
history_order completed = reversed (by (λ e. e.1.completed_at) (nulls_last ascending))
history_order _ = reversed (by (λ e. e.1.started_at) ascending)

abbrev pub snapshot : {F : Type 0} → ℕ → Quest F → QuestSnapshot
snapshot id q = record {
  id = id;
  slug = q.slug;
  title = q.title;
  cover_image_url = q.cover_image_url;
}

module _ {F : Type 0} (db : Database F) (methods : TextMethods) (frontend : Text) where
  -- `toUserDto`
  abbrev pub to_user_dto : ℕ → User → UserDto
  to_user_dto id u = user_dto id u (build_personal_register_ref_link methods frontend u.username)

  unfoldable pub get_by_id : ℕ → Action (World db) UserDto
  get_by_id id = do
    row ← find_user db id
    user ← or_throw row (not_found "User not found")
    pure (to_user_dto id user)

  unfoldable pub list :
      Order Text → (Text → Text → Bool) → ListUsersQueryDto → World db → PaginatedResult UserDto
  list collation ilike query w =
      paginate
        (map (λ (e : ℕ × User). to_user_dto e.0 e.1)
          (page_rows db.user (matches ilike query.search)
            (user_list_order_by collation (or_else query.sort created_desc)) (skip query.query)
            query.query.limit w.users))
        query.query.page query.query.limit
        (db.user.total (counted (matches ilike query.search)) w.users)

  unfoldable pub update_profile : ℕ → UpdateUserDto → Action (World db) UserDto
  update_profile id dto = do user ← update_user db id (updated_user dto); pure (to_user_dto id user)

  unfoldable pub set_avatar_url : ℕ → Text → Action (World db) UserDto
  set_avatar_url id avatar_url = do
    user ← update_user db id (λ u. record u { avatar_url = some avatar_url })
    pure (to_user_dto id user)

  abbrev pub snapshot_of : World db → ℕ → Option QuestSnapshot
  snapshot_of w quest_id = elim (db.quest.find quest_id w.quests) [
    | none ↦ none
    | some q ↦ some (snapshot quest_id q)
  ]

  abbrev pub history_item : World db → (ℕ × ℕ) × QuestCompletion → QuestHistoryItemDto
  history_item w (k, c) = record {
    quest_id = k.1;
    quest = snapshot_of w k.1;
    status = c.status;
    started_at = c.started_at;
    completed_at = c.completed_at;
    xp_earned = c.xp_awarded;
    duration_minutes = c.duration_min;
  }

  unfoldable pub get_quest_history :
      ℕ
      → PaginationQuery
      → Option QuestCompletionStatus
      → Action (World db) (PaginatedResult QuestHistoryItemDto)
  get_quest_history user_id query asked = do
    row ← find_user db user_id
    or_throw row (not_found "User not found")
    let p = has_status user_id (or_else asked completed)
    let order = history_order (or_else asked completed)
    gets (λ w.
        paginate
          (map (history_item w)
            (page_rows db.quest_completion p order (skip query) query.limit w.completions))
          query.page query.limit (db.quest_completion.total (counted p) w.completions))
