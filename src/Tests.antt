-- ===== src/Tests.antt =====
-- The data of the examples: whole numbers for the floating-point numbers, lists of rows for the
-- tables, and a small world of two users, a quest of two stops and a friendship.
mod Levels
mod Completing
mod CheckingIn
mod Editing
mod Rating
mod Friends
mod Inviting
mod Sessions
mod Awards
mod Notices
mod Feeds
mod Reading
mod Ranking
mod Figures
mod Portal
mod Mapping
mod Sequences
use Prim.Native.String.{String}
use sidequest_demo_be.Common.{
  ℕ, ◌+◌, ◌-◌, ◌*◌, ◌/◌, min, Option, none, some, List, [], ◌∷◌, leb, ltb,
}
use sidequest_demo_be.Common.Text.{Text, codes, text_eq}
use sidequest_demo_be.Geo.{Float}
use sidequest_demo_be.Effects.{Transactions, rollback}
use sidequest_demo_be.Store.{id_key, pair_key}
use sidequest_demo_be.Store.Rows.{rows}
use sidequest_demo_be.Model.{
  User, Quest, QuestLocation, QuestCompletion, Friendship, UserRole, UserStatus, QuestStatus,
  QuestDifficulty, QuestCompletionStatus, FriendshipStatus, Invite, InviteStatus,
}
use sidequest_demo_be.Links.{TextMethods}
use sidequest_demo_be.Auth.{Crypto}
use sidequest_demo_be.World.{Database, World}

abbrev pub fl : Float
fl = record {
  F = ℕ;
  of_ℕ = λ n. n;
  add = λ a b. a + b;
  sub = λ a b. a - b;
  mul = λ a b. a * b;
  div = λ a b. a / b;
  pi = 3;
  sin = λ a. a;
  cos = λ a. 1;
  asin = λ a. a;
  sqrt = λ a. a;
  min = min;
  le = leb;
  lt = ltb;
  round = λ a. a;
  math_round = λ a. a;
}

abbrev pub db : Database ℕ
db = record {
  user = rows id_key;
  quest_category = rows id_key;
  business = rows id_key;
  business_visit = rows id_key;
  quest = rows id_key;
  quest_completion = rows pair_key;
  quest_location_check_in = rows pair_key;
  quest_rating = rows pair_key;
  friendship = rows id_key;
  invite = rows id_key;
  user_achievement = rows pair_key;
  notification = rows id_key;
}

abbrev pub tx : Transactions (World db)
tx = rollback (World db)

abbrev pub ann : User
ann = record {
  email = codes "ann@x.org";
  username = codes "ann";
  password_hash = codes "h";
  display_name = none;
  avatar_url = none;
  bio = none;
  role = UserRole.user;
  status = UserStatus.active;
  primary_city = codes "prague";
  xp = 80;
  level = 1;
  quests_done = 0;
  title_override = none;
  streak_days = 0;
  longest_streak_days = 0;
  places_visited = 0;
  distance_walked_m = 0;
  last_quest_completed_at = none;
  last_login_at = none;
  refresh_token_hash = none;
  last_seen_at = none;
  created_at = 1;
}

abbrev pub ben : User
ben = record ann { email = codes "ben@x.org"; username = codes "ben" }

abbrev pub stop : ℕ → QuestLocation ℕ
stop id = record {
  id = id;
  name = none;
  address = none;
  latitude = 5;
  longitude = 6;
  radius_m = 50;
  order_index = id;
}

abbrev pub walk : Quest ℕ
walk = record {
  slug = "walk";
  title = "Walk";
  summary = none;
  description = "Two stops";
  difficulty = QuestDifficulty.easy;
  status = QuestStatus.published;
  xp_reward = 50;
  estimated_duration_min = none;
  image_url = none;
  cover_image_url = none;
  author_id = some 2;
  category_id = none;
  business_id = none;
  tags = [];
  rating_avg = none;
  rating_count = 0;
  published_at = some 9;
  starts_at = none;
  ends_at = none;
  featured_at = none;
  created_at = 2;
  locations = stop 1 ∷ stop 2 ∷ [];
  reward_achievements = [];
}

abbrev pub row : QuestCompletion
row = record {
  status = QuestCompletionStatus.started;
  started_at = 0;
  completed_at = none;
  xp_awarded = 0;
  duration_min = none;
  proof = none;
  checked_in_location_ids = [];
}

abbrev pub friends : FriendshipStatus → Friendship
friends status = record {
  requester_id = 1;
  addressee_id = 2;
  status = status;
  responded_at = none;
  created_at = 3;
}

-- Text without upper case.
abbrev pub methods : TextMethods
methods = record { to_lower_case = λ s. s; to_upper_case = λ s. s; encode_uri_component = λ s. s }

-- A hash is the text with a mark, and a refresh token names its user and its time.
abbrev pub crypto : Crypto
crypto = record {
  hash = λ s now. 1 ∷ s;
  verify = λ h s. text_eq h (1 ∷ s);
  sign_access = λ p now. p.sub ∷ now ∷ [];
  sign_refresh = λ p now. p.sub ∷ now ∷ [];
  verify_access = λ t now. elim t [
    | [] ↦ none
    | id ∷ rest ↦ some (record {
      sub = some id;
      email = some [];
      username = some [];
      role = some [];
      token_type = none;
    })
  ];
  verify_refresh = λ t now. elim t [
    | [] ↦ none
    | id ∷ rest ↦ some (record {
      sub = some id;
      email = none;
      username = none;
      role = none;
      token_type = some (codes "refresh");
    })
  ];
}

abbrev pub invitation : Invite
invitation = record {
  token = codes "t0";
  inviter_id = 1;
  email = codes "ben@x.org";
  status = InviteStatus.pending;
  sent_at = 5;
  accepted_at = none;
  invitee_id = none;
}

-- Ann (1) and Ben (2), the quest 7 that Ann has started, and Ann's request 4 to Ben, and
-- her invitation 6 to his email.
abbrev pub town : World db
town = record {
  users = (1, ann) ∷ (2, ben) ∷ [];
  categories = [];
  businesses = [];
  business_visits = [];
  quests = (7, walk) ∷ [];
  completions = ((1, 7), row) ∷ [];
  check_ins = [];
  ratings = [];
  friendships = (4, friends FriendshipStatus.pending) ∷ [];
  invites = (6, invitation) ∷ [];
  user_achievements = [];
  notifications = [];
  emitted = [];
}
