-- ===== src/Achievements/Parsing.antt =====
-- Reading the criteria of an achievement from their JSON column: `parseCriteria` of
-- src/modules/achievements/achievements.service.ts. `Achievement.criteria` holds what it reads. The
-- numbers of a criterion are whole.
use Prim.Native.String.{String}
use text.Mathlib.Text.{◌==◌ as str_eq}
use sidequest_demo_be.Common.{ℕ, ◌≡◌, Bool, Option, none, some, if◌then◌else◌, arith}
use sidequest_demo_be.Achievements.Criteria.{AchievementCriteria}

mutual
  -- a JSON value; the items of an array play no part
  pub data Json : Type 0 where
    null array : Json
    boolean : Bool → Json
    number : ℕ → Json
    string : String → Json
    object : Fields → Json

  pub data Fields : Type 0 where
    no_field : Fields
    field : String → Json → Fields → Fields

-- `Reflect.get`, of an object's own keys
abbrev pub reflect_get : Fields → String → Option Json
reflect_get no_field key = none
reflect_get (field k v rest) key =
    let more = reflect_get rest key in if str_eq k key then some v else more

-- `typeof v === 'number'` and `typeof v === 'string'`
abbrev pub number_of : Option Json → Option ℕ
number_of (some (number n)) = some n
number_of _ = none

abbrev pub text_of : Option Json → Option String
text_of (some (string s)) = some s
text_of _ = none

abbrev pub no_criteria : AchievementCriteria
no_criteria = record {
  min_quests = none;
  min_xp = none;
  min_level = none;
  min_locations = none;
  min_friends = none;
  min_streak_days = none;
  category_slug = none;
}

unfoldable pub parse_criteria : Json → AchievementCriteria
parse_criteria (object fields) = record {
  min_quests = number_of (reflect_get fields "minQuests");
  min_xp = number_of (reflect_get fields "minXp");
  min_level = number_of (reflect_get fields "minLevel");
  min_locations = number_of (reflect_get fields "minLocations");
  min_friends = number_of (reflect_get fields "minFriends");
  min_streak_days = number_of (reflect_get fields "minStreakDays");
  category_slug = text_of (reflect_get fields "categorySlug");
}
parse_criteria null = no_criteria
parse_criteria array = no_criteria
parse_criteria (boolean b) = no_criteria
parse_criteria (number n) = no_criteria
parse_criteria (string s) = no_criteria

-- A key of the object where the criterion is given.
abbrev pub with_number : String → Option ℕ → Fields → Fields
with_number key none rest = rest
with_number key (some n) rest = field key (number n) rest

abbrev pub with_text : String → Option String → Fields → Fields
with_text key none rest = rest
with_text key (some s) rest = field key (string s) rest

-- The object that criteria are stored as: a key for each that is given.
abbrev pub stored_criteria : AchievementCriteria → Json
stored_criteria c = object (
    with_number "minQuests" c.min_quests (
      with_number "minXp" c.min_xp (
        with_number "minLevel" c.min_level (
          with_number "minLocations" c.min_locations (
            with_number "minFriends" c.min_friends (
              with_number "minStreakDays" c.min_streak_days
                (with_text "categorySlug" c.category_slug no_field)))))))

-- What is stored of some criteria is read back as they are, whichever of them are given.
pub parse_criteria_stored : (c : AchievementCriteria) → parse_criteria (stored_criteria c) ≡ c
unfolding parse_criteria
parse_criteria_stored c i = record {
  min_quests = read.0 i;
  min_xp = read.1 i;
  min_level = read.2 i;
  min_locations = read.3 i;
  min_friends = read.4 i;
  min_streak_days = read.5 i;
  category_slug = read.6 i;
}
  where
    back : AchievementCriteria
    back = parse_criteria (stored_criteria c)

    read :
        (back.min_quests ≡ c.min_quests)
        × (back.min_xp ≡ c.min_xp)
        × (back.min_level ≡ c.min_level)
        × (back.min_locations ≡ c.min_locations)
        × (back.min_friends ≡ c.min_friends)
        × (back.min_streak_days ≡ c.min_streak_days)
        × (back.category_slug ≡ c.category_slug)
    read = (
      ground arith,
      ground arith,
      ground arith,
      ground arith,
      ground arith,
      ground arith,
      ground arith,
    )
