-- ===== src/Tests/Awards.antt =====
-- Examples for achievements.
use sidequest_demo_be.Common.{◌≡◌, refl, none, some, [], ◌∷◌, arith}
use sidequest_demo_be.Gamification
use sidequest_demo_be.Gamification.{level_from_xp}
use sidequest_demo_be.Effects.{ok}
use sidequest_demo_be.Events.{quest_completed}
use sidequest_demo_be.Model.{UserAchievement, xp_threshold}
use sidequest_demo_be.World.{World}
use sidequest_demo_be.World.Levels.{LevelsAgree}
use sidequest_demo_be.Achievements.{
  Achievement, evaluate_type, evaluate_with_progress, evaluate_one, on_event,
}
use sidequest_demo_be.Achievements.Unlocking.{on_event_keeps_unlocked}
use sidequest_demo_be.Achievements.Payouts.{evaluate_one_pays}
use sidequest_demo_be.Achievements.{AchievementCriteria}
use sidequest_demo_be.Achievements.Parsing.{
  no_criteria, parse_criteria, stored_criteria, parse_criteria_stored,
}
use sidequest_demo_be.Tests.{db, tx, town}

-- For 50 XP, with a bonus of 30.
abbrev stroller : Achievement
stroller = record {
  id = 3;
  slug = "stroller";
  name = "Stroller";
  type = xp_threshold;
  criteria = record {
    min_quests = none;
    min_xp = some 50;
    min_level = none;
    min_locations = none;
    min_friends = none;
    min_streak_days = none;
    category_slug = none;
  };
  target_value = some 50;
  xp_bonus = 30;
}

abbrev old_award : UserAchievement
old_award = record { unlocked_at = some 4; progress = 50 }

abbrev decorated : World db
decorated = record town { user_achievements = ((1, 3), old_award) ∷ [] }

on_event_keeps_unlocked_example :
    db.user_achievement.find
      (1, 3)
      (on_event db tx (stroller ∷ []) (quest_completed 1 7 50 9) 9 decorated).1.user_achievements
    ≡ some old_award
on_event_keeps_unlocked_example =
    on_event_keeps_unlocked db tx (stroller ∷ []) (quest_completed 1 7 50 9) 9 decorated (1, 3)
      old_award refl refl

town-LevelsAgree : LevelsAgree db town.users
unfolding level_from_xp Gamification.floor_sqrt
town-LevelsAgree id u found = ground arith

evaluate_one_pays_example :
    let w' = (evaluate_one db tx stroller 1 9 town).1 in
    evaluate_one db tx stroller 1 12 w' ≡ (ok tt, w')
unfolding level_from_xp Gamification.floor_sqrt evaluate_type evaluate_with_progress
evaluate_one_pays_example = (evaluate_one_pays db tx stroller 1 9 12 town refl refl refl refl).3

-- Ten quests of history.
abbrev historian : AchievementCriteria
historian = record no_criteria { min_quests = some 10; category_slug = some "history" }

parse_criteria_stored_example : parse_criteria (stored_criteria historian) ≡ historian
parse_criteria_stored_example = parse_criteria_stored historian
