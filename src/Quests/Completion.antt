-- ===== src/Quests/Completion.antt =====
-- Starting and completing a quest: `start`, `complete` and `finalizeQuestCompletionTx` of
-- src/modules/quests/quests.service.ts, over src/modules/quests/quest-completions.repository.ts.
-- `now` is the time that `new Date()` and the database's `now()` give during the request.
pub mod Rewards
pub mod Levels
pub mod Restart
use sidequest_demo_be.Common.{
  ℕ, ◌+◌, ◌-◌, ◌*◌, ◌/◌, max, Bool, true, false, not, Option, none, some, [], leb, ltb,
  if◌then◌else◌,
}
use sidequest_demo_be.Common.Int.{ℤ, pos, neg_ℕ}
use sidequest_demo_be.Gamification.{level_from_xp}
use sidequest_demo_be.Geo.{Float}
use sidequest_demo_be.Effects.{
  foreign_key_violation, Action, ok, bad_request, not_found, pure, gets, or_throw, throw_if, modify,
  when, ◌>>=◌, ◌>>◌, Transactions,
}
use sidequest_demo_be.Events.{quest_started, quest_completed, level_up}
use sidequest_demo_be.Model.{
  User, Quest, Proof, QuestCompletion, started, completed, is_published, is_completed,
}
use sidequest_demo_be.World.{
  Database, World, emit, find_user, update_user, find_quest, find_completion, save_completion,
  update_completion,
}
use sidequest_demo_be.Quests.Streak.{compute_streak}
use sidequest_demo_be.Quests.Distance.{sum_path_distance_meters}

-- `Math.round((now - startedAt) / 60000)`, which rounds a half up; the row's time may lie ahead of
-- the server's clock.
unfoldable pub minutes_between : ℕ → ℕ → ℤ
minutes_between started_at now =
    if leb started_at now
    then pos ((now - started_at + 30000) / 60000)
    else neg_ℕ ((started_at - now - 30000 + 59999) / 60000)

-- `{ status: STARTED, startedAt: new Date() }` over the row of the key, or a new row
abbrev pub started_row : ℕ → Option QuestCompletion → QuestCompletion
started_row now none = record {
  status = started;
  started_at = now;
  completed_at = none;
  xp_awarded = 0;
  duration_min = none;
  proof = none;
  checked_in_location_ids = [];
}
started_row now (some c) = record c { status = started; started_at = now }

-- `!row || row.status === COMPLETED`
abbrev pub not_open : Option QuestCompletion → Bool
not_open none = true
not_open (some c) = is_completed c.status

abbrev pub proof_or : Option Proof → Option Proof → Option Proof
proof_or none old = old
proof_or (some given) old = some given

-- What a completion writes to the row, and to the user.
abbrev pub completed_row : ℕ → ℕ → Option Proof → QuestCompletion → QuestCompletion
completed_row now xp_reward given c = record c {
  status = completed;
  completed_at = some now;
  xp_awarded = xp_reward;
  duration_min = some (minutes_between c.started_at now);
  proof = proof_or given c.proof;
}

abbrev pub rewarded_user : ℕ → ℕ → ℕ → User → User
rewarded_user now xp_reward path_meters u =
    let streak = compute_streak u.streak_days u.last_quest_completed_at now in
    record u {
      xp = u.xp + xp_reward;
      quests_done = u.quests_done + 1;
      level = level_from_xp (u.xp + xp_reward);
      streak_days = streak;
      longest_streak_days = max u.longest_streak_days streak;
      last_quest_completed_at = some now;
      distance_walked_m = u.distance_walked_m + path_meters;
    }

pub record Finalized : Type 0 where
  pub xp_awarded : ℕ
  pub previous_level : ℕ
  pub new_level : ℕ
  pub streak_days : ℕ
  pub completed_at : ℕ

pub record Completed : Type 0 where
  pub xp_awarded : ℕ
  pub leveled_up : Bool
  pub new_level : ℕ
  pub streak_days : ℕ

-- A new row whose user is missing.
abbrev pub is_dangling : Option QuestCompletion → Option User → Bool
is_dangling none none = true
is_dangling _ _ = false

module _ (fl : Float) (db : Database fl.F) where
  -- `QuestCompletionsRepository.start`, which creates a row under the foreign key of the user; the
  -- quest was found
  unfoldable pub start_completion : ℕ → ℕ → ℕ → Action (World db) (Unit {0})
  start_completion user_id quest_id now = do
    row ← find_completion db user_id quest_id
    user ← find_user db user_id
    throw_if (is_dangling row user) foreign_key_violation
    modify (save_completion db user_id quest_id (started_row now row))

  unfoldable pub start : ℕ → ℕ → ℕ → Action (World db) (Unit {0})
  unfolding start_completion
  start user_id quest_id now = do
    quest ← gets (λ w. db.quest.find quest_id w.quests)
    found ← or_throw quest (not_found "Quest not found")
    throw_if (not (is_published found.status)) (bad_request "Quest is not available")
    start_completion user_id quest_id now
    emit db (quest_started user_id quest_id)

  unfoldable pub finalize_quest_completion_tx :
      ℕ → ℕ → Quest fl.F → Option Proof → ℕ → Action (World db) Finalized
  finalize_quest_completion_tx user_id quest_id quest given now = do
    row ← find_user db user_id
    user ← or_throw row (not_found "User not found")
    completion ← find_completion db user_id quest_id
    throw_if (not_open completion) (bad_request "Quest must be started before it can be completed")
    update_completion db user_id quest_id (completed_row now quest.xp_reward given)
    update_user db user_id
        (rewarded_user now quest.xp_reward (fl.round (sum_path_distance_meters fl quest.locations)))
    pure (record {
      xp_awarded = quest.xp_reward;
      previous_level = level_from_xp user.xp;
      new_level = level_from_xp (user.xp + quest.xp_reward);
      streak_days = compute_streak user.streak_days user.last_quest_completed_at now;
      completed_at = now;
    })

  module _ (tx : Transactions (World db)) where
    unfoldable pub complete : ℕ → ℕ → Option Proof → ℕ → Action (World db) Completed
    complete user_id quest_id given now = do
      row ← find_quest db quest_id
      quest ← or_throw row (not_found "Quest not found")
      active ← find_completion db user_id quest_id
      throw_if (not_open active) (bad_request "Quest must be started before it can be completed")
      result ←
          tx.transaction Finalized (finalize_quest_completion_tx user_id quest_id quest given now)
      emit db (quest_completed user_id quest_id result.xp_awarded result.completed_at)
      when (ltb result.previous_level result.new_level)
          (emit db (level_up user_id result.previous_level result.new_level))
      pure (record {
        xp_awarded = result.xp_awarded;
        leveled_up = ltb result.previous_level result.new_level;
        new_level = result.new_level;
        streak_days = result.streak_days;
      })
