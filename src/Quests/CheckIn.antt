-- ===== src/Quests/CheckIn.antt =====
-- Checking in at a waypoint: `checkInLocation` of src/modules/quests/quests.service.ts.
pub mod Stops
pub mod Visits
pub mod Levels
use Prim.Native.String.{String}
use sidequest_demo_be.Common.{
  ℕ, ◌+◌, Bool, true, false, not, ◌&&◌, Option, none, some, List, [], ◌∷◌, ◌++◌, length, leb, ltb,
  ◌==◌, if◌then◌else◌,
}
use sidequest_demo_be.Geo.{Float, Coordinates, haversine_meters}
use sidequest_demo_be.Effects.{
  foreign_key_violation, Action, ok, err, http, bad_request, not_found, unique_violation, pure,
  gets, or_throw, throw_if, when, ◌>>=◌, ◌>>◌, Transactions,
}
use sidequest_demo_be.Events.{quest_completed, quest_location_checked_in, level_up}
use sidequest_demo_be.Model.{
  User, Quest, QuestLocation, Proof, QuestCompletion, QuestLocationCheckIn, is_published,
  is_completed, is_started,
}
use sidequest_demo_be.World.{
  Database, World, emit, find_quest, find_completion, update_completion, update_user, find_check_in,
}
use sidequest_demo_be.Quests.Distance.{coordinates}
use sidequest_demo_be.Quests.Completion.{Finalized, finalize_quest_completion_tx}

-- `QuestCheckInBodyDto`
pub record CheckInBody (F : Type 0) : Type 0 where
  pub latitude : F
  pub longitude : F
  pub accuracy_m : Option ℕ

pub record CheckInResult : Type 0 where
  pub http_status : ℕ
  pub step_completed : Bool
  pub quest_completed : Bool

pub record Outcome : Type 0 where
  pub http_status : ℕ
  pub step_completed : Bool
  pub quest_completed : Bool
  pub emit_complete : Bool
  pub completed_at : Option ℕ
  pub xp_awarded : ℕ
  pub previous_level : ℕ
  pub new_level : ℕ

-- `row?.status === COMPLETED`
abbrev pub is_done : Option QuestCompletion → Bool
is_done none = false
is_done (some c) = is_completed c.status

-- `!active || active.status !== STARTED`
abbrev pub not_started : Option QuestCompletion → Bool
not_started none = true
not_started (some c) = not (is_started c.status)

-- `questLocation.findFirst({ id, questId })`, over the locations of the quest
abbrev pub find_location : {F : Type 0} → ℕ → List (QuestLocation F) → Option (QuestLocation F)
find_location id [] = none
find_location id (loc ∷ rest) = if loc.id == id then some loc else find_location id rest

abbrev pub duplicate : Option QuestCompletion → Outcome
duplicate row = record {
  http_status = 200;
  step_completed = true;
  quest_completed = is_done row;
  emit_complete = false;
  completed_at = none;
  xp_awarded = 0;
  previous_level = 0;
  new_level = 0;
}

abbrev pub one_more_stop : Outcome
one_more_stop = record {
  http_status = 201;
  step_completed = true;
  quest_completed = false;
  emit_complete = false;
  completed_at = none;
  xp_awarded = 0;
  previous_level = 0;
  new_level = 0;
}

abbrev pub last_stop : Finalized → Outcome
last_stop fin = record {
  http_status = 201;
  step_completed = true;
  quest_completed = true;
  emit_complete = true;
  completed_at = some fin.completed_at;
  xp_awarded = fin.xp_awarded;
  previous_level = fin.previous_level;
  new_level = fin.new_level;
}

-- `checkedInLocationIds: { push }` and `placesVisited: { increment: 1 }`
abbrev pub push_location : ℕ → QuestCompletion → QuestCompletion
push_location location_id c = record c {
  checked_in_location_ids = c.checked_in_location_ids ++ location_id ∷ [];
}

abbrev pub one_more_place : User → User
one_more_place u = record u { places_visited = u.places_visited + 1 }

-- one for each check-in of the user at the quest
abbrev pub counts : {F : Type 0} → ℕ → ℕ → ℕ × ℕ → QuestLocationCheckIn F → ℕ
counts user_id quest_id k r = if k.0 == user_id && r.quest_id == quest_id then 1 else 0

module _ (fl : Float) (db : Database fl.F) where
  create_check_in :
      ℕ → ℕ → QuestLocationCheckIn fl.F → Action (World db) (QuestLocationCheckIn fl.F)
  create_check_in user_id location_id row w =
      elim (db.quest_location_check_in.find (user_id, location_id) w.check_ins) [
        | some _ ↦ (err unique_violation, w)
        | none ↦ elim (db.user.find user_id w.users) [
          | none ↦ (err foreign_key_violation, w)
          | some _ ↦ (
            ok row,
            record w {
              check_ins = db.quest_location_check_in.save (user_id, location_id) row w.check_ins;
            },
          )
        ]
      ]

  count_check_ins : ℕ → ℕ → Action (World db) ℕ
  count_check_ins user_id quest_id =
      gets (λ w. db.quest_location_check_in.total (counts user_id quest_id) w.check_ins)

  -- the second half of the transaction, once the check-in is written
  unfoldable pub finish_if_last : ℕ → ℕ → Quest fl.F → ℕ → Action (World db) Outcome
  unfolding count_check_ins
  finish_if_last user_id quest_id quest now = do
    checked_count ← count_check_ins user_id quest_id
    if leb (length quest.locations) checked_count
        then (do
          fin ← finalize_quest_completion_tx fl db user_id quest_id quest (some Proof.check_ins) now
          pure (last_stop fin))
        else pure one_more_stop

  unfoldable pub record_check_in :
      ℕ → ℕ → ℕ → Quest fl.F → CheckInBody fl.F → ℕ → Action (World db) Outcome
  unfolding create_check_in
  record_check_in user_id quest_id location_id quest body now = do
    create_check_in user_id location_id (record {
      quest_id = quest_id;
      latitude = body.latitude;
      longitude = body.longitude;
      accuracy_m = body.accuracy_m;
      created_at = now;
    })
    update_completion db user_id quest_id (push_location location_id)
    update_user db user_id one_more_place
    finish_if_last user_id quest_id quest now

  -- the callback of `runInTransaction`
  unfoldable pub check_in_tx :
      ℕ → ℕ → ℕ → Quest fl.F → CheckInBody fl.F → ℕ → Action (World db) Outcome
  check_in_tx user_id quest_id location_id quest body now = do
    dup ← find_check_in db user_id location_id
    elim dup [
      | some _ ↦ (do row ← find_completion db user_id quest_id; pure (duplicate row))
      | none ↦ record_check_in user_id quest_id location_id quest body now
    ]

  -- `distanceM > location.radiusM`
  abbrev pub out_of_range : QuestLocation fl.F → CheckInBody fl.F → Bool
  out_of_range location body =
      let distance =
        haversine_meters fl (record { latitude = body.latitude; longitude = body.longitude })
          (coordinates location) in
      fl.lt (fl.of_ℕ location.radius_m) distance

  -- the events after the transaction
  unfoldable pub announce : ℕ → ℕ → ℕ → Outcome → Action (World db) (Unit {0})
  announce user_id quest_id location_id outcome = do
    elim outcome.completed_at [
      | none ↦ pure tt
      | some completed_at ↦ when outcome.emit_complete (do
        emit db (quest_completed user_id quest_id outcome.xp_awarded completed_at)
        when (ltb outcome.previous_level outcome.new_level)
            (emit db (level_up user_id outcome.previous_level outcome.new_level)))
    ]
    when (outcome.http_status == 201)
        (emit db (quest_location_checked_in user_id quest_id location_id))

  module _ (tx : Transactions (World db)) where
    unfoldable pub first_check_in :
        ℕ → ℕ → ℕ → Quest fl.F → CheckInBody fl.F → ℕ → Action (World db) CheckInResult
    first_check_in user_id quest_id location_id quest body now = do
      active ← find_completion db user_id quest_id
      throw_if (not_started active) (bad_request "Start the quest before checking in at waypoints")
      throw_if (length quest.locations == 0) (bad_request "This quest has no waypoints")
      outcome ← tx.transaction Outcome (check_in_tx user_id quest_id location_id quest body now)
      announce user_id quest_id location_id outcome
      pure (record {
        http_status = outcome.http_status;
        step_completed = outcome.step_completed;
        quest_completed = outcome.quest_completed;
      })

    unfoldable pub check_in_location :
        ℕ → ℕ → ℕ → CheckInBody fl.F → ℕ → Action (World db) CheckInResult
    check_in_location user_id quest_id location_id body now = do
      row ← find_quest db quest_id
      quest ← or_throw row (not_found "Quest not found")
      throw_if (not (is_published quest.status)) (bad_request "Quest is not available")
      location ←
          or_throw (find_location location_id quest.locations)
            (not_found "Location not found for this quest")
      throw_if (out_of_range location body)
          (http 409 (some "OUT_OF_RANGE") "You are outside the allowed radius for this waypoint")
      existing ← find_check_in db user_id location_id
      elim existing [
        | some _ ↦ (do
          completion ← find_completion db user_id quest_id
          pure (record {
            http_status = 200;
            step_completed = true;
            quest_completed = is_done completion;
          }))
        | none ↦ first_check_in user_id quest_id location_id quest body now
      ]
