-- ===== src/Tests/Editing.antt =====
-- Examples for creating, changing and deleting quests.
use sidequest_demo_be.Common.{ℕ, ◌≡◌, refl, none, some, [], arith}
use sidequest_demo_be.Access.Roles.{AppRole}
use sidequest_demo_be.Effects.{err, forbidden}
use sidequest_demo_be.Model.{published}
use sidequest_demo_be.Quests.Editing.{Actor, CreateQuestDto, UpdateQuestDto, update, delete}
use sidequest_demo_be.Quests.Editing.Owners.{update-delete-forbidden}
use sidequest_demo_be.Tests.{fl, db, town}

abbrev publish : UpdateQuestDto
publish = record {
  title = none;
  summary = none;
  description = none;
  difficulty = none;
  status = some published;
  xp_reward = none;
  estimated_duration_min = none;
  category_id = none;
  image_url = none;
  cover_image_url = none;
  starts_at = none;
  ends_at = none;
}

abbrev fresh : CreateQuestDto ℕ
fresh = record {
  slug = "castle";
  title = "Castle";
  summary = none;
  description = "One stop";
  difficulty = none;
  xp_reward = none;
  estimated_duration_min = none;
  category_id = none;
  business_id = none;
  image_url = none;
  cover_image_url = none;
  locations = [];
}

abbrev player : Actor
player = record { id = 1; role = AppRole.user }

abbrev author : Actor
author = record { id = 2; role = AppRole.business_owner }

update-delete-forbidden_example :
    (update fl db player 7 publish 20 town
      ≡ (err (forbidden "Not allowed to mutate this quest"), town))
    × (delete fl db player 7 town ≡ (err (forbidden "Not allowed to mutate this quest"), town))
update-delete-forbidden_example =
    update-delete-forbidden fl db player 7 publish 20 town refl (ground arith) (ground arith)
      (ground arith)
