-- ===== src/Tests/Completing.antt =====
-- Examples for completing a quest.
use sidequest_demo_be.Common.{◌+◌, ◌≡◌, refl, none, some, [], ◌∷◌}
use sidequest_demo_be.Gamification
use sidequest_demo_be.Gamification.{level_from_xp}
use sidequest_demo_be.Effects.{err, not_found, bad_request}
use sidequest_demo_be.Events.{quest_completed, level_up}
use sidequest_demo_be.Model.{User}
use sidequest_demo_be.Quests.Completion.{start, complete}
use sidequest_demo_be.Quests.Completion.Restart.{restart_pays_twice}
use sidequest_demo_be.Quests.Completion.Rewards.{complete_atomic, complete_pays, complete_again}
use sidequest_demo_be.Tests.{fl, db, tx, town}

complete_atomic_example : (complete fl db tx 1 8 none 60000 town).1 ≡ town
unfolding complete
complete_atomic_example =
    complete_atomic fl db tx 1 8 none 60000 town (not_found "Quest not found") refl

complete_pays_example :
    (complete fl db tx 1 7 none 60000 town).1.emitted
    ≡ quest_completed 1 7 50 60000 ∷ level_up 1 1 2 ∷ []
unfolding level_from_xp Gamification.floor_sqrt
complete_pays_example = (complete_pays fl db tx 1 7 none 60000 town refl refl refl refl).4

complete_again_example :
    let w' = (complete fl db tx 1 7 none 60000 town).1 in
    complete fl db tx 1 7 none 70000 w'
    ≡ (err (bad_request "Quest must be started before it can be completed"), w')
complete_again_example = complete_again fl db tx 1 7 none 60000 town refl refl refl refl none 70000

restart_pays_twice_example :
    let w₁ = (complete fl db tx 1 7 none 60000 town).1 in
    let w₂ = (start fl db 1 7 70000 w₁).1 in
    let w₃ = (complete fl db tx 1 7 none 80000 w₂).1 in
    (u : User) × (db.user.find 1 w₃.users ≡ some u)
    × (u.xp ≡ 80 + 50 + 50)
    × (u.quests_done ≡ 0 + 2)
restart_pays_twice_example =
    restart_pays_twice fl db tx 1 7 none 60000 70000 80000 town refl refl refl refl refl
