-- ===== src/Tests/Sequences.antt =====
-- An example of requests one after the other.
use sidequest_demo_be.Common.{none, [], arith}
use sidequest_demo_be.Common.Text.{codes}
use sidequest_demo_be.Gamification
use sidequest_demo_be.Gamification.{level_from_xp}
use sidequest_demo_be.World.{World}
use sidequest_demo_be.World.Levels.{LevelsAgree}
use sidequest_demo_be.Requests.{Request, register, complete, midnight, after, here, next}
use sidequest_demo_be.Requests.Levels.{Reach-LevelsAgree}
use sidequest_demo_be.Tests.{fl, db, tx, methods, crypto, town}

town-LevelsAgree : LevelsAgree db town.users
unfolding level_from_xp Gamification.floor_sqrt
town-LevelsAgree id u found = ground arith

abbrev step : Request fl.F → World db → World db
step = after fl db tx methods crypto (codes "f") []

abbrev new_account : Request fl.F
new_account =
    register 3 9
      (record {
        email = codes "cy@x.org";
        username = codes "cy";
        password = codes "pw";
        display_name = none;
        invite_token = none;
      })
      50000

-- A user completes a quest, another registers, and the day ends.
Reach-LevelsAgree_example :
    LevelsAgree db
      (step (midnight 90000000) (step new_account (step (complete 1 7 none 60000) town))).users
Reach-LevelsAgree_example =
    Reach-LevelsAgree fl db tx methods crypto (codes "f") []
      (next (midnight 90000000) (next new_account (next (complete 1 7 none 60000) here)))
      town-LevelsAgree
