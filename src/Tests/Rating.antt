-- ===== src/Tests/Rating.antt =====
-- Examples for rating a quest.
use sidequest_demo_be.Common.{refl, none}
use sidequest_demo_be.Quests.Ratings.{rate}
use sidequest_demo_be.Quests.Ratings.Averages.{rate_agrees, RatingAgrees}
use sidequest_demo_be.Tests.{fl, db, tx, town}

rate_agrees_example :
    RatingAgrees fl db 7 (rate fl db tx 1 7 (record { score = 4; comment = none }) 9 town).1
rate_agrees_example =
    (rate_agrees fl db tx 1 7 (record { score = 4; comment = none }) 9 town refl).2
