-- ===== src/Tests/Ranking.antt =====
-- Examples for the leaderboard.
use sidequest_demo_be.Common.{◌≡◌, none, some}
use sidequest_demo_be.Leaderboard.{respond, entry_of, find_my_rank}
use sidequest_demo_be.Leaderboard.Ranks.{respond_lem}
use sidequest_demo_be.Links.{SqlText}
use sidequest_demo_be.Tests.{db, methods, town}

-- Cities without upper case and without spaces around them.
abbrev plain : SqlText
plain = record { lower = λ s. s; btrim = λ s. s }

-- Ben is second of two, and has his entry though the page shows one.
respond_example :
    (respond db methods plain none none 1 (some 2) town).my_entry
    ≡ entry_of (some 2) (find_my_rank db methods plain none none 2 town)
respond_example = (respond_lem db methods plain none none 1 2 town).3
