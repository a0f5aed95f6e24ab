-- ===== src/Gamification/Titles.antt =====
-- The titles of src/common/gamification/user-title.util.ts.
use sidequest_demo_be.Common.{
  ℕ, zero, suc, ◌≡◌, refl, min, ap, ◌∙◌, not, ◌&&◌, ◌+◌, Option, none, some, [], arith, leb, ltb,
  if◌then◌else◌,
}
use sidequest_demo_be.Common.Text.{Text, codes, trim, text_eq}

-- `TITLES`, by index
unfoldable pub titles : ℕ → Text
titles zero = codes "Curious Newcomer"
titles (suc zero) = codes "Cobblestone Walker"
titles (suc (suc zero)) = codes "Cobblestone Wanderer"
titles (suc (suc (suc zero))) = codes "Street Sage"
titles (suc (suc (suc (suc zero)))) = codes "Prague Pathfinder"
titles _ = codes "City Legend"

unfoldable pub level_bracket_index : ℕ → ℕ
level_bracket_index level =
    let l = if ltb level 1 then 1 else level in
    if leb l 4
    then 0
    else if leb l 9
    then 1
    else if leb l 14
    then 2
    else if leb l 19
    then 3
    else if leb l 29
    then 4
    else 5

unfoldable pub quest_bracket_index : ℕ → ℕ
quest_bracket_index quests_done =
    if leb quests_done 2
    then 0
    else if leb quests_done 9
    then 1
    else if leb quests_done 19
    then 2
    else if leb quests_done 39
    then 3
    else if leb quests_done 79
    then 4
    else 5

unfoldable pub derive_user_title_from_level : ℕ → ℕ → Text
derive_user_title_from_level level quests_done =
    titles (min (level_bracket_index level) (quest_bracket_index quests_done))

pub record PublicUserTitleInput : Type 0 where
  pub title_override : Option Text
  pub level : ℕ
  pub quests_done : ℕ

title_or : Option Text → Text → Text
title_or none derived = derived
title_or (some raw) derived = if not (text_eq (trim raw) []) then trim raw else derived

unfoldable pub resolve_public_user_title : PublicUserTitleInput → Text
unfolding title_or derive_user_title_from_level
resolve_public_user_title user =
    title_or user.title_override (derive_user_title_from_level user.level user.quests_done)

-- An independent reading of the two tables: a tier counts when both its level and its number of
-- quests are met.
abbrev met : ℕ → ℕ → ℕ → ℕ → ℕ
met level_from quests_from level quests_done =
    if leb level_from level && leb quests_from quests_done then 1 else 0

abbrev pub tiers_met : ℕ → ℕ → ℕ
tiers_met level quests_done =
    met 5 3 level quests_done
    + met 10 10 level quests_done
    + met 15 20 level quests_done
    + met 20 40 level quests_done
    + met 30 80 level quests_done

min-bracket_index :
    (level quests_done : ℕ)
    → min (level_bracket_index level) (quest_bracket_index quests_done)
      ≡ tiers_met level quests_done
unfolding level_bracket_index quest_bracket_index
min-bracket_index level quests_done = ground arith

-- An override that is null or blank.
abbrev pub IsBlank : Option Text → Type 0
IsBlank none = Unit
IsBlank (some raw) = trim raw ≡ []

title_or_of_IsBlank : (o : Option Text) (derived : Text) → IsBlank o → title_or o derived ≡ derived
unfolding title_or
title_or_of_IsBlank none derived h = refl
title_or_of_IsBlank (some raw) derived h = rw h

-- Without an override, or with a blank one, the public title is the one at the number of tiers
-- that the user meets in full, so neither the level nor the quests alone earn a title.
pub resolve_public_user_title-tiers :
    (user : PublicUserTitleInput)
    → IsBlank user.title_override
    → resolve_public_user_title user ≡ titles (tiers_met user.level user.quests_done)
unfolding resolve_public_user_title
resolve_public_user_title-tiers user h =
    title_or_of_IsBlank user.title_override _ h
    ∙ ap titles (min-bracket_index user.level user.quests_done)
