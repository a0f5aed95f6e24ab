-- ===== src/Achievements/Steps.antt =====
-- What one evaluation of an achievement may write: the lemmas on
-- src/modules/achievements/achievements.service.ts.
use sidequest_demo_be.Common.{
  ℕ, ◌+◌, ◌≡◌, ◌≢◌, ◌⊎◌, refl, ◌∙◌, ap, true, false, Option, none, some, arith, ltb, ◌==◌,
  Option-cases, Bool-cases, inl, inr,
}
use sidequest_demo_be.Gamification.{level_from_xp}
use sidequest_demo_be.Effects.{Result, ok, err, settle, Transactions, bind_cases}
use sidequest_demo_be.Store.{find-save_self, find-save_ne}
use sidequest_demo_be.Model.{User, UserAchievement}
use sidequest_demo_be.World.{Database, World}
use sidequest_demo_be.World.Levels.{LevelsAgree}
use sidequest_demo_be.Achievements.{
  Achievement, Evaluation, is_unlocked, unlocked_row, evaluate_with_progress, save_user_achievement,
  pay_bonus, unlock_tx, announce_unlock, level_or, unlock, evaluate_open, evaluate_one,
}

module _ {F : Type 0} (db : Database F) where
  -- The user with the bonus, and the level of the XP.
  abbrev pub with_bonus : ℕ → User → User
  with_bonus bonus u = record u { xp = u.xp + bonus; level = level_from_xp (u.xp + bonus) }

  -- The users are as before, or one user was given a bonus, in two writes.
  abbrev pub Paid : ℕ → db.user.State → db.user.State → Type 0
  Paid user_id before after =
      (after ≡ before)
      ⊎ ((u v : User) × (bonus : ℕ) × (after
            ≡ db.user.save user_id (with_bonus bonus u) (db.user.save user_id v before)))

  pub Paid-LevelsAgree :
      (user_id : ℕ) (before after : db.user.State)
      → Paid user_id before after
      → LevelsAgree db before
      → LevelsAgree db after
  Paid-LevelsAgree user_id before after (inl e) agree = rw e agree
  Paid-LevelsAgree user_id before after (inr (u, v, bonus, e)) agree = rw e twice
    where
      twice :
          LevelsAgree db (db.user.save user_id (with_bonus bonus u) (db.user.save user_id v before))
      twice other w found = ground (
        arith,
        db.user.find-save other user_id (with_bonus bonus u) (db.user.save user_id v before),
        db.user.find-save other user_id v before,
        agree other w,
      )

  -- The user's row of one achievement that was not unlocked is written, or no row.
  abbrev pub Written : ℕ → ℕ → db.user_achievement.State → db.user_achievement.State → Type 0
  Written user_id id before after =
      (after ≡ before)
      ⊎ ((row : UserAchievement) × (is_unlocked (db.user_achievement.find (user_id, id) before)
            ≡ false)
          × (after ≡ db.user_achievement.save (user_id, id) row before))

  pub Written-keeps :
      (user_id id : ℕ) (before after : db.user_achievement.State) (k : ℕ × ℕ)
      (row : UserAchievement)
      → Written user_id id before after
      → db.user_achievement.find k before ≡ some row
      → is_unlocked (some row) ≡ true
      → db.user_achievement.find k after ≡ some row
  Written-keeps user_id id before after k row (inl e) found unlocked = rw e found
  Written-keeps user_id id before after k row (inr (new, closed, e)) found unlocked =
      rw e (find-save_ne db.user_achievement k (user_id, id) new before apart ∙ found)
    where
      apart : k ≢ (user_id, id)
      apart same =
          cc (ap (λ (j : ℕ × ℕ). db.user_achievement.find j before) same, found, closed, unlocked)

  pay_bonus-Paid :
      (user_id bonus : ℕ) (w : World db)
      → Paid user_id w.users (pay_bonus db user_id bonus w).1.users
  pay_bonus-Paid user_id bonus w = elim (Option-cases (db.user.find user_id w.users)) [
    | inl missing ↦ inl (ground arith)
    | inr (u, found) ↦ inr (
      u,
      record u { xp = u.xp + bonus },
      bonus,
      ground (arith, find-save_self db.user user_id (record u { xp = u.xp + bonus }) w.users),
    )
  ]

  pay_bonus_rows :
      (user_id bonus : ℕ) (w : World db)
      → (pay_bonus db user_id bonus w).1.user_achievements ≡ w.user_achievements
  pay_bonus_rows user_id bonus w = elim (Option-cases (db.user.find user_id w.users)) [
    | inl missing ↦ ground arith
    | inr (u, found) ↦
        ground (arith, find-save_self db.user user_id (record u { xp = u.xp + bonus }) w.users)
  ]

  -- What one evaluation may do to the world.
  abbrev pub Evaluated : ℕ → ℕ → World db → World db → Type 0
  Evaluated user_id id w w' =
      Paid user_id w.users w'.users × Written user_id id w.user_achievements w'.user_achievements

  unlock_tx-Evaluated :
      (user_id : ℕ) (a : Achievement) (now : ℕ) (w : World db)
      → is_unlocked (db.user_achievement.find (user_id, a.id) w.user_achievements) ≡ false
      → Evaluated user_id a.id w (unlock_tx db user_id a now w).1
  unfolding unlock_tx
  unlock_tx-Evaluated user_id a now w closed = elim (Bool-cases (ltb 0 a.xp_bonus)) [
    | inl bonus ↦
        let w₁ = save_user_achievement db user_id a.id (unlocked_row a now) w in
        (
          rw bonus (pay_bonus-Paid user_id a.xp_bonus w₁),
          inr (unlocked_row a now, closed, rw bonus (pay_bonus_rows user_id a.xp_bonus w₁)),
        )
    | inr free ↦ (inl (ground arith), inr (unlocked_row a now, closed, ground arith))
  ]

  pub announce_rows :
      (user_id : ℕ) (a : Achievement) (level : ℕ) (w : World db)
      → ((announce_unlock db user_id a level w).1.users ≡ w.users)
        × ((announce_unlock db user_id a level w).1.user_achievements ≡ w.user_achievements)
  unfolding announce_unlock
  announce_rows user_id a level w = (grind arith, grind arith)

  module _ (tx : Transactions (World db)) where
    settled :
        (user_id : ℕ) (a : Achievement) (now : ℕ) (w : World db)
        → is_unlocked (db.user_achievement.find (user_id, a.id) w.user_achievements) ≡ false
        → Evaluated user_id a.id w (tx.transaction (Unit {0}) (unlock_tx db user_id a now) w).1
    settled user_id a now w closed =
        rw (tx.transaction_lem (Unit {0}) (unlock_tx db user_id a now) w)
          (kept _ (unlock_tx-Evaluated user_id a now w closed))
      where
        kept :
            (r : Result (Unit {0}) × World db)
            → Evaluated user_id a.id w r.1
            → Evaluated user_id a.id w (settle w r).1
        kept (ok x, w') h = h
        kept (err e, w') h = (inl refl, inl refl)

    unlock-Evaluated :
        (user_id : ℕ) (a : Achievement) (now : ℕ) (w : World db)
        → is_unlocked (db.user_achievement.find (user_id, a.id) w.user_achievements) ≡ false
        → Evaluated user_id a.id w (unlock db tx user_id a now w).1
    unfolding unlock
    unlock-Evaluated user_id a now w closed =
        let run = tx.transaction (Unit {0}) (unlock_tx db user_id a now) in
        let level = level_or db 1 (db.user.find user_id w.users) in
        let (paid, written) = settled user_id a now w closed in
        elim (bind_cases (λ _. announce_unlock db user_id a level) w run) [
          | inl e ↦ rw e (paid, written)
          | inr (x, done, e) ↦
              let (users, rows) = announce_rows user_id a level (run w).1 in
              rw e (rw (users, rows) (paid, written))
        ]

    evaluate_open-Evaluated :
        (user_id : ℕ) (a : Achievement) (existing : Option UserAchievement) (result : Evaluation)
        (now : ℕ) (w : World db)
        → db.user_achievement.find (user_id, a.id) w.user_achievements ≡ existing
        → is_unlocked existing ≡ false
        → Evaluated user_id a.id w (evaluate_open db tx a user_id existing result now w).1
    unfolding evaluate_open
    evaluate_open-Evaluated user_id a none result now w found closed =
        elim (Bool-cases result.earned) [
          | inl earned ↦ rw earned (unlock-Evaluated user_id a now w (rw found refl))
          | inr short ↦ elim (Bool-cases (ltb 0 result.progress)) [
            | inl some_way ↦ (
              inl (ground arith),
              inr (
                record { unlocked_at = none; progress = result.progress },
                rw found refl,
                rw (short, some_way) refl,
              ),
            )
            | inr none_yet ↦ (inl (ground arith), inl (ground arith))
          ]
        ]
    evaluate_open-Evaluated user_id a (some row) result now w found closed =
        elim (Bool-cases result.earned) [
          | inl earned ↦ rw earned (unlock-Evaluated user_id a now w (rw found closed))
          | inr short ↦ elim (Bool-cases (result.progress == row.progress)) [
            | inl same ↦ (inl (ground arith), inl (ground arith))
            | inr changed ↦ (
              inl (ground arith),
              inr (
                record row { progress = result.progress },
                rw found closed,
                rw (short, changed) refl,
              ),
            )
          ]
        ]

    pub evaluate_one_open :
        (user_id : ℕ) (a : Achievement) (now : ℕ) (w : World db)
        → is_unlocked (db.user_achievement.find (user_id, a.id) w.user_achievements) ≡ false
        → evaluate_one db tx a user_id now w
          ≡ evaluate_open db tx a user_id
              (db.user_achievement.find (user_id, a.id) w.user_achievements)
              (evaluate_with_progress db a user_id w)
              now
              w
    unfolding evaluate_one
    evaluate_one_open user_id a now w closed = ground arith

    pub evaluate_one_unlocked :
        (user_id : ℕ) (a : Achievement) (now : ℕ) (w : World db)
        → is_unlocked (db.user_achievement.find (user_id, a.id) w.user_achievements) ≡ true
        → evaluate_one db tx a user_id now w ≡ (ok tt, w)
    unfolding evaluate_one
    evaluate_one_unlocked user_id a now w unlocked = ground arith

    pub evaluate_one-Evaluated :
        (user_id : ℕ) (a : Achievement) (now : ℕ) (w : World db)
        → Evaluated user_id a.id w (evaluate_one db tx a user_id now w).1
    evaluate_one-Evaluated user_id a now w =
        let existing = db.user_achievement.find (user_id, a.id) w.user_achievements in
        elim (Bool-cases (is_unlocked existing)) [
          | inl unlocked ↦ rw (evaluate_one_unlocked user_id a now w unlocked) (inl refl, inl refl)
          | inr closed ↦ rw (evaluate_one_open user_id a now w closed) (
              evaluate_open-Evaluated user_id a existing (evaluate_with_progress db a user_id w) now
                w refl closed)
        ]
