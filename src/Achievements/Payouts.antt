-- ===== src/Achievements/Payouts.antt =====
-- An achievement that is earned is unlocked and paid once:
-- src/modules/achievements/achievements.service.ts.
use mathlib.Core.Path.{subst}
use sidequest_demo_be.Common.{
  ℕ, ◌+◌, ◌≡◌, refl, sym, ◌∙◌, ap, true, false, some, arith, ltb, Option-cases, Bool-cases, inl,
  inr,
}
use sidequest_demo_be.Gamification.{level_from_xp}
use sidequest_demo_be.Effects.{Result, ok, err, settle, Transactions, bind_same, ◌>>=◌}
use sidequest_demo_be.Store.{find-save_self}
use sidequest_demo_be.Model.{User}
use sidequest_demo_be.World.{Database, World, save_user}
use sidequest_demo_be.Achievements.{
  Achievement, is_unlocked, unlocked_row, evaluate_with_progress, save_user_achievement, pay_bonus,
  unlock_tx, announce_unlock, level_or, unlock, evaluate_open, evaluate_one,
}
use sidequest_demo_be.Achievements.Steps.{
  with_bonus, announce_rows, evaluate_one_open, evaluate_one_unlocked,
}

module _ {F : Type 0} (db : Database F) (tx : Transactions (World db)) where
  -- The world with the achievement unlocked and its bonus paid.
  Pays : ℕ → Achievement → ℕ → User → World db → Result (Unit {0}) × World db → Type 0
  Pays user_id a now u w (r, w') =
      (r ≡ ok tt)
      × (w'.user_achievements
          ≡ db.user_achievement.save (user_id, a.id) (unlocked_row a now) w.user_achievements)
      × (db.user.find user_id w'.users ≡ some (with_bonus db a.xp_bonus u))

  pay_bonus_eq :
      (user_id bonus : ℕ) (w : World db) {u : User}
      → db.user.find user_id w.users ≡ some u
      → pay_bonus db user_id bonus w ≡ (
        ok tt,
        save_user db user_id
            (with_bonus db bonus u)
            (save_user db user_id (record u { xp = u.xp + bonus }) w),
      )
  pay_bonus_eq user_id bonus w {u} found =
      ground (arith, find-save_self db.user user_id (record u { xp = u.xp + bonus }) w.users)

  unlock_tx-Pays :
      (user_id : ℕ) (a : Achievement) (now : ℕ) (w : World db) {u : User}
      → db.user.find user_id w.users ≡ some u
      → u.level ≡ level_from_xp u.xp
      → Pays user_id a now u w (unlock_tx db user_id a now w)
  unfolding unlock_tx Pays
  unlock_tx-Pays user_id a now w {u} found agree = elim (Bool-cases (ltb 0 a.xp_bonus)) [
    | inl bonus ↦
        let w₁ = save_user_achievement db user_id a.id (unlocked_row a now) w in
        rw (bonus, pay_bonus_eq user_id a.xp_bonus w₁ found)
          (refl, refl, find-save_self db.user user_id (with_bonus db a.xp_bonus u) _)
    | inr free ↦
        let nothing_added : u.xp + a.xp_bonus ≡ u.xp = ground (arith, free) in
        rw free (refl, refl, rw (nothing_added, sym agree) found)
  ]

  announce-ok :
      (user_id : ℕ) (a : Achievement) (level : ℕ) (w : World db)
      → (announce_unlock db user_id a level w).0 ≡ ok tt
  unfolding announce_unlock
  announce-ok user_id a level w = grind arith

  unlock-Pays :
      (user_id : ℕ) (a : Achievement) (now : ℕ) (w : World db) {u : User}
      → db.user.find user_id w.users ≡ some u
      → u.level ≡ level_from_xp u.xp
      → Pays user_id a now u w (unlock db tx user_id a now w)
  unfolding unlock Pays
  unlock-Pays user_id a now w {u} found agree =
      subst (Pays user_id a now u w)
        (sym (
          bind_same (λ _. announce_unlock db user_id a level) w
            (tx.transaction (Unit {0}) (unlock_tx db user_id a now))
            (λ _. settle w (unlock_tx db user_id a now w))
            (tx.transaction_lem (Unit {0}) (unlock_tx db user_id a now) w)))
        (go (unlock_tx db user_id a now w) (unlock_tx-Pays user_id a now w found agree))
    where
      level : ℕ
      level = level_or db 1 (db.user.find user_id w.users)

      go :
          (run : Result (Unit {0}) × World db)
          → Pays user_id a now u w run
          → Pays user_id a now u w
              (((λ _. settle w run) >>= λ _. announce_unlock db user_id a level) w)
      go (err e, v) pays = absurd (ground (arith, pays.0))
      go (ok x, v) (done, rows, users) =
          let (same_users, same_rows) = announce_rows db user_id a level v in
          (
            announce-ok user_id a level v,
            same_rows ∙ rows,
            ap (λ (s : db.user.State). db.user.find user_id s) same_users ∙ users,
          )

  evaluate_one_unlocks :
      (user_id : ℕ) (a : Achievement) (now : ℕ) (w : World db)
      → is_unlocked (db.user_achievement.find (user_id, a.id) w.user_achievements) ≡ false
      → (evaluate_with_progress db a user_id w).earned ≡ true
      → evaluate_one db tx a user_id now w ≡ unlock db tx user_id a now w
  unfolding evaluate_open
  evaluate_one_unlocks user_id a now w closed earned =
      evaluate_one_open db tx user_id a now w closed
      ∙ elim (Option-cases (db.user_achievement.find (user_id, a.id) w.user_achievements)) [
        | inl fresh ↦ rw (fresh, earned) refl
        | inr (row, there) ↦ rw (there, earned) refl
      ]

  -- An achievement that is earned and not yet unlocked pays its bonus: the row is unlocked at
  -- `now`, the user's XP grow by exactly the bonus and the level follows; evaluated again, at any
  -- later time, it does nothing.
  pub evaluate_one_pays :
      (a : Achievement) (user_id now later : ℕ) (w : World db) {u : User}
      → db.user.find user_id w.users ≡ some u
      → u.level ≡ level_from_xp u.xp
      → is_unlocked (db.user_achievement.find (user_id, a.id) w.user_achievements) ≡ false
      → (evaluate_with_progress db a user_id w).earned ≡ true
      → let (r, w') = evaluate_one db tx a user_id now w in
        (r ≡ ok tt)
        × (db.user_achievement.find (user_id, a.id) w'.user_achievements
            ≡ some (unlocked_row a now))
        × (db.user.find user_id w'.users
            ≡ some (record u { xp = u.xp + a.xp_bonus; level = level_from_xp (u.xp + a.xp_bonus) }))
        × (evaluate_one db tx a user_id later w' ≡ (ok tt, w'))
  unfolding Pays
  evaluate_one_pays a user_id now later w {u} found agree closed earned =
      let opened = evaluate_one_unlocks user_id a now w closed earned in
      let (done, rows, users) = unlock-Pays user_id a now w found agree in
      let stored =
        find-save_self db.user_achievement (user_id, a.id) (unlocked_row a now)
          w.user_achievements in
      rw opened (
        done,
        rw rows stored,
        users,
        evaluate_one_unlocked db tx user_id a later (unlock db tx user_id a now w).1
            (rw (rows, stored) refl),
      )
