-- ===== src/Filters/Answers.antt =====
-- What clients see where a request fails: the services behind the filter of
-- src/common/filters/global-exception.filter.ts.
use sidequest_demo_be.Common.{ℕ, ◌≡◌, ◌⊎◌, Option, arith, Option-cases, Bool-cases, inl, inr}
use sidequest_demo_be.Geo.{Float}
use sidequest_demo_be.Effects.{Exception, err, Transactions}
use sidequest_demo_be.Model.{Quest, Proof}
use sidequest_demo_be.World.{Database, World}
use sidequest_demo_be.Quests.Completion.{
  Finalized, not_open, finalize_quest_completion_tx, complete,
}
use sidequest_demo_be.Filters.{from_http_exception, from_prisma_known, map_exception}

module _ (fl : Float) (db : Database fl.F) (tx : Transactions (World db)) where
  finalize_fails :
      (user_id quest_id : ℕ) (q : Quest fl.F) (given : Option Proof) (now : ℕ) (w : World db)
      (e : Exception)
      → (finalize_quest_completion_tx fl db user_id quest_id q given now w).0 ≡ err e
      → ((map_exception e).status ≡ 400) ⊎ ((map_exception e).status ≡ 404)
  unfolding finalize_quest_completion_tx map_exception from_http_exception from_prisma_known
  finalize_fails user_id quest_id q given now w e h = grind arith

  -- A completion that fails by its own checks or for a missing row, with a transaction that does not
  -- fail by itself, is answered by 400 or 404.
  complete_status :
      (user_id quest_id : ℕ) (given : Option Proof) (now : ℕ) (w : World db) (e : Exception)
      → (complete fl db tx user_id quest_id given now w).0 ≡ err e
      → ((map_exception e).status ≡ 400) ⊎ ((map_exception e).status ≡ 404)
  unfolding complete map_exception from_http_exception
  complete_status user_id quest_id given now w e h =
      elim (Option-cases (db.quest.find quest_id w.quests)) [
        | inl missing ↦ ground arith
        | inr (q, found) ↦
            elim (Bool-cases
              (not_open (db.quest_completion.find (user_id, quest_id) w.completions))) [
                | inl closed ↦ ground arith
                | inr open_row ↦ ground (
                  arith,
                  tx.transaction_lem Finalized
                      (finalize_quest_completion_tx fl db user_id quest_id q given now) w,
                  finalize_fails user_id quest_id q given now w e,
                )
              ]
      ]
