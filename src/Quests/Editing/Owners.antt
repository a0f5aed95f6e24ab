-- ===== src/Quests/Editing/Owners.antt =====
-- Who can change a quest, what stays of it, and that slugs stay unique:
-- src/modules/quests/quests.service.ts.
use text.Mathlib.TextEquality.{eq_iff}
use sidequest_demo_be.Common.{
  ℕ, ◌≡◌, ◌≢◌, refl, true, none, some, arith, ◌==◌, if◌then◌else◌, inl, inr, ◌⊎◌,
}
use sidequest_demo_be.Geo.{Float}
use sidequest_demo_be.Access.Roles.{AppRole}
use sidequest_demo_be.Effects.{ok, err, forbidden}
use sidequest_demo_be.Store.{find-remove_self}
use sidequest_demo_be.Model.{Quest, published}
use sidequest_demo_be.World.{Database, World}
use sidequest_demo_be.Quests.Editing.{
  Actor, CreateQuestDto, UpdateQuestDto, can_mutate, created_quest, updated_quest, slug_is,
  of_quest, without_quest, create, update, delete,
}

module _ (fl : Float) (db : Database fl.F) where
  -- A user who is neither an administrator or moderator nor the quest's author can neither change
  -- nor delete it: both answer 403 and write nothing.
  pub update-delete-forbidden :
      (actor : Actor) (quest_id : ℕ) (dto : UpdateQuestDto) (now : ℕ) (w : World db)
      {q : Quest fl.F}
      → db.quest.find quest_id w.quests ≡ some q
      → actor.role ≢ AppRole.admin
      → actor.role ≢ AppRole.moderator
      → q.author_id ≢ some actor.id
      → (update fl db actor quest_id dto now w
          ≡ (err (forbidden "Not allowed to mutate this quest"), w))
        × (delete fl db actor quest_id w ≡ (err (forbidden "Not allowed to mutate this quest"), w))
  unfolding update delete
  update-delete-forbidden actor quest_id dto now w found admin moderator author =
      (ground arith, ground arith)

  delete_eq :
      (actor : Actor) (quest_id : ℕ) (w : World db) {q : Quest fl.F}
      → db.quest.find quest_id w.quests ≡ some q
      → can_mutate actor q.author_id ≡ true
      → delete fl db actor quest_id w ≡ (ok tt, without_quest fl db quest_id w)
  unfolding delete
  delete_eq actor quest_id w found allowed = ground arith

  -- Deleting a quest takes its completions and ratings along and leaves those of other quests.
  pub delete_cascades :
      (actor : Actor) (quest_id : ℕ) (w : World db) {q : Quest fl.F}
      → db.quest.find quest_id w.quests ≡ some q
      → can_mutate actor q.author_id ≡ true
      → let (r, w') = delete fl db actor quest_id w in
        (r ≡ ok tt)
        × (db.quest.find quest_id w'.quests ≡ none)
        × ((user_id other : ℕ)
            → (db.quest_completion.find (user_id, other) w'.completions ≡ (
                if other == quest_id
                then none
                else db.quest_completion.find (user_id, other) w.completions)))
        × ((user_id other : ℕ)
            → (db.quest_rating.find (user_id, other) w'.ratings ≡ (
                if other == quest_id
                then none
                else db.quest_rating.find (user_id, other) w.ratings)))
  delete_cascades actor quest_id w found allowed = rw (delete_eq actor quest_id w found allowed) (
    refl,
    find-remove_self db.quest quest_id w.quests,
    λ user_id other. ground (
      arith,
      db.quest_completion.find-delete_many (user_id, other) (of_quest fl db quest_id) w.completions,
    ),
    λ user_id other. ground (
      arith,
      db.quest_rating.find-delete_many (user_id, other) (of_quest fl db quest_id) w.ratings,
    ),
  )

  update_row :
      (actor : Actor) (quest_id : ℕ) (dto : UpdateQuestDto) (now : ℕ) (w : World db)
      {q q' : Quest fl.F}
      → db.quest.find quest_id w.quests ≡ some q
      → (update fl db actor quest_id dto now w).0 ≡ ok q'
      → q' ≡ updated_quest dto now q
  unfolding update
  update_row actor quest_id dto now w found done = grind arith

  -- Publishing stamps the first time only: whatever is changed later, a quest that was published
  -- once keeps that time, and one that was not gets `now` exactly when the change publishes it.
  pub update_published_at :
      (actor : Actor) (quest_id : ℕ) (dto : UpdateQuestDto) (now : ℕ) (w : World db)
      {q q' : Quest fl.F}
      → db.quest.find quest_id w.quests ≡ some q
      → (update fl db actor quest_id dto now w).0 ≡ ok q'
      → ((at : ℕ) → q.published_at ≡ some at → q'.published_at ≡ some at)
        × (q.published_at ≡ none → dto.status ≡ some published → q'.published_at ≡ some now)
        × (q.published_at ≡ none → dto.status ≢ some published → q'.published_at ≡ none)
        × (q'.slug ≡ q.slug)
        × (q'.author_id ≡ q.author_id)
  update_published_at actor quest_id dto now w {q} {q'} found done =
      let e = update_row actor quest_id dto now w found done in
      rw e (λ at h. ground arith, λ h k. rw (h, k), λ h k. ground arith, refl, refl)

  -- No two quests have the same slug.
  abbrev pub SlugsUnique : db.quest.State → Type 0
  SlugsUnique quests =
      (i j : ℕ) (p q : Quest fl.F)
      → db.quest.find i quests ≡ some p
      → db.quest.find j quests ≡ some q
      → p.slug ≡ q.slug
      → i ≡ j

  save-SlugsUnique :
      (id : ℕ) (new : Quest fl.F) (quests : db.quest.State)
      → db.quest.find id quests ≡ none
      → ((k : ℕ) (q : Quest fl.F) → db.quest.find k quests ≡ some q → q.slug ≢ new.slug)
      → SlugsUnique quests
      → SlugsUnique (db.quest.save id new quests)
  save-SlugsUnique id new quests fresh apart unique i j p q fi fj same = ground (
    arith,
    db.quest.find-save i id new quests,
    db.quest.find-save j id new quests,
    apart i p,
    apart j q,
    unique i j p q,
  )

  others :
      (dto : CreateQuestDto fl.F) (w : World db)
      → db.quest.find_first (slug_is fl db dto.slug) w.quests ≡ none
      → (k : ℕ) (q : Quest fl.F) → db.quest.find k w.quests ≡ some q
      → q.slug ≢ dto.slug
  others dto w free k q found same =
      let no = db.quest.find_first_complete (slug_is fl db dto.slug) w.quests k q free found in
      cc (no, (eq_iff q.slug dto.slug).1 same)

  create_cases :
      (new_id : ℕ) (ids : ℕ → ℕ) (author_id : ℕ) (dto : CreateQuestDto fl.F) (now : ℕ)
      (w : World db)
      → let after = (create fl db new_id ids author_id dto now w).1.quests in
        (after ≡ w.quests)
        ⊎ ((db.quest.find_first (slug_is fl db dto.slug) w.quests ≡ none)
            × (after ≡ db.quest.save new_id (created_quest author_id ids dto now) w.quests))
  unfolding create
  create_cases new_id ids author_id dto now w = grind arith

  -- Creating a quest, under an identifier that is not in use, keeps slugs unique, on success and on
  -- every error.
  pub create-SlugsUnique :
      (new_id : ℕ) (ids : ℕ → ℕ) (author_id : ℕ) (dto : CreateQuestDto fl.F) (now : ℕ)
      (w : World db)
      → db.quest.find new_id w.quests ≡ none
      → SlugsUnique w.quests
      → SlugsUnique (create fl db new_id ids author_id dto now w).1.quests
  create-SlugsUnique new_id ids author_id dto now w fresh unique =
      elim (create_cases new_id ids author_id dto now w) [
        | inl e ↦ rw e unique
        | inr (free, e) ↦ rw e (save-SlugsUnique new_id _ w.quests fresh (others dto w free) unique)
      ]
