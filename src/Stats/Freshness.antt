-- ===== src/Stats/Freshness.antt =====
-- What the cache of the public figures promises: src/modules/stats/stats.service.ts. Abstractly the
-- service may answer with the figures of any state that the database had at a request of the last
-- five minutes.
use sidequest_demo_be.Common.{
  ℕ, ◌+◌, ◌≤◌, ◌<◌, ◌≡◌, refl, ap, Bool, true, Option, none, some, List, [], ◌∷◌, arith, All, Any,
  Any-All, Option-cases, inl, inr,
}
use sidequest_demo_be.Common.Sorting.{Order}
use sidequest_demo_be.Common.Text.{Text}
use sidequest_demo_be.Geo.{Float}
use sidequest_demo_be.Gamification.{Ratio}
use sidequest_demo_be.Links.{TextMethods, SqlText}
use sidequest_demo_be.Effects.{Action, Result, ok, err, gets, bind_same}
use sidequest_demo_be.Model.{Quest, is_published}
use sidequest_demo_be.World.{Database, World}
use sidequest_demo_be.Quests.Dto.{QuestDto}
use sidequest_demo_be.Quests.Reading.{get_by_id, to_dto}
use sidequest_demo_be.Stats.{
  PublicStatsDto, first_id, or_id, is_featured, is_rated, latest_featured, best_rated, latest,
  featured_id, featured_dto, resolve_featured_quest_dto, stats_with, compute_stats,
}
use sidequest_demo_be.Stats.Cache.{
  CacheEntry, Server, cache_ttl_ms, unexpired, refill, answer, get_public_stats,
}

module _ (fl : Float) (db : Database fl.F) (methods : TextMethods) (sql : SqlText)
    (collation : Order Text) (averages : Order Ratio) where
  abbrev compute : World db → Result (PublicStatsDto fl.F) × World db
  compute = compute_stats fl db methods sql collation averages

  first_found :
      (p : ℕ → Quest fl.F → Bool) (w : World db) (id : ℕ) (xs : List (ℕ × Quest fl.F))
      → All (λ e. (p e.0 e.1 ≡ true) × (db.quest.find e.0 w.quests ≡ some e.1)) xs
      → first_id xs ≡ some id
      → (q : Quest fl.F) × (db.quest.find id w.quests ≡ some q)
  first_found p w id [] h e = absurd (ground arith)
  first_found p w id ((i, q) ∷ xs) ((meets, found), h) e = (q, ground arith)

  abbrev first_in : (ℕ → Quest fl.F → Bool) → Order (ℕ × Quest fl.F) → World db → Option ℕ
  first_in p order w = first_id (db.quest.find_many p order w.quests)

  -- An identifier that is taken from a query, or else from a later one, is that of a quest.
  or_found :
      (p : ℕ → Quest fl.F → Bool) (order : Order (ℕ × Quest fl.F)) (w : World db) (id : ℕ)
      (next : Option ℕ)
      → (next ≡ some id → (q : Quest fl.F) × (db.quest.find id w.quests ≡ some q))
      → or_id fl db methods sql collation averages (first_in p order w) next ≡ some id
      → (q : Quest fl.F) × (db.quest.find id w.quests ≡ some q)
  or_found p order w id next later h = elim (Option-cases (first_in p order w)) [
    | inl e ↦ later (ground arith)
    | inr (i, e) ↦
        first_found p w id (db.quest.find_many p order w.quests)
          (db.quest.find_many_sound p order w.quests) (ground arith)
  ]

  featured_found :
      (w : World db) (id : ℕ)
      → featured_id fl db methods sql collation averages w ≡ some id
      → (q : Quest fl.F) × (db.quest.find id w.quests ≡ some q)
  unfolding featured_id
  featured_found w id =
      or_found (is_featured fl db methods sql collation averages)
        (latest_featured fl db methods sql collation averages) w id _
        (or_found (is_rated fl db methods sql collation averages)
          (best_rated fl db methods sql collation averages) w id _
          (first_found (λ i q. is_published q.status) w id _
            (db.quest.find_many_sound (λ i q. is_published q.status)
              (latest fl db methods sql collation averages) w.quests)))

  featured_ok :
      (id : ℕ) (q : Quest fl.F) (w : World db)
      → db.quest.find id w.quests ≡ some q
      → featured_dto fl db methods sql collation averages (some id) w
        ≡ (ok (some (to_dto fl db w none none id q)), w)
  unfolding get_by_id
  featured_ok id q w found = ground arith

  resolve_ok :
      (w : World db)
      → (o : Option (QuestDto fl.F)) × (resolve_featured_quest_dto fl db methods sql collation
            averages w
          ≡ (ok o, w))
  unfolding resolve_featured_quest_dto
  resolve_ok w = elim (Option-cases (featured_id fl db methods sql collation averages w)) [
    | inl e ↦ (none, ground arith)
    | inr (id, e) ↦
        let (q, found) = featured_found w id e in
        (some (to_dto fl db w none none id q), rw e (featured_ok id q w found))
  ]

  compute_ok : (w : World db) → (p : PublicStatsDto fl.F) × (compute w ≡ (ok p, w))
  unfolding compute_stats
  compute_ok w =
      let (o, e) = resolve_ok w in
      let show : Option (QuestDto fl.F) → Action (World db) (PublicStatsDto fl.F) =
        λ featured. gets (stats_with fl db methods sql collation averages featured) in
      (
        stats_with fl db methods sql collation averages o w,
        bind_same show w (resolve_featured_quest_dto fl db methods sql collation averages)
            (λ _. (ok o, w)) e,
      )

  -- The requests so far, the last one first: their times, and what the database held then.
  abbrev pub Past : Type 0
  Past = List (ℕ × World db)

  -- The service at work: the answers to requests, one after another, from a cache on.
  unfoldable pub serve : Option (CacheEntry fl.F) → Past → List (Result (PublicStatsDto fl.F))
  serve cache [] = []
  serve cache ((now, w) ∷ later) =
      let (r, s) =
        get_public_stats fl db methods sql collation averages now
          (record { world = w; cache = cache }) in
      r ∷ serve s.cache later

  -- The figures of a state that the database had at a request of the last five minutes.
  abbrev pub IsRecent : Past → ℕ → Result (PublicStatsDto fl.F) → Type 0
  IsRecent past now r =
      Any (λ (at, w). (at ≤ now) × (now < at + cache_ttl_ms) × ((compute w).0 ≡ r)) past

  -- The abstract service: each answer is recent, the figures of the request itself among them, and
  -- none is an error.
  abbrev pub AllRecent : Past → Past → List (Result (PublicStatsDto fl.F)) → Type 0
  AllRecent past [] [] = Unit
  AllRecent past ((now, w) ∷ later) (r ∷ answers) =
      ((p : PublicStatsDto fl.F) × (r ≡ ok p))
      × IsRecent ((now, w) ∷ past) now r
      × AllRecent ((now, w) ∷ past) later answers
  AllRecent past _ _ = ⊥

  -- Requests come in the order of their times.
  abbrev pub InOrder : Past → Past → Type 0
  InOrder past [] = Unit
  InOrder past ((now, w) ∷ later) = All (λ e. e.0 ≤ now) past × InOrder ((now, w) ∷ past) later

  abbrev CacheValid : Past → Option (CacheEntry fl.F) → Type 0
  CacheValid past none = Unit
  CacheValid past (some entry) =
      Any (λ (at, w). (entry.expires_at ≡ at + cache_ttl_ms) × ((compute w).0 ≡ ok entry.payload))
        past

  -- What a request must leave behind.
  abbrev Step : Past → ℕ → World db → Result (PublicStatsDto fl.F) × Server db → Type 0
  Step past now w (r, s) =
      ((p : PublicStatsDto fl.F) × (r ≡ ok p))
      × IsRecent ((now, w) ∷ past) now r
      × CacheValid ((now, w) ∷ past) s.cache

  refilled :
      (past : Past) (now : ℕ) (s : Server db) (r : Result (PublicStatsDto fl.F))
      → (compute s.world).0 ≡ r
      → ((p : PublicStatsDto fl.F) × (r ≡ ok p))
      → Step past now s.world (refill fl db methods sql collation averages now s r)
  refilled past now s (err e) h (p, same) = absurd (ground arith)
  refilled past now s (ok p) h k = ((p, refl), inl (omega arith, omega arith, h), inl (refl, h))

  still_valid :
      (past : Past) (now : ℕ) (entry : CacheEntry fl.F)
      → CacheValid past (some entry)
      → All (λ e. e.0 ≤ now) past
      → now < entry.expires_at
      → IsRecent past now (ok entry.payload)
  still_valid past now entry valid before soon =
      Any-All (λ (e : ℕ × World db). e.0 ≤ now)
        (λ e. (entry.expires_at ≡ e.0 + cache_ttl_ms) × ((compute e.1).0 ≡ ok entry.payload))
        (λ e. (e.0 ≤ now) × (now < e.0 + cache_ttl_ms) × ((compute e.1).0 ≡ ok entry.payload)) past
        (λ e earlier (expires, same). (earlier, omega arith, same)) before valid

  answer-Step :
      (past : Past) (now : ℕ) (s : Server db) (kept : Option (PublicStatsDto fl.F))
      → CacheValid past s.cache
      → ((p : PublicStatsDto fl.F) → kept ≡ some p → IsRecent past now (ok p))
      → Step past now s.world (answer fl db methods sql collation averages now s kept)
  answer-Step past now s none valid recent =
      let (p, e) = compute_ok s.world in
      refilled past now s (compute s.world).0 refl
        (p, ap (λ (r : Result (PublicStatsDto fl.F) × World db). r.0) e)
  answer-Step past now s (some payload) valid recent =
      ((payload, refl), inr (recent payload refl), CacheValid_later s.cache valid)
    where
      CacheValid_later :
          (c : Option (CacheEntry fl.F)) → CacheValid past c → CacheValid ((now, s.world) ∷ past) c
      CacheValid_later none h = tt
      CacheValid_later (some entry) h = inr h

  unexpired-IsRecent :
      (past : Past) (now : ℕ) (cache : Option (CacheEntry fl.F))
      → CacheValid past cache
      → All (λ e. e.0 ≤ now) past
      → (p : PublicStatsDto fl.F) → unexpired cache now ≡ some p
      → IsRecent past now (ok p)
  unexpired-IsRecent past now none valid before p h = absurd (ground arith)
  unexpired-IsRecent past now (some entry) valid before p h =
      let soon : now < entry.expires_at = ground arith in
      let same : entry.payload ≡ p = ground arith in
      rw⁻¹ same (still_valid past now entry valid before soon)

  get_public_stats-Step :
      (past : Past) (now : ℕ) (w : World db) (cache : Option (CacheEntry fl.F))
      → CacheValid past cache
      → All (λ e. e.0 ≤ now) past
      → Step past now w (
          get_public_stats fl db methods sql collation averages now
            (record { world = w; cache = cache }))
  unfolding get_public_stats
  get_public_stats-Step past now w cache valid before =
      answer-Step past now (record { world = w; cache = cache }) (unexpired cache now) valid
        (unexpired-IsRecent past now cache valid before)

  serve-AllRecent :
      (past later : Past) (cache : Option (CacheEntry fl.F))
      → CacheValid past cache
      → InOrder past later
      → AllRecent past later (serve cache later)
  unfolding serve
  serve-AllRecent past [] cache valid order = tt
  serve-AllRecent past ((now, w) ∷ later) cache valid (before, order) =
      let (answered, recent, kept) = get_public_stats-Step past now w cache valid before in
      (answered, recent, serve-AllRecent ((now, w) ∷ past) later _ kept order)

  -- The cached service refines one that may answer from any state of the last five minutes:
  -- however the database changes between requests that come in order, no request fails, and each
  -- answer is the figures of a state that some request of the last five minutes met.
  pub serve_refines :
      (requests : Past) → InOrder [] requests → AllRecent [] requests (serve none requests)
  serve_refines requests order = serve-AllRecent [] requests none tt order
