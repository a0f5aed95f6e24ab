-- ===== src/Stats/Cache.antt =====
-- The cache of the public figures: `getPublicStats` of src/modules/stats/stats.service.ts. The
-- service is one object, so its cache is part of the state that requests share.
use sidequest_demo_be.Common.{ℕ, ◌+◌, Option, none, some, ltb, if◌then◌else◌}
use sidequest_demo_be.Common.Sorting.{Order}
use sidequest_demo_be.Common.Text.{Text}
use sidequest_demo_be.Geo.{Float}
use sidequest_demo_be.Gamification.{Ratio}
use sidequest_demo_be.Links.{TextMethods, SqlText}
use sidequest_demo_be.Effects.{Action, Result, ok, err}
use sidequest_demo_be.World.{Database, World}
use sidequest_demo_be.Stats.{PublicStatsDto, compute_stats}

-- `CACHE_TTL_MS`
abbrev pub cache_ttl_ms : ℕ
cache_ttl_ms = 300000

pub record CacheEntry (F : Type 0) : Type 0 where
  pub expires_at : ℕ
  pub payload : PublicStatsDto F

-- `this.cache && now < this.cache.expiresAt`
abbrev pub unexpired : {F : Type 0} → Option (CacheEntry F) → ℕ → Option (PublicStatsDto F)
unexpired none now = none
unexpired (some entry) now = if ltb now entry.expires_at then some entry.payload else none

pub record Server {F : Type 0} (db : Database F) : Type 0 where
  pub world : World db
  pub cache : Option (CacheEntry F)

module _ (fl : Float) (db : Database fl.F) (methods : TextMethods) (sql : SqlText)
    (collation : Order Text) (averages : Order Ratio) where
  -- `this.cache = { expiresAt: now + CACHE_TTL_MS, payload }`, where the figures could be read
  abbrev pub refill :
      ℕ → Server db → Result (PublicStatsDto fl.F) → Result (PublicStatsDto fl.F) × Server db
  refill now s (err e) = (err e, s)
  refill now s (ok payload) = (
    ok payload,
    record s { cache = some (record { expires_at = now + cache_ttl_ms; payload = payload }) },
  )

  abbrev pub answer :
      ℕ → Server db → Option (PublicStatsDto fl.F) → Result (PublicStatsDto fl.F) × Server db
  answer now s (some payload) = (ok payload, s)
  answer now s none = refill now s (compute_stats fl db methods sql collation averages s.world).0

  unfoldable pub get_public_stats : ℕ → Action (Server db) (PublicStatsDto fl.F)
  get_public_stats now s = answer now s (unexpired s.cache now)
