-- ===== src/Access/LastSeen.antt =====
-- The presence ping of an authenticated request: src/common/interceptors/last-seen-at.interceptor.ts.
use sidequest_demo_be.Common.{ℕ, ◌+◌, Bool, true, ◌&&◌, none, some, ltb, ◌==◌}
use sidequest_demo_be.Effects.{Action, modify}
use sidequest_demo_be.Model.{User}
use sidequest_demo_be.World.{Database, World}

-- the `WHERE`: no ping yet, or the last one more than 60 seconds ago
abbrev pub is_due : ℕ → ℕ → ℕ → User → Bool
is_due user_id now id u =
    id == user_id && elim u.last_seen_at [ none ↦ true | some at ↦ ltb (at + 60000) now ]

abbrev pub seen_at : ℕ → User → User
seen_at now u = record u { last_seen_at = some now }

unfoldable pub touch_last_seen :
    {F : Type 0} (db : Database F) → ℕ → ℕ → Action (World db) (Unit {0})
touch_last_seen db user_id now =
    modify
      (λ w. record w { users = db.user.update_many (is_due user_id now) (seen_at now) w.users })
