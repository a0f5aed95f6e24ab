-- ===== src/Gamification/Levels.antt =====
-- The level function and the XP thresholds of src/common/gamification/xp.ts are inverse.
use native.Mathlib.Decide.{dec_le}
use sidequest_demo_be.Common.{
  ℕ, zero, suc, ◌+◌, ◌-◌, ◌*◌, ◌/◌, ◌≤◌, ◌<◌, ◌≡◌, ◌↔◌, inl, inr, true, arith, leb, Bool-cases,
  leb→le, ltb→lt, ltb, refl, ap, max,
}
use sidequest_demo_be.Gamification.{
  min_level, climb, floor_sqrt, xp_for_level, level_from_xp, progress_from_xp, level_up_result,
}

-- Squares grow with their side.
square_mono : (a b : ℕ) → a ≤ b → a * a ≤ b * b
square_mono a b h = grind arith

square_step : (k : ℕ) → (k + 1) * (k + 1) ≡ k * k + 2 * k + 1
square_step k = omega arith

climb_bounds :
    (fuel k q : ℕ)
    → k * k ≤ q
    → q < k + fuel + 1
    → (climb fuel k q * climb fuel k q ≤ q) × (q < (climb fuel k q + 1) * (climb fuel k q + 1))
unfolding climb
climb_bounds zero k q low high = (low, omega (arith, square_step k))
climb_bounds (suc fuel) k q low high = elim (Bool-cases (leb ((k + 1) * (k + 1)) q)) [
  | inl fits ↦ rw fits (climb_bounds fuel (k + 1) q (leb→le _ _ fits) (omega arith))
  | inr past ↦ rw past (low, ground arith)
]

-- `floor_sqrt q` is the side of the greatest square that is at most `q`.
pub floor_sqrt_bounds :
    (q : ℕ) → (floor_sqrt q * floor_sqrt q ≤ q) × (q < (floor_sqrt q + 1) * (floor_sqrt q + 1))
unfolding floor_sqrt
floor_sqrt_bounds q = climb_bounds q 0 q (omega arith) (omega arith)

le-floor_sqrt : (m q : ℕ) → m * m ≤ q → m ≤ floor_sqrt q
le-floor_sqrt m q h = elim (dec_le m (floor_sqrt q)) [
  | yes p ↦ p
  | no p ↦
      absurd (omega (arith, floor_sqrt_bounds q, square_mono (floor_sqrt q + 1) m (omega arith)))
]

square-le : (m q : ℕ) → m ≤ floor_sqrt q → m * m ≤ q
square-le m q h = omega (arith, floor_sqrt_bounds q, square_mono m (floor_sqrt q) h)

-- The guard for `xp <= 0` gives what the formula gives there.
level_from_xp_lem : (xp : ℕ) → level_from_xp xp ≡ floor_sqrt (xp / 100) + 1
unfolding level_from_xp
level_from_xp_lem zero = unfold floor_sqrt climb in refl
level_from_xp_lem (suc xp) = ground arith

xp_for_level-suc : (m : ℕ) → xp_for_level (suc m) ≡ 100 * (m * m)
unfolding xp_for_level
xp_for_level-suc m =
    let e : max min_level (suc m) - 1 ≡ m = omega arith in ap (λ (n : ℕ). 100 * (n * n)) e

-- `xpForLevel(L)` is the least XP of level `L`: a user has reached level `L` (from 1 on) exactly
-- when the XP are at least `xpForLevel(L)`.
pub level_from_xp_iff :
    (level xp : ℕ) → 1 ≤ level → (level ≤ level_from_xp xp) ↔ (xp_for_level level ≤ xp)
level_from_xp_iff zero xp h = absurd (omega arith)
level_from_xp_iff (suc m) xp h =
    rw (level_from_xp_lem xp, xp_for_level-suc m)
      (
        λ reached. omega (arith, square-le m (xp / 100) (omega arith)),
        λ enough. omega (arith, le-floor_sqrt m (xp / 100) (omega arith)),
      )

pub level_from_xp_pos : (xp : ℕ) → 1 ≤ level_from_xp xp
level_from_xp_pos xp = rw (level_from_xp_lem xp) (omega arith)

-- The threshold of a level lies in that level: `levelFromXp(xpForLevel(L))` is `L` from 1 on.
pub level_from_xp-xp_for_level :
    (level : ℕ) → 1 ≤ level → level_from_xp (xp_for_level level) ≡ level
level_from_xp-xp_for_level zero h = absurd (omega arith)
level_from_xp-xp_for_level (suc m) h =
    omega (arith, (level_from_xp_iff (suc m) (xp_for_level (suc m)) h).1 (omega arith), above_lem)
  where
    above : ¬ (suc (suc m) ≤ level_from_xp (xp_for_level (suc m)))
    above g =
        let t = (level_from_xp_iff (suc (suc m)) (xp_for_level (suc m)) (omega arith)).0 g in
        omega (arith, t, xp_for_level-suc m, xp_for_level-suc (suc m), square_step m)

    above_lem : level_from_xp (xp_for_level (suc m)) ≤ suc m
    above_lem = elim (dec_le (level_from_xp (xp_for_level (suc m))) (suc m)) [
      | yes p ↦ p
      | no p ↦ absurd (above (omega arith))
    ]

-- More XP never mean a lower level.
pub level_from_xp_mono : (a b : ℕ) → a ≤ b → level_from_xp a ≤ level_from_xp b
level_from_xp_mono a b h =
    let own = (level_from_xp_iff (level_from_xp a) a (level_from_xp_pos a)).0 (omega arith) in
    (level_from_xp_iff (level_from_xp a) b (level_from_xp_pos a)).1 (omega arith)

-- Each XP total lies from the threshold of its level up to, and not at, that of the next.
pub level_from_xp_bracket :
    (xp : ℕ) → (xp_for_level (level_from_xp xp) ≤ xp) × (xp < xp_for_level (level_from_xp xp + 1))
level_from_xp_bracket xp =
    let level = level_from_xp xp in
    let reach = level_from_xp_iff (level + 1) xp (omega arith) in
    (
      (level_from_xp_iff level xp (level_from_xp_pos xp)).0 (omega arith),
      elim (dec_le (xp_for_level (level + 1)) xp) [
        | yes p ↦ absurd (omega (arith, reach.1 p))
        | no p ↦ omega arith
      ],
    )

-- What `progressFromXp` reports adds up: the XP are the threshold of the level plus the part
-- inside it, that part and the part to the next level fill the span between the two thresholds,
-- something is always left to the next level, and the progress ratio is the part over the span,
-- below 1.
pub progress_from_xp_lem :
    (xp : ℕ)
    → let p = progress_from_xp xp in
      (p.xp_for_current_level + p.xp_into_level ≡ xp)
      × (p.xp_for_current_level + p.xp_into_level + p.xp_to_next_level ≡ p.xp_for_next_level)
      × (0 < p.xp_to_next_level)
      × (p.progress_ratio.num ≡ p.xp_into_level)
      × (p.progress_ratio.den ≡ p.xp_for_next_level - p.xp_for_current_level)
      × (p.progress_ratio.num < p.progress_ratio.den)
unfolding progress_from_xp
progress_from_xp_lem xp = ground (arith, level_from_xp_bracket xp)

-- `levelUpResult` reports a level-up exactly when the gain carries the XP over the threshold of
-- some level, and its levels are those before and after the gain.
pub level_up_result_iff :
    (xp delta : ℕ)
    → let r = level_up_result xp delta in
      ((r.leveled_up ≡ true) ↔ (
        (level : ℕ) × (1 ≤ level) × (xp < xp_for_level level) × (xp_for_level level ≤ xp + delta)))
      × (r.previous_level ≡ level_from_xp xp)
      × (r.new_level ≡ level_from_xp (xp + delta))
unfolding level_up_result
level_up_result_iff xp delta = ((crossed, reported), refl, refl)
  where
    crossed :
        ltb (level_from_xp xp) (level_from_xp (xp + delta)) ≡ true
        → (level : ℕ) × (1 ≤ level) × (xp < xp_for_level level) × (xp_for_level level ≤ xp + delta)
    crossed h = (
      level_from_xp xp + 1,
      omega arith,
      (level_from_xp_bracket xp).1,
      (level_from_xp_iff (level_from_xp xp + 1) (xp + delta) (omega arith)).0
          (omega (arith, ltb→lt _ _ h)),
    )

    reported :
        ((level : ℕ) × (1 ≤ level) × (xp < xp_for_level level) × (xp_for_level level ≤ xp + delta))
        → ltb (level_from_xp xp) (level_from_xp (xp + delta)) ≡ true
    reported (level, p, below, over) =
        let after = (level_from_xp_iff level (xp + delta) p).1 over in
        let before = (level_from_xp_iff level xp p).0 in
        elim (dec_le level (level_from_xp xp)) [
          | yes q ↦ absurd (omega (arith, before q))
          | no q ↦ ground arith
        ]
