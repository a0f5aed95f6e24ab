-- ===== src/Geo.antt =====
-- The distances of src/modules/geo/geo.service.ts, over the floating-point numbers of the platform.
use sidequest_demo_be.Common.{ℕ, Bool}

-- The arithmetic of doubles and `Math` is the platform's; `le` and `lt` are `<=` and `<`,
-- `math_round` is `Math.round`, and `round` the same of a number that is not negative.
pub record Float : Type 1 where
  pub F : Type 0
  pub of_ℕ : ℕ → F
  pub add : F → F → F
  pub sub : F → F → F
  pub mul : F → F → F
  pub div : F → F → F
  pub pi : F
  pub sin : F → F
  pub cos : F → F
  pub asin : F → F
  pub sqrt : F → F
  pub min : F → F → F
  pub le : F → F → Bool
  pub lt : F → F → Bool
  pub round : F → ℕ
  pub math_round : F → F

pub record Coordinates (F : Type 0) : Type 0 where
  pub latitude : F
  pub longitude : F

pub record BoundingBox (F : Type 0) : Type 0 where
  pub min_lat : F
  pub max_lat : F
  pub min_lng : F
  pub max_lng : F

-- `EARTH_RADIUS_METERS`
abbrev pub earth_radius_meters : ℕ
earth_radius_meters = 6371000

module _ (fl : Float) where
  open fl use {F, of_ℕ, add, sub, mul, div, pi, sin, cos, asin, sqrt, le}

  unfoldable pub to_radians : F → F
  to_radians deg = div (mul deg pi) (of_ℕ 180)

  unfoldable pub haversine_meters : Coordinates F → Coordinates F → F
  unfolding to_radians
  haversine_meters a b =
      let d_lat = to_radians (sub b.latitude a.latitude) in
      let d_lng = to_radians (sub b.longitude a.longitude) in
      let lat₁ = to_radians a.latitude in
      let lat₂ = to_radians b.latitude in
      let sin_d_lat = sin (div d_lat (of_ℕ 2)) in
      let sin_d_lng = sin (div d_lng (of_ℕ 2)) in
      let h =
        add (mul sin_d_lat sin_d_lat) (mul (mul (mul (cos lat₁) (cos lat₂)) sin_d_lng) sin_d_lng) in
      mul (mul (of_ℕ 2) (of_ℕ earth_radius_meters)) (asin (fl.min (of_ℕ 1) (sqrt h)))

  unfoldable pub bounding_box : Coordinates F → F → BoundingBox F
  unfolding to_radians
  bounding_box center radius =
      let earth = of_ℕ earth_radius_meters in
      let lat_delta = mul (div radius earth) (div (of_ℕ 180) pi) in
      let lng_delta =
        mul (div radius (mul earth (cos (to_radians center.latitude)))) (div (of_ℕ 180) pi) in
      record {
        min_lat = sub center.latitude lat_delta;
        max_lat = add center.latitude lat_delta;
        min_lng = sub center.longitude lng_delta;
        max_lng = add center.longitude lng_delta;
      }

  unfoldable pub is_within_radius : Coordinates F → Coordinates F → F → Bool
  unfolding haversine_meters
  is_within_radius center point radius = le (haversine_meters center point) radius
