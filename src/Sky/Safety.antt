-- ===== src/Sky/Safety.antt =====
-- SaucepanServer/task-server/shared/safety_match.go: limits of the mount and of the horizon.
use saucepan.Common.{
  Bool, true, false, ◌&&◌, ◌||◌, not, Option, none, some, List, [], ◌∷◌, length, nat_eq, ltb,
  if◌then◌else◌,
}
use saucepan.Common.Float.{Float, Math}
use saucepan.Common.Int.{negsuc}
use saucepan.Sky.Slew.{Clock, compute_target_alt_az}
use saucepan.Sky.Obstruction.{ObstructionMask, point_in_forbidden_alt_az, slew_path_hits_forbidden}

pub record MountLimits (fl : Float) : Type 0 where
  pub altitude_min : Option fl.F
  pub altitude_max : Option fl.F
  pub azimuth_min : Option fl.F
  pub azimuth_max : Option fl.F

pub record HorizonPoint (fl : Float) : Type 0 where
  pub az : fl.F
  pub alt : fl.F

pub record TelescopeSafety (fl : Float) : Type 0 where
  pub obstruction_mask : ObstructionMask fl
  pub mount_limits : Option (MountLimits fl)
  pub horizon_profile : Option (List (HorizonPoint fl))
  pub site_lat : Option fl.F
  pub site_lon : Option fl.F
  pub mount_alt_deg : Option fl.F
  pub mount_az_deg : Option fl.F

-- `p != nil && q != nil && test(*p, *q)`
abbrev pub both {ℓ} : {A B : Type ℓ} → (A → B → Bool) → Option A → Option B → Bool
both test (some a) (some b) = test a b
both test _ _ = false

module _ (fl : Float) (mt : Math fl) where
  unfoldable pub normalize_azimuth : fl.F → fl.F
  normalize_azimuth az_deg =
      let az = mt.fmod az_deg (fl.lit 360 0) in
      if fl.lt az (fl.lit 0 0) then fl.add az (fl.lit 360 0) else az

  unfoldable pub normalize_azimuth_bound : fl.F → fl.F
  normalize_azimuth_bound az_deg =
      if fl.feq az_deg (fl.lit 360 0) then fl.lit 360 0 else normalize_azimuth az_deg

  abbrev azimuth_ok : Option fl.F → Option fl.F → fl.F → Bool
  azimuth_ok (some low) (some high) az =
      if fl.le (fl.lit 360 0) (fl.sub high low)
      then true
      else (let lo = normalize_azimuth_bound low in
          let hi = normalize_azimuth_bound high in
          if fl.le lo hi
          then not (fl.lt az lo || fl.lt hi az)
          else not (fl.lt hi az && fl.lt az lo))
  azimuth_ok (some low) none az = not (fl.lt az (normalize_azimuth_bound low))
  azimuth_ok none (some high) az = not (fl.lt (normalize_azimuth_bound high) az)
  azimuth_ok none none az = true

  unfoldable pub validate_mount_limits : fl.F → fl.F → Option (MountLimits fl) → Bool
  validate_mount_limits alt_deg az_deg none = true
  validate_mount_limits alt_deg az_deg (some limits) =
      if both fl.lt (some alt_deg) limits.altitude_min
      then false
      else if both fl.lt limits.altitude_max (some alt_deg)
      then false
      else azimuth_ok limits.azimuth_min limits.azimuth_max (normalize_azimuth az_deg)

  -- The altitude of the horizon on the segment from `p` to `q`, if the azimuth is on it.
  abbrev on_segment : fl.F → HorizonPoint fl → HorizonPoint fl → Option fl.F
  on_segment az p q =
      let a0 = mt.fmod p.az (fl.lit 360 0) in
      let a1 = mt.fmod q.az (fl.lit 360 0) in
      let at = λ (t : fl.F). some (fl.add p.alt (fl.mul t (fl.sub q.alt p.alt))) in
      if fl.le a0 a1
      then (if fl.le a0 az && fl.le az a1
          then at (
              if fl.lt (fl.lit 1 9) (mt.abs (fl.sub a1 a0))
              then fl.div (fl.sub az a0) (fl.sub a1 a0)
              else fl.lit 0 0)
          else none)
      else if fl.le a0 az || fl.le az a1
      then (let span = fl.add (fl.sub (fl.lit 360 0) a0) a1 in
          at (
            if fl.le az a1
            then fl.div (fl.add (fl.sub (fl.lit 360 0) a0) az) span
            else fl.div (fl.sub az a0) span))
      else none

  -- The segments from `p` on, the last of which goes back to `first`.
  unfoldable pub horizon_from :
      fl.F → HorizonPoint fl → HorizonPoint fl → List (HorizonPoint fl) → Option fl.F
  horizon_from az first p [] = on_segment az p first
  horizon_from az first p (q ∷ points) = elim (on_segment az p q) [
    | some alt ↦ some alt
    | none ↦ horizon_from az first q points
  ]

  unfoldable pub horizon_alt_at : fl.F → List (HorizonPoint fl) → fl.F
  horizon_alt_at az_deg [] = fl.of_int (negsuc 89)
  horizon_alt_at az_deg (p ∷ []) = p.alt
  horizon_alt_at az_deg (p ∷ q ∷ points) =
      elim (horizon_from (mt.fmod az_deg (fl.lit 360 0)) p p (q ∷ points)) [
        | some alt ↦ alt
        | none ↦ p.alt
      ]

  unfoldable pub above_horizon_profile : fl.F → fl.F → Option (List (HorizonPoint fl)) → Bool
  above_horizon_profile alt_deg az_deg none = true
  above_horizon_profile alt_deg az_deg (some points) = fl.lt (horizon_alt_at az_deg points) alt_deg

  abbrev path_blocked : TelescopeSafety fl → fl.F → fl.F → Bool
  path_blocked safety alt az =
      both (λ alt0 az0. slew_path_hits_forbidden fl mt alt0 az0 alt az safety.obstruction_mask 24)
        safety.mount_alt_deg safety.mount_az_deg

  -- What PassesAltAzSafety asks of the place where the target stands.
  abbrev pub may_point : Option fl.F → TelescopeSafety fl → fl.F × fl.F → Bool
  may_point min_altitude_deg safety (alt, az) =
      if both fl.lt (some alt) min_altitude_deg
      then false
      else if not (validate_mount_limits alt az safety.mount_limits)
      then false
      else if not (above_horizon_profile alt az safety.horizon_profile)
      then false
      else if ltb 0 (length safety.obstruction_mask)
          && point_in_forbidden_alt_az fl mt alt az safety.obstruction_mask
      then false
      else not (ltb 0 (length safety.obstruction_mask) && path_blocked safety alt az)

  unfoldable pub passes_alt_az_safety :
      fl.F → fl.F → Option fl.F → TelescopeSafety fl → Clock → Bool
  passes_alt_az_safety target_ra target_dec min_altitude_deg safety now =
      both
        (λ lat lon.
          may_point min_altitude_deg safety
            (compute_target_alt_az fl mt target_ra target_dec lat lon now))
        safety.site_lat safety.site_lon
