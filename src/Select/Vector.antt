-- ===== src/Select/Vector.antt =====
-- SaucepanServer/task-server/shared/cohort/cohort.go and scarcity.go: the feature vector of a
-- telescope, its bands, and the penalty of a filler seat.
use saucepan.Common.{
  ℕ, ◌+◌, String, Bool, true, false, List, [], ◌∷◌, ltb, map, ◌==◌, string_eq, if◌then◌else◌,
}
use saucepan.Common.Float.{Float, Math}
use saucepan.Common.Int.{ℤ, pos}

pub record TelescopeSpec (fl : Float) : Type 0 where
  pub aperture_mm : fl.F
  pub focal_length_mm : fl.F
  pub pixel_size_um : fl.F
  pub fov_width_arcmin : fl.F
  pub fov_height_arcmin : fl.F
  pub seeing_arcsec : fl.F
  pub mount_type : ℤ

-- [NDims]float64: lists of five.
abbrev pub Vector : Float → Type 0
Vector fl = List fl.F

module _ (fl : Float) where
  abbrev pub clamp : fl.F → fl.F → fl.F → fl.F
  clamp v lo hi = if fl.lt v lo then lo else if fl.lt hi v then hi else v

  abbrev pub default_weights : Vector fl
  default_weights = fl.lit 40 2 ∷ fl.lit 20 2 ∷ fl.lit 15 2 ∷ fl.lit 10 2 ∷ fl.lit 5 2 ∷ []

  abbrev pub default_band_widths : Vector fl
  default_band_widths = fl.lit 30 2 ∷ fl.lit 50 2 ∷ fl.lit 50 2 ∷ fl.lit 30 2 ∷ fl.lit 0 0 ∷ []

  unfoldable pub band_widths_for : String → Vector fl
  band_widths_for science_band =
      if science_band == "planetary"
      then fl.lit 15 2 ∷ fl.lit 30 2 ∷ fl.lit 40 2 ∷ fl.lit 15 2 ∷ fl.lit 0 0 ∷ []
      else if science_band == "wide_field"
      then fl.lit 50 2 ∷ fl.lit 70 2 ∷ fl.lit 60 2 ∷ fl.lit 50 2 ∷ fl.lit 0 0 ∷ []
      else default_band_widths

  unfoldable pub adaptive_step : ℕ → fl.F
  adaptive_step cohort_size =
      if ltb cohort_size 3
      then fl.sub (fl.lit 0 0) (fl.lit 5 2)
      else if ltb 8 cohort_size
      then fl.lit 5 2
      else fl.lit 0 0

  abbrev adapted : fl.F → fl.F → fl.F
  adapted step base =
      if fl.le base (fl.lit 0 0)
      then base
      else (let out = fl.sub base step in
          let low = if fl.lt out (fl.lit 5 2) then fl.lit 5 2 else out in
          if fl.lt (fl.lit 95 2) low then fl.lit 95 2 else low)

  unfoldable pub adaptive_band_width : Vector fl → ℕ → Vector fl
  adaptive_band_width base cohort_size = map (adapted (adaptive_step cohort_size)) base

  -- scarcity.go
  unfoldable pub idle_bonus : fl.F → fl.F
  idle_bonus idle_minutes =
      if fl.le idle_minutes (fl.lit 0 0)
      then fl.lit 0 0
      else (let b = fl.div idle_minutes (fl.lit 45 0) in
          if fl.lt (fl.lit 1 0) b then fl.lit 1 0 else b)

  unfoldable pub scarcity_score : ℕ → fl.F
  scarcity_score substitutes_idle = fl.div (fl.lit 1 0) (fl.of_int (pos (1 + substitutes_idle)))

  unfoldable pub effective_penalty : ℕ → fl.F → fl.F
  effective_penalty substitutes_idle idle_minutes =
      fl.mul (scarcity_score substitutes_idle) (fl.sub (fl.lit 1 0) (idle_bonus idle_minutes))

  unfoldable pub apply_filler_penalty : ℤ → ℕ → fl.F → ℤ
  apply_filler_penalty base_score substitutes_idle idle_minutes =
      let penalty = effective_penalty substitutes_idle idle_minutes in
      fl.to_int (fl.mul (fl.of_int base_score) (fl.add (fl.lit 1 0) (fl.mul penalty (fl.lit 15 1))))

module _ (fl : Float) (mt : Math fl) where
  -- (log v - log lo) / (log hi - log lo), in [0, 1]
  abbrev log_normalised : fl.F → fl.F → fl.F → fl.F
  log_normalised v lo hi =
      clamp fl (fl.div (fl.sub (mt.log v) (mt.log lo)) (fl.sub (mt.log hi) (mt.log lo)))
        (fl.lit 0 0) (fl.lit 1 0)

  unfoldable pub compute_vector : TelescopeSpec fl → Vector fl
  compute_vector spec =
      let raw_scale = fl.mul (fl.div spec.pixel_size_um spec.focal_length_mm) (fl.lit 206265 3) in
      let px_scale = if fl.lt raw_scale (fl.lit 1 1) then fl.lit 1 1 else raw_scale in
      let raw_fov = mt.sqrt (fl.mul spec.fov_width_arcmin spec.fov_height_arcmin) in
      let fov_geom = if fl.lt raw_fov (fl.lit 1 1) then fl.lit 1 1 else raw_fov in
      let sensitivity =
        fl.div (fl.mul spec.aperture_mm spec.aperture_mm) (fl.mul px_scale px_scale) in
      let seeing = fl.div (fl.sub spec.seeing_arcsec (fl.lit 5 1)) (fl.lit 45 1) in
      log_normalised px_scale (fl.lit 1 1) (fl.lit 10 0)
      ∷ log_normalised fov_geom (fl.lit 1 1) (fl.lit 300 0)
      ∷ clamp fl (fl.div sensitivity (fl.lit 1000000 0)) (fl.lit 0 0) (fl.lit 1 0)
      ∷ clamp fl seeing (fl.lit 0 0) (fl.lit 1 0)
      ∷ clamp fl (fl.of_int spec.mount_type) (fl.lit 0 0) (fl.lit 1 0)
      ∷ []

  abbrev cosine_of : fl.F → fl.F → fl.F → fl.F
  cosine_of dot mag_a mag_b =
      if fl.feq mag_a (fl.lit 0 0)
      then fl.lit 0 0
      else if fl.feq mag_b (fl.lit 0 0)
      then fl.lit 0 0
      else fl.div dot (fl.mul (mt.sqrt mag_a) (mt.sqrt mag_b))

  -- The loop of WeightedCosine over the dimensions left.
  unfoldable pub cosine_from : Vector fl → Vector fl → Vector fl → fl.F → fl.F → fl.F → fl.F
  cosine_from (a ∷ as') (b ∷ bs) (w ∷ ws) dot mag_a mag_b =
      let wa = fl.mul a w in
      let wb = fl.mul b w in
      cosine_from as' bs ws (fl.add dot (fl.mul wa wb)) (fl.add mag_a (fl.mul wa wa))
        (fl.add mag_b (fl.mul wb wb))
  cosine_from _ _ _ dot mag_a mag_b = cosine_of dot mag_a mag_b

  unfoldable pub weighted_cosine : Vector fl → Vector fl → Vector fl → fl.F
  weighted_cosine a b weights = cosine_from a b weights (fl.lit 0 0) (fl.lit 0 0) (fl.lit 0 0)

  unfoldable pub passes_bands : Vector fl → Vector fl → Vector fl → Bool
  passes_bands (a ∷ anchor) (c ∷ candidate) (w ∷ widths) =
      let rest = passes_bands anchor candidate widths in
      if fl.le w (fl.lit 0 0)
      then (if fl.feq a c then rest else false)
      else if fl.lt w (mt.abs (fl.sub c a))
      then false
      else rest
  passes_bands _ _ _ = true
