-- ===== src/Sky/Slew.antt =====
-- SaucepanServer/task-server/shared/slew.go and psf.go, over any arithmetic.
use saucepan.Common.{Option, none, some, if◌then◌else◌}
use saucepan.Common.Float.{Float, Math}
use saucepan.Common.Int.{ℤ, pos, negsuc, ◌+ℤ◌, ◌-ℤ◌, leb_ℤ}

-- The fields of a time in UTC.
pub record Clock : Type 0 where
  pub year : ℤ
  pub month : ℤ
  pub day : ℤ
  pub hour : ℤ
  pub minute : ℤ
  pub second : ℤ
  pub nanosecond : ℤ

module _ (fl : Float) where
  abbrev pub zero_f : fl.F
  zero_f = fl.lit 0 0

  -- DiffractionLimitArcsec
  unfoldable pub diffraction_limit_arcsec : fl.F → fl.F
  diffraction_limit_arcsec aperture_mm =
      if fl.le aperture_mm zero_f then zero_f else fl.div (fl.lit 116 0) aperture_mm

  unfoldable pub predicted_psf_arcsec : fl.F → fl.F → fl.F
  predicted_psf_arcsec aperture_mm site_seeing_arcsec =
      let d = diffraction_limit_arcsec aperture_mm in
      if fl.lt d site_seeing_arcsec then site_seeing_arcsec else d

  unfoldable pub plate_scale_arcsec_per_px : fl.F → fl.F → fl.F
  plate_scale_arcsec_per_px focal_length_mm pixel_size_um =
      if fl.le focal_length_mm zero_f
      then zero_f
      else fl.div (fl.mul (fl.lit 206265 3) pixel_size_um) focal_length_mm

module _ (fl : Float) (mt : Math fl) where
  unfoldable pub julian_day : Clock → fl.F
  julian_day t =
      let h =
        fl.add
          (fl.add (fl.add (fl.of_int t.hour) (fl.div (fl.of_int t.minute) (fl.lit 60 0)))
            (fl.div (fl.of_int t.second) (fl.lit 3600 0)))
          (fl.div (fl.of_int t.nanosecond) (fl.lit 3600000000000 0)) in
      let early = leb_ℤ t.month (pos 2) in
      let y = if early then t.year -ℤ pos 1 else t.year in
      let m = if early then t.month +ℤ pos 12 else t.month in
      let a = mt.floor (fl.div (fl.of_int y) (fl.lit 100 0)) in
      let b = fl.add (fl.sub (fl.lit 2 0) a) (mt.floor (fl.div a (fl.lit 4 0))) in
      let days =
        fl.add (mt.floor (fl.mul (fl.lit 36525 2) (fl.of_int (y +ℤ pos 4716))))
          (mt.floor (fl.mul (fl.lit 306001 4) (fl.of_int (m +ℤ pos 1)))) in
      fl.sub (fl.add (fl.add (fl.add days (fl.of_int t.day)) (fl.div h (fl.lit 24 0))) b)
        (fl.lit 15245 1)

  unfoldable pub greenwich_mean_sidereal_time : fl.F → fl.F
  greenwich_mean_sidereal_time jd =
      let since = fl.sub jd (fl.lit 2451545 0) in
      let t = fl.div since (fl.lit 36525 0) in
      let gmst =
        fl.sub
          (fl.add (fl.add (fl.lit 28046061837 8) (fl.mul (fl.lit 36098564736629 11) since))
            (fl.mul (fl.mul (fl.lit 387933 9) t) t))
          (fl.div (fl.mul (fl.mul t t) t) (fl.lit 38710000 0)) in
      mt.fmod gmst (fl.lit 360 0)

  abbrev pub radians : fl.F → fl.F
  radians deg = fl.div (fl.mul deg mt.pi) (fl.lit 180 0)

  abbrev pub degrees : fl.F → fl.F
  degrees rad = fl.div (fl.mul rad (fl.lit 180 0)) mt.pi

  abbrev pub clamp_sin : fl.F → fl.F
  clamp_sin x =
      let top = if fl.lt (fl.lit 1 0) x then fl.lit 1 0 else x in
      if fl.lt top (fl.of_int (negsuc 0)) then fl.of_int (negsuc 0) else top

  -- ComputeTargetAltAz: altitude and azimuth, in degrees.
  unfoldable pub compute_target_alt_az : fl.F → fl.F → fl.F → fl.F → Clock → fl.F × fl.F
  compute_target_alt_az ra_deg dec_deg lat_deg lon_deg now =
      let gmst_deg = greenwich_mean_sidereal_time (julian_day now) in
      let lst_deg = mt.fmod (fl.add gmst_deg lon_deg) (fl.lit 360 0) in
      let ha_deg = mt.fmod (fl.add (fl.sub lst_deg ra_deg) (fl.lit 360 0)) (fl.lit 360 0) in
      let ha_rad = radians ha_deg in
      let dec_rad = radians dec_deg in
      let lat_rad = radians lat_deg in
      let sin_alt = clamp_sin (
        fl.add (fl.mul (mt.sin dec_rad) (mt.sin lat_rad))
          (fl.mul (fl.mul (mt.cos dec_rad) (mt.cos lat_rad)) (mt.cos ha_rad))) in
      let x = fl.mul (fl.sub (fl.lit 0 0) (mt.sin ha_rad)) (mt.cos dec_rad) in
      let y =
        fl.sub (fl.mul (mt.sin dec_rad) (mt.cos lat_rad))
          (fl.mul (fl.mul (mt.cos dec_rad) (mt.sin lat_rad)) (mt.cos ha_rad)) in
      let az_rad = mt.atan2 x y in
      (degrees (mt.asin sin_alt), mt.fmod (fl.add (degrees az_rad) (fl.lit 360 0)) (fl.lit 360 0))

  unfoldable pub angular_distance_deg : fl.F → fl.F → fl.F → fl.F → fl.F
  angular_distance_deg alt1 az1 alt2 az2 =
      let half_alt = fl.div (radians (fl.sub alt2 alt1)) (fl.lit 2 0) in
      let half_az = fl.div (radians (fl.sub az2 az1)) (fl.lit 2 0) in
      let raw = fl.add (fl.mul (mt.sin half_alt) (mt.sin half_alt)) (
        fl.mul (fl.mul (fl.mul (mt.cos (radians alt1)) (mt.cos (radians alt2))) (mt.sin half_az))
          (mt.sin half_az)) in
      let top = if fl.lt (fl.lit 1 0) raw then fl.lit 1 0 else raw in
      let a = if fl.lt top (fl.lit 0 0) then fl.lit 0 0 else top in
      let c = fl.mul (fl.lit 2 0) (mt.atan2 (mt.sqrt a) (mt.sqrt (fl.sub (fl.lit 1 0) a))) in
      degrees c

  unfoldable pub estimate_slew_time_ms : fl.F → fl.F → fl.F → fl.F → Option fl.F → ℤ
  estimate_slew_time_ms cur_alt cur_az alt az none = pos 0
  estimate_slew_time_ms cur_alt cur_az alt az (some rate) =
      if fl.le rate (fl.lit 0 0)
      then pos 0
      else fl.to_int
          (fl.mul (fl.div (angular_distance_deg cur_alt cur_az alt az) rate) (fl.lit 1000 0))
