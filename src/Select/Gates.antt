-- ===== src/Select/Gates.antt =====
-- SaucepanServer/task-server/shared/selector.go: what a node must pass, and how far it must slew.
use saucepan.Common.{
  String, Bool, true, false, ◌&&◌, ◌||◌, not, Option, none, some, List, any, all, length, ◌==◌,
  nat_eq, string_eq, if◌then◌else◌,
}
use saucepan.Common.Float.{Float, Math}
use saucepan.Common.Int.{ℤ, pos, ltb_ℤ}
use saucepan.Sky.Slew.{
  Clock, compute_target_alt_az, estimate_slew_time_ms, plate_scale_arcsec_per_px,
  predicted_psf_arcsec,
}
use saucepan.Sky.Safety.{TelescopeSafety, both, passes_alt_az_safety}
use saucepan.Select.{Node, Requirements}

pub record NodeSlew : Type 0 where
  pub slew_ms : ℤ
  pub can_slew : Bool
  pub is_nearby : Bool

abbrev pub no_slew : NodeSlew
no_slew = record { slew_ms = pos 0; can_slew = false; is_nearby = false }

unfoldable pub node_has_filters : List String → List String → Bool
node_has_filters available required =
    if length required == 0
    then true
    else if length available == 0
    then false
    else all (λ r. any (λ f. f == r) available) required

module _ (fl : Float) where
  unfoldable pub node_telescope_safety : Node fl → TelescopeSafety fl
  node_telescope_safety n = record {
    obstruction_mask = n.obstruction_mask;
    mount_limits = n.mount_limits;
    horizon_profile = n.horizon_profile;
    mount_alt_deg = n.mount_alt_deg;
    mount_az_deg = n.mount_az_deg;
    site_lat = n.site_lat;
    site_lon = n.site_lon;
  }

  unfoldable pub node_is_idle : Node fl → Bool
  node_is_idle n = n.status == "" || (n.status == "idle" || n.status == "online")

  -- Each of the next four answers whether the node fails.
  abbrev resolution_fails : Requirements fl → fl.F → fl.F → Bool
  resolution_fails req focal_length pixel_size =
      let plate_scale = plate_scale_arcsec_per_px fl focal_length pixel_size in
      both fl.lt (some plate_scale) req.min_resolution_arcsec
      || both fl.lt req.max_resolution_arcsec (some plate_scale)

  abbrev psf_fails : Requirements fl → fl.F → fl.F → Bool
  psf_fails req aperture seeing =
      let predicted = predicted_psf_arcsec fl aperture seeing in
      both fl.lt (some predicted) req.min_psf_fwhm_arcsec
      || both fl.lt req.max_psf_fwhm_arcsec (some predicted)

  abbrev fov_fails : fl.F → fl.F → Bool
  fov_fails fov required = fl.lt fov (fl.mul required (fl.lit 12 1))

  abbrev too_faint : Option fl.F → Option fl.F → Bool
  too_faint none limiting = false
  too_faint (some target) none = true
  too_faint (some target) (some limiting) = fl.lt limiting target

module _ (fl : Float) (mt : Math fl) where
  -- A target that a node cannot be seen to reach fails; no target passes.
  abbrev sky_ok : Node fl → Requirements fl → Clock → Bool
  sky_ok n req now = elim req.ra [
    | none ↦ true
    | some ra ↦ elim req.dec [
      | none ↦ true
      | some dec ↦
          passes_alt_az_safety fl mt ra dec req.min_altitude_deg (node_telescope_safety fl n) now
    ]
  ]

  unfoldable pub passes_node_gates : Node fl → Requirements fl → Clock → Bool
  passes_node_gates n req now =
      if (if n.is_emulator then not req.allow_emulator else req.allow_emulator)
      then false
      else if n.status == "offline" || n.status == "error"
      then false
      else if not (node_has_filters n.available_filters req.required_filters)
      then false
      else if both fl.lt (some n.power) req.min_power
      then false
      else if too_faint fl req.target_magnitude n.limiting_magnitude
      then false
      else if not (sky_ok n req now)
      then false
      else if both fl.lt n.aperture_mm req.min_aperture_mm
      then false
      else if both fl.lt n.max_stable_exposure_s req.min_sub_exposure_s
      then false
      else if both (resolution_fails fl req) n.focal_length_mm n.pixel_size_um
      then false
      else if both (psf_fails fl req) n.aperture_mm n.site_seeing_arcsec
      then false
      else if both (fov_fails fl) n.fov_width_arcmin req.required_fov_width_arcmin
      then false
      else not (both (fov_fails fl) n.fov_height_arcmin req.required_fov_height_arcmin)

  abbrev slew_to : Node fl → ℤ → fl.F × fl.F → fl.F → fl.F → fl.F → NodeSlew
  slew_to n slew_nearby_ms (alt, az) mount_alt mount_az rate =
      if fl.le rate (fl.lit 0 0)
      then no_slew
      else (let slew_ms = estimate_slew_time_ms fl mt mount_alt mount_az alt az (some rate) in
          record {
            slew_ms = slew_ms;
            can_slew = true;
            is_nearby =
                ltb_ℤ (pos 0) slew_nearby_ms
                && (ltb_ℤ (pos 0) slew_ms && ltb_ℤ slew_ms slew_nearby_ms);
          })

  abbrev mount_slew : Node fl → ℤ → fl.F × fl.F → NodeSlew
  mount_slew n slew_nearby_ms target = elim n.mount_alt_deg [
    | none ↦ no_slew
    | some mount_alt ↦ elim n.mount_az_deg [
      | none ↦ no_slew
      | some mount_az ↦ elim n.mount_slew_rate_deg_s [
        | none ↦ no_slew
        | some rate ↦ slew_to n slew_nearby_ms target mount_alt mount_az rate
      ]
    ]
  ]

  unfoldable pub compute_node_slew : Node fl → Requirements fl → ℤ → Clock → NodeSlew
  compute_node_slew n req slew_nearby_ms now = elim req.ra [
    | none ↦ no_slew
    | some ra ↦ elim req.dec [
      | none ↦ no_slew
      | some dec ↦ elim n.site_lat [
        | none ↦ no_slew
        | some lat ↦ elim n.site_lon [
          | none ↦ no_slew
          | some lon ↦ mount_slew n slew_nearby_ms (compute_target_alt_az fl mt ra dec lat lon now)
        ]
      ]
    ]
  ]
