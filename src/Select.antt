-- ===== src/Select.antt =====
-- SaucepanServer/task-server/shared/selector.go, plan_preempt.go, cohort_fill.go, scarcity.go and
-- cohort/cohort.go: which nodes a task goes to. The records that they share.
pub mod Gates
pub mod Preempt
pub mod Best
pub mod Optimal
pub mod Vector
pub mod Cohort
pub mod Members
pub mod Ladder
pub mod Fits
pub mod Pool
pub mod Served
pub mod Handed
mod Tests
use saucepan.Common.{ℕ, String, Bool, Option, List}
use saucepan.Common.Float.{Float}
use saucepan.Common.Int.{ℤ}
use saucepan.Sky.Obstruction.{ObstructionMask}
use saucepan.Sky.Safety.{MountLimits, HorizonPoint}

-- shared.NodeEvaluation
pub record Node (fl : Float) : Type 0 where
  pub node_id : String
  pub status : String
  pub power : fl.F
  pub limiting_magnitude : Option fl.F
  pub current_task_id : Option ℕ
  pub current_task_priority : Option ℤ
  pub estimated_startup_ms : ℤ
  pub quality_tier : String
  pub reliability_score : fl.F
  pub mount_alt_deg : Option fl.F
  pub mount_az_deg : Option fl.F
  pub site_lat : Option fl.F
  pub site_lon : Option fl.F
  pub mount_slew_rate_deg_s : Option fl.F
  pub available_filters : List String
  pub is_emulator : Bool
  pub obstruction_mask : ObstructionMask fl
  pub mount_limits : Option (MountLimits fl)
  pub horizon_profile : Option (List (HorizonPoint fl))
  pub aperture_mm : Option fl.F
  pub focal_length_mm : Option fl.F
  pub pixel_size_um : Option fl.F
  pub fov_width_arcmin : Option fl.F
  pub fov_height_arcmin : Option fl.F
  pub mount_type : Option ℤ
  pub max_stable_exposure_s : Option fl.F
  pub site_seeing_arcsec : Option fl.F
  pub idle_since_minutes : Option fl.F
  pub enabled_campaign_ids : List String
  pub plan_remaining_sec : Option fl.F

-- shared.TaskRequirements
pub record Requirements (fl : Float) : Type 0 where
  pub ra : Option fl.F
  pub dec : Option fl.F
  pub min_altitude_deg : Option fl.F
  pub min_power : Option fl.F
  pub target_magnitude : Option fl.F
  pub required_filters : List String
  pub allow_emulator : Bool
  pub min_aperture_mm : Option fl.F
  pub min_sub_exposure_s : Option fl.F
  pub min_resolution_arcsec : Option fl.F
  pub max_resolution_arcsec : Option fl.F
  pub min_psf_fwhm_arcsec : Option fl.F
  pub max_psf_fwhm_arcsec : Option fl.F
  pub required_fov_width_arcmin : Option fl.F
  pub required_fov_height_arcmin : Option fl.F
  pub science_band : String
  pub preferred_node_ids : List String
  pub preferred_fail_open : Bool

-- SelectorResult.Reason
pub data Reason : Type 0 where
  idle idle_ish nearby_preempt priority_preempt : Reason

-- shared.SelectorResult
pub record Selection : Type 0 where
  pub node_id : String
  pub slew_time_ms : ℤ
  pub is_idle : Bool
  pub is_nearby : Bool
  pub preempting : Bool
  pub prev_task_id : Option ℕ
  pub score : ℤ
  pub reason : Reason
