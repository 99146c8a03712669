-- ===== src/Campaign.antt =====
-- SaucepanServer/task-server/shared/campaign/pack.go: the packs that researchers hand in, as they
-- stand after JSON decoding, and what the other modules share of them.
pub mod Check
pub mod Iff
pub mod Parts
pub mod Valid
pub mod Expand
pub mod Specs
pub mod Tasks
pub mod Grants
pub mod Granted
pub mod Publish
pub mod Rows
pub mod Stored
pub mod Published
pub mod Ready
pub mod Again
pub mod Life
mod Tests
use Prim.Native.Char.{code}
use saucepan.Common.{String, Bool, Option, List, Mapping, ◌==◌, string_eq, if◌then◌else◌, ◌&&◌}
use saucepan.Common.Float.{Float}
use saucepan.Common.Int.{ℤ}
use saucepan.Common.Text.{is_space}
use saucepan.Pier.Artifact.{PierCodeRef}

pub record ProductIntent : Type 0 where
  pub mode : String
  pub time_bin_frames : ℤ

-- A nil and an empty map of actions are treated alike.
pub record PierCodeIntent : Type 0 where
  pub enabled : Bool
  pub actions : Mapping Bool
  pub artifact : Option PierCodeRef

module _ (fl : Float) where
  pub record CompStar : Type 0 where
    pub ra : fl.F
    pub dec : fl.F
    pub mag : Option fl.F
    pub band : Option String

  pub record CoverageIntent : Type 0 where
    pub enabled : Bool
    pub n_main : ℤ
    pub redundancy : Bool
    pub max_gap_min : ℤ
    pub max_sites : ℤ
    pub mode : String
    pub preferred_sites : List String
    pub min_sites : ℤ
    pub min_longitude_span_deg : fl.F

  pub record SeasonIntent : Type 0 where
    pub kind : String
    pub urgency : String
    pub cadence_goal_min : ℤ
    pub window_start : Option String
    pub window_end : Option String
    pub target_duty_cycle : Option fl.F
    pub designation : String
    pub break_notes : String

  pub record SaturationHint : Type 0 where
    pub max_exposure_sec : Option fl.F
    pub strategy : String
    pub notes : String

  pub record PackTarget : Type 0 where
    pub ra : fl.F
    pub dec : fl.F
    pub magnitude : Option fl.F
    pub filters : List String
    pub exposure_sec : fl.F
    pub frame_count : ℤ
    pub cadence_goal_min : ℤ
    pub saturation : Option SaturationHint

  pub record Pack : Type 0 where
    pub name : String
    pub test_only : Bool
    pub description : String
    pub hook_image_ref : String
    pub hook_placement : String
    pub comp_stars : List CompStar
    pub product : Option ProductIntent
    pub coverage : Option CoverageIntent
    pub season : Option SeasonIntent
    pub pier_code : Option PierCodeIntent
    pub targets : List PackTarget
