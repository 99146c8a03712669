-- ===== src/Campaign/Check.antt =====
-- SaucepanServer/task-server/shared/campaign/pack.go: the checks of a pack, each by the error that
-- it gives, `none` where it passes. No check is made of a nil pack, which no caller hands in.
use saucepan.Common.{
  ℕ, ◌+◌, String, Bool, true, false, ◌&&◌, ◌||◌, not, Option, none, some, List, [], ◌∷◌, ◌==◌,
  nat_eq, string_eq, if◌then◌else◌, any, length,
}
use saucepan.Common.Float.{Float}
use saucepan.Common.Int.{ℤ, pos, ltb_ℤ, leb_ℤ}
use saucepan.Pier.Actions.{is_pier_code_action}
use saucepan.Pier.Address.{Url}
use saucepan.Pier.Artifact.{PierCodeRef, ArtifactError, validate_ref, is_zero}
use saucepan.Campaign.{
  ProductIntent, PierCodeIntent, CoverageIntent, SeasonIntent, SaturationHint, PackTarget, Pack,
}
use saucepan.Common.Text.{trim_space}

pub data TargetError : Type 0 where
  no_filters no_exposure no_frames bad_strategy over_exposed : TargetError

pub data PackError : Type 0 where
  no_name no_targets bad_bin_frames few_bin_frames bad_product bad_coverage_mode bad_span :
      PackError
  bad_kind bad_urgency bad_duty unknown_action no_artifact_url : PackError
  bad_artifact : ArtifactError → PackError
  bad_target : ℕ → TargetError → PackError

pub data HookError : Type 0 where
  bad_placement no_image_ref no_placement not_approved : HookError

pub data KeysError : Type 0 where
  no_json bad_json unknown_field : KeysError

-- The first error of two checks.
abbrev pub first : {E : Type 0} → Option E → Option E → Option E
first none later = later
first (some e) _ = some e

abbrev pub reject : {E : Type 0} → Bool → E → Option E
reject true e = some e
reject false e = none

abbrev pub one_of : String → List String → Bool
one_of s names = any (λ name. s == name) names

-- A check of what may be nil, which passes then.
abbrev pub on_some : {A E : Type 0} → (A → Option E) → Option A → Option E
on_some check none = none
on_some check (some a) = check a

abbrev client_pack_keys : List String
client_pack_keys =
    "name" ∷ "description" ∷ "test_only" ∷ "hook_image_ref" ∷ "hook_placement" ∷ "comp_stars"
    ∷ "product" ∷ "coverage" ∷ "season" ∷ "pier_code" ∷ "targets" ∷ []

abbrev server_pack_keys : List String
server_pack_keys = "coverage_plan" ∷ []

abbrev pub coverage_modes : List String
coverage_modes = "" ∷ "soft" ∷ "hard" ∷ []

abbrev pub season_kinds : List String
season_kinds = "" ∷ "continuous" ∷ "sparse" ∷ "too" ∷ []

abbrev pub season_urgencies : List String
season_urgencies = "" ∷ "normal" ∷ "elevated" ∷ "critical" ∷ []

abbrev pub saturation_strategies : List String
saturation_strategies = "" ∷ "short" ∷ "defocus" ∷ "nd" ∷ "manual" ∷ []

abbrev pub whole_modes : List String
whole_modes = "per_frame" ∷ "stack" ∷ []

-- The keys that json.Unmarshal finds in an object, `none` for what is no object.
unfoldable pub validate_pack_object_keys : ℕ → Option (List String) → Bool → Option KeysError
validate_pack_object_keys size keys allow_server_keys =
    if size == 0 then some no_json else elim keys [
      | none ↦ some bad_json
      | some names ↦
          reject
            (any
              (λ key.
                not (
                  one_of key client_pack_keys
                  || (allow_server_keys && one_of key server_pack_keys)))
              names)
            unknown_field
    ]

abbrev pub mode_of : String → String
mode_of mode = if trim_space mode == "" then "per_frame" else trim_space mode

unfoldable pub normalized_product_mode : Option ProductIntent → String
unfolding trim_space
normalized_product_mode none = "per_frame"
normalized_product_mode (some product) = mode_of product.mode

abbrev pub check_mode : String → ℤ → Option PackError
check_mode mode frames =
    if one_of mode whole_modes
    then reject (not (is_zero frames)) bad_bin_frames
    else if mode == "time_bin"
    then reject (ltb_ℤ frames (pos 2)) few_bin_frames
    else some bad_product

unfoldable pub validate_product : Option ProductIntent → Option PackError
unfolding trim_space
validate_product none = none
validate_product (some product) = check_mode (mode_of product.mode) product.time_bin_frames

abbrev pub normalized_hook_placement : String → String
normalized_hook_placement placement =
    if trim_space placement == "" then "none" else trim_space placement

abbrev pub named_artifact : Option ArtifactError → Option PackError
named_artifact none = none
named_artifact (some e) = some (bad_artifact e)

module _ (fl : Float) where
  abbrev pub zero_float : fl.F
  zero_float = fl.lit 0 0

  abbrev pub validate_coverage : CoverageIntent fl → Option PackError
  validate_coverage c =
      first (reject (not (one_of (trim_space c.mode) coverage_modes)) bad_coverage_mode) (
        reject
          (fl.lt c.min_longitude_span_deg zero_float
            || fl.lt (fl.lit 360 0) c.min_longitude_span_deg)
          bad_span)

  abbrev pub check_duty : fl.F → Option PackError
  check_duty d = reject (fl.lt d zero_float || fl.lt (fl.lit 1 0) d) bad_duty

  abbrev pub validate_season : SeasonIntent fl → Option PackError
  validate_season s = first (reject (not (one_of (trim_space s.kind) season_kinds)) bad_kind) (
      first (reject (not (one_of (trim_space s.urgency) season_urgencies)) bad_urgency)
        (on_some check_duty s.target_duty_cycle))

  abbrev pub exceeds : fl.F → Option fl.F → Bool
  exceeds exposure none = false
  exceeds exposure (some most) = fl.lt most exposure

  abbrev pub check_saturation : fl.F → SaturationHint fl → Option TargetError
  check_saturation exposure s =
      first (reject (not (one_of (trim_space s.strategy) saturation_strategies)) bad_strategy)
        (reject (exceeds exposure s.max_exposure_sec) over_exposed)

  abbrev pub check_target : PackTarget fl → Option TargetError
  check_target t = first (reject (length t.filters == 0) no_filters) (
      first (reject (fl.le t.exposure_sec zero_float) no_exposure) (
        first (reject (leb_ℤ t.frame_count (pos 0)) no_frames)
          (on_some (check_saturation t.exposure_sec) t.saturation)))

  abbrev pub named_target : ℕ → Option TargetError → Option PackError
  named_target i none = none
  named_target i (some e) = some (bad_target i e)

  abbrev pub check_targets : ℕ → List (PackTarget fl) → Option PackError
  check_targets i [] = none
  check_targets i (t ∷ targets) =
      first (named_target i (check_target t)) (check_targets (i + 1) targets)

  unfoldable pub has_science_hook : Pack fl → Bool
  unfolding trim_space
  has_science_hook p =
      not (trim_space p.hook_image_ref == "")
      || not (normalized_hook_placement p.hook_placement == "none")

  abbrev check_hook : String → String → Option HookError
  check_hook placement ref =
      if not (one_of placement ("none" ∷ "edge" ∷ "compute" ∷ []))
      then some bad_placement
      else if not (placement == "none") && ref == ""
      then some no_image_ref
      else reject (not (ref == "") && placement == "none") no_placement

  unfoldable pub validate_hook_fields : Pack fl → Option HookError
  unfolding trim_space has_science_hook
  validate_hook_fields p =
      if not (has_science_hook p)
      then none
      else check_hook (normalized_hook_placement p.hook_placement) (trim_space p.hook_image_ref)

  unfoldable pub validate_hook_publish : Pack fl → Bool → Option HookError
  unfolding trim_space validate_hook_fields
  validate_hook_publish p hook_approved = first (validate_hook_fields p) (
      reject (normalized_hook_placement p.hook_placement == "compute" && not hook_approved)
        not_approved)

  -- net/url, by what ParseRequestURI gives.
  module _ (parse_request_uri : String → Option Url) where
    -- The digest that the section of validate_ref takes is not read by it.
    abbrev pub validate_artifact : PierCodeRef → Option PackError
    validate_artifact r =
        first (named_artifact (validate_ref parse_request_uri (λ b. "") r))
          (reject (r.url == "") no_artifact_url)

    abbrev pub validate_pier_code : PierCodeIntent → Option PackError
    validate_pier_code c =
        first (reject (any (λ (a, _). not (is_pier_code_action a)) c.actions) unknown_action)
          (on_some validate_artifact c.artifact)

    unfoldable pub validate_pack : Pack fl → Option PackError
    unfolding trim_space validate_product is_pier_code_action validate_ref
    validate_pack p = first (reject (trim_space p.name == "") no_name) (
        first (reject (length p.targets == 0) no_targets) (
          first (validate_product p.product) (
            first (on_some validate_coverage p.coverage) (
              first (on_some validate_season p.season)
                (first (on_some validate_pier_code p.pier_code) (check_targets 0 p.targets))))))
