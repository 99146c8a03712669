-- ===== src/Campaign/Parts.antt =====
-- SaucepanServer/task-server/shared/campaign/pack.go: the parts of a pack that are in order.
use saucepan.Common.{
  ℕ, ◌+◌, String, ◌≡◌, ◌<◌, ◌↔◌, ◌⊎◌, refl, ap, inl, inr, ◌≢◌, Bool, true, false, ◌||◌, not, Option,
  none, some, List, [], ◌∷◌, ◌==◌, nat_eq, string_eq, any, length, Mapping, arith, All, In,
  Bool-cases, eq_iff,
}
use saucepan.Common.Float.{Float}
use saucepan.Common.Int.{ℤ, pos, ◌≤ℤ◌, leb_ℤ}
use saucepan.Pier.Actions.{is_pier_code_action, pier_code_actions}
use saucepan.Pier.Address.{Url, parse_artifact_url}
use saucepan.Pier.Artifact.{PierCodeRef, ArtifactError, validate_ref, is_zero, is_sha256_hex}
use saucepan.Campaign.{
  ProductIntent, PierCodeIntent, CoverageIntent, SeasonIntent, SaturationHint, PackTarget,
}
use saucepan.Common.Text.{trim_space}
use saucepan.Campaign.Check.{
  reject, one_of, mode_of, whole_modes, coverage_modes, season_kinds, season_urgencies,
  saturation_strategies, PackError, bad_bin_frames, bad_coverage_mode, bad_span, bad_kind,
  bad_urgency, bad_duty, unknown_action, TargetError, no_filters, no_exposure, no_frames,
  bad_strategy, over_exposed, check_mode, validate_product, zero_float, validate_coverage,
  check_duty, validate_season, exceeds, check_saturation, check_target, named_target, check_targets,
  named_artifact, no_artifact_url, validate_artifact, validate_pier_code,
}
use saucepan.Campaign.Iff.{
  IfSome, first_iff, reject_iff, on_some_iff, neither_iff, not_iff, one_of_iff, menu_iff,
}

abbrev pub IsAction : String → Type 0
IsAction a = In a pier_code_actions

pub is_pier_code_action_iff : (a : String) → (is_pier_code_action a ≡ true) ↔ IsAction a
unfolding is_pier_code_action
is_pier_code_action_iff a = menu_iff a pier_code_actions

pub differs_iff : (s t : String) → ((s == t) ≡ false) ↔ (s ≢ t)
differs_iff s t = (
  λ h same. cc (h, (eq_iff s t).1 same),
  λ other. elim (Bool-cases (s == t)) [
    | inl same ↦ absurd (other ((eq_iff s t).0 same))
    | inr h ↦ h
  ],
)

pub actions_iff :
    (actions : Mapping Bool)
    → (any (λ (a, _). not (is_pier_code_action a)) actions ≡ false)
      ↔ All (λ (a, _). IsAction a) actions
actions_iff [] = (λ h. tt, λ h. refl)
actions_iff ((a, b) ∷ actions) =
    neither_iff _ _ (not_iff _ (is_pier_code_action_iff a)) (actions_iff actions)

abbrev pub IsOneOf : String → List String → Type 0
IsOneOf s names = In (trim_space s) names

pub trimmed_iff :
    (s : String) (names : List String)
    → (not (one_of (trim_space s) names) ≡ false) ↔ IsOneOf s names
trimmed_iff s names = not_iff _ (one_of_iff (trim_space s) names)

-- A mode with its time bins: none, or two frames at least.
abbrev pub IsProduct : ProductIntent → Type 0
IsProduct product =
    (In (mode_of product.mode) whole_modes × (product.time_bin_frames ≡ pos 0))
    ⊎ ((mode_of product.mode ≡ "time_bin") × (pos 2 ≤ℤ product.time_bin_frames))

pub is_zero_eq : (n : ℤ) (e : PackError) → reject (not (is_zero n)) e ≡ none → n ≡ pos 0
is_zero_eq n e h = ground arith

pub check_mode_iff :
    (mode : String) (frames : ℤ)
    → (check_mode mode frames ≡ none)
      ↔ ((In mode whole_modes × (frames ≡ pos 0)) ⊎ ((mode ≡ "time_bin") × (pos 2 ≤ℤ frames)))
check_mode_iff mode frames = elim (Bool-cases (one_of mode whole_modes)) [
  | inl whole ↦ rw whole (
    λ h. inl ((one_of_iff mode whole_modes).0 whole, is_zero_eq frames bad_bin_frames h),
    λ h. elim h [
      | inl (_, zero_frames) ↦ rw zero_frames refl
      | inr (bins, _) ↦ absurd (cc (whole, ap (λ s. one_of s whole_modes) bins))
    ],
  )
  | inr other ↦ rw other (elim (Bool-cases (mode == "time_bin")) [
    | inl bins ↦ rw bins (
      λ h. inr ((eq_iff mode "time_bin").0 bins, ground arith),
      λ h. elim h [
        | inl (there, _) ↦ absurd (cc (other, (one_of_iff mode whole_modes).1 there))
        | inr (_, few) ↦ ground arith
      ],
    )
    | inr none_of ↦ rw none_of (
      λ h. absurd (cc h),
      λ h. elim h [
        | inl (there, _) ↦ absurd (cc (other, (one_of_iff mode whole_modes).1 there))
        | inr (bins, _) ↦ absurd (cc (none_of, (eq_iff mode "time_bin").1 bins))
      ],
    )
  ])
]

pub validate_product_iff :
    (product : Option ProductIntent) → (validate_product product ≡ none) ↔ IfSome IsProduct product
unfolding validate_product
validate_product_iff none = (λ h. tt, λ h. refl)
validate_product_iff (some product) = check_mode_iff (mode_of product.mode) product.time_bin_frames

pub named_iff :
    {P : Type 0} (e : Option ArtifactError) → (e ≡ none) ↔ P → (named_artifact e ≡ none) ↔ P
named_iff none p = (λ h. p.0 refl, λ h. refl)
named_iff (some e) p = (λ h. absurd (cc h), λ h. absurd (cc (p.1 h)))

module _ (fl : Float) where
  abbrev pub IsCoverage : CoverageIntent fl → Type 0
  IsCoverage c =
      IsOneOf c.mode coverage_modes
      × ((fl.lt c.min_longitude_span_deg (zero_float fl) ≡ false)
          × (fl.lt (fl.lit 360 0) c.min_longitude_span_deg ≡ false))

  abbrev pub IsDuty : fl.F → Type 0
  IsDuty d = (fl.lt d (zero_float fl) ≡ false) × (fl.lt (fl.lit 1 0) d ≡ false)

  abbrev pub IsSeason : SeasonIntent fl → Type 0
  IsSeason s =
      IsOneOf s.kind season_kinds
      × (IsOneOf s.urgency season_urgencies × IfSome IsDuty s.target_duty_cycle)

  pub within_iff : (a b : Bool) → ((a || b) ≡ false) ↔ ((a ≡ false) × (b ≡ false))
  within_iff a b = neither_iff a b (λ h. h, λ h. h) (λ h. h, λ h. h)

  pub validate_coverage_iff :
      (c : CoverageIntent fl) → (validate_coverage fl c ≡ none) ↔ IsCoverage c
  validate_coverage_iff c =
      first_iff _ _ (reject_iff _ bad_coverage_mode (trimmed_iff c.mode coverage_modes))
        (reject_iff _ bad_span (within_iff _ _))

  pub validate_season_iff : (s : SeasonIntent fl) → (validate_season fl s ≡ none) ↔ IsSeason s
  validate_season_iff s = first_iff _ _ (reject_iff _ bad_kind (trimmed_iff s.kind season_kinds)) (
      first_iff _ _ (reject_iff _ bad_urgency (trimmed_iff s.urgency season_urgencies)) (
        on_some_iff IsDuty (check_duty fl) (λ d. reject_iff _ bad_duty (within_iff _ _))
          s.target_duty_cycle))

  -- How long a target may be exposed.
  abbrev pub IsSaturation : fl.F → SaturationHint fl → Type 0
  IsSaturation exposure s =
      IsOneOf s.strategy saturation_strategies
      × IfSome (λ most. fl.lt most exposure ≡ false) s.max_exposure_sec

  pub exceeds_iff :
      (exposure : fl.F) (most : Option fl.F)
      → (exceeds fl exposure most ≡ false) ↔ IfSome (λ m. fl.lt m exposure ≡ false) most
  exceeds_iff exposure none = (λ h. tt, λ h. refl)
  exceeds_iff exposure (some most) = (λ h. h, λ h. h)

  abbrev pub IsTarget : PackTarget fl → Type 0
  IsTarget t =
      (0 < length t.filters)
      × ((fl.le t.exposure_sec (zero_float fl) ≡ false)
          × ((pos 1 ≤ℤ t.frame_count) × IfSome (IsSaturation t.exposure_sec) t.saturation))

  pub check_saturation_iff :
      (exposure : fl.F) (s : SaturationHint fl)
      → (check_saturation fl exposure s ≡ none) ↔ IsSaturation exposure s
  check_saturation_iff exposure s =
      first_iff _ _ (reject_iff _ bad_strategy (trimmed_iff s.strategy saturation_strategies))
        (reject_iff _ over_exposed (exceeds_iff exposure s.max_exposure_sec))

  pub no_filters_iff : (n : ℕ) → ((n == 0) ≡ false) ↔ (0 < n)
  no_filters_iff n = (λ h. ground arith, λ h. ground arith)

  pub no_frames_iff : (n : ℤ) → (leb_ℤ n (pos 0) ≡ false) ↔ (pos 1 ≤ℤ n)
  no_frames_iff n = (λ h. ground arith, λ h. ground arith)

  pub check_target_iff : (t : PackTarget fl) → (check_target fl t ≡ none) ↔ IsTarget t
  check_target_iff t = first_iff _ _ (reject_iff _ no_filters (no_filters_iff (length t.filters))) (
      first_iff _ _ (reject_iff _ no_exposure (λ h. h, λ h. h)) (
        first_iff _ _ (reject_iff _ no_frames (no_frames_iff t.frame_count)) (
          on_some_iff (IsSaturation t.exposure_sec) (check_saturation fl t.exposure_sec)
            (check_saturation_iff t.exposure_sec) t.saturation)))

  pub named_target_iff :
      (i : ℕ) {P : Type 0} (e : Option TargetError)
      → (e ≡ none) ↔ P
      → (named_target fl i e ≡ none) ↔ P
  named_target_iff i none p = (λ h. p.0 refl, λ h. refl)
  named_target_iff i (some e) p = (λ h. absurd (cc h), λ h. absurd (cc (p.1 h)))

  pub check_targets_iff :
      (i : ℕ) (targets : List (PackTarget fl))
      → (check_targets fl i targets ≡ none) ↔ All IsTarget targets
  check_targets_iff i [] = (λ h. tt, λ h. refl)
  check_targets_iff i (t ∷ targets) =
      first_iff _ _ (named_target_iff i (check_target fl t) (check_target_iff t))
        (check_targets_iff (i + 1) targets)

  module _ (parse_request_uri : String → Option Url) where
    -- The module of a pack: its hash, and the address to fetch it from.
    abbrev pub IsArtifactRef : PierCodeRef → Type 0
    IsArtifactRef r =
        (is_sha256_hex r.sha256 ≡ true)
        × ((parse_artifact_url parse_request_uri r.url ≡ true)
            × ((pos 0 ≤ℤ r.size_bytes) × ((r.url == "") ≡ false)))

    pub validate_ref_iff :
        (r : PierCodeRef)
        → (validate_ref parse_request_uri (λ b. "") r ≡ none) ↔ (
            (is_sha256_hex r.sha256 ≡ true)
            × ((((r.url == "") || parse_artifact_url parse_request_uri r.url) ≡ true)
                × (pos 0 ≤ℤ r.size_bytes)))
    unfolding validate_ref
    validate_ref_iff r = (λ h. (ground arith, (ground arith, ground arith)), λ h. ground arith)

    pub validate_artifact_iff :
        (r : PierCodeRef) → (validate_artifact fl parse_request_uri r ≡ none) ↔ IsArtifactRef r
    validate_artifact_iff r =
        let e =
          first_iff _ _
            (named_iff (validate_ref parse_request_uri (λ b. "") r) (validate_ref_iff r))
            (reject_iff (r.url == "") no_artifact_url (λ h. h, λ h. h)) in
        (
          λ h. let k = e.0 h in (k.0.0, (ground arith, (k.0.1.1, k.1))),
          λ h. e.1 ((h.0, (ground arith, h.1.1.0)), h.1.1.1),
        )

    abbrev pub IsPierCode : PierCodeIntent → Type 0
    IsPierCode c = All (λ (a, _). IsAction a) c.actions × IfSome IsArtifactRef c.artifact

    pub validate_pier_code_iff :
        (c : PierCodeIntent) → (validate_pier_code fl parse_request_uri c ≡ none) ↔ IsPierCode c
    validate_pier_code_iff c = first_iff _ _ (reject_iff _ unknown_action (actions_iff c.actions)) (
        on_some_iff IsArtifactRef (validate_artifact fl parse_request_uri) validate_artifact_iff
          c.artifact)
