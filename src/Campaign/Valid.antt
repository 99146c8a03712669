-- ===== src/Campaign/Valid.antt =====
-- SaucepanServer/task-server/shared/campaign/pack.go: what a pack is that may be published, without
-- the order of the checks.
use saucepan.Common.{String, ◌≡◌, ◌<◌, ◌↔◌, ◌≢◌, Option, none, nat_eq, string_eq, length, All}
use saucepan.Common.Float.{Float}
use saucepan.Pier.Address.{Url}
use saucepan.Campaign.{Pack}
use saucepan.Common.Text.{trim_space}
use saucepan.Campaign.Check.{
  no_name, no_targets, validate_coverage, validate_season, validate_pier_code, validate_pack,
}
use saucepan.Campaign.Iff.{IfSome, first_iff, reject_iff, on_some_iff}
use saucepan.Campaign.Parts.{
  differs_iff, IsProduct, validate_product_iff, IsCoverage, IsSeason, validate_coverage_iff,
  validate_season_iff, IsTarget, no_filters_iff, check_targets_iff, IsPierCode,
  validate_pier_code_iff,
}

module _ (fl : Float) where
  module _ (parse_request_uri : String → Option Url) where
    -- A pack that is ready to be published.
    pub record IsValidPack (p : Pack fl) : Type 0 where
      pub named : trim_space p.name ≢ ""
      pub aimed : 0 < length p.targets
      pub product : IfSome IsProduct p.product
      pub coverage : IfSome (IsCoverage fl) p.coverage
      pub season : IfSome (IsSeason fl) p.season
      pub pier_code : IfSome (IsPierCode fl parse_request_uri) p.pier_code
      pub targets : All (IsTarget fl) p.targets

    checks_iff :
        (p : Pack fl)
        → (validate_pack fl parse_request_uri p ≡ none) ↔ (
            (trim_space p.name ≢ "")
            × ((0 < length p.targets)
                × (IfSome IsProduct p.product
                    × (IfSome (IsCoverage fl) p.coverage
                        × (IfSome (IsSeason fl) p.season
                            × (IfSome (IsPierCode fl parse_request_uri) p.pier_code
                                × All (IsTarget fl) p.targets))))))
    unfolding validate_pack
    checks_iff p = first_iff _ _ (reject_iff _ no_name (differs_iff (trim_space p.name) "")) (
        first_iff _ _ (reject_iff _ no_targets (no_filters_iff fl (length p.targets))) (
          first_iff _ _ (validate_product_iff p.product) (
            first_iff _ _
              (on_some_iff (IsCoverage fl) (validate_coverage fl) (validate_coverage_iff fl)
                p.coverage)
              (first_iff _ _
                (on_some_iff (IsSeason fl) (validate_season fl) (validate_season_iff fl) p.season)
                (first_iff _ _
                  (on_some_iff (IsPierCode fl parse_request_uri)
                    (validate_pier_code fl parse_request_uri)
                    (validate_pier_code_iff fl parse_request_uri) p.pier_code)
                  (check_targets_iff fl 0 p.targets))))))

    -- A pack passes the checks exactly when it has a name that is not blank, a target at least, and
    -- each part that it states is in order: a product mode with fitting time bins, a coverage mode
    -- and span, a season, actions of the menu and an artifact that can be fetched, and for each
    -- target its filters, a positive exposure and frame count, and the limits of a bright target.
    pub validate_pack_iff :
        (p : Pack fl) → (validate_pack fl parse_request_uri p ≡ none) ↔ IsValidPack p
    validate_pack_iff p =
        let e = checks_iff p in
        (
          λ h.
              let k = e.0 h in
              record {
                named = k.0;
                aimed = k.1.0;
                product = k.1.1.0;
                coverage = k.1.1.1.0;
                season = k.1.1.1.1.0;
                pier_code = k.1.1.1.1.1.0;
                targets = k.1.1.1.1.1.1;
              },
          λ v.
              e.1 (
                v.named,
                (v.aimed, (v.product, (v.coverage, (v.season, (v.pier_code, v.targets))))),
              ),
        )
