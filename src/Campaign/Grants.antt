-- ===== src/Campaign/Grants.antt =====
-- SaucepanServer/task-server/shared/campaign/pack.go and applyPierCodeFromPack of
-- cmd/orchestrator/orchestrator_pg.go: the code, and the grants for it, that a pier is sent.
use saucepan.Common.{
  String, Bool, Option, none, some, List, [], ◌∷◌, if◌then◌else◌, filter, map, Mapping,
}
use saucepan.Common.Float.{Float}
use saucepan.Common.Sort.{sort_by}
use saucepan.Common.Text.{string_lt}
use saucepan.Pier.Actions.{is_pier_code_action, default_pier_code_grants}
use saucepan.Pier.Address.{Url}
use saucepan.Pier.Artifact.{PierCodeRef, ArtifactError, validate_ref}
use saucepan.Campaign.{PierCodeIntent, Pack}

abbrev pub or_default : Mapping Bool → Mapping Bool
or_default [] = default_pier_code_grants
or_default (entry ∷ actions) = filter (λ (a, _). is_pier_code_action a) (entry ∷ actions)

-- `none` is the nil map.
abbrev pub intent_grants : Option PierCodeIntent → Option (Mapping Bool)
intent_grants none = none
intent_grants (some c) = if c.enabled then some (or_default c.actions) else none

abbrev if_valid : Option ArtifactError → PierCodeRef → Option PierCodeRef
if_valid none r = some r
if_valid (some e) r = none

unfoldable pub sorted_grant_list : Mapping Bool → List String
unfolding sort_by
sorted_grant_list grants = sort_by string_lt (map (λ (a, _). a) (filter (λ (_, ok). ok) grants))

-- The code of a campaign, as it rides on an assignment.
pub record Shipment : Type 0 where
  pub grants : Option (Mapping Bool)
  pub artifact : Option PierCodeRef

module _ (fl : Float) where
  unfoldable pub effective_pier_code_grants : Pack fl → Option (Mapping Bool)
  unfolding is_pier_code_action
  effective_pier_code_grants p = intent_grants p.pier_code

  module _ (parse_request_uri : String → Option Url) where
    abbrev checked_artifact : Option PierCodeRef → Option PierCodeRef
    checked_artifact none = none
    checked_artifact (some r) = if_valid (validate_ref parse_request_uri (λ b. "") r) r

    abbrev intent_artifact : Option PierCodeIntent → Option PierCodeRef
    intent_artifact none = none
    intent_artifact (some c) = if c.enabled then checked_artifact c.artifact else none

    unfoldable pub effective_pier_code_artifact : Pack fl → Option PierCodeRef
    unfolding validate_ref
    effective_pier_code_artifact p = intent_artifact p.pier_code

    -- A payload starts without grants and artifact. `none` is a pack that does not parse.
    unfoldable pub apply_pier_code_from_pack : Option (Pack fl) → Shipment
    unfolding effective_pier_code_grants effective_pier_code_artifact
    apply_pier_code_from_pack none = record { grants = none; artifact = none }
    apply_pier_code_from_pack (some p) = record {
      grants = effective_pier_code_grants p;
      artifact = effective_pier_code_artifact p;
    }
