-- ===== src/Campaign/Publish/Launch.antt =====
-- SaucepanServer/task-server/cmd/apiserver/campaigns.go: handlePublishCampaign.
use saucepan.Common.{
  ℕ, ◌+◌, String, Bool, true, not, Option, none, some, List, [], ◌∷◌, ◌==◌, nat_eq, string_eq,
  if◌then◌else◌, length, lookup,
}
use saucepan.Common.Float.{Float}
use saucepan.Common.Int.{pos}
use saucepan.Pier.Address.{Url}
use saucepan.Campaign.{Pack}
use saucepan.Campaign.Check.{
  HookError, not_approved, validate_pack_object_keys, validate_hook_publish,
}
use saucepan.Campaign.Expand.{TaskSpec, Expanded, tasks, refused, expand_pack}
use saucepan.Campaign.Publish.Chain.{Outcome, done, fail, ◌>>=◌, ◌>>◌, guard, or_fail, none_or_fail}
use saucepan.Campaign.Publish.Store.{
  Calls, CampaignRow, with_status, with_expansion, Json, World, insert_campaign_task,
  update_campaign, assert_campaign_owner, authorize,
}

module _ (fl : Float) where
  unfoldable pub insert_specs :
      (ℕ → Bool) → String → ℕ → List (TaskSpec fl) → World fl → Outcome (World fl)
  unfolding insert_campaign_task
  insert_specs ok id i [] w = done w
  insert_specs ok id i (spec ∷ specs) w =
      let later = insert_specs ok id (i + 1) specs (insert_campaign_task fl id (pos 0) spec w) in
      if ok i then later else fail 500

  module _ (fixed4 : fl.F → String) (parse_request_uri : String → Option Url) (json : Json fl) where
    abbrev pub approved_or_fail : Option HookError → Outcome (Unit {0})
    approved_or_fail none = done tt
    approved_or_fail (some not_approved) = fail 403
    approved_or_fail (some e) = fail 400

    abbrev pub specs_or_fail : Expanded fl → Outcome (List (TaskSpec fl))
    specs_or_fail (tasks specs) = done specs
    specs_or_fail (refused e) = fail 400

    abbrev pub specs_of_pack : CampaignRow → Pack fl → Outcome (List (TaskSpec fl))
    specs_of_pack c parsed = do
      let pack : Pack fl = record parsed { test_only = c.test_only }
      approved_or_fail (validate_hook_publish fl pack c.hook_approved)
      specs_or_fail (expand_pack fl fixed4 parse_request_uri pack)

    -- The tasks that the stored pack of a campaign comes to.
    unfoldable pub stored_specs : CampaignRow → Outcome (List (TaskSpec fl))
    unfolding validate_pack_object_keys validate_hook_publish expand_pack
    stored_specs c = do
      none_or_fail
          (validate_pack_object_keys (length c.pack_json) (json.object_keys c.pack_json) true) 400
      or_fail (json.parse_pack c.pack_json) 400 >>= specs_of_pack c

    abbrev pub mark_expanded : Calls → ℕ → String → ℕ → World fl → Outcome (World fl × ℕ)
    mark_expanded calls now id n w = do
      guard calls.mark_ok 500
      done (update_campaign fl (with_expansion now) id w, n)

    abbrev pub insert_all_specs :
        Calls → ℕ → String → World fl → List (TaskSpec fl) → Outcome (World fl × ℕ)
    insert_all_specs calls now id w specs =
        insert_specs calls.insert_ok id 0 specs w >>= mark_expanded calls now id (length specs)

    unfoldable pub expand_stored :
        Calls → ℕ → String → CampaignRow → World fl → Outcome (World fl × ℕ)
    unfolding stored_specs insert_specs update_campaign
    expand_stored calls now id c w = stored_specs c >>= insert_all_specs calls now id w

    abbrev pub expand_once :
        Calls → ℕ → String → CampaignRow → Option ℕ → World fl → Outcome (World fl × ℕ)
    expand_once calls now id c (some _) w = done (w, 0)
    expand_once calls now id c none w = expand_stored calls now id c w

    abbrev pub activate : Calls → String → World fl × ℕ → Outcome (World fl × ℕ)
    activate calls id (w, n) = do
      guard calls.write_ok 500
      guard calls.commit_ok 500
      done (update_campaign fl (with_status "active") id w, n)

    unfoldable pub publish_row :
        Calls → ℕ → String → World fl → CampaignRow → Outcome (World fl × ℕ)
    unfolding expand_stored update_campaign
    publish_row calls now id w c = do
      guard (not (c.status == "archived")) 409
      expand_once calls now id c c.expanded_at w >>= activate calls id

    abbrev pub publish_transaction : Calls → ℕ → String → World fl → Outcome (World fl × ℕ)
    publish_transaction calls now id w = do
      guard calls.begin_ok 500
      guard calls.read_ok 500
      or_fail (lookup id w.campaigns) 404 >>= publish_row calls now id w

    unfoldable pub publish_campaign :
        Calls → ℕ → Option String → String → World fl → Outcome (World fl × ℕ)
    unfolding assert_campaign_owner lookup publish_row
    publish_campaign calls now claims id w = do
      authorize fl calls claims id w
      publish_transaction calls now id w
