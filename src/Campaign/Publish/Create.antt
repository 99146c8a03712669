-- ===== src/Campaign/Publish/Create.antt =====
-- SaucepanServer/task-server/cmd/apiserver/campaigns.go: handleCreateCampaign.
use saucepan.Common.{
  ℕ, String, false, not, Option, none, some, ◌==◌, nat_eq, string_eq, length, lookup, insert,
}
use saucepan.Common.Float.{Float}
use saucepan.Pier.Actions.{Bytes}
use saucepan.Campaign.{Pack}
use saucepan.Common.Text.{trim_space}
use saucepan.Campaign.Check.{validate_pack_object_keys}
use saucepan.Campaign.Publish.Chain.{Outcome, done, ◌>>=◌, ◌>>◌, guard, or_fail, none_or_fail}
use saucepan.Campaign.Publish.Store.{Calls, CampaignRow, Json, World}

module _ (fl : Float) where
  abbrev pub draft_row : String → Pack fl → Bytes → CampaignRow
  draft_row user pack canonical = record {
    name = pack.name;
    description = pack.description;
    status = "draft";
    created_by = some user;
    test_only = pack.test_only;
    pack_json = canonical;
    expanded_at = none;
    hook_approved = false;
  }

  -- The fresh id is that of gen_random_uuid; the primary key refuses one that is taken.
  abbrev pub insert_draft :
      Calls → String → Pack fl → World fl → Bytes → String → Outcome (World fl × ℕ)
  insert_draft calls fresh pack w canonical user = do
    guard (not (user == "")) 401
    none_or_fail (lookup fresh w.campaigns) 500
    guard calls.write_ok 500
    done (record w { campaigns = insert fresh (draft_row user pack canonical) w.campaigns }, 0)

  abbrev pub create_canonical :
      Calls → Option String → String → Pack fl → World fl → Bytes → Outcome (World fl × ℕ)
  create_canonical calls claims fresh pack w canonical = do
    guard (not (trim_space pack.name == "")) 400
    or_fail claims 401 >>= insert_draft calls fresh pack w canonical

  abbrev pub create_decoded :
      Json fl → Calls → Option String → String → World fl → Pack fl → Outcome (World fl × ℕ)
  create_decoded json calls claims fresh w pack =
      or_fail (json.marshal pack) 400 >>= create_canonical calls claims fresh pack w

  unfoldable pub create_campaign :
      Json fl → Calls → Option String → String → Bytes → World fl → Outcome (World fl × ℕ)
  unfolding trim_space lookup insert validate_pack_object_keys
  create_campaign json calls claims fresh body w = do
    none_or_fail (validate_pack_object_keys (length body) (json.object_keys body) false) 400
    or_fail (json.decode_strictly body) 400 >>= create_decoded json calls claims fresh w
