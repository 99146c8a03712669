-- ===== src/Campaign/Tests.antt =====
-- Examples for campaigns, under the arithmetic of thousandths.
use saucepan.Common.{
  if◌then◌else◌, ◌==◌, nat_eq, ◌+◌, String, ◌≡◌, ◌≢◌, refl, ◌⊎◌, true, false, Option, none, some,
  List, [], ◌∷◌, length, lookup, arith, eq_iff,
}
use saucepan.Common.Float.{milli}
use saucepan.Common.Int.{pos, negsuc, ◌*ℤ◌}
use saucepan.Pier.Actions.{Record, Bytes, check_record_grant}
use saucepan.Pier.Address.{Url}
use saucepan.Campaign.{Pack, PackTarget, CoverageIntent}
use saucepan.Common.Text.{trim_space}
use saucepan.Campaign.Check.{
  validate_pack, bad_target, no_filters, validate_hook_publish, validate_hook_fields, not_approved,
  validate_pack_object_keys,
}
use saucepan.Campaign.Valid.{IsValidPack, validate_pack_iff}
use saucepan.Campaign.Expand.{expand_pack, TaskSpec, task_of}
use saucepan.Campaign.Tasks.{IsExpansion, expand_pack-Expansion}
use saucepan.Campaign.Specs.{task_count}
use saucepan.Campaign.Grants.{apply_pier_code_from_pack}
use saucepan.Campaign.Granted.{check_record_grant-Grants, PackGrants, IsOwn}
use saucepan.Campaign.Publish.{
  new_row, Calls, CampaignRow, Json, World, done, fail, publish_campaign,
}
use saucepan.Campaign.Published.{IsPublished, publish_campaign-IsPublished}
use saucepan.Campaign.Ready.{AllOk, IsReady}
use saucepan.Campaign.Again.{publish_campaign_twice}
use saucepan.Campaign.Life.{Event, create, publish, pause, write, cover}

abbrev fixed4 : milli.F → String
fixed4 x = "1.0000"

abbrev no_url : String → Option Url
no_url s = none

abbrev target : List String → PackTarget milli
target filters = record {
  ra = pos 10000;
  dec = pos 20000;
  magnitude = none;
  filters = filters;
  exposure_sec = pos 30000;
  frame_count = pos 10;
  cadence_goal_min = pos 0;
  saturation = none;
}

abbrev pack_of : List String → Pack milli
pack_of filters = record {
  name = "M 31";
  test_only = false;
  description = "";
  hook_image_ref = "";
  hook_placement = "";
  comp_stars = [];
  product = none;
  coverage = none;
  season = none;
  pier_code = some (record { enabled = true; actions = []; artifact = none });
  targets = target filters ∷ [];
}

abbrev two_filters : Pack milli
two_filters = pack_of (" V " ∷ "" ∷ "B" ∷ [])

trim_space_both : trim_space " V  b " ≡ "V  b"
unfolding trim_space
trim_space_both = refl

bad_target_named : validate_pack milli no_url (pack_of []) ≡ some (bad_target 0 no_filters)
unfolding validate_pack
bad_target_named = refl

unapproved_hook :
    validate_hook_publish milli
      (record two_filters { hook_image_ref = "img"; hook_placement = "compute" })
      false
    ≡ some not_approved
unfolding validate_hook_publish
unapproved_hook = refl

validate_pack_iff_example : IsValidPack milli no_url two_filters
unfolding validate_pack
validate_pack_iff_example = (validate_pack_iff milli no_url two_filters).0 refl

expand_pack-Expansion_example : IsExpansion milli fixed4 no_url two_filters (
    task_of milli fixed4 no_url two_filters (target (" V " ∷ "" ∷ "B" ∷ [])) "V"
    ∷ task_of milli fixed4 no_url two_filters (target (" V " ∷ "" ∷ "B" ∷ [])) "B"
    ∷ [])
unfolding expand_pack
expand_pack-Expansion_example = expand_pack-Expansion milli fixed4 no_url two_filters

abbrev record_of : String → Record
record_of action = record { action = action; payload = []; ok = true; msg = "" }

check_record_grant-Grants_example :
    IsOwn "board_post" ⊎ PackGrants milli (some two_filters) "board_post"
unfolding apply_pier_code_from_pack check_record_grant
check_record_grant-Grants_example =
    (check_record_grant-Grants milli no_url (some two_filters) (record_of "board_post")).0 refl

abbrev json : Json milli
json = record {
  object_keys = λ b. some ("name" ∷ "pier_code" ∷ "targets" ∷ []);
  parse_pack = λ b. some two_filters;
  decode_strictly = λ b. some two_filters;
  marshal = λ p. some (1 ∷ []);
  set_coverage = λ old coverage. some (1 ∷ []);
}

abbrev calls : Calls
calls = record {
  owner_ok = true;
  begin_ok = true;
  read_ok = true;
  insert_ok = λ i. true;
  mark_ok = true;
  write_ok = true;
  commit_ok = true;
}

abbrev draft : CampaignRow
draft = record {
  name = "M 31";
  description = "";
  status = "draft";
  created_by = some "ada";
  test_only = false;
  pack_json = 1 ∷ [];
  expanded_at = none;
  hook_approved = false;
}

abbrev store : World milli
store = record { campaigns = ("c1", draft) ∷ []; tasks = []; next_id = 1 }

calls-AllOk : AllOk calls
calls-AllOk = record {
  owner = refl;
  begin = refl;
  read = refl;
  insert = λ i. refl;
  mark = refl;
  write = refl;
  commit = refl;
}

stored_draft : lookup "c1" store.campaigns ≡ some draft
unfolding lookup
stored_draft = refl

no_draft : ◌≢◌ {A = String} "draft" "archived"
no_draft same = cc ((eq_iff "draft" "archived").1 same)

publish_stranger :
    publish_campaign milli fixed4 no_url json calls 7 (some "eve") "c1" store ≡ fail 403
unfolding publish_campaign
publish_stranger = refl

abbrev spec_in : String → TaskSpec milli
spec_in filt = task_of milli fixed4 no_url two_filters (target (" V " ∷ "" ∷ "B" ∷ [])) filt

abbrev launched : World milli
launched = record {
  campaigns = ("c1", record draft { status = "active"; expanded_at = some 7 }) ∷ [];
  tasks =
      new_row milli 1 "c1" (pos 0) (spec_in "V") ∷ new_row milli 2 "c1" (pos 0) (spec_in "B") ∷ [];
  next_id = 3;
}

publish_campaign-IsPublished_example :
    (user : String) × (c : CampaignRow) × (some "ada" ≡ some user)
    × (c.created_by ≡ some user)
    × IsPublished milli fixed4 no_url json "c1" 2 store launched c
unfolding publish_campaign ◌*ℤ◌
publish_campaign-IsPublished_example =
    publish_campaign-IsPublished milli fixed4 no_url json calls 7 (some "ada") "c1" store launched 2
      refl

two_filters-IsReady : IsReady milli fixed4 no_url json draft two_filters
unfolding validate_pack validate_pack_object_keys validate_hook_fields trim_space
two_filters-IsReady = record {
  keys = refl;
  stored = refl;
  approval = λ compute. absurd (cc compute);
  expandable = ((validate_pack_iff milli no_url two_filters).0 refl, (refl, omega arith));
}

publish_campaign_twice_example :
    (w' : World milli) × (w'' : World milli) × (publish_campaign milli fixed4 no_url json calls 7
        (some "ada")
        "c1"
        store
      ≡ done (w', task_count milli two_filters.targets))
    × (publish_campaign milli fixed4 no_url json calls 8 (some "ada") "c1" w' ≡ done (w'', 0))
    × (length w'.tasks ≡ 0 + task_count milli two_filters.targets)
    × (w''.tasks ≡ w'.tasks)
unfolding trim_space
publish_campaign_twice_example =
    publish_campaign_twice milli fixed4 no_url json calls 7 8 "ada" "c1" store draft two_filters
      calls-AllOk stored_draft refl no_draft refl two_filters-IsReady

-- A coverage that no check would let pass, and a JSON that holds it when it starts with a 2.
abbrev odd_coverage : CoverageIntent milli
odd_coverage = record {
  enabled = true;
  n_main = negsuc 4;
  redundancy = false;
  max_gap_min = pos 45;
  max_sites = pos 8;
  mode = "medium";
  preferred_sites = [];
  min_sites = pos 0;
  min_longitude_span_deg = pos 0;
}

abbrev coverage_in : Bytes → Option (CoverageIntent milli)
coverage_in [] = none
coverage_in (b ∷ bytes) = if b == 2 then some odd_coverage else none

abbrev pack_in : Bytes → Pack milli
pack_in bytes = record two_filters { coverage = coverage_in bytes }

abbrev covering_json : Json milli
covering_json = record json {
  parse_pack = λ b. some (pack_in b);
  set_coverage = λ old coverage. some (2 ∷ []);
}

-- A campaign is created, published, given another coverage, and paused by an UPDATE behind its check.
abbrev history : List (Event milli)
history =
    create calls (some "ada") "c1" (1 ∷ [])
    ∷ publish calls 7 (some "ada") "c1"
    ∷ cover true "c1" []
    ∷ pause calls (some "ada") "c1"
    ∷ write 0
    ∷ []

abbrev paused_row : CampaignRow
paused_row = record draft { status = "paused"; expanded_at = some 7; pack_json = 2 ∷ [] }
