-- ===== src/Campaign/Publish/Store.antt =====
-- SaucepanServer/task-server/cmd/apiserver/campaigns_store.go, and assertCampaignOwner of inbox.go: the rows of
-- campaigns and of their tasks, and the statements on them.
use saucepan.Common.{
  ℕ, ◌+◌, String, Bool, false, ◌&&◌, Option, none, some, List, [], ◌∷◌, ◌++◌, ◌==◌, nat_eq,
  string_eq, if◌then◌else◌, Mapping, lookup, insert,
}
use saucepan.Common.Float.{Float}
use saucepan.Common.Int.{ℤ}
use saucepan.Pier.Actions.{Bytes}
use saucepan.Assign.Store.{TaskStatus}
use saucepan.Campaign.{Pack}
use saucepan.Common.Text.{trim_space}
use saucepan.Campaign.Check.{mode_of, zero_float}
use saucepan.Campaign.Expand.{TaskSpec}
use saucepan.Campaign.Publish.Chain.{Outcome, done, fail, ◌>>=◌, guard, or_fail}

-- Which statements of a handler succeed; the insertions by their number.
pub record Calls : Type 0 where
  pub owner_ok : Bool
  pub begin_ok : Bool
  pub read_ok : Bool
  pub insert_ok : ℕ → Bool
  pub mark_ok : Bool
  pub write_ok : Bool
  pub commit_ok : Bool

pub record CampaignRow : Type 0 where
  pub name : String
  pub description : String
  pub status : String
  pub created_by : Option String
  pub test_only : Bool
  pub pack_json : Bytes
  pub expanded_at : Option ℕ
  pub hook_approved : Bool

abbrev pub with_status : String → CampaignRow → CampaignRow
with_status status c = record c { status = status }

abbrev pub with_expansion : ℕ → CampaignRow → CampaignRow
with_expansion now c = record c { expanded_at = some now }

abbrev pub is_user : Option String → String → Bool
is_user none user = false
is_user (some owner) user = owner == user

abbrev pub is_owner : Option CampaignRow → String → Bool
is_owner none user = false
is_owner (some c) user = is_user c.created_by user

module _ (fl : Float) where
  -- encoding/json, by what it decodes and encodes: the keys of an object, a pack with unknown
  -- fields ignored, a pack with unknown fields and trailing data refused.
  pub record Json : Type 0 where
    pub object_keys : Bytes → Option (List String)
    pub parse_pack : Bytes → Option (Pack fl)
    pub decode_strictly : Bytes → Option (Pack fl)
    pub marshal : Pack fl → Option Bytes
    -- The stored JSON with the coverage of another, as persistCampaignCoverage, its variant with a
    -- plan, and persistOrchestratorCoveragePlan make it by way of a map[string]any.
    pub set_coverage : Bytes → Bytes → Option Bytes

  pub record CampaignTask : Type 0 where
    pub id : ℕ
    pub name : String
    pub priority : ℤ
    pub status : TaskStatus
    pub integration_time : Option fl.F
    pub normalized_integration_budget_s : fl.F
    pub required_filters : List String
    pub target_ra : fl.F
    pub target_dec : fl.F
    pub target_magnitude : Option fl.F
    pub allow_emulator : Bool
    pub product_mode : String
    pub campaign_id : Option String

  pub record World : Type 0 where
    pub campaigns : Mapping CampaignRow
    pub tasks : List CampaignTask
    pub next_id : ℕ

  pub data Reply : Type 0 where
    answered : ℕ → Reply
    error_with : ℕ → Reply

  -- A handler that fails has changed nothing; the number is that of tasks created.
  abbrev pub settle : World → Outcome (World × ℕ) → World × Reply
  settle w (done (w', n)) = (w', answered n)
  settle w (fail status) = (w, error_with status)

  abbrev pub null_float : fl.F → Option fl.F
  null_float v = if fl.feq v (zero_float fl) then none else some v

  abbrev pub new_row : ℕ → String → ℤ → TaskSpec fl → CampaignTask
  new_row id campaign_id priority spec = record {
    id = id;
    name = spec.name;
    priority = priority;
    status = TaskStatus.pending;
    integration_time = null_float spec.integration_time;
    normalized_integration_budget_s = spec.normalized_integration_budget_s;
    required_filters = spec.required_filters;
    target_ra = spec.target_ra;
    target_dec = spec.target_dec;
    target_magnitude = spec.target_magnitude;
    allow_emulator = spec.allow_emulator;
    product_mode = mode_of spec.product_mode;
    campaign_id = some campaign_id;
  }

  -- insertCampaignTask, with the priority of insertCampaignTaskReturning.
  unfoldable pub insert_campaign_task : String → ℤ → TaskSpec fl → World → World
  unfolding trim_space
  insert_campaign_task campaign_id priority spec w = record w {
    tasks = w.tasks ++ new_row w.next_id campaign_id priority spec ∷ [];
    next_id = w.next_id + 1;
  }

  abbrev pub changed :
      (CampaignRow → CampaignRow)
      → String
      → Option CampaignRow
      → Mapping CampaignRow
      → Mapping CampaignRow
  changed f id none campaigns = campaigns
  changed f id (some c) campaigns = insert id (f c) campaigns

  -- UPDATE campaigns SET ... WHERE id = ...
  unfoldable pub update_campaign : (CampaignRow → CampaignRow) → String → World → World
  unfolding lookup insert
  update_campaign f id w = record w { campaigns = changed f id (lookup id w.campaigns) w.campaigns }

  unfoldable pub assert_campaign_owner : Bool → String → String → World → Bool
  unfolding lookup
  assert_campaign_owner ok id user w = ok && is_owner (lookup id w.campaigns) user

  -- The claims of the request, by their user, and the owner of the campaign.
  abbrev pub authorize : Calls → Option String → String → World → Outcome (Unit {0})
  authorize calls claims id w = do
    user ← or_fail claims 401
    guard (assert_campaign_owner calls.owner_ok id user w) 403
