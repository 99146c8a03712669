-- ===== src/Campaign/Publish/Change.antt =====
-- SaucepanServer/task-server/cmd/apiserver/campaigns.go, maybeCompleteCampaign of budget.go and
-- shared/campaign/lifecycle.go: what becomes of a campaign that is there.
-- The statements of maybeCompleteCampaign are one step here.
use saucepan.Common.{
  ℕ, String, Bool, true, false, ◌&&◌, ◌||◌, not, Option, none, some, List, [], ◌∷◌, ◌==◌, nat_eq,
  string_eq, if◌then◌else◌, length, filter, lookup,
}
use saucepan.Common.Float.{Float}
use saucepan.Common.Int.{ℤ}
use saucepan.Assign.Store.{TaskStatus}
use saucepan.Campaign.Check.{zero_float}
use saucepan.Campaign.Expand.{TaskSpec}
use saucepan.Campaign.Publish.Chain.{Outcome, done, ◌>>=◌, ◌>>◌, guard, or_fail}
use saucepan.Campaign.Publish.Store.{
  Calls, CampaignRow, with_status, CampaignTask, World, insert_campaign_task, update_campaign,
  assert_campaign_owner, authorize,
}

-- shared/campaign/lifecycle.go
unfoldable pub allows_assign : String → Bool
allows_assign campaign_status = campaign_status == "" || campaign_status == "active"

unfoldable pub can_pause : String → Bool
can_pause status = status == "active"

unfoldable pub can_resume : String → Bool
can_resume status = status == "paused"

module _ (fl : Float) where
  abbrev pub add_row :
      Calls → String → TaskSpec fl → ℤ → World fl → CampaignRow → Outcome (World fl × ℕ)
  add_row calls id spec priority w c = do
    guard (calls.insert_ok 0) 500
    done (insert_campaign_task fl id priority spec w, 1)

  -- handleAddCampaignTask, from a body that is decoded into a specification and a priority.
  unfoldable pub add_campaign_task :
      Calls → Option String → String → TaskSpec fl → ℤ → World fl → Outcome (World fl × ℕ)
  unfolding assert_campaign_owner lookup insert_campaign_task
  add_campaign_task calls claims id spec priority w = do
    guard (not (spec.name == "")) 400
    guard (not (fl.le spec.normalized_integration_budget_s (zero_float fl))) 400
    authorize fl calls claims id w
    guard calls.read_ok 404
    or_fail (lookup id w.campaigns) 404 >>= add_row calls id spec priority w

  abbrev pub may_change : (String → Bool) → CampaignRow → Outcome (Unit {0})
  may_change allowed c = guard (allowed c.status) 409

  -- transitionCampaignStatus is two statements, with nothing that locks the row between them. The
  -- first reads the status and checks it against `allowed`, the second writes the target.
  unfoldable pub transition_check :
      (String → Bool) → Calls → Option String → String → World fl → Outcome (Unit {0})
  unfolding assert_campaign_owner lookup
  transition_check allowed calls claims id w = do
    authorize fl calls claims id w
    guard calls.read_ok 500
    or_fail (lookup id w.campaigns) 404 >>= may_change allowed

  unfoldable pub transition_write : String → String → World fl → World fl
  unfolding update_campaign
  transition_write target id w = update_campaign fl (with_status target) id w

  abbrev pub is_over : TaskStatus → Bool
  is_over TaskStatus.completed = true
  is_over TaskStatus.superseded = true
  is_over _ = false

  abbrev pub belongs_to : String → CampaignTask fl → Bool
  belongs_to id t = elim t.campaign_id [ none ↦ false | some c ↦ c == id ]

  abbrev pub complete_row : CampaignRow → CampaignRow
  complete_row c = if c.status == "active" then with_status "completed" c else c

  abbrev pub complete_if : ℕ → String → World fl → World fl
  complete_if remaining id w = if remaining == 0 then update_campaign fl complete_row id w else w

  abbrev pub complete_campaign : Option String → World fl → World fl
  complete_campaign none w = w
  complete_campaign (some id) w =
      if id == ""
      then w
      else complete_if (length (filter (λ u. belongs_to id u && not (is_over u.status)) w.tasks)) id
          w

  abbrev pub complete_for : Option (CampaignTask fl) → World fl → World fl
  complete_for none w = w
  complete_for (some t) w = complete_campaign t.campaign_id w

  abbrev pub task_by_id : ℕ → List (CampaignTask fl) → Option (CampaignTask fl)
  task_by_id id [] = none
  task_by_id id (t ∷ rest) = if t.id == id then some t else task_by_id id rest

  -- A query that fails ends the function, so `ok` says whether all three succeed.
  unfoldable pub maybe_complete_campaign : Bool → ℕ → World fl → World fl
  unfolding update_campaign
  maybe_complete_campaign ok task_id w =
      if ok then complete_for (task_by_id task_id w.tasks) w else w
