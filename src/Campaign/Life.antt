-- ===== src/Campaign/Life.antt =====
-- SaucepanServer/task-server/cmd/apiserver/campaigns.go: campaigns under any sequence of requests,
-- with what other parts of the server and an operator do between them.
pub mod Safe
pub mod Steps
pub mod Reached
use saucepan.Common.{
  ℕ, String, Bool, true, Option, none, some, List, [], ◌∷◌, ◌==◌, nat_eq, string_eq, if◌then◌else◌,
  map, nth, remove_at,
}
use saucepan.Common.Float.{Float}
use saucepan.Common.Int.{ℤ}
use saucepan.Pier.Actions.{Bytes}
use saucepan.Pier.Address.{Url}
use saucepan.Assign.Store.{TaskStatus}
use saucepan.Campaign.Expand.{TaskSpec}
use saucepan.Campaign.Publish.{
  Outcome, done, fail, Calls, CampaignRow, Json, CampaignTask, World, settle, create_campaign,
  publish_campaign, add_campaign_task, can_pause, can_resume, transition_check, transition_write,
  maybe_complete_campaign, update_campaign,
}

-- A transition that has passed its check, and whose UPDATE has not been made yet.
pub record Transition : Type 0 where
  pub target : String
  pub campaign_id : String

abbrev pub or_json : Bytes → Option Bytes → Bytes
or_json old none = old
or_json old (some new) = new

module _ (fl : Float) where
  pub record State : Type 0 where
    pub world : World fl
    pub checked : List Transition

  pub data Event : Type 0 where
    create : Calls → Option String → String → Bytes → Event
    publish : Calls → ℕ → Option String → String → Event
    add_task : Calls → Option String → String → TaskSpec fl → ℤ → Event
    pause : Calls → Option String → String → Event
    resume : Calls → Option String → String → Event
    -- The UPDATE of one of the transitions that passed their check.
    write : ℕ → Event
    complete : Bool → ℕ → Event
    -- Another part of the server sets the status of a task; an operator approves a hook.
    task_moves : ℕ → TaskStatus → Event
    approve : String → Event
    -- The coverage of the pack is overwritten, unchecked and at any status: by the coverage handlers
    -- of the API server, or by the orchestrator. Whether the UPDATE succeeds, and the coverage.
    cover : Bool → String → Bytes → Event

  abbrev pub ask : String → String → Outcome (Unit {0}) → State → State
  ask target id (done _) s = record s {
    checked = record { target = target; campaign_id = id } ∷ s.checked;
  }
  ask target id (fail status) s = s

  abbrev pub write_checked : Option Transition → World fl → World fl
  write_checked none w = w
  write_checked (some t) w = transition_write fl t.target t.campaign_id w

  abbrev pub approve_row : CampaignRow → CampaignRow
  approve_row c = record c { hook_approved = true }

  -- A row whose new JSON could not be made is left alone.
  abbrev pub cover_row : Json fl → Bytes → CampaignRow → CampaignRow
  cover_row json coverage c = record c {
    pack_json = or_json c.pack_json (json.set_coverage c.pack_json coverage);
  }

  -- The read of the JSON and its UPDATE as one step: no other handler writes the column, and of two
  -- of these the last to write wins.
  unfoldable pub persist_campaign_coverage : Json fl → Bool → String → Bytes → World fl → World fl
  unfolding update_campaign
  persist_campaign_coverage json ok id coverage w =
      if ok then update_campaign fl (cover_row json coverage) id w else w

  abbrev move_task : ℕ → TaskStatus → CampaignTask fl → CampaignTask fl
  move_task id status t = if t.id == id then record t { status = status } else t

  module _ (fixed4 : fl.F → String) (parse_request_uri : String → Option Url) (json : Json fl) where
    unfoldable pub step : Event → State → State
    unfolding create_campaign publish_campaign add_campaign_task transition_check transition_write
        maybe_complete_campaign update_campaign can_pause can_resume persist_campaign_coverage
    step (create calls claims fresh body) s = record s {
      world = (settle fl s.world (create_campaign fl json calls claims fresh body s.world)).0;
    }
    step (publish calls now claims id) s = record s {
      world =
          (settle fl s.world
            (publish_campaign fl fixed4 parse_request_uri json calls now claims id s.world)).0;
    }
    step (add_task calls claims id spec priority) s = record s {
      world = (settle fl s.world (add_campaign_task fl calls claims id spec priority s.world)).0;
    }
    step (pause calls claims id) s =
        ask "paused" id (transition_check fl can_pause calls claims id s.world) s
    step (resume calls claims id) s =
        ask "active" id (transition_check fl can_resume calls claims id s.world) s
    step (write k) s = record {
      world = write_checked (nth s.checked k) s.world;
      checked = remove_at k s.checked;
    }
    step (complete ok task_id) s = record s {
      world = maybe_complete_campaign fl ok task_id s.world;
    }
    step (task_moves id status) s = record s {
      world = record s.world { tasks = map (move_task id status) s.world.tasks };
    }
    step (approve id) s = record s { world = update_campaign fl approve_row id s.world }
    step (cover ok id coverage) s = record s {
      world = persist_campaign_coverage json ok id coverage s.world;
    }

    unfoldable pub run : List Event → State → State
    unfolding step
    run [] s = s
    run (event ∷ events) s = run events (step event s)
