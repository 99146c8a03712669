-- ===== src/Campaign/Again.antt =====
-- SaucepanServer/task-server/cmd/apiserver/campaigns.go: a publication that nothing stands against
-- succeeds, and another one adds nothing.
use saucepan.Common.{
  ℕ, ◌+◌, String, ◌≡◌, ◌≢◌, ap, ◌∙◌, sym, inl, inr, Option, none, some, string_eq, if◌then◌else◌,
  length, lookup, eq_refl, length-append,
}
use saucepan.Common.Float.{Float}
use saucepan.Pier.Address.{Url}
use saucepan.Campaign.{Pack}
use saucepan.Campaign.Specs.{task_count}
use saucepan.Campaign.Publish.{
  done, ◌>>=◌, Calls, CampaignRow, Json, World, update_campaign, with_status, expand_stored,
  expand_once, activate, publish_campaign,
}
use saucepan.Campaign.Rows.{some_inj, tasks-update_campaign}
use saucepan.Campaign.Published.{publish_campaign-IsPublished}
use saucepan.Campaign.Ready.{
  AllOk, bind_done, active_ne_archived, publish_done, activate_done, publish_again, IsReady,
  expand_stored_done,
}

module _ (fl : Float) where
  module _ (fixed4 : fl.F → String) (parse_request_uri : String → Option Url) (json : Json fl) where
    -- The first publication of a draft.
    publish_first :
        (calls : Calls) (now : ℕ) (user id : String) (w : World fl) (c : CampaignRow)
        (pack : Pack fl)
        → AllOk calls
        → lookup id w.campaigns ≡ some c
        → c.created_by ≡ some user
        → c.status ≢ "archived"
        → c.expanded_at ≡ none
        → IsReady fl fixed4 parse_request_uri json c pack
        → (w' : World fl) × (publish_campaign fl fixed4 parse_request_uri json calls now
              (some user)
              id
              w
            ≡ done (w', task_count fl pack.targets))
    publish_first calls now user id w c pack ok found owned live missing ready =
        let (w1, e) =
          expand_stored_done fl fixed4 parse_request_uri json calls now id c w pack ok ready in
        (
          update_campaign fl (with_status "active") id w1,
          publish_done fl fixed4 parse_request_uri json calls now user id w c ok found owned live
              ∙ (ap
                    (λ o.
                      expand_once fl fixed4 parse_request_uri json calls now id c o w
                      >>= activate fl fixed4 parse_request_uri json calls id)
                    missing
                  ∙ (bind_done (expand_stored fl fixed4 parse_request_uri json calls now id c w)
                        (w1, task_count fl pack.targets)
                        (activate fl fixed4 parse_request_uri json calls id) e
                      ∙ activate_done fl fixed4 parse_request_uri json calls id w1
                          (task_count fl pack.targets) ok)),
        )

    -- The owner of a campaign that was not expanded, with a stored pack that may be published,
    -- publishes it while no statement fails: it gets as many tasks as its targets have filters
    -- that are not blank. A second publication, at any time, succeeds too and creates none.
    pub publish_campaign_twice :
        (calls : Calls) (now later : ℕ) (user id : String) (w : World fl) (c : CampaignRow)
        (pack : Pack fl)
        → AllOk calls
        → lookup id w.campaigns ≡ some c
        → c.created_by ≡ some user
        → c.status ≢ "archived"
        → c.expanded_at ≡ none
        → IsReady fl fixed4 parse_request_uri json c pack
        → (w' : World fl) × (w'' : World fl) × (publish_campaign fl fixed4 parse_request_uri json
              calls now
              (some user)
              id
              w
            ≡ done (w', task_count fl pack.targets))
          × (publish_campaign fl fixed4 parse_request_uri json calls later (some user) id w'
              ≡ done (w'', 0))
          × (length w'.tasks ≡ length w.tasks + task_count fl pack.targets)
          × (w''.tasks ≡ w'.tasks)
    publish_campaign_twice calls now later user id w c pack ok found owned live missing ready =
        let (w', e) = publish_first calls now user id w c pack ok found owned live missing ready in
        let (_, d, _, _, p) =
          publish_campaign-IsPublished fl fixed4 parse_request_uri json calls now (some user) id w
            w' (task_count fl pack.targets) e in
        let same : d ≡ c = some_inj (sym p.found ∙ found) in
        let d' : CampaignRow = record d { status = "active"; expanded_at = p.expanded } in
        let there : lookup id w'.campaigns ≡ some d' =
          p.others id ∙ ap (λ b. if b then some d' else lookup id w.campaigns) (eq_refl id) in
        let set : p.expanded ≢ none = elim p.launched [
          | inl (_, (set, _)) ↦ set
          | inr (_, (set, _)) ↦ set
        ] in
        (
          w',
          update_campaign fl (with_status "active") id w',
          e,
          publish_again fl fixed4 parse_request_uri json calls later user id w' d' ok there
              (ap (λ (r : CampaignRow). r.created_by) same ∙ owned) active_ne_archived set,
          ap length p.tasks
              ∙ (length-append w.tasks p.rows ∙ ap (λ n. length w.tasks + n) p.counted),
          tasks-update_campaign fl (with_status "active") id w',
        )
