-- ===== src/Campaign/Life/Steps.antt =====
-- SaucepanServer/task-server/cmd/apiserver/campaigns.go and budget.go: what each handler does to the
-- campaigns that were launched.
use saucepan.Common.{
  ℕ, String, ◌≡◌, ◌≢◌, refl, ap, ◌∙◌, sym, inl, inr, Bool, true, false, not, Option, none, some,
  List, ◌==◌, string_eq, if◌then◌else◌, lookup, lookup-insert, length, nat_eq, filter, ◌&&◌,
}
use saucepan.Common.Float.{Float}
use saucepan.Common.Int.{ℤ}
use saucepan.Pier.Actions.{Bytes}
use saucepan.Pier.Address.{Url}
use saucepan.Campaign.{Pack}
use saucepan.Common.Text.{trim_space}
use saucepan.Campaign.Check.{validate_pack_object_keys, zero_float}
use saucepan.Campaign.Expand.{TaskSpec}
use saucepan.Campaign.Publish.{
  Outcome, done, fail, ◌>>=◌, guard, or_fail, Calls, CampaignRow, CampaignTask, Json, World, settle,
  create_campaign, with_status, publish_campaign, add_campaign_task, maybe_complete_campaign,
  update_campaign, complete_row, complete_for, complete_campaign, create_decoded, create_canonical,
  insert_draft, draft_row, add_row, authorize, task_by_id, belongs_to, is_over,
  insert_campaign_task,
}
use saucepan.Campaign.Rows.{guarded, passed, taken, done_inj, >>=-eq-done}
use saucepan.Campaign.Published.{publish_campaign-IsPublished}
use saucepan.Campaign.Life.{approve_row, cover_row, persist_campaign_coverage}
use saucepan.Campaign.Life.Safe.{
  IsSafe, Allowed, IsLaunch_moves, IsLaunched_moves, KeepsPack, cover_row-IsLaunched, same-Allowed,
  replaced-Allowed, update-Allowed,
}

module _ (fl : Float) (fixed4 : fl.F → String) (parse_request_uri : String → Option Url)
    (json : Json fl) where
  abbrev Safe : CampaignRow → Type 0
  Safe = IsSafe fl fixed4 parse_request_uri json

  abbrev Permits : World fl → World fl → Type 0
  Permits = Allowed fl fixed4 parse_request_uri json

  pub settle-Allowed :
      (w : World fl) (o : Outcome (World fl × ℕ))
      → ((w' : World fl) (n : ℕ) → o ≡ done (w', n) → Permits w w')
      → Permits w (settle fl w o).0
  settle-Allowed w (done (w', n)) h = h w' n refl
  settle-Allowed w (fail status) h =
      same-Allowed fl fixed4 parse_request_uri json w w (λ wanted. refl)

  draft_row-Safe :
      (user : String) (pack : Pack fl) (canonical : Bytes) → Safe (draft_row fl user pack canonical)
  draft_row-Safe user pack canonical = record {
    expanded = λ no_draft. absurd (no_draft refl);
    launched = λ expanded. absurd (expanded refl);
  }

  insert_draft-Allowed :
      (calls : Calls) (fresh : String) (pack : Pack fl) (canonical : Bytes) (user : String)
      (w w' : World fl) (n : ℕ)
      → insert_draft fl calls fresh pack w canonical user ≡ done (w', n)
      → Permits w w'
  insert_draft-Allowed calls fresh pack canonical user w w' n h =
      let h1 = (guarded (not (user == "")) 401 _ h).1 in
      let (free, h2) = passed (lookup fresh w.campaigns) 500 _ h1 in
      let e = done_inj (guarded calls.write_ok 500 _ h2).1 in
      let new = draft_row fl user pack canonical in
      replaced-Allowed fl fixed4 parse_request_uri json fresh new w w'
        (λ wanted.
          ap (λ (p : World fl × ℕ). lookup wanted p.0.campaigns) (sym e)
          ∙ lookup-insert fresh wanted new w.campaigns)
        (λ all. draft_row-Safe user pack canonical)
        (λ (c, found, expanded). absurd (cc (free, found)))

  pub create_campaign-Allowed :
      (calls : Calls) (claims : Option String) (fresh : String) (body : Bytes) (w w' : World fl)
      (n : ℕ)
      → create_campaign fl json calls claims fresh body w ≡ done (w', n)
      → Permits w w'
  unfolding create_campaign
  create_campaign-Allowed calls claims fresh body w w' n h =
      let h1 =
        (passed (validate_pack_object_keys (length body) (json.object_keys body) false) 400
          (or_fail (json.decode_strictly body) 400 >>= create_decoded fl json calls claims fresh w)
          h).1 in
      let (pack, _, h2) =
        taken (json.decode_strictly body) 400 (create_decoded fl json calls claims fresh w) h1 in
      let (canonical, _, h3) =
        taken (json.marshal pack) 400 (create_canonical fl calls claims fresh pack w) h2 in
      let h4 =
        (guarded (not (trim_space pack.name == "")) 400
          (or_fail claims 401 >>= insert_draft fl calls fresh pack w canonical) h3).1 in
      let (user, _, h5) = taken claims 401 (insert_draft fl calls fresh pack w canonical) h4 in
      insert_draft-Allowed calls fresh pack canonical user w w' n h5

  add_row-Allowed :
      (calls : Calls) (id : String) (spec : TaskSpec fl) (priority : ℤ) (c : CampaignRow)
      (w w' : World fl) (n : ℕ)
      → add_row fl calls id spec priority w c ≡ done (w', n)
      → Permits w w'
  unfolding insert_campaign_task
  add_row-Allowed calls id spec priority c w w' n h =
      let e = done_inj (guarded (calls.insert_ok 0) 500 _ h).1 in
      same-Allowed fl fixed4 parse_request_uri json w w'
        (λ wanted. ap (λ (p : World fl × ℕ). lookup wanted p.0.campaigns) (sym e))

  pub add_campaign_task-Allowed :
      (calls : Calls) (claims : Option String) (id : String) (spec : TaskSpec fl) (priority : ℤ)
      (w w' : World fl) (n : ℕ)
      → add_campaign_task fl calls claims id spec priority w ≡ done (w', n)
      → Permits w w'
  unfolding add_campaign_task
  add_campaign_task-Allowed calls claims id spec priority w w' n h =
      let h1 = (guarded (not (spec.name == "")) 400 _ h).1 in
      let h2 =
        (guarded (not (fl.le spec.normalized_integration_budget_s (zero_float fl))) 400 _ h1).1 in
      let row = or_fail (lookup id w.campaigns) 404 >>= add_row fl calls id spec priority w in
      let (_, _, h3) =
        >>=-eq-done (authorize fl calls claims id w) (λ _. guard calls.read_ok 404 >>= λ _. row)
          h2 in
      let h4 = (guarded calls.read_ok 404 row h3).1 in
      let (c, _, h5) = taken (lookup id w.campaigns) 404 (add_row fl calls id spec priority w) h4 in
      add_row-Allowed calls id spec priority c w w' n h5

  pub publish_campaign-Allowed :
      (calls : Calls) (now : ℕ) (claims : Option String) (id : String) (w w' : World fl) (n : ℕ)
      → publish_campaign fl fixed4 parse_request_uri json calls now claims id w ≡ done (w', n)
      → Permits w w'
  publish_campaign-Allowed calls now claims id w w' n h =
      let (user, c, _, _, p) =
        publish_campaign-IsPublished fl fixed4 parse_request_uri json calls now claims id w w' n
          h in
      let d : CampaignRow = record c { status = "active"; expanded_at = p.expanded } in
      let moves = λ (specs : List (TaskSpec fl)).
        IsLaunch_moves fl fixed4 parse_request_uri json c d specs refl refl (λ granted. granted) in
      replaced-Allowed fl fixed4 parse_request_uri json id d w w' p.others
        (λ all. elim p.launched [
          | inl (_, (expanded, (specs, launch, _))) ↦ record {
            expanded = λ _. expanded;
            launched = λ _. moves specs launch;
          }
          | inr (same, (expanded, _)) ↦
              let launched =
                (all id c p.found).launched (λ missing. expanded (sym same ∙ missing)) in
              record {
                expanded = λ _. expanded;
                launched = λ _.
                    IsLaunched_moves fl fixed4 parse_request_uri json c d refl refl
                      (λ granted. granted) launched;
              }
        ])
        (λ _. elim p.launched [
          | inl (_, (expanded, _)) ↦ expanded
          | inr (_, (expanded, _)) ↦ expanded
        ])

  kept-Allowed : (w : World fl) → Permits w w
  kept-Allowed w = same-Allowed fl fixed4 parse_request_uri json w w (λ wanted. refl)

  if_Allowed :
      (test : Bool) (w x y : World fl)
      → Permits w x
      → Permits w y
      → Permits w (if test then x else y)
  if_Allowed true w x y p q = p
  if_Allowed false w x y p q = q

  -- A status other than draft is written to a campaign that was expanded.
  pub with_status-Safe :
      (status : String) (c : CampaignRow)
      → c.expanded_at ≢ none
      → Safe c
      → Safe (with_status status c)
  with_status-Safe status c expanded safe = record {
    expanded = λ _. expanded;
    launched = λ _.
        IsLaunched_moves fl fixed4 parse_request_uri json c (with_status status c) refl refl
          (λ granted. granted) (safe.launched expanded);
  }

  complete_row-Safe :
      (c : CampaignRow) (test : Bool)
      → (c.status == "active") ≡ test
      → Safe c
      → Safe (if test then with_status "completed" c else c)
  complete_row-Safe c true active safe =
      with_status-Safe "completed" c
        (safe.expanded (λ draft. cc (active, ap (λ s. s == "active") draft))) safe
  complete_row-Safe c false other safe = safe

  complete_row_expands :
      (c : CampaignRow) (test : Bool)
      → c.expanded_at ≢ none
      → (if test then with_status "completed" c else c).expanded_at ≢ none
  complete_row_expands c true e = e
  complete_row_expands c false e = e

  complete_campaign-Allowed :
      (id : Option String) (w : World fl) → Permits w (complete_campaign fl id w)
  complete_campaign-Allowed none w = kept-Allowed w
  complete_campaign-Allowed (some id) w =
      let remaining =
        length (filter (λ u. belongs_to fl id u && not (is_over fl u.status)) w.tasks) in
      let completed = update_campaign fl (complete_row fl) id w in
      if_Allowed (id == "") w w (if remaining == 0 then completed else w) (kept-Allowed w) (
        if_Allowed (remaining == 0) w completed w
          (update-Allowed fl fixed4 parse_request_uri json (complete_row fl) id w
            (λ c found. complete_row-Safe c (c.status == "active") refl)
            (λ c. complete_row_expands c (c.status == "active")))
          (kept-Allowed w))

  complete_for-Allowed :
      (t : Option (CampaignTask fl)) (w : World fl) → Permits w (complete_for fl t w)
  complete_for-Allowed none w = kept-Allowed w
  complete_for-Allowed (some t) w = complete_campaign-Allowed t.campaign_id w

  pub complete-Allowed :
      (ok : Bool) (task_id : ℕ) (w : World fl) → Permits w (maybe_complete_campaign fl ok task_id w)
  unfolding maybe_complete_campaign
  complete-Allowed ok task_id w =
      let t = task_by_id fl task_id w.tasks in
      if_Allowed ok w (complete_for fl t w) w (complete_for-Allowed t w) (kept-Allowed w)

  pub approve-Allowed :
      (id : String) (w : World fl) → Permits w (update_campaign fl (approve_row fl) id w)
  approve-Allowed id w =
      update-Allowed fl fixed4 parse_request_uri json (approve_row fl) id w
        (λ c found safe. record {
          expanded = safe.expanded;
          launched = λ e.
              IsLaunched_moves fl fixed4 parse_request_uri json c (approve_row fl c) refl refl
                (λ _. refl) (safe.launched e);
        })
        (λ c e. e)

  pub cover-Allowed :
      (ok : Bool) (id : String) (coverage : Bytes) (w : World fl)
      → KeepsPack fl fixed4 parse_request_uri json
      → Permits w (persist_campaign_coverage fl json ok id coverage w)
  unfolding persist_campaign_coverage
  cover-Allowed ok id coverage w keeps =
      if_Allowed ok w (update_campaign fl (cover_row fl json coverage) id w) w
        (update-Allowed fl fixed4 parse_request_uri json (cover_row fl json coverage) id w
          (λ c found safe. record {
            expanded = safe.expanded;
            launched = λ e.
                cover_row-IsLaunched fl fixed4 parse_request_uri json coverage c keeps
                  (safe.launched e);
          })
          (λ c e. e))
        (kept-Allowed w)
