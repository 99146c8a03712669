-- ===== src/Campaign/Ready.antt =====
-- SaucepanServer/task-server/cmd/apiserver/campaigns.go: the steps of a publication that nothing
-- stands against.
use saucepan.Common.{
  ℕ, ◌+◌, String, ◌≡◌, ◌≢◌, refl, ap, ◌∙◌, inl, inr, Bool, true, false, not, ◌&&◌, Option, none,
  some, List, [], ◌∷◌, ◌==◌, string_eq, if◌then◌else◌, arith, length, lookup, Bool-cases,
  Option-cases, eq_iff, eq_refl,
}
use saucepan.Common.Float.{Float}
use saucepan.Common.Int.{pos}
use saucepan.Pier.Address.{Url}
use saucepan.Campaign.{Pack}
use saucepan.Campaign.Check.{
  HookError, not_approved, normalized_hook_placement, validate_hook_publish, reject, first,
  validate_pack_object_keys,
}
use saucepan.Campaign.Expand.{TaskSpec, Expanded, tasks, refused, expand_pack}
use saucepan.Campaign.Specs.{task_count}
use saucepan.Campaign.Tasks.{IsExpandable, Expansion, expand_pack-Expansion}
use saucepan.Campaign.Publish.{
  Outcome, done, fail, ◌>>=◌, guard, or_fail, none_or_fail, Calls, CampaignRow, Json, World,
  insert_campaign_task, update_campaign, with_status, with_expansion, is_owner, is_user,
  assert_campaign_owner, authorize, approved_or_fail, specs_or_fail, specs_of_pack, stored_specs,
  insert_specs, insert_all_specs, mark_expanded, expand_stored, expand_once, activate, publish_row,
  publish_campaign,
}
use saucepan.Campaign.Stored.{IsApproved}

-- Every statement of a handler succeeds.
pub record AllOk (calls : Calls) : Type 0 where
  pub owner : calls.owner_ok ≡ true
  pub begin : calls.begin_ok ≡ true
  pub read : calls.read_ok ≡ true
  pub insert : (i : ℕ) → calls.insert_ok i ≡ true
  pub mark : calls.mark_ok ≡ true
  pub write : calls.write_ok ≡ true
  pub commit : calls.commit_ok ≡ true

pub bind_done :
    {A B : Type 0} (m : Outcome A) (a : A) (f : A → Outcome B) → m ≡ done a → (m >>= f) ≡ f a
bind_done m a f e = ap (λ m. m >>= f) e

pub guard_done :
    {B : Type 0} (test : Bool) (status : ℕ) (m : Outcome B)
    → test ≡ true
    → (guard test status >>= λ _. m) ≡ m
guard_done test status m e = ap (λ b. guard b status >>= λ _. m) e

pub not_eq : (s t : String) → s ≢ t → not (s == t) ≡ true
not_eq s t h = elim (Bool-cases (s == t)) [
  | inl same ↦ absurd (h ((eq_iff s t).0 same))
  | inr other ↦ ap not other
]

pub not_compute :
    (placement : String) (hook_approved : Bool)
    → (placement ≡ "compute" → hook_approved ≡ true)
    → (placement == "compute" && not hook_approved) ≡ false
not_compute placement hook_approved h = elim (Bool-cases (placement == "compute")) [
  | inl same ↦ rw (h ((eq_iff placement "compute").0 same)) (ground arith)
  | inr other ↦ ap (λ b. b && not hook_approved) other
]

pub active_ne_archived : ◌≢◌ {A = String} "active" "archived"
active_ne_archived same = cc ((eq_iff "active" "archived").1 same)

module _ (fl : Float) where
  pub insert_specs_done :
      (ok : ℕ → Bool) (id : String)
      → ((i : ℕ) → ok i ≡ true)
      → (i : ℕ) (specs : List (TaskSpec fl)) (w : World fl)
      → (w' : World fl) × (insert_specs fl ok id i specs w ≡ done w')
  unfolding insert_specs
  insert_specs_done ok id all i [] w = (w, refl)
  insert_specs_done ok id all i (spec ∷ specs) w =
      let (w', e) =
        insert_specs_done ok id all (i + 1) specs (insert_campaign_task fl id (pos 0) spec w) in
      (
        w',
        ap
              (λ b.
                if b
                then insert_specs fl ok id (i + 1) specs (insert_campaign_task fl id (pos 0) spec w)
                else fail 500)
              (all i)
            ∙ e,
      )

  pub authorize_done :
      (calls : Calls) (user id : String) (w : World fl) (c : CampaignRow)
      → AllOk calls
      → lookup id w.campaigns ≡ some c
      → c.created_by ≡ some user
      → authorize fl calls (some user) id w ≡ done tt
  unfolding assert_campaign_owner
  authorize_done calls user id w c ok found owned =
      ap (λ b. guard (b && is_owner (lookup id w.campaigns) user) 403) ok.owner
      ∙ (ap (λ o. guard (is_owner o user) 403) found
          ∙ (ap (λ o. guard (is_user o user) 403) owned ∙ ap (λ b. guard b 403) (eq_refl user)))

  module _ (fixed4 : fl.F → String) (parse_request_uri : String → Option Url) (json : Json fl) where
    pub publish_done :
        (calls : Calls) (now : ℕ) (user id : String) (w : World fl) (c : CampaignRow)
        → AllOk calls
        → lookup id w.campaigns ≡ some c
        → c.created_by ≡ some user
        → c.status ≢ "archived"
        → publish_campaign fl fixed4 parse_request_uri json calls now (some user) id w ≡ (
            expand_once fl fixed4 parse_request_uri json calls now id c c.expanded_at w
            >>= activate fl fixed4 parse_request_uri json calls id)
    unfolding publish_campaign publish_row
    publish_done calls now user id w c ok found owned live =
        let row = publish_row fl fixed4 parse_request_uri json calls now id w in
        bind_done (authorize fl calls (some user) id w) tt _
          (authorize_done calls user id w c ok found owned)
        ∙ (guard_done calls.begin_ok 500 _ ok.begin
            ∙ (guard_done calls.read_ok 500 (or_fail (lookup id w.campaigns) 404 >>= row) ok.read
                ∙ (ap (λ o. or_fail o 404 >>= row) found
                    ∙ guard_done (not (c.status == "archived")) 409 _
                        (not_eq c.status "archived" live))))

    pub activate_done :
        (calls : Calls) (id : String) (w : World fl) (n : ℕ)
        → AllOk calls
        → activate fl fixed4 parse_request_uri json calls id (w, n)
          ≡ done (update_campaign fl (with_status "active") id w, n)
    activate_done calls id w n ok =
        guard_done calls.write_ok 500 _ ok.write ∙ guard_done calls.commit_ok 500 _ ok.commit

    -- A campaign that was expanded is made active, and that is all.
    pub publish_again :
        (calls : Calls) (now : ℕ) (user id : String) (w : World fl) (c : CampaignRow)
        → AllOk calls
        → lookup id w.campaigns ≡ some c
        → c.created_by ≡ some user
        → c.status ≢ "archived"
        → c.expanded_at ≢ none
        → publish_campaign fl fixed4 parse_request_uri json calls now (some user) id w
          ≡ done (update_campaign fl (with_status "active") id w, 0)
    publish_again calls now user id w c ok found owned live expanded =
        elim (Option-cases c.expanded_at) [
          | inl missing ↦ absurd (expanded missing)
          | inr (t, there) ↦
              publish_done calls now user id w c ok found owned live
              ∙ (ap
                    (λ o.
                      expand_once fl fixed4 parse_request_uri json calls now id c o w
                      >>= activate fl fixed4 parse_request_uri json calls id)
                    there
                  ∙ activate_done calls id w 0 ok)
        ]

    -- A stored pack that may be published: its keys are known, it parses, it can be expanded, and
    -- its hook is approved if it needs that.
    pub record IsReady (c : CampaignRow) (pack : Pack fl) : Type 0 where
      pub keys :
          validate_pack_object_keys (length c.pack_json) (json.object_keys c.pack_json) true ≡ none
      pub stored : json.parse_pack c.pack_json ≡ some pack
      pub approval : IsApproved fl fixed4 parse_request_uri json pack c
      pub expandable :
          IsExpandable fl fixed4 parse_request_uri (record pack { test_only = c.test_only })

    pub expanded_specs :
        (p : Pack fl) (e : Expanded fl)
        → expand_pack fl fixed4 parse_request_uri p ≡ e
        → IsExpandable fl fixed4 parse_request_uri p
        → Expansion fl fixed4 parse_request_uri p e
        → (specs : List (TaskSpec fl)) × (expand_pack fl fixed4 parse_request_uri p ≡ tasks specs)
          × (length specs ≡ task_count fl p.targets)
    expanded_specs p (tasks specs) e ok expansion = (specs, e, expansion.counted)
    expanded_specs p (refused why) e ok expansion = absurd (expansion ok)

    pub specs_of_pack_done :
        (c : CampaignRow) (pack : Pack fl)
        → IsReady c pack
        → (specs : List (TaskSpec fl)) × (stored_specs fl fixed4 parse_request_uri json c
            ≡ done specs)
          × (length specs ≡ task_count fl pack.targets)
    unfolding stored_specs validate_hook_publish
    specs_of_pack_done c pack ready =
        let p : Pack fl = record pack { test_only = c.test_only } in
        let placement = normalized_hook_placement p.hook_placement in
        let rest =
          specs_or_fail fl fixed4 parse_request_uri json
            (expand_pack fl fixed4 parse_request_uri p) in
        let approve = λ (e : Option HookError).
          approved_or_fail fl fixed4 parse_request_uri json e >>= λ _. rest in
        let (specs, e, counted) =
          expanded_specs p (expand_pack fl fixed4 parse_request_uri p) refl ready.expandable
            (expand_pack-Expansion fl fixed4 parse_request_uri p) in
        (
          specs,
          ap
                (λ k. none_or_fail k 400 >>= λ _.
                  (or_fail (json.parse_pack c.pack_json) 400
                    >>= specs_of_pack fl fixed4 parse_request_uri json c))
                ready.keys
              ∙ (ap (λ o. or_fail o 400 >>= specs_of_pack fl fixed4 parse_request_uri json c)
                    ready.stored
                  ∙ (ap
                        (λ o. approve (
                          first o
                            (reject (placement == "compute" && not c.hook_approved) not_approved)))
                        ready.expandable.1.0
                      ∙ (ap (λ b. approve (reject b not_approved))
                            (not_compute placement c.hook_approved ready.approval)
                          ∙ ap (specs_or_fail fl fixed4 parse_request_uri json) e))),
          counted,
        )

    pub expand_stored_done :
        (calls : Calls) (now : ℕ) (id : String) (c : CampaignRow) (w : World fl) (pack : Pack fl)
        → AllOk calls
        → IsReady c pack
        → (w' : World fl) × (expand_stored fl fixed4 parse_request_uri json calls now id c w
            ≡ done (w', task_count fl pack.targets))
    unfolding expand_stored
    expand_stored_done calls now id c w pack ok ready =
        let (specs, e, counted) = specs_of_pack_done c pack ready in
        let (w1, inserted) = insert_specs_done calls.insert_ok id ok.insert 0 specs w in
        let marked = update_campaign fl (with_expansion now) id w1 in
        (
          marked,
          bind_done (stored_specs fl fixed4 parse_request_uri json c) specs
                (insert_all_specs fl fixed4 parse_request_uri json calls now id w) e
              ∙ (bind_done (insert_specs fl calls.insert_ok id 0 specs w) w1
                    (mark_expanded fl fixed4 parse_request_uri json calls now id (length specs))
                    inserted
                  ∙ (guard_done calls.mark_ok 500 (done (marked, length specs)) ok.mark
                      ∙ ap (λ n. done (marked, n)) counted)),
        )
