-- ===== src/Campaign/Stored.antt =====
-- SaucepanServer/task-server/cmd/apiserver/campaigns.go: what the stored pack of a campaign is, when
-- its expansion succeeds.
use saucepan.Common.{
  ℕ, String, ◌≡◌, refl, ap, sym, subst, Bool, true, false, not, ◌&&◌, Option, none, some, List,
  ◌==◌, string_eq, if◌then◌else◌, length, eq_iff,
}
use saucepan.Common.Float.{Float}
use saucepan.Pier.Address.{Url}
use saucepan.Campaign.{Pack}
use saucepan.Campaign.Check.{
  HookError, not_approved, normalized_hook_placement, validate_hook_publish, reject, first,
  validate_hook_fields, validate_pack_object_keys,
}
use saucepan.Campaign.Expand.{TaskSpec, Expanded, tasks, refused, expand_pack}
use saucepan.Campaign.Tasks.{IsExpansion, Expansion, expand_pack-Expansion}
use saucepan.Campaign.Rows.{
  >>=-eq-done, guarded, passed, taken, done_inj, IsAdded, insert_specs-IsAdded,
}
use saucepan.Campaign.Publish.{
  done, ◌>>=◌, or_fail, Calls, CampaignRow, Json, World, update_campaign, with_expansion,
  approved_or_fail, specs_or_fail, stored_specs, insert_specs, specs_of_pack, insert_all_specs,
  mark_expanded, expand_stored,
}

pub approval_of :
    (e : Option HookError) (compute hook_approved : Bool)
    → first e (reject (compute && not hook_approved) not_approved) ≡ none
    → compute ≡ true
    → hook_approved ≡ true
approval_of (some e) compute hook_approved h k = absurd (cc h)
approval_of none true true h k = refl
approval_of none true false h k = absurd (cc h)
approval_of none false hook_approved h k = absurd (cc k)

pub else_same :
    {A : Type 0} (b : Bool) (x y z u : A)
    → u ≡ (if b then z else y)
    → (if b then x else u) ≡ (if b then x else y)
else_same true x y z u h = refl
else_same false x y z u h = h

module _ (fl : Float) where
  module _ (fixed4 : fl.F → String) (parse_request_uri : String → Option Url) (json : Json fl) where
    pub approved :
        (e : Option HookError)
        → approved_or_fail fl fixed4 parse_request_uri json e ≡ done tt
        → e ≡ none
    approved none h = refl
    approved (some not_approved) h = absurd (cc h)
    approved (some HookError.bad_placement) h = absurd (cc h)
    approved (some HookError.no_image_ref) h = absurd (cc h)
    approved (some HookError.no_placement) h = absurd (cc h)

    pub specs_or_fail-eq-done :
        (e : Expanded fl) {specs : List (TaskSpec fl)}
        → specs_or_fail fl fixed4 parse_request_uri json e ≡ done specs
        → e ≡ tasks specs
    specs_or_fail-eq-done (tasks specs) h = cc h
    specs_or_fail-eq-done (refused e) h = absurd (cc h)

    -- A pack whose hook runs on a compute server has the approval of an operator.
    abbrev pub IsApproved : Pack fl → CampaignRow → Type 0
    IsApproved pack c =
        normalized_hook_placement pack.hook_placement ≡ "compute" → c.hook_approved ≡ true

    -- What a campaign is published with: the pack that is stored, in order and approved, and the
    -- tasks that it comes to.
    pub record IsLaunch (c : CampaignRow) (specs : List (TaskSpec fl)) : Type 0 where
      pub pack : Pack fl
      pub stored : json.parse_pack c.pack_json ≡ some pack
      pub approval : IsApproved pack c
      pub expansion :
          IsExpansion fl fixed4 parse_request_uri (record pack { test_only = c.test_only }) specs

    pub hook_approval :
        (pack : Pack fl) (c : CampaignRow)
        → validate_hook_publish fl pack c.hook_approved ≡ none
        → IsApproved pack c
    unfolding validate_hook_publish
    hook_approval pack c h compute =
        approval_of (validate_hook_fields fl pack)
          (normalized_hook_placement pack.hook_placement == "compute") c.hook_approved h
          ((eq_iff _ "compute").1 compute)

    pub specs_of_pack-IsLaunch :
        (c : CampaignRow) (pack : Pack fl) (specs : List (TaskSpec fl))
        → json.parse_pack c.pack_json ≡ some pack
        → specs_of_pack fl fixed4 parse_request_uri json c pack ≡ done specs
        → IsLaunch c specs
    specs_of_pack-IsLaunch c pack specs stored h =
        let p : Pack fl = record pack { test_only = c.test_only } in
        let (_, ok, e) =
          >>=-eq-done
            (approved_or_fail fl fixed4 parse_request_uri json
              (validate_hook_publish fl p c.hook_approved))
            (λ _.
              specs_or_fail fl fixed4 parse_request_uri json
                (expand_pack fl fixed4 parse_request_uri p))
            h in
        record {
          pack = pack;
          stored = stored;
          approval = hook_approval p c (approved (validate_hook_publish fl p c.hook_approved) ok);
          expansion =
              subst (Expansion fl fixed4 parse_request_uri p)
                (specs_or_fail-eq-done (expand_pack fl fixed4 parse_request_uri p) e)
                (expand_pack-Expansion fl fixed4 parse_request_uri p);
        }

    pub stored_specs-IsLaunch :
        (c : CampaignRow) (specs : List (TaskSpec fl))
        → stored_specs fl fixed4 parse_request_uri json c ≡ done specs
        → IsLaunch c specs
    unfolding stored_specs
    stored_specs-IsLaunch c specs h =
        let k =
          passed
            (validate_pack_object_keys (length c.pack_json) (json.object_keys c.pack_json) true) 400
            (or_fail (json.parse_pack c.pack_json) 400
              >>= specs_of_pack fl fixed4 parse_request_uri json c)
            h in
        let (pack, stored, e) =
          taken (json.parse_pack c.pack_json) 400 (specs_of_pack fl fixed4 parse_request_uri json c)
            k.1 in
        specs_of_pack-IsLaunch c pack specs stored e

    pub expand_stored-IsAdded :
        (calls : Calls) (now : ℕ) (id : String) (c : CampaignRow) (w w' : World fl) (n : ℕ)
        → expand_stored fl fixed4 parse_request_uri json calls now id c w ≡ done (w', n)
        → (specs : List (TaskSpec fl)) × (w1 : World fl) × IsLaunch c specs
          × IsAdded fl id n w w1
          × (n ≡ length specs)
          × (w' ≡ update_campaign fl (with_expansion now) id w1)
    unfolding expand_stored
    expand_stored-IsAdded calls now id c w w' n h =
        let (specs, stored, h1) =
          >>=-eq-done (stored_specs fl fixed4 parse_request_uri json c)
            (insert_all_specs fl fixed4 parse_request_uri json calls now id w) h in
        let (w1, inserted, h2) =
          >>=-eq-done (insert_specs fl calls.insert_ok id 0 specs w)
            (mark_expanded fl fixed4 parse_request_uri json calls now id (length specs)) h1 in
        let e =
          done_inj
            (guarded calls.mark_ok 500
              (done (update_campaign fl (with_expansion now) id w1, length specs)) h2).1 in
        let counted : n ≡ length specs = ap (λ (p : World fl × ℕ). p.1) (sym e) in
        (
          specs,
          w1,
          stored_specs-IsLaunch c specs stored,
          subst (λ k. IsAdded fl id k w w1) (sym counted)
              (insert_specs-IsAdded fl calls.insert_ok id 0 specs w w1 inserted),
          counted,
          ap (λ (p : World fl × ℕ). p.0) (sym e),
        )
