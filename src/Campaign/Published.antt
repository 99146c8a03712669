-- ===== src/Campaign/Published.antt =====
-- SaucepanServer/task-server/cmd/apiserver/campaigns.go: what a publication does.
use saucepan.Common.{
  ℕ, String, ◌≡◌, ◌≢◌, refl, ap, ◌∙◌, sym, subst, inl, inr, ◌⊎◌, false, not, Option, none, some,
  List, [], ◌++◌, ◌==◌, string_eq, if◌then◌else◌, arith, length, lookup, eq_iff, All,
}
use mathlib.Core.List.{append-nil}
use saucepan.Common.Float.{Float}
use saucepan.Pier.Address.{Url}
use saucepan.Campaign.Expand.{TaskSpec}
use saucepan.Campaign.Rows.{
  >>=-eq-done, guarded, taken, done_inj, tasks-update_campaign, authorize-created_by, IsNewTask,
  lookup-updated, lookup-updated_self,
}
use saucepan.Campaign.Publish.{
  done, ◌>>=◌, guard, or_fail, Calls, CampaignRow, Json, CampaignTask, World, update_campaign,
  with_status, with_expansion, authorize, activate, publish_transaction, expand_stored, expand_once,
  publish_row, publish_campaign,
}
use saucepan.Campaign.Stored.{else_same, IsLaunch, expand_stored-IsAdded}

module _ (fl : Float) where
  module _ (fixed4 : fl.F → String) (parse_request_uri : String → Option Url) (json : Json fl) where
    -- What a publication did, by the campaign before it.
    pub record IsPublished (id : String) (n : ℕ) (w w' : World fl) (c : CampaignRow) : Type 0 where
      pub found : lookup id w.campaigns ≡ some c
      pub not_archived : c.status ≢ "archived"
      pub rows : List (CampaignTask fl)
      pub tasks : w'.tasks ≡ w.tasks ++ rows
      pub counted : length rows ≡ n
      pub new : All (IsNewTask fl id) rows
      pub expanded : Option ℕ
      pub others :
          (wanted : String)
          → lookup wanted w'.campaigns ≡ (
              if id == wanted
              then some (record c { status = "active"; expanded_at = expanded })
              else lookup wanted w.campaigns)
      pub launched :
          ((c.expanded_at ≡ none)
            × ((expanded ≢ none)
                × ((specs : List (TaskSpec fl)) × IsLaunch fl fixed4 parse_request_uri json c specs
                    × (length specs ≡ n))))
          ⊎ ((c.expanded_at ≡ expanded) × ((expanded ≢ none) × (n ≡ 0)))

    activate-eq-done :
        (calls : Calls) (id : String) (w1 w' : World fl) (k n : ℕ)
        → activate fl fixed4 parse_request_uri json calls id (w1, k) ≡ done (w', n)
        → (update_campaign fl (with_status "active") id w1 ≡ w') × (k ≡ n)
    activate-eq-done calls id w1 w' k n h =
        let result = done (update_campaign fl (with_status "active") id w1, k) in
        let e =
          done_inj
            (guarded calls.commit_ok 500 result
              (guarded calls.write_ok 500 (guard calls.commit_ok 500 >>= λ _. result) h).1).1 in
        (ap (λ (p : World fl × ℕ). p.0) e, ap (λ (p : World fl × ℕ). p.1) e)

    -- The rows after an expansion that is marked and made active.
    abbrev launched_world : ℕ → String → World fl → World fl
    launched_world now id w =
        update_campaign fl (with_status "active") id (update_campaign fl (with_expansion now) id w)

    tasks-launched :
        (now : ℕ) (id : String) (w : World fl) → (launched_world now id w).tasks ≡ w.tasks
    tasks-launched now id w =
        tasks-update_campaign fl (with_status "active") id
          (update_campaign fl (with_expansion now) id w)
        ∙ tasks-update_campaign fl (with_expansion now) id w

    lookup-launched :
        (now : ℕ) (id wanted : String) (w w1 : World fl) (c : CampaignRow)
        → w1.campaigns ≡ w.campaigns
        → lookup id w.campaigns ≡ some c
        → lookup wanted (launched_world now id w1).campaigns ≡ (
            if id == wanted
            then some (record c { status = "active"; expanded_at = some now })
            else lookup wanted w.campaigns)
    lookup-launched now id wanted w w1 c same found =
        let there : lookup id w1.campaigns ≡ some c = ap (lookup id) same ∙ found in
        let marked = update_campaign fl (with_expansion now) id w1 in
        let e = lookup-updated fl (with_expansion now) id wanted w1 c there in
        let k =
          lookup-updated fl (with_status "active") id wanted marked (with_expansion now c)
            (lookup-updated_self fl (with_expansion now) id w1 c there) in
        let active = some (record c { status = "active"; expanded_at = some now }) in
        k
        ∙ (else_same (id == wanted) active (lookup wanted w1.campaigns) _ _ e
            ∙ ap (λ rows. if id == wanted then active else lookup wanted rows) same)

    publish_row-IsPublished :
        (calls : Calls) (now : ℕ) (id : String) (w w' : World fl) (c : CampaignRow) (n : ℕ)
        (expanded : Option ℕ)
        → lookup id w.campaigns ≡ some c
        → c.expanded_at ≡ expanded
        → ((c.status == "archived") ≡ false)
        → (expand_once fl fixed4 parse_request_uri json calls now id c expanded w
            >>= activate fl fixed4 parse_request_uri json calls id)
          ≡ done (w', n)
        → IsPublished id n w w' c
    publish_row-IsPublished calls now id w w' c n (some t) found before live h =
        let e = activate-eq-done calls id w w' 0 n h in
        record {
          found = found;
          not_archived = λ same. cc (live, (eq_iff c.status "archived").1 same);
          rows = [];
          tasks = sym (
              append-nil w.tasks
              ∙ (sym (tasks-update_campaign fl (with_status "active") id w)
                  ∙ ap (λ (v : World fl). v.tasks) e.0));
          counted = e.1;
          new = tt;
          expanded = c.expanded_at;
          others = λ wanted.
              subst
                (λ (v : World fl). lookup wanted v.campaigns ≡ (
                  if id == wanted
                  then some (with_status "active" c)
                  else lookup wanted w.campaigns))
                e.0 (lookup-updated fl (with_status "active") id wanted w c found);
          launched = inr (refl, (λ none_there. cc (before, none_there), sym e.1));
        }
    publish_row-IsPublished calls now id w w' c n none found before live h =
        let ((w2, k), expanded, h1) =
          >>=-eq-done (expand_stored fl fixed4 parse_request_uri json calls now id c w)
            (activate fl fixed4 parse_request_uri json calls id) h in
        let (specs, w1, launch, added, counted, marked) =
          expand_stored-IsAdded fl fixed4 parse_request_uri json calls now id c w w2 k expanded in
        let e = activate-eq-done calls id w2 w' k n h1 in
        let last : update_campaign fl (with_status "active") id
              (update_campaign fl (with_expansion now) id w1)
            ≡ w' =
          ap (update_campaign fl (with_status "active") id) (sym marked) ∙ e.0 in
        record {
          found = found;
          not_archived = λ same. cc (live, (eq_iff c.status "archived").1 same);
          rows = added.rows;
          tasks =
              subst (λ (v : World fl). v.tasks ≡ w.tasks ++ added.rows) last
                (tasks-launched now id w1 ∙ added.tasks);
          counted = added.counted ∙ e.1;
          new = added.new;
          expanded = some now;
          others = λ wanted.
              subst
                (λ (v : World fl). lookup wanted v.campaigns ≡ (
                  if id == wanted
                  then some (record c { status = "active"; expanded_at = some now })
                  else lookup wanted w.campaigns))
                last (lookup-launched now id wanted w w1 c added.campaigns found);
          launched =
              inl (
                before,
                (λ none_there. absurd (cc none_there), (specs, launch, sym counted ∙ e.1)),
              );
        }

    -- A publication that succeeds was asked for by the owner of a campaign that is not archived. It
    -- makes that campaign active and expanded, and changes no other campaign. Its tasks come behind
    -- those that are there, all pending, for this campaign, and as many as are answered. If the
    -- campaign was not expanded before, they are as many as the stored pack expands to, which is in
    -- order, with an approved hook if it needs that; if it was, there are none.
    pub publish_campaign-IsPublished :
        (calls : Calls) (now : ℕ) (claims : Option String) (id : String) (w w' : World fl) (n : ℕ)
        → publish_campaign fl fixed4 parse_request_uri json calls now claims id w ≡ done (w', n)
        → (user : String) × (c : CampaignRow) × (claims ≡ some user)
          × (c.created_by ≡ some user)
          × IsPublished id n w w' c
    unfolding publish_campaign publish_row
    publish_campaign-IsPublished calls now claims id w w' n h =
        let transaction = publish_transaction fl fixed4 parse_request_uri json calls now id w in
        let (_, allowed, h1) = >>=-eq-done (authorize fl calls claims id w) (λ _. transaction) h in
        let row = publish_row fl fixed4 parse_request_uri json calls now id w in
        let h3 = (guarded calls.begin_ok 500 _ h1).1 in
        let h4 = (guarded calls.read_ok 500 (or_fail (lookup id w.campaigns) 404 >>= row) h3).1 in
        let (c, found, h5) = taken (lookup id w.campaigns) 404 row h4 in
        let h6 =
          guarded (not (c.status == "archived")) 409
            (expand_once fl fixed4 parse_request_uri json calls now id c c.expanded_at w
              >>= activate fl fixed4 parse_request_uri json calls id)
            h5 in
        let (user, claimed, owned) = authorize-created_by fl calls claims id w c found allowed in
        (
          user,
          c,
          claimed,
          owned,
          publish_row-IsPublished calls now id w w' c n c.expanded_at found refl
              (ground (arith, h6)) h6.1,
        )
