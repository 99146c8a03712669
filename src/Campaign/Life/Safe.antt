-- ===== src/Campaign/Life/Safe.antt =====
-- SaucepanServer/task-server/cmd/apiserver/campaigns.go: no campaign runs that was not launched.
use saucepan.Common.{
  String, ◌≡◌, ◌≢◌, refl, ap, ◌∙◌, sym, subst, ◌⊎◌, inl, inr, Bool, true, false, Option, none, some,
  List, ◌==◌, string_eq, if◌then◌else◌, lookup, Bool-cases, Option-cases, eq_iff,
}
use saucepan.Common.Float.{Float}
use saucepan.Pier.Address.{Url}
use saucepan.Campaign.Expand.{TaskSpec}
use saucepan.Campaign.Check.{normalized_hook_placement}
use saucepan.Campaign.Tasks.{IsExpansion}
use saucepan.Campaign.Publish.{CampaignRow, Json, World, update_campaign}
use saucepan.Campaign.Rows.{some_inj, lookup-update_campaign, lookup-updated, now_at}
use saucepan.Pier.Actions.{Bytes}
use saucepan.Campaign.{Pack, CoverageIntent}
use saucepan.Campaign.Life.{cover_row, or_json}
use saucepan.Campaign.Stored.{IsLaunch}

replaced_row :
    (b : Bool) (d c : CampaignRow) (o : Option CampaignRow)
    → (if b then some d else o) ≡ some c
    → (d ≡ c) ⊎ (o ≡ some c)
replaced_row true d c o h = inl (cc h)
replaced_row false d c o h = inr h

unchanged_row :
    (b : Bool) (o p : Option CampaignRow) → (b ≡ true → o ≡ p) → (if b then p else o) ≡ o
unchanged_row true o p h = sym (h refl)
unchanged_row false o p h = refl

module _ (fl : Float) (fixed4 : fl.F → String) (parse_request_uri : String → Option Url)
    (json : Json fl) where
  -- The pack that is stored, but for its coverage, is in order and approved: with some coverage or
  -- none in that place it comes to tasks.
  pub record IsLaunched (c : CampaignRow) : Type 0 where
    pub pack : Pack fl
    pub stored : json.parse_pack c.pack_json ≡ some pack
    pub approval :
        normalized_hook_placement pack.hook_placement ≡ "compute" → c.hook_approved ≡ true
    pub some_coverage : Option (CoverageIntent fl)
    pub specs : List (TaskSpec fl)
    pub expansion :
        IsExpansion fl fixed4 parse_request_uri
          (record pack { coverage = some_coverage; test_only = c.test_only })
          specs

  -- Rewriting the coverage of a stored pack leaves the rest of it as it was.
  abbrev pub KeepsPack : Type 0
  KeepsPack =
      (old coverage new : Bytes) (pack : Pack fl)
      → json.set_coverage old coverage ≡ some new
      → json.parse_pack old ≡ some pack
      → (c : Option (CoverageIntent fl)) × (json.parse_pack new
          ≡ some (record pack { coverage = c }))

  -- A campaign that is no draft was expanded, and one that was expanded was launched.
  pub record IsSafe (c : CampaignRow) : Type 0 where
    pub expanded : c.status ≢ "draft" → c.expanded_at ≢ none
    pub launched : c.expanded_at ≢ none → IsLaunched c

  abbrev pub AllSafe : World fl → Type 0
  AllSafe w = (id : String) (c : CampaignRow) → lookup id w.campaigns ≡ some c → IsSafe c

  -- The campaigns that were expanded stay so.
  abbrev pub IsExpanded : World fl → String → Type 0
  IsExpanded w id = (c : CampaignRow) × (lookup id w.campaigns ≡ some c) × (c.expanded_at ≢ none)

  abbrev Keeps : World fl → World fl → Type 0
  Keeps w w' = (id : String) → IsExpanded w id → IsExpanded w' id

  abbrev pub Allowed : World fl → World fl → Type 0
  Allowed w w' = AllSafe w → AllSafe w' × Keeps w w'

  pub IsLaunch_moves :
      (c d : CampaignRow) (specs : List (TaskSpec fl))
      → c.pack_json ≡ d.pack_json
      → c.test_only ≡ d.test_only
      → (c.hook_approved ≡ true → d.hook_approved ≡ true)
      → IsLaunch fl fixed4 parse_request_uri json c specs
      → IsLaunched d
  IsLaunch_moves c d specs same_json same_test approves l = record {
    pack = l.pack;
    stored = ap json.parse_pack (sym same_json) ∙ l.stored;
    approval = λ compute. approves (l.approval compute);
    some_coverage = l.pack.coverage;
    specs = specs;
    expansion =
        subst (λ b. IsExpansion fl fixed4 parse_request_uri (record l.pack { test_only = b }) specs)
          same_test l.expansion;
  }

  pub IsLaunched_moves :
      (c d : CampaignRow)
      → c.pack_json ≡ d.pack_json
      → c.test_only ≡ d.test_only
      → (c.hook_approved ≡ true → d.hook_approved ≡ true)
      → IsLaunched c
      → IsLaunched d
  IsLaunched_moves c d same_json same_test approves l = record {
    pack = l.pack;
    stored = ap json.parse_pack (sym same_json) ∙ l.stored;
    approval = λ compute. approves (l.approval compute);
    some_coverage = l.some_coverage;
    specs = l.specs;
    expansion =
        subst
          (λ b.
            IsExpansion fl fixed4 parse_request_uri
              (record l.pack { coverage = l.some_coverage; test_only = b }) l.specs)
          same_test l.expansion;
  }

  -- A rewritten coverage does not matter to it.
  pub cover_row-IsLaunched :
      (coverage : Bytes) (c : CampaignRow)
      → KeepsPack
      → IsLaunched c
      → IsLaunched (cover_row fl json coverage c)
  cover_row-IsLaunched coverage c keeps l =
      elim (Option-cases (json.set_coverage c.pack_json coverage)) [
        | inl failed ↦
            IsLaunched_moves c (cover_row fl json coverage c)
              (sym (ap (or_json c.pack_json) failed)) refl (λ granted. granted) l
        | inr (new, made) ↦
            let (other, reads) = keeps c.pack_json coverage new l.pack made l.stored in
            record {
              pack = record l.pack { coverage = other };
              stored = ap (λ o. json.parse_pack (or_json c.pack_json o)) made ∙ reads;
              approval = l.approval;
              some_coverage = l.some_coverage;
              specs = l.specs;
              expansion = l.expansion;
            }
      ]

  pub same-Allowed :
      (w w' : World fl)
      → ((wanted : String) → lookup wanted w'.campaigns ≡ lookup wanted w.campaigns)
      → Allowed w w'
  same-Allowed w w' same all = (
    λ id c found. all id c (sym (same id) ∙ found),
    λ id (c, found, expanded). (c, same id ∙ found, expanded),
  )

  pub replaced-Allowed :
      (id : String) (d : CampaignRow) (w w' : World fl)
      → ((wanted : String)
          → lookup wanted w'.campaigns
            ≡ (if id == wanted then some d else lookup wanted w.campaigns))
      → (AllSafe w → IsSafe d)
      → (IsExpanded w id → d.expanded_at ≢ none)
      → Allowed w w'
  replaced-Allowed id d w w' others safe expands all = (
    λ wanted c found.
        elim (replaced_row (id == wanted) d c (lookup wanted w.campaigns)
          (sym (others wanted) ∙ found)) [
            | inl same ↦ subst IsSafe same (safe all)
            | inr old ↦ all wanted c old
          ],
    λ wanted (c, found, expanded). elim (Bool-cases (id == wanted)) [
      | inl same ↦ (
        d,
        others wanted ∙ ap (λ b. if b then some d else lookup wanted w.campaigns) same,
        expands (c, ap (λ k. lookup k w.campaigns) ((eq_iff id wanted).0 same) ∙ found, expanded),
      )
      | inr other ↦ (
        c,
        others wanted ∙ (ap (λ b. if b then some d else lookup wanted w.campaigns) other ∙ found),
        expanded,
      )
    ],
  )

  -- A change of one row.
  pub update-Allowed :
      (f : CampaignRow → CampaignRow) (id : String) (w : World fl)
      → ((c : CampaignRow) → lookup id w.campaigns ≡ some c → IsSafe c → IsSafe (f c))
      → ((c : CampaignRow) → c.expanded_at ≢ none → (f c).expanded_at ≢ none)
      → Allowed w (update_campaign fl f id w)
  update-Allowed f id w safe expands = elim (Option-cases (lookup id w.campaigns)) [
    | inl missing ↦ same-Allowed w (update_campaign fl f id w) λ wanted.
        lookup-update_campaign fl f id wanted w
        ∙ (ap (λ o. if id == wanted then now_at f o else lookup wanted w.campaigns) missing
            ∙ unchanged_row (id == wanted) (lookup wanted w.campaigns) none (λ same.
              ap (λ k. lookup k w.campaigns) (sym ((eq_iff id wanted).0 same)) ∙ missing))
    | inr (c, found) ↦
        replaced-Allowed id (f c) w (update_campaign fl f id w)
          (λ wanted. lookup-updated fl f id wanted w c found) (λ all. safe c found (all id c found))
          (λ (d, there, expanded). expands c (
            subst (λ (e : CampaignRow). e.expanded_at ≢ none) (some_inj (sym there ∙ found))
              expanded))
  ]
