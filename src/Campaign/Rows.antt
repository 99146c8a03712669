-- ===== src/Campaign/Rows.antt =====
-- SaucepanServer/task-server/cmd/apiserver/campaigns.go and campaigns_store.go: chains of steps that
-- succeed, and what the statements on rows change.
use saucepan.Common.{
  ℕ, ◌+◌, String, ◌≡◌, refl, ap, ◌∙◌, sym, subst, inl, inr, Bool, true, false, ◌&&◌, Option, none,
  some, List, [], ◌∷◌, ◌++◌, ◌==◌, string_eq, if◌then◌else◌, arith, length, lookup, lookup-insert,
  Bool-cases, eq_iff, eq_refl, All,
}
use mathlib.Core.List.{append-nil, append_assoc}
use saucepan.Common.Float.{Float}
use saucepan.Common.Int.{pos}
use saucepan.Assign.Store.{TaskStatus}
use saucepan.Campaign.Expand.{TaskSpec}
use saucepan.Campaign.Publish.{
  Outcome, done, fail, ◌>>=◌, guard, or_fail, none_or_fail, Calls, CampaignRow, CampaignTask, World,
  changed, insert_campaign_task, update_campaign, is_owner, is_user, assert_campaign_owner,
  authorize, insert_specs, new_row,
}

-- A bind that succeeds, by its parts.
pub >>=-eq-done :
    {A B : Type 0} (m : Outcome A) (f : A → Outcome B) {b : B}
    → (m >>= f) ≡ done b
    → (a : A) × (m ≡ done a) × (f a ≡ done b)
>>=-eq-done (done a) f h = (a, refl, h)
>>=-eq-done (fail status) f h = absurd (cc h)

-- A guard that lets pass, and what comes behind it.
pub guarded :
    {B : Type 0} (test : Bool) (status : ℕ) (m : Outcome B) {b : B}
    → (guard test status >>= λ _. m) ≡ done b
    → (test ≡ true) × (m ≡ done b)
guarded true status m h = (refl, h)
guarded false status m h = absurd (cc h)

if_done :
    {A : Type 0} (test : Bool) (m : Outcome A) (status : ℕ) {a : A}
    → (if test then m else fail status) ≡ done a
    → m ≡ done a
if_done true m status h = h
if_done false m status h = absurd (cc h)

pub done_inj : {A : Type 0} {a b : A} → done a ≡ done b → a ≡ b
done_inj h = cc h

pub guard_passes :
    (test : Bool) (status : ℕ) {u : Unit {0}} → guard test status ≡ done u → test ≡ true
guard_passes true status h = refl
guard_passes false status h = absurd (cc h)

pub passed :
    {E B : Type 0} (o : Option E) (status : ℕ) (m : Outcome B) {b : B}
    → (none_or_fail o status >>= λ _. m) ≡ done b
    → (o ≡ none) × (m ≡ done b)
passed none status m h = (refl, h)
passed (some e) status m h = absurd (cc h)

pub taken :
    {A B : Type 0} (o : Option A) (status : ℕ) (f : A → Outcome B) {b : B}
    → (or_fail o status >>= f) ≡ done b
    → (a : A) × (o ≡ some a) × (f a ≡ done b)
taken none status f h = absurd (cc h)
taken (some a) status f h = (a, refl, h)

-- A row that is there, changed.
abbrev pub now_at : (CampaignRow → CampaignRow) → Option CampaignRow → Option CampaignRow
now_at f none = none
now_at f (some c) = some (f c)

pub some_inj : {A : Type 0} {a b : A} → some a ≡ some b → a ≡ b
some_inj h = cc h

is_user_eq : (o : Option String) (user : String) → is_user o user ≡ true → o ≡ some user
is_user_eq none user h = absurd (cc h)
is_user_eq (some owner) user h = ap some ((eq_iff owner user).0 h)

second_holds : (a b : Bool) → (a && b) ≡ true → b ≡ true
second_holds true b h = h
second_holds false b h = absurd (cc h)

module _ (fl : Float) where
  lookup-changed :
      (f : CampaignRow → CampaignRow) (id wanted : String) (found : Option CampaignRow)
      (w : World fl)
      → lookup id w.campaigns ≡ found
      → lookup wanted (changed fl f id found w.campaigns)
        ≡ (if id == wanted then now_at f found else lookup wanted w.campaigns)
  lookup-changed f id wanted none w h = elim (Bool-cases (id == wanted)) [
    | inl same ↦ rw same (ap (λ k. lookup k w.campaigns) (sym ((eq_iff id wanted).0 same)) ∙ h)
    | inr other ↦ rw other refl
  ]
  lookup-changed f id wanted (some c) w h = lookup-insert id wanted (f c) w.campaigns

  pub lookup-update_campaign :
      (f : CampaignRow → CampaignRow) (id wanted : String) (w : World fl)
      → lookup wanted (update_campaign fl f id w).campaigns
        ≡ (if id == wanted then now_at f (lookup id w.campaigns) else lookup wanted w.campaigns)
  unfolding update_campaign
  lookup-update_campaign f id wanted w = lookup-changed f id wanted (lookup id w.campaigns) w refl

  pub lookup-updated :
      (f : CampaignRow → CampaignRow) (id wanted : String) (w : World fl) (c : CampaignRow)
      → lookup id w.campaigns ≡ some c
      → lookup wanted (update_campaign fl f id w).campaigns
        ≡ (if id == wanted then some (f c) else lookup wanted w.campaigns)
  lookup-updated f id wanted w c found =
      subst
        (λ o.
          lookup wanted (update_campaign fl f id w).campaigns
          ≡ (if id == wanted then now_at f o else lookup wanted w.campaigns))
        found (lookup-update_campaign f id wanted w)

  pub lookup-updated_self :
      (f : CampaignRow → CampaignRow) (id : String) (w : World fl) (c : CampaignRow)
      → lookup id w.campaigns ≡ some c
      → lookup id (update_campaign fl f id w).campaigns ≡ some (f c)
  lookup-updated_self f id w c found =
      lookup-updated f id id w c found
      ∙ ap (λ b. if b then some (f c) else lookup id w.campaigns) (eq_refl id)

  pub tasks-update_campaign :
      (f : CampaignRow → CampaignRow) (id : String) (w : World fl)
      → (update_campaign fl f id w).tasks ≡ w.tasks
  unfolding update_campaign
  tasks-update_campaign f id w = refl

  -- A task as a publication leaves it.
  abbrev pub IsNewTask : String → CampaignTask fl → Type 0
  IsNewTask id t =
      (t.campaign_id ≡ some id) × ((t.status ≡ TaskStatus.pending) × (t.priority ≡ pos 0))

  -- Tasks behind those that are there, and nothing else.
  pub record IsAdded (id : String) (n : ℕ) (w w' : World fl) : Type 0 where
    pub rows : List (CampaignTask fl)
    pub campaigns : w'.campaigns ≡ w.campaigns
    pub tasks : w'.tasks ≡ w.tasks ++ rows
    pub counted : length rows ≡ n
    pub new : All (IsNewTask id) rows

  pub insert_specs-IsAdded :
      (ok : ℕ → Bool) (id : String) (i : ℕ) (specs : List (TaskSpec fl)) (w w' : World fl)
      → insert_specs fl ok id i specs w ≡ done w'
      → IsAdded id (length specs) w w'
  unfolding insert_specs insert_campaign_task
  insert_specs-IsAdded ok id i [] w w' h = record {
    rows = [];
    campaigns = cc h;
    tasks = sym (append-nil w.tasks ∙ ap (λ (v : World fl). v.tasks) (done_inj h));
    counted = refl;
    new = tt;
  }
  insert_specs-IsAdded ok id i (spec ∷ specs) w w' h =
      let later =
        insert_specs-IsAdded ok id (i + 1) specs (insert_campaign_task fl id (pos 0) spec w) w'
          (if_done (ok i) _ 500 h) in
      record {
        rows = new_row fl w.next_id id (pos 0) spec ∷ later.rows;
        campaigns = later.campaigns;
        tasks =
            later.tasks
            ∙ append_assoc w.tasks (new_row fl w.next_id id (pos 0) spec ∷ []) later.rows;
        counted = omega (arith, later.counted);
        new = ((refl, (refl, refl)), later.new);
      }

  -- A request that is let in comes from the owner of the campaign.
  pub authorize-created_by :
      (calls : Calls) (claims : Option String) (id : String) (w : World fl) (c : CampaignRow)
      {u : Unit {0}}
      → lookup id w.campaigns ≡ some c
      → authorize fl calls claims id w ≡ done u
      → (user : String) × (claims ≡ some user) × (c.created_by ≡ some user)
  unfolding assert_campaign_owner
  authorize-created_by calls claims id w c found h =
      let (user, claimed, k) =
        taken claims 401 (λ u. guard (assert_campaign_owner fl calls.owner_ok id u w) 403) h in
      let owns = guard_passes (assert_campaign_owner fl calls.owner_ok id user w) 403 k in
      (
        user,
        claimed,
        is_user_eq c.created_by user (
            subst (λ o. is_owner o user ≡ true) found
              (second_holds calls.owner_ok (is_owner (lookup id w.campaigns) user) owns)),
      )
