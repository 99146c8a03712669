-- ===== src/Lanes/Classify.antt =====
-- SaucepanServer/task-server/shared/lanes/lane.go: which lane a task is assigned on, and the roster
-- that an interrupt consults.
use saucepan.Common.{
  String, ◌≡◌, ◌↔◌, refl, ap, sym, ◌∙◌, Bool, true, false, ◌||◌, ◌&&◌, All, In-All, Option, none,
  some, List, [], ◌∷◌, if◌then◌else◌, In,
}
use saucepan.Common.Float.{Float}
use saucepan.Common.Int.{ℤ, pos}
use saucepan.Common.Text.{folds_to, trim_space}
use saucepan.Campaign.{SeasonIntent}
use saucepan.Campaign.Check.{one_of, season_kinds, season_urgencies}
use saucepan.Campaign.Iff.{one_of_iff}
use saucepan.Campaign.Parts.{IsSeason}

pub data Lane : Type 0 where
  planned interrupt : Lane

pub record SeasonInputs : Type 0 where
  pub kind : String
  pub urgency : String
  pub cadence_goal_min : ℤ
  pub window_start : Option String
  pub window_end : Option String
  pub emergency_handoff : Bool

unfoldable pub from_pack_season : (fl : Float) → Option (SeasonIntent fl) → SeasonInputs
unfolding trim_space
from_pack_season fl none = record {
  kind = "";
  urgency = "";
  cadence_goal_min = pos 0;
  window_start = none;
  window_end = none;
  emergency_handoff = false;
}
from_pack_season fl (some s) = record {
  kind = trim_space s.kind;
  urgency = trim_space s.urgency;
  cadence_goal_min = s.cadence_goal_min;
  window_start = s.window_start;
  window_end = s.window_end;
  emergency_handoff = false;
}

abbrev lane_of : String → String → Lane
lane_of kind urgency =
    if folds_to kind "too"
    then interrupt
    else if folds_to urgency "elevated" || folds_to urgency "critical"
    then interrupt
    else if folds_to kind "continuous" || folds_to kind "sparse"
    then planned
    else interrupt

unfoldable pub classify_lane : SeasonInputs → Lane
classify_lane i = if i.emergency_handoff then interrupt else lane_of i.kind i.urgency

abbrev class_of : String → String → String
class_of kind urgency =
    if folds_to kind "too"
    then "too"
    else if folds_to urgency "critical"
    then "critical"
    else if folds_to urgency "elevated"
    then "elevated"
    else "default"

unfoldable pub alert_class : SeasonInputs → String
alert_class i = class_of i.kind i.urgency

abbrev is_planned : Lane → Bool
is_planned planned = true
is_planned interrupt = false

is_planned_iff : (l : Lane) → (l ≡ planned) ↔ (is_planned l ≡ true)
is_planned_iff planned = (λ h. refl, λ h. refl)
is_planned_iff interrupt = (λ h. ap is_planned h, λ h. absurd (cc h))

both_iff :
    {P Q : Type 0} (a b : Bool) → (a ≡ true) ↔ P → (b ≡ true) ↔ Q → ((a && b) ≡ true) ↔ (P × Q)
both_iff true b p q = (λ h. (p.0 refl, q.0 h), λ h. q.1 h.1)
both_iff false b p q = (λ h. absurd (cc h), λ h. absurd (cc (p.1 h.0)))

abbrev planned_kinds : List String
planned_kinds = "continuous" ∷ "sparse" ∷ []

abbrev calm_urgencies : List String
calm_urgencies = "" ∷ "normal" ∷ []

-- Every kind with every urgency that a pack may have.
abbrev IsRow : String → String → Type 0
IsRow kind urgency =
    is_planned (lane_of kind urgency) ≡ (one_of kind planned_kinds && one_of urgency calm_urgencies)

table : All (λ kind. All (IsRow kind) season_urgencies) season_kinds
table = (
  (refl, (refl, (refl, (refl, tt)))),
  (
    (refl, (refl, (refl, (refl, tt)))),
    ((refl, (refl, (refl, (refl, tt)))), ((refl, (refl, (refl, (refl, tt)))), tt)),
  ),
)

-- A task of a campaign whose season is in order waits for the planner exactly when the season is
-- continuous or sparse and its urgency is normal or not stated.
pub classify_lane-from_pack_season :
    (fl : Float) (s : SeasonIntent fl)
    → IsSeason fl s
    → (classify_lane (from_pack_season fl (some s)) ≡ planned)
      ↔ (In (trim_space s.kind) planned_kinds × In (trim_space s.urgency) calm_urgencies)
unfolding classify_lane from_pack_season
classify_lane-from_pack_season fl s ok =
    let kind = trim_space s.kind in
    let urgency = trim_space s.urgency in
    let row : IsRow kind urgency =
      In-All (IsRow kind) urgency season_urgencies
        (In-All (λ k. All (IsRow k) season_urgencies) kind season_kinds table ok.0) ok.1.0 in
    let e =
      both_iff (one_of kind planned_kinds) (one_of urgency calm_urgencies)
        (one_of_iff kind planned_kinds) (one_of_iff urgency calm_urgencies) in
    let p = is_planned_iff (lane_of kind urgency) in
    (λ h. e.0 (sym row ∙ p.0 h), λ h. p.1 (row ∙ e.1 h))
