-- ===== src/Lanes/Tests.antt =====
-- Examples for the planned lane.
use saucepan.Common.{ℕ, String, ◌≡◌, refl, Option, none, some, List, [], ◌∷◌, All, map}
use saucepan.Common.Float.{milli}
use saucepan.Common.Int.{ℤ, pos}
use saucepan.Common.Sort.{sort_by, insert_all, insert_by}
use saucepan.Lanes.Planner.{
  PlanNode, PlanTask, build_agenda, place_all, place, pick, consider, candidates_of, next_of,
  cadence_of, free_at,
}
use saucepan.Common.{lookup, insert, ◌==◌, string_eq, if◌then◌else◌, length, ◌++◌}
use saucepan.Common.Sort.{count_if}
use saucepan.Lanes.Roster.{StandbyEntry, rank_standby, scored}
use saucepan.Lanes.Roster.Rank.{room, IsRanking, is_scored, rank_standby-Ordered}
use saucepan.Common.{true, ◌||◌}
use saucepan.Lanes.Roster.{prefer_roster}
use saucepan.Common.Int.{◌*ℤ◌}
use saucepan.Lanes.Planner.Overlap.{IsDisjoint}
use saucepan.Lanes.Planner.Agenda.{IsInWindow, build_agenda-IsDisjoint}

-- Exposures of 120 s, in thousandths, under the arithmetic of thousandths.
abbrev survey : ℕ → ℕ → List String → PlanTask milli
survey id priority preferred = record {
  task_id = id;
  campaign_id = "c";
  priority = pos priority;
  ra = none;
  dec = none;
  integration_sec = pos 120000;
  cadence_goal_min = pos 10;
  window_start = 0;
  window_end = 0;
  preferred_nodes = preferred;
}

abbrev tasks : List (PlanTask milli)
tasks = survey 1 5 ("b" ∷ []) ∷ survey 2 1 [] ∷ survey 3 5 [] ∷ []

abbrev fleet : List PlanNode
fleet = record { node_id = "a" } ∷ record { node_id = "b" } ∷ []

build_agenda-IsDisjoint_example :
    let agenda = build_agenda milli tasks fleet 1000 in
    All (IsInWindow milli 1000 fleet tasks) agenda × IsDisjoint milli 1000 agenda
unfolding ◌*ℤ◌
build_agenda-IsDisjoint_example =
    build_agenda-IsDisjoint milli 1000 tasks fleet (refl, (refl, (refl, tt)))

-- The urgent task takes the first node, the next its preferred one, and the last the first
-- again, after its cadence.
the_nodes : map (λ s. s.node_id) (build_agenda milli tasks fleet 1000) ≡ "a" ∷ "b" ∷ "a" ∷ []
unfolding build_agenda place_all place pick consider candidates_of next_of cadence_of free_at lookup
    insert sort_by insert_all insert_by ◌*ℤ◌
the_nodes = refl

abbrev test_score : String → Option ℤ
test_score id = if id == "down" then none else some (if id == "b" then pos 1 else pos 4)

rank_standby-Ordered_example :
    let roster = rank_standby ("c" ∷ "down" ∷ "b" ∷ "a" ∷ []) test_score (pos 2) in
    let ids : List String = "c" ∷ "down" ∷ "b" ∷ "a" ∷ [] in
    ((rest : List StandbyEntry) × IsRanking ids test_score (roster ++ rest))
    × (length roster ≡ room (pos 2) (count_if (is_scored test_score) ids))
rank_standby-Ordered_example =
    rank_standby-Ordered ("c" ∷ "down" ∷ "b" ∷ "a" ∷ []) test_score (pos 2)

the_roster :
    map (λ e. e.node_id) (rank_standby ("c" ∷ "down" ∷ "b" ∷ "a" ∷ []) test_score (pos 2))
    ≡ "b" ∷ "a" ∷ []
unfolding rank_standby scored sort_by insert_all insert_by
the_roster = refl

abbrev telescopes : List (String × ℕ)
telescopes = ("a", 1) ∷ ("b", 2) ∷ ("c", 3) ∷ []

abbrev standby : List StandbyEntry
standby = record { node_id = ""; score = pos 0 } ∷ record { node_id = "b"; score = pos 1 } ∷ []

abbrev IsStandby : String → Type 0
IsStandby id = (id == "" || id == "b") ≡ true

just_b : prefer_roster ℕ telescopes standby ≡ ("b", 2) ∷ []
unfolding prefer_roster
just_b = refl
