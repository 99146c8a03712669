-- ===== src/Lanes/Roster.antt =====
-- SaucepanServer/task-server/shared/lanes/roster.go: the standby rosters of the interrupt lane.
pub mod Rank
pub mod Prefer
use saucepan.Common.{
  ℕ, ◌-◌, String, Bool, true, false, ◌&&◌, ◌||◌, not, Option, none, some, List, [], ◌∷◌, ◌++◌, ltb,
  leb, ◌==◌, nat_eq, string_eq, if◌then◌else◌, any, take, length,
}
use saucepan.Common.Int.{ℤ, pos, ltb_ℤ, leb_ℤ}
use saucepan.Common.Sort.{sort_by}
use saucepan.Common.Text.{string_lt}

pub record StandbyEntry : Type 0 where
  pub node_id : String
  pub score : ℤ

abbrev pub entry_before : StandbyEntry → StandbyEntry → Bool
entry_before a b =
    if not (leb_ℤ a.score b.score && leb_ℤ b.score a.score)
    then ltb_ℤ a.score b.score
    else string_lt a.node_id b.node_id

-- The nodes that have a score, with it.
unfoldable pub scored : (String → Option ℤ) → List String → List StandbyEntry
scored score_fn [] = []
scored score_fn (id ∷ ids) = elim (score_fn id) [
  | none ↦ scored score_fn ids
  | some score ↦ record { node_id = id; score = score } ∷ scored score_fn ids
]

abbrev pub limited {ℓ} : {A : Type ℓ} → ℤ → List A → List A
limited (pos n) xs = if ltb 0 n && ltb n (length xs) then take n xs else xs
limited _ xs = xs

unfoldable pub rank_standby : List String → (String → Option ℤ) → ℤ → List StandbyEntry
rank_standby node_ids score_fn limit =
    limited limit (sort_by entry_before (scored score_fn node_ids))

-- A shared.NodeEvaluation, by its node and the rest.
module _ {ℓ} (E : Type ℓ) where
  abbrev pub Node : Type ℓ
  Node = String × E

  -- The roster's ids, each once, without "".
  abbrev pub roster_order : List String → List StandbyEntry → List String
  roster_order order [] = order
  roster_order order (e ∷ roster) =
      roster_order
        (if e.node_id == "" || any (λ id. id == e.node_id) order
          then order
          else order ++ e.node_id ∷ [])
        roster

  -- byID[id]: the last of the nodes with that id.
  abbrev pub by_id : String → List Node → Option Node
  by_id id [] = none
  by_id id ((node_id, e) ∷ nodes) = elim (by_id id nodes) [
    | some hit ↦ some hit
    | none ↦ if node_id == id then some (node_id, e) else none
  ]

  abbrev pub hits : List String → List Node → List Node
  hits [] nodes = []
  hits (id ∷ order) nodes = elim (by_id id nodes) [
    | none ↦ hits order nodes
    | some n ↦ n ∷ hits order nodes
  ]

  abbrev pub or_all : List Node → List Node → List Node
  or_all [] nodes = nodes
  or_all (n ∷ out) nodes = n ∷ out

  unfoldable pub prefer_roster : List Node → List StandbyEntry → List Node
  prefer_roster nodes roster =
      if length roster == 0 || length nodes == 0
      then nodes
      else if length (roster_order [] roster) == 0
      then nodes
      else or_all (hits (roster_order [] roster) nodes) nodes
