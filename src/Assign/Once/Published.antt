-- ===== src/Assign/Once/Published.antt =====
-- Commands go to selected nodes only.
use saucepan.Common.{
  ℕ, String, Bool, true, false, not, List, [], ◌∷◌, ◌++◌, if◌then◌else◌, All, All-append,
  All-map_of,
}
use saucepan.Common.Int.{ℤ}
use saucepan.Assign.Store.{World}
use saucepan.Assign.Claim.{persist_task_assignment}
use saucepan.Assign.Once.{
  Selected, NotifyPayload, Calls, Assigned, publish_failed, finish_all, publish_each, assign_once,
}

module _ (ttl : ℤ) (now : ℕ) (calls : Calls) (p : NotifyPayload) (P : String → Type 0) where
  abbrev AllOf : List Selected → Type 0
  AllOf sels = All (λ (s : Selected). P s.node_id) sels

  abbrev AllPublished : Assigned → Type 0
  AllPublished r = All P r.published

  either :
      (b : Bool) (r q : Assigned)
      → AllPublished r
      → AllPublished q
      → AllPublished (if b then r else q)
  either true r q h k = h
  either false r q h k = k

  publish_failed-All :
      (is_primary : Bool) (sel : Selected) (delivered : List Selected) (w : World)
      → AllOf (delivered ++ sel ∷ [])
      → AllPublished (publish_failed ttl now calls p is_primary sel delivered w)
  unfolding publish_failed
  publish_failed-All is_primary sel delivered w h = All-map_of P _ (delivered ++ sel ∷ []) h

  finish_all-All :
      (sels : List Selected) (w : World)
      → AllOf sels
      → AllPublished (finish_all ttl now calls p sels w)
  unfolding finish_all
  finish_all-All sels w h = All-map_of P _ sels h

  publish_each-All :
      (is_primary : Bool) (delivered sels : List Selected) (w : World)
      → AllOf delivered
      → AllOf sels
      → AllPublished (publish_each ttl now calls p is_primary delivered sels w)
  unfolding publish_each
  publish_each-All is_primary delivered [] w h k = finish_all-All delivered w h
  publish_each-All is_primary delivered (sel ∷ rest) w h k =
      let with_sel = All-append (λ (s : Selected). P s.node_id) delivered (sel ∷ []) (k.0, tt) h in
      either (calls.publish_ok sel.node_id) _ _
        (publish_each-All false (delivered ++ sel ∷ []) rest _ with_sel k.1)
        (publish_failed-All is_primary sel delivered _ with_sel)

  -- What holds of the ids of all selected nodes holds of those that a command goes to.
  pub assign_once-All :
      (sels : List Selected) (w : World)
      → AllOf sels
      → AllPublished (assign_once ttl now calls p sels w)
  unfolding assign_once
  assign_once-All [] w h = tt
  assign_once-All (primary ∷ rest) w h = either (not calls.claim_ok) _ _ tt (
      either (not (persist_task_assignment ttl now p.task_id primary.node_id w).1) _ _ tt
        (publish_each-All true [] (primary ∷ rest) _ tt h))
