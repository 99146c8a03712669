-- ===== src/Select/Served.antt =====
-- Whom assignTask hands a task to.
use saucepan.Common.{
  ℕ, ◌<◌, String, ◌≡◌, refl, inl, inr, sym, subst, Bool, true, false, ◌&&◌, not, Option, none, some,
  List, [], ◌∷◌, ◌++◌, ◌==◌, nat_eq, string_eq, if◌then◌else◌, arith, Bool-cases, All, All-map,
  All-map_of, In, In-All, All-In, ltb, length, length-filter-le,
}
use saucepan.Common.Float.{Float, Math}
use saucepan.Common.Int.{ℤ, IsInt32}
use saucepan.Lanes.Roster.{StandbyEntry}
use saucepan.Sky.Slew.{Clock}
use saucepan.Select.{Node, Requirements, Selection}
use saucepan.Select.Gates.{passes_node_gates, node_telescope_safety}
use saucepan.Select.Best.{select_best_node}
use saucepan.Select.Cohort.{select_cohort}
use saucepan.Select.Fits.{InRange, Fits, FitsOne, select_cohort-Fits, select_best_node-Fits}
use saucepan.Select.Pool.{IsPreferred, filter-IsPreferred-All, prefer_nodes-All, campaign-All}
use saucepan.Select.Ladder.{
  TaskPayload, named, node_serves_campaign, requirements_from_notify, filter_nodes_by_campaign,
  attached, attach_plan_remaining, filter_preferred_nodes_mode, prefer_nodes, or_else, to_list,
  rung, select_assignments, task_nodes, task_assignments,
}

first_or-All :
    {A : Type 0} (P : A → Type 0) (xs ys : List A) → All P xs → All P ys → All P (or_else xs ys)
first_or-All P [] ys h k = k
first_or-All P (x ∷ xs) ys h k = h

if_or-All :
    {A : Type 0} (P : A → Type 0) (wide : Bool) (xs : List A)
    → All P xs
    → All P (if wide then xs else [])
if_or-All P true xs h = h
if_or-All P false xs h = tt

to_list-All :
    {A : Type 0} (P : A → Type 0) (o : Option A) → ((a : A) → o ≡ some a → P a) → All P (to_list o)
to_list-All P none h = tt
to_list-All P (some a) h = (h a refl, tt)

module _ (fl : Float) (mt : Math fl) (clock : ℕ → Clock) (now : ℕ)
    (preempt_threshold slew_nearby_ms : ℤ) where
  module _ (stored : String → Option fl.F) (fleet : List (Node fl)) (p : TaskPayload fl) where
    -- A node of the fleet that may serve the task.
    abbrev pub MayServe : Node fl → Type 0
    MayServe n =
        In n fleet
        × (node_serves_campaign n.enabled_campaign_ids p.campaign_id ≡ true)
        × IsPreferred fl (p.coverage_primary ++ p.coverage_redundant) (not p.coverage_hard_mode) n

    abbrev IsUsable : Node fl → Type 0
    IsUsable m = (n : Node fl) × (m ≡ attached fl stored n) × MayServe n

    abbrev base_nodes : List (Node fl)
    base_nodes = attach_plan_remaining fl stored (filter_nodes_by_campaign fl fleet p.campaign_id)

    abbrev IsBase : Node fl → Type 0
    IsBase m =
        (n : Node fl) × (m ≡ attached fl stored n)
        × In n fleet
        × (node_serves_campaign n.enabled_campaign_ids p.campaign_id ≡ true)

    base_nodes-All : All IsBase base_nodes
    unfolding attach_plan_remaining
    base_nodes-All =
        All-map_of IsBase (attached fl stored) (filter_nodes_by_campaign fl fleet p.campaign_id) (
          All-map _ _ (λ n (there, serves). (n, refl, there, serves))
            (filter_nodes_by_campaign fl fleet p.campaign_id)
            (campaign-All fl (λ n. In n fleet) fleet p.campaign_id
              (All-In fleet fleet (λ n there. there))))

    abbrev listed : List String
    listed = p.coverage_primary ++ p.coverage_redundant

    none_named : 0 < length (named listed) → ltb 0 (length listed) ≡ false → ⊥
    none_named some_id unlisted = ground (arith, length-filter-le (λ id. not (id == "")) listed)

    task_nodes-All :
        All IsUsable (task_nodes fl mt clock now preempt_threshold slew_nearby_ms stored fleet p)
    unfolding task_nodes requirements_from_notify
    task_nodes-All = elim (Bool-cases (ltb 0 (length listed))) [
      | inl some_listed ↦ rw some_listed (
          All-map _ _
            (λ m ((n, same, there, serves), preferred). (
              n,
              same,
              (
                there,
                serves,
                subst (IsPreferred fl listed (not p.coverage_hard_mode)) same preferred,
              ),
            ))
            (filter_preferred_nodes_mode fl base_nodes listed (not p.coverage_hard_mode))
            (filter-IsPreferred-All fl IsBase base_nodes listed (not p.coverage_hard_mode)
              base_nodes-All))
      | inr unlisted ↦ rw unlisted (
          All-map _ _
            (λ m (n, same, there, serves).
              (n, same, (there, serves, λ hard some_id. absurd (none_named some_id unlisted))))
            base_nodes base_nodes-All)
    ]

  rung-FitsOne :
      (nodes : List (Node fl)) (req : Requirements fl) (priority : ℤ)
      → IsInt32 priority
      → All (λ (n : Node fl). InRange n.current_task_priority) nodes
      → All
          (FitsOne fl mt req (clock now) nodes priority)
          (rung fl mt clock now preempt_threshold slew_nearby_ms nodes req priority)
  unfolding rung
  rung-FitsOne nodes req priority k ranges =
      first_or-All (FitsOne fl mt req (clock now) nodes priority)
        (select_cohort fl mt nodes req (clock now)) _
        (select_cohort-Fits fl mt req (clock now) nodes priority)
        (to_list-All (FitsOne fl mt req (clock now) nodes priority)
          (select_best_node fl mt req (clock now) priority preempt_threshold slew_nearby_ms nodes)
          (λ s e.
            select_best_node-Fits fl mt req (clock now) nodes priority preempt_threshold
              slew_nearby_ms s k ranges e))

  -- A selection out of a part of the nodes is one out of the nodes.
  FitsOne-widen :
      (nodes pool : List (Node fl)) (req : Requirements fl) (priority : ℤ)
      → All (λ n. In n nodes) pool
      → (s : Selection) → FitsOne fl mt req (clock now) pool priority s
      → FitsOne fl mt req (clock now) nodes priority s
  FitsOne-widen nodes pool req priority sub s (n, there, fits) =
      (n, In-All (λ m. In m nodes) n pool sub there, fits)

  select_assignments-FitsOne :
      (nodes pool : List (Node fl)) (roster_len : ℕ) (req : Requirements fl) (priority : ℤ)
      → IsInt32 priority
      → All (λ (n : Node fl). InRange n.current_task_priority) nodes
      → All (λ n. In n nodes) pool
      → All (FitsOne fl mt req (clock now) nodes priority) (
          select_assignments fl mt clock now preempt_threshold slew_nearby_ms nodes pool roster_len
            req priority)
  unfolding select_assignments
  select_assignments-FitsOne nodes pool roster_len req priority k ranges sub =
      let pool_ranges =
        All-map (λ n. In n nodes) (λ (n : Node fl). InRange n.current_task_priority)
          (λ n there.
            In-All (λ (m : Node fl). InRange m.current_task_priority) n nodes ranges there)
          pool sub in
      first_or-All (FitsOne fl mt req (clock now) nodes priority) _ _
        (All-map _ _ (FitsOne-widen nodes pool req priority sub) _
          (rung-FitsOne pool req priority k pool_ranges))
        (if_or-All (FitsOne fl mt req (clock now) nodes priority)
          (ltb 0 roster_len && ltb (length pool) (length nodes)) _
          (rung-FitsOne nodes req priority k ranges))

  module _ (stored : String → Option fl.F) (fleet : List (Node fl)) (p : TaskPayload fl) where
    -- The selection is of a node of the fleet that may serve the task and passes its gates.
    abbrev pub IsServed : ℤ → Selection → Type 0
    IsServed priority s =
        (n : Node fl) × MayServe stored fleet p n
        × Fits fl mt (requirements_from_notify fl p) (clock now) priority n s

    -- The gates do not look at what is attached.
    attached-Fits :
        (priority : ℤ) (n : Node fl) (s : Selection)
        → Fits fl mt (requirements_from_notify fl p) (clock now) priority (attached fl stored n) s
        → Fits fl mt (requirements_from_notify fl p) (clock now) priority n s
    unfolding passes_node_gates node_telescope_safety
    attached-Fits priority n s h = h

    IsServed-of :
        (priority : ℤ) (m : Node fl) (s : Selection)
        → IsUsable stored fleet p m
        → Fits fl mt (requirements_from_notify fl p) (clock now) priority m s
        → IsServed priority s
    IsServed-of priority m s (n, same, may_serve) fits = (
      n,
      may_serve,
      attached-Fits priority n s (
          subst (λ k. Fits fl mt (requirements_from_notify fl p) (clock now) priority k s) same
            fits),
    )

    usable_ranges :
        All (λ (n : Node fl). InRange n.current_task_priority) fleet
        → (m : Node fl) → IsUsable stored fleet p m
        → InRange m.current_task_priority
    usable_ranges ranges m (n, same, (there, serves, preferred)) =
        subst (λ (k : Node fl). InRange k.current_task_priority) (sym same)
          (In-All (λ (k : Node fl). InRange k.current_task_priority) n fleet ranges there)

    pub task_assignments-IsServed :
        (roster : List StandbyEntry) (priority : ℤ)
        → IsInt32 priority
        → All (λ (n : Node fl). InRange n.current_task_priority) fleet
        → All (IsServed priority) (
            task_assignments fl mt clock now preempt_threshold slew_nearby_ms stored fleet roster p
              priority)
    unfolding task_assignments
    task_assignments-IsServed roster priority k ranges =
        let nodes = task_nodes fl mt clock now preempt_threshold slew_nearby_ms stored fleet p in
        let usable = task_nodes-All stored fleet p in
        All-map _ _
          (λ s (m, there, fits).
            IsServed-of priority m s (In-All (IsUsable stored fleet p) m nodes usable there) fits)
          (task_assignments fl mt clock now preempt_threshold slew_nearby_ms stored fleet roster p
            priority)
          (select_assignments-FitsOne nodes (prefer_nodes fl nodes roster) (length roster)
            (requirements_from_notify fl p) priority k
            (All-map _ _ (usable_ranges ranges) nodes usable)
            (prefer_nodes-All fl (λ n. In n nodes) nodes roster
              (All-In nodes nodes (λ n there. there))))
