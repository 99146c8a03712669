-- ===== src/Lanes/Planner/Agenda.antt =====
-- The agenda as a whole: it keeps to the windows and books no node twice.
use saucepan.Common.{
  ℕ, ◌+◌, ◌≤◌, ◌≡◌, refl, inl, inr, ap, sym, subst, ◌||◌, List, [], ◌∷◌, ◌==◌, nat_eq, string_eq,
  length, Mapping, insert, All, In, Bool-cases, Option-cases, ◌<◌, ◌*◌, ◌⊎◌, not, ltb,
  if◌then◌else◌, arith,
}
use saucepan.Common.Float.{Float}
use saucepan.Common.Sort.{sort_by, All-sort_by}
use saucepan.Common.Time.{add_duration, minute}
use saucepan.Lanes.Planner.{
  PlanNode, PlanTask, AgendaSlot, window_start_of, window_end_of, exposure_of, slot_of, place,
  next_of, place_all, all_free, task_before, build_agenda,
}
use saucepan.Lanes.Planner.Choice.{node_ids, IsSlotOf, place-IsSlotOf}
use saucepan.Lanes.Planner.Overlap.{IsLasting, IsDisjoint, place_all-IsDisjoint}

All-In : {A : Type 0} (xs ys : List A) → ((x : A) → In x xs → In x ys) → All (λ x. In x ys) xs
All-In [] ys f = tt
All-In (x ∷ xs) ys f = (f x (inl refl), All-In xs ys (λ y h. f y (inr h)))

closing :
    (window_end from horizon end : ℕ)
    → end ≤ (if window_end == 0 || not (ltb from window_end) then from + horizon else window_end)
    → ((from < window_end) × (end ≤ window_end)) ⊎ ((window_end ≤ from) × (end ≤ from + horizon))
closing window_end from horizon end h = elim (Bool-cases (ltb from window_end)) [
  | inl later ↦ inl (ground arith, ground arith)
  | inr not_later ↦ inr (ground arith, ground arith)
]

module _ (fl : Float) (now : ℕ) where
  -- Where the window of a task opens: at its own start, or now if it has none.
  abbrev pub Opens : PlanTask fl → ℕ → Type 0
  Opens t from =
      ((t.window_start ≡ 0) × (from ≡ now)) ⊎ ((0 < t.window_start) × (from ≡ t.window_start))

  -- A time that is not past the task's own end, if that is after the opening, or else not past six
  -- hours from the opening.
  abbrev pub Closes : PlanTask fl → ℕ → ℕ → Type 0
  Closes t from end =
      ((from < t.window_end) × (end ≤ t.window_end))
      ⊎ ((t.window_end ≤ from) × (end ≤ from + 6 * 60 * minute))

  abbrev pub InWindow : PlanTask fl → AgendaSlot fl → Type 0
  InWindow t s = (from : ℕ) × Opens t from × (from ≤ s.start_at) × Closes t from s.end_at

  -- Each slot is a task's, inside its window, ahead of now, on a node of the fleet.
  abbrev pub IsInWindow : List PlanNode → List (PlanTask fl) → AgendaSlot fl → Type 0
  IsInWindow nodes tasks s =
      (t : PlanTask fl) × In t tasks
      × (s ≡ slot_of fl t (s.node_id, s.start_at))
      × (now ≤ s.start_at)
      × InWindow t s
      × In s.node_id (node_ids nodes)

  Opens-of : (t : PlanTask fl) → Opens t (window_start_of fl now t)
  Opens-of t = elim (Bool-cases (t.window_start == 0)) [
    | inl none_given ↦ rw none_given (inl (ground arith, refl))
    | inr given ↦ rw given (inr (ground arith, refl))
  ]

  Closes-of :
      (t : PlanTask fl) (end : ℕ)
      → end ≤ window_end_of fl now t
      → Closes t (window_start_of fl now t) end
  Closes-of t end h = closing t.window_end (window_start_of fl now t) (6 * 60 * minute) end h

  window-of :
      (nodes : List PlanNode) (tasks : List (PlanTask fl)) (t : PlanTask fl) (free : Mapping ℕ)
      (s : AgendaSlot fl)
      → In t tasks
      → IsSlotOf fl now nodes t free s
      → IsInWindow nodes tasks s
  window-of nodes tasks t free s known (form, fits) =
      let end : s.end_at ≡ add_duration s.start_at (exposure_of fl t) = ap (λ x. x.end_at) form in
      (
        t,
        known,
        form,
        fits.is_ahead,
        (
          window_start_of fl now t,
          Opens-of t,
          fits.opens,
          Closes-of t s.end_at (subst (λ x. x ≤ window_end_of fl now t) (sym end) fits.closes),
        ),
        fits.is_node,
      )

  place_all-IsInWindow :
      (nodes : List PlanNode) (all tasks : List (PlanTask fl)) (free : Mapping ℕ) (node_idx : ℕ)
      → All (λ t. In t all) tasks
      → All (IsInWindow nodes all) (place_all fl now nodes tasks free node_idx)
  unfolding place_all
  place_all-IsInWindow nodes all [] free node_idx known = tt
  place_all-IsInWindow nodes all (t ∷ tasks) free node_idx known =
      elim (Option-cases (place fl now nodes t free node_idx)) [
        | inl nowhere ↦
            rw (nowhere, place_all) (place_all-IsInWindow nodes all tasks free node_idx known.1)
        | inr (s, placed) ↦
            let free' = insert s.node_id (next_of fl t s) free in
            rw (placed, place_all)
              (
                window-of nodes all t free s known.0
                    (place-IsSlotOf fl now nodes t free node_idx s placed),
                place_all-IsInWindow nodes all tasks free' (node_idx + 1) known.1,
              )
      ]

  -- For any fleet and any tasks whose exposures, in nanoseconds, are not negative as int64: each slot of the agenda is a given task's, with its exposure, and on a node of the fleet; it starts neither before now nor before the window start of the task, if it has one; it ends by the task's window end if that is after the window start (or after now, for a task without one), and by six hours from there if it is not, which includes a task without a window end; and no slot of a node begins before an earlier entry of that node has ended.
  pub build_agenda-IsDisjoint :
      (tasks : List (PlanTask fl)) (nodes : List PlanNode)
      → All (IsLasting fl now) tasks
      → let agenda = build_agenda fl tasks nodes now in
        All (IsInWindow nodes tasks) agenda × IsDisjoint fl now agenda
  unfolding build_agenda
  build_agenda-IsDisjoint tasks nodes lasting =
      elim (Bool-cases (length tasks == 0 || length nodes == 0)) [
        | inl nothing ↦ rw (nothing, build_agenda) (tt, tt)
        | inr something ↦
            let sorted = sort_by (task_before fl) tasks in
            rw (something, build_agenda)
              (
                place_all-IsInWindow nodes tasks sorted (all_free fl now nodes) 0 (
                    All-sort_by (task_before fl) (λ t. In t tasks) tasks
                      (All-In tasks tasks (λ t h. h))),
                place_all-IsDisjoint fl now nodes sorted (all_free fl now nodes) 0
                    (All-sort_by (task_before fl) (IsLasting fl now) tasks lasting),
              )
      ]
