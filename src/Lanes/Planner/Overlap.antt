-- ===== src/Lanes/Planner/Overlap.antt =====
-- No node is booked twice.
use saucepan.Common.{
  ℕ, ◌+◌, ◌≤◌, String, ◌≡◌, refl, inl, inr, ap, ◌∙◌, subst, true, List, [], ◌∷◌, arith, ◌==◌,
  nat_eq, string_eq, if◌then◌else◌, Mapping, insert, lookup-insert, eq_iff, All, All-map,
  Bool-cases, Option-cases,
}
use saucepan.Common.Float.{Float}
use saucepan.Common.Int.{neg_part}
use saucepan.Common.Time.{add_duration}
use saucepan.Lanes.Planner.{
  PlanNode, PlanTask, AgendaSlot, free_at, or_zero, exposure_of, place, next_of, place_all,
}
use saucepan.Lanes.Planner.Choice.{IsSlotOf, place-IsSlotOf}

free_at-insert :
    (id key : String) (t : ℕ) (m : Mapping ℕ)
    → free_at (insert key t m) id ≡ (if key == id then t else free_at m id)
unfolding free_at
free_at-insert id key t m = elim (Bool-cases (key == id)) [
  | inl same ↦ ap or_zero (lookup-insert key id t m) ∙ rw same refl
  | inr other ↦ ap or_zero (lookup-insert key id t m) ∙ rw other refl
]

module _ (fl : Float) (now : ℕ) where
  -- Slots that come later on a node start when it is free.
  abbrev FreeFor : Mapping ℕ → AgendaSlot fl → Type 0
  FreeFor free s = free_at free s.node_id ≤ s.start_at

  -- A task that takes time.
  abbrev pub IsLasting : PlanTask fl → Type 0
  IsLasting t = neg_part (exposure_of fl t) ≡ 0

  next_of-end : (t : PlanTask fl) (s : AgendaSlot fl) → s.end_at ≤ next_of fl t s
  unfolding next_of
  next_of-end t s = ground arith

  -- A booking sets its node free no earlier than before.
  FreeFor-back :
      (nodes : List PlanNode) (t : PlanTask fl) (free : Mapping ℕ) (s later : AgendaSlot fl)
      → IsLasting t
      → IsSlotOf fl now nodes t free s
      → FreeFor (insert s.node_id (next_of fl t s) free) later
      → FreeFor free later
  FreeFor-back nodes t free s later lasting (form, fits) h =
      let at = free_at-insert later.node_id s.node_id (next_of fl t s) free in
      let end : s.end_at ≡ add_duration s.start_at (exposure_of fl t) = ap (λ x. x.end_at) form in
      elim (Bool-cases (s.node_id == later.node_id)) [
        | inr other ↦ subst (λ x. x ≤ later.start_at) (at ∙ rw other refl) h
        | inl same ↦
            let booked : next_of fl t s ≤ later.start_at =
              subst (λ x. x ≤ later.start_at) (at ∙ rw same refl) h in
            let node : s.node_id ≡ later.node_id = (eq_iff s.node_id later.node_id).0 same in
            subst (λ id. free_at free id ≤ later.start_at) node
              (omega (arith, next_of-end t s, fits.is_free))
      ]

  place_all-FreeFor :
      (nodes : List PlanNode) (tasks : List (PlanTask fl)) (free : Mapping ℕ) (node_idx : ℕ)
      → All IsLasting tasks
      → All (FreeFor free) (place_all fl now nodes tasks free node_idx)
  unfolding place_all
  place_all-FreeFor nodes [] free node_idx lasting = tt
  place_all-FreeFor nodes (t ∷ tasks) free node_idx lasting =
      elim (Option-cases (place fl now nodes t free node_idx)) [
        | inl nowhere ↦
            rw (nowhere, place_all) (place_all-FreeFor nodes tasks free node_idx lasting.1)
        | inr (s, placed) ↦
            let slot = place-IsSlotOf fl now nodes t free node_idx s placed in
            let free' = insert s.node_id (next_of fl t s) free in
            rw (placed, place_all)
              (
                slot.1.is_free,
                All-map _ _ (λ later h. FreeFor-back nodes t free s later lasting.0 slot h)
                    (place_all fl now nodes tasks free' (node_idx + 1))
                    (place_all-FreeFor nodes tasks free' (node_idx + 1) lasting.1),
              )
      ]

  -- No slot of a node begins before an earlier entry of that node has ended.
  abbrev pub IsDisjoint : List (AgendaSlot fl) → Type 0
  IsDisjoint [] = Unit
  IsDisjoint (s ∷ slots) =
      All (λ later. s.node_id ≡ later.node_id → s.end_at ≤ later.start_at) slots × IsDisjoint slots

  behind :
      (t : PlanTask fl) (s later : AgendaSlot fl) (free : Mapping ℕ)
      → FreeFor (insert s.node_id (next_of fl t s) free) later
      → s.node_id ≡ later.node_id
      → s.end_at ≤ later.start_at
  behind t s later free h same =
      let at = free_at-insert later.node_id s.node_id (next_of fl t s) free in
      let hit : (s.node_id == later.node_id) ≡ true = (eq_iff s.node_id later.node_id).1 same in
      let booked : next_of fl t s ≤ later.start_at =
        subst (λ x. x ≤ later.start_at) (at ∙ rw hit refl) h in
      omega (arith, next_of-end t s)

  pub place_all-IsDisjoint :
      (nodes : List PlanNode) (tasks : List (PlanTask fl)) (free : Mapping ℕ) (node_idx : ℕ)
      → All IsLasting tasks
      → IsDisjoint (place_all fl now nodes tasks free node_idx)
  unfolding place_all
  place_all-IsDisjoint nodes [] free node_idx lasting = tt
  place_all-IsDisjoint nodes (t ∷ tasks) free node_idx lasting =
      elim (Option-cases (place fl now nodes t free node_idx)) [
        | inl nowhere ↦
            rw (nowhere, place_all) (place_all-IsDisjoint nodes tasks free node_idx lasting.1)
        | inr (s, placed) ↦
            let free' = insert s.node_id (next_of fl t s) free in
            rw (placed, place_all)
              (
                All-map _ _ (λ later h same. behind t s later free h same)
                    (place_all fl now nodes tasks free' (node_idx + 1))
                    (place_all-FreeFor nodes tasks free' (node_idx + 1) lasting.1),
                place_all-IsDisjoint nodes tasks free' (node_idx + 1) lasting.1,
              )
      ]
