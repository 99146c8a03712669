-- ===== src/Select/Members.antt =====
-- SelectCohort: who is seated.
use saucepan.Common.{
  All-nth, All-remove_at, ℕ, zero, suc, ◌≤◌, String, ◌≡◌, refl, inl, inr, ap, ◌∙◌, sym, subst, Bool,
  true, false, Option, none, some, List, [], ◌∷◌, ◌==◌, string_eq, arith, Bool-cases, All, In, any,
  nth, remove_at, length,
}
use saucepan.Common.Float.{Float, Math}
use saucepan.Common.Sort.{
  sort_by, count_if, count-sort_by, All-sort_by, sort_by-Ordered, Ordered, any-sort_by,
}
use saucepan.Sky.Slew.{Clock}
use saucepan.Select.{Node, Requirements, Selection}
use saucepan.Select.Best.{
  is_eligible, idle_result, eligible_results, lower_score, select_eligible_nodes,
}
use saucepan.Select.Preempt.{idle_selector_result}
use saucepan.Select.Vector.{Vector, adaptive_band_width}
use saucepan.Select.Cohort.{
  cohort_max_nodes, node_by_id, behind, seat_at, next_seat, scan_fillers, fill, fill_behind,
  select_cohort,
}

-- Up to a number of elements, each taken out of those that are left.
module _ {A : Type 0} where
  abbrev IsPicked : ℕ → List A → List A → Type 0
  IsPicked seats remaining [] = Unit
  IsPicked zero remaining (x ∷ xs) = ⊥
  IsPicked (suc seats) remaining (x ∷ xs) =
      (i : ℕ) × (nth remaining i ≡ some x) × IsPicked seats (remove_at i remaining) xs

  length-IsPicked :
      (seats : ℕ) (remaining xs : List A) → IsPicked seats remaining xs → length xs ≤ seats
  length-IsPicked seats remaining [] h = omega arith
  length-IsPicked zero remaining (x ∷ xs) h = elim h [ ]
  length-IsPicked (suc seats) remaining (x ∷ xs) (i, at, rest) =
      omega (arith, length-IsPicked seats (remove_at i remaining) xs rest)

  count-remove_at :
      (p : A → Bool) (xs : List A) (i : ℕ) (x : A)
      → nth xs i ≡ some x
      → count_if p xs ≡ count_if p (x ∷ remove_at i xs)
  count-remove_at p [] i x h = absurd (cc)
  count-remove_at p (y ∷ ys) zero x h = ap (λ z. count_if p (z ∷ ys)) (cc)
  count-remove_at p (y ∷ ys) (suc i) x h = ground (arith, count-remove_at p ys i x h)

  count-IsPicked :
      (p : A → Bool) (seats : ℕ) (remaining xs : List A)
      → IsPicked seats remaining xs
      → count_if p xs ≤ count_if p remaining
  count-IsPicked p seats remaining [] h = omega arith
  count-IsPicked p zero remaining (x ∷ xs) h = elim h [ ]
  count-IsPicked p (suc seats) remaining (x ∷ xs) (i, at, rest) = ground (
    arith,
    count-remove_at p remaining i x at,
    count-IsPicked p seats (remove_at i remaining) xs rest,
  )

  All-IsPicked :
      (P : A → Type 0) (seats : ℕ) (remaining xs : List A)
      → IsPicked seats remaining xs
      → All P remaining
      → All P xs
  All-IsPicked P seats remaining [] h ps = tt
  All-IsPicked P zero remaining (x ∷ xs) h ps = elim h [ ]
  All-IsPicked P (suc seats) remaining (x ∷ xs) (i, at, rest) ps = (
    All-nth P i remaining x ps at,
    All-IsPicked P seats (remove_at i remaining) xs rest (All-remove_at P i remaining ps),
  )

empty_count : (xs : List Selection) → count_if (λ (s : Selection). true) xs ≡ 0 → xs ≡ []
empty_count [] h = refl
empty_count (x ∷ xs) h = absurd (omega arith)

module _ (fl : Float) (mt : Math fl) (nodes : List (Node fl)) where
  behind-IsPicked :
      (seats : ℕ) (remaining : List Selection) (next : Node fl → List Selection)
      (found : Option (Node fl))
      → ((n : Node fl) → IsPicked seats remaining (next n))
      → IsPicked seats remaining (behind fl mt nodes next found)
  behind-IsPicked seats remaining next none h = tt
  behind-IsPicked seats remaining next (some n) h = h n

  seat_at-IsPicked :
      (seats : ℕ) (remaining : List Selection) (next : Node fl → List Selection) (i : ℕ)
      (found : Option Selection)
      → nth remaining i ≡ found
      → ((n : Node fl) → IsPicked seats (remove_at i remaining) (next n))
      → IsPicked (suc seats) remaining (seat_at fl mt nodes next found)
  seat_at-IsPicked seats remaining next i none at h = tt
  seat_at-IsPicked seats remaining next i (some picked) at h = (
    i,
    at,
    behind-IsPicked seats (remove_at i remaining) next (node_by_id fl picked.node_id nodes) h,
  )

  next_seat-IsPicked :
      (seats : ℕ) (remaining : List Selection) (next : ℕ → Node fl → List Selection)
      (hit : Option (ℕ × fl.F))
      → ((i : ℕ) (n : Node fl) → IsPicked seats (remove_at i remaining) (next i n))
      → IsPicked (suc seats) remaining (next_seat fl mt nodes next remaining hit)
  next_seat-IsPicked seats remaining next none h = tt
  next_seat-IsPicked seats remaining next (some (i, key)) h =
      seat_at-IsPicked seats remaining (next i) i (nth remaining i) refl (h i)

  fill-IsPicked :
      (seats : ℕ) (widths : Vector fl) (count : ℕ) (centroid : Vector fl)
      (remaining : List Selection)
      → IsPicked seats remaining (fill fl mt nodes seats widths count centroid remaining)
  unfolding fill
  fill-IsPicked zero widths count centroid remaining = tt
  fill-IsPicked (suc seats) widths count centroid remaining =
      next_seat-IsPicked seats remaining _
        (scan_fillers fl mt nodes centroid (adaptive_band_width fl widths count) 0 remaining none)
        (λ i n. fill-IsPicked seats _ _ _ (remove_at i remaining))

  fill_behind-IsPicked :
      (req : Requirements fl) (eligible : List Selection)
      → IsPicked cohort_max_nodes eligible (fill_behind fl mt nodes req eligible)
  unfolding fill_behind
  fill_behind-IsPicked req [] = tt
  fill_behind-IsPicked req (anchor ∷ remaining) =
      seat_at-IsPicked 7 (anchor ∷ remaining) _ 0 (some anchor) refl
        (λ n. fill-IsPicked 7 _ 1 _ remaining)

  module _ (req : Requirements fl) (now : Clock) where
    -- A seat: the idle result of a node of the fleet that is eligible.
    abbrev pub IsSeat : Selection → Type 0
    IsSeat s =
        (n : Node fl) × In n nodes
        × (is_eligible fl mt req now n ≡ true)
        × (s ≡ idle_result fl mt req now n)

    -- No eligible node has a lower score than the anchor, and there is one if a node is eligible.
    abbrev pub Leads : List Selection → Type 0
    Leads [] = eligible_results fl mt req now nodes ≡ []
    Leads (anchor ∷ fillers) =
        any (λ s. lower_score fl mt req now s anchor) (eligible_results fl mt req now nodes) ≡ false

    abbrev pub IsCohort : List Selection → Type 0
    IsCohort cohort =
        (length cohort ≤ cohort_max_nodes)
        × All IsSeat cohort
        × ((id : String)
            → count_if (λ (s : Selection). s.node_id == id) cohort
              ≤ count_if (λ (n : Node fl). n.node_id == id) nodes)
        × Leads cohort

    eligible-IsSeat :
        (pool : List (Node fl))
        → ((n : Node fl) → In n pool → In n nodes)
        → All IsSeat (eligible_results fl mt req now pool)
    unfolding eligible_results
    eligible-IsSeat [] sub = tt
    eligible-IsSeat (n ∷ pool) sub = elim (Bool-cases (is_eligible fl mt req now n)) [
      | inl ok ↦
          rw ok
            ((n, sub n (inl refl), ok, refl), eligible-IsSeat pool (λ m there. sub m (inr there)))
      | inr out ↦ rw out (eligible-IsSeat pool (λ m there. sub m (inr there)))
    ]

    idle_result-node_id : (n : Node fl) → (idle_result fl mt req now n).node_id ≡ n.node_id
    unfolding idle_result idle_selector_result
    idle_result-node_id n = refl

    count-eligible :
        (id : String) (pool : List (Node fl))
        → count_if (λ (s : Selection). s.node_id == id) (eligible_results fl mt req now pool)
          ≤ count_if (λ (n : Node fl). n.node_id == id) pool
    unfolding eligible_results
    count-eligible id [] = omega arith
    count-eligible id (n ∷ pool) = elim (Bool-cases (is_eligible fl mt req now n)) [
      | inl ok ↦ rw (ok, idle_result-node_id n) (ground (arith, count-eligible id pool))
      | inr out ↦ rw out (ground (arith, count-eligible id pool))
    ]

    abbrev ranked : List Selection
    ranked = sort_by (lower_score fl mt req now) (eligible_results fl mt req now nodes)

    ranked-Ordered : Ordered (lower_score fl mt req now) ranked
    ranked-Ordered =
        sort_by-Ordered (lower_score fl mt req now) (λ x y h. ground arith)
          (λ x y z h k. ground arith) (eligible_results fl mt req now nodes)

    none_lower :
        (anchor : Selection) (xs : List Selection)
        → All (λ y. lower_score fl mt req now y anchor ≡ false) xs
        → any (λ s. lower_score fl mt req now s anchor) xs ≡ false
    none_lower anchor [] h = refl
    none_lower anchor (x ∷ xs) h = ground (arith, none_lower anchor xs h.1)

    ranked-Leads : (xs : List Selection) → xs ≡ ranked → Leads (fill_behind fl mt nodes req xs)
    unfolding fill_behind
    ranked-Leads [] e = empty_count (eligible_results fl mt req now nodes) (
        sym (
          count-sort_by (lower_score fl mt req now) (λ s. true)
            (eligible_results fl mt req now nodes))
        ∙ ap (count_if (λ s. true)) (sym e))
    ranked-Leads (anchor ∷ xs) e =
        let o = subst (Ordered (lower_score fl mt req now)) (sym e) ranked-Ordered in
        let lower = λ (s : Selection). lower_score fl mt req now s anchor in
        sym (any-sort_by (lower_score fl mt req now) lower (eligible_results fl mt req now nodes))
        ∙ ap (any lower) (sym e)
        ∙ none_lower anchor (anchor ∷ xs) (ground arith, o.0)

    -- A cohort has at most 8 seats, each of them the idle result of an eligible node of the fleet (one that is idle, holds no task and passes the gates of the task). No id is seated more often than the fleet has it, so that no telescope is seated twice. No eligible node has a lower score than the anchor, and the cohort is empty only if no node is eligible.
    pub select_cohort-IsCohort : IsCohort (select_cohort fl mt nodes req now)
    unfolding select_cohort select_eligible_nodes
    select_cohort-IsCohort =
        let picked = fill_behind-IsPicked req ranked in
        (
          length-IsPicked cohort_max_nodes ranked (fill_behind fl mt nodes req ranked) picked,
          All-IsPicked IsSeat cohort_max_nodes ranked (fill_behind fl mt nodes req ranked) picked (
              All-sort_by (lower_score fl mt req now) IsSeat (eligible_results fl mt req now nodes)
                (eligible-IsSeat nodes (λ n there. there))),
          λ id. omega (
            arith,
            count-IsPicked (λ (s : Selection). s.node_id == id) cohort_max_nodes ranked
                (fill_behind fl mt nodes req ranked) picked,
            count-sort_by (lower_score fl mt req now) (λ (s : Selection). s.node_id == id)
                (eligible_results fl mt req now nodes),
            count-eligible id nodes,
          ),
          ranked-Leads ranked refl,
        )
