-- ===== src/Lanes/Planner/Choice.antt =====
-- The choice of a node and of a start for one task.
use saucepan.Common.{
  nth, ℕ, ◌+◌, ◌≤◌, ◌%◌, zero, suc, String, ◌≡◌, refl, ◌⊎◌, inl, inr, ap, subst, Bool, true, false,
  ◌||◌, Option, none, some, List, [], ◌∷◌, arith, ltb, ◌==◌, nat_eq, string_eq, if◌then◌else◌,
  filter, length, Mapping, In, Bool-cases,
}
use saucepan.Common.Float.{Float}
use saucepan.Common.Time.{add_duration}
use saucepan.Lanes.Planner.{
  PlanNode, PlanTask, AgendaSlot, free_at, window_start_of, window_end_of, exposure_of,
  candidates_of, is_preferred, start_on, consider, consider_at, pick, best_of, slot_of, place,
}

abbrev pub node_ids : List PlanNode → List String
node_ids [] = []
node_ids (n ∷ nodes) = n.node_id ∷ node_ids nodes

the_same : (c n : PlanNode) → some c ≡ some n → c ≡ n
the_same c n e = cc

nth-In :
    (candidates : List PlanNode) (i : ℕ) (n : PlanNode)
    → nth candidates i ≡ some n
    → In n.node_id (node_ids candidates)
nth-In [] i n e = absurd (cc)
nth-In (c ∷ candidates) zero n e = inl (ap (λ x. x.node_id) (the_same c n e))
nth-In (c ∷ candidates) (suc i) n e = inr (nth-In candidates i n e)

keep-In :
    (b : Bool) (n : PlanNode) (id : String) (rest kept : List PlanNode)
    → (In id (node_ids kept) → In id (node_ids rest))
    → In id (node_ids (if b then n ∷ kept else kept))
    → In id (node_ids (n ∷ rest))
keep-In true n id rest kept f (inl e) = inl e
keep-In true n id rest kept f (inr h) = inr (f h)
keep-In false n id rest kept f h = inr (f h)

filter-In :
    (p : PlanNode → Bool) (id : String) (nodes : List PlanNode)
    → In id (node_ids (filter p nodes))
    → In id (node_ids nodes)
filter-In p id [] h = h
filter-In p id (n ∷ nodes) h = keep-In (p n) n id nodes (filter p nodes) (filter-In p id nodes) h

chosen {ℓ} :
    {A : Type ℓ} (late empty : Bool) (x s : A)
    → (if late then none else if empty then none else some x) ≡ some s
    → (x ≡ s) × (empty ≡ false)
chosen true empty x s e = absurd (cc)
chosen false true x s e = absurd (cc)
chosen false false x s e = (cc, refl)

module _ (fl : Float) (now : ℕ) where
  -- A place for a task: where the node is free, inside the window and not in the past.
  pub record Fits (nodes : List PlanNode) (t : PlanTask fl) (free : Mapping ℕ) (id : String)
      (start : ℕ) : Type 0 where
    pub is_free : free_at free id ≤ start
    pub opens : window_start_of fl now t ≤ start
    pub is_ahead : now ≤ start
    pub closes : add_duration start (exposure_of fl t) ≤ window_end_of fl now t
    pub is_node : In id (node_ids nodes)

  -- The best so far is none, or fits.
  abbrev IsBest : List PlanNode → PlanTask fl → Mapping ℕ → String × ℕ → Type 0
  IsBest nodes t free (id, start) = ((id == "") ≡ true) ⊎ Fits nodes t free id start

  consider-IsBest :
      (nodes : List PlanNode) (t : PlanTask fl) (free : Mapping ℕ) (n : PlanNode)
      (best : String × ℕ)
      → In n.node_id (node_ids nodes)
      → IsBest nodes t free best
      → IsBest nodes t free (consider fl now t free n best)
  unfolding consider
  consider-IsBest nodes t free n (id, start) known b =
      let late =
        ltb (window_end_of fl now t) (add_duration (start_on fl now t free n) (exposure_of fl t)) in
      elim (Bool-cases late) [
        | inl closed ↦ rw closed b
        | inr fitting ↦ elim (Bool-cases (id == "" || ltb (start_on fl now t free n) start)) [
          | inr worse ↦ rw (fitting, worse) b
          | inl better ↦
              rw (fitting, better)
                (inr (record {
                  is_free = ground arith;
                  opens = ground arith;
                  is_ahead = ground arith;
                  closes = ground arith;
                  is_node = known;
                }))
        ]
      ]

  consider_at-IsBest :
      (nodes : List PlanNode) (t : PlanTask fl) (free : Mapping ℕ) (c : Option PlanNode)
      (best : String × ℕ)
      → ((n : PlanNode) → c ≡ some n → In n.node_id (node_ids nodes))
      → IsBest nodes t free best
      → IsBest nodes t free (consider_at fl now t free c best)
  consider_at-IsBest nodes t free none best known b = b
  consider_at-IsBest nodes t free (some n) best known b =
      consider-IsBest nodes t free n best (known n refl) b

  pick-IsBest :
      (nodes : List PlanNode) (t : PlanTask fl) (free : Mapping ℕ) (candidates : List PlanNode)
      (node_idx left i : ℕ) (best : String × ℕ)
      → ((id : String) → In id (node_ids candidates) → In id (node_ids nodes))
      → IsBest nodes t free best
      → IsBest nodes t free (pick fl now t free candidates node_idx left i best)
  unfolding pick
  pick-IsBest nodes t free candidates node_idx zero i best known b = b
  pick-IsBest nodes t free candidates node_idx (suc left) i best known b =
      let c = nth candidates ((node_idx + i) % length candidates) in
      pick-IsBest nodes t free candidates node_idx left (i + 1) (consider_at fl now t free c best)
        known
        (consider_at-IsBest nodes t free c best
          (λ n e. known n.node_id (nth-In candidates ((node_idx + i) % length candidates) n e)) b)

  candidates-In :
      (nodes : List PlanNode) (t : PlanTask fl) (id : String)
      → In id (node_ids (candidates_of fl nodes t))
      → In id (node_ids nodes)
  unfolding candidates_of
  candidates-In nodes t id = elim (Bool-cases (ltb 0 (length t.preferred_nodes))) [
    | inr any_node ↦ rw any_node (λ h. h)
    | inl wanted ↦ elim (Bool-cases (ltb 0 (length (filter (is_preferred fl t) nodes)))) [
      | inl some_there ↦ rw (wanted, some_there) (filter-In (is_preferred fl t) id nodes)
      | inr none_there ↦ rw (wanted, none_there) (λ h. h)
    ]
  ]

  -- A slot of a task on this fleet.
  abbrev pub IsSlotOf : List PlanNode → PlanTask fl → Mapping ℕ → AgendaSlot fl → Type 0
  IsSlotOf nodes t free s =
      (s ≡ slot_of fl t (s.node_id, s.start_at)) × Fits nodes t free s.node_id s.start_at

  pub place-IsSlotOf :
      (nodes : List PlanNode) (t : PlanTask fl) (free : Mapping ℕ) (node_idx : ℕ)
      (s : AgendaSlot fl)
      → place fl now nodes t free node_idx ≡ some s
      → IsSlotOf nodes t free s
  unfolding place
  place-IsSlotOf nodes t free node_idx s placed =
      let best = best_of fl now t free nodes node_idx in
      let (same, real) =
        chosen (ltb (window_end_of fl now t) now) (best.0 == "") (slot_of fl t best) s placed in
      elim (pick-IsBest nodes t free (candidates_of fl nodes t) node_idx
        (length (candidates_of fl nodes t)) 0 ("", 0) (candidates-In nodes t) (inl refl)) [
          | inl nothing ↦ absurd (ground (arith, real, nothing))
          | inr fits ↦ subst (IsSlotOf nodes t free) same (refl, fits)
        ]
