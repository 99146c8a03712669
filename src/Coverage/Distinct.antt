-- ===== src/Coverage/Distinct.antt =====
-- The plan as a whole.
use saucepan.Common.{
  ◌+◌, ◌≤◌, ◌<◌, ◌≡◌, refl, inl, inr, ap, sym, subst, Bool, true, false, ◌&&◌, ◌||◌, not, List, [],
  ◌∷◌, ◌++◌, arith, ltb, ◌==◌, nat_eq, string_eq, if◌then◌else◌, any, filter, length, All,
  All-filter, All-filter_self, In, Bool-cases,
}
use saucepan.Common.Float.{Float}
use saucepan.Coverage.{
  Site, Intent, Plan, Factor, n_main_of, max_sites_of, is_hard, pool_of, gate_failed,
  no_sites_selected,
}
use saucepan.Coverage.Greedy.{
  pick, choose, greedy_fill, evaluate_gates, n_redundant, bare, estimated,
}
use saucepan.Coverage.Pick.{IsDistinct, pick-Picked}

module _ (fl : Float) (neg_inf : fl.F) (fmod fmin fmax : fl.F → fl.F → fl.F) (intent : Intent fl)
    (sites : List (Site fl)) (ra dec : fl.F) (factors : List (Factor fl))
    (allow_emulator : Bool) where
  abbrev is_wanted : Site fl → Bool
  is_wanted s = any (λ id. not (id == "") && id == s.telescope_id) intent.preferred_sites

  -- A site that may be chosen at all.
  abbrev pub IsCandidate : Site fl → Type 0
  IsCandidate s =
      In s sites
      × (s.is_emulator ≡ true → allow_emulator ≡ true)
      × (is_hard fl intent ≡ true
          → 0 < length intent.preferred_sites
          → any (λ id. not (id == "") && id == s.telescope_id) intent.preferred_sites ≡ true)

  All-In : (xs ys : List (Site fl)) → ((x : Site fl) → In x xs → In x ys) → All (λ x. In x ys) xs
  All-In [] ys f = tt
  All-In (x ∷ xs) ys f = (f x (inl refl), All-In xs ys (λ y h. f y (inr h)))

  All-zip :
      (P Q R S : Site fl → Type 0)
      → ((s : Site fl) → P s → Q s → R s → S s)
      → (xs : List (Site fl)) → All P xs
      → All Q xs
      → All R xs
      → All S xs
  All-zip P Q R S f [] p q r = tt
  All-zip P Q R S f (x ∷ xs) p q r = (f x p.0 q.0 r.0, All-zip P Q R S f xs p.1 q.1 r.1)

  abbrev real : List (Site fl)
  real = filter (λ s. not (s.is_emulator && not allow_emulator)) sites

  real-In : All (λ s. In s sites) real
  real-In =
      All-filter (λ s. In s sites) (λ s. not (s.is_emulator && not allow_emulator)) sites
        (All-In sites sites (λ s h. h))

  real-allowed : All (λ s. not (s.is_emulator && not allow_emulator) ≡ true) real
  real-allowed = All-filter_self (λ s. not (s.is_emulator && not allow_emulator)) sites

  pool_of-IsCandidate : All IsCandidate (pool_of fl intent allow_emulator sites)
  unfolding pool_of
  pool_of-IsCandidate =
      elim (Bool-cases (is_hard fl intent && ltb 0 (length intent.preferred_sites))) [
        | inl hard ↦ rw hard (
            All-zip (λ s. In s sites) (λ s. not (s.is_emulator && not allow_emulator) ≡ true)
              (λ s. is_wanted s ≡ true) IsCandidate
              (λ s known allowed wanted. (known, λ e. ground arith, λ _ _. wanted))
              (filter is_wanted real) (All-filter (λ s. In s sites) is_wanted real real-In)
              (All-filter (λ s. not (s.is_emulator && not allow_emulator) ≡ true) is_wanted real
                real-allowed)
              (All-filter_self is_wanted real))
        | inr soft ↦ rw soft (
            All-zip (λ s. In s sites) (λ s. not (s.is_emulator && not allow_emulator) ≡ true)
              (λ s. not (s.is_emulator && not allow_emulator) ≡ true) IsCandidate
              (λ s known allowed _.
                (known, λ e. ground arith, λ hard wanted. absurd (ground arith)))
              real real-In real-allowed real-allowed)
      ]

  abbrev pub IsGoodPlan : List (Site fl) → List (Site fl) → Type 0
  IsGoodPlan primary redundant =
      IsDistinct fl neg_inf fmod fmin fmax intent factors ra dec (primary ++ redundant)
      × (length primary ≤ n_main_of fl intent)
      × (length redundant ≤ n_redundant fl neg_inf fmod fmin fmax (n_main_of fl intent))
      × (length primary + length redundant ≤ max_sites_of fl intent)
      × All IsCandidate primary
      × All IsCandidate redundant

  append-nil : (xs : List (Site fl)) → xs ++ [] ≡ xs
  append-nil [] = refl
  append-nil (x ∷ xs) = ap (λ r. x ∷ r) (append-nil xs)

  either :
      (b : Bool) (P : List (Site fl) → Type 0) (r : List (Site fl))
      → P r
      → P []
      → P (if b then r else [])
  either true P r p q = p
  either false P r p q = q

  choose-IsGoodPlan :
      let (primary, redundant) =
        choose fl neg_inf fmod fmin fmax intent sites ra dec factors allow_emulator in
      IsGoodPlan primary redundant
  unfolding choose
  choose-IsGoodPlan =
      let pool = pool_of fl intent allow_emulator sites in
      let n = n_main_of fl intent in
      let first =
        pick-Picked fl neg_inf fmod fmin fmax intent factors ra dec IsCandidate [] n pool []
          pool_of-IsCandidate
          (record { distinct = tt; wanted = omega arith; room = inl refl; from_pool = tt }) in
      let primary = pick fl neg_inf fmod fmin fmax intent factors ra dec [] n pool [] in
      let more = n_redundant fl neg_inf fmod fmin fmax n in
      let redundant = pick fl neg_inf fmod fmin fmax intent factors ra dec primary more pool [] in
      let alone : IsDistinct fl neg_inf fmod fmin fmax intent factors ra dec (primary ++ []) =
        subst (IsDistinct fl neg_inf fmod fmin fmax intent factors ra dec)
          (sym (append-nil primary)) first.distinct in
      let second =
        pick-Picked fl neg_inf fmod fmin fmax intent factors ra dec IsCandidate primary more pool []
          pool_of-IsCandidate
          (record { distinct = alone; wanted = omega arith; room = inl refl; from_pool = tt }) in
      let single : IsGoodPlan primary [] = (
        alone,
        omega (arith, first.wanted),
        omega arith,
        omega (arith, first.room),
        first.from_pool,
        tt,
      ) in
      let double : IsGoodPlan primary redundant = (
        second.distinct,
        omega (arith, first.wanted),
        omega (arith, second.wanted),
        omega (arith, first.room, second.room),
        first.from_pool,
        second.from_pool,
      ) in
      either intent.redundancy (λ r. IsGoodPlan primary r) redundant double single

  abbrev Good : Plan fl → Type 0
  Good plan = IsGoodPlan plan.primary plan.redundant

  keep : (b : Bool) (x y : Plan fl) → Good x → Good y → Good (if b then x else y)
  keep true x y p q = p
  keep false x y p q = q

  evaluate_gates-IsGoodPlan :
      (plan : Plan fl)
      → IsGoodPlan plan.primary plan.redundant
      → let plan' = evaluate_gates fl neg_inf fmod fmin fmax intent plan in
        IsGoodPlan plan'.primary plan'.redundant
  unfolding evaluate_gates
  evaluate_gates-IsGoodPlan plan good = keep (not intent.enabled) _ _ good good

  -- Whatever the sites, the factors and the arithmetic of their scores: no telescope is chosen twice, as primary or as redundant; there are at most NMain primary sites (1 if it is not positive), half as many redundant ones, rounded up, and no more than MaxSites together (8 if it is not positive); and each is a given site, an emulator only if those are allowed, and in hard mode one of the preferred sites, if there are any.
  pub greedy_fill-IsGoodPlan :
      let plan = greedy_fill fl neg_inf fmod fmin fmax intent sites ra dec factors allow_emulator in
      IsGoodPlan plan.primary plan.redundant
  unfolding greedy_fill
  greedy_fill-IsGoodPlan =
      let chosen = choose fl neg_inf fmod fmin fmax intent sites ra dec factors allow_emulator in
      let good : IsGoodPlan chosen.0 chosen.1 = choose-IsGoodPlan in
      keep (not intent.enabled || (length sites == 0 || length factors == 0)) _ _
        (tt, omega arith, omega arith, omega arith, tt, tt)
        (keep (length (chosen.0 ++ chosen.1) == 0) _ _
          (evaluate_gates-IsGoodPlan
            (bare fl neg_inf fmod fmin fmax chosen.0 chosen.1 gate_failed (no_sites_selected ∷ []))
            good)
          (evaluate_gates-IsGoodPlan (estimated fl neg_inf fmod fmin fmax intent chosen.0 chosen.1)
            good))
