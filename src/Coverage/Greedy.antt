-- ===== src/Coverage/Greedy.antt =====
-- SaucepanServer/task-server/shared/coverage/plan.go: GreedyFill and EvaluateGates.
use saucepan.Common.{
  nth, remove_at, ℕ, zero, suc, ◌+◌, ◌/◌, Bool, false, ◌&&◌, ◌||◌, not, Option, none, some, List,
  [], ◌∷◌, ◌++◌, ltb, ◌==◌, nat_eq, string_eq, if◌then◌else◌, length, map, max,
}
use saucepan.Common.Float.{Float}
use saucepan.Common.Int.{pos, leb_ℤ, pos_part}
use saucepan.Common.Sort.{sort_by}
use saucepan.Coverage.{
  Site, Intent, Plan, Factor, n_main_of, max_sites_of, max_gap_of, is_hard, pool_of, score_of,
  is_dup, worse_gate, unique_reasons, GateStatus, gate_ok, gate_failed, insufficient_data,
  GateReason, no_candidates, no_sites_selected, min_sites_not_met, span_not_met, gap_exceeds,
}

-- math.Inf(-1), math.Mod, math.Min and math.Max, of the standard library.
module _ (fl : Float) (neg_inf : fl.F) (fmod fmin fmax : fl.F → fl.F → fl.F) where
  -- One round over the remaining sites: the index of the best that is not taken, and its score.
  unfoldable pub scan :
      Intent fl
      → List (Factor fl)
      → fl.F
      → fl.F
      → List (Site fl)
      → ℕ
      → List (Site fl)
      → Option ℕ × fl.F
      → Option ℕ × fl.F
  scan intent factors ra dec taken i [] best = best
  scan intent factors ra dec taken i (s ∷ rest) best =
      let score = score_of fl intent factors ra dec taken s in
      scan intent factors ra dec taken (suc i) rest
        (if is_dup fl taken s then best else if fl.lt best.1 score then (some i, score) else best)

  -- The sites chosen so far and up to `left` more, out of the remaining ones.
  unfoldable pub pick :
      Intent fl
      → List (Factor fl)
      → fl.F
      → fl.F
      → List (Site fl)
      → ℕ
      → List (Site fl)
      → List (Site fl)
      → List (Site fl)
  pick intent factors ra dec already zero remaining chosen = chosen
  pick intent factors ra dec already (suc left) remaining chosen =
      if length remaining == 0
        || not (ltb (length already + length chosen) (max_sites_of fl intent))
      then chosen
      else elim (scan intent factors ra dec (already ++ chosen) 0 remaining (none, neg_inf)).0 [
        | none ↦ chosen
        | some i ↦ elim (nth remaining i) [
          | none ↦ chosen
          | some s ↦
              pick intent factors ra dec already left (remove_at i remaining) (chosen ++ s ∷ [])
        ]
      ]

  -- CircularLonSpanDeg
  abbrev pub norm_lon : fl.F → fl.F
  norm_lon lon =
      let n = fmod lon (fl.lit 360 0) in if fl.lt n (fl.lit 0 0) then fl.add n (fl.lit 360 0) else n

  abbrev pub max_gap_from : fl.F → List fl.F → fl.F → fl.F
  max_gap_from prev [] gap = gap
  max_gap_from prev (x ∷ xs) gap =
      let g = fl.sub x prev in max_gap_from x xs (if fl.lt gap g then g else gap)

  abbrev pub last_of : fl.F → List fl.F → fl.F
  last_of x [] = x
  last_of x (y ∷ ys) = last_of y ys

  abbrev pub span_of_sorted : List fl.F → fl.F
  span_of_sorted [] = fl.lit 0 0
  span_of_sorted (first ∷ rest) =
      let gap = max_gap_from first rest (fl.lit 0 0) in
      let wrap = fl.sub (fl.add first (fl.lit 360 0)) (last_of first rest) in
      let span = fl.sub (fl.lit 360 0) (if fl.lt gap wrap then wrap else gap) in
      if fl.lt span (fl.lit 0 0) then fl.lit 0 0 else span

  unfoldable pub circular_lon_span_deg : List fl.F → fl.F
  circular_lon_span_deg [] = fl.lit 0 0
  circular_lon_span_deg (lon ∷ []) = fl.lit 0 0
  circular_lon_span_deg lons = span_of_sorted (sort_by fl.lt (map norm_lon lons))

  abbrev pub float_of : ℕ → fl.F
  float_of n = fl.of_int (pos n)

  -- The estimated coverage, in hours, and the gap, in minutes, of n sites with this span.
  unfoldable pub coverage_hours : ℕ → fl.F → fl.F
  coverage_hours n span =
      let hours =
        fmin (fl.lit 24 0)
          (fl.mul (fl.mul (fl.lit 24 0) (fl.div span (fl.lit 360 0))) (float_of n)) in
      let least = fl.mul (float_of n) (fl.lit 3 0) in
      if fl.lt hours least then fmin (fl.lit 24 0) least else hours

  unfoldable pub estimated_gap : ℕ → fl.F → fl.F
  estimated_gap n hours =
      fmax (fl.lit 0 0)
        (fl.div (fl.mul (fl.sub (fl.lit 24 0) hours) (fl.lit 60 0)) (float_of (max 1 n)))

  abbrev pub is_no : Option Bool → Bool
  is_no none = false
  is_no (some meets) = not meets

  abbrev pub min_sites_of : Intent fl → ℕ
  min_sites_of intent =
      if leb_ℤ intent.min_sites (pos 0) then n_main_of fl intent else pos_part intent.min_sites

  -- One gate: its reason and a worse status, if it is not met.
  abbrev pub gate :
      Bool → Bool → GateReason → List GateReason × GateStatus → List GateReason × GateStatus
  gate hard missed reason (reasons, status) =
      if missed then (reasons ++ reason ∷ [], worse_gate status hard) else (reasons, status)

  unfoldable pub evaluate_gates : Intent fl → Plan fl → Plan fl
  evaluate_gates intent plan =
      if not intent.enabled
      then record plan { gate_status = gate_ok; gate_reasons = [] }
      else let n = length plan.primary + length plan.redundant in
        let hard = is_hard fl intent in
        let sites =
          gate hard (ltb n (min_sites_of intent)) min_sites_not_met (plan.gate_reasons, gate_ok) in
        let span =
          gate hard
            (fl.lt (fl.lit 0 0) intent.min_longitude_span_deg
              && fl.lt (fl.add plan.longitude_span_deg (fl.lit 1 9)) intent.min_longitude_span_deg)
            span_not_met sites in
        let gap = gate hard (is_no plan.meets_estimated_gap) gap_exceeds span in
        let (reasons, status) =
          if n == 0 then (gap.0 ++ no_sites_selected ∷ [], gate_failed) else gap in
        record plan { gate_status = status; gate_reasons = unique_reasons [] reasons }

  abbrev pub bare : List (Site fl) → List (Site fl) → GateStatus → List GateReason → Plan fl
  bare primary redundant status reasons = record {
    primary = primary;
    redundant = redundant;
    longitude_span_deg = fl.lit 0 0;
    meets_estimated_gap = none;
    gate_status = status;
    gate_reasons = reasons;
  }

  -- Half of NMain, rounded up, and at least 1.
  abbrev pub n_redundant : ℕ → ℕ
  n_redundant n = let half = (n + 1) / 2 in if ltb half 1 then 1 else half

  abbrev pub estimated : Intent fl → List (Site fl) → List (Site fl) → Plan fl
  estimated intent primary redundant =
      let all = primary ++ redundant in
      let span = circular_lon_span_deg (map (λ s. s.lon) all) in
      let gap = estimated_gap (length all) (coverage_hours (length all) span) in
      record {
        primary = primary;
        redundant = redundant;
        longitude_span_deg = span;
        meets_estimated_gap = some (fl.le gap (float_of (max_gap_of fl intent)));
        gate_status = gate_ok;
        gate_reasons = [];
      }

  -- The primary sites, then the redundant ones.
  unfoldable pub choose :
      Intent fl
      → List (Site fl)
      → fl.F
      → fl.F
      → List (Factor fl)
      → Bool
      → List (Site fl) × List (Site fl)
  choose intent sites ra dec factors allow_emulator =
      let pool = pool_of fl intent allow_emulator sites in
      let primary = pick intent factors ra dec [] (n_main_of fl intent) pool [] in
      (
        primary,
        if intent.redundancy
            then pick intent factors ra dec primary (n_redundant (n_main_of fl intent)) pool []
            else [],
      )

  unfoldable pub greedy_fill :
      Intent fl → List (Site fl) → fl.F → fl.F → List (Factor fl) → Bool → Plan fl
  greedy_fill intent sites ra dec factors allow_emulator =
      if not intent.enabled || (length sites == 0 || length factors == 0)
      then bare [] [] insufficient_data (if intent.enabled then no_candidates ∷ [] else [])
      else let (primary, redundant) = choose intent sites ra dec factors allow_emulator in
        if length (primary ++ redundant) == 0
        then evaluate_gates intent (bare primary redundant gate_failed (no_sites_selected ∷ []))
        else evaluate_gates intent (estimated intent primary redundant)
