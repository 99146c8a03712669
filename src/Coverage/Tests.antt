-- ===== src/Coverage/Tests.antt =====
-- A plan over four sites, one of them an emulator, and one given twice.
use saucepan.Common.{ℕ, String, ◌≡◌, refl, Bool, true, false, List, [], ◌∷◌, map, if◌then◌else◌}
use saucepan.Common.Float.{milli}
use saucepan.Common.Int.{ℤ, pos, negsuc, ltb_ℤ, ◌+ℤ◌}
use saucepan.Coverage.{Site, Intent, Factor, pool_of, is_hard, score_of, n_main_of, max_sites_of}
use saucepan.Common.{none}
use saucepan.Coverage.{gate_ok, degraded, Plan}
use saucepan.Coverage.Gates.{deserved, evaluate_gates-deserved}
use saucepan.Coverage.Greedy.{evaluate_gates, greedy_fill, choose, pick, scan}
use saucepan.Coverage.Distinct.{IsGoodPlan, greedy_fill-IsGoodPlan}

abbrev site : String → ℕ → Bool → Site milli
site id lon is_emulator = record {
  telescope_id = id;
  lat = pos 0;
  lon = pos lon;
  cohort_score = pos 1000;
  reliability = pos 1000;
  weather = pos 1000;
  is_emulator = is_emulator;
}

abbrev sites : List (Site milli)
sites = site "a" 10 false ∷ site "b" 90 false ∷ site "b" 90 false ∷ site "e" 99 true ∷ []

abbrev intent : Intent milli
intent = record {
  enabled = true;
  n_main = pos 2;
  redundancy = true;
  max_gap_min = pos 45;
  max_sites = pos 8;
  mode = "soft";
  preferred_sites = [];
  min_sites = pos 0;
  min_longitude_span_deg = pos 0;
}

-- The site furthest east.
abbrev east : Factor milli
east s ra dec already = s.lon

abbrev low : ℤ → ℤ → ℤ
low a b = if ltb_ℤ a b then a else b

abbrev high : ℤ → ℤ → ℤ
high a b = if ltb_ℤ a b then b else a

greedy_fill-IsGoodPlan_example :
    let plan =
      greedy_fill milli
        (negsuc 999999)
        (λ a b. a)
        low
        high
        intent
        sites
        (pos 0)
        (pos 0)
        (east ∷ [])
        false in
    IsGoodPlan milli
      (negsuc 999999)
      (λ a b. a)
      low
      high
      intent
      sites
      (pos 0)
      (pos 0)
      (east ∷ [])
      false
      plan.primary
      plan.redundant
greedy_fill-IsGoodPlan_example =
    greedy_fill-IsGoodPlan milli (negsuc 999999) (λ a b. a) low high intent sites (pos 0) (pos 0)
      (east ∷ []) false

two_sites :
    map
      (λ s. s.telescope_id)
      (choose milli
        (negsuc 999999)
        (λ a b. a)
        low
        high
        intent
        sites
        (pos 0)
        (pos 0)
        (east ∷ [])
        false).0
    ≡ "b" ∷ "a" ∷ []
unfolding choose pool_of is_hard pick scan score_of n_main_of max_sites_of ◌+ℤ◌
two_sites = refl

abbrev too_few : Plan milli
too_few = record {
  primary = site "a" 10 false ∷ [];
  redundant = [];
  longitude_span_deg = pos 0;
  meets_estimated_gap = none;
  gate_status = gate_ok;
  gate_reasons = [];
}

evaluate_gates-deserved_example :
    (evaluate_gates milli (negsuc 999999) (λ a b. a) low high intent too_few).gate_status
    ≡ deserved milli (negsuc 999999) (λ a b. a) low high intent too_few
evaluate_gates-deserved_example =
    evaluate_gates-deserved milli (negsuc 999999) (λ a b. a) low high intent too_few refl

one_is_degraded : deserved milli (negsuc 999999) (λ a b. a) low high intent too_few ≡ degraded
unfolding is_hard n_main_of ◌+ℤ◌
one_is_degraded = refl
