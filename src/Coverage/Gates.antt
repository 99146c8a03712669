-- ===== src/Coverage/Gates.antt =====
-- What the gates say of a plan.
use saucepan.Common.{
  ℕ, ◌+◌, ◌≡◌, refl, ap, ◌∙◌, Bool, true, false, ◌&&◌, ◌||◌, not, List, [], ◌∷◌, ◌++◌, arith, ltb,
  ◌==◌, nat_eq, if◌then◌else◌, length,
}
use saucepan.Common.Float.{Float}
use saucepan.Coverage.{
  Intent, Plan, is_hard, worse_gate, GateStatus, gate_ok, degraded, gate_failed, GateReason,
  gap_exceeds, span_not_met, min_sites_not_met, no_sites_selected,
}
use saucepan.Coverage.Greedy.{evaluate_gates, min_sites_of, is_no, gate}

module _ (fl : Float) (neg_inf : fl.F) (fmod fmin fmax : fl.F → fl.F → fl.F) (intent : Intent fl)
    (plan : Plan fl) where
  abbrev n_sites : ℕ
  n_sites = length plan.primary + length plan.redundant

  -- Whether one of the three limits of the intent is missed.
  abbrev pub is_missed : Bool
  is_missed =
      ltb n_sites (min_sites_of fl neg_inf fmod fmin fmax intent)
      || (fl.lt (fl.lit 0 0) intent.min_longitude_span_deg
            && fl.lt (fl.add plan.longitude_span_deg (fl.lit 1 9)) intent.min_longitude_span_deg
          || is_no fl neg_inf fmod fmin fmax plan.meets_estimated_gap)

  -- The status that a plan deserves.
  abbrev pub deserved : GateStatus
  deserved =
      if n_sites == 0
      then gate_failed
      else if not is_missed
      then gate_ok
      else if is_hard fl intent
      then gate_failed
      else degraded

  enabled_branch : (e : Bool) (off on : Plan fl) → e ≡ true → (if not e then off else on) ≡ on
  enabled_branch true off on h = refl
  enabled_branch false off on h = absurd (cc)

  abbrev gates : Bool → Bool → Bool → Bool → List GateReason → List GateReason × GateStatus
  gates hard sites span gap reasons = gate fl neg_inf fmod fmin fmax hard gap gap_exceeds (
      gate fl neg_inf fmod fmin fmax hard span span_not_met
        (gate fl neg_inf fmod fmin fmax hard sites min_sites_not_met (reasons, gate_ok)))

  gates-status :
      (hard sites span gap : Bool) (reasons : List GateReason)
      → (gates hard sites span gap reasons).1
        ≡ (if not (sites || (span || gap)) then gate_ok else if hard then gate_failed else degraded)
  unfolding worse_gate
  gates-status hard sites span gap reasons = ground arith

  final-status :
      (empty : Bool) (g : List GateReason × GateStatus) (s : GateStatus)
      → g.1 ≡ s
      → (if empty then (g.0 ++ no_sites_selected ∷ [], gate_failed) else g).1
        ≡ (if empty then gate_failed else s)
  final-status true g s e = refl
  final-status false g s e = e

  -- With coverage enabled, a plan fails if it has no site, or in hard mode if it misses a limit (the number of sites, the span of longitudes if one is asked for, the estimated gap if there is one); in soft mode it is then degraded; and it is fine if and only if it has a site and misses none. The order in which the gates are tried, and the status that the plan came with, do not matter.
  pub evaluate_gates-deserved :
      intent.enabled ≡ true
      → (evaluate_gates fl neg_inf fmod fmin fmax intent plan).gate_status ≡ deserved
  unfolding evaluate_gates
  evaluate_gates-deserved on =
      let hard = is_hard fl intent in
      let sites = ltb n_sites (min_sites_of fl neg_inf fmod fmin fmax intent) in
      let span =
        fl.lt (fl.lit 0 0) intent.min_longitude_span_deg
        && fl.lt (fl.add plan.longitude_span_deg (fl.lit 1 9)) intent.min_longitude_span_deg in
      let gap = is_no fl neg_inf fmod fmin fmax plan.meets_estimated_gap in
      ap (λ (p : Plan fl). p.gate_status) (enabled_branch intent.enabled _ _ on)
      ∙ final-status (n_sites == 0) (gates hard sites span gap plan.gate_reasons) _
          (gates-status hard sites span gap plan.gate_reasons)
