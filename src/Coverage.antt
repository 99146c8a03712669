-- ===== src/Coverage.antt =====
-- SaucepanServer/task-server/shared/coverage/plan.go: the greedy choice of sites for continuous
-- coverage, and its gates.
pub mod Greedy
pub mod Pick
pub mod Distinct
pub mod Gates
mod Tests
use saucepan.Common.{
  ℕ, zero, suc, ◌+◌, ◌-◌, String, Bool, true, false, ◌&&◌, ◌||◌, not, Option, none, some, List, [],
  ◌∷◌, ◌++◌, ltb, leb, ◌==◌, nat_eq, string_eq, if◌then◌else◌, any, filter, length, map,
}
use saucepan.Common.Float.{Float}
use saucepan.Common.Int.{ℤ, pos, negsuc, ltb_ℤ, leb_ℤ, pos_part}
use saucepan.Common.Text.{folds_to}

pub data GateStatus : Type 0 where
  gate_ok degraded gate_failed insufficient_data : GateStatus

pub data GateReason : Type 0 where
  no_candidates no_sites_selected min_sites_not_met span_not_met gap_exceeds : GateReason

abbrev pub reason_beq : GateReason → GateReason → Bool
reason_beq no_candidates no_candidates = true
reason_beq no_sites_selected no_sites_selected = true
reason_beq min_sites_not_met min_sites_not_met = true
reason_beq span_not_met span_not_met = true
reason_beq gap_exceeds gap_exceeds = true
reason_beq _ _ = false

abbrev pub positive_or : ℤ → ℕ → ℕ
positive_or (pos zero) d = d
positive_or (pos (suc n)) d = suc n
positive_or (negsuc _) d = d

unfoldable pub worse_gate : GateStatus → Bool → GateStatus
worse_gate cur true = gate_failed
worse_gate gate_failed false = gate_failed
worse_gate _ false = degraded

unfoldable pub unique_reasons : List GateReason → List GateReason → List GateReason
unique_reasons out [] = out
unique_reasons out (r ∷ reasons) =
    unique_reasons (if any (λ s. reason_beq s r) out then out else out ++ r ∷ []) reasons

module _ (fl : Float) where
  pub record Site : Type 0 where
    pub telescope_id : String
    pub lat : fl.F
    pub lon : fl.F
    pub cohort_score : fl.F
    pub reliability : fl.F
    pub weather : fl.F
    pub is_emulator : Bool

  pub record Intent : Type 0 where
    pub enabled : Bool
    pub n_main : ℤ
    pub redundancy : Bool
    pub max_gap_min : ℤ
    pub max_sites : ℤ
    pub mode : String
    pub preferred_sites : List String
    pub min_sites : ℤ
    pub min_longitude_span_deg : fl.F

  -- Normalize, of the numbers; the mode keeps its text, which is only read by is_hard.
  unfoldable pub n_main_of : Intent → ℕ
  n_main_of i = positive_or i.n_main 1

  unfoldable pub max_sites_of : Intent → ℕ
  max_sites_of i = positive_or i.max_sites 8

  unfoldable pub max_gap_of : Intent → ℕ
  max_gap_of i = positive_or i.max_gap_min 45

  unfoldable pub is_hard : Intent → Bool
  is_hard i = folds_to i.mode "hard"

  pub record Plan : Type 0 where
    pub primary : List Site
    pub redundant : List Site
    pub longitude_span_deg : fl.F
    pub meets_estimated_gap : Option Bool
    pub gate_status : GateStatus
    pub gate_reasons : List GateReason

  -- A Factor, by its Score.
  abbrev pub Factor : Type 0
  Factor = Site → fl.F → fl.F → List Site → fl.F

  abbrev pub is_same_site : Site → Site → Bool
  is_same_site s a = a.telescope_id == s.telescope_id

  abbrev pub is_dup : List Site → Site → Bool
  is_dup taken s = any (is_same_site s) taken

  unfoldable pub pool_of : Intent → Bool → List Site → List Site
  pool_of intent allow_emulator sites =
      let pool = filter (λ s. not (s.is_emulator && not allow_emulator)) sites in
      if is_hard intent && ltb 0 (length intent.preferred_sites)
      then filter (λ s. any (λ id. not (id == "") && id == s.telescope_id) intent.preferred_sites)
          pool
      else pool

  abbrev pub sum_factors : List Factor → Site → fl.F → fl.F → List Site → fl.F → fl.F
  sum_factors [] s ra dec ctx score = score
  sum_factors (f ∷ factors) s ra dec ctx score =
      sum_factors factors s ra dec ctx (fl.add score (f s ra dec ctx))

  unfoldable pub score_of : Intent → List Factor → fl.F → fl.F → List Site → Site → fl.F
  score_of intent factors ra dec ctx s =
      let score = sum_factors factors s ra dec ctx (fl.lit 0 0) in
      if not (is_hard intent) && any (λ id. id == s.telescope_id) intent.preferred_sites
      then fl.add score (fl.lit 2 0)
      else score
