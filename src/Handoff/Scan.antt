-- ===== src/Handoff/Scan.antt =====
-- The scan of SecondsUntilObstructionLoss ends, and finds the first sample that is forbidden.
use saucepan.Common.{
  ℕ, zero, suc, ◌+◌, ◌-◌, ◌*◌, ◌/◌, ◌≤◌, ◌<◌, ◌≡◌, refl, inl, inr, ap, ◌∙◌, sym, subst, Bool, true,
  false, some, ltb, if◌then◌else◌, arith, Bool-cases, min, nat_eq,
}
use saucepan.Handoff.{Eta, unknown, never, after, scan_from}

suc_mul : (k step : ℕ) → suc k * step ≡ k * step + step
suc_mul k step = omega arith

mul_mono : (j k step : ℕ) → j ≤ k → j * step ≤ k * step
mul_mono j k step h = grind arith

module _ (forbidden : ℕ → Bool) (t0 step end : ℕ) where
  -- The times that the scan looks at: t0, t0 + step, and so on, and the end.
  abbrev pub sample : ℕ → ℕ
  sample k = min (t0 + k * step) end

  abbrev pub IsFirstLoss : Eta → Type 0
  IsFirstLoss unknown = ⊥
  IsFirstLoss never = (k : ℕ) → forbidden (sample k) ≡ false
  IsFirstLoss (after d) =
      (k : ℕ) × (d + t0 ≡ sample k)
      × (forbidden (sample k) ≡ true)
      × ((j : ℕ) → j < k → forbidden (sample j) ≡ false)

  abbrev Clear : ℕ → Type 0
  Clear k = (j : ℕ) → j < suc k → forbidden (sample j) ≡ false

  sample-suc : (k : ℕ) → sample k < end → min (sample k + step) end ≡ sample (suc k)
  sample-suc k h = omega (arith, suc_mul k step)

  sample_end : (j k : ℕ) → k ≤ j → (sample k < end → ⊥) → sample j ≡ sample k
  sample_end j k le h = elim (Bool-cases (ltb (sample k) end)) [
    | inl before ↦ absurd (h (ground arith))
    | inr reached ↦ ground (arith, mul_mono k j step le)
  ]

  never-IsFirstLoss : (k : ℕ) → (sample k < end → ⊥) → Clear k → IsFirstLoss never
  never-IsFirstLoss k at_end clear j = elim (Bool-cases (ltb j (suc k))) [
    | inl early ↦ clear j (ground arith)
    | inr late ↦ ap forbidden (sample_end j k (ground arith) at_end) ∙ clear k (omega arith)
  ]

  before_lt : (k : ℕ) → ltb (sample k) end ≡ true → t0 + k * step < end
  before_lt k before = ground arith

  scan_hit :
      (fuel cur : ℕ)
      → ltb cur end ≡ true
      → forbidden (min (cur + step) end) ≡ true
      → scan_from forbidden t0 step end (suc fuel) cur ≡ some (after (min (cur + step) end - t0))
  unfolding scan_from
  scan_hit fuel cur before hit = rw (before, hit) refl

  scan_on :
      (fuel cur : ℕ)
      → ltb cur end ≡ true
      → forbidden (min (cur + step) end) ≡ false
      → scan_from forbidden t0 step end (suc fuel) cur
        ≡ scan_from forbidden t0 step end fuel (min (cur + step) end)
  unfolding scan_from
  scan_on fuel cur before free = rw (before, free) refl

  scan_stop :
      (fuel cur : ℕ)
      → ltb cur end ≡ false
      → scan_from forbidden t0 step end (suc fuel) cur ≡ some never
  unfolding scan_from
  scan_stop fuel cur reached = rw reached refl

  Clear-suc : (k : ℕ) → Clear k → forbidden (sample (suc k)) ≡ false → Clear (suc k)
  Clear-suc k clear free j lt = elim (Bool-cases (ltb j (suc k))) [
    | inl early ↦ clear j (ground arith)
    | inr late ↦
        let same : suc k ≡ j = ground arith in subst (λ i. forbidden (sample i) ≡ false) same free
  ]

  scan_from-IsFirstLoss :
      (fuel k : ℕ)
      → t0 ≤ end
      → t0 + k * step < end + step
      → end + step ≤ t0 + (k + fuel) * step
      → Clear k
      → (eta : Eta) × (scan_from forbidden t0 step end fuel (sample k) ≡ some eta) × IsFirstLoss eta
  scan_from-IsFirstLoss zero k le inv enough clear =
      let same : k + 0 ≡ k = omega arith in
      let enough' : end + step ≤ t0 + k * step = rw same at enough in absurd (omega arith)
  scan_from-IsFirstLoss (suc fuel) k le inv enough clear = elim (Bool-cases (ltb (sample k) end)) [
    | inr reached ↦
        (never, scan_stop fuel (sample k) reached, never-IsFirstLoss k (ground arith) clear)
    | inl before ↦
        let next = sample-suc k (ground arith) in
        elim (Bool-cases (forbidden (sample (suc k)))) [
          | inl hit ↦ (
            after (min (sample k + step) end - t0),
            scan_hit fuel (sample k) before (subst (λ x. forbidden x ≡ true) (sym next) hit),
            (suc k, omega (arith, suc_mul k step), hit, clear),
          )
          | inr free ↦
              let same : k + suc fuel ≡ suc k + fuel = omega arith in
              let (eta, found, first) =
                scan_from-IsFirstLoss fuel (suc k) le
                  (omega (arith, suc_mul k step, before_lt k before)) (rw same at enough)
                  (Clear-suc k clear free) in
              (
                eta,
                scan_on fuel (sample k) before (subst (λ x. forbidden x ≡ false) (sym next) free)
                    ∙ ap (scan_from forbidden t0 step end fuel) next
                    ∙ found,
                first,
              )
        ]
  ]

enough_fuel : (width step : ℕ) → 0 < step → width + step ≤ (width / step + 2) * step
enough_fuel width step h = grind arith

pub scan-IsFirstLoss :
    (forbidden : ℕ → Bool) (t0 step end : ℕ)
    → 0 < step
    → t0 ≤ end
    → (eta : Eta) × ((if forbidden t0
          then some (after 0)
          else scan_from forbidden t0 step end ((end - t0) / step + 2) t0)
        ≡ some eta)
      × IsFirstLoss forbidden t0 step end eta
scan-IsFirstLoss forbidden t0 step end moving le =
    let first : sample forbidden t0 step end 0 ≡ t0 = omega arith in
    elim (Bool-cases (forbidden t0)) [
      | inl hit ↦ (
        after 0,
        rw hit refl,
        (
          0,
          omega arith,
          subst (λ x. forbidden x ≡ true) (sym first) hit,
          λ j early. absurd (omega arith),
        ),
      )
      | inr free ↦
          let (eta, found, at) =
            scan_from-IsFirstLoss forbidden t0 step end ((end - t0) / step + 2) 0 le (omega arith)
              (omega (arith, enough_fuel (end - t0) step moving))
              (λ j early.
                let zeroth : 0 ≡ j = omega arith in
                subst (λ i. forbidden (sample forbidden t0 step end i) ≡ false) zeroth
                  (subst (λ x. forbidden x ≡ false) (sym first) free)) in
          (
            eta,
            rw free
                (ap (scan_from forbidden t0 step end ((end - t0) / step + 2)) (sym first) ∙ found),
            at,
          )
    ]
