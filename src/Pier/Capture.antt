-- ===== src/Pier/Capture.antt =====
-- SaucepanServer/task-server/shared/wire/piercode.go: the bounds on a next_capture request.
use saucepan.Common.{
  String, true, false, ◌&&◌, Option, none, some, List, [], ◌∷◌, ◌≡◌, refl, ◌↔◌, arith, ◌==◌,
  string_eq, if◌then◌else◌, any, In, inl, inr, eq_iff, Bool-cases,
}
use saucepan.Common.Float.{Float}

pub data CaptureError : Type 0 where
  exposure_not_positive exposure_above_max exposure_below_min : CaptureError
  gain_above_max gain_below_min filter_not_in_set : CaptureError

abbrev pub first_error : Option CaptureError → Option CaptureError → Option CaptureError
first_error none later = later
first_error (some e) _ = some e

module _ (fl : Float) where
  pub record NextCapturePayload : Type 0 where
    pub exposure_sec : Option fl.F
    pub gain : Option fl.F
    pub filter : Option String

  pub record NextCaptureBounds : Type 0 where
    pub min_exposure_sec : fl.F
    pub max_exposure_sec : fl.F
    pub min_gain : fl.F
    pub max_gain : fl.F
    pub allowed_filters : List String

  unfoldable pub validate_exposure : NextCaptureBounds → Option fl.F → Option CaptureError
  validate_exposure b none = none
  validate_exposure b (some v) =
      if fl.le v (fl.lit 0 0)
      then some exposure_not_positive
      else if fl.lt (fl.lit 0 0) b.max_exposure_sec && fl.lt b.max_exposure_sec v
      then some exposure_above_max
      else if fl.lt (fl.lit 0 0) b.min_exposure_sec && fl.lt v b.min_exposure_sec
      then some exposure_below_min
      else none

  unfoldable pub validate_gain : NextCaptureBounds → Option fl.F → Option CaptureError
  validate_gain b none = none
  validate_gain b (some v) =
      if fl.lt (fl.lit 0 0) b.max_gain && fl.lt b.max_gain v
      then some gain_above_max
      else if fl.lt v b.min_gain
      then some gain_below_min
      else none

  unfoldable pub validate_filter : NextCaptureBounds → Option String → Option CaptureError
  validate_filter b none = none
  validate_filter b (some filter) =
      if any (λ f. f == filter) b.allowed_filters then none else some filter_not_in_set

  -- The error of ValidateNextCapture, `none` for nil.
  unfoldable pub validate_next_capture :
      NextCaptureBounds → NextCapturePayload → Option CaptureError
  unfolding validate_exposure validate_gain validate_filter
  validate_next_capture b p =
      first_error (validate_exposure b p.exposure_sec)
        (first_error (validate_gain b p.gain) (validate_filter b p.filter))

  -- A limit that counts from zero up only if it is positive.
  abbrev pub IsPositive : fl.F → Type 0
  IsPositive limit = fl.lt (fl.lit 0 0) limit ≡ true

  abbrev pub Each {ℓ} : {A : Type ℓ} → (A → Type 0) → Option A → Type 0
  Each P none = Unit
  Each P (some v) = P v

  -- What a request may be under the campaign's limits.
  pub record WithinBounds (b : NextCaptureBounds) (p : NextCapturePayload) : Type 0 where
    pub positive : Each (λ v. fl.le v (fl.lit 0 0) ≡ false) p.exposure_sec
    pub not_long :
        Each
          (λ v. IsPositive b.max_exposure_sec → fl.lt b.max_exposure_sec v ≡ false)
          p.exposure_sec
    pub not_short :
        Each
          (λ v. IsPositive b.min_exposure_sec → fl.lt v b.min_exposure_sec ≡ false)
          p.exposure_sec
    pub not_high : Each (λ v. IsPositive b.max_gain → fl.lt b.max_gain v ≡ false) p.gain
    pub not_low : Each (λ v. fl.lt v b.min_gain ≡ false) p.gain
    pub in_set : Each (λ f. In f b.allowed_filters) p.filter

  any-In :
      (filter : String) (names : List String)
      → any (λ f. f == filter) names ≡ true
      → In filter names
  any-In filter [] h = absurd (cc)
  any-In filter (f ∷ names) h = elim (Bool-cases (f == filter)) [
    | inl hit ↦ inl (ground (arith, eq_iff f filter))
    | inr miss ↦ inr (any-In filter names (ground arith))
  ]

  In-any :
      (filter : String) (names : List String)
      → In filter names
      → any (λ f. f == filter) names ≡ true
  In-any filter [] h = elim h [ ]
  In-any filter (f ∷ names) (inl e) = ground (arith, eq_iff f filter)
  In-any filter (f ∷ names) (inr h) = ground (arith, In-any filter names h)

  exposure-Each :
      (b : NextCaptureBounds) (e : Option fl.F)
      → (validate_exposure b e ≡ none) ↔ (
          Each (λ v. fl.le v (fl.lit 0 0) ≡ false) e
          × Each (λ v. IsPositive b.max_exposure_sec → fl.lt b.max_exposure_sec v ≡ false) e
          × Each (λ v. IsPositive b.min_exposure_sec → fl.lt v b.min_exposure_sec ≡ false) e)
  unfolding validate_exposure
  exposure-Each b none = (λ _. (tt, tt, tt), λ _. refl)
  exposure-Each b (some v) = ground arith

  gain-Each :
      (b : NextCaptureBounds) (g : Option fl.F)
      → (validate_gain b g ≡ none) ↔ (
          Each (λ v. IsPositive b.max_gain → fl.lt b.max_gain v ≡ false) g
          × Each (λ v. fl.lt v b.min_gain ≡ false) g)
  unfolding validate_gain
  gain-Each b none = (λ _. (tt, tt), λ _. refl)
  gain-Each b (some v) = ground arith

  filter-Each :
      (b : NextCaptureBounds) (f : Option String)
      → (validate_filter b f ≡ none) ↔ Each (λ f. In f b.allowed_filters) f
  unfolding validate_filter
  filter-Each b none = (λ _. tt, λ _. refl)
  filter-Each b (some f) = (
    λ h. any-In f b.allowed_filters (ground arith),
    λ h. ground (arith, In-any f b.allowed_filters h),
  )

  first_error-none :
      (x y : Option CaptureError) → (first_error x y ≡ none) ↔ ((x ≡ none) × (y ≡ none))
  first_error-none x y = ground arith

  -- A request passes exactly if it is within the campaign's limits: a positive exposure, below and above the limits that are positive, a gain not above a positive maximum and never below the minimum, set or not, and a filter that is in the set.
  pub validate_next_capture-WithinBounds :
      (b : NextCaptureBounds) (p : NextCapturePayload)
      → (validate_next_capture b p ≡ none) ↔ WithinBounds b p
  unfolding validate_next_capture
  validate_next_capture-WithinBounds b p =
      let first =
        first_error-none (validate_exposure b p.exposure_sec)
          (first_error (validate_gain b p.gain) (validate_filter b p.filter)) in
      let rest = first_error-none (validate_gain b p.gain) (validate_filter b p.filter) in
      (
        λ h.
            let (e, gf) = first.0 h in
            let (g, f) = rest.0 gf in
            let (positive, not_long, not_short) = (exposure-Each b p.exposure_sec).0 e in
            let (not_high, not_low) = (gain-Each b p.gain).0 g in
            record {
              positive = positive;
              not_long = not_long;
              not_short = not_short;
              not_high = not_high;
              not_low = not_low;
              in_set = (filter-Each b p.filter).0 f;
            },
        λ w. first.1 (
          (exposure-Each b p.exposure_sec).1 (w.positive, w.not_long, w.not_short),
          rest.1
              ((gain-Each b p.gain).1 (w.not_high, w.not_low), (filter-Each b p.filter).1 w.in_set),
        ),
      )
