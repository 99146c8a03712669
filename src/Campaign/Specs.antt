-- ===== src/Campaign/Specs.antt =====
-- SaucepanServer/task-server/shared/campaign/pack.go: the tasks for filters and for targets.
use saucepan.Common.{
  ℕ, ◌+◌, String, ◌≡◌, ◌≢◌, refl, inl, inr, Bool, true, false, not, Option, List, [], ◌∷◌, ◌++◌,
  ◌==◌, string_eq, if◌then◌else◌, arith, All, In-front, In-back, All-append, All-map, In, length,
  filter, length-append, Bool-cases, eq_iff,
}
use saucepan.Common.Float.{Float}
use saucepan.Pier.Address.{Url}
use saucepan.Campaign.{PackTarget, Pack}
use saucepan.Common.Text.{trim_space}
use saucepan.Campaign.Check.{normalized_product_mode}
use saucepan.Campaign.Expand.{TaskSpec, task_of, expand_filters, expand_targets}

-- How many of the filters of a target are not blank.
abbrev pub named_filters : List String → List String
named_filters filters = filter (λ filt. not (trim_space filt == "")) filters

module _ (fl : Float) where
  -- How many tasks the targets come to.
  abbrev pub task_count : List (PackTarget fl) → ℕ
  task_count [] = 0
  task_count (t ∷ targets) = length (named_filters t.filters) + task_count targets

  -- A task for a target of the pack, in one of its filters.
  pub record IsTaskOf (p : Pack fl) (t : PackTarget fl) (filt : String) (spec : TaskSpec fl)
      : Type 0 where
    pub one_filter : spec.required_filters ≡ trim_space filt ∷ []
    pub there : (spec.target_ra ≡ t.ra) × (spec.target_dec ≡ t.dec)
    pub exposure : spec.integration_time ≡ t.exposure_sec
    pub budget :
        spec.normalized_integration_budget_s ≡ fl.mul (fl.of_int t.frame_count) t.exposure_sec
    pub emulator : spec.allow_emulator ≡ p.test_only
    pub magnitude : spec.target_magnitude ≡ t.magnitude
    pub mode : spec.product_mode ≡ normalized_product_mode p.product

  abbrev pub IsFrom : Pack fl → List (PackTarget fl) → TaskSpec fl → Type 0
  IsFrom p targets spec =
      (t : PackTarget fl) × (filt : String) × In t targets
      × In filt t.filters
      × (trim_space filt ≢ "")
      × IsTaskOf p t filt spec

  -- Each filter that is not blank has a task.
  abbrev pub HasTasks : Pack fl → List (TaskSpec fl) → PackTarget fl → List String → Type 0
  HasTasks p specs t filters =
      All
        (λ filt.
          trim_space filt ≢ "" → (spec : TaskSpec fl) × In spec specs × IsTaskOf p t filt spec)
        filters

  abbrev pub HasAllTasks : Pack fl → List (TaskSpec fl) → List (PackTarget fl) → Type 0
  HasAllTasks p specs targets = All (λ t. HasTasks p specs t t.filters) targets

  module _ (fixed4 : fl.F → String) (parse_request_uri : String → Option Url) where
    pub task_of-IsTaskOf :
        (p : Pack fl) (t : PackTarget fl) (filt : String)
        → IsTaskOf p t filt (task_of fl fixed4 parse_request_uri p t (trim_space filt))
    unfolding task_of
    task_of-IsTaskOf p t filt = record {
      one_filter = refl;
      there = (refl, refl);
      exposure = refl;
      budget = refl;
      emulator = refl;
      magnitude = refl;
      mode = refl;
    }

    pub length-expand_filters :
        (p : Pack fl) (t : PackTarget fl) (filters : List String)
        → length (expand_filters fl fixed4 parse_request_uri p t filters)
          ≡ length (named_filters filters)
    unfolding expand_filters
    length-expand_filters p t [] = refl
    length-expand_filters p t (filt ∷ filters) = ground (arith, length-expand_filters p t filters)

    pub length-expand_targets :
        (p : Pack fl) (targets : List (PackTarget fl))
        → length (expand_targets fl fixed4 parse_request_uri p targets) ≡ task_count targets
    unfolding expand_targets
    length-expand_targets p [] = refl
    length-expand_targets p (t ∷ targets) = omega (
      arith,
      length-append (expand_filters fl fixed4 parse_request_uri p t t.filters)
          (expand_targets fl fixed4 parse_request_uri p targets),
      length-expand_filters p t t.filters,
      length-expand_targets p targets,
    )

    abbrev pub filter_tasks : Pack fl → PackTarget fl → List String → List (TaskSpec fl)
    filter_tasks p t filters = expand_filters fl fixed4 parse_request_uri p t filters

    abbrev pub target_tasks : Pack fl → List (PackTarget fl) → List (TaskSpec fl)
    target_tasks p targets = expand_targets fl fixed4 parse_request_uri p targets

    -- A test for blanks, as a fact about the filter.
    pub not_blank : (filt : String) → (trim_space filt == "") ≡ false → trim_space filt ≢ ""
    not_blank filt h blank = cc (h, (eq_iff (trim_space filt) "").1 blank)

    pub expand_filters-IsFrom :
        (p : Pack fl) (t : PackTarget fl) (filters : List String)
        → All
            (λ spec.
              (filt : String) × In filt filters × (trim_space filt ≢ "") × IsTaskOf p t filt spec)
            (filter_tasks p t filters)
    unfolding expand_filters
    expand_filters-IsFrom p t [] = tt
    expand_filters-IsFrom p t (filt ∷ filters) =
        let later =
          All-map _
            (λ spec.
              (f : String) × In f (filt ∷ filters) × (trim_space f ≢ "") × IsTaskOf p t f spec)
            (λ spec (f, there, named, same). (f, inr there, named, same)) (filter_tasks p t filters)
            (expand_filters-IsFrom p t filters) in
        elim (Bool-cases (trim_space filt == "")) [
          | inl blank ↦ rw blank later
          | inr named ↦
              rw named ((filt, inl refl, not_blank filt named, task_of-IsTaskOf p t filt), later)
        ]

    pub expand_targets-IsFrom :
        (p : Pack fl) (targets : List (PackTarget fl))
        → All (IsFrom p targets) (target_tasks p targets)
    unfolding expand_targets
    expand_targets-IsFrom p [] = tt
    expand_targets-IsFrom p (t ∷ targets) =
        All-append (IsFrom p (t ∷ targets)) (filter_tasks p t t.filters) (target_tasks p targets)
          (All-map (IsFrom p targets) (IsFrom p (t ∷ targets))
            (λ spec (u, filt, there, listed, named, same).
              (u, filt, inr there, listed, named, same))
            (target_tasks p targets) (expand_targets-IsFrom p targets))
          (All-map _ (IsFrom p (t ∷ targets))
            (λ spec (filt, listed, named, same). (t, filt, inl refl, listed, named, same))
            (filter_tasks p t t.filters) (expand_filters-IsFrom p t t.filters))

    -- More tasks do no harm.
    pub HasTasks-grows :
        (p : Pack fl) (t : PackTarget fl) (specs more : List (TaskSpec fl))
        → ((spec : TaskSpec fl) → In spec specs → In spec more)
        → (filters : List String) → HasTasks p specs t filters
        → HasTasks p more t filters
    HasTasks-grows p t specs more sub filters h =
        All-map _ _
          (λ filt has named. let (spec, there, same) = has named in (spec, sub spec there, same))
          filters h

    pub next_filter-HasTasks :
        (p : Pack fl) (t : PackTarget fl) (filt : String) (filters : List String) (blank : Bool)
        → (trim_space filt == "") ≡ blank
        → (rest : List (TaskSpec fl)) → HasTasks p rest t filters
        → HasTasks p
            (if blank
              then rest
              else task_of fl fixed4 parse_request_uri p t (trim_space filt) ∷ rest)
            t
            (filt ∷ filters)
    next_filter-HasTasks p t filt filters true blank rest h =
        (λ named. absurd (named ((eq_iff (trim_space filt) "").0 blank)), h)
    next_filter-HasTasks p t filt filters false named rest h =
        let spec = task_of fl fixed4 parse_request_uri p t (trim_space filt) in
        (
          λ _. (spec, inl refl, task_of-IsTaskOf p t filt),
          HasTasks-grows p t rest (spec ∷ rest) (λ s there. inr there) filters h,
        )

    pub expand_filters-HasTasks :
        (p : Pack fl) (t : PackTarget fl) (filters : List String)
        → HasTasks p (filter_tasks p t filters) t filters
    unfolding expand_filters
    expand_filters-HasTasks p t [] = tt
    expand_filters-HasTasks p t (filt ∷ filters) =
        next_filter-HasTasks p t filt filters (trim_space filt == "") refl
          (filter_tasks p t filters) (expand_filters-HasTasks p t filters)

    pub expand_targets-HasAllTasks :
        (p : Pack fl) (targets : List (PackTarget fl))
        → HasAllTasks p (target_tasks p targets) targets
    unfolding expand_targets
    expand_targets-HasAllTasks p [] = tt
    expand_targets-HasAllTasks p (t ∷ targets) =
        let here = filter_tasks p t t.filters in
        let later = target_tasks p targets in
        (
          HasTasks-grows p t here (here ++ later) (In-front here later) t.filters
              (expand_filters-HasTasks p t t.filters),
          All-map (λ u. HasTasks p later u u.filters) (λ u. HasTasks p (here ++ later) u u.filters)
              (λ u h. HasTasks-grows p u later (here ++ later) (In-back here later) u.filters h)
              targets (expand_targets-HasAllTasks p targets),
        )
