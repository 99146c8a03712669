-- ===== src/Select/Cohort.antt =====
-- SaucepanServer/task-server/shared/cohort_fill.go: an anchor and similar fillers.
use saucepan.Common.{
  ℕ, ◌-◌, zero, suc, String, ◌||◌, not, Option, none, some, List, [], ◌∷◌, nth, remove_at, ◌==◌,
  nat_eq, string_eq, if◌then◌else◌,
}
use saucepan.Common.Float.{Float, Math}
use saucepan.Common.Int.{ℤ, pos}
use saucepan.Sky.Slew.{Clock}
use saucepan.Select.{Node, Requirements, Selection}
use saucepan.Select.Gates.{node_is_idle}
use saucepan.Select.Best.{is_some, select_eligible_nodes}
use saucepan.Select.Vector.{
  TelescopeSpec, Vector, default_weights, default_band_widths, band_widths_for, adaptive_band_width,
  apply_filler_penalty, compute_vector, weighted_cosine, passes_bands,
}

abbrev pub cohort_max_nodes : ℕ
cohort_max_nodes = 8

module _ (fl : Float) where
  abbrev or_zero_f : Option fl.F → fl.F
  or_zero_f none = fl.lit 0 0
  or_zero_f (some x) = x

  abbrev or_zero_int : Option ℤ → ℤ
  or_zero_int none = pos 0
  or_zero_int (some n) = n

  unfoldable pub spec_from_node : Node fl → TelescopeSpec fl
  spec_from_node n = record {
    aperture_mm = or_zero_f n.aperture_mm;
    focal_length_mm = or_zero_f n.focal_length_mm;
    pixel_size_um = or_zero_f n.pixel_size_um;
    fov_width_arcmin = or_zero_f n.fov_width_arcmin;
    fov_height_arcmin = or_zero_f n.fov_height_arcmin;
    seeing_arcsec = or_zero_f n.site_seeing_arcsec;
    mount_type = or_zero_int n.mount_type;
  }

  -- nodeByID: the first with that id.
  unfoldable pub node_by_id : String → List (Node fl) → Option (Node fl)
  node_by_id id [] = none
  node_by_id id (n ∷ nodes) = if n.node_id == id then some n else node_by_id id nodes

  -- The centroid of `count` members, the last of which is `v`.
  abbrev pub moved : ℕ → Vector fl → Vector fl → Vector fl
  moved count (c ∷ centroid) (p ∷ v) =
      fl.div (fl.add (fl.mul c (fl.of_int (pos (count - 1)))) p) (fl.of_int (pos count))
      ∷ moved count centroid v
  moved count _ _ = []

module _ (fl : Float) (mt : Math fl) (nodes : List (Node fl)) where
  abbrev pub vector_of : Node fl → Vector fl
  vector_of n = compute_vector fl mt (spec_from_node fl n)

  abbrev substitutes_in : Node fl → List (Node fl) → ℕ
  substitutes_in n [] = 0
  substitutes_in n (other ∷ rest) =
      if other.node_id == n.node_id
        || (not (node_is_idle fl other) || is_some other.current_task_id)
      then substitutes_in n rest
      else if passes_bands fl mt (vector_of n) (vector_of other) (default_band_widths fl)
      then suc (substitutes_in n rest)
      else substitutes_in n rest

  unfoldable pub count_substitutes : Node fl → ℕ
  count_substitutes n = substitutes_in n nodes

  -- The rank of a filler: the lower the better.
  unfoldable pub filler_key : Vector fl → Selection → Node fl → fl.F
  filler_key centroid cand n =
      let adj_score =
        apply_filler_penalty fl cand.score (count_substitutes n)
          (or_zero_f fl n.idle_since_minutes) in
      let cosine = weighted_cosine fl mt centroid (vector_of n) (default_weights fl) in
      fl.sub (fl.of_int adj_score) (fl.mul cosine (fl.lit 500 0))

  -- One pass over the remaining candidates, from index `i` on: the best so far and its key.
  unfoldable pub scan_fillers :
      Vector fl → Vector fl → ℕ → List Selection → Option (ℕ × fl.F) → Option (ℕ × fl.F)
  scan_fillers centroid widths i [] best = best
  scan_fillers centroid widths i (cand ∷ rest) best =
      scan_fillers centroid widths (suc i) rest (elim (node_by_id fl cand.node_id nodes) [
        | none ↦ best
        | some n ↦
            if not (passes_bands fl mt centroid (vector_of n) widths) then best else elim best [
              | none ↦ some (i, filler_key centroid cand n)
              | some (j, best_key) ↦
                  if fl.lt (filler_key centroid cand n) best_key
                  then some (i, filler_key centroid cand n)
                  else some (j, best_key)
            ]
      ])

  -- What follows a seated candidate, if its node is known.
  abbrev pub behind : (Node fl → List Selection) → Option (Node fl) → List Selection
  behind next none = []
  behind next (some n) = next n

  abbrev pub seat_at : (Node fl → List Selection) → Option Selection → List Selection
  seat_at next none = []
  seat_at next (some picked) = picked ∷ behind next (node_by_id fl picked.node_id nodes)

  abbrev pub next_seat :
      (ℕ → Node fl → List Selection) → List Selection → Option (ℕ × fl.F) → List Selection
  next_seat next remaining none = []
  next_seat next remaining (some (i, key)) = seat_at (next i) (nth remaining i)

  -- The fillers of up to `seats` seats, behind `count` members.
  unfoldable pub fill : ℕ → Vector fl → ℕ → Vector fl → List Selection → List Selection
  fill zero widths count centroid remaining = []
  fill (suc seats) widths count centroid remaining =
      let widths' = adaptive_band_width fl widths count in
      next_seat
        (λ i n.
          fill seats widths' (suc count) (moved fl (suc count) centroid (vector_of n))
            (remove_at i remaining))
        remaining (scan_fillers centroid widths' 0 remaining none)

  unfoldable pub fill_behind : Requirements fl → List Selection → List Selection
  fill_behind req [] = []
  fill_behind req (anchor ∷ remaining) =
      seat_at
        (λ n.
          fill (cohort_max_nodes - 1) (band_widths_for fl req.science_band) 1 (vector_of n)
            remaining)
        (some anchor)

  unfoldable pub select_cohort : Requirements fl → Clock → List Selection
  select_cohort req now = fill_behind req (select_eligible_nodes fl mt req now nodes (pos 0))
