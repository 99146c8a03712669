-- ===== src/Sky/Obstruction.antt =====
-- SaucepanServer/task-server/shared/obstruction.go: forbidden polygons, over any arithmetic.
use saucepan.Common.{
  ℕ, ◌+◌, zero, suc, Bool, false, ◌&&◌, ◌||◌, not, Option, none, some, List, [], ◌∷◌, ltb, any, map,
  length, ◌==◌, nat_eq, if◌then◌else◌,
}
use saucepan.Common.Float.{Float, Math}
use saucepan.Common.Int.{pos}

-- A list of polygons, each a list of [altDeg, azDeg] points.
abbrev pub ObstructionMask : Float → Type 0
ObstructionMask fl = List (List (List fl.F))

module _ (fl : Float) (mt : Math fl) where
  abbrev finite : fl.F → Bool
  finite x = not (mt.is_nan x || mt.is_inf x)

  -- The first two numbers of each point, if every point has two and they are finite.
  unfoldable pub points_of : List (List fl.F) → Option (List (fl.F × fl.F))
  points_of [] = some []
  points_of ((x ∷ y ∷ more) ∷ vertices) = elim (points_of vertices) [
    | none ↦ none
    | some points ↦ if finite x && finite y then some ((x, y) ∷ points) else none
  ]
  points_of (short ∷ vertices) = none

  abbrev crosses : fl.F → fl.F → fl.F × fl.F → fl.F × fl.F → Bool
  crosses x y (xi, yi) (xj, yj) =
      (if fl.lt y yi then not (fl.lt y yj) else fl.lt y yj)
      && fl.lt x (
          fl.add
            (fl.div (fl.mul (fl.sub xj xi) (fl.sub y yi)) (fl.add (fl.sub yj yi) (fl.lit 1 15))) xi)

  -- The ray-casting loop, `prev` being the vertex before.
  unfoldable pub ray_cast : fl.F → fl.F → fl.F × fl.F → List (fl.F × fl.F) → Bool → Bool
  ray_cast x y prev [] inside = inside
  ray_cast x y prev (v ∷ vertices) inside =
      ray_cast x y v vertices (if crosses x y v prev then not inside else inside)

  abbrev last_point : fl.F × fl.F → List (fl.F × fl.F) → fl.F × fl.F
  last_point p [] = p
  last_point p (q ∷ points) = last_point q points

  unfoldable pub point_in_polygon : fl.F → fl.F → List (List fl.F) → Bool
  point_in_polygon x y vertices =
      if ltb (length vertices) 3 then false else elim (points_of vertices) [
        | none ↦ false
        | some [] ↦ false
        | some (v ∷ points) ↦ ray_cast x y (last_point v points) (v ∷ points) false
      ]

  abbrev az_alt : fl.F × fl.F → List fl.F
  az_alt (alt, az) = mt.fmod az (fl.lit 360 0) ∷ alt ∷ []

  abbrev in_forbidden : fl.F → fl.F → List (List fl.F) → Bool
  in_forbidden alt_deg az_norm poly = if ltb (length poly) 3 then false else elim (points_of poly) [
    | none ↦ false
    | some points ↦ point_in_polygon az_norm alt_deg (map az_alt points)
  ]

  unfoldable pub point_in_forbidden_alt_az : fl.F → fl.F → ObstructionMask fl → Bool
  point_in_forbidden_alt_az alt_deg az_deg mask =
      any (in_forbidden alt_deg (mt.fmod az_deg (fl.lit 360 0))) mask

  abbrev sample_hits : fl.F → fl.F → fl.F → fl.F → ObstructionMask fl → ℕ → ℕ → Bool
  sample_hits alt0 az0 alt1 az1 mask samples i =
      let t = fl.div (fl.of_int (pos i)) (fl.of_int (pos samples)) in
      let alt = fl.add alt0 (fl.mul t (fl.sub alt1 alt0)) in
      let daz =
        fl.sub (mt.fmod (fl.add (fl.sub az1 az0) (fl.lit 540 0)) (fl.lit 360 0)) (fl.lit 180 0) in
      let az = mt.fmod (fl.add az0 (fl.mul t daz)) (fl.lit 360 0) in
      point_in_forbidden_alt_az alt az mask

  -- The samples from `i` on, `left` of them.
  unfoldable pub path_hits : fl.F → fl.F → fl.F → fl.F → ObstructionMask fl → ℕ → ℕ → ℕ → Bool
  path_hits alt0 az0 alt1 az1 mask samples i zero = false
  path_hits alt0 az0 alt1 az1 mask samples i (suc left) =
      sample_hits alt0 az0 alt1 az1 mask samples i
      || path_hits alt0 az0 alt1 az1 mask samples (i + 1) left

  -- For a number of samples that is not negative.
  unfoldable pub slew_path_hits_forbidden :
      fl.F → fl.F → fl.F → fl.F → ObstructionMask fl → ℕ → Bool
  slew_path_hits_forbidden alt0 az0 alt1 az1 mask samples =
      let n = if samples == 0 then 24 else samples in
      if length mask == 0 then false else path_hits alt0 az0 alt1 az1 mask n 0 (n + 1)
