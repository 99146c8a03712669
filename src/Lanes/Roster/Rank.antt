-- ===== src/Lanes/Roster/Rank.antt =====
-- Ranking and the preference for a roster.
use saucepan.Common.{
  ℕ, zero, suc, String, ◌≡◌, refl, inl, inr, ap, ◌∙◌, sym, subst, Bool, true, ◌&&◌, Option, List,
  [], ◌∷◌, ◌++◌, arith, ltb, nat_eq, string_eq, drop, take-append-drop, length, length-take,
  Bool-cases, min, ◌⊎◌, none, some, ◌==◌, All, All-map, Option-cases, eq_iff, false,
}
use saucepan.Common.Int.{ℤ, pos, negsuc, ltb_ℤ, leb_ℤ}
use saucepan.Common.Sort.{sort_by, sort_by-Ordered, Ordered, All-sort_by, count_if, count-sort_by}
use saucepan.Common.Text.{codes, codes_lt, string_lt}
use saucepan.Lanes.Roster.{StandbyEntry, entry_before, scored, limited, rank_standby}

codes_lt-asym : (a b : List ℕ) → codes_lt a b ≡ true → codes_lt b a ≡ false
codes_lt-asym a [] h = absurd (cc)
codes_lt-asym [] (y ∷ b) h = refl
codes_lt-asym (x ∷ a) (y ∷ b) h = ground (arith, codes_lt-asym a b)

codes_lt_trans :
    (a b c : List ℕ) → codes_lt b a ≡ false → codes_lt c b ≡ false → codes_lt c a ≡ false
codes_lt_trans [] b c h k = refl
codes_lt_trans (x ∷ a) [] c h k = absurd (cc)
codes_lt_trans (x ∷ a) (y ∷ b) [] h k = absurd (cc)
codes_lt_trans (x ∷ a) (y ∷ b) (z ∷ c) h k = ground (arith, codes_lt_trans a b c)

entry_before-asym : (a b : StandbyEntry) → entry_before a b ≡ true → entry_before b a ≡ false
entry_before-asym a b h = ground (arith, codes_lt-asym (codes a.node_id) (codes b.node_id))

entry_before_trans :
    (a b c : StandbyEntry)
    → entry_before b a ≡ false
    → entry_before c b ≡ false
    → entry_before c a ≡ false
entry_before_trans a b c h k =
    ground (arith, codes_lt_trans (codes a.node_id) (codes b.node_id) (codes c.node_id))

same_score : (a b : ℤ) → leb_ℤ b a ≡ true → leb_ℤ a b ≡ true → a ≡ b
same_score (pos a) (pos b) k l = ap pos (ground arith)
same_score (pos a) (negsuc b) k l = absurd (ground arith)
same_score (negsuc a) (pos b) k l = absurd (ground arith)
same_score (negsuc a) (negsuc b) k l = ap negsuc (ground arith)

true_not_false : (b : Bool) → b ≡ true → ¬ (b ≡ false)
true_not_false b h k = absurd (cc)

-- A limit above 0 counts, another does not.
abbrev pub room : ℤ → ℕ → ℕ
room (pos zero) n = n
room (pos (suc limit)) n = min (suc limit) n
room (negsuc _) n = n

append-nil : (xs : List StandbyEntry) → xs ++ [] ≡ xs
append-nil [] = refl
append-nil (x ∷ xs) = ap (λ r. x ∷ r) (append-nil xs)

count-all : (xs : List StandbyEntry) → count_if (λ _. true) xs ≡ length xs
count-all [] = refl
count-all (x ∷ xs) = ap suc (count-all xs)

-- What a limit leaves, and what it cuts off.
abbrev Cut : ℤ → List StandbyEntry → Type 0
Cut limit xs =
    (rest : List StandbyEntry) × (limited limit xs ++ rest ≡ xs)
    × (length (limited limit xs) ≡ room limit (length xs))

limited-Cut : (limit : ℤ) (xs : List StandbyEntry) → Cut limit xs
limited-Cut (pos zero) xs = ([], append-nil xs, refl)
limited-Cut (negsuc n) xs = ([], append-nil xs, refl)
limited-Cut (pos (suc n)) xs = elim (Bool-cases (ltb 0 (suc n) && ltb (suc n) (length xs))) [
  | inl long ↦ rw long (drop (suc n) xs, take-append-drop (suc n) xs, length-take (suc n) xs)
  | inr short ↦ rw short ([], append-nil xs, ground arith)
]

-- The lower score stands first; equal scores are in the order of the ids.
abbrev pub IsAhead : StandbyEntry → StandbyEntry → Type 0
IsAhead x y =
    (ltb_ℤ x.score y.score ≡ true) ⊎ ((x.score ≡ y.score) × (string_lt y.node_id x.node_id ≡ false))

abbrev pub IsRanked : List StandbyEntry → Type 0
IsRanked [] = Unit {0}
IsRanked (x ∷ xs) = All (IsAhead x) xs × IsRanked xs

not_before-IsAhead : (x y : StandbyEntry) → entry_before y x ≡ false → IsAhead x y
not_before-IsAhead x y h = elim (Bool-cases (ltb_ℤ x.score y.score)) [
  | inl lower ↦ inl lower
  | inr other ↦
      let same : x.score ≡ y.score = same_score x.score y.score (ground arith) (ground arith) in
      inr (same, ground arith)
]

Ordered-IsRanked : (xs : List StandbyEntry) → Ordered entry_before xs → IsRanked xs
Ordered-IsRanked [] h = tt
Ordered-IsRanked (x ∷ xs) h =
    (All-map _ _ (λ y. not_before-IsAhead x y) xs h.0, Ordered-IsRanked xs h.1)

-- Whether the scoring function knows a node.
abbrev pub is_scored : (String → Option ℤ) → String → Bool
is_scored score_fn id = elim (score_fn id) [ none ↦ false | some score ↦ true ]

module _ (score_fn : String → Option ℤ) where
  scored-length :
      (ids : List String) → length (scored score_fn ids) ≡ count_if (is_scored score_fn) ids
  unfolding scored
  scored-length [] = refl
  scored-length (id ∷ ids) = elim (Option-cases (score_fn id)) [
    | inl unknown ↦ rw (unknown, scored, is_scored) (scored-length ids)
    | inr (score, known) ↦ rw (known, scored, is_scored) (ap suc (scored-length ids))
  ]

  scored-All :
      (ids : List String)
      → All (λ (e : StandbyEntry). score_fn e.node_id ≡ some e.score) (scored score_fn ids)
  unfolding scored
  scored-All [] = tt
  scored-All (id ∷ ids) = elim (Option-cases (score_fn id)) [
    | inl unknown ↦ rw (unknown, scored) (scored-All ids)
    | inr (score, known) ↦ rw (known, scored) (known, scored-All ids)
  ]

  scored-count :
      (id : String) (ids : List String)
      → is_scored score_fn id ≡ true
      → count_if (λ (e : StandbyEntry). e.node_id == id) (scored score_fn ids)
        ≡ count_if (λ i. i == id) ids
  unfolding scored
  scored-count id [] h = refl
  scored-count id (i ∷ ids) h = elim (Bool-cases (i == id)) [
    | inl hit ↦
        let same : i ≡ id = ground (arith, eq_iff i id) in
        elim (Option-cases (score_fn i)) [
          | inl unknown ↦ absurd (
              true_not_false _ (subst (λ k. is_scored score_fn k ≡ true) (sym same) h)
                (rw (unknown, is_scored) refl))
          | inr (score, known) ↦ rw (known, scored, hit) (ap suc (scored-count id ids h))
        ]
    | inr miss ↦ elim (Option-cases (score_fn i)) [
      | inl unknown ↦ rw (unknown, scored, miss) (scored-count id ids h)
      | inr (score, known) ↦ rw (known, scored, miss) (scored-count id ids h)
    ]
  ]

-- What a full list of the standby entries is: ranked, each entry with the score that its node has,
-- and each node that has one in it as often as it was given.
abbrev pub IsRanking : List String → (String → Option ℤ) → List StandbyEntry → Type 0
IsRanking node_ids score_fn full =
    IsRanked full
    × All (λ (e : StandbyEntry). score_fn e.node_id ≡ some e.score) full
    × ((id : String)
        → is_scored score_fn id ≡ true
        → count_if (λ (e : StandbyEntry). e.node_id == id) full ≡ count_if (λ i. i == id) node_ids)

-- The roster is the front of a list in which lower scores come first, and of nodes with equal scores none comes after one with a greater id; which holds only nodes that have a score, with that score, and each of them as often as it was given. The length of the roster is the number of the given ids that have a score, cut down to the limit if that is positive.
pub rank_standby-Ordered :
    (node_ids : List String) (score_fn : String → Option ℤ) (limit : ℤ)
    → let roster = rank_standby node_ids score_fn limit in
      ((rest : List StandbyEntry) × IsRanking node_ids score_fn (roster ++ rest))
      × (length roster ≡ room limit (count_if (is_scored score_fn) node_ids))
unfolding rank_standby
rank_standby-Ordered node_ids score_fn limit =
    let all = scored score_fn node_ids in
    let sorted = sort_by entry_before all in
    let (rest, whole, size) = limited-Cut limit sorted in
    let counts = λ (p : StandbyEntry → Bool). count-sort_by entry_before p all in
    let same : length sorted ≡ length all =
      sym (count-all sorted) ∙ counts (λ _. true) ∙ count-all all in
    let ranking : IsRanking node_ids score_fn sorted = (
      Ordered-IsRanked sorted
          (sort_by-Ordered entry_before entry_before-asym entry_before_trans all),
      All-sort_by entry_before _ all (scored-All score_fn node_ids),
      λ id known. counts (λ e. e.node_id == id) ∙ scored-count score_fn id node_ids known,
    ) in
    (
      (rest, subst (IsRanking node_ids score_fn) (sym whole) ranking),
      size ∙ ap (room limit) (same ∙ scored-length score_fn node_ids),
    )
