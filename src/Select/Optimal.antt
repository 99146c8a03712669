-- ===== src/Select/Optimal.antt =====
-- SelectBestNode: the first of the candidates with the lowest score.
use mathlib.Core.List.{append_assoc, append-nil}
use saucepan.Common.{
  ◌≡◌, refl, inl, inr, ap, ◌∙◌, sym, subst, true, false, Option, none, some, List, [], ◌∷◌, ◌++◌,
  string_eq, arith, Bool-cases, Option-cases, All, All-append, All-map,
}
use saucepan.Common.Float.{Float, Math}
use saucepan.Common.Int.{ℤ, ltb_ℤ}
use saucepan.Sky.Slew.{Clock}
use saucepan.Select.{Node, Requirements, Selection}
use saucepan.Select.Best.{candidate_of, better, best_from, select_best_node}

better_new : (s c : Selection) → ltb_ℤ c.score s.score ≡ true → better (some s) (some c) ≡ some c
better_new s c ahead = rw ahead refl

better_old : (s c : Selection) → ltb_ℤ c.score s.score ≡ false → better (some s) (some c) ≡ some s
better_old s c not_ahead = rw not_ahead refl

-- Over what a loop like SelectBestNode's makes of each element.
module _ {A : Type 0} (f : A → Option Selection) where
  abbrev pub Trails : Selection → A → Type 0
  Trails s m = (c : Selection) → f m ≡ some c → ltb_ℤ s.score c.score ≡ true

  abbrev pub NotAhead : Selection → A → Type 0
  NotAhead s m = (c : Selection) → f m ≡ some c → ltb_ℤ c.score s.score ≡ false

  -- The first with the lowest score, or none if there is no candidate.
  abbrev pub IsBest : List A → Option Selection → Type 0
  IsBest xs none = All (λ m. f m ≡ none) xs
  IsBest xs (some s) =
      (front : List A) × (a : A) × (back : List A) × (xs ≡ front ++ a ∷ back)
      × (f a ≡ some s)
      × All (Trails s) front
      × All (NotAhead s) back

  Trails-All : (s : Selection) (xs : List A) → All (λ m. f m ≡ none) xs → All (Trails s) xs
  Trails-All s xs h = All-map _ _ (λ m e c k. absurd (cc)) xs h

  overtaken :
      (s c : Selection) (front : List A) (a : A) (back : List A)
      → ltb_ℤ c.score s.score ≡ true
      → f a ≡ some s
      → All (Trails s) front
      → All (NotAhead s) back
      → All (Trails c) (front ++ a ∷ back)
  overtaken s c front a back ahead at before behind =
      All-append (Trails c) front (a ∷ back)
        (
          λ d e. ground (arith, let same : s ≡ d = cc in same),
          All-map _ _ (λ m h d e. ground (arith, h d e)) back behind,
        )
        (All-map _ _ (λ m h d e. ground (arith, h d e)) front before)

  extended :
      (seen front : List A) (a : A) (back : List A) (n : A)
      → seen ≡ front ++ a ∷ back
      → seen ++ n ∷ [] ≡ front ++ a ∷ (back ++ n ∷ [])
  extended seen front a back n e =
      ap (λ xs. xs ++ n ∷ []) e ∙ append_assoc front (a ∷ back) (n ∷ [])

  IsBest-kept :
      (seen : List A) (n : A) (s : Selection)
      → NotAhead s n
      → IsBest seen (some s)
      → IsBest (seen ++ n ∷ []) (some s)
  IsBest-kept seen n s here (front, a, back, split, at, before, behind) = (
    front,
    a,
    back ++ n ∷ [],
    extended seen front a back n split,
    at,
    before,
    All-append (NotAhead s) back (n ∷ []) (here, tt) behind,
  )

  IsBest-step :
      (seen : List A) (n : A) (best : Option Selection)
      → IsBest seen best
      → IsBest (seen ++ n ∷ []) (better best (f n))
  IsBest-step seen n none h = elim (Option-cases (f n)) [
    | inl gone ↦
        subst (λ o. IsBest (seen ++ n ∷ []) (better none o)) (sym gone)
          (All-append (λ m. f m ≡ none) seen (n ∷ []) (gone, tt) h)
    | inr (c, e) ↦
        subst (λ o. IsBest (seen ++ n ∷ []) (better none o)) (sym e)
          (seen, n, [], refl, e, Trails-All c seen h, tt)
  ]
  IsBest-step seen n (some s) (front, a, back, split, at, before, behind) =
      elim (Option-cases (f n)) [
        | inl gone ↦
            subst (λ o. IsBest (seen ++ n ∷ []) (better (some s) o)) (sym gone)
              (IsBest-kept seen n s (λ c k. absurd (cc))
                (front, a, back, split, at, before, behind))
        | inr (c, e) ↦
            subst (λ o. IsBest (seen ++ n ∷ []) (better (some s) o)) (sym e)
              (elim (Bool-cases (ltb_ℤ c.score s.score)) [
                | inl ahead ↦ subst (IsBest (seen ++ n ∷ [])) (sym (better_new s c ahead)) (
                  seen,
                  n,
                  [],
                  refl,
                  e,
                  subst (All (Trails c)) (sym split)
                      (overtaken s c front a back ahead at before behind),
                  tt,
                )
                | inr not_ahead ↦ subst (IsBest (seen ++ n ∷ [])) (sym (better_old s c not_ahead)) (
                    IsBest-kept seen n s (λ d k. ground (arith, let same : c ≡ d = cc in same))
                      (front, a, back, split, at, before, behind))
              ])
      ]

module _ (fl : Float) (mt : Math fl) (req : Requirements fl) (now : Clock)
    (task_priority preempt_threshold slew_nearby_ms : ℤ) where
  abbrev candidate : Node fl → Option Selection
  candidate = candidate_of fl mt req now task_priority preempt_threshold slew_nearby_ms

  best_from-IsBest :
      (seen : List (Node fl)) (best : Option Selection) (nodes : List (Node fl))
      → IsBest candidate seen best
      → IsBest candidate
          (seen ++ nodes)
          (best_from fl mt req now task_priority preempt_threshold slew_nearby_ms best nodes)
  unfolding best_from
  best_from-IsBest seen best [] h = subst (λ xs. IsBest candidate xs best) (sym (append-nil seen)) h
  best_from-IsBest seen best (n ∷ nodes) h =
      subst
        (λ xs.
          IsBest candidate xs (
            best_from fl mt req now task_priority preempt_threshold slew_nearby_ms best
              (n ∷ nodes)))
        (append_assoc seen (n ∷ []) nodes)
        (best_from-IsBest (seen ++ n ∷ []) (better best (candidate n)) nodes
          (IsBest-step candidate seen n best h))

  -- SelectBestNode answers with the first of the fleet's candidates with the lowest score: every candidate of an earlier node has a greater score, and no candidate of a later one a lower score. It answers with none only when no node of the fleet is a candidate (whatever the arithmetic on float64 is).
  pub select_best_node-IsBest :
      (nodes : List (Node fl))
      → IsBest
          (candidate_of fl mt req now task_priority preempt_threshold slew_nearby_ms)
          nodes
          (select_best_node fl mt req now task_priority preempt_threshold slew_nearby_ms nodes)
  unfolding select_best_node
  select_best_node-IsBest nodes = best_from-IsBest [] none nodes tt
