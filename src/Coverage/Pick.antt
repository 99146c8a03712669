-- ===== src/Coverage/Pick.antt =====
-- What a pick adds.
use mathlib.Core.List.{append_assoc}
use saucepan.Common.{
  All-nth, All-remove_at, nth, ℕ, zero, suc, ◌+◌, ◌≤◌, ◌≡◌, ◌≢◌, refl, ◌⊎◌, inl, inr, ap, ◌∙◌, sym,
  subst, Bool, true, false, ◌||◌, not, Option, none, some, List, [], ◌∷◌, ◌++◌, arith, ltb, ◌==◌,
  nat_eq, string_eq, if◌then◌else◌, length, length-append, All, All-append, Bool-cases,
  Option-cases, eq_iff,
}
use saucepan.Common.Float.{Float}
use saucepan.Coverage.{Site, Intent, Factor, is_dup, max_sites_of, score_of}
use saucepan.Coverage.Greedy.{scan, pick}
use saucepan.Common.{remove_at}

module _ (fl : Float) (neg_inf : fl.F) (fmod fmin fmax : fl.F → fl.F → fl.F) (intent : Intent fl)
    (factors : List (Factor fl)) (ra dec : fl.F) where
  abbrev Sites : Type 0
  Sites = List (Site fl)

  winner :
      (dup won : Bool) (i : ℕ) (score : fl.F) (best : Option ℕ × fl.F) (j : ℕ) (taken : Sites)
      (x : Site fl) (rest : Sites)
      → is_dup fl taken x ≡ dup
      → (if dup then best else if won then (some i, score) else best).0 ≡ some j
      → (best.0 ≡ some j)
        ⊎ ((k : ℕ) × (j ≡ i + k)
            × ((s : Site fl) → nth (x ∷ rest) k ≡ some s → is_dup fl taken s ≡ false))
  winner true won i score best j taken x rest free held = inl held
  winner false false i score best j taken x rest free held = inl held
  winner false true i score best j taken x rest free held =
      let at : i ≡ j = cc in
      inr (
        0,
        omega (arith, at),
        λ s h. let same : x ≡ s = cc in subst (λ y. is_dup fl taken y ≡ false) same free,
      )

  -- The round finds the best so far, or a site that is not taken.
  scan-free :
      (taken : Sites) (i : ℕ) (remaining : Sites) (best : Option ℕ × fl.F) (j : ℕ)
      → (scan fl neg_inf fmod fmin fmax intent factors ra dec taken i remaining best).0 ≡ some j
      → (best.0 ≡ some j)
        ⊎ ((k : ℕ) × (j ≡ i + k)
            × ((s : Site fl) → nth remaining k ≡ some s → is_dup fl taken s ≡ false))
  unfolding scan
  scan-free taken i [] best j e = inl e
  scan-free taken i (x ∷ rest) best j e =
      let score = score_of fl intent factors ra dec taken x in
      let best' =
        if is_dup fl taken x then best else if fl.lt best.1 score then (some i, score) else best in
      elim (scan-free taken (suc i) rest best' j e) [
        | inr (k, sum, free) ↦ inr (suc k, omega (arith, sum), free)
        | inl held ↦
            winner (is_dup fl taken x) (fl.lt best.1 score) i score best j taken x rest refl held
      ]

  -- No two sites are of one telescope.
  abbrev pub IsDistinct : Sites → Type 0
  IsDistinct [] = Unit
  IsDistinct (s ∷ sites) = All (λ a. a.telescope_id ≢ s.telescope_id) sites × IsDistinct sites

  both_false : (a b : Bool) → (a || b) ≡ false → (a ≡ false) × (b ≡ false)
  both_false a b e = ground arith

  IsDistinct-append :
      (sites : Sites) (s : Site fl)
      → IsDistinct sites
      → is_dup fl sites s ≡ false
      → IsDistinct (sites ++ s ∷ [])
  IsDistinct-append [] s d free = (tt, tt)
  IsDistinct-append (a ∷ sites) s d free =
      let (other, rest) = both_false (a.telescope_id == s.telescope_id) (is_dup fl sites s) free in
      (
        All-append (λ b. b.telescope_id ≢ a.telescope_id) sites (s ∷ [])
            ((λ e. absurd (ground (arith, eq_iff a.telescope_id s.telescope_id)), tt)) d.0,
        IsDistinct-append sites s d.1 rest,
      )

  -- Everything that a pick gives is from the pool, new, and within the number and the room.
  pub record Picked (P : Site fl → Type 0) (already : Sites) (most : ℕ) (sites : Sites)
      : Type 0 where
    pub distinct : IsDistinct (already ++ sites)
    pub wanted : length sites ≤ most
    pub room : (length sites ≡ 0) ⊎ (length already + length sites ≤ max_sites_of fl intent)
    pub from_pool : All P sites

  Picked-more :
      (P : Site fl → Type 0) (already sites : Sites) (m n : ℕ)
      → m ≤ n
      → Picked P already m sites
      → Picked P already n sites
  Picked-more P already sites m n le c = record {
    distinct = c.distinct;
    wanted = omega (arith, c.wanted);
    room = c.room;
    from_pool = c.from_pool;
  }

  Picked-append :
      (P : Site fl → Type 0) (already chosen : Sites) (s : Site fl)
      → Picked P already (length chosen) chosen
      → ltb (length already + length chosen) (max_sites_of fl intent) ≡ true
      → is_dup fl (already ++ chosen) s ≡ false
      → P s
      → Picked P already (length (chosen ++ s ∷ [])) (chosen ++ s ∷ [])
  Picked-append P already chosen s c fits free p = record {
    distinct =
        subst IsDistinct (append_assoc already chosen (s ∷ []))
          (IsDistinct-append (already ++ chosen) s c.distinct free);
    wanted = omega arith;
    room = inr (ground (arith, length-append chosen (s ∷ [])));
    from_pool = All-append P chosen (s ∷ []) (p, tt) c.from_pool;
  }

  pub pick-Picked :
      (P : Site fl → Type 0) (already : Sites) (left : ℕ) (remaining chosen : Sites)
      → All P remaining
      → Picked P already (length chosen) chosen
      → Picked P already
          (length chosen + left)
          (pick fl neg_inf fmod fmin fmax intent factors ra dec already left remaining chosen)
  unfolding pick
  pick-Picked P already zero remaining chosen pool c =
      Picked-more P already chosen (length chosen) (length chosen + 0) (omega arith) c
  pick-Picked P already (suc left) remaining chosen pool c =
      let stop =
        Picked-more P already chosen (length chosen) (length chosen + suc left) (omega arith) c in
      let taken = already ++ chosen in
      let scanned =
        (scan fl neg_inf fmod fmin fmax intent factors ra dec taken 0 remaining
          (none, neg_inf)).0 in
      elim (Bool-cases (
        length remaining == 0
        || not (ltb (length already + length chosen) (max_sites_of fl intent)))) [
          | inl over ↦ rw over stop
          | inr going ↦ elim (Option-cases scanned) [
            | inl nothing ↦ rw (going, nothing) stop
            | inr (i, found) ↦ elim (Option-cases (nth remaining i)) [
              | inl missing ↦ rw (going, found, missing) stop
              | inr (s, there) ↦
                  let (_, fits) =
                    both_false (length remaining == 0)
                      (not (ltb (length already + length chosen) (max_sites_of fl intent))) going in
                  let free : is_dup fl taken s ≡ false =
                    elim (scan-free taken 0 remaining (none, neg_inf) i found) [
                      | inl e ↦ absurd (cc)
                      | inr (k, at, open_) ↦
                          open_ s (ap (nth remaining) (sym (at ∙ omega arith)) ∙ there)
                    ] in
                  let chosen' = chosen ++ s ∷ [] in
                  let ih =
                    pick-Picked P already left (remove_at i remaining) chosen'
                      (All-remove_at P i remaining pool)
                      (Picked-append P already chosen s c (ground arith) free
                        (All-nth P i remaining s pool there)) in
                  rw (going, found, there)
                    (Picked-more P already _ (length chosen' + left) (length chosen + suc left)
                      (omega (arith, length-append chosen (s ∷ []))) ih)
            ]
          ]
        ]
