-- ===== src/Lanes/Roster/Prefer.antt =====
-- PreferRoster: the fleet cut down to its standby nodes.
use saucepan.Common.{
  ℕ, ◌<◌, String, ◌≡◌, ◌≢◌, refl, ◌∙◌, sym, subst, inl, inr, Bool, true, false, ◌||◌, none, some,
  List, [], ◌∷◌, ◌++◌, arith, ◌==◌, nat_eq, string_eq, if◌then◌else◌, All, All-append, All-map,
  Bool-cases, Option-cases, any, length, eq_iff, eq_refl,
}
use saucepan.Lanes.Roster.{StandbyEntry, Node, roster_order, by_id, hits, or_all, prefer_roster}

abbrev pub holds_id : String → List String → Bool
holds_id id = any (λ i. i == id)

holds_id-append :
    (id : String) (order more : List String)
    → holds_id id order ≡ true
    → holds_id id (order ++ more) ≡ true
holds_id-append id [] more h = absurd (cc)
holds_id-append id (i ∷ order) more h = ground (arith, holds_id-append id order more)

holds_id_last : (id : String) (order : List String) → holds_id id (order ++ id ∷ []) ≡ true
holds_id_last id [] = rw (eq_refl id) refl
holds_id_last id (i ∷ order) = ground (arith, holds_id_last id order)

holds_id_filled : (id : String) (order : List String) → holds_id id order ≡ true → 0 < length order
holds_id_filled id [] h = absurd (cc)
holds_id_filled id (i ∷ order) h = omega arith

not_zero : (n : ℕ) → 0 < n → (n == 0) ≡ false
not_zero n h = ground arith

abbrev seen_also : List String → String → List String
seen_also order id = if id == "" || any (λ i. i == id) order then order else order ++ id ∷ []

holds_id-seen_also :
    (id : String) (order : List String) → id ≢ "" → holds_id id (seen_also order id) ≡ true
holds_id-seen_also id order named = elim (Bool-cases (id == "")) [
  | inl blank ↦ absurd (named (ground (arith, eq_iff id "")))
  | inr filled ↦ elim (Bool-cases (any (λ i. i == id) order)) [
    | inl there ↦ rw (filled, there) there
    | inr new ↦ rw (filled, new) (holds_id_last id order)
  ]
]

module _ {ℓ} (E : Type ℓ) where
  roster_order_keeps :
      (id : String) (order : List String) (roster : List StandbyEntry)
      → holds_id id order ≡ true
      → holds_id id (roster_order E order roster) ≡ true
  roster_order_keeps id order [] h = h
  roster_order_keeps id order (e ∷ roster) h =
      elim (Bool-cases (e.node_id == "" || any (λ id. id == e.node_id) order)) [
        | inl seen ↦ rw seen (roster_order_keeps id order roster h)
        | inr new ↦ rw new (
            roster_order_keeps id (order ++ e.node_id ∷ []) roster
              (holds_id-append id order (e.node_id ∷ []) h))
      ]

  roster_order-All :
      (P : String → Type 0) (order : List String) (roster : List StandbyEntry)
      → All P order
      → All (λ e. P e.node_id) roster
      → All P (roster_order E order roster)
  roster_order-All P order [] ps qs = ps
  roster_order-All P order (e ∷ roster) ps (q, qs) =
      elim (Bool-cases (e.node_id == "" || any (λ id. id == e.node_id) order)) [
        | inl seen ↦ rw seen (roster_order-All P order roster ps qs)
        | inr new ↦ rw new (
            roster_order-All P (order ++ e.node_id ∷ []) roster
              (All-append P order (e.node_id ∷ []) (q, tt) ps) qs)
      ]

  by_id_sound :
      (Q : Node E → Type 0) (id : String) (nodes : List (Node E)) (n : Node E)
      → All Q nodes
      → by_id E id nodes ≡ some n
      → (n.0 ≡ id) × Q n
  by_id_sound Q id [] n qs h = absurd (cc)
  by_id_sound Q id (m ∷ nodes) n qs h = elim (Option-cases (by_id E id nodes)) [
    | inr (k, e) ↦
        let same : by_id E id (m ∷ nodes) ≡ some k = rw e refl in
        by_id_sound Q id nodes n qs.1 (e ∙ sym same ∙ h)
    | inl e ↦ elim (Bool-cases (m.0 == id)) [
      | inl hit ↦
          let same : by_id E id (m ∷ nodes) ≡ some m = rw (e, hit) refl in
          let is_m : m ≡ n = cc in
          subst (λ k. (k.0 ≡ id) × Q k) is_m (ground (arith, eq_iff m.0 id), qs.0)
      | inr miss ↦ let same : by_id E id (m ∷ nodes) ≡ none = rw (e, miss) refl in absurd (cc)
    ]
  ]

  by_id_finds :
      (id : String) (nodes : List (Node E))
      → any (λ n. n.0 == id) nodes ≡ true
      → by_id E id nodes ≢ none
  by_id_finds id [] h = absurd (cc)
  by_id_finds id (m ∷ nodes) h = ground (arith, by_id_finds id nodes)

  roster_order_finds :
      (id : String) (order : List String) (roster : List StandbyEntry)
      → id ≢ ""
      → any (λ e. e.node_id == id) roster ≡ true
      → holds_id id (roster_order E order roster) ≡ true
  roster_order_finds id order [] named h = absurd (cc)
  roster_order_finds id order (e ∷ roster) named h =
      let order' =
        if e.node_id == "" || any (λ id. id == e.node_id) order
        then order
        else order ++ e.node_id ∷ [] in
      elim (Bool-cases (e.node_id == id)) [
        | inr miss ↦ roster_order_finds id order' roster named (ground arith)
        | inl hit ↦ roster_order_keeps id order' roster (
            subst (λ k. holds_id id (seen_also order k) ≡ true)
              (sym (ground (arith, eq_iff e.node_id id))) (holds_id-seen_also id order named))
      ]

  hits_found :
      (id : String) (order : List String) (nodes : List (Node E)) (n : Node E)
      → by_id E id nodes ≡ some n
      → hits E (id ∷ order) nodes ≡ n ∷ hits E order nodes
  hits_found id order nodes n found = rw (found, hits) refl

  hits_missing :
      (id : String) (order : List String) (nodes : List (Node E))
      → by_id E id nodes ≡ none
      → hits E (id ∷ order) nodes ≡ hits E order nodes
  hits_missing id order nodes missing = rw (missing, hits) refl

  hits-All :
      (P : String → Type 0) (Q : Node E → Type 0) (order : List String) (nodes : List (Node E))
      → All P order
      → All Q nodes
      → All (λ n. P n.0 × Q n) (hits E order nodes)
  hits-All P Q [] nodes ps qs = tt
  hits-All P Q (id ∷ order) nodes (p, ps) qs = elim (Option-cases (by_id E id nodes)) [
    | inl missing ↦
        subst (All (λ n. P n.0 × Q n)) (sym (hits_missing id order nodes missing))
          (hits-All P Q order nodes ps qs)
    | inr (n, found) ↦
        let (is_id, q) = by_id_sound Q id nodes n qs found in
        subst (All (λ n. P n.0 × Q n)) (sym (hits_found id order nodes n found))
          ((subst P (sym is_id) p, q), hits-All P Q order nodes ps qs)
  ]

  hits-some :
      (id : String) (order : List String) (nodes : List (Node E))
      → holds_id id order ≡ true
      → any (λ n. n.0 == id) nodes ≡ true
      → 0 < length (hits E order nodes)
  hits-some id [] nodes h there = absurd (cc)
  hits-some id (i ∷ order) nodes h there = elim (Option-cases (by_id E i nodes)) [
    | inr (n, found) ↦
        subst (λ xs. 0 < length xs) (sym (hits_found i order nodes n found)) (omega arith)
    | inl missing ↦
        subst (λ xs. 0 < length xs) (sym (hits_missing i order nodes missing))
          (hits-some id order nodes
            (elim (Bool-cases (i == id)) [
              | inl same ↦ absurd (
                  by_id_finds id nodes there
                    (subst (λ k. by_id E k nodes ≡ none) (ground (arith, eq_iff i id)) missing))
              | inr other ↦ ground arith
            ])
            there)
  ]

  or_all_found :
      (R : List (Node E) → Type 0) (blank unnamed : Bool) (found nodes : List (Node E))
      → blank ≡ false
      → unnamed ≡ false
      → 0 < length found
      → R found
      → R (if blank then nodes else if unnamed then nodes else or_all E found nodes)
  or_all_found R true unnamed found nodes h k l r = absurd (cc)
  or_all_found R false true found nodes h k l r = absurd (cc)
  or_all_found R false false [] nodes h k l r = absurd (omega arith)
  or_all_found R false false (n ∷ found) nodes h k l r = r

  unnamed_All : (roster : List StandbyEntry) → All (λ (e : StandbyEntry). Unit {0}) roster
  unnamed_All [] = tt
  unnamed_All (e ∷ roster) = (tt, unnamed_All roster)

  branch_All :
      (Q : Node E → Type 0) (blank unnamed : Bool) (found nodes : List (Node E))
      → All Q nodes
      → All Q found
      → All Q (if blank then nodes else if unnamed then nodes else or_all E found nodes)
  branch_All Q true unnamed found nodes h k = h
  branch_All Q false true found nodes h k = h
  branch_All Q false false [] nodes h k = h
  branch_All Q false false (n ∷ found) nodes h k = k

  -- What holds of all nodes holds of those that the roster leaves.
  pub prefer_roster-All :
      (Q : Node E → Type 0) (nodes : List (Node E)) (roster : List StandbyEntry)
      → All Q nodes
      → All Q (prefer_roster E nodes roster)
  unfolding prefer_roster
  prefer_roster-All Q nodes roster h =
      let order = roster_order E [] roster in
      branch_All Q (length roster == 0 || length nodes == 0) (length order == 0)
        (hits E order nodes) nodes h
        (All-map (λ n. Unit {0} × Q n) Q (λ n both. both.1) (hits E order nodes)
          (hits-All (λ id. Unit {0}) Q order nodes
            (roster_order-All (λ id. Unit {0}) [] roster tt (unnamed_All roster)) h))

-- When some node of the fleet is on the roster, under an id that is not empty, then the choice is not empty, every node of it is a node of the fleet, and the id of every node of it is an id of the roster (each in the sense that whatever holds of all members of the one holds of all members of the other).
pub prefer_roster_narrows {ℓ} :
    (E : Type ℓ) (P : String → Type 0) (Q : Node E → Type 0) (nodes : List (Node E))
    (roster : List StandbyEntry) (id : String)
    → id ≢ ""
    → any (λ n. n.0 == id) nodes ≡ true
    → any (λ e. e.node_id == id) roster ≡ true
    → All (λ e. P e.node_id) roster
    → All Q nodes
    → (0 < length (prefer_roster E nodes roster))
      × All (λ n. P n.0 × Q n) (prefer_roster E nodes roster)
unfolding prefer_roster
prefer_roster_narrows E P Q [] roster id named there on ps qs = absurd (cc)
prefer_roster_narrows E P Q (m ∷ nodes) [] id named there on ps qs = absurd (cc)
prefer_roster_narrows E P Q (m ∷ nodes) (e ∷ roster) id named there on ps qs =
    let order = roster_order E [] (e ∷ roster) in
    let found = hits E order (m ∷ nodes) in
    let filled : 0 < length found =
      hits-some E id order (m ∷ nodes) (roster_order_finds E id [] (e ∷ roster) named on) there in
    let held : All (λ n. P n.0 × Q n) found =
      hits-All E P Q order (m ∷ nodes) (roster_order-All E P [] (e ∷ roster) tt ps) qs in
    or_all_found E (λ r. (0 < length r) × All (λ n. P n.0 × Q n) r)
      (length (e ∷ roster) == 0 || length (m ∷ nodes) == 0) (length order == 0) found (m ∷ nodes)
      (ground arith)
      (not_zero (length order)
        (holds_id_filled id order (roster_order_finds E id [] (e ∷ roster) named on)))
      filled (filled, held)
