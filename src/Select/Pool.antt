-- ===== src/Select/Pool.antt =====
-- What the filters leave of a fleet.
use saucepan.Common.{
  ◌<◌, String, ◌≡◌, refl, inl, inr, Bool, true, false, ◌||◌, not, List, [], ◌∷◌, ◌==◌, nat_eq,
  string_eq, arith, Bool-cases, All, All-map, All-map_of, any, filter, length, map,
  length-filter-le,
}
use saucepan.Common.Float.{Float}
use saucepan.Lanes.Roster.{StandbyEntry}
use saucepan.Lanes.Roster.Prefer.{prefer_roster-All}
use saucepan.Select.{Node}
use saucepan.Select.Ladder.{
  named, node_serves_campaign, filter_nodes_by_campaign, filter_preferred_nodes_mode, prefer_nodes,
  or_mode,
}

module _ (fl : Float) where
  -- In hard mode with preferred sites, the node is one of them.
  abbrev pub IsPreferred : List String → Bool → Node fl → Type 0
  IsPreferred preferred fail_open n =
      fail_open ≡ false
      → 0 < length (named preferred)
      → any (λ id. id == n.node_id) (named preferred) ≡ true

  IsPreferred-branch :
      (P : Node fl → Type 0) (preferred : List String) (fail_open : Bool)
      (out nodes : List (Node fl))
      → All P nodes
      → All (λ n. P n × (any (λ id. id == n.node_id) (named preferred) ≡ true)) out
      → All (λ n. P n × IsPreferred preferred fail_open n) (or_mode fl fail_open out nodes)
  IsPreferred-branch P preferred true [] nodes h k =
      All-map P _ (λ n p. (p, λ hard. absurd (cc))) nodes h
  IsPreferred-branch P preferred false [] nodes h k = tt
  IsPreferred-branch P preferred fail_open (n ∷ out) nodes h k =
      All-map _ _ (λ n (p, there). (p, λ hard some_id. there)) (n ∷ out) k

  unnamed_All :
      (P : Node fl → Type 0) (preferred : List String) (fail_open : Bool) (nodes : List (Node fl))
      → length (named preferred) ≡ 0
      → All P nodes
      → All (λ n. P n × IsPreferred preferred fail_open n) nodes
  unnamed_All P preferred fail_open nodes none_named h =
      All-map P _ (λ n p. (p, λ hard some_id. absurd (omega arith))) nodes h

  filter_both :
      (P : Node fl → Type 0) (q : Node fl → Bool) (nodes : List (Node fl))
      → All P nodes
      → All (λ n. P n × (q n ≡ true)) (filter q nodes)
  filter_both P q [] h = tt
  filter_both P q (n ∷ nodes) h = elim (Bool-cases (q n)) [
    | inl hit ↦ rw hit ((h.0, hit), filter_both P q nodes h.1)
    | inr miss ↦ rw miss (filter_both P q nodes h.1)
  ]

  pub filter-IsPreferred-All :
      (P : Node fl → Type 0) (nodes : List (Node fl)) (preferred : List String) (fail_open : Bool)
      → All P nodes
      → All
          (λ n. P n × IsPreferred preferred fail_open n)
          (filter_preferred_nodes_mode fl nodes preferred fail_open)
  unfolding filter_preferred_nodes_mode
  filter-IsPreferred-All P [] preferred fail_open h = elim (Bool-cases (length preferred == 0)) [
    | inl bare ↦ rw bare tt
    | inr listed ↦ rw listed tt
  ]
  filter-IsPreferred-All P (n ∷ nodes) preferred fail_open h =
      elim (Bool-cases (length preferred == 0 || length (n ∷ nodes) == 0)) [
        | inl bare ↦ rw bare (
            unnamed_All P preferred fail_open (n ∷ nodes)
              (ground (arith, length-filter-le (λ id. not (id == "")) preferred)) h)
        | inr listed ↦ elim (Bool-cases (length (named preferred) == 0)) [
          | inl unnamed ↦
              rw (listed, unnamed) (unnamed_All P preferred fail_open (n ∷ nodes) (ground arith) h)
          | inr some_id ↦
              rw (listed, some_id)
                (IsPreferred-branch P preferred fail_open
                  (filter (λ m. any (λ id. id == m.node_id) (named preferred)) (n ∷ nodes))
                  (n ∷ nodes) h
                  (filter_both P (λ m. any (λ id. id == m.node_id) (named preferred)) (n ∷ nodes)
                    h))
        ]
      ]

  pub prefer_nodes-All :
      (Q : Node fl → Type 0) (nodes : List (Node fl)) (roster : List StandbyEntry)
      → All Q nodes
      → All Q (prefer_nodes fl nodes roster)
  unfolding prefer_nodes
  prefer_nodes-All Q nodes roster h =
      All-map_of Q (λ p. p.1) _
        (prefer_roster-All (Node fl) (λ p. Q p.1) (map (λ n. (n.node_id, n)) nodes) roster
          (All-map_of (λ p. Q p.1) (λ n. (n.node_id, n)) nodes h))

  serves_all :
      (n : Node fl) (campaign_id : String)
      → (campaign_id == "") ≡ true
      → node_serves_campaign n.enabled_campaign_ids campaign_id ≡ true
  unfolding node_serves_campaign
  serves_all n campaign_id any_node = rw any_node refl

  pub campaign-All :
      (P : Node fl → Type 0) (nodes : List (Node fl)) (campaign_id : String)
      → All P nodes
      → All
          (λ n. P n × (node_serves_campaign n.enabled_campaign_ids campaign_id ≡ true))
          (filter_nodes_by_campaign fl nodes campaign_id)
  unfolding filter_nodes_by_campaign
  campaign-All P nodes campaign_id h = elim (Bool-cases (campaign_id == "")) [
    | inl any_node ↦
        rw any_node (All-map P _ (λ n p. (p, serves_all n campaign_id any_node)) nodes h)
    | inr named_one ↦
        rw named_one
          (filter_both P (λ n. node_serves_campaign n.enabled_campaign_ids campaign_id) nodes h)
  ]
