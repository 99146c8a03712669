-- ===== src/RateLimit/Window.antt =====
-- How many hits a window lets through.
use saucepan.Common.{
  ℕ, suc, ◌+◌, ◌-◌, ◌≤◌, ◌<◌, min, String, ◌≡◌, refl, ◌⊎◌, inl, inr, ap, ◌∙◌, sym, subst, false,
  ◌&&◌, not, List, [], ◌∷◌, arith, ltb, leb, ◌==◌, nat_eq, string_eq, if◌then◌else◌, Mapping,
  insert, lookup-insert, eq_iff, eq_refl, All, Bool-cases,
}
use saucepan.RateLimit.{Bucket, or_new, bucket, hit, is_limited, record_hit}

-- A request: whose it is, and when.
pub record Hit : Type 0 where
  pub key : String
  pub now : ℕ
  pub until : ℕ

module _ (limit window : ℕ) where
  -- A sequence of hits, of any keys, with the requests that were let through for one of them.
  abbrev pub let_through : String → List Hit → Mapping Bucket → ℕ
  let_through key [] buckets = 0
  let_through key (h ∷ hits) buckets =
      let (buckets', limited, _) = record_hit h.key limit window h.now h.until buckets in
      let rest = let_through key hits buckets' in
      if h.key == key && not limited then suc rest else rest

  abbrev pub hits_of : String → List Hit → ℕ
  hits_of key [] = 0
  hits_of key (h ∷ hits) = if h.key == key then suc (hits_of key hits) else hits_of key hits

  -- The map after them.
  abbrev pub after_hits : List Hit → Mapping Bucket → Mapping Bucket
  after_hits [] buckets = buckets
  after_hits (h ∷ hits) buckets =
      after_hits hits (record_hit h.key limit window h.now h.until buckets).0

  record_hit-parts :
      (key : String) (now until : ℕ) (buckets : Mapping Bucket)
      → ((record_hit key limit window now until buckets).0
          ≡ insert key (hit window now (bucket key buckets)) buckets)
        × ((record_hit key limit window now until buckets).1
            ≡ ltb limit (hit window now (bucket key buckets)).count)
  unfolding record_hit
  record_hit-parts key now until buckets =
      elim (Bool-cases (ltb limit (hit window now (bucket key buckets)).count)) [
        | inl over ↦ rw (over, record_hit) (refl, refl)
        | inr under ↦ rw (under, record_hit) (refl, refl)
      ]

  -- Where the buckets are afterwards.
  bucket-record_hit :
      (key : String) (h : Hit) (buckets : Mapping Bucket)
      → bucket key (record_hit h.key limit window h.now h.until buckets).0
        ≡ (if h.key == key then hit window h.now (bucket h.key buckets) else bucket key buckets)
  bucket-record_hit key h buckets =
      let stored = (record_hit-parts h.key h.now h.until buckets).0 in
      ap (λ m. bucket key m) stored ∙ elim (Bool-cases (h.key == key)) [
        | inl same ↦
            ap or_new (lookup-insert h.key key (hit window h.now (bucket h.key buckets)) buckets)
            ∙ rw same refl
        | inr other ↦
            ap or_new (lookup-insert h.key key (hit window h.now (bucket h.key buckets)) buckets)
            ∙ rw other refl
      ]

  abbrev IsLive : ℕ → ℕ → Bucket → Type 0
  IsLive c until b = (b.count ≡ c) × (b.expires_at ≡ until) × (0 < until)

  -- Every hit of the key comes before the end of its window.
  abbrev pub InTime : String → ℕ → List Hit → Type 0
  InTime key end hits = All (λ h. h.key ≡ key → h.now ≤ end) hits

  the_sum : (c : ℕ) → c ≡ c + 0
  the_sum c = omega arith

  hit-IsLive :
      (c end now : ℕ) (b : Bucket)
      → IsLive c end b
      → now ≤ end
      → IsLive (suc c) end (hit window now b)
  hit-IsLive c end now b live in_time = ground arith

  step-IsLive :
      (key : String) (c end : ℕ) (h : Hit) (buckets : Mapping Bucket)
      → IsLive c end (bucket key buckets)
      → (h.key ≡ key → h.now ≤ end)
      → IsLive
          (if h.key == key then suc c else c)
          end
          (bucket key (record_hit h.key limit window h.now h.until buckets).0)
  step-IsLive key c end h buckets live in_time = elim (Bool-cases (h.key == key)) [
    | inr other ↦
        let e = bucket-record_hit key h buckets ∙ rw other refl in
        rw other (subst (IsLive c end) (sym e) live)
    | inl same ↦
        let named : h.key ≡ key = (eq_iff h.key key).0 same in
        let e = bucket-record_hit key h buckets ∙ rw same refl in
        let there : IsLive c end (bucket h.key buckets) =
          subst (λ k. IsLive c end (bucket k buckets)) (sym named) live in
        rw same (
          subst (IsLive (suc c) end) (sym e)
            (hit-IsLive c end h.now (bucket h.key buckets) there (in_time named)))
  ]

  let_through-IsLive :
      (key : String) (c end : ℕ) (hits : List Hit) (buckets : Mapping Bucket)
      → IsLive c end (bucket key buckets)
      → InTime key end hits
      → (let_through key hits buckets ≡ min (hits_of key hits) (limit - c))
        × IsLive (c + hits_of key hits) end (bucket key (after_hits hits buckets))
  let_through-IsLive key c end [] buckets live in_time =
      (omega arith, subst (λ n. IsLive n end (bucket key buckets)) (the_sum c) live)
  let_through-IsLive key c end (h ∷ hits) buckets live in_time =
      let buckets' = (record_hit h.key limit window h.now h.until buckets).0 in
      let stepped = step-IsLive key c end h buckets live in_time.0 in
      elim (Bool-cases (h.key == key)) [
        | inr other ↦
            let still : IsLive c end (bucket key buckets') =
              subst (λ b. IsLive (if b then suc c else c) end (bucket key buckets')) other
                stepped in
            rw other (let_through-IsLive key c end hits buckets' still in_time.1)
        | inl same ↦
            let counted : IsLive (suc c) end (bucket key buckets') =
              subst (λ b. IsLive (if b then suc c else c) end (bucket key buckets')) same stepped in
            let named : h.key ≡ key = (eq_iff h.key key).0 same in
            let there : IsLive c end (bucket h.key buckets) =
              subst (λ k. IsLive c end (bucket k buckets)) (sym named) live in
            let limited : (record_hit h.key limit window h.now h.until buckets).1
                ≡ ltb limit (suc c) =
              (record_hit-parts h.key h.now h.until buckets).1
              ∙ ap (λ n. ltb limit n)
                  (hit-IsLive c end h.now (bucket h.key buckets) there (in_time.0 named)).0 in
            let (through, after) =
              let_through-IsLive key (suc c) end hits buckets' counted in_time.1 in
            let sum : suc c + hits_of key hits ≡ c + suc (hits_of key hits) = omega arith in
            rw (same, limited)
              (
                ground (arith, through),
                subst (λ n. IsLive n end (bucket key (after_hits hits buckets'))) sum after,
              )
      ]

  -- A bucket that is new, or whose window is over.
  abbrev pub IsSpent : ℕ → Bucket → Type 0
  IsSpent now b = (b.expires_at ≡ 0) ⊎ (b.expires_at < now)

  first-IsLive :
      (first : Hit) (buckets : Mapping Bucket)
      → 0 < window
      → IsSpent first.now (bucket first.key buckets)
      → IsLive 1
          (first.now + window)
          (bucket first.key (record_hit first.key limit window first.now first.until buckets).0)
  first-IsLive first buckets positive spent =
      let now_hit = hit window first.now (bucket first.key buckets) in
      let e : bucket first.key (record_hit first.key limit window first.now first.until buckets).0
          ≡ now_hit =
        bucket-record_hit first.key first buckets
        ∙ ap (λ t. if t then now_hit else bucket first.key buckets) (eq_refl first.key) in
      subst (IsLive 1 (first.now + window)) (sym e) (ground arith)

  is_limited_live :
      (key : String) (c end now until : ℕ) (buckets : Mapping Bucket)
      → 0 < limit
      → IsLive c end (bucket key buckets)
      → (is_limited key limit now until buckets).1 ≡ (if ltb end now then false else leb limit c)
  unfolding is_limited
  is_limited_live key c end now until buckets some_room live = ground arith

  -- A window lets through exactly its limit: from a first hit of a key whose bucket is new or lapsed, in any interleaving with hits of other keys, of the hits of that key until the window (of a positive length) ends at most the limit is let through, and all of them if they are no more; a check for the key in that time says that it is limited if and only if the hits have reached the limit, and one after that time says that it is not, if the limit is positive.
  pub let_through-window :
      (first : Hit) (hits : List Hit) (buckets : Mapping Bucket) (now until : ℕ)
      → 0 < window
      → 0 < limit
      → IsSpent first.now (bucket first.key buckets)
      → InTime first.key (first.now + window) hits
      → let key = first.key in
        let buckets' = after_hits (first ∷ hits) buckets in
        (let_through key (first ∷ hits) buckets ≡ min (suc (hits_of key hits)) limit)
        × (now ≤ first.now + window
            → (is_limited key limit now until buckets').1 ≡ leb limit (suc (hits_of key hits)))
        × (first.now + window < now → (is_limited key limit now until buckets').1 ≡ false)
  unfolding is_limited
  let_through-window first hits buckets now until positive some_room spent in_time =
      let key = first.key in
      let buckets' = (record_hit key limit window first.now first.until buckets).0 in
      let live = first-IsLive first buckets positive spent in
      let end = first.now + window in
      let (through, after) = let_through-IsLive key 1 end hits buckets' live in_time in
      let verdict =
        is_limited_live key (1 + hits_of key hits) end now until (after_hits hits buckets')
          some_room after in
      let limited : (record_hit key limit window first.now first.until buckets).1 ≡ false =
        (record_hit-parts key first.now first.until buckets).1 ∙ ground arith in
      (
        rw (eq_refl key, limited) (ground (arith, through)),
        λ early. verdict ∙ ground arith,
        λ late. verdict ∙ ground arith,
      )
