-- ===== src/Assign/Reclaim/Covered.antt =====
-- cmd/orchestrator/orchestrator_reclaim.go: the pairs that a sweep still has to reclaim.
use saucepan.Common.{
  ℕ, String, ◌≡◌, refl, ap, inl, inr, Bool, true, false, List, [], ◌∷◌, arith, nat_eq, string_eq,
  All, All-map, Bool-cases, eq_iff, In, ◌&&◌, ◌⊎◌, sym, subst, filter, if◌then◌else◌,
}
use saucepan.Assign.Store.{AssignmentRow}
use saucepan.Assign.Reclaim.{SweepCalls, is_assignee, is_lapsed, stale}
use saucepan.Assign.Reclaim.Rows.{expired_rows}

-- Whether the sweep gets to a pair: its row is read, and its transaction commits.
abbrev pub reached : SweepCalls → ℕ × String → Bool
reached calls e = calls.query_ok && (calls.scan_ok e && calls.commit_ok e)

-- Every lapsed row belongs to one of the pairs, or to one that the sweep does not get to.
abbrev pub Covered : SweepCalls → ℕ → List (ℕ × String) → List AssignmentRow → Type 0
Covered calls now es = All (λ r.
    is_lapsed now r ≡ true
    → In (r.task_id, r.telescope_id) es ⊎ (reached calls (r.task_id, r.telescope_id) ≡ false))

pub unreached :
    (calls : SweepCalls) (e : ℕ × String) → calls.commit_ok e ≡ false → reached calls e ≡ false
unreached calls e h = ground (arith, h)

pub Covered-step :
    (calls : SweepCalls) (now id : ℕ) (node : String) (es : List (ℕ × String))
    (rows : List AssignmentRow)
    → Covered calls now ((id, node) ∷ es) rows
    → Covered calls now es (expired_rows id node rows)
Covered-step calls now id node es [] h = tt
Covered-step calls now id node es (r ∷ rs) h = elim (Bool-cases (is_assignee id node r)) [
  | inl hit ↦ rw hit (λ lapsed. absurd (cc), Covered-step calls now id node es rs h.1)
  | inr miss ↦ rw miss (
    λ lapsed. elim (h.0 lapsed) [
      | inl (inl e) ↦ absurd (
          ground (
            arith,
            ap (λ (k : ℕ × String). k.0) e,
            ap (λ (k : ℕ × String). k.1) e,
            eq_iff r.telescope_id node,
          ))
      | inl (inr m) ↦ inl m
      | inr lost ↦ inr lost
    ],
    Covered-step calls now id node es rs h.1,
  )
]

pub Covered-skip :
    (calls : SweepCalls) (now : ℕ) (e : ℕ × String) (es : List (ℕ × String))
    → reached calls e ≡ false
    → (rows : List AssignmentRow) → Covered calls now (e ∷ es) rows
    → Covered calls now es rows
Covered-skip calls now e es lost = All-map _ _ λ r h lapsed. elim (h lapsed) [
  | inl (inl same) ↦ inr (subst (λ k. reached calls k ≡ false) same lost)
  | inl (inr m) ↦ inl m
  | inr skipped ↦ inr skipped
]

stale-tail :
    (now : ℕ) (k : ℕ × String) (r : AssignmentRow) (rs : List AssignmentRow)
    → In k (stale now rs)
    → In k (stale now (r ∷ rs))
unfolding stale
stale-tail now k r rs m = elim (Bool-cases (is_lapsed now r)) [
  | inl lapsed ↦ rw lapsed (inr m)
  | inr fresh ↦ rw fresh m
]

stale-head :
    (now : ℕ) (r : AssignmentRow) (rs : List AssignmentRow)
    → is_lapsed now r ≡ true
    → In (r.task_id, r.telescope_id) (stale now (r ∷ rs))
unfolding stale
stale-head now r rs lapsed = rw lapsed (inl refl)

keep-In :
    (b : Bool) (k e : ℕ × String) (es kept : List (ℕ × String))
    → (e ≡ k → b ≡ true)
    → (In k es → In k kept)
    → In k (e ∷ es)
    → In k (if b then e ∷ kept else kept)
keep-In true k e es kept here there (inl same) = inl same
keep-In true k e es kept here there (inr m) = inr (there m)
keep-In false k e es kept here there (inl same) = absurd (cc (here same))
keep-In false k e es kept here there (inr m) = there m

filter-In :
    (p : ℕ × String → Bool) (k : ℕ × String) (es : List (ℕ × String))
    → p k ≡ true
    → In k es
    → In k (filter p es)
filter-In p k [] h m = m
filter-In p k (e ∷ es) h m =
    keep-In (p e) k e es (filter p es) (λ same. subst (λ x. p x ≡ true) (sym same) h)
      (filter-In p k es h) m

-- What the scan reads of the stale pairs covers the rows.
pub stale-Covered :
    (calls : SweepCalls) (now : ℕ) (es : List (ℕ × String)) (rows : List AssignmentRow)
    → ((k : ℕ × String) → In k (stale now rows) → In k es)
    → Covered calls now (filter calls.scan_ok es) rows
stale-Covered calls now es [] sub = tt
stale-Covered calls now es (r ∷ rs) sub =
    let k : ℕ × String = (r.task_id, r.telescope_id) in
    (
      λ lapsed. elim (Bool-cases (calls.scan_ok k)) [
        | inl read ↦ inl (filter-In calls.scan_ok k es read (sub k (stale-head now r rs lapsed)))
        | inr failed ↦ inr (ground (arith, failed))
      ],
      stale-Covered calls now es rs (λ k m. sub k (stale-tail now k r rs m)),
    )

pub Covered-unread :
    (calls : SweepCalls) (now : ℕ)
    → calls.query_ok ≡ false
    → (rows : List AssignmentRow) → Covered calls now [] rows
Covered-unread calls now failed [] = tt
Covered-unread calls now failed (r ∷ rs) =
    (λ lapsed. inr (ground (arith, failed)), Covered-unread calls now failed rs)
