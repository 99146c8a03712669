-- ===== src/Assign/Once/Single.antt =====
-- A task is handed out by one path only.
use saucepan.Common.{
  ℕ, ◌<◌, ◌≡◌, ◌≢◌, refl, ap, ◌∙◌, subst, inl, inr, Bool, true, false, ◌&&◌, not, none, some, List,
  [], ◌∷◌, ◌++◌, arith, ◌==◌, nat_eq, string_eq, if◌then◌else◌, All, All-append, Bool-cases,
  Option-cases, length,
}
use saucepan.Common.Int.{ℤ}
use saucepan.Assign.Store.{World}
use saucepan.Assign.Claim.{
  persist_task_assignment, insert_cohort_assignment, release_cohort_assignment,
}
use saucepan.Assign.Once.{
  Selected, NotifyPayload, Calls, queued_to_inflight, flush, enqueue_by_lane, Assigned, busy_ops,
  publish_failed, finish_each, finish_all, record_cohort, publish_each, assign_once,
}
use saucepan.Assign.Once.Rows.{
  Unclaimable, same_tasks, flush-tasks, insert_cohort-tasks, release_cohort-tasks,
  clear-Unclaimable, persist-Unclaimable, persist_blocked,
}

-- A selection that would not preempt the task itself.
abbrev pub Spares : ℕ → Selected → Type 0
Spares id sel = sel.prev_task_id ≢ some id

sent-Unclaimable :
    (id : ℕ) (up claimed : Bool) (r q x : Assigned)
    → r.published ≡ []
    → q.published ≡ []
    → (claimed ≡ true → Unclaimable id x.world)
    → 0 < length (if not up then r else if not claimed then q else x).published
    → Unclaimable id (if not up then r else if not claimed then q else x).world
sent-Unclaimable id false claimed r q x e f g h =
    absurd (omega (arith, subst (λ l. 0 < length l) e h))
sent-Unclaimable id true false r q x e f g h = absurd (omega (arith, subst (λ l. 0 < length l) f h))
sent-Unclaimable id true true r q x e f g h = g refl

preempted-is :
    (sel : Selected) (prev : ℕ)
    → (if sel.preempting then sel.prev_task_id else none) ≡ some prev
    → sel.prev_task_id ≡ some prev
preempted-is sel prev e = ground arith

module _ (ttl : ℤ) (now : ℕ) (calls : Calls) (p : NotifyPayload) where
  finish_each-Unclaimable :
      (sels : List Selected) (w : World)
      → All (Spares p.task_id) sels
      → Unclaimable p.task_id w
      → Unclaimable p.task_id (finish_each ttl now calls p sels w).0
  unfolding finish_each
  finish_each-Unclaimable [] w spared u = u
  finish_each-Unclaimable (sel ∷ rest) w spared u =
      elim (Option-cases (if sel.preempting then sel.prev_task_id else none)) [
        | inl calm ↦ rw (calm, finish_each) (finish_each-Unclaimable rest w spared.1 u)
        | inr (prev, preempts) ↦
            let other : prev ≢ p.task_id =
              λ e. spared.0 (preempted-is sel prev preempts ∙ ap (λ n. some n) e) in
            rw (preempts, finish_each)
              (finish_each-Unclaimable rest _ spared.1
                (elim (Bool-cases (calls.clear_ok sel.node_id)) [
                  | inl cleared ↦
                      rw cleared (clear-Unclaimable p.task_id prev sel.node_id w other u)
                  | inr stuck ↦ rw stuck u
                ]))
      ]

  finish_all-Unclaimable :
      (sels : List Selected) (w : World)
      → All (Spares p.task_id) sels
      → Unclaimable p.task_id w
      → Unclaimable p.task_id (finish_all ttl now calls p sels w).world
  unfolding finish_all
  finish_all-Unclaimable sels w spared u =
      let (w', ops) = finish_each ttl now calls p sels w in
      same_tasks p.task_id w' (flush calls ops w') (flush-tasks calls ops w')
        (finish_each-Unclaimable sels w spared u)

  publish_failed-Unclaimable :
      (is_primary : Bool) (sel : Selected) (delivered : List Selected) (w : World)
      → Unclaimable p.task_id w
      → Unclaimable p.task_id (publish_failed ttl now calls p is_primary sel delivered w).world
  unfolding publish_failed
  publish_failed-Unclaimable is_primary sel delivered w u =
      let ops = busy_ops p delivered ++ queued_to_inflight p.task_id p.priority ∷ [] in
      elim (Bool-cases (not is_primary && calls.release_ok sel.node_id)) [
        | inl released ↦
            let w' = release_cohort_assignment p.task_id sel.node_id w in
            rw released (
              same_tasks p.task_id w (flush calls ops w')
                (flush-tasks calls ops w' ∙ release_cohort-tasks p.task_id sel.node_id w) u)
        | inr kept ↦
            rw kept (same_tasks p.task_id w (flush calls ops w) (flush-tasks calls ops w) u)
      ]

  record_cohort-Unclaimable :
      (is_primary : Bool) (sel : Selected) (w : World)
      → Unclaimable p.task_id w
      → Unclaimable p.task_id (record_cohort ttl now calls p is_primary sel w)
  record_cohort-Unclaimable is_primary sel w u =
      elim (Bool-cases (not is_primary && calls.cohort_ok sel.node_id)) [
        | inl recorded ↦ rw recorded (
            same_tasks p.task_id w (insert_cohort_assignment ttl now p.task_id sel.node_id w)
              (insert_cohort-tasks ttl now p.task_id sel.node_id w) u)
        | inr kept ↦ rw kept u
      ]

  publish_each-Unclaimable :
      (is_primary : Bool) (delivered sels : List Selected) (w : World)
      → All (Spares p.task_id) delivered
      → All (Spares p.task_id) sels
      → Unclaimable p.task_id w
      → Unclaimable p.task_id (publish_each ttl now calls p is_primary delivered sels w).world
  unfolding publish_each
  publish_each-Unclaimable is_primary delivered [] w spared left u =
      finish_all-Unclaimable delivered w spared u
  publish_each-Unclaimable is_primary delivered (sel ∷ rest) w spared left u =
      let recorded = record_cohort ttl now calls p is_primary sel w in
      let u' = record_cohort-Unclaimable is_primary sel w u in
      elim (Bool-cases (calls.publish_ok sel.node_id)) [
        | inl sent ↦ rw sent (
            publish_each-Unclaimable false (delivered ++ sel ∷ []) rest recorded
              (All-append (Spares p.task_id) delivered (sel ∷ []) (left.0, tt) spared) left.1 u')
        | inr lost ↦ rw lost (publish_failed-Unclaimable is_primary sel delivered recorded u')
      ]

  -- Once a command has gone out the task cannot be claimed again.
  assign_once-Unclaimable :
      (sels : List Selected) (w : World)
      → All (Spares p.task_id) sels
      → 0 < length (assign_once ttl now calls p sels w).published
      → Unclaimable p.task_id (assign_once ttl now calls p sels w).world
  unfolding assign_once
  assign_once-Unclaimable [] w spared sent = absurd (omega arith)
  assign_once-Unclaimable (primary ∷ rest) w spared sent =
      let attempt = persist_task_assignment ttl now p.task_id primary.node_id w in
      sent-Unclaimable p.task_id calls.claim_ok attempt.1
        (record { world = enqueue_by_lane p.task_id p.priority w; published = []; nodes = none })
        (record { world = attempt.0; published = []; nodes = none })
        (publish_each ttl now calls p true [] (primary ∷ rest) attempt.0) refl refl
        (λ ok.
          publish_each-Unclaimable true [] (primary ∷ rest) attempt.0 tt spared
            (persist-Unclaimable ttl now p.task_id primary.node_id w ok))
        sent

-- What an assignment that hands out nothing leaves.
abbrev pub IsIdle : World → Assigned → Type 0
IsIdle w r =
    (r.published ≡ [])
    × (r.nodes ≡ none)
    × (r.world.tasks ≡ w.tasks)
    × (r.world.assignments ≡ w.assignments)

enqueue_by_lane-IsIdle :
    (id priority : ℕ) (w : World)
    → IsIdle w (record { world = enqueue_by_lane id priority w; published = []; nodes = none })
enqueue_by_lane-IsIdle id priority w = elim (Bool-cases (id == 0)) [
  | inl bad ↦ rw bad (refl, refl, refl, refl)
  | inr good ↦ rw good (refl, refl, refl, refl)
]

IsIdle-branch :
    (up claimed : Bool) (w : World) (r q x : Assigned)
    → claimed ≡ false
    → IsIdle w r
    → IsIdle w q
    → IsIdle w (if not up then r else if not claimed then q else x)
IsIdle-branch false claimed w r q x e i j = i
IsIdle-branch true false w r q x e i j = j
IsIdle-branch true true w r q x e i j = absurd (cc)

assign_once-IsIdle :
    (ttl : ℤ) (now : ℕ) (calls : Calls) (p : NotifyPayload) (sels : List Selected) (w : World)
    → Unclaimable p.task_id w
    → IsIdle w (assign_once ttl now calls p sels w)
unfolding assign_once
assign_once-IsIdle ttl now calls p [] w u = enqueue_by_lane-IsIdle p.task_id p.priority w
assign_once-IsIdle ttl now calls p (primary ∷ rest) w u =
    let attempt = persist_task_assignment ttl now p.task_id primary.node_id w in
    let blocked = persist_blocked ttl now p.task_id primary.node_id w u in
    IsIdle-branch calls.claim_ok attempt.1 w
      (record { world = enqueue_by_lane p.task_id p.priority w; published = []; nodes = none })
      (record { world = attempt.0; published = []; nodes = none })
      (publish_each ttl now calls p true [] (primary ∷ rest) attempt.0) (ap (λ a. a.1) blocked)
      (enqueue_by_lane-IsIdle p.task_id p.priority w)
      (refl, refl, ap (λ a. a.0.tasks) blocked, ap (λ a. a.0.assignments) blocked)

-- A task is handed out by one path only: once assignOnce has handed a command for it to the broker (delivered or not), and would preempt other tasks only, every later assignOnce of that task on the rows that it left, whatever nodes are selected and whichever calls succeed, hands out no command, assigns no node, and changes no row of tasks or of assignments.
pub assign_once_exclusive :
    (ttl ttl' : ℤ) (now now' : ℕ) (calls calls' : Calls) (p : NotifyPayload) (priority' : ℕ)
    (sels sels' : List Selected) (w : World)
    → All (Spares p.task_id) sels
    → 0 < length (assign_once ttl now calls p sels w).published
    → let w' = (assign_once ttl now calls p sels w).world in
      IsIdle w' (
        assign_once ttl' now' calls'
          (record { task_id = p.task_id; priority = priority' })
          sels'
          w')
assign_once_exclusive ttl ttl' now now' calls calls' p priority' sels sels' w spared sent =
    assign_once-IsIdle ttl' now' calls' (record { task_id = p.task_id; priority = priority' }) sels'
      (assign_once ttl now calls p sels w).world
      (assign_once-Unclaimable ttl now calls p sels w spared sent)
