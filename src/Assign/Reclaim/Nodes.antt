-- ===== src/Assign/Reclaim/Nodes.antt =====
-- The compare-and-delete on a node's Redis hash.
use saucepan.Common.{
  ℕ, String, ◌≡◌, inl, inr, Bool, false, Option, none, some, arith, ◌==◌, nat_eq, string_eq,
  if◌then◌else◌, Mapping, lookup, lookup-insert, Option-cases,
}
use saucepan.Assign.Store.{NodeState}
use saucepan.Assign.Reclaim.{clear_reclaimed_node}

abbrev pub idle_node : NodeState
idle_node = record {
  busy = false;
  current_task_id = none;
  current_task_priority = none;
  idle_since = none;
}

-- Whether the node's hash exists and names the task.
abbrev pub points_at : ℕ → Option NodeState → Bool
points_at task_id none = false
points_at task_id (some state) = elim state.current_task_id [
  | none ↦ false
  | some current ↦ current == task_id
]

-- After the cleanup of one node for a reclaimed task, the hash of that node is the idle one exactly if it still named the task, and is what it was otherwise (so a fresher assignment survives); every other node's hash is unchanged.
pub lookup-clear_reclaimed_node :
    (node other : String) (task_id : ℕ) (nodes : Mapping NodeState)
    → lookup other (clear_reclaimed_node node task_id nodes) ≡ (
        if node == other
        then (if points_at task_id (lookup node nodes) then some idle_node else lookup other nodes)
        else lookup other nodes)
unfolding clear_reclaimed_node
lookup-clear_reclaimed_node node other task_id nodes = elim (Option-cases (lookup node nodes)) [
  | inl e ↦ rw e (ground arith)
  | inr (state, e) ↦ elim (Option-cases state.current_task_id) [
    | inl idle ↦ rw (e, idle) (ground arith)
    | inr (current, e') ↦ rw (e, e') (ground (arith, lookup-insert node other idle_node nodes))
  ]
]
