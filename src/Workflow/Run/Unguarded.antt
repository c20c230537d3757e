-- ===== src/Workflow/Run/Unguarded.antt =====
-- The two calls that transition.rs does not guard by the state of the Run.
use oh_my_dream.Common.{
  ◌≡◌, refl, ◌∙◌, inl, inr, true, false, none, some, List, [], ◌∷◌, all, sort_unstable, dedup, ok,
  err, Option-cases, arith,
}
use oh_my_dream.Common.State.{◌>>=◌}
use oh_my_dream.Workflow.Value.{
  WorkflowNodeId, WorkflowNodeExecutionId, WorkflowRunTime, WorkflowRunState,
  WorkflowNodeExecutionState, invalid_workflow_run_value,
}
use oh_my_dream.Workflow.Value.NodeState
use oh_my_dream.Workflow.Run.{
  WorkflowRunAggregate, WorkflowRunEventPayload, node_succeeded, node_blocked, upstream_node_failed,
  interrupted_by_restart,
}
use oh_my_dream.Workflow.Run.Transition.{
  Node, find_node, write_node, node_mut, set_node, push_event, ensure_event_can_be_recorded,
  succeed_node, block_node,
}
use oh_my_dream.Workflow.Run.Restore.{try_restore, restore_data, run_and_nodes_match}
use oh_my_dream.Workflow.Run.Machine.{ensure-same}
use oh_my_dream.Workflow.Run.Shape.{push_event-same}

module _ {O C : Type 0} where
  write_node-pending :
      (id : WorkflowNodeExecutionId) (n v : Node O C) (ns : List (Node O C))
      → find_node id ns ≡ some n
      → NodeState.is_pending v.state ≡ false
      → all (λ m. NodeState.is_pending m.state) (write_node id v ns) ≡ false
  unfolding find_node write_node
  write_node-pending id n v [] e h = cc
  write_node-pending id n v (m ∷ ms) e h = ground (arith, write_node-pending id n v ms)

  not_pending_refused :
      (r : WorkflowRunAggregate O C)
      → r.state ≡ WorkflowRunState.queued
      → all (λ m. NodeState.is_pending m.state) r.node_executions ≡ false
      → try_restore (restore_data r) ≡ err invalid_workflow_run_value
  unfolding try_restore restore_data run_and_nodes_match
  not_pending_refused r q h = ground arith

  block_node-pending :
      (id : WorkflowNodeExecutionId) (ids : List WorkflowNodeId) (t : WorkflowRunTime)
      (r : WorkflowRunAggregate O C)
      → (block_node id ids t r).0 ≡ ok tt
      → ((block_node id ids t r).1.state ≡ r.state)
        × (all (λ m. NodeState.is_pending m.state) (block_node id ids t r).1.node_executions
            ≡ false)
  unfolding block_node node_mut set_node ◌>>=◌
  block_node-pending id ids t r e = elim (Option-cases (find_node id r.node_executions)) [
    | inl missing ↦ absurd (ground (arith, ensure-same t r))
    | inr (n, found) ↦
        let upstream = upstream_node_failed (dedup (sort_unstable ids)) in
        let v : Node O C = record n {
          state = WorkflowNodeExecutionState.blocked;
          finished_at = some t;
          block_reason = some upstream;
        } in
        let ms = write_node id v r.node_executions in
        ground (
          arith,
          ensure-same t r,
          write_node-pending id n v r.node_executions,
          push_event-same t (node_blocked id upstream) (record r { node_executions = ms }),
        )
  ]

  -- A Run that blocks a node before it has started cannot be restored from what is saved of it.
  pub block_node-queued_unrestorable :
      (id : WorkflowNodeExecutionId) (ids : List WorkflowNodeId) (t : WorkflowRunTime)
      (r : WorkflowRunAggregate O C)
      → r.state ≡ WorkflowRunState.queued
      → (block_node id ids t r).0 ≡ ok tt
      → try_restore (restore_data (block_node id ids t r).1) ≡ err invalid_workflow_run_value
  block_node-queued_unrestorable id ids t r q e =
      let (state, blocked) = block_node-pending id ids t r e in
      not_pending_refused (block_node id ids t r).1 (state ∙ q) blocked

  find_node-write_node :
      (id : WorkflowNodeExecutionId) (n v : Node O C) (ns : List (Node O C))
      → find_node id ns ≡ some n
      → v.execution_id ≡ n.execution_id
      → find_node id (write_node id v ns) ≡ some v
  unfolding find_node write_node
  find_node-write_node id n v [] e x = cc
  find_node-write_node id n v (m ∷ ms) e x = ground (arith, find_node-write_node id n v ms)

  -- An event that can be recorded is recorded, whatever the nodes are.
  push_event_timely :
      (t : WorkflowRunTime) (p : WorkflowRunEventPayload O C) (r : WorkflowRunAggregate O C)
      (ms : List (Node O C))
      → (ensure_event_can_be_recorded t r).0 ≡ ok tt
      → (push_event t p (record r { node_executions = ms })).0 ≡ ok tt
  unfolding push_event ensure_event_can_be_recorded ◌>>=◌
  push_event_timely t p r ms h = ground arith

  -- In a Run that a restart has failed, a started node still succeeds when its event can be
  -- recorded: the Run stays failed and the node is stored as succeeded.
  pub succeed_node_after_interrupt :
      (id : WorkflowNodeExecutionId) (o : O) (t : WorkflowRunTime) (r : WorkflowRunAggregate O C)
      (n : Node O C)
      → r.state ≡ WorkflowRunState.failed
      → r.failure ≡ some interrupted_by_restart
      → find_node id r.node_executions ≡ some n
      → NodeState.is_started n.state ≡ true
      → (ensure_event_can_be_recorded t r).0 ≡ ok tt
      → ((succeed_node id o t r).0 ≡ ok tt)
        × ((succeed_node id o t r).1.state ≡ WorkflowRunState.failed)
        × ((v : Node O C) × (find_node id (succeed_node id o t r).1.node_executions ≡ some v)
            × (v.state ≡ WorkflowNodeExecutionState.succeeded))
  unfolding succeed_node node_mut set_node ◌>>=◌
  succeed_node_after_interrupt id o t r n f i e s timely =
      let v : Node O C = record n {
        state = WorkflowNodeExecutionState.succeeded;
        progress_basis_points = none;
        finished_at = some t;
        outputs = some o;
      } in
      let r' = record r { node_executions = write_node id v r.node_executions } in
      let pushed =
        push_event_timely t (node_succeeded id o) r (write_node id v r.node_executions) timely in
      let same = push_event-same t (node_succeeded id o) r' in
      (
        ground (arith, ensure-same t r, pushed),
        ground (arith, ensure-same t r, same),
        (
          v,
          ground
              (arith, ensure-same t r, same, find_node-write_node id n v r.node_executions e refl),
          refl,
        ),
      )
