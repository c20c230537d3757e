-- ===== src/Workflow/Run/Conclude.antt =====
-- crates/engine/src/workflow/run/transition.rs: `finish`, `interrupt_by_restart` and `cancel`.
use oh_my_dream.Common.{
  Bool, not, none, some, List, [], ◌∷◌, map, filter, all, any, sort_unstable, ok, err,
  if◌then◌else◌,
}
use oh_my_dream.Common.State.{lift, gets, reads, modify, require, ◌>>=◌, ◌>>◌}
use oh_my_dream.Workflow.Value.{
  WorkflowNodeId, WorkflowNodeExecutionId, WorkflowRunTime, WorkflowRunState,
  WorkflowNodeExecutionState, workflow_illegal_run_transition, workflow_terminal_state_immutable,
}
use oh_my_dream.Workflow.Value.RunState
use oh_my_dream.Workflow.Value.NodeState
use oh_my_dream.Workflow.Run.{
  node_cancelled, run_succeeded, run_failed, run_cancelled, node_execution_failed,
  interrupted_by_restart,
}
use oh_my_dream.Workflow.Run.Transition.{Node, Method, ensure_event_can_be_recorded, push_event}

module _ {O C : Type 0} where
  abbrev pub is_failed_node : Node O C → Bool
  is_failed_node n = NodeState.is_failed n.state

  -- `filter_map` and `sort_unstable`: the identities of the failed nodes, ascending.
  unfoldable pub failed_node_ids : List (Node O C) → List WorkflowNodeId
  failed_node_ids nodes = sort_unstable (map (λ n. n.node_id) (filter is_failed_node nodes))

  unfoldable pub finish_with : List WorkflowNodeId → WorkflowRunTime → Method O C Unit
  finish_with [] occurred_at = do
    require (λ r. all (λ n. NodeState.is_succeeded n.state) r.node_executions)
        workflow_illegal_run_transition
    modify (λ r. record r { state = WorkflowRunState.succeeded })
    push_event occurred_at run_succeeded
  finish_with (id ∷ ids) occurred_at = do
    modify (λ r. record r {
      state = WorkflowRunState.failed;
      failure = some (node_execution_failed (id ∷ ids));
    })
    push_event occurred_at (run_failed (node_execution_failed (id ∷ ids)))

  unfoldable pub run_transition_error : Method O C Unit
  run_transition_error = reads λ r. err (
      if RunState.is_terminal r.state
      then workflow_terminal_state_immutable
      else workflow_illegal_run_transition)

  unfoldable pub finish : WorkflowRunTime → Method O C Unit
  finish occurred_at = do
    ensure_event_can_be_recorded occurred_at
    state ← gets (λ r. r.state)
    if not (RunState.is_running state) then run_transition_error else do
      require (λ r. not (any (λ n. NodeState.is_active n.state) r.node_executions))
          workflow_illegal_run_transition
      failed ← gets (λ r. failed_node_ids r.node_executions)
      finish_with failed occurred_at

  unfoldable pub interrupt_by_restart : WorkflowRunTime → Method O C Unit
  interrupt_by_restart occurred_at = do
    ensure_event_can_be_recorded occurred_at
    require (λ r. not (RunState.is_terminal r.state)) workflow_terminal_state_immutable
    modify
        (λ r. record r { state = WorkflowRunState.failed; failure = some interrupted_by_restart })
    push_event occurred_at (run_failed interrupted_by_restart)

  unfoldable pub cancel_nodes : WorkflowRunTime → List (Node O C) → List (Node O C)
  cancel_nodes occurred_at [] = []
  cancel_nodes occurred_at (n ∷ ns) =
      (if NodeState.is_active n.state
        then record n {
          state = WorkflowNodeExecutionState.cancelled;
          progress_basis_points = none;
          finished_at = some occurred_at;
        }
        else n)
      ∷ cancel_nodes occurred_at ns

  unfoldable pub push_cancelled : WorkflowRunTime → List WorkflowNodeExecutionId → Method O C Unit
  push_cancelled occurred_at [] = lift (ok tt)
  push_cancelled occurred_at (id ∷ ids) = do
    push_event occurred_at (node_cancelled id)
    push_cancelled occurred_at ids

  unfoldable pub active_ids : List (Node O C) → List WorkflowNodeExecutionId
  active_ids nodes = map (λ n. n.execution_id) (filter (λ n. NodeState.is_active n.state) nodes)

  unfoldable pub cancel_active : WorkflowRunTime → Method O C Unit
  cancel_active occurred_at = do
    cancelled ← gets (λ r. active_ids r.node_executions)
    modify (λ r. record r { node_executions = cancel_nodes occurred_at r.node_executions })
    push_cancelled occurred_at cancelled
    modify (λ r. record r { state = WorkflowRunState.cancelled })
    push_event occurred_at run_cancelled

  unfoldable pub cancel_from : WorkflowRunTime → WorkflowRunState → Method O C Unit
  cancel_from occurred_at WorkflowRunState.cancelled = lift (ok tt)
  cancel_from occurred_at WorkflowRunState.succeeded = lift (err workflow_terminal_state_immutable)
  cancel_from occurred_at WorkflowRunState.failed = lift (err workflow_terminal_state_immutable)
  cancel_from occurred_at WorkflowRunState.queued = cancel_active occurred_at
  cancel_from occurred_at WorkflowRunState.running = cancel_active occurred_at

  unfoldable pub cancel : WorkflowRunTime → Method O C Unit
  cancel occurred_at = do
    state ← gets (λ r. r.state)
    (if RunState.is_cancelled state then lift (ok tt) else ensure_event_can_be_recorded occurred_at)
    cancel_from occurred_at state
