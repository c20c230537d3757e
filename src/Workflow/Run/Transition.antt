-- ===== src/Workflow/Run/Transition.antt =====
-- crates/engine/src/workflow/run/transition.rs: each method of the Run that changes it.
use oh_my_dream.Common.{
  ℕ, Bool, true, not, ◌&&◌, Option, none, some, List, [], ◌∷◌, ◌++◌, last, is_empty, sort_unstable,
  dedup, leb, ◌==◌, Result, ok, err, ok_or, Exec, if◌then◌else◌,
}
use oh_my_dream.Common.State.{lift, gets, reads, modify, require, ◌>>=◌, ◌>>◌}
use oh_my_dream.Workflow.Value.{
  WorkflowNodeId, WorkflowNodeExecutionId, WorkflowRunTime, WorkflowRunState,
  WorkflowNodeExecutionState, WorkflowDomainError, workflow_illegal_run_transition,
  workflow_illegal_node_execution_transition, workflow_progress_out_of_range,
  workflow_progress_regression, workflow_terminal_state_immutable, invalid_workflow_run_value,
}
use oh_my_dream.Workflow.Value.Sequence
use oh_my_dream.Workflow.Value.RunState
use oh_my_dream.Workflow.Value.NodeState
use oh_my_dream.Workflow.Run.{
  WorkflowRunAggregate, WorkflowRunEvent, WorkflowRunEventPayload, run_started, node_started,
  node_progressed, node_waiting, node_succeeded, node_failed, node_blocked,
  WorkflowNodeExecutionEntity, WorkflowNodeExecutionFailure, upstream_node_failed,
}

abbrev pub Node : Type 0 → Type 0 → Type 0
Node O C = WorkflowNodeExecutionEntity O C

abbrev pub Method : Type 0 → Type 0 → Type 0 → Type 0
Method O C A = Exec WorkflowDomainError (WorkflowRunAggregate O C) A

abbrev pub no_regression : Option ℕ → ℕ → Bool
no_regression none next = true
no_regression (some current) next = leb current next

module _ {O C : Type 0} where
  -- The sequence that the next event takes.
  abbrev pub next_sequence : List (WorkflowRunEvent O C) → Result WorkflowDomainError ℕ
  next_sequence events = elim (last events) [
    | none ↦ err invalid_workflow_run_value
    | some e ↦ Sequence.next e.sequence
  ]

  unfoldable pub ensure_event_can_be_recorded : WorkflowRunTime → Method O C Unit
  ensure_event_can_be_recorded occurred_at = do
    require (λ r. leb r.updated_at occurred_at) invalid_workflow_run_value
    sequence ← reads (λ r. next_sequence r.events)
    lift (ok tt)

  unfoldable pub push_event : WorkflowRunTime → WorkflowRunEventPayload O C → Method O C Unit
  push_event occurred_at payload = do
    ensure_event_can_be_recorded occurred_at
    sequence ← reads (λ r. next_sequence r.events)
    modify (λ r. record r {
      events =
          r.events
          ++ record {
            run_id = r.run_id;
            sequence = sequence;
            occurred_at = occurred_at;
            payload = payload;
          }
            ∷ [];
      updated_at = occurred_at;
    })

  -- The first node of an execution identity, as `iter().find` and `iter_mut().find` reach it.
  unfoldable pub find_node : WorkflowNodeExecutionId → List (Node O C) → Option (Node O C)
  find_node id [] = none
  find_node id (n ∷ ns) = if n.execution_id == id then some n else find_node id ns

  unfoldable pub write_node : WorkflowNodeExecutionId → Node O C → List (Node O C) → List (Node O C)
  write_node id v [] = []
  write_node id v (n ∷ ns) = if n.execution_id == id then v ∷ ns else n ∷ write_node id v ns

  unfoldable pub node_mut : WorkflowNodeExecutionId → Method O C (Node O C)
  node_mut id =
      reads (λ r. ok_or (find_node id r.node_executions) workflow_illegal_node_execution_transition)

  -- The writes through the reference that `node_mut` returned.
  unfoldable pub set_node : WorkflowNodeExecutionId → Node O C → Method O C Unit
  set_node id v = modify λ r. record r { node_executions = write_node id v r.node_executions }

  abbrev pub check : Bool → WorkflowDomainError → Method O C Unit
  check b e = require (λ _. b) e

  unfoldable pub start_from : WorkflowRunTime → WorkflowRunState → Method O C Unit
  start_from occurred_at WorkflowRunState.queued = do
    modify (λ r. record r { state = WorkflowRunState.running })
    push_event occurred_at run_started
  start_from occurred_at WorkflowRunState.running = lift (err workflow_illegal_run_transition)
  start_from occurred_at _ = lift (err workflow_terminal_state_immutable)

  unfoldable pub start : WorkflowRunTime → Method O C Unit
  start occurred_at = do
    ensure_event_can_be_recorded occurred_at
    state ← gets (λ r. r.state)
    start_from occurred_at state

  unfoldable pub start_node : WorkflowNodeExecutionId → WorkflowRunTime → Method O C Unit
  start_node id occurred_at = do
    ensure_event_can_be_recorded occurred_at
    require (λ r. RunState.is_running r.state) workflow_illegal_node_execution_transition
    node ← node_mut id
    check (NodeState.is_pending node.state) workflow_illegal_node_execution_transition
    set_node id
        (record node { state = WorkflowNodeExecutionState.running; started_at = some occurred_at })
    push_event occurred_at (node_started id)

  unfoldable pub progress_node : WorkflowNodeExecutionId → ℕ → WorkflowRunTime → Method O C Unit
  progress_node id basis_points occurred_at = do
    ensure_event_can_be_recorded occurred_at
    check (leb basis_points 10000) workflow_progress_out_of_range
    node ← node_mut id
    check (NodeState.is_running node.state) workflow_illegal_node_execution_transition
    check (no_regression node.progress_basis_points basis_points) workflow_progress_regression
    set_node id (record node { progress_basis_points = some basis_points })
    push_event occurred_at (node_progressed id basis_points)

  unfoldable pub hand_off : WorkflowNodeExecutionId → WorkflowRunTime → Method O C Unit
  hand_off id occurred_at = do
    node ← node_mut id
    set_node id (record node {
      state = WorkflowNodeExecutionState.waiting_for_external_completion;
      progress_basis_points = none;
    })
    push_event occurred_at (node_waiting id)

  unfoldable pub wait_node_for_external_completion :
      WorkflowNodeExecutionId → WorkflowRunTime → Method O C Unit
  wait_node_for_external_completion id occurred_at = do
    require (λ r. not (RunState.is_terminal r.state)) workflow_terminal_state_immutable
    node ← node_mut id
    if NodeState.is_waiting node.state then lift (ok tt) else do
      ensure_event_can_be_recorded occurred_at
      require (λ r. RunState.is_running r.state && NodeState.is_running node.state)
          workflow_illegal_node_execution_transition
      hand_off id occurred_at

  unfoldable pub succeed_node : WorkflowNodeExecutionId → O → WorkflowRunTime → Method O C Unit
  succeed_node id outputs occurred_at = do
    ensure_event_can_be_recorded occurred_at
    node ← node_mut id
    check (NodeState.is_started node.state) workflow_illegal_node_execution_transition
    set_node id (record node {
      state = WorkflowNodeExecutionState.succeeded;
      progress_basis_points = none;
      finished_at = some occurred_at;
      outputs = some outputs;
    })
    push_event occurred_at (node_succeeded id outputs)

  unfoldable pub fail_node :
      WorkflowNodeExecutionId → WorkflowNodeExecutionFailure C → WorkflowRunTime → Method O C Unit
  fail_node id failure occurred_at = do
    ensure_event_can_be_recorded occurred_at
    node ← node_mut id
    check (NodeState.is_started node.state) workflow_illegal_node_execution_transition
    set_node id (record node {
      state = WorkflowNodeExecutionState.failed;
      progress_basis_points = none;
      finished_at = some occurred_at;
      failure = some failure;
    })
    push_event occurred_at (node_failed id failure)

  unfoldable pub block_node :
      WorkflowNodeExecutionId → List WorkflowNodeId → WorkflowRunTime → Method O C Unit
  block_node id upstream_node_ids occurred_at = do
    ensure_event_can_be_recorded occurred_at
    upstream ← lift (ok (dedup (sort_unstable upstream_node_ids)))
    check (not (is_empty upstream)) invalid_workflow_run_value
    node ← node_mut id
    check (NodeState.is_pending node.state) workflow_illegal_node_execution_transition
    set_node id (record node {
      state = WorkflowNodeExecutionState.blocked;
      finished_at = some occurred_at;
      block_reason = some (upstream_node_failed upstream);
    })
    push_event occurred_at (node_blocked id (upstream_node_failed upstream))
