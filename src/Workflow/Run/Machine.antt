-- ===== src/Workflow/Run/Machine.antt =====
-- The state machine of a node execution, and what each node method of the Run does by it.
use oh_my_dream.Common.{
  ℕ, ◌≤◌, ◌≡◌, refl, ◌⊎◌, inl, inr, Bool, true, false, not, ◌&&◌, none, some, List, is_empty,
  is_ascending, sort_unstable, dedup, ok, err, Bool-cases, Option-cases, Result-cases, leb, arith,
}
use oh_my_dream.Common.State.{◌>>=◌}
use oh_my_dream.Common.Sorting.{sort_unstable-is_sorted, dedup-is_ascending}
use oh_my_dream.Workflow.Value.{
  WorkflowNodeId, WorkflowNodeExecutionId, WorkflowRunTime, WorkflowRunState,
  WorkflowNodeExecutionState, WorkflowDomainError,
}
use oh_my_dream.Workflow.Value.RunState
use oh_my_dream.Workflow.Value.NodeState
use oh_my_dream.Workflow.Run.{
  WorkflowRunAggregate, WorkflowRunEventPayload, node_started, node_progressed, node_waiting,
  node_succeeded, node_failed, node_blocked, WorkflowNodeExecutionFailure, upstream_node_failed,
}
use oh_my_dream.Workflow.Run.Transition.{
  Node, find_node, write_node, node_mut, set_node, hand_off, push_event,
  ensure_event_can_be_recorded, no_regression,
}
use oh_my_dream.Workflow.Run.Transition

module _ {O C : Type 0} where
  -- One step of the node `n` to `v`, in a Run of the state `st`; `b` says whether it may block.
  pub data NodeStep (b : Bool) (st : WorkflowRunState) (n v : Node O C) : Type 0 where
    begin :
        (t : WorkflowRunTime)
        → st ≡ WorkflowRunState.running
        → n.state ≡ WorkflowNodeExecutionState.pending
        → v ≡ record n { state = WorkflowNodeExecutionState.running; started_at = some t }
        → NodeStep b st n v
    advance :
        (p : ℕ)
        → p ≤ 10000
        → n.state ≡ WorkflowNodeExecutionState.running
        → v ≡ record n { progress_basis_points = some p }
        → NodeStep b st n v
    wait :
        st ≡ WorkflowRunState.running
        → n.state ≡ WorkflowNodeExecutionState.running
        → v ≡ record n {
          state = WorkflowNodeExecutionState.waiting_for_external_completion;
          progress_basis_points = none;
        }
        → NodeStep b st n v
    succeed :
        (o : O) (t : WorkflowRunTime)
        → NodeState.is_started n.state ≡ true
        → v ≡ record n {
          state = WorkflowNodeExecutionState.succeeded;
          progress_basis_points = none;
          finished_at = some t;
          outputs = some o;
        }
        → NodeStep b st n v
    fail :
        (f : WorkflowNodeExecutionFailure C) (t : WorkflowRunTime)
        → NodeState.is_started n.state ≡ true
        → v ≡ record n {
          state = WorkflowNodeExecutionState.failed;
          progress_basis_points = none;
          finished_at = some t;
          failure = some f;
        }
        → NodeStep b st n v
    block :
        (ids : List WorkflowNodeId) (t : WorkflowRunTime)
        → b ≡ true
        → n.state ≡ WorkflowNodeExecutionState.pending
        → is_empty ids ≡ false
        → is_ascending ids ≡ true
        → v ≡ record n {
          state = WorkflowNodeExecutionState.blocked;
          finished_at = some t;
          block_reason = some (upstream_node_failed ids);
        }
        → NodeStep b st n v

  -- A node method leaves the Run alone, or writes one step of one node and records an event.
  pub data NodeMethod (b : Bool) (r r' : WorkflowRunAggregate O C) : Type 0 where
    stay : r' ≡ r → NodeMethod b r r'
    write :
        (id : WorkflowNodeExecutionId) (n v : Node O C) (t : WorkflowRunTime)
        (p : WorkflowRunEventPayload O C)
        → find_node id r.node_executions ≡ some n
        → NodeStep b r.state n v
        → r' ≡ (push_event t p (record r { node_executions = write_node id v r.node_executions })).1
        → NodeMethod b r r'

  pub ensure-same :
      (t : WorkflowRunTime) (r : WorkflowRunAggregate O C)
      → (ensure_event_can_be_recorded t r).1 ≡ r
  unfolding ensure_event_can_be_recorded ◌>>=◌
  ensure-same t r = ground arith

  module _ (id : WorkflowNodeExecutionId) (t : WorkflowRunTime) (r : WorkflowRunAggregate O C) where
    -- Whether an event can be recorded and the node is there.
    ready :
        ((x : WorkflowDomainError) × ((ensure_event_can_be_recorded t r).0 ≡ err x))
        ⊎ (find_node id r.node_executions ≡ none)
        ⊎ ((n : Node O C) × ((ensure_event_can_be_recorded t r).0 ≡ ok tt)
            × (find_node id r.node_executions ≡ some n))
    ready = elim (Result-cases (ensure_event_can_be_recorded t r).0) [
      | inr late ↦ inl late
      | inl (tt, timely) ↦ elim (Option-cases (find_node id r.node_executions)) [
        | inl missing ↦ inr (inl missing)
        | inr (n, e) ↦ inr (inr (n, timely, e))
      ]
    ]

    pub start_node-NodeMethod : NodeMethod false r (Transition.start_node id t r).1
    unfolding Transition.start_node node_mut set_node ◌>>=◌
    start_node-NodeMethod = elim ready [
      | inl (x, late) ↦ stay (ground (arith, ensure-same t r))
      | inr (inl missing) ↦ stay (ground (arith, ensure-same t r))
      | inr (inr (n, timely, e)) ↦
          elim (Bool-cases (NodeState.is_pending n.state && RunState.is_running r.state)) [
            | inr out ↦ stay (ground (arith, ensure-same t r))
            | inl due ↦
                write id n _ t (node_started id) e (begin t (ground arith) (ground arith) refl)
                  (ground (arith, ensure-same t r))
          ]
    ]

    pub progress_node-NodeMethod :
        (b : ℕ) → NodeMethod false r (Transition.progress_node id b t r).1
    unfolding Transition.progress_node node_mut set_node ◌>>=◌
    progress_node-NodeMethod b = elim ready [
      | inl (x, late) ↦ stay (ground (arith, ensure-same t r))
      | inr (inl missing) ↦ stay (ground (arith, ensure-same t r))
      | inr (inr (n, timely, e)) ↦
          elim (Bool-cases (
            leb b 10000
            && NodeState.is_running n.state
            && no_regression n.progress_basis_points b)) [
              | inr out ↦ stay (ground (arith, ensure-same t r))
              | inl due ↦
                  write id n _ t (node_progressed id b) e
                    (advance b (ground arith) (ground arith) refl) (ground (arith, ensure-same t r))
            ]
    ]

    pub succeed_node-NodeMethod : (o : O) → NodeMethod false r (Transition.succeed_node id o t r).1
    unfolding Transition.succeed_node node_mut set_node ◌>>=◌
    succeed_node-NodeMethod o = elim ready [
      | inl (x, late) ↦ stay (ground (arith, ensure-same t r))
      | inr (inl missing) ↦ stay (ground (arith, ensure-same t r))
      | inr (inr (n, timely, e)) ↦ elim (Bool-cases (NodeState.is_started n.state)) [
        | inr out ↦ stay (ground (arith, ensure-same t r))
        | inl due ↦
            write id n _ t (node_succeeded id o) e (succeed o t due refl)
              (ground (arith, ensure-same t r))
      ]
    ]

    pub fail_node-NodeMethod :
        (f : WorkflowNodeExecutionFailure C) → NodeMethod false r (Transition.fail_node id f t r).1
    unfolding Transition.fail_node node_mut set_node ◌>>=◌
    fail_node-NodeMethod f = elim ready [
      | inl (x, late) ↦ stay (ground (arith, ensure-same t r))
      | inr (inl missing) ↦ stay (ground (arith, ensure-same t r))
      | inr (inr (n, timely, e)) ↦ elim (Bool-cases (NodeState.is_started n.state)) [
        | inr out ↦ stay (ground (arith, ensure-same t r))
        | inl due ↦
            write id n _ t (node_failed id f) e (fail f t due refl)
              (ground (arith, ensure-same t r))
      ]
    ]

    pub block_node-NodeMethod :
        (ids : List WorkflowNodeId) → NodeMethod true r (Transition.block_node id ids t r).1
    unfolding Transition.block_node node_mut set_node ◌>>=◌
    block_node-NodeMethod ids = elim ready [
      | inl (x, late) ↦ stay (ground (arith, ensure-same t r))
      | inr (inl missing) ↦ stay (ground (arith, ensure-same t r))
      | inr (inr (n, timely, e)) ↦
          elim (Bool-cases
            (NodeState.is_pending n.state && not (is_empty (dedup (sort_unstable ids))))) [
              | inr out ↦ stay (ground (arith, ensure-same t r))
              | inl due ↦
                  write id n _ t
                    (node_blocked id (upstream_node_failed (dedup (sort_unstable ids)))) e
                    (block (dedup (sort_unstable ids)) t refl (ground arith) (ground arith)
                      (dedup-is_ascending _ (sort_unstable-is_sorted ids)) refl)
                    (ground (arith, ensure-same t r))
            ]
    ]

    pub wait_node-NodeMethod :
        NodeMethod false r (Transition.wait_node_for_external_completion id t r).1
    unfolding Transition.wait_node_for_external_completion hand_off node_mut set_node ◌>>=◌
    wait_node-NodeMethod = elim ready [
      | inl (x, late) ↦ stay (ground (arith, ensure-same t r))
      | inr (inl missing) ↦ stay (ground (arith, ensure-same t r))
      | inr (inr (n, timely, e)) ↦
          elim (Bool-cases (NodeState.is_running n.state && RunState.is_running r.state)) [
            | inr out ↦ stay (ground (arith, ensure-same t r))
            | inl due ↦
                write id n _ t (node_waiting id) e (wait (ground arith) (ground arith) refl)
                  (ground (arith, ensure-same t r))
          ]
    ]
