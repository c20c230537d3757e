-- ===== src/Workflow/Run.antt =====
-- crates/engine/src/workflow/run.rs: the Run aggregate and its events.
-- A Run carries a node's output set `O` and a capability's execution error `C`, and never looks
-- inside either: they are parameters of its types.
pub mod Transition
pub mod Conclude
pub mod Restore
pub mod Command
pub mod Atomic
pub mod History
pub mod Log
pub mod Machine
pub mod Shape
pub mod Endings
pub mod Cancelling
pub mod Invariant
pub mod Reach
pub mod Settled
pub mod Unguarded
pub mod Bounds
use oh_my_dream.Common.{
  ℕ, Option, none, List, [], ◌∷◌, map, length, to_set, ◌==◌, Result, ok, ensure, ◌>>=◌, ◌>>◌,
}
use oh_my_dream.Workflow.Value.{
  ProjectId, WorkflowRunId, WorkflowNodeId, WorkflowNodeExecutionId, WorkflowRunTime,
  WorkflowRunEventSequence, WorkflowRunState, WorkflowNodeExecutionState, WorkflowDomainError,
  invalid_workflow_run_value,
}
use oh_my_dream.Workflow.Value.Sequence
use oh_my_dream.Workflow.Plan.{WorkflowPlannedNode, WorkflowExecutionPlan}

pub data WorkflowGenerationTaskFailure : Type 0 where
  invalid_request authentication permission_denied content_policy : WorkflowGenerationTaskFailure
  rate_limited provider_unavailable timeout : WorkflowGenerationTaskFailure
  provider_rejected invalid_provider_response : WorkflowGenerationTaskFailure
  ambiguous_submission input_asset_unavailable : WorkflowGenerationTaskFailure
  output_asset_import internal generation_task_cancelled : WorkflowGenerationTaskFailure

pub data WorkflowNodeExecutionFailure (C : Type 0) : Type 0 where
  capability : C → WorkflowNodeExecutionFailure C
  generation_task : WorkflowGenerationTaskFailure → WorkflowNodeExecutionFailure C

pub data WorkflowNodeExecutionBlockReason : Type 0 where
  upstream_node_failed :
      (sorted_upstream_node_ids : List WorkflowNodeId) → WorkflowNodeExecutionBlockReason

pub data WorkflowRunFailure : Type 0 where
  node_execution_failed : (sorted_failed_node_ids : List WorkflowNodeId) → WorkflowRunFailure
  interrupted_by_restart : WorkflowRunFailure

pub data WorkflowRunEventPayload (O C : Type 0) : Type 0 where
  run_queued : WorkflowRunEventPayload O C
  run_started : WorkflowRunEventPayload O C
  node_started : WorkflowNodeExecutionId → WorkflowRunEventPayload O C
  node_progressed :
      WorkflowNodeExecutionId → (progress_basis_points : ℕ) → WorkflowRunEventPayload O C
  node_waiting : WorkflowNodeExecutionId → WorkflowRunEventPayload O C
  node_succeeded : WorkflowNodeExecutionId → (outputs : O) → WorkflowRunEventPayload O C
  node_failed :
      WorkflowNodeExecutionId
      → (failure : WorkflowNodeExecutionFailure C) → WorkflowRunEventPayload O C
  node_blocked :
      WorkflowNodeExecutionId
      → (reason : WorkflowNodeExecutionBlockReason) → WorkflowRunEventPayload O C
  node_cancelled : WorkflowNodeExecutionId → WorkflowRunEventPayload O C
  run_succeeded : WorkflowRunEventPayload O C
  run_failed : (failure : WorkflowRunFailure) → WorkflowRunEventPayload O C
  run_cancelled : WorkflowRunEventPayload O C

pub record WorkflowRunEvent (O C : Type 0) : Type 0 where
  pub run_id : WorkflowRunId
  pub sequence : WorkflowRunEventSequence
  pub occurred_at : WorkflowRunTime
  pub payload : WorkflowRunEventPayload O C

pub record WorkflowNodeExecutionEntity (O C : Type 0) : Type 0 where
  pub node_id : WorkflowNodeId
  pub execution_id : WorkflowNodeExecutionId
  pub state : WorkflowNodeExecutionState
  pub progress_basis_points : Option ℕ
  pub started_at : Option WorkflowRunTime
  pub finished_at : Option WorkflowRunTime
  pub outputs : Option O
  pub failure : Option (WorkflowNodeExecutionFailure C)
  pub block_reason : Option WorkflowNodeExecutionBlockReason

pub record WorkflowRunAggregate (O C : Type 0) : Type 0 where
  pub run_id : WorkflowRunId
  pub project_id : ProjectId
  pub plan : WorkflowExecutionPlan
  pub state : WorkflowRunState
  pub node_executions : List (WorkflowNodeExecutionEntity O C)
  pub events : List (WorkflowRunEvent O C)
  pub created_at : WorkflowRunTime
  pub updated_at : WorkflowRunTime
  pub failure : Option WorkflowRunFailure

module _ {O C : Type 0} where
  -- The entity that admission makes of a planned node.
  abbrev pub pending_execution : WorkflowPlannedNode → WorkflowNodeExecutionEntity O C
  pending_execution node = record {
    node_id = node.node_id;
    execution_id = node.node_execution_id;
    state = WorkflowNodeExecutionState.pending;
    progress_basis_points = none;
    started_at = none;
    finished_at = none;
    outputs = none;
    failure = none;
    block_reason = none;
  }

  unfoldable pub try_new_queued :
      WorkflowRunId
      → ProjectId
      → WorkflowExecutionPlan
      → WorkflowRunTime
      → Result WorkflowDomainError (WorkflowRunAggregate O C)
  unfolding to_set Sequence.new
  try_new_queued run_id project_id plan created_at = do
    let execution_ids = to_set (map (λ (n : WorkflowPlannedNode). n.node_execution_id) plan.nodes)
    ensure (length execution_ids == length plan.nodes) invalid_workflow_run_value
    sequence ← Sequence.new 1
    ok (record {
      run_id = run_id;
      project_id = project_id;
      plan = plan;
      state = WorkflowRunState.queued;
      node_executions = map pending_execution plan.nodes;
      events =
          record {
            run_id = run_id;
            sequence = sequence;
            occurred_at = created_at;
            payload = run_queued;
          }
          ∷ [];
      created_at = created_at;
      updated_at = created_at;
      failure = none;
    })
