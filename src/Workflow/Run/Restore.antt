-- ===== src/Workflow/Run/Restore.antt =====
-- crates/engine/src/workflow/run/restore.rs: what a persisted Run has to satisfy.
use oh_my_dream.Common.{
  ℕ, suc, ◌+◌, ◌^◌, Bool, true, false, not, ◌&&◌, ◌||◌, Option, none, some, List, [], ◌∷◌, map, all,
  length, is_empty, to_set, is_ascending, list_eq, ltb, leb, ◌==◌, Result, ok, ensure, ◌>>◌,
  if◌then◌else◌,
}
use oh_my_dream.Workflow.Value.{
  ProjectId, WorkflowRunId, WorkflowRunTime, WorkflowRunState, WorkflowNodeExecutionState,
  WorkflowDomainError, invalid_workflow_run_value,
}
use oh_my_dream.Workflow.Value.RunState
use oh_my_dream.Workflow.Value.NodeState
use oh_my_dream.Workflow.Plan.{WorkflowPlannedNode, WorkflowExecutionPlan}
use oh_my_dream.Workflow.Run.{
  WorkflowRunAggregate, WorkflowRunEvent, WorkflowNodeExecutionEntity,
  WorkflowNodeExecutionBlockReason, upstream_node_failed, WorkflowRunFailure, node_execution_failed,
  interrupted_by_restart,
}
use oh_my_dream.Workflow.Run.Conclude.{failed_node_ids}

-- `WorkflowNodeExecutionRestoreData` has the fields of the entity, under the same names.
abbrev pub WorkflowNodeExecutionRestoreData : Type 0 → Type 0 → Type 0
WorkflowNodeExecutionRestoreData O C = WorkflowNodeExecutionEntity O C

pub record WorkflowRunRestoreData (O C : Type 0) : Type 0 where
  pub run_id : WorkflowRunId
  pub project_id : ProjectId
  pub plan : WorkflowExecutionPlan
  pub state : WorkflowRunState
  pub node_executions : List (WorkflowNodeExecutionRestoreData O C)
  pub events : List (WorkflowRunEvent O C)
  pub created_at : WorkflowRunTime
  pub updated_at : WorkflowRunTime
  pub failure : Option WorkflowRunFailure

abbrev pub is_none {ℓ} : {A : Type ℓ} → Option A → Bool
is_none none = true
is_none (some a) = false

abbrev pub is_some {ℓ} : {A : Type ℓ} → Option A → Bool
is_some none = false
is_some (some a) = true

unfoldable pub run_failure_matches : WorkflowRunState → Option WorkflowRunFailure → Bool
run_failure_matches state failure =
    (RunState.is_failed state && is_some failure)
    || (not (RunState.is_failed state) && is_none failure)

unfoldable pub block_reason_is_valid : Option WorkflowNodeExecutionBlockReason → Bool
block_reason_is_valid none = false
block_reason_is_valid (some (upstream_node_failed ids)) = not (is_empty ids) && is_ascending ids

abbrev pub in_basis_points : Option ℕ → Bool
in_basis_points none = true
in_basis_points (some value) = leb value 10000

abbrev pub not_before : Option WorkflowRunTime → WorkflowRunTime → Bool
not_before none at = true
not_before (some earlier) at = leb earlier at

-- `u64::try_from(index).checked_add(1).unwrap_or(0)`
abbrev pub expected_sequence : ℕ → ℕ
expected_sequence index = if ltb (index + 1) (2 ^ 64) then index + 1 else 0

module _ {O C : Type 0} where
  abbrev no_outcome : WorkflowNodeExecutionRestoreData O C → Bool
  no_outcome n = is_none n.outputs && is_none n.failure && is_none n.block_reason

  abbrev shape_at : WorkflowNodeExecutionState → WorkflowNodeExecutionRestoreData O C → Bool
  shape_at WorkflowNodeExecutionState.pending n =
      no_outcome n
      && is_none n.started_at
      && is_none n.finished_at
      && is_none n.progress_basis_points
  shape_at WorkflowNodeExecutionState.running n =
      no_outcome n
      && is_some n.started_at
      && is_none n.finished_at
      && in_basis_points n.progress_basis_points
  shape_at WorkflowNodeExecutionState.waiting_for_external_completion n =
      no_outcome n
      && is_some n.started_at
      && is_none n.finished_at
      && is_none n.progress_basis_points
  shape_at WorkflowNodeExecutionState.succeeded n =
      is_some n.outputs
      && is_none n.failure
      && is_none n.block_reason
      && is_some n.started_at
      && is_some n.finished_at
      && is_none n.progress_basis_points
  shape_at WorkflowNodeExecutionState.failed n =
      is_none n.outputs
      && is_some n.failure
      && is_none n.block_reason
      && is_some n.started_at
      && is_some n.finished_at
      && is_none n.progress_basis_points
  shape_at WorkflowNodeExecutionState.blocked n =
      is_none n.outputs
      && is_none n.failure
      && block_reason_is_valid n.block_reason
      && is_none n.started_at
      && is_some n.finished_at
      && is_none n.progress_basis_points
  shape_at WorkflowNodeExecutionState.cancelled n =
      no_outcome n && is_some n.finished_at && is_none n.progress_basis_points

  unfoldable pub node_shape_is_valid : WorkflowNodeExecutionRestoreData O C → Bool
  unfolding block_reason_is_valid
  node_shape_is_valid n = shape_at n.state n

  abbrev pub no_active : List (WorkflowNodeExecutionRestoreData O C) → Bool
  no_active = all (λ n. not (NodeState.is_active n.state))

  abbrev pub nodes_fit :
      WorkflowRunState
      → Option WorkflowRunFailure
      → List (WorkflowNodeExecutionRestoreData O C)
      → Bool
  nodes_fit WorkflowRunState.queued none nodes = all (λ n. NodeState.is_pending n.state) nodes
  nodes_fit WorkflowRunState.running none nodes = true
  nodes_fit WorkflowRunState.succeeded none nodes = all (λ n. NodeState.is_succeeded n.state) nodes
  nodes_fit WorkflowRunState.cancelled none nodes = no_active nodes
  nodes_fit WorkflowRunState.failed (some (node_execution_failed ids)) nodes =
      no_active nodes
      && not (is_empty (failed_node_ids nodes))
      && list_eq (failed_node_ids nodes) ids
      && is_ascending (failed_node_ids nodes)
  nodes_fit WorkflowRunState.failed (some interrupted_by_restart) nodes = true
  nodes_fit _ _ nodes = false

  unfoldable pub run_and_nodes_match : WorkflowRunRestoreData O C → Bool
  run_and_nodes_match d = nodes_fit d.state d.failure d.node_executions

  -- `planned.len() != restored.len() || zip(..).any(..)`, negated.
  unfoldable pub nodes_match_plan :
      List WorkflowPlannedNode → List (WorkflowNodeExecutionRestoreData O C) → Bool
  nodes_match_plan [] [] = true
  nodes_match_plan (p ∷ ps) (n ∷ ns) =
      (p.node_id == n.node_id)
      && (p.node_execution_id == n.execution_id)
      && node_shape_is_valid n
      && nodes_match_plan ps ns
  nodes_match_plan _ _ = false

  -- The events from an index on, behind one that occurred at `previous`.
  unfoldable pub events_from :
      WorkflowRunId
      → WorkflowRunTime
      → WorkflowRunTime
      → ℕ
      → Option WorkflowRunTime
      → List (WorkflowRunEvent O C)
      → Bool
  events_from run created updated index previous [] = true
  events_from run created updated index previous (e ∷ es) =
      (e.run_id == run)
      && (e.sequence == expected_sequence index)
      && leb created e.occurred_at
      && leb e.occurred_at updated
      && not_before previous e.occurred_at
      && events_from run created updated (suc index) (some e.occurred_at) es

  unfoldable pub events_are_valid : WorkflowRunRestoreData O C → Bool
  events_are_valid d =
      not (is_empty d.events) && events_from d.run_id d.created_at d.updated_at 0 none d.events

  unfoldable pub validate_run_shape : WorkflowRunRestoreData O C → Result WorkflowDomainError Unit
  validate_run_shape d = do
    ensure (leb d.created_at d.updated_at && run_failure_matches d.state d.failure)
        invalid_workflow_run_value
    ensure (nodes_match_plan d.plan.nodes d.node_executions) invalid_workflow_run_value
    let execution_ids =
        to_set (map (λ (n : WorkflowNodeExecutionEntity O C). n.execution_id) d.node_executions)
    ensure
        ((length execution_ids == length d.node_executions)
          && run_and_nodes_match d
          && events_are_valid d)
        invalid_workflow_run_value

  unfoldable pub try_restore :
      WorkflowRunRestoreData O C → Result WorkflowDomainError (WorkflowRunAggregate O C)
  unfolding validate_run_shape
  try_restore d = do
    validate_run_shape d
    ok (record {
      run_id = d.run_id;
      project_id = d.project_id;
      plan = d.plan;
      state = d.state;
      node_executions = d.node_executions;
      events = d.events;
      created_at = d.created_at;
      updated_at = d.updated_at;
      failure = d.failure;
    })

  -- The fields that the Run's accessors give to its repository.
  unfoldable pub restore_data : WorkflowRunAggregate O C → WorkflowRunRestoreData O C
  restore_data r = record {
    run_id = r.run_id;
    project_id = r.project_id;
    plan = r.plan;
    state = r.state;
    node_executions = r.node_executions;
    events = r.events;
    created_at = r.created_at;
    updated_at = r.updated_at;
    failure = r.failure;
  }
