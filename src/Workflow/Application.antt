-- ===== src/Workflow/Application.antt =====
-- crates/engine/src/workflow/interface.rs: the errors of the Workflow use cases and the evidence of an
-- admission. `unreachable` is of this model: a loop out of fuel, or a missing key on which the code
-- would panic.
use oh_my_dream.Common.{ℕ, Bool, true, false, ◌&&◌, List, length, ◌==◌, Result, ok, ensure, ◌>>◌}
use oh_my_dream.Workflow.Value.{WorkflowId, WorkflowRunId, WorkflowRunState, WorkflowDomainError}
use oh_my_dream.Workflow.Readiness.{WorkflowReadinessResult}
use oh_my_dream.Graph.Value.{WorkflowGraphError}
use oh_my_dream.Workflow.Run.{WorkflowRunAggregate}

pub data WorkflowApplicationError (I : Type 0) : Type 0 where
  workflow_domain : WorkflowDomainError → WorkflowApplicationError I
  workflow_graph : WorkflowGraphError → WorkflowApplicationError I
  workflow_not_found : (key : WorkflowId) → WorkflowApplicationError I
  workflow_already_exists_for_project workflow_creation_idempotency_conflict :
      WorkflowApplicationError I
  workflow_revision_conflict workflow_mutation_idempotency_conflict : WorkflowApplicationError I
  workflow_run_not_found workflow_run_revision_mismatch : WorkflowApplicationError I
  workflow_run_idempotency_conflict : WorkflowApplicationError I
  workflow_not_ready : (readiness : WorkflowReadinessResult I) → WorkflowApplicationError I
  workflow_run_event_limit_out_of_bounds : (requested_limit : ℕ) → WorkflowApplicationError I
  workflow_persistence_failure workflow_media_preview_issue_failure : WorkflowApplicationError I
  workflow_capability_execution_failure workflow_run_event_publish_failure :
      WorkflowApplicationError I
  workflow_generation_task_completion_conflict : WorkflowApplicationError I
  workflow_generation_task_recovery_read_failure : WorkflowApplicationError I
  unreachable : WorkflowApplicationError I

pub record WorkflowRunAdmissionReceipt : Type 0 where
  pub request_id : ℕ
  pub command_hash : List ℕ
  pub workflow_run_id : WorkflowRunId

pub record WorkflowExecuteRunEffect : Type 0 where
  pub workflow_run_id : WorkflowRunId

pub record WorkflowRunAdmissionCommit (O C : Type 0) : Type 0 where
  pub run : WorkflowRunAggregate O C
  pub receipt : WorkflowRunAdmissionReceipt
  pub effect : WorkflowExecuteRunEffect

abbrev pub is_queued : WorkflowRunState → Bool
is_queued WorkflowRunState.queued = true
is_queued _ = false

module _ {I O C : Type 0} where
  -- `WorkflowRunAdmissionCommit::try_new`
  unfoldable pub admission_commit :
      WorkflowRunAggregate O C
      → WorkflowRunAdmissionReceipt
      → WorkflowExecuteRunEffect
      → Result (WorkflowApplicationError I) (WorkflowRunAdmissionCommit O C)
  admission_commit run receipt effect = do
    ensure
        (receipt.workflow_run_id == run.run_id
          && effect.workflow_run_id == run.run_id
          && is_queued run.state
          && length run.events == 1)
        workflow_persistence_failure
    ok (record { run = run; receipt = receipt; effect = effect })
