-- ===== src/Workflow/Start.antt =====
-- crates/engine/src/workflow/run_admission.rs: the command, its hash and its receipt, and
-- `start_workflow_run_internal` up to the commit. What the repositories, the clock and the identity
-- generator return are arguments, and so is SHA-256.
pub mod Admits
pub mod Replay
pub mod Committed
pub mod Empty
mod Tests
use oh_my_dream.Common.{
  ℕ, Bool, true, ◌&&◌, Option, none, some, List, [], ◌∷◌, ◌++◌, list_eq, ◌==◌, Result, ok, err,
  ensure, ◌>>=◌, ◌>>◌, if◌then◌else◌,
}
use oh_my_dream.Common.Bytes.{Ord, ascii}
use oh_my_dream.Workflow.Value.{
  WorkflowId, WorkflowRevision, WorkflowRunScope, whole_workflow, through_node, ProjectId,
  WorkflowRunId, WorkflowNodeExecutionId, WorkflowRunTime,
}
use oh_my_dream.Capability.Contract.{map_err}
use oh_my_dream.Capability.Canonical.{append_variable_bytes}
use oh_my_dream.Capability.Registry.{WorkflowNodeCapabilityRegistry}
use oh_my_dream.Tasks.Canonical.{to_be_bytes}
use oh_my_dream.Graph.Aggregate.{WorkflowAggregate}
use oh_my_dream.Workflow.Readiness.{WorkflowReadinessResult, ready, blocked}
use oh_my_dream.Workflow.Readiness.External.{NodeCapabilityReadinessIssue}
use oh_my_dream.Workflow.Readiness.Gather.{External, check_readiness_for_nodes}
use oh_my_dream.Workflow.Run.{try_new_queued}
use oh_my_dream.Workflow.Application.{
  WorkflowApplicationError, workflow_not_found, workflow_run_idempotency_conflict,
  workflow_run_revision_mismatch, workflow_not_ready, workflow_persistence_failure,
  WorkflowRunAdmissionReceipt, WorkflowRunAdmissionCommit, admission_commit,
}
use oh_my_dream.Workflow.Admission.{selected_node_ids, freeze_plan}

pub record WorkflowStartRunCommand : Type 0 where
  pub run_request_id : ℕ
  pub workflow_id : WorkflowId
  pub workflow_revision : WorkflowRevision
  pub scope : WorkflowRunScope
  pub command_hash : List ℕ

abbrev pub scope_bytes : WorkflowRunScope → List ℕ
scope_bytes whole_workflow = 0 ∷ []
scope_bytes (through_node node_id) = 1 ∷ to_be_bytes 16 node_id

-- What `hash_start_run` gives to SHA-256
unfoldable pub start_run_bytes : WorkflowId → WorkflowRevision → WorkflowRunScope → List ℕ
start_run_bytes workflow_id revision scope =
    append_variable_bytes (ascii "oh-my-dream/workflow-start-run/v1")
    ++ (to_be_bytes 16 workflow_id ++ (to_be_bytes 8 revision ++ scope_bytes scope))

-- `WorkflowStartRunCommand::new`
unfoldable pub start_run_command :
    (List ℕ → List ℕ)
    → ℕ
    → WorkflowId
    → WorkflowRevision
    → WorkflowRunScope
    → WorkflowStartRunCommand
start_run_command sha256 run_request_id workflow_id workflow_revision scope = record {
  run_request_id = run_request_id;
  workflow_id = workflow_id;
  workflow_revision = workflow_revision;
  scope = scope;
  command_hash = sha256 (start_run_bytes workflow_id workflow_revision scope);
}

-- `WorkflowRunAdmissionReceipt::new`
unfoldable pub admission_receipt :
    WorkflowStartRunCommand → WorkflowRunId → WorkflowRunAdmissionReceipt
admission_receipt command workflow_run_id = record {
  request_id = command.run_request_id;
  command_hash = command.command_hash;
  workflow_run_id = workflow_run_id;
}

unfoldable pub replay_run_id :
    {I : Type 0}
    → WorkflowRunAdmissionReceipt
    → WorkflowStartRunCommand
    → Result (WorkflowApplicationError I) WorkflowRunId
replay_run_id receipt command =
    if receipt.request_id == command.run_request_id
      && list_eq receipt.command_hash command.command_hash
    then ok receipt.workflow_run_id
    else err workflow_run_idempotency_conflict

-- The Run of an earlier admission to load, or the admission to commit.
pub data Started (O C : Type 0) : Type 0 where
  replayed : WorkflowRunId → Started O C
  admitted : WorkflowRunAdmissionCommit O C → Started O C

abbrev pub belongs : Option ProjectId → ProjectId → Bool
belongs none project = true
belongs (some id) project = project == id

-- `load_workflow`, of what the repository returned.
unfoldable pub load_workflow :
    {I P : Type 0}
    → Option ProjectId
    → WorkflowId
    → Option (WorkflowAggregate P)
    → Result (WorkflowApplicationError I) (WorkflowAggregate P)
load_workflow project_id workflow_id none = err (workflow_not_found workflow_id)
load_workflow project_id workflow_id (some workflow) =
    if belongs project_id workflow.project_id
    then ok workflow
    else err (workflow_not_found workflow_id)

abbrev pub ensure_ready :
    {I : Type 0} → WorkflowReadinessResult I → Result (WorkflowApplicationError I) Unit
ensure_ready ready = ok tt
ensure_ready (blocked issues) = err (workflow_not_ready (blocked issues))

abbrev pub Failure : Type 0
Failure = WorkflowApplicationError NodeCapabilityReadinessIssue

module _ {P O C : Type 0} ⦃o : Ord NodeCapabilityReadinessIssue⦄
    (capabilities : WorkflowNodeCapabilityRegistry) (external : External) where
  unfoldable pub admit :
      WorkflowStartRunCommand
      → WorkflowAggregate P
      → (fresh : ℕ → WorkflowNodeExecutionId) (run_id : WorkflowRunId)
      → Result Failure WorkflowRunTime
      → Result Failure (WorkflowRunAdmissionCommit O C)
  admit command workflow fresh run_id clock = do
    ensure (workflow.revision == command.workflow_revision) workflow_run_revision_mismatch
    selected ← selected_node_ids workflow command.scope
    readiness ← check_readiness_for_nodes capabilities external workflow (some selected)
    ensure_ready readiness
    plan ← freeze_plan capabilities workflow command.scope selected fresh
    now ← clock
    run ←
        map_err (λ e. workflow_persistence_failure)
          (try_new_queued run_id workflow.project_id plan now)
    admission_commit run (admission_receipt command run_id) (record { workflow_run_id = run_id })

  unfoldable pub start_workflow_run_internal :
      Option ProjectId
      → WorkflowStartRunCommand
      → (loaded : Option (WorkflowAggregate P)) (receipt : Option WorkflowRunAdmissionReceipt)
        (fresh : ℕ → WorkflowNodeExecutionId) (run_id : WorkflowRunId)
      → Result Failure WorkflowRunTime
      → Result Failure (Started O C)
  start_workflow_run_internal project_id command loaded none fresh run_id clock = do
    workflow ← load_workflow project_id command.workflow_id loaded
    commit ← admit command workflow fresh run_id clock
    ok (admitted commit)
  start_workflow_run_internal project_id command loaded (some receipt) fresh run_id clock = do
    workflow ← load_workflow project_id command.workflow_id loaded
    earlier ← replay_run_id receipt command
    ok (replayed earlier)
