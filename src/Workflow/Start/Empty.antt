-- ===== src/Workflow/Start/Empty.antt =====
-- A graph without nodes: the report of crates/engine/src/workflow/use_case.rs against the admission of
-- crates/engine/src/workflow/run_admission.rs.
use oh_my_dream.Common.{ℕ, ◌≡◌, none, some, Option, List, [], ==_iff, ok, err, Result, arith}
use oh_my_dream.Common.Bytes.{Ord}
use oh_my_dream.Workflow.Value.{
  whole_workflow, WorkflowNodeId, WorkflowRunId, WorkflowNodeExecutionId, WorkflowRunTime,
}
use oh_my_dream.Capability.Registry.{WorkflowNodeCapabilityRegistry}
use oh_my_dream.Graph.Aggregate.{WorkflowAggregate}
use oh_my_dream.Workflow.Readiness.{ready, from_issues, sort_issues}
use oh_my_dream.Workflow.Readiness.External.{NodeCapabilityReadinessIssue}
use oh_my_dream.Workflow.Readiness.Gather.{External, gather_issues, check_readiness_for_nodes}
use oh_my_dream.Workflow.Plan.{try_new}
use oh_my_dream.Workflow.Application.{workflow_persistence_failure}
use oh_my_dream.Workflow.Admission.{
  selected_node_ids, take_ready, deterministic_topological_order, freeze_nodes, freeze_plan,
}
use oh_my_dream.Workflow.Start.{Failure, WorkflowStartRunCommand, admit}

module _ {P : Type 0} (O C : Type 0) ⦃o : Ord NodeCapabilityReadinessIssue⦄
    (capabilities : WorkflowNodeCapabilityRegistry) (external : External)
    (g : WorkflowAggregate P) where
  check_readiness_for_nodes_nil :
      (selected : Option (List WorkflowNodeId))
      → g.nodes ≡ []
      → check_readiness_for_nodes capabilities external g selected ≡ ok ready
  unfolding check_readiness_for_nodes gather_issues from_issues sort_issues
  check_readiness_for_nodes_nil selected h = ground (arith, h)

  freeze_plan_nil :
      (fresh : ℕ → WorkflowNodeExecutionId)
      → freeze_plan {I = NodeCapabilityReadinessIssue} capabilities g whole_workflow [] fresh
        ≡ err workflow_persistence_failure
  unfolding freeze_plan deterministic_topological_order take_ready freeze_nodes try_new
  freeze_plan_nil fresh = ground arith

  -- A graph without nodes is reported as ready, and yet a command for a Run of the whole graph at its
  -- revision is refused as a persistence failure.
  pub admit_nil :
      (command : WorkflowStartRunCommand) (fresh : ℕ → WorkflowNodeExecutionId)
      (run_id : WorkflowRunId) (clock : Result Failure WorkflowRunTime)
      → g.nodes ≡ []
      → g.revision ≡ command.workflow_revision
      → command.scope ≡ whole_workflow
      → (check_readiness_for_nodes capabilities external g none ≡ ok ready)
        × (admit {O = O} {C = C} capabilities external command g fresh run_id clock
            ≡ err workflow_persistence_failure)
  unfolding admit selected_node_ids
  admit_nil command fresh run_id clock h same whole = (
    check_readiness_for_nodes_nil none h,
    ground (
      arith,
      ==_iff g.revision command.workflow_revision,
      h,
      whole,
      check_readiness_for_nodes_nil (some []) h,
      freeze_plan_nil fresh,
    ),
  )
