-- ===== src/Workflow/Start/Admits.antt =====
-- `start_workflow_run_internal` of crates/engine/src/workflow/run_admission.rs: a ready graph is
-- admitted, and what is admitted is a well-formed queued Run of the graph.
use oh_my_dream.Common.{
  ℕ, ◌≡◌, refl, true, false, some, List, [], ◌∷◌, contains, is_empty, length, ==_iff, ok, arith,
}
use oh_my_dream.Common.Bytes.{Ord, nat_ord}
use oh_my_dream.Workflow.Value.{
  WorkflowRunScope, whole_workflow, through_node, WorkflowRunId, WorkflowNodeId,
  WorkflowNodeExecutionId, WorkflowRunTime, WorkflowRunState,
}
use oh_my_dream.Capability.Registry.{WorkflowNodeCapabilityRegistry}
use oh_my_dream.Graph.Aggregate.{WorkflowAggregate, node_ids}
use oh_my_dream.Graph.Aggregate.Draft.{IsDraft}
use oh_my_dream.Graph.Aggregate.Saved.{IsMapped}
use oh_my_dream.Workflow.Readiness.{ready}
use oh_my_dream.Workflow.Readiness.External.{NodeCapabilityReadinessIssue}
use oh_my_dream.Workflow.Readiness.Gather.{External, check_readiness_for_nodes}
use oh_my_dream.Workflow.Plan.{WorkflowPlannedNode}
use oh_my_dream.Workflow.Plan
use oh_my_dream.Workflow.Plan.Checks.{try_new-IsAdmitted}
use oh_my_dream.Workflow.Run.{WorkflowRunAggregate, try_new_queued}
use oh_my_dream.Workflow.Run.Invariant.{IsWellFormed}
use oh_my_dream.Workflow.Run.Reach.{
  admission, try_new_queued_of_distinct, try_new_queued-IsWellFormed,
}
use oh_my_dream.Workflow.Application.{WorkflowRunAdmissionCommit, admission_commit}
use oh_my_dream.Workflow.Admission.{selected_node_ids}
use oh_my_dream.Workflow.Admission.Selected.{Selects, IsSelection, selected_node_ids-IsSelection}
use oh_my_dream.Workflow.Admission.Frozen.{AllNodes}
use oh_my_dream.Workflow.Admission.Freeze.{freeze_plan-IsPlanned}
use oh_my_dream.Workflow.Start.{WorkflowStartRunCommand, admission_receipt, admit}

contains-filled :
    (a : WorkflowNodeId) (l : List WorkflowNodeId) → contains a l ≡ true → is_empty l ≡ false
contains-filled a [] h = absurd (ground arith)
contains-filled a (x ∷ xs) h = refl

module _ {P : Type 0} (g : WorkflowAggregate P) where
  selection-filled :
      (scope : WorkflowRunScope) (s : IsSelection NodeCapabilityReadinessIssue g scope)
      → is_empty (node_ids g.nodes) ≡ false
      → is_empty s.selected ≡ false
  unfolding selected_node_ids
  selection-filled whole_workflow s h =
      let same : node_ids g.nodes ≡ s.selected = ground (arith, s.run) in rw⁻¹ same h
  selection-filled (through_node node) s h = contains-filled node s.selected s.fits.0

module _ {P : Type 0} (O C : Type 0) ⦃o : Ord NodeCapabilityReadinessIssue⦄
    (capabilities : WorkflowNodeCapabilityRegistry) (external : External) (g : WorkflowAggregate P)
    (command : WorkflowStartRunCommand) where
  -- The admission of a Run of the graph.
  pub record IsAdmitting (fresh : ℕ → WorkflowNodeExecutionId) (run_id : WorkflowRunId)
      (now : WorkflowRunTime) : Type 0 where
    pub commit : WorkflowRunAdmissionCommit O C
    pub run : admit capabilities external command g fresh run_id (ok now) ≡ ok commit
    pub well_formed : IsWellFormed commit.run
    pub queued : commit.run.state ≡ WorkflowRunState.queued
    pub begun : length commit.run.events ≡ 1
    pub planned : commit.run.plan.workflow_id ≡ g.id
    pub selected : List WorkflowNodeId
    pub chosen : selected_node_ids {I = NodeCapabilityReadinessIssue} g command.scope ≡ ok selected
    pub same :
        (a : WorkflowNodeId)
        → contains a (Plan.node_ids commit.run.plan.nodes) ≡ contains a selected
    pub hold : AllNodes g commit.run.plan.nodes
    pub revised : commit.run.plan.workflow_revision ≡ command.workflow_revision
    pub scoped : commit.run.plan.scope ≡ command.scope
    pub owned : commit.run.project_id ≡ g.project_id
    pub named : commit.run.run_id ≡ run_id
    pub receipt : commit.receipt ≡ admission_receipt command run_id
    pub effect : commit.effect.workflow_run_id ≡ run_id

  -- For a graph that restoration or a mutation returned, with at least one node and the revision of
  -- the command, a scope that names one of its nodes or all of them, a readiness check that reports
  -- the selected nodes as ready, and fresh identities, the admission succeeds: it commits a well-
  -- formed queued Run with one event, whose plan has the identity of the graph, the revision and the
  -- scope of the command and exactly the selected nodes, each with the contract and the bindings it
  -- has in the graph, with its receipt and the effect that executes it.
  pub admit-IsAdmitting :
      IsDraft capabilities g
      → IsMapped g
      → g.revision ≡ command.workflow_revision
      → is_empty (node_ids g.nodes) ≡ false
      → Selects command.scope (node_ids g.nodes)
      → ((selected : List WorkflowNodeId)
          → selected_node_ids {I = NodeCapabilityReadinessIssue} g command.scope ≡ ok selected
          → check_readiness_for_nodes capabilities external g (some selected) ≡ ok ready)
      → (fresh : ℕ → WorkflowNodeExecutionId) (run_id : WorkflowRunId) (now : WorkflowRunTime)
      → ((a b : ℕ) → fresh a ≡ fresh b → a ≡ b)
      → IsAdmitting fresh run_id now
  unfolding admit admission_commit admission_receipt
  admit-IsAdmitting draft mapped revised filled selects reported fresh run_id now injective =
      let I : Type 0 = NodeCapabilityReadinessIssue in
      let s = selected_node_ids-IsSelection I capabilities g draft mapped command.scope selects in
      let p =
        freeze_plan-IsPlanned I capabilities g draft mapped command.scope s fresh injective
          (selection-filled g command.scope s filled) in
      let checks = try_new-IsAdmitted g.id g.revision command.scope p.nodes p.accepted in
      let plan : Plan.WorkflowExecutionPlan = record {
        workflow_id = g.id;
        workflow_revision = g.revision;
        scope = command.scope;
        nodes = p.nodes;
      } in
      let run : WorkflowRunAggregate O C = admission run_id g.project_id plan now in
      let queued : try_new_queued run_id g.project_id plan now ≡ ok run =
        try_new_queued_of_distinct run_id g.project_id plan now checks.executed in
      record {
        commit = record {
          run = run;
          receipt = admission_receipt command run_id;
          effect = record { workflow_run_id = run_id };
        };
        run = ground (
          arith,
          ==_iff g.revision command.workflow_revision,
          ==_iff run_id run_id,
          s.run,
          reported s.selected s.run,
          p.run,
          queued,
        );
        well_formed =
            try_new_queued-IsWellFormed run_id g.project_id g.id g.revision command.scope p.nodes
              now p.accepted queued;
        queued = refl;
        begun = refl;
        planned = refl;
        selected = s.selected;
        chosen = s.run;
        same = p.same;
        hold = p.hold;
        revised = revised;
        scoped = refl;
        owned = refl;
        named = refl;
        receipt = refl;
        effect = refl;
      }
