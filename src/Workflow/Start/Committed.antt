-- ===== src/Workflow/Start/Committed.antt =====
-- `start_workflow_run_internal` of crates/engine/src/workflow/run_admission.rs: what is committed, and
-- what a repeated command gets.
use oh_my_dream.Common.{
  ℕ, ◌≡◌, ◌∙◌, refl, sym, ap, subst, true, Option, none, some, List, ◌==◌, ==_iff, ok, Result,
  bind-ok, ensure, ensure-ok, length, ◌&&◌, Result-cases, Bool-cases, inl, inr, arith,
}
use oh_my_dream.Common.Bytes.{Ord, list_eq_refl}
use oh_my_dream.Workflow.Value.{
  WorkflowRunScope, WorkflowId, ProjectId, WorkflowRunId, WorkflowNodeId, WorkflowNodeExecutionId,
  WorkflowRunTime, WorkflowRunState,
}
use oh_my_dream.Capability.Contract.{map_err, map_err-ok}
use oh_my_dream.Capability.Registry.{WorkflowNodeCapabilityRegistry}
use oh_my_dream.Graph.Aggregate.{WorkflowAggregate}
use oh_my_dream.Workflow.Readiness.{WorkflowReadinessResult, ready, blocked}
use oh_my_dream.Workflow.Readiness.External.{NodeCapabilityReadinessIssue}
use oh_my_dream.Workflow.Readiness.Gather.{External, check_readiness_for_nodes}
use oh_my_dream.Workflow.Plan.{WorkflowPlannedNode, WorkflowExecutionPlan, try_new}
use oh_my_dream.Workflow.Run.{WorkflowRunAggregate, try_new_queued}
use oh_my_dream.Workflow.Run.Invariant.{IsWellFormed}
use oh_my_dream.Workflow.Run.Reach.{admission, try_new_queued-eq, try_new_queued-IsWellFormed}
use oh_my_dream.Workflow.Application.{
  workflow_persistence_failure, workflow_run_revision_mismatch, WorkflowRunAdmissionReceipt,
  WorkflowRunAdmissionCommit, WorkflowExecuteRunEffect, admission_commit, is_queued,
}
use oh_my_dream.Workflow.Admission.{
  selected_node_ids, deterministic_topological_order, freeze_nodes, freeze_plan,
}
use oh_my_dream.Workflow.Start.{
  Failure, WorkflowStartRunCommand, admission_receipt, replay_run_id, replayed, admitted, admit,
  load_workflow, ensure_ready, belongs, start_workflow_run_internal,
}

module _ {P : Type 0} (O C : Type 0) ⦃o : Ord NodeCapabilityReadinessIssue⦄
    (capabilities : WorkflowNodeCapabilityRegistry) (external : External)
    (g : WorkflowAggregate P) where
  -- A plan that was frozen was accepted.
  record IsAccepted (scope : WorkflowRunScope) (plan : WorkflowExecutionPlan) : Type 0 where
    pub nodes : List WorkflowPlannedNode
    pub accepted : try_new g.id g.revision scope nodes ≡ ok plan

  freeze_plan-IsAccepted :
      (scope : WorkflowRunScope) (selected : List WorkflowNodeId)
      (fresh : ℕ → WorkflowNodeExecutionId) (plan : WorkflowExecutionPlan)
      → freeze_plan {I = NodeCapabilityReadinessIssue} capabilities g scope selected fresh ≡ ok plan
      → IsAccepted scope plan
  unfolding freeze_plan
  freeze_plan-IsAccepted scope selected fresh plan e =
      elim (Result-cases (
        deterministic_topological_order {I = NodeCapabilityReadinessIssue} g.input_bindings
          selected)) [
            | inr (x, f) ↦ absurd (ground arith)
            | inl (order, f) ↦
                elim (Result-cases
                  (freeze_nodes {I = NodeCapabilityReadinessIssue} capabilities g fresh 0 order)) [
                    | inr (x, k) ↦ absurd (ground arith)
                    | inl (nodes, k) ↦ record {
                      nodes = nodes;
                      accepted = elim (Result-cases (try_new g.id g.revision scope nodes)) [
                        | inr (x, m) ↦ absurd (ground arith)
                        | inl (p, m) ↦ ground arith
                      ];
                    }
                  ]
          ]

  -- What an admission commits.
  pub record IsCommitted (command : WorkflowStartRunCommand) (run_id : WorkflowRunId)
      (commit : WorkflowRunAdmissionCommit O C) : Type 0 where
    pub selected : List WorkflowNodeId
    pub chosen : selected_node_ids {I = NodeCapabilityReadinessIssue} g command.scope ≡ ok selected
    pub reported : check_readiness_for_nodes capabilities external g (some selected) ≡ ok ready
    pub well_formed : IsWellFormed commit.run
    pub queued : commit.run.state ≡ WorkflowRunState.queued
    pub begun : length commit.run.events ≡ 1
    pub revised : commit.run.plan.workflow_revision ≡ command.workflow_revision
    pub current : g.revision ≡ command.workflow_revision
    pub scoped : commit.run.plan.scope ≡ command.scope
    pub planned : commit.run.plan.workflow_id ≡ g.id
    pub owned : commit.run.project_id ≡ g.project_id
    pub named : commit.run.run_id ≡ run_id
    pub receipt : commit.receipt ≡ admission_receipt command run_id
    pub effect : commit.effect.workflow_run_id ≡ run_id

  try_new-fields :
      (scope : WorkflowRunScope) (nodes : List WorkflowPlannedNode) (plan : WorkflowExecutionPlan)
      → try_new g.id g.revision scope nodes ≡ ok plan
      → (plan.workflow_id ≡ g.id) × (plan.workflow_revision ≡ g.revision) × (plan.scope ≡ scope)
  unfolding try_new
  try_new-fields scope nodes plan e = ground arith

  -- What the guard of the commit says.
  record IsAdmissible (run : WorkflowRunAggregate O C) : Type 0 where
    pub queued : run.state ≡ WorkflowRunState.queued
    pub begun : length run.events ≡ 1

  is_queued-eq : (s : WorkflowRunState) → is_queued s ≡ true → s ≡ WorkflowRunState.queued
  is_queued-eq WorkflowRunState.queued h = refl
  is_queued-eq _ h = absurd (ground arith)

  admission_commit-IsAdmissible :
      (run : WorkflowRunAggregate O C) (receipt : WorkflowRunAdmissionReceipt)
      (effect : WorkflowExecuteRunEffect) (commit : WorkflowRunAdmissionCommit O C)
      → admission_commit {I = NodeCapabilityReadinessIssue} run receipt effect ≡ ok commit
      → IsAdmissible commit.run
  unfolding admission_commit
  admission_commit-IsAdmissible run receipt effect commit e =
      let (u, guarded, made) =
        bind-ok
          (ensure
            (receipt.workflow_run_id == run.run_id
              && effect.workflow_run_id == run.run_id
              && is_queued run.state
              && length run.events == 1)
            workflow_persistence_failure)
          _ e in
      let same : run ≡ commit.run = ground (arith, made) in
      let holds = ensure-ok _ workflow_persistence_failure guarded in
      subst IsAdmissible same (record {
        queued = is_queued-eq run.state (ground (arith, holds));
        begun = (==_iff (length run.events) 1).0 (ground (arith, holds));
      })

  admission_commit-fields :
      (run : WorkflowRunAggregate O C) (receipt : WorkflowRunAdmissionReceipt)
      (effect : WorkflowExecuteRunEffect) (commit : WorkflowRunAdmissionCommit O C)
      → admission_commit {I = NodeCapabilityReadinessIssue} run receipt effect ≡ ok commit
      → (commit.run ≡ run) × (commit.receipt ≡ receipt) × (commit.effect ≡ effect)
  unfolding admission_commit
  admission_commit-fields run receipt effect commit e = ground arith

  ensure_ready-ready :
      (r : WorkflowReadinessResult NodeCapabilityReadinessIssue)
      → ensure_ready r ≡ ok tt
      → r ≡ ready
  ensure_ready-ready ready e = refl
  ensure_ready-ready (blocked issues) e = absurd (ground arith)

  -- An admission that succeeds was of a graph with the revision of the command, whose selected nodes
  -- were reported as ready; it commits a well-formed queued Run with one event, whose plan has the
  -- identity of that graph and the revision and the scope of the command, its receipt for the command
  -- and the effect that executes it.
  pub admit-IsCommitted :
      (command : WorkflowStartRunCommand) (fresh : ℕ → WorkflowNodeExecutionId)
      (run_id : WorkflowRunId) (clock : Result Failure WorkflowRunTime)
      (commit : WorkflowRunAdmissionCommit O C)
      → admit capabilities external command g fresh run_id clock ≡ ok commit
      → IsCommitted command run_id commit
  unfolding admit
  admit-IsCommitted command fresh run_id clock commit e =
      let (u, same, e1) =
        bind-ok (ensure (g.revision == command.workflow_revision) workflow_run_revision_mismatch) _
          e in
      let (selected, chosen, e2) = bind-ok (selected_node_ids g command.scope) _ e1 in
      let (report, reported, e3) =
        bind-ok (check_readiness_for_nodes capabilities external g (some selected)) _ e2 in
      let (v, told, e4) = bind-ok (ensure_ready report) _ e3 in
      let (plan, frozen, e5) =
        bind-ok (freeze_plan capabilities g command.scope selected fresh) _ e4 in
      let (now, clocked, e6) = bind-ok clock _ e5 in
      let (run, queued, e7) =
        bind-ok
          (map_err (λ e. workflow_persistence_failure)
            (try_new_queued run_id g.project_id plan now))
          _ e6 in
      let (r, p, q) = admission_commit-fields run _ _ commit e7 in
      let admissible = admission_commit-IsAdmissible run _ _ commit e7 in
      let made =
        map_err-ok (λ e. workflow_persistence_failure) (try_new_queued run_id g.project_id plan now)
          queued in
      let a = freeze_plan-IsAccepted command.scope selected fresh plan frozen in
      let (i, j, k) = try_new-fields command.scope a.nodes plan a.accepted in
      let (admission_of, executed) = try_new_queued-eq run_id g.project_id plan now made in
      let current : g.revision ≡ command.workflow_revision =
        (==_iff g.revision command.workflow_revision).0 (
          ensure-ok (g.revision == command.workflow_revision) workflow_run_revision_mismatch
            same) in
      let whole : commit.run ≡ admission run_id g.project_id plan now = r ∙ admission_of in
      record {
        selected = selected;
        chosen = chosen;
        reported = reported ∙ ap ok (ensure_ready-ready report told);
        well_formed = subst IsWellFormed (sym r) (
            try_new_queued-IsWellFormed run_id g.project_id g.id g.revision command.scope a.nodes
              now a.accepted made);
        queued = admissible.queued;
        begun = admissible.begun;
        revised = ap (λ x. x.plan.workflow_revision) whole ∙ (j ∙ current);
        current = current;
        scoped = ap (λ x. x.plan.scope) whole ∙ k;
        planned = ap (λ x. x.plan.workflow_id) whole ∙ i;
        owned = ap (λ x. x.project_id) whole;
        named = ap (λ x. x.run_id) whole;
        receipt = p;
        effect = ap (λ x. x.workflow_run_id) q;
      }

  load_workflow-found :
      (project_id : Option ProjectId) (id : WorkflowId) (found : WorkflowAggregate P)
      → load_workflow {I = NodeCapabilityReadinessIssue} project_id id (some g) ≡ ok found
      → (belongs project_id g.project_id ≡ true) × (g ≡ found)
  unfolding load_workflow
  load_workflow-found project_id id found e = elim (Bool-cases (belongs project_id g.project_id)) [
    | inl b ↦ (b, ground arith)
    | inr b ↦ absurd (ground arith)
  ]

  -- A command whose admission was committed gets the committed Run again when its receipt is there,
  -- whatever has become of the graph since, as long as the graph is still found.
  pub start_workflow_run_internal-replayed :
      (project_id : Option ProjectId) (command : WorkflowStartRunCommand)
      (fresh : ℕ → WorkflowNodeExecutionId) (run_id : WorkflowRunId)
      (clock : Result Failure WorkflowRunTime) (commit : WorkflowRunAdmissionCommit O C)
      → start_workflow_run_internal capabilities external project_id command
          (some g)
          none
          fresh
          run_id
          clock
        ≡ ok (admitted commit)
      → (h : WorkflowAggregate P) → h.project_id ≡ g.project_id
      → (fresh' : ℕ → WorkflowNodeExecutionId) (run_id' : WorkflowRunId)
        (clock' : Result Failure WorkflowRunTime)
      → start_workflow_run_internal {O = O} {C = C} capabilities external project_id command
          (some h)
          (some commit.receipt)
          fresh'
          run_id'
          clock'
        ≡ ok (replayed commit.run.run_id)
  unfolding start_workflow_run_internal load_workflow replay_run_id admission_receipt
  start_workflow_run_internal-replayed project_id command fresh run_id clock commit e h same fresh'
        run_id' clock' =
      let (found, loaded, e1) =
        bind-ok
          (load_workflow {I = NodeCapabilityReadinessIssue} project_id command.workflow_id (some g))
          _ e in
      let (c, made, e2) =
        bind-ok (admit capabilities external command found fresh run_id clock) _ e1 in
      let (owned, graph) = load_workflow-found project_id command.workflow_id found loaded in
      let this : c ≡ commit = ground (arith, e2) in
      let k = admit-IsCommitted command fresh run_id clock commit (rw (graph, ← this) made) in
      let still : belongs project_id h.project_id ≡ true = rw same owned in
      ground (
        arith,
        still,
        k.receipt,
        k.named,
        ==_iff command.run_request_id command.run_request_id,
        list_eq_refl command.command_hash,
      )
