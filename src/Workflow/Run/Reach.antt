-- ===== src/Workflow/Run/Reach.antt =====
-- The Runs that admission and the methods lead to.
use oh_my_dream.Common.{
  ◌≡◌, refl, ap, sym, suc, subst, true, false, none, List, [], ◌∷◌, map, all, length, to_set, ok,
  arith,
}
use oh_my_dream.Common.Distinct.{distinct_of_length-to_set}
use oh_my_dream.Workflow.Value.{
  WorkflowRunId, ProjectId, WorkflowRunTime, WorkflowId, WorkflowRevision, WorkflowRunScope,
  WorkflowRunState,
}
use oh_my_dream.Workflow.Value.NodeState
use oh_my_dream.Workflow.Plan
use oh_my_dream.Workflow.Plan.{WorkflowPlannedNode, WorkflowExecutionPlan}
use oh_my_dream.Workflow.Plan.Checks.{try_new-IsAdmitted, nodes-try_new}
use oh_my_dream.Workflow.Run.{WorkflowRunAggregate, pending_execution, try_new_queued, run_queued}
use oh_my_dream.Workflow.Run.Restore.{
  run_failure_matches, node_shape_is_valid, nodes_match_plan, events_from, try_restore,
  restore_data,
}
use oh_my_dream.Workflow.Run.Command.{Command, apply}
use oh_my_dream.Workflow.Run.Shape.{IsShaped, execution_ids}
use oh_my_dream.Workflow.Run.History.{IsHistory}
use oh_my_dream.Workflow.Run.Invariant.{
  IsWellFormed, blocks_queued, apply-IsWellFormed, try_restore-restore_data,
}

module _ (O C : Type 0) where
  pending-planned :
      (ps : List WorkflowPlannedNode)
      → nodes_match_plan ps (map (pending_execution {O = O} {C = C}) ps) ≡ true
  unfolding nodes_match_plan node_shape_is_valid
  pending-planned [] = refl
  pending-planned (p ∷ ps) = ground (arith, pending-planned ps)

  pending-ids :
      (ps : List WorkflowPlannedNode)
      → (execution_ids (map (pending_execution {O = O} {C = C}) ps) ≡ Plan.execution_ids ps)
        × (length (map (pending_execution {O = O} {C = C}) ps) ≡ length ps)
        × (all (λ n. NodeState.is_pending n.state) (map (pending_execution {O = O} {C = C}) ps)
            ≡ true)
  pending-ids [] = (refl, refl, refl)
  pending-ids (p ∷ ps) = ground (arith, pending-ids ps)

length-map_names : (ps : List WorkflowPlannedNode) → length (Plan.node_ids ps) ≡ length ps
length-map_names [] = refl
length-map_names (p ∷ ps) = ap suc (length-map_names ps)

module _ {O C : Type 0} where
  -- The Run that an admission returns.
  abbrev pub admission :
      WorkflowRunId → ProjectId → WorkflowExecutionPlan → WorkflowRunTime → WorkflowRunAggregate O C
  admission id project plan t = record {
    run_id = id;
    project_id = project;
    plan = plan;
    state = WorkflowRunState.queued;
    node_executions = map pending_execution plan.nodes;
    events = record { run_id = id; sequence = 1; occurred_at = t; payload = run_queued } ∷ [];
    created_at = t;
    updated_at = t;
    failure = none;
  }

  pub try_new_queued-eq :
      (id : WorkflowRunId) (project : ProjectId) (plan : WorkflowExecutionPlan)
      (t : WorkflowRunTime) {r : WorkflowRunAggregate O C}
      → try_new_queued id project plan t ≡ ok r
      → (r ≡ admission id project plan t)
        × (length (to_set (Plan.execution_ids plan.nodes)) ≡ length plan.nodes)
  unfolding try_new_queued
  try_new_queued-eq id project plan t e = ground arith

  pub try_new_queued_of_distinct :
      (id : WorkflowRunId) (project : ProjectId) (plan : WorkflowExecutionPlan)
      (t : WorkflowRunTime)
      → length (to_set (Plan.execution_ids plan.nodes)) ≡ length plan.nodes
      → try_new_queued id project plan t ≡ ok (admission id project plan t)
  unfolding try_new_queued
  try_new_queued_of_distinct id project plan t h = ground arith

  admission-IsHistory :
      (id : WorkflowRunId) (project : ProjectId) (plan : WorkflowExecutionPlan)
      (t : WorkflowRunTime)
      → IsHistory {O = O} {C = C} (admission id project plan t)
  unfolding events_from
  admission-IsHistory id project plan t = record {
    created = omega arith;
    begun = refl;
    numbered = ground arith;
    room = omega arith;
  }

  admission-IsShaped :
      (id : WorkflowRunId) (project : ProjectId) (plan : WorkflowExecutionPlan)
      (t : WorkflowRunTime)
      → length (to_set (Plan.node_ids plan.nodes)) ≡ length plan.nodes
      → length (to_set (Plan.execution_ids plan.nodes)) ≡ length plan.nodes
      → IsShaped (admission id project plan t)
  unfolding run_failure_matches
  admission-IsShaped id project plan t named executed =
      let (ids, size, pending) = pending-ids O C plan.nodes in
      record {
        failed_matches = refl;
        planned = pending-planned O C plan.nodes;
        unique = rw (ids, size, executed) (ground arith);
        named =
            distinct_of_length-to_set (Plan.node_ids plan.nodes)
              (ground (arith, named, length-map_names plan.nodes));
        fitting = pending;
      }

  -- A Run that is admitted with a valid plan is well-formed.
  pub try_new_queued-IsWellFormed :
      (id : WorkflowRunId) (project : ProjectId) (w : WorkflowId) (v : WorkflowRevision)
      (scope : WorkflowRunScope) (nodes : List WorkflowPlannedNode) (t : WorkflowRunTime)
      {plan : WorkflowExecutionPlan} {r : WorkflowRunAggregate O C}
      → Plan.try_new w v scope nodes ≡ ok plan
      → try_new_queued id project plan t ≡ ok r
      → IsWellFormed r
  try_new_queued-IsWellFormed id project w v scope nodes t {plan} {r} p e =
      let (admission_of, executed) = try_new_queued-eq id project plan t e in
      let admitted = try_new-IsAdmitted w v scope nodes p in
      let named =
        subst (λ ns. length (to_set (Plan.node_ids ns)) ≡ length ns)
          (sym (nodes-try_new w v scope nodes p)) admitted.named in
      rw admission_of (record {
        history = admission-IsHistory id project plan t;
        shape = admission-IsShaped id project plan t named executed;
      })

  -- The Runs that successful methods lead to from an admission, queued blocking left out.
  pub data Reach : WorkflowRunAggregate O C → Type 0 where
    admitted :
        (id : WorkflowRunId) (project : ProjectId) (w : WorkflowId) (v : WorkflowRevision)
        (scope : WorkflowRunScope) (nodes : List WorkflowPlannedNode) (t : WorkflowRunTime)
        {plan : WorkflowExecutionPlan} {r : WorkflowRunAggregate O C}
        → Plan.try_new w v scope nodes ≡ ok plan
        → try_new_queued id project plan t ≡ ok r
        → Reach r
    applied :
        (c : Command O C) {r r' : WorkflowRunAggregate O C}
        → Reach r
        → blocks_queued c r ≡ false
        → apply c r ≡ (ok tt, r')
        → Reach r'

  pub Reach-IsWellFormed : {r : WorkflowRunAggregate O C} → Reach r → IsWellFormed r
  Reach-IsWellFormed (admitted id project w v scope nodes t p e) =
      try_new_queued-IsWellFormed id project w v scope nodes t p e
  Reach-IsWellFormed (applied c {r} {r'} h q e) =
      subst IsWellFormed (ap (λ x. x.1) e)
        (apply-IsWellFormed c r (ap (λ x. x.0) e) q (Reach-IsWellFormed h))

  -- Every Run that admission and successful methods lead to restores from what is saved of it.
  pub Reach-try_restore :
      {r : WorkflowRunAggregate O C} → Reach r → try_restore (restore_data r) ≡ ok r
  Reach-try_restore {r} h = try_restore-restore_data r (Reach-IsWellFormed h)
