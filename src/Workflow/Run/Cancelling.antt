-- ===== src/Workflow/Run/Cancelling.antt =====
-- `cancel`: what a successful cancellation does, and that it succeeds.
use oh_my_dream.Common.{
  ◌≡◌, refl, ◌∙◌, ◌⊎◌, inl, inr, true, false, not, List, [], ◌∷◌, all, length, ok, arith,
}
use oh_my_dream.Common.State.{◌>>=◌}
use oh_my_dream.Workflow.Value.{WorkflowNodeExecutionId, WorkflowRunTime, WorkflowRunState}
use oh_my_dream.Workflow.Value.RunState
use oh_my_dream.Workflow.Value.NodeState
use oh_my_dream.Workflow.Plan.{WorkflowPlannedNode}
use oh_my_dream.Workflow.Run.{WorkflowRunAggregate, run_cancelled, node_cancelled}
use oh_my_dream.Workflow.Run.Transition.{Node, push_event}
use oh_my_dream.Workflow.Run.Conclude.{
  cancel, cancel_from, cancel_active, cancel_nodes, push_cancelled, active_ids,
}
use oh_my_dream.Workflow.Run.Restore.{run_failure_matches, node_shape_is_valid, nodes_match_plan}
use oh_my_dream.Workflow.Run.Machine.{ensure-same}
use oh_my_dream.Workflow.Run.Shape.{IsShaped, execution_ids, push_event-IsShaped, push_event-same}
use oh_my_dream.Workflow.Run.Endings.{failure-none}

module _ {O C : Type 0} where
  pub push_cancelled-same :
      (t : WorkflowRunTime) (ids : List WorkflowNodeExecutionId) (r : WorkflowRunAggregate O C)
      → ((push_cancelled t ids r).1.state ≡ r.state)
        × ((push_cancelled t ids r).1.failure ≡ r.failure)
        × ((push_cancelled t ids r).1.plan ≡ r.plan)
        × ((push_cancelled t ids r).1.node_executions ≡ r.node_executions)
  unfolding push_cancelled ◌>>=◌
  push_cancelled-same t [] r = (refl, refl, refl, refl)
  push_cancelled-same t (id ∷ ids) r = ground (
    arith,
    push_event-same t (node_cancelled id) r,
    push_cancelled-same t ids (push_event t (node_cancelled id) r).1,
  )

  cancel_nodes-planned :
      (t : WorkflowRunTime) (ps : List WorkflowPlannedNode) (ns : List (Node O C))
      → nodes_match_plan ps ns ≡ true
      → nodes_match_plan ps (cancel_nodes t ns) ≡ true
  unfolding nodes_match_plan cancel_nodes node_shape_is_valid
  cancel_nodes-planned t [] [] h = refl
  cancel_nodes-planned t [] (n ∷ ns) h = cc
  cancel_nodes-planned t (p ∷ ps) [] h = cc
  cancel_nodes-planned t (p ∷ ps) (n ∷ ns) h = ground (arith, cancel_nodes-planned t ps ns)

  execution_ids-cancel_nodes :
      (t : WorkflowRunTime) (ns : List (Node O C))
      → (execution_ids (cancel_nodes t ns) ≡ execution_ids ns)
        × (length (cancel_nodes t ns) ≡ length ns)
  unfolding cancel_nodes
  execution_ids-cancel_nodes t [] = (refl, refl)
  execution_ids-cancel_nodes t (n ∷ ns) = ground (arith, execution_ids-cancel_nodes t ns)

  -- After the pass no node is active.
  cancel_nodes_inactive :
      (t : WorkflowRunTime) (ns : List (Node O C))
      → all (λ n. not (NodeState.is_active n.state)) (cancel_nodes t ns) ≡ true
  unfolding cancel_nodes
  cancel_nodes_inactive t [] = refl
  cancel_nodes_inactive t (n ∷ ns) = ground (arith, cancel_nodes_inactive t ns)

  -- The Run with its cancelled nodes and their events, before its own state changes.
  abbrev pub nodes_cancelled : WorkflowRunTime → WorkflowRunAggregate O C → WorkflowRunAggregate O C
  nodes_cancelled t r =
      (push_cancelled t (active_ids r.node_executions)
        (record r { node_executions = cancel_nodes t r.node_executions })).1

  pub cancel-cases :
      (t : WorkflowRunTime) (r : WorkflowRunAggregate O C)
      → (cancel t r).0 ≡ ok tt
      → ((r.state ≡ WorkflowRunState.cancelled) × ((cancel t r).1 ≡ r))
        ⊎ ((RunState.is_terminal r.state ≡ false)
            × ((cancel t r).1
                ≡ (push_event t run_cancelled
                    (record (nodes_cancelled t r) { state = WorkflowRunState.cancelled })).1))
  unfolding cancel cancel_from cancel_active ◌>>=◌
  cancel-cases t r h = ground (arith, ensure-same t r)

  pub cancel-IsShaped :
      (t : WorkflowRunTime) (r : WorkflowRunAggregate O C)
      → (cancel t r).0 ≡ ok tt
      → IsShaped r
      → IsShaped (cancel t r).1
  unfolding run_failure_matches
  cancel-IsShaped t r done h = elim (cancel-cases t r done) [
    | inl (q, same) ↦ rw same h
    | inr (live, out) ↦
        let ns = r.node_executions in
        let r' = record r { node_executions = cancel_nodes t ns } in
        let (st, fl, pl, ms) = push_cancelled-same t (active_ids ns) r' in
        let (ids, size) = execution_ids-cancel_nodes t ns in
        let e = fl ∙ failure-none r h (ground arith) in
        rw out (
          push_event-IsShaped t run_cancelled _ (record {
            failed_matches = rw e refl;
            planned = rw (pl, ms) (cancel_nodes-planned t r.plan.nodes ns h.planned);
            unique = rw (ms, ids, size) h.unique;
            named = rw pl h.named;
            fitting = rw (e, ms) (cancel_nodes_inactive t ns);
          }))
  ]
