-- ===== src/Workflow/Run/Endings.antt =====
-- The methods that change the state of the whole Run keep its shape.
use oh_my_dream.Common.{
  ◌≡◌, refl, ◌⊎◌, inl, inr, Bool, true, false, not, Option, none, some, List, [], ◌∷◌, map, all,
  any, is_empty, is_ascending, arith,
}
use oh_my_dream.Common.Distinct.{sort_unstable-is_ascending, distinct-map-filter}
use oh_my_dream.Common.Sorting.{list_eq_self}
use oh_my_dream.Common.State.{◌>>=◌}
use oh_my_dream.Workflow.Value.{WorkflowRunTime, WorkflowRunState}
use oh_my_dream.Workflow.Value.RunState
use oh_my_dream.Workflow.Value.NodeState
use oh_my_dream.Workflow.Plan.{WorkflowPlannedNode}
use oh_my_dream.Workflow.Run.{
  WorkflowRunAggregate, WorkflowRunFailure, node_execution_failed, interrupted_by_restart,
  run_started, run_succeeded, run_failed,
}
use oh_my_dream.Workflow.Run.Transition.{Node, push_event, start, start_from}
use oh_my_dream.Workflow.Run.Conclude.{
  failed_node_ids, finish, finish_with, interrupt_by_restart, run_transition_error,
}
use oh_my_dream.Workflow.Run.Restore.{run_failure_matches, nodes_match_plan, nodes_fit}
use oh_my_dream.Workflow.Run.Shape.{IsShaped, push_event-IsShaped}
use oh_my_dream.Workflow.Run.Machine.{ensure-same}

module _ {O C : Type 0} where
  pub with_state-IsShaped :
      (r : WorkflowRunAggregate O C) (st : WorkflowRunState) (fl : Option WorkflowRunFailure)
      → run_failure_matches st fl ≡ true
      → nodes_fit st fl r.node_executions ≡ true
      → IsShaped r
      → IsShaped (record r { state = st; failure = fl })
  with_state-IsShaped r st fl m f h = record {
    failed_matches = m;
    planned = h.planned;
    unique = h.unique;
    named = h.named;
    fitting = f;
  }

  -- Without a failed state there is no failure.
  pub failure-none :
      (r : WorkflowRunAggregate O C)
      → IsShaped r
      → RunState.is_failed r.state ≡ false
      → r.failure ≡ none
  unfolding run_failure_matches
  failure-none r h e = ground (arith, h.failed_matches)

  pub start-cases :
      (t : WorkflowRunTime) (r : WorkflowRunAggregate O C)
      → ((start t r).1 ≡ r)
        ⊎ ((r.state ≡ WorkflowRunState.queued)
            × ((start t r).1
                ≡ (push_event t run_started (record r { state = WorkflowRunState.running })).1))
  unfolding start start_from ◌>>=◌
  start-cases t r = ground (arith, ensure-same t r)

  pub start-IsShaped :
      (t : WorkflowRunTime) (r : WorkflowRunAggregate O C) → IsShaped r → IsShaped (start t r).1
  unfolding run_failure_matches
  start-IsShaped t r h = elim (start-cases t r) [
    | inl same ↦ rw same h
    | inr (q, out) ↦
        let e = failure-none r h (ground arith) in
        rw out (
          push_event-IsShaped t run_started _
            (with_state-IsShaped r WorkflowRunState.running r.failure (rw e refl) (rw e refl) h))
  ]

  pub interrupt-cases :
      (t : WorkflowRunTime) (r : WorkflowRunAggregate O C)
      → ((interrupt_by_restart t r).1 ≡ r)
        ⊎ ((interrupt_by_restart t r).1
            ≡ (push_event t (run_failed interrupted_by_restart) (record r {
              state = WorkflowRunState.failed;
              failure = some interrupted_by_restart;
            })).1)
  unfolding interrupt_by_restart ◌>>=◌
  interrupt-cases t r = ground (arith, ensure-same t r)

  pub interrupt-IsShaped :
      (t : WorkflowRunTime) (r : WorkflowRunAggregate O C)
      → IsShaped r
      → IsShaped (interrupt_by_restart t r).1
  unfolding run_failure_matches
  interrupt-IsShaped t r h = elim (interrupt-cases t r) [
    | inl same ↦ rw same h
    | inr out ↦ rw out (
        push_event-IsShaped t (run_failed interrupted_by_restart) _
          (with_state-IsShaped r WorkflowRunState.failed (some interrupted_by_restart) refl refl h))
  ]

  -- What `finish` does: nothing, success of all nodes, or failure with the failed nodes.
  finish-cases :
      (t : WorkflowRunTime) (r : WorkflowRunAggregate O C)
      → ((finish t r).1 ≡ r)
        ⊎ ((r.state ≡ WorkflowRunState.running)
            × (all (λ n. NodeState.is_succeeded n.state) r.node_executions ≡ true)
            × ((finish t r).1
                ≡ (push_event t run_succeeded (record r { state = WorkflowRunState.succeeded })).1))
        ⊎ ((any (λ n. NodeState.is_active n.state) r.node_executions ≡ false)
            × (is_empty (failed_node_ids r.node_executions) ≡ false)
            × ((finish t r).1
                ≡ (push_event t
                    (run_failed (node_execution_failed (failed_node_ids r.node_executions)))
                    (record r {
                      state = WorkflowRunState.failed;
                      failure = some (node_execution_failed (failed_node_ids r.node_executions));
                    })).1))
  unfolding finish finish_with run_transition_error ◌>>=◌
  finish-cases t r = ground (arith, ensure-same t r)

  not-any-all :
      (p : Node O C → Bool) (ns : List (Node O C))
      → any p ns ≡ false
      → all (λ n. not (p n)) ns ≡ true
  not-any-all p [] h = refl
  not-any-all p (n ∷ ns) h = ground (arith, not-any-all p ns)

  node_ids-planned :
      (ps : List WorkflowPlannedNode) (ns : List (Node O C))
      → nodes_match_plan ps ns ≡ true
      → map (λ n. n.node_id) ns ≡ map (λ p. p.node_id) ps
  unfolding nodes_match_plan
  node_ids-planned [] [] h = refl
  node_ids-planned [] (n ∷ ns) h = cc
  node_ids-planned (p ∷ ps) [] h = cc
  node_ids-planned (p ∷ ps) (n ∷ ns) h = ground (arith, node_ids-planned ps ns)

  -- The failed nodes of a Run come out without repetition.
  failed_node_ids-is_ascending :
      (r : WorkflowRunAggregate O C)
      → IsShaped r
      → is_ascending (failed_node_ids r.node_executions) ≡ true
  unfolding failed_node_ids
  failed_node_ids-is_ascending r h = sort_unstable-is_ascending _ (
      distinct-map-filter (λ n. n.node_id) (λ n. NodeState.is_failed n.state) r.node_executions
        (rw (node_ids-planned r.plan.nodes r.node_executions h.planned) h.named))

  pub finish-IsShaped :
      (t : WorkflowRunTime) (r : WorkflowRunAggregate O C) → IsShaped r → IsShaped (finish t r).1
  unfolding run_failure_matches
  finish-IsShaped t r h = elim (finish-cases t r) [
    | inl same ↦ rw same h
    | inr (inl (q, won, out)) ↦
        let e = failure-none r h (ground arith) in
        rw out (
          push_event-IsShaped t run_succeeded _
            (with_state-IsShaped r WorkflowRunState.succeeded r.failure (rw e refl) (rw e won) h))
    | inr (inr (over, some_failed, out)) ↦
        let ns = r.node_executions in
        rw out (
          push_event-IsShaped t (run_failed (node_execution_failed (failed_node_ids ns))) _ (
            with_state-IsShaped r WorkflowRunState.failed
              (some (node_execution_failed (failed_node_ids ns))) refl
              (ground (
                arith,
                not-any-all (λ n. NodeState.is_active n.state) ns over,
                failed_node_ids-is_ascending r h,
                list_eq_self (failed_node_ids ns),
              ))
              h))
  ]
