-- ===== src/Workflow/Run/Log.antt =====
-- Every method of the Run keeps its event log valid, and only appends to it.
use oh_my_dream.Common.{◌≡◌, refl, List, [], ◌∷◌}
use oh_my_dream.Common.State.{modify}
use oh_my_dream.Common.Keeps.{
  Keeps, keeps_rules, Keeps-lift, Keeps-gets, Keeps-reads, Keeps-require, Keeps-if, Keeps-bind,
}
use oh_my_dream.Workflow.Value.{
  WorkflowRunTime, WorkflowNodeId, WorkflowNodeExecutionId, WorkflowRunState, WorkflowDomainError,
}
use oh_my_dream.Workflow.Run.{WorkflowRunAggregate, WorkflowRunEventPayload}
use oh_my_dream.Workflow.Run.Transition
use oh_my_dream.Workflow.Run.Transition.{
  push_event, ensure_event_can_be_recorded, node_mut, set_node, Node, hand_off, start_from,
}
use oh_my_dream.Workflow.Run.Conclude
use oh_my_dream.Workflow.Run.Conclude.{
  run_transition_error, push_cancelled, finish_with, cancel_active, cancel_from,
}
use oh_my_dream.Workflow.Run.Command.{Command, interrupt_by_restart, apply}
use oh_my_dream.Workflow.Run.History.{IsHistory, push_event-IsHistory}

module _ {O C : Type 0} where
  push_event-Keeps :
      (t : WorkflowRunTime) (p : WorkflowRunEventPayload O C) → Keeps IsHistory (push_event t p)
  push_event-Keeps t p = record { at = push_event-IsHistory t p }

  ensure-Keeps :
      (t : WorkflowRunTime)
      → Keeps {S = WorkflowRunAggregate O C} IsHistory (ensure_event_can_be_recorded t)
  unfolding ensure_event_can_be_recorded
  ensure-Keeps t = search keeps_rules

  node_mut-Keeps :
      (id : WorkflowNodeExecutionId) → Keeps {S = WorkflowRunAggregate O C} IsHistory (node_mut id)
  unfolding node_mut
  node_mut-Keeps id = search keeps_rules

  -- A write outside the log and the times.
  modify-Keeps :
      (f : WorkflowRunAggregate O C → WorkflowRunAggregate O C)
      → ((r : WorkflowRunAggregate O C)
          → (((f r).events ≡ r.events) × ((f r).run_id ≡ r.run_id))
            × ((f r).created_at ≡ r.created_at)
            × ((f r).updated_at ≡ r.updated_at))
      → Keeps {E = WorkflowDomainError} IsHistory (modify f)
  unfolding modify
  modify-Keeps f same = record {
    at = λ r h.
        let (ids, c, u) = same r in
        record {
          created = rw (c, u) h.created;
          begun = rw ids.0 h.begun;
          numbered = rw (ids.0, ids.1, c, u) h.numbered;
          room = rw ids.0 h.room;
        };
  }

  set_node-Keeps : (id : WorkflowNodeExecutionId) (v : Node O C) → Keeps IsHistory (set_node id v)
  unfolding set_node
  set_node-Keeps id v = modify-Keeps _ (λ r. ((refl, refl), refl, refl))

  push_cancelled-Keeps :
      (t : WorkflowRunTime) (ids : List WorkflowNodeExecutionId)
      → Keeps {S = WorkflowRunAggregate O C} IsHistory (push_cancelled t ids)
  unfolding push_cancelled
  push_cancelled-Keeps t [] = search keeps_rules
  push_cancelled-Keeps t (id ∷ ids) =
      Keeps-bind _ _ (push_event-Keeps t _) (λ _. push_cancelled-Keeps t ids)

  ruleset history_rules = (
    Keeps-lift, Keeps-gets, Keeps-reads, Keeps-require, Keeps-if, Keeps-bind, push_event-Keeps,
    ensure-Keeps, node_mut-Keeps, set_node-Keeps, push_cancelled-Keeps,
  )

  start_from-Keeps :
      (t : WorkflowRunTime) (state : WorkflowRunState)
      → Keeps {S = WorkflowRunAggregate O C} IsHistory (start_from t state)
  unfolding start_from
  start_from-Keeps t WorkflowRunState.queued =
      Keeps-bind _ _ (modify-Keeps _ (λ r. ((refl, refl), refl, refl))) (λ _. push_event-Keeps t _)
  start_from-Keeps t _ = search history_rules

  hand_off-Keeps :
      (id : WorkflowNodeExecutionId) (t : WorkflowRunTime)
      → Keeps {S = WorkflowRunAggregate O C} IsHistory (hand_off id t)
  unfolding hand_off
  hand_off-Keeps id t = search history_rules

  finish_with-Keeps :
      (ids : List WorkflowNodeId) (t : WorkflowRunTime)
      → Keeps {S = WorkflowRunAggregate O C} IsHistory (finish_with ids t)
  unfolding finish_with
  finish_with-Keeps [] t = Keeps-bind _ _ (Keeps-require _ _) (λ _.
      Keeps-bind _ _ (modify-Keeps _ (λ r. ((refl, refl), refl, refl))) (λ _. push_event-Keeps t _))
  finish_with-Keeps (id ∷ ids) t =
      Keeps-bind _ _ (modify-Keeps _ (λ r. ((refl, refl), refl, refl))) (λ _. push_event-Keeps t _)

  cancel_active-Keeps :
      (t : WorkflowRunTime) → Keeps {S = WorkflowRunAggregate O C} IsHistory (cancel_active t)
  unfolding cancel_active
  cancel_active-Keeps t = Keeps-bind _ _ (Keeps-gets _) (λ ids.
      Keeps-bind _ _ (modify-Keeps _ (λ r. ((refl, refl), refl, refl))) (λ _.
        Keeps-bind _ _ (push_cancelled-Keeps t ids) (λ _.
          Keeps-bind _ _ (modify-Keeps _ (λ r. ((refl, refl), refl, refl)))
            (λ _. push_event-Keeps t _))))

  cancel_from-Keeps :
      (t : WorkflowRunTime) (state : WorkflowRunState)
      → Keeps {S = WorkflowRunAggregate O C} IsHistory (cancel_from t state)
  unfolding cancel_from
  cancel_from-Keeps t WorkflowRunState.queued = cancel_active-Keeps t
  cancel_from-Keeps t WorkflowRunState.running = cancel_active-Keeps t
  cancel_from-Keeps t _ = search history_rules

  interrupt_by_restart-Keeps :
      (t : WorkflowRunTime)
      → Keeps {S = WorkflowRunAggregate O C} IsHistory (Conclude.interrupt_by_restart t)
  unfolding Conclude.interrupt_by_restart
  interrupt_by_restart-Keeps t = Keeps-bind _ _ (ensure-Keeps t) (λ _.
      Keeps-bind _ _ (Keeps-require _ _) (λ _.
        Keeps-bind _ _ (modify-Keeps _ (λ r. ((refl, refl), refl, refl)))
          (λ _. push_event-Keeps t _)))

  -- Every method keeps the event log numbered from 1 without gaps, in time order and within the
  -- times of the Run, also when it returns an error.
  pub apply-Keeps : (c : Command O C) → Keeps IsHistory (apply c)
  unfolding apply Transition.start Transition.start_node Transition.progress_node
      Transition.wait_node_for_external_completion Transition.succeed_node Transition.fail_node
      Transition.block_node Conclude.finish Conclude.cancel run_transition_error
  apply-Keeps (interrupt_by_restart t) = interrupt_by_restart-Keeps t
  apply-Keeps _ =
      search (history_rules, start_from-Keeps, hand_off-Keeps, finish_with-Keeps, cancel_from-Keeps)
        depth 12
