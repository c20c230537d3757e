-- ===== src/Workflow/Run/Atomic.antt =====
-- What a method of the Run leaves behind when it returns an error.
use oh_my_dream.Common.{◌≡◌, Bool, true, false, err, arith}
use oh_my_dream.Common.State.{◌>>=◌}
use oh_my_dream.Workflow.Value.{WorkflowDomainError}
use oh_my_dream.Workflow.Run.{WorkflowRunAggregate}
use oh_my_dream.Workflow.Run.Transition.{
  push_event, ensure_event_can_be_recorded, node_mut, set_node, find_node,
}
use oh_my_dream.Workflow.Run.Transition
use oh_my_dream.Workflow.Run.Conclude.{failed_node_ids, run_transition_error}
use oh_my_dream.Workflow.Run.Conclude
use oh_my_dream.Workflow.Run.Command.{Command, cancel, start, apply}

abbrev pub is_cancel : {O C : Type 0} → Command O C → Bool
is_cancel (cancel t) = true
is_cancel _ = false

module _ {O C : Type 0} where
  -- A method other than `cancel` that returns an error leaves the Run as it was.
  pub apply_error_unchanged :
      (c : Command O C) (r : WorkflowRunAggregate O C) {e : WorkflowDomainError}
      → is_cancel c ≡ false
      → (apply c r).0 ≡ err e
      → (apply c r).1 ≡ r
  unfolding ◌>>=◌ apply push_event ensure_event_can_be_recorded node_mut set_node Transition.start
      Transition.start_from Transition.hand_off Conclude.finish_with Transition.start_node
      Transition.progress_node Transition.wait_node_for_external_completion Transition.succeed_node
      Transition.fail_node Transition.block_node Conclude.finish Conclude.interrupt_by_restart
      run_transition_error
  apply_error_unchanged (start t) r n h = ground arith
  apply_error_unchanged _ r n h = ground arith
