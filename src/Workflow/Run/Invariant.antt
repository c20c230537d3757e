-- ===== src/Workflow/Run/Invariant.antt =====
-- The invariant of the Run, kept by every method, and what it means for restoring.
use oh_my_dream.Common.{◌≡◌, refl, Bool, true, false, ok, arith}
use oh_my_dream.Workflow.Value.RunState
use oh_my_dream.Workflow.Run.{WorkflowRunAggregate}
use oh_my_dream.Workflow.Run.Restore.{
  validate_run_shape, try_restore, restore_data, run_and_nodes_match, events_are_valid,
}
use oh_my_dream.Workflow.Run.Command.{
  Command, start, start_node, progress_node, wait_node, succeed_node, fail_node, block_node, finish,
  interrupt_by_restart, cancel, apply,
}
use oh_my_dream.Workflow.Run.History.{IsHistory}
use oh_my_dream.Workflow.Run.Log.{apply-Keeps}
use oh_my_dream.Workflow.Run.Machine
use oh_my_dream.Workflow.Run.Shape.{IsShaped, NodeMethod-IsShaped}
use oh_my_dream.Workflow.Run.Endings.{start-IsShaped, finish-IsShaped, interrupt-IsShaped}
use oh_my_dream.Workflow.Run.Cancelling.{cancel-IsShaped}

module _ {O C : Type 0} where
  pub record IsWellFormed (r : WorkflowRunAggregate O C) : Type 0 where
    pub history : IsHistory r
    pub shape : IsShaped r

  -- The call that the Run does not guard: blocking a node before the Run has started.
  abbrev pub blocks_queued : Command O C → WorkflowRunAggregate O C → Bool
  blocks_queued (block_node id ids t) r = RunState.is_queued r.state
  blocks_queued _ r = false

  apply-IsShaped :
      (c : Command O C) (r : WorkflowRunAggregate O C)
      → (apply c r).0 ≡ ok tt
      → blocks_queued c r ≡ false
      → IsShaped r
      → IsShaped (apply c r).1
  unfolding apply
  apply-IsShaped (start t) r e q h = start-IsShaped t r h
  apply-IsShaped (start_node id t) r e q h =
      NodeMethod-IsShaped false r _ refl (Machine.start_node-NodeMethod id t r) h
  apply-IsShaped (progress_node id p t) r e q h =
      NodeMethod-IsShaped false r _ refl (Machine.progress_node-NodeMethod id t r p) h
  apply-IsShaped (wait_node id t) r e q h =
      NodeMethod-IsShaped false r _ refl (Machine.wait_node-NodeMethod id t r) h
  apply-IsShaped (succeed_node id o t) r e q h =
      NodeMethod-IsShaped false r _ refl (Machine.succeed_node-NodeMethod id t r o) h
  apply-IsShaped (fail_node id f t) r e q h =
      NodeMethod-IsShaped false r _ refl (Machine.fail_node-NodeMethod id t r f) h
  apply-IsShaped (block_node id ids t) r e q h =
      NodeMethod-IsShaped true r _ q (Machine.block_node-NodeMethod id t r ids) h
  apply-IsShaped (finish t) r e q h = finish-IsShaped t r h
  apply-IsShaped (interrupt_by_restart t) r e q h = interrupt-IsShaped t r h
  apply-IsShaped (cancel t) r e q h = cancel-IsShaped t r e h

  -- A method that returns successfully keeps the invariant, unless it blocks a node of a queued Run.
  pub apply-IsWellFormed :
      (c : Command O C) (r : WorkflowRunAggregate O C)
      → (apply c r).0 ≡ ok tt
      → blocks_queued c r ≡ false
      → IsWellFormed r
      → IsWellFormed (apply c r).1
  apply-IsWellFormed c r e q h = record {
    history = (apply-Keeps c).at r h.history;
    shape = apply-IsShaped c r e q h.shape;
  }

  validate-IsWellFormed :
      (r : WorkflowRunAggregate O C) → IsWellFormed r → validate_run_shape (restore_data r) ≡ ok tt
  unfolding validate_run_shape restore_data run_and_nodes_match events_are_valid
  validate-IsWellFormed r h = ground (
    arith, h.history.created, h.history.begun, h.history.numbered, h.shape.failed_matches,
    h.shape.planned, h.shape.unique, h.shape.fitting,
  )

  -- What is saved of a well-formed Run restores to that Run.
  pub try_restore-restore_data :
      (r : WorkflowRunAggregate O C) → IsWellFormed r → try_restore (restore_data r) ≡ ok r
  unfolding try_restore
  try_restore-restore_data r h =
      let valid = validate-IsWellFormed r h in unfold restore_data in ground arith
