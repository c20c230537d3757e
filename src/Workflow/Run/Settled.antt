-- ===== src/Workflow/Run/Settled.antt =====
-- Ended Runs: which of them no method changes, and the two calls that the Run does not guard.
use oh_my_dream.Common.{◌≡◌, Bool, true, false, not, ◌&&◌, Option, none, some, List, arith}
use oh_my_dream.Common.State.{◌>>=◌}
use oh_my_dream.Workflow.Value.{WorkflowNodeExecutionId, WorkflowRunState}
use oh_my_dream.Workflow.Value.RunState
use oh_my_dream.Workflow.Value.NodeState
use oh_my_dream.Workflow.Run.{WorkflowRunAggregate, WorkflowRunFailure, interrupted_by_restart}
use oh_my_dream.Workflow.Run.Transition.{Node, find_node}
use oh_my_dream.Workflow.Run.Restore.{nodes_fit}
use oh_my_dream.Workflow.Run.Conclude
use oh_my_dream.Workflow.Run.Command.{
  Command, start, start_node, progress_node, wait_node, succeed_node, fail_node, block_node, finish,
  interrupt_by_restart, cancel, apply,
}
use oh_my_dream.Workflow.Run.Machine
use oh_my_dream.Workflow.Run.Machine.{NodeMethod, stay, write, NodeStep, ensure-same}
use oh_my_dream.Workflow.Run.Shape.{IsShaped, NodeStep-active, all-find_node}
use oh_my_dream.Workflow.Run.Endings.{start-cases}
use oh_my_dream.Workflow.Run.Invariant.{IsWellFormed}

abbrev pub is_interrupted : Option WorkflowRunFailure → Bool
is_interrupted (some interrupted_by_restart) = true
is_interrupted _ = false

module _ {O C : Type 0} where
  -- Ended by its own nodes or by cancellation, not by a restart.
  abbrev pub is_settled : WorkflowRunAggregate O C → Bool
  is_settled r = RunState.is_terminal r.state && not (is_interrupted r.failure)

  -- A settled Run has no active node.
  settled_inactive :
      (st : WorkflowRunState) (fl : Option WorkflowRunFailure) (id : WorkflowNodeExecutionId)
      (n : Node O C) (ns : List (Node O C))
      → nodes_fit st fl ns ≡ true
      → (RunState.is_terminal st && not (is_interrupted fl)) ≡ true
      → find_node id ns ≡ some n
      → NodeState.is_active n.state ≡ false
  settled_inactive WorkflowRunState.succeeded none id n ns h s e =
      ground (arith, all-find_node (λ m. NodeState.is_succeeded m.state) id n ns)
  settled_inactive st fl id n ns h s e =
      ground (arith, all-find_node (λ m. not (NodeState.is_active m.state)) id n ns)

  NodeMethod-settled :
      (b : Bool) (r r' : WorkflowRunAggregate O C)
      → IsShaped r
      → is_settled r ≡ true
      → NodeMethod b r r'
      → r' ≡ r
  NodeMethod-settled b r r' h s (stay same) = same
  NodeMethod-settled b r r' h s (write id n v t p e step out) = absurd (
      ground (
        arith,
        NodeStep-active n v step,
        settled_inactive r.state r.failure id n r.node_executions h.fitting s e,
      ))

  -- No method changes a Run that has succeeded, was cancelled, or failed by its nodes.
  pub apply_settled :
      (c : Command O C) (r : WorkflowRunAggregate O C)
      → IsWellFormed r
      → is_settled r ≡ true
      → (apply c r).1 ≡ r
  unfolding apply Conclude.finish Conclude.interrupt_by_restart Conclude.cancel Conclude.cancel_from
      Conclude.run_transition_error ◌>>=◌
  apply_settled (start t) r h s = ground (arith, start-cases t r)
  apply_settled (start_node id t) r h s =
      NodeMethod-settled false r _ h.shape s (Machine.start_node-NodeMethod id t r)
  apply_settled (progress_node id p t) r h s =
      NodeMethod-settled false r _ h.shape s (Machine.progress_node-NodeMethod id t r p)
  apply_settled (wait_node id t) r h s =
      NodeMethod-settled false r _ h.shape s (Machine.wait_node-NodeMethod id t r)
  apply_settled (succeed_node id o t) r h s =
      NodeMethod-settled false r _ h.shape s (Machine.succeed_node-NodeMethod id t r o)
  apply_settled (fail_node id f t) r h s =
      NodeMethod-settled false r _ h.shape s (Machine.fail_node-NodeMethod id t r f)
  apply_settled (block_node id ids t) r h s =
      NodeMethod-settled true r _ h.shape s (Machine.block_node-NodeMethod id t r ids)
  apply_settled (finish t) r h s = ground (arith, ensure-same t r)
  apply_settled (interrupt_by_restart t) r h s = ground (arith, ensure-same t r)
  apply_settled (cancel t) r h s = ground (arith, ensure-same t r)
