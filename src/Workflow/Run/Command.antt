-- ===== src/Workflow/Run/Command.antt =====
-- The methods of the Run as one command type, for statements about all of them.
use oh_my_dream.Common.{ℕ, List}
use oh_my_dream.Workflow.Value.{WorkflowNodeId, WorkflowNodeExecutionId, WorkflowRunTime}
use oh_my_dream.Workflow.Run.{WorkflowNodeExecutionFailure}
use oh_my_dream.Workflow.Run.Transition
use oh_my_dream.Workflow.Run.Transition.{Method}
use oh_my_dream.Workflow.Run.Conclude

pub data Command (O C : Type 0) : Type 0 where
  start : WorkflowRunTime → Command O C
  start_node : WorkflowNodeExecutionId → WorkflowRunTime → Command O C
  progress_node : WorkflowNodeExecutionId → ℕ → WorkflowRunTime → Command O C
  wait_node : WorkflowNodeExecutionId → WorkflowRunTime → Command O C
  succeed_node : WorkflowNodeExecutionId → O → WorkflowRunTime → Command O C
  fail_node :
      WorkflowNodeExecutionId → WorkflowNodeExecutionFailure C → WorkflowRunTime → Command O C
  block_node : WorkflowNodeExecutionId → List WorkflowNodeId → WorkflowRunTime → Command O C
  finish : WorkflowRunTime → Command O C
  interrupt_by_restart : WorkflowRunTime → Command O C
  cancel : WorkflowRunTime → Command O C

unfoldable pub apply : {O C : Type 0} → Command O C → Method O C Unit
apply (start t) = Transition.start t
apply (start_node id t) = Transition.start_node id t
apply (progress_node id p t) = Transition.progress_node id p t
apply (wait_node id t) = Transition.wait_node_for_external_completion id t
apply (succeed_node id outputs t) = Transition.succeed_node id outputs t
apply (fail_node id failure t) = Transition.fail_node id failure t
apply (block_node id upstream t) = Transition.block_node id upstream t
apply (finish t) = Conclude.finish t
apply (interrupt_by_restart t) = Conclude.interrupt_by_restart t
apply (cancel t) = Conclude.cancel t
