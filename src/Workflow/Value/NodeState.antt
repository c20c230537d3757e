-- ===== src/Workflow/Value/NodeState.antt =====
-- The comparisons of a `WorkflowNodeExecutionState` that the source writes with `==` and `matches!`.
use oh_my_dream.Common.{Bool, true, false}
use oh_my_dream.Workflow.Value.{WorkflowNodeExecutionState}

abbrev pub is_pending : WorkflowNodeExecutionState → Bool
is_pending WorkflowNodeExecutionState.pending = true
is_pending _ = false

abbrev pub is_running : WorkflowNodeExecutionState → Bool
is_running WorkflowNodeExecutionState.running = true
is_running _ = false

abbrev pub is_waiting : WorkflowNodeExecutionState → Bool
is_waiting WorkflowNodeExecutionState.waiting_for_external_completion = true
is_waiting _ = false

-- `Running | WaitingForExternalCompletion`
abbrev pub is_started : WorkflowNodeExecutionState → Bool
is_started WorkflowNodeExecutionState.running = true
is_started WorkflowNodeExecutionState.waiting_for_external_completion = true
is_started _ = false

-- `Pending | Running | WaitingForExternalCompletion`
abbrev pub is_active : WorkflowNodeExecutionState → Bool
is_active WorkflowNodeExecutionState.pending = true
is_active WorkflowNodeExecutionState.running = true
is_active WorkflowNodeExecutionState.waiting_for_external_completion = true
is_active _ = false

abbrev pub is_succeeded : WorkflowNodeExecutionState → Bool
is_succeeded WorkflowNodeExecutionState.succeeded = true
is_succeeded _ = false

abbrev pub is_failed : WorkflowNodeExecutionState → Bool
is_failed WorkflowNodeExecutionState.failed = true
is_failed _ = false
