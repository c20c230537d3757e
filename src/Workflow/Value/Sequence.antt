-- ===== src/Workflow/Value/Sequence.antt =====
-- The event sequence of crates/engine/src/workflow/value.rs.
use oh_my_dream.Common.{ℕ, ◌+◌, ◌^◌, Result, ok, err, ltb, ◌==◌, if◌then◌else◌}
use oh_my_dream.Workflow.Value.{
  WorkflowRunEventSequence, WorkflowDomainError, workflow_run_event_sequence_overflow,
  invalid_workflow_run_value,
}

-- `checked_add(1)`
unfoldable pub next : WorkflowRunEventSequence → Result WorkflowDomainError WorkflowRunEventSequence
next s = if ltb (s + 1) (2 ^ 64) then ok (s + 1) else err workflow_run_event_sequence_overflow

unfoldable pub new : ℕ → Result WorkflowDomainError WorkflowRunEventSequence
new value = if value == 0 then err invalid_workflow_run_value else ok value
