-- ===== src/Workflow/Value/RunState.antt =====
-- The comparisons of a `WorkflowRunState` that the source writes with `==` and `matches!`.
use oh_my_dream.Common.{Bool, true, false}
use oh_my_dream.Workflow.Value.{WorkflowRunState}

abbrev pub is_queued : WorkflowRunState → Bool
is_queued WorkflowRunState.queued = true
is_queued _ = false

abbrev pub is_running : WorkflowRunState → Bool
is_running WorkflowRunState.running = true
is_running _ = false

abbrev pub is_cancelled : WorkflowRunState → Bool
is_cancelled WorkflowRunState.cancelled = true
is_cancelled _ = false

abbrev pub is_failed : WorkflowRunState → Bool
is_failed WorkflowRunState.failed = true
is_failed _ = false

abbrev pub is_terminal : WorkflowRunState → Bool
is_terminal WorkflowRunState.queued = false
is_terminal WorkflowRunState.running = false
is_terminal _ = true
