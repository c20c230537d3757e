-- ===== src/Tasks/State.antt =====
-- crates/tasks/src/generation_task/domain/state.rs
use oh_my_dream.Common.{ℕ, Bool, true, false, Option, none, some}
use oh_my_dream.Tasks.Identity.{Utf8, GenerationTaskTimestamp}
use oh_my_dream.Tasks.Failure.{GenerationTaskFailure}

pub data GenerationTaskState : Type 0 where
  queued : GenerationTaskState
  submitting : GenerationTaskState
  running : (handle : Utf8) (progress_percent : Option ℕ) → GenerationTaskState
  cancel_requested : (handle : Option Utf8) → GenerationTaskState
  succeeded : (completed_at : GenerationTaskTimestamp) → GenerationTaskState
  failed :
      (completed_at : GenerationTaskTimestamp) (failure : GenerationTaskFailure)
      → GenerationTaskState
  cancelled : (completed_at : GenerationTaskTimestamp) → GenerationTaskState

unfoldable pub is_terminal : GenerationTaskState → Bool
is_terminal (succeeded t) = true
is_terminal (failed t f) = true
is_terminal (cancelled t) = true
is_terminal _ = false

unfoldable pub progress_percent : GenerationTaskState → Option ℕ
progress_percent (running handle progress) = progress
progress_percent _ = none

unfoldable pub remote_handle : GenerationTaskState → Option Utf8
remote_handle (running handle progress) = some handle
remote_handle (cancel_requested handle) = handle
remote_handle _ = none

unfoldable pub completed_at : GenerationTaskState → Option GenerationTaskTimestamp
completed_at (succeeded t) = some t
completed_at (failed t f) = some t
completed_at (cancelled t) = some t
completed_at _ = none
