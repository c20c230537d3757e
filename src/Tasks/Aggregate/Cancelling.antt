-- ===== src/Tasks/Aggregate/Cancelling.antt =====
-- Cancellation and submission racing for one task.
use oh_my_dream.Common.{◌+◌, ◌^◌, ◌≤◌, ◌<◌, ◌≡◌, Bool, true, false, some, [], ◌∷◌, arith}
use oh_my_dream.Common.State.{◌>>=◌}
use oh_my_dream.Tasks.Identity.{Utf8, GenerationTaskTimestamp, next}
use oh_my_dream.Tasks.State.{
  GenerationTaskState, submitting, cancel_requested, cancelled, is_terminal,
}
use oh_my_dream.Tasks.Aggregate.{GenerationTaskAggregate, commit_transition}
use oh_my_dream.Tasks.Aggregate
use oh_my_dream.Tasks.Aggregate.Command.{
  request_cancellation, mark_cancelled, accept_remote_submission, perform, perform_all,
}

abbrev pub is_cancelled : GenerationTaskState → Bool
is_cancelled (cancelled at) = true
is_cancelled _ = false

-- A task that has not ended ends as cancelled when its cancellation is requested and then marked, at
-- times that do not go back, while two more revisions fit in 64 bits.
pub cancel-is_cancelled :
    (t : GenerationTaskAggregate) (at at' : GenerationTaskTimestamp)
    → is_terminal t.state ≡ false
    → t.updated_at ≤ at
    → at ≤ at'
    → t.revision + 2 < 2 ^ 64
    → is_cancelled (perform_all (request_cancellation at ∷ mark_cancelled at' ∷ []) t).state ≡ true
unfolding is_terminal perform Aggregate.request_cancellation Aggregate.mark_cancelled
    commit_transition next ◌>>=◌
cancel-is_cancelled t at at' h k l m = ground arith

-- A submission and a cancellation that race for a task in submission leave it in the same state,
-- with the intent to cancel and the accepted handle, whichever is written first.
pub accept-request_cancellation :
    (t : GenerationTaskAggregate) (handle : Utf8) (at at' : GenerationTaskTimestamp)
    → t.state ≡ submitting
    → t.updated_at ≤ at
    → at ≤ at'
    → t.revision + 2 < 2 ^ 64
    → (perform_all (accept_remote_submission handle at ∷ request_cancellation at' ∷ []) t
        ≡ perform_all (request_cancellation at ∷ accept_remote_submission handle at' ∷ []) t)
      × ((perform_all (accept_remote_submission handle at ∷ request_cancellation at' ∷ []) t).state
          ≡ cancel_requested (some handle))
unfolding perform Aggregate.request_cancellation Aggregate.accept_remote_submission
    commit_transition next ◌>>=◌
accept-request_cancellation t handle at at' h k l m = ground arith
