-- ===== src/Tasks/Aggregate/Command.antt =====
-- The methods of the Generation Task as one type, so that a sequence of calls is a list.

use oh_my_dream.Common.{ℕ, Option, List, [], ◌∷◌}
use oh_my_dream.Tasks.Identity.{Utf8, GenerationTaskTimestamp}
use oh_my_dream.Tasks.Failure.{GenerationTaskFailure}
use oh_my_dream.Tasks.Request.{GenerationTaskResult}
use oh_my_dream.Tasks.Aggregate.{GenerationTaskAggregate, Method}
use oh_my_dream.Tasks.Aggregate

pub data Command : Type 0 where
  begin_submission : GenerationTaskTimestamp → Command
  accept_remote_submission : Utf8 → GenerationTaskTimestamp → Command
  record_progress : Option ℕ → GenerationTaskTimestamp → Command
  request_cancellation mark_cancelled : GenerationTaskTimestamp → Command
  complete : GenerationTaskResult → GenerationTaskTimestamp → Command
  fail : GenerationTaskFailure → GenerationTaskTimestamp → Command

unfoldable pub perform : Command → Method Unit
perform (begin_submission t) = Aggregate.begin_submission t
perform (accept_remote_submission h t) = Aggregate.accept_remote_submission h t
perform (record_progress p t) = Aggregate.record_progress p t
perform (request_cancellation t) = Aggregate.request_cancellation t
perform (mark_cancelled t) = Aggregate.mark_cancelled t
perform (complete r t) = Aggregate.complete r t
perform (fail f t) = Aggregate.fail f t

-- Calls one after the other; a caller goes on after an error with the task as the call left it.
abbrev pub perform_all : List Command → GenerationTaskAggregate → GenerationTaskAggregate
perform_all [] t = t
perform_all (c ∷ cs) t = perform_all cs (perform c t).1
