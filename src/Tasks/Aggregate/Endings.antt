-- ===== src/Tasks/Aggregate/Endings.antt =====
-- Calls that fail, tasks that have ended, and what no call takes back.
use oh_my_dream.Common.{◌≤◌, ◌≡◌, refl, ◌∙◌, leb, if◌then◌else◌, true, List, [], ◌∷◌, err, arith}
use oh_my_dream.Common.State.{◌>>=◌}
use oh_my_dream.Tasks.Identity.{
  GenerationTaskDomainError, illegal_transition, progress_out_of_range, next,
}
use oh_my_dream.Tasks.State.{is_terminal}
use oh_my_dream.Tasks.Aggregate.{is_none_or, GenerationTaskAggregate, commit_transition}
use oh_my_dream.Tasks.Aggregate
use oh_my_dream.Tasks.Aggregate.Command.{Command, record_progress, perform, perform_all}
use oh_my_dream.Tasks.Aggregate.Machine.{TaskStep, stay, move, perform-TaskStep}
use oh_my_dream.Tasks.Aggregate.Valid.{SameFacts, TaskStep-SameFacts}

-- A call that returns an error leaves the task as it was.
pub perform_error_unchanged :
    (c : Command) (t : GenerationTaskAggregate) {e : GenerationTaskDomainError}
    → (perform c t).0 ≡ err e
    → (perform c t).1 ≡ t
unfolding perform Aggregate.begin_submission Aggregate.accept_remote_submission
    Aggregate.record_progress Aggregate.request_cancellation Aggregate.mark_cancelled
    Aggregate.complete Aggregate.fail commit_transition next ◌>>=◌
perform_error_unchanged _ t h = ground arith

-- What a call on an ended task is refused with: progress beyond 100 is looked at first.
abbrev pub refusal : Command → GenerationTaskDomainError
refusal (record_progress p at) =
    if is_none_or (λ value. leb value 100) p then illegal_transition else progress_out_of_range
refusal _ = illegal_transition

-- Every call on a task that has ended is refused and leaves the task as it was.
pub perform-is_terminal :
    (c : Command) (t : GenerationTaskAggregate)
    → is_terminal t.state ≡ true
    → perform c t ≡ (err (refusal c), t)
unfolding is_terminal perform Aggregate.begin_submission Aggregate.accept_remote_submission
    Aggregate.record_progress Aggregate.request_cancellation Aggregate.mark_cancelled
    Aggregate.complete Aggregate.fail ◌>>=◌
perform-is_terminal (record_progress p at) t h = ground arith
perform-is_terminal _ t h = ground arith

-- The task `t'` is `t` at a later time: the same admission, and no clock or revision went back.
pub record Later (t t' : GenerationTaskAggregate) : Type 0 where
  pub facts : SameFacts t t'
  pub updated : t.updated_at ≤ t'.updated_at
  pub revised : t.revision ≤ t'.revision

TaskStep-Later : (t t' : GenerationTaskAggregate) → TaskStep t t' → Later t t'
TaskStep-Later t t' step = record {
  facts = TaskStep-SameFacts t t' step;
  updated = elim step [ stay e ↦ ground arith | move at s x m time room e ↦ ground arith ];
  revised = elim step [ stay e ↦ ground arith | move at s x m time room e ↦ ground arith ];
}

Later-trans : (t u v : GenerationTaskAggregate) → Later t u → Later u v → Later t v
Later-trans t u v a b = record {
  facts = record {
    id = a.facts.id ∙ b.facts.id;
    origin = a.facts.origin ∙ b.facts.origin;
    idempotency_key = a.facts.idempotency_key ∙ b.facts.idempotency_key;
    request_hash = a.facts.request_hash ∙ b.facts.request_hash;
    target = a.facts.target ∙ b.facts.target;
    request = a.facts.request ∙ b.facts.request;
    provider_deadline_at = a.facts.provider_deadline_at ∙ b.facts.provider_deadline_at;
    created_at = a.facts.created_at ∙ b.facts.created_at;
  };
  updated = omega (arith, a.updated, b.updated);
  revised = omega (arith, a.revised, b.revised);
}

-- Over any sequence of calls the identity and the admission stay, and neither the time of the last
-- change nor the revision goes back.
pub perform_all-Later :
    (cs : List Command) (t : GenerationTaskAggregate) → Later t (perform_all cs t)
perform_all-Later [] t = TaskStep-Later t t (stay refl)
perform_all-Later (c ∷ cs) t =
    Later-trans t _ _ (TaskStep-Later t _ (perform-TaskStep c t)) (perform_all-Later cs _)
