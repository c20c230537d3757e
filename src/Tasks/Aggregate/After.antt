-- ===== src/Tasks/Aggregate/After.antt =====
-- Which states a task can be in later, whatever is called in between.
use oh_my_dream.Common.{
  ℕ, ◌≡◌, refl, ◌∙◌, ◌||◌, true, false, Option, none, some, List, [], ◌∷◌, arith,
}
use oh_my_dream.Tasks.Identity.{GenerationTaskTimestamp}
use oh_my_dream.Tasks.Failure.{GenerationTaskFailure}
use oh_my_dream.Tasks.Request.{GenerationTaskRequest, GenerationTaskResult}
use oh_my_dream.Tasks.State.{
  GenerationTaskState, queued, submitting, running, cancel_requested, succeeded, failed, cancelled,
}
use oh_my_dream.Tasks.Aggregate.{
  GenerationTaskAggregate, regresses, is_cancellable, is_submitted, is_queued,
}
use oh_my_dream.Tasks.Aggregate.Command.{Command, perform_all}
use oh_my_dream.Tasks.Aggregate.Machine.{
  Move, submit, accept, accept_late, progress, withdraw, request_submitting, request_running,
  cancel, deliver, give_up, TaskStep, stay, move, perform-TaskStep,
}

-- The state `s'` may come after `s`: a handle stays, progress does not go back, an intent to cancel
-- leads to cancellation only, and an ended task stays as it is.
abbrev pub After : GenerationTaskState → GenerationTaskState → Type 0
After queued s' = Unit
After submitting queued = ⊥
After submitting s' = Unit
After (running h p) (running h' p') = (h ≡ h') × (regresses p p' ≡ false)
After (running h p) (cancel_requested h') = some h ≡ h'
After (running h p) queued = ⊥
After (running h p) submitting = ⊥
After (running h p) s' = Unit
After (cancel_requested none) (cancel_requested h') = Unit
After (cancel_requested (some h)) (cancel_requested h') = some h ≡ h'
After (cancel_requested h) (cancelled at) = Unit
After (cancel_requested h) s' = ⊥
After s s' = s ≡ s'

regresses_refl : (p : Option ℕ) → regresses p p ≡ false
regresses_refl p = ground arith

After-refl : (s : GenerationTaskState) → After s s
After-refl queued = tt
After-refl submitting = tt
After-refl (running h p) = (refl, regresses_refl p)
After-refl (cancel_requested none) = tt
After-refl (cancel_requested (some h)) = refl
After-refl (succeeded at) = refl
After-refl (failed at f) = refl
After-refl (cancelled at) = refl

cancel-After :
    (at : GenerationTaskTimestamp) (s : GenerationTaskState)
    → is_cancellable s ≡ true
    → After s (cancelled at)
cancel-After at (running h p) e = tt
cancel-After at (cancel_requested none) e = tt
cancel-After at (cancel_requested (some h)) e = tt
cancel-After at _ e = absurd (ground arith)

deliver-After :
    (at : GenerationTaskTimestamp) (s : GenerationTaskState)
    → is_submitted s ≡ true
    → After s (succeeded at)
deliver-After at submitting e = tt
deliver-After at (running h p) e = tt
deliver-After at _ e = absurd (ground arith)

fail-After :
    (at : GenerationTaskTimestamp) (f : GenerationTaskFailure) (s : GenerationTaskState)
    → (is_queued s || is_submitted s) ≡ true
    → After s (failed at f)
fail-After at f queued e = tt
fail-After at f submitting e = tt
fail-After at f (running h p) e = tt
fail-After at f _ e = absurd (ground arith)

module _ {q : GenerationTaskRequest} {at : GenerationTaskTimestamp} {s s' : GenerationTaskState}
    {x x' : Option GenerationTaskResult} where
  Move-After : Move q at s s' x x' → After s s'
  Move-After (submit a b e) = simp (a, b) tt
  Move-After (accept h a b e) = simp (a, b) tt
  Move-After (accept_late h a b e) = simp (a, b) tt
  Move-After (progress h p n a b w l e) = simp (a, b) (refl, w)
  Move-After (withdraw a b e) = simp (a, b) tt
  Move-After (request_submitting a b e) = simp (a, b) tt
  Move-After (request_running h p a b e) = simp (a, b) refl
  Move-After (cancel a b e) = simp b (cancel-After at s a)
  Move-After (deliver r a m b e) = simp b (deliver-After at s a)
  Move-After (give_up f a b e) = simp b (fail-After at f s a)

regresses_trans :
    (p n m : Option ℕ) → regresses p n ≡ false → regresses n m ≡ false → regresses p m ≡ false
regresses_trans p n m a b = ground arith

After-trans : (s t u : GenerationTaskState) → After s t → After t u → After s u
After-trans (running h p) (running h' n) (running h'' m) a b =
    (a.0 ∙ b.0, regresses_trans p n m a.1 b.1)
After-trans _ _ _ a b = ground arith

TaskStep-After : (t t' : GenerationTaskAggregate) → TaskStep t t' → After t.state t'.state
TaskStep-After t t' (stay e) = simp e (After-refl t.state)
TaskStep-After t t' (move at s x m time room e) = simp e (Move-After m)

-- Whatever is called on a task, in any order and with any errors in between, its state comes after
-- the one it had: an accepted handle is never replaced, progress does not go back or get lost while
-- the task runs, a task with an intent to cancel ends only as cancelled, and an ended task keeps its
-- ending.
pub perform_all-After :
    (cs : List Command) (t : GenerationTaskAggregate) → After t.state (perform_all cs t).state
perform_all-After [] t = After-refl t.state
perform_all-After (c ∷ cs) t =
    After-trans t.state _ _ (TaskStep-After t _ (perform-TaskStep c t)) (perform_all-After cs _)
