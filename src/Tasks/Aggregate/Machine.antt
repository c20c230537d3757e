-- ===== src/Tasks/Aggregate/Machine.antt =====
-- The state machine of a Generation Task, and that every method is a step of it or nothing.
use oh_my_dream.Common.{
  ℕ, ◌+◌, ◌^◌, ◌≤◌, ◌<◌, ◌≡◌, refl, inl, inr, Bool, true, false, ◌||◌, Option, none, some, leb, ltb,
  ap, ◌&&◌, Result, ok, err, Result-cases, Bool-cases, if◌then◌else◌, arith,
}
use oh_my_dream.Common.State.{lift, reads, modify, require, ◌>>=◌}
use oh_my_dream.Tasks.Identity.{
  Utf8, GenerationTaskTimestamp, next, GenerationTaskDomainError, invalid_revision,
  invalid_timestamp,
}
use oh_my_dream.Tasks.Failure.{GenerationTaskFailure}
use oh_my_dream.Tasks.Request.{GenerationTaskRequest, GenerationTaskResult}
use oh_my_dream.Tasks.State.{
  GenerationTaskState, queued, submitting, running, cancel_requested, succeeded, failed, cancelled,
}
use oh_my_dream.Tasks.Aggregate.{
  GenerationTaskAggregate, Method, commit_transition, commit_next, accepted_state, progressed_state,
  cancelling_state, result_matches_request, is_none_or, is_queued, is_submitted, is_cancellable,
  regresses,
}
use oh_my_dream.Tasks.Aggregate
use oh_my_dream.Tasks.Aggregate.Command.{
  Command, begin_submission, accept_remote_submission, record_progress, request_cancellation,
  mark_cancelled, complete, fail, perform,
}

-- The moves from `s` to `s'` at `at`, for a task of this request; `x` becomes its result.
pub data Move (request : GenerationTaskRequest) (at : GenerationTaskTimestamp)
    (s s' : GenerationTaskState) (x x' : Option GenerationTaskResult) : Type 0 where
  submit : s ≡ queued → s' ≡ submitting → x' ≡ x → Move request at s s' x x'
  accept : (h : Utf8) → s ≡ submitting → s' ≡ running h none → x' ≡ x → Move request at s s' x x'
  accept_late :
      (h : Utf8)
      → s ≡ cancel_requested none
      → s' ≡ cancel_requested (some h)
      → x' ≡ x
      → Move request at s s' x x'
  progress :
      (h : Utf8) (p q : Option ℕ)
      → s ≡ running h p
      → s' ≡ running h q
      → regresses p q ≡ false
      → is_none_or (λ value. leb value 100) q ≡ true
      → x' ≡ x
      → Move request at s s' x x'
  withdraw : s ≡ queued → s' ≡ cancelled at → x' ≡ x → Move request at s s' x x'
  request_submitting :
      s ≡ submitting → s' ≡ cancel_requested none → x' ≡ x → Move request at s s' x x'
  request_running :
      (h : Utf8) (p : Option ℕ)
      → s ≡ running h p
      → s' ≡ cancel_requested (some h)
      → x' ≡ x
      → Move request at s s' x x'
  cancel : is_cancellable s ≡ true → s' ≡ cancelled at → x' ≡ x → Move request at s s' x x'
  deliver :
      (result : GenerationTaskResult)
      → is_submitted s ≡ true
      → result_matches_request request result ≡ true
      → s' ≡ succeeded at
      → x' ≡ some result
      → Move request at s s' x x'
  give_up :
      (f : GenerationTaskFailure)
      → (is_queued s || is_submitted s) ≡ true
      → s' ≡ failed at f
      → x' ≡ x
      → Move request at s s' x x'

-- A task becomes another only by a move, at a time not before its last, under the next revision.
pub data TaskStep (t t' : GenerationTaskAggregate) : Type 0 where
  stay : t' ≡ t → TaskStep t t'
  move :
      (at : GenerationTaskTimestamp) (s : GenerationTaskState) (x : Option GenerationTaskResult)
      → Move t.request at t.state s t.result x
      → t.updated_at ≤ at
      → t.revision + 1 < 2 ^ 64
      → t' ≡ record t { state = s; result = x; updated_at = at; revision = t.revision + 1 }
      → TaskStep t t'

-- The task that a transition commits.
abbrev pub committed :
    GenerationTaskState
    → GenerationTaskTimestamp
    → GenerationTaskAggregate
    → GenerationTaskAggregate
committed s at t = record t { state = s; updated_at = at; revision = t.revision + 1 }

abbrev pub can_commit : GenerationTaskTimestamp → GenerationTaskAggregate → Bool
can_commit at t = leb t.updated_at at && ltb (t.revision + 1) (2 ^ 64)

abbrev pub commit_error :
    GenerationTaskTimestamp → GenerationTaskAggregate → GenerationTaskDomainError
commit_error at t = if leb t.updated_at at then invalid_revision else invalid_timestamp

module _ (s : GenerationTaskState) (at : GenerationTaskTimestamp)
    (t : GenerationTaskAggregate) where
  pub commit_transition-committed :
      can_commit at t ≡ true → commit_transition s at t ≡ (ok tt, committed s at t)
  unfolding commit_transition ◌>>=◌ next
  commit_transition-committed h = ground arith

  pub commit_transition_refused :
      can_commit at t ≡ false → commit_transition s at t ≡ (err (commit_error at t), t)
  unfolding commit_transition ◌>>=◌ next
  commit_transition_refused h = ground arith

  -- A method that commits `s` if it commits at all.
  commit_transition-TaskStep :
      Move t.request at t.state s t.result t.result → TaskStep t (commit_transition s at t).1
  commit_transition-TaskStep m = elim (Bool-cases (can_commit at t)) [
    | inl h ↦
        move at s t.result m (ground arith) (ground arith)
          (ap (λ p. p.1) (commit_transition-committed h))
    | inr h ↦ stay (ap (λ p. p.1) (commit_transition_refused h))
  ]

-- The rules for `require`, `reads` and a state that may be committed.
module _ (t : GenerationTaskAggregate) where
  require-TaskStep :
      (test : GenerationTaskAggregate → Bool) (e : GenerationTaskDomainError) (m : Method Unit)
      → (test t ≡ true → TaskStep t (m t).1)
      → TaskStep t ((require test e >>= λ _. m) t).1
  unfolding ◌>>=◌ require
  require-TaskStep test e m k = elim (Bool-cases (test t)) [
    | inl h ↦ simp h (k h)
    | inr h ↦ stay (ground arith)
  ]

  reads-TaskStep :
      {A : Type 0} (f : GenerationTaskAggregate → Result GenerationTaskDomainError A)
      (m : A → Method Unit)
      → ((a : A) → f t ≡ ok a → TaskStep t (m a t).1)
      → TaskStep t ((reads f >>= m) t).1
  unfolding ◌>>=◌ reads
  reads-TaskStep f m k = elim (Result-cases (f t)) [
    | inl (a, h) ↦ simp h (k a h)
    | inr (e, h) ↦ stay (ground arith)
  ]

  commit_next-TaskStep :
      (at : GenerationTaskTimestamp) (o : Option GenerationTaskState)
      → ((s : GenerationTaskState) → o ≡ some s → Move t.request at t.state s t.result t.result)
      → TaskStep t (commit_next at o t).1
  unfolding lift
  commit_next-TaskStep at none k = stay refl
  commit_next-TaskStep at (some s) k = commit_transition-TaskStep s at t (k s refl)

is_queued_eq : (s : GenerationTaskState) → is_queued s ≡ true → s ≡ queued
is_queued_eq s h = ground arith

module _ {request : GenerationTaskRequest} {at : GenerationTaskTimestamp}
    {x : Option GenerationTaskResult} where
  accepted_state-Move :
      (h : Utf8) (s s' : GenerationTaskState)
      → accepted_state h s ≡ ok (some s')
      → Move request at s s' x x
  accepted_state-Move h submitting s' e = accept h refl (ground arith) refl
  accepted_state-Move h (cancel_requested none) s' e = accept_late h refl (ground arith) refl
  accepted_state-Move h _ s' e = absurd (ground arith)

  progressed_state-Move :
      (q : Option ℕ) (s s' : GenerationTaskState)
      → is_none_or (λ value. leb value 100) q ≡ true
      → progressed_state q s ≡ ok s'
      → Move request at s s' x x
  progressed_state-Move q (running h p) s' b e =
      progress h p q refl (ground arith) (ground arith) b refl
  progressed_state-Move q _ s' b e = absurd (ground arith)

  cancelling_state-Move :
      (s s' : GenerationTaskState) → cancelling_state at s ≡ ok (some s') → Move request at s s' x x
  cancelling_state-Move queued s' e = withdraw refl (ground arith) refl
  cancelling_state-Move submitting s' e = request_submitting refl (ground arith) refl
  cancelling_state-Move (running h p) s' e = request_running h p refl (ground arith) refl
  cancelling_state-Move _ s' e = absurd (ground arith)

-- The commit of `complete`, and its write behind it.
commit_result-TaskStep :
    (result : GenerationTaskResult) (at : GenerationTaskTimestamp) (t : GenerationTaskAggregate)
    → is_submitted t.state ≡ true
    → result_matches_request t.request result ≡ true
    → TaskStep t
        ((commit_transition (succeeded at) at >>= λ _.
            modify (λ t. record t { result = some result }))
          t).1
unfolding ◌>>=◌ modify
commit_result-TaskStep result at t submitted matches = elim (Bool-cases (can_commit at t)) [
  | inl k ↦
      move at (succeeded at) (some result) (deliver result submitted matches refl refl)
        (ground arith) (ground arith)
        (ground (arith, commit_transition-committed (succeeded at) at t k))
  | inr k ↦ stay (ground (arith, commit_transition_refused (succeeded at) at t k))
]

-- Every call of a method is one step of the machine, or changes nothing.
pub perform-TaskStep : (c : Command) (t : GenerationTaskAggregate) → TaskStep t (perform c t).1
unfolding perform Aggregate.begin_submission Aggregate.accept_remote_submission
    Aggregate.record_progress Aggregate.request_cancellation Aggregate.mark_cancelled
    Aggregate.complete Aggregate.fail
perform-TaskStep (begin_submission at) t =
    require-TaskStep t _ _ _
      λ h. commit_transition-TaskStep submitting at t (submit (is_queued_eq t.state h) refl refl)
perform-TaskStep (accept_remote_submission handle at) t =
    reads-TaskStep t _ _
      λ o e. commit_next-TaskStep t at o λ s e'. accepted_state-Move handle t.state s (ground arith)
perform-TaskStep (record_progress q at) t = require-TaskStep t _ _ _ λ b.
    reads-TaskStep t _ _
      λ s e. commit_transition-TaskStep s at t (progressed_state-Move q t.state s b e)
perform-TaskStep (request_cancellation at) t =
    reads-TaskStep t _ _
      λ o e. commit_next-TaskStep t at o λ s e'. cancelling_state-Move t.state s (ground arith)
perform-TaskStep (mark_cancelled at) t =
    require-TaskStep t _ _ _
      λ h. commit_transition-TaskStep (cancelled at) at t (cancel h refl refl)
perform-TaskStep (complete result at) t = require-TaskStep t _ _ _ λ submitted.
    require-TaskStep t _ _ _ λ matches. commit_result-TaskStep result at t submitted matches
perform-TaskStep (fail f at) t =
    require-TaskStep t _ _ _
      λ h. commit_transition-TaskStep (failed at f) at t (give_up f h refl refl)
