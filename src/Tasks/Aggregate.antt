-- ===== src/Tasks/Aggregate.antt =====
-- crates/tasks/src/generation_task/domain/aggregate.rs: the Generation Task and its methods. The
-- request hash is SHA-256, a parameter, of the canonical bytes.
pub mod Command
pub mod Machine
pub mod Valid
pub mod Endings
pub mod Cancelling
pub mod After
pub mod Facts
use oh_my_dream.Common.{
  ℕ, Bool, true, false, not, ◌&&◌, ◌||◌, Option, none, some, List, list_eq, ltb, leb, Result, ok,
  err, ensure, Exec, if◌then◌else◌,
}
use oh_my_dream.Common.State.{lift, reads, modify, require, ◌>>=◌, ◌>>◌}
use oh_my_dream.Tasks.Identity.{
  Utf8, Uuid, GenerationTaskOrigin, GenerationTaskTarget, GenerationTaskTimestamp,
  GenerationTaskRevision, initial, next, GenerationTaskDomainError, invalid_timestamp,
  progress_out_of_range, progress_regressed, result_kind_mismatch, illegal_transition,
  invalid_restored_state, invalid_request_hash,
}
use oh_my_dream.Tasks.Failure.{GenerationTaskFailure}
use oh_my_dream.Tasks.Request.{
  GenerationTaskRequest, GenerationTaskRequestKind, AssetMediaKind, is_image, kind,
  GenerationTaskResult,
}
use oh_my_dream.Tasks.State.{
  GenerationTaskState, queued, submitting, running, cancel_requested, succeeded, failed, cancelled,
  progress_percent, completed_at,
}
use oh_my_dream.Tasks.Canonical.{canonical_request_hash}

pub record GenerationTaskAggregate : Type 0 where
  pub id : Uuid
  pub origin : GenerationTaskOrigin
  pub idempotency_key : Utf8
  pub request_hash : List ℕ
  pub target : GenerationTaskTarget
  pub request : GenerationTaskRequest
  pub provider_deadline_at : GenerationTaskTimestamp
  pub state : GenerationTaskState
  pub result : Option GenerationTaskResult
  pub created_at : GenerationTaskTimestamp
  pub updated_at : GenerationTaskTimestamp
  pub revision : GenerationTaskRevision

abbrev pub Method : Type 0 → Type 0
Method A = Exec GenerationTaskDomainError GenerationTaskAggregate A

abbrev pub is_audio : AssetMediaKind → Bool
is_audio AssetMediaKind.audio = true
is_audio _ = false

abbrev pub is_video : AssetMediaKind → Bool
is_video AssetMediaKind.video = true
is_video _ = false

abbrev pub kind_matches : GenerationTaskRequestKind → GenerationTaskResult → Bool
kind_matches GenerationTaskRequestKind.text (GenerationTaskResult.text content) = true
kind_matches GenerationTaskRequestKind.image (GenerationTaskResult.asset a) = is_image a.media_kind
kind_matches GenerationTaskRequestKind.voice (GenerationTaskResult.asset a) = is_audio a.media_kind
kind_matches GenerationTaskRequestKind.video (GenerationTaskResult.asset a) = is_video a.media_kind
kind_matches _ _ = false

unfoldable pub result_matches_request : GenerationTaskRequest → GenerationTaskResult → Bool
unfolding kind
result_matches_request request result = kind_matches (kind request) result

abbrev pub is_none_or {ℓ} : {A : Type ℓ} → (A → Bool) → Option A → Bool
is_none_or p none = true
is_none_or p (some a) = p a

abbrev pub valid_result :
    GenerationTaskRequest → GenerationTaskState → Option GenerationTaskResult → Bool
valid_result request (succeeded at) (some result) = result_matches_request request result
valid_result request (succeeded at) none = false
valid_result request _ none = true
valid_result request _ (some result) = false

unfoldable pub validate_restored_state :
    GenerationTaskRequest
    → GenerationTaskState
    → Option GenerationTaskResult
    → (created_at updated_at provider_deadline_at : GenerationTaskTimestamp)
    → Result GenerationTaskDomainError Unit
unfolding result_matches_request progress_percent completed_at
validate_restored_state request state result created_at updated_at provider_deadline_at =
    let valid_progress = is_none_or (λ value. leb value 100) (progress_percent state) in
    let valid_time =
      leb created_at updated_at
      && ltb created_at provider_deadline_at
      && is_none_or (λ value. leb created_at value && leb value updated_at) (completed_at state) in
    ensure (valid_result request state result && valid_progress && valid_time)
      invalid_restored_state

module _ (sha256 : List ℕ → List ℕ) where
  unfoldable pub create :
      Uuid
      → GenerationTaskOrigin
      → Utf8
      → GenerationTaskTarget
      → GenerationTaskRequest
      → (created_at provider_deadline_at : GenerationTaskTimestamp)
      → Result GenerationTaskDomainError GenerationTaskAggregate
  create id origin idempotency_key target request created_at provider_deadline_at =
      if leb provider_deadline_at created_at
      then err invalid_timestamp
      else ok (record {
        id = id;
        origin = origin;
        idempotency_key = idempotency_key;
        request_hash = canonical_request_hash sha256 origin request target;
        target = target;
        request = request;
        provider_deadline_at = provider_deadline_at;
        state = queued;
        result = none;
        created_at = created_at;
        updated_at = created_at;
        revision = initial;
      })

  -- The arguments are the fields of the record `d`.
  unfoldable pub restore :
      GenerationTaskAggregate → Result GenerationTaskDomainError GenerationTaskAggregate
  restore d =
      if not (list_eq d.request_hash (canonical_request_hash sha256 d.origin d.request d.target))
      then err invalid_request_hash
      else elim (validate_restored_state d.request d.state d.result d.created_at d.updated_at
          d.provider_deadline_at) [ ok u ↦ ok d | err e ↦ err e ]

unfoldable pub commit_transition : GenerationTaskState → GenerationTaskTimestamp → Method Unit
unfolding next
commit_transition state occurred_at = do
  require (λ t. leb t.updated_at occurred_at) invalid_timestamp
  revision ← reads (λ t. next t.revision)
  modify (λ t. record t { state = state; updated_at = occurred_at; revision = revision })

abbrev pub is_queued : GenerationTaskState → Bool
is_queued queued = true
is_queued _ = false

unfoldable pub begin_submission : GenerationTaskTimestamp → Method Unit
begin_submission occurred_at = do
  require (λ t. is_queued t.state) illegal_transition
  commit_transition submitting occurred_at

-- The next state, if the `match` gives one, or `none` where it returns at once.
abbrev pub accepted_state :
    Utf8 → GenerationTaskState → Result GenerationTaskDomainError (Option GenerationTaskState)
accepted_state handle submitting = ok (some (running handle none))
accepted_state handle (cancel_requested none) = ok (some (cancel_requested (some handle)))
accepted_state handle (cancel_requested (some existing)) =
    if list_eq existing handle then ok none else err illegal_transition
accepted_state handle _ = err illegal_transition

abbrev pub commit_next : GenerationTaskTimestamp → Option GenerationTaskState → Method Unit
commit_next occurred_at none = lift (ok tt)
commit_next occurred_at (some state) = commit_transition state occurred_at

unfoldable pub accept_remote_submission : Utf8 → GenerationTaskTimestamp → Method Unit
accept_remote_submission handle occurred_at = do
  next_state ← reads (λ t. accepted_state handle t.state)
  commit_next occurred_at next_state

-- The two `matches!` of a regression: progress taken back, or made less.
abbrev pub regresses : (current next : Option ℕ) → Bool
regresses none next = false
regresses (some previous) none = true
regresses (some previous) (some next) = ltb next previous

abbrev pub progressed_state :
    Option ℕ → GenerationTaskState → Result GenerationTaskDomainError GenerationTaskState
progressed_state progress (running handle current) =
    if regresses current progress then err progress_regressed else ok (running handle progress)
progressed_state progress _ = err illegal_transition

unfoldable pub record_progress : Option ℕ → GenerationTaskTimestamp → Method Unit
record_progress progress occurred_at = do
  require (λ t. is_none_or (λ value. leb value 100) progress) progress_out_of_range
  next_state ← reads (λ t. progressed_state progress t.state)
  commit_transition next_state occurred_at

abbrev pub cancelling_state :
    GenerationTaskTimestamp
    → GenerationTaskState
    → Result GenerationTaskDomainError (Option GenerationTaskState)
cancelling_state occurred_at queued = ok (some (cancelled occurred_at))
cancelling_state occurred_at submitting = ok (some (cancel_requested none))
cancelling_state occurred_at (running handle progress) = ok (some (cancel_requested (some handle)))
cancelling_state occurred_at (cancel_requested handle) = ok none
cancelling_state occurred_at _ = err illegal_transition

unfoldable pub request_cancellation : GenerationTaskTimestamp → Method Unit
request_cancellation occurred_at = do
  next_state ← reads (λ t. cancelling_state occurred_at t.state)
  commit_next occurred_at next_state

abbrev pub is_cancellable : GenerationTaskState → Bool
is_cancellable (running handle progress) = true
is_cancellable (cancel_requested handle) = true
is_cancellable _ = false

unfoldable pub mark_cancelled : GenerationTaskTimestamp → Method Unit
mark_cancelled completed_at = do
  require (λ t. is_cancellable t.state) illegal_transition
  commit_transition (cancelled completed_at) completed_at

abbrev pub is_submitted : GenerationTaskState → Bool
is_submitted submitting = true
is_submitted (running handle progress) = true
is_submitted _ = false

unfoldable pub complete : GenerationTaskResult → GenerationTaskTimestamp → Method Unit
complete result completed_at = do
  require (λ t. is_submitted t.state) illegal_transition
  require (λ t. result_matches_request t.request result) result_kind_mismatch
  commit_transition (succeeded completed_at) completed_at
  modify (λ t. record t { result = some result })

unfoldable pub fail : GenerationTaskFailure → GenerationTaskTimestamp → Method Unit
fail failure completed_at = do
  require (λ t. is_queued t.state || is_submitted t.state) illegal_transition
  commit_transition (failed completed_at failure) completed_at
