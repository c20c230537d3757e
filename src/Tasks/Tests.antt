-- ===== src/Tasks/Tests.antt =====
-- A task of a text and one of a video, and each theorem at a concrete input.
use Prim.Native.Nat.{◌%◌}
use oh_my_dream.Common.{ℕ, ◌+◌, ◌≡◌, refl, true, none, some, List, [], ◌∷◌, ok, arith}
use oh_my_dream.Common.State.{◌>>=◌}
use oh_my_dream.Tasks.Identity.{
  Utf8, NodeCapabilityContractRef, GenerationTaskOrigin, GenerationTaskTarget, next,
}
use oh_my_dream.Tasks.Request.{GenerationTaskRequest, GenerationTaskResult}
use oh_my_dream.Tasks.State.{
  queued, submitting, cancel_requested, succeeded, cancelled, is_terminal,
}
use oh_my_dream.Tasks.Canonical.{canonical_bytes, canonical_request_hash}
use oh_my_dream.Tasks.Canonical.Injective.{IsOrigin, IsTarget, canonical_bytes_injective}
use oh_my_dream.Tasks.Aggregate.{GenerationTaskAggregate, commit_transition, create, restore}
use oh_my_dream.Tasks.Aggregate
use oh_my_dream.Tasks.Aggregate.Command.{
  Command, begin_submission, accept_remote_submission, record_progress, request_cancellation,
  mark_cancelled, complete, perform, perform_all,
}
use oh_my_dream.Tasks.Aggregate.Machine.{TaskStep, perform-TaskStep}
use oh_my_dream.Tasks.Aggregate.Valid.{perform_all-restore}
use oh_my_dream.Tasks.Aggregate.After.{After, perform_all-After}
use oh_my_dream.Tasks.Aggregate.Cancelling.{
  is_cancelled, cancel-is_cancelled, accept-request_cancellation,
}

program : Unit {0}
unfolding create perform Aggregate.begin_submission Aggregate.accept_remote_submission
    Aggregate.record_progress Aggregate.request_cancellation Aggregate.mark_cancelled
    Aggregate.complete Aggregate.fail Aggregate.result_matches_request commit_transition next ◌>>=◌
program = tt

abbrev contract : NodeCapabilityContractRef
contract = record { id = b't' ∷ []; major = 1; minor = 0 }

abbrev origin : GenerationTaskOrigin
origin = record {
  project_id = 1;
  workflow_id = 2;
  workflow_revision = 3;
  workflow_run_id = 4;
  workflow_node_id = 5;
  workflow_node_execution_id = 6;
  capability_contract_ref = contract;
}

abbrev target : GenerationTaskTarget
target = record {
  generation_profile_id = b'p' ∷ [];
  generation_profile_version = 1;
  provider_id = b'f' ∷ [];
  route_id = b'r' ∷ [];
}

abbrev request : GenerationTaskRequest
request = GenerationTaskRequest.text (b'h' ∷ b'i' ∷ [])

abbrev handle : Utf8
handle = b'j' ∷ b'1' ∷ []

abbrev sum : List ℕ → ℕ
sum [] = 0
sum (b ∷ bs) = b + sum bs

-- A checksum in the place of SHA-256.
abbrev sha256 : List ℕ → List ℕ
sha256 bytes = (sum bytes % 256) ∷ []

abbrev task : GenerationTaskAggregate
task = record {
  id = 9;
  origin = origin;
  idempotency_key = b'k' ∷ [];
  request_hash = canonical_request_hash sha256 origin request target;
  target = target;
  request = request;
  provider_deadline_at = 100;
  state = queued;
  result = none;
  created_at = 10;
  updated_at = 10;
  revision = 1;
}

abbrev submitted : GenerationTaskAggregate
submitted = record task { state = submitting; updated_at = 11; revision = 2 }

abbrev ended : GenerationTaskAggregate
ended = record task { state = cancelled 12; updated_at = 12; revision = 2 }

abbrev generated : GenerationTaskResult
generated = GenerationTaskResult.text (b'o' ∷ b'k' ∷ [])

-- A whole life, with a call in it that is refused.
abbrev calls : List Command
calls =
    begin_submission 11
    ∷ accept_remote_submission handle 12
    ∷ record_progress (some 40) 13
    ∷ record_progress (some 30) 14
    ∷ complete generated 15
    ∷ []

calls_succeed : (perform_all calls task).state ≡ succeeded 15
unfolding program
calls_succeed = refl

origin_bounded : IsOrigin origin
origin_bounded = record {
  project = omega arith;
  workflow = omega arith;
  revision = omega arith;
  run = omega arith;
  node = omega arith;
  execution = omega arith;
  contract = omega arith;
  major = omega arith;
  minor = omega arith;
}

target_bounded : IsTarget target
target_bounded = record {
  profile = omega arith;
  version = omega arith;
  provider = omega arith;
  route = omega arith;
}

canonical_bytes_injective_example : (origin ≡ origin) × (request ≡ request) × (target ≡ target)
canonical_bytes_injective_example =
    canonical_bytes_injective origin origin request request target target origin_bounded
      origin_bounded (omega arith) (omega arith) target_bounded target_bounded refl

perform-TaskStep_example : TaskStep submitted (perform (complete generated 15) submitted).1
perform-TaskStep_example = perform-TaskStep (complete generated 15) submitted

perform_all-restore_example : restore sha256 (perform_all calls task) ≡ ok (perform_all calls task)
unfolding create canonical_request_hash canonical_bytes
perform_all-restore_example =
    perform_all-restore sha256 9 origin (b'k' ∷ []) target request 10 100 calls task refl

perform_all-After_example : After submitting (perform_all calls submitted).state
perform_all-After_example = perform_all-After calls submitted

cancel-is_cancelled_example :
    is_cancelled (perform_all (request_cancellation 12 ∷ mark_cancelled 13 ∷ []) submitted).state
    ≡ true
unfolding is_terminal
cancel-is_cancelled_example =
    cancel-is_cancelled submitted 12 13 refl (omega arith) (omega arith) (omega arith)

accept-request_cancellation_example :
    (perform_all (accept_remote_submission handle 12 ∷ request_cancellation 13 ∷ []) submitted
      ≡ perform_all (request_cancellation 12 ∷ accept_remote_submission handle 13 ∷ []) submitted)
    × ((perform_all
          (accept_remote_submission handle 12 ∷ request_cancellation 13 ∷ [])
          submitted).state
        ≡ cancel_requested (some handle))
accept-request_cancellation_example =
    accept-request_cancellation submitted handle 12 13 refl (omega arith) (omega arith)
      (omega arith)
