-- ===== src/Tasks/Failure.antt =====
-- crates/tasks/src/generation_task/domain/failure.rs
use oh_my_dream.Common.{
  ℕ, Bool, false, not, ◌&&◌, ◌||◌, [], ◌∷◌, all, length, is_empty, ltb, leb, ◌==◌, Result, ok, err,
  if◌then◌else◌,
}
use oh_my_dream.Tasks.Identity.{
  Utf8, has_control, is_digit, GenerationTaskDomainError, invalid_failure,
}

pub data GenerationTaskFailureKind : Type 0 where
  invalid_request authentication permission_denied content_policy : GenerationTaskFailureKind
  rate_limited provider_unavailable timeout provider_rejected : GenerationTaskFailureKind
  invalid_provider_response ambiguous_submission : GenerationTaskFailureKind
  input_asset_unavailable output_asset_import internal : GenerationTaskFailureKind

pub record GenerationTaskFailure : Type 0 where
  pub kind : GenerationTaskFailureKind
  pub code : Utf8
  pub message : Utf8

abbrev pub max_failure_code_bytes : ℕ
max_failure_code_bytes = 64

abbrev pub max_failure_message_bytes : ℕ
max_failure_message_bytes = 512

abbrev pub is_uppercase : ℕ → Bool
is_uppercase b = leb b'A' b && leb b b'Z'

unfoldable pub valid_failure_code : Utf8 → Bool
valid_failure_code [] = false
valid_failure_code (b ∷ bs) =
    is_uppercase b
    && leb (length (b ∷ bs)) max_failure_code_bytes
    && all (λ c. is_uppercase c || is_digit c || c == b'_') bs

unfoldable pub try_new :
    GenerationTaskFailureKind → Utf8 → Utf8 → Result GenerationTaskDomainError GenerationTaskFailure
unfolding valid_failure_code has_control
try_new kind code message =
    if not (valid_failure_code code)
      || is_empty message
      || ltb max_failure_message_bytes (length message)
      || has_control message
    then err invalid_failure
    else ok (record { kind = kind; code = code; message = message })
