-- ===== src/Tasks/Identity.antt =====
-- crates/tasks/src/generation_task/domain/identity.rs and error.rs. A Rust string is its UTF-8
-- bytes; a UUID is its 128 bits as a number.
pub use oh_my_dream.Common.Bytes.{Utf8}
use oh_my_dream.Common.{
  ℕ, ◌+◌, ◌^◌, Bool, true, false, not, ◌&&◌, ◌||◌, List, [], ◌∷◌, all, length, is_empty, ltb, leb,
  ◌==◌, Result, ok, err, if◌then◌else◌,
}

pub data GenerationTaskDomainError : Type 0 where
  invalid_identity invalid_idempotency_key : GenerationTaskDomainError
  invalid_provider_identity invalid_provider_task_handle : GenerationTaskDomainError
  invalid_text invalid_request invalid_timestamp : GenerationTaskDomainError
  invalid_revision invalid_failure progress_out_of_range : GenerationTaskDomainError
  progress_regressed result_kind_mismatch : GenerationTaskDomainError
  illegal_transition invalid_restored_state : GenerationTaskDomainError
  invalid_request_hash : GenerationTaskDomainError

abbrev pub Uuid : Type 0
Uuid = ℕ

-- `char::is_control` on a text: a byte below 0x20 or 0x7f, or 0xc2 and a byte from 0x80 to 0x9f.
unfoldable pub has_control : Utf8 → Bool
has_control [] = false
has_control (b ∷ []) = ltb b 0x20 || b == 0x7f
has_control (b ∷ c ∷ cs) =
    ltb b 0x20 || b == 0x7f || (b == 0xc2 && leb 0x80 c && leb c 0x9f) || has_control (c ∷ cs)

abbrev pub max_idempotency_key_bytes : ℕ
max_idempotency_key_bytes = 256

abbrev pub max_provider_id_bytes : ℕ
max_provider_id_bytes = 128

abbrev pub max_provider_handle_bytes : ℕ
max_provider_handle_bytes = 512

-- `GenerationTaskIdempotencyKey::try_new`
unfoldable pub idempotency_key : Utf8 → Result GenerationTaskDomainError Utf8
unfolding has_control
idempotency_key value =
    if is_empty value || ltb max_idempotency_key_bytes (length value) || has_control value
    then err invalid_idempotency_key
    else ok value

-- `GenerationProviderTaskHandle::try_new`
unfoldable pub provider_task_handle : Utf8 → Result GenerationTaskDomainError Utf8
unfolding has_control
provider_task_handle value =
    if is_empty value || ltb max_provider_handle_bytes (length value) || has_control value
    then err invalid_provider_task_handle
    else ok value

abbrev pub is_lowercase : ℕ → Bool
is_lowercase b = leb b'a' b && leb b b'z'

abbrev pub is_digit : ℕ → Bool
is_digit b = leb b'0' b && leb b b'9'

-- Opens a new segment at a dot, and otherwise puts the byte before the first segment.
abbrev pub put_byte : Bool → ℕ → List Utf8 → List Utf8
put_byte true b segments = [] ∷ segments
put_byte false b [] = (b ∷ []) ∷ []
put_byte false b (s ∷ segments) = (b ∷ s) ∷ segments

-- `value.split('.')`: one segment more than there are dots.
unfoldable pub split_dots : Utf8 → List Utf8
split_dots [] = [] ∷ []
split_dots (b ∷ bs) = put_byte (b == b'.') b (split_dots bs)

abbrev pub segment_is_valid : Utf8 → Bool
segment_is_valid [] = false
segment_is_valid (b ∷ bs) =
    is_lowercase b && all (λ c. is_lowercase c || is_digit c || c == b'-') bs

unfoldable pub valid_provider_identity : Utf8 → Bool
unfolding split_dots
valid_provider_identity value =
    not (is_empty value)
    && leb (length value) max_provider_id_bytes
    && all segment_is_valid (split_dots value)

-- `GenerationProviderId::try_new` and `GenerationProviderRouteId::try_new`
unfoldable pub provider_identity : Utf8 → Result GenerationTaskDomainError Utf8
unfolding valid_provider_identity
provider_identity value =
    if valid_provider_identity value then ok value else err invalid_provider_identity

pub record NodeCapabilityContractRef : Type 0 where
  pub id : Utf8
  pub major : ℕ
  pub minor : ℕ

pub record GenerationTaskOrigin : Type 0 where
  pub project_id : Uuid
  pub workflow_id : Uuid
  pub workflow_revision : ℕ
  pub workflow_run_id : Uuid
  pub workflow_node_id : Uuid
  pub workflow_node_execution_id : Uuid
  pub capability_contract_ref : NodeCapabilityContractRef

pub record GenerationTaskTarget : Type 0 where
  pub generation_profile_id : Utf8
  pub generation_profile_version : ℕ
  pub provider_id : Utf8
  pub route_id : Utf8

-- UTC milliseconds, an `i64` that its constructor keeps non-negative.
abbrev pub GenerationTaskTimestamp : Type 0
GenerationTaskTimestamp = ℕ

-- A `u64` that is not zero.
abbrev pub GenerationTaskRevision : Type 0
GenerationTaskRevision = ℕ

abbrev pub initial : GenerationTaskRevision
initial = 1

-- `checked_add(1)`
unfoldable pub next :
    GenerationTaskRevision → Result GenerationTaskDomainError GenerationTaskRevision
next revision = if ltb (revision + 1) (2 ^ 64) then ok (revision + 1) else err invalid_revision

-- `GenerationTaskRevision::try_new`
unfoldable pub revision : ℕ → Result GenerationTaskDomainError GenerationTaskRevision
revision value = if value == 0 then err invalid_revision else ok value
