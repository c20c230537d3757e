-- ===== src/Tasks/Request.antt =====
-- crates/tasks/src/generation_task/domain/request.rs and result.rs
use oh_my_dream.Common.{
  ℕ, Bool, true, false, not, ◌||◌, Option, List, length, is_empty, ltb, Result, ok, err,
  if◌then◌else◌,
}
use oh_my_dream.Tasks.Identity.{
  Utf8, Uuid, GenerationTaskDomainError, invalid_text, invalid_request,
}

abbrev pub max_generation_task_text_bytes : ℕ
max_generation_task_text_bytes = 65536

-- `GenerationTaskText::try_new`
unfoldable pub generation_task_text : Utf8 → Result GenerationTaskDomainError Utf8
generation_task_text value =
    if is_empty value || ltb max_generation_task_text_bytes (length value)
    then err invalid_text
    else ok value

pub data AssetMediaKind : Type 0 where
  image video audio : AssetMediaKind

pub data ImageAspectRatio : Type 0 where
  square landscape_4_to_3 portrait_3_to_4 landscape_16_to_9 portrait_9_to_16 : ImageAspectRatio

pub data VideoDurationSeconds : Type 0 where
  five ten : VideoDurationSeconds

pub record AssetSnapshotRef : Type 0 where
  pub asset_id : Uuid
  pub media_kind : AssetMediaKind
  pub content_hash : List ℕ

pub record VideoGenerationSpec : Type 0 where
  pub input_image : AssetSnapshotRef
  pub duration_seconds : VideoDurationSeconds
  pub prompt : Option Utf8

abbrev pub is_image : AssetMediaKind → Bool
is_image AssetMediaKind.image = true
is_image _ = false

-- `VideoGenerationSpec::try_new`
unfoldable pub video_generation_spec :
    AssetSnapshotRef
    → VideoDurationSeconds
    → Option Utf8
    → Result GenerationTaskDomainError VideoGenerationSpec
video_generation_spec input_image duration_seconds prompt =
    if not (is_image input_image.media_kind)
    then err invalid_request
    else ok
        (record { input_image = input_image; duration_seconds = duration_seconds; prompt = prompt })

pub data GenerationTaskRequestKind : Type 0 where
  text image voice video : GenerationTaskRequestKind

pub data GenerationTaskRequest : Type 0 where
  text : (prompt : Utf8) → GenerationTaskRequest
  image : (prompt : Utf8) (aspect_ratio : ImageAspectRatio) → GenerationTaskRequest
  voice : (text : Utf8) → GenerationTaskRequest
  video : VideoGenerationSpec → GenerationTaskRequest

unfoldable pub kind : GenerationTaskRequest → GenerationTaskRequestKind
kind (GenerationTaskRequest.text prompt) = GenerationTaskRequestKind.text
kind (GenerationTaskRequest.image prompt ratio) = GenerationTaskRequestKind.image
kind (GenerationTaskRequest.voice script) = GenerationTaskRequestKind.voice
kind (GenerationTaskRequest.video spec) = GenerationTaskRequestKind.video

pub record GenerationTaskAssetResult : Type 0 where
  pub asset_id : Uuid
  pub media_kind : AssetMediaKind

pub data GenerationTaskResult : Type 0 where
  text : (content : Utf8) → GenerationTaskResult
  asset : GenerationTaskAssetResult → GenerationTaskResult
