-- ===== src/Tasks/Canonical.antt =====
-- crates/tasks/src/generation_task/domain/canonical.rs: the bytes that the request hash digests.
-- SHA-256 is the sha2 crate's, and a parameter wherever the hash itself is used.
pub mod Prefix
pub mod Injective
use Prim.Native.Nat.{◌/◌, ◌%◌}
use oh_my_dream.Common.{ℕ, zero, suc, Option, none, some, List, [], ◌∷◌, ◌++◌, length}
use oh_my_dream.Tasks.Identity.{Utf8, GenerationTaskOrigin, GenerationTaskTarget}
use oh_my_dream.Tasks.Request.{
  AssetMediaKind, ImageAspectRatio, square, landscape_4_to_3, portrait_3_to_4, landscape_16_to_9,
  portrait_9_to_16, VideoDurationSeconds, five, ten, AssetSnapshotRef, GenerationTaskRequest,
}

-- `to_be_bytes` of an integer of k bytes.
unfoldable pub to_be_bytes : ℕ → ℕ → List ℕ
to_be_bytes zero n = []
to_be_bytes (suc k) n = to_be_bytes k (n / 256) ++ (n % 256) ∷ []

abbrev pub generation_task_request_schema_version : ℕ
generation_task_request_schema_version = 1

-- A `u64` length before the bytes.
unfoldable pub append_text : Utf8 → List ℕ
append_text value = to_be_bytes 8 (length value) ++ value

unfoldable pub append_optional_text : Option Utf8 → List ℕ
append_optional_text none = 0 ∷ []
append_optional_text (some value) = 1 ∷ append_text value

unfoldable pub aspect_ratio_tag : ImageAspectRatio → ℕ
aspect_ratio_tag square = 1
aspect_ratio_tag landscape_4_to_3 = 2
aspect_ratio_tag portrait_3_to_4 = 3
aspect_ratio_tag landscape_16_to_9 = 4
aspect_ratio_tag portrait_9_to_16 = 5

unfoldable pub duration_tag : VideoDurationSeconds → ℕ
duration_tag five = 1
duration_tag ten = 2

unfoldable pub media_kind_tag : AssetMediaKind → ℕ
media_kind_tag AssetMediaKind.image = 1
media_kind_tag AssetMediaKind.video = 2
media_kind_tag AssetMediaKind.audio = 3

unfoldable pub append_asset_snapshot : AssetSnapshotRef → List ℕ
append_asset_snapshot snapshot =
    to_be_bytes 16 snapshot.asset_id ++ (media_kind_tag snapshot.media_kind ∷ snapshot.content_hash)

unfoldable pub append_request : GenerationTaskRequest → List ℕ
append_request (GenerationTaskRequest.text prompt) = 1 ∷ append_text prompt
append_request (GenerationTaskRequest.image prompt ratio) =
    2 ∷ (append_text prompt ++ aspect_ratio_tag ratio ∷ [])
append_request (GenerationTaskRequest.voice script) = 3 ∷ append_text script
append_request (GenerationTaskRequest.video spec) =
    4
    ∷ (append_asset_snapshot spec.input_image
        ++ (duration_tag spec.duration_seconds ∷ append_optional_text spec.prompt))

unfoldable pub append_origin : GenerationTaskOrigin → List ℕ
append_origin origin =
    to_be_bytes 16 origin.project_id
    ++ (to_be_bytes 16 origin.workflow_id
        ++ (to_be_bytes 8 origin.workflow_revision
            ++ (to_be_bytes 16 origin.workflow_run_id
                ++ (to_be_bytes 16 origin.workflow_node_id
                    ++ (to_be_bytes 16 origin.workflow_node_execution_id
                        ++ (append_text origin.capability_contract_ref.id
                            ++ (to_be_bytes 2 origin.capability_contract_ref.major
                                ++ to_be_bytes 2 origin.capability_contract_ref.minor)))))))

unfoldable pub append_target : GenerationTaskTarget → List ℕ
append_target target =
    append_text target.generation_profile_id
    ++ (to_be_bytes 4 target.generation_profile_version
        ++ (append_text target.provider_id ++ append_text target.route_id))

unfoldable pub canonical_bytes :
    GenerationTaskOrigin → GenerationTaskRequest → GenerationTaskTarget → List ℕ
canonical_bytes origin request target =
    to_be_bytes 4 generation_task_request_schema_version
    ++ (append_origin origin ++ (append_request request ++ append_target target))

unfoldable pub canonical_request_hash :
    (List ℕ → List ℕ) → GenerationTaskOrigin → GenerationTaskRequest → GenerationTaskTarget → List ℕ
canonical_request_hash sha256 origin request target = sha256 (canonical_bytes origin request target)
