-- ===== src/Workflow/Readiness/External.antt =====
-- crates/engine/src/node_capability/execution.rs: the readiness issues that capabilities report.
pub mod Calls
use oh_my_dream.Common.{
  ℕ, Bool, true, false, not, ◌&&◌, Option, none, some, Result, ok, ensure, ◌>>◌,
}
use oh_my_dream.Common.Bytes.{Utf8}
use oh_my_dream.Capability.Parameter.{WorkflowDataType, is_text}
use oh_my_dream.Graph.Aggregate.{type_eq}

pub data NodeCapabilityReadinessCategory : Type 0 where
  invalid_capability_invocation managed_asset_unavailable : NodeCapabilityReadinessCategory
  managed_asset_kind_mismatch managed_asset_readiness_indeterminate :
      NodeCapabilityReadinessCategory
  generation_profile_incompatible generation_profile_unavailable : NodeCapabilityReadinessCategory
  generation_profile_availability_indeterminate : NodeCapabilityReadinessCategory

pub data NodeCapabilityReadinessTarget : Type 0 where
  capability : NodeCapabilityReadinessTarget
  managed_asset : (parameter_key : Utf8) (asset_id : ℕ) → NodeCapabilityReadinessTarget
  generation_profile :
      (parameter_key profile_id : Utf8) (version : ℕ) → NodeCapabilityReadinessTarget

pub record NodeCapabilityReadinessIssue : Type 0 where
  pub category : NodeCapabilityReadinessCategory
  pub target : NodeCapabilityReadinessTarget
  pub media_kind_mismatch : Option (WorkflowDataType × WorkflowDataType)

pub data NodeCapabilityReadinessIssueConstructionError : Type 0 where
  issue_shape_invalid : NodeCapabilityReadinessIssueConstructionError

abbrev is_managed : NodeCapabilityReadinessTarget → Bool
is_managed (managed_asset key id) = true
is_managed _ = false

abbrev is_profile : NodeCapabilityReadinessTarget → Bool
is_profile (generation_profile key id version) = true
is_profile _ = false

abbrev is_capability : NodeCapabilityReadinessTarget → Bool
is_capability capability = true
is_capability _ = false

abbrev is_missing : Option (WorkflowDataType × WorkflowDataType) → Bool
is_missing none = true
is_missing (some kinds) = false

abbrev pub is_mismatch : Option (WorkflowDataType × WorkflowDataType) → Bool
is_mismatch none = false
is_mismatch (some (expected, observed)) =
    not (type_eq expected observed) && not (is_text expected) && not (is_text observed)

abbrev pub is_valid :
    NodeCapabilityReadinessCategory
    → NodeCapabilityReadinessTarget
    → Option (WorkflowDataType × WorkflowDataType)
    → Bool
is_valid invalid_capability_invocation target kinds = is_capability target && is_missing kinds
is_valid managed_asset_unavailable target kinds = is_managed target && is_missing kinds
is_valid managed_asset_kind_mismatch target kinds = is_managed target && is_mismatch kinds
is_valid managed_asset_readiness_indeterminate target kinds = is_managed target && is_missing kinds
is_valid generation_profile_incompatible target kinds = is_profile target && is_missing kinds
is_valid generation_profile_unavailable target kinds = is_profile target && is_missing kinds
is_valid generation_profile_availability_indeterminate target kinds =
    is_profile target && is_missing kinds

unfoldable pub try_new :
    NodeCapabilityReadinessCategory
    → NodeCapabilityReadinessTarget
    → Option (WorkflowDataType × WorkflowDataType)
    → Result NodeCapabilityReadinessIssueConstructionError NodeCapabilityReadinessIssue
try_new category target media_kind_mismatch = do
  ensure (is_valid category target media_kind_mismatch) issue_shape_invalid
  ok (record { category = category; target = target; media_kind_mismatch = media_kind_mismatch })

-- The constructors, in the order of the categories.
pub data Call : Type 0 where
  invocation : Call
  unavailable : (parameter_key : Utf8) (asset_id : ℕ) → Call
  mismatch : (parameter_key : Utf8) (asset_id : ℕ) (expected observed : WorkflowDataType) → Call
  indeterminate : (parameter_key : Utf8) (asset_id : ℕ) → Call
  incompatible_profile unavailable_profile : (key profile_id : Utf8) (version : ℕ) → Call
  indeterminate_profile : (key profile_id : Utf8) (version : ℕ) → Call

abbrev issue :
    NodeCapabilityReadinessCategory
    → NodeCapabilityReadinessTarget
    → Result NodeCapabilityReadinessIssueConstructionError NodeCapabilityReadinessIssue
issue category target =
    ok (record { category = category; target = target; media_kind_mismatch = none })

unfoldable pub construct :
    Call → Result NodeCapabilityReadinessIssueConstructionError NodeCapabilityReadinessIssue
unfolding try_new
construct invocation = issue invalid_capability_invocation capability
construct (unavailable key id) = issue managed_asset_unavailable (managed_asset key id)
construct (mismatch key id expected observed) =
    try_new managed_asset_kind_mismatch (managed_asset key id) (some (expected, observed))
construct (indeterminate key id) =
    issue managed_asset_readiness_indeterminate (managed_asset key id)
construct (incompatible_profile key id version) =
    issue generation_profile_incompatible (generation_profile key id version)
construct (unavailable_profile key id version) =
    issue generation_profile_unavailable (generation_profile key id version)
construct (indeterminate_profile key id version) =
    issue generation_profile_availability_indeterminate (generation_profile key id version)
