-- ===== src/Workflow/Value.antt =====
-- crates/engine/src/workflow/value.rs, workflow/error.rs and the values of workflow_graph/entity.rs
-- that a Run carries. A UUID is its 128 bits as a number, in the order of its bytes.
pub mod Sequence
pub mod RunState
pub mod NodeState
use oh_my_dream.Common.{ℕ, Option, List, [], ◌∷◌}
use oh_my_dream.Common.Bytes.{Utf8}

abbrev pub WorkflowId : Type 0
WorkflowId = ℕ

abbrev pub ProjectId : Type 0
ProjectId = ℕ

abbrev pub WorkflowNodeId : Type 0
WorkflowNodeId = ℕ

abbrev pub WorkflowRunId : Type 0
WorkflowRunId = ℕ

abbrev pub WorkflowNodeExecutionId : Type 0
WorkflowNodeExecutionId = ℕ

abbrev pub WorkflowRevision : Type 0
WorkflowRevision = ℕ

pub data WorkflowDomainError : Type 0 where
  workflow_illegal_run_transition : WorkflowDomainError
  workflow_illegal_node_execution_transition : WorkflowDomainError
  workflow_progress_out_of_range : WorkflowDomainError
  workflow_progress_regression : WorkflowDomainError
  workflow_run_event_sequence_overflow : WorkflowDomainError
  workflow_incomplete_output_set : WorkflowDomainError
  workflow_terminal_state_immutable : WorkflowDomainError
  invalid_workflow_run_value : WorkflowDomainError
  invalid_workflow_execution_plan : WorkflowDomainError

pub data WorkflowRunScope : Type 0 where
  whole_workflow : WorkflowRunScope
  through_node : WorkflowNodeId → WorkflowRunScope

-- UTC milliseconds, an `i64` that its constructor keeps non-negative.
abbrev pub WorkflowRunTime : Type 0
WorkflowRunTime = ℕ

-- A `u64` that is not zero.
abbrev pub WorkflowRunEventSequence : Type 0
WorkflowRunEventSequence = ℕ

pub data WorkflowRunState : Type 0 where
  queued running succeeded failed cancelled : WorkflowRunState

pub data WorkflowNodeExecutionState : Type 0 where
  pending running waiting_for_external_completion : WorkflowNodeExecutionState
  succeeded failed cancelled blocked : WorkflowNodeExecutionState

pub record NodeCapabilityContractRef : Type 0 where
  pub id : Utf8
  pub major : ℕ
  pub minor : ℕ

pub data NodeCapabilityParameterValue : Type 0 where
  unsigned_integer : ℕ → NodeCapabilityParameterValue
  text : Utf8 → NodeCapabilityParameterValue
  choice : Utf8 → NodeCapabilityParameterValue
  generation_profile : (profile_id : Utf8) (version : ℕ) → NodeCapabilityParameterValue
  managed_asset : ℕ → NodeCapabilityParameterValue

pub record WorkflowInputItemEntity : Type 0 where
  pub id : ℕ
  pub source_node_id : WorkflowNodeId
  pub source_output_key : Utf8
  pub input_role_key : Option Utf8

pub data WorkflowInputBinding : Type 0 where
  single : WorkflowInputItemEntity → WorkflowInputBinding
  ordered_references : List WorkflowInputItemEntity → WorkflowInputBinding

abbrev pub items : WorkflowInputBinding → List WorkflowInputItemEntity
items (single item) = item ∷ []
items (ordered_references entries) = entries
