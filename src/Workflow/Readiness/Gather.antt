-- ===== src/Workflow/Readiness/Gather.antt =====
-- crates/engine/src/workflow/use_case.rs: how the structural issues of the nodes and the issues that
-- their capabilities report become one report.
use oh_my_dream.Common.{
  Bool, true, false, not, Option, none, some, List, [], ◌∷◌, ◌++◌, contains, filter, map, ◌==◌,
  Result, ok, err, ◌>>=◌, if◌then◌else◌,
}
use oh_my_dream.Common.Bytes.{Ord}
use oh_my_dream.Workflow.Value.{
  WorkflowNodeId, ProjectId, NodeCapabilityContractRef, WorkflowInputBinding,
}
use oh_my_dream.Capability.Parameter.{
  NodeCapabilityParameterSet, NodeCapabilityParameterErrorCategory,
}
use oh_my_dream.Capability.Registry.{
  WorkflowNodeCapabilityInterface, WorkflowNodeCapabilityRegistry, resolve_node_capability,
}
use oh_my_dream.Graph.Value.{WorkflowInputTarget, WorkflowNodeEntity}
use oh_my_dream.Graph.Aggregate.{Nodes, Bindings, WorkflowAggregate}
use oh_my_dream.Workflow.Readiness.{
  WorkflowStructuralReadinessNode, WorkflowReadinessIssue, capability_unregistered,
  WorkflowReadinessResult, ready, blocked, from_issues, check,
}
use oh_my_dream.Workflow.Readiness
use oh_my_dream.Workflow.Application.{WorkflowApplicationError, workflow_persistence_failure}
use oh_my_dream.Workflow.Readiness.External.{
  NodeCapabilityReadinessIssue, invalid_capability_invocation, managed_asset_unavailable,
  managed_asset_kind_mismatch, managed_asset_readiness_indeterminate,
  generation_profile_incompatible, generation_profile_unavailable,
  generation_profile_availability_indeterminate, capability, managed_asset, generation_profile,
}

unfoldable pub project_external_issue :
    WorkflowNodeId
    → NodeCapabilityContractRef
    → NodeCapabilityReadinessIssue
    → WorkflowReadinessIssue NodeCapabilityReadinessIssue
project_external_issue node_id capability_ref i = elim i.category [
  | generation_profile_incompatible ↦ elim i.target [
    | generation_profile key id version ↦
        Readiness.generation_profile_incompatible node_id id version capability_ref
    | capability ↦ Readiness.capability_external node_id i
    | managed_asset key id ↦ Readiness.capability_external node_id i
  ]
  | generation_profile_unavailable ↦ elim i.target [
    | generation_profile key id version ↦
        Readiness.generation_profile_unavailable node_id id version
    | capability ↦ Readiness.capability_external node_id i
    | managed_asset key id ↦ Readiness.capability_external node_id i
  ]
  | generation_profile_availability_indeterminate ↦ elim i.target [
    | generation_profile key id version ↦
        Readiness.generation_profile_availability_indeterminate node_id id version
    | capability ↦ Readiness.capability_external node_id i
    | managed_asset key id ↦ Readiness.capability_external node_id i
  ]
  | invalid_capability_invocation ↦ Readiness.capability_external node_id i
  | managed_asset_unavailable ↦ Readiness.capability_external node_id i
  | managed_asset_kind_mismatch ↦ Readiness.capability_external node_id i
  | managed_asset_readiness_indeterminate ↦ Readiness.capability_external node_id i
]

-- The issues of one node; `external` is the call of the capability's own check.
abbrev pub External : Type 0
External =
    WorkflowNodeCapabilityInterface
    → ProjectId
    → NodeCapabilityParameterSet
    → List NodeCapabilityReadinessIssue

abbrev pub own_bindings :
    WorkflowNodeId → Bindings → List (WorkflowInputTarget × WorkflowInputBinding)
own_bindings id = filter (λ e. e.0.node_id == id)

abbrev pub issues_of : {I : Type 0} → WorkflowReadinessResult I → List (WorkflowReadinessIssue I)
issues_of ready = []
issues_of (blocked issues) = issues

-- What the policy reads of a node.
abbrev pub structural_node :
    {P : Type 0}
    → WorkflowNodeCapabilityInterface
    → Bindings
    → WorkflowNodeEntity P
    → WorkflowStructuralReadinessNode
structural_node implementation bindings node = record {
  node_id = node.id;
  contract = implementation.node_capability_contract;
  parameters = node.parameter_set;
  input_bindings = own_bindings node.id bindings;
}

abbrev is_missing_parameter : NodeCapabilityParameterErrorCategory → Bool
is_missing_parameter NodeCapabilityParameterErrorCategory.required_parameter_missing = true
is_missing_parameter _ = false

abbrev pub is_selected : Option (List WorkflowNodeId) → WorkflowNodeId → Bool
is_selected none id = true
is_selected (some selected) id = contains id selected

abbrev pub Issues : Type 0
Issues = List (WorkflowReadinessIssue NodeCapabilityReadinessIssue)

module _ {P : Type 0} (capabilities : WorkflowNodeCapabilityRegistry) (external : External)
    ⦃o : Ord NodeCapabilityReadinessIssue⦄ where
  abbrev structural : WorkflowNodeCapabilityInterface → Bindings → WorkflowNodeEntity P → Issues
  structural implementation bindings node =
      issues_of (check (structural_node implementation bindings node ∷ []))

  unfoldable pub node_issues :
      ProjectId
      → Bindings
      → WorkflowNodeEntity P
      → Result (WorkflowApplicationError NodeCapabilityReadinessIssue) Issues
  unfolding project_external_issue
  node_issues project_id bindings node =
      elim (resolve_node_capability capabilities node.capability_contract)
        as (λ x. Result (WorkflowApplicationError NodeCapabilityReadinessIssue) Issues) [
          | err e ↦ ok (capability_unregistered node.id node.capability_contract ∷ [])
          | ok implementation ↦
              elim (implementation.normalize_node_parameters node.parameter_set)
                as (λ x. Result (WorkflowApplicationError NodeCapabilityReadinessIssue) Issues) [
                  | ok normalized ↦ ok (
                      structural implementation bindings node
                      ++ map (project_external_issue node.id node.capability_contract)
                          (external implementation project_id normalized))
                  | err e ↦
                      if is_missing_parameter e.category
                      then ok (structural implementation bindings node)
                      else err workflow_persistence_failure
                ]
        ]

  -- The loop of `check_readiness_for_nodes`
  unfoldable pub gather_issues :
      Option (List WorkflowNodeId)
      → ProjectId
      → Bindings
      → Nodes P
      → Result (WorkflowApplicationError NodeCapabilityReadinessIssue) Issues
  gather_issues selected project_id bindings [] = ok []
  gather_issues selected project_id bindings ((id, node) ∷ rest) =
      let later = gather_issues selected project_id bindings rest in
      if not (is_selected selected node.id)
      then later
      else do here ← node_issues project_id bindings node; issues ← later; ok (here ++ issues)

  unfoldable pub check_readiness_for_nodes :
      WorkflowAggregate P
      → Option (List WorkflowNodeId)
      → Result
          (WorkflowApplicationError NodeCapabilityReadinessIssue)
          (WorkflowReadinessResult NodeCapabilityReadinessIssue)
  check_readiness_for_nodes workflow selected = do
    issues ← gather_issues selected workflow.project_id workflow.input_bindings workflow.nodes
    ok (from_issues issues)
