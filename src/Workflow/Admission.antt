-- ===== src/Workflow/Admission.antt =====
-- crates/engine/src/workflow/run_admission.rs, the readiness of use_case.rs and the admission values
-- of interface.rs: from a graph to the queued Run that is committed. What the repositories, the
-- clock and the identity generator return are arguments; `fresh` gives the node-execution identities
-- in the order in which they are generated.
pub mod Order
pub mod Checked
pub mod Generated
pub mod Frozen
pub mod Selected
pub mod Freeze
use oh_my_dream.Common.{
  ℕ, zero, suc, Option, none, some, List, [], ◌∷◌, ◌++◌, filter, length, contains, to_set, ◌==◌,
  Result, ok, err, ok_or, ensure, ◌>>=◌, ◌>>◌, if◌then◌else◌,
}
use oh_my_dream.Common.Bytes.{Ord, nat_ord}
use oh_my_dream.Common.Maps.{get}
use oh_my_dream.Workflow.Value.{
  WorkflowRunScope, whole_workflow, through_node, WorkflowNodeId, WorkflowNodeExecutionId, items,
}
use oh_my_dream.Capability.Contract.{map_err}
use oh_my_dream.Capability.Registry.{WorkflowNodeCapabilityRegistry, resolve_node_capability}
use oh_my_dream.Graph.Value.{node_not_found, cycle}
use oh_my_dream.Graph.Aggregate.{Bindings, WorkflowAggregate, node_ids}
use oh_my_dream.Workflow.Readiness.{capability_unregistered, from_issues}
use oh_my_dream.Workflow.Plan.{
  WorkflowPlannedInputBinding, WorkflowPlannedNode, WorkflowExecutionPlan, item_sources, next_ready,
  remove, ancestors, try_new,
}
use oh_my_dream.Workflow.Application.{
  WorkflowApplicationError, workflow_graph, workflow_not_ready, workflow_persistence_failure,
  unreachable,
}

-- `incoming` at a node, and the sources of which `dependencies` makes a set.
unfoldable pub incoming_sources : Bindings → WorkflowNodeId → List WorkflowNodeId
incoming_sources [] id = []
incoming_sources ((target, binding) ∷ rest) id =
    let later = incoming_sources rest id in
    if target.node_id == id then item_sources (items binding) ++ later else later

abbrev pub incoming : Bindings → WorkflowNodeId → List WorkflowNodeId
incoming bindings id = to_set (incoming_sources bindings id)

abbrev pub gathered :
    {I : Type 0}
    → Option (List WorkflowNodeId)
    → Result (WorkflowApplicationError I) (List WorkflowNodeId)
gathered none = err unreachable
gathered (some result) = ok (to_set result)

unfoldable pub through_node_ids :
    {I : Type 0}
    → List WorkflowNodeId
    → Bindings
    → WorkflowNodeId
    → Result (WorkflowApplicationError I) (List WorkflowNodeId)
through_node_ids ids bindings selected = do
  ensure (contains selected ids) (workflow_graph node_not_found)
  gathered (ancestors (length ids) (incoming bindings) (selected ∷ [], selected ∷ []))

unfoldable pub selected_node_ids :
    {I P : Type 0}
    → WorkflowAggregate P
    → WorkflowRunScope
    → Result (WorkflowApplicationError I) (List WorkflowNodeId)
selected_node_ids workflow whole_workflow = ok (node_ids workflow.nodes)
selected_node_ids workflow (through_node selected) =
    through_node_ids (node_ids workflow.nodes) workflow.input_bindings selected

-- The `while let` loop, each round of which takes one of the remaining identities: as many rounds as
-- there are identities empty it.
unfoldable pub take_ready :
    ℕ → (WorkflowNodeId → List WorkflowNodeId) → List WorkflowNodeId → List WorkflowNodeId
take_ready zero dependencies remaining = []
take_ready (suc fuel) dependencies remaining = elim (next_ready dependencies remaining remaining) [
  | none ↦ []
  | some next ↦ next ∷ take_ready fuel dependencies (remove next remaining)
]

-- `dependencies`
abbrev pub selected_dependencies :
    Bindings → List WorkflowNodeId → WorkflowNodeId → List WorkflowNodeId
selected_dependencies bindings selected id =
    to_set (filter (λ source. contains source selected) (incoming_sources bindings id))

unfoldable pub deterministic_topological_order :
    {I : Type 0}
    → Bindings
    → List WorkflowNodeId
    → Result (WorkflowApplicationError I) (List WorkflowNodeId)
deterministic_topological_order bindings selected =
    let order = take_ready (length selected) (selected_dependencies bindings selected) selected in
    if length order == length selected then ok order else err (workflow_graph cycle)

unfoldable pub planned_bindings : WorkflowNodeId → Bindings → List WorkflowPlannedInputBinding
planned_bindings id [] = []
planned_bindings id ((target, binding) ∷ rest) =
    let later = planned_bindings id rest in
    if target.node_id == id
    then record { input_key = target.input_key; binding = binding } ∷ later
    else later

module _ {I P : Type 0} ⦃o : Ord I⦄ (capabilities : WorkflowNodeCapabilityRegistry) where
  -- One round of the loop of `freeze_plan`
  unfoldable pub freeze_node :
      WorkflowAggregate P
      → WorkflowNodeExecutionId
      → WorkflowNodeId
      → Result (WorkflowApplicationError I) WorkflowPlannedNode
  freeze_node workflow execution_id node_id = do
    node ← ok_or (get node_id workflow.nodes) unreachable
    capability ←
        map_err
          (λ e.
            workflow_not_ready
              (from_issues (capability_unregistered node_id node.capability_contract ∷ [])))
          (resolve_node_capability capabilities node.capability_contract)
    normalized ←
        map_err (λ e. workflow_persistence_failure)
          (capability.normalize_node_parameters node.parameter_set)
    ok (record {
      node_id = node_id;
      node_execution_id = execution_id;
      capability_contract = node.capability_contract;
      normalized_parameters = normalized;
      input_bindings = planned_bindings node_id workflow.input_bindings;
    })

  unfoldable pub freeze_nodes :
      WorkflowAggregate P
      → (ℕ → WorkflowNodeExecutionId)
      → ℕ
      → List WorkflowNodeId
      → Result (WorkflowApplicationError I) (List WorkflowPlannedNode)
  freeze_nodes workflow fresh index [] = ok []
  freeze_nodes workflow fresh index (id ∷ ids) = do
    node ← freeze_node workflow (fresh index) id
    nodes ← freeze_nodes workflow fresh (suc index) ids
    ok (node ∷ nodes)

  unfoldable pub freeze_plan :
      WorkflowAggregate P
      → WorkflowRunScope
      → List WorkflowNodeId
      → (ℕ → WorkflowNodeExecutionId)
      → Result (WorkflowApplicationError I) WorkflowExecutionPlan
  freeze_plan workflow scope selected fresh = do
    order ← deterministic_topological_order workflow.input_bindings selected
    nodes ← freeze_nodes workflow fresh 0 order
    map_err (λ e. workflow_persistence_failure) (try_new workflow.id workflow.revision scope nodes)
