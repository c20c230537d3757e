-- ===== src/Graph/Aggregate.antt =====
-- crates/engine/src/workflow_graph/aggregate.rs: restoring a graph, with every check of a draft.
pub mod Parts
pub mod Saved
pub mod Linked
pub mod Draft
use oh_my_dream.Common.{
  ℕ, ◌^◌, Bool, true, false, not, ◌&&◌, ◌||◌, Option, none, some, List, [], ◌∷◌, map, any, contains,
  length, list_eq, ltb, ◌==◌, Result, ok, err, ok_or, ensure, ◌>>=◌, ◌>>◌, if◌then◌else◌,
}
use oh_my_dream.Common.Bytes.{Utf8, nat_ord, text_ord}
use oh_my_dream.Common.Maps.{BTreeMap, get, contains_key, insert, collect_onto}
use oh_my_dream.Workflow.Value.{
  WorkflowId, ProjectId, WorkflowNodeId, WorkflowInputItemEntity, WorkflowInputBinding, single,
  ordered_references, items,
}
use oh_my_dream.Capability.Parameter.{WorkflowDataType}
use oh_my_dream.Capability.Contract.{
  NodeCapabilityContract, NodeCapabilityInputContract, NodeCapabilityOutputContract,
  NodeCapabilityInputBindingContract, optional_single_value, required_single_value, map_err,
  exceeds,
}
use oh_my_dream.Capability.Contract
use oh_my_dream.Capability.Registry.{
  WorkflowNodeCapabilityRegistry, ref_ord, resolve_node_capability,
}
use oh_my_dream.Graph.Value.{
  WorkflowGraphError, timestamp_out_of_range, duplicate_node, input_occupied, reference_violation,
  node_not_found, input_not_found, duplicate_input_item, binding_shape_mismatch,
  cardinality_violation, self_edge, output_not_found, data_type_mismatch, role_violation,
  WorkflowNodeEntity, WorkflowInputTarget, target_ord,
}
use oh_my_dream.Graph.Cycles.{edges, reject_cycles}

abbrev pub Nodes : Type 0 → Type 0
Nodes P = BTreeMap WorkflowNodeId (WorkflowNodeEntity P)

abbrev pub Bindings : Type 0
Bindings = BTreeMap WorkflowInputTarget WorkflowInputBinding

abbrev pub Contracts : Type 0
Contracts = BTreeMap WorkflowNodeId NodeCapabilityContract

pub record WorkflowAggregate (P : Type 0) : Type 0 where
  pub schema_version : ℕ
  pub id : WorkflowId
  pub project_id : ProjectId
  pub revision : ℕ
  pub created_at : ℕ
  pub updated_at : ℕ
  pub nodes : Nodes P
  pub input_bindings : Bindings

pub record WorkflowAggregateRestoreData (P : Type 0) : Type 0 where
  pub schema_version : ℕ
  pub id : WorkflowId
  pub project_id : ProjectId
  pub revision : ℕ
  pub created_at : ℕ
  pub updated_at : ℕ
  pub nodes : List (WorkflowNodeEntity P)
  pub input_bindings : List (WorkflowInputTarget × WorkflowInputBinding)

abbrev pub by_id :
    {P : Type 0} → List (WorkflowNodeEntity P) → List (WorkflowNodeId × WorkflowNodeEntity P)
by_id = map (λ node. (node.id, node))

unfoldable pub collect_unique_nodes :
    {P : Type 0} → List (WorkflowNodeEntity P) → Result WorkflowGraphError (Nodes P)
collect_unique_nodes nodes = collect_onto duplicate_node (by_id nodes) []

unfoldable pub collect_unique_bindings :
    List (WorkflowInputTarget × WorkflowInputBinding) → Result WorkflowGraphError Bindings
collect_unique_bindings bindings = collect_onto input_occupied bindings []

-- `contracts` holds those of the nodes before.
unfoldable pub resolve_contracts :
    {P : Type 0}
    → WorkflowNodeCapabilityRegistry
    → Nodes P
    → Contracts
    → Result WorkflowGraphError Contracts
resolve_contracts capabilities [] contracts = ok contracts
resolve_contracts capabilities ((id, node) ∷ rest) contracts = do
  implementation ←
      map_err (λ e. reference_violation)
        (resolve_node_capability capabilities node.capability_contract)
  parameters ←
      map_err (λ e. reference_violation)
        (implementation.normalize_node_parameters node.parameter_set)
  resolve_contracts capabilities rest
      (insert node.id implementation.node_capability_contract contracts)

abbrev pub find_input : Utf8 → List NodeCapabilityInputContract → Option NodeCapabilityInputContract
find_input key [] = none
find_input key (i ∷ is) = if list_eq i.key key then some i else find_input key is

abbrev pub find_output :
    Utf8 → List NodeCapabilityOutputContract → Option NodeCapabilityOutputContract
find_output key [] = none
find_output key (o ∷ os) = if list_eq o.key key then some o else find_output key os

abbrev pub type_eq : WorkflowDataType → WorkflowDataType → Bool
type_eq WorkflowDataType.text WorkflowDataType.text = true
type_eq WorkflowDataType.image WorkflowDataType.image = true
type_eq WorkflowDataType.video WorkflowDataType.video = true
type_eq WorkflowDataType.audio WorkflowDataType.audio = true
type_eq _ _ = false

unfoldable pub validate_binding_shape :
    WorkflowInputBinding → NodeCapabilityInputBindingContract → Result WorkflowGraphError Unit
validate_binding_shape (single item) (optional_single_value data_type) = ok tt
validate_binding_shape (single item) (required_single_value data_type) = ok tt
validate_binding_shape (ordered_references items)
      (Contract.ordered_references minimum maximum roles) =
    if not (ltb (length items) (2 ^ 32))
    then err cardinality_violation
    else if ltb (length items) minimum || exceeds maximum (length items)
    then err cardinality_violation
    else ok tt
validate_binding_shape _ _ = err binding_shape_mismatch

abbrev pub role_accepts :
    Option Utf8
    → BTreeMap Utf8 (List WorkflowDataType)
    → WorkflowDataType
    → Result WorkflowGraphError Unit
role_accepts none roles data_type = err role_violation
role_accepts (some role) roles data_type = do
  accepted ← ok_or (get role roles) role_violation
  ensure (any (λ t. type_eq t data_type) accepted) data_type_mismatch

-- The `match` on the input at the end of `validate_item`.
unfoldable pub accepts_type :
    NodeCapabilityInputBindingContract
    → WorkflowInputItemEntity
    → WorkflowDataType
    → Result WorkflowGraphError Unit
accepts_type (optional_single_value data_type) item output =
    ensure (type_eq output data_type) data_type_mismatch
accepts_type (required_single_value data_type) item output =
    ensure (type_eq output data_type) data_type_mismatch
accepts_type (Contract.ordered_references minimum maximum roles) item output =
    role_accepts item.input_role_key roles output

unfoldable pub validate_item :
    {P : Type 0}
    → Nodes P
    → Contracts
    → WorkflowInputTarget
    → WorkflowInputItemEntity
    → NodeCapabilityInputBindingContract
    → Result WorkflowGraphError Unit
unfolding accepts_type
validate_item nodes contracts target item input = do
  ensure (not (item.source_node_id == target.node_id)) self_edge
  ensure (contains_key item.source_node_id nodes) node_not_found
  contract ← ok_or (get item.source_node_id contracts) node_not_found
  output ← ok_or (find_output item.source_output_key contract.outputs) output_not_found
  accepts_type input item output.data_type

abbrev pub contains_endpoint : WorkflowNodeId → Utf8 → List (WorkflowNodeId × Utf8) → Bool
contains_endpoint id key endpoints = any (λ e. id == e.0 && list_eq key e.1) endpoints

-- The loop over the items of a binding; it returns the item identities so far.
unfoldable pub validate_items :
    {P : Type 0}
    → Nodes P
    → Contracts
    → WorkflowInputTarget
    → NodeCapabilityInputBindingContract
    → List WorkflowInputItemEntity
    → (item_ids : List ℕ) → (endpoints : List (WorkflowNodeId × Utf8))
    → Result WorkflowGraphError (List ℕ)
unfolding validate_item
validate_items nodes contracts target input [] item_ids endpoints = ok item_ids
validate_items nodes contracts target input (item ∷ rest) item_ids endpoints = do
  ensure (not (contains item.id item_ids)) duplicate_input_item
  ensure (not (contains_endpoint item.source_node_id item.source_output_key endpoints))
      reference_violation
  validate_item nodes contracts target item input
  validate_items nodes contracts target input rest (item.id ∷ item_ids)
      ((item.source_node_id, item.source_output_key) ∷ endpoints)

unfoldable pub validate_bindings :
    {P : Type 0}
    → Nodes P
    → Bindings
    → Contracts
    → (item_ids : List ℕ) → Result WorkflowGraphError (List ℕ)
unfolding validate_items validate_binding_shape
validate_bindings nodes [] contracts item_ids = ok item_ids
validate_bindings nodes ((target, binding) ∷ rest) contracts item_ids = do
  target_contract ← ok_or (get target.node_id contracts) node_not_found
  input ← ok_or (find_input target.input_key target_contract.inputs) input_not_found
  validate_binding_shape binding input.binding
  item_ids' ← validate_items nodes contracts target input.binding (items binding) item_ids []
  validate_bindings nodes rest contracts item_ids'

abbrev pub node_ids : {P : Type 0} → Nodes P → List WorkflowNodeId
node_ids = map (λ e. e.0)

unfoldable pub try_restore :
    {P : Type 0}
    → WorkflowAggregateRestoreData P
    → WorkflowNodeCapabilityRegistry
    → Result WorkflowGraphError (WorkflowAggregate P)
try_restore d capabilities = do
  ensure (not (ltb d.updated_at d.created_at)) timestamp_out_of_range
  nodes ← collect_unique_nodes d.nodes
  input_bindings ← collect_unique_bindings d.input_bindings
  contracts ← resolve_contracts capabilities nodes []
  item_ids ← validate_bindings nodes input_bindings contracts []
  reject_cycles (node_ids nodes) (edges input_bindings)
  ok (record {
    schema_version = d.schema_version;
    id = d.id;
    project_id = d.project_id;
    revision = d.revision;
    created_at = d.created_at;
    updated_at = d.updated_at;
    nodes = nodes;
    input_bindings = input_bindings;
  })
