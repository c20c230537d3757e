-- ===== src/Workflow/Plan.antt =====
-- crates/engine/src/workflow/plan.rs: the frozen execution plan of a Run and its admission.
pub mod Checks
pub mod Closure
pub mod Order
pub mod Scope
pub mod Accepts
use oh_my_dream.Common.{
  ℕ, zero, suc, Bool, true, false, not, ◌||◌, Option, none, some, List, [], ◌∷◌, ◌++◌, map, all,
  length, list_eq, to_set, contains, is_empty, ltb, ◌==◌, Result, ok, ensure, ◌>>=◌, ◌>>◌,
  if◌then◌else◌,
}
use oh_my_dream.Common.Bytes.{Utf8}
use oh_my_dream.Workflow.Value.{
  WorkflowId, WorkflowRevision, WorkflowRunScope, whole_workflow, through_node, WorkflowNodeId,
  WorkflowNodeExecutionId, NodeCapabilityContractRef, NodeCapabilityParameterValue,
  WorkflowInputBinding, WorkflowInputItemEntity, items, WorkflowDomainError,
  invalid_workflow_execution_plan,
}

pub record WorkflowPlannedInputBinding : Type 0 where
  pub input_key : Utf8
  pub binding : WorkflowInputBinding

pub record WorkflowPlannedNode : Type 0 where
  pub node_id : WorkflowNodeId
  pub node_execution_id : WorkflowNodeExecutionId
  pub capability_contract : NodeCapabilityContractRef
  pub normalized_parameters : List (Utf8 × NodeCapabilityParameterValue)
  pub input_bindings : List WorkflowPlannedInputBinding

pub record WorkflowExecutionPlan : Type 0 where
  pub workflow_id : WorkflowId
  pub workflow_revision : WorkflowRevision
  pub scope : WorkflowRunScope
  pub nodes : List WorkflowPlannedNode

abbrev pub node_ids : List WorkflowPlannedNode → List WorkflowNodeId
node_ids = map (λ n. n.node_id)

abbrev pub execution_ids : List WorkflowPlannedNode → List WorkflowNodeExecutionId
execution_ids = map (λ n. n.node_execution_id)

-- The sources of all items of all bindings, in order.
abbrev pub item_sources : List WorkflowInputItemEntity → List WorkflowNodeId
item_sources = map (λ item. item.source_node_id)

abbrev pub binding_sources : List WorkflowPlannedInputBinding → List WorkflowNodeId
binding_sources [] = []
binding_sources (b ∷ bs) = item_sources (items b.binding) ++ binding_sources bs

unfoldable pub sources : WorkflowPlannedNode → List WorkflowNodeId
sources node = binding_sources node.input_bindings

-- `positions`: a map from identity to index; of equal identities the last one stays.
unfoldable pub position : ℕ → WorkflowNodeId → List WorkflowPlannedNode → Option ℕ
position index id [] = none
position index id (n ∷ ns) = elim (position (suc index) id ns) [
  | some later ↦ some later
  | none ↦ if n.node_id == id then some index else none
]

-- The size of a `BTreeSet<&NodeCapabilityInputKey>`.
abbrev pub contains_key : Utf8 → List Utf8 → Bool
contains_key k [] = false
contains_key k (j ∷ js) = list_eq j k || contains_key k js

unfoldable pub distinct_keys : List Utf8 → ℕ
distinct_keys [] = 0
distinct_keys (k ∷ ks) = if contains_key k ks then distinct_keys ks else suc (distinct_keys ks)

-- The map `dependencies` at a node.
unfoldable pub dependencies : List WorkflowPlannedNode → WorkflowNodeId → List WorkflowNodeId
unfolding sources
dependencies [] id = []
dependencies (n ∷ ns) id =
    let rest = dependencies ns id in if n.node_id == id then to_set (sources n) else rest

-- The first of the remaining identities, in ascending order, none of whose sources remains.
unfoldable pub next_ready :
    (WorkflowNodeId → List WorkflowNodeId)
    → List WorkflowNodeId
    → List WorkflowNodeId
    → Option WorkflowNodeId
next_ready dependencies remaining [] = none
next_ready dependencies remaining (candidate ∷ rest) =
    if all (λ source. not (contains source remaining)) (dependencies candidate)
    then some candidate
    else next_ready dependencies remaining rest

unfoldable pub remove : WorkflowNodeId → List WorkflowNodeId → List WorkflowNodeId
remove id [] = []
remove id (x ∷ xs) = let rest = remove id xs in if x == id then rest else x ∷ rest

abbrev pub is_next : Option WorkflowNodeId → WorkflowNodeId → Bool
is_next none id = false
is_next (some next) id = next == id

unfoldable pub check_order :
    (WorkflowNodeId → List WorkflowNodeId)
    → List WorkflowNodeId
    → List WorkflowPlannedNode
    → Result WorkflowDomainError Unit
unfolding next_ready remove
check_order dependencies remaining [] = ok tt
check_order dependencies remaining (expected ∷ rest) = do
  ensure (is_next (next_ready dependencies remaining remaining) expected.node_id)
      invalid_workflow_execution_plan
  check_order dependencies (remove expected.node_id remaining) rest

unfoldable pub validate_deterministic_order :
    List WorkflowPlannedNode → Result WorkflowDomainError Unit
unfolding check_order
validate_deterministic_order nodes =
    check_order (dependencies nodes) (to_set (node_ids nodes)) nodes

-- `for source in …`: the sources that are new join the set and the stack, whose top is its head.
unfoldable pub push_sources :
    List WorkflowNodeId
    → List WorkflowNodeId × List WorkflowNodeId
    → List WorkflowNodeId × List WorkflowNodeId
push_sources [] s = s
push_sources (source ∷ rest) (included, frontier) = push_sources rest (
    if contains source included
    then (included, frontier)
    else (source ∷ included, source ∷ frontier))

-- The `while let` loop on fuel; `none` means that the fuel ran out.
unfoldable pub ancestors :
    ℕ
    → (WorkflowNodeId → List WorkflowNodeId)
    → List WorkflowNodeId × List WorkflowNodeId
    → Option (List WorkflowNodeId)
ancestors fuel dependencies (included, []) = some included
ancestors zero dependencies (included, node_id ∷ frontier) = none
ancestors (suc fuel) dependencies (included, node_id ∷ frontier) =
    ancestors fuel dependencies (push_sources (dependencies node_id) (included, frontier))

abbrev same_size : Option (List WorkflowNodeId) → List WorkflowPlannedNode → Bool
same_size none nodes = false
same_size (some included) nodes = length included == length nodes

unfoldable pub validate_ancestor_only_scope :
    WorkflowNodeId → List WorkflowPlannedNode → Result WorkflowDomainError Unit
unfolding ancestors
validate_ancestor_only_scope selected nodes =
    ensure
      (same_size (ancestors (length nodes) (dependencies nodes) (selected ∷ [], selected ∷ []))
        nodes)
      invalid_workflow_execution_plan

abbrev pub is_earlier : Option ℕ → ℕ → Bool
is_earlier none target = false
is_earlier (some source) target = ltb source target

-- The loop over the nodes: unique inputs, and every source at an earlier index.
unfoldable pub check_nodes :
    List WorkflowPlannedNode → ℕ → List WorkflowPlannedNode → Result WorkflowDomainError Unit
unfolding distinct_keys sources position
check_nodes nodes index [] = ok tt
check_nodes nodes index (n ∷ ns) = do
  ensure (distinct_keys (map (λ b. b.input_key) n.input_bindings) == length n.input_bindings)
      invalid_workflow_execution_plan
  ensure (all (λ source. is_earlier (position 0 source nodes) index) (sources n))
      invalid_workflow_execution_plan
  check_nodes nodes (suc index) ns

abbrev pub selects : WorkflowRunScope → List WorkflowPlannedNode → Bool
selects whole_workflow nodes = true
selects (through_node selected) nodes = contains selected (node_ids nodes)

abbrev pub validate_scope :
    WorkflowRunScope → List WorkflowPlannedNode → Result WorkflowDomainError Unit
validate_scope whole_workflow nodes = ok tt
validate_scope (through_node selected) nodes = validate_ancestor_only_scope selected nodes

unfoldable pub try_new :
    WorkflowId
    → WorkflowRevision
    → WorkflowRunScope
    → List WorkflowPlannedNode
    → Result WorkflowDomainError WorkflowExecutionPlan
try_new workflow_id workflow_revision scope nodes = do
  ensure (not (is_empty nodes)) invalid_workflow_execution_plan
  ensure (length (to_set (node_ids nodes)) == length nodes) invalid_workflow_execution_plan
  ensure (length (to_set (execution_ids nodes)) == length nodes) invalid_workflow_execution_plan
  ensure (selects scope nodes) invalid_workflow_execution_plan
  check_nodes nodes 0 nodes
  validate_deterministic_order nodes
  validate_scope scope nodes
  ok (record {
    workflow_id = workflow_id;
    workflow_revision = workflow_revision;
    scope = scope;
    nodes = nodes;
  })
