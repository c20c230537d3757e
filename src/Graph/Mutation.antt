-- ===== src/Graph/Mutation.antt =====
-- crates/engine/src/workflow_graph/mutation_apply.rs, and the actions and the command of
-- mutation_command.rs. A change of the candidate returns the changed graph.
pub mod Action
pub mod Success
pub mod Incident
pub mod Order
pub mod Canonical
use oh_my_dream.Common.{
  ℕ, zero, suc, Bool, not, Option, none, some, List, [], ◌∷◌, map, filter, length, is_empty, ltb,
  ◌==◌, Result, ok, err, ok_or, ensure, ◌>>=◌, ◌>>◌, if◌then◌else◌,
}
use oh_my_dream.Common.Bytes.{Utf8, nat_ord}
use oh_my_dream.Common.Maps.{get, contains_key, insert, remove, retain}
use oh_my_dream.Workflow.Value.{
  WorkflowNodeId, WorkflowInputItemEntity, WorkflowInputBinding, single, ordered_references, items,
}
use oh_my_dream.Capability.Registry.{WorkflowNodeCapabilityRegistry}
use oh_my_dream.Graph.Value.{
  WorkflowGraphError, revision_conflict, binding_shape_mismatch, cardinality_violation,
  duplicate_node, node_not_found, input_not_found, input_item_not_found, input_occupied,
  reference_violation, checked_next, next_from_observation, WorkflowNodeEntity, WorkflowInputTarget,
  target_ord, ordered_items, try_single,
}
use oh_my_dream.Graph.Aggregate.{Bindings, WorkflowAggregate, try_restore}
use oh_my_dream.Graph.Aggregate.Saved.{save}
use oh_my_dream.Graph.Mutation.Action.{
  WorkflowMutationAction, replace_node_parameters, select_node_capability, move_node,
  bind_single_input, WorkflowApplyMutationCommand,
}
use oh_my_dream.Graph.Mutation.Action

-- `iter().position`
abbrev pub position : ℕ → List WorkflowInputItemEntity → Option ℕ
position id [] = none
position id (item ∷ rest) =
    if item.id == id
    then some 0
    else elim (position id rest) [ none ↦ none | some index ↦ some (suc index) ]

-- `Vec::remove` and `Vec::insert`, at an index that is there.
abbrev pub remove_at {ℓ} : {A : Type ℓ} → ℕ → List A → List A
remove_at index [] = []
remove_at zero (x ∷ xs) = xs
remove_at (suc index) (x ∷ xs) = x ∷ remove_at index xs

abbrev pub insert_at {ℓ} : {A : Type ℓ} → ℕ → A → List A → List A
insert_at zero a xs = a ∷ xs
insert_at (suc index) a [] = a ∷ []
insert_at (suc index) a (x ∷ xs) = x ∷ insert_at index a xs

abbrev pub entry {ℓ} : {A : Type ℓ} → ℕ → List A → Option A
entry index [] = none
entry zero (x ∷ xs) = some x
entry (suc index) (x ∷ xs) = entry index xs

module _ {P : Type 0} where
  -- `require_node_mut` and an assignment to the node.
  unfoldable pub update_node :
      (WorkflowNodeEntity P → WorkflowNodeEntity P)
      → WorkflowNodeId
      → WorkflowAggregate P
      → Result WorkflowGraphError (WorkflowAggregate P)
  update_node change node_id g = do
    node ← ok_or (get node_id g.nodes) node_not_found
    ok (record g { nodes = insert node_id (change node) g.nodes })

  unfoldable pub add_node :
      WorkflowNodeEntity P → WorkflowAggregate P → Result WorkflowGraphError (WorkflowAggregate P)
  add_node node g =
      if contains_key node.id g.nodes
      then err duplicate_node
      else ok (record g { nodes = insert node.id node g.nodes })

-- The end of both removals: a binding without items goes.
unfoldable pub keep_remaining :
    WorkflowInputTarget
    → List WorkflowInputItemEntity
    → Bindings
    → Result WorkflowGraphError Bindings
keep_remaining target remaining bindings =
    if is_empty remaining
    then ok (remove target bindings)
    else do binding ← ordered_items remaining; ok (insert target binding bindings)

-- On the bindings of the candidate.
unfoldable pub remove_items_from_source :
    WorkflowInputTarget → WorkflowNodeId → Bindings → Result WorkflowGraphError Bindings
unfolding keep_remaining
remove_items_from_source target source_node_id bindings = elim (get target bindings) [
  | none ↦ ok bindings
  | some binding ↦
      let remaining =
        filter (λ item. not (item.source_node_id == source_node_id)) (items binding) in
      if length remaining == length (items binding)
      then ok bindings
      else keep_remaining target remaining bindings
]

unfoldable pub remove_from_all :
    List WorkflowInputTarget → WorkflowNodeId → Bindings → Result WorkflowGraphError Bindings
unfolding remove_items_from_source
remove_from_all [] source_node_id bindings = ok bindings
remove_from_all (target ∷ targets) source_node_id bindings = do
  bindings' ← remove_items_from_source target source_node_id bindings
  remove_from_all targets source_node_id bindings'

abbrev pub not_at : WorkflowNodeId → WorkflowInputTarget → Bool
not_at node_id target = not (target.node_id == node_id)

abbrev pub keys : Bindings → List WorkflowInputTarget
keys = map (λ e. e.0)

abbrev pub retain_others : WorkflowNodeId → Bindings → Bindings
retain_others node_id = retain (not_at node_id)

-- The loops of `remove_node` over the bindings.
unfoldable pub remove_incident : WorkflowNodeId → Bindings → Result WorkflowGraphError Bindings
unfolding remove_from_all
remove_incident node_id bindings =
    remove_from_all (keys (retain_others node_id bindings)) node_id (retain_others node_id bindings)

unfoldable pub remove_node :
    {P : Type 0}
    → WorkflowNodeId
    → WorkflowAggregate P
    → Result WorkflowGraphError (WorkflowAggregate P)
unfolding remove_incident
remove_node node_id g = if not (contains_key node_id g.nodes) then err node_not_found else do
  bindings ← remove_incident node_id g.input_bindings
  ok (record g { nodes = remove node_id g.nodes; input_bindings = bindings })

-- `ordered_items` of the candidate.
abbrev pub ordered_items_at :
    Option WorkflowInputBinding → Result WorkflowGraphError (List WorkflowInputItemEntity)
ordered_items_at (some (ordered_references entries)) = ok entries
ordered_items_at (some (single item)) = err binding_shape_mismatch
ordered_items_at none = err input_not_found

-- The `match` of an insertion, where a missing binding has no items.
abbrev pub items_or_none :
    Option WorkflowInputBinding → Result WorkflowGraphError (List WorkflowInputItemEntity)
items_or_none (some (ordered_references entries)) = ok entries
items_or_none (some (single item)) = err binding_shape_mismatch
items_or_none none = ok []

unfoldable pub insert_item :
    WorkflowInputItemEntity
    → ℕ
    → List WorkflowInputItemEntity
    → Result WorkflowGraphError (List WorkflowInputItemEntity)
insert_item item index entries =
    if ltb (length entries) index
    then err cardinality_violation
    else ok (insert_at index item entries)

unfoldable pub insert_reference_item :
    WorkflowInputTarget
    → WorkflowInputItemEntity
    → ℕ
    → Bindings
    → Result WorkflowGraphError Bindings
unfolding insert_item
insert_reference_item target item index bindings = do
  entries ← items_or_none (get target bindings)
  entries' ← insert_item item index entries
  binding ← ordered_items entries'
  ok (insert target binding bindings)

-- The items of a binding after a move.
unfoldable pub move_item :
    ℕ → ℕ → List WorkflowInputItemEntity → Result WorkflowGraphError (List WorkflowInputItemEntity)
unfolding insert_item
move_item item_id index entries = do
  old_index ← ok_or (position item_id entries) input_item_not_found
  item ← ok_or (entry old_index entries) input_item_not_found
  insert_item item index (remove_at old_index entries)

unfoldable pub move_reference_item :
    WorkflowInputTarget → ℕ → ℕ → Bindings → Result WorkflowGraphError Bindings
unfolding move_item
move_reference_item target item_id index bindings = do
  entries ← ordered_items_at (get target bindings)
  moved ← move_item item_id index entries
  binding ← ordered_items moved
  ok (insert target binding bindings)

unfoldable pub remove_input_item :
    WorkflowInputTarget → ℕ → Bindings → Result WorkflowGraphError Bindings
unfolding keep_remaining
remove_input_item target item_id bindings = do
  binding ← ok_or (get target bindings) input_not_found
  index ← ok_or (position item_id (items binding)) input_item_not_found
  keep_remaining target (remove_at index (items binding)) bindings

-- The first item of an identity gets the role.
abbrev pub set_role : ℕ → Utf8 → List WorkflowInputItemEntity → List WorkflowInputItemEntity
set_role id role [] = []
set_role id role (item ∷ rest) =
    let changed = set_role id role rest in
    if item.id == id then record item { input_role_key = some role } ∷ rest else item ∷ changed

unfoldable pub set_input_item_role :
    WorkflowInputTarget → ℕ → Utf8 → Bindings → Result WorkflowGraphError Bindings
set_input_item_role target item_id role bindings = do
  entries ← ordered_items_at (get target bindings)
  index ← ok_or (position item_id entries) input_item_not_found
  ok (insert target (ordered_references (set_role item_id role entries)) bindings)

unfoldable pub bind_single :
    WorkflowInputTarget → WorkflowInputItemEntity → Bindings → Result WorkflowGraphError Bindings
bind_single target item bindings =
    if contains_key target bindings
    then err input_occupied
    else do binding ← try_single item; ok (insert target binding bindings)

module _ {P : Type 0} where
  abbrev pub on_bindings :
      (Bindings → Result WorkflowGraphError Bindings)
      → WorkflowAggregate P
      → Result WorkflowGraphError (WorkflowAggregate P)
  on_bindings change g = do
    bindings ← change g.input_bindings
    ok (record g { input_bindings = bindings })

  unfoldable pub apply_action :
      WorkflowMutationAction P
      → WorkflowAggregate P
      → Result WorkflowGraphError (WorkflowAggregate P)
  apply_action (Action.add_node id contract parameters position) = add_node (record {
    id = id;
    capability_contract = contract;
    parameter_set = parameters;
    canvas_position = position;
  })
  apply_action (Action.remove_node id) = remove_node id
  apply_action (replace_node_parameters id parameters) =
      update_node (λ node. record node { parameter_set = parameters }) id
  apply_action (select_node_capability id contract parameters) =
      update_node
        (λ node. record node { capability_contract = contract; parameter_set = parameters }) id
  apply_action (move_node id position) =
      update_node (λ node. record node { canvas_position = position }) id
  apply_action (bind_single_input target item) = on_bindings (bind_single target item)
  apply_action (Action.insert_reference_item target item index) =
      on_bindings (insert_reference_item target item index)
  apply_action (Action.move_reference_item target id index) =
      on_bindings (move_reference_item target id index)
  apply_action (Action.remove_input_item target id) = on_bindings (remove_input_item target id)
  apply_action (Action.set_input_item_role target id role) =
      on_bindings (set_input_item_role target id role)

  unfoldable pub apply_actions :
      List (WorkflowMutationAction P)
      → WorkflowAggregate P
      → Result WorkflowGraphError (WorkflowAggregate P)
  unfolding apply_action
  apply_actions [] candidate = ok candidate
  apply_actions (action ∷ actions) candidate = do
    candidate' ← apply_action action candidate
    apply_actions actions candidate'

  unfoldable pub apply_mutation_command :
      WorkflowAggregate P
      → {H : Type 0} → WorkflowApplyMutationCommand P H
      → (observed_at : ℕ) → WorkflowNodeCapabilityRegistry
      → Result WorkflowGraphError (WorkflowAggregate P)
  unfolding apply_actions save
  apply_mutation_command g command observed_at capabilities = do
    ensure (command.workflow_id == g.id) reference_violation
    ensure (command.base_revision == g.revision) revision_conflict
    next_revision ← checked_next g.revision
    next_updated_at ← next_from_observation g.updated_at observed_at
    candidate ← apply_actions command.actions g
    try_restore (record (save candidate) { revision = next_revision; updated_at = next_updated_at })
        capabilities
