-- ===== src/Graph/Mutation/Action.antt =====
-- crates/engine/src/workflow_graph/mutation_command.rs: the ten actions and the bounded command.
use oh_my_dream.Common.{
  ℕ, Bool, false, not, ◌||◌, List, [], ◌∷◌, length, is_empty, ltb, Result, ok, err, ensure, ◌>>◌,
  if◌then◌else◌,
}
use oh_my_dream.Common.Bytes.{Utf8}
use oh_my_dream.Workflow.Value.{
  WorkflowId, WorkflowNodeId, NodeCapabilityContractRef, WorkflowInputItemEntity,
}
use oh_my_dream.Capability.Parameter.{NodeCapabilityParameterSet}
use oh_my_dream.Graph.Value.{
  WorkflowGraphError, action_limit_exceeded, binding_shape_mismatch, WorkflowInputTarget, is_none,
  is_some,
}

-- `P` is the type of canvas positions.
pub data WorkflowMutationAction (P : Type 0) : Type 0 where
  add_node :
      (new_node_id : WorkflowNodeId) (capability_contract : NodeCapabilityContractRef)
      (parameter_set : NodeCapabilityParameterSet) (canvas_position : P)
      → WorkflowMutationAction P
  remove_node : (node_id : WorkflowNodeId) → WorkflowMutationAction P
  replace_node_parameters :
      (node_id : WorkflowNodeId) (parameter_set : NodeCapabilityParameterSet)
      → WorkflowMutationAction P
  select_node_capability :
      (node_id : WorkflowNodeId) (capability_contract : NodeCapabilityContractRef)
      (parameter_set : NodeCapabilityParameterSet)
      → WorkflowMutationAction P
  move_node : (node_id : WorkflowNodeId) (canvas_position : P) → WorkflowMutationAction P
  bind_single_input :
      (target : WorkflowInputTarget) (new_item : WorkflowInputItemEntity) → WorkflowMutationAction P
  insert_reference_item :
      (target : WorkflowInputTarget) (new_item : WorkflowInputItemEntity) (insertion_index : ℕ)
      → WorkflowMutationAction P
  move_reference_item :
      (target : WorkflowInputTarget) (input_item_id insertion_index_after_removal : ℕ)
      → WorkflowMutationAction P
  remove_input_item : (target : WorkflowInputTarget) (input_item_id : ℕ) → WorkflowMutationAction P
  set_input_item_role :
      (target : WorkflowInputTarget) (input_item_id : ℕ) (input_role_key : Utf8)
      → WorkflowMutationAction P

-- `H` is the type of command hashes.
pub record WorkflowApplyMutationCommand (P H : Type 0) : Type 0 where
  pub request_id : ℕ
  pub workflow_id : WorkflowId
  pub base_revision : ℕ
  pub actions : List (WorkflowMutationAction P)
  pub command_hash : H

module _ {P : Type 0} where
  -- The two guarded arms.
  abbrev pub has_wrong_role : WorkflowMutationAction P → Bool
  has_wrong_role (bind_single_input target new_item) = is_some new_item.input_role_key
  has_wrong_role (insert_reference_item target new_item index) = is_none new_item.input_role_key
  has_wrong_role _ = false

  unfoldable pub validate_action_item_roles :
      List (WorkflowMutationAction P) → Result WorkflowGraphError Unit
  validate_action_item_roles [] = ok tt
  validate_action_item_roles (action ∷ actions) =
      let rest = validate_action_item_roles actions in
      if has_wrong_role action then err binding_shape_mismatch else rest

  -- `WorkflowApplyMutationCommand::try_new`; `compute` is the hash of the content.
  unfoldable pub command :
      {H : Type 0}
      → (compute : WorkflowId → ℕ → List (WorkflowMutationAction P) → H) → (request_id : ℕ)
      → WorkflowId
      → (base_revision : ℕ) → List (WorkflowMutationAction P)
      → Result WorkflowGraphError (WorkflowApplyMutationCommand P H)
  unfolding validate_action_item_roles
  command compute request_id workflow_id base_revision actions = do
    ensure (not (is_empty actions || ltb 128 (length actions))) action_limit_exceeded
    validate_action_item_roles actions
    ok (record {
      request_id = request_id;
      workflow_id = workflow_id;
      base_revision = base_revision;
      actions = actions;
      command_hash = compute workflow_id base_revision actions;
    })
