-- ===== src/Graph/Sample.antt =====
-- A registry with one capability and a graph of three nodes, for the tests.
use oh_my_dream.Common.{ℕ, ◌≡◌, refl, true, none, some, List, [], ◌∷◌, ok, insert_set}
use oh_my_dream.Common.Bytes.{ascii}
use oh_my_dream.Workflow.Value.{
  NodeCapabilityContractRef, WorkflowInputItemEntity, ordered_references,
}
use oh_my_dream.Capability.Parameter.{WorkflowDataType}
use oh_my_dream.Capability.Contract.{
  NodeCapabilityContract, pure_value, reject_unknown, normalize_onto, normalize_node_parameters,
}
use oh_my_dream.Capability.Contract
use oh_my_dream.Capability.Registry.{WorkflowNodeCapabilityRegistry, resolve_node_capability}
use oh_my_dream.Graph.Value.{
  WorkflowNodeEntity, WorkflowInputTarget, checked_next, next_from_observation, ordered_items,
}
use oh_my_dream.Graph.Cycles.{
  edges, add_edges, ready_nodes, release, visit, zero_degrees, reject_cycles,
}
use oh_my_dream.Graph.Aggregate.{
  Bindings, WorkflowAggregate, WorkflowAggregateRestoreData, collect_unique_nodes,
  collect_unique_bindings, resolve_contracts, validate_binding_shape, accepts_type, validate_item,
  validate_items, validate_bindings, try_restore,
}
use oh_my_dream.Graph.Aggregate.Saved.{save}
use oh_my_dream.Graph.Mutation.{
  keep_remaining, remove_items_from_source, remove_from_all, remove_incident, remove_node, add_node,
  update_node, insert_item, insert_reference_item, move_item, move_reference_item,
  remove_input_item, apply_action, apply_actions, apply_mutation_command,
}
use oh_my_dream.Graph.Mutation.Action.{validate_action_item_roles, command}

program : Unit {0}
unfolding edges add_edges ready_nodes release visit zero_degrees reject_cycles insert_set
    reject_unknown normalize_onto normalize_node_parameters resolve_node_capability
    collect_unique_nodes collect_unique_bindings resolve_contracts validate_binding_shape
    accepts_type validate_item validate_items validate_bindings try_restore save checked_next
    next_from_observation ordered_items keep_remaining remove_items_from_source remove_from_all
    remove_incident remove_node add_node update_node insert_item insert_reference_item move_item
    move_reference_item remove_input_item apply_action apply_actions apply_mutation_command
    validate_action_item_roles command
program = tt

abbrev pub image_ref : NodeCapabilityContractRef
image_ref = record { id = ascii "image.join"; major = 1; minor = 0 }

abbrev pub image_contract : NodeCapabilityContract
image_contract = record {
  contract_ref = image_ref;
  parameters = [];
  inputs =
      record {
        key = ascii "parts";
        binding =
            Contract.ordered_references 0 none ((ascii "part", WorkflowDataType.image ∷ []) ∷ []);
      }
      ∷ [];
  outputs =
      record { key = ascii "image"; data_type = WorkflowDataType.image; is_primary = true } ∷ [];
  execution_kind = pure_value;
}

abbrev pub capabilities : WorkflowNodeCapabilityRegistry
capabilities =
    (
      image_ref,
      record {
        node_capability_contract = image_contract;
        normalize_node_parameters = normalize_node_parameters image_contract;
      },
    )
    ∷ []

abbrev pub node : ℕ → WorkflowNodeEntity ℕ
node id = record {
  id = id;
  capability_contract = image_ref;
  parameter_set = [];
  canvas_position = 0;
}

abbrev pub item : ℕ → ℕ → WorkflowInputItemEntity
item id source = record {
  id = id;
  source_node_id = source;
  source_output_key = ascii "image";
  input_role_key = some (ascii "part");
}

abbrev pub parts : ℕ → WorkflowInputTarget
parts id = record { node_id = id; input_key = ascii "parts" }

abbrev pub joined : List WorkflowInputItemEntity
joined = item 12 1 ∷ item 13 2 ∷ []

abbrev pub bindings : Bindings
bindings =
    (parts 2, ordered_references (item 11 1 ∷ [])) ∷ (parts 3, ordered_references joined) ∷ []

abbrev pub restore_data : WorkflowAggregateRestoreData ℕ
restore_data = record {
  schema_version = 1;
  id = 70;
  project_id = 80;
  revision = 4;
  created_at = 10;
  updated_at = 20;
  nodes = node 3 ∷ node 1 ∷ node 2 ∷ [];
  input_bindings =
      (parts 3, ordered_references joined) ∷ (parts 2, ordered_references (item 11 1 ∷ [])) ∷ [];
}

abbrev pub graph : WorkflowAggregate ℕ
graph = record {
  schema_version = 1;
  id = 70;
  project_id = 80;
  revision = 4;
  created_at = 10;
  updated_at = 20;
  nodes = (1, node 1) ∷ (2, node 2) ∷ (3, node 3) ∷ [];
  input_bindings = bindings;
}

pub graph_restores : try_restore restore_data capabilities ≡ ok graph
unfolding program
graph_restores = refl
