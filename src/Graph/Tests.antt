-- ===== src/Graph/Tests.antt =====
-- A graph of three nodes, a command on it, and each theorem at a concrete input.
use oh_my_dream.Common.{
  ℕ, ◌<◌, ◌^◌, ◌≡◌, ◌↔◌, refl, true, some, List, [], ◌∷◌, ok, err, insert_set, Bool, all, ltb,
  arith,
}
use oh_my_dream.Workflow.Value.{ordered_references}
use oh_my_dream.Capability.Contract.{reject_unknown, normalize_onto, normalize_node_parameters}
use oh_my_dream.Capability.Registry.{resolve_node_capability}
use oh_my_dream.Graph.Value.{cycle, checked_next, next_from_observation, ordered_items}
use oh_my_dream.Graph.Cycles.{
  edges, add_edges, ready_nodes, release, visit, zero_degrees, reject_cycles,
}
use oh_my_dream.Graph.Cycles.Acyclic.{IsAcyclic}
use oh_my_dream.Graph.Cycles.Decide.{reject_cycles_iff}
use oh_my_dream.Graph.Aggregate.{
  Bindings, WorkflowAggregate, collect_unique_nodes, collect_unique_bindings, resolve_contracts,
  validate_binding_shape, accepts_type, validate_item, validate_items, validate_bindings,
  try_restore,
}
use oh_my_dream.Graph.Aggregate.Saved.{save, try_restore-save}
use oh_my_dream.Graph.Mutation.{
  keep_remaining, remove_items_from_source, remove_from_all, remove_incident, remove_node, add_node,
  update_node, insert_item, insert_reference_item, move_item, move_reference_item,
  remove_input_item, apply_action, apply_actions, apply_mutation_command,
}
use oh_my_dream.Graph.Mutation.Action.{
  WorkflowMutationAction, WorkflowApplyMutationCommand, validate_action_item_roles, command,
}
use oh_my_dream.Graph.Mutation.Action
use oh_my_dream.Capability.Key.{is_valid_key, capability_key, contract_id, contract_version}
use oh_my_dream.Capability.Canonical.{canonical_bytes, append_entries}
use oh_my_dream.Tasks.Canonical.{to_be_bytes}
use oh_my_dream.Graph.Mutation.Canonical.{append_action, decode_action, command_bytes}
use oh_my_dream.Graph.Receipt.{receipt, restore_receipt}
use oh_my_dream.Graph.Receipt.NodePrefix.{IsNodeEntity}
use oh_my_dream.Graph.Receipt.Restores.{IsStored, restore_receipt_iff}
use oh_my_dream.Graph.Mutation.Canonical.RoundTrip.{IsAction, decode_action-append_action}
use oh_my_dream.Graph.Mutation.Success.{IsNext, apply_mutation_command-IsNext}
use oh_my_dream.Graph.Mutation.Incident.{IsRemoved, remove_node-IsRemoved}
use oh_my_dream.Graph.Mutation.Order.{IsReordered, move_reference_item-IsReordered}
use oh_my_dream.Graph.Sample.{
  capabilities, node, item, parts, joined, bindings, restore_data, graph, graph_restores,
}

program : Unit {0}
unfolding edges add_edges ready_nodes release visit zero_degrees reject_cycles insert_set
    reject_unknown normalize_onto normalize_node_parameters resolve_node_capability
    collect_unique_nodes collect_unique_bindings resolve_contracts validate_binding_shape
    accepts_type validate_item validate_items validate_bindings try_restore save checked_next
    next_from_observation ordered_items keep_remaining remove_items_from_source remove_from_all
    remove_incident remove_node add_node update_node insert_item insert_reference_item move_item
    move_reference_item remove_input_item apply_action apply_actions apply_mutation_command
    validate_action_item_roles command
program = tt

-- Binding the last node to the first one closes a cycle.
cycle_refused :
    try_restore
      (record restore_data {
        input_bindings = (parts 1, ordered_references (item 14 3 ∷ [])) ∷ bindings;
      })
      capabilities
    ≡ err cycle
unfolding program
cycle_refused = refl

try_restore-save_example : try_restore (save graph) capabilities ≡ ok graph
try_restore-save_example = try_restore-save capabilities restore_data graph graph_restores

reject_cycles_iff_example :
    (reject_cycles (1 ∷ 2 ∷ 3 ∷ []) ((1, 2) ∷ (1, 3) ∷ (2, 3) ∷ []) ≡ ok tt)
    ↔ IsAcyclic ((1, 2) ∷ (1, 3) ∷ (2, 3) ∷ [])
reject_cycles_iff_example =
    reject_cycles_iff (1 ∷ 2 ∷ 3 ∷ []) ((1, 2) ∷ (1, 3) ∷ (2, 3) ∷ []) refl refl

-- Removing a node in the middle and moving the one that follows.
abbrev removal : WorkflowApplyMutationCommand ℕ ℕ
removal = record {
  request_id = 90;
  workflow_id = 70;
  base_revision = 4;
  actions = Action.remove_node 2 ∷ Action.move_node 3 5 ∷ [];
  command_hash = 0;
}

abbrev after_removal : WorkflowAggregate ℕ
after_removal = record graph {
  revision = 5;
  updated_at = 21;
  nodes = (1, node 1) ∷ (3, record (node 3) { canvas_position = 5 }) ∷ [];
  input_bindings = (parts 3, ordered_references (item 12 1 ∷ [])) ∷ [];
}

removal_applies : apply_mutation_command graph removal 15 capabilities ≡ ok after_removal
unfolding program
removal_applies = refl

apply_mutation_command-IsNext_example : IsNext capabilities graph removal 15 after_removal
apply_mutation_command-IsNext_example =
    apply_mutation_command-IsNext capabilities graph after_removal removal 15 removal_applies

remove_node-IsRemoved_example : IsRemoved 2 graph
remove_node-IsRemoved_example =
    remove_node-IsRemoved 2 graph (refl, (refl, (refl, tt))) (refl, (refl, tt)) refl refl

abbrev reordered : Bindings
reordered =
    (parts 2, ordered_references (item 11 1 ∷ []))
    ∷ (parts 3, ordered_references (item 13 2 ∷ item 12 1 ∷ []))
    ∷ []

item_moves : move_reference_item (parts 3) 12 1 bindings ≡ ok reordered
unfolding program
item_moves = refl

move_reference_item-IsReordered_example : IsReordered (parts 3) 12 1 joined bindings reordered
move_reference_item-IsReordered_example =
    move_reference_item-IsReordered (parts 3) 12 1 joined bindings reordered (refl, (refl, tt)) refl
      refl refl item_moves

-- Positions as pairs of bit patterns, for texts in ASCII.
abbrev is_ascii : List ℕ → Bool
is_ascii = all (λ b. ltb b 128)

abbrev insertion : WorkflowMutationAction (ℕ × ℕ)
insertion = Action.insert_reference_item (parts 3) (item 15 2) 1

sizes : Unit {0}
unfolding is_valid_key capability_key contract_id contract_version canonical_bytes append_entries
    to_be_bytes
sizes = tt

insertion-IsAction :
    IsAction {P = ℕ × ℕ} is_ascii (λ id. true) (λ p. p) (λ x y. some (x, y)) insertion
unfolding sizes
insertion-IsAction = (
  ((omega arith, refl), ((omega arith, refl), refl)),
  (
    (
      ((
        (omega arith, refl),
        ((omega arith, refl), (((omega arith, refl), refl), ((omega arith, refl), refl))),
      )),
      refl,
    ),
    omega arith,
  ),
)

decode_action-append_action_example :
    decode_action is_ascii
      (λ id. true)
      (λ p. p)
      (λ x y. some (x, y))
      (append_action is_ascii (λ id. true) (λ p. p) (λ x y. some (x, y)) insertion)
    ≡ ok insertion
decode_action-append_action_example =
    decode_action-append_action is_ascii (λ id. true) (λ p. p) (λ x y. some (x, y)) insertion
      insertion-IsAction

-- The hash of a command, where the digest of bytes is the bytes.
abbrev compute : ℕ → ℕ → List (WorkflowMutationAction ℕ) → List ℕ
compute = command_bytes is_ascii (λ id. true) (λ p. (p, p)) (λ x y. some x)

abbrev committed : WorkflowApplyMutationCommand ℕ (List ℕ)
committed = record {
  request_id = 90;
  workflow_id = 70;
  base_revision = 4;
  actions = removal.actions;
  command_hash = compute 70 4 removal.actions;
}

placed :
    (id : ℕ)
    → id < 256 ^ 16
    → (at : ℕ) → at < 256 ^ 8
    → IsNodeEntity is_ascii
        (λ id. true)
        (λ p. (p, p))
        (λ x y. some x)
        (record (node id) { canvas_position = at })
unfolding sizes
placed id h at l = record {
  named = (h, refl);
  contract = ((omega arith, refl), (refl, (omega arith, (omega arith, refl))));
  parameters = (tt, (tt, (omega arith, omega arith)));
  placed = (l, (l, refl));
}

stored :
    (revision : ℕ)
    → revision < 256 ^ 8
    → IsStored is_ascii
        (λ id. true)
        (λ p. (p, p))
        (λ x y. some x)
        (record after_removal { revision = revision })
unfolding sizes
stored revision l = record {
  schema = omega arith;
  named = omega arith;
  owned = omega arith;
  revised = l;
  created = omega arith;
  updated = omega arith;
  counted = omega arith;
  nodes = (
    refl,
    (
      placed 1 (omega arith) (node 1).canvas_position (omega arith),
      (refl, (placed 3 (omega arith) 5 (omega arith), tt)),
    ),
  );
  bound = omega arith;
  bindings = (
    ((omega arith, refl), ((omega arith, refl), refl)),
    (
      (
        omega arith,
        (
          (
            (omega arith, refl),
            ((omega arith, refl), (((omega arith, refl), refl), ((omega arith, refl), refl))),
          ),
          tt,
        ),
      ),
      tt,
    ),
  );
}

-- A function that tells contents apart in place of SHA-256, and a Workflow with another revision.
restore_receipt_iff_example :
    (restore_receipt
        (λ b. b)
        (λ p. (p, p))
        90
        (compute 70 4 removal.actions)
        (record after_removal { revision = 6 })
        (receipt (λ b. b) (λ p. (p, p)) committed after_removal).result_fingerprint
      ≡ ok (receipt (λ b. b) (λ p. (p, p)) committed after_removal))
    ↔ ((record after_removal { revision = 6 } ≡ after_removal)
        × (receipt (λ b. b) (λ p. (p, p)) committed after_removal
            ≡ receipt (λ b. b) (λ p. (p, p)) committed after_removal))
restore_receipt_iff_example =
    restore_receipt_iff is_ascii (λ id. true) (λ p. (p, p)) (λ x y. some x) (λ b. b) committed
      after_removal (record after_removal { revision = 6 }) (stored 5 (omega arith))
      (stored 6 (omega arith)) (λ e. e) (receipt (λ b. b) (λ p. (p, p)) committed after_removal)
