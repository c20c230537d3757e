-- ===== src/Graph/Receipt.antt =====
-- crates/engine/src/workflow_graph/mutation_receipt.rs: the evidence of a committed command. `digest` is
-- the sha2 crate's SHA-256, and `to_bits` gives the bits of a canvas position.
pub mod Prefix
pub mod NodePrefix
pub mod Restores
use Prim.Native.Nat.{◌%◌}
use oh_my_dream.Common.{
  ℕ, ◌^◌, not, ◌||◌, Option, none, some, List, [], ◌∷◌, ◌++◌, length, list_eq, ◌==◌, Result, ok,
  err, if◌then◌else◌,
}
use oh_my_dream.Common.Bytes.{Utf8, ascii}
use oh_my_dream.Workflow.Value.{
  WorkflowInputItemEntity, WorkflowInputBinding, single, ordered_references,
}
use oh_my_dream.Tasks.Canonical.{to_be_bytes}
use oh_my_dream.Capability.Canonical.{append_variable_bytes, canonical_bytes}
use oh_my_dream.Graph.Value.{
  WorkflowGraphError, persistence_failure, mutation_idempotency_conflict, WorkflowNodeEntity,
}
use oh_my_dream.Graph.Aggregate.{Nodes, Bindings, WorkflowAggregate}
use oh_my_dream.Graph.Mutation.Action.{WorkflowApplyMutationCommand}
use oh_my_dream.Graph.Mutation.Canonical.{append_contract_ref}

pub record WorkflowMutationReceipt (P : Type 0) : Type 0 where
  pub request_id : ℕ
  pub command_hash : List ℕ
  pub committed_workflow : WorkflowAggregate P
  pub result_fingerprint : List ℕ

abbrev pub append_role_with_mark : Option Utf8 → List ℕ
append_role_with_mark (some role) = 1 ∷ append_variable_bytes role
append_role_with_mark none = 0 ∷ []

-- Here a mark says whether there is a role.
unfoldable pub append_item : WorkflowInputItemEntity → List ℕ
append_item item =
    to_be_bytes 16 item.id
    ++ (to_be_bytes 16 item.source_node_id
        ++ (append_variable_bytes item.source_output_key
            ++ append_role_with_mark item.input_role_key))

abbrev pub append_items : List WorkflowInputItemEntity → List ℕ
append_items [] = []
append_items (item ∷ items) = append_item item ++ append_items items

unfoldable pub append_binding : WorkflowInputBinding → List ℕ
append_binding (single item) = 0 ∷ append_item item
append_binding (ordered_references items) =
    1 ∷ (to_be_bytes 8 (length items % 2 ^ 64) ++ append_items items)

abbrev pub append_bindings : Bindings → List ℕ
append_bindings [] = []
append_bindings ((target, binding) ∷ rest) =
    to_be_bytes 16 target.node_id
    ++ (append_variable_bytes target.input_key ++ (append_binding binding ++ append_bindings rest))

module _ {P : Type 0} (digest : List ℕ → List ℕ) (to_bits : P → ℕ × ℕ) where
  unfoldable pub append_node : WorkflowNodeEntity P → List ℕ
  append_node node =
      to_be_bytes 16 node.id
      ++ (append_contract_ref node.capability_contract
          ++ (append_variable_bytes (canonical_bytes node.parameter_set)
              ++ (to_be_bytes 8 (to_bits node.canvas_position).0
                  ++ to_be_bytes 8 (to_bits node.canvas_position).1)))

  abbrev pub append_nodes : Nodes P → List ℕ
  append_nodes [] = []
  append_nodes ((id, node) ∷ rest) = append_node node ++ append_nodes rest

  unfoldable pub append_graph : WorkflowAggregate P → List ℕ
  append_graph workflow =
      to_be_bytes 8 (length workflow.nodes % 2 ^ 64)
      ++ (append_nodes workflow.nodes
          ++ (to_be_bytes 8 (length workflow.input_bindings % 2 ^ 64)
              ++ append_bindings workflow.input_bindings))

  -- What the fingerprint of a committed Workflow digests.
  unfoldable pub fingerprint_bytes : WorkflowAggregate P → List ℕ
  fingerprint_bytes workflow =
      append_variable_bytes (ascii "oh-my-dream/workflow-mutation-result/v1")
      ++ (to_be_bytes 2 workflow.schema_version
          ++ (to_be_bytes 16 workflow.id
              ++ (to_be_bytes 16 workflow.project_id
                  ++ (to_be_bytes 8 workflow.revision
                      ++ (to_be_bytes 8 workflow.created_at
                          ++ (to_be_bytes 8 workflow.updated_at ++ append_graph workflow))))))

  unfoldable pub fingerprint_workflow : WorkflowAggregate P → List ℕ
  fingerprint_workflow workflow = digest (fingerprint_bytes workflow)

  unfoldable pub canonical_graph_fingerprint : WorkflowAggregate P → List ℕ
  canonical_graph_fingerprint workflow = digest (
      append_variable_bytes (ascii "oh-my-dream/workflow-graph-result/v1")
      ++ (to_be_bytes 2 workflow.schema_version ++ append_graph workflow))

  -- `WorkflowMutationReceipt::new`
  unfoldable pub receipt :
      WorkflowApplyMutationCommand P (List ℕ) → WorkflowAggregate P → WorkflowMutationReceipt P
  receipt command committed_workflow = record {
    request_id = command.request_id;
    command_hash = command.command_hash;
    committed_workflow = committed_workflow;
    result_fingerprint = fingerprint_workflow committed_workflow;
  }

  -- `WorkflowMutationReceipt::try_restore`
  unfoldable pub restore_receipt :
      (request_id : ℕ) (command_hash : List ℕ)
      → WorkflowAggregate P
      → (result_fingerprint : List ℕ) → Result WorkflowGraphError (WorkflowMutationReceipt P)
  restore_receipt request_id command_hash committed_workflow result_fingerprint =
      if not (list_eq (fingerprint_workflow committed_workflow) result_fingerprint)
      then err persistence_failure
      else ok (record {
        request_id = request_id;
        command_hash = command_hash;
        committed_workflow = committed_workflow;
        result_fingerprint = result_fingerprint;
      })

unfoldable pub replay_matching_command :
    {P : Type 0}
    → WorkflowMutationReceipt P
    → WorkflowApplyMutationCommand P (List ℕ)
    → Result WorkflowGraphError (WorkflowAggregate P)
replay_matching_command r command =
    if not (r.request_id == command.request_id) || not (list_eq r.command_hash command.command_hash)
    then err mutation_idempotency_conflict
    else ok r.committed_workflow
