-- ===== src/Graph/Receipt/Restores.antt =====
-- `try_restore` of a receipt, in crates/engine/src/workflow_graph/mutation_receipt.rs: the fingerprint
-- ties the receipt to the committed Workflow.
use Prim.Native.Nat.{◌%◌}
use oh_my_dream.Common.{ℕ, ◌^◌, ◌<◌, ◌≡◌, refl, Bool, Option, List, length, ok, arith}
use oh_my_dream.Common.{◌↔◌, list_eq, true}
use oh_my_dream.Common.Bytes.{ascii, list_eq_iff, list_eq_refl}
use oh_my_dream.Tasks.Canonical.Prefix.{append_injective, to_be_bytes_prefix}
use oh_my_dream.Capability.Canonical.{append_variable_bytes}
use oh_my_dream.Graph.Aggregate.{WorkflowAggregate}
use oh_my_dream.Graph.Mutation.Action.{WorkflowApplyMutationCommand}
use oh_my_dream.Graph.Receipt.{
  WorkflowMutationReceipt, append_graph, fingerprint_bytes, fingerprint_workflow, receipt,
  restore_receipt,
}
use oh_my_dream.Graph.Receipt.Prefix.{AllBindings, bindings_injective}
use oh_my_dream.Graph.Receipt.NodePrefix.{AllNodeEntities, nodes_prefix}

module _ {P : Type 0} (is_utf8 : List ℕ → Bool) (is_version_four : ℕ → Bool) (to_bits : P → ℕ × ℕ)
    (from_bits : ℕ → ℕ → Option P) where
  -- A Workflow as its types hold it.
  pub record IsStored (g : WorkflowAggregate P) : Type 0 where
    pub schema : g.schema_version < 256 ^ 2
    pub named : g.id < 256 ^ 16
    pub owned : g.project_id < 256 ^ 16
    pub revised : g.revision < 256 ^ 8
    pub created : g.created_at < 256 ^ 8
    pub updated : g.updated_at < 256 ^ 8
    pub counted : length g.nodes < 256 ^ 8
    pub nodes : AllNodeEntities is_utf8 is_version_four to_bits from_bits g.nodes
    pub bound : length g.input_bindings < 256 ^ 8
    pub bindings : AllBindings is_utf8 is_version_four to_bits from_bits g.input_bindings

  module _ (digest : List ℕ → List ℕ) where
    append_graph_injective :
        (g h : WorkflowAggregate P)
        → IsStored g
        → IsStored h
        → append_graph digest to_bits g ≡ append_graph digest to_bits h
        → (g.nodes ≡ h.nodes) × (g.input_bindings ≡ h.input_bindings)
    unfolding append_graph
    append_graph_injective g h p q e =
        let (count, e1) =
          to_be_bytes_prefix 8 (length g.nodes % 2 ^ 64) (length h.nodes % 2 ^ 64) _ _ (omega arith)
            (omega arith) e in
        let (nodes, e2) =
          nodes_prefix is_utf8 is_version_four to_bits from_bits digest g.nodes h.nodes _ _ p.nodes
            q.nodes (omega (arith, count, p.counted, q.counted)) e1 in
        let (size, e3) =
          to_be_bytes_prefix 8 (length g.input_bindings % 2 ^ 64) (length h.input_bindings % 2 ^ 64)
            _ _ (omega arith) (omega arith) e2 in
        (
          nodes,
          bindings_injective is_utf8 is_version_four to_bits from_bits g.input_bindings
              h.input_bindings p.bindings q.bindings (omega (arith, size, p.bound, q.bound)) e3,
        )

    fingerprint_bytes_injective :
        (g h : WorkflowAggregate P)
        → IsStored g
        → IsStored h
        → fingerprint_bytes digest to_bits g ≡ fingerprint_bytes digest to_bits h
        → g ≡ h
    unfolding fingerprint_bytes
    fingerprint_bytes_injective g h p q e =
        let domain = append_variable_bytes (ascii "oh-my-dream/workflow-mutation-result/v1") in
        let (same, e0) = append_injective domain domain _ _ refl e in
        let (schema, e1) =
          to_be_bytes_prefix 2 g.schema_version h.schema_version _ _ p.schema q.schema e0 in
        let (id, e2) = to_be_bytes_prefix 16 g.id h.id _ _ p.named q.named e1 in
        let (project, e3) =
          to_be_bytes_prefix 16 g.project_id h.project_id _ _ p.owned q.owned e2 in
        let (revision, e4) =
          to_be_bytes_prefix 8 g.revision h.revision _ _ p.revised q.revised e3 in
        let (created, e5) =
          to_be_bytes_prefix 8 g.created_at h.created_at _ _ p.created q.created e4 in
        let (updated, e6) =
          to_be_bytes_prefix 8 g.updated_at h.updated_at _ _ p.updated q.updated e5 in
        let (nodes, bindings) = append_graph_injective g h p q e6 in
        ground (arith, schema, id, project, revision, created, updated, nodes, bindings)

    -- When SHA-256 tells the two contents apart, the saved receipt of a command restores with a
    -- Workflow exactly when that is the committed one, and then to the receipt itself. Both Workflows
    -- are within their types: each node stands under its identity, its position restores from its
    -- bits, and its parameters are in the order of their keys, at most 64, with at most 64 KiB in each
    -- text and profile identity and at most one MiB of canonical bytes.
    pub restore_receipt_iff :
        (command : WorkflowApplyMutationCommand P (List ℕ)) (g h : WorkflowAggregate P)
        → IsStored g
        → IsStored h
        → (digest (fingerprint_bytes digest to_bits h) ≡ digest (fingerprint_bytes digest to_bits g)
            → fingerprint_bytes digest to_bits h ≡ fingerprint_bytes digest to_bits g)
        → (restored : WorkflowMutationReceipt P)
        → (restore_receipt digest to_bits command.request_id command.command_hash h
              (receipt digest to_bits command g).result_fingerprint
            ≡ ok restored)
          ↔ ((h ≡ g) × (restored ≡ receipt digest to_bits command g))
    unfolding restore_receipt receipt fingerprint_workflow
    restore_receipt_iff command g h p q apart restored = (
      λ e.
          let equal : list_eq (digest (fingerprint_bytes digest to_bits h))
                (digest (fingerprint_bytes digest to_bits g))
              ≡ true =
            ground arith in
          let same : h ≡ g =
            fingerprint_bytes_injective h g q p (apart ((list_eq_iff _ _).0 equal)) in
          (same, ground (arith, same)),
      λ (same, k).
          ground (arith, same, k, list_eq_refl (digest (fingerprint_bytes digest to_bits g))),
    )
