-- ===== src/Graph/Receipt/NodePrefix.antt =====
-- The nodes in a fingerprint of crates/engine/src/workflow_graph/mutation_receipt.rs: their bytes
-- determine them.
use mathlib.Core.List.{append_assoc}
use oh_my_dream.Common.{
  ℕ, ◌≡◌, ◌∙◌, refl, sym, ap, Bool, Option, List, [], ◌∷◌, ◌++◌, length, arith,
}
use oh_my_dream.Workflow.Value.{NodeCapabilityContractRef}
use oh_my_dream.Tasks.Canonical.{to_be_bytes}
use oh_my_dream.Tasks.Canonical.Prefix.{to_be_bytes_prefix}
use oh_my_dream.Capability.Parameter.{NodeCapabilityParameterSet}
use oh_my_dream.Capability.Canonical.{append_variable_bytes, canonical_bytes}
use oh_my_dream.Graph.Value.{WorkflowNodeEntity}
use oh_my_dream.Graph.Aggregate.{Nodes}
use oh_my_dream.Graph.Mutation.Canonical.{
  append_contract_ref, append_parameters, append_position, contract_ref, parameters, position,
}
use oh_my_dream.Graph.Mutation.Canonical.Read.{
  IsIdentity, IsContractRef, contract_ref-append, IsParameterSet, parameters-append, IsPosition,
  position-append,
}
use oh_my_dream.Graph.Receipt.{append_node, append_nodes}
use oh_my_dream.Graph.Receipt.Prefix.{read_prefix}

module _ {P : Type 0} (is_utf8 : List ℕ → Bool) (is_version_four : ℕ → Bool) (to_bits : P → ℕ × ℕ)
    (from_bits : ℕ → ℕ → Option P) where
  contract_ref_prefix :
      (c d : NodeCapabilityContractRef) (r s : List ℕ)
      → IsContractRef is_utf8 is_version_four to_bits from_bits c
      → IsContractRef is_utf8 is_version_four to_bits from_bits d
      → append_contract_ref c ++ r ≡ append_contract_ref d ++ s
      → (c ≡ d) × (r ≡ s)
  contract_ref_prefix c d r s h g =
      read_prefix (contract_ref is_utf8 is_version_four to_bits from_bits) _ _ c d r s
        (contract_ref-append is_utf8 is_version_four to_bits from_bits c r h)
        (contract_ref-append is_utf8 is_version_four to_bits from_bits d s g)

  parameters_prefix :
      (p q : NodeCapabilityParameterSet) (r s : List ℕ)
      → IsParameterSet is_utf8 is_version_four to_bits from_bits p
      → IsParameterSet is_utf8 is_version_four to_bits from_bits q
      → append_parameters p ++ r ≡ append_parameters q ++ s
      → (p ≡ q) × (r ≡ s)
  parameters_prefix p q r s h g =
      read_prefix (parameters is_utf8 is_version_four to_bits from_bits) _ _ p q r s
        (parameters-append is_utf8 is_version_four to_bits from_bits p r h)
        (parameters-append is_utf8 is_version_four to_bits from_bits q s g)

  position_prefix :
      (p q : P) (r s : List ℕ)
      → IsPosition is_utf8 is_version_four to_bits from_bits p
      → IsPosition is_utf8 is_version_four to_bits from_bits q
      → append_position is_utf8 is_version_four to_bits from_bits p ++ r
        ≡ append_position is_utf8 is_version_four to_bits from_bits q ++ s
      → (p ≡ q) × (r ≡ s)
  position_prefix p q r s h g =
      read_prefix (position is_utf8 is_version_four to_bits from_bits) _ _ p q r s
        (position-append is_utf8 is_version_four to_bits from_bits p r h)
        (position-append is_utf8 is_version_four to_bits from_bits q s g)

  -- A node as its types hold it.
  pub record IsNodeEntity (n : WorkflowNodeEntity P) : Type 0 where
    pub named : IsIdentity is_utf8 is_version_four to_bits from_bits n.id
    pub contract : IsContractRef is_utf8 is_version_four to_bits from_bits n.capability_contract
    pub parameters : IsParameterSet is_utf8 is_version_four to_bits from_bits n.parameter_set
    pub placed : IsPosition is_utf8 is_version_four to_bits from_bits n.canvas_position

  -- Every node is within its types and stands under its own identity.
  abbrev pub AllNodeEntities : Nodes P → Type 0
  AllNodeEntities [] = Unit
  AllNodeEntities ((id, n) ∷ rest) = (id ≡ n.id) × (IsNodeEntity n × AllNodeEntities rest)

  module _ (digest : List ℕ → List ℕ) where
    append_node-split :
        (n : WorkflowNodeEntity P) (r : List ℕ)
        → append_node digest to_bits n ++ r
          ≡ to_be_bytes 16 n.id
            ++ (append_contract_ref n.capability_contract
                ++ (append_parameters n.parameter_set
                    ++ (append_position is_utf8 is_version_four to_bits from_bits n.canvas_position
                        ++ r)))
    unfolding append_node append_parameters append_position
    append_node-split n r =
        let contract = append_contract_ref n.capability_contract in
        let set = append_variable_bytes (canonical_bytes n.parameter_set) in
        let place =
          to_be_bytes 8 (to_bits n.canvas_position).0
          ++ to_be_bytes 8 (to_bits n.canvas_position).1 in
        ground (
          arith,
          append_assoc (to_be_bytes 16 n.id) (contract ++ (set ++ place)) r,
          append_assoc contract (set ++ place) r,
          append_assoc set place r,
        )

    node_prefix :
        (n m : WorkflowNodeEntity P) (r s : List ℕ)
        → IsNodeEntity n
        → IsNodeEntity m
        → append_node digest to_bits n ++ r ≡ append_node digest to_bits m ++ s
        → (n ≡ m) × (r ≡ s)
    node_prefix n m r s h g e =
        let (id, e1) =
          to_be_bytes_prefix 16 n.id m.id _ _ h.named.0 g.named.0
            (sym (append_node-split n r) ∙ (e ∙ append_node-split m s)) in
        let (contract, e2) =
          contract_ref_prefix n.capability_contract m.capability_contract _ _ h.contract g.contract
            e1 in
        let (set, e3) =
          parameters_prefix n.parameter_set m.parameter_set _ _ h.parameters g.parameters e2 in
        let (place, e4) =
          position_prefix n.canvas_position m.canvas_position r s h.placed g.placed e3 in
        (ground (arith, id, contract, set, place), e4)

    pub nodes_prefix :
        (l m : Nodes P) (r s : List ℕ)
        → AllNodeEntities l
        → AllNodeEntities m
        → length l ≡ length m
        → append_nodes digest to_bits l ++ r ≡ append_nodes digest to_bits m ++ s
        → (l ≡ m) × (r ≡ s)
    nodes_prefix [] [] r s h g c e = (refl, e)
    nodes_prefix [] ((j, k) ∷ m) r s h g c e = absurd (omega arith)
    nodes_prefix ((i, n) ∷ l) [] r s h g c e = absurd (omega arith)
    nodes_prefix ((i, n) ∷ l) ((j, k) ∷ m) r s h g c e =
        let (one, e1) = node_prefix n k _ _ h.1.0 g.1.0 (
          sym (append_assoc (append_node digest to_bits n) (append_nodes digest to_bits l) r)
          ∙ (e ∙ append_assoc (append_node digest to_bits k) (append_nodes digest to_bits m) s)) in
        let (rest, e2) = nodes_prefix l m r s h.1.1 g.1.1 (omega arith) e1 in
        let key : i ≡ j = h.0 ∙ (ap (λ x. x.id) one ∙ sym g.0) in
        (ground (arith, key, one, rest), e2)
