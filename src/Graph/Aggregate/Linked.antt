-- ===== src/Graph/Aggregate/Linked.antt =====
-- What the checks of a restoration establish of the bindings.
use oh_my_dream.Common.{
  ℕ, ◌≡◌, refl, true, false, ◌&&◌, some, List, [], ◌∷◌, ◌++◌, contains, ◌==◌, ok, Option-cases,
  Result-cases, inl, inr, arith,
}
use oh_my_dream.Common.Distinct.{distinct}
use oh_my_dream.Common.Bytes.{Utf8, nat_ord}
use oh_my_dream.Common.Maps.{get}
use oh_my_dream.Workflow.Value.{
  WorkflowNodeId, WorkflowInputItemEntity, WorkflowInputBinding, items,
}
use oh_my_dream.Capability.Contract.{
  NodeCapabilityContract, NodeCapabilityInputContract, NodeCapabilityOutputContract,
  NodeCapabilityInputBindingContract,
}
use oh_my_dream.Graph.Value.{WorkflowInputTarget}
use oh_my_dream.Graph.Cycles.{Edge, edges_of, edges}
use oh_my_dream.Graph.Cycles.Build.{ends_in}
use oh_my_dream.Graph.Cycles.Decide.{starts_in}
use oh_my_dream.Graph.Aggregate.{
  Nodes, Bindings, Contracts, find_input, find_output, validate_binding_shape, accepts_type,
  validate_item, validate_items, validate_bindings,
}

-- An item comes from another node, from an output of it whose type the input accepts.
pub record IsLinked (contracts : Contracts) (target : WorkflowNodeId)
    (input : NodeCapabilityInputBindingContract) (item : WorkflowInputItemEntity) : Type 0 where
  pub apart : (item.source_node_id == target) ≡ false
  pub contract : NodeCapabilityContract
  pub source : get item.source_node_id contracts ≡ some contract
  pub output : NodeCapabilityOutputContract
  pub found : find_output item.source_output_key contract.outputs ≡ some output
  pub accepted : accepts_type input item output.data_type ≡ ok tt

abbrev pub AllLinked :
    Contracts
    → WorkflowNodeId
    → NodeCapabilityInputBindingContract
    → List WorkflowInputItemEntity
    → Type 0
AllLinked contracts target input [] = Unit
AllLinked contracts target input (item ∷ rest) =
    IsLinked contracts target input item × AllLinked contracts target input rest

-- A binding fits the shape of a declared input of its node, and its items are linked.
pub record IsBound (contracts : Contracts) (target : WorkflowInputTarget)
    (binding : WorkflowInputBinding) : Type 0 where
  pub contract : NodeCapabilityContract
  pub node : get target.node_id contracts ≡ some contract
  pub input : NodeCapabilityInputContract
  pub found : find_input target.input_key contract.inputs ≡ some input
  pub shaped : validate_binding_shape binding input.binding ≡ ok tt
  pub linked : AllLinked contracts target.node_id input.binding (items binding)

abbrev pub AllBound : Contracts → Bindings → Type 0
AllBound contracts [] = Unit
AllBound contracts ((target, binding) ∷ rest) =
    IsBound contracts target binding × AllBound contracts rest

abbrev pub item_ids_onto : List WorkflowInputItemEntity → List ℕ → List ℕ
item_ids_onto [] ids = ids
item_ids_onto (item ∷ rest) ids = item_ids_onto rest (item.id ∷ ids)

-- The identities of all items.
abbrev pub all_item_ids_onto : Bindings → List ℕ → List ℕ
all_item_ids_onto [] ids = ids
all_item_ids_onto ((target, binding) ∷ rest) ids =
    all_item_ids_onto rest (item_ids_onto (items binding) ids)

module _ {P : Type 0} (nodes : Nodes P) (contracts : Contracts) where
  validate_item-IsLinked :
      (target : WorkflowInputTarget) (item : WorkflowInputItemEntity)
      (input : NodeCapabilityInputBindingContract)
      → validate_item nodes contracts target item input ≡ ok tt
      → IsLinked contracts target.node_id input item
  unfolding validate_item
  validate_item-IsLinked target item input e =
      elim (Option-cases (get item.source_node_id contracts)) [
        | inl n ↦ absurd (ground arith)
        | inr (c, s) ↦ elim (Option-cases (find_output item.source_output_key c.outputs)) [
          | inl n ↦ absurd (ground arith)
          | inr (o, f) ↦ record {
            apart = ground arith;
            contract = c;
            source = s;
            output = o;
            found = f;
            accepted = ground arith;
          }
        ]
      ]

  validate_items-AllLinked :
      (target : WorkflowInputTarget) (input : NodeCapabilityInputBindingContract)
      (l : List WorkflowInputItemEntity) (ids : List ℕ) (ends : List (WorkflowNodeId × Utf8))
      (r : List ℕ)
      → validate_items nodes contracts target input l ids ends ≡ ok r
      → AllLinked contracts target.node_id input l
  unfolding validate_items
  validate_items-AllLinked target input [] ids ends r e = tt
  validate_items-AllLinked target input (i ∷ l) ids ends r e = (
    validate_item-IsLinked target i input (ground arith),
    validate_items-AllLinked target input l (i.id ∷ ids)
        ((i.source_node_id, i.source_output_key) ∷ ends) r (ground arith),
  )

  validate_items-ids :
      (target : WorkflowInputTarget) (input : NodeCapabilityInputBindingContract)
      (l : List WorkflowInputItemEntity) (ids : List ℕ) (ends : List (WorkflowNodeId × Utf8))
      (r : List ℕ)
      → distinct ids ≡ true
      → validate_items nodes contracts target input l ids ends ≡ ok r
      → (r ≡ item_ids_onto l ids) × (distinct r ≡ true)
  unfolding validate_items
  validate_items-ids target input [] ids ends r d e = ground arith
  validate_items-ids target input (i ∷ l) ids ends r d e =
      validate_items-ids target input l (i.id ∷ ids)
        ((i.source_node_id, i.source_output_key) ∷ ends) r (ground arith) (ground arith)

  pub record IsChecked (bindings : Bindings) (ids r : List ℕ) : Type 0 where
    pub bound : AllBound contracts bindings
    pub collected : r ≡ all_item_ids_onto bindings ids
    pub distinct_ids : distinct r ≡ true

  pub validate_bindings-IsChecked :
      (bindings : Bindings) (ids r : List ℕ)
      → distinct ids ≡ true
      → validate_bindings nodes bindings contracts ids ≡ ok r
      → IsChecked bindings ids r
  unfolding validate_bindings
  validate_bindings-IsChecked [] ids r d e = record {
    bound = tt;
    collected = ground arith;
    distinct_ids = ground arith;
  }
  validate_bindings-IsChecked ((t, b) ∷ rest) ids r d e =
      elim (Option-cases (get t.node_id contracts)) [
        | inl n ↦ absurd (ground arith)
        | inr (c, g) ↦ elim (Option-cases (find_input t.input_key c.inputs)) [
          | inl n ↦ absurd (ground arith)
          | inr (i, f) ↦
              elim (Result-cases (validate_items nodes contracts t i.binding (items b) ids [])) [
                | inr (x, k) ↦ absurd (ground arith)
                | inl (ids', k) ↦
                    let (same, unique) = validate_items-ids t i.binding (items b) ids [] ids' d k in
                    let h = validate_bindings-IsChecked rest ids' r unique (ground arith) in
                    record {
                      bound = (
                        record {
                          contract = c;
                          node = g;
                          input = i;
                          found = f;
                          shaped = ground arith;
                          linked = validate_items-AllLinked t i.binding (items b) ids [] ids' k;
                        },
                        h.bound,
                      );
                      collected = ground (arith, h.collected);
                      distinct_ids = h.distinct_ids;
                    }
              ]
        ]
      ]

module _ (contracts : Contracts) (ids : List WorkflowNodeId)
    (known : (v : WorkflowNodeId) (c : NodeCapabilityContract)
      → get v contracts ≡ some c
      → contains v ids ≡ true) where
  edges_of-inside :
      (target : WorkflowNodeId) (input : NodeCapabilityInputBindingContract)
      (l : List WorkflowInputItemEntity) (es : List Edge)
      → contains target ids ≡ true
      → AllLinked contracts target input l
      → (starts_in ids es && ends_in ids es) ≡ true
      → (starts_in ids (edges_of target l ++ es) && ends_in ids (edges_of target l ++ es)) ≡ true
  edges_of-inside target input [] es k h e = e
  edges_of-inside target input (i ∷ l) es k h e = ground (
    arith,
    known i.source_node_id h.0.contract h.0.source,
    edges_of-inside target input l es k h.1 e,
  )

  -- The edges of bound items lie between the nodes that have a contract.
  pub edges-inside :
      (bindings : Bindings)
      → AllBound contracts bindings
      → (starts_in ids (edges bindings) && ends_in ids (edges bindings)) ≡ true
  unfolding edges
  edges-inside [] h = refl
  edges-inside ((t, b) ∷ rest) h =
      edges_of-inside t.node_id h.0.input.binding (items b) (edges rest)
        (known t.node_id h.0.contract h.0.node) h.0.linked (edges-inside rest h.1)
