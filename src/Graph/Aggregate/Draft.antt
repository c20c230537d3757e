-- ===== src/Graph/Aggregate/Draft.antt =====
-- An accepted draft: what a restored graph is free of, and what its nodes and items refer to.
use oh_my_dream.Common.{
  ◌≡◌, refl, ap, subst, true, false, some, [], ◌∷◌, contains, is_ascending, ltb, ◌==◌, ==_iff, ok,
  Bool-cases, Result-cases, inl, inr, arith,
}
use oh_my_dream.Common.Distinct.{distinct}
use oh_my_dream.Common.Bytes.{nat_ord}
use oh_my_dream.Common.Maps.{get, insert, get-insert, above, IsSorted}
use oh_my_dream.Workflow.Value.{WorkflowNodeId}
use oh_my_dream.Capability.Parameter.{NodeCapabilityParameterSet}
use oh_my_dream.Capability.Contract.{NodeCapabilityContract}
use oh_my_dream.Capability.Registry.{
  WorkflowNodeCapabilityInterface, WorkflowNodeCapabilityRegistry, resolve_node_capability,
}
use oh_my_dream.Graph.Value.{WorkflowNodeEntity}
use oh_my_dream.Graph.Cycles.{edges}
use oh_my_dream.Graph.Cycles.Acyclic.{IsAcyclic, Walk, not-Walk}
use oh_my_dream.Graph.Cycles.Decide.{reject_cycles_iff}
use oh_my_dream.Graph.Aggregate.{
  Nodes, Contracts, WorkflowAggregate, WorkflowAggregateRestoreData, resolve_contracts, node_ids,
  try_restore,
}
use oh_my_dream.Graph.Aggregate.Parts.{try_restore-IsRestored}
use oh_my_dream.Graph.Aggregate.Saved.{is_keyed, IsRestored-IsMapped}
use oh_my_dream.Graph.Aggregate.Linked.{
  AllBound, all_item_ids_onto, validate_bindings-IsChecked, edges-inside,
}

module _ {P : Type 0} (capabilities : WorkflowNodeCapabilityRegistry) where
  -- The capability of a node is registered, accepts its parameters and has this contract.
  pub record IsResolved (node : WorkflowNodeEntity P) (contract : NodeCapabilityContract)
      : Type 0 where
    pub implementation : WorkflowNodeCapabilityInterface
    pub resolved : resolve_node_capability capabilities node.capability_contract ≡ ok implementation
    pub parameters : NodeCapabilityParameterSet
    pub normal : implementation.normalize_node_parameters node.parameter_set ≡ ok parameters
    pub same : contract ≡ implementation.node_capability_contract

  above-contains :
      (k : WorkflowNodeId) (m : Nodes P) → above k m ≡ true → contains k (node_ids m) ≡ false
  above-contains k [] h = refl
  above-contains k ((i, n) ∷ m) h = ground (arith, above-contains k m)

  get-contains :
      (k : WorkflowNodeId) (n : WorkflowNodeEntity P) (m : Nodes P)
      → get k m ≡ some n
      → contains k (node_ids m) ≡ true
  get-contains k n [] h = absurd (ground arith)
  get-contains k n ((i, w) ∷ m) h = ground (arith, get-contains k n m)

  pub node_ids-is_ascending : (m : Nodes P) → IsSorted m → is_ascending (node_ids m) ≡ true
  node_ids-is_ascending [] s = refl
  node_ids-is_ascending ((i, n) ∷ []) s = refl
  node_ids-is_ascending ((i, n) ∷ (j, w) ∷ m) s = ground (arith, node_ids-is_ascending ((j, w) ∷ m))

  -- What a step of the loop over the nodes returned.
  record IsStep (i : WorkflowNodeId) (n : WorkflowNodeEntity P) (rest : Nodes P) (cs r : Contracts)
      : Type 0 where
    pub contract : NodeCapabilityContract
    pub resolved : IsResolved n contract
    pub next : resolve_contracts capabilities rest (insert n.id contract cs) ≡ ok r

  resolve_contracts-IsStep :
      (i : WorkflowNodeId) (n : WorkflowNodeEntity P) (rest : Nodes P) (cs r : Contracts)
      → resolve_contracts capabilities ((i, n) ∷ rest) cs ≡ ok r
      → IsStep i n rest cs r
  unfolding resolve_contracts
  resolve_contracts-IsStep i n rest cs r e =
      elim (Result-cases (resolve_node_capability capabilities n.capability_contract)) [
        | inr (x, f) ↦ absurd (ground arith)
        | inl (impl, f) ↦ elim (Result-cases (impl.normalize_node_parameters n.parameter_set)) [
          | inr (x, k) ↦ absurd (ground arith)
          | inl (ps, k) ↦ record {
            contract = impl.node_capability_contract;
            resolved = record {
              implementation = impl;
              resolved = f;
              parameters = ps;
              normal = k;
              same = refl;
            };
            next = ground arith;
          }
        ]
      ]

  resolve_contracts-absent :
      (m : Nodes P) (cs r : Contracts) (v : WorkflowNodeId)
      → is_keyed m ≡ true
      → resolve_contracts capabilities m cs ≡ ok r
      → contains v (node_ids m) ≡ false
      → get v r ≡ get v cs
  unfolding resolve_contracts
  resolve_contracts-absent [] cs r v k e h = ap (get v) (ground arith)
  resolve_contracts-absent ((i, n) ∷ m) cs r v k e h =
      let s = resolve_contracts-IsStep i n m cs r e in
      ground (
        arith,
        get-insert v n.id s.contract cs,
        ==_iff i n.id,
        resolve_contracts-absent m (insert n.id s.contract cs) r v (ground arith) s.next,
      )

  -- The contract of a node after the loop.
  pub record IsContracted (v : WorkflowNodeId) (n : WorkflowNodeEntity P) (r : Contracts)
      : Type 0 where
    pub contract : NodeCapabilityContract
    pub found : get v r ≡ some contract
    pub resolved : IsResolved n contract

  resolve_contracts-IsContracted :
      (m : Nodes P) (cs r : Contracts) (v : WorkflowNodeId) (n : WorkflowNodeEntity P)
      → IsSorted m
      → is_keyed m ≡ true
      → resolve_contracts capabilities m cs ≡ ok r
      → get v m ≡ some n
      → IsContracted v n r
  resolve_contracts-IsContracted [] cs r v n s k e g = absurd (ground arith)
  resolve_contracts-IsContracted ((i, w) ∷ m) cs r v n s k e g =
      let p = resolve_contracts-IsStep i w m cs r e in
      elim (Bool-cases (v == i)) [
        | inr b ↦
            resolve_contracts-IsContracted m (insert w.id p.contract cs) r v n s.1 (ground arith)
              p.next (ground arith)
        | inl b ↦ record {
          contract = p.contract;
          found = ground (
            arith,
            ==_iff v i,
            ==_iff i w.id,
            above-contains i m,
            get-insert i w.id p.contract cs,
            resolve_contracts-absent m (insert w.id p.contract cs) r i (ground arith) p.next,
          );
          resolved = subst (λ x. IsResolved x p.contract) (ground arith) p.resolved;
        }
      ]

  -- A graph whose nodes have registered capabilities that accept their parameters, whose items run
  -- between different nodes with accepted types, have different identities and form no cycle.
  pub record IsDraft (g : WorkflowAggregate P) : Type 0 where
    pub timed : ltb g.updated_at g.created_at ≡ false
    pub contracts : Contracts
    pub contracted :
        (v : WorkflowNodeId) (n : WorkflowNodeEntity P)
        → get v g.nodes ≡ some n
        → IsContracted v n contracts
    pub only :
        (v : WorkflowNodeId) (c : NodeCapabilityContract)
        → get v contracts ≡ some c
        → contains v (node_ids g.nodes) ≡ true
    pub bound : AllBound contracts g.input_bindings
    pub distinct_items : distinct (all_item_ids_onto g.input_bindings []) ≡ true
    pub ranked : IsAcyclic (edges g.input_bindings)
    pub acyclic : (v : WorkflowNodeId) → ¬ Walk (edges g.input_bindings) v v

  pub try_restore-IsDraft :
      (d : WorkflowAggregateRestoreData P) (g : WorkflowAggregate P)
      → try_restore d capabilities ≡ ok g
      → IsDraft g
  try_restore-IsDraft d g e =
      let r = try_restore-IsRestored capabilities d g e in
      let m = IsRestored-IsMapped capabilities d g r in
      let known : (v : WorkflowNodeId) (c : NodeCapabilityContract)
          → get v r.contracts ≡ some c
          → contains v (node_ids g.nodes) ≡ true =
        λ v c h. elim (Bool-cases (contains v (node_ids g.nodes))) [
          | inl k ↦ k
          | inr k ↦ absurd (
              ground (
                arith,
                resolve_contracts-absent g.nodes [] r.contracts v m.keyed_nodes r.contracts_run k,
              ))
        ] in
      let c =
        validate_bindings-IsChecked g.nodes r.contracts g.input_bindings [] r.item_ids refl
          r.items_run in
      let inside = edges-inside r.contracts (node_ids g.nodes) known g.input_bindings c.bound in
      let order = node_ids-is_ascending g.nodes m.sorted_nodes in
      let acyclic =
        (reject_cycles_iff (node_ids g.nodes) (edges g.input_bindings) order inside).0
          r.cycles_run in
      record {
        timed = ground (arith, r.timed, r.same);
        contracts = r.contracts;
        contracted = λ v n h.
            resolve_contracts-IsContracted g.nodes [] r.contracts v n m.sorted_nodes m.keyed_nodes
              r.contracts_run h;
        only = known;
        bound = c.bound;
        distinct_items = ground (arith, c.collected, c.distinct_ids);
        ranked = acyclic;
        acyclic = λ v. not-Walk acyclic;
      }
