-- ===== src/Workflow/Admission/Frozen.antt =====
-- `freeze_plan` of crates/engine/src/workflow/run_admission.rs: what the nodes it makes are.
use oh_my_dream.Common.{
  ℕ, suc, ◌≡◌, refl, true, false, some, List, [], ◌∷◌, ◌++◌, map, all, length, contains, to_set,
  ◌==◌, ==_iff, ok, Bool-cases, inl, inr, arith,
}
use oh_my_dream.Common.Pigeonhole.{Subset}
use oh_my_dream.Common.Bytes.{Ord, Utf8, nat_ord, list_eq_iff, lex_lt_irrefl}
use oh_my_dream.Common.Maps.{get, above, IsSorted}
use oh_my_dream.Workflow.Value.{WorkflowNodeId, WorkflowNodeExecutionId}
use oh_my_dream.Capability.Registry.{WorkflowNodeCapabilityRegistry}
use oh_my_dream.Graph.Value.{WorkflowNodeEntity, WorkflowInputTarget, target_ord}
use oh_my_dream.Graph.Aggregate.{Nodes, Bindings, WorkflowAggregate}
use oh_my_dream.Graph.Aggregate
use oh_my_dream.Graph.Aggregate.Draft.{IsDraft}
use oh_my_dream.Workflow.Plan.{
  WorkflowPlannedInputBinding, WorkflowPlannedNode, node_ids, execution_ids, binding_sources,
  sources, contains_key, distinct_keys, dependencies,
}
use oh_my_dream.Workflow.Plan.Checks.{IsTopological}
use oh_my_dream.Workflow.Plan.Accepts.{AllKeyed}
use oh_my_dream.Workflow.Admission.{incoming_sources, planned_bindings, freeze_node, freeze_nodes}
use oh_my_dream.Workflow.Admission.Generated.{generated}
use oh_my_dream.Workflow.Admission.Checked.{IsScheduled}

binding_sources-planned_bindings :
    (id : WorkflowNodeId) (bindings : Bindings)
    → binding_sources (planned_bindings id bindings) ≡ incoming_sources bindings id
unfolding planned_bindings incoming_sources
binding_sources-planned_bindings id [] = refl
binding_sources-planned_bindings id ((t, b) ∷ rest) =
    ground (arith, binding_sources-planned_bindings id rest)

keys : List WorkflowPlannedInputBinding → List Utf8
keys = map (λ b. b.input_key)

contains_key-planned_bindings :
    (t : WorkflowInputTarget) (bindings : Bindings)
    → above t bindings ≡ true
    → contains_key t.input_key (keys (planned_bindings t.node_id bindings)) ≡ false
unfolding planned_bindings keys
contains_key-planned_bindings t [] h = refl
contains_key-planned_bindings t ((u, b) ∷ rest) h = ground (
  arith,
  contains_key-planned_bindings t rest,
  list_eq_iff t.input_key u.input_key,
  list_eq_iff u.input_key t.input_key,
  lex_lt_irrefl t.input_key,
  ==_iff u.node_id t.node_id,
)

planned_bindings-distinct :
    (id : WorkflowNodeId) (bindings : Bindings)
    → IsSorted bindings
    → distinct_keys (keys (planned_bindings id bindings)) ≡ length (planned_bindings id bindings)
unfolding planned_bindings keys distinct_keys
planned_bindings-distinct id [] s = refl
planned_bindings-distinct id ((t, b) ∷ rest) s = elim (Bool-cases (t.node_id == id)) [
  | inl e ↦ ground (
    arith,
    planned_bindings-distinct id rest s.1,
    contains_key-planned_bindings t rest s.0,
    ==_iff t.node_id id,
  )
  | inr e ↦ ground (arith, planned_bindings-distinct id rest s.1)
]

module _ {P : Type 0} where
  contains-get :
      (id : WorkflowNodeId) (m : Nodes P)
      → contains id (Aggregate.node_ids m) ≡ true
      → (n : WorkflowNodeEntity P) × (get id m ≡ some n)
  contains-get id [] h = absurd (ground arith)
  contains-get id ((i, n) ∷ m) h = elim (Bool-cases (id == i)) [
    | inl e ↦ (n, ground arith)
    | inr e ↦ let (k, f) = contains-get id m (ground arith) in (k, ground arith)
  ]

  -- A planned node is the node of the graph, with its own bindings.
  pub record IsNode (g : WorkflowAggregate P) (n : WorkflowPlannedNode) : Type 0 where
    pub entity : WorkflowNodeEntity P
    pub found : get n.node_id g.nodes ≡ some entity
    pub contract : n.capability_contract ≡ entity.capability_contract
    pub own : n.input_bindings ≡ planned_bindings n.node_id g.input_bindings

  abbrev pub AllNodes : WorkflowAggregate P → List WorkflowPlannedNode → Type 0
  AllNodes g [] = Unit
  AllNodes g (n ∷ ns) = IsNode g n × AllNodes g ns

  module _ (I : Type 0) ⦃o : Ord I⦄ (capabilities : WorkflowNodeCapabilityRegistry)
      (g : WorkflowAggregate P) (draft : IsDraft capabilities g) where
    record IsFrozenNode (id : WorkflowNodeId) (execution_id : WorkflowNodeExecutionId)
        : Type 0 where
      pub node : WorkflowPlannedNode
      pub run : freeze_node {I = I} capabilities g execution_id id ≡ ok node
      pub name : node.node_id ≡ id
      pub execution : node.node_execution_id ≡ execution_id
      pub holds : IsNode g node

    freeze_node-IsFrozenNode :
        (id : WorkflowNodeId) (execution_id : WorkflowNodeExecutionId)
        → contains id (Aggregate.node_ids g.nodes) ≡ true
        → IsFrozenNode id execution_id
    unfolding freeze_node
    freeze_node-IsFrozenNode id execution_id h =
        let (n, e) = contains-get id g.nodes h in
        let r = (draft.contracted id n e).resolved in
        record {
          node = record {
            node_id = id;
            node_execution_id = execution_id;
            capability_contract = n.capability_contract;
            normalized_parameters = r.parameters;
            input_bindings = planned_bindings id g.input_bindings;
          };
          run = ground (arith, e, r.resolved, r.normal);
          name = refl;
          execution = refl;
          holds = record { entity = n; found = e; contract = refl; own = refl };
        }

    pub record IsFrozen (fresh : ℕ → WorkflowNodeExecutionId) (index : ℕ)
        (ids : List WorkflowNodeId) : Type 0 where
      pub nodes : List WorkflowPlannedNode
      pub run : freeze_nodes {I = I} capabilities g fresh index ids ≡ ok nodes
      pub names : node_ids nodes ≡ ids
      pub executions : execution_ids nodes ≡ generated fresh index ids
      pub hold : AllNodes g nodes

    pub freeze_nodes-IsFrozen :
        (fresh : ℕ → WorkflowNodeExecutionId) (index : ℕ) (ids : List WorkflowNodeId)
        → Subset ids (Aggregate.node_ids g.nodes)
        → IsFrozen fresh index ids
    unfolding freeze_nodes
    freeze_nodes-IsFrozen fresh index [] h = record {
      nodes = [];
      run = refl;
      names = refl;
      executions = refl;
      hold = tt;
    }
    freeze_nodes-IsFrozen fresh index (id ∷ ids) h =
        let here = freeze_node-IsFrozenNode id (fresh index) (h id (ground arith)) in
        let rest = freeze_nodes-IsFrozen fresh (suc index) ids (λ a k. h a (ground arith)) in
        record {
          nodes = here.node ∷ rest.nodes;
          run = ground (arith, here.run, rest.run);
          names = ground (arith, here.name, rest.names);
          executions = ground (arith, here.execution, rest.executions);
          hold = (here.holds, rest.hold);
        }

  module _ (g : WorkflowAggregate P) where
    sources-IsNode :
        (n : WorkflowPlannedNode)
        → IsNode g n
        → sources n ≡ incoming_sources g.input_bindings n.node_id
    unfolding sources
    sources-IsNode n h =
        ground (arith, h.own, binding_sources-planned_bindings n.node_id g.input_bindings)

    pub AllNodes-AllKeyed :
        (ns : List WorkflowPlannedNode) → IsSorted g.input_bindings → AllNodes g ns → AllKeyed ns
    unfolding keys
    AllNodes-AllKeyed [] s h = tt
    AllNodes-AllKeyed (n ∷ ns) s h =
        let same = planned_bindings-distinct n.node_id g.input_bindings s in
        let own = h.0.own in
        (
          (==_iff (distinct_keys (keys n.input_bindings)) (length n.input_bindings)).1
              (rw own same),
          AllNodes-AllKeyed ns s h.1,
        )

    all_of_Subset :
        (xs ys : List WorkflowNodeId) → Subset xs ys → all (λ x. contains x ys) xs ≡ true
    all_of_Subset [] ys h = refl
    all_of_Subset (x ∷ xs) ys h =
        ground (arith, h x (ground arith), all_of_Subset xs ys (λ a k. h a (ground arith)))

    pub IsScheduled-IsTopological :
        (before : List WorkflowNodeId) (ns : List WorkflowPlannedNode)
        → AllNodes g ns
        → IsScheduled (incoming_sources g.input_bindings) before (node_ids ns)
        → IsTopological before ns
    IsScheduled-IsTopological before [] h s = tt
    IsScheduled-IsTopological before (n ∷ ns) h s =
        let same = sources-IsNode n h.0 in
        (
          all_of_Subset (sources n) before (rw same s.0),
          IsScheduled-IsTopological (before ++ n.node_id ∷ []) ns h.1 s.1,
        )

    pub dependencies-AllNodes :
        (ns : List WorkflowPlannedNode) (id : WorkflowNodeId)
        → AllNodes g ns
        → contains id (node_ids ns) ≡ true
        → dependencies ns id ≡ to_set (incoming_sources g.input_bindings id)
    unfolding dependencies
    dependencies-AllNodes [] id h k = absurd (ground arith)
    dependencies-AllNodes (n ∷ ns) id h k = ground (
      arith,
      sources-IsNode n h.0,
      dependencies-AllNodes ns id h.1,
      ==_iff n.node_id id,
      ==_iff id n.node_id,
    )
