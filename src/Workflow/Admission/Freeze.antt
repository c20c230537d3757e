-- ===== src/Workflow/Admission/Freeze.antt =====
-- `freeze_plan` of crates/engine/src/workflow/run_admission.rs: the selection of a draft graph becomes
-- a plan that `WorkflowExecutionPlan::try_new` accepts.
use oh_my_dream.Common.{
  ℕ, ◌≡◌, ◌∙◌, refl, ap, sym, subst, true, false, List, [], ◌∷◌, filter, length, contains, is_empty,
  to_set, ==_iff, ok, arith,
}
use oh_my_dream.Common.Bytes.{Ord, nat_ord}
use oh_my_dream.Common.Distinct.{
  contains-filter, filter_all, distinct, distinct_of_is_ascending, contains-to_set,
  to_set-is_ascending, ascending_ext,
}
use oh_my_dream.Common.Pigeonhole.{Subset}
use oh_my_dream.Workflow.Value.{
  WorkflowRunScope, whole_workflow, through_node, WorkflowNodeId, WorkflowNodeExecutionId,
}
use oh_my_dream.Capability.Registry.{WorkflowNodeCapabilityRegistry}
use oh_my_dream.Graph.Aggregate.{WorkflowAggregate}
use oh_my_dream.Graph.Aggregate.Draft.{IsDraft}
use oh_my_dream.Graph.Aggregate.Saved.{IsMapped}
use oh_my_dream.Workflow.Plan.{
  WorkflowPlannedNode, node_ids, dependencies, check_order, validate_deterministic_order,
  validate_scope, selects, try_new,
}
use oh_my_dream.Workflow.Plan.Closure.{IsAncestor, itself, source}
use oh_my_dream.Workflow.Plan.Checks.{IsTopological}
use oh_my_dream.Workflow.Plan.Scope.{validate_ancestor_only_scope_iff}
use oh_my_dream.Workflow.Plan.Accepts.{IsSound, try_new_of_IsSound}
use oh_my_dream.Workflow.Admission.{
  incoming_sources, incoming, selected_dependencies, take_ready, deterministic_topological_order,
  freeze_plan,
}
use oh_my_dream.Workflow.Admission.Order.{IsOrder, take_ready-IsOrder}
use oh_my_dream.Workflow.Admission.Checked.{Agree, check_order-take_ready, take_ready-IsScheduled}
use oh_my_dream.Workflow.Admission.Generated.{distinct-generated}
use oh_my_dream.Workflow.Admission.Frozen.{
  AllNodes, freeze_nodes-IsFrozen, AllNodes-AllKeyed, IsScheduled-IsTopological,
  dependencies-AllNodes,
}
use oh_my_dream.Workflow.Admission.Selected.{Fits, IsSelection, contains-incoming_sources}

not-is_empty :
    (nodes : List WorkflowPlannedNode) (selected : List WorkflowNodeId)
    → is_empty selected ≡ false
    → ((a : WorkflowNodeId) → contains a (node_ids nodes) ≡ contains a selected)
    → is_empty nodes ≡ false
not-is_empty (n ∷ ns) selected h same = refl
not-is_empty [] [] h same = absurd (ground arith)
not-is_empty [] (x ∷ xs) h same = absurd (ground (arith, same x, ==_iff x x))

-- An ancestor by one set of sources is one by another that agrees on the nodes reached.
IsAncestor-Agree :
    (d e : WorkflowNodeId → List WorkflowNodeId) (selected : List WorkflowNodeId)
    (node : WorkflowNodeId)
    → Agree d e selected
    → ((id : WorkflowNodeId) → contains id selected ≡ true → Subset (e id) selected)
    → contains node selected ≡ true
    → (id : WorkflowNodeId) → IsAncestor e node id
    → IsAncestor d node id × (contains id selected ≡ true)
IsAncestor-Agree d e selected node h closed n id (itself same k) =
    (itself id k, subst (λ z. contains z selected ≡ true) (sym k) n)
IsAncestor-Agree d e selected node h closed n id (source same target r k) =
    let (back, inside) = IsAncestor-Agree d e selected node h closed n target r in
    (
      source id target back (subst (λ l. contains id l ≡ true) (sym (h target inside)) k),
      closed target inside id k,
    )

module _ {P : Type 0} (I : Type 0) ⦃o : Ord I⦄ (capabilities : WorkflowNodeCapabilityRegistry)
    (g : WorkflowAggregate P) (draft : IsDraft capabilities g) (mapped : IsMapped g)
    (scope : WorkflowRunScope) (s : IsSelection I g scope) where
  abbrev raw : WorkflowNodeId → List WorkflowNodeId
  raw = incoming_sources g.input_bindings

  abbrev order : List WorkflowNodeId
  order =
      take_ready (length s.selected) (selected_dependencies g.input_bindings s.selected) s.selected

  order-IsOrder : IsOrder s.selected order
  order-IsOrder =
      take_ready-IsOrder (selected_dependencies g.input_bindings s.selected) draft.ranked.rank
        (λ id a h. draft.ranked.grows a id (
          ground (
            arith,
            contains-to_set a (filter (λ x. contains x s.selected) (raw id)),
            contains-filter a s.selected (raw id),
            contains-incoming_sources a id g.input_bindings,
          )))
        (length s.selected) s.selected (omega arith)
        (distinct_of_is_ascending s.selected s.ascending)

  selected_dependencies-incoming :
      Agree
        (incoming g.input_bindings)
        (selected_dependencies g.input_bindings s.selected)
        s.selected
  selected_dependencies-incoming id h =
      ap to_set (sym (filter_all s.selected (raw id) (s.closed id h)))

  module _ (nodes : List WorkflowPlannedNode) (names : node_ids nodes ≡ order)
      (hold : AllNodes g nodes) where
    nodes-same : (a : WorkflowNodeId) → contains a (node_ids nodes) ≡ contains a s.selected
    nodes-same a = ap (contains a) names ∙ order-IsOrder.same a

    dependencies-incoming : Agree (dependencies nodes) (incoming g.input_bindings) s.selected
    dependencies-incoming id h =
        dependencies-AllNodes g nodes id hold (ground (arith, nodes-same id))

    nodes-distinct : distinct (node_ids nodes) ≡ true
    nodes-distinct = rw names order-IsOrder.distinct_order

    nodes-ordered : validate_deterministic_order nodes ≡ ok tt
    unfolding validate_deterministic_order
    nodes-ordered =
        let whole : to_set (node_ids nodes) ≡ s.selected =
          ascending_ext (to_set (node_ids nodes)) s.selected (to_set-is_ascending (node_ids nodes))
            s.ascending (λ a. contains-to_set a (node_ids nodes) ∙ nodes-same a) in
        subst (λ l. check_order (dependencies nodes) l nodes ≡ ok tt) (sym whole)
          (check_order-take_ready (dependencies nodes)
            (selected_dependencies g.input_bindings s.selected) (length s.selected) s.selected nodes
            (λ id h. dependencies-incoming id h ∙ selected_dependencies-incoming id h) names)

    nodes-IsTopological : IsTopological [] nodes
    nodes-IsTopological = IsScheduled-IsTopological g [] nodes hold (
        rw names (
          take_ready-IsScheduled raw (selected_dependencies g.input_bindings s.selected) s.selected
            s.closed
            (λ id a h k. ground (
              arith,
              contains-to_set a (filter (λ x. contains x s.selected) (raw id)),
              contains-filter a s.selected (raw id),
            ))
            (length s.selected) [] s.selected (λ a h. h) (λ a h k. absurd (ground arith))))

    nodes-scoped :
        (x : WorkflowRunScope)
        → Fits (incoming g.input_bindings) x s.selected
        → (selects x nodes ≡ true) × (validate_scope x nodes ≡ ok tt)
    nodes-scoped whole_workflow f = (refl, refl)
    nodes-scoped (through_node node) f =
        let found : contains node (node_ids nodes) ≡ true = ground (arith, nodes-same node, f.0) in
        (
          found,
          (validate_ancestor_only_scope_iff nodes node nodes-IsTopological nodes-distinct found).1
              (λ id h.
                (IsAncestor-Agree (dependencies nodes) (incoming g.input_bindings) s.selected node
                  dependencies-incoming
                  (λ i k a m. s.closed i k a (ground (arith, contains-to_set a (raw i)))) f.0 id
                  (f.1 id (ground (arith, nodes-same id)))).0),
        )

  -- A plan of the selected nodes of the graph.
  pub record IsPlanned (fresh : ℕ → WorkflowNodeExecutionId) : Type 0 where
    pub nodes : List WorkflowPlannedNode
    pub run :
        freeze_plan {I = I} capabilities g scope s.selected fresh
        ≡ ok (record {
          workflow_id = g.id;
          workflow_revision = g.revision;
          scope = scope;
          nodes = nodes;
        })
    pub accepted :
        try_new g.id g.revision scope nodes
        ≡ ok (record {
          workflow_id = g.id;
          workflow_revision = g.revision;
          scope = scope;
          nodes = nodes;
        })
    pub same : (a : WorkflowNodeId) → contains a (node_ids nodes) ≡ contains a s.selected
    pub hold : AllNodes g nodes

  -- For a graph that restoration or a mutation returned and a selection that is not empty, freezing with
  -- fresh identities returns a plan that is accepted, of the revision of the graph, with exactly the
  -- selected nodes, each with the contract and the bindings it has in the graph.
  pub freeze_plan-IsPlanned :
      (fresh : ℕ → WorkflowNodeExecutionId)
      → ((a b : ℕ) → fresh a ≡ fresh b → a ≡ b)
      → is_empty s.selected ≡ false
      → IsPlanned fresh
  unfolding freeze_plan deterministic_topological_order
  freeze_plan-IsPlanned fresh injective filled =
      let f =
        freeze_nodes-IsFrozen I capabilities g draft fresh 0 order
          (λ a h. s.known a (ground (arith, order-IsOrder.same a))) in
      let nodes = f.nodes in
      let (chosen, scoped) = nodes-scoped nodes f.names f.hold scope s.fits in
      let sound : IsSound scope nodes = record {
        filled = not-is_empty nodes s.selected filled (nodes-same nodes f.names f.hold);
        named = nodes-distinct nodes f.names f.hold;
        executed = rw f.executions (distinct-generated fresh 0 order injective);
        selected = chosen;
        keyed = AllNodes-AllKeyed g nodes mapped.sorted_bindings f.hold;
        topological = nodes-IsTopological nodes f.names f.hold;
        ordered = nodes-ordered nodes f.names f.hold;
        scoped = scoped;
      } in
      let accepted = try_new_of_IsSound g.id g.revision scope nodes sound in
      record {
        nodes = nodes;
        run = ground (
          arith,
          order-IsOrder.sized,
          ==_iff (length order) (length s.selected),
          f.run,
          accepted,
        );
        accepted = accepted;
        same = nodes-same nodes f.names f.hold;
        hold = f.hold;
      }
