-- ===== src/Workflow/Admission/Selected.antt =====
-- `selected_node_ids` of crates/engine/src/workflow/run_admission.rs: for a draft graph the selected
-- nodes are there, with the sources of each of them.
use oh_my_dream.Common.{
  ◌≡◌, refl, true, ◌&&◌, ◌||◌, List, [], ◌∷◌, ◌++◌, contains, is_ascending, to_set, ◌==◌, ==_iff,
  ok, arith,
}
use oh_my_dream.Common.Distinct.{contains-to_set, to_set-is_ascending, contains-append}
use oh_my_dream.Common.Pigeonhole.{Subset}
use oh_my_dream.Workflow.Value.{
  WorkflowRunScope, whole_workflow, through_node, WorkflowNodeId, WorkflowInputItemEntity, items,
}
use oh_my_dream.Capability.Registry.{WorkflowNodeCapabilityRegistry}
use oh_my_dream.Graph.Cycles.{Edge, edges_of, edges}
use oh_my_dream.Graph.Cycles.Count.{contains_edge}
use oh_my_dream.Graph.Cycles.Decide.{contains_edge-ends_in}
use oh_my_dream.Graph.Aggregate.{Bindings, WorkflowAggregate, node_ids}
use oh_my_dream.Graph.Aggregate.Draft.{IsDraft, node_ids-is_ascending}
use oh_my_dream.Graph.Aggregate.Linked.{edges-inside}
use oh_my_dream.Graph.Aggregate.Saved.{IsMapped}
use oh_my_dream.Workflow.Plan.{item_sources}
use oh_my_dream.Workflow.Plan.Closure.{IsAncestor, ancestors-IsClosure}
use oh_my_dream.Workflow.Admission.{incoming_sources, incoming, through_node_ids, selected_node_ids}

contains_edge-edges_of :
    (s id target : WorkflowNodeId) (l : List WorkflowInputItemEntity) (es : List Edge)
    → contains_edge s id (edges_of target l ++ es)
      ≡ ((target == id && contains s (item_sources l)) || contains_edge s id es)
contains_edge-edges_of s id target [] es = ground arith
contains_edge-edges_of s id target (i ∷ l) es =
    ground (arith, contains_edge-edges_of s id target l es, ==_iff target id, ==_iff id target)

-- The sources of a node are the nodes with an edge to it.
pub contains-incoming_sources :
    (s id : WorkflowNodeId) (bindings : Bindings)
    → contains s (incoming_sources bindings id) ≡ contains_edge s id (edges bindings)
unfolding incoming_sources edges
contains-incoming_sources s id [] = refl
contains-incoming_sources s id ((t, b) ∷ rest) = ground (
  arith,
  contains-incoming_sources s id rest,
  contains_edge-edges_of s id t.node_id (items b) (edges rest),
  contains-append s (item_sources (items b)) (incoming_sources rest id),
)

-- What a selection leaves to the scope.
abbrev pub Fits :
    (WorkflowNodeId → List WorkflowNodeId) → WorkflowRunScope → List WorkflowNodeId → Type 0
Fits deps whole_workflow selected = Unit
Fits deps (through_node node) selected =
    (contains node selected ≡ true)
    × ((id : WorkflowNodeId) → contains id selected ≡ true → IsAncestor deps node id)

abbrev pub Selects : WorkflowRunScope → List WorkflowNodeId → Type 0
Selects whole_workflow ids = Unit
Selects (through_node node) ids = contains node ids ≡ true

module _ {P : Type 0} (I : Type 0) (g : WorkflowAggregate P) where
  pub record IsSelection (scope : WorkflowRunScope) : Type 0 where
    pub selected : List WorkflowNodeId
    pub run : selected_node_ids {I = I} g scope ≡ ok selected
    pub ascending : is_ascending selected ≡ true
    pub known : Subset selected (node_ids g.nodes)
    pub closed :
        (id : WorkflowNodeId)
        → contains id selected ≡ true
        → Subset (incoming_sources g.input_bindings id) selected
    pub fits : Fits (incoming g.input_bindings) scope selected

module _ {P : Type 0} (I : Type 0) (capabilities : WorkflowNodeCapabilityRegistry)
    (g : WorkflowAggregate P) (draft : IsDraft capabilities g) (mapped : IsMapped g) where
  sources-known :
      (id : WorkflowNodeId) → Subset (incoming_sources g.input_bindings id) (node_ids g.nodes)
  sources-known id a h =
      let inside =
        edges-inside draft.contracts (node_ids g.nodes) draft.only g.input_bindings draft.bound in
      (contains_edge-ends_in (node_ids g.nodes) (edges g.input_bindings) a id inside
        (rw (← contains-incoming_sources a id g.input_bindings) h)).0

  -- In a graph that restoration or a mutation returned, a scope through one of its nodes or of the whole
  -- graph selects nodes of the graph, in ascending order, with all their sources; for the scope through
  -- a node these are exactly the nodes from which a chain of sources leads to it.
  pub selected_node_ids-IsSelection :
      (scope : WorkflowRunScope) → Selects scope (node_ids g.nodes) → IsSelection I g scope
  unfolding selected_node_ids through_node_ids
  selected_node_ids-IsSelection whole_workflow s = record {
    selected = node_ids g.nodes;
    run = refl;
    ascending = node_ids-is_ascending capabilities g.nodes mapped.sorted_nodes;
    known = λ a h. h;
    closed = λ id h. sources-known id;
    fits = tt;
  }
  selected_node_ids-IsSelection (through_node node) s =
      let ids = node_ids g.nodes in
      let deps = incoming g.input_bindings in
      let (result, e, c) =
        ancestors-IsClosure deps ids node
          (λ id a h.
            sources-known id a
              (ground (arith, contains-to_set a (incoming_sources g.input_bindings id))))
          s in
      let same = λ (a : WorkflowNodeId). contains-to_set a result in
      record {
        selected = to_set result;
        run = ground (arith, e);
        ascending = to_set-is_ascending result;
        known = λ a h. c.known_result a (ground (arith, same a));
        closed = λ id h a k.
            let here : contains a (deps id) ≡ true =
              ground (arith, contains-to_set a (incoming_sources g.input_bindings id)) in
            ground (arith, same a, c.closed id (ground (arith, same id)) a here);
        fits = (
          ground (arith, same node, c.selected_result),
          λ id h. c.reached id (ground (arith, same id)),
        );
      }
