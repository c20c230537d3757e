-- ===== src/Workflow/Plan/Scope.antt =====
-- The scope check: what it accepts are exactly the plans whose nodes all lead to the selected node.
use oh_my_dream.Common.{
  suc, ◌≡◌, ◌↔◌, refl, ap, subst, true, some, List, [], ◌∷◌, ◌++◌, length, contains, ok, Bool-cases,
  inl, inr, ◌==◌, arith,
}
use oh_my_dream.Common.Distinct.{
  distinct, distinct_of_length-to_set, contains-to_set, contains-append,
}
use oh_my_dream.Common.Pigeonhole.{Subset, all-contains, length-Subset, Subset_full}
use oh_my_dream.Workflow.Value.{WorkflowId, WorkflowRevision, WorkflowNodeId, through_node}
use oh_my_dream.Workflow.Plan.{
  WorkflowPlannedNode, WorkflowExecutionPlan, node_ids, sources, dependencies, ancestors,
  validate_ancestor_only_scope, try_new,
}
use oh_my_dream.Workflow.Plan.Closure.{IsAncestor, IsClosure, ancestors-IsClosure}
use oh_my_dream.Workflow.Plan.Checks.{
  IsTopological, try_new-IsAdmitted, try_new-IsTopological, nodes-try_new,
}

pub length-node_ids : (ns : List WorkflowPlannedNode) → length (node_ids ns) ≡ length ns
length-node_ids [] = refl
length-node_ids (n ∷ ns) = ap suc (length-node_ids ns)

-- In a topological order every source is a planned node.
dependencies-known :
    (whole before : List WorkflowNodeId) (ns : List WorkflowPlannedNode) (id : WorkflowNodeId)
    → Subset before whole
    → Subset (node_ids ns) whole
    → IsTopological before ns
    → Subset (dependencies ns id) whole
unfolding dependencies
dependencies-known whole before [] id b s t a e = absurd (ground arith)
dependencies-known whole before (n ∷ ns) id b s t a e = elim (Bool-cases (n.node_id == id)) [
  | inl p ↦
      b a (all-contains (sources n) before t.0 a (ground (arith, contains-to_set a (sources n))))
  | inr p ↦
      dependencies-known whole (before ++ n.node_id ∷ []) ns id
        (λ c k. elim (Bool-cases (contains c before)) [
          | inl q ↦ b c q
          | inr q ↦ s c (ground (arith, contains-append c before (n.node_id ∷ [])))
        ])
        (λ c k. s c (ground arith)) t.1 a (ground arith)
]

module _ (nodes : List WorkflowPlannedNode) (selected : WorkflowNodeId) where
  ancestors-found :
      IsTopological [] nodes
      → contains selected (node_ids nodes) ≡ true
      → (result : List WorkflowNodeId) × (ancestors
            (length nodes)
            (dependencies nodes)
            (selected ∷ [], selected ∷ [])
          ≡ some result)
        × IsClosure (dependencies nodes) (node_ids nodes) selected result
  ancestors-found t h =
      let (result, e, inv) =
        ancestors-IsClosure (dependencies nodes) (node_ids nodes) selected
          (λ id.
            dependencies-known (node_ids nodes) [] nodes id (λ a e. absurd (ground arith))
              (λ a e. e) t)
          h in
      (
        result,
        subst
            (λ fuel.
              ancestors fuel (dependencies nodes) (selected ∷ [], selected ∷ []) ≡ some result)
            (length-node_ids nodes) e,
        inv,
      )

  -- In a topological order of distinct nodes one of which is selected, the scope check accepts exactly
  -- when a chain of connections leads from each node to the selected one.
  pub validate_ancestor_only_scope_iff :
      IsTopological [] nodes
      → distinct (node_ids nodes) ≡ true
      → contains selected (node_ids nodes) ≡ true
      → (validate_ancestor_only_scope selected nodes ≡ ok tt) ↔ (
          (id : WorkflowNodeId)
          → contains id (node_ids nodes) ≡ true
          → IsAncestor (dependencies nodes) selected id)
  unfolding validate_ancestor_only_scope
  validate_ancestor_only_scope_iff t d h =
      let (result, e, inv) = ancestors-found t h in
      (
        λ v id k.
            let full : length result ≡ length (node_ids nodes) =
              ground (arith, e, length-node_ids nodes) in
            inv.reached id
              (Subset_full result (node_ids nodes) inv.distinct_result inv.known_result full id k),
        λ all_reach.
            let all_in : Subset (node_ids nodes) result =
              λ id k. inv.complete id (all_reach id k) in
            ground (
              arith,
              e,
              length-node_ids nodes,
              length-Subset (node_ids nodes) result d all_in,
              length-Subset result (node_ids nodes) inv.distinct_result inv.known_result,
            ),
      )

-- A plan accepted for the scope through a node has only nodes from which a chain of connections
-- leads to that node.
pub try_new-IsAncestor :
    (w : WorkflowId) (v : WorkflowRevision) (selected : WorkflowNodeId)
    (nodes : List WorkflowPlannedNode) {plan : WorkflowExecutionPlan}
    → try_new w v (through_node selected) nodes ≡ ok plan
    → (id : WorkflowNodeId) → contains id (node_ids plan.nodes) ≡ true
    → IsAncestor (dependencies plan.nodes) selected id
try_new-IsAncestor w v selected nodes e id k =
    let admitted = try_new-IsAdmitted w v (through_node selected) nodes e in
    let same = nodes-try_new w v (through_node selected) nodes e in
    let order : IsTopological [] nodes =
      rw⁻¹ same (try_new-IsTopological w v (through_node selected) nodes e) in
    let unique : distinct (node_ids nodes) ≡ true =
      distinct_of_length-to_set (node_ids nodes)
        (ground (arith, admitted.named, length-node_ids nodes)) in
    rw same (
      (validate_ancestor_only_scope_iff nodes selected order unique admitted.selected).0
        admitted.scoped id (rw⁻¹ same k))
