-- ===== src/Workflow/Readiness/Reported.antt =====
-- When the readiness check of crates/engine/src/workflow/use_case.rs reports a graph as ready.
use oh_my_dream.Common.{
  ◌≡◌, ◌∙◌, ◌↔◌, refl, ap, true, Option, some, List, [], ◌∷◌, ◌++◌, map, is_empty, ◌==◌, ==_iff, ok,
  bind-ok, Result-cases, Bool-cases, inl, inr, arith,
}
use oh_my_dream.Common.Bytes.{Ord, nat_ord}
use oh_my_dream.Common.Maps.{get, IsSorted, get-above}
use oh_my_dream.Workflow.Value.{WorkflowNodeId, ProjectId}
use oh_my_dream.Capability.Parameter.{NodeCapabilityParameterSet}
use oh_my_dream.Capability.Registry.{
  WorkflowNodeCapabilityInterface, WorkflowNodeCapabilityRegistry, resolve_node_capability,
}
use oh_my_dream.Graph.Value.{WorkflowNodeEntity}
use oh_my_dream.Graph.Aggregate.{Nodes, Bindings, WorkflowAggregate}
use oh_my_dream.Graph.Aggregate.Draft.{IsDraft}
use oh_my_dream.Graph.Aggregate.Saved.{IsMapped}
use oh_my_dream.Workflow.Readiness.{
  WorkflowStructuralReadinessNode, WorkflowReadinessIssue, ready, from_issues, check,
}
use oh_my_dream.Workflow.Readiness.Check.{is_complete, check_iff, from_issues_iff}
use oh_my_dream.Workflow.Readiness.External.{NodeCapabilityReadinessIssue}
use oh_my_dream.Workflow.Readiness.Gather.{
  External, issues_of, structural_node, is_selected, project_external_issue, node_issues,
  gather_issues, check_readiness_for_nodes,
}

append-nil : {A : Type 0} (xs ys : List A) → xs ++ ys ≡ [] → (xs ≡ []) × (ys ≡ [])
append-nil [] ys e = (refl, e)
append-nil (x ∷ xs) ys e = absurd (ground arith)

is_empty-nil : {A : Type 0} (xs : List A) → is_empty xs ≡ true → xs ≡ []
is_empty-nil [] h = refl
is_empty-nil (x ∷ xs) h = absurd (ground arith)

map-nil : {A B : Type 0} (f : A → B) (xs : List A) → map f xs ≡ [] → xs ≡ []
map-nil f [] e = refl
map-nil f (x ∷ xs) e = absurd (ground arith)

abbrev Issues : Type 0
Issues = List (WorkflowReadinessIssue NodeCapabilityReadinessIssue)

module _ ⦃o : Ord NodeCapabilityReadinessIssue⦄ where
  issues_of-ready :
      (nodes : List WorkflowStructuralReadinessNode)
      → issues_of (check {I = NodeCapabilityReadinessIssue} nodes) ≡ []
      → check {I = NodeCapabilityReadinessIssue} nodes ≡ ready
  unfolding check from_issues
  issues_of-ready nodes e = ground arith

  issues_of-check :
      (n : WorkflowStructuralReadinessNode)
      → (issues_of (check {I = NodeCapabilityReadinessIssue} (n ∷ [])) ≡ [])
        ↔ (is_complete n ≡ true)
  issues_of-check n =
      let r = check_iff NodeCapabilityReadinessIssue (n ∷ []) in
      (
        λ e. ground (arith, r.0 (issues_of-ready (n ∷ []) e)),
        λ c. ap issues_of (r.1 (ground arith)),
      )

module _ {P : Type 0} (capabilities : WorkflowNodeCapabilityRegistry) (external : External)
    (project_id : ProjectId) (bindings : Bindings) where
  -- A node that nothing keeps from being run.
  pub record IsReadyNode (node : WorkflowNodeEntity P) : Type 0 where
    pub implementation : WorkflowNodeCapabilityInterface
    pub resolved : resolve_node_capability capabilities node.capability_contract ≡ ok implementation
    pub normalized : NodeCapabilityParameterSet
    pub normal : implementation.normalize_node_parameters node.parameter_set ≡ ok normalized
    pub complete : is_complete (structural_node implementation bindings node) ≡ true
    pub silent : external implementation project_id normalized ≡ []

  -- The nodes that are looked at are ready.
  abbrev pub AllReady : Option (List WorkflowNodeId) → Nodes P → Type 0
  AllReady selected [] = Unit
  AllReady selected ((id, node) ∷ rest) =
      (is_selected selected node.id ≡ true → IsReadyNode node) × AllReady selected rest

  -- A node whose capability is registered and accepts its parameters.
  record IsNormal (node : WorkflowNodeEntity P) : Type 0 where
    pub implementation : WorkflowNodeCapabilityInterface
    pub resolved : resolve_node_capability capabilities node.capability_contract ≡ ok implementation
    pub normalized : NodeCapabilityParameterSet
    pub normal : implementation.normalize_node_parameters node.parameter_set ≡ ok normalized

  abbrev AllNormal : Nodes P → Type 0
  AllNormal [] = Unit
  AllNormal ((id, node) ∷ rest) = IsNormal node × AllNormal rest

  module _ ⦃o : Ord NodeCapabilityReadinessIssue⦄ where
    node_issues-eq :
        (node : WorkflowNodeEntity P) (i : WorkflowNodeCapabilityInterface)
        (ps : NodeCapabilityParameterSet)
        → resolve_node_capability capabilities node.capability_contract ≡ ok i
        → i.normalize_node_parameters node.parameter_set ≡ ok ps
        → node_issues capabilities external project_id bindings node
          ≡ ok (
              issues_of (check (structural_node i bindings node ∷ []))
              ++ map
                  (project_external_issue node.id node.capability_contract)
                  (external i project_id ps))
    unfolding node_issues
    node_issues-eq node i ps r n = ground (arith, r, n)

    node_issues_iff :
        (node : WorkflowNodeEntity P)
        → IsNormal node
        → (node_issues capabilities external project_id bindings node ≡ ok []) ↔ IsReadyNode node
    node_issues_iff node n =
        let i = n.implementation in
        let projected = project_external_issue node.id node.capability_contract in
        let raised = map projected (external i project_id n.normalized) in
        let structural : Issues = issues_of (check (structural_node i bindings node ∷ [])) in
        (
          λ e.
              let whole : structural ++ raised ≡ [] =
                ground (arith, e, node_issues-eq node i n.normalized n.resolved n.normal) in
              let (a, b) = append-nil structural raised whole in
              record {
                implementation = i;
                resolved = n.resolved;
                normalized = n.normalized;
                normal = n.normal;
                complete = (issues_of-check (structural_node i bindings node)).0 a;
                silent = map-nil projected (external i project_id n.normalized) b;
              },
          λ r.
              let checked =
                (issues_of-check (structural_node r.implementation bindings node)).1 r.complete in
              ground (
                arith,
                node_issues-eq node r.implementation r.normalized r.resolved r.normal,
                checked,
                r.silent,
              ),
        )

    gather_issues-both :
        (selected : Option (List WorkflowNodeId)) (id : WorkflowNodeId)
        (node : WorkflowNodeEntity P) (rest : Nodes P)
        → is_selected selected node.id ≡ true
        → gather_issues capabilities external selected project_id bindings ((id, node) ∷ rest)
          ≡ ok []
        → (node_issues capabilities external project_id bindings node ≡ ok [])
          × (gather_issues capabilities external selected project_id bindings rest ≡ ok [])
    unfolding gather_issues
    gather_issues-both selected id node rest s e =
        elim (Result-cases (node_issues capabilities external project_id bindings node)) [
          | inr (x, f) ↦ absurd (ground arith)
          | inl (xs, f) ↦
              elim (Result-cases
                (gather_issues capabilities external selected project_id bindings rest)) [
                  | inr (x, k) ↦ absurd (ground arith)
                  | inl (ys, k) ↦
                      let (a, b) = append-nil xs ys (ground arith) in (ground arith, ground arith)
                ]
        ]

    -- The loop raises no issue exactly when the nodes it looks at are ready.
    gather_issues_iff :
        (selected : Option (List WorkflowNodeId)) (nodes : Nodes P)
        → AllNormal nodes
        → (gather_issues capabilities external selected project_id bindings nodes ≡ ok [])
          ↔ AllReady selected nodes
    unfolding gather_issues
    gather_issues_iff selected [] h = (λ e. tt, λ r. refl)
    gather_issues_iff selected ((id, node) ∷ rest) h =
        let here = node_issues_iff node h.0 in
        let later = gather_issues_iff selected rest h.1 in
        elim (Bool-cases (is_selected selected node.id)) [
          | inr s ↦ (
            λ e. (λ k. absurd (ground arith), later.0 (ground arith)),
            λ r. ground (arith, later.1 r.1),
          )
          | inl s ↦ (
            λ e.
                let both = gather_issues-both selected id node rest s e in
                (λ k. here.0 both.0, later.0 both.1),
            λ r. ground (arith, here.1 (r.0 s), later.1 r.1),
          )
        ]

module _ {P : Type 0} (capabilities : WorkflowNodeCapabilityRegistry) (external : External)
    (g : WorkflowAggregate P) where
  AllNormal-IsDraft :
      (nodes : Nodes P)
      → IsSorted nodes
      → ((v : WorkflowNodeId) (n : WorkflowNodeEntity P)
          → get v nodes ≡ some n
          → IsNormal capabilities external g.project_id g.input_bindings n)
      → AllNormal capabilities external g.project_id g.input_bindings nodes
  AllNormal-IsDraft [] s h = tt
  AllNormal-IsDraft ((i, n) ∷ m) s h = (
    h i n (ground (arith, ==_iff i i)),
    AllNormal-IsDraft m s.1 (λ v k e. h v k (elim (Bool-cases (v == i)) [
      | inl same ↦
          let here : v ≡ i = (==_iff v i).0 same in absurd (ground (arith, get-above i m s.0))
      | inr other ↦ ground arith
    ])),
  )

  module _ ⦃o : Ord NodeCapabilityReadinessIssue⦄ where
    -- A graph that restoration or a mutation returned is reported as ready, for the nodes that are looked
    -- at, exactly when each of them has its required parameters and inputs and enough references and
    -- its capability reports no issue.
    pub check_readiness_for_nodes_iff :
        IsDraft capabilities g
        → IsMapped g
        → (selected : Option (List WorkflowNodeId))
        → (check_readiness_for_nodes capabilities external g selected ≡ ok ready)
          ↔ AllReady capabilities external g.project_id g.input_bindings selected g.nodes
    unfolding check_readiness_for_nodes
    check_readiness_for_nodes_iff draft mapped selected =
        let normal = AllNormal-IsDraft g.nodes mapped.sorted_nodes (λ v n e.
          let r = (draft.contracted v n e).resolved in
          record {
            implementation = r.implementation;
            resolved = r.resolved;
            normalized = r.parameters;
            normal = r.normal;
          }) in
        let all_ready =
          gather_issues_iff capabilities external g.project_id g.input_bindings selected g.nodes
            normal in
        (
          λ e.
              let (issues, run, rest) =
                bind-ok
                  (gather_issues capabilities external selected g.project_id g.input_bindings
                    g.nodes)
                  _ e in
              let nothing : issues ≡ [] =
                is_empty-nil issues
                  ((from_issues_iff NodeCapabilityReadinessIssue issues).0 (ground arith)) in
              all_ready.0 (run ∙ ap ok nothing),
          λ r.
              ground
                (arith, all_ready.1 r, (from_issues_iff NodeCapabilityReadinessIssue []).1 refl),
        )
