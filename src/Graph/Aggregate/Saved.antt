-- ===== src/Graph/Aggregate/Saved.antt =====
-- The restore data of a graph, and that a restored graph restores from them.
use oh_my_dream.Common.{◌≡◌, refl, Bool, true, List, [], ◌∷◌, map, all, ◌==◌, ok, arith}
use oh_my_dream.Common.Bytes.{nat_ord}
use oh_my_dream.Common.Maps.{
  insert, collect_onto, IsSorted, collect_onto_of_IsSorted, collect_onto-IsSorted,
}
use oh_my_dream.Workflow.Value.{WorkflowNodeId}
use oh_my_dream.Capability.Registry.{WorkflowNodeCapabilityRegistry}
use oh_my_dream.Graph.Value.{duplicate_node, input_occupied, WorkflowNodeEntity, target_ord}
use oh_my_dream.Graph.Aggregate.{
  Nodes, Bindings, WorkflowAggregate, WorkflowAggregateRestoreData, by_id, collect_unique_nodes,
  collect_unique_bindings, try_restore,
}
use oh_my_dream.Graph.Aggregate.Parts.{IsRestored, try_restore-IsRestored}

abbrev pub into_values : {P : Type 0} → Nodes P → List (WorkflowNodeEntity P)
into_values = map (λ e. e.1)

-- The fields of a graph, its maps as lists.
unfoldable pub save : {P : Type 0} → WorkflowAggregate P → WorkflowAggregateRestoreData P
save g = record {
  schema_version = g.schema_version;
  id = g.id;
  project_id = g.project_id;
  revision = g.revision;
  created_at = g.created_at;
  updated_at = g.updated_at;
  nodes = into_values g.nodes;
  input_bindings = g.input_bindings;
}

collect_unique_bindings_lem : (m : Bindings) → IsSorted m → collect_unique_bindings m ≡ ok m
unfolding collect_unique_bindings
collect_unique_bindings_lem m s = collect_onto_of_IsSorted input_occupied m [] s

module _ {P : Type 0} where
  -- Every node stands under its own identity.
  abbrev pub is_keyed : Nodes P → Bool
  is_keyed = all (λ e. e.0 == e.1.id)

  pub is_keyed-insert :
      (k : WorkflowNodeId) (n : WorkflowNodeEntity P) (m : Nodes P)
      → k ≡ n.id
      → is_keyed m ≡ true
      → is_keyed (insert k n m) ≡ true
  is_keyed-insert k n [] e h = ground arith
  is_keyed-insert k n ((i, w) ∷ m) e h = ground (arith, is_keyed-insert k n m)

  is_keyed-collect :
      (l : List (WorkflowNodeEntity P)) (m r : Nodes P)
      → is_keyed m ≡ true
      → collect_onto duplicate_node (by_id l) m ≡ ok r
      → is_keyed r ≡ true
  is_keyed-collect [] m r h e = ground arith
  is_keyed-collect (n ∷ l) m r h e =
      is_keyed-collect l (insert n.id n m) r (is_keyed-insert n.id n m refl h) (ground arith)

  by_id-into_values : (m : Nodes P) → is_keyed m ≡ true → by_id (into_values m) ≡ m
  by_id-into_values [] h = refl
  by_id-into_values ((i, n) ∷ m) h = ground (arith, by_id-into_values m)

  -- The maps of a graph that was restored.
  pub record IsMapped (g : WorkflowAggregate P) : Type 0 where
    pub sorted_nodes : IsSorted g.nodes
    pub keyed_nodes : is_keyed g.nodes ≡ true
    pub sorted_bindings : IsSorted g.input_bindings

  pub IsRestored-IsMapped :
      (capabilities : WorkflowNodeCapabilityRegistry) (d : WorkflowAggregateRestoreData P)
      (g : WorkflowAggregate P)
      → IsRestored capabilities d g
      → IsMapped g
  unfolding collect_unique_nodes collect_unique_bindings
  IsRestored-IsMapped capabilities d g r = record {
    sorted_nodes = collect_onto-IsSorted duplicate_node (by_id d.nodes) [] g.nodes tt r.nodes_run;
    keyed_nodes = is_keyed-collect d.nodes [] g.nodes refl r.nodes_run;
    sorted_bindings =
        collect_onto-IsSorted input_occupied d.input_bindings [] g.input_bindings tt r.bindings_run;
  }

  collect_unique_nodes-into_values :
      (m : Nodes P) → IsSorted m → is_keyed m ≡ true → collect_unique_nodes (into_values m) ≡ ok m
  unfolding collect_unique_nodes
  collect_unique_nodes-into_values m s k =
      rw (by_id-into_values m k) (collect_onto_of_IsSorted duplicate_node m [] s)

  -- A graph that was restored is saved as data from which restoring gives the same graph.
  pub try_restore-save :
      (capabilities : WorkflowNodeCapabilityRegistry) (d : WorkflowAggregateRestoreData P)
      (g : WorkflowAggregate P)
      → try_restore d capabilities ≡ ok g
      → try_restore (save g) capabilities ≡ ok g
  unfolding try_restore save
  try_restore-save capabilities d g e =
      let r = try_restore-IsRestored capabilities d g e in
      let m = IsRestored-IsMapped capabilities d g r in
      let a = collect_unique_nodes-into_values g.nodes m.sorted_nodes m.keyed_nodes in
      let b = collect_unique_bindings_lem g.input_bindings m.sorted_bindings in
      let s = r.same in ground (arith, a, b, r.timed, r.contracts_run, r.items_run, r.cycles_run)
