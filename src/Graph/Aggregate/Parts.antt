-- ===== src/Graph/Aggregate/Parts.antt =====
-- A restored graph step by step, and that its saved fields restore to it.
use oh_my_dream.Common.{ℕ, ◌≡◌, refl, false, List, [], ltb, ok, Result-cases, inl, inr, arith}
use oh_my_dream.Common.Bytes.{nat_ord}
use oh_my_dream.Capability.Registry.{WorkflowNodeCapabilityRegistry}
use oh_my_dream.Graph.Value.{target_ord}
use oh_my_dream.Graph.Cycles.{edges, reject_cycles}
use oh_my_dream.Graph.Aggregate.{
  Contracts, WorkflowAggregate, WorkflowAggregateRestoreData, collect_unique_nodes,
  collect_unique_bindings, resolve_contracts, validate_bindings, node_ids, try_restore,
}

module _ {P : Type 0} (capabilities : WorkflowNodeCapabilityRegistry) where
  -- What the steps of a successful restoration returned.
  pub record IsRestored (d : WorkflowAggregateRestoreData P) (g : WorkflowAggregate P)
      : Type 0 where
    pub contracts : Contracts
    pub item_ids : List ℕ
    pub timed : ltb d.updated_at d.created_at ≡ false
    pub nodes_run : collect_unique_nodes d.nodes ≡ ok g.nodes
    pub bindings_run : collect_unique_bindings d.input_bindings ≡ ok g.input_bindings
    pub contracts_run : resolve_contracts capabilities g.nodes [] ≡ ok contracts
    pub items_run : validate_bindings g.nodes g.input_bindings contracts [] ≡ ok item_ids
    pub cycles_run : reject_cycles (node_ids g.nodes) (edges g.input_bindings) ≡ ok tt
    pub same : g ≡ record {
      schema_version = d.schema_version;
      id = d.id;
      project_id = d.project_id;
      revision = d.revision;
      created_at = d.created_at;
      updated_at = d.updated_at;
      nodes = g.nodes;
      input_bindings = g.input_bindings;
    }

  pub try_restore-IsRestored :
      (d : WorkflowAggregateRestoreData P) (g : WorkflowAggregate P)
      → try_restore d capabilities ≡ ok g
      → IsRestored d g
  unfolding try_restore
  try_restore-IsRestored d g e = elim (Result-cases (collect_unique_nodes d.nodes)) [
    | inr (x, f) ↦ absurd (ground arith)
    | inl (ns, f) ↦ elim (Result-cases (collect_unique_bindings d.input_bindings)) [
      | inr (x, k) ↦ absurd (ground arith)
      | inl (bs, k) ↦ elim (Result-cases (resolve_contracts capabilities ns [])) [
        | inr (x, l) ↦ absurd (ground arith)
        | inl (cs, l) ↦ elim (Result-cases (validate_bindings ns bs cs [])) [
          | inr (x, m) ↦ absurd (ground arith)
          | inl (ids, m) ↦ elim (Result-cases (reject_cycles (node_ids ns) (edges bs))) [
            | inr (x, n) ↦ absurd (ground arith)
            | inl (u, n) ↦
                let same : g ≡ record {
                  schema_version = d.schema_version;
                  id = d.id;
                  project_id = d.project_id;
                  revision = d.revision;
                  created_at = d.created_at;
                  updated_at = d.updated_at;
                  nodes = ns;
                  input_bindings = bs;
                } =
                  ground arith in
                simp same (record {
                  contracts = cs;
                  item_ids = ids;
                  timed = ground arith;
                  nodes_run = f;
                  bindings_run = k;
                  contracts_run = l;
                  items_run = m;
                  cycles_run = n;
                  same = refl;
                })
          ]
        ]
      ]
    ]
  ]
