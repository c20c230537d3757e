-- ===== src/Graph/Cycles.antt =====
-- `reject_cycles` of crates/engine/src/workflow_graph/aggregate.rs: Kahn's algorithm.
pub mod Count
pub mod Build
pub mod Visit
pub mod Loop
pub mod Acyclic
pub mod Decide
use oh_my_dream.Common.{
  ℕ, zero, suc, ◌+◌, ◌-◌, Option, none, some, List, [], ◌∷◌, ◌++◌, map, contains, insert_set,
  length, ◌==◌, Result, ok, err, if◌then◌else◌,
}
use oh_my_dream.Common.Bytes.{nat_ord}
use oh_my_dream.Common.Maps.{BTreeMap, get, insert}
use oh_my_dream.Workflow.Value.{
  WorkflowNodeId, WorkflowInputItemEntity, WorkflowInputBinding, items,
}
use oh_my_dream.Graph.Value.{WorkflowGraphError, node_not_found, cycle, WorkflowInputTarget}

abbrev pub Edge : Type 0
Edge = WorkflowNodeId × WorkflowNodeId

abbrev pub edges_of : WorkflowNodeId → List WorkflowInputItemEntity → List Edge
edges_of target [] = []
edges_of target (item ∷ rest) = (item.source_node_id, target) ∷ edges_of target rest

-- The source and the target of every item, in the order of the two loops.
unfoldable pub edges : List (WorkflowInputTarget × WorkflowInputBinding) → List Edge
edges [] = []
edges ((target, binding) ∷ rest) = edges_of target.node_id (items binding) ++ edges rest

abbrev pub Degrees : Type 0
Degrees = BTreeMap WorkflowNodeId ℕ

abbrev pub Outgoing : Type 0
Outgoing = BTreeMap WorkflowNodeId (List WorkflowNodeId)

-- `outgoing.get`, where a missing set and an empty one are the same to the loops.
abbrev pub or_default : Option (List WorkflowNodeId) → List WorkflowNodeId
or_default none = []
or_default (some targets) = targets

abbrev pub targets_of : WorkflowNodeId → Outgoing → List WorkflowNodeId
targets_of source outgoing = or_default (get source outgoing)

-- An edge that is new to `outgoing` counts for its target:
-- `if outgoing.entry(source).or_default().insert(target) { *indegree.get_mut(target)? += 1 }`
unfoldable pub add_edges :
    List Edge → Degrees → Outgoing → Result WorkflowGraphError (Degrees × Outgoing)
add_edges [] indegree outgoing = ok (indegree, outgoing)
add_edges ((source, target) ∷ rest) indegree outgoing =
    let known = targets_of source outgoing in
    let outgoing' = insert source (insert_set target known) outgoing in
    if contains target known
    then add_edges rest indegree outgoing'
    else elim (get target indegree) [
      | none ↦ err node_not_found
      | some degree ↦ add_edges rest (insert target (degree + 1) indegree) outgoing'
    ]

-- The vector `ready`, its last element at the head.
unfoldable pub ready_nodes : Degrees → List WorkflowNodeId → List WorkflowNodeId
ready_nodes [] ready = ready
ready_nodes ((id, degree) ∷ rest) ready =
    ready_nodes rest (if degree == 0 then id ∷ ready else ready)

-- The `for` loop over the targets of a visited node.
unfoldable pub release :
    List WorkflowNodeId
    → Degrees
    → List WorkflowNodeId
    → Result WorkflowGraphError (Degrees × List WorkflowNodeId)
release [] indegree ready = ok (indegree, ready)
release (target ∷ rest) indegree ready = elim (get target indegree) [
  | none ↦ err node_not_found
  | some degree ↦
      release rest (insert target (degree - 1) indegree)
        (if degree - 1 == 0 then target ∷ ready else ready)
]

-- The `while let` loop on fuel; `none` means that the fuel ran out.
unfoldable pub visit :
    ℕ → Outgoing → Degrees → List WorkflowNodeId → ℕ → Option (Result WorkflowGraphError ℕ)
unfolding release
visit fuel outgoing indegree [] visited = some (ok visited)
visit zero outgoing indegree (source ∷ ready) visited = none
visit (suc fuel) outgoing indegree (source ∷ ready) visited =
    elim (release (targets_of source outgoing) indegree ready) [
      | err e ↦ some (err e)
      | ok (indegree', ready') ↦ visit fuel outgoing indegree' ready' (visited + 1)
    ]

abbrev pub compare_visited :
    Option (Result WorkflowGraphError ℕ) → ℕ → Result WorkflowGraphError Unit
compare_visited none count = err cycle
compare_visited (some (err e)) count = err e
compare_visited (some (ok visited)) count = if visited == count then ok tt else err cycle

unfoldable pub zero_degrees : List WorkflowNodeId → Degrees
zero_degrees = map (λ id. (id, 0))

-- The keys of `nodes`, and the edges of the bindings.
unfoldable pub reject_cycles : List WorkflowNodeId → List Edge → Result WorkflowGraphError Unit
unfolding add_edges ready_nodes visit zero_degrees
reject_cycles ids es = elim (add_edges es (zero_degrees ids) []) [
  | err e ↦ err e
  | ok (indegree, outgoing) ↦
      compare_visited (visit (length ids) outgoing indegree (ready_nodes indegree []) 0)
        (length ids)
]
