-- ===== src/Workflow/Run/Shape.antt =====
-- The shape that restoring demands of a Run's state, nodes and failure, kept by the node methods.
use oh_my_dream.Common.{
  ◌≡◌, refl, ◌⊎◌, inl, inr, Bool, true, false, not, ◌&&◌, Option, none, some, List, [], ◌∷◌, map,
  all, length, to_set, ◌==◌, arith,
}
use oh_my_dream.Common.Distinct.{distinct}
use oh_my_dream.Common.State.{◌>>=◌}
use oh_my_dream.Workflow.Value.{WorkflowNodeExecutionId, WorkflowRunTime, WorkflowRunState}
use oh_my_dream.Workflow.Value.RunState
use oh_my_dream.Workflow.Value.NodeState
use oh_my_dream.Workflow.Plan.{WorkflowPlannedNode}
use oh_my_dream.Workflow.Run.{
  WorkflowRunAggregate, WorkflowRunEventPayload, WorkflowRunFailure, node_execution_failed,
  interrupted_by_restart,
}
use oh_my_dream.Workflow.Run.Transition.{
  Node, find_node, write_node, push_event, ensure_event_can_be_recorded,
}
use oh_my_dream.Workflow.Run.Restore.{
  run_failure_matches, node_shape_is_valid, nodes_match_plan, nodes_fit,
}
use oh_my_dream.Workflow.Run.Machine.{
  NodeStep, begin, advance, wait, succeed, fail, block, NodeMethod, stay, write,
}

module _ {O C : Type 0} where
  abbrev pub execution_ids : List (Node O C) → List WorkflowNodeExecutionId
  execution_ids = map (λ n. n.execution_id)

  pub record IsShaped (r : WorkflowRunAggregate O C) : Type 0 where
    pub failed_matches : run_failure_matches r.state r.failure ≡ true
    pub planned : nodes_match_plan r.plan.nodes r.node_executions ≡ true
    pub unique :
        (length (to_set (execution_ids r.node_executions)) == length r.node_executions) ≡ true
    pub named : distinct (map (λ p. p.node_id) r.plan.nodes) ≡ true
    pub fitting : nodes_fit r.state r.failure r.node_executions ≡ true

  -- A step leads from a valid shape to one of the same identities.
  NodeStep-shape :
      {b : Bool} {st : WorkflowRunState} (n v : Node O C)
      → NodeStep b st n v
      → node_shape_is_valid n ≡ true
      → (node_shape_is_valid v ≡ true) × (v.node_id ≡ n.node_id) × (v.execution_id ≡ n.execution_id)
  unfolding node_shape_is_valid
  NodeStep-shape n v (begin t st s e) h = ground arith
  NodeStep-shape n v (advance p le s e) h = ground arith
  NodeStep-shape n v (wait st s e) h = ground arith
  NodeStep-shape n v (succeed o t s e) h = ground arith
  NodeStep-shape n v (fail f t s e) h = ground arith
  NodeStep-shape n v (block ids t may s x a e) h = ground arith

  -- Only an active node takes a step.
  pub NodeStep-active :
      {b : Bool} {st : WorkflowRunState} (n v : Node O C)
      → NodeStep b st n v
      → NodeState.is_active n.state ≡ true
  NodeStep-active n v (begin t st s e) = ground arith
  NodeStep-active n v (advance p le s e) = ground arith
  NodeStep-active n v (wait st s e) = ground arith
  NodeStep-active n v (succeed o t s e) = ground arith
  NodeStep-active n v (fail f t s e) = ground arith
  NodeStep-active n v (block ids t may s x a e) = ground arith

  -- A step in a Run that is not running starts from a started node, unless it blocks.
  NodeStep-started :
      {b : Bool} {st : WorkflowRunState} (n v : Node O C)
      → NodeStep b st n v
      → (b ≡ true) ⊎ (st ≡ WorkflowRunState.running) ⊎ (NodeState.is_pending n.state ≡ false)
  NodeStep-started n v (begin t st s e) = inr (inl st)
  NodeStep-started n v (advance p le s e) = inr (inr (ground arith))
  NodeStep-started n v (wait st s e) = inr (inl st)
  NodeStep-started n v (succeed o t s e) = inr (inr (ground arith))
  NodeStep-started n v (fail f t s e) = inr (inr (ground arith))
  NodeStep-started n v (block ids t may s x a e) = inl may

  module _ (id : WorkflowNodeExecutionId) (n v : Node O C) where
    find_node-all :
        (p : Node O C → Bool) (ns : List (Node O C))
        → find_node id ns ≡ some n
        → all p ns ≡ true
        → p n ≡ true
    unfolding find_node
    find_node-all p [] e h = cc
    find_node-all p (m ∷ ms) e h = ground (arith, find_node-all p ms)

    find_node-planned :
        (ps : List WorkflowPlannedNode) (ns : List (Node O C))
        → find_node id ns ≡ some n
        → nodes_match_plan ps ns ≡ true
        → node_shape_is_valid n ≡ true
    unfolding find_node nodes_match_plan
    find_node-planned ps [] e h = cc
    find_node-planned [] (m ∷ ms) e h = cc
    find_node-planned (p ∷ ps) (m ∷ ms) e h = ground (arith, find_node-planned ps ms)

    write_node-planned :
        (ps : List WorkflowPlannedNode) (ns : List (Node O C))
        → find_node id ns ≡ some n
        → node_shape_is_valid v ≡ true
        → v.node_id ≡ n.node_id
        → v.execution_id ≡ n.execution_id
        → nodes_match_plan ps ns ≡ true
        → nodes_match_plan ps (write_node id v ns) ≡ true
    unfolding find_node write_node nodes_match_plan
    write_node-planned ps [] e s i x h = cc
    write_node-planned [] (m ∷ ms) e s i x h = cc
    write_node-planned (p ∷ ps) (m ∷ ms) e s i x h = ground (arith, write_node-planned ps ms)

    execution_ids-write_node :
        (ns : List (Node O C))
        → find_node id ns ≡ some n
        → v.execution_id ≡ n.execution_id
        → execution_ids (write_node id v ns) ≡ execution_ids ns
    unfolding find_node write_node
    execution_ids-write_node [] e x = cc
    execution_ids-write_node (m ∷ ms) e x = ground (arith, execution_ids-write_node ms)

    length-write_node : (ns : List (Node O C)) → length (write_node id v ns) ≡ length ns
    unfolding write_node
    length-write_node [] = refl
    length-write_node (m ∷ ms) = ground (arith, length-write_node ms)

  pub all-find_node :
      (p : Node O C → Bool) (id : WorkflowNodeExecutionId) (n : Node O C) (ns : List (Node O C))
      → find_node id ns ≡ some n
      → p n ≡ false
      → all p ns ≡ false
  unfolding find_node
  all-find_node p id n [] e h = cc
  all-find_node p id n (m ∷ ms) e h = ground (arith, all-find_node p id n ms)

  -- A Run may change a node only if it is running, was interrupted, or is queued and blocks it.
  NodeStep-fitting :
      (b : Bool) (st : WorkflowRunState) (fl : Option WorkflowRunFailure)
      (id : WorkflowNodeExecutionId) (n v : Node O C) (ns ms : List (Node O C))
      → NodeStep b st n v
      → (b && RunState.is_queued st) ≡ false
      → find_node id ns ≡ some n
      → nodes_fit st fl ns ≡ true
      → nodes_fit st fl ms ≡ true
  NodeStep-fitting b WorkflowRunState.queued none id n v ns ms s q e h = absurd (
      ground
        (arith, NodeStep-started n v s, all-find_node (λ m. NodeState.is_pending m.state) id n ns))
  NodeStep-fitting b WorkflowRunState.queued (some f) id n v ns ms s q e h = cc
  NodeStep-fitting b WorkflowRunState.running none id n v ns ms s q e h = refl
  NodeStep-fitting b WorkflowRunState.running (some f) id n v ns ms s q e h = cc
  NodeStep-fitting b WorkflowRunState.succeeded none id n v ns ms s q e h = absurd (
      ground
        (arith, NodeStep-active n v s, all-find_node (λ m. NodeState.is_succeeded m.state) id n ns))
  NodeStep-fitting b WorkflowRunState.succeeded (some f) id n v ns ms s q e h = cc
  NodeStep-fitting b WorkflowRunState.cancelled none id n v ns ms s q e h = absurd (
      ground (
        arith,
        NodeStep-active n v s,
        all-find_node (λ m. not (NodeState.is_active m.state)) id n ns,
      ))
  NodeStep-fitting b WorkflowRunState.cancelled (some f) id n v ns ms s q e h = cc
  NodeStep-fitting b WorkflowRunState.failed none id n v ns ms s q e h = cc
  NodeStep-fitting b WorkflowRunState.failed (some (node_execution_failed ids)) id n v ns ms s q e
        h =
      absurd (
        ground (
          arith,
          NodeStep-active n v s,
          all-find_node (λ m. not (NodeState.is_active m.state)) id n ns,
        ))
  NodeStep-fitting b WorkflowRunState.failed (some interrupted_by_restart) id n v ns ms s q e h =
      refl

  pub push_event-same :
      (t : WorkflowRunTime) (p : WorkflowRunEventPayload O C) (r : WorkflowRunAggregate O C)
      → ((push_event t p r).1.state ≡ r.state)
        × ((push_event t p r).1.failure ≡ r.failure)
        × ((push_event t p r).1.plan ≡ r.plan)
        × ((push_event t p r).1.node_executions ≡ r.node_executions)
  unfolding push_event ensure_event_can_be_recorded ◌>>=◌
  push_event-same t p r = ground arith

  pub push_event-IsShaped :
      (t : WorkflowRunTime) (p : WorkflowRunEventPayload O C) (r : WorkflowRunAggregate O C)
      → IsShaped r
      → IsShaped (push_event t p r).1
  push_event-IsShaped t p r h =
      let (st, fl, pl, ns) = push_event-same t p r in
      record {
        failed_matches = rw (st, fl) h.failed_matches;
        planned = rw (pl, ns) h.planned;
        unique = rw ns h.unique;
        named = rw pl h.named;
        fitting = rw (st, fl, ns) h.fitting;
      }

  pub NodeMethod-IsShaped :
      (b : Bool) (r r' : WorkflowRunAggregate O C)
      → (b && RunState.is_queued r.state) ≡ false
      → NodeMethod b r r'
      → IsShaped r
      → IsShaped r'
  NodeMethod-IsShaped b r r' q (stay same) h = rw same h
  NodeMethod-IsShaped b r r' q (write id n v t p e s out) h =
      let ns = r.node_executions in
      let shape = find_node-planned id n v r.plan.nodes ns e h.planned in
      let (valid, node, execution) = NodeStep-shape n v s shape in
      rw out (
        push_event-IsShaped t p (record r { node_executions = write_node id v ns })
          (record {
            failed_matches = h.failed_matches;
            planned = write_node-planned id n v r.plan.nodes ns e valid node execution h.planned;
            unique =
                rw (execution_ids-write_node id n v ns e execution, length-write_node id n v ns)
                  h.unique;
            named = h.named;
            fitting =
                NodeStep-fitting b r.state r.failure id n v ns (write_node id v ns) s q e h.fitting;
          }))
