-- ===== src/Workflow/Plan/Accepts.antt =====
-- When `try_new` accepts: the loop over the nodes takes every topological order of distinct nodes
-- whose input keys are distinct.
use oh_my_dream.Common.{
  ℕ, suc, ◌+◌, ◌≡◌, refl, ap, true, false, none, List, [], ◌∷◌, ◌++◌, map, all, length, to_set,
  contains, is_empty, ◌==◌, ==_iff, ok, Bool-cases, inl, inr, arith,
}
use mathlib.Core.List.{append_assoc}
use oh_my_dream.Common.Distinct.{distinct, contains-append, length-to_set_of_distinct}
use oh_my_dream.Workflow.Value.{WorkflowId, WorkflowRevision, WorkflowRunScope, WorkflowNodeId}
use oh_my_dream.Workflow.Plan.{
  WorkflowPlannedNode, node_ids, execution_ids, sources, position, distinct_keys, check_nodes,
  is_earlier, validate_deterministic_order, selects, validate_scope, try_new,
}
use oh_my_dream.Workflow.Plan.Checks.{IsTopological, node_ids-append, length-snoc}
use oh_my_dream.Workflow.Plan.Scope.{length-node_ids}

position-absent :
    (i : ℕ) (id : WorkflowNodeId) (ns : List WorkflowPlannedNode)
    → contains id (node_ids ns) ≡ false
    → position i id ns ≡ none
unfolding position
position-absent i id [] h = refl
position-absent i id (n ∷ ns) h =
    ground (arith, position-absent (suc i) id ns, ==_iff n.node_id id, ==_iff id n.node_id)

position-is_earlier :
    (i : ℕ) (id : WorkflowNodeId) (xs ys : List WorkflowPlannedNode)
    → contains id (node_ids xs) ≡ true
    → contains id (node_ids ys) ≡ false
    → is_earlier (position i id (xs ++ ys)) (i + length xs) ≡ true
unfolding position
position-is_earlier i id [] ys h k = absurd (ground arith)
position-is_earlier i id (x ∷ xs) ys h k = elim (Bool-cases (contains id (node_ids xs))) [
  | inl e ↦ ground (arith, position-is_earlier (suc i) id xs ys e k)
  | inr e ↦
      let later : position (suc i) id (xs ++ ys) ≡ none =
        position-absent (suc i) id (xs ++ ys)
          (ground (arith, node_ids-append xs ys, contains-append id (node_ids xs) (node_ids ys))) in
      ground (arith, later, ==_iff id x.node_id, ==_iff x.node_id id)
]

all-position-is_earlier :
    (ids : List WorkflowNodeId) (xs ys : List WorkflowPlannedNode)
    → ((a : WorkflowNodeId) → contains a (node_ids xs) ≡ true → contains a (node_ids ys) ≡ false)
    → all (λ source. contains source (node_ids xs)) ids ≡ true
    → all (λ source. is_earlier (position 0 source (xs ++ ys)) (length xs)) ids ≡ true
all-position-is_earlier [] xs ys apart h = refl
all-position-is_earlier (id ∷ ids) xs ys apart h = ground (
  arith,
  position-is_earlier 0 id xs ys (ground arith) (apart id (ground arith)),
  all-position-is_earlier ids xs ys apart (ground arith),
)

-- The keys of the inputs of every node are distinct.
abbrev pub AllKeyed : List WorkflowPlannedNode → Type 0
AllKeyed [] = Unit
AllKeyed (n ∷ ns) =
    ((distinct_keys (map (λ b. b.input_key) n.input_bindings) == length n.input_bindings) ≡ true)
    × AllKeyed ns

apart_of_distinct :
    (xs ys : List WorkflowNodeId)
    → distinct (xs ++ ys) ≡ true
    → (a : WorkflowNodeId) → contains a xs ≡ true
    → contains a ys ≡ false
apart_of_distinct [] ys d a h = absurd (ground arith)
apart_of_distinct (x ∷ xs) ys d a h =
    ground (arith, apart_of_distinct xs ys (ground arith) a, contains-append x xs ys, ==_iff a x)

check_nodes_of_IsTopological :
    (xs ns : List WorkflowPlannedNode)
    → distinct (node_ids (xs ++ ns)) ≡ true
    → AllKeyed ns
    → IsTopological (node_ids xs) ns
    → check_nodes (xs ++ ns) (length xs) ns ≡ ok tt
unfolding check_nodes
check_nodes_of_IsTopological xs [] d k t = refl
check_nodes_of_IsTopological xs (n ∷ ns) d k t =
    let apart : (a : WorkflowNodeId)
        → contains a (node_ids xs) ≡ true
        → contains a (node_ids (n ∷ ns)) ≡ false =
      apart_of_distinct (node_ids xs) (node_ids (n ∷ ns)) (rw⁻¹ (node_ids-append xs (n ∷ ns)) d) in
    let here = all-position-is_earlier (sources n) xs (n ∷ ns) apart t.0 in
    let again : (xs ++ n ∷ []) ++ ns ≡ xs ++ n ∷ ns = append_assoc xs (n ∷ []) ns in
    let next : check_nodes ((xs ++ n ∷ []) ++ ns) (length (xs ++ n ∷ [])) ns ≡ ok tt =
      check_nodes_of_IsTopological (xs ++ n ∷ []) ns (rw again d) k.1
        (rw (node_ids-append xs (n ∷ [])) t.1) in
    let rest : check_nodes (xs ++ n ∷ ns) (suc (length xs)) ns ≡ ok tt =
      rw⁻¹ (again, length-snoc xs n) next in
    ground (arith, here, k.0, rest)

-- `try_new` accepts the nodes that pass its checks.
pub record IsSound (scope : WorkflowRunScope) (nodes : List WorkflowPlannedNode) : Type 0 where
  pub filled : is_empty nodes ≡ false
  pub named : distinct (node_ids nodes) ≡ true
  pub executed : distinct (execution_ids nodes) ≡ true
  pub selected : selects scope nodes ≡ true
  pub keyed : AllKeyed nodes
  pub topological : IsTopological [] nodes
  pub ordered : validate_deterministic_order nodes ≡ ok tt
  pub scoped : validate_scope scope nodes ≡ ok tt

length-execution_ids : (ns : List WorkflowPlannedNode) → length (execution_ids ns) ≡ length ns
length-execution_ids [] = refl
length-execution_ids (n ∷ ns) = ap suc (length-execution_ids ns)

pub try_new_of_IsSound :
    (workflow_id : WorkflowId) (revision : WorkflowRevision) (scope : WorkflowRunScope)
    (nodes : List WorkflowPlannedNode)
    → IsSound scope nodes
    → try_new workflow_id revision scope nodes
      ≡ ok (record {
        workflow_id = workflow_id;
        workflow_revision = revision;
        scope = scope;
        nodes = nodes;
      })
unfolding try_new
try_new_of_IsSound w v scope nodes s =
    let first : check_nodes nodes 0 nodes ≡ ok tt =
      check_nodes_of_IsTopological [] nodes s.named s.keyed s.topological in
    ground (
      arith,
      s.filled,
      s.selected,
      s.ordered,
      s.scoped,
      first,
      length-to_set_of_distinct (node_ids nodes) s.named,
      length-to_set_of_distinct (execution_ids nodes) s.executed,
      length-node_ids nodes,
      length-execution_ids nodes,
      ==_iff (length (to_set (node_ids nodes))) (length nodes),
      ==_iff (length (to_set (execution_ids nodes))) (length nodes),
    )
