-- ===== src/Workflow/Plan/Checks.antt =====
-- What an accepted plan satisfies: distinct identities, and every source before its targets.
use oh_my_dream.Common.{
  ℕ, suc, ◌+◌, ◌≤◌, ◌<◌, ◌≡◌, refl, ap, true, false, some, List, [], ◌∷◌, ◌++◌, all, length,
  length-append, to_set, contains, is_empty, ok, Option-cases, inl, inr, arith,
}
use mathlib.Core.List.{append_assoc}
use oh_my_dream.Workflow.Value.{WorkflowId, WorkflowRevision, WorkflowRunScope, WorkflowNodeId}
use oh_my_dream.Workflow.Plan.{
  WorkflowPlannedNode, WorkflowExecutionPlan, node_ids, execution_ids, sources, position,
  check_nodes, validate_deterministic_order, is_earlier, selects, validate_scope, try_new,
}

-- Each source of a node is among the identities of the nodes before it.
abbrev pub IsTopological : List WorkflowNodeId → List WorkflowPlannedNode → Type 0
IsTopological before [] = Unit
IsTopological before (n ∷ ns) =
    (all (λ source. contains source before) (sources n) ≡ true)
    × IsTopological (before ++ n.node_id ∷ []) ns

-- The checks of an accepted plan, one by one.
pub record IsAdmitted (scope : WorkflowRunScope) (nodes : List WorkflowPlannedNode) : Type 0 where
  pub filled : is_empty nodes ≡ false
  pub named : length (to_set (node_ids nodes)) ≡ length nodes
  pub executed : length (to_set (execution_ids nodes)) ≡ length nodes
  pub selected : selects scope nodes ≡ true
  pub earlier : check_nodes nodes 0 nodes ≡ ok tt
  pub ordered : validate_deterministic_order nodes ≡ ok tt
  pub scoped : validate_scope scope nodes ≡ ok tt

pub try_new-IsAdmitted :
    (w : WorkflowId) (v : WorkflowRevision) (scope : WorkflowRunScope)
    (nodes : List WorkflowPlannedNode) {plan : WorkflowExecutionPlan}
    → try_new w v scope nodes ≡ ok plan
    → IsAdmitted scope nodes
unfolding try_new
try_new-IsAdmitted w v scope nodes e = record {
  filled = ground arith;
  named = ground arith;
  executed = ground arith;
  selected = ground arith;
  earlier = ground arith;
  ordered = ground arith;
  scoped = ground arith;
}

pub nodes-try_new :
    (w : WorkflowId) (v : WorkflowRevision) (scope : WorkflowRunScope)
    (nodes : List WorkflowPlannedNode) {plan : WorkflowExecutionPlan}
    → try_new w v scope nodes ≡ ok plan
    → plan.nodes ≡ nodes
unfolding try_new
nodes-try_new w v scope nodes e = ground arith

-- A position that is found lies in the range of indices.
position-ge :
    (i : ℕ) (id : WorkflowNodeId) (ns : List WorkflowPlannedNode) (k : ℕ)
    → position i id ns ≡ some k
    → i ≤ k
unfolding position
position-ge i id [] k e = cc
position-ge i id (n ∷ ns) k e = ground (arith, position-ge (suc i) id ns k)

-- A position below the end of a first part lies in that part.
position-contains :
    (i : ℕ) (id : WorkflowNodeId) (xs ys : List WorkflowPlannedNode) (k : ℕ)
    → position i id (xs ++ ys) ≡ some k
    → k < i + length xs
    → contains id (node_ids xs) ≡ true
unfolding position
position-contains i id [] ys k e l = absurd (omega (arith, position-ge i id ys k e))
position-contains i id (x ∷ xs) ys k e l = ground (arith, position-contains (suc i) id xs ys k)

is_earlier-contains :
    (id : WorkflowNodeId) (xs ys : List WorkflowPlannedNode)
    → is_earlier (position 0 id (xs ++ ys)) (length xs) ≡ true
    → contains id (node_ids xs) ≡ true
is_earlier-contains id xs ys h = elim (Option-cases (position 0 id (xs ++ ys))) [
  | inl missing ↦ ground arith
  | inr (k, e) ↦ position-contains 0 id xs ys k e (ground arith)
]

all-is_earlier :
    (ids : List WorkflowNodeId) (xs ys : List WorkflowPlannedNode)
    → all (λ source. is_earlier (position 0 source (xs ++ ys)) (length xs)) ids ≡ true
    → all (λ source. contains source (node_ids xs)) ids ≡ true
all-is_earlier [] xs ys h = refl
all-is_earlier (id ∷ ids) xs ys h =
    ground (arith, is_earlier-contains id xs ys, all-is_earlier ids xs ys)

pub length-snoc :
    (xs : List WorkflowPlannedNode) (n : WorkflowPlannedNode)
    → length (xs ++ n ∷ []) ≡ suc (length xs)
length-snoc xs n = omega (arith, length-append xs (n ∷ []))

pub node_ids-append :
    (xs ys : List WorkflowPlannedNode) → node_ids (xs ++ ys) ≡ node_ids xs ++ node_ids ys
node_ids-append [] ys = refl
node_ids-append (x ∷ xs) ys = ap (λ l. x.node_id ∷ l) (node_ids-append xs ys)

check_nodes-IsTopological :
    (xs ns : List WorkflowPlannedNode)
    → check_nodes (xs ++ ns) (length xs) ns ≡ ok tt
    → IsTopological (node_ids xs) ns
unfolding check_nodes
check_nodes-IsTopological xs [] h = tt
check_nodes-IsTopological xs (n ∷ ns) h =
    let here = all-is_earlier (sources n) xs (n ∷ ns) (ground arith) in
    let next : check_nodes ((xs ++ n ∷ []) ++ ns) (length (xs ++ n ∷ [])) ns ≡ ok tt =
      rw (append_assoc, length-snoc xs n) (ground arith) in
    (here, rw (← node_ids-append xs (n ∷ [])) (check_nodes-IsTopological (xs ++ n ∷ []) ns next))

-- An accepted plan is in topological order: every source of a node is planned before it.
pub try_new-IsTopological :
    (w : WorkflowId) (v : WorkflowRevision) (scope : WorkflowRunScope)
    (nodes : List WorkflowPlannedNode) {plan : WorkflowExecutionPlan}
    → try_new w v scope nodes ≡ ok plan
    → IsTopological [] plan.nodes
try_new-IsTopological w v scope nodes e =
    rw (nodes-try_new w v scope nodes e)
      (check_nodes-IsTopological [] nodes (try_new-IsAdmitted w v scope nodes e).earlier)
