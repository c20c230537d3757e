-- ===== src/Graph/Cycles/Visit.antt =====
-- The loop over the ready nodes: what it keeps, and that it ends within its fuel.
use oh_my_dream.Common.{
  ◌+◌, ◌≡◌, true, false, ◌||◌, some, List, [], ◌∷◌, contains, ◌==◌, ==_iff, if◌then◌else◌, arith,
}
use oh_my_dream.Common.Bytes.{nat_ord}
use oh_my_dream.Common.Distinct.{distinct}
use oh_my_dream.Common.Maps.{get, insert, get-insert}
use oh_my_dream.Workflow.Value.{WorkflowNodeId}
use oh_my_dream.Graph.Cycles.{Edge, Degrees}
use oh_my_dream.Graph.Cycles.Count.{contains_edge, count_open}

-- Each visited node, the last one first, has all its sources behind it.
abbrev pub IsOrdered : List Edge → List WorkflowNodeId → Type 0
IsOrdered es [] = Unit
IsOrdered es (v ∷ vs) =
    ((u : WorkflowNodeId) → contains_edge u v es ≡ true → contains u vs ≡ true) × IsOrdered es vs

module _ (ids : List WorkflowNodeId) (es : List Edge) where
  -- What the loops keep: the visited nodes, the last one first, the degrees, the targets that are still
  -- to release, and the nodes that are ready.
  pub record IsReleasing (visited : List WorkflowNodeId) (indegree : Degrees)
      (targets ready : List WorkflowNodeId) : Type 0 where
    pub degrees :
        (v : WorkflowNodeId)
        → contains v ids ≡ true
        → get v indegree ≡ some (count_open v visited es + (if contains v targets then 1 else 0))
    pub distinct_ready : distinct ready ≡ true
    pub distinct_visited : distinct visited ≡ true
    pub apart : (a : WorkflowNodeId) → contains a ready ≡ true → contains a visited ≡ false
    pub known :
        (a : WorkflowNodeId)
        → (contains a ready || contains a visited) ≡ true
        → contains a ids ≡ true
    pub free :
        (a : WorkflowNodeId)
        → (contains a ready || contains a visited) ≡ true
        → (count_open a visited es ≡ 0) × (contains a targets ≡ false)
    pub complete :
        (a : WorkflowNodeId)
        → contains a ids ≡ true
        → count_open a visited es ≡ 0
        → contains a targets ≡ false
        → (contains a ready || contains a visited) ≡ true
    pub ordered : IsOrdered es visited

  module _ (visited : List WorkflowNodeId) (indegree : Degrees) (t : WorkflowNodeId)
      (targets ready : List WorkflowNodeId) (unique : distinct (t ∷ targets) ≡ true)
      (inside : contains t ids ≡ true) (h : IsReleasing visited indegree (t ∷ targets) ready) where
    -- The degree of a released target.
    pub released : get t indegree ≡ some (count_open t visited es + 1)
    released = ground (arith, h.degrees t inside)

    degrees-released :
        (v : WorkflowNodeId)
        → contains v ids ≡ true
        → get v (insert t (count_open t visited es) indegree)
          ≡ some (count_open v visited es + (if contains v targets then 1 else 0))
    degrees-released v k =
        ground (arith, get-insert v t (count_open t visited es) indegree, h.degrees v k, ==_iff v t)

    pub IsReleasing-waiting :
        (count_open t visited es == 0) ≡ false
        → IsReleasing visited (insert t (count_open t visited es) indegree) targets ready
    IsReleasing-waiting z = record {
      degrees = degrees-released;
      distinct_ready = h.distinct_ready;
      distinct_visited = h.distinct_visited;
      apart = h.apart;
      known = h.known;
      free = λ a s. ground (arith, h.free a s);
      complete = λ a k c m. ground (arith, h.complete a k, ==_iff a t);
      ordered = h.ordered;
    }

    pub IsReleasing-ready :
        (count_open t visited es == 0) ≡ true
        → IsReleasing visited (insert t (count_open t visited es) indegree) targets (t ∷ ready)
    IsReleasing-ready z = record {
      degrees = degrees-released;
      distinct_ready = ground (arith, h.distinct_ready, h.free t);
      distinct_visited = h.distinct_visited;
      apart = λ a s. ground (arith, h.apart a, h.free t, ==_iff a t);
      known = λ a s. ground (arith, h.known a, ==_iff a t);
      free = λ a s. ground (arith, h.free a, ==_iff a t);
      complete = λ a k c m. ground (arith, h.complete a k c, ==_iff a t);
      ordered = h.ordered;
    }
