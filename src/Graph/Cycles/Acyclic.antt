-- ===== src/Graph/Cycles/Acyclic.antt =====
-- The cycle check accepts exactly the graphs that have an order of their nodes along all edges.
use oh_my_dream.Common.{ℕ, ◌<◌, ◌≡◌, true, List, arith}
use oh_my_dream.Common.Bytes.{nat_ord}
use oh_my_dream.Workflow.Value.{WorkflowNodeId}
use oh_my_dream.Graph.Cycles.{Edge}
use oh_my_dream.Graph.Cycles.Count.{contains_edge}

-- A rank that grows along every edge.
pub record IsAcyclic (es : List Edge) : Type 0 where
  pub rank : WorkflowNodeId → ℕ
  pub grows : (u v : WorkflowNodeId) → contains_edge u v es ≡ true → rank u < rank v

-- A walk of one edge or more.
pub data Walk (es : List Edge) (u : WorkflowNodeId) : WorkflowNodeId → Type 0 where
  edge : {v : WorkflowNodeId} → contains_edge u v es ≡ true → Walk es u v
  step : {v w : WorkflowNodeId} → Walk es u v → contains_edge v w es ≡ true → Walk es u w

Walk-lt :
    {es : List Edge} {u v : WorkflowNodeId} (a : IsAcyclic es) → Walk es u v → a.rank u < a.rank v
Walk-lt {u} {v} a (edge e) = a.grows u v e
Walk-lt a (step {v} {w} p e) = omega (arith, Walk-lt a p, a.grows v w e)

pub not-Walk : {es : List Edge} {v : WorkflowNodeId} → IsAcyclic es → ¬ Walk es v v
not-Walk a p = absurd (omega (arith, Walk-lt a p))
