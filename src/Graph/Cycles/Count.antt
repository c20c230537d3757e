-- ===== src/Graph/Cycles/Count.antt =====
-- How many edges into a node come from nodes that are not visited yet.
use oh_my_dream.Common.{
  ℕ, suc, ◌+◌, ◌≡◌, refl, Bool, true, false, not, ◌&&◌, ◌||◌, List, [], ◌∷◌, contains, ◌==◌,
  if◌then◌else◌, Bool-cases, inl, inr, arith,
}
use oh_my_dream.Workflow.Value.{WorkflowNodeId}
use oh_my_dream.Graph.Cycles.{Edge}

abbrev pub contains_edge : WorkflowNodeId → WorkflowNodeId → List Edge → Bool
contains_edge u v [] = false
contains_edge u v ((a, b) ∷ es) = (u == a && v == b) || contains_edge u v es

abbrev pub distinct_edges : List Edge → Bool
distinct_edges [] = true
distinct_edges ((a, b) ∷ es) = not (contains_edge a b es) && distinct_edges es

-- The edges to `v` from outside `visited`.
abbrev pub count_open : WorkflowNodeId → List WorkflowNodeId → List Edge → ℕ
count_open v visited [] = 0
count_open v visited ((a, b) ∷ es) =
    let rest = count_open v visited es in
    if v == b && not (contains a visited) then suc rest else rest

-- A node with an open edge from `u` has a count.
pub count_open-eq-zero :
    (u v : WorkflowNodeId) (visited : List WorkflowNodeId) (es : List Edge)
    → count_open v visited es ≡ 0
    → contains_edge u v es ≡ true
    → contains u visited ≡ true
count_open-eq-zero u v visited [] z h = absurd (ground arith)
count_open-eq-zero u v visited ((a, b) ∷ es) z h = ground (arith, count_open-eq-zero u v visited es)

-- A count has an open edge.
pub count_open-source :
    (v : WorkflowNodeId) (visited : List WorkflowNodeId) (es : List Edge)
    → (count_open v visited es == 0) ≡ false
    → (u : WorkflowNodeId) × (contains_edge u v es ≡ true) × (contains u visited ≡ false)
count_open-source v visited [] h = absurd (ground arith)
count_open-source v visited ((a, b) ∷ es) h =
    elim (Bool-cases (v == b && not (contains a visited))) [
      | inl e ↦ (a, ground arith, ground arith)
      | inr e ↦
          let (u, edge, new) = count_open-source v visited es (ground arith) in
          (u, ground arith, new)
    ]

count_open_absent :
    (u v : WorkflowNodeId) (visited : List WorkflowNodeId) (es : List Edge)
    → contains_edge u v es ≡ false
    → count_open v (u ∷ visited) es ≡ count_open v visited es
count_open_absent u v visited [] h = refl
count_open_absent u v visited ((a, b) ∷ es) h = ground (arith, count_open_absent u v visited es)

-- A visit closes the one edge from the node.
pub count_open-cons :
    (u v : WorkflowNodeId) (visited : List WorkflowNodeId) (es : List Edge)
    → contains u visited ≡ false
    → distinct_edges es ≡ true
    → count_open v visited es
      ≡ count_open v (u ∷ visited) es + (if contains_edge u v es then 1 else 0)
count_open-cons u v visited [] h d = refl
count_open-cons u v visited ((a, b) ∷ es) h d =
    ground (arith, count_open-cons u v visited es, count_open_absent u v visited es)
