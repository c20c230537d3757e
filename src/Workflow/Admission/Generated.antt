-- ===== src/Workflow/Admission/Generated.antt =====
-- The node-execution identities that the generator of crates/engine/src/workflow/run_admission.rs
-- gives one after the other.
use oh_my_dream.Common.{ℕ, suc, ◌<◌, ◌≡◌, refl, true, false, List, [], ◌∷◌, contains, ==_iff, arith}
use oh_my_dream.Common.Distinct.{distinct}
use oh_my_dream.Workflow.Value.{WorkflowNodeId, WorkflowNodeExecutionId}

-- The execution identities that are generated from an index on.
abbrev pub generated :
    (ℕ → WorkflowNodeExecutionId) → ℕ → List WorkflowNodeId → List WorkflowNodeExecutionId
generated fresh index [] = []
generated fresh index (id ∷ ids) = fresh index ∷ generated fresh (suc index) ids

-- Fresh identities are distinct.
contains-generated :
    (fresh : ℕ → WorkflowNodeExecutionId) (i j : ℕ) (ids : List WorkflowNodeId)
    → ((a b : ℕ) → fresh a ≡ fresh b → a ≡ b)
    → i < j
    → contains (fresh i) (generated fresh j ids) ≡ false
contains-generated fresh i j [] h l = refl
contains-generated fresh i j (id ∷ ids) h l = ground (
  arith,
  contains-generated fresh i (suc j) ids h (omega arith),
  ==_iff (fresh i) (fresh j),
  h i j,
)

pub distinct-generated :
    (fresh : ℕ → WorkflowNodeExecutionId) (i : ℕ) (ids : List WorkflowNodeId)
    → ((a b : ℕ) → fresh a ≡ fresh b → a ≡ b)
    → distinct (generated fresh i ids) ≡ true
distinct-generated fresh i [] h = refl
distinct-generated fresh i (id ∷ ids) h = ground (
  arith,
  contains-generated fresh i (suc i) ids h (omega arith),
  distinct-generated fresh (suc i) ids h,
)
