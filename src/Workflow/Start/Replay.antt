-- ===== src/Workflow/Start/Replay.antt =====
-- Receipts and command hashes of crates/engine/src/workflow/run_admission.rs: whose admission a
-- receipt replays, and what an admission that succeeded has made.
use oh_my_dream.Common.{ℕ, ◌<◌, ◌^◌, ◌≡◌, ◌↔◌, refl, ap, List, ◌∷◌, ==_iff, ok, arith}
use oh_my_dream.Common.Bytes.{ascii, list_eq_iff}
use oh_my_dream.Capability.Canonical.{append_variable_bytes}
use oh_my_dream.Workflow.Value.{
  WorkflowId, WorkflowRevision, WorkflowRunScope, whole_workflow, through_node,
}
use oh_my_dream.Tasks.Canonical.Prefix.{append_injective, to_be_bytes_injective, to_be_bytes_prefix}
use oh_my_dream.Workflow.Start.{
  scope_bytes, start_run_bytes, start_run_command, admission_receipt, replay_run_id,
}

abbrev pub IsScope : WorkflowRunScope → Type 0
IsScope whole_workflow = Unit
IsScope (through_node node) = node < 256 ^ 16

tail-eq : {x y : ℕ} {xs ys : List ℕ} → x ∷ xs ≡ y ∷ ys → xs ≡ ys
tail-eq e = ground arith

scope_bytes_injective :
    (a b : WorkflowRunScope) → IsScope a → IsScope b → scope_bytes a ≡ scope_bytes b → a ≡ b
scope_bytes_injective whole_workflow whole_workflow h k e = refl
scope_bytes_injective whole_workflow (through_node n) h k e = absurd (ground arith)
scope_bytes_injective (through_node n) whole_workflow h k e = absurd (ground arith)
scope_bytes_injective (through_node n) (through_node m) h k e =
    ap through_node (to_be_bytes_injective 16 n m h k (tail-eq e))

-- The content that a command hashes, in the ranges of its Rust types.
pub record IsContent (workflow_id : WorkflowId) (revision : WorkflowRevision)
    (scope : WorkflowRunScope) : Type 0 where
  pub workflow : workflow_id < 256 ^ 16
  pub revised : revision < 256 ^ 8
  pub scoped : IsScope scope

pub start_run_bytes_injective :
    (w x : WorkflowId) (v y : WorkflowRevision) (s t : WorkflowRunScope)
    → IsContent w v s
    → IsContent x y t
    → start_run_bytes w v s ≡ start_run_bytes x y t
    → (w ≡ x) × (v ≡ y) × (s ≡ t)
unfolding start_run_bytes
start_run_bytes_injective w x v y s t h k e =
    let (domain, rest) =
      append_injective (append_variable_bytes (ascii "oh-my-dream/workflow-start-run/v1"))
        (append_variable_bytes (ascii "oh-my-dream/workflow-start-run/v1")) _ _ refl e in
    let (a, r) = to_be_bytes_prefix 16 w x _ _ h.workflow k.workflow rest in
    let (b, q) = to_be_bytes_prefix 8 v y _ _ h.revised k.revised r in
    (a, b, scope_bytes_injective s t h.scoped k.scoped q)

-- When SHA-256 tells the two contents apart, the receipt of an admission replays for a command exactly
-- when that command has its request, its Workflow, its revision and its scope.
pub replay_run_id_iff :
    (I : Type 0) (sha256 : List ℕ → List ℕ) (p q run : ℕ) (w x : WorkflowId)
    (v y : WorkflowRevision) (s t : WorkflowRunScope)
    → IsContent w v s
    → IsContent x y t
    → (sha256 (start_run_bytes w v s) ≡ sha256 (start_run_bytes x y t)
        → start_run_bytes w v s ≡ start_run_bytes x y t)
    → (replay_run_id {I = I}
          (admission_receipt (start_run_command sha256 p w v s) run)
          (start_run_command sha256 q x y t)
        ≡ ok run)
      ↔ ((p ≡ q) × (w ≡ x) × (v ≡ y) × (s ≡ t))
unfolding replay_run_id admission_receipt start_run_command
replay_run_id_iff I sha256 p q run w x v y s t h k apart =
    let a = sha256 (start_run_bytes w v s) in
    let b = sha256 (start_run_bytes x y t) in
    (
      λ e.
          let (same, hashed) : (p ≡ q) × (a ≡ b) = ground (arith, ==_iff p q, list_eq_iff a b) in
          let (i, j, l) = start_run_bytes_injective w x v y s t h k (apart hashed) in
          (same, i, j, l),
      λ (m, n, o, r). let hashed : a ≡ b = cc in ground (arith, ==_iff p q, list_eq_iff a b),
    )
