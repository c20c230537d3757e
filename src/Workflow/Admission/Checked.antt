-- ===== src/Workflow/Admission/Checked.antt =====
-- `deterministic_topological_order` of crates/engine/src/workflow/run_admission.rs: each identity comes
-- after its sources, and the check of crates/engine/src/workflow/plan.rs repeats the choices of the
-- loop.
use oh_my_dream.Common.{
  ℕ, zero, suc, ◌≡◌, ◌∙◌, refl, ap, sym, subst, true, false, not, some, List, [], ◌∷◌, ◌++◌, all,
  contains, ==_iff, ok, Option-cases, inl, inr, arith,
}
use oh_my_dream.Common.Distinct.{contains-append}
use oh_my_dream.Common.Pigeonhole.{Subset}
use oh_my_dream.Workflow.Value.{WorkflowNodeId}
use oh_my_dream.Workflow.Plan.{WorkflowPlannedNode, node_ids, next_ready, remove, check_order}
use oh_my_dream.Workflow.Admission.{take_ready}
use oh_my_dream.Workflow.Admission.Order.{
  contains-remove, next_ready-IsReady, take_ready-none, take_ready-some,
}

all-not-contains :
    (remaining sources : List WorkflowNodeId)
    → all (λ s. not (contains s remaining)) sources ≡ true
    → (a : WorkflowNodeId) → contains a sources ≡ true
    → contains a remaining ≡ false
all-not-contains remaining [] h a k = absurd (ground arith)
all-not-contains remaining (s ∷ ss) h a k =
    ground (arith, all-not-contains remaining ss (ground arith) a, ==_iff a s)

-- Whether the loop and the check see the same sources.
abbrev pub Agree :
    (WorkflowNodeId → List WorkflowNodeId)
    → (WorkflowNodeId → List WorkflowNodeId)
    → List WorkflowNodeId
    → Type 0
Agree d e ids = (id : WorkflowNodeId) → contains id ids ≡ true → d id ≡ e id

next_ready-Agree :
    (d e : WorkflowNodeId → List WorkflowNodeId) (remaining candidates : List WorkflowNodeId)
    → Agree d e candidates
    → next_ready d remaining candidates ≡ next_ready e remaining candidates
unfolding next_ready
next_ready-Agree d e remaining [] h = refl
next_ready-Agree d e remaining (c ∷ cs) h =
    let here : d c ≡ e c = h c (ground arith) in
    let rest : next_ready d remaining cs ≡ next_ready e remaining cs =
      next_ready-Agree d e remaining cs (λ id k. h id (ground arith)) in
    ground (arith, here, rest)

-- The check repeats the choices of the loop.
pub check_order-take_ready :
    (d e : WorkflowNodeId → List WorkflowNodeId) (fuel : ℕ) (remaining : List WorkflowNodeId)
    (nodes : List WorkflowPlannedNode)
    → Agree d e remaining
    → node_ids nodes ≡ take_ready fuel e remaining
    → check_order d remaining nodes ≡ ok tt
unfolding check_order take_ready
check_order-take_ready d e fuel remaining [] h same = refl
check_order-take_ready d e zero remaining (n ∷ ns) h same = absurd (ground arith)
check_order-take_ready d e (suc fuel) remaining (n ∷ ns) h same =
    elim (Option-cases (next_ready e remaining remaining)) [
      | inl f ↦ absurd (ground arith)
      | inr (next, f) ↦
          let head : n.node_id ≡ next = ground arith in
          let tail : node_ids ns ≡ take_ready fuel e (remove n.node_id remaining) = ground arith in
          let chosen : next_ready d remaining remaining ≡ some n.node_id =
            next_ready-Agree d e remaining remaining h ∙ (f ∙ ap some (sym head)) in
          ground (
            arith,
            ==_iff n.node_id n.node_id,
            check_order-take_ready d e fuel (remove n.node_id remaining) ns
                (λ id k. h id (ground (arith, contains-remove id n.node_id remaining))) tail,
          )
    ]

-- Every identity comes after the sources that were to be taken.
abbrev pub IsScheduled :
    (WorkflowNodeId → List WorkflowNodeId) → List WorkflowNodeId → List WorkflowNodeId → Type 0
IsScheduled sources before [] = Unit
IsScheduled sources before (id ∷ ids) =
    Subset (sources id) before × IsScheduled sources (before ++ id ∷ []) ids

pub take_ready-IsScheduled :
    (sources e : WorkflowNodeId → List WorkflowNodeId) (selected : List WorkflowNodeId)
    → ((id : WorkflowNodeId) → contains id selected ≡ true → Subset (sources id) selected)
    → ((id a : WorkflowNodeId)
        → contains a (sources id) ≡ true
        → contains a selected ≡ true
        → contains a (e id) ≡ true)
    → (fuel : ℕ) (before remaining : List WorkflowNodeId) → Subset remaining selected
    → ((a : WorkflowNodeId)
        → contains a selected ≡ true
        → contains a remaining ≡ false
        → contains a before ≡ true)
    → IsScheduled sources before (take_ready fuel e remaining)
unfolding take_ready
take_ready-IsScheduled sources e selected closed kept zero before remaining inside done = tt
take_ready-IsScheduled sources e selected closed kept (suc fuel) before remaining inside done =
    elim (Option-cases (next_ready e remaining remaining)) [
      | inl f ↦ subst (IsScheduled sources before) (sym (take_ready-none e fuel remaining f)) tt
      | inr (next, f) ↦
          let r = next_ready-IsReady e remaining remaining next f in
          subst (IsScheduled sources before) (sym (take_ready-some e fuel remaining next f)) (
            λ a k.
                let here : contains a selected ≡ true = closed next (inside next r.candidate) a k in
                done a here (all-not-contains remaining (e next) r.free a (kept next a k here)),
            take_ready-IsScheduled sources e selected closed kept fuel (before ++ next ∷ [])
                (remove next remaining)
                (λ a k. inside a (ground (arith, contains-remove a next remaining)))
                (λ a k g. ground (
                  arith,
                  contains-append a before (next ∷ []),
                  contains-remove a next remaining,
                  done a k,
                )),
          )
    ]
