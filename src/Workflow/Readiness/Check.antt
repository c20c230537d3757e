-- ===== src/Workflow/Readiness/Check.antt =====
-- When the policy reports a graph as ready, and what that means for its parameters.
use oh_my_dream.Common.{
  ◌≡◌, ◌≢◌, ◌↔◌, refl, ap, Bool, true, false, not, ◌&&◌, ◌||◌, Option, none, some, List, [], ◌∷◌,
  ◌++◌, all, is_empty, leb, err, Result-cases, inl, inr, arith,
}
use oh_my_dream.Common.Bytes.{Ord, Utf8, text_ord}
use oh_my_dream.Common.Maps.{get, insert}
use oh_my_dream.Workflow.Value.{
  WorkflowNodeId, WorkflowInputBinding, NodeCapabilityParameterValue, unsigned_integer, choice,
  generation_profile, managed_asset,
}
use oh_my_dream.Capability.Parameter.{
  NodeCapabilityParameterSet, NodeCapabilityParameterErrorCategory, required_parameter_missing,
  refusal, NodeCapabilityParameterConstraint, unsigned_integer_range,
  unsigned_integer_allowed_values, text_utf8_bytes, choice_allowed_keys, generation_profile_ref,
  managed_asset_id, validate_parameter_value,
}
use oh_my_dream.Capability.Contract.{
  NodeCapabilityParameterContract, NodeCapabilityParameterPresence, required, optional_with_default,
  NodeCapabilityInputContract, NodeCapabilityInputBindingContract, optional_single_value,
  required_single_value, NodeCapabilityParameterError, map_err, value_or_default, reject_unknown,
  normalize_onto, normalize_node_parameters,
}
use oh_my_dream.Capability.Contract
use oh_my_dream.Graph.Value.{WorkflowInputTarget, is_some}
use oh_my_dream.Workflow.Readiness.{
  WorkflowStructuralReadinessNode, WorkflowReadinessIssue, ready, insert_issue, sort_issues,
  ready_or_blocked, from_issues, parameter_issues, find_binding, actual_count, input_issue,
  input_issues, structural_issues, check,
}

abbrev pub is_required : NodeCapabilityParameterPresence → Bool
is_required required = true
is_required (optional_with_default value) = false

abbrev pub has_required : NodeCapabilityParameterSet → List NodeCapabilityParameterContract → Bool
has_required parameters = all (λ p. not (is_required p.presence) || is_some (get p.key parameters))

abbrev pub is_filled : NodeCapabilityInputBindingContract → Option WorkflowInputBinding → Bool
is_filled (optional_single_value data_type) binding = true
is_filled (required_single_value data_type) binding = is_some binding
is_filled (Contract.ordered_references minimum maximum roles) binding =
    leb minimum (actual_count binding)

-- A node with all required parameters and inputs, and with enough references.
abbrev pub is_complete : WorkflowStructuralReadinessNode → Bool
is_complete n =
    has_required n.parameters n.contract.parameters
    && all (λ i. is_filled i.binding (find_binding n.node_id i.key n.input_bindings))
        n.contract.inputs

module _ (I : Type 0) where
  is_empty-append :
      (xs ys : List (WorkflowReadinessIssue I)) → is_empty (xs ++ ys) ≡ (is_empty xs && is_empty ys)
  is_empty-append [] ys = refl
  is_empty-append (x ∷ xs) ys = refl

  is_empty-parameter_issues :
      (n : WorkflowNodeId) (s : NodeCapabilityParameterSet)
      (ps : List NodeCapabilityParameterContract)
      → is_empty (parameter_issues {I = I} n s ps) ≡ has_required s ps
  unfolding parameter_issues
  is_empty-parameter_issues n s [] = refl
  is_empty-parameter_issues n s (p ∷ ps) = ground (arith, is_empty-parameter_issues n s ps)

  is_empty-input_issue :
      (n : WorkflowNodeId) (k : Utf8) (c : NodeCapabilityInputBindingContract)
      (b : Option WorkflowInputBinding)
      → is_empty (input_issue {I = I} n k c b) ≡ is_filled c b
  is_empty-input_issue n k (optional_single_value t) b = refl
  is_empty-input_issue n k (required_single_value t) none = refl
  is_empty-input_issue n k (required_single_value t) (some b) = refl
  is_empty-input_issue n k (Contract.ordered_references m x r) b = ground arith

  is_empty-input_issues :
      (n : WorkflowNodeId) (bs : List (WorkflowInputTarget × WorkflowInputBinding))
      (is : List NodeCapabilityInputContract)
      → is_empty (input_issues {I = I} n bs is)
        ≡ all (λ i. is_filled i.binding (find_binding n i.key bs)) is
  unfolding input_issues
  is_empty-input_issues n bs [] = refl
  is_empty-input_issues n bs (i ∷ is) = ground (
    arith,
    is_empty-append (input_issue n i.key i.binding (find_binding n i.key bs))
        (input_issues n bs is),
    is_empty-input_issue n i.key i.binding (find_binding n i.key bs),
    is_empty-input_issues n bs is,
  )

  is_empty-structural_issues :
      (ns : List WorkflowStructuralReadinessNode)
      → is_empty (structural_issues {I = I} ns) ≡ all is_complete ns
  unfolding structural_issues
  is_empty-structural_issues [] = refl
  is_empty-structural_issues (n ∷ ns) =
      let ps = parameter_issues {I = I} n.node_id n.parameters n.contract.parameters in
      let is = input_issues {I = I} n.node_id n.input_bindings n.contract.inputs in
      ground (
        arith,
        is_empty-append ps (is ++ structural_issues ns),
        is_empty-append is (structural_issues ns),
        is_empty-parameter_issues n.node_id n.parameters n.contract.parameters,
        is_empty-input_issues n.node_id n.input_bindings n.contract.inputs,
        is_empty-structural_issues ns,
      )

  module _ ⦃o : Ord I⦄ where
    is_empty-insert_issue :
        (x : WorkflowReadinessIssue I) (xs : List (WorkflowReadinessIssue I))
        → is_empty (insert_issue x xs) ≡ false
    unfolding insert_issue
    is_empty-insert_issue x [] = refl
    is_empty-insert_issue x (y ∷ ys) = ground arith

    is_empty-sort_issues :
        (xs : List (WorkflowReadinessIssue I)) → is_empty (sort_issues xs) ≡ is_empty xs
    unfolding sort_issues
    is_empty-sort_issues [] = refl
    is_empty-sort_issues (x ∷ xs) = is_empty-insert_issue x (sort_issues xs)

    ready_or_blocked_iff :
        (xs : List (WorkflowReadinessIssue I))
        → (ready_or_blocked xs ≡ ready) ↔ (is_empty xs ≡ true)
    ready_or_blocked_iff [] = ground arith
    ready_or_blocked_iff (x ∷ xs) = ground arith

    pub from_issues_iff :
        (xs : List (WorkflowReadinessIssue I)) → (from_issues xs ≡ ready) ↔ (is_empty xs ≡ true)
    unfolding from_issues
    from_issues_iff xs =
        ground (arith, is_empty-sort_issues xs, ready_or_blocked_iff (sort_issues xs))

    -- The policy reports Ready exactly when every node has a value for each required parameter, a
    -- binding for each required input, and at least the minimum of references for each ordered input.
    pub check_iff :
        (nodes : List WorkflowStructuralReadinessNode)
        → (check {I = I} nodes ≡ ready) ↔ (all is_complete nodes ≡ true)
    unfolding check from_issues
    check_iff nodes = ground (
      arith,
      is_empty-structural_issues nodes,
      is_empty-sort_issues (structural_issues nodes),
      ready_or_blocked_iff (sort_issues (structural_issues nodes)),
    )

abbrev pub is_missing : NodeCapabilityParameterErrorCategory → Bool
is_missing required_parameter_missing = true
is_missing _ = false

is_missing-refusal :
    (c : NodeCapabilityParameterConstraint) (v : NodeCapabilityParameterValue)
    → is_missing (refusal c v) ≡ false
is_missing-refusal (unsigned_integer_range a b) v = ground arith
is_missing-refusal (unsigned_integer_allowed_values ns) v = ground arith
is_missing-refusal (text_utf8_bytes a b) v = ground arith
is_missing-refusal (choice_allowed_keys ks) (unsigned_integer n) = refl
is_missing-refusal (choice_allowed_keys ks) (NodeCapabilityParameterValue.text t) = refl
is_missing-refusal (choice_allowed_keys ks) (choice k) = refl
is_missing-refusal (choice_allowed_keys ks) (generation_profile i n) = refl
is_missing-refusal (choice_allowed_keys ks) (managed_asset a) = refl
is_missing-refusal generation_profile_ref v = ground arith
is_missing-refusal (managed_asset_id k) v = ground arith

is_missing-normalize_onto :
    (s : NodeCapabilityParameterSet) (ps : List NodeCapabilityParameterContract)
    (m : NodeCapabilityParameterSet) (e : NodeCapabilityParameterError)
    → has_required s ps ≡ true
    → normalize_onto s ps m ≡ err e
    → is_missing e.category ≡ false
unfolding normalize_onto validate_parameter_value
is_missing-normalize_onto s [] m e h k = absurd (ground arith)
is_missing-normalize_onto s (p ∷ ps) m e h k =
    elim (Result-cases (value_or_default (get p.key s) p)) [
      | inr (x, f) ↦ absurd (ground arith)
      | inl (v, f) ↦ ground (
        arith,
        is_missing-refusal p.constraint v,
        is_missing-normalize_onto s ps (insert p.key v m) e,
      )
    ]

is_missing-reject_unknown :
    (ps : List NodeCapabilityParameterContract) (s : NodeCapabilityParameterSet)
    (e : NodeCapabilityParameterError)
    → reject_unknown ps s ≡ err e
    → is_missing e.category ≡ false
unfolding reject_unknown
is_missing-reject_unknown ps [] e k = absurd (ground arith)
is_missing-reject_unknown ps ((i, v) ∷ s) e k = ground (arith, is_missing-reject_unknown ps s e)

all-append :
    (xs ys : List WorkflowStructuralReadinessNode)
    → all is_complete (xs ++ ys) ≡ (all is_complete xs && all is_complete ys)
all-append [] ys = refl
all-append (x ∷ xs) ys = ground (arith, all-append xs ys)

-- When the policy reports Ready, the parameters of none of the nodes are refused by normalization for
-- a required parameter that is missing.
pub check-normalize_node_parameters :
    {I : Type 0} ⦃o : Ord I⦄ (before after : List WorkflowStructuralReadinessNode)
    (node : WorkflowStructuralReadinessNode) (e : NodeCapabilityParameterError)
    → check {I = I} (before ++ node ∷ after) ≡ ready
    → normalize_node_parameters node.contract node.parameters ≡ err e
    → e.category ≢ required_parameter_missing
unfolding normalize_node_parameters
check-normalize_node_parameters {I} before after node e r k missing =
    let complete : all is_complete (before ++ node ∷ after) ≡ true =
      (check_iff I (before ++ node ∷ after)).0 r in
    let supplied : has_required node.parameters node.contract.parameters ≡ true =
      ground (arith, all-append before (node ∷ after)) in
    let told : is_missing e.category ≡ true = ap is_missing missing in
    elim (Result-cases (reject_unknown node.contract.parameters node.parameters)) [
      | inr (x, f) ↦
          absurd
            (ground (arith, is_missing-reject_unknown node.contract.parameters node.parameters e))
      | inl (u, f) ↦ absurd (
          ground (
            arith,
            is_missing-normalize_onto node.parameters node.contract.parameters [] e supplied,
          ))
    ]
