-- ===== src/Workflow/Readiness.antt =====
-- crates/engine/src/workflow/readiness.rs: what keeps a graph from being run. `I` is the type of the
-- issues that capabilities report, with its derived order.
pub mod Report
pub mod Check
pub mod External
pub mod Derived
pub mod Gather
pub mod Reported
mod Tests
use oh_my_dream.Common.{
  ℕ, ◌^◌, Bool, false, ◌&&◌, ◌||◌, Option, none, some, List, [], ◌∷◌, ◌++◌, length, list_eq, ltb,
  ◌==◌, if◌then◌else◌,
}
use oh_my_dream.Common.Bytes.{Ord, Utf8, lex_lt, text_ord}
use oh_my_dream.Common.Maps.{get}
use oh_my_dream.Workflow.Value.{
  WorkflowNodeId, NodeCapabilityContractRef, WorkflowInputBinding, items,
}
use oh_my_dream.Capability.Parameter.{WorkflowDataType, NodeCapabilityParameterSet}
use oh_my_dream.Capability.Contract.{
  NodeCapabilityContract, NodeCapabilityParameterContract, required, optional_with_default,
  NodeCapabilityInputContract, NodeCapabilityInputBindingContract, optional_single_value,
  required_single_value,
}
use oh_my_dream.Capability.Contract
use oh_my_dream.Capability.Registry.{ref_lt}
use oh_my_dream.Graph.Value.{WorkflowInputTarget}

pub record WorkflowStructuralReadinessNode : Type 0 where
  pub node_id : WorkflowNodeId
  pub contract : NodeCapabilityContract
  pub parameters : NodeCapabilityParameterSet
  pub input_bindings : List (WorkflowInputTarget × WorkflowInputBinding)

pub data WorkflowReadinessIssue (I : Type 0) : Type 0 where
  required_parameter_missing :
      (node_id : WorkflowNodeId) (parameter_key : Utf8) → WorkflowReadinessIssue I
  required_input_missing : (node_id : WorkflowNodeId) (input_key : Utf8) → WorkflowReadinessIssue I
  reference_minimum_not_met :
      (node_id : WorkflowNodeId) (input_key : Utf8) (required_count actual_count : ℕ)
      → WorkflowReadinessIssue I
  asset_unavailable :
      (node_id : WorkflowNodeId) (input_key : Utf8) (asset_id : ℕ) → WorkflowReadinessIssue I
  asset_kind_mismatch :
      (node_id : WorkflowNodeId) (input_key : Utf8) (expected actual : WorkflowDataType)
      → WorkflowReadinessIssue I
  capability_unregistered :
      (node_id : WorkflowNodeId) (capability_ref : NodeCapabilityContractRef)
      → WorkflowReadinessIssue I
  generation_profile_incompatible :
      (node_id : WorkflowNodeId) (profile_id : Utf8) (version : ℕ)
      (capability_ref : NodeCapabilityContractRef)
      → WorkflowReadinessIssue I
  generation_profile_unavailable :
      (node_id : WorkflowNodeId) (profile_id : Utf8) (version : ℕ) → WorkflowReadinessIssue I
  generation_profile_availability_indeterminate :
      (node_id : WorkflowNodeId) (profile_id : Utf8) (version : ℕ) → WorkflowReadinessIssue I
  capability_external : (node_id : WorkflowNodeId) (issue : I) → WorkflowReadinessIssue I

pub data WorkflowReadinessResult (I : Type 0) : Type 0 where
  ready : WorkflowReadinessResult I
  blocked : (issues : List (WorkflowReadinessIssue I)) → WorkflowReadinessResult I

abbrev pub profile_lt : Utf8 → ℕ → Utf8 → ℕ → Bool
profile_lt a m b n = lex_lt a b || (list_eq a b && ltb m n)

-- `iter().find`
abbrev pub find_binding :
    WorkflowNodeId
    → Utf8
    → List (WorkflowInputTarget × WorkflowInputBinding)
    → Option WorkflowInputBinding
find_binding node_id key [] = none
find_binding node_id key ((target, binding) ∷ rest) =
    if target.node_id == node_id && list_eq target.input_key key
    then some binding
    else find_binding node_id key rest

-- A count that does not fit 32 bits counts as none.
abbrev pub actual_count : Option WorkflowInputBinding → ℕ
actual_count none = 0
actual_count (some binding) =
    if ltb (length (items binding)) (2 ^ 32) then length (items binding) else 0

module _ {I : Type 0} where
  abbrev pub node_and_tag : WorkflowReadinessIssue I → WorkflowNodeId × ℕ
  node_and_tag (required_parameter_missing n k) = (n, 0)
  node_and_tag (required_input_missing n k) = (n, 1)
  node_and_tag (reference_minimum_not_met n k r a) = (n, 2)
  node_and_tag (asset_unavailable n k a) = (n, 3)
  node_and_tag (asset_kind_mismatch n k e a) = (n, 4)
  node_and_tag (capability_unregistered n c) = (n, 5)
  node_and_tag (generation_profile_incompatible n p v c) = (n, 6)
  node_and_tag (generation_profile_unavailable n p v) = (n, 7)
  node_and_tag (generation_profile_availability_indeterminate n p v) = (n, 8)
  node_and_tag (capability_external n i) = (n, 9)

  module _ ⦃o : Ord I⦄ where
    -- Whether `compare_target` gives `Less`.
    abbrev pub target_less : WorkflowReadinessIssue I → WorkflowReadinessIssue I → Bool
    target_less (required_parameter_missing n k) (required_parameter_missing m j) = lex_lt k j
    target_less (required_input_missing n k) (required_input_missing m j) = lex_lt k j
    target_less (reference_minimum_not_met n k r a) (reference_minimum_not_met m j s b) = lex_lt k j
    target_less (asset_unavailable n k a) (asset_unavailable m j b) = lex_lt k j
    target_less (asset_kind_mismatch n k e a) (asset_kind_mismatch m j f b) = lex_lt k j
    target_less (capability_unregistered n c) (capability_unregistered m d) = ref_lt c d
    target_less (generation_profile_incompatible n p v c)
          (generation_profile_incompatible m q w d) =
        profile_lt p v q w
    target_less (generation_profile_unavailable n p v) (generation_profile_unavailable m q w) =
        profile_lt p v q w
    target_less (generation_profile_availability_indeterminate n p v)
          (generation_profile_availability_indeterminate m q w) =
        profile_lt p v q w
    target_less (capability_external n i) (capability_external m j) = o.lt i j
    target_less _ _ = false

    -- Whether the comparison of `from_issues` gives `Less`.
    unfoldable pub issue_less : WorkflowReadinessIssue I → WorkflowReadinessIssue I → Bool
    issue_less left right =
        let (n, s) = node_and_tag left in
        let (m, t) = node_and_tag right in
        ltb n m || (n == m && (ltb s t || (s == t && target_less left right)))

    -- The stable `sort_by`.
    unfoldable pub insert_issue :
        WorkflowReadinessIssue I → List (WorkflowReadinessIssue I) → List (WorkflowReadinessIssue I)
    insert_issue x [] = x ∷ []
    insert_issue x (y ∷ ys) =
        let rest = insert_issue x ys in if issue_less y x then y ∷ rest else x ∷ y ∷ ys

    unfoldable pub sort_issues : List (WorkflowReadinessIssue I) → List (WorkflowReadinessIssue I)
    unfolding insert_issue
    sort_issues [] = []
    sort_issues (x ∷ xs) = insert_issue x (sort_issues xs)

    abbrev pub ready_or_blocked : List (WorkflowReadinessIssue I) → WorkflowReadinessResult I
    ready_or_blocked [] = ready
    ready_or_blocked (x ∷ xs) = blocked (x ∷ xs)

    unfoldable pub from_issues : List (WorkflowReadinessIssue I) → WorkflowReadinessResult I
    unfolding sort_issues
    from_issues issues = ready_or_blocked (sort_issues issues)

  unfoldable pub parameter_issues :
      WorkflowNodeId
      → NodeCapabilityParameterSet
      → List NodeCapabilityParameterContract
      → List (WorkflowReadinessIssue I)
  parameter_issues node_id parameters [] = []
  parameter_issues node_id parameters (p ∷ ps) =
      let rest = parameter_issues node_id parameters ps in
      elim p.presence [
        | required ↦ elim (get p.key parameters) [
          | none ↦ required_parameter_missing node_id p.key ∷ rest
          | some value ↦ rest
        ]
        | optional_with_default value ↦ rest
      ]

  abbrev pub input_issue :
      WorkflowNodeId
      → Utf8
      → NodeCapabilityInputBindingContract
      → Option WorkflowInputBinding
      → List (WorkflowReadinessIssue I)
  input_issue node_id key (optional_single_value data_type) binding = []
  input_issue node_id key (required_single_value data_type) none =
      required_input_missing node_id key ∷ []
  input_issue node_id key (required_single_value data_type) (some binding) = []
  input_issue node_id key (Contract.ordered_references minimum maximum roles) binding =
      if ltb (actual_count binding) minimum
      then reference_minimum_not_met node_id key minimum (actual_count binding) ∷ []
      else []

  unfoldable pub input_issues :
      WorkflowNodeId
      → List (WorkflowInputTarget × WorkflowInputBinding)
      → List NodeCapabilityInputContract
      → List (WorkflowReadinessIssue I)
  input_issues node_id bindings [] = []
  input_issues node_id bindings (i ∷ is) =
      input_issue node_id i.key i.binding (find_binding node_id i.key bindings)
      ++ input_issues node_id bindings is

  unfoldable pub structural_issues :
      List WorkflowStructuralReadinessNode → List (WorkflowReadinessIssue I)
  unfolding parameter_issues input_issues
  structural_issues [] = []
  structural_issues (n ∷ ns) =
      parameter_issues n.node_id n.parameters n.contract.parameters
      ++ (input_issues n.node_id n.input_bindings n.contract.inputs ++ structural_issues ns)

  -- `WorkflowReadinessPolicy::check`
  unfoldable pub check :
      ⦃o : Ord I⦄ → List WorkflowStructuralReadinessNode → WorkflowReadinessResult I
  unfolding structural_issues from_issues
  check nodes = from_issues (structural_issues nodes)
