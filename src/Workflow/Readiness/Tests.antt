-- ===== src/Workflow/Readiness/Tests.antt =====
-- A node that lacks a parameter, an input and a reference, and each theorem at a concrete input.
use oh_my_dream.Common.{ℕ, ◌≡◌, ◌≢◌, refl, true, none, some, List, [], ◌∷◌, err}
use oh_my_dream.Common.Bytes.{ascii, nat_ord}
use oh_my_dream.Workflow.Value.{single, ordered_references, unsigned_integer}
use oh_my_dream.Capability.Parameter.{
  WorkflowDataType, unsigned_integer_range, parameter_value_out_of_bounds,
  required_parameter_missing, validate_parameter_value,
}
use oh_my_dream.Capability.Contract.{
  NodeCapabilityContract, required, required_single_value, content_generation, parameter_error,
  reject_unknown, normalize_onto, normalize_node_parameters,
}
use oh_my_dream.Capability.Contract
use oh_my_dream.Graph.Value.{WorkflowInputTarget}
use oh_my_dream.Workflow.Readiness.{
  WorkflowStructuralReadinessNode, WorkflowReadinessIssue, required_input_missing,
  reference_minimum_not_met, ready, blocked, issue_less, insert_issue, sort_issues, from_issues,
  parameter_issues, input_issues, structural_issues, check,
}
use oh_my_dream.Workflow.Readiness
use oh_my_dream.Workflow.Readiness.Report.{IsReport, from_issues-IsReport}
use oh_my_dream.Workflow.Readiness.Check.{check-normalize_node_parameters}

program : Unit {0}
unfolding issue_less insert_issue sort_issues from_issues parameter_issues input_issues
    structural_issues check validate_parameter_value reject_unknown normalize_onto
    normalize_node_parameters
program = tt

abbrev contract : NodeCapabilityContract
contract = record {
  contract_ref = record { id = ascii "video.generate"; major = 1; minor = 0 };
  parameters =
      record { key = ascii "count"; constraint = unsigned_integer_range 1 8; presence = required }
      ∷ [];
  inputs =
      record { key = ascii "first"; binding = required_single_value WorkflowDataType.image }
      ∷ record {
        key = ascii "others";
        binding =
            Contract.ordered_references 1 (some 4)
              ((ascii "frame", WorkflowDataType.image ∷ []) ∷ []);
      }
      ∷ [];
  outputs =
      record { key = ascii "video"; data_type = WorkflowDataType.video; is_primary = true } ∷ [];
  execution_kind = content_generation;
}

abbrev bare : WorkflowStructuralReadinessNode
bare = record { node_id = 2; contract = contract; parameters = []; input_bindings = [] }

abbrev input : List ℕ → WorkflowInputTarget
input key = record { node_id = 1; input_key = key }

-- Its count is out of bounds, which the policy does not test.
abbrev filled : WorkflowStructuralReadinessNode
filled = record {
  node_id = 1;
  contract = contract;
  parameters = (ascii "count", unsigned_integer 9) ∷ [];
  input_bindings =
      (
        input (ascii "first"),
        single (record {
          id = 11;
          source_node_id = 5;
          source_output_key = ascii "image";
          input_role_key = none;
        }),
      )
      ∷ (
        input (ascii "others"),
        ordered_references (
            record {
              id = 12;
              source_node_id = 6;
              source_output_key = ascii "image";
              input_role_key = some (ascii "frame");
            }
            ∷ []),
      )
      ∷ [];
}

filled_ready : check {I = ℕ} (filled ∷ []) ≡ ready
unfolding program
filled_ready = refl

bare_blocked :
    check {I = ℕ} (bare ∷ filled ∷ [])
    ≡ blocked (
        Readiness.required_parameter_missing 2 (ascii "count")
        ∷ required_input_missing 2 (ascii "first")
        ∷ reference_minimum_not_met 2 (ascii "others") 1 0
        ∷ [])
unfolding program
bare_blocked = refl

nine_refused :
    normalize_node_parameters filled.contract filled.parameters
    ≡ err (parameter_error parameter_value_out_of_bounds (ascii "count"))
unfolding program
nine_refused = refl

abbrev raised : List (WorkflowReadinessIssue ℕ)
raised =
    required_input_missing 3 (ascii "first")
    ∷ Readiness.required_parameter_missing 3 (ascii "count")
    ∷ required_input_missing 2 (ascii "first")
    ∷ []

from_issues-IsReport_example : IsReport raised
from_issues-IsReport_example = from_issues-IsReport raised

check-normalize_node_parameters_example :
    (parameter_error parameter_value_out_of_bounds (ascii "count")).category
    ≢ required_parameter_missing
check-normalize_node_parameters_example =
    check-normalize_node_parameters {I = ℕ} [] [] filled
      (parameter_error parameter_value_out_of_bounds (ascii "count")) filled_ready nine_refused
