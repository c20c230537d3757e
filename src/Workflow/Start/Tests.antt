-- ===== src/Workflow/Start/Tests.antt =====
-- Starting Runs of the sample graph, and each theorem at a concrete input.
use oh_my_dream.Common.{
  ℕ, ◌+◌, ◌≡◌, ◌↔◌, refl, subst, false, is_empty, ◌==◌, if◌then◌else◌, none, some, List, [], ◌∷◌,
  ok, err, to_set, insert_set, arith,
}
use oh_my_dream.Common.Bytes.{ascii}
use oh_my_dream.Workflow.Value.{
  whole_workflow, through_node, ordered_references, WorkflowInputItemEntity,
}
use oh_my_dream.Workflow.Value.Sequence
use oh_my_dream.Capability.Registry.{resolve_node_capability}
use oh_my_dream.Capability.Contract.{reject_unknown, normalize_onto, normalize_node_parameters}
use oh_my_dream.Graph.Aggregate.{WorkflowAggregate}
use oh_my_dream.Graph.Aggregate.Parts.{try_restore-IsRestored}
use oh_my_dream.Graph.Aggregate.Saved.{IsMapped, IsRestored-IsMapped}
use oh_my_dream.Graph.Aggregate.Draft.{IsDraft, try_restore-IsDraft}
use oh_my_dream.Graph.Sample.{
  capabilities, graph, restore_data, graph_restores, image_ref, item, joined,
}
use oh_my_dream.Workflow.Plan.{
  WorkflowPlannedInputBinding, WorkflowPlannedNode, node_ids, sources, position, distinct_keys,
  dependencies, next_ready, remove, push_sources, ancestors, check_order,
  validate_deterministic_order, validate_ancestor_only_scope, check_nodes, try_new,
}
use oh_my_dream.Common.Pigeonhole.{Subset}
use oh_my_dream.Workflow.Run.Reach.{admission}
use oh_my_dream.Workflow.Plan.Closure.{IsClosure, ancestors-IsClosure}
use oh_my_dream.Workflow.Readiness.{
  ready, parameter_issues, input_issues, structural_issues, insert_issue, sort_issues, from_issues,
  check,
}
use oh_my_dream.Workflow.Readiness.External.{
  NodeCapabilityReadinessIssue, construct, managed_asset_kind_mismatch, managed_asset,
}
use oh_my_dream.Workflow.Readiness.External.Calls.{meant, Fits, IsConstructed, try_new_iff}
use oh_my_dream.Workflow.Readiness.External
use oh_my_dream.Capability.Parameter.{WorkflowDataType}
use oh_my_dream.Workflow.Plan.Order.{IsLeastFree, validate_deterministic_order_iff}
use oh_my_dream.Workflow.Readiness.Derived.{issue_ord}
use oh_my_dream.Workflow.Readiness.Gather.{
  External, node_issues, gather_issues, check_readiness_for_nodes,
}
use oh_my_dream.Workflow.Readiness.Reported.{AllReady, check_readiness_for_nodes_iff}
use oh_my_dream.Workflow.Run.{try_new_queued}
use oh_my_dream.Workflow.Application.{
  workflow_persistence_failure, WorkflowRunAdmissionCommit, admission_commit,
}
use oh_my_dream.Workflow.Admission.{
  incoming_sources, through_node_ids, selected_node_ids, take_ready,
  deterministic_topological_order, planned_bindings, freeze_node, freeze_nodes, freeze_plan,
}
use oh_my_dream.Workflow.Admission.Selected.{IsSelection, selected_node_ids-IsSelection}
use oh_my_dream.Workflow.Admission.Freeze.{IsPlanned, freeze_plan-IsPlanned}
use oh_my_dream.Workflow.Start.{
  WorkflowStartRunCommand, start_run_command, admission_receipt, replay_run_id, replayed, admitted,
  load_workflow, admit, start_workflow_run_internal,
}
use oh_my_dream.Workflow.Start.Admits.{IsAdmitting, admit-IsAdmitting}
use oh_my_dream.Workflow.Start.Committed.{
  IsCommitted, admit-IsCommitted, start_workflow_run_internal-replayed,
}
use oh_my_dream.Workflow.Start.Replay.{replay_run_id_iff}
use oh_my_dream.Workflow.Start.Empty.{admit_nil}

program : Unit {0}
unfolding to_set insert_set resolve_node_capability reject_unknown normalize_onto
    normalize_node_parameters sources position distinct_keys dependencies next_ready remove
    push_sources ancestors check_order validate_deterministic_order validate_ancestor_only_scope
    check_nodes try_new parameter_issues input_issues structural_issues insert_issue sort_issues
    from_issues check node_issues gather_issues check_readiness_for_nodes try_new_queued
    Sequence.new admission_commit incoming_sources through_node_ids selected_node_ids take_ready
    deterministic_topological_order planned_bindings freeze_node freeze_nodes freeze_plan
    admission_receipt replay_run_id load_workflow admit start_workflow_run_internal
program = tt

draft : IsDraft capabilities graph
draft = try_restore-IsDraft capabilities restore_data graph graph_restores

mapped : IsMapped graph
mapped =
    IsRestored-IsMapped capabilities restore_data graph
      (try_restore-IsRestored capabilities restore_data graph graph_restores)

-- Capabilities that report nothing.
abbrev silent : External
silent implementation project_id parameters = []

abbrev fresh : ℕ → ℕ
fresh n = n + 50

fresh_injective : (a b : ℕ) → fresh a ≡ fresh b → a ≡ b
fresh_injective a b e = omega arith

abbrev command : WorkflowStartRunCommand
command = record {
  run_request_id = 30;
  workflow_id = 70;
  workflow_revision = 4;
  scope = through_node 3;
  command_hash = 9 ∷ [];
}

selected :
    selected_node_ids {I = NodeCapabilityReadinessIssue} graph (through_node 3)
    ≡ ok (1 ∷ 2 ∷ 3 ∷ [])
unfolding program
selected = refl

reported : check_readiness_for_nodes capabilities silent graph (some (1 ∷ 2 ∷ 3 ∷ [])) ≡ ok ready
unfolding program
reported = refl

selected_node_ids-IsSelection_example :
    IsSelection NodeCapabilityReadinessIssue graph (through_node 3)
selected_node_ids-IsSelection_example =
    selected_node_ids-IsSelection NodeCapabilityReadinessIssue capabilities graph draft mapped
      (through_node 3) refl

selection : IsSelection NodeCapabilityReadinessIssue graph (through_node 3)
selection =
    selected_node_ids-IsSelection NodeCapabilityReadinessIssue capabilities graph draft mapped
      (through_node 3) refl

filled : is_empty selection.selected ≡ false
filled = ground (arith, selection.run, selected)

freeze_plan-IsPlanned_example :
    IsPlanned NodeCapabilityReadinessIssue capabilities graph draft mapped
      (through_node 3)
      selection
      fresh
freeze_plan-IsPlanned_example =
    freeze_plan-IsPlanned NodeCapabilityReadinessIssue capabilities graph draft mapped
      (through_node 3) selection fresh fresh_injective filled

admit-IsAdmitting_example : IsAdmitting ℕ ℕ capabilities silent graph command fresh 40 25
admit-IsAdmitting_example =
    admit-IsAdmitting ℕ ℕ capabilities silent graph command draft mapped refl refl refl
      (λ ids e.
        let same : 1 ∷ 2 ∷ 3 ∷ [] ≡ ids = ground (arith, e, selected) in
        subst (λ l. check_readiness_for_nodes capabilities silent graph (some l) ≡ ok ready) same
          reported)
      fresh 40 25 fresh_injective

abbrev planned : ℕ → ℕ → List WorkflowPlannedInputBinding → WorkflowPlannedNode
planned id execution_id input_bindings = record {
  node_id = id;
  node_execution_id = execution_id;
  capability_contract = image_ref;
  normalized_parameters = [];
  input_bindings = input_bindings;
}

abbrev parts_of : List WorkflowInputItemEntity → List WorkflowPlannedInputBinding
parts_of entries = record { input_key = ascii "parts"; binding = ordered_references entries } ∷ []

abbrev commit : WorkflowRunAdmissionCommit ℕ ℕ
commit = record {
  run =
      admission 40 80
        (record {
          workflow_id = 70;
          workflow_revision = 4;
          scope = through_node 3;
          nodes =
              planned 1 50 []
              ∷ planned 2 51 (parts_of (item 11 1 ∷ []))
              ∷ planned 3 52 (parts_of joined)
              ∷ [];
        })
        25;
  receipt = record { request_id = 30; command_hash = 9 ∷ []; workflow_run_id = 40 };
  effect = record { workflow_run_id = 40 };
}

admits : admit {O = ℕ} {C = ℕ} capabilities silent command graph fresh 40 (ok 25) ≡ ok commit
unfolding program
admits = refl

starts :
    start_workflow_run_internal {O = ℕ} {C = ℕ} capabilities silent
      (some 80)
      command
      (some graph)
      none
      fresh
      40
      (ok 25)
    ≡ ok (admitted commit)
unfolding program
starts = refl

admit-IsCommitted_example : IsCommitted ℕ ℕ capabilities silent graph command 40 commit
admit-IsCommitted_example =
    admit-IsCommitted ℕ ℕ capabilities silent graph command fresh 40 (ok 25) commit admits

-- The graph has changed since.
start_workflow_run_internal-replayed_example :
    start_workflow_run_internal {O = ℕ} {C = ℕ} capabilities silent
      (some 80)
      command
      (some (record graph { revision = 5; nodes = [] }))
      (some commit.receipt)
      fresh
      41
      (ok 26)
    ≡ ok (replayed 40)
start_workflow_run_internal-replayed_example =
    start_workflow_run_internal-replayed ℕ ℕ capabilities silent graph (some 80) command fresh 40
      (ok 25) commit starts (record graph { revision = 5; nodes = [] }) refl fresh 41 (ok 26)

-- A function that tells contents apart in place of SHA-256.
replay_run_id_iff_example :
    (replay_run_id {I = ℕ}
        (admission_receipt (start_run_command (λ bytes. bytes) 30 70 4 (through_node 3)) 40)
        (start_run_command (λ bytes. bytes) 30 70 4 whole_workflow)
      ≡ ok 40)
    ↔ (◌≡◌ {A = ℕ} 30 30 × ◌≡◌ {A = ℕ} 70 70 × ◌≡◌ {A = ℕ} 4 4 × (through_node 3 ≡ whole_workflow))
replay_run_id_iff_example =
    replay_run_id_iff ℕ (λ bytes. bytes) 30 30 40 70 70 4 4 (through_node 3) whole_workflow
      (record { workflow = omega arith; revised = omega arith; scoped = omega arith })
      (record { workflow = omega arith; revised = omega arith; scoped = tt }) (λ e. e)

abbrev empty : WorkflowAggregate ℕ
empty = record graph { nodes = []; input_bindings = [] }

admit_nil_example :
    (check_readiness_for_nodes capabilities silent empty none ≡ ok ready)
    × (admit {O = ℕ} {C = ℕ} capabilities silent
          (record command { scope = whole_workflow })
          empty
          fresh
          40
          (ok 25)
        ≡ err workflow_persistence_failure)
admit_nil_example =
    admit_nil ℕ ℕ capabilities silent empty (record command { scope = whole_workflow }) fresh 40
      (ok 25) refl refl refl

check_readiness_for_nodes_iff_example :
    (check_readiness_for_nodes capabilities silent graph none ≡ ok ready)
    ↔ AllReady capabilities silent 80 graph.input_bindings none graph.nodes
check_readiness_for_nodes_iff_example =
    check_readiness_for_nodes_iff capabilities silent graph draft mapped none

abbrev chain : ℕ → List ℕ
chain id = if id == 2 then 1 ∷ [] else []

chain-known : (id : ℕ) → Subset (chain id) (1 ∷ 2 ∷ [])
chain-known id a e = ground (arith, e)

ancestors-IsClosure_example :
    (result : List ℕ) × (ancestors 2 chain (2 ∷ [], 2 ∷ []) ≡ some result)
    × IsClosure chain (1 ∷ 2 ∷ []) 2 result
ancestors-IsClosure_example = ancestors-IsClosure chain (1 ∷ 2 ∷ []) 2 chain-known refl

validate_deterministic_order_iff_example :
    (validate_deterministic_order commit.run.plan.nodes ≡ ok tt)
    ↔ IsLeastFree (dependencies commit.run.plan.nodes) (node_ids commit.run.plan.nodes)
validate_deterministic_order_iff_example =
    validate_deterministic_order_iff commit.run.plan.nodes refl

-- An image where a video was expected.
abbrev mismatch : NodeCapabilityReadinessIssue
mismatch = record {
  category = managed_asset_kind_mismatch;
  target = managed_asset (ascii "source") 5;
  media_kind_mismatch = some (WorkflowDataType.video, WorkflowDataType.image);
}

try_new_iff_example :
    ((External.try_new mismatch.category mismatch.target mismatch.media_kind_mismatch ≡ ok mismatch)
      ↔ IsConstructed mismatch)
    × ((construct
            (External.mismatch (ascii "source") 5 WorkflowDataType.video WorkflowDataType.video)
          ≡ ok (
              meant (
                External.mismatch
                  (ascii "source")
                  5
                  WorkflowDataType.video
                  WorkflowDataType.video)))
        ↔ Fits (External.mismatch (ascii "source") 5 WorkflowDataType.video WorkflowDataType.video))
try_new_iff_example =
    try_new_iff mismatch
      (External.mismatch (ascii "source") 5 WorkflowDataType.video WorkflowDataType.video)
