-- ===== src/Workflow/Tests.antt =====
-- A plan of two nodes, a Run of it, and each theorem at a concrete input.
use oh_my_dream.Common.{
  ℕ, ◌≡◌, ◌↔◌, refl, true, contains, none, some, List, [], ◌∷◌, map, ok, err, to_set, sort_unstable,
  dedup,
}
use oh_my_dream.Common.Bytes.{ascii}
use oh_my_dream.Common.State.{◌>>=◌}
use oh_my_dream.Workflow.Value.{
  through_node, NodeCapabilityContractRef, single, WorkflowRunState, WorkflowNodeExecutionState,
  invalid_workflow_run_value, workflow_illegal_node_execution_transition,
}
use oh_my_dream.Workflow.Value.Sequence
use oh_my_dream.Workflow.Plan
use oh_my_dream.Workflow.Plan.{WorkflowPlannedNode, WorkflowExecutionPlan}
use oh_my_dream.Workflow.Plan.Checks.{IsTopological, try_new-IsTopological}
use oh_my_dream.Workflow.Plan.Closure.{IsAncestor}
use oh_my_dream.Workflow.Plan.Scope.{validate_ancestor_only_scope_iff}
use oh_my_dream.Workflow.Run.{WorkflowRunAggregate, try_new_queued, pending_execution, run_queued}
use oh_my_dream.Workflow.Run.Transition
use oh_my_dream.Workflow.Run.Transition.{Node, find_node}
use oh_my_dream.Workflow.Run.Conclude
use oh_my_dream.Workflow.Run.Restore.{try_restore, restore_data}
use oh_my_dream.Workflow.Run.Command.{
  Command, start, start_node, succeed_node, finish, interrupt_by_restart, apply,
}
use oh_my_dream.Workflow.Run.Atomic.{apply_error_unchanged}
use oh_my_dream.Workflow.Run.Invariant.{IsWellFormed, apply-IsWellFormed}
use oh_my_dream.Workflow.Run.Reach.{
  Reach, admitted, applied, Reach-IsWellFormed, Reach-try_restore, try_new_queued-IsWellFormed,
}
use oh_my_dream.Workflow.Run.Bounds.{IsBounded, Reach-IsBounded}
use oh_my_dream.Workflow.Run.Settled.{apply_settled}
use oh_my_dream.Workflow.Run.Unguarded.{
  block_node-queued_unrestorable, succeed_node_after_interrupt,
}

program : Unit {0}
unfolding Plan.try_new Plan.check_nodes Plan.validate_deterministic_order
    Plan.validate_ancestor_only_scope Plan.dependencies Plan.push_sources Plan.sources to_set
    try_new_queued apply Transition.start Transition.start_from Transition.start_node
    Transition.succeed_node Transition.block_node Transition.find_node Transition.write_node
    Transition.node_mut Transition.set_node Transition.push_event
    Transition.ensure_event_can_be_recorded Sequence.next Conclude.finish Conclude.finish_with
    Conclude.failed_node_ids Conclude.interrupt_by_restart sort_unstable dedup ◌>>=◌
program = tt

abbrev contract : NodeCapabilityContractRef
contract = record { id = ascii "text.literal"; major = 1; minor = 0 }

abbrev nodes : List WorkflowPlannedNode
nodes =
    record {
      node_id = 1;
      node_execution_id = 11;
      capability_contract = contract;
      normalized_parameters = [];
      input_bindings = [];
    }
    ∷ record {
      node_id = 2;
      node_execution_id = 12;
      capability_contract = contract;
      normalized_parameters = [];
      input_bindings =
          record {
            input_key = ascii "prompt";
            binding = single (record {
              id = 21;
              source_node_id = 1;
              source_output_key = ascii "text";
              input_role_key = none;
            });
          }
          ∷ [];
    }
    ∷ []

abbrev plan : WorkflowExecutionPlan
plan = record { workflow_id = 5; workflow_revision = 1; scope = through_node 2; nodes = nodes }

planned : Plan.try_new 5 1 (through_node 2) nodes ≡ ok plan
unfolding program
planned = refl

try_new-IsTopological_example : IsTopological [] plan.nodes
try_new-IsTopological_example = try_new-IsTopological 5 1 (through_node 2) nodes planned

validate_ancestor_only_scope_iff_example : (Plan.validate_ancestor_only_scope 2 nodes ≡ ok tt) ↔ (
    (id : ℕ) → contains id (Plan.node_ids nodes) ≡ true → IsAncestor (Plan.dependencies nodes) 2 id)
validate_ancestor_only_scope_iff_example =
    validate_ancestor_only_scope_iff nodes 2 try_new-IsTopological_example refl refl

abbrev fresh : WorkflowRunAggregate ℕ ℕ
fresh = record {
  run_id = 7;
  project_id = 8;
  plan = plan;
  state = WorkflowRunState.queued;
  node_executions = map pending_execution nodes;
  events = record { run_id = 7; sequence = 1; occurred_at = 100; payload = run_queued } ∷ [];
  created_at = 100;
  updated_at = 100;
  failure = none;
}

queued : try_new_queued 7 8 plan 100 ≡ ok fresh
unfolding program
queued = refl

infixl 20 ◌▸◌
abbrev ◌▸◌ : WorkflowRunAggregate ℕ ℕ → Command ℕ ℕ → WorkflowRunAggregate ℕ ℕ
r ▸ c = (apply c r).1

abbrev started : WorkflowRunAggregate ℕ ℕ
started = fresh ▸ start 101 ▸ start_node 11 102

apply-IsWellFormed_example : IsWellFormed (fresh ▸ start 101)
unfolding program
apply-IsWellFormed_example =
    apply-IsWellFormed (start 101) fresh refl refl
      (try_new_queued-IsWellFormed 7 8 5 1 (through_node 2) nodes 100 planned queued)

-- Admission, start, and the first node started.
started-Reach : Reach started
unfolding program
started-Reach =
    applied (start_node 11 102)
      (applied (start 101) (admitted 7 8 5 1 (through_node 2) nodes 100 planned queued) refl refl)
      refl refl

Reach-try_restore_example : try_restore (restore_data started) ≡ ok started
Reach-try_restore_example = Reach-try_restore started-Reach

Reach-IsBounded_example : IsBounded started
Reach-IsBounded_example = Reach-IsBounded started-Reach

-- Both nodes succeed, and so does the Run.
abbrev won : WorkflowRunAggregate ℕ ℕ
won = started ▸ succeed_node 11 31 103 ▸ start_node 12 104 ▸ succeed_node 12 32 105 ▸ finish 106

won-succeeds : won.state ≡ WorkflowRunState.succeeded
unfolding program
won-succeeds = refl

won-Reach : Reach won
unfolding program
won-Reach =
    applied (finish 106)
      (applied (succeed_node 12 32 105)
        (applied (start_node 12 104) (applied (succeed_node 11 31 103) started-Reach refl refl) refl
          refl)
        refl refl)
      refl refl

apply_settled_example : won ▸ succeed_node 11 33 107 ≡ won
unfolding program
apply_settled_example =
    apply_settled (succeed_node 11 33 107) won (Reach-IsWellFormed won-Reach) refl

-- A node that is not pending cannot start again.
apply_error_unchanged_example : started ▸ start_node 11 103 ≡ started
unfolding program
apply_error_unchanged_example =
    apply_error_unchanged (start_node 11 103) started
      {e = workflow_illegal_node_execution_transition} refl refl

block_node-queued_unrestorable_example :
    try_restore (restore_data (Transition.block_node 12 (1 ∷ []) 101 fresh).1)
    ≡ err invalid_workflow_run_value
unfolding program
block_node-queued_unrestorable_example =
    block_node-queued_unrestorable 12 (1 ∷ []) 101 fresh refl refl

abbrev interrupted : WorkflowRunAggregate ℕ ℕ
interrupted = started ▸ interrupt_by_restart 103

abbrev running_node : Node ℕ ℕ
running_node = record {
  node_id = 1;
  execution_id = 11;
  state = WorkflowNodeExecutionState.running;
  progress_basis_points = none;
  started_at = some 102;
  finished_at = none;
  outputs = none;
  failure = none;
  block_reason = none;
}

succeed_node_after_interrupt_example :
    ((Transition.succeed_node 11 31 104 interrupted).0 ≡ ok tt)
    × ((Transition.succeed_node 11 31 104 interrupted).1.state ≡ WorkflowRunState.failed)
    × ((v : Node ℕ ℕ) × (find_node 11
            (Transition.succeed_node 11 31 104 interrupted).1.node_executions
          ≡ some v)
        × (v.state ≡ WorkflowNodeExecutionState.succeeded))
unfolding program
succeed_node_after_interrupt_example =
    succeed_node_after_interrupt 11 31 104 interrupted running_node refl refl refl refl refl
