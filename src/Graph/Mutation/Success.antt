-- ===== src/Graph/Mutation/Success.antt =====
-- What a successful command returns: the next revision of the same Workflow, as an accepted draft.
use oh_my_dream.Common.{
  ℕ, ◌+◌, ◌^◌, ◌<◌, ◌≡◌, ap, ◌∙◌, false, List, [], ◌∷◌, ltb, ==_iff, Result, ok, Result-cases, inl,
  inr, if◌then◌else◌, arith,
}
use oh_my_dream.Common.Bytes.{nat_ord}
use oh_my_dream.Workflow.Value.{WorkflowNodeId}
use oh_my_dream.Capability.Registry.{WorkflowNodeCapabilityRegistry}
use oh_my_dream.Graph.Value.{
  WorkflowGraphError, checked_next, next_from_observation, WorkflowNodeEntity, target_ord,
}
use oh_my_dream.Graph.Aggregate.{Bindings, WorkflowAggregate, try_restore}
use oh_my_dream.Graph.Aggregate.Parts.{try_restore-IsRestored}
use oh_my_dream.Graph.Aggregate.Saved.{save, try_restore-save}
use oh_my_dream.Graph.Aggregate.Draft.{IsDraft, try_restore-IsDraft}
use oh_my_dream.Graph.Mutation.{
  update_node, add_node, remove_node, remove_incident, on_bindings, bind_single,
  insert_reference_item, move_reference_item, remove_input_item, set_input_item_role, apply_action,
  apply_actions, apply_mutation_command,
}
use oh_my_dream.Graph.Mutation.Action.{WorkflowMutationAction, WorkflowApplyMutationCommand}
use oh_my_dream.Graph.Mutation.Action

module _ {P : Type 0} where
  -- The fields that no action changes.
  pub record IsSame (g h : WorkflowAggregate P) : Type 0 where
    pub schema_version : h.schema_version ≡ g.schema_version
    pub id : h.id ≡ g.id
    pub project_id : h.project_id ≡ g.project_id
    pub created_at : h.created_at ≡ g.created_at

  update_node-IsSame :
      (change : WorkflowNodeEntity P → WorkflowNodeEntity P) (id : WorkflowNodeId)
      (g h : WorkflowAggregate P)
      → update_node change id g ≡ ok h
      → IsSame g h
  unfolding update_node
  update_node-IsSame change id g h e = ground arith

  on_bindings-IsSame :
      (change : Bindings → Result WorkflowGraphError Bindings) (g h : WorkflowAggregate P)
      → on_bindings change g ≡ ok h
      → IsSame g h
  on_bindings-IsSame change g h e = elim (Result-cases (change g.input_bindings)) [
    | inl (b, f) ↦ ground arith
    | inr (x, f) ↦ absurd (ground arith)
  ]

  remove_node-IsSame :
      (id : WorkflowNodeId) (g h : WorkflowAggregate P) → remove_node id g ≡ ok h → IsSame g h
  unfolding remove_node
  remove_node-IsSame id g h e = elim (Result-cases (remove_incident id g.input_bindings)) [
    | inl (b, f) ↦ ground arith
    | inr (x, f) ↦ absurd (ground arith)
  ]

  apply_action-IsSame :
      (a : WorkflowMutationAction P) (g h : WorkflowAggregate P)
      → apply_action a g ≡ ok h
      → IsSame g h
  unfolding apply_action add_node
  apply_action-IsSame (Action.add_node i c s p) g h e = ground arith
  apply_action-IsSame (Action.remove_node i) g h e = remove_node-IsSame i g h e
  apply_action-IsSame (Action.replace_node_parameters i s) g h e = update_node-IsSame _ i g h e
  apply_action-IsSame (Action.select_node_capability i c s) g h e = update_node-IsSame _ i g h e
  apply_action-IsSame (Action.move_node i p) g h e = update_node-IsSame _ i g h e
  apply_action-IsSame (Action.bind_single_input t i) g h e =
      on_bindings-IsSame (bind_single t i) g h e
  apply_action-IsSame (Action.insert_reference_item t i n) g h e =
      on_bindings-IsSame (insert_reference_item t i n) g h e
  apply_action-IsSame (Action.move_reference_item t i n) g h e =
      on_bindings-IsSame (move_reference_item t i n) g h e
  apply_action-IsSame (Action.remove_input_item t i) g h e =
      on_bindings-IsSame (remove_input_item t i) g h e
  apply_action-IsSame (Action.set_input_item_role t i r) g h e =
      on_bindings-IsSame (set_input_item_role t i r) g h e

  apply_actions-IsSame :
      (actions : List (WorkflowMutationAction P)) (g h : WorkflowAggregate P)
      → apply_actions actions g ≡ ok h
      → IsSame g h
  unfolding apply_actions
  apply_actions-IsSame [] g h e = ground arith
  apply_actions-IsSame (a ∷ actions) g h e = elim (Result-cases (apply_action a g)) [
    | inr (x, f) ↦ absurd (ground arith)
    | inl (k, f) ↦
        let first = apply_action-IsSame a g k f in
        let rest = apply_actions-IsSame actions k h (ground arith) in
        record {
          schema_version = rest.schema_version ∙ first.schema_version;
          id = rest.id ∙ first.id;
          project_id = rest.project_id ∙ first.project_id;
          created_at = rest.created_at ∙ first.created_at;
        }
  ]

  -- The next revision of the same Workflow, later than the one before, as an accepted draft that
  -- restores from its own fields.
  pub record IsNext {H : Type 0} (capabilities : WorkflowNodeCapabilityRegistry)
      (g : WorkflowAggregate P) (command : WorkflowApplyMutationCommand P H) (observed_at : ℕ)
      (h : WorkflowAggregate P) : Type 0 where
    pub addressed : command.workflow_id ≡ g.id
    pub current : command.base_revision ≡ g.revision
    pub same : IsSame g h
    pub revision : h.revision ≡ g.revision + 1
    pub bounded : h.revision < 2 ^ 64
    pub later : g.updated_at < h.updated_at
    pub observed : ltb h.updated_at observed_at ≡ false
    pub draft : IsDraft capabilities h
    pub saved : try_restore (save h) capabilities ≡ ok h

  -- A command that succeeds was for this Workflow at its revision and gives the next revision of it,
  -- within 64 bits, later than before and not before the observation, with the identity, Project and
  -- creation time kept, as an accepted draft that restores from its own fields.
  pub apply_mutation_command-IsNext :
      {H : Type 0} (capabilities : WorkflowNodeCapabilityRegistry) (g h : WorkflowAggregate P)
      (command : WorkflowApplyMutationCommand P H) (observed_at : ℕ)
      → apply_mutation_command g command observed_at capabilities ≡ ok h
      → IsNext capabilities g command observed_at h
  unfolding apply_mutation_command checked_next next_from_observation save
  apply_mutation_command-IsNext capabilities g h command observed_at e =
      elim (Result-cases (apply_actions command.actions g)) [
        | inr (x, f) ↦ absurd (ground arith)
        | inl (k, f) ↦
            let later =
              if ltb (g.updated_at + 1) observed_at then observed_at else g.updated_at + 1 in
            let d = record (save k) { revision = g.revision + 1; updated_at = later } in
            let run : try_restore d capabilities ≡ ok h = ground arith in
            let fields = (try_restore-IsRestored capabilities d h run).same in
            let s = apply_actions-IsSame command.actions g k f in
            record {
              addressed = ground (arith, ==_iff command.workflow_id g.id);
              current = ground (arith, ==_iff command.base_revision g.revision);
              same = record {
                schema_version = ap (λ x. x.schema_version) fields ∙ s.schema_version;
                id = ap (λ x. x.id) fields ∙ s.id;
                project_id = ap (λ x. x.project_id) fields ∙ s.project_id;
                created_at = ap (λ x. x.created_at) fields ∙ s.created_at;
              };
              revision = ap (λ x. x.revision) fields;
              bounded = ground (arith, ap (λ x. x.revision) fields);
              later = ground (arith, ap (λ x. x.updated_at) fields);
              observed = ground (arith, ap (λ x. x.updated_at) fields);
              draft = try_restore-IsDraft capabilities d h run;
              saved = try_restore-save capabilities d h run;
            }
      ]
