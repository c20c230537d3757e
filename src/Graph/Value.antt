-- ===== src/Graph/Value.antt =====
-- crates/engine/src/workflow_graph/error.rs, value.rs, identity.rs and entity.rs.
use oh_my_dream.Common.{
  ℕ, ◌+◌, ◌^◌, ◌≡◌, ◌↔◌, Bool, true, false, ◌&&◌, ◌||◌, Option, none, some, List, any, is_empty,
  list_eq, ltb, ◌==◌, Result, ok, err, if◌then◌else◌, arith,
}
use oh_my_dream.Common.Bytes.{
  Ord, Utf8, lex_lt, list_eq_iff, lex_lt_irrefl, lex_lt_trans, lex_lt_total,
}
use oh_my_dream.Workflow.Value.{
  WorkflowNodeId, NodeCapabilityContractRef, WorkflowInputItemEntity, WorkflowInputBinding, single,
  ordered_references,
}
use oh_my_dream.Capability.Parameter.{NodeCapabilityParameterSet}

pub data WorkflowGraphError : Type 0 where
  action_limit_exceeded revision_conflict revision_overflow timestamp_overflow : WorkflowGraphError
  mutation_idempotency_conflict persistence_failure schema_version_unsupported : WorkflowGraphError
  revision_zero identity_not_version_four timestamp_out_of_range : WorkflowGraphError
  canvas_position_out_of_bounds binding_shape_mismatch cardinality_violation : WorkflowGraphError
  duplicate_node duplicate_input_item node_not_found input_not_found : WorkflowGraphError
  input_item_not_found input_occupied output_not_found self_edge : WorkflowGraphError
  data_type_mismatch role_violation cycle reference_violation : WorkflowGraphError
  canonical_mutation_invalid : WorkflowGraphError

-- `WorkflowSchemaVersion::new`
unfoldable pub schema_version : ℕ → Result WorkflowGraphError ℕ
schema_version value = if value == 1 then ok value else err schema_version_unsupported

-- `WorkflowRevision::new`
unfoldable pub revision : ℕ → Result WorkflowGraphError ℕ
revision value = if value == 0 then err revision_zero else ok value

-- `checked_add(1)` of a `u64`
unfoldable pub checked_next : ℕ → Result WorkflowGraphError ℕ
checked_next revision =
    if ltb (revision + 1) (2 ^ 64) then ok (revision + 1) else err revision_overflow

-- Of an `i64` that is not negative.
unfoldable pub next_from_observation : (updated_at observed : ℕ) → Result WorkflowGraphError ℕ
next_from_observation updated_at observed =
    if ltb (updated_at + 1) (2 ^ 63)
    then ok (if ltb (updated_at + 1) observed then observed else updated_at + 1)
    else err timestamp_overflow

-- `P` is the type of canvas positions, which are two floats.
pub record WorkflowNodeEntity (P : Type 0) : Type 0 where
  pub id : WorkflowNodeId
  pub capability_contract : NodeCapabilityContractRef
  pub parameter_set : NodeCapabilityParameterSet
  pub canvas_position : P

pub record WorkflowInputTarget : Type 0 where
  pub node_id : WorkflowNodeId
  pub input_key : Utf8

abbrev pub target_eq : WorkflowInputTarget → WorkflowInputTarget → Bool
target_eq a b = a.node_id == b.node_id && list_eq a.input_key b.input_key

abbrev pub target_lt : WorkflowInputTarget → WorkflowInputTarget → Bool
target_lt a b =
    ltb a.node_id b.node_id || (a.node_id == b.node_id && lex_lt a.input_key b.input_key)

pub target_eq_iff : (a b : WorkflowInputTarget) → (target_eq a b ≡ true) ↔ (a ≡ b)
target_eq_iff a b = ground (arith, list_eq_iff a.input_key b.input_key)

pub target_lt_irrefl : (a : WorkflowInputTarget) → target_lt a a ≡ false
target_lt_irrefl a = ground (arith, lex_lt_irrefl a.input_key)

pub target_lt_trans :
    (a b c : WorkflowInputTarget)
    → target_lt a b ≡ true
    → target_lt b c ≡ true
    → target_lt a c ≡ true
target_lt_trans a b c h k = ground (arith, lex_lt_trans a.input_key b.input_key c.input_key)

pub target_lt_total :
    (a b : WorkflowInputTarget)
    → target_eq a b ≡ false
    → target_lt a b ≡ false
    → target_lt b a ≡ true
target_lt_total a b h k = ground (arith, lex_lt_total a.input_key b.input_key)

-- The derived order.
instance abbrev pub target_ord : Ord WorkflowInputTarget
target_ord = record {
  eq = target_eq;
  lt = target_lt;
  eq_iff = target_eq_iff;
  irrefl = target_lt_irrefl;
  trans = target_lt_trans;
  total = target_lt_total;
}

abbrev pub is_none {ℓ} : {A : Type ℓ} → Option A → Bool
is_none none = true
is_none (some a) = false

abbrev pub is_some {ℓ} : {A : Type ℓ} → Option A → Bool
is_some none = false
is_some (some a) = true

-- `WorkflowOrderedInputItems::try_new` and `ordered_references`
unfoldable pub ordered_items :
    List WorkflowInputItemEntity → Result WorkflowGraphError WorkflowInputBinding
ordered_items items =
    if is_empty items
    then err cardinality_violation
    else if any (λ item. is_none item.input_role_key) items
    then err binding_shape_mismatch
    else ok (ordered_references items)

-- `WorkflowInputBinding::try_single`
unfoldable pub try_single : WorkflowInputItemEntity → Result WorkflowGraphError WorkflowInputBinding
try_single item =
    if is_some item.input_role_key then err binding_shape_mismatch else ok (single item)
