-- ===== src/Graph/Mutation/Canonical.antt =====
-- crates/engine/src/workflow_graph/mutation_hash.rs and mutation_decode.rs: the bytes of an action and
-- of a command, and the decoding of an action. A reader returns the bytes that it leaves.
pub mod Read
pub mod RoundTrip
use Prim.Native.Nat.{◌%◌}
use oh_my_dream.Common.{
  ℕ, ◌+◌, ◌^◌, Bool, true, false, ◌&&◌, Option, none, some, List, [], ◌∷◌, ◌++◌, length, is_empty,
  list_eq, ltb, ◌==◌, Result, ok, err, ok_or, ensure, ◌>>=◌, ◌>>◌, if◌then◌else◌,
}
use oh_my_dream.Common.Bytes.{Utf8, ascii}
use oh_my_dream.Workflow.Value.{
  WorkflowId, WorkflowNodeId, NodeCapabilityContractRef, WorkflowInputItemEntity,
}
use oh_my_dream.Tasks.Canonical.{to_be_bytes}
use oh_my_dream.Capability.Key.{capability_key, contract_id, contract_version}
use oh_my_dream.Capability.Parameter.{NodeCapabilityParameterSet}
use oh_my_dream.Capability.Contract.{map_err}
use oh_my_dream.Capability.Canonical.{
  append_variable_bytes, canonical_bytes, take, drop, from_be_bytes, try_from_canonical_bytes,
}
use oh_my_dream.Graph.Value.{WorkflowGraphError, canonical_mutation_invalid, WorkflowInputTarget}
use oh_my_dream.Graph.Mutation.Action.{
  WorkflowMutationAction, add_node, remove_node, replace_node_parameters, select_node_capability,
  move_node, bind_single_input, insert_reference_item, move_reference_item, remove_input_item,
  set_input_item_role,
}

unfoldable pub append_contract_ref : NodeCapabilityContractRef → List ℕ
append_contract_ref value =
    append_variable_bytes value.id ++ (to_be_bytes 2 value.major ++ to_be_bytes 2 value.minor)

unfoldable pub append_parameters : NodeCapabilityParameterSet → List ℕ
append_parameters value = append_variable_bytes (canonical_bytes value)

unfoldable pub append_node_id : WorkflowNodeId → List ℕ
append_node_id value = to_be_bytes 16 value

unfoldable pub append_target : WorkflowInputTarget → List ℕ
append_target value = append_node_id value.node_id ++ append_variable_bytes value.input_key

abbrev pub append_role : Option Utf8 → List ℕ
append_role none = []
append_role (some role) = append_variable_bytes role

-- A role is written without a mark that it is there.
unfoldable pub append_item : WorkflowInputItemEntity → List ℕ
append_item value =
    to_be_bytes 16 value.id
    ++ (append_node_id value.source_node_id
        ++ (append_variable_bytes value.source_output_key ++ append_role value.input_role_key))

abbrev pub Reader : Type 0 → Type 0
Reader A = List ℕ → Result WorkflowGraphError (A × List ℕ)

unfoldable pub take_bytes : ℕ → Reader (List ℕ)
take_bytes count bytes =
    if ltb (length bytes) count
    then err canonical_mutation_invalid
    else ok (take count bytes, drop count bytes)

-- `u8`, `u16`, `u32`, `u64` and `uuid`, by their number of bytes.
unfoldable pub integer : ℕ → Reader ℕ
integer size bytes = do value ← take_bytes size bytes; ok (from_be_bytes 0 value.0, value.1)

unfoldable pub variable_bytes : Reader (List ℕ)
variable_bytes bytes = do size ← integer 4 bytes; take_bytes size.0 size.1

-- The error of a part becomes that of the action.
abbrev pub or_invalid : {E A : Type 0} → Result E A → Result WorkflowGraphError A
or_invalid = map_err (λ e. canonical_mutation_invalid)

-- A position is written as two floats: `to_bits` gives their bits, and `from_bits` is `try_new` of the
-- floats of two bit patterns.
module _ {P : Type 0} (is_utf8 : List ℕ → Bool) (is_version_four : ℕ → Bool) (to_bits : P → ℕ × ℕ)
    (from_bits : ℕ → ℕ → Option P) where
  unfoldable pub append_position : P → List ℕ
  append_position value = to_be_bytes 8 (to_bits value).0 ++ to_be_bytes 8 (to_bits value).1

  -- `append_action`
  unfoldable pub append_action : WorkflowMutationAction P → List ℕ
  append_action (add_node id contract parameters position) =
      0
      ∷ (append_node_id id
          ++ (append_contract_ref contract
              ++ (append_parameters parameters ++ append_position position)))
  append_action (remove_node id) = 1 ∷ append_node_id id
  append_action (replace_node_parameters id parameters) =
      2 ∷ (append_node_id id ++ append_parameters parameters)
  append_action (select_node_capability id contract parameters) =
      3 ∷ (append_node_id id ++ (append_contract_ref contract ++ append_parameters parameters))
  append_action (move_node id position) = 4 ∷ (append_node_id id ++ append_position position)
  append_action (bind_single_input target item) = 5 ∷ (append_target target ++ append_item item)
  append_action (insert_reference_item target item index) =
      6 ∷ (append_target target ++ (append_item item ++ to_be_bytes 4 index))
  append_action (move_reference_item target id index) =
      7 ∷ (append_target target ++ (to_be_bytes 16 id ++ to_be_bytes 4 index))
  append_action (remove_input_item target id) = 8 ∷ (append_target target ++ to_be_bytes 16 id)
  append_action (set_input_item_role target id role) =
      9 ∷ (append_target target ++ (to_be_bytes 16 id ++ append_variable_bytes role))

  abbrev pub append_actions : List (WorkflowMutationAction P) → List ℕ
  append_actions [] = []
  append_actions (action ∷ actions) = append_action action ++ append_actions actions

  -- What the hash of a command digests.
  unfoldable pub command_bytes : WorkflowId → ℕ → List (WorkflowMutationAction P) → List ℕ
  command_bytes workflow_id base_revision actions =
      append_variable_bytes (ascii "oh-my-dream/workflow-mutation/v1")
      ++ (to_be_bytes 16 workflow_id
          ++ (to_be_bytes 8 base_revision
              ++ (to_be_bytes 4 (length actions % 2 ^ 32) ++ append_actions actions)))

  -- `node_id` and `input_item_id`
  unfoldable pub identity : Reader ℕ
  identity bytes = do
    value ← integer 16 bytes
    ensure (is_version_four value.0) canonical_mutation_invalid
    ok value

  unfoldable pub string : Reader Utf8
  string bytes = do
    value ← variable_bytes bytes
    ensure (is_utf8 value.0) canonical_mutation_invalid
    ok value

  unfoldable pub key : Reader Utf8
  key bytes = do
    value ← string bytes
    value' ← or_invalid (capability_key value.0)
    ok (value', value.1)

  unfoldable pub contract_ref : Reader NodeCapabilityContractRef
  contract_ref bytes = do
    value ← string bytes
    id ← or_invalid (contract_id value.0)
    major ← integer 2 value.1
    minor ← integer 2 major.1
    version ← or_invalid (contract_version major.0 minor.0)
    ok (record { id = id; major = version.0; minor = version.1 }, minor.1)

  unfoldable pub parameters : Reader NodeCapabilityParameterSet
  parameters bytes = do
    value ← variable_bytes bytes
    set ← or_invalid (try_from_canonical_bytes is_utf8 is_version_four value.0)
    ok (set, value.1)

  unfoldable pub position : Reader P
  position bytes = do
    x ← integer 8 bytes
    y ← integer 8 x.1
    value ← ok_or (from_bits x.0 y.0) canonical_mutation_invalid
    ok (value, y.1)

  unfoldable pub target : Reader WorkflowInputTarget
  target bytes = do
    id ← identity bytes
    input ← key id.1
    ok (record { node_id = id.0; input_key = input.0 }, input.1)

  abbrev pub role : Bool → Reader (Option Utf8)
  role false bytes = ok (none, bytes)
  role true bytes = do value ← key bytes; ok (some value.0, value.1)

  unfoldable pub item : Bool → Reader WorkflowInputItemEntity
  item with_role bytes = do
    id ← identity bytes
    source ← identity id.1
    output ← key source.1
    role' ← role with_role output.1
    ok (
      record {
        id = id.0;
        source_node_id = source.0;
        source_output_key = output.0;
        input_role_key = role'.0;
      },
      role'.1,
    )

  unfoldable pub read_add_node : Reader (WorkflowMutationAction P)
  read_add_node bytes = do
    id ← identity bytes
    contract ← contract_ref id.1
    set ← parameters contract.1
    place ← position set.1
    ok (add_node id.0 contract.0 set.0 place.0, place.1)

  unfoldable pub read_remove_node : Reader (WorkflowMutationAction P)
  read_remove_node bytes = do id ← identity bytes; ok (remove_node id.0, id.1)

  unfoldable pub read_replace_node_parameters : Reader (WorkflowMutationAction P)
  read_replace_node_parameters bytes = do
    id ← identity bytes
    set ← parameters id.1
    ok (replace_node_parameters id.0 set.0, set.1)

  unfoldable pub read_select_node_capability : Reader (WorkflowMutationAction P)
  read_select_node_capability bytes = do
    id ← identity bytes
    contract ← contract_ref id.1
    set ← parameters contract.1
    ok (select_node_capability id.0 contract.0 set.0, set.1)

  unfoldable pub read_move_node : Reader (WorkflowMutationAction P)
  read_move_node bytes = do
    id ← identity bytes
    place ← position id.1
    ok (move_node id.0 place.0, place.1)

  unfoldable pub read_bind_single_input : Reader (WorkflowMutationAction P)
  read_bind_single_input bytes = do
    input ← target bytes
    value ← item false input.1
    ok (bind_single_input input.0 value.0, value.1)

  unfoldable pub read_insert_reference_item : Reader (WorkflowMutationAction P)
  read_insert_reference_item bytes = do
    input ← target bytes
    value ← item true input.1
    index ← integer 4 value.1
    ok (insert_reference_item input.0 value.0 index.0, index.1)

  unfoldable pub read_move_reference_item : Reader (WorkflowMutationAction P)
  read_move_reference_item bytes = do
    input ← target bytes
    id ← identity input.1
    index ← integer 4 id.1
    ok (move_reference_item input.0 id.0 index.0, index.1)

  unfoldable pub read_remove_input_item : Reader (WorkflowMutationAction P)
  read_remove_input_item bytes = do
    input ← target bytes
    id ← identity input.1
    ok (remove_input_item input.0 id.0, id.1)

  unfoldable pub read_set_input_item_role : Reader (WorkflowMutationAction P)
  read_set_input_item_role bytes = do
    input ← target bytes
    id ← identity input.1
    value ← key id.1
    ok (set_input_item_role input.0 id.0 value.0, value.1)

  unfoldable pub read_tagged : ℕ → Reader (WorkflowMutationAction P)
  read_tagged tag bytes =
      if tag == 0
      then read_add_node bytes
      else if tag == 1
      then read_remove_node bytes
      else if tag == 2
      then read_replace_node_parameters bytes
      else if tag == 3
      then read_select_node_capability bytes
      else if tag == 4
      then read_move_node bytes
      else if tag == 5
      then read_bind_single_input bytes
      else if tag == 6
      then read_insert_reference_item bytes
      else if tag == 7
      then read_move_reference_item bytes
      else if tag == 8
      then read_remove_input_item bytes
      else if tag == 9
      then read_set_input_item_role bytes
      else err canonical_mutation_invalid

  unfoldable pub action : Reader (WorkflowMutationAction P)
  action bytes = do tag ← integer 1 bytes; read_tagged tag.0 tag.1

  -- `WorkflowMutationAction::try_from_canonical_bytes`
  unfoldable pub decode_action : List ℕ → Result WorkflowGraphError (WorkflowMutationAction P)
  decode_action bytes = do
    value ← action bytes
    ensure (is_empty value.1 && list_eq (append_action value.0) bytes) canonical_mutation_invalid
    ok value.0
