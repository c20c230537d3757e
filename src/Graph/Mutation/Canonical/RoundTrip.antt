-- ===== src/Graph/Mutation/Canonical/RoundTrip.antt =====
-- Decoding the canonical bytes of an action gives the action.
use mathlib.Core.List.{append_assoc, append-nil}
use oh_my_dream.Common.{
  ℕ, ◌^◌, ◌<◌, ◌≡◌, subst, Bool, true, false, Option, List, [], ◌++◌, ok, arith,
}
use oh_my_dream.Common.Bytes.{list_eq_refl}
use oh_my_dream.Tasks.Canonical.{to_be_bytes}
use oh_my_dream.Capability.Canonical.{append_variable_bytes}
use oh_my_dream.Graph.Value.{is_some}
use oh_my_dream.Graph.Mutation.Action.{
  WorkflowMutationAction, add_node, remove_node, replace_node_parameters, select_node_capability,
  move_node, bind_single_input, insert_reference_item, move_reference_item, remove_input_item,
  set_input_item_role,
}
use oh_my_dream.Graph.Mutation.Canonical.{
  append_contract_ref, append_parameters, append_node_id, append_target, append_item,
  append_position, append_action, read_add_node, read_remove_node, read_replace_node_parameters,
  read_select_node_capability, read_move_node, read_bind_single_input, read_insert_reference_item,
  read_move_reference_item, read_remove_input_item, read_set_input_item_role, read_tagged, action,
  decode_action,
}
use oh_my_dream.Graph.Mutation.Canonical.Read.{
  integer-append, integer-tag, IsIdentity, identity-append, IsName, key-append, IsContractRef,
  contract_ref-append, IsParameterSet, parameters-append, IsPosition, position-append, IsTarget,
  target-append, IsItem, item-append,
}

module _ {P : Type 0} (is_utf8 : List ℕ → Bool) (is_version_four : ℕ → Bool) (to_bits : P → ℕ × ℕ)
    (from_bits : ℕ → ℕ → Option P) where
  -- The parts of an action are within their types, its parameters within the bounds of their decoding,
  -- and the items have the role that its kind asks for.
  abbrev pub IsAction : WorkflowMutationAction P → Type 0
  IsAction (add_node i c s p) =
      IsIdentity is_utf8 is_version_four to_bits from_bits i
      × (IsContractRef is_utf8 is_version_four to_bits from_bits c
          × (IsParameterSet is_utf8 is_version_four to_bits from_bits s
              × IsPosition is_utf8 is_version_four to_bits from_bits p))
  IsAction (remove_node i) = IsIdentity is_utf8 is_version_four to_bits from_bits i
  IsAction (replace_node_parameters i s) =
      IsIdentity is_utf8 is_version_four to_bits from_bits i
      × IsParameterSet is_utf8 is_version_four to_bits from_bits s
  IsAction (select_node_capability i c s) =
      IsIdentity is_utf8 is_version_four to_bits from_bits i
      × (IsContractRef is_utf8 is_version_four to_bits from_bits c
          × IsParameterSet is_utf8 is_version_four to_bits from_bits s)
  IsAction (move_node i p) =
      IsIdentity is_utf8 is_version_four to_bits from_bits i
      × IsPosition is_utf8 is_version_four to_bits from_bits p
  IsAction (bind_single_input t e) =
      IsTarget is_utf8 is_version_four to_bits from_bits t
      × (IsItem is_utf8 is_version_four to_bits from_bits e × (is_some e.input_role_key ≡ false))
  IsAction (insert_reference_item t e n) =
      IsTarget is_utf8 is_version_four to_bits from_bits t
      × ((IsItem is_utf8 is_version_four to_bits from_bits e × (is_some e.input_role_key ≡ true))
          × (n < 256 ^ 4))
  IsAction (move_reference_item t i n) =
      IsTarget is_utf8 is_version_four to_bits from_bits t
      × (IsIdentity is_utf8 is_version_four to_bits from_bits i × (n < 256 ^ 4))
  IsAction (remove_input_item t i) =
      IsTarget is_utf8 is_version_four to_bits from_bits t
      × IsIdentity is_utf8 is_version_four to_bits from_bits i
  IsAction (set_input_item_role t i k) =
      IsTarget is_utf8 is_version_four to_bits from_bits t
      × (IsIdentity is_utf8 is_version_four to_bits from_bits i
          × IsName is_utf8 is_version_four to_bits from_bits k)

  -- The reader of the tag gives back the action.
  action-append :
      (a : WorkflowMutationAction P) (r : List ℕ)
      → IsAction a
      → action is_utf8 is_version_four to_bits from_bits
          (append_action is_utf8 is_version_four to_bits from_bits a ++ r)
        ≡ ok (a, r)
  unfolding action read_tagged append_action append_node_id read_add_node read_remove_node
      read_replace_node_parameters read_select_node_capability read_move_node read_bind_single_input
      read_insert_reference_item read_move_reference_item read_remove_input_item
      read_set_input_item_role
  action-append (add_node i c s p) r h = ground (
    arith,
    append_assoc (to_be_bytes 16 i)
        (append_contract_ref c
          ++ (append_parameters s ++ append_position is_utf8 is_version_four to_bits from_bits p))
        r,
    append_assoc (append_contract_ref c)
        (append_parameters s ++ append_position is_utf8 is_version_four to_bits from_bits p) r,
    append_assoc (append_parameters s) (append_position is_utf8 is_version_four to_bits from_bits p)
        r,
    identity-append is_utf8 is_version_four to_bits from_bits i
        (append_contract_ref c
          ++ (append_parameters s
              ++ (append_position is_utf8 is_version_four to_bits from_bits p ++ r)))
        h.0,
    contract_ref-append is_utf8 is_version_four to_bits from_bits c
        (append_parameters s ++ (append_position is_utf8 is_version_four to_bits from_bits p ++ r))
        h.1.0,
    parameters-append is_utf8 is_version_four to_bits from_bits s
        (append_position is_utf8 is_version_four to_bits from_bits p ++ r) h.1.1.0,
    position-append is_utf8 is_version_four to_bits from_bits p r h.1.1.1,
    integer-tag 0 (
        to_be_bytes 16 i
        ++ (append_contract_ref c
            ++ (append_parameters s
                ++ (append_position is_utf8 is_version_four to_bits from_bits p ++ r)))),
  )
  action-append (remove_node i) r h = ground (
    arith,
    identity-append is_utf8 is_version_four to_bits from_bits i r h,
    integer-tag 1 (to_be_bytes 16 i ++ r),
  )
  action-append (replace_node_parameters i s) r h = ground (
    arith,
    append_assoc (to_be_bytes 16 i) (append_parameters s) r,
    identity-append is_utf8 is_version_four to_bits from_bits i (append_parameters s ++ r) h.0,
    parameters-append is_utf8 is_version_four to_bits from_bits s r h.1,
    integer-tag 2 (to_be_bytes 16 i ++ (append_parameters s ++ r)),
  )
  action-append (select_node_capability i c s) r h = ground (
    arith,
    append_assoc (to_be_bytes 16 i) (append_contract_ref c ++ append_parameters s) r,
    append_assoc (append_contract_ref c) (append_parameters s) r,
    identity-append is_utf8 is_version_four to_bits from_bits i
        (append_contract_ref c ++ (append_parameters s ++ r)) h.0,
    contract_ref-append is_utf8 is_version_four to_bits from_bits c (append_parameters s ++ r)
        h.1.0,
    parameters-append is_utf8 is_version_four to_bits from_bits s r h.1.1,
    integer-tag 3 (to_be_bytes 16 i ++ (append_contract_ref c ++ (append_parameters s ++ r))),
  )
  action-append (move_node i p) r h = ground (
    arith,
    append_assoc (to_be_bytes 16 i) (append_position is_utf8 is_version_four to_bits from_bits p) r,
    identity-append is_utf8 is_version_four to_bits from_bits i
        (append_position is_utf8 is_version_four to_bits from_bits p ++ r) h.0,
    position-append is_utf8 is_version_four to_bits from_bits p r h.1,
    integer-tag 4
        (to_be_bytes 16 i ++ (append_position is_utf8 is_version_four to_bits from_bits p ++ r)),
  )
  action-append (bind_single_input t e) r h = ground (
    arith,
    append_assoc (append_target t) (append_item e) r,
    target-append is_utf8 is_version_four to_bits from_bits t (append_item e ++ r) h.0,
    item-append is_utf8 is_version_four to_bits from_bits e r h.1.0,
    h.1.1,
    integer-tag 5 (append_target t ++ (append_item e ++ r)),
  )
  action-append (insert_reference_item t e n) r h = ground (
    arith,
    append_assoc (append_target t) (append_item e ++ to_be_bytes 4 n) r,
    append_assoc (append_item e) (to_be_bytes 4 n) r,
    target-append is_utf8 is_version_four to_bits from_bits t
        (append_item e ++ (to_be_bytes 4 n ++ r)) h.0,
    item-append is_utf8 is_version_four to_bits from_bits e (to_be_bytes 4 n ++ r) h.1.0.0,
    h.1.0.1,
    integer-append 4 n r h.1.1,
    integer-tag 6 (append_target t ++ (append_item e ++ (to_be_bytes 4 n ++ r))),
  )
  action-append (move_reference_item t i n) r h = ground (
    arith,
    append_assoc (append_target t) (to_be_bytes 16 i ++ to_be_bytes 4 n) r,
    append_assoc (to_be_bytes 16 i) (to_be_bytes 4 n) r,
    target-append is_utf8 is_version_four to_bits from_bits t
        (to_be_bytes 16 i ++ (to_be_bytes 4 n ++ r)) h.0,
    identity-append is_utf8 is_version_four to_bits from_bits i (to_be_bytes 4 n ++ r) h.1.0,
    integer-append 4 n r h.1.1,
    integer-tag 7 (append_target t ++ (to_be_bytes 16 i ++ (to_be_bytes 4 n ++ r))),
  )
  action-append (remove_input_item t i) r h = ground (
    arith,
    append_assoc (append_target t) (to_be_bytes 16 i) r,
    target-append is_utf8 is_version_four to_bits from_bits t (to_be_bytes 16 i ++ r) h.0,
    identity-append is_utf8 is_version_four to_bits from_bits i r h.1,
    integer-tag 8 (append_target t ++ (to_be_bytes 16 i ++ r)),
  )
  action-append (set_input_item_role t i k) r h = ground (
    arith,
    append_assoc (append_target t) (to_be_bytes 16 i ++ append_variable_bytes k) r,
    append_assoc (to_be_bytes 16 i) (append_variable_bytes k) r,
    target-append is_utf8 is_version_four to_bits from_bits t
        (to_be_bytes 16 i ++ (append_variable_bytes k ++ r)) h.0,
    identity-append is_utf8 is_version_four to_bits from_bits i (append_variable_bytes k ++ r)
        h.1.0,
    key-append is_utf8 is_version_four to_bits from_bits k r h.1.1,
    integer-tag 9 (append_target t ++ (to_be_bytes 16 i ++ (append_variable_bytes k ++ r))),
  )

  -- An action of a graph command is decoded from its canonical bytes, when its identities, keys,
  -- contract and integers are within their types, its items have a role exactly where its kind asks
  -- for one, its position restores from its bits, and its parameters are in the order of their keys,
  -- at most 64, with at most 64 KiB in each text and profile identity and at most one MiB of canonical
  -- bytes.
  pub decode_action-append_action :
      (a : WorkflowMutationAction P)
      → IsAction a
      → decode_action is_utf8 is_version_four to_bits from_bits
          (append_action is_utf8 is_version_four to_bits from_bits a)
        ≡ ok a
  unfolding decode_action
  decode_action-append_action a h =
      let read : action is_utf8 is_version_four to_bits from_bits
            (append_action is_utf8 is_version_four to_bits from_bits a)
          ≡ ok (a, []) =
        subst (λ b. action is_utf8 is_version_four to_bits from_bits b ≡ ok (a, []))
          (append-nil (append_action is_utf8 is_version_four to_bits from_bits a))
          (action-append a [] h) in
      ground (arith, read, list_eq_refl (append_action is_utf8 is_version_four to_bits from_bits a))
