-- ===== src/Capability/Parameter.antt =====
-- crates/engine/src/node_capability/parameter.rs: the closed values, constraints and sets.
use oh_my_dream.Common.{
  ℕ, ◌-◌, ◌^◌, Bool, true, false, not, ◌&&◌, List, contains, length, is_empty, leb, Result, ensure,
  if◌then◌else◌,
}
use oh_my_dream.Common.Bytes.{Utf8, text_ord}
use oh_my_dream.Common.Maps.{BTreeMap, contains_key}
use oh_my_dream.Workflow.Value.{
  NodeCapabilityParameterValue, unsigned_integer, choice, generation_profile, managed_asset,
}
use oh_my_dream.Capability.Key.{NodeCapabilityContractError, invalid_constraint}

pub data WorkflowDataType : Type 0 where
  text image video audio : WorkflowDataType

pub data NodeCapabilityParameterErrorCategory : Type 0 where
  unknown_parameter required_parameter_missing : NodeCapabilityParameterErrorCategory
  parameter_value_kind_mismatch parameter_value_out_of_bounds : NodeCapabilityParameterErrorCategory
  parameter_choice_not_declared parameter_set_too_large : NodeCapabilityParameterErrorCategory

-- A set of integers or of keys is the list of its elements, ascending.
pub data NodeCapabilityParameterConstraint : Type 0 where
  unsigned_integer_range : (minimum maximum : ℕ) → NodeCapabilityParameterConstraint
  unsigned_integer_allowed_values : List ℕ → NodeCapabilityParameterConstraint
  text_utf8_bytes : (minimum maximum : ℕ) → NodeCapabilityParameterConstraint
  choice_allowed_keys : BTreeMap Utf8 (Unit {0}) → NodeCapabilityParameterConstraint
  generation_profile_ref : NodeCapabilityParameterConstraint
  managed_asset_id : (media_kind : WorkflowDataType) → NodeCapabilityParameterConstraint

abbrev pub is_text : WorkflowDataType → Bool
is_text WorkflowDataType.text = true
is_text _ = false

abbrev pub has_same_value_kind :
    NodeCapabilityParameterConstraint → NodeCapabilityParameterValue → Bool
has_same_value_kind (unsigned_integer_range lo hi) (unsigned_integer n) = true
has_same_value_kind (unsigned_integer_allowed_values ns) (unsigned_integer n) = true
has_same_value_kind (text_utf8_bytes lo hi) (NodeCapabilityParameterValue.text t) = true
has_same_value_kind (choice_allowed_keys ks) (choice k) = true
has_same_value_kind generation_profile_ref (generation_profile p v) = true
has_same_value_kind (managed_asset_id kind) (managed_asset a) = true
has_same_value_kind _ _ = false

-- The guards of the first six arms.
abbrev pub accepts : NodeCapabilityParameterConstraint → NodeCapabilityParameterValue → Bool
accepts (unsigned_integer_range lo hi) (unsigned_integer n) = leb lo n && leb n hi
accepts (unsigned_integer_allowed_values ns) (unsigned_integer n) = contains n ns
accepts (text_utf8_bytes lo hi) (NodeCapabilityParameterValue.text t) =
    leb lo (length t) && leb (length t) hi
accepts (choice_allowed_keys ks) (choice k) = contains_key k ks
accepts generation_profile_ref (generation_profile p v) = true
accepts (managed_asset_id kind) (managed_asset a) = true
accepts _ _ = false

-- The arms below the six.
abbrev pub refusal :
    NodeCapabilityParameterConstraint
    → NodeCapabilityParameterValue
    → NodeCapabilityParameterErrorCategory
refusal (choice_allowed_keys ks) (choice k) = parameter_choice_not_declared
refusal constraint value =
    if has_same_value_kind constraint value
    then parameter_value_out_of_bounds
    else parameter_value_kind_mismatch

unfoldable pub validate_parameter_value :
    NodeCapabilityParameterConstraint
    → NodeCapabilityParameterValue
    → Result NodeCapabilityParameterErrorCategory Unit
validate_parameter_value constraint value =
    ensure (accepts constraint value) (refusal constraint value)

abbrev pub is_valid_definition : NodeCapabilityParameterConstraint → Bool
is_valid_definition (unsigned_integer_range minimum maximum) = leb minimum maximum
is_valid_definition (unsigned_integer_allowed_values values) = not (is_empty values)
is_valid_definition (text_utf8_bytes minimum maximum) =
    leb minimum maximum && leb maximum (2 ^ 32 - 1)
is_valid_definition (choice_allowed_keys values) = not (is_empty values)
is_valid_definition generation_profile_ref = true
is_valid_definition (managed_asset_id media_kind) = not (is_text media_kind)

unfoldable pub validate_constraint_definition :
    NodeCapabilityParameterConstraint → Result NodeCapabilityContractError Unit
validate_constraint_definition constraint =
    ensure (is_valid_definition constraint) invalid_constraint

abbrev pub NodeCapabilityParameterSet : Type 0
NodeCapabilityParameterSet = BTreeMap Utf8 NodeCapabilityParameterValue
