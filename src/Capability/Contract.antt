-- ===== src/Capability/Contract.antt =====
-- crates/engine/src/node_capability/contract.rs: the declarations of a capability, and the
-- normalization of the parameters of a node.
pub mod Normal
use oh_my_dream.Common.{
  ◌≡◌, arith, ℕ, Bool, false, not, ◌||◌, Option, none, some, List, [], ◌∷◌, map, any, filter,
  length, is_empty, ltb, ◌==◌, Result, ok, err, ensure, ◌>>=◌, ◌>>◌, list_eq, if◌then◌else◌,
}
use oh_my_dream.Common.Bytes.{Utf8, text_ord}
use oh_my_dream.Common.Maps.{BTreeMap, get, insert}
use oh_my_dream.Workflow.Value.{NodeCapabilityContractRef, NodeCapabilityParameterValue}
use oh_my_dream.Capability.Key.{
  NodeCapabilityContractError, invalid_constraint, invalid_default, duplicate_key,
  invalid_primary_output_count, invalid_collection_size,
}
use oh_my_dream.Capability.Parameter.{
  WorkflowDataType, NodeCapabilityParameterConstraint, NodeCapabilityParameterSet,
  NodeCapabilityParameterErrorCategory, unknown_parameter, required_parameter_missing,
  validate_parameter_value, validate_constraint_definition,
}

pub data NodeCapabilityParameterPresence : Type 0 where
  required : NodeCapabilityParameterPresence
  optional_with_default : NodeCapabilityParameterValue → NodeCapabilityParameterPresence

pub record NodeCapabilityParameterContract : Type 0 where
  pub key : Utf8
  pub constraint : NodeCapabilityParameterConstraint
  pub presence : NodeCapabilityParameterPresence

pub data NodeCapabilityInputBindingContract : Type 0 where
  optional_single_value : (data_type : WorkflowDataType) → NodeCapabilityInputBindingContract
  required_single_value : (data_type : WorkflowDataType) → NodeCapabilityInputBindingContract
  -- An accepted set is the list of its types.
  ordered_references :
      (minimum_items : ℕ) (maximum_items : Option ℕ)
      (accepted_data_types_by_role : BTreeMap Utf8 (List WorkflowDataType))
      → NodeCapabilityInputBindingContract

pub record NodeCapabilityInputContract : Type 0 where
  pub key : Utf8
  pub binding : NodeCapabilityInputBindingContract

pub record NodeCapabilityOutputContract : Type 0 where
  pub key : Utf8
  pub data_type : WorkflowDataType
  pub is_primary : Bool

pub data NodeCapabilityExecutionKind : Type 0 where
  pure_value managed_asset_read content_generation : NodeCapabilityExecutionKind
  media_transformation content_analysis : NodeCapabilityExecutionKind

pub record NodeCapabilityContract : Type 0 where
  pub contract_ref : NodeCapabilityContractRef
  pub parameters : List NodeCapabilityParameterContract
  pub inputs : List NodeCapabilityInputContract
  pub outputs : List NodeCapabilityOutputContract
  pub execution_kind : NodeCapabilityExecutionKind

abbrev pub map_err {ℓ} : {E F A : Type ℓ} → (E → F) → Result E A → Result F A
map_err f (ok a) = ok a
map_err f (err e) = err (f e)

pub map_err-ok {ℓ} :
    {E F A : Type ℓ} (f : E → F) (x : Result E A) {a : A} → map_err f x ≡ ok a → x ≡ ok a
map_err-ok f (ok a) h = ground arith
map_err-ok f (err e) h = absurd (ground arith)

abbrev pub exceeds : Option ℕ → ℕ → Bool
exceeds none minimum = false
exceeds (some maximum) minimum = ltb maximum minimum

-- `NodeCapabilityInputContract::new` tests a binding.
unfoldable pub validate :
    NodeCapabilityInputBindingContract → Result NodeCapabilityContractError Unit
validate (ordered_references minimum_items maximum_items roles) =
    if exceeds maximum_items minimum_items || is_empty roles then err invalid_constraint else ok tt
validate _ = ok tt

unfoldable pub input_contract :
    Utf8
    → NodeCapabilityInputBindingContract
    → Result NodeCapabilityContractError NodeCapabilityInputContract
unfolding validate
input_contract key binding = do validate binding; ok (record { key = key; binding = binding })

unfoldable pub validate_presence :
    NodeCapabilityParameterConstraint
    → NodeCapabilityParameterPresence
    → Result NodeCapabilityContractError Unit
validate_presence constraint required = ok tt
validate_presence constraint (optional_with_default default) =
    map_err (λ category. invalid_default) (validate_parameter_value constraint default)

-- The loop over the parameters of `try_new`.
unfoldable pub validate_parameters :
    List NodeCapabilityParameterContract → Result NodeCapabilityContractError Unit
unfolding validate_presence
validate_parameters [] = ok tt
validate_parameters (p ∷ ps) = do
  validate_constraint_definition p.constraint
  validate_presence p.constraint p.presence
  validate_parameters ps

abbrev pub contains_text : Utf8 → List Utf8 → Bool
contains_text k keys = any (λ j. list_eq k j) keys

-- `seen` holds the keys before.
unfoldable pub ensure_unique : List Utf8 → List Utf8 → Result NodeCapabilityContractError Unit
ensure_unique seen [] = ok tt
ensure_unique seen (k ∷ ks) =
    let rest = ensure_unique (k ∷ seen) ks in
    if contains_text k seen then err duplicate_key else rest

unfoldable pub try_new :
    NodeCapabilityContractRef
    → List NodeCapabilityParameterContract
    → List NodeCapabilityInputContract
    → List NodeCapabilityOutputContract
    → NodeCapabilityExecutionKind
    → Result NodeCapabilityContractError NodeCapabilityContract
try_new contract_ref parameters inputs outputs execution_kind = do
  ensure
      (not (
        ltb 64 (length parameters)
        || ltb 64 (length inputs)
        || is_empty outputs
        || ltb 64 (length outputs)))
      invalid_collection_size
  validate_parameters parameters
  ensure_unique [] (map (λ p. p.key) parameters)
  ensure_unique [] (map (λ i. i.key) inputs)
  ensure_unique [] (map (λ o. o.key) outputs)
  ensure (length (filter (λ o. o.is_primary) outputs) == 1) invalid_primary_output_count
  ok (record {
    contract_ref = contract_ref;
    parameters = parameters;
    inputs = inputs;
    outputs = outputs;
    execution_kind = execution_kind;
  })

-- The target of the error is always a parameter here.
pub record NodeCapabilityParameterError : Type 0 where
  pub category : NodeCapabilityParameterErrorCategory
  pub target : Utf8

abbrev pub declares : List NodeCapabilityParameterContract → Utf8 → Bool
declares parameters key = any (λ p. list_eq p.key key) parameters

abbrev pub parameter_error :
    NodeCapabilityParameterErrorCategory → Utf8 → NodeCapabilityParameterError
parameter_error category key = record { category = category; target = key }

-- The first loop: every supplied key is declared.
unfoldable pub reject_unknown :
    List NodeCapabilityParameterContract
    → NodeCapabilityParameterSet
    → Result NodeCapabilityParameterError Unit
reject_unknown parameters [] = ok tt
reject_unknown parameters ((key, value) ∷ rest) = do
  ensure (declares parameters key) (parameter_error unknown_parameter key)
  reject_unknown parameters rest

abbrev pub value_or_default :
    Option NodeCapabilityParameterValue
    → NodeCapabilityParameterContract
    → Result NodeCapabilityParameterError NodeCapabilityParameterValue
value_or_default (some value) p = ok value
value_or_default none p = elim p.presence [
  | required ↦ err (parameter_error required_parameter_missing p.key)
  | optional_with_default value ↦ ok value
]

-- The second loop.
unfoldable pub normalize_onto :
    NodeCapabilityParameterSet
    → List NodeCapabilityParameterContract
    → NodeCapabilityParameterSet
    → Result NodeCapabilityParameterError NodeCapabilityParameterSet
normalize_onto supplied [] normalized = ok normalized
normalize_onto supplied (p ∷ ps) normalized = do
  value ← value_or_default (get p.key supplied) p
  map_err (λ category. parameter_error category p.key) (validate_parameter_value p.constraint value)
  normalize_onto supplied ps (insert p.key value normalized)

unfoldable pub normalize_node_parameters :
    NodeCapabilityContract
    → NodeCapabilityParameterSet
    → Result NodeCapabilityParameterError NodeCapabilityParameterSet
unfolding reject_unknown normalize_onto
normalize_node_parameters contract supplied = do
  reject_unknown contract.parameters supplied
  normalize_onto supplied contract.parameters []
