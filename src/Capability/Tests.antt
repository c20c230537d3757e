-- ===== src/Capability/Tests.antt =====
-- A contract with two parameters, and normalization at a concrete input.
use oh_my_dream.Common.{ℕ, ◌≡◌, refl, Bool, true, List, [], ◌∷◌, all, length, ltb, ok, err, arith}
use oh_my_dream.Common.Bytes.{ascii}
use oh_my_dream.Workflow.Value.{NodeCapabilityContractRef, unsigned_integer, choice}
use oh_my_dream.Capability.Parameter.{
  WorkflowDataType, NodeCapabilityParameterSet, unsigned_integer_range, choice_allowed_keys,
  parameter_value_out_of_bounds, validate_parameter_value, validate_constraint_definition,
}
use oh_my_dream.Capability.Contract.{
  NodeCapabilityParameterContract, NodeCapabilityOutputContract, NodeCapabilityContract, required,
  optional_with_default, content_generation, validate_presence, validate_parameters, ensure_unique,
  try_new, parameter_error, reject_unknown, normalize_onto, normalize_node_parameters,
}
use oh_my_dream.Capability.Key.{is_valid_key, capability_key}
use oh_my_dream.Tasks.Canonical.{to_be_bytes}
use oh_my_dream.Capability.Canonical.{
  append_variable_bytes, append_parameter_value, append_entries, canonical_bytes,
  try_from_canonical_bytes,
}
use oh_my_dream.Capability.Canonical.RoundTrip.{try_from_canonical_bytes-canonical_bytes}

program : Unit {0}
unfolding validate_parameter_value validate_constraint_definition validate_presence
    validate_parameters ensure_unique try_new reject_unknown normalize_onto
    normalize_node_parameters
program = tt

abbrev contract_ref : NodeCapabilityContractRef
contract_ref = record { id = ascii "image.generate"; major = 1; minor = 0 }

abbrev parameters : List NodeCapabilityParameterContract
parameters =
    record {
      key = ascii "count";
      constraint = unsigned_integer_range 1 8;
      presence = optional_with_default (unsigned_integer 2);
    }
    ∷ record {
      key = ascii "size";
      constraint = choice_allowed_keys ((ascii "large", tt) ∷ (ascii "small", tt) ∷ []);
      presence = required;
    }
    ∷ []

abbrev outputs : List NodeCapabilityOutputContract
outputs = record { key = ascii "image"; data_type = WorkflowDataType.image; is_primary = true } ∷ []

abbrev contract : NodeCapabilityContract
contract = record {
  contract_ref = contract_ref;
  parameters = parameters;
  inputs = [];
  outputs = outputs;
  execution_kind = content_generation;
}

abbrev supplied : NodeCapabilityParameterSet
supplied = (ascii "size", choice (ascii "small")) ∷ []

abbrev normalized : NodeCapabilityParameterSet
normalized = (ascii "count", unsigned_integer 2) ∷ (ascii "size", choice (ascii "small")) ∷ []

nine_refused :
    normalize_node_parameters contract ((ascii "count", unsigned_integer 9) ∷ supplied)
    ≡ err (parameter_error parameter_value_out_of_bounds (ascii "count"))
unfolding program
nine_refused = refl

sizes : Unit {0}
unfolding is_valid_key capability_key to_be_bytes append_variable_bytes append_parameter_value
    append_entries canonical_bytes
sizes = tt

normalized_keys :
    (capability_key (ascii "count") ≡ ok (ascii "count"))
    × ((capability_key (ascii "size") ≡ ok (ascii "size"))
        × (capability_key (ascii "small") ≡ ok (ascii "small")))
unfolding sizes
normalized_keys = (refl, (refl, refl))

length-normalized : length (canonical_bytes normalized) ≡ 40
unfolding sizes
length-normalized = refl

-- All texts here are ASCII, and no value is an Asset.
abbrev is_ascii : List ℕ → Bool
is_ascii = all (λ b. ltb b 128)

try_from_canonical_bytes-canonical_bytes_example :
    try_from_canonical_bytes is_ascii (λ id. true) (canonical_bytes normalized) ≡ ok normalized
try_from_canonical_bytes-canonical_bytes_example =
    try_from_canonical_bytes-canonical_bytes is_ascii (λ id. true) normalized (refl, (refl, tt))
      (
        (refl, normalized_keys.0),
        (omega arith, ((refl, normalized_keys.1.0), ((refl, normalized_keys.1.1), tt))),
      )
      (omega arith) (omega (arith, length-normalized))
