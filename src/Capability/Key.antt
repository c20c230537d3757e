-- ===== src/Capability/Key.antt =====
-- crates/engine/src/node_capability/identity.rs, boundary_value.rs and contract_error.rs: keys, contract
-- identities and profile references, on the bytes of a text.
use oh_my_dream.Common.{
  ℕ, Bool, false, not, ◌&&◌, ◌||◌, [], ◌∷◌, all, length, leb, ◌==◌, Result, ok, err, if◌then◌else◌,
}
use oh_my_dream.Common.Bytes.{Utf8}
use oh_my_dream.Tasks.Identity.{split_dots, is_lowercase, is_digit}
use oh_my_dream.Workflow.Value.{NodeCapabilityParameterValue, generation_profile}

pub data NodeCapabilityContractError : Type 0 where
  invalid_contract_id invalid_contract_version invalid_key : NodeCapabilityContractError
  invalid_constraint invalid_default duplicate_key : NodeCapabilityContractError
  invalid_primary_output_count invalid_collection_size : NodeCapabilityContractError

abbrev pub is_key_byte : ℕ → Bool
is_key_byte b = is_lowercase b || is_digit b || b == b'_'

unfoldable pub is_valid_key : Utf8 → ℕ → Bool
is_valid_key [] maximum_bytes = false
is_valid_key (b ∷ bs) maximum_bytes =
    is_lowercase b && leb (length (b ∷ bs)) maximum_bytes && all is_key_byte bs

-- `new` of each type of keys.
unfoldable pub capability_key : Utf8 → Result NodeCapabilityContractError Utf8
unfolding is_valid_key
capability_key value = if is_valid_key value 64 then ok value else err invalid_key

-- `NodeCapabilityContractId::new`
unfoldable pub contract_id : Utf8 → Result NodeCapabilityContractError Utf8
unfolding is_valid_key split_dots
contract_id value =
    if leb 3 (length value)
      && leb (length value) 128
      && leb 2 (length (split_dots value))
      && all (λ segment. is_valid_key segment 128) (split_dots value)
    then ok value
    else err invalid_contract_id

-- `NodeCapabilityContractVersion::new`
unfoldable pub contract_version : ℕ → ℕ → Result NodeCapabilityContractError (ℕ × ℕ)
contract_version major minor =
    if major == 0 then err invalid_contract_version else ok (major, minor)

unfoldable pub valid_profile_segment : Utf8 → Bool
valid_profile_segment [] = false
valid_profile_segment (b ∷ bs) = is_lowercase b && all is_key_byte bs

-- `NodeCapabilityGenerationProfileRefParameterValue::new`
unfoldable pub generation_profile_ref : Utf8 → ℕ → Result Unit NodeCapabilityParameterValue
unfolding valid_profile_segment split_dots
generation_profile_ref profile_id version =
    if not (
        leb 3 (length profile_id)
        && leb (length profile_id) 128
        && leb 2 (length (split_dots profile_id))
        && all valid_profile_segment (split_dots profile_id))
      || version == 0
    then err tt
    else ok (generation_profile profile_id version)
