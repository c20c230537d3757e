-- ===== src/Capability/Canonical.antt =====
-- The canonical bytes of a parameter set, of crates/engine/src/node_capability/parameter.rs, and their
-- decoding in parameter_decode.rs. `is_utf8` is the test of `str::from_utf8`, and `is_version_four` the
-- uuid crate's tests of the version and the variant.
pub mod Read
pub mod RoundTrip
use Prim.Native.Nat.{◌%◌}
use oh_my_dream.Common.{
  ℕ, zero, suc, ◌+◌, ◌*◌, ◌^◌, Bool, true, not, Option, none, some, List, [], ◌∷◌, ◌++◌, length,
  is_empty, list_eq, ltb, ◌==◌, Result, ok, err, ensure, ◌>>=◌, ◌>>◌, if◌then◌else◌,
}
use oh_my_dream.Common.Bytes.{Utf8, lex_lt, text_ord}
use oh_my_dream.Common.Maps.{insert}
use oh_my_dream.Workflow.Value.{
  NodeCapabilityParameterValue, unsigned_integer, text, choice, generation_profile, managed_asset,
}
use oh_my_dream.Tasks.Canonical.{to_be_bytes}
use oh_my_dream.Capability.Key.{capability_key, generation_profile_ref}
use oh_my_dream.Capability.Parameter.{NodeCapabilityParameterSet}
use oh_my_dream.Capability.Contract.{map_err}

-- The length goes through `as u32`.
unfoldable pub append_variable_bytes : Utf8 → List ℕ
append_variable_bytes value = to_be_bytes 4 (length value % 2 ^ 32) ++ value

unfoldable pub append_parameter_value : NodeCapabilityParameterValue → List ℕ
unfolding append_variable_bytes
append_parameter_value (unsigned_integer value) = 0 ∷ to_be_bytes 8 value
append_parameter_value (text value) = 1 ∷ append_variable_bytes value
append_parameter_value (choice value) = 2 ∷ append_variable_bytes value
append_parameter_value (generation_profile profile_id version) =
    3 ∷ (append_variable_bytes profile_id ++ to_be_bytes 4 version)
append_parameter_value (managed_asset asset_id) = 4 ∷ to_be_bytes 16 asset_id

unfoldable pub append_entries : NodeCapabilityParameterSet → List ℕ
unfolding append_parameter_value
append_entries [] = []
append_entries ((key, value) ∷ rest) =
    append_variable_bytes key ++ (append_parameter_value value ++ append_entries rest)

unfoldable pub canonical_bytes : NodeCapabilityParameterSet → List ℕ
unfolding append_entries
canonical_bytes values = to_be_bytes 4 (length values % 2 ^ 32) ++ append_entries values

pub data DecodeErrorCategory : Type 0 where
  input_too_large truncated value_too_large invalid_utf8 invalid_key : DecodeErrorCategory
  invalid_boundary_value parameter_set_too_large non_canonical_key_order : DecodeErrorCategory
  unknown_value_tag trailing_bytes non_canonical_encoding : DecodeErrorCategory

pub record DecodeError : Type 0 where
  pub category : DecodeErrorCategory
  pub offset : ℕ

abbrev pub decode_error : DecodeErrorCategory → ℕ → DecodeError
decode_error category offset = record { category = category; offset = offset }

-- The bytes from the offset on.
pub record Decoder : Type 0 where
  pub rest : List ℕ
  pub offset : ℕ

abbrev pub take : ℕ → List ℕ → List ℕ
take zero xs = []
take (suc n) [] = []
take (suc n) (x ∷ xs) = x ∷ take n xs

abbrev pub drop : ℕ → List ℕ → List ℕ
drop zero xs = xs
drop (suc n) [] = []
drop (suc n) (x ∷ xs) = drop n xs

abbrev pub Read : Type 0 → Type 0
Read A = Result DecodeError (A × Decoder)

unfoldable pub read_exact : ℕ → Decoder → Read (List ℕ)
read_exact count d =
    if ltb (length d.rest) count
    then err (decode_error truncated d.offset)
    else ok (take count d.rest, record { rest = drop count d.rest; offset = d.offset + count })

-- `from_be_bytes`
unfoldable pub from_be_bytes : ℕ → List ℕ → ℕ
from_be_bytes high [] = high
from_be_bytes high (b ∷ bs) = from_be_bytes (high * 256 + b) bs

-- `read_u32` for four bytes and `read_u64` for eight.
unfoldable pub read_integer : ℕ → Decoder → Read ℕ
unfolding read_exact from_be_bytes
read_integer size d = do bytes ← read_exact size d; ok (from_be_bytes 0 bytes.0, bytes.1)

abbrev pub max_canonical_bytes : ℕ
max_canonical_bytes = 1024 * 1024

abbrev pub max_variable_bytes : ℕ
max_variable_bytes = 64 * 1024

module _ (is_utf8 : List ℕ → Bool) (is_version_four : ℕ → Bool) where
  unfoldable pub read_string : Decoder → Read Utf8
  unfolding read_integer
  read_string d = do
    size ← read_integer 4 d
    ensure (not (ltb max_variable_bytes size.0)) (decode_error value_too_large d.offset)
    value ← read_exact size.0 size.1
    ensure (is_utf8 value.0) (decode_error invalid_utf8 d.offset)
    ok value

  -- The `new` of a key, whose error becomes one of decoding.
  unfoldable pub read_parameter_key : Decoder → Read Utf8
  unfolding read_string
  read_parameter_key d = do
    value ← read_string d
    key ← map_err (λ e. decode_error invalid_key d.offset) (capability_key value.0)
    ok (key, value.1)

  unfoldable pub read_choice : Decoder → Read NodeCapabilityParameterValue
  unfolding read_parameter_key
  read_choice d = do key ← read_parameter_key d; ok (choice key.0, key.1)

  unfoldable pub read_generation_profile : Decoder → Read NodeCapabilityParameterValue
  unfolding read_string
  read_generation_profile d = do
    profile_id ← read_string d
    version ← read_integer 4 profile_id.1
    value ←
        map_err (λ e. decode_error invalid_boundary_value d.offset)
          (generation_profile_ref profile_id.0 version.0)
    ok (value, version.1)

  unfoldable pub read_managed_asset : Decoder → Read NodeCapabilityParameterValue
  unfolding read_integer
  read_managed_asset d = do
    asset_id ← read_integer 16 d
    ensure (is_version_four asset_id.0) (decode_error invalid_boundary_value d.offset)
    ok (managed_asset asset_id.0, asset_id.1)

  unfoldable pub read_unsigned_integer : Decoder → Read NodeCapabilityParameterValue
  read_unsigned_integer d = do value ← read_integer 8 d; ok (unsigned_integer value.0, value.1)

  unfoldable pub read_text : Decoder → Read NodeCapabilityParameterValue
  read_text d = do value ← read_string d; ok (text value.0, value.1)

  -- The `match` on the tag at `tag_offset`.
  unfoldable pub read_tagged : ℕ → ℕ → Decoder → Read NodeCapabilityParameterValue
  unfolding read_unsigned_integer read_text read_choice read_generation_profile read_managed_asset
  read_tagged tag tag_offset d =
      if tag == 0
      then read_unsigned_integer d
      else if tag == 1
      then read_text d
      else if tag == 2
      then read_choice d
      else if tag == 3
      then read_generation_profile d
      else if tag == 4
      then read_managed_asset d
      else err (decode_error unknown_value_tag tag_offset)

  unfoldable pub read_parameter_value : Decoder → Read NodeCapabilityParameterValue
  unfolding read_tagged
  read_parameter_value d = do tag ← read_integer 1 d; read_tagged tag.0 d.offset tag.1

  abbrev pub follows : Option Utf8 → Utf8 → Bool
  follows none key = true
  follows (some previous) key = lex_lt previous key

  -- The loop over the entries.
  unfoldable pub read_entries :
      ℕ → Option Utf8 → NodeCapabilityParameterSet → Decoder → Read NodeCapabilityParameterSet
  unfolding read_parameter_value
  read_entries zero previous_key values d = ok (values, d)
  read_entries (suc count) previous_key values d = do
    key ← read_parameter_key d
    ensure (follows previous_key key.0) (decode_error non_canonical_key_order d.offset)
    value ← read_parameter_value key.1
    read_entries count (some key.0) (insert key.0 value.0 values) value.1

  unfoldable pub try_from_canonical_bytes : List ℕ → Result DecodeError NodeCapabilityParameterSet
  try_from_canonical_bytes bytes = do
    ensure (not (ltb max_canonical_bytes (length bytes))) (decode_error input_too_large 0)
    count ← read_integer 4 (record { rest = bytes; offset = 0 })
    ensure (not (ltb 64 count.0)) (decode_error parameter_set_too_large count.1.offset)
    values ← read_entries count.0 none [] count.1
    ensure (is_empty values.1.rest) (decode_error trailing_bytes values.1.offset)
    ensure (not (ltb 64 (length values.0))) (decode_error parameter_set_too_large values.1.offset)
    ensure (list_eq (canonical_bytes values.0) bytes) (decode_error non_canonical_encoding 0)
    ok values.0
