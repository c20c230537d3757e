-- ===== src/Graph/Mutation/Canonical/Read.antt =====
-- Each reader of a part gives back what was appended, and leaves what stands behind it.
use Prim.Native.Nat.{◌%◌}
use mathlib.Core.List.{append_assoc}
use oh_my_dream.Common.{
  ℕ, ◌^◌, ◌≤◌, ◌<◌, ◌≡◌, refl, subst, Bool, true, Option, none, some, List, ◌∷◌, ◌++◌, length,
  length-append, ok, arith,
}
use oh_my_dream.Common.Bytes.{Utf8, text_ord}
use oh_my_dream.Common.Maps.{IsSorted}
use oh_my_dream.Workflow.Value.{NodeCapabilityContractRef, WorkflowInputItemEntity}
use oh_my_dream.Tasks.Canonical.{to_be_bytes}
use oh_my_dream.Tasks.Canonical.Prefix.{length-to_be_bytes}
use oh_my_dream.Capability.Key.{capability_key, contract_id, contract_version}
use oh_my_dream.Capability.Parameter.{NodeCapabilityParameterSet}
use oh_my_dream.Capability.Canonical.{
  append_variable_bytes, canonical_bytes, max_canonical_bytes, from_be_bytes,
}
use oh_my_dream.Capability.Canonical.Read.{take-append, drop-append, from_be_bytes-to_be_bytes}
use oh_my_dream.Capability.Canonical.RoundTrip.{AllValues, try_from_canonical_bytes-canonical_bytes}
use oh_my_dream.Graph.Value.{WorkflowInputTarget, is_some}
use oh_my_dream.Graph.Mutation.Canonical.{
  append_contract_ref, append_parameters, append_node_id, append_target, append_role, append_item,
  append_position, take_bytes, integer, variable_bytes, identity, string, key, contract_ref,
  parameters, position, target, role, item,
}

take_bytes-append : (xs r : List ℕ) → take_bytes (length xs) (xs ++ r) ≡ ok (xs, r)
unfolding take_bytes
take_bytes-append xs r = ground (arith, take-append xs r, drop-append xs r, length-append xs r)

pub integer-append :
    (k n : ℕ) (r : List ℕ) → n < 256 ^ k → integer k (to_be_bytes k n ++ r) ≡ ok (n, r)
unfolding integer
integer-append k n r h =
    let x : take_bytes k (to_be_bytes k n ++ r) ≡ ok (to_be_bytes k n, r) =
      subst (λ c. take_bytes c (to_be_bytes k n ++ r) ≡ ok (to_be_bytes k n, r))
        (length-to_be_bytes k n) (take_bytes-append (to_be_bytes k n) r) in
    ground (arith, x, from_be_bytes-to_be_bytes k n)

pub integer-tag : (b : ℕ) (r : List ℕ) → integer 1 (b ∷ r) ≡ ok (b, r)
unfolding integer take_bytes from_be_bytes
integer-tag b r = ground arith

variable_bytes-append :
    (t r : List ℕ) → length t < 256 ^ 4 → variable_bytes (append_variable_bytes t ++ r) ≡ ok (t, r)
unfolding variable_bytes append_variable_bytes
variable_bytes-append t r h =
    let same : length t % 2 ^ 32 ≡ length t = omega arith in
    ground (
      arith,
      same,
      append_assoc (to_be_bytes 4 (length t)) t r,
      integer-append 4 (length t) (t ++ r),
      take_bytes-append t r,
    )

module _ {P : Type 0} (is_utf8 : List ℕ → Bool) (is_version_four : ℕ → Bool) (to_bits : P → ℕ × ℕ)
    (from_bits : ℕ → ℕ → Option P) where
  abbrev pub IsIdentity : ℕ → Type 0
  IsIdentity n = (n < 256 ^ 16) × (is_version_four n ≡ true)

  pub identity-append :
      (n : ℕ) (r : List ℕ)
      → IsIdentity n
      → identity is_utf8 is_version_four to_bits from_bits (to_be_bytes 16 n ++ r) ≡ ok (n, r)
  unfolding identity
  identity-append n r h = ground (arith, integer-append 16 n r h.0, h.1)

  abbrev pub IsText : Utf8 → Type 0
  IsText t = (length t < 256 ^ 4) × (is_utf8 t ≡ true)

  pub string-append :
      (t r : List ℕ)
      → IsText t
      → string is_utf8 is_version_four to_bits from_bits (append_variable_bytes t ++ r) ≡ ok (t, r)
  unfolding string
  string-append t r h = ground (arith, variable_bytes-append t r h.0, h.1)

  abbrev pub IsName : Utf8 → Type 0
  IsName k = IsText k × (capability_key k ≡ ok k)

  pub key-append :
      (k r : List ℕ)
      → IsName k
      → key is_utf8 is_version_four to_bits from_bits (append_variable_bytes k ++ r) ≡ ok (k, r)
  unfolding key
  key-append k r h = ground (arith, string-append k r h.0, h.1)

  abbrev pub IsContractRef : NodeCapabilityContractRef → Type 0
  IsContractRef c =
      IsText c.id
      × ((contract_id c.id ≡ ok c.id)
          × ((c.major < 256 ^ 2)
              × ((c.minor < 256 ^ 2) × (contract_version c.major c.minor ≡ ok (c.major, c.minor)))))

  pub contract_ref-append :
      (c : NodeCapabilityContractRef) (r : List ℕ)
      → IsContractRef c
      → contract_ref is_utf8 is_version_four to_bits from_bits (append_contract_ref c ++ r)
        ≡ ok (c, r)
  unfolding contract_ref append_contract_ref
  contract_ref-append c r h =
      let rest = to_be_bytes 2 c.major ++ (to_be_bytes 2 c.minor ++ r) in
      ground (
        arith,
        append_assoc (append_variable_bytes c.id) (to_be_bytes 2 c.major ++ to_be_bytes 2 c.minor)
            r,
        append_assoc (to_be_bytes 2 c.major) (to_be_bytes 2 c.minor) r,
        string-append c.id rest h.0,
        h.1.0,
        integer-append 2 c.major (to_be_bytes 2 c.minor ++ r) h.1.1.0,
        integer-append 2 c.minor r h.1.1.1.0,
        h.1.1.1.1,
      )

  abbrev pub IsParameterSet : NodeCapabilityParameterSet → Type 0
  IsParameterSet s =
      IsSorted s
      × (AllValues is_utf8 is_version_four s
          × ((length s ≤ 64) × (length (canonical_bytes s) ≤ max_canonical_bytes)))

  pub parameters-append :
      (s : NodeCapabilityParameterSet) (r : List ℕ)
      → IsParameterSet s
      → parameters is_utf8 is_version_four to_bits from_bits (append_parameters s ++ r) ≡ ok (s, r)
  unfolding parameters append_parameters
  parameters-append s r h = ground (
    arith,
    variable_bytes-append (canonical_bytes s) r (omega (arith, h.1.1.1)),
    try_from_canonical_bytes-canonical_bytes is_utf8 is_version_four s h.0 h.1.0 h.1.1.0 h.1.1.1,
  )

  abbrev pub IsPosition : P → Type 0
  IsPosition p =
      ((to_bits p).0 < 256 ^ 8)
      × (((to_bits p).1 < 256 ^ 8) × (from_bits (to_bits p).0 (to_bits p).1 ≡ some p))

  pub position-append :
      (p : P) (r : List ℕ)
      → IsPosition p
      → position is_utf8 is_version_four to_bits from_bits
          (append_position is_utf8 is_version_four to_bits from_bits p ++ r)
        ≡ ok (p, r)
  unfolding position append_position
  position-append p r h = ground (
    arith,
    append_assoc (to_be_bytes 8 (to_bits p).0) (to_be_bytes 8 (to_bits p).1) r,
    integer-append 8 (to_bits p).0 (to_be_bytes 8 (to_bits p).1 ++ r) h.0,
    integer-append 8 (to_bits p).1 r h.1.0,
    h.1.1,
  )

  abbrev pub IsTarget : WorkflowInputTarget → Type 0
  IsTarget t = IsIdentity t.node_id × IsName t.input_key

  pub target-append :
      (t : WorkflowInputTarget) (r : List ℕ)
      → IsTarget t
      → target is_utf8 is_version_four to_bits from_bits (append_target t ++ r) ≡ ok (t, r)
  unfolding target append_target append_node_id
  target-append t r h = ground (
    arith,
    append_assoc (to_be_bytes 16 t.node_id) (append_variable_bytes t.input_key) r,
    identity-append t.node_id (append_variable_bytes t.input_key ++ r) h.0,
    key-append t.input_key r h.1,
  )

  abbrev pub IsRole : Option Utf8 → Type 0
  IsRole none = Unit
  IsRole (some k) = IsName k

  role-append :
      (k : Option Utf8) (r : List ℕ)
      → IsRole k
      → role is_utf8 is_version_four to_bits from_bits (is_some k) (append_role k ++ r) ≡ ok (k, r)
  role-append none r h = refl
  role-append (some k) r h = ground (arith, key-append k r h)

  abbrev pub IsItem : WorkflowInputItemEntity → Type 0
  IsItem i =
      IsIdentity i.id
      × (IsIdentity i.source_node_id × (IsName i.source_output_key × IsRole i.input_role_key))

  pub item-append :
      (i : WorkflowInputItemEntity) (r : List ℕ)
      → IsItem i
      → item is_utf8 is_version_four to_bits from_bits
          (is_some i.input_role_key)
          (append_item i ++ r)
        ≡ ok (i, r)
  unfolding item append_item append_node_id
  item-append i r h =
      let last = append_role i.input_role_key ++ r in
      let output = append_variable_bytes i.source_output_key in
      ground (
        arith,
        append_assoc (to_be_bytes 16 i.id)
            (to_be_bytes 16 i.source_node_id ++ (output ++ append_role i.input_role_key)) r,
        append_assoc (to_be_bytes 16 i.source_node_id) (output ++ append_role i.input_role_key) r,
        append_assoc output (append_role i.input_role_key) r,
        identity-append i.id (to_be_bytes 16 i.source_node_id ++ (output ++ last)) h.0,
        identity-append i.source_node_id (output ++ last) h.1.0,
        key-append i.source_output_key last h.1.1.0,
        role-append i.input_role_key r h.1.1.1,
      )
