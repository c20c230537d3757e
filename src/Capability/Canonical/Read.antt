-- ===== src/Capability/Canonical/Read.antt =====
-- Each reader gives back what was appended and stands behind it.
use Prim.Native.Nat.{◌/◌, ◌%◌}
use mathlib.Core.List.{append_assoc}
use native.Mathlib.Nat.{pow-suc}
use oh_my_dream.Common.{
  ℕ, zero, suc, ◌+◌, ◌*◌, ◌^◌, ◌<◌, ◌≡◌, refl, subst, Bool, true, not, ◌&&◌, List, [], ◌∷◌, ◌++◌,
  length, length-append, ltb, ok, arith,
}
use oh_my_dream.Common.Bytes.{Utf8}
use oh_my_dream.Workflow.Value.{
  NodeCapabilityParameterValue, unsigned_integer, text, choice, generation_profile, managed_asset,
}
use oh_my_dream.Tasks.Canonical.{to_be_bytes}
use oh_my_dream.Tasks.Canonical.Prefix.{length-to_be_bytes}
use oh_my_dream.Capability.Key.{capability_key, generation_profile_ref}
use oh_my_dream.Capability.Canonical.{
  append_variable_bytes, append_parameter_value, Decoder, take, drop, Read, read_exact,
  from_be_bytes, read_integer, max_variable_bytes, read_string, read_parameter_key,
  read_unsigned_integer, read_text, read_choice, read_generation_profile, read_managed_asset,
  read_tagged, read_parameter_value,
}

pub take-append : (xs ys : List ℕ) → take (length xs) (xs ++ ys) ≡ xs
take-append [] ys = refl
take-append (x ∷ xs) ys = ground (arith, take-append xs ys)

pub drop-append : (xs ys : List ℕ) → drop (length xs) (xs ++ ys) ≡ ys
drop-append [] ys = refl
drop-append (x ∷ xs) ys = ground (arith, drop-append xs ys)

from_be_bytes-append :
    (high : ℕ) (xs : List ℕ) (b : ℕ)
    → from_be_bytes high (xs ++ b ∷ []) ≡ from_be_bytes high xs * 256 + b
unfolding from_be_bytes
from_be_bytes-append high [] b = omega arith
from_be_bytes-append high (x ∷ xs) b = from_be_bytes-append (high * 256 + x) xs b

pub from_be_bytes-to_be_bytes : (k n : ℕ) → n < 256 ^ k → from_be_bytes 0 (to_be_bytes k n) ≡ n
unfolding from_be_bytes to_be_bytes
from_be_bytes-to_be_bytes zero n h = omega arith
from_be_bytes-to_be_bytes (suc k) n h = omega (
  arith,
  pow-suc 256 k,
  from_be_bytes-append 0 (to_be_bytes k (n / 256)) (n % 256),
  from_be_bytes-to_be_bytes k (n / 256) (omega (arith, pow-suc 256 k)),
)

-- A reader returned a value, with these bytes left.
pub record IsRead {A : Type 0} (run : Read A) (value : A) (rest : List ℕ) : Type 0 where
  pub end : ℕ
  pub same : run ≡ ok (value, record { rest = rest; offset = end })

abbrev pub at : List ℕ → ℕ → Decoder
at bytes offset = record { rest = bytes; offset = offset }

read_exact-IsRead : (xs r : List ℕ) (o : ℕ) → IsRead (read_exact (length xs) (at (xs ++ r) o)) xs r
unfolding read_exact
read_exact-IsRead xs r o = record {
  end = o + length xs;
  same = ground (arith, take-append xs r, drop-append xs r, length-append xs r);
}

pub read_integer-IsRead :
    (k n : ℕ) (r : List ℕ) (o : ℕ)
    → n < 256 ^ k
    → IsRead (read_integer k (at (to_be_bytes k n ++ r) o)) n r
unfolding read_integer
read_integer-IsRead k n r o h =
    let x = read_exact-IsRead (to_be_bytes k n) r o in
    let x' : read_exact k (at (to_be_bytes k n ++ r) o) ≡ ok (to_be_bytes k n, at r x.end) =
      subst (λ c. read_exact c (at (to_be_bytes k n ++ r) o) ≡ ok (to_be_bytes k n, at r x.end))
        (length-to_be_bytes k n) x.same in
    record { end = x.end; same = ground (arith, x', from_be_bytes-to_be_bytes k n) }

read_integer_tag :
    (b : ℕ) (r : List ℕ) (o : ℕ) → read_integer 1 (at (b ∷ r) o) ≡ ok (b, at r (o + 1))
unfolding read_integer read_exact from_be_bytes
read_integer_tag b r o = ground arith

module _ (is_utf8 : List ℕ → Bool) (is_version_four : ℕ → Bool) where
  -- What the type `String` and the bound on variable bytes ask for.
  abbrev pub is_string : Utf8 → Bool
  is_string t = is_utf8 t && not (ltb max_variable_bytes (length t))

  read_string-IsRead :
      (t : Utf8) (r : List ℕ) (o : ℕ)
      → is_string t ≡ true
      → IsRead (read_string is_utf8 is_version_four (at (append_variable_bytes t ++ r) o)) t r
  unfolding read_string append_variable_bytes
  read_string-IsRead t r o h =
      let short : length t < 256 ^ 4 = ground arith in
      let same : length t % 2 ^ 32 ≡ length t = omega arith in
      let size = read_integer-IsRead 4 (length t) (t ++ r) o short in
      let value = read_exact-IsRead t r size.end in
      record {
        end = value.end;
        same =
            ground
              (arith, same, append_assoc (to_be_bytes 4 (length t)) t r, size.same, value.same);
      }

  abbrev pub IsKey : Utf8 → Type 0
  IsKey k = (is_string k ≡ true) × (capability_key k ≡ ok k)

  pub read_parameter_key-IsRead :
      (k : Utf8) (r : List ℕ) (o : ℕ)
      → IsKey k
      → IsRead
          (read_parameter_key is_utf8 is_version_four (at (append_variable_bytes k ++ r) o))
          k
          r
  unfolding read_parameter_key
  read_parameter_key-IsRead k r o h =
      let s = read_string-IsRead k r o h.0 in
      record { end = s.end; same = ground (arith, s.same, h.1) }

  -- What the types of the values ask for, and at most 64 KiB in a text or a profile identity.
  abbrev pub IsValue : NodeCapabilityParameterValue → Type 0
  IsValue (unsigned_integer n) = n < 256 ^ 8
  IsValue (text t) = is_string t ≡ true
  IsValue (choice k) = IsKey k
  IsValue (generation_profile p v) =
      (is_string p ≡ true)
      × ((v < 256 ^ 4) × (generation_profile_ref p v ≡ ok (generation_profile p v)))
  IsValue (managed_asset a) = (a < 256 ^ 16) × (is_version_four a ≡ true)

  pub read_parameter_value-IsRead :
      (v : NodeCapabilityParameterValue) (r : List ℕ) (o : ℕ)
      → IsValue v
      → IsRead
          (read_parameter_value is_utf8 is_version_four (at (append_parameter_value v ++ r) o))
          v
          r
  unfolding read_parameter_value read_tagged read_unsigned_integer read_text read_choice
      read_generation_profile read_managed_asset append_parameter_value
  read_parameter_value-IsRead (unsigned_integer n) r o h =
      let s = read_integer-IsRead 8 n r (o + 1) h in
      record {
        end = s.end;
        same = ground (arith, read_integer_tag 0 (to_be_bytes 8 n ++ r) o, s.same);
      }
  read_parameter_value-IsRead (text t) r o h =
      let s = read_string-IsRead t r (o + 1) h in
      record {
        end = s.end;
        same = ground (arith, read_integer_tag 1 (append_variable_bytes t ++ r) o, s.same);
      }
  read_parameter_value-IsRead (choice k) r o h =
      let s = read_parameter_key-IsRead k r (o + 1) h in
      record {
        end = s.end;
        same = ground (arith, read_integer_tag 2 (append_variable_bytes k ++ r) o, s.same);
      }
  read_parameter_value-IsRead (generation_profile p v) r o h =
      let s = read_string-IsRead p (to_be_bytes 4 v ++ r) (o + 1) h.0 in
      let t = read_integer-IsRead 4 v r s.end h.1.0 in
      record {
        end = t.end;
        same = ground (
          arith,
          append_assoc (append_variable_bytes p) (to_be_bytes 4 v) r,
          read_integer_tag 3 (append_variable_bytes p ++ (to_be_bytes 4 v ++ r)) o,
          s.same,
          t.same,
        );
      }
  read_parameter_value-IsRead (managed_asset a) r o h =
      let s = read_integer-IsRead 16 a r (o + 1) h.0 in
      record {
        end = s.end;
        same = ground (arith, read_integer_tag 4 (to_be_bytes 16 a ++ r) o, s.same);
      }
