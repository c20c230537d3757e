-- ===== src/Capability/Canonical/RoundTrip.antt =====
-- Decoding the canonical bytes of a set gives the set.
use Prim.Native.Nat.{◌%◌}
use mathlib.Core.List.{append_assoc, append-nil}
use oh_my_dream.Common.{
  ℕ, ◌^◌, ◌≤◌, ◌≡◌, refl, ap, ◌∙◌, Bool, true, Option, none, some, List, [], ◌∷◌, ◌++◌, length, ok,
  arith,
}
use oh_my_dream.Common.Bytes.{Utf8, text_ord, list_eq_refl}
use oh_my_dream.Common.Maps.{IsSorted, insert_last, below_of_IsSorted}
use oh_my_dream.Workflow.Value.{NodeCapabilityParameterValue}
use oh_my_dream.Tasks.Canonical.{to_be_bytes}
use oh_my_dream.Capability.Parameter.{NodeCapabilityParameterSet}
use oh_my_dream.Capability.Canonical.{
  append_parameter_value, append_entries, canonical_bytes, max_canonical_bytes, read_integer,
  follows, read_entries, try_from_canonical_bytes,
}
use oh_my_dream.Capability.Canonical.Read.{
  IsRead, at, read_integer-IsRead, IsKey, IsValue, read_parameter_key-IsRead,
  read_parameter_value-IsRead,
}

module _ (is_utf8 : List ℕ → Bool) (is_version_four : ℕ → Bool) where
  -- Every key and value is one of its type, with at most 64 KiB in each text and profile identity.
  abbrev pub AllValues : NodeCapabilityParameterSet → Type 0
  AllValues [] = Unit
  AllValues ((k, v) ∷ s) =
      IsKey is_utf8 is_version_four k × (IsValue is_utf8 is_version_four v × AllValues s)

  -- The next key of the set follows the one before.
  abbrev next_follows : Option Utf8 → NodeCapabilityParameterSet → Bool
  next_follows previous [] = true
  next_follows previous ((k, v) ∷ s) = follows is_utf8 is_version_four previous k

  IsSorted-next_follows :
      (k : Utf8) (v : NodeCapabilityParameterValue) (m s : NodeCapabilityParameterSet)
      → IsSorted (m ++ (k, v) ∷ s)
      → next_follows (some k) s ≡ true
  IsSorted-next_follows k v [] [] o = refl
  IsSorted-next_follows k v [] ((j, w) ∷ s) o = ground arith
  IsSorted-next_follows k v ((i, x) ∷ m) s o = IsSorted-next_follows k v m s o.1

  read_entries-IsRead :
      (previous : Option Utf8) (m s : NodeCapabilityParameterSet) (o : ℕ)
      → IsSorted (m ++ s)
      → next_follows previous s ≡ true
      → AllValues s
      → IsRead
          (read_entries is_utf8 is_version_four (length s) previous m (at (append_entries s) o))
          (m ++ s)
          []
  unfolding read_entries append_entries
  read_entries-IsRead previous m [] o sorted next h = record { end = o; same = rw append-nil refl }
  read_entries-IsRead previous m ((k, v) ∷ s) o sorted next h =
      let key =
        read_parameter_key-IsRead is_utf8 is_version_four k
          (append_parameter_value v ++ append_entries s) o h.0 in
      let value =
        read_parameter_value-IsRead is_utf8 is_version_four v (append_entries s) key.end h.1.0 in
      let last = insert_last k v m (below_of_IsSorted k v m s sorted) in
      let rest =
        read_entries-IsRead (some k) (m ++ (k, v) ∷ []) s value.end (rw append_assoc sorted)
          (IsSorted-next_follows k v m s sorted) h.1.1 in
      record {
        end = rest.end;
        same =
            ground (arith, key.same, value.same, last, rest.same, append_assoc m ((k, v) ∷ []) s);
      }

  next_follows-none : (s : NodeCapabilityParameterSet) → next_follows none s ≡ true
  next_follows-none [] = refl
  next_follows-none ((k, v) ∷ s) = refl

  -- The bytes behind the count are read as the set.
  canonical_bytes-split :
      (s : NodeCapabilityParameterSet)
      → length s ≤ 64
      → canonical_bytes s ≡ to_be_bytes 4 (length s) ++ append_entries s
  unfolding canonical_bytes
  canonical_bytes-split s few =
      let same : length s % 2 ^ 32 ≡ length s = omega arith in
      ap (λ n. to_be_bytes 4 n ++ append_entries s) same

  -- A set in the order of its keys, of at most 64 values of their types, with at most 64 KiB in each
  -- text, key and profile identity and at most one MiB of canonical bytes, is decoded from these bytes
  -- as it was.
  pub try_from_canonical_bytes-canonical_bytes :
      (s : NodeCapabilityParameterSet)
      → IsSorted s
      → AllValues s
      → length s ≤ 64
      → length (canonical_bytes s) ≤ max_canonical_bytes
      → try_from_canonical_bytes is_utf8 is_version_four (canonical_bytes s) ≡ ok s
  unfolding try_from_canonical_bytes
  try_from_canonical_bytes-canonical_bytes s sorted h few short =
      let split = canonical_bytes-split s few in
      let count = read_integer-IsRead 4 (length s) (append_entries s) 0 (omega arith) in
      let count' : read_integer 4 (at (canonical_bytes s) 0)
          ≡ ok (length s, at (append_entries s) count.end) =
        ap (λ b. read_integer 4 (at b 0)) split ∙ count.same in
      let values = read_entries-IsRead none [] s count.end sorted (next_follows-none s) h in
      ground (arith, count', values.same, list_eq_refl (canonical_bytes s))
