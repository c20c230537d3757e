-- ===== src/Graph/Receipt/Prefix.antt =====
-- The parts of a fingerprint of crates/engine/src/workflow_graph/mutation_receipt.rs: what stands in
-- front of the rest of the bytes determines the part.
use Prim.Native.Nat.{◌%◌}
use mathlib.Core.List.{append_assoc}
use oh_my_dream.Common.{
  ℕ, ◌^◌, ◌<◌, ◌≡◌, ◌∙◌, refl, sym, ap, Bool, Option, none, some, List, [], ◌∷◌, ◌++◌, length,
  Result, ok, arith,
}
use oh_my_dream.Common.Bytes.{Utf8}
use oh_my_dream.Workflow.Value.{
  WorkflowInputItemEntity, WorkflowInputBinding, single, ordered_references,
}
use oh_my_dream.Tasks.Canonical.{to_be_bytes}
use oh_my_dream.Tasks.Canonical.Prefix.{to_be_bytes_prefix}
use oh_my_dream.Capability.Canonical.{append_variable_bytes}
use oh_my_dream.Graph.Value.{WorkflowInputTarget}
use oh_my_dream.Graph.Aggregate.{Bindings}
use oh_my_dream.Graph.Mutation.Canonical.{key}
use oh_my_dream.Graph.Mutation.Canonical.Read.{IsName, key-append, IsTarget, IsItem, IsRole}
use oh_my_dream.Graph.Receipt.{
  append_role_with_mark, append_item, append_items, append_binding, append_bindings,
}

-- What a reader gives back from equal bytes is equal.
pub read_prefix :
    {E X : Type 0} (read : List ℕ → Result E (X × List ℕ)) (b c : List ℕ) (x y : X) (r s : List ℕ)
    → read b ≡ ok (x, r)
    → read c ≡ ok (y, s)
    → b ≡ c
    → (x ≡ y) × (r ≡ s)
read_prefix read b c x y r s h k e = ground (arith, h, k, e)

tail-eq : {a b : ℕ} {xs ys : List ℕ} → a ∷ xs ≡ b ∷ ys → xs ≡ ys
tail-eq e = ground arith

module _ {P : Type 0} (is_utf8 : List ℕ → Bool) (is_version_four : ℕ → Bool) (to_bits : P → ℕ × ℕ)
    (from_bits : ℕ → ℕ → Option P) where
  key_prefix :
      (k j r s : List ℕ)
      → IsName is_utf8 is_version_four to_bits from_bits k
      → IsName is_utf8 is_version_four to_bits from_bits j
      → append_variable_bytes k ++ r ≡ append_variable_bytes j ++ s
      → (k ≡ j) × (r ≡ s)
  key_prefix k j r s h g =
      read_prefix (key is_utf8 is_version_four to_bits from_bits) _ _ k j r s
        (key-append is_utf8 is_version_four to_bits from_bits k r h)
        (key-append is_utf8 is_version_four to_bits from_bits j s g)

  role_prefix :
      (k j : Option Utf8) (r s : List ℕ)
      → IsRole is_utf8 is_version_four to_bits from_bits k
      → IsRole is_utf8 is_version_four to_bits from_bits j
      → append_role_with_mark k ++ r ≡ append_role_with_mark j ++ s
      → (k ≡ j) × (r ≡ s)
  role_prefix none none r s h g e = (refl, tail-eq e)
  role_prefix none (some j) r s h g e = absurd (ground arith)
  role_prefix (some k) none r s h g e = absurd (ground arith)
  role_prefix (some k) (some j) r s h g e = ground (arith, key_prefix k j r s h g (tail-eq e))

  append_item-split :
      (i : WorkflowInputItemEntity) (r : List ℕ)
      → append_item i ++ r
        ≡ to_be_bytes 16 i.id
          ++ (to_be_bytes 16 i.source_node_id
              ++ (append_variable_bytes i.source_output_key
                  ++ (append_role_with_mark i.input_role_key ++ r)))
  unfolding append_item
  append_item-split i r =
      let output = append_variable_bytes i.source_output_key in
      let mark = append_role_with_mark i.input_role_key in
      ground (
        arith,
        append_assoc (to_be_bytes 16 i.id) (to_be_bytes 16 i.source_node_id ++ (output ++ mark)) r,
        append_assoc (to_be_bytes 16 i.source_node_id) (output ++ mark) r,
        append_assoc output mark r,
      )

  item_prefix :
      (i j : WorkflowInputItemEntity) (r s : List ℕ)
      → IsItem is_utf8 is_version_four to_bits from_bits i
      → IsItem is_utf8 is_version_four to_bits from_bits j
      → append_item i ++ r ≡ append_item j ++ s
      → (i ≡ j) × (r ≡ s)
  item_prefix i j r s h g e =
      let (id, e1) =
        to_be_bytes_prefix 16 i.id j.id _ _ h.0.0 g.0.0
          (sym (append_item-split i r) ∙ (e ∙ append_item-split j s)) in
      let (source, e2) =
        to_be_bytes_prefix 16 i.source_node_id j.source_node_id _ _ h.1.0.0 g.1.0.0 e1 in
      let (output, e3) =
        key_prefix i.source_output_key j.source_output_key _ _ h.1.1.0 g.1.1.0 e2 in
      let (role, e4) = role_prefix i.input_role_key j.input_role_key r s h.1.1.1 g.1.1.1 e3 in
      (ground (arith, id, source, output, role), e4)

  abbrev pub AllItems : List WorkflowInputItemEntity → Type 0
  AllItems [] = Unit
  AllItems (i ∷ is) = IsItem is_utf8 is_version_four to_bits from_bits i × AllItems is

  items_prefix :
      (l m : List WorkflowInputItemEntity) (r s : List ℕ)
      → AllItems l
      → AllItems m
      → length l ≡ length m
      → append_items l ++ r ≡ append_items m ++ s
      → (l ≡ m) × (r ≡ s)
  items_prefix [] [] r s h g n e = (refl, e)
  items_prefix [] (j ∷ js) r s h g n e = absurd (omega arith)
  items_prefix (i ∷ is) [] r s h g n e = absurd (omega arith)
  items_prefix (i ∷ is) (j ∷ js) r s h g n e =
      let (one, e1) = item_prefix i j _ _ h.0 g.0 (
        sym (append_assoc (append_item i) (append_items is) r)
        ∙ (e ∙ append_assoc (append_item j) (append_items js) s)) in
      let (rest, e2) = items_prefix is js r s h.1 g.1 (omega arith) e1 in
      (ground (arith, one, rest), e2)

  -- A binding as its types hold it; an index of the code counts its items.
  abbrev pub IsBinding : WorkflowInputBinding → Type 0
  IsBinding (single i) = IsItem is_utf8 is_version_four to_bits from_bits i
  IsBinding (ordered_references l) = (length l < 256 ^ 8) × AllItems l

  binding_prefix :
      (b c : WorkflowInputBinding) (r s : List ℕ)
      → IsBinding b
      → IsBinding c
      → append_binding b ++ r ≡ append_binding c ++ s
      → (b ≡ c) × (r ≡ s)
  unfolding append_binding
  binding_prefix (single i) (single j) r s h g e =
      let (one, rest) = item_prefix i j r s h g (tail-eq e) in (ap single one, rest)
  binding_prefix (single i) (ordered_references m) r s h g e = absurd (ground arith)
  binding_prefix (ordered_references l) (single j) r s h g e = absurd (ground arith)
  binding_prefix (ordered_references l) (ordered_references m) r s h g e =
      let (count, e1) =
        to_be_bytes_prefix 8 (length l % 2 ^ 64) (length m % 2 ^ 64) (append_items l ++ r)
          (append_items m ++ s) (omega arith) (omega arith)
          (sym (append_assoc (to_be_bytes 8 (length l % 2 ^ 64)) (append_items l) r)
            ∙ (tail-eq e ∙ append_assoc (to_be_bytes 8 (length m % 2 ^ 64)) (append_items m) s)) in
      let (same, rest) = items_prefix l m r s h.1 g.1 (omega (arith, count, h.0, g.0)) e1 in
      (ap ordered_references same, rest)

  -- Every binding and its target are within their types.
  abbrev pub AllBindings : Bindings → Type 0
  AllBindings [] = Unit
  AllBindings ((t, b) ∷ rest) =
      IsTarget is_utf8 is_version_four to_bits from_bits t × (IsBinding b × AllBindings rest)

  append_bindings-split :
      (t : WorkflowInputTarget) (b : WorkflowInputBinding) (rest : Bindings)
      → append_bindings ((t, b) ∷ rest)
        ≡ to_be_bytes 16 t.node_id
          ++ (append_variable_bytes t.input_key ++ (append_binding b ++ append_bindings rest))
  append_bindings-split t b rest = refl

  pub bindings_injective :
      (l m : Bindings)
      → AllBindings l
      → AllBindings m
      → length l ≡ length m
      → append_bindings l ≡ append_bindings m
      → l ≡ m
  bindings_injective [] [] h g n e = refl
  bindings_injective [] ((u, c) ∷ m) h g n e = absurd (omega arith)
  bindings_injective ((t, b) ∷ l) [] h g n e = absurd (omega arith)
  bindings_injective ((t, b) ∷ l) ((u, c) ∷ m) h g n e =
      let (id, e1) = to_be_bytes_prefix 16 t.node_id u.node_id _ _ h.0.0.0 g.0.0.0 e in
      let (name, e2) = key_prefix t.input_key u.input_key _ _ h.0.1 g.0.1 e1 in
      let (bound, e3) = binding_prefix b c _ _ h.1.0 g.1.0 e2 in
      let rest = bindings_injective l m h.1.1 g.1.1 (omega arith) e3 in
      let target : t ≡ u = ground (arith, id, name) in ground (arith, target, bound, rest)
