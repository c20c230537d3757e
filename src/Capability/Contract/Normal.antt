-- ===== src/Capability/Contract/Normal.antt =====
-- What normalization gives: every declared parameter, and nothing else, in a set that is normal.
use oh_my_dream.Common.{
  ◌≡◌, refl, all, Bool, true, false, not, ◌&&◌, some, List, [], ◌∷◌, map, ok, arith,
}
use oh_my_dream.Common.Bytes.{Utf8, text_ord, list_eq_iff, list_eq_refl}
use oh_my_dream.Common.Maps.{get}
use oh_my_dream.Workflow.Value.{NodeCapabilityContractRef, NodeCapabilityParameterValue}
use oh_my_dream.Capability.Parameter.{NodeCapabilityParameterSet, accepts}
use oh_my_dream.Capability.Contract.{
  NodeCapabilityParameterContract, NodeCapabilityInputContract, NodeCapabilityOutputContract,
  NodeCapabilityExecutionKind, NodeCapabilityContract, contains_text, ensure_unique, try_new,
  declares, value_or_default,
}

abbrev pub unique : List Utf8 → Bool
unique [] = true
unique (k ∷ ks) = not (contains_text k ks) && unique ks

ensure_unique-apart :
    (seen ks : List Utf8) (a : Utf8)
    → ensure_unique seen ks ≡ ok tt
    → contains_text a seen ≡ true
    → contains_text a ks ≡ false
unfolding ensure_unique
ensure_unique-apart seen [] a h c = refl
ensure_unique-apart seen (k ∷ ks) a h c =
    ground (arith, list_eq_iff a k, ensure_unique-apart (k ∷ seen) ks a)

ensure_unique-unique : (seen ks : List Utf8) → ensure_unique seen ks ≡ ok tt → unique ks ≡ true
unfolding ensure_unique
ensure_unique-unique seen [] h = refl
ensure_unique-unique seen (k ∷ ks) h =
    ground (
      arith,
      list_eq_refl k,
      ensure_unique-apart (k ∷ seen) ks k,
      ensure_unique-unique (k ∷ seen) ks,
    )

abbrev keys_of : List NodeCapabilityParameterContract → List Utf8
keys_of = map (λ p. p.key)

pub try_new-unique :
    (r : NodeCapabilityContractRef) (ps : List NodeCapabilityParameterContract)
    (is : List NodeCapabilityInputContract) (os : List NodeCapabilityOutputContract)
    (k : NodeCapabilityExecutionKind) {c : NodeCapabilityContract}
    → try_new r ps is os k ≡ ok c
    → unique (map (λ p. p.key) c.parameters) ≡ true
unfolding try_new
try_new-unique r ps is os k e = ground (arith, ensure_unique-unique [] (keys_of ps))

abbrev declares_each : (all_ps ps : List NodeCapabilityParameterContract) → Bool
declares_each all_ps ps = all (λ p. declares all_ps p.key) ps

-- Each parameter has in `n` the value that `s` supplies or else its default, and accepts it.
abbrev pub IsFilled :
    (s n : NodeCapabilityParameterSet) → List NodeCapabilityParameterContract → Type 0
IsFilled s n [] = Unit
IsFilled s n (p ∷ ps) =
    ((v : NodeCapabilityParameterValue) × (value_or_default (get p.key s) p ≡ ok v)
      × (get p.key n ≡ some v)
      × (accepts p.constraint v ≡ true))
    × IsFilled s n ps
