-- ===== src/Capability/Registry.antt =====
-- crates/engine/src/node_capability/registry.rs. An implementation is what the graph reads of it: its
-- contract and its normalization of parameters.
use oh_my_dream.Common.{
  ◌≡◌, ◌↔◌, Bool, true, false, ◌&&◌, ◌||◌, List, [], ◌∷◌, list_eq, ltb, ◌==◌, Result, ok, err,
  ok_or, if◌then◌else◌, map, arith,
}
use oh_my_dream.Common.Bytes.{Ord, lex_lt, list_eq_iff, lex_lt_irrefl, lex_lt_trans, lex_lt_total}
use oh_my_dream.Common.Maps.{BTreeMap, get, insert, contains_key}
use oh_my_dream.Workflow.Value.{NodeCapabilityContractRef}
use oh_my_dream.Capability.Parameter.{NodeCapabilityParameterSet}
use oh_my_dream.Capability.Contract.{NodeCapabilityContract, NodeCapabilityParameterError}

pub record WorkflowNodeCapabilityInterface : Type 0 where
  pub node_capability_contract : NodeCapabilityContract
  pub normalize_node_parameters :
      NodeCapabilityParameterSet → Result NodeCapabilityParameterError NodeCapabilityParameterSet

abbrev pub ref_eq : NodeCapabilityContractRef → NodeCapabilityContractRef → Bool
ref_eq a b = list_eq a.id b.id && a.major == b.major && a.minor == b.minor

-- The derived order: the id, then the version.
abbrev pub ref_lt : NodeCapabilityContractRef → NodeCapabilityContractRef → Bool
ref_lt a b =
    lex_lt a.id b.id
    || (list_eq a.id b.id && (ltb a.major b.major || (a.major == b.major && ltb a.minor b.minor)))

pub ref_eq_iff : (a b : NodeCapabilityContractRef) → (ref_eq a b ≡ true) ↔ (a ≡ b)
ref_eq_iff a b = ground (arith, list_eq_iff a.id b.id)

pub ref_lt_irrefl : (a : NodeCapabilityContractRef) → ref_lt a a ≡ false
ref_lt_irrefl a = ground (arith, lex_lt_irrefl a.id)

pub ref_lt_trans :
    (a b c : NodeCapabilityContractRef) → ref_lt a b ≡ true → ref_lt b c ≡ true → ref_lt a c ≡ true
ref_lt_trans a b c h k = ground (
  arith,
  lex_lt_trans a.id b.id c.id,
  list_eq_iff a.id b.id,
  list_eq_iff b.id c.id,
  list_eq_iff a.id c.id,
)

pub ref_lt_total :
    (a b : NodeCapabilityContractRef) → ref_eq a b ≡ false → ref_lt a b ≡ false → ref_lt b a ≡ true
ref_lt_total a b h k =
    ground (arith, lex_lt_total a.id b.id, list_eq_iff a.id b.id, list_eq_iff b.id a.id)

instance abbrev pub ref_ord : Ord NodeCapabilityContractRef
ref_ord = record {
  eq = ref_eq;
  lt = ref_lt;
  eq_iff = ref_eq_iff;
  irrefl = ref_lt_irrefl;
  trans = ref_lt_trans;
  total = ref_lt_total;
}

pub data NodeCapabilityRegistryError : Type 0 where
  duplicate_contract_ref : NodeCapabilityContractRef → NodeCapabilityRegistryError
  contract_not_registered : NodeCapabilityContractRef → NodeCapabilityRegistryError

abbrev pub WorkflowNodeCapabilityRegistry : Type 0
WorkflowNodeCapabilityRegistry = BTreeMap NodeCapabilityContractRef WorkflowNodeCapabilityInterface

unfoldable pub register_onto :
    List WorkflowNodeCapabilityInterface
    → WorkflowNodeCapabilityRegistry
    → Result NodeCapabilityRegistryError WorkflowNodeCapabilityRegistry
register_onto [] by_ref = ok by_ref
register_onto (i ∷ rest) by_ref =
    let contract_ref = i.node_capability_contract.contract_ref in
    let next = register_onto rest (insert contract_ref i by_ref) in
    if contains_key contract_ref by_ref then err (duplicate_contract_ref contract_ref) else next

-- `WorkflowNodeCapabilityRegistry::try_new`
unfoldable pub registry :
    List WorkflowNodeCapabilityInterface
    → Result NodeCapabilityRegistryError WorkflowNodeCapabilityRegistry
unfolding register_onto
registry implementations = register_onto implementations []

unfoldable pub list_node_capability_contracts :
    WorkflowNodeCapabilityRegistry → List NodeCapabilityContract
list_node_capability_contracts = map (λ e. e.1.node_capability_contract)

unfoldable pub resolve_node_capability :
    WorkflowNodeCapabilityRegistry
    → NodeCapabilityContractRef
    → Result NodeCapabilityRegistryError WorkflowNodeCapabilityInterface
resolve_node_capability by_ref contract_ref =
    ok_or (get contract_ref by_ref) (contract_not_registered contract_ref)
