-- ===== src/Workflow/Readiness/External/Calls.antt =====
-- crates/engine/src/node_capability/execution.rs: the readiness issues that the constructors give are
-- the ones that `try_new` accepts.
use oh_my_dream.Common.{
  ℕ, ◌≡◌, ◌≢◌, refl, sym, subst, true, false, Option, none, some, ◌↔◌, arith, ok, Bool-cases, inl,
  inr,
}
use oh_my_dream.Common.Bytes.{Utf8}
use oh_my_dream.Capability.Parameter.{WorkflowDataType, is_text}
use oh_my_dream.Graph.Aggregate.{type_eq}
use oh_my_dream.Workflow.Readiness.External.{
  NodeCapabilityReadinessCategory, invalid_capability_invocation, managed_asset_unavailable,
  managed_asset_kind_mismatch, managed_asset_readiness_indeterminate,
  generation_profile_incompatible, generation_profile_unavailable,
  generation_profile_availability_indeterminate, NodeCapabilityReadinessTarget, capability,
  managed_asset, generation_profile, NodeCapabilityReadinessIssue, is_mismatch, is_valid, try_new,
  Call, invocation, unavailable, mismatch, indeterminate, incompatible_profile, unavailable_profile,
  indeterminate_profile, construct,
}

-- What a call asks of its arguments: two different kinds of media, none of them Text.
abbrev pub Fits : Call → Type 0
Fits (mismatch key id expected observed) =
    (expected ≢ observed) × (expected ≢ WorkflowDataType.text) × (observed ≢ WorkflowDataType.text)
Fits _ = Unit

abbrev plain :
    NodeCapabilityReadinessCategory → NodeCapabilityReadinessTarget → NodeCapabilityReadinessIssue
plain category target = record { category = category; target = target; media_kind_mismatch = none }

-- The issue that a constructor is named for.
abbrev pub meant : Call → NodeCapabilityReadinessIssue
meant invocation = plain invalid_capability_invocation capability
meant (unavailable key id) = plain managed_asset_unavailable (managed_asset key id)
meant (mismatch key id expected observed) = record {
  category = managed_asset_kind_mismatch;
  target = managed_asset key id;
  media_kind_mismatch = some (expected, observed);
}
meant (indeterminate key id) = plain managed_asset_readiness_indeterminate (managed_asset key id)
meant (incompatible_profile key id version) =
    plain generation_profile_incompatible (generation_profile key id version)
meant (unavailable_profile key id version) =
    plain generation_profile_unavailable (generation_profile key id version)
meant (indeterminate_profile key id version) =
    plain generation_profile_availability_indeterminate (generation_profile key id version)

-- An issue that a constructor is named for, on arguments that fit.
pub record IsConstructed (i : NodeCapabilityReadinessIssue) : Type 0 where
  pub call : Call
  pub fits : Fits call
  pub gives : meant call ≡ i

type_eq_refl : (e : WorkflowDataType) → type_eq e e ≡ true
type_eq_refl WorkflowDataType.text = refl
type_eq_refl WorkflowDataType.image = refl
type_eq_refl WorkflowDataType.video = refl
type_eq_refl WorkflowDataType.audio = refl

is_text-false : (e : WorkflowDataType) → is_text e ≡ false → e ≢ WorkflowDataType.text
is_text-false e h same = absurd (ground (arith, subst (λ z. is_text z ≡ false) same h))

is_mismatch-Fits :
    (key : Utf8) (id : ℕ) (e o : WorkflowDataType)
    → is_mismatch (some (e, o)) ≡ true
    → Fits (mismatch key id e o)
is_mismatch-Fits key id e o h = (
  λ same.
      let refused : type_eq e o ≡ false = ground (arith, h) in
      absurd (ground (arith, subst (λ z. type_eq e z ≡ false) (sym same) refused, type_eq_refl e)),
  is_text-false e (ground (arith, h)),
  is_text-false o (ground (arith, h)),
)

is_valid-IsConstructed :
    (category : NodeCapabilityReadinessCategory) (target : NodeCapabilityReadinessTarget)
    (kinds : Option (WorkflowDataType × WorkflowDataType))
    → is_valid category target kinds ≡ true
    → IsConstructed (record { category = category; target = target; media_kind_mismatch = kinds })
unfolding construct
is_valid-IsConstructed invalid_capability_invocation capability none h = record {
  call = invocation;
  fits = tt;
  gives = refl;
}
is_valid-IsConstructed managed_asset_unavailable (managed_asset key id) none h = record {
  call = unavailable key id;
  fits = tt;
  gives = refl;
}
is_valid-IsConstructed managed_asset_kind_mismatch (managed_asset key id) (some (e, o)) h = record {
  call = mismatch key id e o;
  fits = is_mismatch-Fits key id e o (ground arith);
  gives = refl;
}
is_valid-IsConstructed managed_asset_readiness_indeterminate (managed_asset key id) none h =
    record { call = indeterminate key id; fits = tt; gives = refl }
is_valid-IsConstructed generation_profile_incompatible (generation_profile key id version) none h =
    record { call = incompatible_profile key id version; fits = tt; gives = refl }
is_valid-IsConstructed generation_profile_unavailable (generation_profile key id version) none h =
    record { call = unavailable_profile key id version; fits = tt; gives = refl }
is_valid-IsConstructed generation_profile_availability_indeterminate
      (generation_profile key id version) none h =
    record { call = indeterminate_profile key id version; fits = tt; gives = refl }
is_valid-IsConstructed _ _ _ h = absurd (ground arith)

type_eq-eq : (e o : WorkflowDataType) → type_eq e o ≡ true → e ≡ o
type_eq-eq WorkflowDataType.text WorkflowDataType.text h = refl
type_eq-eq WorkflowDataType.image WorkflowDataType.image h = refl
type_eq-eq WorkflowDataType.video WorkflowDataType.video h = refl
type_eq-eq WorkflowDataType.audio WorkflowDataType.audio h = refl
type_eq-eq _ _ h = absurd (ground arith)

type_eq-differ : (e o : WorkflowDataType) → e ≢ o → type_eq e o ≡ false
type_eq-differ e o n = elim (Bool-cases (type_eq e o)) [
  | inl h ↦ absurd (n (type_eq-eq e o h))
  | inr h ↦ h
]

is_text-eq : (e : WorkflowDataType) → e ≢ WorkflowDataType.text → is_text e ≡ false
is_text-eq WorkflowDataType.text n = absurd (n refl)
is_text-eq WorkflowDataType.image n = refl
is_text-eq WorkflowDataType.video n = refl
is_text-eq WorkflowDataType.audio n = refl

meant-is_valid :
    (call : Call)
    → Fits call
    → is_valid (meant call).category (meant call).target (meant call).media_kind_mismatch ≡ true
meant-is_valid invocation f = refl
meant-is_valid (unavailable key id) f = refl
meant-is_valid (mismatch key id expected observed) (differ, first, second) = ground (
  arith,
  type_eq-differ expected observed differ,
  is_text-eq expected first,
  is_text-eq observed second,
)
meant-is_valid (indeterminate key id) f = refl
meant-is_valid (incompatible_profile key id version) f = refl
meant-is_valid (unavailable_profile key id version) f = refl
meant-is_valid (indeterminate_profile key id version) f = refl

construct-Fits : (call : Call) → construct call ≡ ok (meant call) → Fits call
unfolding construct
construct-Fits (mismatch key id e o) h = is_mismatch-Fits key id e o (ground arith)
construct-Fits invocation h = tt
construct-Fits (unavailable key id) h = tt
construct-Fits (indeterminate key id) h = tt
construct-Fits (incompatible_profile key id version) h = tt
construct-Fits (unavailable_profile key id version) h = tt
construct-Fits (indeterminate_profile key id version) h = tt

construct-meant : (call : Call) → Fits call → construct call ≡ ok (meant call)
unfolding construct
construct-meant (mismatch key id e o) f = ground (arith, meant-is_valid (mismatch key id e o) f)
construct-meant invocation f = refl
construct-meant (unavailable key id) f = refl
construct-meant (indeterminate key id) f = refl
construct-meant (incompatible_profile key id version) f = refl
construct-meant (unavailable_profile key id version) f = refl
construct-meant (indeterminate_profile key id version) f = refl

-- A category, a target and a detail are accepted exactly when they make up the issue that one of the
-- constructors is named for, on arguments that fit it, and a constructor gives its issue exactly when
-- its arguments fit: for a mismatch of kinds these are two different kinds other than Text, and for
-- the other constructors any arguments.
pub try_new_iff :
    (i : NodeCapabilityReadinessIssue) (call : Call)
    → ((try_new i.category i.target i.media_kind_mismatch ≡ ok i) ↔ IsConstructed i)
      × ((construct call ≡ ok (meant call)) ↔ Fits call)
unfolding try_new
try_new_iff i call = (
  (
    λ e. is_valid-IsConstructed i.category i.target i.media_kind_mismatch (ground arith),
    λ c.
        subst (λ z. try_new z.category z.target z.media_kind_mismatch ≡ ok z) c.gives
          (ground (arith, meant-is_valid c.call c.fits)),
  ),
  (construct-Fits call, construct-meant call),
)
