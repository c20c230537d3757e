-- ===== src/Workflow/Readiness/Derived.antt =====
-- The order that crates/engine/src/node_capability/execution.rs derives for readiness issues: by
-- category, target and detail, variants in their order and fields from the first to the last.
use oh_my_dream.Common.{
  ℕ, ◌≡◌, refl, sym, ap, ◌∙◌, ◌&&◌, ◌||◌, Option, none, some, [], ◌==◌, if◌then◌else◌, arith,
}
use oh_my_dream.Common.Bytes.{Ord, Utf8, nat_ord, text_ord}
use oh_my_dream.Capability.Parameter.{WorkflowDataType}
use oh_my_dream.Workflow.Readiness.External.{
  NodeCapabilityReadinessCategory, NodeCapabilityReadinessTarget, NodeCapabilityReadinessIssue,
  invalid_capability_invocation, managed_asset_unavailable, managed_asset_kind_mismatch,
  managed_asset_readiness_indeterminate, generation_profile_incompatible,
  generation_profile_unavailable, generation_profile_availability_indeterminate, capability,
  managed_asset, generation_profile,
}

-- The lexicographic order of pairs.
abbrev pair_ord : {A B : Type 0} → Ord A → Ord B → Ord (A × B)
pair_ord o p = record {
  eq = λ (a, b) (c, d). o.eq a c && p.eq b d;
  lt = λ (a, b) (c, d). o.lt a c || (o.eq a c && p.lt b d);
  eq_iff = λ (a, b) (c, d). ground (arith, o.eq_iff a c, p.eq_iff b d);
  irrefl = λ (a, b). ground (arith, o.irrefl a, p.irrefl b);
  trans = λ (a, b) (c, d) (e, f) h k.
      ground (arith, o.trans a c e, p.trans b d f, o.eq_iff a c, o.eq_iff c e, o.eq_iff a e);
  total = λ (a, b) (c, d) h k. ground (arith, o.total a c, p.total b d, o.eq_iff a c, o.eq_iff c a);
}

-- The order of the images under a map that has a left inverse.
abbrev image_ord : {A B : Type 0} (f : A → B) (g : B → A) → ((a : A) → g (f a) ≡ a) → Ord B → Ord A
image_ord f g back o = record {
  eq = λ a b. o.eq (f a) (f b);
  lt = λ a b. o.lt (f a) (f b);
  eq_iff = λ a b. (
    λ h. sym (back a) ∙ (ap g ((o.eq_iff (f a) (f b)).0 h) ∙ back b),
    λ e. (o.eq_iff (f a) (f b)).1 (ap f e),
  );
  irrefl = λ a. o.irrefl (f a);
  trans = λ a b c. o.trans (f a) (f b) (f c);
  total = λ a b. o.total (f a) (f b);
}

abbrev category_tag : NodeCapabilityReadinessCategory → ℕ
category_tag invalid_capability_invocation = 0
category_tag managed_asset_unavailable = 1
category_tag managed_asset_kind_mismatch = 2
category_tag managed_asset_readiness_indeterminate = 3
category_tag generation_profile_incompatible = 4
category_tag generation_profile_unavailable = 5
category_tag generation_profile_availability_indeterminate = 6

abbrev category_of : ℕ → NodeCapabilityReadinessCategory
category_of n =
    if n == 0
    then invalid_capability_invocation
    else if n == 1
    then managed_asset_unavailable
    else if n == 2
    then managed_asset_kind_mismatch
    else if n == 3
    then managed_asset_readiness_indeterminate
    else if n == 4
    then generation_profile_incompatible
    else if n == 5
    then generation_profile_unavailable
    else generation_profile_availability_indeterminate

category_back : (c : NodeCapabilityReadinessCategory) → category_of (category_tag c) ≡ c
category_back invalid_capability_invocation = refl
category_back managed_asset_unavailable = refl
category_back managed_asset_kind_mismatch = refl
category_back managed_asset_readiness_indeterminate = refl
category_back generation_profile_incompatible = refl
category_back generation_profile_unavailable = refl
category_back generation_profile_availability_indeterminate = refl

abbrev Target : Type 0
Target = ℕ × (Utf8 × (Utf8 × ℕ))

abbrev target_fields : NodeCapabilityReadinessTarget → Target
target_fields capability = (0, ([], ([], 0)))
target_fields (managed_asset key id) = (1, (key, ([], id)))
target_fields (generation_profile key id version) = (2, (key, (id, version)))

abbrev target_of : Target → NodeCapabilityReadinessTarget
target_of (n, (key, (id, number))) =
    if n == 0
    then capability
    else if n == 1
    then managed_asset key number
    else generation_profile key id number

target_back : (t : NodeCapabilityReadinessTarget) → target_of (target_fields t) ≡ t
target_back capability = refl
target_back (managed_asset key id) = refl
target_back (generation_profile key id version) = refl

abbrev type_tag : WorkflowDataType → ℕ
type_tag WorkflowDataType.text = 0
type_tag WorkflowDataType.image = 1
type_tag WorkflowDataType.video = 2
type_tag WorkflowDataType.audio = 3

abbrev type_of : ℕ → WorkflowDataType
type_of n =
    if n == 0
    then WorkflowDataType.text
    else if n == 1
    then WorkflowDataType.image
    else if n == 2
    then WorkflowDataType.video
    else WorkflowDataType.audio

type_back : (t : WorkflowDataType) → type_of (type_tag t) ≡ t
type_back WorkflowDataType.text = refl
type_back WorkflowDataType.image = refl
type_back WorkflowDataType.video = refl
type_back WorkflowDataType.audio = refl

abbrev Kinds : Type 0
Kinds = ℕ × (ℕ × ℕ)

abbrev kinds_fields : Option (WorkflowDataType × WorkflowDataType) → Kinds
kinds_fields none = (0, (0, 0))
kinds_fields (some (a, b)) = (1, (type_tag a, type_tag b))

abbrev kinds_of : Kinds → Option (WorkflowDataType × WorkflowDataType)
kinds_of (n, (a, b)) = if n == 0 then none else some (type_of a, type_of b)

kinds_back : (k : Option (WorkflowDataType × WorkflowDataType)) → kinds_of (kinds_fields k) ≡ k
kinds_back none = refl
kinds_back (some (a, b)) = ap some (ground (arith, type_back a, type_back b))

abbrev fields : NodeCapabilityReadinessIssue → ℕ × (Target × Kinds)
fields i = (category_tag i.category, (target_fields i.target, kinds_fields i.media_kind_mismatch))

abbrev issue_of : ℕ × (Target × Kinds) → NodeCapabilityReadinessIssue
issue_of (c, (t, k)) = record {
  category = category_of c;
  target = target_of t;
  media_kind_mismatch = kinds_of k;
}

pub fields_back : (i : NodeCapabilityReadinessIssue) → issue_of (fields i) ≡ i
fields_back i =
    ground (arith, category_back i.category, target_back i.target, kinds_back i.media_kind_mismatch)

-- The derived `Ord`
instance abbrev pub issue_ord : Ord NodeCapabilityReadinessIssue
issue_ord = image_ord fields issue_of fields_back (
    pair_ord nat_ord (
      pair_ord (pair_ord nat_ord (pair_ord text_ord (pair_ord text_ord nat_ord)))
        (pair_ord nat_ord (pair_ord nat_ord nat_ord))))
