-- ===== src/Tasks/Canonical/Injective.antt =====
-- The canonical encoding keeps every admission fact: equal bytes, equal facts.
use mathlib.Core.List.{append_assoc, append-nil}
use oh_my_dream.Common.{
  ℕ, ◌^◌, ◌<◌, ◌≡◌, refl, Option, none, some, List, [], ◌∷◌, ◌++◌, length, arith,
}
use oh_my_dream.Tasks.Identity.{Utf8, GenerationTaskOrigin, GenerationTaskTarget}
use oh_my_dream.Tasks.Request.{
  AssetMediaKind, ImageAspectRatio, VideoDurationSeconds, AssetSnapshotRef, GenerationTaskRequest,
}
use oh_my_dream.Tasks.Canonical.{
  to_be_bytes, append_optional_text, aspect_ratio_tag, duration_tag, media_kind_tag,
  append_asset_snapshot, append_request, append_origin, append_target, canonical_bytes,
}
use oh_my_dream.Tasks.Canonical.Prefix.{append_injective, to_be_bytes_prefix, append_text_prefix}

-- What the Rust types bound: a text below 2^64 bytes.
abbrev pub IsText : Utf8 → Type 0
IsText x = length x < 256 ^ 8

abbrev pub IsOptionalText : Option Utf8 → Type 0
IsOptionalText none = Unit
IsOptionalText (some x) = IsText x

-- `u64`, `u16` and 128-bit identities.
pub record IsOrigin (o : GenerationTaskOrigin) : Type 0 where
  pub project : o.project_id < 256 ^ 16
  pub workflow : o.workflow_id < 256 ^ 16
  pub revision : o.workflow_revision < 256 ^ 8
  pub run : o.workflow_run_id < 256 ^ 16
  pub node : o.workflow_node_id < 256 ^ 16
  pub execution : o.workflow_node_execution_id < 256 ^ 16
  pub contract : IsText o.capability_contract_ref.id
  pub major : o.capability_contract_ref.major < 256 ^ 2
  pub minor : o.capability_contract_ref.minor < 256 ^ 2

pub record IsTarget (t : GenerationTaskTarget) : Type 0 where
  pub profile : IsText t.generation_profile_id
  pub version : t.generation_profile_version < 256 ^ 4
  pub provider : IsText t.provider_id
  pub route : IsText t.route_id

-- A digest is 32 bytes.
pub record IsSnapshot (a : AssetSnapshotRef) : Type 0 where
  pub asset : a.asset_id < 256 ^ 16
  pub hash : length a.content_hash ≡ 32

abbrev pub IsRequest : GenerationTaskRequest → Type 0
IsRequest (GenerationTaskRequest.text prompt) = IsText prompt
IsRequest (GenerationTaskRequest.image prompt ratio) = IsText prompt
IsRequest (GenerationTaskRequest.voice script) = IsText script
IsRequest (GenerationTaskRequest.video spec) =
    IsSnapshot spec.input_image × IsOptionalText spec.prompt

module _ (r s : List ℕ) where
  append_optional_text_prefix :
      (x y : Option Utf8)
      → IsOptionalText x
      → IsOptionalText y
      → append_optional_text x ++ r ≡ append_optional_text y ++ s
      → (x ≡ y) × (r ≡ s)
  unfolding append_optional_text
  append_optional_text_prefix none none hx hy e = (refl, ground arith)
  append_optional_text_prefix none (some y) hx hy e = absurd (ground arith)
  append_optional_text_prefix (some x) none hx hy e = absurd (ground arith)
  append_optional_text_prefix (some x) (some y) hx hy e =
      ground (arith, append_text_prefix x y r s hx hy)

  aspect_ratio_tag_prefix :
      (a b : ImageAspectRatio) → aspect_ratio_tag a ∷ r ≡ aspect_ratio_tag b ∷ s → (a ≡ b) × (r ≡ s)
  unfolding aspect_ratio_tag
  aspect_ratio_tag_prefix a b e = ground arith

  duration_tag_prefix :
      (a b : VideoDurationSeconds) → duration_tag a ∷ r ≡ duration_tag b ∷ s → (a ≡ b) × (r ≡ s)
  unfolding duration_tag
  duration_tag_prefix a b e = ground arith

  media_kind_tag_prefix :
      (a b : AssetMediaKind) → media_kind_tag a ∷ r ≡ media_kind_tag b ∷ s → (a ≡ b) × (r ≡ s)
  unfolding media_kind_tag
  media_kind_tag_prefix a b e = ground arith

tail-eq : {x y : ℕ} {xs ys : List ℕ} → x ∷ xs ≡ y ∷ ys → xs ≡ ys
tail-eq e = cc

module _ (r s : List ℕ) where
  append_asset_snapshot_prefix :
      (a b : AssetSnapshotRef)
      → IsSnapshot a
      → IsSnapshot b
      → append_asset_snapshot a ++ r ≡ append_asset_snapshot b ++ s
      → (a ≡ b) × (r ≡ s)
  unfolding append_asset_snapshot
  append_asset_snapshot_prefix a b ha hb e =
      let e' = simp append_assoc at e in
      let (asset, e1) = to_be_bytes_prefix 16 a.asset_id b.asset_id _ _ ha.asset hb.asset e' in
      let (media, e2) = media_kind_tag_prefix _ _ a.media_kind b.media_kind e1 in
      let (hash, e3) =
        append_injective a.content_hash b.content_hash r s (omega (arith, ha.hash, hb.hash)) e2 in
      (ground arith, e3)

module _ (r s : List ℕ) where
  -- The leading tag tells the kinds apart, and the rest of each kind is a prefix code.
  append_request_prefix :
      (a b : GenerationTaskRequest)
      → IsRequest a
      → IsRequest b
      → append_request a ++ r ≡ append_request b ++ s
      → (a ≡ b) × (r ≡ s)
  unfolding append_request
  append_request_prefix (GenerationTaskRequest.text x) (GenerationTaskRequest.text y) ha hb e =
      let (same, rest) = append_text_prefix x y r s ha hb (ground arith) in (ground arith, rest)
  append_request_prefix (GenerationTaskRequest.image x p) (GenerationTaskRequest.image y q) ha hb
        e =
      let e' = simp append_assoc at e in
      let (same, e1) = append_text_prefix x y _ _ ha hb (tail-eq e') in
      let (ratio, rest) = aspect_ratio_tag_prefix r s p q e1 in (ground arith, rest)
  append_request_prefix (GenerationTaskRequest.voice x) (GenerationTaskRequest.voice y) ha hb e =
      let (same, rest) = append_text_prefix x y r s ha hb (ground arith) in (ground arith, rest)
  append_request_prefix (GenerationTaskRequest.video x) (GenerationTaskRequest.video y) ha hb e =
      let e' = simp append_assoc at e in
      let (image, e1) =
        append_asset_snapshot_prefix _ _ x.input_image y.input_image ha.0 hb.0 (tail-eq e') in
      let (duration, e2) = duration_tag_prefix _ _ x.duration_seconds y.duration_seconds e1 in
      let (prompt, rest) = append_optional_text_prefix r s x.prompt y.prompt ha.1 hb.1 e2 in
      (ground arith, rest)
  append_request_prefix (GenerationTaskRequest.text x) b ha hb e = absurd (ground arith)
  append_request_prefix (GenerationTaskRequest.image x p) b ha hb e = absurd (ground arith)
  append_request_prefix (GenerationTaskRequest.voice x) b ha hb e = absurd (ground arith)
  append_request_prefix (GenerationTaskRequest.video x) b ha hb e = absurd (ground arith)

  append_origin_prefix :
      (o p : GenerationTaskOrigin)
      → IsOrigin o
      → IsOrigin p
      → append_origin o ++ r ≡ append_origin p ++ s
      → (o ≡ p) × (r ≡ s)
  unfolding append_origin
  append_origin_prefix o p ho hp e =
      let e0 = simp append_assoc at e in
      let (project, e1) = to_be_bytes_prefix 16 _ _ _ _ ho.project hp.project e0 in
      let (workflow, e2) = to_be_bytes_prefix 16 _ _ _ _ ho.workflow hp.workflow e1 in
      let (revision, e3) = to_be_bytes_prefix 8 _ _ _ _ ho.revision hp.revision e2 in
      let (run, e4) = to_be_bytes_prefix 16 _ _ _ _ ho.run hp.run e3 in
      let (node, e5) = to_be_bytes_prefix 16 _ _ _ _ ho.node hp.node e4 in
      let (execution, e6) = to_be_bytes_prefix 16 _ _ _ _ ho.execution hp.execution e5 in
      let (contract, e7) = append_text_prefix _ _ _ _ ho.contract hp.contract e6 in
      let (major, e8) = to_be_bytes_prefix 2 _ _ _ _ ho.major hp.major e7 in
      let (minor, rest) = to_be_bytes_prefix 2 _ _ r s ho.minor hp.minor e8 in (ground arith, rest)

  append_target_prefix :
      (t u : GenerationTaskTarget)
      → IsTarget t
      → IsTarget u
      → append_target t ++ r ≡ append_target u ++ s
      → (t ≡ u) × (r ≡ s)
  unfolding append_target
  append_target_prefix t u ht hu e =
      let e0 = simp append_assoc at e in
      let (profile, e1) = append_text_prefix _ _ _ _ ht.profile hu.profile e0 in
      let (version, e2) = to_be_bytes_prefix 4 _ _ _ _ ht.version hu.version e1 in
      let (provider, e3) = append_text_prefix _ _ _ _ ht.provider hu.provider e2 in
      let (route, rest) = append_text_prefix _ _ r s ht.route hu.route e3 in (ground arith, rest)

-- Two admissions whose texts and integers are within their Rust types have the same canonical
-- bytes only when they have the same origin, the same request and the same target.
pub canonical_bytes_injective :
    (o p : GenerationTaskOrigin) (a b : GenerationTaskRequest) (t u : GenerationTaskTarget)
    → IsOrigin o
    → IsOrigin p
    → IsRequest a
    → IsRequest b
    → IsTarget t
    → IsTarget u
    → canonical_bytes o a t ≡ canonical_bytes p b u
    → (o ≡ p) × (a ≡ b) × (t ≡ u)
unfolding canonical_bytes
canonical_bytes_injective o p a b t u ho hp ha hb ht hu e =
    let (version, e1) = append_injective (to_be_bytes 4 1) (to_be_bytes 4 1) _ _ refl e in
    let (origin, e2) = append_origin_prefix _ _ o p ho hp e1 in
    let (request, e3) = append_request_prefix _ _ a b ha hb e2 in
    let e4 : append_target t ++ [] ≡ append_target u ++ [] = rw (append-nil, append-nil) e3 in
    let (target, rest) = append_target_prefix [] [] t u ht hu e4 in (origin, request, target)
