-- ===== src/Tasks/Aggregate/Facts.antt =====
-- `has_same_immutable_facts` of aggregate.rs, with the derived equality of its fields' types.
use oh_my_dream.Common.{
  ℕ, ◌≡◌, ◌↔◌, Bool, true, false, ◌&&◌, Option, none, some, List, list_eq, ◌==◌, arith,
}
use oh_my_dream.Common.Bytes.{list_eq_eq, list_eq_iff}
use oh_my_dream.Tasks.Identity.{GenerationTaskOrigin, GenerationTaskTarget}
use oh_my_dream.Tasks.Request.{
  AssetMediaKind, ImageAspectRatio, square, landscape_4_to_3, portrait_3_to_4, landscape_16_to_9,
  portrait_9_to_16, VideoDurationSeconds, five, ten, AssetSnapshotRef, GenerationTaskRequest,
}
use oh_my_dream.Tasks.Aggregate.{GenerationTaskAggregate}
use oh_my_dream.Tasks.Aggregate.Command.{Command, perform_all}
use oh_my_dream.Tasks.Aggregate.Valid.{SameFacts}
use oh_my_dream.Tasks.Aggregate.Endings.{perform_all-Later}

unfoldable pub eq_origin : GenerationTaskOrigin → GenerationTaskOrigin → Bool
eq_origin o p =
    o.project_id == p.project_id
    && o.workflow_id == p.workflow_id
    && o.workflow_revision == p.workflow_revision
    && o.workflow_run_id == p.workflow_run_id
    && o.workflow_node_id == p.workflow_node_id
    && o.workflow_node_execution_id == p.workflow_node_execution_id
    && list_eq o.capability_contract_ref.id p.capability_contract_ref.id
    && o.capability_contract_ref.major == p.capability_contract_ref.major
    && o.capability_contract_ref.minor == p.capability_contract_ref.minor

unfoldable pub eq_target : GenerationTaskTarget → GenerationTaskTarget → Bool
eq_target t u =
    list_eq t.generation_profile_id u.generation_profile_id
    && t.generation_profile_version == u.generation_profile_version
    && list_eq t.provider_id u.provider_id
    && list_eq t.route_id u.route_id

abbrev eq_ratio : ImageAspectRatio → ImageAspectRatio → Bool
eq_ratio square square = true
eq_ratio landscape_4_to_3 landscape_4_to_3 = true
eq_ratio portrait_3_to_4 portrait_3_to_4 = true
eq_ratio landscape_16_to_9 landscape_16_to_9 = true
eq_ratio portrait_9_to_16 portrait_9_to_16 = true
eq_ratio _ _ = false

abbrev eq_media_kind : AssetMediaKind → AssetMediaKind → Bool
eq_media_kind AssetMediaKind.image AssetMediaKind.image = true
eq_media_kind AssetMediaKind.video AssetMediaKind.video = true
eq_media_kind AssetMediaKind.audio AssetMediaKind.audio = true
eq_media_kind _ _ = false

abbrev eq_duration : VideoDurationSeconds → VideoDurationSeconds → Bool
eq_duration five five = true
eq_duration ten ten = true
eq_duration _ _ = false

abbrev eq_optional_text : Option (List ℕ) → Option (List ℕ) → Bool
eq_optional_text none none = true
eq_optional_text (some x) (some y) = list_eq x y
eq_optional_text _ _ = false

abbrev eq_snapshot : AssetSnapshotRef → AssetSnapshotRef → Bool
eq_snapshot a b =
    a.asset_id == b.asset_id
    && eq_media_kind a.media_kind b.media_kind
    && list_eq a.content_hash b.content_hash

unfoldable pub eq_request : GenerationTaskRequest → GenerationTaskRequest → Bool
eq_request (GenerationTaskRequest.text x) (GenerationTaskRequest.text y) = list_eq x y
eq_request (GenerationTaskRequest.image x r) (GenerationTaskRequest.image y s) =
    list_eq x y && eq_ratio r s
eq_request (GenerationTaskRequest.voice x) (GenerationTaskRequest.voice y) = list_eq x y
eq_request (GenerationTaskRequest.video v) (GenerationTaskRequest.video w) =
    eq_snapshot v.input_image w.input_image
    && eq_duration v.duration_seconds w.duration_seconds
    && eq_optional_text v.prompt w.prompt
eq_request _ _ = false

unfoldable pub has_same_immutable_facts : GenerationTaskAggregate → GenerationTaskAggregate → Bool
has_same_immutable_facts self other =
    self.id == other.id
    && eq_origin self.origin other.origin
    && list_eq self.idempotency_key other.idempotency_key
    && list_eq self.request_hash other.request_hash
    && eq_target self.target other.target
    && eq_request self.request other.request
    && self.provider_deadline_at == other.provider_deadline_at
    && self.created_at == other.created_at

eq_origin_iff : (o p : GenerationTaskOrigin) → (eq_origin o p ≡ true) ↔ (o ≡ p)
unfolding eq_origin
eq_origin_iff o p =
    ground (arith, list_eq_iff o.capability_contract_ref.id p.capability_contract_ref.id)

eq_target_iff : (t u : GenerationTaskTarget) → (eq_target t u ≡ true) ↔ (t ≡ u)
unfolding eq_target
eq_target_iff t u = ground (
  arith,
  list_eq_iff t.generation_profile_id u.generation_profile_id,
  list_eq_iff t.provider_id u.provider_id,
  list_eq_iff t.route_id u.route_id,
)

eq_snapshot_iff : (a b : AssetSnapshotRef) → (eq_snapshot a b ≡ true) ↔ (a ≡ b)
eq_snapshot_iff a b = ground (arith, list_eq_iff a.content_hash b.content_hash)

eq_optional_text_iff : (x y : Option (List ℕ)) → (eq_optional_text x y ≡ true) ↔ (x ≡ y)
eq_optional_text_iff none none = ground arith
eq_optional_text_iff none (some y) = ground arith
eq_optional_text_iff (some x) none = ground arith
eq_optional_text_iff (some x) (some y) = ground (arith, list_eq_iff x y)

eq_request_iff : (q r : GenerationTaskRequest) → (eq_request q r ≡ true) ↔ (q ≡ r)
unfolding eq_request
eq_request_iff (GenerationTaskRequest.text x) (GenerationTaskRequest.text y) =
    ground (arith, list_eq_iff x y)
eq_request_iff (GenerationTaskRequest.image x r) (GenerationTaskRequest.image y s) =
    ground (arith, list_eq_iff x y)
eq_request_iff (GenerationTaskRequest.voice x) (GenerationTaskRequest.voice y) =
    ground (arith, list_eq_iff x y)
eq_request_iff (GenerationTaskRequest.video v) (GenerationTaskRequest.video w) =
    ground
      (arith, eq_snapshot_iff v.input_image w.input_image, eq_optional_text_iff v.prompt w.prompt)
eq_request_iff (GenerationTaskRequest.text x) _ = ground arith
eq_request_iff (GenerationTaskRequest.image x r) _ = ground arith
eq_request_iff (GenerationTaskRequest.voice x) _ = ground arith
eq_request_iff (GenerationTaskRequest.video v) _ = ground arith

module _ (t u : GenerationTaskAggregate) where
  SameFacts-has_same_immutable_facts : SameFacts t u → has_same_immutable_facts t u ≡ true
  unfolding has_same_immutable_facts
  SameFacts-has_same_immutable_facts h = ground (
    arith,
    h.id,
    h.origin,
    h.idempotency_key,
    h.request_hash,
    h.target,
    h.request,
    h.provider_deadline_at,
    h.created_at,
    eq_origin_iff t.origin u.origin,
    list_eq_iff t.idempotency_key u.idempotency_key,
    list_eq_iff t.request_hash u.request_hash,
    eq_target_iff t.target u.target,
    eq_request_iff t.request u.request,
  )

  has_same_immutable_facts-SameFacts : has_same_immutable_facts t u ≡ true → SameFacts t u
  unfolding has_same_immutable_facts
  has_same_immutable_facts-SameFacts h = record {
    id = ground arith;
    origin = (eq_origin_iff t.origin u.origin).0 (ground arith);
    idempotency_key = list_eq_eq _ _ (ground arith);
    request_hash = list_eq_eq _ _ (ground arith);
    target = (eq_target_iff t.target u.target).0 (ground arith);
    request = (eq_request_iff t.request u.request).0 (ground arith);
    provider_deadline_at = ground arith;
    created_at = ground arith;
  }

  -- The comparison of immutable facts accepts exactly the tasks that agree in each of them.
  pub has_same_immutable_facts_iff : (has_same_immutable_facts t u ≡ true) ↔ SameFacts t u
  has_same_immutable_facts_iff =
      (has_same_immutable_facts-SameFacts, SameFacts-has_same_immutable_facts)

-- Over any sequence of calls a task has the same immutable facts by the comparison.
pub perform_all-has_same_immutable_facts :
    (cs : List Command) (t : GenerationTaskAggregate)
    → has_same_immutable_facts t (perform_all cs t) ≡ true
perform_all-has_same_immutable_facts cs t =
    SameFacts-has_same_immutable_facts t _ (perform_all-Later cs t).facts
