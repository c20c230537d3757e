-- ===== src/Tasks/Aggregate/Valid.antt =====
-- What a saved task has to satisfy, and that a created task keeps it through every method.
use oh_my_dream.Common.{ℕ, ◌≤◌, ◌<◌, ◌≡◌, refl, true, ◌&&◌, Option, List, [], ◌∷◌, leb, ok, arith}
use oh_my_dream.Common.Bytes.{list_eq_refl}
use oh_my_dream.Tasks.Identity.{
  Utf8, Uuid, GenerationTaskOrigin, GenerationTaskTarget, GenerationTaskTimestamp,
}
use oh_my_dream.Tasks.Request.{GenerationTaskRequest, GenerationTaskResult}
use oh_my_dream.Tasks.State.{GenerationTaskState, progress_percent, completed_at}
use oh_my_dream.Tasks.Canonical.{canonical_request_hash}
use oh_my_dream.Tasks.Aggregate.{
  GenerationTaskAggregate, create, restore, validate_restored_state, is_none_or, valid_result,
}
use oh_my_dream.Tasks.Aggregate.Command.{Command, perform_all}
use oh_my_dream.Tasks.Aggregate.Machine.{
  Move, submit, accept, accept_late, progress, withdraw, request_submitting, request_running,
  cancel, deliver, give_up, TaskStep, stay, move, perform-TaskStep,
}

-- The state, the result and the times agree.
pub record IsValid (t : GenerationTaskAggregate) : Type 0 where
  pub resulting : valid_result t.request t.state t.result ≡ true
  pub progressing : is_none_or (λ value. leb value 100) (progress_percent t.state) ≡ true
  pub updated : t.created_at ≤ t.updated_at
  pub deadline : t.created_at < t.provider_deadline_at
  pub completing :
      is_none_or (λ value. leb t.created_at value && leb value t.updated_at) (completed_at t.state)
      ≡ true

-- A task that can move has no result yet, and only delivery gives it one.
Move-valid_result :
    (q : GenerationTaskRequest) (at : GenerationTaskTimestamp) (s s' : GenerationTaskState)
    (x x' : Option GenerationTaskResult) (c : GenerationTaskTimestamp)
    → Move q at s s' x x'
    → valid_result q s x ≡ true
    → c ≤ at
    → (valid_result q s' x' ≡ true)
      × (is_none_or (λ value. leb value 100) (progress_percent s') ≡ true)
      × (is_none_or (λ value. leb c value && leb value at) (completed_at s') ≡ true)
unfolding progress_percent completed_at
Move-valid_result q at s s' x x' c (submit a b e) h k = ground arith
Move-valid_result q at s s' x x' c (accept r a b e) h k = ground arith
Move-valid_result q at s s' x x' c (accept_late r a b e) h k = ground arith
Move-valid_result q at s s' x x' c (progress r p n a b w l e) h k = ground arith
Move-valid_result q at s s' x x' c (withdraw a b e) h k = ground arith
Move-valid_result q at s s' x x' c (request_submitting a b e) h k = ground arith
Move-valid_result q at s s' x x' c (request_running r p a b e) h k = ground arith
Move-valid_result q at s s' x x' c (cancel a b e) h k = ground arith
Move-valid_result q at s s' x x' c (deliver r a m b e) h k = ground arith
Move-valid_result q at s s' x x' c (give_up f a b e) h k = ground arith

-- The identity, the admission and the times that nothing changes.
pub record SameFacts (t t' : GenerationTaskAggregate) : Type 0 where
  pub id : t.id ≡ t'.id
  pub origin : t.origin ≡ t'.origin
  pub idempotency_key : t.idempotency_key ≡ t'.idempotency_key
  pub request_hash : t.request_hash ≡ t'.request_hash
  pub target : t.target ≡ t'.target
  pub request : t.request ≡ t'.request
  pub provider_deadline_at : t.provider_deadline_at ≡ t'.provider_deadline_at
  pub created_at : t.created_at ≡ t'.created_at

pub TaskStep-IsValid : (t t' : GenerationTaskAggregate) → TaskStep t t' → IsValid t → IsValid t'
TaskStep-IsValid t t' (stay e) h = simp e h
TaskStep-IsValid t t' (move at s x m time room e) h =
    let (resulting, progressing, completing) =
      Move-valid_result _ _ _ _ _ _ t.created_at m h.resulting (omega (arith, h.updated)) in
    simp e (record {
      resulting = resulting;
      progressing = progressing;
      updated = omega (arith, h.updated);
      deadline = h.deadline;
      completing = completing;
    })

pub TaskStep-SameFacts : (t t' : GenerationTaskAggregate) → TaskStep t t' → SameFacts t t'
TaskStep-SameFacts t t' (stay e) = simp e (record {
  id = refl;
  origin = refl;
  idempotency_key = refl;
  request_hash = refl;
  target = refl;
  request = refl;
  provider_deadline_at = refl;
  created_at = refl;
})
TaskStep-SameFacts t t' (move at s x m time room e) = simp e (record {
  id = refl;
  origin = refl;
  idempotency_key = refl;
  request_hash = refl;
  target = refl;
  request = refl;
  provider_deadline_at = refl;
  created_at = refl;
})

module _ (sha256 : List ℕ → List ℕ) where
  -- The saved hash is that of the facts beside it.
  abbrev pub IsHashed : GenerationTaskAggregate → Type 0
  IsHashed t = t.request_hash ≡ canonical_request_hash sha256 t.origin t.request t.target

  create-IsValid :
      (id : Uuid) (o : GenerationTaskOrigin) (k : Utf8) (g : GenerationTaskTarget)
      (q : GenerationTaskRequest) (at deadline : GenerationTaskTimestamp)
      (t : GenerationTaskAggregate)
      → create sha256 id o k g q at deadline ≡ ok t
      → IsValid t × IsHashed t
  unfolding create progress_percent completed_at
  create-IsValid id o k g q at deadline t e = (
    record {
      resulting = ground arith;
      progressing = ground arith;
      updated = ground arith;
      deadline = ground arith;
      completing = ground arith;
    },
    ground arith,
  )

  restore_valid : (t : GenerationTaskAggregate) → IsValid t → IsHashed t → restore sha256 t ≡ ok t
  unfolding restore validate_restored_state
  restore_valid t h e = ground (arith, e, list_eq_refl t.request_hash)

  perform_all-IsValid :
      (cs : List Command) (t : GenerationTaskAggregate)
      → IsValid t
      → IsHashed t
      → IsValid (perform_all cs t) × IsHashed (perform_all cs t)
  perform_all-IsValid [] t h e = (h, e)
  perform_all-IsValid (c ∷ cs) t h e =
      let step = perform-TaskStep c t in
      let same = TaskStep-SameFacts t _ step in
      perform_all-IsValid cs _ (TaskStep-IsValid t _ step h)
        (ground (arith, same.origin, same.request, same.target, same.request_hash))

  -- A created task restores from its saved fields to itself, after any sequence of calls.
  pub perform_all-restore :
      (id : Uuid) (o : GenerationTaskOrigin) (k : Utf8) (g : GenerationTaskTarget)
      (q : GenerationTaskRequest) (at deadline : GenerationTaskTimestamp) (cs : List Command)
      (t : GenerationTaskAggregate)
      → create sha256 id o k g q at deadline ≡ ok t
      → restore sha256 (perform_all cs t) ≡ ok (perform_all cs t)
  perform_all-restore id o k g q at deadline cs t e =
      let (valid, hashed) = create-IsValid id o k g q at deadline t e in
      let (valid', hashed') = perform_all-IsValid cs t valid hashed in
      restore_valid _ valid' hashed'
