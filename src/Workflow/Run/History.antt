-- ===== src/Workflow/Run/History.antt =====
-- The event log of a Run: numbered from 1 without gaps, in time order, within the Run's times.
use native.Mathlib.Decide.{dec_le}
use oh_my_dream.Common.{
  ◌⊎◌, inl, inr, Option-cases, Result-cases, ℕ, suc, ◌+◌, ◌^◌, ◌≤◌, ◌<◌, ◌≡◌, refl, true, false,
  Option, none, some, List, [], ◌∷◌, ◌++◌, length, length-append, last, is_empty, ok, arith,
}
use oh_my_dream.Common.State.{◌>>=◌}
use oh_my_dream.Workflow.Value.{WorkflowRunId, WorkflowRunTime}
use oh_my_dream.Workflow.Value.Sequence.{next}
use oh_my_dream.Workflow.Run.{WorkflowRunAggregate, WorkflowRunEvent, WorkflowRunEventPayload}
use oh_my_dream.Workflow.Run.Transition.{push_event, ensure_event_can_be_recorded}
use oh_my_dream.Workflow.Run.Restore.{events_from}

module _ {O C : Type 0} where
  pub record IsHistory (r : WorkflowRunAggregate O C) : Type 0 where
    pub created : r.created_at ≤ r.updated_at
    pub begun : is_empty r.events ≡ false
    pub numbered : events_from r.run_id r.created_at r.updated_at 0 none r.events ≡ true
    pub room : length r.events < 2 ^ 64

  is_empty-snoc :
      (es : List (WorkflowRunEvent O C)) (e : WorkflowRunEvent O C)
      → is_empty (es ++ e ∷ []) ≡ false
  is_empty-snoc [] e = refl
  is_empty-snoc (f ∷ es) e = refl

  module _ (run : WorkflowRunId) (created updated now : WorkflowRunTime) (le : updated ≤ now) where
    -- A log stays valid when an event with the next number follows it, at a later time.
    events_from-snoc :
        (index : ℕ) (previous : Option WorkflowRunTime) (es : List (WorkflowRunEvent O C))
        (l : WorkflowRunEvent O C) (s : ℕ) (p : WorkflowRunEventPayload O C)
        → created ≤ now
        → events_from run created updated index previous es ≡ true
        → index + length es < 2 ^ 64
        → last es ≡ some l
        → next l.sequence ≡ ok s
        → (events_from run created now index previous
              (es ++ record { run_id = run; sequence = s; occurred_at = now; payload = p } ∷ [])
            ≡ true)
          × (index + length es + 1 < 2 ^ 64)
    unfolding events_from next
    events_from-snoc index previous [] l s p c v room h n = absurd (ground arith)
    events_from-snoc index previous (e ∷ []) l s p c v room h n = ground arith
    events_from-snoc index previous (e ∷ f ∷ es) l s p c v room h n =
        ground (arith, events_from-snoc (suc index) (some e.occurred_at) (f ∷ es) l s p)

  -- The Run after `push_event` has appended an event of number `s`.
  abbrev recorded :
      WorkflowRunTime
      → WorkflowRunEventPayload O C
      → ℕ
      → WorkflowRunAggregate O C
      → WorkflowRunAggregate O C
  recorded t p s r = record r {
    events =
        r.events ++ record { run_id = r.run_id; sequence = s; occurred_at = t; payload = p } ∷ [];
    updated_at = t;
  }

  recorded-IsHistory :
      (t : WorkflowRunTime) (p : WorkflowRunEventPayload O C) (s : ℕ) (r : WorkflowRunAggregate O C)
      (l : WorkflowRunEvent O C)
      → IsHistory r
      → r.updated_at ≤ t
      → last r.events ≡ some l
      → next l.sequence ≡ ok s
      → IsHistory (recorded t p s r)
  recorded-IsHistory t p s r l h le e n =
      let (numbered, room) =
        events_from-snoc r.run_id r.created_at r.updated_at t le 0 none r.events l s p
          (omega (arith, h.created)) h.numbered (omega (arith, h.room)) e n in
      record {
        created = omega (arith, h.created);
        begun = is_empty-snoc r.events _;
        numbered = numbered;
        room = omega (
          arith,
          room,
          length-append r.events
              (record { run_id = r.run_id; sequence = s; occurred_at = t; payload = p } ∷ []),
        );
      }

  push_event-cases :
      (t : WorkflowRunTime) (p : WorkflowRunEventPayload O C) (r : WorkflowRunAggregate O C)
      → ((push_event t p r).1 ≡ r)
        ⊎ ((l : WorkflowRunEvent O C) × (s : ℕ) × (last r.events ≡ some l)
            × (next l.sequence ≡ ok s)
            × (r.updated_at ≤ t)
            × ((push_event t p r).1 ≡ recorded t p s r))
  unfolding push_event ensure_event_can_be_recorded ◌>>=◌
  push_event-cases t p r = elim (Option-cases (last r.events)) [
    | inl e ↦ inl (ground arith)
    | inr (l, e) ↦ elim (Result-cases (next l.sequence)) [
      | inr (x, n) ↦ inl (ground arith)
      | inl (s, n) ↦ elim (dec_le r.updated_at t) [
        | yes le ↦ inr (l, s, e, n, le, ground arith)
        | no late ↦ inl (ground arith)
      ]
    ]
  ]

  pub push_event-IsHistory :
      (t : WorkflowRunTime) (p : WorkflowRunEventPayload O C) (r : WorkflowRunAggregate O C)
      → IsHistory r
      → IsHistory (push_event t p r).1
  push_event-IsHistory t p r h = elim (push_event-cases t p r) [
    | inl same ↦ rw same h
    | inr (l, s, e, n, le, out) ↦ rw out (recorded-IsHistory t p s r l h le e n)
  ]
