-- ===== src/Workflow/Run/Bounds.antt =====
-- The ranges of what a Run carries: the numbers and times of its events and the progress of its nodes.
use oh_my_dream.Common.{
  ℕ, suc, ◌+◌, ◌^◌, ◌<◌, ◌≡◌, refl, Bool, true, false, ◌&&◌, ◌||◌, Option, none, some, List, [],
  ◌∷◌, all, length, ltb, leb, arith,
}
use oh_my_dream.Workflow.Value.{WorkflowRunId, WorkflowRunTime, WorkflowNodeExecutionState}
use oh_my_dream.Workflow.Plan.{WorkflowPlannedNode}
use oh_my_dream.Workflow.Run.{WorkflowRunAggregate, WorkflowRunEvent}
use oh_my_dream.Workflow.Run.Transition.{Node}
use oh_my_dream.Workflow.Run.Restore.{node_shape_is_valid, nodes_match_plan, events_from}
use oh_my_dream.Workflow.Run.Reach.{Reach, Reach-IsWellFormed}

-- In hundredths of a percent
abbrev is_progress : Option ℕ → Bool
is_progress none = true
is_progress (some basis_points) = leb basis_points 10000

abbrev is_absent : Option ℕ → Bool
is_absent none = true
is_absent (some basis_points) = false

abbrev is_running : WorkflowNodeExecutionState → Bool
is_running WorkflowNodeExecutionState.running = true
is_running _ = false

module _ {O C : Type 0} where
  abbrev pub fits_event : WorkflowRunTime → WorkflowRunTime → WorkflowRunEvent O C → Bool
  fits_event created updated e =
      leb 1 e.sequence
      && ltb e.sequence (2 ^ 64)
      && leb created e.occurred_at
      && leb e.occurred_at updated

  abbrev pub fits_node : Node O C → Bool
  fits_node n =
      is_progress n.progress_basis_points
      && (is_running n.state || is_absent n.progress_basis_points)

  -- Numbers from 1 to 2^64 - 1, times from the creation to the last change, and progress of at most
  -- 10,000 basis points, which only a running node has.
  pub record IsBounded (r : WorkflowRunAggregate O C) : Type 0 where
    pub events : all (fits_event r.created_at r.updated_at) r.events ≡ true
    pub nodes : all fits_node r.node_executions ≡ true

  events_from-fits :
      (run : WorkflowRunId) (created updated : WorkflowRunTime) (index : ℕ)
      (previous : Option WorkflowRunTime) (es : List (WorkflowRunEvent O C))
      → events_from run created updated index previous es ≡ true
      → index + length es < 2 ^ 64
      → all (fits_event created updated) es ≡ true
  unfolding events_from
  events_from-fits run created updated index previous [] h l = refl
  events_from-fits run created updated index previous (e ∷ es) h l = ground (
    arith,
    events_from-fits run created updated (suc index) (some e.occurred_at) es (ground arith)
        (omega arith),
  )

  node_shape_is_valid-fits : (n : Node O C) → node_shape_is_valid n ≡ true → fits_node n ≡ true
  unfolding node_shape_is_valid
  node_shape_is_valid-fits n h = ground arith

  nodes_match_plan-fits :
      (ps : List WorkflowPlannedNode) (ns : List (Node O C))
      → nodes_match_plan ps ns ≡ true
      → all fits_node ns ≡ true
  unfolding nodes_match_plan
  nodes_match_plan-fits [] [] h = refl
  nodes_match_plan-fits [] (n ∷ ns) h = absurd (ground arith)
  nodes_match_plan-fits (p ∷ ps) [] h = absurd (ground arith)
  nodes_match_plan-fits (p ∷ ps) (n ∷ ns) h =
      ground (arith, node_shape_is_valid-fits n, nodes_match_plan-fits ps ns)

  -- In every Run that admission with a valid plan and successful methods lead to, blocking a node of a
  -- queued Run left out, the event numbers lie between 1 and 2^64 - 1, the times between the creation
  -- and the last change, and no progress exceeds 10,000 basis points or belongs to a node that is not
  -- running.
  pub Reach-IsBounded : {r : WorkflowRunAggregate O C} → Reach r → IsBounded r
  Reach-IsBounded {r} h =
      let w = Reach-IsWellFormed h in
      record {
        events =
            events_from-fits r.run_id r.created_at r.updated_at 0 none r.events w.history.numbered
              (omega (arith, w.history.room));
        nodes = nodes_match_plan-fits r.plan.nodes r.node_executions w.shape.planned;
      }
