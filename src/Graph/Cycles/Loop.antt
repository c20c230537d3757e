-- ===== src/Graph/Cycles/Loop.antt =====
-- The two loops of the visit run to their end, with what `Visit` says that they keep.
use oh_my_dream.Common.{
  ℕ, zero, suc, ◌+◌, ◌≡◌, refl, true, false, some, List, [], ◌∷◌, contains, length, is_ascending,
  ◌==◌, ==_iff, ok, Bool-cases, inl, inr, arith,
}
use oh_my_dream.Common.Bytes.{nat_ord}
use oh_my_dream.Common.Distinct.{distinct, distinct_of_is_ascending}
use oh_my_dream.Common.Pigeonhole.{Subset, length-Subset}
use oh_my_dream.Common.Maps.{insert}
use oh_my_dream.Workflow.Value.{WorkflowNodeId}
use oh_my_dream.Graph.Cycles.{Edge, Degrees, Outgoing, targets_of, release, visit}
use oh_my_dream.Graph.Cycles.Count.{
  contains_edge, distinct_edges, count_open, count_open-eq-zero, count_open-cons,
}
use oh_my_dream.Graph.Cycles.Visit.{IsReleasing, released, IsReleasing-waiting, IsReleasing-ready}

module _ (ids : List WorkflowNodeId) (es : List Edge) where
  record IsReleased (visited : List WorkflowNodeId) (indegree : Degrees)
      (targets ready : List WorkflowNodeId) : Type 0 where
    pub indegree' : Degrees
    pub ready' : List WorkflowNodeId
    pub run : release targets indegree ready ≡ ok (indegree', ready')
    pub holds : IsReleasing ids es visited indegree' [] ready'

  release-IsReleased :
      (visited : List WorkflowNodeId) (indegree : Degrees) (targets ready : List WorkflowNodeId)
      → distinct targets ≡ true
      → Subset targets ids
      → IsReleasing ids es visited indegree targets ready
      → IsReleased visited indegree targets ready
  unfolding release
  release-IsReleased visited indegree [] ready d s h = record {
    indegree' = indegree;
    ready' = ready;
    run = refl;
    holds = h;
  }
  release-IsReleased visited indegree (t ∷ targets) ready d s h =
      let inside : contains t ids ≡ true = s t (ground arith) in
      let s' : Subset targets ids = λ a e. s a (ground arith) in
      let degree = released ids es visited indegree t targets ready d inside h in
      elim (Bool-cases (count_open t visited es == 0)) [
        | inl z ↦
            let r =
              release-IsReleased visited (insert t (count_open t visited es) indegree) targets
                (t ∷ ready) (ground arith) s'
                (IsReleasing-ready ids es visited indegree t targets ready d inside h z) in
            record {
              indegree' = r.indegree';
              ready' = r.ready';
              run = ground (arith, degree, r.run);
              holds = r.holds;
            }
        | inr z ↦
            let r =
              release-IsReleased visited (insert t (count_open t visited es) indegree) targets ready
                (ground arith) s'
                (IsReleasing-waiting ids es visited indegree t targets ready d inside h z) in
            record {
              indegree' = r.indegree';
              ready' = r.ready';
              run = ground (arith, degree, r.run);
              holds = r.holds;
            }
      ]

  module _ (outgoing : Outgoing)
      (counts : (u v : WorkflowNodeId) → contains v (targets_of u outgoing) ≡ contains_edge u v es)
      (ascending : (u : WorkflowNodeId) → is_ascending (targets_of u outgoing) ≡ true)
      (sources : distinct_edges es ≡ true)
      (ends : (u v : WorkflowNodeId) → contains_edge u v es ≡ true → contains v ids ≡ true) where
    -- A ready node is visited, and its targets are to release.
    IsReleasing-visit :
        (visited : List WorkflowNodeId) (indegree : Degrees) (u : WorkflowNodeId)
        (ready : List WorkflowNodeId)
        → IsReleasing ids es visited indegree [] (u ∷ ready)
        → IsReleasing ids es (u ∷ visited) indegree (targets_of u outgoing) ready
    IsReleasing-visit visited indegree u ready h =
        let new : contains u visited ≡ false = h.apart u (ground arith) in
        record {
          degrees = λ v k.
              ground (arith, h.degrees v k, counts u v, count_open-cons u v visited es new sources);
          distinct_ready = ground (arith, h.distinct_ready);
          distinct_visited = ground (arith, h.distinct_visited);
          apart = λ a s. ground (arith, h.apart a, h.distinct_ready, ==_iff a u);
          known = λ a s. ground (arith, h.known a);
          free = λ a s.
              ground (arith, h.free a, counts u a, count_open-cons u a visited es new sources);
          complete = λ a k c m.
              ground
                (arith, h.complete a k, counts u a, count_open-cons u a visited es new sources);
          ordered =
              (λ w e. count_open-eq-zero w u visited es (h.free u (ground arith)).0 e, h.ordered);
        }

    pub record IsVisited (fuel : ℕ) (visited : List WorkflowNodeId) (indegree : Degrees)
        (ready : List WorkflowNodeId) : Type 0 where
      pub visited' : List WorkflowNodeId
      pub indegree' : Degrees
      pub run : visit fuel outgoing indegree ready (length visited) ≡ some (ok (length visited'))
      pub holds : IsReleasing ids es visited' indegree' [] []

    -- The loop ends within one round for each node that is not visited.
    pub visit-IsVisited :
        (fuel : ℕ) (visited : List WorkflowNodeId) (indegree : Degrees)
        (ready : List WorkflowNodeId)
        → fuel + length visited ≡ length ids
        → IsReleasing ids es visited indegree [] ready
        → IsVisited fuel visited indegree ready
    unfolding visit
    visit-IsVisited fuel visited indegree [] b h = record {
      visited' = visited;
      indegree' = indegree;
      run = refl;
      holds = h;
    }
    visit-IsVisited zero visited indegree (u ∷ ready) b h =
        let unique : distinct (u ∷ visited) ≡ true =
          ground (arith, h.apart u, h.distinct_visited) in
        let all_known : Subset (u ∷ visited) ids = λ a e. h.known a (ground arith) in
        absurd (omega (arith, b, length-Subset (u ∷ visited) ids unique all_known))
    visit-IsVisited (suc fuel) visited indegree (u ∷ ready) b h =
        let r =
          release-IsReleased (u ∷ visited) indegree (targets_of u outgoing) ready
            (distinct_of_is_ascending (targets_of u outgoing) (ascending u))
            (λ a e. ends u a (ground (arith, counts u a)))
            (IsReleasing-visit visited indegree u ready h) in
        let rest = visit-IsVisited fuel (u ∷ visited) r.indegree' r.ready' (omega arith) r.holds in
        record {
          visited' = rest.visited';
          indegree' = rest.indegree';
          run = ground (arith, r.run, rest.run);
          holds = rest.holds;
        }
