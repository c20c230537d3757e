-- ===== src/Graph/Cycles/Decide.antt =====
-- The cycle check decides whether the edges have a rank, and never runs out of fuel.
use oh_my_dream.Common.{
  ℕ, zero, suc, ◌≤◌, ◌<◌, ◌≡◌, ◌↔◌, refl, map, Bool, true, false, ◌&&◌, ◌||◌, Option, none, some,
  List, [], ◌∷◌, all, contains, length, is_ascending, ◌==◌, ==_iff, ok, err, Bool-cases, inl, inr,
  if◌then◌else◌, arith,
}
use oh_my_dream.Common.Bytes.{nat_ord}
use oh_my_dream.Common.Distinct.{distinct, distinct_of_is_ascending}
use oh_my_dream.Common.Pigeonhole.{Subset, length-Subset, Subset_full}
use oh_my_dream.Common.Maps.{get}
use oh_my_dream.Workflow.Value.{WorkflowNodeId}
use oh_my_dream.Graph.Value.{cycle}
use oh_my_dream.Graph.Cycles.{Edge, Degrees, zero_degrees, ready_nodes, reject_cycles}
use oh_my_dream.Graph.Cycles.Count.{contains_edge, count_open, count_open-source}
use oh_my_dream.Graph.Cycles.Build.{ends_in, add_edges-IsBuilt, zero_degrees-IsCounted}
use oh_my_dream.Graph.Cycles.Visit.{IsOrdered, IsReleasing}
use oh_my_dream.Graph.Cycles.Loop.{visit-IsVisited}
use oh_my_dream.Graph.Cycles.Acyclic.{IsAcyclic}

abbrev is_zero : Option ℕ → Bool
is_zero none = false
is_zero (some n) = n == 0

abbrev keys_of : Degrees → List WorkflowNodeId
keys_of = map (λ e. e.0)

get-absent : (a : WorkflowNodeId) (d : Degrees) → contains a (keys_of d) ≡ false → get a d ≡ none
get-absent a [] h = refl
get-absent a ((i, n) ∷ d) h = ground (arith, get-absent a d)

contains-ready_nodes :
    (d : Degrees) (acc : List WorkflowNodeId) (a : WorkflowNodeId)
    → distinct (keys_of d) ≡ true
    → contains a (ready_nodes d acc) ≡ (contains a acc || is_zero (get a d))
unfolding ready_nodes
contains-ready_nodes [] acc a u = ground arith
contains-ready_nodes ((i, n) ∷ d) acc a u =
    ground (
      arith,
      contains-ready_nodes d (if n == 0 then i ∷ acc else acc) a,
      get-absent i d,
      ==_iff a i,
    )

distinct-ready_nodes :
    (d : Degrees) (acc : List WorkflowNodeId)
    → distinct (keys_of d) ≡ true
    → distinct acc ≡ true
    → ((a : WorkflowNodeId) → contains a (keys_of d) ≡ true → contains a acc ≡ false)
    → distinct (ready_nodes d acc) ≡ true
unfolding ready_nodes
distinct-ready_nodes [] acc u v apart = v
distinct-ready_nodes ((i, n) ∷ d) acc u v apart =
    distinct-ready_nodes d (if n == 0 then i ∷ acc else acc) (ground arith)
      (ground (arith, apart i)) (λ a k. ground (arith, apart a, ==_iff a i))

-- Where a node stands in the list of the visited.
abbrev rank_in : List WorkflowNodeId → WorkflowNodeId → ℕ
rank_in [] v = 0
rank_in (x ∷ xs) v = if v == x then suc (length xs) else rank_in xs v

rank_in-le : (xs : List WorkflowNodeId) (v : WorkflowNodeId) → rank_in xs v ≤ length xs
rank_in-le [] v = omega arith
rank_in-le (x ∷ xs) v = ground (arith, rank_in-le xs v)

module _ (es : List Edge) where
  IsOrdered-source :
      (xs : List WorkflowNodeId) (u v : WorkflowNodeId)
      → IsOrdered es xs
      → contains v xs ≡ true
      → contains_edge u v es ≡ true
      → contains u xs ≡ true
  IsOrdered-source [] u v o h e = absurd (ground arith)
  IsOrdered-source (x ∷ xs) u v o h e =
      ground (arith, o.0 u, ==_iff v x, IsOrdered-source xs u v o.1)

  rank_in-lt :
      (xs : List WorkflowNodeId) (u v : WorkflowNodeId)
      → IsOrdered es xs
      → distinct xs ≡ true
      → contains v xs ≡ true
      → contains_edge u v es ≡ true
      → rank_in xs u < rank_in xs v
  rank_in-lt [] u v o d h e = absurd (ground arith)
  rank_in-lt (x ∷ xs) u v o d h e = ground (
    arith,
    o.0 u,
    ==_iff v x,
    ==_iff u x,
    rank_in-le xs u,
    IsOrdered-source xs u v o.1,
    rank_in-lt xs u v o.1,
  )

module _ (ids : List WorkflowNodeId) (es : List Edge) (indegree : Degrees) where
  start-IsReleasing :
      is_ascending ids ≡ true
      → keys_of indegree ≡ ids
      → ((v : WorkflowNodeId) → contains v ids ≡ true → get v indegree ≡ some (count_open v [] es))
      → IsReleasing ids es [] indegree [] (ready_nodes indegree [])
  start-IsReleasing order keys degrees =
      let unique : distinct (keys_of indegree) ≡ true =
        rw keys (distinct_of_is_ascending ids order) in
      let ready = λ (a : WorkflowNodeId). contains-ready_nodes indegree [] a unique in
      let inside : (a : WorkflowNodeId) → is_zero (get a indegree) ≡ true → contains a ids ≡ true =
        λ a z. rw (← keys) (elim (Bool-cases (contains a (keys_of indegree))) [
          | inl k ↦ k
          | inr k ↦ absurd (ground (arith, get-absent a indegree))
        ]) in
      record {
        degrees = λ v k. ground (arith, degrees v k);
        distinct_ready = distinct-ready_nodes indegree [] unique refl (λ a k. refl);
        distinct_visited = refl;
        apart = λ a s. refl;
        known = λ a s. inside a (ground (arith, ready a));
        free = λ a s. ground (arith, ready a, inside a, degrees a);
        complete = λ a k c m. ground (arith, ready a, degrees a k);
        ordered = tt;
      }

-- All edges start at the nodes.
abbrev pub starts_in : List WorkflowNodeId → List Edge → Bool
starts_in ids es = all (λ e. contains e.0 ids) es

pub contains_edge-ends_in :
    (ids : List WorkflowNodeId) (es : List Edge) (u v : WorkflowNodeId)
    → (starts_in ids es && ends_in ids es) ≡ true
    → contains_edge u v es ≡ true
    → (contains u ids ≡ true) × (contains v ids ≡ true)
contains_edge-ends_in ids [] u v k e = absurd (ground arith)
contains_edge-ends_in ids ((a, b) ∷ es) u v k e =
    ground (arith, ==_iff u a, ==_iff v b, contains_edge-ends_in ids es u v)

module _ (ids : List WorkflowNodeId) (es : List Edge) (order : is_ascending ids ≡ true)
    (inside : (starts_in ids es && ends_in ids es) ≡ true) where
  -- The check as a comparison of two lengths, with what is known of the visited nodes.
  record IsRun : Type 0 where
    pub counted : List Edge
    pub visited : List WorkflowNodeId
    pub indegree : Degrees
    pub run : reject_cycles ids es ≡ (if length visited == length ids then ok tt else err cycle)
    pub holds : IsReleasing ids counted visited indegree [] []
    pub same : (u v : WorkflowNodeId) → contains_edge u v counted ≡ contains_edge u v es

  reject_cycles-IsRun : IsRun
  unfolding reject_cycles
  reject_cycles-IsRun =
      let b =
        add_edges-IsBuilt ids [] es (zero_degrees ids) [] order (zero_degrees-IsCounted ids)
          (ground arith) in
      let c = b.holds in
      let start = start-IsReleasing ids b.counted b.indegree' order c.keys c.degrees in
      let v =
        visit-IsVisited ids b.counted b.outgoing' c.targets c.ascending c.distinct_sources
          (λ x y e. (contains_edge-ends_in ids es x y inside (ground (arith, b.same x y))).1)
          (length ids) [] b.indegree' (ready_nodes b.indegree' []) (omega arith) start in
      record {
        counted = b.counted;
        visited = v.visited';
        indegree = v.indegree';
        run = ground (arith, b.run, v.run);
        holds = v.holds;
        same = λ x y. ground (arith, b.same x y);
      }

  accepted-IsAcyclic : reject_cycles ids es ≡ ok tt → IsAcyclic es
  accepted-IsAcyclic e =
      let r = reject_cycles-IsRun in
      let h = r.holds in
      let known : Subset r.visited ids = λ a k. h.known a (ground arith) in
      let full = Subset_full r.visited ids h.distinct_visited known (ground (arith, r.run)) in
      record {
        rank = rank_in r.visited;
        grows = λ u v k.
            rank_in-lt r.counted r.visited u v h.ordered h.distinct_visited
              (full v (contains_edge-ends_in ids es u v inside k).1) (ground (arith, r.same u v));
      }

  -- With a rank every node is visited: a node that is not would have a source of smaller rank that is
  -- not either.
  IsAcyclic-visited :
      (a : IsAcyclic es) (r : IsRun) (n : ℕ) (v : WorkflowNodeId)
      → a.rank v < n
      → contains v ids ≡ true
      → contains v r.visited ≡ true
  IsAcyclic-visited a r zero v l k = absurd (omega arith)
  IsAcyclic-visited a r (suc n) v l k = elim (Bool-cases (contains v r.visited)) [
    | inl seen ↦ seen
    | inr new ↦
        let h = r.holds in
        let (u, edge, fresh) =
          count_open-source v r.visited r.counted (ground (arith, h.complete v k)) in
        let edge' : contains_edge u v es ≡ true = ground (arith, r.same u v) in
        let below =
          IsAcyclic-visited a r n u (omega (arith, a.grows u v edge'))
            (contains_edge-ends_in ids es u v inside edge').0 in
        absurd (ground arith)
  ]

  IsAcyclic-accepted : IsAcyclic es → reject_cycles ids es ≡ ok tt
  IsAcyclic-accepted a =
      let r = reject_cycles-IsRun in
      let h = r.holds in
      let known : Subset r.visited ids = λ x k. h.known x (ground arith) in
      let full : Subset ids r.visited =
        λ x k. IsAcyclic-visited a r (suc (a.rank x)) x (omega arith) k in
      ground (
        arith,
        r.run,
        length-Subset r.visited ids h.distinct_visited known,
        length-Subset ids r.visited (distinct_of_is_ascending ids order) full,
      )

  -- For nodes in ascending order and edges between them, the cycle check accepts exactly when some rank
  -- of the nodes grows along every edge.
  pub reject_cycles_iff : (reject_cycles ids es ≡ ok tt) ↔ IsAcyclic es
  reject_cycles_iff = (accepted-IsAcyclic, IsAcyclic-accepted)
