-- ===== src/Workflow/Plan/Closure.antt =====
-- crates/engine/src/workflow/plan.rs and run_admission.rs: the loop that gathers the ancestors of a
-- node by the sources each node has; it ends within one round for each identity.
use oh_my_dream.Common.{
  ℕ, zero, suc, ◌+◌, ◌≡◌, refl, sym, subst, true, false, some, List, [], ◌∷◌, length, contains,
  Bool-cases, ==_iff, inl, inr, ◌==◌, arith,
}
use oh_my_dream.Common.Distinct.{distinct}
use oh_my_dream.Common.Pigeonhole.{Subset, Subset-cons, length-Subset}
use oh_my_dream.Workflow.Value.{WorkflowNodeId}
use oh_my_dream.Workflow.Plan.{push_sources, ancestors}

-- A chain of sources leads from the node `selected` back to the node.
pub data IsAncestor (deps : WorkflowNodeId → List WorkflowNodeId) (selected : WorkflowNodeId)
    : WorkflowNodeId → Type 0 where
  itself : (id : WorkflowNodeId) → id ≡ selected → IsAncestor deps selected id
  source :
      (id target : WorkflowNodeId)
      → IsAncestor deps selected target
      → contains id (deps target) ≡ true
      → IsAncestor deps selected id

-- What pushing does to the two lists.
record IsPushed (ids included frontier included' frontier' : List WorkflowNodeId) : Type 0 where
  pub kept : Subset included included'
  pub pushed : Subset ids included'
  pub waiting :
      (a : WorkflowNodeId)
      → contains a included' ≡ true
      → contains a frontier' ≡ false
      → (contains a included ≡ true) × (contains a frontier ≡ false)

push_sources-IsPushed :
    (ids included frontier : List WorkflowNodeId)
    → IsPushed ids included frontier
        (push_sources ids (included, frontier)).0
        (push_sources ids (included, frontier)).1
unfolding push_sources
push_sources-IsPushed [] included frontier = record {
  kept = λ a e. e;
  pushed = λ a e. absurd (ground arith);
  waiting = λ a e f. (e, f);
}
push_sources-IsPushed (id ∷ ids) included frontier = elim (Bool-cases (contains id included)) [
  | inl e ↦
      let rest = push_sources-IsPushed ids included frontier in
      simp e (record {
        kept = rest.kept;
        pushed = λ a k. elim (Bool-cases (a == id)) [
          | inl p ↦
              rest.kept a (subst (λ b. contains b included ≡ true) (sym ((==_iff a id).0 p)) e)
          | inr p ↦ rest.pushed a (ground arith)
        ];
        waiting = rest.waiting;
      })
  | inr e ↦
      let rest = push_sources-IsPushed ids (id ∷ included) (id ∷ frontier) in
      simp e (record {
        kept = λ a k. rest.kept a (ground arith);
        pushed = λ a k. elim (Bool-cases (a == id)) [
          | inl p ↦ rest.kept a (ground arith)
          | inr p ↦ rest.pushed a (ground arith)
        ];
        waiting = λ a k f. let (x, y) = rest.waiting a k f in (ground arith, ground arith);
      })
]

module _ (deps : WorkflowNodeId → List WorkflowNodeId) (ids : List WorkflowNodeId)
    (selected : WorkflowNodeId) where
  -- What the loop keeps: `included` and `frontier`, with `fuel` rounds left.
  record IsOpen (fuel : ℕ) (included frontier : List WorkflowNodeId) : Type 0 where
    pub distinct_included : distinct included ≡ true
    pub known : Subset included ids
    pub stacked : Subset frontier included
    pub reaching : (a : WorkflowNodeId) → contains a included ≡ true → IsAncestor deps selected a
    pub budget : fuel + length included ≡ length ids + length frontier

  -- A new source joins both.
  IsOpen-cons :
      (fuel : ℕ) (id : WorkflowNodeId) (included frontier : List WorkflowNodeId)
      → contains id ids ≡ true
      → IsAncestor deps selected id
      → contains id included ≡ false
      → IsOpen fuel included frontier
      → IsOpen fuel (id ∷ included) (id ∷ frontier)
  IsOpen-cons fuel id included frontier known reach fresh h = record {
    distinct_included = ground (arith, h.distinct_included);
    known = Subset-cons id included ids known h.known;
    stacked =
        Subset-cons id frontier (id ∷ included) (ground arith)
          (λ a e. ground (arith, h.stacked a e));
    reaching = λ a e. elim (Bool-cases (a == id)) [
      | inl p ↦ subst (IsAncestor deps selected) (sym ((==_iff a id).0 p)) reach
      | inr p ↦ h.reaching a (ground arith)
    ];
    budget = omega (arith, h.budget);
  }

  push_sources-IsOpen :
      (fuel : ℕ) (new included frontier : List WorkflowNodeId)
      → Subset new ids
      → ((a : WorkflowNodeId) → contains a new ≡ true → IsAncestor deps selected a)
      → IsOpen fuel included frontier
      → IsOpen fuel
          (push_sources new (included, frontier)).0
          (push_sources new (included, frontier)).1
  unfolding push_sources
  push_sources-IsOpen fuel [] included frontier known reach h = h
  push_sources-IsOpen fuel (id ∷ rest) included frontier known reach h =
      let known' : Subset rest ids = λ a e. known a (ground arith) in
      let reach' : (a : WorkflowNodeId) → contains a rest ≡ true → IsAncestor deps selected a =
        λ a e. reach a (ground arith) in
      elim (Bool-cases (contains id included)) [
        | inl e ↦ simp e (push_sources-IsOpen fuel rest included frontier known' reach' h)
        | inr e ↦ simp e (
            push_sources-IsOpen fuel rest (id ∷ included) (id ∷ frontier) known' reach' (
              IsOpen-cons fuel id included frontier (known id (ground arith))
                (reach id (ground arith)) e h))
      ]

  IsOpen-pop :
      (fuel : ℕ) (id : WorkflowNodeId) (included frontier : List WorkflowNodeId)
      → IsOpen (suc fuel) included (id ∷ frontier)
      → IsOpen fuel included frontier
  IsOpen-pop fuel id included frontier h = record {
    distinct_included = h.distinct_included;
    known = h.known;
    stacked = λ a e. h.stacked a (ground arith);
    reaching = h.reaching;
    budget = omega (arith, h.budget);
  }

  -- The loop ends, with the invariant, within the fuel.
  ancestors-IsOpen :
      ((id : WorkflowNodeId) → Subset (deps id) ids)
      → (fuel : ℕ) (included frontier : List WorkflowNodeId) → IsOpen fuel included frontier
      → (result : List WorkflowNodeId) × (rest : ℕ) × (ancestors fuel deps (included, frontier)
          ≡ some result)
        × IsOpen rest result []
  unfolding ancestors
  ancestors-IsOpen known fuel included [] h = (included, fuel, refl, h)
  ancestors-IsOpen known zero included (id ∷ frontier) h =
      absurd (omega (arith, h.budget, length-Subset included ids h.distinct_included h.known))
  ancestors-IsOpen known (suc fuel) included (id ∷ frontier) h =
      let reach = h.reaching id (h.stacked id (ground arith)) in
      ancestors-IsOpen known fuel _ _ (
        push_sources-IsOpen fuel (deps id) included frontier (known id) (λ a e. source a id reach e)
          (IsOpen-pop fuel id included frontier h))

  -- Every node that is included and no longer in the stack has its sources included.
  abbrev IsClosed : List WorkflowNodeId → List WorkflowNodeId → Type 0
  IsClosed included frontier =
      (a : WorkflowNodeId)
      → contains a included ≡ true
      → contains a frontier ≡ false
      → Subset (deps a) included

  ancestors-IsClosed :
      (fuel : ℕ) (included frontier result : List WorkflowNodeId)
      → IsClosed included frontier
      → ancestors fuel deps (included, frontier) ≡ some result
      → Subset included result × IsClosed result []
  unfolding ancestors
  ancestors-IsClosed fuel included [] result c e =
      let same : included ≡ result = cc in
      subst (λ r. Subset included r × IsClosed r []) same (λ a k. k, c)
  ancestors-IsClosed zero included (id ∷ frontier) result c e = absurd (ground arith)
  ancestors-IsClosed (suc fuel) included (id ∷ frontier) result c e =
      let p = push_sources-IsPushed (deps id) included frontier in
      let (grown, closed) =
        ancestors-IsClosed fuel _ _ result
          (λ a k f b d.
            let (x, y) = p.waiting a k f in
            elim (Bool-cases (a == id)) [
              | inl q ↦ p.pushed b (subst (λ z. contains b (deps z) ≡ true) ((==_iff a id).0 q) d)
              | inr q ↦ p.kept b (c a x (ground arith) b d)
            ])
          e in
      (λ a k. grown a (p.kept a k), closed)

  IsAncestor-included :
      (result : List WorkflowNodeId)
      → contains selected result ≡ true
      → IsClosed result []
      → (id : WorkflowNodeId) → IsAncestor deps selected id
      → contains id result ≡ true
  IsAncestor-included result s c id (itself same e) =
      subst (λ z. contains z result ≡ true) (sym e) s
  IsAncestor-included result s c id (source same target reach d) =
      c target (IsAncestor-included result s c target reach) refl id d

  -- What the loop gathers: exactly the nodes from which a chain of sources leads to the selected one.
  pub record IsClosure (result : List WorkflowNodeId) : Type 0 where
    pub distinct_result : distinct result ≡ true
    pub known_result : Subset result ids
    pub selected_result : contains selected result ≡ true
    pub reached : (id : WorkflowNodeId) → contains id result ≡ true → IsAncestor deps selected id
    pub complete : (id : WorkflowNodeId) → IsAncestor deps selected id → contains id result ≡ true
    pub closed : (id : WorkflowNodeId) → contains id result ≡ true → Subset (deps id) result

  selected-IsOpen :
      contains selected ids ≡ true → IsOpen (length ids) (selected ∷ []) (selected ∷ [])
  selected-IsOpen h = record {
    distinct_included = refl;
    known = Subset-cons selected [] ids h (λ a e. absurd (ground arith));
    stacked = λ a e. e;
    reaching = λ a e. itself a ((==_iff a selected).0 (ground arith));
    budget = omega arith;
  }

  -- When the sources of every node and the selected node are among the identities, the loop over the
  -- ancestors ends within one round for each identity and gathers exactly the nodes from which a chain
  -- of sources leads to the selected one, each once.
  pub ancestors-IsClosure :
      ((id : WorkflowNodeId) → Subset (deps id) ids)
      → contains selected ids ≡ true
      → (result : List WorkflowNodeId) × (ancestors (length ids) deps (selected ∷ [], selected ∷ [])
          ≡ some result)
        × IsClosure result
  ancestors-IsClosure known h =
      let (result, rest, e, inv) =
        ancestors-IsOpen known (length ids) (selected ∷ []) (selected ∷ []) (selected-IsOpen h) in
      let (grown, closed) =
        ancestors-IsClosed (length ids) (selected ∷ []) (selected ∷ []) result
          (λ a k f. absurd (ground arith)) e in
      let found : contains selected result ≡ true = grown selected (ground arith) in
      (
        result,
        e,
        record {
          distinct_result = inv.distinct_included;
          known_result = inv.known;
          selected_result = found;
          reached = inv.reaching;
          complete = IsAncestor-included result found closed;
          closed = λ id k. closed id k refl;
        },
      )
