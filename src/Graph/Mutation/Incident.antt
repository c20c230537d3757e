-- ===== src/Graph/Mutation/Incident.antt =====
-- Removing a node removes the edges that start or end at it, and no other.
use mathlib.Core.List.{append_assoc}
use oh_my_dream.Common.{
  ◌≤◌, ◌≡◌, refl, ap, ◌∙◌, subst, Bool, true, false, not, none, some, List, [], ◌∷◌, ◌++◌, all, any,
  filter, length, is_empty, ◌==◌, ok, Bool-cases, Result-cases, inl, inr, if◌then◌else◌, arith,
}
use oh_my_dream.Common.Bytes.{nat_ord}
use oh_my_dream.Common.Maps.{
  get, contains_key, remove, IsSorted, insert-IsSorted, remove-IsSorted, retain-IsSorted,
  below_of_IsSorted, get_after, insert_after, remove_after, get-remove,
}
use oh_my_dream.Workflow.Value.{
  WorkflowNodeId, WorkflowInputItemEntity, WorkflowInputBinding, single, ordered_references, items,
}
use oh_my_dream.Graph.Value.{WorkflowInputTarget, target_ord, is_none, ordered_items}
use oh_my_dream.Graph.Cycles.{Edge, edges_of, edges}
use oh_my_dream.Graph.Aggregate.{Bindings, WorkflowAggregate}
use oh_my_dream.Graph.Mutation.{
  keep_remaining, remove_items_from_source, remove_from_all, not_at, keys, retain_others,
  remove_incident, remove_node,
}

-- What the type of ordered items keeps: all items have a role.
abbrev pub has_roles : WorkflowInputBinding → Bool
has_roles (single item) = true
has_roles (ordered_references entries) = not (any (λ item. is_none item.input_role_key) entries)

abbrev pub have_roles : Bindings → Bool
have_roles = all (λ e. has_roles e.1)

abbrev others : WorkflowNodeId → List WorkflowInputItemEntity → List WorkflowInputItemEntity
others source = filter (λ item. not (item.source_node_id == source))

-- The loop as one pass.
abbrev sweep : WorkflowNodeId → Bindings → Bindings
sweep source [] = []
sweep source ((target, binding) ∷ rest) =
    let rest' = sweep source rest in
    if length (others source (items binding)) == length (items binding)
    then (target, binding) ∷ rest'
    else if is_empty (others source (items binding))
    then rest'
    else (target, ordered_references (others source (items binding))) ∷ rest'

length-others :
    (s : WorkflowNodeId) (l : List WorkflowInputItemEntity) → length (others s l) ≤ length l
length-others s [] = omega arith
length-others s (i ∷ l) = ground (arith, length-others s l)

others_full :
    (s : WorkflowNodeId) (l : List WorkflowInputItemEntity)
    → length (others s l) ≡ length l
    → others s l ≡ l
others_full s [] h = refl
others_full s (i ∷ l) h = ground (arith, length-others s l, others_full s l)

any-others :
    (s : WorkflowNodeId) (l : List WorkflowInputItemEntity)
    → any (λ item. is_none item.input_role_key) l ≡ false
    → any (λ item. is_none item.input_role_key) (others s l) ≡ false
any-others s [] h = refl
any-others s (i ∷ l) h = ground (arith, any-others s l)

ordered_items-others :
    (s : WorkflowNodeId) (b : WorkflowInputBinding)
    → has_roles b ≡ true
    → (length (others s (items b)) == length (items b)) ≡ false
    → is_empty (others s (items b)) ≡ false
    → ordered_items (others s (items b)) ≡ ok (ordered_references (others s (items b)))
unfolding ordered_items
ordered_items-others s (single i) r l e = absurd (ground arith)
ordered_items-others s (ordered_references l') r l e = ground (arith, any-others s l')

-- One round of the loop, at an entry after smaller ones.
remove_items_from_source_after :
    (s : WorkflowNodeId) (t : WorkflowInputTarget) (b : WorkflowInputBinding) (m rest : Bindings)
    → has_roles b ≡ true
    → all (λ e. target_ord.lt e.0 t) m ≡ true
    → remove_items_from_source t s (m ++ (t, b) ∷ rest) ≡ ok (m ++ (sweep s ((t, b) ∷ []) ++ rest))
unfolding remove_items_from_source keep_remaining
remove_items_from_source_after s t b m rest r h = ground (
  arith,
  get_after t b m rest h,
  remove_after t b m rest h,
  ordered_items-others s b r,
  insert_after t (ordered_references (others s (items b))) b m rest h,
)

keep_remaining-IsSorted :
    (t : WorkflowInputTarget) (l : List WorkflowInputItemEntity) (m r : Bindings)
    → IsSorted m
    → keep_remaining t l m ≡ ok r
    → IsSorted r
unfolding keep_remaining
keep_remaining-IsSorted t l m r h e = elim (Bool-cases (is_empty l)) [
  | inl k ↦ subst IsSorted (ground arith) (remove-IsSorted t m h)
  | inr k ↦ elim (Result-cases (ordered_items l)) [
    | inl (b, f) ↦ subst IsSorted (ground arith) (insert-IsSorted t b m h)
    | inr (x, f) ↦ absurd (ground arith)
  ]
]

remove_items_from_source-IsSorted :
    (s : WorkflowNodeId) (t : WorkflowInputTarget) (b : WorkflowInputBinding) (m r : Bindings)
    → IsSorted m
    → get t m ≡ some b
    → remove_items_from_source t s m ≡ ok r
    → IsSorted r
unfolding remove_items_from_source
remove_items_from_source-IsSorted s t b m r h g e =
    elim (Bool-cases (length (others s (items b)) == length (items b))) [
      | inl k ↦ subst IsSorted (ground arith) h
      | inr k ↦ keep_remaining-IsSorted t (others s (items b)) m r h (ground arith)
    ]

-- The loop over the targets is the pass over the bindings.
remove_from_all-sweep :
    (s : WorkflowNodeId) (m rest : Bindings)
    → IsSorted (m ++ rest)
    → have_roles rest ≡ true
    → remove_from_all (keys rest) s (m ++ rest) ≡ ok (m ++ sweep s rest)
unfolding remove_from_all
remove_from_all-sweep s m [] h r = refl
remove_from_all-sweep s m ((t, b) ∷ rest) h r =
    let below = below_of_IsSorted t b m rest h in
    let step = remove_items_from_source_after s t b m rest (ground arith) below in
    let sorted =
      remove_items_from_source-IsSorted s t b (m ++ (t, b) ∷ rest)
        (m ++ (sweep s ((t, b) ∷ []) ++ rest)) h (get_after t b m rest below) step in
    let next =
      remove_from_all-sweep s (m ++ sweep s ((t, b) ∷ [])) rest (rw append_assoc sorted)
        (ground arith) in
    ground (
      arith,
      step,
      next,
      append_assoc m (sweep s ((t, b) ∷ [])) rest,
      append_assoc m (sweep s ((t, b) ∷ [])) (sweep s rest),
    )

module _ (p : Edge → Bool) where
  filter-append : (xs ys : List Edge) → filter p (xs ++ ys) ≡ filter p xs ++ filter p ys
  filter-append [] ys = refl
  filter-append (x ∷ xs) ys = ground (arith, filter-append xs ys)

abbrev starts_elsewhere : WorkflowNodeId → Edge → Bool
starts_elsewhere id e = not (e.0 == id)

abbrev ends_elsewhere : WorkflowNodeId → Edge → Bool
ends_elsewhere id e = not (e.1 == id)

edges_of-others :
    (s t : WorkflowNodeId) (l : List WorkflowInputItemEntity)
    → edges_of t (others s l) ≡ filter (starts_elsewhere s) (edges_of t l)
edges_of-others s t [] = refl
edges_of-others s t (i ∷ l) = ground (arith, edges_of-others s t l)

edges-sweep :
    (s : WorkflowNodeId) (m : Bindings) → edges (sweep s m) ≡ filter (starts_elsewhere s) (edges m)
unfolding edges
edges-sweep s [] = refl
edges-sweep s ((t, b) ∷ m) =
    let same = edges_of-others s t.node_id (items b) in
    let split = filter-append (starts_elsewhere s) (edges_of t.node_id (items b)) (edges m) in
    elim (Bool-cases (length (others s (items b)) == length (items b))) [
      | inl k ↦ ground (arith, same, split, edges-sweep s m, others_full s (items b))
      | inr k ↦ elim (Bool-cases (is_empty (others s (items b)))) [
        | inl j ↦ ground (arith, same, split, edges-sweep s m)
        | inr j ↦ ground (arith, same, split, edges-sweep s m)
      ]
    ]

edges_of-elsewhere :
    (s t : WorkflowNodeId) (l : List WorkflowInputItemEntity)
    → filter (ends_elsewhere s) (edges_of t l) ≡ (if t == s then [] else edges_of t l)
edges_of-elsewhere s t [] = ground arith
edges_of-elsewhere s t (i ∷ l) = ground (arith, edges_of-elsewhere s t l)

edges-retain_others :
    (s : WorkflowNodeId) (m : Bindings)
    → edges (retain_others s m) ≡ filter (ends_elsewhere s) (edges m)
unfolding edges
edges-retain_others s [] = refl
edges-retain_others s ((t, b) ∷ m) = ground (
  arith,
  edges_of-elsewhere s t.node_id (items b),
  edges-retain_others s m,
  filter-append (ends_elsewhere s) (edges_of t.node_id (items b)) (edges m),
)

have_roles-retain_others :
    (s : WorkflowNodeId) (m : Bindings)
    → have_roles m ≡ true
    → have_roles (retain_others s m) ≡ true
have_roles-retain_others s [] h = refl
have_roles-retain_others s ((t, b) ∷ m) h = ground (arith, have_roles-retain_others s m)

module _ {P : Type 0} where
  -- The graph without a node and its edges, in their order.
  pub record IsRemoved (id : WorkflowNodeId) (g : WorkflowAggregate P) : Type 0 where
    pub result : WorkflowAggregate P
    pub run : remove_node id g ≡ ok result
    pub nodes :
        (v : WorkflowNodeId) → get v result.nodes ≡ (if v == id then none else get v g.nodes)
    pub kept :
        edges result.input_bindings
        ≡ filter (λ e. not (e.0 == id)) (filter (λ e. not (e.1 == id)) (edges g.input_bindings))

  -- Removing a node that is there succeeds and leaves exactly the other nodes and the edges that
  -- neither start nor end at it.
  pub remove_node-IsRemoved :
      (id : WorkflowNodeId) (g : WorkflowAggregate P)
      → IsSorted g.nodes
      → IsSorted g.input_bindings
      → have_roles g.input_bindings ≡ true
      → contains_key id g.nodes ≡ true
      → IsRemoved id g
  unfolding remove_node remove_incident
  remove_node-IsRemoved id g n b r k =
      let rest = retain_others id g.input_bindings in
      let sorted = retain-IsSorted (not_at id) g.input_bindings b in
      let run =
        remove_from_all-sweep id [] rest sorted (have_roles-retain_others id g.input_bindings r) in
      record {
        result = record g { nodes = remove id g.nodes; input_bindings = sweep id rest };
        run = ground (arith, run);
        nodes = λ v. get-remove v id g.nodes n;
        kept =
            edges-sweep id rest
            ∙ ap (filter (starts_elsewhere id)) (edges-retain_others id g.input_bindings);
      }
