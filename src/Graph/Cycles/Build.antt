-- ===== src/Graph/Cycles/Build.antt =====
-- The two maps that the first loops build, against the list of the distinct edges.
use oh_my_dream.Common.{
  ℕ, ◌+◌, ◌≡◌, refl, ap, ◌∙◌, map, Bool, true, false, ◌&&◌, ◌||◌, some, List, [], ◌∷◌, all,
  contains, is_ascending, insert_set, ◌==◌, ==_iff, ok, Bool-cases, inl, inr, if◌then◌else◌, arith,
}
use oh_my_dream.Common.Bytes.{nat_ord}
use oh_my_dream.Common.Distinct.{contains-below, insert_set-is_ascending, contains-insert_set}
use oh_my_dream.Common.Maps.{get, insert, get-insert}
use oh_my_dream.Workflow.Value.{WorkflowNodeId}
use oh_my_dream.Graph.Cycles.{Edge, Degrees, Outgoing, targets_of, add_edges, zero_degrees}
use oh_my_dream.Graph.Cycles.Count.{contains_edge, distinct_edges, count_open}

pub record IsCounted (ids : List WorkflowNodeId) (es : List Edge) (indegree : Degrees)
    (outgoing : Outgoing) : Type 0 where
  pub targets : (u v : WorkflowNodeId) → contains v (targets_of u outgoing) ≡ contains_edge u v es
  pub ascending : (u : WorkflowNodeId) → is_ascending (targets_of u outgoing) ≡ true
  pub degrees :
      (v : WorkflowNodeId) → contains v ids ≡ true → get v indegree ≡ some (count_open v [] es)
  pub distinct_sources : distinct_edges es ≡ true
  pub keys : map (λ e. e.0) indegree ≡ ids

-- All edges end at the nodes.
abbrev pub ends_in : List WorkflowNodeId → List Edge → Bool
ends_in ids es = all (λ e. contains e.1 ids) es

-- A key that is there stays where it is.
keys-insert :
    (k n : ℕ) (m : Degrees)
    → is_ascending (map (λ e. e.0) m) ≡ true
    → contains k (map (λ e. e.0) m) ≡ true
    → map (λ e. e.0) (insert k n m) ≡ map (λ e. e.0) m
keys-insert k n [] a h = absurd (ground arith)
keys-insert k n ((i, w) ∷ []) a h = ground arith
keys-insert k n ((i, w) ∷ (j, x) ∷ m) a h =
    ground (arith, contains-below k i (map (λ e. e.0) ((j, x) ∷ m)), keys-insert k n ((j, x) ∷ m))

targets_of-insert :
    (u s t : WorkflowNodeId) (outgoing : Outgoing)
    → targets_of u (insert s (insert_set t (targets_of s outgoing)) outgoing)
      ≡ (if u == s then insert_set t (targets_of s outgoing) else targets_of u outgoing)
targets_of-insert u s t outgoing =
    ground (arith, get-insert u s (insert_set t (targets_of s outgoing)) outgoing)

module _ (ids : List WorkflowNodeId) (es : List Edge) (indegree : Degrees) (outgoing : Outgoing)
    (s t : WorkflowNodeId) (order : is_ascending ids ≡ true)
    (h : IsCounted ids es indegree outgoing) where
  abbrev grown : Outgoing
  grown = insert s (insert_set t (targets_of s outgoing)) outgoing

  grown-targets :
      (u v : WorkflowNodeId)
      → contains v (targets_of u grown) ≡ ((u == s && v == t) || contains_edge u v es)
  grown-targets u v = ground (
    arith,
    targets_of-insert u s t outgoing,
    contains-insert_set v t (targets_of s outgoing),
    h.targets u v,
    h.targets s v,
    ==_iff u s,
  )

  grown-ascending : (u : WorkflowNodeId) → is_ascending (targets_of u grown) ≡ true
  grown-ascending u = ground (
    arith,
    targets_of-insert u s t outgoing,
    h.ascending u,
    h.ascending s,
    insert_set-is_ascending t (targets_of s outgoing),
  )

  IsCounted-old : contains_edge s t es ≡ true → IsCounted ids es indegree grown
  IsCounted-old old = record {
    targets = λ u v. ground (arith, grown-targets u v, ==_iff u s, ==_iff v t);
    ascending = grown-ascending;
    degrees = h.degrees;
    distinct_sources = h.distinct_sources;
    keys = h.keys;
  }

  IsCounted-new :
      contains_edge s t es ≡ false
      → contains t ids ≡ true
      → IsCounted ids ((s, t) ∷ es) (insert t (count_open t [] es + 1) indegree) grown
  IsCounted-new new known = record {
    targets = λ u v. ground (arith, grown-targets u v);
    ascending = grown-ascending;
    degrees = λ v k.
        ground (arith, get-insert v t (count_open t [] es + 1) indegree, h.degrees v k, ==_iff v t);
    distinct_sources = ground (arith, h.distinct_sources);
    keys =
        keys-insert t (count_open t [] es + 1) indegree (rw h.keys order) (rw h.keys known)
        ∙ h.keys;
  }

-- The loop over all edges succeeds with maps that count them, each once.
pub record IsBuilt (ids : List WorkflowNodeId) (before es : List Edge) (indegree : Degrees)
    (outgoing : Outgoing) : Type 0 where
  pub counted : List Edge
  pub indegree' : Degrees
  pub outgoing' : Outgoing
  pub run : add_edges es indegree outgoing ≡ ok (indegree', outgoing')
  pub holds : IsCounted ids counted indegree' outgoing'
  pub same :
      (u v : WorkflowNodeId)
      → contains_edge u v counted ≡ (contains_edge u v before || contains_edge u v es)

pub add_edges-IsBuilt :
    (ids : List WorkflowNodeId) (before es : List Edge) (indegree : Degrees) (outgoing : Outgoing)
    → is_ascending ids ≡ true
    → IsCounted ids before indegree outgoing
    → ends_in ids es ≡ true
    → IsBuilt ids before es indegree outgoing
unfolding add_edges
add_edges-IsBuilt ids before [] indegree outgoing order h k = record {
  counted = before;
  indegree' = indegree;
  outgoing' = outgoing;
  run = refl;
  holds = h;
  same = λ u v. ground arith;
}
add_edges-IsBuilt ids before ((s, t) ∷ es) indegree outgoing order h k =
    elim (Bool-cases (contains_edge s t before)) [
      | inl old ↦
          let b =
            add_edges-IsBuilt ids before es indegree _ order
              (IsCounted-old ids before indegree outgoing s t order h old) (ground arith) in
          record {
            counted = b.counted;
            indegree' = b.indegree';
            outgoing' = b.outgoing';
            run = ground (arith, h.targets s t, b.run);
            holds = b.holds;
            same = λ u v. ground (arith, b.same u v, ==_iff u s, ==_iff v t);
          }
      | inr new ↦
          let known : contains t ids ≡ true = ground arith in
          let b =
            add_edges-IsBuilt ids ((s, t) ∷ before) es _ _ order
              (IsCounted-new ids before indegree outgoing s t order h new known) (ground arith) in
          record {
            counted = b.counted;
            indegree' = b.indegree';
            outgoing' = b.outgoing';
            run = ground (arith, h.targets s t, h.degrees t known, b.run);
            holds = b.holds;
            same = λ u v. ground (arith, b.same u v, ==_iff u s, ==_iff v t);
          }
    ]

get-zero_degrees :
    (ids : List WorkflowNodeId) (v : WorkflowNodeId)
    → contains v ids ≡ true
    → get v (zero_degrees ids) ≡ some 0
unfolding zero_degrees
get-zero_degrees [] v h = absurd (ground arith)
get-zero_degrees (i ∷ ids) v h = ground (arith, get-zero_degrees ids v)

keys-zero_degrees : (ids : List WorkflowNodeId) → map (λ e. e.0) (zero_degrees ids) ≡ ids
unfolding zero_degrees
keys-zero_degrees [] = refl
keys-zero_degrees (i ∷ ids) = ap (λ l. i ∷ l) (keys-zero_degrees ids)

pub zero_degrees-IsCounted : (ids : List WorkflowNodeId) → IsCounted ids [] (zero_degrees ids) []
zero_degrees-IsCounted ids = record {
  targets = λ u v. refl;
  ascending = λ u. refl;
  degrees = get-zero_degrees ids;
  distinct_sources = refl;
  keys = keys-zero_degrees ids;
}
