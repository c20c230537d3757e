-- ===== src/Workflow/Plan/Order.antt =====
-- `validate_deterministic_order` of crates/engine/src/workflow/plan.rs against a description of the
-- order that does not mention the loop.
use oh_my_dream.Common.{
  ℕ, ◌<◌, ◌≡◌, ◌∙◌, refl, ap, sym, subst, Bool, true, false, not, Option, none, some, List, [], ◌∷◌,
  all, contains, ◌==◌, ==_iff, ok, Bool-cases, inl, inr, arith, ◌↔◌, to_set, is_ascending,
}
use oh_my_dream.Common.Distinct.{
  distinct, contains-below, ascending-tail, to_set-is_ascending, contains-to_set,
}
use oh_my_dream.Workflow.Value.{WorkflowNodeId}
use oh_my_dream.Workflow.Plan.{
  is_next, WorkflowPlannedNode, node_ids, next_ready, remove, check_order, dependencies,
  validate_deterministic_order,
}
use oh_my_dream.Workflow.Admission.Order.{contains-remove}

above-head : (x n : ℕ) (xs : List ℕ) → is_ascending (x ∷ xs) ≡ true → contains n xs ≡ true → x < n
above-head x n [] h k = absurd (ground arith)
above-head x n (y ∷ ys) h k = ground (arith, contains-below n y ys)

is_ascending-cons :
    (x : ℕ) (xs : List ℕ)
    → is_ascending xs ≡ true
    → ((n : ℕ) → contains n xs ≡ true → x < n)
    → is_ascending (x ∷ xs) ≡ true
is_ascending-cons x [] h k = refl
is_ascending-cons x (y ∷ ys) h k = ground (arith, k y, ==_iff y y)

remove-is_ascending :
    (x : WorkflowNodeId) (xs : List WorkflowNodeId)
    → is_ascending xs ≡ true
    → is_ascending (remove x xs) ≡ true
unfolding remove
remove-is_ascending x [] h = refl
remove-is_ascending x (y ∷ ys) h =
    let rest = remove-is_ascending x ys (ascending-tail y ys h) in
    let longer : is_ascending (y ∷ remove x ys) ≡ true =
      is_ascending-cons y (remove x ys) rest
        (λ n k. above-head y n ys h (ground (arith, contains-remove n x ys))) in
    ground (arith, rest, longer)

is_next-some : (x : Option WorkflowNodeId) (id : WorkflowNodeId) → is_next x id ≡ true → x ≡ some id
is_next-some none id h = absurd (ground arith)
is_next-some (some next) id h = ap some ((==_iff next id).0 h)

module _ (sources : WorkflowNodeId → List WorkflowNodeId) where
  -- None of the sources is one of the identities.
  abbrev pub is_free : List WorkflowNodeId → WorkflowNodeId → Bool
  is_free ids id = all (λ s. not (contains s ids)) (sources id)

  -- Each identity has no source among those from it on, and is the smallest of these for which that
  -- holds.
  abbrev pub IsLeastFree : List WorkflowNodeId → Type 0
  IsLeastFree [] = Unit
  IsLeastFree (n ∷ ns) =
      (is_free (n ∷ ns) n ≡ true)
      × ((m : WorkflowNodeId) → contains m ns ≡ true → m < n → is_free (n ∷ ns) m ≡ false)
      × IsLeastFree ns

  next_ready-free :
      (remaining candidates : List WorkflowNodeId) (n : WorkflowNodeId)
      → next_ready sources remaining candidates ≡ some n
      → is_free remaining n ≡ true
  unfolding next_ready
  next_ready-free remaining [] n e = absurd (ground arith)
  next_ready-free remaining (c ∷ cs) n e = elim (Bool-cases (is_free remaining c)) [
    | inl f ↦ let same : c ≡ n = ground arith in subst (λ z. is_free remaining z ≡ true) same f
    | inr f ↦ next_ready-free remaining cs n (ground arith)
  ]

  next_ready-least :
      (remaining candidates : List WorkflowNodeId) (n m : WorkflowNodeId)
      → is_ascending candidates ≡ true
      → next_ready sources remaining candidates ≡ some n
      → contains m candidates ≡ true
      → m < n
      → is_free remaining m ≡ false
  unfolding next_ready
  next_ready-least remaining [] n m h e k l = absurd (ground arith)
  next_ready-least remaining (c ∷ cs) n m h e k l = elim (Bool-cases (is_free remaining c)) [
    | inl f ↦
        let same : c ≡ n = ground arith in
        absurd (ground (arith, contains-below m c cs (omega arith) h))
    | inr f ↦ elim (Bool-cases (m == c)) [
      | inl p ↦ subst (λ z. is_free remaining z ≡ false) (sym ((==_iff m c).0 p)) f
      | inr p ↦
          next_ready-least remaining cs n m (ascending-tail c cs h) (ground arith) (ground arith) l
    ]
  ]

  next_ready-found :
      (remaining candidates : List WorkflowNodeId) (n : WorkflowNodeId)
      → is_ascending candidates ≡ true
      → contains n candidates ≡ true
      → is_free remaining n ≡ true
      → ((m : WorkflowNodeId) → contains m candidates ≡ true → m < n → is_free remaining m ≡ false)
      → next_ready sources remaining candidates ≡ some n
  unfolding next_ready
  next_ready-found remaining [] n h k f least = absurd (ground arith)
  next_ready-found remaining (c ∷ cs) n h k f least = elim (Bool-cases (n == c)) [
    | inl p ↦
        let same : n ≡ c = (==_iff n c).0 p in
        let free : is_free remaining c ≡ true = subst (λ z. is_free remaining z ≡ true) same f in
        ground (arith, free, same)
    | inr p ↦
        let later : contains n cs ≡ true = ground arith in
        let blocked : is_free remaining c ≡ false =
          least c (ground (arith, ==_iff c c)) (above-head c n cs h later) in
        ground (
          arith,
          blocked,
          next_ready-found remaining cs n (ascending-tail c cs h) later f
              (λ m g l. least m (ground arith) l),
        )
  ]

  is_free-Same :
      (xs ys : List WorkflowNodeId) (id : WorkflowNodeId)
      → ((a : WorkflowNodeId) → contains a xs ≡ contains a ys)
      → is_free xs id ≡ is_free ys id
  is_free-Same xs ys id same = each (sources id)
    where
      each :
          (l : List WorkflowNodeId)
          → all (λ s. not (contains s xs)) l ≡ all (λ s. not (contains s ys)) l
      each [] = refl
      each (s ∷ ss) = ground (arith, same s, each ss)

  -- What is left after the first of distinct identities is taken.
  remove-Same :
      (remaining ns : List WorkflowNodeId) (n : WorkflowNodeId)
      → distinct (n ∷ ns) ≡ true
      → ((a : WorkflowNodeId) → contains a remaining ≡ contains a (n ∷ ns))
      → (a : WorkflowNodeId) → contains a (remove n remaining) ≡ contains a ns
  remove-Same remaining ns n d same a =
      ground (arith, contains-remove a n remaining, same a, ==_iff a n)

  check_order-IsLeastFree :
      (remaining : List WorkflowNodeId) (nodes : List WorkflowPlannedNode)
      → is_ascending remaining ≡ true
      → distinct (node_ids nodes) ≡ true
      → ((a : WorkflowNodeId) → contains a remaining ≡ contains a (node_ids nodes))
      → check_order sources remaining nodes ≡ ok tt
      → IsLeastFree (node_ids nodes)
  unfolding check_order
  check_order-IsLeastFree remaining [] up d same e = tt
  check_order-IsLeastFree remaining (n ∷ ns) up d same e =
      let id = n.node_id in
      let next : next_ready sources remaining remaining ≡ some id =
        is_next-some (next_ready sources remaining remaining) id (ground arith) in
      let free = is_free-Same remaining (node_ids (n ∷ ns)) in
      (
        sym (free id same) ∙ next_ready-free remaining remaining id next,
        λ m k l.
            sym (free m same)
            ∙ next_ready-least remaining remaining id m up next (ground (arith, same m)) l,
        check_order-IsLeastFree (remove id remaining) ns (remove-is_ascending id remaining up)
            (ground arith) (remove-Same remaining (node_ids ns) id d same) (ground arith),
      )

  check_order_of_IsLeastFree :
      (remaining : List WorkflowNodeId) (nodes : List WorkflowPlannedNode)
      → is_ascending remaining ≡ true
      → distinct (node_ids nodes) ≡ true
      → ((a : WorkflowNodeId) → contains a remaining ≡ contains a (node_ids nodes))
      → IsLeastFree (node_ids nodes)
      → check_order sources remaining nodes ≡ ok tt
  unfolding check_order
  check_order_of_IsLeastFree remaining [] up d same h = refl
  check_order_of_IsLeastFree remaining (n ∷ ns) up d same (free, least, rest) =
      let id = n.node_id in
      let alike = is_free-Same remaining (node_ids (n ∷ ns)) in
      let next : next_ready sources remaining remaining ≡ some id =
        next_ready-found remaining remaining id up (ground (arith, same id, ==_iff id id))
          (alike id same ∙ free)
          (λ m k l. alike m same ∙ least m (ground (arith, same m, ==_iff m id)) l) in
      ground (
        arith,
        next,
        ==_iff id id,
        check_order_of_IsLeastFree (remove id remaining) ns (remove-is_ascending id remaining up)
            (ground arith) (remove-Same remaining (node_ids ns) id d same) rest,
      )

-- For distinct nodes the check of a plan accepts an order exactly when each node has no source among
-- the nodes from it on, and of these is the one with the smallest identity for which that holds.
pub validate_deterministic_order_iff :
    (nodes : List WorkflowPlannedNode)
    → distinct (node_ids nodes) ≡ true
    → (validate_deterministic_order nodes ≡ ok tt)
      ↔ IsLeastFree (dependencies nodes) (node_ids nodes)
unfolding validate_deterministic_order
validate_deterministic_order_iff nodes d =
    let ids = node_ids nodes in
    let remaining = to_set ids in
    let up = to_set-is_ascending ids in
    let same : (a : WorkflowNodeId) → contains a remaining ≡ contains a ids =
      λ a. contains-to_set a ids in
    (
      check_order-IsLeastFree (dependencies nodes) remaining nodes up d same,
      check_order_of_IsLeastFree (dependencies nodes) remaining nodes up d same,
    )
