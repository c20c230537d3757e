-- ===== src/Graph/Mutation/Order.antt =====
-- Moving an item of an ordered binding: the others keep their order, and the move can be undone.
use oh_my_dream.Common.{
  ℕ, zero, suc, ◌≤◌, ◌<◌, ◌≡◌, refl, subst, true, false, some, List, [], ◌∷◌, map, contains, length,
  ◌==◌, ==_iff, ok, Bool-cases, Option-cases, Result-cases, inl, inr, arith,
}
use oh_my_dream.Common.Distinct.{distinct}
use oh_my_dream.Common.Maps.{get, insert, IsSorted, get-insert, insert-insert, insert_same}
use oh_my_dream.Workflow.Value.{WorkflowInputItemEntity, WorkflowInputBinding, ordered_references}
use oh_my_dream.Graph.Value.{WorkflowInputTarget, target_ord, target_eq_iff, ordered_items}
use oh_my_dream.Graph.Aggregate.{Bindings}
use oh_my_dream.Graph.Mutation.{
  position, remove_at, insert_at, entry, insert_item, move_item, move_reference_item,
}
use oh_my_dream.Graph.Mutation.Incident.{has_roles}

abbrev ids : List WorkflowInputItemEntity → List ℕ
ids = map (λ item. item.id)

entry-position :
    (id n : ℕ) (l : List WorkflowInputItemEntity)
    → position id l ≡ some n
    → (item : WorkflowInputItemEntity) × (entry n l ≡ some item) × (item.id ≡ id)
entry-position id n [] h = absurd (ground arith)
entry-position id n (i ∷ l) h = elim (Bool-cases (i.id == id)) [
  | inl e ↦
      let index : zero ≡ n = ground arith in
      (i, subst (λ k. entry k (i ∷ l) ≡ some i) index refl, ground (arith, ==_iff i.id id))
  | inr e ↦ elim (Option-cases (position id l)) [
    | inl k ↦ absurd (ground arith)
    | inr (m, k) ↦
        let (item, at, same) = entry-position id m l k in
        let index : suc m ≡ n = ground arith in
        (item, subst (λ x. entry x (i ∷ l) ≡ some item) index at, same)
  ]
]

module _ (a : WorkflowInputItemEntity) where
  entry-insert_at :
      (n : ℕ) (l : List WorkflowInputItemEntity) → n ≤ length l → entry n (insert_at n a l) ≡ some a
  entry-insert_at zero l h = ground arith
  entry-insert_at (suc n) [] h = absurd (omega arith)
  entry-insert_at (suc n) (i ∷ l) h = ground (arith, entry-insert_at n l)

  remove_at-insert_at :
      (n : ℕ) (l : List WorkflowInputItemEntity) → n ≤ length l → remove_at n (insert_at n a l) ≡ l
  remove_at-insert_at zero l h = ground arith
  remove_at-insert_at (suc n) [] h = absurd (omega arith)
  remove_at-insert_at (suc n) (i ∷ l) h = ground (arith, remove_at-insert_at n l)

  insert_at-remove_at :
      (n : ℕ) (l : List WorkflowInputItemEntity)
      → entry n l ≡ some a
      → insert_at n a (remove_at n l) ≡ l
  insert_at-remove_at n [] h = absurd (ground arith)
  insert_at-remove_at zero (i ∷ l) h = ground arith
  insert_at-remove_at (suc n) (i ∷ l) h = ground (arith, insert_at-remove_at n l)

  length-remove_at :
      (n : ℕ) (l : List WorkflowInputItemEntity)
      → entry n l ≡ some a
      → suc (length (remove_at n l)) ≡ length l
  length-remove_at n [] h = absurd (ground arith)
  length-remove_at zero (i ∷ l) h = ground arith
  length-remove_at (suc n) (i ∷ l) h = ground (arith, length-remove_at n l)

  entry-lt : (n : ℕ) (l : List WorkflowInputItemEntity) → entry n l ≡ some a → n < length l
  entry-lt n [] h = absurd (ground arith)
  entry-lt zero (i ∷ l) h = ground arith
  entry-lt (suc n) (i ∷ l) h = ground (arith, entry-lt n l)

  position-insert_at :
      (n : ℕ) (l : List WorkflowInputItemEntity)
      → n ≤ length l
      → contains a.id (ids l) ≡ false
      → position a.id (insert_at n a l) ≡ some n
  position-insert_at zero l h c = ground (arith, ==_iff a.id a.id)
  position-insert_at (suc n) [] h c = absurd (omega arith)
  position-insert_at (suc n) (i ∷ l) h c =
      ground (arith, ==_iff a.id i.id, ==_iff i.id a.id, position-insert_at n l)

  entry-contains :
      (n : ℕ) (l : List WorkflowInputItemEntity) → entry n l ≡ some a → contains a.id (ids l) ≡ true
  entry-contains n [] h = absurd (ground arith)
  entry-contains zero (i ∷ l) h = ground (arith, ==_iff a.id i.id)
  entry-contains (suc n) (i ∷ l) h = ground (arith, entry-contains n l)

  contains-remove_at :
      (n : ℕ) (l : List WorkflowInputItemEntity)
      → entry n l ≡ some a
      → distinct (ids l) ≡ true
      → contains a.id (ids (remove_at n l)) ≡ false
  contains-remove_at n [] h d = refl
  contains-remove_at zero (i ∷ l) h d = ground arith
  contains-remove_at (suc n) (i ∷ l) h d =
      ground (arith, ==_iff a.id i.id, ==_iff i.id a.id, entry-contains n l, contains-remove_at n l)

-- The item stands at the index asked for, and the others in the order they had.
pub record IsMoved (id index : ℕ) (l r : List WorkflowInputItemEntity) : Type 0 where
  pub old_index : ℕ
  pub item : WorkflowInputItemEntity
  pub identity : item.id ≡ id
  pub old : entry old_index l ≡ some item
  pub new : entry index r ≡ some item
  pub others : remove_at index r ≡ remove_at old_index l
  pub back : move_item id old_index r ≡ ok l

pub move_item-IsMoved :
    (id index : ℕ) (l r : List WorkflowInputItemEntity)
    → distinct (ids l) ≡ true
    → move_item id index l ≡ ok r
    → IsMoved id index l r
unfolding move_item insert_item
move_item-IsMoved id index l r d e = elim (Option-cases (position id l)) [
  | inl p ↦ absurd (ground arith)
  | inr (n, p) ↦
      let (a, at, same) = entry-position id n l p in
      let rest = remove_at n l in
      let bounded : index ≤ length rest = ground arith in
      let moved : insert_at index a rest ≡ r = ground arith in
      let new = entry-insert_at a index rest bounded in
      let others = remove_at-insert_at a index rest bounded in
      let found = position-insert_at a index rest bounded (contains-remove_at a n l at d) in
      let back : move_item id n (insert_at index a rest) ≡ ok l = ground (
        arith,
        new,
        others,
        found,
        same,
        insert_at-remove_at a n l at,
        length-remove_at a n l at,
        entry-lt a n l at,
      ) in
      record {
        old_index = n;
        item = a;
        identity = same;
        old = at;
        new = subst (λ x. entry index x ≡ some a) moved new;
        others = subst (λ x. remove_at index x ≡ rest) moved others;
        back = subst (λ x. move_item id n x ≡ ok l) moved back;
      }
]

-- The binding of the target holds the moved items, and the move back restores all bindings.
pub record IsReordered (target : WorkflowInputTarget) (id index : ℕ)
    (l : List WorkflowInputItemEntity) (bindings bindings' : Bindings) : Type 0 where
  pub result : List WorkflowInputItemEntity
  pub found : get target bindings' ≡ some (ordered_references result)
  pub elsewhere :
      (t : WorkflowInputTarget) → target_ord.eq t target ≡ false → get t bindings' ≡ get t bindings
  pub moved : IsMoved id index l result
  pub undone : move_reference_item target id moved.old_index bindings' ≡ ok bindings

ordered_items-get :
    (l : List WorkflowInputItemEntity) (n : ℕ) (a : WorkflowInputItemEntity)
    → has_roles (ordered_references l) ≡ true
    → entry n l ≡ some a
    → ordered_items l ≡ ok (ordered_references l)
unfolding ordered_items
ordered_items-get [] n a h e = absurd (ground arith)
ordered_items-get (i ∷ l) n a h e = ground arith

ordered_items-shape :
    (l : List WorkflowInputItemEntity) (b : WorkflowInputBinding)
    → ordered_items l ≡ ok b
    → b ≡ ordered_references l
unfolding ordered_items
ordered_items-shape l b e = ground arith

-- In bindings in the order of their targets, a successful move within an ordered binding whose items
-- all have a role and differ in their identities puts the item at the index asked for, leaves the
-- order of the other items and all other bindings, and is undone by the move back.
pub move_reference_item-IsReordered :
    (target : WorkflowInputTarget) (id index : ℕ) (l : List WorkflowInputItemEntity)
    (bindings bindings' : Bindings)
    → IsSorted bindings
    → get target bindings ≡ some (ordered_references l)
    → has_roles (ordered_references l) ≡ true
    → distinct (map (λ item. item.id) l) ≡ true
    → move_reference_item target id index bindings ≡ ok bindings'
    → IsReordered target id index l bindings bindings'
unfolding move_reference_item
move_reference_item-IsReordered target id index l bindings bindings' s g h d e =
    elim (Result-cases (move_item id index l)) [
      | inr (x, f) ↦ absurd (ground arith)
      | inl (r, f) ↦
          let m = move_item-IsMoved id index l r d f in
          elim (Result-cases (ordered_items r)) [
            | inr (x, k) ↦ absurd (ground arith)
            | inl (b, k) ↦
                let shape : b ≡ ordered_references r = ordered_items-shape r b k in
                let written : insert target (ordered_references r) bindings ≡ bindings' =
                  ground arith in
                let at = get-insert target target (ordered_references r) bindings in
                let here : get target bindings' ≡ some (ordered_references r) =
                  ground (arith, target_eq_iff target target) in
                record {
                  result = r;
                  found = here;
                  elsewhere =
                      λ t n. ground (arith, get-insert t target (ordered_references r) bindings);
                  moved = m;
                  undone = ground (
                    arith,
                    m.back,
                    ordered_items-get l m.old_index m.item h m.old,
                    insert-insert target (ordered_references l) (ordered_references r) bindings,
                    insert_same target (ordered_references l) bindings s g,
                  );
                }
          ]
    ]
