-- ===== src/Workflow/Admission/Order.antt =====
-- `deterministic_topological_order` of crates/engine/src/workflow/run_admission.rs: without a cycle
-- the loop takes all identities, each once.
use oh_my_dream.Common.{
  ℕ, zero, suc, ◌<◌, ◌≤◌, ◌≡◌, refl, sym, subst, true, false, not, ◌&&◌, none, some, List, [], ◌∷◌,
  all, length, contains, ◌==◌, ==_iff, Bool-cases, Option-cases, inl, inr, arith,
}
use oh_my_dream.Common.Distinct.{distinct}
use oh_my_dream.Workflow.Value.{WorkflowNodeId}
use oh_my_dream.Workflow.Plan.{next_ready, remove}
use oh_my_dream.Workflow.Admission.{take_ready}

pub contains-remove :
    (a x : WorkflowNodeId) (xs : List WorkflowNodeId)
    → contains a (remove x xs) ≡ (contains a xs && not (a == x))
unfolding remove
contains-remove a x [] = refl
contains-remove a x (y ∷ ys) =
    ground (arith, contains-remove a x ys, ==_iff a y, ==_iff y x, ==_iff a x)

distinct-remove :
    (x : WorkflowNodeId) (xs : List WorkflowNodeId)
    → distinct xs ≡ true
    → distinct (remove x xs) ≡ true
unfolding remove
distinct-remove x [] d = refl
distinct-remove x (y ∷ ys) d = ground (arith, distinct-remove x ys, contains-remove y x ys)

remove_absent :
    (x : WorkflowNodeId) (xs : List WorkflowNodeId) → contains x xs ≡ false → remove x xs ≡ xs
unfolding remove
remove_absent x [] h = refl
remove_absent x (y ∷ ys) h = ground (arith, remove_absent x ys, ==_iff y x, ==_iff x y)

length-remove :
    (x : WorkflowNodeId) (xs : List WorkflowNodeId)
    → distinct xs ≡ true
    → contains x xs ≡ true
    → length xs ≡ suc (length (remove x xs))
unfolding remove
length-remove x [] d h = absurd (ground arith)
length-remove x (y ∷ ys) d h =
    ground (arith, length-remove x ys, ==_iff x y, ==_iff y x, remove_absent x ys)

-- The loop takes every identity once.
pub record IsOrder (remaining order : List WorkflowNodeId) : Type 0 where
  pub sized : length order ≡ length remaining
  pub same : (a : WorkflowNodeId) → contains a order ≡ contains a remaining
  pub distinct_order : distinct order ≡ true

module _ (deps : WorkflowNodeId → List WorkflowNodeId) where
  -- A source that remains.
  record Pending (remaining : List WorkflowNodeId) (id : WorkflowNodeId) : Type 0 where
    pub source : WorkflowNodeId
    pub needed : contains source (deps id) ≡ true
    pub remains : contains source remaining ≡ true

  not-all-Pending :
      (remaining sources : List WorkflowNodeId)
      → all (λ s. not (contains s remaining)) sources ≡ false
      → (s : WorkflowNodeId) × (contains s sources ≡ true) × (contains s remaining ≡ true)
  not-all-Pending remaining [] h = absurd (ground arith)
  not-all-Pending remaining (s ∷ ss) h = elim (Bool-cases (contains s remaining)) [
    | inl e ↦ (s, ground arith, e)
    | inr e ↦ let (t, a, b) = not-all-Pending remaining ss (ground arith) in (t, ground arith, b)
  ]

  next_ready-Pending :
      (remaining candidates : List WorkflowNodeId) (id : WorkflowNodeId)
      → next_ready deps remaining candidates ≡ none
      → contains id candidates ≡ true
      → Pending remaining id
  unfolding next_ready
  next_ready-Pending remaining [] id e h = absurd (ground arith)
  next_ready-Pending remaining (c ∷ cs) id e h = elim (Bool-cases (id == c)) [
    | inl same ↦
        let (s, a, b) = not-all-Pending remaining (deps c) (ground arith) in
        record {
          source = s;
          needed = subst (λ z. contains s (deps z) ≡ true) (sym ((==_iff id c).0 same)) a;
          remains = b;
        }
    | inr other ↦ next_ready-Pending remaining cs id (ground arith) (ground arith)
  ]

  -- The identity that is found.
  pub record IsReady (remaining candidates : List WorkflowNodeId) (id : WorkflowNodeId)
      : Type 0 where
    pub candidate : contains id candidates ≡ true
    pub free : all (λ s. not (contains s remaining)) (deps id) ≡ true

  pub next_ready-IsReady :
      (remaining candidates : List WorkflowNodeId) (id : WorkflowNodeId)
      → next_ready deps remaining candidates ≡ some id
      → IsReady remaining candidates id
  unfolding next_ready
  next_ready-IsReady remaining [] id e = absurd (ground arith)
  next_ready-IsReady remaining (c ∷ cs) id e =
      elim (Bool-cases (all (λ s. not (contains s remaining)) (deps c))) [
        | inl f ↦
            let same : c ≡ id = ground arith in
            subst (IsReady remaining (c ∷ cs)) same (record { candidate = ground arith; free = f })
        | inr f ↦
            let r = next_ready-IsReady remaining cs id (ground arith) in
            record { candidate = ground (arith, r.candidate); free = r.free }
      ]

  take_ready-nil : (fuel : ℕ) → take_ready fuel deps [] ≡ []
  unfolding take_ready next_ready
  take_ready-nil zero = refl
  take_ready-nil (suc fuel) = refl

  pub take_ready-zero : (remaining : List WorkflowNodeId) → take_ready zero deps remaining ≡ []
  unfolding take_ready
  take_ready-zero remaining = refl

  pub take_ready-none :
      (fuel : ℕ) (remaining : List WorkflowNodeId)
      → next_ready deps remaining remaining ≡ none
      → take_ready (suc fuel) deps remaining ≡ []
  unfolding take_ready
  take_ready-none fuel remaining e = ground (arith, e)

  pub take_ready-some :
      (fuel : ℕ) (remaining : List WorkflowNodeId) (next : WorkflowNodeId)
      → next_ready deps remaining remaining ≡ some next
      → take_ready (suc fuel) deps remaining ≡ next ∷ take_ready fuel deps (remove next remaining)
  unfolding take_ready
  take_ready-some fuel remaining next e = ground (arith, e)

  -- The sources of every identity have a smaller rank.
  module _ (rank : WorkflowNodeId → ℕ)
      (grows : (id s : WorkflowNodeId) → contains s (deps id) ≡ true → rank s < rank id) where
    not-blocked :
        (remaining : List WorkflowNodeId)
        → next_ready deps remaining remaining ≡ none
        → (bound : ℕ) (id : WorkflowNodeId) → rank id < bound
        → ¬ (contains id remaining ≡ true)
    not-blocked remaining e zero id l h = absurd (omega arith)
    not-blocked remaining e (suc bound) id l h =
        let p = next_ready-Pending remaining remaining id e h in
        not-blocked remaining e bound p.source (omega (arith, grows id p.source p.needed)) p.remains

    pub take_ready-IsOrder :
        (fuel : ℕ) (remaining : List WorkflowNodeId)
        → length remaining ≤ fuel
        → distinct remaining ≡ true
        → IsOrder remaining (take_ready fuel deps remaining)
    take_ready-IsOrder fuel [] l d =
        subst (IsOrder []) (sym (take_ready-nil fuel))
          (record { sized = refl; same = λ a. refl; distinct_order = refl })
    take_ready-IsOrder zero (r ∷ rs) l d = absurd (omega arith)
    take_ready-IsOrder (suc fuel) (r ∷ rs) l d =
        let remaining : List WorkflowNodeId = r ∷ rs in
        elim (Option-cases (next_ready deps remaining remaining)) [
          | inl e ↦ absurd (not-blocked remaining e (suc (rank r)) r (omega arith) (ground arith))
          | inr (next, e) ↦
              let found : contains next remaining ≡ true =
                (next_ready-IsReady remaining remaining next e).candidate in
              let shorter = length-remove next remaining d found in
              let rest =
                take_ready-IsOrder fuel (remove next remaining) (omega (arith, shorter))
                  (distinct-remove next remaining d) in
              subst (IsOrder remaining) (sym (take_ready-some fuel remaining next e)) (record {
                sized = omega (arith, rest.sized, shorter);
                same = λ a.
                    ground
                      (arith, rest.same a, contains-remove a next remaining, ==_iff a next, found);
                distinct_order = ground (
                  arith,
                  rest.same next,
                  contains-remove next next remaining,
                  rest.distinct_order,
                );
              })
        ]
