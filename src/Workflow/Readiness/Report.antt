-- ===== src/Workflow/Readiness/Report.antt =====
-- The report lists the issues that were raised, each as often, in its order.
use oh_my_dream.Common.{
  ℕ, ◌+◌, ◌≡◌, refl, Bool, true, false, not, ◌&&◌, List, [], ◌∷◌, if◌then◌else◌, arith,
}
use oh_my_dream.Common.Bytes.{Ord, Utf8, lex_lt, lex_lt_irrefl, lex_lt_trans, list_eq_iff}
use oh_my_dream.Capability.Registry.{ref_lt_irrefl, ref_lt_trans}
use oh_my_dream.Workflow.Readiness.{
  WorkflowReadinessIssue, required_parameter_missing, required_input_missing,
  reference_minimum_not_met, asset_unavailable, asset_kind_mismatch, capability_unregistered,
  generation_profile_incompatible, generation_profile_unavailable,
  generation_profile_availability_indeterminate, capability_external, profile_lt, target_less,
  issue_less, insert_issue, sort_issues, ready_or_blocked, from_issues,
}

lex_lt_asym : (a b : Utf8) → lex_lt a b ≡ true → lex_lt b a ≡ false
lex_lt_asym a b h = ground (arith, lex_lt_irrefl a, lex_lt_trans a b a)

profile_lt_asym :
    (a : Utf8) (m : ℕ) (b : Utf8) (n : ℕ) → profile_lt a m b n ≡ true → profile_lt b n a m ≡ false
profile_lt_asym a m b n h =
    ground
      (arith, lex_lt_asym a b, lex_lt_asym b a, list_eq_iff a b, list_eq_iff b a, lex_lt_irrefl a)

module _ {I : Type 0} ⦃o : Ord I⦄ where
  -- No issue stands before a smaller one.
  abbrev pub is_arranged : List (WorkflowReadinessIssue I) → Bool
  is_arranged [] = true
  is_arranged (x ∷ []) = true
  is_arranged (x ∷ y ∷ ys) = not (issue_less y x) && is_arranged (y ∷ ys)

  target_less_asym :
      (a b : WorkflowReadinessIssue I) → target_less a b ≡ true → target_less b a ≡ false
  target_less_asym (required_parameter_missing n k) (required_parameter_missing m j) h =
      lex_lt_asym k j h
  target_less_asym (required_input_missing n k) (required_input_missing m j) h = lex_lt_asym k j h
  target_less_asym (reference_minimum_not_met n k r a) (reference_minimum_not_met m j s b) h =
      lex_lt_asym k j h
  target_less_asym (asset_unavailable n k a) (asset_unavailable m j b) h = lex_lt_asym k j h
  target_less_asym (asset_kind_mismatch n k e a) (asset_kind_mismatch m j f b) h = lex_lt_asym k j h
  target_less_asym (capability_unregistered n c) (capability_unregistered m d) h =
      ground (arith, ref_lt_irrefl c, ref_lt_trans c d c)
  target_less_asym (generation_profile_incompatible n p v c)
        (generation_profile_incompatible m q w d) h =
      profile_lt_asym p v q w h
  target_less_asym (generation_profile_unavailable n p v) (generation_profile_unavailable m q w) h =
      profile_lt_asym p v q w h
  target_less_asym (generation_profile_availability_indeterminate n p v)
        (generation_profile_availability_indeterminate m q w) h =
      profile_lt_asym p v q w h
  target_less_asym (capability_external n i) (capability_external m j) h =
      ground (arith, o.irrefl i, o.trans i j i)
  target_less_asym _ _ h = absurd (ground arith)

  issue_less_asym :
      (a b : WorkflowReadinessIssue I) → issue_less a b ≡ true → issue_less b a ≡ false
  unfolding issue_less
  issue_less_asym a b h = ground (arith, target_less_asym a b)

  insert_issue-is_arranged :
      (x : WorkflowReadinessIssue I) (ys : List (WorkflowReadinessIssue I))
      → is_arranged ys ≡ true
      → is_arranged (insert_issue x ys) ≡ true
  unfolding insert_issue
  insert_issue-is_arranged x [] h = refl
  insert_issue-is_arranged x (y ∷ []) h = ground (arith, issue_less_asym y x)
  insert_issue-is_arranged x (y ∷ z ∷ ys) h =
      ground (arith, issue_less_asym y x, insert_issue-is_arranged x (z ∷ ys))

  sort_issues-is_arranged :
      (xs : List (WorkflowReadinessIssue I)) → is_arranged (sort_issues xs) ≡ true
  unfolding sort_issues
  sort_issues-is_arranged [] = refl
  sort_issues-is_arranged (x ∷ xs) =
      insert_issue-is_arranged x (sort_issues xs) (sort_issues-is_arranged xs)

  -- How many issues pass a test.
  abbrev pub count : (WorkflowReadinessIssue I → Bool) → List (WorkflowReadinessIssue I) → ℕ
  count p [] = 0
  count p (x ∷ xs) = (if p x then 1 else 0) + count p xs

  count-insert_issue :
      (p : WorkflowReadinessIssue I → Bool) (x : WorkflowReadinessIssue I)
      (ys : List (WorkflowReadinessIssue I))
      → count p (insert_issue x ys) ≡ count p (x ∷ ys)
  unfolding insert_issue
  count-insert_issue p x [] = refl
  count-insert_issue p x (y ∷ ys) = ground (arith, count-insert_issue p x ys)

  pub count-sort_issues :
      (p : WorkflowReadinessIssue I → Bool) (xs : List (WorkflowReadinessIssue I))
      → count p (sort_issues xs) ≡ count p xs
  unfolding sort_issues
  count-sort_issues p [] = refl
  count-sort_issues p (x ∷ xs) =
      ground (arith, count-insert_issue p x (sort_issues xs), count-sort_issues p xs)

  -- A report of issues: ready for none, otherwise a list with each of them, in ascending order.
  pub record IsReport (issues : List (WorkflowReadinessIssue I)) : Type 0 where
    pub listed : List (WorkflowReadinessIssue I)
    pub run : from_issues issues ≡ ready_or_blocked listed
    pub arranged : is_arranged listed ≡ true
    pub counted : (p : WorkflowReadinessIssue I → Bool) → count p listed ≡ count p issues

  -- The result for a list of issues is Ready, or lists exactly these issues, each as often as it was
  -- raised, without one before a smaller one.
  pub from_issues-IsReport : (issues : List (WorkflowReadinessIssue I)) → IsReport issues
  unfolding from_issues
  from_issues-IsReport issues = record {
    listed = sort_issues issues;
    run = refl;
    arranged = sort_issues-is_arranged issues;
    counted = λ p. count-sort_issues p issues;
  }
