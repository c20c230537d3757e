-- ===== src/Projects/Tests.antt =====
-- A Project and its renames, and each theorem at a concrete input.
use oh_my_dream.Common.{ℕ, ◌≡◌, refl, List, [], ◌∷◌, ok}
use oh_my_dream.Common.State.{◌>>=◌}
use oh_my_dream.Projects.Name.{
  new, is_whitespace, is_control, trim_start, trim_end, IsNormalized, new-IsNormalized,
}
use oh_my_dream.Projects.Aggregate.{ProjectAggregate, ProjectTimestamp, create, restore, rename}
use oh_my_dream.Projects.Aggregate.Renames.{
  rename_all, renames, IsRenamed, rename_all-IsRenamed, rename_all-restore,
}

abbrev typed : List ℕ
typed = 0x20 ∷ b'a' ∷ 0x20 ∷ b'b' ∷ 0x3000 ∷ []

abbrev name : List ℕ
name = b'a' ∷ 0x20 ∷ b'b' ∷ []

abbrev project : ProjectAggregate
project = record { id = 7; name = name; revision = 1; created_at = 10; updated_at = 10 }

-- The second name is unchanged, and the third is observed before the last change.
abbrev calls : List (List ℕ × ProjectTimestamp)
calls = (b'x' ∷ [], 20) ∷ (b'x' ∷ [], 21) ∷ (b'y' ∷ [], 5) ∷ []

calls_updated : (rename_all calls project).updated_at ≡ 21
unfolding rename ◌>>=◌
calls_updated = refl

calls_count : renames calls project ≡ 2
unfolding rename ◌>>=◌
calls_count = refl

new-IsNormalized_example : IsNormalized typed name
unfolding new is_whitespace is_control trim_start trim_end
new-IsNormalized_example = new-IsNormalized typed name refl

rename_all-IsRenamed_example : IsRenamed (renames calls project) project (rename_all calls project)
rename_all-IsRenamed_example = rename_all-IsRenamed calls project

rename_all-restore_example :
    restore (rename_all calls (create 7 name 10)) ≡ ok (rename_all calls (create 7 name 10))
rename_all-restore_example = rename_all-restore 7 name 10 calls
