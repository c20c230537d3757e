-- ===== src/Projects/Aggregate/Renames.antt =====
-- What renaming does to a Project, once and many times.
use oh_my_dream.Common.{
  ℕ, suc, ◌+◌, ◌^◌, ◌≤◌, ◌≡◌, refl, Bool, true, false, List, [], ◌∷◌, list_eq, ltb, not, ◌&&◌,
  Result, ok, err, Bool-cases, if◌then◌else◌, inl, inr, arith,
}
use oh_my_dream.Common.State.{◌>>=◌}
use oh_my_dream.Projects.Name.{ProjectDomainError}
use oh_my_dream.Projects.Aggregate.{
  ProjectAggregate, ProjectTimestamp, create, restore, rename, max,
}

-- What a rename asks for: another name, and room for a revision and a later time.
abbrev pub can_rename : List ℕ → ProjectAggregate → Bool
can_rename name p =
    not (list_eq p.name name) && ltb (p.revision + 1) (2 ^ 64) && ltb (p.updated_at + 1) (2 ^ 63)

abbrev pub renamed : List ℕ → ProjectTimestamp → ProjectAggregate → ProjectAggregate
renamed name at p = record p {
  name = name;
  revision = p.revision + 1;
  updated_at = max at (p.updated_at + 1);
}

abbrev pub is_ok : {A : Type 0} → Result ProjectDomainError A → Bool
is_ok (ok a) = true
is_ok (err e) = false

module _ (name : List ℕ) (at : ProjectTimestamp) (p : ProjectAggregate) where
  rename-renamed : can_rename name p ≡ true → rename name at p ≡ (ok tt, renamed name at p)
  unfolding rename ◌>>=◌
  rename-renamed h = ground arith

  -- A rename that returns an error leaves the Project as it was.
  pub rename_error_unchanged :
      {e : ProjectDomainError} → (rename name at p).0 ≡ err e → (rename name at p).1 ≡ p
  unfolding rename ◌>>=◌
  rename_error_unchanged h = ground arith

  rename_refused :
      can_rename name p ≡ false → (is_ok (rename name at p).0 ≡ false) × ((rename name at p).1 ≡ p)
  unfolding rename ◌>>=◌
  rename_refused h = (ground arith, ground arith)

-- Renames one after the other, by the name and the observed time; errors are passed over.
abbrev pub rename_all : List (List ℕ × ProjectTimestamp) → ProjectAggregate → ProjectAggregate
rename_all [] p = p
rename_all ((name, at) ∷ cs) p = rename_all cs (rename name at p).1

-- How many of them succeed.
abbrev pub renames : List (List ℕ × ProjectTimestamp) → ProjectAggregate → ℕ
renames [] p = 0
renames ((name, at) ∷ cs) p =
    let rest = renames cs (rename name at p).1 in
    if is_ok (rename name at p).0 then suc rest else rest

-- The Project `q` is `p` after `n` successful renames.
pub record IsRenamed (n : ℕ) (p q : ProjectAggregate) : Type 0 where
  pub id : q.id ≡ p.id
  pub created_at : q.created_at ≡ p.created_at
  pub revision : q.revision ≡ p.revision + n
  pub updated_at : p.updated_at + n ≤ q.updated_at

-- Over any sequence of renames the identity and the time of creation stay, the revision counts those
-- that succeed, and each of them makes the time of the last change later, whatever time is observed.
pub rename_all-IsRenamed :
    (cs : List (List ℕ × ProjectTimestamp)) (p : ProjectAggregate)
    → IsRenamed (renames cs p) p (rename_all cs p)
rename_all-IsRenamed [] p = record {
  id = refl;
  created_at = refl;
  revision = omega arith;
  updated_at = omega arith;
}
rename_all-IsRenamed ((name, at) ∷ cs) p =
    let rest = rename_all-IsRenamed cs (rename name at p).1 in
    elim (Bool-cases (can_rename name p)) [
      | inl h ↦ record {
        id = ground (arith, rest.id, rename-renamed name at p h);
        created_at = ground (arith, rest.created_at, rename-renamed name at p h);
        revision = ground (arith, rest.revision, rename-renamed name at p h);
        updated_at = ground (arith, rest.updated_at, rename-renamed name at p h);
      }
      | inr h ↦ record {
        id = ground (arith, rest.id, rename_refused name at p h);
        created_at = ground (arith, rest.created_at, rename_refused name at p h);
        revision = ground (arith, rest.revision, rename_refused name at p h);
        updated_at = ground (arith, rest.updated_at, rename_refused name at p h);
      }
    ]

-- A created Project restores from its saved fields to itself after any sequence of renames.
pub rename_all-restore :
    (id : ℕ) (name : List ℕ) (at : ProjectTimestamp) (cs : List (List ℕ × ProjectTimestamp))
    → restore (rename_all cs (create id name at)) ≡ ok (rename_all cs (create id name at))
unfolding restore create
rename_all-restore id name at cs =
    let r = rename_all-IsRenamed cs (create id name at) in
    ground (arith, r.created_at, r.updated_at)
