-- ===== src/Projects/Aggregate.antt =====
-- crates/projects/src/project/domain/aggregate.rs, with the revision and the times of value.rs. The
-- times are `i64` values that their constructor keeps non-negative.
pub mod Renames
use oh_my_dream.Common.{
  ℕ, zero, suc, ◌+◌, ◌^◌, not, Option, none, some, List, list_eq, ltb, leb, Result, ok, err, Exec,
  if◌then◌else◌, arith,
}
use oh_my_dream.Common.State.{lift, reads, modify, require, ◌>>=◌, ◌>>◌}
use oh_my_dream.Projects.Name.{
  ProjectDomainError, project_name_unchanged, project_revision_overflow,
  project_timestamp_out_of_range, project_timestamp_overflow,
}

-- A `u64` that is not zero.
abbrev pub ProjectRevision : Type 0
ProjectRevision = ℕ

abbrev pub initial : ProjectRevision
initial = 1

unfoldable pub from_non_zero : ℕ → Option ProjectRevision
from_non_zero zero = none
from_non_zero (suc n) = some (suc n)

unfoldable pub next : ProjectRevision → Result ProjectDomainError ProjectRevision
next revision =
    if ltb (revision + 1) (2 ^ 64) then ok (revision + 1) else err project_revision_overflow

abbrev pub ProjectTimestamp : Type 0
ProjectTimestamp = ℕ

-- `ProjectUpdatedAt::new`
unfoldable pub project_timestamp : ℕ → Result ProjectDomainError ProjectTimestamp
project_timestamp value = if ltb value 0 then err project_timestamp_out_of_range else ok value

pub record ProjectAggregate : Type 0 where
  pub id : ℕ
  pub name : List ℕ
  pub revision : ProjectRevision
  pub created_at : ProjectTimestamp
  pub updated_at : ProjectTimestamp

abbrev pub Method : Type 0 → Type 0
Method A = Exec ProjectDomainError ProjectAggregate A

unfoldable pub create : ℕ → List ℕ → ProjectTimestamp → ProjectAggregate
create id name created_at = record {
  id = id;
  name = name;
  revision = initial;
  created_at = created_at;
  updated_at = created_at;
}

-- The arguments are the fields of the record `d`.
unfoldable pub restore : ProjectAggregate → Result ProjectDomainError ProjectAggregate
restore d = if ltb d.updated_at d.created_at then err project_timestamp_out_of_range else ok d

-- `checked_add(1)` of an `i64`
unfoldable pub minimum_after : ProjectTimestamp → Result ProjectDomainError ProjectTimestamp
minimum_after updated_at =
    if ltb (updated_at + 1) (2 ^ 63) then ok (updated_at + 1) else err project_timestamp_overflow

abbrev pub max : ℕ → ℕ → ℕ
max a b = if leb a b then b else a

unfoldable pub rename : List ℕ → ProjectTimestamp → Method Unit
unfolding next minimum_after project_timestamp
rename name observed_at = do
  require (λ p. not (list_eq p.name name)) project_name_unchanged
  revision ← reads (λ p. next p.revision)
  minimum ← reads (λ p. minimum_after p.updated_at)
  modify (λ p. record p { name = name })
  modify (λ p. record p { revision = revision })
  updated_at ← lift (project_timestamp (max observed_at minimum))
  modify (λ p. record p { updated_at = updated_at })
