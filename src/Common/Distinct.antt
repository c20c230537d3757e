-- ===== src/Common/Distinct.antt =====
-- Distinct numbers: what the length of a `BTreeSet` says, and what sorting keeps.
use oh_my_dream.Common.{
  ℕ, suc, ◌≤◌, ◌<◌, ◌≡◌, refl, Bool, true, false, not, ◌&&◌, ◌||◌, List, [], ◌∷◌, ◌++◌, map, filter,
  length, is_ascending, insert_sorted, sort_unstable, insert_set, to_set, contains, ◌==◌, ==_iff,
  if◌then◌else◌, arith,
}
use oh_my_dream.Common.Sorting.{is_sorted, sort_unstable-is_sorted}

abbrev pub distinct : List ℕ → Bool
distinct [] = true
distinct (x ∷ xs) = not (contains x xs) && distinct xs

-- A number below the head of an ascending list is not in it.
pub contains-below :
    (x y : ℕ) (ys : List ℕ) → x < y → is_ascending (y ∷ ys) ≡ true → contains x (y ∷ ys) ≡ false
contains-below x y [] l h = ground arith
contains-below x y (z ∷ zs) l h = ground (arith, contains-below x z zs)

pub distinct_of_is_ascending : (xs : List ℕ) → is_ascending xs ≡ true → distinct xs ≡ true
distinct_of_is_ascending [] h = refl
distinct_of_is_ascending (x ∷ []) h = refl
distinct_of_is_ascending (x ∷ y ∷ ys) h =
    ground (arith, contains-below x y ys, distinct_of_is_ascending (y ∷ ys))

insert_set-is_ascending_at :
    (x y : ℕ) (ys : List ℕ)
    → is_ascending (y ∷ ys) ≡ true
    → y < x
    → is_ascending (y ∷ insert_set x ys) ≡ true
unfolding insert_set
insert_set-is_ascending_at x y [] h l = ground arith
insert_set-is_ascending_at x y (z ∷ zs) h l = ground (arith, insert_set-is_ascending_at x z zs)

pub insert_set-is_ascending :
    (x : ℕ) (ys : List ℕ) → is_ascending ys ≡ true → is_ascending (insert_set x ys) ≡ true
unfolding insert_set
insert_set-is_ascending x [] h = refl
insert_set-is_ascending x (y ∷ ys) h = ground (arith, insert_set-is_ascending_at x y ys)

pub to_set-is_ascending : (xs : List ℕ) → is_ascending (to_set xs) ≡ true
unfolding to_set
to_set-is_ascending [] = refl
to_set-is_ascending (x ∷ xs) = insert_set-is_ascending x (to_set xs) (to_set-is_ascending xs)

pub contains-insert_set :
    (a x : ℕ) (ys : List ℕ) → contains a (insert_set x ys) ≡ ((a == x) || contains a ys)
unfolding insert_set
contains-insert_set a x [] = refl
contains-insert_set a x (y ∷ ys) = ground (arith, contains-insert_set a x ys)

pub contains-to_set : (a : ℕ) (xs : List ℕ) → contains a (to_set xs) ≡ contains a xs
unfolding to_set
contains-to_set a [] = refl
contains-to_set a (x ∷ xs) =
    ground (arith, contains-insert_set a x (to_set xs), contains-to_set a xs)

length-insert_set :
    (x : ℕ) (ys : List ℕ)
    → is_ascending ys ≡ true
    → length (insert_set x ys) ≡ (if contains x ys then length ys else suc (length ys))
unfolding insert_set
length-insert_set x [] h = refl
length-insert_set x (y ∷ []) h = ground arith
length-insert_set x (y ∷ z ∷ zs) h =
    ground (arith, length-insert_set x (z ∷ zs), contains-below x y (z ∷ zs))

length-to_set-le : (xs : List ℕ) → length (to_set xs) ≤ length xs
unfolding to_set
length-to_set-le [] = omega arith
length-to_set-le (x ∷ xs) =
    ground (arith, length-to_set-le xs, length-insert_set x (to_set xs), to_set-is_ascending xs)

-- A set that has as many elements as the list it was collected from shows that they are distinct.
pub distinct_of_length-to_set : (xs : List ℕ) → length (to_set xs) ≡ length xs → distinct xs ≡ true
unfolding to_set
distinct_of_length-to_set [] h = refl
distinct_of_length-to_set (x ∷ xs) h = ground (
  arith,
  distinct_of_length-to_set xs,
  length-to_set-le xs,
  length-insert_set x (to_set xs),
  to_set-is_ascending xs,
  contains-to_set x xs,
)

pub length-to_set_of_distinct : (xs : List ℕ) → distinct xs ≡ true → length (to_set xs) ≡ length xs
unfolding to_set
length-to_set_of_distinct [] h = refl
length-to_set_of_distinct (x ∷ xs) h = ground (
  arith,
  length-to_set_of_distinct xs,
  length-insert_set x (to_set xs),
  to_set-is_ascending xs,
  contains-to_set x xs,
)

pub contains-insert_sorted :
    (a x : ℕ) (ys : List ℕ) → contains a (insert_sorted x ys) ≡ ((a == x) || contains a ys)
contains-insert_sorted a x [] = refl
contains-insert_sorted a x (y ∷ ys) = ground (arith, contains-insert_sorted a x ys)

pub contains-sort_unstable : (a : ℕ) (xs : List ℕ) → contains a (sort_unstable xs) ≡ contains a xs
unfolding sort_unstable
contains-sort_unstable a [] = refl
contains-sort_unstable a (x ∷ xs) =
    ground (arith, contains-insert_sorted a x (sort_unstable xs), contains-sort_unstable a xs)

distinct-insert_sorted :
    (x : ℕ) (ys : List ℕ) → distinct (x ∷ ys) ≡ true → distinct (insert_sorted x ys) ≡ true
distinct-insert_sorted x [] h = refl
distinct-insert_sorted x (y ∷ ys) h =
    ground (arith, distinct-insert_sorted x ys, contains-insert_sorted y x ys)

distinct-sort_unstable : (xs : List ℕ) → distinct xs ≡ true → distinct (sort_unstable xs) ≡ true
unfolding sort_unstable
distinct-sort_unstable [] h = refl
distinct-sort_unstable (x ∷ xs) h = ground (
  arith,
  distinct-insert_sorted x (sort_unstable xs),
  distinct-sort_unstable xs,
  contains-sort_unstable x xs,
)

is_ascending_of_distinct :
    (xs : List ℕ) → is_sorted xs ≡ true → distinct xs ≡ true → is_ascending xs ≡ true
is_ascending_of_distinct [] s d = refl
is_ascending_of_distinct (x ∷ []) s d = refl
is_ascending_of_distinct (x ∷ y ∷ ys) s d = ground (arith, is_ascending_of_distinct (y ∷ ys))

-- Sorting distinct numbers gives a strictly ascending list.
pub sort_unstable-is_ascending :
    (xs : List ℕ) → distinct xs ≡ true → is_ascending (sort_unstable xs) ≡ true
sort_unstable-is_ascending xs d =
    is_ascending_of_distinct (sort_unstable xs) (sort_unstable-is_sorted xs)
      (distinct-sort_unstable xs d)

module _ {ℓ} {A : Type ℓ} (f : A → ℕ) (p : A → Bool) where
  contains-map-filter :
      (a : ℕ) (xs : List A)
      → contains a (map f xs) ≡ false
      → contains a (map f (filter p xs)) ≡ false
  contains-map-filter a [] h = refl
  contains-map-filter a (x ∷ xs) h = ground (arith, contains-map-filter a xs)

  pub distinct-map-filter :
      (xs : List A) → distinct (map f xs) ≡ true → distinct (map f (filter p xs)) ≡ true
  distinct-map-filter [] h = refl
  distinct-map-filter (x ∷ xs) h =
      ground (arith, distinct-map-filter xs, contains-map-filter (f x) xs)

pub ascending-tail : (x : ℕ) (xs : List ℕ) → is_ascending (x ∷ xs) ≡ true → is_ascending xs ≡ true
ascending-tail x [] h = refl
ascending-tail x (y ∷ ys) h = ground arith

ascending-head : (x : ℕ) (xs : List ℕ) → is_ascending (x ∷ xs) ≡ true → contains x xs ≡ false
ascending-head x [] h = refl
ascending-head x (y ∷ ys) h = contains-below x y ys (ground arith) (ground arith)

-- Two ascending lists with the same elements are equal.
pub ascending_ext :
    (xs ys : List ℕ)
    → is_ascending xs ≡ true
    → is_ascending ys ≡ true
    → ((a : ℕ) → contains a xs ≡ contains a ys)
    → xs ≡ ys
ascending_ext [] [] s t h = refl
ascending_ext [] (y ∷ ys) s t h = absurd (ground (arith, h y))
ascending_ext (x ∷ xs) [] s t h = absurd (ground (arith, h x))
ascending_ext (x ∷ xs) (y ∷ ys) s t h =
    let same : x ≡ y =
      ground (arith, h x, h y, contains-below x y ys, contains-below y x xs, ==_iff x y) in
    let rest : xs ≡ ys = ascending_ext xs ys (ascending-tail x xs s) (ascending-tail y ys t) (λ a.
      ground (arith, h a, ascending-head x xs s, ascending-head y ys t, ==_iff a x, ==_iff a y)) in
    ground (arith, same, rest)

pub contains-append :
    (a : ℕ) (xs ys : List ℕ) → contains a (xs ++ ys) ≡ (contains a xs || contains a ys)
contains-append a [] ys = refl
contains-append a (x ∷ xs) ys = ground (arith, contains-append a xs ys)

-- Keeping the members of a list.
pub contains-filter :
    (a : ℕ) (selected xs : List ℕ)
    → contains a (filter (λ s. contains s selected) xs) ≡ (contains a xs && contains a selected)
contains-filter a selected [] = refl
contains-filter a selected (x ∷ xs) = ground (arith, contains-filter a selected xs, ==_iff a x)

pub filter_all :
    (selected xs : List ℕ)
    → ((a : ℕ) → contains a xs ≡ true → contains a selected ≡ true)
    → filter (λ s. contains s selected) xs ≡ xs
filter_all selected [] h = refl
filter_all selected (x ∷ xs) h =
    ground (arith, h x (ground arith), filter_all selected xs (λ a k. h a (ground arith)))
