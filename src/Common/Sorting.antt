-- ===== src/Common/Sorting.antt =====
-- Sorted lists of numbers: `sort_unstable` with `dedup`, and the sets of `BTreeSet`.
use oh_my_dream.Common.{
  ℕ, ◌<◌, ◌≡◌, refl, Bool, true, ◌&&◌, List, [], ◌∷◌, is_ascending, list_eq, insert_sorted,
  sort_unstable, dedup, leb, arith,
}

-- Each element is at most the next.
abbrev pub is_sorted : List ℕ → Bool
is_sorted [] = true
is_sorted (x ∷ []) = true
is_sorted (x ∷ y ∷ ys) = leb x y && is_sorted (y ∷ ys)

insert_sorted-is_sorted :
    (x : ℕ) (xs : List ℕ) → is_sorted xs ≡ true → is_sorted (insert_sorted x xs) ≡ true
insert_sorted-is_sorted x [] h = refl
insert_sorted-is_sorted x (y ∷ []) h = ground arith
insert_sorted-is_sorted x (y ∷ z ∷ ys) h = ground (arith, insert_sorted-is_sorted x (z ∷ ys))

pub sort_unstable-is_sorted : (xs : List ℕ) → is_sorted (sort_unstable xs) ≡ true
unfolding sort_unstable
sort_unstable-is_sorted [] = refl
sort_unstable-is_sorted (x ∷ xs) =
    insert_sorted-is_sorted x (sort_unstable xs) (sort_unstable-is_sorted xs)

dedup-is_ascending-at :
    (y : ℕ) (ys : List ℕ)
    → is_sorted (y ∷ ys) ≡ true
    → (is_ascending (dedup (y ∷ ys)) ≡ true)
      × ((x : ℕ) → x < y → is_ascending (x ∷ dedup (y ∷ ys)) ≡ true)
unfolding dedup
dedup-is_ascending-at y [] h = (refl, λ x l. ground arith)
dedup-is_ascending-at y (z ∷ zs) h =
    let (ascending, lower) = dedup-is_ascending-at z zs (ground arith) in
    (ground (arith, ascending, lower y), λ x l. ground (arith, ascending, lower y, lower x))

pub dedup-is_ascending : (xs : List ℕ) → is_sorted xs ≡ true → is_ascending (dedup xs) ≡ true
unfolding dedup
dedup-is_ascending [] h = refl
dedup-is_ascending (x ∷ xs) h = (dedup-is_ascending-at x xs h).0

pub list_eq_self : (xs : List ℕ) → list_eq xs xs ≡ true
list_eq_self [] = refl
list_eq_self (x ∷ xs) = ground (arith, list_eq_self xs)
