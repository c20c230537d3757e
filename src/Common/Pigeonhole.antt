-- ===== src/Common/Pigeonhole.antt =====
-- Distinct numbers taken from a list are at most as many as it has.
use oh_my_dream.Common.{
  ℕ, suc, ◌≤◌, ◌≡◌, true, false, List, [], ◌∷◌, all, length, contains, ◌==◌, if◌then◌else◌,
  Bool-cases, ==_iff, inl, inr, arith,
}
use oh_my_dream.Common.Distinct.{distinct}

abbrev pub Subset : List ℕ → List ℕ → Type 0
Subset xs ys = (a : ℕ) → contains a xs ≡ true → contains a ys ≡ true

pub all-contains : (xs ys : List ℕ) → all (λ x. contains x ys) xs ≡ true → Subset xs ys
all-contains [] ys h a e = absurd (ground arith)
all-contains (x ∷ xs) ys h a e = elim (Bool-cases (a == x)) [
  | inl p ↦ let same : a ≡ x = (==_iff a x).0 p in ground arith
  | inr p ↦ all-contains xs ys (ground arith) a (ground arith)
]

-- What is in the list differs from what is not.
pub differs :
    (a x : ℕ) (xs : List ℕ) → contains a xs ≡ true → contains x xs ≡ false → (a == x) ≡ false
differs a x xs h k = elim (Bool-cases (a == x)) [
  | inl p ↦ let same : a ≡ x = (==_iff a x).0 p in absurd (ground arith)
  | inr p ↦ p
]

pub Subset-cons :
    (a : ℕ) (xs ys : List ℕ) → contains a ys ≡ true → Subset xs ys → Subset (a ∷ xs) ys
Subset-cons a xs ys h s b e = elim (Bool-cases (b == a)) [
  | inl p ↦ let same : b ≡ a = (==_iff b a).0 p in ground arith
  | inr p ↦ s b (ground arith)
]

-- The list without the first of the elements that equal `a`.
abbrev without : ℕ → List ℕ → List ℕ
without a [] = []
without a (y ∷ ys) = let rest = without a ys in if a == y then ys else y ∷ rest

length-without :
    (a : ℕ) (ys : List ℕ) → contains a ys ≡ true → length ys ≡ suc (length (without a ys))
length-without a [] h = absurd (ground arith)
length-without a (y ∷ ys) h = ground (arith, length-without a ys)

contains-without :
    (a b : ℕ) (ys : List ℕ)
    → (b == a) ≡ false
    → contains b ys ≡ true
    → contains b (without a ys) ≡ true
contains-without a b [] n h = absurd (ground arith)
contains-without a b (y ∷ ys) n h = ground (arith, contains-without a b ys)

pub length-Subset : (xs ys : List ℕ) → distinct xs ≡ true → Subset xs ys → length xs ≤ length ys
length-Subset [] ys d s = omega arith
length-Subset (x ∷ xs) ys d s =
    let known : contains x ys ≡ true = s x (ground arith) in
    let rest : length xs ≤ length (without x ys) =
      length-Subset xs (without x ys) (ground arith)
        (λ a e. contains-without x a ys (differs a x xs e (ground arith)) (s a (ground arith))) in
    omega (arith, rest, length-without x ys known)

-- As many as the list has, and they are all of it.
pub Subset_full :
    (xs ys : List ℕ) → distinct xs ≡ true → Subset xs ys → length xs ≡ length ys → Subset ys xs
Subset_full xs ys d s l a h = elim (Bool-cases (contains a xs)) [
  | inl e ↦ e
  | inr e ↦
      absurd (omega (arith, l, length-Subset (a ∷ xs) ys (ground arith) (Subset-cons a xs ys h s)))
]
