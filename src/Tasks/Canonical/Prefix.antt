-- ===== src/Tasks/Canonical/Prefix.antt =====
-- The parts of the canonical encoding are prefix codes: what follows them does not matter.
use Prim.Native.Nat.{◌/◌, ◌%◌}
use mathlib.Core.List.{append_assoc}
use native.Mathlib.Nat.{pow-suc}
use oh_my_dream.Common.{
  ℕ, zero, suc, ◌^◌, ◌<◌, ◌≡◌, refl, List, [], ◌∷◌, ◌++◌, length, length-append, arith,
}
use oh_my_dream.Tasks.Identity.{Utf8}
use oh_my_dream.Tasks.Canonical.{to_be_bytes, append_text}

-- Two encodings of equal length before any rests.
pub append_injective :
    (xs ys r s : List ℕ) → length xs ≡ length ys → xs ++ r ≡ ys ++ s → (xs ≡ ys) × (r ≡ s)
append_injective [] [] r s l e = (refl, e)
append_injective [] (y ∷ ys) r s l e = absurd (omega arith)
append_injective (x ∷ xs) [] r s l e = absurd (omega arith)
append_injective (x ∷ xs) (y ∷ ys) r s l e = ground (arith, append_injective xs ys r s)

pub length-to_be_bytes : (k n : ℕ) → length (to_be_bytes k n) ≡ k
unfolding to_be_bytes
length-to_be_bytes zero n = refl
length-to_be_bytes (suc k) n = omega (
  arith,
  length-append (to_be_bytes k (n / 256)) ((n % 256) ∷ []),
  length-to_be_bytes k (n / 256),
)

pub to_be_bytes_injective :
    (k n m : ℕ) → n < 256 ^ k → m < 256 ^ k → to_be_bytes k n ≡ to_be_bytes k m → n ≡ m
unfolding to_be_bytes
to_be_bytes_injective zero n m hn hm e = omega arith
to_be_bytes_injective (suc k) n m hn hm e =
    let (high, low) =
      append_injective (to_be_bytes k (n / 256)) (to_be_bytes k (m / 256)) ((n % 256) ∷ [])
        ((m % 256) ∷ [])
        (omega (arith, length-to_be_bytes k (n / 256), length-to_be_bytes k (m / 256))) e in
    let last : n % 256 ≡ m % 256 = cc in
    let first =
      to_be_bytes_injective k (n / 256) (m / 256) (omega (arith, pow-suc 256 k))
        (omega (arith, pow-suc 256 k)) high in
    omega arith

-- A fixed-width integer before any rests.
pub to_be_bytes_prefix :
    (k n m : ℕ) (r s : List ℕ)
    → n < 256 ^ k
    → m < 256 ^ k
    → to_be_bytes k n ++ r ≡ to_be_bytes k m ++ s
    → (n ≡ m) × (r ≡ s)
to_be_bytes_prefix k n m r s hn hm e =
    let (same, rest) =
      append_injective (to_be_bytes k n) (to_be_bytes k m) r s
        (omega (arith, length-to_be_bytes k n, length-to_be_bytes k m)) e in
    (to_be_bytes_injective k n m hn hm same, rest)

-- A text with its length before any rests.
pub append_text_prefix :
    (x y : Utf8) (r s : List ℕ)
    → length x < 256 ^ 8
    → length y < 256 ^ 8
    → append_text x ++ r ≡ append_text y ++ s
    → (x ≡ y) × (r ≡ s)
unfolding append_text
append_text_prefix x y r s hx hy e =
    let e' : to_be_bytes 8 (length x) ++ (x ++ r) ≡ to_be_bytes 8 (length y) ++ (y ++ s) =
      rw (← append_assoc, ← append_assoc) e in
    let (l, rest) = to_be_bytes_prefix 8 (length x) (length y) (x ++ r) (y ++ s) hx hy e' in
    append_injective x y r s l rest
