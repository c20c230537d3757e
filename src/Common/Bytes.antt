-- ===== src/Common/Bytes.antt =====
-- Texts as their UTF-8 bytes, and the orders by which a `BTreeMap` compares its keys.
use Prim.Native.Char.{code}
use Prim.Native.String.{String}
use oh_my_dream.Common.{
  ℕ, ◌≡◌, ◌↔◌, refl, Bool, true, false, ◌&&◌, ◌||◌, List, [], ◌∷◌, list_eq, ltb, ◌==◌, ==_iff,
  arith,
}

abbrev pub Utf8 : Type 0
Utf8 = List ℕ

-- The bytes of an ASCII literal.
abbrev pub ascii : String → Utf8
ascii String.[] = []
ascii (String.◌∷◌ c s) = code c ∷ ascii s

pub list_eq_refl : (xs : List ℕ) → list_eq xs xs ≡ true
list_eq_refl [] = refl
list_eq_refl (x ∷ xs) = ground (arith, list_eq_refl xs)

pub list_eq_eq : (xs ys : List ℕ) → list_eq xs ys ≡ true → xs ≡ ys
list_eq_eq [] [] h = refl
list_eq_eq [] (y ∷ ys) h = absurd (ground arith)
list_eq_eq (x ∷ xs) [] h = absurd (ground arith)
list_eq_eq (x ∷ xs) (y ∷ ys) h = ground (arith, list_eq_eq xs ys)

pub list_eq_iff : (xs ys : List ℕ) → (list_eq xs ys ≡ true) ↔ (xs ≡ ys)
list_eq_iff xs ys = (list_eq_eq xs ys, λ e. simp e (list_eq_refl ys))

-- Lexicographic order, as `str` compares.
abbrev pub lex_lt : List ℕ → List ℕ → Bool
lex_lt xs [] = false
lex_lt [] (y ∷ ys) = true
lex_lt (x ∷ xs) (y ∷ ys) = ltb x y || (x == y && lex_lt xs ys)

pub lex_lt_irrefl : (xs : List ℕ) → lex_lt xs xs ≡ false
lex_lt_irrefl [] = refl
lex_lt_irrefl (x ∷ xs) = ground (arith, lex_lt_irrefl xs)

pub lex_lt_trans :
    (xs ys zs : List ℕ) → lex_lt xs ys ≡ true → lex_lt ys zs ≡ true → lex_lt xs zs ≡ true
lex_lt_trans xs ys [] a b = absurd (ground arith)
lex_lt_trans [] ys (z ∷ zs) a b = refl
lex_lt_trans (x ∷ xs) [] (z ∷ zs) a b = absurd (ground arith)
lex_lt_trans (x ∷ xs) (y ∷ ys) (z ∷ zs) a b = ground (arith, lex_lt_trans xs ys zs)

pub lex_lt_total :
    (xs ys : List ℕ) → list_eq xs ys ≡ false → lex_lt xs ys ≡ false → lex_lt ys xs ≡ true
lex_lt_total [] [] a b = absurd (ground arith)
lex_lt_total (x ∷ xs) [] a b = refl
lex_lt_total [] (y ∷ ys) a b = absurd (ground arith)
lex_lt_total (x ∷ xs) (y ∷ ys) a b = ground (arith, lex_lt_total xs ys)

-- The order of a key type: a strict order with the equality that goes by it.
pub record Ord {ℓ} (K : Type ℓ) : Type ℓ where
  pub eq : K → K → Bool
  pub lt : K → K → Bool
  pub eq_iff : (a b : K) → (eq a b ≡ true) ↔ (a ≡ b)
  pub irrefl : (a : K) → lt a a ≡ false
  pub trans : (a b c : K) → lt a b ≡ true → lt b c ≡ true → lt a c ≡ true
  pub total : (a b : K) → eq a b ≡ false → lt a b ≡ false → lt b a ≡ true

pub nat_lt_total : (a b : ℕ) → (a == b) ≡ false → ltb a b ≡ false → ltb b a ≡ true
nat_lt_total a b h k = ground arith

pub nat_lt_irrefl : (a : ℕ) → ltb a a ≡ false
nat_lt_irrefl a = ground arith

pub nat_lt_trans : (a b c : ℕ) → ltb a b ≡ true → ltb b c ≡ true → ltb a c ≡ true
nat_lt_trans a b c h k = ground arith

instance abbrev pub nat_ord : Ord ℕ
nat_ord = record {
  eq = ◌==◌;
  lt = ltb;
  eq_iff = ==_iff;
  total = nat_lt_total;
  irrefl = nat_lt_irrefl;
  trans = nat_lt_trans;
}

instance abbrev pub text_ord : Ord (List ℕ)
text_ord = record {
  eq = list_eq;
  lt = lex_lt;
  eq_iff = list_eq_iff;
  total = lex_lt_total;
  irrefl = lex_lt_irrefl;
  trans = lex_lt_trans;
}
