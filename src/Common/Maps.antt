-- ===== src/Common/Maps.antt =====
-- `BTreeMap`: its entries in ascending order of their keys.
use mathlib.Core.List.{append_assoc, append-nil}
use oh_my_dream.Common.{
  ◌≡◌, refl, subst, Bool, true, false, ◌&&◌, Option, none, some, List, [], ◌∷◌, ◌++◌, all, Result,
  ok, err, Bool-cases, inl, inr, if◌then◌else◌, arith,
}
use oh_my_dream.Common.Bytes.{Ord}

abbrev pub BTreeMap : Type 0 → Type 0 → Type 0
BTreeMap K V = List (K × V)

module _ {K V : Type 0} ⦃o : Ord K⦄ where
  abbrev pub get : K → BTreeMap K V → Option V
  get k [] = none
  get k ((j, v) ∷ m) = if o.eq k j then some v else get k m

  abbrev pub contains_key : K → BTreeMap K V → Bool
  contains_key k [] = false
  contains_key k ((j, v) ∷ m) = if o.eq k j then true else contains_key k m

  abbrev pub insert : K → V → BTreeMap K V → BTreeMap K V
  insert k v [] = (k, v) ∷ []
  insert k v ((j, w) ∷ m) =
      let rest = insert k v m in
      if o.eq k j then (k, v) ∷ m else if o.lt k j then (k, v) ∷ (j, w) ∷ m else (j, w) ∷ rest

  abbrev pub remove : K → BTreeMap K V → BTreeMap K V
  remove k [] = []
  remove k ((j, w) ∷ m) = let rest = remove k m in if o.eq k j then m else (j, w) ∷ rest

  abbrev pub retain : (K → Bool) → BTreeMap K V → BTreeMap K V
  retain p [] = []
  retain p ((j, w) ∷ m) = let rest = retain p m in if p j then (j, w) ∷ rest else rest

  -- A loop of `insert` that stops at the first key that was there.
  abbrev pub collect_onto : {E : Type 0} → E → List (K × V) → BTreeMap K V → Result E (BTreeMap K V)
  collect_onto e [] m = ok m
  collect_onto e ((k, v) ∷ rest) m =
      let next = collect_onto e rest (insert k v m) in if contains_key k m then err e else next

  -- All keys come after `k`.
  abbrev pub above : K → BTreeMap K V → Bool
  above k m = all (λ e. o.lt k e.0) m

  abbrev pub IsSorted : BTreeMap K V → Type 0
  IsSorted [] = Unit
  IsSorted ((k, v) ∷ m) = (above k m ≡ true) × IsSorted m

  pub get-insert :
      (j k : K) (v : V) (m : BTreeMap K V)
      → get j (insert k v m) ≡ (if o.eq j k then some v else get j m)
  get-insert j k v [] = refl
  get-insert j k v ((i, w) ∷ m) =
      ground (arith, o.eq_iff j k, o.eq_iff k i, o.eq_iff j i, get-insert j k v m)

  pub above_trans :
      (k j : K) (m : BTreeMap K V) → o.lt k j ≡ true → above j m ≡ true → above k m ≡ true
  above_trans k j [] h a = refl
  above_trans k j ((i, w) ∷ m) h a = ground (arith, o.trans k j i, above_trans k j m)

  pub above-insert :
      (j k : K) (v : V) (m : BTreeMap K V)
      → o.lt j k ≡ true
      → above j m ≡ true
      → above j (insert k v m) ≡ true
  above-insert j k v [] h a = ground arith
  above-insert j k v ((i, w) ∷ m) h a = ground (arith, above-insert j k v m)

  pub insert-IsSorted : (k : K) (v : V) (m : BTreeMap K V) → IsSorted m → IsSorted (insert k v m)
  insert-IsSorted k v [] s = (refl, tt)
  insert-IsSorted k v ((i, w) ∷ m) s = elim (Bool-cases (o.eq k i)) [
    | inl e ↦ ground (arith, o.eq_iff k i)
    | inr e ↦ elim (Bool-cases (o.lt k i)) [
      | inl l ↦ ground (arith, above_trans k i m)
      | inr l ↦ ground (arith, o.total k i, above-insert i k v m, insert-IsSorted k v m)
    ]
  ]

  -- A key above all others goes to the end.
  pub insert_last :
      (k : K) (v : V) (m : BTreeMap K V)
      → all (λ e. o.lt e.0 k) m ≡ true
      → insert k v m ≡ m ++ (k, v) ∷ []
  insert_last k v [] h = refl
  insert_last k v ((i, w) ∷ m) h =
      ground (arith, o.eq_iff k i, o.irrefl k, o.irrefl i, o.trans k i k, insert_last k v m)

  above-append : (k : K) (m l : BTreeMap K V) → above k (m ++ l) ≡ (above k m && above k l)
  above-append k [] l = refl
  above-append k ((i, w) ∷ m) l = ground (arith, above-append k m l)

  pub below_of_IsSorted :
      (k : K) (v : V) (m l : BTreeMap K V)
      → IsSorted (m ++ (k, v) ∷ l)
      → all (λ e. o.lt e.0 k) m ≡ true
  below_of_IsSorted k v [] l s = refl
  below_of_IsSorted k v ((i, w) ∷ m) l s =
      ground (arith, above-append i m ((k, v) ∷ l), below_of_IsSorted k v m l)

  not-contains_key-below :
      (k : K) (m : BTreeMap K V) → all (λ e. o.lt e.0 k) m ≡ true → contains_key k m ≡ false
  not-contains_key-below k [] h = refl
  not-contains_key-below k ((i, w) ∷ m) h =
      ground (arith, o.eq_iff k i, o.irrefl k, not-contains_key-below k m)

  -- A list in ascending order is collected as it is.
  pub collect_onto_of_IsSorted :
      {E : Type 0} (e : E) (l m : BTreeMap K V)
      → IsSorted (m ++ l)
      → collect_onto e l m ≡ ok (m ++ l)
  collect_onto_of_IsSorted e [] m s = rw append-nil refl
  collect_onto_of_IsSorted e ((k, v) ∷ l) m s =
      let below = below_of_IsSorted k v m l s in
      let s' : IsSorted ((m ++ (k, v) ∷ []) ++ l) = rw append_assoc s in
      ground (
        arith,
        not-contains_key-below k m below,
        insert_last k v m below,
        collect_onto_of_IsSorted e l (m ++ (k, v) ∷ []) s',
        append_assoc m ((k, v) ∷ []) l,
      )

  -- What is collected is in ascending order.
  pub collect_onto-IsSorted :
      {E : Type 0} (e : E) (l m r : BTreeMap K V)
      → IsSorted m
      → collect_onto e l m ≡ ok r
      → IsSorted r
  collect_onto-IsSorted e [] m r s h = subst IsSorted (ground arith) s
  collect_onto-IsSorted e ((k, v) ∷ l) m r s h =
      collect_onto-IsSorted e l (insert k v m) r (insert-IsSorted k v m s) (ground arith)

  above-remove : (j k : K) (m : BTreeMap K V) → above j m ≡ true → above j (remove k m) ≡ true
  above-remove j k [] h = refl
  above-remove j k ((i, w) ∷ m) h = ground (arith, above-remove j k m)

  pub remove-IsSorted : (k : K) (m : BTreeMap K V) → IsSorted m → IsSorted (remove k m)
  remove-IsSorted k [] s = tt
  remove-IsSorted k ((i, w) ∷ m) s = ground (arith, above-remove i k m, remove-IsSorted k m)

  above-retain :
      (j : K) (p : K → Bool) (m : BTreeMap K V) → above j m ≡ true → above j (retain p m) ≡ true
  above-retain j p [] h = refl
  above-retain j p ((i, w) ∷ m) h = ground (arith, above-retain j p m)

  pub retain-IsSorted : (p : K → Bool) (m : BTreeMap K V) → IsSorted m → IsSorted (retain p m)
  retain-IsSorted p [] s = tt
  retain-IsSorted p ((i, w) ∷ m) s = ground (arith, above-retain i p m, retain-IsSorted p m)

  -- The entry of a key after entries of smaller keys.
  pub get_after :
      (k : K) (v : V) (m l : BTreeMap K V)
      → all (λ e. o.lt e.0 k) m ≡ true
      → get k (m ++ (k, v) ∷ l) ≡ some v
  get_after k v [] l h = ground (arith, o.eq_iff k k)
  get_after k v ((i, w) ∷ m) l h = ground (arith, o.eq_iff k i, o.irrefl k, get_after k v m l)

  pub insert_after :
      (k : K) (v w : V) (m l : BTreeMap K V)
      → all (λ e. o.lt e.0 k) m ≡ true
      → insert k v (m ++ (k, w) ∷ l) ≡ m ++ (k, v) ∷ l
  insert_after k v w [] l h = ground (arith, o.eq_iff k k)
  insert_after k v w ((i, x) ∷ m) l h =
      ground (arith, o.eq_iff k i, o.irrefl k, o.irrefl i, o.trans k i k, insert_after k v w m l)

  pub remove_after :
      (k : K) (w : V) (m l : BTreeMap K V)
      → all (λ e. o.lt e.0 k) m ≡ true
      → remove k (m ++ (k, w) ∷ l) ≡ m ++ l
  remove_after k w [] l h = ground (arith, o.eq_iff k k)
  remove_after k w ((i, x) ∷ m) l h = ground (arith, o.eq_iff k i, o.irrefl k, remove_after k w m l)

  pub get-above : (k : K) (m : BTreeMap K V) → above k m ≡ true → get k m ≡ none
  get-above k [] h = refl
  get-above k ((i, w) ∷ m) h = ground (arith, o.eq_iff k i, o.irrefl k, get-above k m)

  pub get-remove :
      (j k : K) (m : BTreeMap K V)
      → IsSorted m
      → get j (remove k m) ≡ (if o.eq j k then none else get j m)
  get-remove j k [] s = ground arith
  get-remove j k ((i, w) ∷ m) s =
      ground (arith, o.eq_iff j k, o.eq_iff k i, o.eq_iff j i, get-above i m, get-remove j k m)

  pub insert-insert :
      (k : K) (v w : V) (m : BTreeMap K V) → insert k v (insert k w m) ≡ insert k v m
  insert-insert k v w [] = ground (arith, o.eq_iff k k)
  insert-insert k v w ((i, x) ∷ m) =
      ground (arith, o.eq_iff k k, o.eq_iff k i, insert-insert k v w m)

  -- Writing what is there changes nothing.
  pub insert_same :
      (k : K) (v : V) (m : BTreeMap K V) → IsSorted m → get k m ≡ some v → insert k v m ≡ m
  insert_same k v [] s h = absurd (ground arith)
  insert_same k v ((i, x) ∷ m) s h =
      ground (arith, o.eq_iff k i, get-above k m, above_trans k i m, insert_same k v m)
