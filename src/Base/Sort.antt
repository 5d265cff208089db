-- ===== src/Base/Sort.antt =====
-- `Array.prototype.sort`, which is stable, as insertion from the end; its laws for any comparator
-- and, where the comparator is an order, that the result is in order.
use Prim.Native.Nat.{suc}
use mathlib.Core.Path.{◌≡◌, refl, ◌∙◌, ap, subst}
use mathlib.Core.Logic.{◌⊎◌, inl, inr}
use mathlib.Core.Bool.{true}
use mathlib.Core.List.{List, [], ◌∷◌}
use native.Mathlib.Omega.{arith}
use io_t_midterm_availabilit.Base.Tests.{if◌then◌else◌, Bool-cases}
use io_t_midterm_availabilit.Base.Lists.{length, In, here, there, In-cons}
use io_t_midterm_availabilit.Base.Compare.{Comparison, is_after, AtMost, IsOrder}

module _ {ℓ} {A : Type ℓ} where
  -- An element goes before the first one that it is not after.
  unfoldable pub insert : (A → A → Comparison) → A → List A → List A
  insert cmp x [] = x ∷ []
  insert cmp x (y ∷ ys) =
      let rest = insert cmp x ys in if is_after (cmp x y) then y ∷ rest else x ∷ y ∷ ys

  unfoldable pub sort_by : (A → A → Comparison) → List A → List A
  unfolding insert
  sort_by cmp [] = []
  sort_by cmp (x ∷ xs) = insert cmp x (sort_by cmp xs)

  -- Every element is related to all that stand behind it.
  abbrev pub Pairs {κ} : (A → A → Type κ) → List A → Type (ℓ ⊔ κ)
  Pairs R [] = Unit
  Pairs R (x ∷ xs) = ((y : A) → In y xs → R x y) × Pairs R xs

module _ {ℓ} {A : Type ℓ} (cmp : A → A → Comparison) where
  pub In-insert : (x : A) (ys : List A) {z : A} → In z (insert cmp x ys) → (z ≡ x) ⊎ In z ys
  unfolding insert
  In-insert x [] i = In-cons i
  In-insert x (y ∷ ys) {z} i = elim (Bool-cases (is_after (cmp x y))) [
    | inl e ↦ elim (In-cons (subst (In z) (rw e) i)) [
      | inl same ↦ inr (rw same here)
      | inr j ↦ elim (In-insert x ys j) [ inl same ↦ inl same | inr k ↦ inr (there k) ]
    ]
    | inr e ↦ In-cons (subst (In z) (rw e) i)
  ]

  pub insert-In : (x : A) (ys : List A) {z : A} → (z ≡ x) ⊎ In z ys → In z (insert cmp x ys)
  unfolding insert
  insert-In x [] (inl same) = rw same here
  insert-In x [] (inr i) = elim i [ ]
  insert-In x (y ∷ ys) {z} p = elim (Bool-cases (is_after (cmp x y))) [
    | inl e ↦ rw e (elim p [
      | inl same ↦ there (insert-In x ys (inl same))
      | inr i ↦ elim (In-cons i) [
        | inl same ↦ rw same here
        | inr j ↦ there (insert-In x ys (inr j))
      ]
    ])
    | inr e ↦ rw e (elim p [ inl same ↦ rw same here | inr i ↦ there i ])
  ]

  pub In-sort_by : (xs : List A) {z : A} → In z (sort_by cmp xs) → In z xs
  unfolding sort_by
  In-sort_by [] i = i
  In-sort_by (x ∷ xs) i = elim (In-insert x (sort_by cmp xs) i) [
    | inl same ↦ rw same here
    | inr j ↦ there (In-sort_by xs j)
  ]

  pub sort_by-In : (xs : List A) {z : A} → In z xs → In z (sort_by cmp xs)
  unfolding sort_by
  sort_by-In [] i = i
  sort_by-In (x ∷ xs) i =
      insert-In x (sort_by cmp xs)
        (elim (In-cons i) [ inl same ↦ inl same | inr j ↦ inr (sort_by-In xs j) ])

  length-insert : (x : A) (ys : List A) → length (insert cmp x ys) ≡ suc (length ys)
  unfolding insert
  length-insert x [] = refl
  length-insert x (y ∷ ys) = ground (arith, length-insert x ys)

  pub length-sort_by : (xs : List A) → length (sort_by cmp xs) ≡ length xs
  unfolding sort_by
  length-sort_by [] = refl
  length-sort_by (x ∷ xs) = length-insert x (sort_by cmp xs) ∙ ap suc (length-sort_by xs)

  -- A symmetric relation between any two elements outlives the sort.
  module _ {κ} (R : A → A → Type κ) (symmetric : (a b : A) → R a b → R b a) where
    Pairs-insert :
        (x : A) (ys : List A) → ((y : A) → In y ys → R x y) → Pairs R ys → Pairs R (insert cmp x ys)
    unfolding insert
    Pairs-insert x [] h p = (h, p)
    Pairs-insert x (y ∷ ys) h p = elim (Bool-cases (is_after (cmp x y))) [
      | inl e ↦ rw e (
        λ z i. elim (In-insert x ys i) [
          | inl same ↦ rw same (symmetric x y (h y here))
          | inr j ↦ p.0 z j
        ],
        Pairs-insert x ys (λ z i. h z (there i)) p.1,
      )
      | inr e ↦ rw e (h, p)
    ]

    pub Pairs-sort_by : (xs : List A) → Pairs R xs → Pairs R (sort_by cmp xs)
    unfolding sort_by
    Pairs-sort_by [] p = p
    Pairs-sort_by (x ∷ xs) p =
        Pairs-insert x (sort_by cmp xs) (λ y i. p.0 y (In-sort_by xs i)) (Pairs-sort_by xs p.1)

  -- The result is in order.
  module _ (P : A → Type 0) (order : IsOrder P cmp) where
    ordered_insert :
        (x : A) (ys : List A)
        → P x
        → ((y : A) → In y ys → P y)
        → Pairs (λ a b. AtMost (cmp a b)) ys
        → Pairs (λ a b. AtMost (cmp a b)) (insert cmp x ys)
    unfolding insert
    ordered_insert x [] px h p = (λ y i. elim i [ ], tt)
    ordered_insert x (y ∷ ys) px h p = elim (Bool-cases (is_after (cmp x y))) [
      | inl e ↦ rw e (
        λ z i. elim (In-insert x ys i) [ inl same ↦ rw same (before_it e) | inr j ↦ p.0 z j ],
        ordered_insert x ys px (λ z i. h z (there i)) p.1,
      )
      | inr e ↦ rw e (
        λ z i. elim (In-cons i) [
          | inl same ↦ rw same e
          | inr j ↦ order.trans x y z px (h y here) (h z (there j)) e (p.0 z j)
        ],
        p,
      )
    ]
      where
        before_it : is_after (cmp x y) ≡ true → AtMost (cmp y x)
        before_it e = ground (arith, order.flips x y px (h y here))

    pub ordered_sort_by :
        (xs : List A) → ((x : A) → In x xs → P x) → Pairs (λ a b. AtMost (cmp a b)) (sort_by cmp xs)
    unfolding sort_by
    ordered_sort_by [] h = tt
    ordered_sort_by (x ∷ xs) h =
        ordered_insert x (sort_by cmp xs) (h x here) (λ y i. h y (there (In-sort_by xs i)))
          (ordered_sort_by xs (λ y i. h y (there i)))
