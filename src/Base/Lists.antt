-- ===== src/Base/Lists.antt =====
-- Lists measured by native numbers, the predicate that all elements satisfy, and searches.
use Prim.Native.Nat.{ℕ, zero, suc, ◌+◌, min}
use mathlib.Core.Path.{◌≡◌, refl, subst}
use mathlib.Core.Bool.{Bool, true, false}
use mathlib.Core.Logic.{◌⊎◌, inl, inr}
use mathlib.Core.List.{List, [], ◌∷◌, ◌++◌, map}
use mathlib.Core.Option.{Option, none, some}
use native.Mathlib.Omega.{arith}
use io_t_midterm_availabilit.Base.Tests.{if◌then◌else◌, Bool-cases}

module _ {ℓ} {A : Type ℓ} where
  abbrev pub length : List A → ℕ
  length [] = 0
  length (x ∷ xs) = suc (length xs)

  abbrev pub take : ℕ → List A → List A
  take zero xs = []
  take (suc n) [] = []
  take (suc n) (x ∷ xs) = x ∷ take n xs

  abbrev pub drop : ℕ → List A → List A
  drop zero xs = xs
  drop (suc n) [] = []
  drop (suc n) (x ∷ xs) = drop n xs

  pub length-append : (xs ys : List A) → length (xs ++ ys) ≡ length xs + length ys
  length-append [] ys = omega arith
  length-append (x ∷ xs) ys = omega (arith, length-append xs ys)

  pub length-take : (n : ℕ) (xs : List A) → length (take n xs) ≡ min n (length xs)
  length-take zero xs = omega arith
  length-take (suc n) [] = omega arith
  length-take (suc n) (x ∷ xs) = omega (arith, length-take n xs)

  -- `Array.prototype.find`, `some` and `filter` with a Boolean test.
  unfoldable pub find : (A → Bool) → List A → Option A
  find p [] = none
  find p (x ∷ xs) = if p x then some x else find p xs

  unfoldable pub any : (A → Bool) → List A → Bool
  any p [] = false
  any p (x ∷ xs) = if p x then true else any p xs

  unfoldable pub filter : (A → Bool) → List A → List A
  filter p [] = []
  filter p (x ∷ xs) = if p x then x ∷ filter p xs else filter p xs

  abbrev pub All {κ} : (A → Type κ) → List A → Type κ
  All P [] = Unit
  All P (x ∷ xs) = P x × All P xs

  -- `x` stands in the list.
  pub data In (x : A) : List A → Type ℓ where
    here : {xs : List A} → In x (x ∷ xs)
    there : {y : A} {xs : List A} → In x xs → In x (y ∷ xs)

module _ {ℓ} {A : Type ℓ} where
  pub All-In {κ} : (P : A → Type κ) (xs : List A) {x : A} → All P xs → In x xs → P x
  All-In P [] h i = elim i [ ]
  All-In P (y ∷ ys) h here = h.0
  All-In P (y ∷ ys) h (there i) = All-In P ys h.1 i

  pub All-of-In {κ} : (P : A → Type κ) (xs : List A) → ((x : A) → In x xs → P x) → All P xs
  All-of-In P [] h = tt
  All-of-In P (x ∷ xs) h = (h x here, All-of-In P xs (λ y i. h y (there i)))

  pub In-append_right : (xs : List A) {ys : List A} {x : A} → In x ys → In x (xs ++ ys)
  In-append_right [] i = i
  In-append_right (y ∷ xs) i = there (In-append_right xs i)

  pub All-append {κ} : (P : A → Type κ) (xs ys : List A) → All P xs → All P ys → All P (xs ++ ys)
  All-append P [] ys hx hy = hy
  All-append P (x ∷ xs) ys hx hy = (hx.0, All-append P xs ys hx.1 hy)

  -- What `find` answers: the first element that passes, or none passes.
  pub find-In : (p : A → Bool) (xs : List A) {x : A} → find p xs ≡ some x → In x xs × (p x ≡ true)
  unfolding find
  find-In p [] e = cc
  find-In p (y ∷ ys) {x} e = elim (Bool-cases (p y)) [
    | inl t ↦ let same : y ≡ x = ground arith in rw (← same) (here, t)
    | inr f ↦ let (i, q) = find-In p ys (ground arith) in (there i, q)
  ]

  pub find-none : (p : A → Bool) (xs : List A) → find p xs ≡ none → All (λ x. p x ≡ false) xs
  unfolding find
  find-none p [] e = tt
  find-none p (y ∷ ys) e = ground (arith, find-none p ys)

module _ {ℓ} {A : Type ℓ} where
  pub In-cons : {x y : A} {ys : List A} → In x (y ∷ ys) → (x ≡ y) ⊎ In x ys
  In-cons here = inl refl
  In-cons (there i) = inr i

  -- What `filter` keeps.
  pub In-filter : (p : A → Bool) (xs : List A) {x : A} → In x (filter p xs) → In x xs × (p x ≡ true)
  unfolding filter
  In-filter p [] i = elim i [ ]
  In-filter p (y ∷ ys) {x} i = elim (Bool-cases (p y)) [
    | inl e ↦ elim (In-cons (subst (In x) (rw e) i)) [
      | inl same ↦ rw same (here, e)
      | inr j ↦ let (k, q) = In-filter p ys j in (there k, q)
    ]
    | inr e ↦ let (j, q) = In-filter p ys (subst (In x) (rw e) i) in (there j, q)
  ]

  pub filter-In : (p : A → Bool) (xs : List A) {x : A} → In x xs → p x ≡ true → In x (filter p xs)
  unfolding filter
  filter-In p [] i e = elim i [ ]
  filter-In p (y ∷ ys) here e = rw e here
  filter-In p (y ∷ ys) (there i) e = elim (Bool-cases (p y)) [
    | inl f ↦ rw f (there (filter-In p ys i e))
    | inr f ↦ rw f (filter-In p ys i e)
  ]

  -- What holds of all elements holds of the first ones.
  pub All-take {κ} : (P : A → Type κ) (n : ℕ) (xs : List A) → All P xs → All P (take n xs)
  All-take P zero xs h = tt
  All-take P (suc n) [] h = tt
  All-take P (suc n) (x ∷ xs) h = (h.0, All-take P n xs h.1)

  -- No element passes where `some` answers false.
  pub any-All : (p : A → Bool) (xs : List A) → any p xs ≡ false → All (λ x. p x ≡ false) xs
  unfolding any
  any-All p [] h = tt
  any-All p (x ∷ xs) h = elim (Bool-cases (p x)) [
    | inl e ↦ ground arith
    | inr e ↦ (e, any-All p xs (ground arith))
  ]

module _ {ℓ κ} {A : Type ℓ} {B : Type κ} where
  pub In-map : (f : A → B) (xs : List A) {y : B} → In y (map f xs) → (x : A) × In x xs × (y ≡ f x)
  In-map f [] i = elim i [ ]
  In-map f (x ∷ xs) i = elim (In-cons i) [
    | inl same ↦ (x, here, same)
    | inr j ↦ let (z, k, e) = In-map f xs j in (z, there k, e)
  ]

  pub map-In : (f : A → B) (xs : List A) {x : A} → In x xs → In (f x) (map f xs)
  map-In f [] i = elim i [ ]
  map-In f (x ∷ xs) i = elim (In-cons i) [ inl same ↦ rw same here | inr j ↦ there (map-In f xs j) ]
